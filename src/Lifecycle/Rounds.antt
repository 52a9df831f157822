-- ===== src/Lifecycle/Rounds.antt =====
-- What one round of the worker leaves of the row that it claimed
-- (Service.process of api/internal/compute/worker.go).
use shake_cloud.Prelude.{
  is_text, is_text_from, Bool-cases, inr, inl, ◌++◌, codes, ◌+◌, sym, false, Option, subst, ℕ,
  String, ◌≡◌, refl, true, none, some, List, find, find-passes, arith,
}
use shake_cloud.Db.Instance.{
  State, Action, launch, start, stop, reboot, terminate, Instance, has_id, same_action,
}
use shake_cloud.Db.Instances.{
  Rows, finish_action, finished, retried, retry_later, abandon_launch, give_up_action, has_action,
}
use shake_cloud.Db.Keys.{find-update_where, find-update, find-any}
use shake_cloud.Lifecycle.Diagram.{target, fallback, IsDoomed}
use shake_cloud.Lifecycle.Worker.{
  Setting, Effects, done, fault, carry_out, process, may_retry, kept_reason, truncate, give_up,
}
use shake_cloud.Lifecycle.Backoff.{backoff, add_duration}
use shake_cloud.Lifecycle.WorkerSteps.{record_done-rows, carry_out-target}

same_action_refl : (a : Action) → same_action (some a) (some a) ≡ true
same_action_refl a = ground arith

-- The row is still waiting for the action that the worker claimed.
abbrev pub Waits : Instance → Action → Rows → Type 0
Waits i a rows =
    (i.pending_action ≡ some a)
    × ((x : Instance) × (find (has_id i.id) rows ≡ some x) × (x.pending_action ≡ some a))

has_action-Waits :
    (i : Instance) (a : Action) (x : Instance) (rows : Rows)
    → i.pending_action ≡ some a
    → find (has_id i.id) rows ≡ some x
    → x.pending_action ≡ some a
    → has_action i.id i.pending_action x ≡ true
has_action-Waits i a x rows mine e h =
    let key = find-passes (has_id i.id) rows e in
    subst (λ p. has_action i.id p x ≡ true) (sym mine) (rw (key, h) (same_action_refl a))

finish_action-found :
    (now : ℕ) (k : String) (a : Option Action) (to : State) (reason : List ℕ) (rows : Rows)
    {x : Instance}
    → find (has_id k) rows ≡ some x
    → has_action k a x ≡ true
    → find (has_id k) (finish_action now k a to reason rows).1 ≡ some (finished now to reason x)
unfolding finish_action
finish_action-found now k a to reason rows {x} e h =
    let found = find-update k (has_action k a) (finished now to reason) rows (λ y. refl) e in
    let some_row = find-any k (has_action k a) rows e h in rw some_row (rw h at found)

retry_later-found :
    (now : ℕ) (k : String) (a : Option Action) (message : List ℕ) (next : ℕ) (rows : Rows)
    {x : Instance}
    → find (has_id k) rows ≡ some x
    → has_action k a x ≡ true
    → is_text message ≡ true
    → find (has_id k) (retry_later now k a message next rows) ≡ some (retried now message next x)
unfolding retry_later
retry_later-found now k a message next rows {x} e h text =
    let found = find-update k (has_action k a) (retried now message next) rows (λ y. refl) e in
    rw text
      (find-update_where k (λ i. record i { lease_until = none }) _ (λ y. refl) (rw h at found))

-- A round that succeeds, on a row that still waits for the action, settles the row: it is in the
-- state that the action leads to, with nothing pending, no lease and no attempts counted.
pub round_settles :
    (c : Setting) (fx : Effects) (i : Instance) (a : Action) (rows : Rows) {s : State}
    → Waits i a rows
    → carry_out fx i ≡ done s
    → (j : Instance) × (find (has_id i.id) (process c i (carry_out fx i) rows).0 ≡ some j)
      × (j.state ≡ target a)
      × (j.pending_action ≡ none)
      × (j.lease_until ≡ none)
      × (j.attempts ≡ 0)
unfolding process
round_settles c fx i a rows {s} (mine, (x, found, waits)) e =
    let fin =
      finish_action-found c.now i.id i.pending_action s (kept_reason i) rows found
        (has_action-Waits i a x rows mine found waits) in
    (
      finished c.now s (kept_reason i) x,
      rw e (rw record_done-rows fin),
      carry_out-target fx i e a mine,
      refl,
      refl,
      refl,
    )

-- A round that fails, on a row that still waits for the action, with attempts left or on a
-- terminate, not by cancellation, and with an error whose first 500 bytes are text, keeps the state and the action, counts one attempt, frees
-- the lease, keeps the error's first 500 bytes, and waits for the backoff of that attempt.
pub round_retries :
    (c : Setting) (i : Instance) (a : Action) (text : List ℕ) (rows : Rows)
    → Waits i a rows
    → c.cancelled ≡ false
    → may_retry c i ≡ true
    → is_text (truncate text 500) ≡ true
    → (x j : Instance) × (find (has_id i.id) rows ≡ some x)
      × (find (has_id i.id) (process c i (fault text) rows).0 ≡ some j)
      × (j.state ≡ x.state)
      × (j.pending_action ≡ some a)
      × (j.attempts ≡ x.attempts + 1)
      × (j.lease_until ≡ none)
      × (j.last_error ≡ truncate text 500)
      × (j.next_attempt_at
          ≡ add_duration c.clock (backoff c.overflow c.retry_delay (i.attempts + 1)))
unfolding process
round_retries c i a text rows (mine, (x, found, waits)) live retry readable =
    let next = add_duration c.clock (backoff c.overflow c.retry_delay (i.attempts + 1)) in
    let after =
      retry_later-found c.now i.id i.pending_action (truncate text 500) next rows found
        (has_action-Waits i a x rows mine found waits) readable in
    (
      x,
      retried c.now (truncate text 500) next x,
      found,
      simp (live, retry) after,
      refl,
      waits,
      refl,
      refl,
      refl,
      refl,
    )

-- What an action that is given up leaves: an abandoned launch is on its way to be terminated, and a
-- power action falls back to the state that the machine is taken to be in.
abbrev pub GaveUp : Action → Instance → Type 0
GaveUp launch j = IsDoomed j
GaveUp terminate j = ⊥
GaveUp a j = (j.state ≡ fallback a) × (j.pending_action ≡ none)

reason-not_text :
    (message : List ℕ)
    → is_text message ≡ false
    → is_text (codes "Server.InternalError: " ++ message) ≡ false
unfolding is_text is_text_from
reason-not_text message h = h

give_up-refused :
    (c : Setting) (i : Instance) (reason : List ℕ) (a : Option Action) (rows : Rows)
    → is_text reason ≡ false
    → (give_up c i reason a rows).0 ≡ rows
unfolding abandon_launch give_up_action
give_up-refused c i reason (some launch) rows h = rw h refl
give_up-refused c i reason (some start) rows h = rw h refl
give_up-refused c i reason (some stop) rows h = rw h refl
give_up-refused c i reason (some reboot) rows h = rw h refl
give_up-refused c i reason (some terminate) rows h = rw h refl
give_up-refused c i reason none rows h = rw h refl

retry_later-refused :
    (now : ℕ) (k : String) (a : Option Action) (message : List ℕ) (at : ℕ) (rows : Rows)
    → is_text message ≡ false
    → retry_later now k a message at rows ≡ rows
unfolding retry_later
retry_later-refused now k a message at rows h = rw h refl

-- A round that fails, not by cancellation, with an error whose first 500 bytes are not text (a
-- character is cut in two, say), records nothing: the table is as it was, the attempt is not counted,
-- and the lease stays until it runs out, whether the action was to be retried or given up.
pub round_unrecorded :
    (c : Setting) (i : Instance) (text : List ℕ) (rows : Rows)
    → c.cancelled ≡ false
    → is_text (truncate text 500) ≡ false
    → (process c i (fault text) rows).0 ≡ rows
unfolding process
round_unrecorded c i text rows live cut = elim (Bool-cases (may_retry c i)) [
  | inl e ↦ rw (live, e) (retry_later-refused c.now i.id i.pending_action _ _ rows cut)
  | inr e ↦
      rw (live, e)
        (give_up-refused c i _ i.pending_action rows (reason-not_text (truncate text 500) cut))
]
