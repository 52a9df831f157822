-- ===== src/Lifecycle/Asking.antt =====
-- What a caller of Service.Request sees (api/internal/compute/service.go).
use shake_cloud.Prelude.{
  ℕ, ◌||◌, ◌&&◌, not, String, ◌≡◌, ◌⊎◌, inl, inr, refl, Bool, true, false, Option, none, some, All,
  find-All, find, update_where, Bool-cases, arith, subst, sym, ◌∙◌,
}
use shake_cloud.Result.{Err, Result, ok, err, begin_func, >>=-eq-ok, ok-injective}
use shake_cloud.Db.Instance.{
  State, pending, running, stopping, stopped, shutting_down, terminated, Action, launch, start,
  stop, reboot, terminate, Instance, has_id, same_action, state_eq,
}
use shake_cloud.Db.Instances.{Rows, with_action, lock_instance, set_action, or_missing}
use shake_cloud.Lifecycle.RequestSteps.{visible-lock}
use shake_cloud.Lifecycle.Diagram.{IsConsistent, IsDoomed}
use shake_cloud.Db.Keys.{find-update_where}
use shake_cloud.Lifecycle.Request.{
  request, request_body, request_action, visible, busy, missing_instance,
}

begin_func-err :
    (rows : Rows) (b : Result (Instance × Rows)) {e : Err}
    → (begin_func rows b).0 ≡ err e
    → (begin_func rows b).1 ≡ rows
begin_func-err rows (ok r) h = cc
begin_func-err rows (err e) h = refl

visible-hidden :
    (authorize : Instance → Bool) (o : Option Instance)
    → ((i : Instance) → o ≡ some i → authorize i ≡ false)
    → visible authorize (or_missing o) ≡ err missing_instance
visible-hidden authorize none h = refl
visible-hidden authorize (some i) h = rw (h i refl)

-- An instance that the caller may not touch answers exactly like one that does not exist, and
-- nothing is written.
pub hidden_like_missing :
    (now : ℕ) (k : String) (action : Action) (authorize : Instance → Bool)
    (audit : Instance → Result (Unit {0})) (rows : Rows)
    → ((i : Instance) → find (has_id k) rows ≡ some i → authorize i ≡ false)
    → request now k action authorize audit rows ≡ (err missing_instance, rows, false)
unfolding request request_body lock_instance
hidden_like_missing now k action authorize audit rows h =
    rw (visible-hidden authorize (find (has_id k) rows) h)

-- The instance is where the action leads, or on its way there.
abbrev pub Heads : Action → Instance → Type 0
Heads terminate j = IsDoomed j
Heads stop j =
    ((j.state ≡ stopping) × (j.pending_action ≡ some stop))
    ⊎ ((j.state ≡ stopped) × (j.pending_action ≡ none))
Heads start j =
    ((j.state ≡ pending) × (j.pending_action ≡ some start))
    ⊎ ((j.state ≡ running) × (j.pending_action ≡ none))
Heads reboot j = (j.state ≡ running) × (j.pending_action ≡ some reboot)
Heads launch j = ⊥

set_action-found :
    (now : ℕ) (k : String) (to : State) (action : Action) (rows : Rows) {i : Instance}
    → find (has_id k) rows ≡ some i
    → set_action now k to action rows
      ≡ ok (with_action now to action i, update_where (has_id k) (with_action now to action) rows)
unfolding set_action
set_action-found now k to action rows {i} e =
    let found = find-update_where k (with_action now to action) rows (λ x. refl) e in ground arith

abbrev Headed : String → Action → Instance × Rows → Type 0
Headed k action r = (find (has_id k) r.1 ≡ some r.0) × Heads action r.0

kept :
    (k : String) (action : Action) (i : Instance) (rows : Rows) {r : Instance × Rows}
    → find (has_id k) rows ≡ some i
    → Heads action i
    → ◌≡◌ {A = Result (Instance × Rows)} (ok (i, rows)) (ok r)
    → Headed k action r
kept k action i rows e h q = subst (Headed k action) (ok-injective q) (e, h)

recorded :
    (now : ℕ) (k : String) (to : State) (action : Action) (i : Instance) (rows : Rows)
    {r : Instance × Rows}
    → find (has_id k) rows ≡ some i
    → Heads action (with_action now to action i)
    → set_action now k to action rows ≡ ok r
    → Headed k action r
recorded now k to action i rows e h q =
    subst (Headed k action) (ok-injective (sym (set_action-found now k to action rows e) ∙ q))
      (find-update_where k (with_action now to action) rows (λ x. refl) e, h)

request_action-Heads :
    (now : ℕ) (k : String) (action : Action) (i : Instance) (rows : Rows) {r : Instance × Rows}
    → IsConsistent i
    → find (has_id k) rows ≡ some i
    → request_action now k action i rows ≡ ok r
    → Headed k action r
unfolding request_action
request_action-Heads now k terminate i rows fits e h =
    elim (Bool-cases
      (state_eq i.state terminated || same_action i.pending_action (some terminate))) [
        | inl t ↦ kept k terminate i rows e (ground arith) (rw t at h)
        | inr t ↦ recorded now k shutting_down terminate i rows e (inl (refl, refl)) (rw t at h)
      ]
request_action-Heads now k stop i rows fits e h =
    elim (Bool-cases
      ((state_eq i.state stopped && not (busy i)) || same_action i.pending_action (some stop))) [
        | inl t ↦ kept k stop i rows e (ground arith) (rw t at h)
        | inr t ↦ recorded now k stopping stop i rows e (inl (refl, refl)) (ground arith)
      ]
request_action-Heads now k start i rows fits e h =
    elim (Bool-cases
      ((state_eq i.state running && not (busy i)) || same_action i.pending_action (some start))) [
        | inl t ↦ kept k start i rows e (ground arith) (rw t at h)
        | inr t ↦ recorded now k pending start i rows e (inl (refl, refl)) (ground arith)
      ]
request_action-Heads now k reboot i rows fits e h =
    recorded now k running reboot i rows e (refl, refl) (ground arith)
request_action-Heads now k launch i rows fits e h = cc

begin_func-ok :
    (rows : Rows) (b : Result (Instance × Rows)) {j : Instance}
    → (begin_func rows b).0 ≡ ok j
    → b ≡ ok (j, (begin_func rows b).1)
begin_func-ok rows (ok (i, t)) h = ground arith
begin_func-ok rows (err e) h = cc

-- In a table whose rows are consistent, an accepted request leaves the instance, in the table
-- and in the answer, where the action leads or on its way there: also when nothing had to be
-- recorded.
pub request-Heads :
    (now : ℕ) (k : String) (action : Action) (authorize : Instance → Bool)
    (audit : Instance → Result (Unit {0})) (rows : Rows) {j : Instance}
    → All IsConsistent rows
    → let r = request now k action authorize audit rows in
      r.0 ≡ ok j → (find (has_id k) r.1 ≡ some j) × Heads action j
unfolding request request_body
request-Heads now k action authorize audit rows {j} fits h =
    let (i, locked, h1) =
      >>=-eq-ok (visible authorize (lock_instance k rows)) _ (begin_func-ok rows _ h) in
    let (c, asked, h2) = >>=-eq-ok (request_action now k action i rows) _ h1 in
    let (u, audited, h3) = >>=-eq-ok (audit c.0) _ h2 in
    let found = (visible-lock authorize k rows locked).0 in
    subst (Headed k action) (ok-injective h3) (
      request_action-Heads now k action i rows (find-All IsConsistent (has_id k) rows fits found)
        found asked)

-- A terminate of an instance that exists and that the caller may touch is accepted whatever its
-- state, if the audit never fails.
pub terminate_accepted :
    (now : ℕ) (k : String) (authorize : Instance → Bool) (audit : Instance → Result (Unit {0}))
    (rows : Rows) (i : Instance)
    → find (has_id k) rows ≡ some i
    → authorize i ≡ true
    → ((j : Instance) → audit j ≡ ok tt)
    → (j : Instance) × ((request now k terminate authorize audit rows).0 ≡ ok j)
unfolding request request_body request_action lock_instance
terminate_accepted now k authorize audit rows i e a accepts =
    elim (Bool-cases
      (state_eq i.state terminated || same_action i.pending_action (some terminate))) [
        | inl t ↦ (i, rw e (rw a (rw t (rw (accepts i)))))
        | inr t ↦
            let asked = set_action-found now k shutting_down terminate rows e in
            let j = with_action now shutting_down terminate i in
            (j, rw e (rw a (rw t (rw asked (rw (accepts j))))))
      ]
