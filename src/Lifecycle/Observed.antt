-- ===== src/Lifecycle/Observed.antt =====
-- What a reconciliation writes of one row (Service.Reconcile of api/internal/compute/reconcile.go).
use shake_cloud.Prelude.{
  if◌then◌else◌, Bool-cases, find, codes, ℕ, String, ◌≡◌, refl, ap, ◌∙◌, ◌≢◌, ◌⊎◌, inl, inr, Bool,
  true, false, ◌&&◌, not, Option, none, some, List, [], arith, str_eq, eq_iff,
}
use shake_cloud.Result.{Result, err, ok}
use shake_cloud.Db.Instance.{
  State, running, stopped, state_eq, state_eq_sound, Instance, is_none, has_id,
}
use shake_cloud.Db.Instances.{Rows, observe_state, bytes_eq, note_reason}
use shake_cloud.Db.Keys.{find-update}
use shake_cloud.Lifecycle.Diagram.{IsSettled}
use shake_cloud.Lifecycle.Reconcile.{
  Vm, find_vm, missing_reason, has_prefix, observed_of, shutdown_reason, settle, differs, with_live,
  reconcile_vm,
}

-- The status of a machine is that of the state.
abbrev pub Shows : String → State → Type 0
Shows status s = ((status ≡ "running") × (s ≡ running)) ⊎ ((status ≡ "stopped") × (s ≡ stopped))

-- The machine itself says that it is in another state than the row, and the row follows; a machine
-- that has stopped is taken to have been shut down from inside.
abbrev pub FollowsMachine : ℕ → (ℕ → Result String) → Vm → Instance → Instance → Type 0
FollowsMachine now live vm x j =
    (status : String) × (s : State) × (live vm.vmid ≡ ok status)
    × Shows status s
    × (s ≢ x.state)
    × (j ≡ record x { state = s; state_reason = shutdown_reason s; updated_at = now })

-- The row `j` that a reconciliation leaves of the row `x`.
abbrev pub IsReconciled : ℕ → List Vm → (ℕ → Result String) → Instance → Instance → Type 0
IsReconciled now vms live x j =
    (j ≡ x)
    ⊎ ((x.pending_action ≡ none)
        × IsSettled x.state
        × (((find_vm vms x.vmid ≡ none)
              × (j ≡ record x { state_reason = missing_reason; updated_at = now }))
            ⊎ ((vm : Vm) × (find_vm vms x.vmid ≡ some vm)
                × (FollowsMachine now live vm x j
                    ⊎ ((has_prefix (codes "Server.VMMissing") x.state_reason ≡ true)
                        × (j ≡ record x { state_reason = []; updated_at = now }))))))

-- Reading a row after the two statements.
abbrev noted : ℕ → String → List ℕ → Instance → Instance
noted now l reason j =
    if has_id l j && is_none j.pending_action && not (bytes_eq j.state_reason reason)
    then record j { state_reason = reason; updated_at = now }
    else j

note_reason-found :
    (now : ℕ) (k l : String) (reason : List ℕ) (t : Rows) {j : Instance}
    → find (has_id k) t ≡ some j
    → find (has_id k) (note_reason now l reason t) ≡ some (noted now l reason j)
unfolding note_reason
note_reason-found now k l reason t h =
    find-update k
      (λ i. has_id l i && is_none i.pending_action && not (bytes_eq i.state_reason reason))
      (λ i. record i { state_reason = reason; updated_at = now }) t (λ y. refl) h

abbrev observed : ℕ → String → State → State → List ℕ → Instance → Instance
observed now l from to reason j =
    if has_id l j && state_eq j.state from && is_none j.pending_action
    then record j { state = to; state_reason = reason; updated_at = now }
    else j

observe_state-found :
    (now : ℕ) (k l : String) (from to : State) (reason : List ℕ) (t : Rows) {j : Instance}
    → find (has_id k) t ≡ some j
    → find (has_id k) (observe_state now l from to reason t)
      ≡ some (observed now l from to reason j)
unfolding observe_state
observe_state-found now k l from to reason t h =
    find-update k (λ i. has_id l i && state_eq i.state from && is_none i.pending_action)
      (λ i. record i { state = to; state_reason = reason; updated_at = now }) t (λ y. refl) h

noted-other :
    (now : ℕ) (l : String) (reason : List ℕ) (j : Instance)
    → has_id l j ≡ false
    → noted now l reason j ≡ j
noted-other now l reason j h = rw h refl

observed-other :
    (now : ℕ) (l : String) (from to : State) (reason : List ℕ) (j : Instance)
    → has_id l j ≡ false
    → observed now l from to reason j ≡ j
observed-other now l from to reason j h = rw h refl

-- The row of another key stays.
settle-other :
    (now : ℕ) (k : String) (i : Instance) (o : Option State) (t : Rows) {j : Instance}
    → find (has_id k) t ≡ some j
    → has_id i.id j ≡ false
    → find (has_id k) (settle now i o t) ≡ some j
unfolding settle
settle-other now k i none t h other = h
settle-other now k i (some s) t {j} h other = elim (Bool-cases (not (state_eq s i.state))) [
  | inl e ↦ rw e (
      observe_state-found now k i.id i.state s (shutdown_reason s) t h
      ∙ ap some (observed-other now i.id i.state s (shutdown_reason s) j other))
  | inr e ↦ elim (Bool-cases (has_prefix (codes "Server.VMMissing") i.state_reason)) [
    | inl f ↦
        rw (e, f) (note_reason-found now k i.id [] t h ∙ ap some (noted-other now i.id [] j other))
    | inr f ↦ rw (e, f) h
  ]
]

with_live-other :
    (now : ℕ) (k : String) (i : Instance) (m : Result String) (t : Rows) {j : Instance}
    → find (has_id k) t ≡ some j
    → has_id i.id j ≡ false
    → find (has_id k) (with_live now i m t).1 ≡ some j
with_live-other now k i (ok status) t h other = settle-other now k i (observed_of status) t h other
with_live-other now k i (err e) t h other = h

pub reconcile_vm-other :
    (now : ℕ) (live : ℕ → Result String) (k : String) (i : Instance) (o : Option Vm) (t : Rows)
    {j : Instance}
    → find (has_id k) t ≡ some j
    → has_id i.id j ≡ false
    → find (has_id k) (reconcile_vm now live i o t).1 ≡ some j
reconcile_vm-other now live k i none t {j} h other =
    note_reason-found now k i.id missing_reason t h
    ∙ ap some (noted-other now i.id missing_reason j other)
reconcile_vm-other now live k i (some vm) t h other =
    elim (Bool-cases (differs (observed_of vm.status) i.state)) [
      | inl e ↦ rw e (with_live-other now k i (live vm.vmid) t h other)
      | inr e ↦ rw e (settle-other now k i (observed_of vm.status) t h other)
    ]

same_state : {x y : State} → ◌≡◌ {A = Option State} (some x) (some y) → y ≡ x
same_state h = cc

observed_of-Shows : (status : String) (s : State) → observed_of status ≡ some s → Shows status s
observed_of-Shows status s h = elim (Bool-cases (str_eq status "running")) [
  | inl e ↦ inl ((eq_iff status "running").0 e, same_state (rw e at h))
  | inr e ↦ elim (Bool-cases (str_eq status "stopped")) [
    | inl f ↦ inr ((eq_iff status "stopped").0 f, same_state (rw (e, f) at h))
    | inr f ↦ cc (rw (e, f) at h)
  ]
]

-- What the `switch` makes of the row, given the state that was observed.
abbrev Settled : ℕ → Instance → Option State → Instance → Type 0
Settled now x o j =
    (j ≡ x)
    ⊎ (((s : State) × (o ≡ some s)
          × (s ≢ x.state)
          × (j ≡ record x { state = s; state_reason = shutdown_reason s; updated_at = now }))
        ⊎ ((has_prefix (codes "Server.VMMissing") x.state_reason ≡ true)
            × (j ≡ record x { state_reason = []; updated_at = now })))

written : (b : Bool) (x y : Instance) → ((if b then y else x) ≡ x) ⊎ ((if b then y else x) ≡ y)
written true x y = inr refl
written false x y = inl refl

state_eq_refl : (s : State) → state_eq s s ≡ true
state_eq_refl s = ground arith

not_same : (s t : State) → not (state_eq s t) ≡ true → s ≢ t
not_same s t h e = let k = rw e at h in cc (rw (state_eq_refl t) at k)

settle-Settled :
    (now : ℕ) (k : String) (x : Instance) (o : Option State) (t : Rows)
    → find (has_id k) t ≡ some x
    → (j : Instance) × (find (has_id k) (settle now x o t) ≡ some j) × Settled now x o j
unfolding settle
settle-Settled now k x none t h = (x, h, inl refl)
settle-Settled now k x (some s) t h = elim (Bool-cases (not (state_eq s x.state))) [
  | inl e ↦ (
    observed now x.id x.state s (shutdown_reason s) x,
    rw e (observe_state-found now k x.id x.state s (shutdown_reason s) t h),
    elim (written (has_id x.id x && state_eq x.state x.state && is_none x.pending_action) x
        (record x { state = s; state_reason = shutdown_reason s; updated_at = now })) [
          | inl kept ↦ inl kept
          | inr moved ↦ inr (inl (s, refl, not_same s x.state e, moved))
        ],
  )
  | inr e ↦ elim (Bool-cases (has_prefix (codes "Server.VMMissing") x.state_reason)) [
    | inl f ↦ (
      noted now x.id [] x,
      rw (e, f) (note_reason-found now k x.id [] t h),
      elim (written (has_id x.id x && is_none x.pending_action && not (bytes_eq x.state_reason []))
          x (record x { state_reason = []; updated_at = now })) [
            | inl kept ↦ inl kept
            | inr cleared ↦ inr (inr (f, cleared))
          ],
    )
    | inr f ↦ (x, rw (e, f) h, inl refl)
  ]
]

-- The row has no action pending, and is running or stopped.
abbrev pub IsQuiet : Instance → Type 0
IsQuiet x = (x.pending_action ≡ none) × IsSettled x.state

with_live-IsReconciled :
    (now : ℕ) (vms : List Vm) (live : ℕ → Result String) (k : String) (x : Instance) (vm : Vm)
    (m : Result String) (t : Rows)
    → IsQuiet x
    → find_vm vms x.vmid ≡ some vm
    → live vm.vmid ≡ m
    → find (has_id k) t ≡ some x
    → (j : Instance) × (find (has_id k) (with_live now x m t).1 ≡ some j)
      × IsReconciled now vms live x j
with_live-IsReconciled now vms live k x vm (err e) t quiet seen answer h = (x, h, inl refl)
with_live-IsReconciled now vms live k x vm (ok status) t quiet seen answer h =
    let (j, found, how) = settle-Settled now k x (observed_of status) t h in
    (
      j,
      found,
      elim how [
        | inl kept ↦ inl kept
        | inr (inl (s, o, other, row)) ↦ inr (
          quiet.0,
          quiet.1,
          inr (vm, seen, inl (status, s, answer, observed_of-Shows status s o, other, row)),
        )
        | inr (inr cleared) ↦ inr (quiet.0, quiet.1, inr (vm, seen, inr cleared))
      ],
    )

same_view : {o : Option State} {s t : State} → o ≡ some s → differs o t ≡ false → s ≢ t → ⊥
same_view {o} {s} {t} e h other =
    let k : not (state_eq s t) ≡ false = rw e at h in other (state_eq_sound s t (ground arith))

pub reconcile_vm-IsReconciled :
    (now : ℕ) (vms : List Vm) (live : ℕ → Result String) (k : String) (x : Instance) (o : Option Vm)
    (t : Rows)
    → IsQuiet x
    → find_vm vms x.vmid ≡ o
    → find (has_id k) t ≡ some x
    → (j : Instance) × (find (has_id k) (reconcile_vm now live x o t).1 ≡ some j)
      × IsReconciled now vms live x j
reconcile_vm-IsReconciled now vms live k x none t quiet seen h = (
  noted now x.id missing_reason x,
  note_reason-found now k x.id missing_reason t h,
  elim (written
      (has_id x.id x && is_none x.pending_action && not (bytes_eq x.state_reason missing_reason)) x
      (record x { state_reason = missing_reason; updated_at = now })) [
        | inl kept ↦ inl kept
        | inr missing ↦ inr (quiet.0, quiet.1, inl (seen, missing))
      ],
)
reconcile_vm-IsReconciled now vms live k x (some vm) t quiet seen h =
    elim (Bool-cases (differs (observed_of vm.status) x.state)) [
      | inl e ↦ rw e (with_live-IsReconciled now vms live k x vm (live vm.vmid) t quiet seen refl h)
      | inr e ↦
          let (j, found, how) = settle-Settled now k x (observed_of vm.status) t h in
          (
            j,
            rw e found,
            elim how [
              | inl kept ↦ inl kept
              | inr (inl (s, o, other, row)) ↦ absurd (same_view o e other)
              | inr (inr cleared) ↦ inr (quiet.0, quiet.1, inr (vm, seen, inr cleared))
            ],
          )
    ]
