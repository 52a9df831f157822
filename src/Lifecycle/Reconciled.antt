-- ===== src/Lifecycle/Reconciled.antt =====
-- What a reconciliation writes of the table (Service.Reconcile of api/internal/compute/reconcile.go).
use shake_cloud.Prelude.{
  ◌||◌, ltb, ◌==◌, Bool-cases, length, any, find, select, All, find-passes, ℕ, String, ◌≡◌, refl,
  sym, subst, inl, inr, Bool, true, false, ◌&&◌, Option, none, some, List, [], ◌∷◌, arith, eq_iff,
}
use shake_cloud.Result.{Err, Result, err, ok}
use shake_cloud.Db.Instance.{running, stopped, state_eq, state_eq_sound, Instance, is_none, has_id}
use shake_cloud.Db.Instances.{Rows, lease_free, settled_instances}
use shake_cloud.Db.Keys.{IsKeyed, find-only}
use shake_cloud.Lifecycle.Reconcile.{
  Vm, find_vm, reconcile_vm, reconcile_each, count_missing, reconcile_listed, reconcile,
}
use shake_cloud.Lifecycle.Observed.{
  IsReconciled, reconcile_vm-other, IsQuiet, reconcile_vm-IsReconciled,
}

-- Whether the loop ends with an error or goes on.
loop_end :
    (P : Rows → Type 0) (failure : Option Err) (t : Rows) (rest : Option Err × Rows)
    → P t
    → P rest.1
    → P (elim failure as (λ _. Option Err × Rows) [ none ↦ rest | some e ↦ (some e, t) ]).1
loop_end P none t rest p q = q
loop_end P (some e) t rest p q = p

-- The loop leaves the row of a key that it does not visit.
reconcile_each-other :
    (now : ℕ) (vms : List Vm) (live : ℕ → Result String) (k : String) (instances t : Rows)
    {j : Instance}
    → any (has_id k) instances ≡ false
    → find (has_id k) t ≡ some j
    → find (has_id k) (reconcile_each now vms live instances t).1 ≡ some j
unfolding reconcile_each
reconcile_each-other now vms live k [] t apart h = h
reconcile_each-other now vms live k (i ∷ instances) t {j} apart h =
    let key = find-passes (has_id k) t h in
    let other : has_id i.id j ≡ false =
      ground (arith, eq_iff j.id k, eq_iff j.id i.id, eq_iff i.id k) in
    let after = reconcile_vm-other now live k i (find_vm vms i.vmid) t h other in
    let later =
      reconcile_each-other now vms live k instances
        (reconcile_vm now live i (find_vm vms i.vmid) t).1 (ground arith) after in
    loop_end (λ rows. find (has_id k) rows ≡ some j)
      (reconcile_vm now live i (find_vm vms i.vmid) t).0 _ _ after later

abbrev IsLeft : ℕ → List Vm → (ℕ → Result String) → String → Instance → Rows → Type 0
IsLeft now vms live k x rows =
    (j : Instance) × (find (has_id k) rows ≡ some j) × IsReconciled now vms live x j

reconcile_each-IsReconciled :
    (now : ℕ) (vms : List Vm) (live : ℕ → Result String) (k : String) (x : Instance)
    (instances t : Rows)
    → IsKeyed instances
    → All (λ i. has_id k i ≡ true → (i ≡ x) × IsQuiet x) instances
    → find (has_id k) t ≡ some x
    → IsLeft now vms live k x (reconcile_each now vms live instances t).1
unfolding reconcile_each
reconcile_each-IsReconciled now vms live k x [] t keyed mine h = (x, h, inl refl)
reconcile_each-IsReconciled now vms live k x (i ∷ instances) t keyed mine h =
    let t' = (reconcile_vm now live i (find_vm vms i.vmid) t).1 in
    elim (Bool-cases (has_id k i)) [
      | inl e ↦
          let (same_row, quiet) = mine.0 e in
          let apart : any (has_id k) instances ≡ false = rw ((eq_iff i.id k).0 e) at keyed.0 in
          let (j, found, how) =
            subst
              (λ (y : Instance).
                IsLeft now vms live k x (reconcile_vm now live y (find_vm vms y.vmid) t).1)
              (sym same_row)
              (reconcile_vm-IsReconciled now vms live k x (find_vm vms x.vmid) t quiet refl h) in
          loop_end (IsLeft now vms live k x) (reconcile_vm now live i (find_vm vms i.vmid) t).0 t'
            (reconcile_each now vms live instances t') (j, found, how)
            (j, reconcile_each-other now vms live k instances t' apart found, how)
      | inr e ↦
          let other : has_id i.id x ≡ false =
            let key = find-passes (has_id k) t h in
            ground (arith, eq_iff x.id k, eq_iff x.id i.id, eq_iff i.id k) in
          let after = reconcile_vm-other now live k i (find_vm vms i.vmid) t h other in
          loop_end (IsLeft now vms live k x) (reconcile_vm now live i (find_vm vms i.vmid) t).0 t'
            (reconcile_each now vms live instances t') (x, after, inl refl)
            (reconcile_each-IsReconciled now vms live k x instances t' keyed.1 mine.1 after)
    ]

any-select :
    (k : String) (p : Instance → Bool) (rows : Rows)
    → any (has_id k) rows ≡ false
    → any (has_id k) (select p rows) ≡ false
any-select k p [] h = refl
any-select k p (i ∷ rows) h = elim (Bool-cases (p i)) [
  | inl e ↦ let rest = any-select k p rows (ground arith) in rw e (ground arith)
  | inr e ↦ rw e (any-select k p rows (ground arith))
]

select-IsKeyed : (p : Instance → Bool) (rows : Rows) → IsKeyed rows → IsKeyed (select p rows)
select-IsKeyed p [] h = tt
select-IsKeyed p (i ∷ rows) h = elim (Bool-cases (p i)) [
  | inl e ↦ rw e (any-select i.id p rows h.0, select-IsKeyed p rows h.1)
  | inr e ↦ rw e (select-IsKeyed p rows h.1)
]

select-mine :
    (k : String) (p : Instance → Bool) (x : Instance) (rows : Rows)
    → ((i : Instance) → p i ≡ true → IsQuiet i)
    → All (λ i. has_id k i ≡ true → i ≡ x) rows
    → All (λ i. has_id k i ≡ true → (i ≡ x) × IsQuiet x) (select p rows)
select-mine k p x [] quiet h = tt
select-mine k p x (i ∷ rows) quiet h = elim (Bool-cases (p i)) [
  | inl e ↦
      rw e
        (λ t. let q = h.0 t in (q, subst IsQuiet q (quiet i e)), select-mine k p x rows quiet h.1)
  | inr e ↦ rw e (select-mine k p x rows quiet h.1)
]

is_quiet :
    (now : ℕ) (i : Instance)
    → ((state_eq i.state running || state_eq i.state stopped)
        && is_none i.pending_action
        && lease_free now i.lease_until)
      ≡ true
    → IsQuiet i
is_quiet now i h =
    (ground arith, ground (arith, state_eq_sound i.state running, state_eq_sound i.state stopped))

-- When the hypervisor does not list its machines, the row is as it was.
abbrev pub IsReconciledBy :
    ℕ → Result (List Vm) → (ℕ → Result String) → Instance → Instance → Type 0
IsReconciledBy now (ok vms) live x j = IsReconciled now vms live x j
IsReconciledBy now (err e) live x j = j ≡ x

as_it_was :
    (now : ℕ) (vms : Result (List Vm)) (live : ℕ → Result String) (x : Instance)
    → IsReconciledBy now vms live x x
as_it_was now (ok vms) live x = inl refl
as_it_was now (err e) live x = refl

abbrev IsLeftBy : ℕ → Result (List Vm) → (ℕ → Result String) → String → Instance → Rows → Type 0
IsLeftBy now vms live k x rows =
    (j : Instance) × (find (has_id k) rows ≡ some j) × IsReconciledBy now vms live x j

listed-IsReconciled :
    (now : ℕ) (vms : Result (List Vm)) (live : ℕ → Result String) (k : String) (x : Instance)
    (instances t : Rows)
    → IsKeyed instances
    → All (λ i. has_id k i ≡ true → (i ≡ x) × IsQuiet x) instances
    → find (has_id k) t ≡ some x
    → IsLeftBy now vms live k x (reconcile_listed now live instances t vms).1
listed-IsReconciled now (err e) live k x instances t keyed mine h = (x, h, refl)
listed-IsReconciled now (ok vms) live k x instances t keyed mine h =
    elim (Bool-cases
      (count_missing vms instances == length instances && ltb 1 (count_missing vms instances))) [
        | inl e ↦ rw e (x, h, inl refl)
        | inr e ↦ rw e (reconcile_each-IsReconciled now vms live k x instances t keyed mine h)
      ]

-- Wherever a reconciliation ends, with an error or not, each row is as it was (always, when the
-- hypervisor does not list its machines), or it had no action
-- pending and was running or stopped, and one thing was written of it: that the hypervisor lists no
-- machine with its number; or that the machine, asked itself, is in another state, running or stopped,
-- which becomes the row's; or that the machine, noted as missing before, is listed again. Keys are
-- unique in the table.
pub reconcile-IsReconciled :
    (now : ℕ) (vms : Result (List Vm)) (live : ℕ → Result String) (rows : Rows) (k : String)
    (x : Instance)
    → IsKeyed rows
    → find (has_id k) rows ≡ some x
    → (j : Instance) × (find (has_id k) (reconcile now vms live rows).1 ≡ some j)
      × IsReconciledBy now vms live x j
unfolding reconcile settled_instances
reconcile-IsReconciled now vms live rows k x keyed h =
    let p : Instance → Bool = λ i.
      (state_eq i.state running || state_eq i.state stopped)
      && is_none i.pending_action
      && lease_free now i.lease_until in
    elim (Bool-cases (length (settled_instances now rows) == 0)) [
      | inl e ↦ rw e (x, h, as_it_was now vms live x)
      | inr e ↦ rw e (
          listed-IsReconciled now vms live k x (settled_instances now rows) rows
            (select-IsKeyed p rows keyed)
            (select-mine k p x rows (is_quiet now) (find-only k rows keyed h)) h)
    ]
