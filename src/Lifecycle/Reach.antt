-- ===== src/Lifecycle/Reach.antt =====
-- The instances table over time: launches, requests, the worker, the reconciler's corrections and
-- the other writers, in any order and any interleaving.
use shake_cloud.Prelude.{
  ◌+◌, ℕ, ℤ, String, ◌≡◌, ◌⊎◌, inl, inr, refl, Bool, true, false, Option, none, some, List, [], ◌∷◌,
  All, any, Bool-cases, arith, subst, sym, ◌∙◌,
}
use shake_cloud.Result.{not_found, Result, ok, err}
use shake_cloud.Db.Instance.{State, Action, Instance, has_id}
use shake_cloud.Db.Instances.{
  Rows, Resources, update_returning, record_resources, observe_state, note_reason, insert_instance,
  new_row, collides, claim_work, set_spec, set_instance_tags,
}
use shake_cloud.Db.Keys.{IsKeyed}
use shake_cloud.Lifecycle.Request.{request}
use shake_cloud.Lifecycle.Worker.{Setting, Effects, carry_out, process}
use shake_cloud.Lifecycle.Diagram.{same, IsConsistent, IsSettled, Moves-IsConsistent}
use shake_cloud.Lifecycle.Evolves.{
  All-of, RowMoves, Evolves, update_where-Evolves, record_resources-Evolves, note_reason-Evolves,
  observe_state-Evolves,
}
use shake_cloud.Lifecycle.RequestSteps.{request-Evolves}
use shake_cloud.Lifecycle.WorkerSteps.{process-Evolves}

-- One write of the table. The worker may hold any earlier row `i`, however stale.
pub data Step (s t : Rows) : Type 0 where
  launches : (now : ℕ) (new i : Instance) → insert_instance now new s ≡ ok (i, t) → Step s t
  asks :
      (now : ℕ) (k : String) (action : Action) (authorize : Instance → Bool)
      (audit : Instance → Result (Unit {0}))
      → t ≡ (request now k action authorize audit s).1
      → Step s t
  claims :
      (now lease : ℕ) (locked : String → Bool) (i : Instance)
      → claim_work now lease locked s ≡ ok (i, t)
      → Step s t
  works :
      (c : Setting) (fx : Effects) (i : Instance)
      → t ≡ (process c i (carry_out fx i) s).0
      → Step s t
  records : (now : ℕ) (k : String) (r : Resources) → t ≡ record_resources now k r s → Step s t
  observes :
      (now : ℕ) (k : String) (from to : State) (reason : List ℕ)
      → IsSettled from
      → IsSettled to
      → t ≡ observe_state now k from to reason s
      → Step s t
  notes : (now : ℕ) (k : String) (reason : List ℕ) → t ≡ note_reason now k reason s → Step s t
  resizes :
      (now : ℕ) (k : String) (cpu memory floor disk : ℤ) (ballooning : Bool) (i : Instance)
      → set_spec now k cpu memory floor ballooning disk s ≡ ok (i, t)
      → Step s t
  tags :
      (now : ℕ) (k name : String) (values : List (String × String))
      → t ≡ set_instance_tags now k name values s
      → Step s t

pub data Reach (s : Rows) : Rows → Type 0 where
  here : Reach s s
  next : {t u : Rows} → Reach s t → Step t u → Reach s u

pub record IsSound (rows : Rows) : Type 0 where
  pub keyed : IsKeyed rows
  pub consistent : All IsConsistent rows

any-Evolves : (k : String) (s t : Rows) → Evolves s t → any (has_id k) t ≡ any (has_id k) s
any-Evolves k [] [] e = refl
any-Evolves k (i ∷ s) (j ∷ t) e = cc (e.0, any-Evolves k s t e.2)
any-Evolves k [] (j ∷ t) e = absurd e
any-Evolves k (i ∷ s) [] e = absurd e

pub Evolves-IsKeyed : (s t : Rows) → Evolves s t → IsKeyed s → IsKeyed t
Evolves-IsKeyed [] [] e h = tt
Evolves-IsKeyed (i ∷ s) (j ∷ t) e h =
    (rw e.0 (any-Evolves i.id s t e.2 ∙ h.0), Evolves-IsKeyed s t e.2 h.1)
Evolves-IsKeyed [] (j ∷ t) e h = absurd e
Evolves-IsKeyed (i ∷ s) [] e h = absurd e

Evolves-IsConsistent : (s t : Rows) → Evolves s t → All IsConsistent s → All IsConsistent t
Evolves-IsConsistent [] [] e h = tt
Evolves-IsConsistent (i ∷ s) (j ∷ t) e h =
    (Moves-IsConsistent i j e.1 h.0, Evolves-IsConsistent s t e.2 h.1)
Evolves-IsConsistent [] (j ∷ t) e h = absurd e
Evolves-IsConsistent (i ∷ s) [] e h = absurd e

update_returning-Evolves :
    (k : String) (f : Instance → Instance) (rows : Rows) {r : Instance × Rows}
    → ((x : Instance) → RowMoves f x)
    → update_returning k f rows ≡ ok r
    → Evolves rows r.1
update_returning-Evolves k f rows {r} h e =
    subst (Evolves rows) (ground arith)
      (update_where-Evolves (has_id k) f rows (All-of rows λ x t. h x))

claim-Evolves :
    (now lease : ℕ) (rows : Rows) (o : Option Instance) {r : Instance × Rows}
    → elim o as (λ _. Result (Instance × Rows)) [
      | none ↦ err not_found
      | some i ↦ update_returning i.id (λ j. record j { lease_until = some (now + lease) }) rows
    ]
      ≡ ok r
    → Evolves rows r.1
claim-Evolves now lease rows none h = cc
claim-Evolves now lease rows (some i) h =
    update_returning-Evolves i.id (λ j. record j { lease_until = some (now + lease) }) rows
      (λ x. (refl, same refl refl)) h

pub claim_work-Evolves :
    (now lease : ℕ) (locked : String → Bool) (rows : Rows) {r : Instance × Rows}
    → claim_work now lease locked rows ≡ ok r
    → Evolves rows r.1
unfolding claim_work
claim_work-Evolves now lease locked rows h = claim-Evolves now lease rows _ h

set_spec-Evolves :
    (now : ℕ) (k : String) (cpu memory floor disk : ℤ) (ballooning : Bool) (rows : Rows)
    {r : Instance × Rows}
    → set_spec now k cpu memory floor ballooning disk rows ≡ ok r
    → Evolves rows r.1
unfolding set_spec
set_spec-Evolves now k cpu memory floor disk ballooning rows h =
    update_returning-Evolves k _ rows (λ x. (refl, same refl refl)) h

set_instance_tags-Evolves :
    (now : ℕ) (k name : String) (values : List (String × String)) (rows : Rows)
    → Evolves rows (set_instance_tags now k name values rows)
unfolding set_instance_tags
set_instance_tags-Evolves now k name values rows =
    update_where-Evolves _ _ rows (All-of rows λ x h. (refl, same refl refl))

-- A launch adds one row, under a key that is new, pending its launch.
abbrev pub Adds : Rows → Rows → Type 0
Adds s t = (i : Instance) × (t ≡ i ∷ s) × (any (has_id i.id) s ≡ false) × IsConsistent i

any-or {ℓ} :
    {A : Type ℓ} (p q : A → Bool) (xs : List A)
    → ((x : A) → p x ≡ true → q x ≡ true)
    → any q xs ≡ false
    → any p xs ≡ false
any-or p q [] h e = refl
any-or p q (x ∷ xs) h e = grind (arith, any-or p q xs h, h x)

collides-has_id : (row i : Instance) → has_id row.id i ≡ true → collides row i ≡ true
unfolding collides
collides-has_id row i h = ground arith

insert_instance-Adds :
    (now : ℕ) (new : Instance) (rows : Rows) {r : Instance × Rows}
    → insert_instance now new rows ≡ ok r
    → Adds rows r.1
unfolding insert_instance
insert_instance-Adds now new rows {r} h =
    elim (Bool-cases (any (collides (new_row now new)) rows)) [
      | inl e ↦ absurd (ground arith)
      | inr e ↦ (
        new_row now new,
        ground arith,
        any-or (has_id new.id) (collides (new_row now new)) rows (collides-has_id (new_row now new))
            e,
        tt,
      )
    ]

-- Every write either adds a new row or moves the rows along the diagram.
pub Step-cases : {s t : Rows} → IsKeyed s → Step s t → Adds s t ⊎ Evolves s t
Step-cases keyed (launches now new i h) = inl (insert_instance-Adds now new _ h)
Step-cases keyed (asks now k action authorize audit e) =
    inr (rw e (request-Evolves now k action authorize audit _ keyed))
Step-cases keyed (claims now lease locked i h) = inr (claim_work-Evolves now lease locked _ h)
Step-cases keyed (works c fx i e) = inr (rw e (process-Evolves c fx i _))
Step-cases keyed (records now k r e) = inr (rw e (record_resources-Evolves now k r _))
Step-cases keyed (observes now k from to reason f g e) =
    inr (rw e (observe_state-Evolves now k from to reason _ f g))
Step-cases keyed (notes now k reason e) = inr (rw e (note_reason-Evolves now k reason _))
Step-cases keyed (resizes now k cpu memory floor disk ballooning i h) =
    inr (set_spec-Evolves now k cpu memory floor disk ballooning _ h)
Step-cases keyed (tags now k name values e) =
    inr (rw e (set_instance_tags-Evolves now k name values _))

IsSound-cases : {s t : Rows} → IsSound s → Adds s t ⊎ Evolves s t → IsSound t
IsSound-cases {s} {t} h (inl (i, e, fresh, fits)) =
    subst IsSound (sym e) (record { keyed = (fresh, h.keyed); consistent = (fits, h.consistent) })
IsSound-cases {s} {t} h (inr e) = record {
  keyed = Evolves-IsKeyed s t e h.keyed;
  consistent = Evolves-IsConsistent s t e h.consistent;
}

-- From a sound table, in whatever order the writes come, keys stay unique, and every row's pending
-- action is one that fits its state.
pub Reach-IsSound : {s t : Rows} → IsSound s → Reach s t → IsSound t
Reach-IsSound h here = h
Reach-IsSound h (next r st) =
    let sound = Reach-IsSound h r in IsSound-cases sound (Step-cases sound.keyed st)
