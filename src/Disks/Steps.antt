-- ===== src/Disks/Steps.antt =====
-- Lemmas on the steps of Disks.Cloud: how a chain of steps ends.
use shake_cloud.Prelude.{◌≡◌, refl, ap, ◌⊎◌, inl, inr}
use shake_cloud.Disks.Cloud.{Fault, Outcome, fault, done, Eff, then_do}

pub outcome_cases :
    {A : Type 0} (o : Outcome A) → ((e : Fault) × (o ≡ fault e)) ⊎ ((a : A) × (o ≡ done a))
outcome_cases (fault e) = inl (e, refl)
outcome_cases (done a) = inr (a, refl)

pub done-injective : {A : Type 0} {a b : A} → done a ≡ done b → a ≡ b
done-injective h = cc

pub then_do-done :
    {S A B : Type 0} (o : Outcome A) (s : S) (next : A → Eff S B) {b : B} {s' : S}
    → then_do (o, s) next ≡ (done b, s')
    → (a : A) × (o ≡ done a) × (next a s ≡ (done b, s'))
then_do-done {S} {A} {B} (fault e) s next h = let k = ap (λ (r : Outcome B × S). r.0) h in cc
then_do-done (done a) s next h = (a, refl, h)

fault_same :
    {A B : Type 0} {e e' : Fault}
    → ◌≡◌ {A = Outcome A} (fault e) (fault e')
    → ◌≡◌ {A = Outcome B} (fault e) (fault e')
fault_same h = cc

pub then_do-fault :
    {S A B : Type 0} (r : Outcome A × S) (next : A → Eff S B) {e : Fault}
    → r.0 ≡ fault e
    → then_do r next ≡ (fault e, r.1)
then_do-fault (fault e, s) next h = λ i. (fault_same h i, s)
then_do-fault (done a, s) next h = cc

pub then_do-next :
    {S A B : Type 0} (r : Outcome A × S) (next : A → Eff S B) {a : A}
    → r.0 ≡ done a
    → then_do r next ≡ next a r.1
then_do-next (fault e, s) next h = cc
then_do-next (done b, s) next h = ap (λ x. next x s) (done-injective h)

-- What every step of a chain keeps, the chain keeps, whether it fails or not.
pub then_do-keeps :
    {S A B : Type 0} (P : S → Type 0) (r : Outcome A × S) (next : A → Eff S B)
    → P r.1
    → ((a : A) (s : S) → P s → P (next a s).1)
    → P (then_do r next).1
then_do-keeps P (fault e, s) next h k = h
then_do-keeps P (done a, s) next h k = k a s h
