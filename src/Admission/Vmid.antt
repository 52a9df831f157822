-- ===== src/Admission/Vmid.antt =====
-- The numbers of virtual machines (AllocateVMID and QuarantineVMID of api/internal/db/instances.go,
-- skipVMIDs of api/internal/compute/service.go).
use shake_cloud.Prelude.{
  Bool-cases, inl, inr, subst, ==_iff, ℕ, ◌+◌, ◌-◌, ◌≤◌, ◌<◌, zero, suc, ◌==◌, ◌≡◌, refl, Bool,
  true, false, ◌&&◌, not, Option, none, some, List, [], ◌∷◌, ◌++◌, any, find, String, arith,
  if◌then◌else◌,
}
use shake_cloud.Result.{Result, ok, err, Err, no_vmid}
use shake_cloud.Db.Instance.{is_live}
use shake_cloud.Db.Instances.{Rows}

-- A row of vmid_quarantine.
pub record Quarantined : Type 0 where
  pub vmid : ℕ
  pub reason : String

abbrev pub has_vmid : ℕ → Option ℕ → Bool
has_vmid n none = false
has_vmid n (some v) = v == n

abbrev pub member : ℕ → List ℕ → Bool
member n ns = any (λ m. m == n) ns

-- The WHERE of AllocateVMID.
abbrev pub is_free : List ℕ → Rows → List Quarantined → ℕ → Bool
is_free skip rows quarantine candidate =
    not (member candidate skip)
    && not (any (λ i. has_vmid candidate i.vmid && is_live i) rows)
    && not (any (λ q. q.vmid == candidate) quarantine)

-- `generate_series(from, to)`
abbrev pub series : ℕ → ℕ → List ℕ
series from zero = []
series from (suc n) = from ∷ series (suc from) n

abbrev pub or_none_free : Option ℕ → Result ℕ
or_none_free none = err no_vmid
or_none_free (some n) = ok n

unfoldable pub allocate_vmid : ℕ → ℕ → List ℕ → Rows → List Quarantined → Result ℕ
allocate_vmid from to skip rows quarantine =
    or_none_free (find (is_free skip rows quarantine) (series from (suc to - from)))

-- `ON CONFLICT (vmid) DO NOTHING`
unfoldable pub quarantine_vmid : ℕ → String → List Quarantined → List Quarantined
quarantine_vmid n reason quarantine =
    if any (λ q. q.vmid == n) quarantine
    then quarantine
    else record { vmid = n; reason = reason } ∷ quarantine

-- The numbers that Proxmox shows, and the ones that the site keeps for itself.
abbrev pub skip_vmids : ℕ → List ℕ → List ℕ → List ℕ
skip_vmids volume_holder probes visible = (volume_holder ∷ probes) ++ visible

from-or-above :
    (p : ℕ → Bool) (from w : ℕ)
    → from ≤ w
    → p from ≡ false
    → (suc from ≤ w → p w ≡ false)
    → p w ≡ false
from-or-above p from w low e above = elim (Bool-cases (from == w)) [
  | inl same ↦ subst (λ x. p x ≡ false) ((==_iff from w).0 same) e
  | inr other ↦ above (ground arith)
]

find-series :
    (p : ℕ → Bool) (from n : ℕ) {v : ℕ}
    → find p (series from n) ≡ some v
    → (from ≤ v) × (v < from + n) × (p v ≡ true) × ((w : ℕ) → from ≤ w → w < v → p w ≡ false)
find-series p from zero h = cc
find-series p from (suc n) {v} h = elim (Bool-cases (p from)) [
  | inl e ↦
      let same : from ≡ v = ground arith in
      (
        omega (arith, same),
        omega (arith, same),
        subst (λ x. p x ≡ true) same e,
        λ w a b. absurd (omega arith),
      )
  | inr e ↦
      let (low, high, passes, least) = find-series p (suc from) n (rw e at h) in
      (omega arith, omega arith, passes, λ w a b. from-or-above p from w a e (λ c. least w c b))
]

find-series-none :
    (p : ℕ → Bool) (from n : ℕ)
    → find p (series from n) ≡ none
    → (w : ℕ) → from ≤ w
    → w < from + n
    → p w ≡ false
find-series-none p from zero h w a b = absurd (omega arith)
find-series-none p from (suc n) h w a b = elim (Bool-cases (p from)) [
  | inl e ↦ absurd (ground arith)
  | inr e ↦
      from-or-above p from w a e
        (λ c. find-series-none p (suc from) n (rw e at h) w c (omega arith))
]

or_none_free-ok : (o : Option ℕ) {v : ℕ} → or_none_free o ≡ ok v → o ≡ some v
or_none_free-ok none h = cc
or_none_free-ok (some n) h = cc

or_none_free-err : (o : Option ℕ) {e : Err} → or_none_free o ≡ err e → (o ≡ none) × (e ≡ no_vmid)
or_none_free-err none h = (refl, cc)
or_none_free-err (some n) h = cc

-- The allocated number is in the range and free: not skipped, not quarantined, and held by no live
-- instance. No lower number of the range is.
pub allocate_vmid-least :
    (from to : ℕ) (skip : List ℕ) (rows : Rows) (quarantine : List Quarantined) {v : ℕ}
    → allocate_vmid from to skip rows quarantine ≡ ok v
    → (from ≤ v)
      × (v ≤ to)
      × (is_free skip rows quarantine v ≡ true)
      × ((w : ℕ) → from ≤ w → w < v → is_free skip rows quarantine w ≡ false)
unfolding allocate_vmid
allocate_vmid-least from to skip rows quarantine h =
    let (low, high, free, least) =
      find-series (is_free skip rows quarantine) from (suc to - from) (or_none_free-ok _ h) in
    (low, omega arith, free, least)

-- Allocation fails only with "no free VMID", and only when no number of the range is free.
pub allocate_vmid-none :
    (from to : ℕ) (skip : List ℕ) (rows : Rows) (quarantine : List Quarantined) {e : Err}
    → allocate_vmid from to skip rows quarantine ≡ err e
    → (e ≡ no_vmid) × ((w : ℕ) → from ≤ w → w ≤ to → is_free skip rows quarantine w ≡ false)
unfolding allocate_vmid
allocate_vmid-none from to skip rows quarantine h =
    let (nothing, why) = or_none_free-err _ h in
    (
      why,
      λ w a b.
          find-series-none (is_free skip rows quarantine) from (suc to - from) nothing w a
            (omega arith),
    )

-- A number that has been quarantined is not free, whatever is skipped, whatever the table holds,
-- and whether it was quarantined before or not.
pub quarantined_stays :
    (n : ℕ) (reason : String) (skip : List ℕ) (rows : Rows) (quarantine : List Quarantined)
    → is_free skip rows (quarantine_vmid n reason quarantine) n ≡ false
unfolding quarantine_vmid
quarantined_stays n reason skip rows quarantine =
    elim (Bool-cases (any (λ (q : Quarantined). q.vmid == n) quarantine)) [
      | inl e ↦ rw e (ground arith)
      | inr e ↦ rw e (ground arith)
    ]
