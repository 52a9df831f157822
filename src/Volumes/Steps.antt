-- ===== src/Volumes/Steps.antt =====
-- The writes of the volumes table, and the invariant that every one of them keeps.
use shake_cloud.Prelude.{
  String, ◌≡◌, inl, inr, refl, sym, ap, subst, Bool, true, false, Option, none, some, [], ◌∷◌, All,
  find, update_where, update_where-All, Bool-cases, arith, if◌then◌else◌,
}
use shake_cloud.Result.{Err, Result, ok, err, ◌>>◌, unless, >>=-eq-ok, ok-injective, not_found}
use shake_cloud.Db.Volume.{Volume, has_volume_id}
use shake_cloud.Db.Volumes.{Volumes, volume_returning, or_no_volume}
use shake_cloud.Volumes.Requests.{Audit, audited, visible_volume}
use shake_cloud.Volumes.Keys.{IsKeyedVolumes, only_row, update-IsKeyedVolumes}
use shake_cloud.Volumes.Coherence.{IsCoherent}

-- Keys are unique, and every row is coherent.
pub record IsSoundVolumes (rows : Volumes) : Type 0 where
  pub keyed : IsKeyedVolumes rows
  pub coherent : All IsCoherent rows

-- An update that keeps the key, and the coherence of each row that it takes.
pub update-IsSoundVolumes :
    (p : Volume → Bool) (f : Volume → Volume) (rows : Volumes)
    → ((v : Volume) → (f v).id ≡ v.id)
    → ((v : Volume) → p v ≡ true → IsCoherent v → IsCoherent (f v))
    → IsSoundVolumes rows
    → IsSoundVolumes (update_where p f rows)
update-IsSoundVolumes p f rows key keep h = record {
  keyed = update-IsKeyedVolumes p f rows key h.keyed;
  coherent = update_where-All IsCoherent p f rows keep h.coherent;
}

at_one :
    (b : Bool) (f : Volume → Volume) (v x : Volume)
    → (b ≡ true → x ≡ v)
    → IsCoherent (f v)
    → IsCoherent x
    → IsCoherent (if b then f x else x)
at_one true f v x e c h = subst (λ y. IsCoherent (f y)) (sym (e refl)) c
at_one false f v x e c h = h

-- What a row has that is the one found by its key.
at_row :
    (p : Volume → Bool) (f : Volume → Volume) (v : Volume) (rows : Volumes)
    → All (λ x. p x ≡ true → x ≡ v) rows
    → IsCoherent (f v)
    → All IsCoherent rows
    → All IsCoherent (update_where p f rows)
at_row p f v [] only c h = tt
at_row p f v (x ∷ rows) only c h = (at_one (p x) f v x only.0 c h.0, at_row p f v rows only.1 c h.1)

returned_rows :
    (o : Option Volume) (rows' : Volumes) {r : Volume × Volumes}
    → elim o as (λ _. Result (Volume × Volumes)) [ none ↦ err not_found | some v ↦ ok (v, rows') ]
      ≡ ok r
    → r.1 ≡ rows'
returned_rows none rows' h = cc
returned_rows (some v) rows' h = ground arith

pub returning-rows :
    (k : String) (f : Volume → Volume) (rows : Volumes) {r : Volume × Volumes}
    → volume_returning k f rows ≡ ok r
    → r.1 ≡ update_where (has_volume_id k) f rows
returning-rows k f rows {r} h =
    returned_rows (find (has_volume_id k) (update_where (has_volume_id k) f rows)) _ h

-- An UPDATE by key of the row that was locked.
pub returning-IsSoundVolumes :
    (k : String) (f : Volume → Volume) (rows : Volumes) {v : Volume} {r : Volume × Volumes}
    → ((x : Volume) → (f x).id ≡ x.id)
    → IsSoundVolumes rows
    → find (has_volume_id k) rows ≡ some v
    → IsCoherent (f v)
    → volume_returning k f rows ≡ ok r
    → IsSoundVolumes r.1
returning-IsSoundVolumes k f rows {v} key h found c e =
    subst IsSoundVolumes (sym (returning-rows k f rows e)) (record {
      keyed = update-IsKeyedVolumes (has_volume_id k) f rows key h.keyed;
      coherent = at_row (has_volume_id k) f v rows (only_row k rows h.keyed found) c h.coherent;
    })

pub audited-ok :
    (audit : Audit) (m : Result (Volume × Volumes)) {r : Volume × Volumes}
    → audited audit m ≡ ok r
    → m ≡ ok r
audited-ok audit (err e) h = cc
audited-ok audit (ok c) h = let (u, a, e) = >>=-eq-ok (audit c.0) (λ _. ok c) h in e

pub locked_row :
    (authorize : Volume → Bool) (o : Option Volume) {v : Volume}
    → visible_volume authorize (or_no_volume o) ≡ ok v
    → o ≡ some v
locked_row authorize none h = cc
locked_row authorize (some w) h = elim (Bool-cases (authorize w)) [
  | inl e ↦ let same = ok-injective (rw e at h) in ap some same
  | inr e ↦ cc (rw e at h)
]

pub guarded {ℓ} :
    {A : Type ℓ} (b : Bool) (e : Err) (m : Result A) {r : A}
    → (unless b e >> m) ≡ ok r
    → (b ≡ false) × (m ≡ ok r)
guarded true e m h = cc
guarded false e m h = (refl, h)

pub twice_guarded {ℓ} :
    {A : Type ℓ} (a b : Bool) (d e : Err) (m : Result A) {r : A}
    → (unless a d >> unless b e >> m) ≡ ok r
    → (a ≡ false) × (b ≡ false) × (m ≡ ok r)
twice_guarded true b d e m h = cc
twice_guarded false true d e m h = cc
twice_guarded false false d e m h = (refl, refl, h)
