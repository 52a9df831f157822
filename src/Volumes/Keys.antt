-- ===== src/Volumes/Keys.antt =====
-- The primary key of the volumes table.
use shake_cloud.Prelude.{
  Bool, update_where, String, ◌≡◌, inl, inr, true, false, some, [], ◌∷◌, All, any, find, Bool-cases,
  eq_iff, arith, ◌∙◌, if◌then◌else◌, refl,
}
use shake_cloud.Db.Volume.{Volume, has_volume_id}
use shake_cloud.Db.Volumes.{Volumes, volume_collides}

abbrev pub IsKeyedVolumes : Volumes → Type 0
IsKeyedVolumes [] = Unit
IsKeyedVolumes (v ∷ rows) = (any (has_volume_id v.id) rows ≡ false) × IsKeyedVolumes rows

others :
    (k l : String) (v : Volume) (rows : Volumes)
    → l ≡ k
    → any (has_volume_id l) rows ≡ false
    → All (λ x. has_volume_id k x ≡ true → x ≡ v) rows
others k l v [] e h = tt
others k l v (x ∷ rows) e h =
    ((λ t. ground (arith, eq_iff x.id k, eq_iff x.id l)), others k l v rows e (ground arith))

-- The row that a lookup by key finds is the only one with that key.
pub only_row :
    (k : String) (rows : Volumes) {v : Volume}
    → IsKeyedVolumes rows
    → find (has_volume_id k) rows ≡ some v
    → All (λ x. has_volume_id k x ≡ true → x ≡ v) rows
only_row k [] h e = tt
only_row k (y ∷ rows) {v} h e = elim (Bool-cases (has_volume_id k y)) [
  | inl p ↦ ((λ t. ground arith), others k y.id v rows ((eq_iff y.id k).0 p) h.0)
  | inr p ↦ ((λ t. cc (p, t)), only_row k rows h.1 (rw p at e))
]

same_key :
    (b : Bool) (f : Volume → Volume) (x : Volume)
    → ((y : Volume) → (f y).id ≡ y.id)
    → (if b then f x else x).id ≡ x.id
same_key true f x h = h x
same_key false f x h = refl

any-update :
    (k : String) (p : Volume → Bool) (f : Volume → Volume) (rows : Volumes)
    → ((y : Volume) → (f y).id ≡ y.id)
    → any (has_volume_id k) (update_where p f rows) ≡ any (has_volume_id k) rows
any-update k p f [] h = refl
any-update k p f (x ∷ rows) h = rw (same_key (p x) f x h, any-update k p f rows h) refl

-- An update that leaves the key of every row keeps keys unique.
pub update-IsKeyedVolumes :
    (p : Volume → Bool) (f : Volume → Volume) (rows : Volumes)
    → ((y : Volume) → (f y).id ≡ y.id)
    → IsKeyedVolumes rows
    → IsKeyedVolumes (update_where p f rows)
update-IsKeyedVolumes p f [] h k = tt
update-IsKeyedVolumes p f (x ∷ rows) h k = (
  rw (same_key (p x) f x h) (any-update x.id p f rows h ∙ k.0),
  update-IsKeyedVolumes p f rows h k.1,
)

-- A row that collides with none has a key of its own.
pub collides-any :
    (new : Volume) (rows : Volumes)
    → any (volume_collides new) rows ≡ false
    → any (has_volume_id new.id) rows ≡ false
collides-any new [] h = refl
collides-any new (x ∷ rows) h = let rest = collides-any new rows (ground arith) in ground arith
