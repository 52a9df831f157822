-- ===== src/Db/Keys.antt =====
-- The primary key of the instances table, and the rows that an UPDATE by key touches.
use shake_cloud.Prelude.{
  refl, ◌∙◌, subst, if◌then◌else◌, find-passes, Bool, update_where, str_eq, String, ◌≡◌, inl, inr,
  true, false, some, [], ◌∷◌, All, any, find, Bool-cases, eq_iff, arith,
}
use shake_cloud.Db.Instance.{Instance, has_id}
use shake_cloud.Db.Instances.{Rows}

-- No two rows share an ID.
abbrev pub IsKeyed : Rows → Type 0
IsKeyed [] = Unit
IsKeyed (i ∷ rows) = (any (has_id i.id) rows ≡ false) × IsKeyed rows

not_any-All :
    (k l : String) (i : Instance) (rows : Rows)
    → l ≡ k
    → any (has_id l) rows ≡ false
    → All (λ x. has_id k x ≡ true → x ≡ i) rows
not_any-All k l i [] e h = tt
not_any-All k l i (x ∷ rows) e h =
    ((λ t. ground (arith, eq_iff x.id k, eq_iff x.id l)), not_any-All k l i rows e (ground arith))

-- The row that a lookup by key finds is the only one with that key.
pub find-only :
    (k : String) (rows : Rows) {i : Instance}
    → IsKeyed rows
    → find (has_id k) rows ≡ some i
    → All (λ x. has_id k x ≡ true → x ≡ i) rows
find-only k [] h e = tt
find-only k (y ∷ rows) {i} h e = elim (Bool-cases (has_id k y)) [
  | inl p ↦ ((λ t. ground arith), not_any-All k y.id i rows ((eq_iff y.id k).0 p) h.0)
  | inr p ↦ ((λ t. cc (p, t)), find-only k rows h.1 (rw p at e))
]

-- A key that no row has is not the key of a row that is found.
pub found-any :
    (k l : String) (s : Rows) {i : Instance}
    → find (has_id k) s ≡ some i
    → any (has_id l) s ≡ false
    → str_eq l k ≡ false
found-any k l [] h e = cc
found-any k l (x ∷ s) h e = elim (Bool-cases (has_id k x)) [
  | inl p ↦ ground (arith, eq_iff x.id k, eq_iff x.id l, eq_iff l k)
  | inr p ↦ found-any k l s (rw p at h) (ground arith)
]

-- What an update does to the row that a lookup finds.
pub find-update :
    (k : String) (p : Instance → Bool) (f : Instance → Instance) (rows : Rows) {i : Instance}
    → ((x : Instance) → (f x).id ≡ x.id)
    → find (has_id k) rows ≡ some i
    → find (has_id k) (update_where p f rows) ≡ some (if p i then f i else i)
find-update k p f [] h e = cc
find-update k p f (x ∷ rows) {i} h e = elim (Bool-cases (has_id k x)) [
  | inl q ↦
      let same : x ≡ i = ground arith in
      subst (λ y. find (has_id k) (update_where p f (x ∷ rows)) ≡ some (if p y then f y else y))
        same (ground (arith, h x))
  | inr q ↦ let ih = find-update k p f rows h (rw q at e) in ground (arith, h x, ih)
]

found-has_id :
    (k : String) (rows : Rows) {i : Instance} → find (has_id k) rows ≡ some i → has_id k i ≡ true
found-has_id k rows e = find-passes (has_id k) rows e

-- An update by key is seen by a lookup of that key.
pub find-update_where :
    (k : String) (f : Instance → Instance) (rows : Rows) {i : Instance}
    → ((x : Instance) → (f x).id ≡ x.id)
    → find (has_id k) rows ≡ some i
    → find (has_id k) (update_where (has_id k) f rows) ≡ some (f i)
find-update_where k f rows {i} h e =
    let found = find-update k (has_id k) f rows h e in rw (found-has_id k rows e) at found

pub find-any :
    (k : String) (p : Instance → Bool) (rows : Rows) {i : Instance}
    → find (has_id k) rows ≡ some i
    → p i ≡ true
    → any p rows ≡ true
find-any k p [] e h = cc
find-any k p (x ∷ rows) e h = elim (Bool-cases (has_id k x)) [
  | inl q ↦ ground arith
  | inr q ↦ let ih = find-any k p rows (rw q at e) h in ground arith
]

same_key :
    (b : Bool) (f : Instance → Instance) (x : Instance)
    → ((y : Instance) → (f y).id ≡ y.id)
    → (if b then f x else x).id ≡ x.id
same_key true f x h = h x
same_key false f x h = refl

any-update :
    (k : String) (p : Instance → Bool) (f : Instance → Instance) (rows : Rows)
    → ((y : Instance) → (f y).id ≡ y.id)
    → any (has_id k) (update_where p f rows) ≡ any (has_id k) rows
any-update k p f [] h = refl
any-update k p f (x ∷ rows) h = rw (same_key (p x) f x h, any-update k p f rows h) refl

-- An update that leaves the key of every row keeps keys unique.
pub update-IsKeyed :
    (p : Instance → Bool) (f : Instance → Instance) (rows : Rows)
    → ((y : Instance) → (f y).id ≡ y.id)
    → IsKeyed rows
    → IsKeyed (update_where p f rows)
update-IsKeyed p f [] h k = tt
update-IsKeyed p f (x ∷ rows) h k =
    (rw (same_key (p x) f x h) (any-update x.id p f rows h ∙ k.0), update-IsKeyed p f rows h k.1)
