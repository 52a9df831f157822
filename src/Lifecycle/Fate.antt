-- ===== src/Lifecycle/Fate.antt =====
-- What becomes of one instance, followed by its key through any sequence of writes.
use shake_cloud.Prelude.{
  String, ◌≡◌, ◌⊎◌, inl, inr, refl, none, some, [], ◌∷◌, find, Bool-cases, arith, subst, sym,
}
use shake_cloud.Db.Instance.{terminated, Instance, has_id}
use shake_cloud.Db.Instances.{Rows}
use shake_cloud.Db.Keys.{found-any}
use shake_cloud.Lifecycle.Diagram.{Moves, IsDoomed, Moves-IsDoomed, Moves-terminated}
use shake_cloud.Lifecycle.Evolves.{Evolves}
use shake_cloud.Lifecycle.Reach.{Reach, here, next, IsSound, Adds, Step-cases, Reach-IsSound}

pub Evolves-find :
    (k : String) (s t : Rows) {i : Instance}
    → Evolves s t
    → find (has_id k) s ≡ some i
    → (j : Instance) × (find (has_id k) t ≡ some j) × Moves i j
Evolves-find k [] t e h = cc
Evolves-find k (x ∷ s) [] e h = absurd e
Evolves-find k (x ∷ s) (y ∷ t) {i} e h = elim (Bool-cases (has_id k x)) [
  | inl p ↦ (y, ground (arith, e.0), subst (λ z. Moves z y) (ground arith) e.1)
  | inr p ↦
      let (j, found, moves) = Evolves-find k s t e.2 (rw p at h) in (j, ground (arith, e.0), moves)
]

Step-find :
    (k : String) {s t : Rows} {i : Instance}
    → Adds s t ⊎ Evolves s t
    → find (has_id k) s ≡ some i
    → (j : Instance) × (find (has_id k) t ≡ some j) × ((j ≡ i) ⊎ Moves i j)
Step-find k {s} {t} {i} (inl (new, e, fresh, fits)) h =
    (i, rw (e, found-any k new.id s h fresh) h, inl refl)
Step-find k {s} {t} (inr e) h = let (j, found, m) = Evolves-find k s t e h in (j, found, inr m)

-- A property of one row that every edge keeps is kept for good.
follows :
    (P : Instance → Type 0)
    → ((i j : Instance) → Moves i j → P i → P j)
    → (k : String) {s t : Rows} (i : Instance) → IsSound s
    → Reach s t
    → find (has_id k) s ≡ some i
    → P i
    → (j : Instance) × (find (has_id k) t ≡ some j) × P j
follows P keep k i sound here h p = (i, h, p)
follows P keep k i sound (next r st) h p =
    let (m, found, q) = follows P keep k i sound r h p in
    let (j, found', edge) = Step-find k (Step-cases (Reach-IsSound sound r).keyed st) found in
    (j, found', elim edge [ inl e ↦ subst P (sym e) q | inr e ↦ keep m j e q ])

-- From a sound table, an instance that is shutting down with its terminate pending, or
-- terminated with nothing pending, is found in one of the two after any sequence of writes.
pub IsDoomed-stays :
    (k : String) {s t : Rows} (i : Instance)
    → IsSound s
    → Reach s t
    → find (has_id k) s ≡ some i
    → IsDoomed i
    → (j : Instance) × (find (has_id k) t ≡ some j) × IsDoomed j
IsDoomed-stays = follows IsDoomed Moves-IsDoomed

abbrev pub IsTerminated : Instance → Type 0
IsTerminated i = (i.state ≡ terminated) × (i.pending_action ≡ none)

-- From a sound table, a terminated instance with nothing pending is found so after any sequence
-- of writes: it is never brought back.
pub IsTerminated-stays :
    (k : String) {s t : Rows} (i : Instance)
    → IsSound s
    → Reach s t
    → find (has_id k) s ≡ some i
    → IsTerminated i
    → (j : Instance) × (find (has_id k) t ≡ some j) × IsTerminated j
IsTerminated-stays = follows IsTerminated (λ i j m h. Moves-terminated i j m h.0 h.1)
