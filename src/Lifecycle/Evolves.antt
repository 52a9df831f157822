-- ===== src/Lifecycle/Evolves.antt =====
-- Every statement and handler moves each row of the table along the diagram.
use shake_cloud.Prelude.{
  stored, is_text, String, ◌≡◌, ◌≢◌, inl, inr, refl, Bool, true, false, Option, none, some, List,
  [], ◌∷◌, All, any, update_where, Bool-cases, arith, if◌then◌else◌, ◌∙◌, ℕ, ◌&&◌,
}
use shake_cloud.Db.Instance.{
  State, Action, launch, start, stop, reboot, terminate, Instance, has_id, same_action, state_eq,
  is_none,
}
use shake_cloud.Db.Instances.{
  Rows, Resources, finish_action, retry_later, abandon_launch, give_up_action, release_lease,
  abandoned, given_up, retried, record_resources, observe_state, note_reason, has_action,
}
use shake_cloud.Lifecycle.Diagram.{
  Moves, same, finish, abandon, give_up, observe, target, fallback, IsSettled,
}

-- The rows of two tables correspond one to one, each having moved.
abbrev pub Evolves : Rows → Rows → Type 0
Evolves [] [] = Unit
Evolves (i ∷ rows) (j ∷ rows') = (j.id ≡ i.id) × Moves i j × Evolves rows rows'
Evolves _ _ = ⊥

pub Evolves-refl : (rows : Rows) → Evolves rows rows
Evolves-refl [] = tt
Evolves-refl (i ∷ rows) = (refl, same refl refl, Evolves-refl rows)

-- What an update does to one row.
abbrev pub RowMoves : (Instance → Instance) → Instance → Type 0
RowMoves f x = ((f x).id ≡ x.id) × Moves x (f x)

touched :
    (b : Bool) (f : Instance → Instance) (x : Instance)
    → (b ≡ true → RowMoves f x)
    → ((if b then f x else x).id ≡ x.id) × Moves x (if b then f x else x)
touched true f x h = h refl
touched false f x h = (refl, same refl refl)

pub update_where-Evolves :
    (p : Instance → Bool) (f : Instance → Instance) (rows : Rows)
    → All (λ x. p x ≡ true → RowMoves f x) rows
    → Evolves rows (update_where p f rows)
update_where-Evolves p f [] h = tt
update_where-Evolves p f (x ∷ rows) h =
    let one = touched (p x) f x h.0 in (one.0, one.1, update_where-Evolves p f rows h.1)

pub All-of {ℓ} : {P : Instance → Type ℓ} (rows : Rows) → ((x : Instance) → P x) → All P rows
All-of [] h = tt
All-of (x ∷ rows) h = (h x, All-of rows h)

same_action-eq : (a : Option Action) (b : Action) → same_action a (some b) ≡ true → a ≡ some b
same_action-eq a b h = ground arith

pub same_action-some :
    (a b : Option Action) → same_action a b ≡ true → (c : Action) × (a ≡ some c) × (b ≡ some c)
same_action-some (some launch) (some launch) h = (launch, refl, refl)
same_action-some (some start) (some start) h = (start, refl, refl)
same_action-some (some stop) (some stop) h = (stop, refl, refl)
same_action-some (some reboot) (some reboot) h = (reboot, refl, refl)
same_action-some (some terminate) (some terminate) h = (terminate, refl, refl)
same_action-some a b h = ground arith

pub release_lease-Evolves : (k : String) (rows : Rows) → Evolves rows (release_lease k rows)
unfolding release_lease
release_lease-Evolves k rows =
    update_where-Evolves _ _ rows (All-of rows λ x h. (refl, same refl refl))

has_action-some :
    (k : String) (a : Option Action) (x : Instance)
    → has_action k a x ≡ true
    → (c : Action) × (x.pending_action ≡ some c) × (a ≡ some c)
has_action-some k a x h = same_action-some x.pending_action a (ground arith)

pub record_resources-Evolves :
    (now : ℕ) (k : String) (r : Resources) (rows : Rows)
    → Evolves rows (record_resources now k r rows)
unfolding record_resources
record_resources-Evolves now k r rows =
    update_where-Evolves _ _ rows (All-of rows λ x h. (refl, same refl refl))

pub note_reason-Evolves :
    (now : ℕ) (k : String) (reason : List ℕ) (rows : Rows)
    → Evolves rows (note_reason now k reason rows)
unfolding note_reason
note_reason-Evolves now k reason rows =
    update_where-Evolves _ _ rows (All-of rows λ x h. (refl, same refl refl))

finish_action-row :
    (a : Option Action) (to : State) (x j : Instance)
    → ((c : Action) → a ≡ some c → to ≡ target c)
    → ((c : Action) × (x.pending_action ≡ some c) × (a ≡ some c))
    → j.state ≡ to
    → j.pending_action ≡ none
    → Moves x j
finish_action-row a to x j h (c, p, q) s n = finish c p (s ∙ h c q) n

pub finish_action-Evolves :
    (now : ℕ) (k : String) (a : Option Action) (to : State) (reason : List ℕ) (rows : Rows)
    → ((c : Action) → a ≡ some c → to ≡ target c)
    → Evolves rows (finish_action now k a to reason rows).1
unfolding finish_action
finish_action-Evolves now k a to reason rows h = elim (Bool-cases (any (has_action k a) rows)) [
  | inl e ↦ rw e (
      update_where-Evolves _ _ rows (
        All-of rows
          λ x t. (refl, finish_action-row a to x _ h (has_action-some k a x t) refl refl)))
  | inr e ↦ rw e (release_lease-Evolves k rows)
]

-- A write of a text that may be refused.
stored-Evolves :
    (text : List ℕ) (rows written : Rows)
    → Evolves rows written
    → Evolves rows (stored text written rows)
stored-Evolves text rows written h = elim (Bool-cases (is_text text)) [
  | inl e ↦ rw e h
  | inr e ↦ rw e (Evolves-refl rows)
]

pub abandon_launch-Evolves :
    (now : ℕ) (k : String) (reason : List ℕ) (rows : Rows)
    → Evolves rows (abandon_launch now k reason rows)
unfolding abandon_launch
abandon_launch-Evolves now k reason rows = stored-Evolves reason rows _ (
    update_where-Evolves (has_action k (some launch)) (abandoned now reason) rows (
      All-of rows
        λ x t. (refl, abandon (same_action-eq x.pending_action launch (ground arith)) refl refl)))

give_up-row :
    (a : Option Action) (to : State) (x j : Instance)
    → ((c : Action) → a ≡ some c → (c ≢ launch) × (c ≢ terminate) × (to ≡ fallback c))
    → ((c : Action) × (x.pending_action ≡ some c) × (a ≡ some c))
    → j.state ≡ to
    → j.pending_action ≡ none
    → Moves x j
give_up-row a to x j h (c, p, q) s n = give_up c p (h c q).0 (h c q).1 (s ∙ (h c q).2) n

pub give_up_action-Evolves :
    (now : ℕ) (k : String) (a : Option Action) (to : State) (reason : List ℕ) (rows : Rows)
    → ((c : Action) → a ≡ some c → (c ≢ launch) × (c ≢ terminate) × (to ≡ fallback c))
    → Evolves rows (give_up_action now k a to reason rows)
unfolding give_up_action
give_up_action-Evolves now k a to reason rows h = stored-Evolves reason rows _ (
    update_where-Evolves (has_action k a) (given_up now to reason) rows
      (All-of rows λ x t. (refl, give_up-row a to x _ h (has_action-some k a x t) refl refl)))

-- A retry is one update: the lease that it clears again is clear already.
retried-Evolves :
    (now : ℕ) (k : String) (a : Option Action) (message : List ℕ) (next : ℕ) (rows : Rows)
    → Evolves rows (release_lease k (update_where (has_action k a) (retried now message next) rows))
unfolding release_lease
retried-Evolves now k a message next [] = tt
retried-Evolves now k a message next (x ∷ rows) =
    (ground arith, same (ground arith) (ground arith), retried-Evolves now k a message next rows)

pub retry_later-Evolves :
    (now : ℕ) (k : String) (a : Option Action) (message : List ℕ) (next : ℕ) (rows : Rows)
    → Evolves rows (retry_later now k a message next rows)
unfolding retry_later
retry_later-Evolves now k a message next rows =
    stored-Evolves message rows _ (retried-Evolves now k a message next rows)

pub observe_state-Evolves :
    (now : ℕ) (k : String) (from to : State) (reason : List ℕ) (rows : Rows)
    → IsSettled from
    → IsSettled to
    → Evolves rows (observe_state now k from to reason rows)
unfolding observe_state
observe_state-Evolves now k from to reason rows hf ht =
    update_where-Evolves (λ i. has_id k i && state_eq i.state from && is_none i.pending_action) _
      rows (All-of rows λ x t. (refl, observe (ground arith) (ground arith) ht (ground arith)))
