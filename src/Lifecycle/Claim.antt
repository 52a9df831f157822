-- ===== src/Lifecycle/Claim.antt =====
-- Which instance a worker claims (db.ClaimWork of api/internal/db/instances.go).
use shake_cloud.Prelude.{
  eq_refl, ℕ, ◌+◌, ◌≤◌, ◌&&◌, not, String, ◌≡◌, ◌≢◌, inl, inr, refl, Bool, true, false, Option,
  none, some, [], ◌∷◌, any, All, select, find, update_where, Bool-cases, Option-cases, arith, subst,
  sym, ap, ◌∙◌,
}
use shake_cloud.Result.{Err, Result, ok, err, not_found}
use shake_cloud.Db.Instance.{Instance, has_id}
use shake_cloud.Db.Instances.{Rows, update_returning, first_of_rows, claim_work, is_due, before}
use shake_cloud.Lifecycle.Reach.{claim_work-Evolves, Evolves-IsKeyed}
use shake_cloud.Db.Keys.{IsKeyed, found-any, find-update_where}

-- A row that the claim may take: due, its lease free, and not locked by another transaction.
abbrev pub is_claimable : ℕ → (String → Bool) → Instance → Bool
is_claimable now locked i = is_due now i && not (locked i.id)

first_of_rows-none : (rows : Rows) → first_of_rows rows ≡ none → rows ≡ []
unfolding first_of_rows
first_of_rows-none [] h = refl
first_of_rows-none (i ∷ rows) h = absurd (ground arith)

le-All :
    (m n : ℕ) (rows : Rows)
    → m ≤ n
    → All (λ x. n ≤ x.next_attempt_at) rows
    → All (λ x. m ≤ x.next_attempt_at) rows
le-All m n [] h k = tt
le-All m n (x ∷ rows) h k = (omega arith, le-All m n rows h k.1)

first_of_rows-least :
    (rows : Rows) {c : Instance}
    → first_of_rows rows ≡ some c
    → All (λ x. c.next_attempt_at ≤ x.next_attempt_at) rows
unfolding first_of_rows
first_of_rows-least [] h = cc
first_of_rows-least (i ∷ rows) {c} h = elim (Option-cases (first_of_rows rows)) [
  | inl e ↦ (
    ground arith,
    subst (All (λ x. c.next_attempt_at ≤ x.next_attempt_at)) (sym (first_of_rows-none rows e)) tt,
  )
  | inr (j, e) ↦
      let least = first_of_rows-least rows e in
      (ground arith, le-All c.next_attempt_at j.next_attempt_at rows (ground arith) least)
]

-- A row of the table, by its key, that passes the test.
abbrev pub Found : (Instance → Bool) → Rows → Instance → Type 0
Found p rows c = (find (has_id c.id) rows ≡ some c) × (p c ≡ true)

pub Found-head :
    (p : Instance → Bool) (x c : Instance) (rows : Rows) → p x ≡ true → x ≡ c → Found p (x ∷ rows) c
Found-head p x c rows e q = subst (Found p (x ∷ rows)) q (rw (eq_refl x.id), e)

pub Found-tail :
    (p : Instance → Bool) (x c : Instance) (rows : Rows)
    → any (has_id x.id) rows ≡ false
    → Found p rows c
    → Found p (x ∷ rows) c
Found-tail p x c rows fresh h = (rw (found-any c.id x.id rows h.0 fresh) h.0, h.1)

first_of_rows-Found :
    (p : Instance → Bool) (rows : Rows) {c : Instance}
    → IsKeyed rows
    → first_of_rows (select p rows) ≡ some c
    → Found p rows c
unfolding first_of_rows
first_of_rows-Found p [] keyed h = cc
first_of_rows-Found p (x ∷ rows) {c} keyed h = elim (Bool-cases (p x)) [
  | inr e ↦ Found-tail p x c rows keyed.0 (first_of_rows-Found p rows keyed.1 (rw e at h))
  | inl e ↦ elim (Option-cases (first_of_rows (select p rows))) [
    | inl n ↦ Found-head p x c rows e (ground arith)
    | inr (j, f) ↦ elim (Bool-cases (before j x)) [
      | inl b ↦
          let tail = first_of_rows-Found p rows keyed.1 f in
          Found-tail p x c rows keyed.0 (subst (Found p rows) (ground arith) tail)
      | inr b ↦ Found-head p x c rows e (ground arith)
    ]
  ]
]

select-least :
    (p : Instance → Bool) (n : ℕ) (rows : Rows)
    → All (λ x. n ≤ x.next_attempt_at) (select p rows)
    → All (λ x. p x ≡ true → n ≤ x.next_attempt_at) rows
select-least p n [] h = tt
select-least p n (x ∷ rows) h = elim (Bool-cases (p x)) [
  | inl e ↦ let k = rw e at h in ((λ t. k.0), select-least p n rows k.1)
  | inr e ↦ ((λ t. cc (e, t)), select-least p n rows (rw e at h))
]

-- The row as the claim leases it.
abbrev pub leased : ℕ → ℕ → Instance → Instance
leased now lease c = record c { lease_until = some (now + lease) }

claimed :
    (now lease : ℕ) (rows : Rows) (o : Option Instance) {r : Instance × Rows}
    → ((c : Instance) → o ≡ some c → find (has_id c.id) rows ≡ some c)
    → elim o as (λ _. Result (Instance × Rows)) [
      | none ↦ err not_found
      | some i ↦ update_returning i.id (leased now lease) rows
    ]
      ≡ ok r
    → (c : Instance) × (o ≡ some c)
      × (r.0 ≡ leased now lease c)
      × (r.1 ≡ update_where (has_id c.id) (leased now lease) rows)
claimed now lease rows none f h = cc
claimed now lease rows (some c) f h =
    let found = find-update_where c.id (leased now lease) rows (λ x. refl) (f c refl) in
    (c, refl, ground arith, ground arith)

-- In a table with unique keys, a claim returns a row of the table that was due, with its lease free
-- and not locked, as it was but for the new lease; and no claimable row has been due for longer.
pub claim_earliest :
    (now lease : ℕ) (locked : String → Bool) (rows : Rows) {i : Instance} {t : Rows}
    → IsKeyed rows
    → claim_work now lease locked rows ≡ ok (i, t)
    → (c : Instance) × (find (has_id c.id) rows ≡ some c)
      × (is_claimable now locked c ≡ true)
      × (i ≡ leased now lease c)
      × (t ≡ update_where (has_id c.id) (leased now lease) rows)
      × All (λ x. is_claimable now locked x ≡ true → c.next_attempt_at ≤ x.next_attempt_at) rows
unfolding claim_work
claim_earliest now lease locked rows keyed h =
    let first = first_of_rows (select (is_claimable now locked) rows) in
    let found = λ (c : Instance) (e : first ≡ some c).
      first_of_rows-Found (is_claimable now locked) rows keyed e in
    let (c, e, same_row, same_rows) = claimed now lease rows first (λ c e. (found c e).0) h in
    (
      c,
      (found c e).0,
      (found c e).1,
      same_row,
      same_rows,
      select-least (is_claimable now locked) c.next_attempt_at rows (first_of_rows-least _ e),
    )

select-nil : (p : Instance → Bool) (rows : Rows) → select p rows ≡ [] → All (λ x. p x ≡ false) rows
select-nil p [] h = tt
select-nil p (x ∷ rows) h = elim (Bool-cases (p x)) [
  | inl e ↦ absurd (ground arith)
  | inr e ↦ (e, select-nil p rows (rw e at h))
]

unclaimed :
    (now lease : ℕ) (rows : Rows) (o : Option Instance) {e : Err}
    → ((c : Instance) → o ≡ some c → find (has_id c.id) rows ≡ some c)
    → elim o as (λ _. Result (Instance × Rows)) [
      | none ↦ err not_found
      | some i ↦ update_returning i.id (leased now lease) rows
    ]
      ≡ err e
    → o ≡ none
unclaimed now lease rows none f h = refl
unclaimed now lease rows (some c) f h =
    let found = find-update_where c.id (leased now lease) rows (λ x. refl) (f c refl) in
    absurd (ground arith)

-- In a table with unique keys, a claim fails only when no row is claimable.
pub claim_none :
    (now lease : ℕ) (locked : String → Bool) (rows : Rows) {e : Err}
    → IsKeyed rows
    → claim_work now lease locked rows ≡ err e
    → All (λ x. is_claimable now locked x ≡ false) rows
unfolding claim_work
claim_none now lease locked rows keyed h =
    let p = is_claimable now locked in
    let first = first_of_rows (select p rows) in
    let found = λ (c : Instance) (e : first ≡ some c). first_of_rows-Found p rows keyed e in
    select-nil p rows
      (first_of_rows-none (select p rows) (unclaimed now lease rows first (λ c e. (found c e).0) h))

leased_not_free :
    (now lease later : ℕ) (c : Instance)
    → later ≤ now + lease
    → is_due later (leased now lease c) ≡ true
    → ⊥
leased_not_free now lease later c h k = ground arith

-- In a table with unique keys, a claim that directly follows another, within the lease of the
-- first, takes another instance.
pub claim_exclusive :
    (now lease later lease' : ℕ) (locked locked' : String → Bool) (rows : Rows) {i i' : Instance}
    {t t' : Rows}
    → IsKeyed rows
    → later ≤ now + lease
    → claim_work now lease locked rows ≡ ok (i, t)
    → claim_work later lease' locked' t ≡ ok (i', t')
    → i'.id ≢ i.id
claim_exclusive now lease later lease' locked locked' rows {i} {i'} {t} keyed in_time h h' e =
    let (c, found, due, same_row, same_rows, least) =
      claim_earliest now lease locked rows keyed h in
    let keyed' = Evolves-IsKeyed rows t (claim_work-Evolves now lease locked rows h) keyed in
    let (c', found', due', same_row', rows', least') =
      claim_earliest later lease' locked' t keyed' h' in
    let again = find-update_where c.id (leased now lease) rows (λ x. refl) found in
    let key = λ (x : Instance). x.id in
    let same_key : c'.id ≡ c.id = sym (ap key same_row') ∙ e ∙ ap key same_row in
    let lookup_t = λ (k : String). find (has_id k) t in
    let twice : ◌≡◌ {A = Option Instance} (some c') (some (leased now lease c)) =
      sym found' ∙ ap lookup_t same_key ∙ ap (find (has_id c.id)) same_rows ∙ again in
    let is_leased : c' ≡ leased now lease c = cc twice in
    leased_not_free now lease later c in_time
      (subst (λ x. is_due later x ≡ true) is_leased (ground (arith, due')))
