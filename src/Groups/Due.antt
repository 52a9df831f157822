-- ===== src/Groups/Due.antt =====
-- Which firewall a worker claims (ClaimFirewallWork of api/internal/db/securitygroups.go).
use shake_cloud.Prelude.{
  Bool-cases, Option-cases, find, select, update_where, ℕ, ◌+◌, String, ◌≡◌, refl, subst, inl, inr,
  Bool, true, ◌&&◌, not, Option, none, some, [], ◌∷◌, arith,
}
use shake_cloud.Result.{not_found, Result, err, ok}
use shake_cloud.Db.Instance.{Instance, has_id}
use shake_cloud.Db.Instances.{Rows, update_returning}
use shake_cloud.Db.Keys.{IsKeyed, find-update_where}
use shake_cloud.Db.FirewallWork.{
  firewall_is_due, firewall_before, first_behind, claim_firewall_work,
}
use shake_cloud.Lifecycle.Claim.{Found, Found-head, Found-tail}

abbrev pub is_owed : ℕ → (String → Bool) → Instance → Bool
is_owed now locked i = firewall_is_due now i && not (locked i.id)

first_behind-Found :
    (p : Instance → Bool) (rows : Rows) {c : Instance}
    → IsKeyed rows
    → first_behind (select p rows) ≡ some c
    → Found p rows c
unfolding first_behind
first_behind-Found p [] keyed h = cc
first_behind-Found p (x ∷ rows) {c} keyed h = elim (Bool-cases (p x)) [
  | inr e ↦ Found-tail p x c rows keyed.0 (first_behind-Found p rows keyed.1 (rw e at h))
  | inl e ↦ elim (Option-cases (first_behind (select p rows))) [
    | inl n ↦ Found-head p x c rows e (ground arith)
    | inr (j, f) ↦ elim (Bool-cases (firewall_before j x)) [
      | inl b ↦
          let tail = first_behind-Found p rows keyed.1 f in
          Found-tail p x c rows keyed.0 (subst (Found p rows) (ground arith) tail)
      | inr b ↦ Found-head p x c rows e (ground arith)
    ]
  ]
]

-- The row as the claim leases it.
abbrev pub fire_leased : ℕ → ℕ → Instance → Instance
fire_leased now lease c = record c { firewall_lease_until = some (now + lease) }

fire_claimed :
    (now lease : ℕ) (rows : Rows) (o : Option Instance) {r : Instance × Rows}
    → ((c : Instance) → o ≡ some c → find (has_id c.id) rows ≡ some c)
    → elim o as (λ _. Result (Instance × Rows)) [
      | none ↦ err not_found
      | some i ↦ update_returning i.id (fire_leased now lease) rows
    ]
      ≡ ok r
    → (c : Instance) × (o ≡ some c)
      × (r.0 ≡ fire_leased now lease c)
      × (r.1 ≡ update_where (has_id c.id) (fire_leased now lease) rows)
fire_claimed now lease rows none f h = cc
fire_claimed now lease rows (some c) f h =
    let found = find-update_where c.id (fire_leased now lease) rows (λ x. refl) (f c refl) in
    (c, refl, ground arith, ground arith)

-- A claim leases a row of the table that is due, and no other.
pub claim_firewall_work-row :
    (now lease : ℕ) (locked : String → Bool) (rows : Rows) {i : Instance} {t : Rows}
    → IsKeyed rows
    → claim_firewall_work now lease locked rows ≡ ok (i, t)
    → (c : Instance) × (find (has_id c.id) rows ≡ some c)
      × (is_owed now locked c ≡ true)
      × (i ≡ fire_leased now lease c)
      × (t ≡ update_where (has_id c.id) (fire_leased now lease) rows)
unfolding claim_firewall_work
claim_firewall_work-row now lease locked rows keyed h =
    let first = first_behind (select (is_owed now locked) rows) in
    let found =
      λ (c : Instance) (e : first ≡ some c). first_behind-Found (is_owed now locked) rows keyed e in
    let (c, e, same_row, same_rows) = fire_claimed now lease rows first (λ c e. (found c e).0) h in
    (c, (found c e).0, (found c e).1, same_row, same_rows)
