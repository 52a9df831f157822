-- ===== src/Result.antt =====
-- Go's error results (api/internal/compute/service.go, type Error, and the sentinel errors of
-- api/internal/db), and a database transaction (pgx.BeginFunc).
use shake_cloud.Prelude.{ℕ, String, ◌≡◌, refl, Bool, true, false, ◌⊎◌, inl, inr}

-- `refuse status code` is a *compute.Error without its message, which no caller tests. The others
-- are the sentinel errors that callers test, and `failed` is any other error.
pub data Err : Type 0 where
  refuse : ℕ → String → Err
  not_found no_vmid duplicate malformed : Err
  failed : String → Err

pub data Result {ℓ} (T : Type ℓ) : Type ℓ where
  err : Err → Result T
  ok : T → Result T

infixl 5 ◌>>=◌ ◌>>◌
-- `if err != nil { return err }`
abbrev pub ◌>>=◌ {ℓ κ} : {T : Type ℓ} {U : Type κ} → Result T → (T → Result U) → Result U
err why >>= body = err why
ok t >>= body = body t

-- A check whose only answer is an error.
abbrev pub ◌>>◌ {ℓ} : {U : Type ℓ} → Result (Unit {0}) → Result U → Result U
check >> after = check >>= λ _. after

-- `if test { return refusal }`: the guard passes when the test fails.
abbrev pub unless : Bool → Err → Result (Unit {0})
unless true e = err e
unless false e = ok tt

abbrev pub is_ok {ℓ} : {A : Type ℓ} → Result A → Bool
is_ok (ok a) = true
is_ok (err e) = false

-- pgx.BeginFunc: an error rolls back what the body wrote.
abbrev pub begin_func {ℓ} : {D A : Type ℓ} → D → Result (A × D) → Result A × D
begin_func d (ok (a, d')) = (ok a, d')
begin_func d (err e) = (err e, d)

pub >>=-eq-ok {ℓ κ} :
    {T : Type ℓ} {U : Type κ} (first : Result T) (body : T → Result U) {u : U}
    → (first >>= body) ≡ ok u
    → (t : T) × (first ≡ ok t) × (body t ≡ ok u)
>>=-eq-ok (err why) body e = cc
>>=-eq-ok (ok t) body e = (t, refl, e)

pub ok-injective {ℓ} : {A : Type ℓ} {a b : A} → ok a ≡ ok b → a ≡ b
ok-injective h = cc

pub Result-cases {ℓ} :
    {A : Type ℓ} (r : Result A) → ((e : Err) × (r ≡ err e)) ⊎ ((a : A) × (r ≡ ok a))
Result-cases (err e) = inl (e, refl)
Result-cases (ok a) = inr (a, refl)
