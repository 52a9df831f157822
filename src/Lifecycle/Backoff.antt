-- ===== src/Lifecycle/Backoff.antt =====
-- Service.backoff of api/internal/compute/worker.go. Durations are nanoseconds, and times are
-- nanoseconds since Go's zero time.
use native.Mathlib.Nat.{pow-le-pow_right}
use shake_cloud.Prelude.{
  ◌≤◌, ℕ, ◌+◌, ◌-◌, ◌*◌, ◌^◌, ◌/◌, ℤ, pos, negsuc, ltℤ, ltb, pos_part, neg_part, ◌≡◌, if◌then◌else◌,
  arith,
}

abbrev pub second : ℕ
second = 10 ^ 9

abbrev pub five_minutes : ℕ
five_minutes = 300 * second

-- Go's conversion of a float64 to an int64. Below 2^63 it is exact here, for a retry delay below 2^53
-- nanoseconds (104 days), which a float64 holds: the float is a power of two times the delay. Past it
-- the result is the platform's, `overflow`.
abbrev pub to_int64 : (ℕ → ℤ) → ℕ → ℤ
to_int64 overflow n = if ltb n (2 ^ 63) then pos n else overflow n

-- The power of two is halved, and not its exponent lowered, for the sake of 0 attempts.
unfoldable pub backoff : (ℕ → ℤ) → ℕ → ℕ → ℤ
backoff overflow retry_delay attempts =
    let delay = to_int64 overflow (retry_delay * 2 ^ attempts / 2) in
    if ltℤ delay (pos five_minutes) then delay else pos five_minutes

-- `t.Add(d)`
abbrev pub add_duration : ℕ → ℤ → ℕ
add_duration t d = t + pos_part d - neg_part d

-- What amd64 gives for a float64 past the range: the least int64.
abbrev pub amd64 : ℕ → ℤ
amd64 n = negsuc (2 ^ 63 - 1)

-- On amd64, from the 32nd failed attempt on and with the default delay of five seconds, the doubled
-- delay no longer fits an int64: the wait is negative, and the next attempt is due at once.
pub backoff_overflows :
    (attempts clock : ℕ)
    → 32 ≤ attempts
    → add_duration clock (backoff amd64 (5 * second) attempts) ≡ clock - 2 ^ 63
unfolding backoff
backoff_overflows attempts clock h =
    let big = pow-le-pow_right {n = 2} (omega arith) {i = 32} {j = attempts} (omega arith) in
    ground arith
