-- ===== src/Word.antt =====
-- Machine words of the queue engine: u64 counters, and i64 times kept as their 64-bit patterns, so
-- that a cast between the two changes nothing. Arithmetic wraps, as in a release build.
use pelican_q.Base.{ℕ, ◌+◌, ◌-◌, ◌*◌, ◌%◌, ◌<◌, ◌≡◌, Bool, ltb, arith}
use pelican_q.Bytes.RoundTrip.{u64_mod}

abbrev pub i64_half : ℕ
i64_half = 9223372036854775808

unfoldable pub wrapping_add : ℕ → ℕ → ℕ
wrapping_add a b = (a + b) % u64_mod

unfoldable pub wrapping_sub : ℕ → ℕ → ℕ
wrapping_sub a b = (a + u64_mod - b) % u64_mod

unfoldable pub wrapping_mul : ℕ → ℕ → ℕ
wrapping_mul a b = (a * b) % u64_mod

-- `a < b` on i64: the sign bit turned round, the patterns compare as the integers do.
unfoldable pub signed_lt : ℕ → ℕ → Bool
signed_lt a b = ltb ((a + i64_half) % u64_mod) ((b + i64_half) % u64_mod)

-- Below 2 ^ 63 a pattern is a non-negative integer, and compares as a number.
pub signed_lt_nonneg : (a b : ℕ) → a < i64_half → b < i64_half → signed_lt a b ≡ ltb a b
unfolding signed_lt
signed_lt_nonneg a b h k = ground arith
