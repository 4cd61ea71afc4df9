-- ===== src/Prelude/Words.antt =====
-- Rust's machine integers as bit patterns. The workspace builds with overflow checks off, so
-- arithmetic wraps. An `i64` is its two's-complement pattern, below 2 ^ 64.
use Prim.Native.Nat.{ℕ, ◌+◌, ◌-◌, ◌/◌, ◌%◌, ◌^◌}
use mathlib.Core.Bool.{Bool}
use yaqeen_stark_winterfell.Prelude.Tests.{ltb, if◌then◌else◌}

-- `a + b` on `u64` and on `i64`.
unfoldable pub add64 : ℕ → ℕ → ℕ
add64 a b = (a + b) % 2 ^ 64

-- `a - b` on `i64`.
unfoldable pub sub64 : ℕ → ℕ → ℕ
sub64 a b = (a + 2 ^ 64 - b) % 2 ^ 64

-- `a < b` on `i64`: the patterns in signed order.
unfoldable pub ltb_i64 : ℕ → ℕ → Bool
ltb_i64 a b = ltb ((a + 2 ^ 63) % 2 ^ 64) ((b + 2 ^ 63) % 2 ^ 64)

-- `a / k` on `i64` for a positive constant `k`: towards zero.
unfoldable pub div_i64 : ℕ → ℕ → ℕ
div_i64 a k = if ltb a (2 ^ 63) then a / k else (2 ^ 64 - (2 ^ 64 - a) / k) % 2 ^ 64
