-- ===== src/Base/Words.antt =====
-- The machine word `mword`, a `uint64_t`: its increment and its decrement wrap around.
use Prim.Native.Nat.{ℕ, suc, ◌+◌, ◌-◌, ◌%◌, ◌^◌, ◌<◌}
use mathlib.Core.Path.{◌≡◌}
use native.Mathlib.Omega.{arith}

unfoldable pub incr_word : ℕ → ℕ
incr_word n = (n + 1) % 2 ^ 64

unfoldable pub decr_word : ℕ → ℕ
decr_word n = (n + (2 ^ 64 - 1)) % 2 ^ 64

pub incr_word-lt : (n : ℕ) → suc n < 2 ^ 64 → incr_word n ≡ suc n
unfolding incr_word
incr_word-lt n h = omega arith

pub decr_word-suc : (n : ℕ) → suc n < 2 ^ 64 → decr_word (suc n) ≡ n
unfolding decr_word
decr_word-suc n h = omega arith
