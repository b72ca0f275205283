-- ===== src/Base/Words.antt =====
-- Unsigned machine words: a value is a number below the modulus, and the wrap-around is written out.
use Prim.Native.Nat.{ℕ, ◌+◌, ◌%◌, ◌^◌, ◌<◌}
use mathlib.Core.Path.{◌≡◌}
use native.Mathlib.Omega.{arith}

abbrev pub u16_mod : ℕ
u16_mod = 2 ^ 16

abbrev pub u64_mod : ℕ
u64_mod = 2 ^ 64

-- a + b on uint64_t
unfoldable pub add64 : ℕ → ℕ → ℕ
add64 a b = (a + b) % u64_mod

pub add64-eq-add : (a b : ℕ) → a + b < u64_mod → add64 a b ≡ a + b
unfolding add64
add64-eq-add a b h = omega arith
