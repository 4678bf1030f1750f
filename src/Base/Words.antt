-- ===== src/Base/Words.antt =====
-- Machine words: `unsigned int` has 32 bits and `size_t` 64, and both wrap.
use Prim.Native.Nat.{ℕ, ◌+◌, ◌-◌, ◌%◌, ◌^◌}

abbrev pub wrap32 : ℕ → ℕ
wrap32 x = x % 2 ^ 32

-- `a - b` on `unsigned int` and on `size_t`.
abbrev pub sub32 : ℕ → ℕ → ℕ
sub32 a b = (a + 2 ^ 32 - b) % 2 ^ 32

abbrev pub sub64 : ℕ → ℕ → ℕ
sub64 a b = (a + 2 ^ 64 - b) % 2 ^ 64
