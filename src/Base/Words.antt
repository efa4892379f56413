-- ===== src/Base/Words.antt =====
-- Unsigned machine words as native numbers, with the wrap-around written out.
use Prim.Native.Nat.{ℕ, ◌+◌, ◌-◌, ◌%◌}

abbrev pub u8 : ℕ → ℕ
u8 n = n % 256

abbrev pub u16 : ℕ → ℕ
u16 n = n % 65536

abbrev pub u32 : ℕ → ℕ
u32 n = n % 4294967296

-- `x - k` in a `uint8_t`, for `k` at most 256.
abbrev pub sub8 : ℕ → ℕ → ℕ
sub8 x k = (x + 256 - k) % 256
