-- ===== src/Prelude/Word.antt =====
-- Go's unsigned machine integers as native numbers: each operation wraps by its width.
use Prim.Native.Nat.{ℕ, ◌+◌, ◌-◌, ◌%◌, ◌^◌}
use mathlib.Core.Bool.{Bool}
use voicekit.Prelude.Tests.{leb}

abbrev pub u8_mod : ℕ
u8_mod = 2 ^ 8

abbrev pub u16_mod : ℕ
u16_mod = 2 ^ 16

abbrev pub u32_mod : ℕ
u32_mod = 2 ^ 32

abbrev pub u64_mod : ℕ
u64_mod = 2 ^ 64

abbrev pub add64 : ℕ → ℕ → ℕ
add64 a b = (a + b) % u64_mod

abbrev pub sub64 : ℕ → ℕ → ℕ
sub64 a b = (a + u64_mod - b) % u64_mod

abbrev pub sub16 : ℕ → ℕ → ℕ
sub16 a b = (a + u16_mod - b) % u16_mod

abbrev pub sub8 : ℕ → ℕ → ℕ
sub8 a b = (a + u8_mod - b) % u8_mod

abbrev pub add8 : ℕ → ℕ → ℕ
add8 a b = (a + b) % u8_mod

-- `int64(x) < 0`
abbrev pub is_negative64 : ℕ → Bool
is_negative64 x = leb (2 ^ 63) x
