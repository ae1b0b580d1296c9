-- ===== src/Prelude/Words.antt =====
-- UINT32 and UINT16 arithmetic: `+` and `-` wrap round.
use Prim.Native.Nat.{ℕ, ◌+◌, ◌-◌, ◌%◌, ◌^◌}

abbrev pub u32_mod : ℕ
u32_mod = 2 ^ 32

-- `(UINT32) -1` and `(UINT32) -2`
abbrev pub minus_one : ℕ
minus_one = 4294967295

abbrev pub minus_two : ℕ
minus_two = 4294967294

abbrev pub add32 : ℕ → ℕ → ℕ
add32 a b = (a + b) % 4294967296

abbrev pub sub32 : ℕ → ℕ → ℕ
sub32 a b = (a + 4294967296 - b) % 4294967296

abbrev pub inc32 : ℕ → ℕ
inc32 a = add32 a 1

abbrev pub dec32 : ℕ → ℕ
dec32 a = sub32 a 1

-- A value stored in a UINT16.
abbrev pub u16 : ℕ → ℕ
u16 a = a % 65536

abbrev pub inc16 : ℕ → ℕ
inc16 a = (a + 1) % 65536

abbrev pub dec16 : ℕ → ℕ
dec16 a = (a + 65536 - 1) % 65536
