-- ===== src/Base/Word.antt =====
-- Unsigned machine integers as native numbers: each cast and each sum wraps by `%`.
use Prim.Native.Nat.{ℕ, ◌+◌, ◌-◌, ◌%◌, bit_and}
use mathlib.Core.Bool.{Bool, not}
use e_rob_canopen_node_demo.Base.Tests.{◌==◌}

abbrev pub u8 : ℕ → ℕ
u8 n = n % 256

abbrev pub u16 : ℕ → ℕ
u16 n = n % 65536

abbrev pub u32 : ℕ → ℕ
u32 n = n % 4294967296

-- `a - b` on `uint32_t`
abbrev pub sub32 : ℕ → ℕ → ℕ
sub32 a b = (a + 4294967296 - b) % 4294967296

abbrev pub add32 : ℕ → ℕ → ℕ
add32 a b = (a + b) % 4294967296

-- `(x & mask) != 0`
abbrev pub has : ℕ → ℕ → Bool
has x mask = not (bit_and x mask == 0)
