-- ===== src/Base/Words.antt =====
-- Fixed-width unsigned arithmetic, single-bit masks, and bytes in memory (x86: little-endian).
use Prim.Native.Nat.{ℕ, ◌+◌, ◌-◌, ◌*◌, ◌/◌, ◌%◌}
use mathlib.Core.Bool.{Bool}
use mathlib.Core.List.{List, [], ◌∷◌}
use utms.Base.Tests.{◌==◌}
use utms.Base.Lists.{get_or}

abbrev pub u8 : ℕ → ℕ
u8 n = n % 256

abbrev pub u16 : ℕ → ℕ
u16 n = n % 65536

abbrev pub u32 : ℕ → ℕ
u32 n = n % 4294967296

abbrev pub u64 : ℕ → ℕ
u64 n = n % 18446744073709551616

-- u64 subtraction wraps.
abbrev pub sub64 : ℕ → ℕ → ℕ
sub64 a b = (a + 18446744073709551616 - b % 18446744073709551616) % 18446744073709551616

-- u32 subtraction wraps.
abbrev pub sub32 : ℕ → ℕ → ℕ
sub32 a b = (a + 4294967296 - b % 4294967296) % 4294967296

-- `x & m` is not zero, for a mask `m` of one bit.
abbrev pub has_bit : ℕ → ℕ → Bool
has_bit m x = (x / m) % 2 == 1

-- What a 16-bit and a 32-bit store put into memory, and what the loads read back.
abbrev pub le16 : ℕ → List ℕ
le16 x = (x % 256) ∷ (x / 256 % 256) ∷ []

abbrev pub le32 : ℕ → List ℕ
le32 x = (x % 256) ∷ (x / 256 % 256) ∷ (x / 65536 % 256) ∷ (x / 16777216 % 256) ∷ []

abbrev pub byte_at : List ℕ → ℕ → ℕ
byte_at bs i = get_or bs i 0

abbrev pub load16 : List ℕ → ℕ → ℕ
load16 bs i = byte_at bs i + 256 * byte_at bs (i + 1)

abbrev pub load32 : List ℕ → ℕ → ℕ
load32 bs i = load16 bs i + 65536 * load16 bs (i + 2)
