-- ===== src/Net/Endian.antt =====
-- include/endian.h: byte swaps. A union of shifted fields that share no bit is their sum.
use utms.Base.{ℕ, ◌+◌, ◌*◌, ◌/◌, ◌%◌, ◌<◌, ◌≡◌, [], ◌∷◌, arith, u16, u32, le16}

unfoldable pub bswap16 : ℕ → ℕ
bswap16 x = u16 (x / 256 + x * 256)

unfoldable pub bswap32 : ℕ → ℕ
bswap32 x = x / 16777216 + x / 65536 % 256 * 256 + x / 256 % 256 * 65536 + u32 (x * 16777216)

-- `htons`, `htonl` and their inverses are the swaps.
abbrev pub htons : ℕ → ℕ
htons x = bswap16 x

abbrev pub ntohs : ℕ → ℕ
ntohs x = bswap16 x

abbrev pub htonl : ℕ → ℕ
htonl x = bswap32 x

abbrev pub ntohl : ℕ → ℕ
ntohl x = bswap32 x

pub bswap16_lt : (x : ℕ) → bswap16 x < 65536
unfolding bswap16
bswap16_lt x = omega arith

-- The high byte of a 16-bit value comes first in memory.
pub le16-htons : (x : ℕ) → x < 65536 → le16 (htons x) ≡ (x / 256) ∷ (x % 256) ∷ []
unfolding bswap16
le16-htons x h = ground arith

pub bswap16_involutive : (x : ℕ) → x < 65536 → bswap16 (bswap16 x) ≡ x
unfolding bswap16
bswap16_involutive x h = omega arith
