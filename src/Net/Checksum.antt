-- ===== src/Net/Checksum.antt =====
-- The internet checksum: `ip_checksum` of net/ip.c, with the same loops in `icmp_checksum`,
-- `udp_checksum` and `tcp_checksum`. `sum` is a `u32`; the words are read little-endian.
pub mod Verify
use utms.Base.{ℕ, zero, suc, ◌+◌, ◌-◌, ◌*◌, ◌/◌, ◌%◌, List, [], ◌∷◌, if◌then◌else◌, ◌==◌, u32}

-- `sum += p[i]` over the words, then the odd last byte.
unfoldable pub sum_words : ℕ → List ℕ → ℕ
sum_words sum [] = sum
sum_words sum (b ∷ []) = u32 (sum + b)
sum_words sum (lo ∷ hi ∷ rest) = sum_words (u32 (sum + (lo + 256 * hi))) rest

-- `while (sum >> 16) sum = (sum & 0xFFFF) + (sum >> 16);`
unfoldable pub fold_carry : ℕ → ℕ → ℕ
fold_carry zero sum = sum
fold_carry (suc fuel) sum =
    let rest = fold_carry fuel (sum % 65536 + sum / 65536) in if sum / 65536 == 0 then sum else rest

-- Rounds of the loop that a `u32` can take.
abbrev pub carry_fuel : ℕ
carry_fuel = 3

-- The loop on `sum`, then `~sum` as a `u16`.
unfoldable pub finish : ℕ → ℕ
finish sum = 65535 - fold_carry carry_fuel sum % 65536

unfoldable pub ip_checksum : List ℕ → ℕ
ip_checksum bytes = finish (sum_words 0 bytes)
