-- ===== src/Net/Udp/Checksum.antt =====
-- What a receiver makes of the checksum of `udp_send`.
use utms.Net.Udp.{datagram, udp_checksum, datagram_with, before_checksum, proto_udp, udp_hdr_size}
use utms.Base.{ap, ◌∙◌, ℕ, ◌+◌, ◌*◌, ◌/◌, ◌%◌, ◌≤◌, ◌<◌, ◌≡◌, ◌↔◌, arith, List, length}
use utms.Net.Checksum.Verify.{
  fold_carry-pos, fold_carry-mod, fold_carry-lt, AreBytes, word_total, word_total_bound,
  sum_words-eq-word_total,
}
use utms.Net.Checksum.{carry_fuel, sum_words, finish}
use utms.Net.Endian.{htons, bswap16, bswap16_lt}

-- The halves of the two addresses.
abbrev halves : ℕ → ℕ → ℕ
halves src dst = src / 65536 % 65536 + src % 65536 + (dst / 65536 % 65536 + dst % 65536)

-- The checksum over a datagram that arrived, with the protocol and the length of the
-- pseudo-header in network byte order, like its words.
unfoldable pub receiver_check : ℕ → ℕ → List ℕ → ℕ
receiver_check src dst udp =
    finish (sum_words (halves src dst + (htons proto_udp + htons (length udp))) udp)

module _ (srcp dstp : ℕ) (payload : List ℕ) (bytes : AreBytes payload)
    (short : length payload ≤ 65000) where
  -- The words of the datagram without its checksum.
  rest : ℕ
  rest = word_total (before_checksum srcp dstp (udp_hdr_size + length payload)) + word_total payload

  rest_bound : rest ≤ 65535 * 65006
  unfolding rest before_checksum word_total
  rest_bound = omega (arith, word_total_bound payload bytes)

  sum-datagram :
      (acc c : ℕ)
      → acc + rest + c < 4294967296
      → c < 65536
      → sum_words acc (datagram_with srcp dstp c payload) ≡ acc + rest + c
  unfolding rest datagram_with before_checksum word_total
  sum-datagram acc c h lt =
      sum_words-eq-word_total acc (datagram_with srcp dstp c payload) (omega arith) ∙ omega arith

-- A checksum is 0 exactly when the sum is a multiple of 65535 that is not 0.
finish-zero_iff : (s : ℕ) → 0 < s → s < 4294967296 → (finish s ≡ 0) ↔ (s % 65535 ≡ 0)
unfolding finish
finish-zero_iff s p h = (
  λ e. omega (arith, fold_carry-lt s h, fold_carry-mod carry_fuel s),
  λ e. omega (arith, fold_carry-lt s h, fold_carry-mod carry_fuel s, fold_carry-pos carry_fuel s p),
)

complement : (s : ℕ) → s < 4294967296 → (finish s < 65536) × ((s + finish s) % 65535 ≡ 0)
unfolding finish
complement s h = omega (arith, fold_carry-lt s h, fold_carry-mod carry_fuel s)

-- Swapping its bytes multiplies a 16-bit value by 256, modulo 65535.
bswap16-mod : (x : ℕ) → x < 65536 → bswap16 x % 65535 ≡ (256 * x) % 65535
unfolding bswap16
bswap16-mod x h = omega arith

-- The sums of sender and receiver agree modulo 65535 exactly at the multiples of 257.
agree_iff :
    (t n c a b : ℕ)
    → n < 65536
    → (t + (17 + n) + c) % 65535 ≡ 0
    → a % 65535 ≡ (256 * 17) % 65535
    → b % 65535 ≡ (256 * n) % 65535
    → ((t + (a + b) + c) % 65535 ≡ 0) ↔ ((n + 17) % 257 ≡ 0)
agree_iff t n c a b h z ea eb = (λ e. omega arith, λ e. omega arith)

module _ (src dst srcp dstp : ℕ) (payload : List ℕ) (bytes : AreBytes payload)
    (short : length payload ≤ 65000) where
  size : ℕ
  size = udp_hdr_size + length payload

  total : ℕ
  total = halves src dst + rest srcp dstp payload bytes short

  total_bound : total ≤ 65535 * 65010
  unfolding total
  total_bound = omega (arith, rest_bound srcp dstp payload bytes short)

  length-datagram_with : (c : ℕ) → length (datagram_with srcp dstp c payload) ≡ size
  unfolding size datagram_with before_checksum
  length-datagram_with c = omega arith

  checksum-eq :
      udp_checksum src dst (datagram_with srcp dstp 0 payload) ≡ finish (total + (17 + size))
  unfolding udp_checksum total size
  checksum-eq =
      let n = length-datagram_with 0 in
      let bound = total_bound in
      ap finish (
        rw n (
          ap (λ acc. sum_words acc (datagram_with srcp dstp 0 payload)) (omega arith)
          ∙ sum-datagram srcp dstp payload bytes short (halves src dst + (17 + size)) 0
              (omega arith) (omega arith)
          ∙ omega arith))

  receiver_check-eq :
      (c : ℕ)
      → c < 65536
      → receiver_check src dst (datagram_with srcp dstp c payload)
        ≡ finish (total + (htons 17 + htons size) + c)
  unfolding receiver_check total
  receiver_check-eq c lt =
      let bound = total_bound in
      let a = bswap16_lt 17 in
      let b = bswap16_lt size in
      ap finish (
        rw (length-datagram_with c) (
          sum-datagram srcp dstp payload bytes short (halves src dst + (htons 17 + htons size)) c
            (omega arith) lt
          ∙ omega arith))

  -- A datagram that `udp_send` builds from at most 65,000 bytes passes the check of its receiver
  -- exactly when 257 divides the sum of its length and the number of the protocol.
  pub datagram-verifies_iff :
      (receiver_check src dst (datagram src dst srcp dstp payload) ≡ 0)
      ↔ ((length payload + 25) % 257 ≡ 0)
  unfolding datagram size
  datagram-verifies_iff =
      let bound = total_bound in
      let a = bswap16_lt 17 in
      let b = bswap16_lt size in
      let s = total + (17 + size) in
      let (lt, z) = complement s (omega arith) in
      let check = receiver_check-eq (finish s) lt in
      let zero_iff =
        finish-zero_iff (total + (htons 17 + htons size) + finish s) (omega arith) (omega arith) in
      let agree =
        agree_iff total size (finish s) (bswap16 17) (bswap16 size) (omega arith) z
          (bswap16-mod 17 (omega arith)) (bswap16-mod size (omega arith)) in
      rw (checksum-eq) (
        rw check (
          λ e. omega (arith, agree.0 (zero_iff.0 e)),
          λ e. zero_iff.1 (agree.1 (omega (arith, e))),
        ))
