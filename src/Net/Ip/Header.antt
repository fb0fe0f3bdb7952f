-- ===== src/Net/Ip/Header.antt =====
-- The header that `ip_send_packet` builds.
use utms.Base.{ℕ, ◌<◌, ◌≡◌, arith}
use utms.Net.Checksum.{ip_checksum}
use utms.Net.Checksum.Verify.{ip_checksum-verifies}
use utms.Net.Ip.{header, sealed_header, before_checksum, after_checksum}

-- A receiver that checks the header of a packet that `ip_send_packet` builds finds its checksum
-- right, whatever the length and the addresses, for a protocol number of one byte.
pub sealed_header-verifies :
    (total proto src dst : ℕ) → proto < 256 → ip_checksum (sealed_header total proto src dst) ≡ 0
unfolding sealed_header header
sealed_header-verifies total proto src dst h =
    ip_checksum-verifies (before_checksum total proto) (after_checksum src dst) tt (omega arith)
      (omega arith) (omega arith)
