-- ===== src/Net/Icmp/Reply.antt =====
-- The echo reply.
use utms.Base.{
  ℕ, zero, suc, ◌≤◌, ◌<◌, ◌≡◌, arith, List, [], ◌∷◌, length-drop, length-take, take, drop, byte_at,
}
use utms.Net.Checksum.{ip_checksum}
use utms.Net.Checksum.Verify.{AreBytes, ip_checksum-verifies}
use utms.Net.Icmp.{sealed, reply_to, echo_reply}

pub AreBytes-take : (n : ℕ) (bs : List ℕ) → AreBytes bs → AreBytes (take n bs)
AreBytes-take zero bs h = tt
AreBytes-take (suc n) [] h = tt
AreBytes-take (suc n) (b ∷ bs) h = (h.0, AreBytes-take n bs h.1)

pub AreBytes-drop : (n : ℕ) (bs : List ℕ) → AreBytes bs → AreBytes (drop n bs)
AreBytes-drop zero bs h = h
AreBytes-drop (suc n) [] h = tt
AreBytes-drop (suc n) (b ∷ bs) h = AreBytes-drop n bs h.1

byte_at-lt : (bs : List ℕ) (i : ℕ) → AreBytes bs → byte_at bs i < 256
byte_at-lt [] i h = omega arith
byte_at-lt (b ∷ bs) zero h = h.0
byte_at-lt (b ∷ bs) (suc i) h = byte_at-lt bs i h.1

-- The echo reply to a request of at most 65,535 bytes carries a checksum that verifies.
pub reply_to-verifies :
    (n : ℕ) (pkt : List ℕ) → AreBytes pkt → n ≤ 65535 → ip_checksum (reply_to n pkt) ≡ 0
unfolding reply_to sealed
reply_to-verifies n pkt b h =
    ip_checksum-verifies (echo_reply ∷ byte_at pkt 1 ∷ []) (drop 4 (take n pkt)) tt
      (omega (arith, byte_at-lt pkt 1 b)) (AreBytes-drop 4 (take n pkt) (AreBytes-take n pkt b))
      (omega (arith, length-drop {0} 4 (take n pkt), length-take {0} n pkt))
