-- ===== src/Net/Icmp.antt =====
-- net/icmp.c: echo requests and replies. The busy-wait of `icmp_ping` enters as what happens in it.
pub mod Reply
use utms.Base.{
  ℕ, zero, suc, ◌+◌, Bool, true, false, ◌&&◌, List, [], ◌∷◌, ◌++◌, take, drop, byte_at, load16,
  le16, u16, if◌then◌else◌, ◌==◌, ltb,
}
use utms.Base.Int.{ℤ, pos, negsuc, to_size}
use utms.Net.Endian.{htons, ntohs}
use utms.Net.Checksum.{ip_checksum}
use utms.Net.State.{NetState, Env}
use utms.Net.Ip
use utms.Net.Ip.{Sent, sent, failed, proto_icmp}

-- `icmp_seq`, `ping_target`, `icmp_ping_received`, and the stack below.
pub record IcmpState : Type 0 where
  pub seq : ℕ
  pub ping_target : ℕ
  pub ping_received : Bool
  pub net : NetState

abbrev pub icmp_id : ℕ
icmp_id = 0x1234

abbrev pub echo_reply : ℕ
echo_reply = 0

abbrev pub echo_request : ℕ
echo_request = 8

-- `sizeof(icmp_hdr_t)`
abbrev pub icmp_hdr_size : ℕ
icmp_hdr_size = 8

-- A message of type `kind`, with the checksum of all its bytes in place.
unfoldable pub sealed : ℕ → ℕ → List ℕ → List ℕ
sealed kind code rest = kind ∷ code ∷ (le16 (ip_checksum (kind ∷ code ∷ 0 ∷ 0 ∷ rest)) ++ rest)

-- "UTMS ping"
abbrev pub greeting : List ℕ
greeting = 85 ∷ 84 ∷ 77 ∷ 83 ∷ 32 ∷ 112 ∷ 105 ∷ 110 ∷ 103 ∷ []

unfoldable pub send_request : Env → ℕ → ℕ → ℕ → NetState → NetState × Sent
send_request env dst id seq s =
    Ip.send_packet env dst proto_icmp
      (sealed echo_request 0 (le16 (htons id) ++ (le16 (htons seq) ++ greeting))) (pos 17) s

-- What goes back for a request of `n` bytes: the type and the checksum change in place.
unfoldable pub reply_to : ℕ → List ℕ → List ℕ
reply_to n pkt = sealed echo_reply (byte_at pkt 1) (drop 4 (take n pkt))

-- `pkt` holds the bytes from the ICMP header on. At a negative `len` the checksum is left out: what
-- follows copies nothing or overruns.
unfoldable pub reply_bytes : ℤ → List ℕ → List ℕ
reply_bytes (pos n) pkt = reply_to n pkt
reply_bytes (negsuc n) pkt = pkt

unfoldable pub handle_packet : Env → List ℕ → ℤ → ℕ → IcmpState → IcmpState × Sent
handle_packet env pkt len src s =
    if ltb (to_size len) icmp_hdr_size
    then (s, failed)
    else if byte_at pkt 0 == echo_request
    then answer
    else if byte_at pkt 0 == echo_reply
    then (received, failed)
    else (s, failed)
  where
    answer : IcmpState × Sent
    answer =
        let (net', out) = Ip.send_packet env src proto_icmp (reply_bytes len pkt) len s.net in
        (record s { net = net' }, out)

    received : IcmpState
    received =
        if src == s.ping_target && ntohs (load16 pkt 4) == icmp_id
        then (record s { ping_received = true })
        else s

-- The loop of `icmp_ping`: rounds left, and what each round of waiting does to the state.
unfoldable pub wait_reply : (ℕ → IcmpState → IcmpState) → ℕ → IcmpState → IcmpState × Bool
wait_reply during zero s = (s, false)
wait_reply during (suc left) s = elim s.ping_received [
  | true ↦ (s, true)
  | false ↦ wait_reply during left (during left s)
]

unfoldable pub ping : Env → (ℕ → IcmpState → IcmpState) → ℕ → ℕ → IcmpState → IcmpState × Bool
ping env during dst timeout s =
    let (net', out) = send_request env dst icmp_id s.seq s.net in
    wait_reply during timeout
      (record s { ping_target = dst; ping_received = false; seq = u16 (s.seq + 1); net = net' })
