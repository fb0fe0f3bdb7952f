-- ===== src/Net/Ip.antt =====
-- net/ip.c: `ip_send_packet` and `ip_handle_packet`. Addresses are kept as they lie in memory.
pub mod Header
pub mod Deliver
pub mod Handed
use Prim.Native.Nat.{bit_and}
use utms.Base.{
  ℕ, zero, suc, ◌+◌, ◌*◌, ◌/◌, ◌%◌, Bool, true, false, not, ◌&&◌, ◌||◌, List, [], ◌∷◌, ◌++◌, Option,
  none, some, length, take, drop, byte_at, load16, load32, le16, le32, u16, if◌then◌else◌, ◌==◌,
  ◌!=◌, ltb,
}
use utms.Base.Int.{ℤ, pos, negsuc, sub_ℕ, add_ℕ, to_size}
use utms.Net.Endian.{htons, ntohs}
use utms.Net.Checksum.{ip_checksum}
use utms.Net.State.{NetState, Site, packet_site, Env}
use utms.Net.Ethernet.{net_eth_send, ethertype_ip}
use utms.Net.Arp

-- `sizeof(ip_hdr_t)`
abbrev pub ip_hdr_size : ℕ
ip_hdr_size = 20

abbrev pub proto_icmp : ℕ
proto_icmp = 1

abbrev pub proto_tcp : ℕ
proto_tcp = 6

abbrev pub proto_udp : ℕ
proto_udp = 17

-- The bytes of the header that `ip_send_packet` fills in, around its checksum.
abbrev pub before_checksum : ℕ → ℕ → List ℕ
before_checksum total proto =
    0x45 ∷ 0 ∷ (le16 (htons (u16 total)) ++ (le16 (htons 0x0100) ++ (0 ∷ 0 ∷ 64 ∷ proto ∷ [])))

abbrev pub after_checksum : ℕ → ℕ → List ℕ
after_checksum src dst = le32 src ++ le32 dst

unfoldable pub header : ℕ → ℕ → ℕ → ℕ → ℕ → List ℕ
header total proto src dst checksum =
    before_checksum total proto ++ (le16 checksum ++ after_checksum src dst)

unfoldable pub sealed_header : ℕ → ℕ → ℕ → ℕ → List ℕ
sealed_header total proto src dst =
    header total proto src dst (ip_checksum (header total proto src dst 0))

-- The next hop: the gateway for an address outside our network, if there is one.
unfoldable pub next_hop : ℕ → NetState → ℕ
next_hop dst s =
    if (bit_and dst s.our_netmask != bit_and s.our_ip s.our_netmask) && (s.our_gateway != 0)
    then s.our_gateway
    else dst

-- The loop of at most three attempts; the first argument is the number left.
unfoldable pub resolve : Env → ℕ → ℕ → ℕ → NetState → NetState × Option (List ℕ)
resolve env src_ip target zero s = (s, none)
resolve env src_ip target (suc left) s = elim (Arp.lookup target s.arp_cache) [
  | some mac ↦ (s, some mac)
  | none ↦ resolve env src_ip target left (env.spin left (Arp.send_request env target src_ip s))
]

abbrev pub attempts : ℕ
attempts = 3

-- What `ip_send_packet` does: it returns `len`, returns -1, or, at a negative `len`, copies
-- `(size_t)len` bytes over the end of its packet.
pub data Sent : Type 0 where
  sent : ℕ → Sent
  failed : Sent
  overrun : Sent

-- From the allocation of the packet on.
unfoldable pub transmit : Env → List ℕ → ℕ → ℕ → ℕ → List ℕ → ℤ → NetState → NetState × Sent
transmit env mac src dst proto payload (pos n) s =
    if env.alloc packet_site (ip_hdr_size + n)
    then (
      net_eth_send env mac ethertype_ip
          (sealed_header (ip_hdr_size + n) proto src dst ++ take n payload) s,
      sent n,
    )
    else (s, failed)
transmit env mac src dst proto payload (negsuc n) s =
    if env.alloc packet_site (to_size (add_ℕ ip_hdr_size (negsuc n)))
    then (s, overrun)
    else (s, failed)

unfoldable pub send_packet : Env → ℕ → ℕ → List ℕ → ℤ → NetState → NetState × Sent
unfolding transmit resolve
send_packet env dst proto payload len s =
    let (s', mac) = resolve env s.our_ip (next_hop dst s) attempts s in
    elim mac [ none ↦ (s', failed) | some m ↦ transmit env m s.our_ip dst proto payload len s' ]

-- What the handler of a protocol is called with: `data`, `len`, `src`, `dst`.
pub record Delivery : Type 0 where
  pub proto : ℕ
  pub payload : List ℕ
  pub len : ℤ
  pub src : ℕ
  pub dst : ℕ

abbrev pub hlen_of : List ℕ → ℕ
hlen_of pkt = byte_at pkt 0 % 16 * 4

-- The total length field, cut to the bytes received.
abbrev pub total_of : List ℕ → ℕ
total_of pkt =
    let total = ntohs (load16 pkt 2) in if ltb (length pkt) total then length pkt else total

-- The `switch` has a case for the protocol.
abbrev pub is_known : ℕ → Bool
is_known proto = proto == proto_tcp || (proto == proto_udp || proto == proto_icmp)

-- `ip_handle_packet`, given the three handlers: the call that it makes, if any.
unfoldable pub handle_packet : NetState → List ℕ → Option Delivery
handle_packet s pkt =
    if ltb (length pkt) ip_hdr_size
    then none
    else if byte_at pkt 0 / 16 != 4
    then none
    else if ltb (hlen_of pkt) ip_hdr_size || ltb (length pkt) (hlen_of pkt)
    then none
    else if (load32 pkt 16 != s.our_ip) && (load32 pkt 16 != 0xffffffff)
    then none
    else if not (is_known (byte_at pkt 9))
    then none
    else some (record {
      proto = byte_at pkt 9;
      payload = drop (hlen_of pkt) pkt;
      len = sub_ℕ (total_of pkt) (hlen_of pkt);
      src = load32 pkt 12;
      dst = load32 pkt 16;
    })
