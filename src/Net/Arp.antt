-- ===== src/Net/Arp.antt =====
-- net/arp.c: the cache of 16 entries, the request, and the handler of a received packet.
-- A packet is the list of its bytes; `len` is the length of the list.
pub mod Cache
use utms.Base.{
  ℕ, zero, suc, ◌+◌, Bool, true, false, ◌&&◌, List, [], ◌∷◌, ◌++◌, Option, none, some, length, take,
  drop, replicate, load16, load32, le16, le32, if◌then◌else◌, ◌==◌, ltb, map,
}
use utms.Net.Endian.{htons, ntohs}
use utms.Net.State.{ArpEntry, NetState, Env}
use utms.Net.Ethernet.{net_eth_send, ethertype_arp}

abbrev pub arp_cache_size : ℕ
arp_cache_size = 16

-- `arp_cache_init`
unfoldable pub invalidate : List ArpEntry → List ArpEntry
invalidate [] = []
invalidate (e ∷ es) = (record e { valid = false }) ∷ invalidate es

-- `arp_cache_lookup`: the first valid entry of the address.
unfoldable pub lookup : ℕ → List ArpEntry → Option (List ℕ)
lookup ip [] = none
lookup ip (e ∷ es) = if e.valid && e.ip == ip then some e.mac else lookup ip es

abbrev pub entry : ℕ → List ℕ → ArpEntry
entry ip mac = record { ip = ip; mac = mac; valid = true }

abbrev push_front : ArpEntry → Option (List ArpEntry) → Option (List ArpEntry)
push_front e none = none
push_front e (some rest) = some (e ∷ rest)

-- The first loop of `arp_cache_add`: the first free slot takes the entry.
unfoldable pub fill_slot : ArpEntry → List ArpEntry → Option (List ArpEntry)
fill_slot new [] = none
fill_slot new (e ∷ es) = if e.valid then push_front e (fill_slot new es) else some (new ∷ es)

-- Its second loop: every entry moves down by one, and the last slot takes the new one.
unfoldable pub shift : ArpEntry → List ArpEntry → List ArpEntry
shift new [] = []
shift new (e ∷ es) = es ++ (new ∷ [])

unfoldable pub add : ℕ → List ℕ → List ArpEntry → List ArpEntry
unfolding fill_slot shift
add ip mac cache = elim (fill_slot (entry ip mac) cache) [
  | none ↦ shift (entry ip mac) cache
  | some cache' ↦ cache'
]

abbrev pub op_request : ℕ
op_request = 1

abbrev pub op_reply : ℕ
op_reply = 2

-- `sizeof(arp_pkt_t)`
abbrev pub arp_pkt_size : ℕ
arp_pkt_size = 28

-- The bytes of an `arp_pkt_t` for IPv4 over Ethernet; the addresses stay in memory order.
unfoldable pub packet : ℕ → List ℕ → ℕ → List ℕ → ℕ → List ℕ
packet op sha spa tha tpa =
    le16 (htons 1)
    ++ (le16 (htons 0x0800)
        ++ (6 ∷ 4 ∷ (le16 (htons op) ++ (sha ++ (le32 spa ++ (tha ++ le32 tpa))))))

unfoldable pub send_request : Env → ℕ → ℕ → NetState → NetState
send_request env target src_ip s =
    net_eth_send env (replicate 6 0xff) ethertype_arp
      (packet op_request s.our_mac src_ip (replicate 6 0) target) s

-- The fields of a received `arp_pkt_t`.
abbrev pub op_of : List ℕ → ℕ
op_of pkt = ntohs (load16 pkt 6)

abbrev pub sha_of : List ℕ → List ℕ
sha_of pkt = take 6 (drop 8 pkt)

abbrev pub spa_of : List ℕ → ℕ
spa_of pkt = load32 pkt 14

abbrev pub tpa_of : List ℕ → ℕ
tpa_of pkt = load32 pkt 24

-- The reply to a request for our address.
unfoldable pub send_reply : Env → List ℕ → NetState → NetState
send_reply env pkt s =
    net_eth_send env (sha_of pkt) ethertype_arp
      (packet op_reply s.our_mac s.our_ip (sha_of pkt) (spa_of pkt)) s

abbrev learn : List ℕ → NetState → NetState
learn pkt s = record s { arp_cache = add (spa_of pkt) (sha_of pkt) s.arp_cache }

unfoldable pub handle_packet : Env → List ℕ → NetState → NetState
handle_packet env pkt s =
    if ltb (length pkt) arp_pkt_size
    then s
    else learn pkt
        (if op_of pkt == op_request && tpa_of pkt == s.our_ip then send_reply env pkt s else s)
