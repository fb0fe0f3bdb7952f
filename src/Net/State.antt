-- ===== src/Net/State.antt =====
-- What the lower half of the network stack keeps: the static variables of net/net.c and net/arp.c,
-- and the frames handed to the network adapter. The heap and the time that passes in a busy-wait
-- belong to other parts of the kernel and enter as an `Env`.
use utms.Base.{ℕ, Bool, List}

-- One `arp_cache_entry_t`.
pub record ArpEntry : Type 0 where
  pub ip : ℕ
  pub mac : List ℕ
  pub valid : Bool

-- An Ethernet frame as `net_eth_send` builds it.
pub record Frame : Type 0 where
  pub dst_mac : List ℕ
  pub src_mac : List ℕ
  pub ethertype : ℕ
  pub payload : List ℕ

-- `our_mac`, `our_ip`, `our_netmask`, `our_gateway`, `network_ready`, whether the selected adapter
-- is present, `arp_cache`, and the frames sent so far, the latest last.
pub record NetState : Type 0 where
  pub our_mac : List ℕ
  pub our_ip : ℕ
  pub our_netmask : ℕ
  pub our_gateway : ℕ
  pub network_ready : Bool
  pub nic_present : Bool
  pub arp_cache : List ArpEntry
  pub frames : List Frame

-- The calls of `kmalloc` in the network stack.
pub data Site : Type 0 where
  rcv_site snd_site segment_site packet_site frame_site datagram_site port_site : Site

-- Whether `kmalloc` gives memory to a call, and what happens to the state while `ip_send_packet`
-- spins for an ARP reply (the argument is the attempt).
pub record Env : Type 0 where
  pub alloc : Site → ℕ → Bool
  pub spin : ℕ → NetState → NetState
