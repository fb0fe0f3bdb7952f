-- ===== src/Net/Ethernet.antt =====
-- net/net.c: `net_eth_send`, and the test by which `net_handle_packet` chooses a handler.
use utms.Base.{
  ℕ, ◌+◌, ◌&&◌, List, [], ◌∷◌, ◌++◌, Option, none, some, length, drop, load16, if◌then◌else◌, ◌==◌,
  ltb,
}
use utms.Net.Endian.{ntohs}
use utms.Net.State.{Frame, NetState, frame_site, Env}

abbrev pub ethertype_ip : ℕ
ethertype_ip = 0x0800

abbrev pub ethertype_arp : ℕ
ethertype_arp = 0x0806

-- `sizeof(eth_hdr_t)`
abbrev pub eth_hdr_size : ℕ
eth_hdr_size = 14

-- A frame is lost when the network is down, when there is no memory, or when the adapter is gone.
unfoldable pub net_eth_send : Env → List ℕ → ℕ → List ℕ → NetState → NetState
net_eth_send env dst_mac ethertype payload s =
    if s.network_ready && env.alloc frame_site (length payload + eth_hdr_size) && s.nic_present
    then (record s { frames = s.frames ++ (frame ∷ []) })
    else s
  where
    frame : Frame
    frame = record {
      dst_mac = dst_mac;
      src_mac = s.our_mac;
      ethertype = ethertype;
      payload = payload;
    }

pub data Protocol : Type 0 where
  arp ip unknown : Protocol

-- The handler that `net_handle_packet` calls, if any, and the payload that it gets.
unfoldable pub net_handle_packet : List ℕ → Option (Protocol × List ℕ)
net_handle_packet packet =
    if ltb (length packet) eth_hdr_size
    then none
    else if ethertype == ethertype_arp
    then some (arp, drop eth_hdr_size packet)
    else if ethertype == ethertype_ip
    then some (ip, drop eth_hdr_size packet)
    else some (unknown, drop eth_hdr_size packet)
  where
    ethertype : ℕ
    ethertype = ntohs (load16 packet 12)
