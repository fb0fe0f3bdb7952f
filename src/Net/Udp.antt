-- ===== src/Net/Udp.antt =====
-- net/udp.c: the table of ports, datagrams out and in.
pub mod Checksum
pub mod Deliver
use utms.Base.{
  ◌%◌, map, ◌/◌, ◌||◌, ℕ, ◌+◌, ◌-◌, Bool, true, false, not, ◌&&◌, List, [], ◌++◌, Option, none,
  some, length, take, drop, replicate, load16, le16, u16, u32, if◌then◌else◌, ◌==◌, ltb, find_index,
  get_or, set,
}
use utms.Base.Int.{ℤ, pos, negsuc, to_size}
use utms.Net.Endian.{htons, ntohs}
use utms.Net.Checksum.{sum_words, finish}
use utms.Net.State.{NetState, Env, datagram_site, port_site}
use utms.Net.Ip
use utms.Net.Ip.{Sent, failed}

-- `udp_socket_t`; a NULL `buf` is `none`. The `len` bytes that wait are the first of the buffer.
pub record Port : Type 0 where
  pub used : Bool
  pub port : ℕ
  pub buf : Option (List ℕ)
  pub len : ℕ
  pub cap : ℕ

abbrev pub udp_max_ports : ℕ
udp_max_ports = 16

abbrev pub udp_buffer_size : ℕ
udp_buffer_size = 8192

-- `sizeof(udp_hdr_t)`
abbrev pub udp_hdr_size : ℕ
udp_hdr_size = 8

abbrev pub proto_udp : ℕ
proto_udp = 17

abbrev pub free_port : Port
free_port = record { used = false; port = 0; buf = none; len = 0; cap = 0 }

abbrev pub at : List Port → ℕ → Port
at socks i = get_or socks i free_port

-- The halves of the addresses, the protocol and the length, then the words of the datagram.
unfoldable pub udp_checksum : ℕ → ℕ → List ℕ → ℕ
udp_checksum src dst udp = finish (
    sum_words
      (u32 (
        src / 65536 % 65536
        + src % 65536
        + (dst / 65536 % 65536 + dst % 65536)
        + (proto_udp + length udp)))
      udp)

-- Source port, destination port and length.
unfoldable pub before_checksum : ℕ → ℕ → ℕ → List ℕ
before_checksum srcp dstp ulen = le16 (htons srcp) ++ (le16 (htons dstp) ++ le16 (htons (u16 ulen)))

unfoldable pub datagram_with : ℕ → ℕ → ℕ → List ℕ → List ℕ
datagram_with srcp dstp checksum payload =
    before_checksum srcp dstp (udp_hdr_size + length payload) ++ (le16 checksum ++ payload)

unfoldable pub datagram : ℕ → ℕ → ℕ → ℕ → List ℕ → List ℕ
datagram src dst srcp dstp payload =
    datagram_with srcp dstp (udp_checksum src dst (datagram_with srcp dstp 0 payload)) payload

-- `udp_send` of the bytes `data`
unfoldable pub send : Env → ℕ → ℕ → ℕ → List ℕ → NetState → NetState × Sent
send env dst srcp dstp payload s =
    if env.alloc datagram_site (udp_hdr_size + length payload)
    then Ip.send_packet env dst proto_udp (datagram s.our_ip dst srcp dstp payload)
        (pos (udp_hdr_size + length payload)) s
    else (s, failed)

-- `udp_init`
unfoldable pub init : List Port → List Port
init socks = map (λ (p : Port). record p { used = false }) socks

-- `udp_bind`; the result of `kmalloc` is not looked at.
unfoldable pub bind : Env → ℕ → List Port → List Port × Option ℕ
bind env port socks = elim (find_index (λ (p : Port). not p.used) socks) [
  | none ↦ (socks, none)
  | some i ↦ (
    set socks i (record {
      used = true;
      port = port;
      len = 0;
      cap = udp_buffer_size;
      buf =
          if env.alloc port_site udp_buffer_size then some (replicate udp_buffer_size 0) else none;
    }),
    some i,
  )
]

-- What becomes of a datagram: nothing, the table with it, or a copy through a NULL pointer.
pub data Handled : Type 0 where
  dropped : Handled
  stored : ℕ → List Port → Handled
  fault : Handled

-- The copy into the buffer of port `i`.
unfoldable pub store : ℕ → List ℕ → Option (List ℕ) → List Port → Handled
store i payload none socks =
    if length payload == 0 then stored i (set socks i (record (at socks i) { len = 0 })) else fault
store i payload (some b) socks = stored i (
    set socks i (record (at socks i) {
      buf = some (payload ++ drop (length payload) b);
      len = length payload;
    }))

-- A buffer that is too small is replaced by one of the size of the data.
unfoldable pub deliver : Env → ℕ → List ℕ → List Port → Handled
unfolding store
deliver env i payload socks =
    if ltb (at socks i).cap (length payload)
    then if env.alloc port_site (length payload)
      then store i payload (some (replicate (length payload) 0))
          (set socks i (record (at socks i) { cap = length payload }))
      else dropped
    else store i payload (at socks i).buf socks

-- `n > len`, for an `int`.
abbrev pub exceeds : ℕ → ℤ → Bool
exceeds n (pos m) = ltb m n
exceeds n (negsuc m) = true

-- `udp_handle_packet`
unfoldable pub handle_packet : Env → List ℕ → ℤ → List Port → Handled
handle_packet env pkt len socks =
    let dstp = ntohs (load16 pkt 2) in
    let ulen = ntohs (load16 pkt 4) in
    if ltb (to_size len) udp_hdr_size
    then dropped
    else if ltb ulen udp_hdr_size || exceeds ulen len
    then dropped
    else elim (find_index (λ (p : Port). p.used && p.port == dstp) socks) [
      | none ↦ dropped
      | some i ↦ deliver env i (take (ulen - udp_hdr_size) (drop udp_hdr_size pkt)) socks
    ]

-- The bytes that wait at a port.
abbrev pub waiting : Port → List ℕ
waiting p = elim p.buf [ none ↦ [] | some b ↦ take p.len b ]

-- `udp_recv` into a buffer of `len` bytes: the first port at which data waits. What does not fit
-- is lost.
unfoldable pub recv : ℕ → List Port → List Port × List ℕ
recv len socks = elim (find_index (λ (p : Port). p.used && ltb 0 p.len) socks) [
  | none ↦ (socks, [])
  | some i ↦ (set socks i (record (at socks i) { len = 0 }), take len (waiting (at socks i)))
]
