-- ===== src/Net/Tcp/Input.antt =====
-- `tcp_handle_packet` of net/tcp.c.
use utms.Base.{
  ℕ, ◌+◌, ◌-◌, ◌*◌, ◌/◌, Bool, true, ◌&&◌, List, [], none, some, length, take, drop, overwrite,
  byte_at, load16, load32, u32, sub32, has_bit, if◌then◌else◌, ◌==◌, ltb, leb,
}
use utms.Base.Int.{ℤ, pos, negsuc, to_size}
use utms.Net.Endian.{ntohs, ntohl}
use utms.Net.State.{rcv_site}
use utms.Net.Tcp.State.{
  State, closed, listen, syn_sent, syn_rcvd, established, fin_wait_1, fin_wait_2, close_wait,
  closing, last_ack, time_wait, Socket, blank, Tcp, Host, at, put, find_connection, find_listener,
  find_slot, window_size, buffer_size,
}
use utms.Net.Tcp.Output.{send_segment, flag_fin, flag_syn, flag_ack, tcp_hdr_size}

-- A received segment, taken apart.
pub record Segment : Type 0 where
  pub src_port : ℕ
  pub dst_port : ℕ
  pub seq : ℕ
  pub ack : ℕ
  pub flags : ℕ
  pub payload : List ℕ

-- `dlen`, or nothing where it is not positive.
abbrev pub payload_len : ℤ → ℕ → ℕ
payload_len (pos len) hlen = len - hlen
payload_len (negsuc n) hlen = 0

unfoldable pub parse : List ℕ → ℤ → Segment
parse pkt len = record {
  src_port = ntohs (load16 pkt 0);
  dst_port = ntohs (load16 pkt 2);
  seq = ntohl (load32 pkt 4);
  ack = ntohl (load32 pkt 8);
  flags = byte_at pkt 13;
  payload = let hlen = byte_at pkt 12 / 16 * 4 in take (payload_len len hlen) (drop hlen pkt);
}

-- The socket that a SYN makes: `memset`, then the fields.
unfoldable pub half_open : Host → ℕ → ℕ → ℕ → Segment → Socket
half_open host i src_ip dst_ip seg = record blank {
  used = true;
  fd = i;
  local_ip = dst_ip;
  local_port = seg.dst_port;
  remote_ip = src_ip;
  remote_port = seg.src_port;
  rcv_nxt = u32 (seg.seq + 1);
  snd_nxt = host.address i;
  state = syn_rcvd;
  rcv_wnd = window_size;
  rcv_buf_size = buffer_size;
  rcv_buf = if host.env.alloc rcv_site buffer_size then host.memory buffer_size else [];
  snd_buf_size = buffer_size;
}

-- A segment of no connection: a SYN for a listener takes the first free slot.
unfoldable pub open_passive : Host → ℕ → ℕ → Segment → Tcp → Tcp
open_passive host src_ip dst_ip seg t =
    if has_bit flag_syn seg.flags
    then elim (find_listener seg.dst_port t) [
      | none ↦ t
      | some l ↦ elim (find_slot t) [
        | none ↦ t
        | some i ↦
            (send_segment host i (flag_syn + flag_ack) []
              (put i (half_open host i src_ip dst_ip seg) t)).0
      ]
    ]
    else t

-- "Update ACK"
unfoldable pub acknowledge : Segment → Socket → Socket
acknowledge seg s =
    if has_bit flag_ack seg.flags && (ltb s.snd_una seg.ack && leb seg.ack s.snd_nxt)
    then record s { snd_una = seg.ack }
    else s

-- As much as fits goes into the ring, in two pieces where it passes the end.
unfoldable pub store : List ℕ → Socket → Socket
store chunk s =
    if length chunk == 0
    then s
    else if leb (s.rcv_buf_tail + length chunk) s.rcv_buf_size
    then record s {
      rcv_buf = overwrite s.rcv_buf s.rcv_buf_tail chunk;
      rcv_buf_tail = s.rcv_buf_tail + length chunk;
      rcv_buf_count = s.rcv_buf_count + length chunk;
      rcv_nxt = u32 (s.rcv_nxt + length chunk);
    }
    else record s {
      rcv_buf =
          let first = s.rcv_buf_size - s.rcv_buf_tail in
          overwrite (overwrite s.rcv_buf s.rcv_buf_tail (take first chunk)) 0 (drop first chunk);
      rcv_buf_tail = length chunk - (s.rcv_buf_size - s.rcv_buf_tail);
      rcv_buf_count = s.rcv_buf_count + length chunk;
      rcv_nxt = u32 (s.rcv_nxt + length chunk);
    }

-- The free space of the ring.
abbrev pub space : Socket → ℕ
space s = s.rcv_buf_size - s.rcv_buf_count

abbrev pub is_in_order : Segment → Socket → Bool
is_in_order seg s = ltb 0 (length seg.payload) && seg.seq == s.rcv_nxt

-- Data that is next in order is stored and acknowledged.
unfoldable pub accept_data : Host → ℕ → Segment → Tcp → Tcp
accept_data host i seg t =
    if is_in_order seg (at t i)
    then (send_segment host i flag_ack []
        (put i (store (take (space (at t i)) seg.payload) (at t i)) t)).0
    else t

-- A change of state that the peer is told of.
abbrev pub enter_and_ack : Host → ℕ → State → Segment → Tcp → Tcp
enter_and_ack host i st seg t =
    (send_segment host i flag_ack []
      (put i (record (at t i) { state = st; rcv_nxt = u32 (seg.seq + 1) }) t)).0

abbrev pub enter : ℕ → State → Tcp → Tcp
enter i st t = put i (record (at t i) { state = st }) t

-- The `switch` on the state; states with no case keep it.
unfoldable pub transition : Host → ℕ → Segment → State → Tcp → Tcp
transition host i seg syn_sent t =
    if has_bit flag_syn seg.flags && has_bit flag_ack seg.flags
    then (send_segment host i flag_ack [] (
        put i
          (record (at t i) { state = established; rcv_nxt = u32 (seg.seq + 1); snd_una = seg.ack })
          t)).0
    else t
transition host i seg syn_rcvd t = if has_bit flag_ack seg.flags then enter i established t else t
transition host i seg established t =
    if has_bit flag_fin seg.flags then enter_and_ack host i close_wait seg t else t
transition host i seg fin_wait_1 t =
    let t' =
      if has_bit flag_ack seg.flags && seg.ack == (at t i).snd_nxt
      then enter i fin_wait_2 t
      else t in
    if has_bit flag_fin seg.flags then enter_and_ack host i closing seg t' else t'
transition host i seg fin_wait_2 t =
    if has_bit flag_fin seg.flags then enter_and_ack host i time_wait seg t else t
transition host i seg close_wait t =
    if has_bit flag_fin seg.flags then enter_and_ack host i last_ack seg t else t
transition host i seg last_ack t =
    if has_bit flag_ack seg.flags && seg.ack == (at t i).snd_nxt then enter i closed t else t
transition host i seg time_wait t =
    if ltb 2000 (sub32 t.ticks (at t i).timestamp) then enter i closed t else t
transition host i seg closed t = t
transition host i seg listen t = t
transition host i seg closing t = t

-- A segment of the connection in `sockets[i]`.
unfoldable pub on_segment : Host → ℕ → Segment → Tcp → Tcp
on_segment host i seg t =
    let t1 = put i (acknowledge seg (at t i)) t in
    let t2 = accept_data host i seg t1 in transition host i seg (at t2 i).state t2

-- `pkt` holds the bytes from the TCP header on, `len` is the length that IP passes.
unfoldable pub handle_packet : Host → List ℕ → ℤ → ℕ → ℕ → Tcp → Tcp
handle_packet host pkt len src_ip dst_ip t =
    if ltb (to_size len) tcp_hdr_size
    then t
    else elim (find_connection dst_ip seg.dst_port src_ip seg.src_port t) [
      | none ↦ open_passive host src_ip dst_ip seg t
      | some i ↦ on_segment host i seg t
    ]
  where
    seg : Segment
    seg = parse pkt len
