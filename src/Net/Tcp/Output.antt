-- ===== src/Net/Tcp/Output.antt =====
-- `tcp_checksum` and `tcp_send_packet` of net/tcp.c.
use utms.Base.{
  ℕ, ◌+◌, List, ◌∷◌, ◌++◌, Option, none, some, length, le16, le32, u16, u32, has_bit, if◌then◌else◌,
  ltb,
}
use utms.Base.Int.{pos}
use utms.Net.Endian.{htons, htonl}
use utms.Net.Checksum.{sum_words, finish}
use utms.Net.State.{NetState, segment_site}
use utms.Net.Ip
use utms.Net.Ip.{Sent, sent, failed, overrun, proto_tcp, ip_hdr_size}
use utms.Net.Tcp.State.{Socket, Tcp, Host, at, put}

abbrev pub flag_fin : ℕ
flag_fin = 1

abbrev pub flag_syn : ℕ
flag_syn = 2

abbrev pub flag_psh : ℕ
flag_psh = 8

abbrev pub flag_ack : ℕ
flag_ack = 16

-- `sizeof(tcp_hdr_t)`
abbrev pub tcp_hdr_size : ℕ
tcp_hdr_size = 20

-- `tcp_pseudo_t`
unfoldable pub pseudo : ℕ → ℕ → ℕ → List ℕ
pseudo src dst len = le32 src ++ (le32 dst ++ (0 ∷ proto_tcp ∷ le16 (htons (u16 len))))

-- The sum over the pseudo-header goes on over the segment.
unfoldable pub tcp_checksum : ℕ → ℕ → List ℕ → ℕ
tcp_checksum src dst segment =
    finish (sum_words (sum_words 0 (pseudo src dst (length segment))) segment)

-- The header up to the checksum: ports, `seq`, `ack`, a header of five words, flags, window.
unfoldable pub before_checksum : Socket → ℕ → List ℕ
before_checksum s flags =
    le16 (htons s.local_port)
    ++ (le16 (htons s.remote_port)
        ++ (le32 (htonl s.snd_nxt)
            ++ (le32 (htonl s.rcv_nxt) ++ (0x50 ∷ (flags ∷ le16 (htons (u16 s.rcv_wnd)))))))

unfoldable pub segment_with : Socket → ℕ → List ℕ → ℕ → List ℕ
segment_with s flags payload checksum =
    before_checksum s flags ++ (le16 checksum ++ (0 ∷ 0 ∷ payload))

unfoldable pub segment : Socket → ℕ → List ℕ → List ℕ
segment s flags payload =
    segment_with s flags payload
      (tcp_checksum s.local_ip s.remote_ip (segment_with s flags payload 0))

-- What a segment that was sent does to its socket: SYN and FIN take a sequence number each.
unfoldable pub after_send : ℕ → ℕ → ℕ → Socket → Socket
after_send ticks flags len s =
    let n1 = if has_bit flag_syn flags then u32 (s.snd_nxt + 1) else s.snd_nxt in
    let n2 = if has_bit flag_fin flags then u32 (n1 + 1) else n1 in
    let n3 = if ltb 0 len then u32 (n2 + len) else n2 in
    record s { snd_nxt = n3; timestamp = ticks; retries = 0 }

-- What follows the call of `ip_send_packet`.
unfoldable pub conclude_send : ℕ → ℕ → ℕ → Tcp → NetState × Sent → Tcp × Option ℕ
conclude_send i flags len t (net', sent n) =
    (put i (after_send t.ticks flags len (at t i)) (record t { net = net' }), some n)
conclude_send i flags len t (net', failed) = (record t { net = net' }, none)
conclude_send i flags len t (net', overrun) = (record t { net = net' }, none)

-- `tcp_send_packet` on `sockets[i]`; `none` is the result -1.
unfoldable pub send_segment : Host → ℕ → ℕ → List ℕ → Tcp → Tcp × Option ℕ
send_segment host i flags payload t =
    if host.env.alloc segment_site (ip_hdr_size + (tcp_hdr_size + length payload))
    then conclude_send i flags (length payload) t (
        Ip.send_packet host.env (at t i).remote_ip proto_tcp (segment (at t i) flags payload)
          (pos (tcp_hdr_size + length payload)) t.net)
    else (t, none)
