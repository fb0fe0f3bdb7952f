-- ===== src/Net/Tcp/Timer.antt =====
-- `tcp_timer` of net/tcp.c.
use utms.Base.{ℕ, zero, suc, ◌+◌, Bool, ◌&&◌, ◌||◌, [], u32, sub32, if◌then◌else◌, ltb}
use utms.Net.Tcp.State.{
  closed, syn_sent, established, is, Socket, Tcp, Host, at, put, max_sockets, max_retries,
  retransmit_ms,
}
use utms.Net.Tcp.Output.{send_segment, flag_syn, flag_ack}

-- A socket in use whose last segment waits for its acknowledgement for too long.
unfoldable pub is_overdue : ℕ → Socket → Bool
is_overdue ticks s =
    (is s.state syn_sent || is s.state established)
    && (ltb s.snd_una s.snd_nxt && ltb retransmit_ms (sub32 ticks s.timestamp))

unfoldable pub probe_flags : Socket → ℕ
probe_flags s = if is s.state syn_sent then flag_syn else flag_ack

-- The body of the loop over the sockets.
unfoldable pub check_socket : Host → ℕ → Tcp → Tcp
check_socket host i t =
    if s.used && is_overdue t.ticks s
    then if ltb s.retries max_retries
      then (send_segment host i (probe_flags s) []
          (put i (record s { retries = suc s.retries; timestamp = t.ticks }) t)).0
      else put i (record s { state = closed }) t
    else t
  where
    s : Socket
    s = at t i

-- `left` sockets from `i` on.
unfoldable pub check_from : Host → ℕ → ℕ → Tcp → Tcp
check_from host zero i t = t
check_from host (suc left) i t = check_from host left (suc i) (check_socket host i t)

unfoldable pub timer : Host → Tcp → Tcp
timer host t = check_from host max_sockets 0 (record t { ticks = u32 (t.ticks + 1) })
