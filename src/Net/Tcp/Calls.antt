-- ===== src/Net/Tcp/Calls.antt =====
-- The calls of net/tcp.c that a process makes. `none` is the result -1. A loop that sleeps takes
-- the rounds that its `timeout` leaves; the other loops recur on what is left to do.
use utms.Base.{
  ℕ, zero, suc, ◌+◌, ◌-◌, ◌%◌, Bool, true, false, not, ◌&&◌, ◌||◌, List, [], ◌∷◌, ◌++◌, Option,
  none, some, length, take, drop, find_index, u16, u32, if◌then◌else◌, ◌==◌, ◌!=◌, ltb, leb, min,
}
use utms.Base.Int.{ℤ}
use utms.Net.State.{rcv_site, snd_site}
use utms.Net.Tcp.State.{
  closed, listen, syn_sent, syn_rcvd, established, fin_wait_1, close_wait, is, Socket, blank, Tcp,
  Host, at, put, find_socket, find_slot, window_size, buffer_size, mss,
}
use utms.Net.Tcp.Output.{send_segment, flag_fin, flag_syn, flag_psh, flag_ack}

-- `tcp_init`
unfoldable pub clear : List Socket → List Socket
clear [] = []
clear (s ∷ ss) = (record s { used = false; rcv_buf = [] }) ∷ clear ss

unfoldable pub init : Tcp → Tcp
unfolding clear
init t = record t { sockets = clear t.sockets }

-- The slot as `tcp_socket` fills it; without memory for both buffers it is given back.
unfoldable pub fresh : Host → ℕ → Bool → Tcp → Socket
fresh host i has_buffers t = record blank {
  used = has_buffers;
  fd = i;
  local_ip = t.net.our_ip;
  local_port = t.next_port;
  rcv_wnd = window_size;
  rcv_buf_size = buffer_size;
  rcv_buf = if host.env.alloc rcv_site buffer_size then host.memory buffer_size else [];
  snd_buf_size = buffer_size;
}

-- `tcp_socket`
unfoldable pub socket : Host → Tcp → Tcp × Option ℕ
socket host t = elim (find_slot t) [
  | none ↦ (t, none)
  | some i ↦ (
    record (put i (fresh host i has_buffers t) t) { next_port = u16 (t.next_port + 1) },
    if has_buffers then some i else none,
  )
]
  where
    has_buffers : Bool
    has_buffers = host.env.alloc rcv_site buffer_size && host.env.alloc snd_site buffer_size

-- Another socket in use has the port; `i` is the index of the list's head.
unfoldable pub is_taken : ℕ → ℕ → ℕ → List Socket → Bool
is_taken fd port i [] = false
is_taken fd port i (s ∷ ss) =
    ((i != fd) && (s.used && s.local_port == port)) || is_taken fd port (suc i) ss

-- `tcp_bind`
unfoldable pub bind : ℤ → ℕ → Tcp → Tcp × Option ℕ
bind fd port t = elim (find_socket fd t) [
  | none ↦ (t, none)
  | some i ↦
      if not (is (at t i).state closed)
      then (t, none)
      else if is_taken i port 0 t.sockets
      then (t, none)
      else (put i (record (at t i) { local_port = port }) t, some 0)
]

-- `tcp_connect`
unfoldable pub connect : Host → ℤ → ℕ → ℕ → Tcp → Tcp × Option ℕ
connect host fd ip port t = elim (find_socket fd t) [
  | none ↦ (t, none)
  | some i ↦
      if not (is (at t i).state closed)
      then (t, none)
      else send_segment host i flag_syn [] (
          put i
            (record (at t i) {
              remote_ip = ip;
              remote_port = port;
              state = syn_sent;
              snd_nxt = host.address i;
              rcv_nxt = 0;
              retries = 0;
              timestamp = t.ticks;
            })
            t)
]

-- `tcp_listen`
unfoldable pub listen_on : ℤ → Tcp → Tcp × Option ℕ
listen_on fd t = elim (find_socket fd t) [
  | none ↦ (t, none)
  | some i ↦
      if not (is (at t i).state closed)
      then (t, none)
      else (put i (record (at t i) { state = listen }) t, some 0)
]

-- A half-open connection to a port.
unfoldable pub find_half_open : ℕ → Tcp → Option ℕ
find_half_open port t =
    find_index (λ s. s.used && (is s.state syn_rcvd && s.local_port == port)) t.sockets

-- The client's socket takes the connection of the half-open one, whose slot is given back.
unfoldable pub hand_over : ℕ → ℕ → Tcp → Tcp
hand_over i new t =
    let o = at t i in
    let t' =
      put new
        (record (at t new) {
          local_ip = o.local_ip;
          local_port = o.local_port;
          remote_ip = o.remote_ip;
          remote_port = o.remote_port;
          snd_nxt = o.snd_nxt;
          rcv_nxt = o.rcv_nxt;
          state = established;
        })
        t in
    put i (record (at t' i) { used = false }) t'

-- The result of `tcp_accept`: the descriptor, and the address and port of the client.
abbrev pub Accepted : Type 0
Accepted = Option (ℕ × ℕ × ℕ)

unfoldable pub conclude_accept : ℕ → Tcp × Option ℕ → Tcp × Accepted
conclude_accept i (t, none) = (t, none)
conclude_accept i (t, some new) =
    (hand_over i new t, some (new, (at t i).remote_ip, (at t i).remote_port))

unfoldable pub accept_from : Host → ℕ → Tcp → Tcp × Accepted
accept_from host i t = conclude_accept i (socket host t)

unfoldable pub accept_loop : Host → ℕ → ℕ → Tcp → Tcp × Accepted
accept_loop host fd zero t = (t, none)
accept_loop host fd (suc left) t = elim (find_half_open (at t fd).local_port t) [
  | some i ↦ accept_from host i t
  | none ↦ accept_loop host fd left (host.sleep left t)
]

abbrev pub accept_timeout : ℕ
accept_timeout = 10000

unfoldable pub accept : Host → ℤ → Tcp → Tcp × Accepted
accept host fd t = elim (find_socket fd t) [
  | none ↦ (t, none)
  | some i ↦
      if not (is (at t i).state listen) then (t, none) else accept_loop host i accept_timeout t
]

-- The wait of `tcp_send` for the acknowledgement.
unfoldable pub wait_ack : Host → ℕ → ℕ → Tcp → Tcp
wait_ack host i zero t = t
wait_ack host i (suc left) t = elim (leb (at t i).snd_nxt (at t i).snd_una) [
  | true ↦ t
  | false ↦ wait_ack host i left (host.sleep left t)
]

abbrev pub ack_timeout : ℕ
ack_timeout = 1000

-- The chunks of `tcp_send`. A chunk is not empty, so a fuel of the length of the data is enough.
unfoldable pub send_loop : Host → ℕ → ℕ → List ℕ → ℕ → Tcp → Tcp × ℕ
send_loop host i zero rest done t = (t, done)
send_loop host i (suc fuel) [] done t = (t, done)
send_loop host i (suc fuel) (b ∷ bs) done t =
    elim (send_segment host i (flag_psh + flag_ack) (take mss (b ∷ bs)) t).1 [
      | none ↦ ((send_segment host i (flag_psh + flag_ack) (take mss (b ∷ bs)) t).0, done)
      | some n ↦ send_loop host i fuel (drop mss (b ∷ bs)) (done + length (take mss (b ∷ bs))) (
          wait_ack host i ack_timeout
            (send_segment host i (flag_psh + flag_ack) (take mss (b ∷ bs)) t).0)
    ]

unfoldable pub send : Host → ℤ → List ℕ → Tcp → Tcp × Option ℕ
send host fd payload t = elim (find_socket fd t) [
  | none ↦ (t, none)
  | some i ↦
      if not (is (at t i).state established)
      then (t, none)
      else let (t', n) = send_loop host i (length payload) payload 0 t in (t', some n)
]

-- The bytes that one round of `tcp_recv` copies out, in two pieces where they pass the end.
unfoldable pub peek : ℕ → Socket → List ℕ
peek n s =
    if leb (s.rcv_buf_head + n) s.rcv_buf_size
    then take n (drop s.rcv_buf_head s.rcv_buf)
    else let first = s.rcv_buf_size - s.rcv_buf_head in
      take first (drop s.rcv_buf_head s.rcv_buf) ++ take (n - first) s.rcv_buf

unfoldable pub consume : ℕ → Socket → Socket
consume n s = record s {
  rcv_buf_head = (s.rcv_buf_head + n) % s.rcv_buf_size;
  rcv_buf_count = s.rcv_buf_count - n;
  rcv_nxt = u32 (s.rcv_nxt + n);
}

-- The copying loop of `tcp_recv`: `want` bytes at most. A round that is made takes a byte at least,
-- so a fuel of the bytes held is enough.
unfoldable pub take_out : ℕ → ℕ → Socket → List ℕ × Socket
take_out zero want s = ([], s)
take_out (suc fuel) want s =
    let n = min s.rcv_buf_count want in
    let rest = take_out fuel (want - n) (consume n s) in
    if ltb 0 s.rcv_buf_count && ltb 0 want then (peek n s ++ rest.0, rest.1) else ([], s)

-- The wait of `tcp_recv` for data.
unfoldable pub wait_data : Host → ℕ → ℕ → Tcp → Tcp
wait_data host i zero t = t
wait_data host i (suc left) t =
    elim ((at t i).rcv_buf_count == 0 && is (at t i).state established) [
      | true ↦ wait_data host i left (host.sleep left t)
      | false ↦ t
    ]

abbrev pub data_timeout : ℕ
data_timeout = 10000

-- What follows the copying loop: an acknowledgement, if anything was copied.
unfoldable pub conclude_recv : Host → ℕ → ℕ → Tcp → List ℕ × Socket → Tcp × Option (List ℕ)
conclude_recv host i len t (bytes, s) =
    if ltb 0 len
    then ((send_segment host i flag_ack [] (put i s t)).0, some bytes)
    else (put i s t, some bytes)

unfoldable pub deliver : Host → ℕ → ℕ → Tcp → Tcp × Option (List ℕ)
deliver host i len t =
    if (at t i).rcv_buf_count == 0
    then (t, none)
    else conclude_recv host i len t (take_out (at t i).rcv_buf_count len (at t i))

-- `tcp_recv`: the bytes that it writes to `buf`, none of them at the end of the stream.
unfoldable pub recv : Host → ℤ → ℕ → Tcp → Tcp × Option (List ℕ)
recv host fd len t = elim (find_socket fd t) [
  | none ↦ (t, none)
  | some i ↦
      if is (at t i).state close_wait && (at t i).rcv_buf_count == 0
      then (t, some [])
      else deliver host i len (wait_data host i data_timeout t)
]

-- The wait of `tcp_close`.
unfoldable pub wait_closed : Host → ℕ → ℕ → Tcp → Tcp
wait_closed host i zero t = t
wait_closed host i (suc left) t = elim (is (at t i).state closed) [
  | true ↦ t
  | false ↦ wait_closed host i left (host.sleep left t)
]

abbrev pub close_timeout : ℕ
close_timeout = 1000

-- `tcp_close`
unfoldable pub close : Host → ℤ → Tcp → Tcp × Option ℕ
close host fd t = elim (find_socket fd t) [
  | none ↦ (t, none)
  | some i ↦
      let t' =
        if is (at t i).state established
        then wait_closed host i close_timeout
            (send_segment host i (flag_fin + flag_ack) []
              (put i (record (at t i) { state = fin_wait_1 }) t)).0
        else t in
      (put i (record (at t' i) { used = false }) t', some 0)
]
