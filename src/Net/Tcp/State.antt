-- ===== src/Net/Tcp/State.antt =====
-- `tcp_socket_t`, the table of sockets, and what TCP takes from the rest of the kernel.
use utms.Base.{
  ℕ, Bool, true, false, ◌&&◌, List, [], Option, none, some, find_index, get_or, set, ◌==◌, ltb,
  if◌then◌else◌,
}
use utms.Base.Int.{ℤ, pos, negsuc}
use utms.Net.State.{NetState, Env}

-- TCP_CLOSED, …, TCP_TIME_WAIT, in the order of their numbers.
pub data State : Type 0 where
  closed listen syn_sent syn_rcvd established fin_wait_1 fin_wait_2 : State
  close_wait closing last_ack time_wait : State

abbrev pub number : State → ℕ
number closed = 0
number listen = 1
number syn_sent = 2
number syn_rcvd = 3
number established = 4
number fin_wait_1 = 5
number fin_wait_2 = 6
number close_wait = 7
number closing = 8
number last_ack = 9
number time_wait = 10

abbrev pub is : State → State → Bool
is a b = number a == number b

-- The fields that the code uses (`snd_wnd`, the positions of the send buffer and `next` are only
-- cleared). A null or freed receive buffer is the empty list: what is written through it is lost.
pub record Socket : Type 0 where
  pub used : Bool
  pub fd : ℕ
  pub local_ip : ℕ
  pub local_port : ℕ
  pub remote_ip : ℕ
  pub remote_port : ℕ
  pub snd_nxt : ℕ
  pub snd_una : ℕ
  pub rcv_nxt : ℕ
  pub rcv_wnd : ℕ
  pub state : State
  pub timestamp : ℕ
  pub retries : ℕ
  pub rcv_buf : List ℕ
  pub rcv_buf_size : ℕ
  pub rcv_buf_head : ℕ
  pub rcv_buf_tail : ℕ
  pub rcv_buf_count : ℕ
  pub snd_buf_size : ℕ

-- `memset(s, 0, sizeof(tcp_socket_t))`
abbrev pub blank : Socket
blank = record {
  used = false;
  fd = 0;
  local_ip = 0;
  local_port = 0;
  remote_ip = 0;
  remote_port = 0;
  snd_nxt = 0;
  snd_una = 0;
  rcv_nxt = 0;
  rcv_wnd = 0;
  state = closed;
  timestamp = 0;
  retries = 0;
  rcv_buf = [];
  rcv_buf_size = 0;
  rcv_buf_head = 0;
  rcv_buf_tail = 0;
  rcv_buf_count = 0;
  snd_buf_size = 0;
}

-- `sockets`, `next_port`, `tcp_ticks`, and the stack below.
pub record Tcp : Type 0 where
  pub sockets : List Socket
  pub next_port : ℕ
  pub ticks : ℕ
  pub net : NetState

abbrev pub max_sockets : ℕ
max_sockets = 32

abbrev pub mss : ℕ
mss = 1460

abbrev pub window_size : ℕ
window_size = 65535

abbrev pub max_retries : ℕ
max_retries = 5

abbrev pub retransmit_ms : ℕ
retransmit_ms = 500

abbrev pub buffer_size : ℕ
buffer_size = 65536

-- What the rest of the kernel does: the environment of the layers below, the low 32 bits of the
-- address of each socket, the bytes in a block that `kmalloc` gives, and what happens to the state
-- while a process is in `sched_sleep(10)` (the argument is the rounds left).
pub record Host : Type 0 where
  pub env : Env
  pub address : ℕ → ℕ
  pub memory : ℕ → List ℕ
  pub sleep : ℕ → Tcp → Tcp

-- `sockets[i]`
abbrev pub at : Tcp → ℕ → Socket
at t i = get_or t.sockets i blank

abbrev pub put : ℕ → Socket → Tcp → Tcp
put i s t = record t { sockets = set t.sockets i s }

-- `tcp_find_socket`, as an index.
unfoldable pub find_socket : ℤ → Tcp → Option ℕ
find_socket (negsuc n) t = none
find_socket (pos fd) t = if ltb fd max_sockets && (at t fd).used then some fd else none

abbrev matches : ℕ → ℕ → ℕ → ℕ → Socket → Bool
matches local_ip local_port remote_ip remote_port s =
    s.used
    && (s.local_ip == local_ip
        && (s.local_port == local_port
            && (s.remote_ip == remote_ip && s.remote_port == remote_port)))

-- `tcp_find_connection`
unfoldable pub find_connection : ℕ → ℕ → ℕ → ℕ → Tcp → Option ℕ
find_connection local_ip local_port remote_ip remote_port t =
    find_index (matches local_ip local_port remote_ip remote_port) t.sockets

-- `tcp_find_listener`
unfoldable pub find_listener : ℕ → Tcp → Option ℕ
find_listener port t =
    find_index (λ s. s.used && (is s.state listen && s.local_port == port)) t.sockets

abbrev pub is_unused : Socket → Bool
is_unused s = if s.used then false else true

-- The first slot that is not in use.
unfoldable pub find_slot : Tcp → Option ℕ
find_slot t = find_index is_unused t.sockets
