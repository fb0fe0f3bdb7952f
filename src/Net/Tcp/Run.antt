-- ===== src/Net/Tcp/Run.antt =====
-- The socket layer as a transition system: packets, timer ticks and calls in any order.
pub mod Calls
pub mod Invariant
use utms.Base.{ℕ, List, [], ◌∷◌}
use utms.Base.Int.{ℤ}
use utms.Net.Tcp.State.{Tcp, Host}
use utms.Net.Tcp.Input.{handle_packet}
use utms.Net.Tcp.Timer.{timer}
use utms.Net.Tcp.Calls.{socket, bind, connect, listen_on, accept, send, recv, close}

-- What can happen to the table: a packet from IP, a tick of the clock, a call.
pub data Event : Type 0 where
  packet : List ℕ → ℤ → ℕ → ℕ → Event
  tick : Event
  call_socket : Event
  call_bind : ℤ → ℕ → Event
  call_connect : ℤ → ℕ → ℕ → Event
  call_listen : ℤ → Event
  call_accept : ℤ → Event
  call_send : ℤ → List ℕ → Event
  call_recv : ℤ → ℕ → Event
  call_close : ℤ → Event

unfoldable pub step : Host → Event → Tcp → Tcp
step host (packet pkt len src dst) t = handle_packet host pkt len src dst t
step host tick t = timer host t
step host call_socket t = (socket host t).0
step host (call_bind fd port) t = (bind fd port t).0
step host (call_connect fd ip port) t = (connect host fd ip port t).0
step host (call_listen fd) t = (listen_on fd t).0
step host (call_accept fd) t = (accept host fd t).0
step host (call_send fd payload) t = (send host fd payload t).0
step host (call_recv fd len) t = (recv host fd len t).0
step host (call_close fd) t = (close host fd t).0

unfoldable pub run : Host → List Event → Tcp → Tcp
run host [] t = t
run host (e ∷ es) t = run host es (step host e t)
