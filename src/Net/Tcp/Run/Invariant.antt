-- ===== src/Net/Tcp/Run/Invariant.antt =====
-- What holds of the table after any run of the socket layer.
use utms.Base.{List, [], ◌∷◌, All}
use utms.Net.Tcp.State.{Socket, Tcp, Host}
use utms.Net.Tcp.Calls.{init, clear}
use utms.Net.Tcp.Run.{
  Event, packet, tick, call_socket, call_bind, call_connect, call_listen, call_accept, call_send,
  call_recv, call_close, step, run,
}
use utms.Net.Tcp.Ring.{SlotOk, TableOk}
use utms.Net.Tcp.Keep.{handle_packet-TableOk}
use utms.Net.Tcp.Run.Calls.{
  IsCalm, timer-TableOk, socket-Keeps, bind-Keeps, connect-Keeps, listen_on-Keeps, accept-Keeps,
  send_call-Keeps, recv-Keeps, close-Keeps,
}

clear-All : (ss : List Socket) → All SlotOk (clear ss)
unfolding clear
clear-All [] = tt
clear-All (s ∷ ss) = ((λ u. cc), clear-All ss)

init-TableOk : (t : Tcp) → TableOk (init t)
unfolding init
init-TableOk t = record { slots = clear-All t.sockets }

step-TableOk :
    (host : Host) → IsCalm host → (e : Event) (t : Tcp) → TableOk t → TableOk (step host e t)
unfolding step
step-TableOk host calm (packet pkt len src dst) t h = handle_packet-TableOk host pkt len src dst t h
step-TableOk host calm tick t h = timer-TableOk host t h
step-TableOk host calm call_socket t h = (socket-Keeps host t h).table
step-TableOk host calm (call_bind fd port) t h = (bind-Keeps fd port t h).table
step-TableOk host calm (call_connect fd ip port) t h = (connect-Keeps host fd ip port t h).table
step-TableOk host calm (call_listen fd) t h = (listen_on-Keeps fd t h).table
step-TableOk host calm (call_accept fd) t h = (accept-Keeps host calm fd t h).table
step-TableOk host calm (call_send fd payload) t h = (send_call-Keeps host calm fd payload t h).table
step-TableOk host calm (call_recv fd len) t h = (recv-Keeps host calm fd len t h).table
step-TableOk host calm (call_close fd) t h = (close-Keeps host calm fd t h).table

run-TableOk :
    (host : Host) → IsCalm host → (es : List Event) (t : Tcp) → TableOk t → TableOk (run host es t)
unfolding run
run-TableOk host calm [] t h = h
run-TableOk host calm (e ∷ es) t h =
    run-TableOk host calm es (step host e t) (step-TableOk host calm e t h)

-- From `tcp_init` on, whatever packets, ticks and calls come in whatever order, every socket in use
-- has a receive ring whose head lies in it, whose tail and count do not pass its size, and whose
-- tail is `count` bytes after the head, round the end; what happens during sleeps must keep this.
pub run_rings_ok :
    (host : Host) → IsCalm host → (es : List Event) (t : Tcp) → TableOk (run host es (init t))
run_rings_ok host calm es t = run-TableOk host calm es (init t) (init-TableOk t)
