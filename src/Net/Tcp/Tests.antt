-- ===== src/Net/Tcp/Tests.antt =====
-- The theorems about TCP at concrete inputs.
use utms.Base.{◌+◌, ◌≡◌, refl, true, false, List, [], ◌∷◌, ◌++◌, arith, length, min}
use utms.Base.Int.{pos}
use utms.Net.State.{NetState}
use utms.Net.Tcp.State.{Socket, Tcp, Host, at, blank, closing, established}
use utms.Net.Tcp.Input.{Segment, store, is_in_order, on_segment}
use utms.Net.Tcp.Calls.{init, take_out, consume}
use utms.Net.Tcp.Run.{Event, packet, tick, call_socket, call_bind, call_listen, run}
use utms.Net.Tcp.Run.Invariant.{run_rings_ok}
use utms.Net.Tcp.Ring.{TableOk}
use utms.Net.Tcp.Fifo.{HasBuffer, contents, contents-store, take_out-front}
use utms.Net.Tcp.Diagram.{next_state, received, on_segment-next_state, on_segments, closing_forever}
use utms.Net.Tcp.Sequence.{next_segment_refused}

abbrev net : NetState
net = record {
  our_mac = 2 ∷ 0 ∷ 0 ∷ 0 ∷ 0 ∷ 1 ∷ [];
  our_ip = 0x0f02000a;
  our_netmask = 0x00ffffff;
  our_gateway = 0;
  network_ready = true;
  nic_present = true;
  arp_cache = record { ip = 0x0202000a; mac = 1 ∷ 2 ∷ 3 ∷ 4 ∷ 5 ∷ 6 ∷ []; valid = true } ∷ [];
  frames = [];
}

-- A host that always has memory, and where nothing happens during a sleep.
abbrev host : Host
host = record {
  env = record { alloc = λ site n. true; spin = λ k s. s };
  address = λ i. 4096 + i;
  memory = λ n. [];
  sleep = λ k t. t;
}

-- A connection whose ring of four bytes holds two, round its end.
abbrev connection : Socket
connection = record blank {
  used = true;
  state = established;
  local_ip = 0x0f02000a;
  local_port = 80;
  remote_ip = 0x0202000a;
  remote_port = 1024;
  snd_nxt = 100;
  snd_una = 90;
  rcv_nxt = 7;
  rcv_buf = 1 ∷ 2 ∷ 3 ∷ 4 ∷ [];
  rcv_buf_size = 4;
  rcv_buf_head = 3;
  rcv_buf_tail = 1;
  rcv_buf_count = 2;
}

abbrev tcp : Tcp
tcp = record {
  sockets = connection ∷ record connection { state = closing } ∷ [];
  next_port = 49152;
  ticks = 1000;
  net = net;
}

-- A segment with the flags FIN and ACK and one byte.
abbrev segment : Segment
segment = record {
  src_port = 1024;
  dst_port = 80;
  seq = 7;
  ack = 100;
  flags = 17;
  payload = 9 ∷ [];
}

abbrev events : List Event
events =
    call_socket ∷ call_bind (pos 0) 80 ∷ call_listen (pos 0) ∷ packet [] (pos 20) 1 2 ∷ tick ∷ []

run_rings_ok_example : TableOk (run host events (init tcp))
run_rings_ok_example = run_rings_ok host (λ k t h. h) events tcp

connection-HasBuffer : HasBuffer connection
connection-HasBuffer = record {
  ring = record {
    head_in = omega arith;
    tail_in = omega arith;
    count_in = omega arith;
    distance = omega arith;
  };
  buffer = refl;
}

contents-store_example : contents (store (5 ∷ []) connection) ≡ contents connection ++ (5 ∷ [])
contents-store_example = contents-store connection (5 ∷ []) connection-HasBuffer (omega arith)

take_out-front_example :
    (contents connection ≡ (take_out 2 1 connection).0 ++ contents (take_out 2 1 connection).1)
    × (length (take_out 2 1 connection).0 ≡ min 2 1)
    × HasBuffer (take_out 2 1 connection).1
take_out-front_example = take_out-front 1 connection connection-HasBuffer

on_segment-next_state_example :
    (at (on_segment host 0 segment tcp) 0).state
    ≡ next_state established segment
        (at (received host 0 segment tcp) 0)
        (received host 0 segment tcp).ticks
on_segment-next_state_example = on_segment-next_state host 0 segment tcp (omega arith)

follows : 8 ≡ (store (9 ∷ []) connection).rcv_nxt
unfolding store
follows = refl

-- The byte at 7 comes, and is read; then the segment from 8 on.
next_segment_refused_example :
    is_in_order (record segment { seq = 8 }) (consume 1 (store (9 ∷ []) connection)) ≡ false
next_segment_refused_example =
    next_segment_refused (9 ∷ []) connection (record segment { seq = 8 }) (omega arith)
      (omega arith) follows

closing_forever_example : (at (on_segments host 1 (segment ∷ segment ∷ []) tcp) 1).state ≡ closing
closing_forever_example = closing_forever host 1 (segment ∷ segment ∷ []) tcp (omega arith) refl
