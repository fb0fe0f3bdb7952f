-- ===== src/Net/Tcp/Keep.antt =====
-- Every function of net/tcp.c keeps the receive rings of the table well-formed.
use utms.Net.Tcp.State.{
  closed, listen, syn_sent, syn_rcvd, established, fin_wait_1, fin_wait_2, close_wait, closing,
  last_ack, time_wait, closed, last_ack, find_connection, time_wait, closing, fin_wait_2, find_slot,
  close_wait, find_listener, established, Socket, Tcp, Host, at, State,
}
use utms.Base.{
  Option_elim, ◌∙◌, if_elim, sym, ℕ, ◌≤◌, ◌≡◌, refl, arith, List, [], length, length-take, Option,
}
use utms.Net.Tcp.Input.{
  enter, enter_and_ack, half_open, Segment, store, space, acknowledge, accept_data, transition,
  on_segment, open_passive, handle_packet,
}
use utms.Base.Int.{ℤ}
use utms.Net.State.{NetState}
use utms.Net.Ip.{Sent, sent, failed, overrun}
use utms.Net.Tcp.Output.{after_send, conclude_send, send_segment, flag_ack}
use utms.Net.Tcp.Ring.{same-TableOk, SlotOk, TableOk, at-SlotOk, put-TableOk, store-RingOk}

after_send-SlotOk :
    (ticks flags len : ℕ) (s : Socket) → SlotOk s → SlotOk (after_send ticks flags len s)
unfolding after_send
after_send-SlotOk ticks flags len s h = h

conclude_send-TableOk :
    (i flags len : ℕ) (t : Tcp) (r : NetState × Sent)
    → TableOk t
    → TableOk (conclude_send i flags len t r).0
unfolding conclude_send
conclude_send-TableOk i flags len t (n, sent k) h =
    put-TableOk i (after_send t.ticks flags len (at t i)) (record t { net = n })
      (same-TableOk t (record t { net = n }) refl h)
      (after_send-SlotOk t.ticks flags len (at t i) (at-SlotOk t i h))
conclude_send-TableOk i flags len t (n, failed) h = same-TableOk t (record t { net = n }) refl h
conclude_send-TableOk i flags len t (n, overrun) h = same-TableOk t (record t { net = n }) refl h

pub send_segment-TableOk :
    (host : Host) (i flags : ℕ) (payload : List ℕ) (t : Tcp)
    → TableOk t
    → TableOk (send_segment host i flags payload t).0
unfolding send_segment
send_segment-TableOk host i flags payload t h =
    if_elim {A = Tcp × Option ℕ} (λ r. TableOk r.0) _
      (conclude_send-TableOk i flags (length payload) t _ h) h

acknowledge-SlotOk : (seg : Segment) (s : Socket) → SlotOk s → SlotOk (acknowledge seg s)
unfolding acknowledge
acknowledge-SlotOk seg s h = if_elim SlotOk _ h h

used-store : (chunk : List ℕ) (s : Socket) → (store chunk s).used ≡ s.used
unfolding store
used-store chunk s = ground arith

store-SlotOk :
    (chunk : List ℕ) (s : Socket) → SlotOk s → length chunk ≤ space s → SlotOk (store chunk s)
store-SlotOk chunk s h le u = store-RingOk chunk s (h (sym (used-store chunk s) ∙ u)) le

accept_data-TableOk :
    (host : Host) (i : ℕ) (seg : Segment) (t : Tcp) → TableOk t → TableOk (accept_data host i seg t)
unfolding accept_data
accept_data-TableOk host i seg t h =
    if_elim TableOk _
      (send_segment-TableOk host i flag_ack [] _ (
        put-TableOk i _ t h (
          store-SlotOk _ (at t i) (at-SlotOk t i h)
            (omega (arith, length-take {0} (space (at t i)) seg.payload)))))
      h

-- Entering another state, with or without an acknowledgement to the peer.
module _ (host : Host) (i : ℕ) (seg : Segment) (st : State) (t : Tcp) (h : TableOk t) where
  enter-TableOk : TableOk (enter i st t)
  enter-TableOk = put-TableOk i _ t h (at-SlotOk t i h)

  enter_and_ack-TableOk : TableOk (enter_and_ack host i st seg t)
  enter_and_ack-TableOk =
      send_segment-TableOk host i flag_ack [] _ (put-TableOk i _ t h (at-SlotOk t i h))

transition-TableOk :
    (host : Host) (i : ℕ) (seg : Segment) (st : State) (t : Tcp)
    → TableOk t
    → TableOk (transition host i seg st t)
unfolding transition
transition-TableOk host i seg syn_sent t h =
    if_elim TableOk _
      (send_segment-TableOk host i flag_ack [] _ (put-TableOk i _ t h (at-SlotOk t i h))) h
transition-TableOk host i seg syn_rcvd t h =
    if_elim TableOk _ (enter-TableOk host i seg established t h) h
transition-TableOk host i seg established t h =
    if_elim TableOk _ (enter_and_ack-TableOk host i seg close_wait t h) h
transition-TableOk host i seg fin_wait_1 t h =
    let h' = if_elim TableOk _ (enter-TableOk host i seg fin_wait_2 t h) h in
    if_elim TableOk _ (enter_and_ack-TableOk host i seg closing _ h') h'
transition-TableOk host i seg fin_wait_2 t h =
    if_elim TableOk _ (enter_and_ack-TableOk host i seg time_wait t h) h
transition-TableOk host i seg close_wait t h =
    if_elim TableOk _ (enter_and_ack-TableOk host i seg last_ack t h) h
transition-TableOk host i seg last_ack t h =
    if_elim TableOk _ (enter-TableOk host i seg closed t h) h
transition-TableOk host i seg time_wait t h =
    if_elim TableOk _ (enter-TableOk host i seg closed t h) h
transition-TableOk host i seg closed t h = h
transition-TableOk host i seg listen t h = h
transition-TableOk host i seg closing t h = h

on_segment-TableOk :
    (host : Host) (i : ℕ) (seg : Segment) (t : Tcp) → TableOk t → TableOk (on_segment host i seg t)
unfolding on_segment
on_segment-TableOk host i seg t h = transition-TableOk host i seg _ _ (
    accept_data-TableOk host i seg _
      (put-TableOk i _ t h (acknowledge-SlotOk seg (at t i) (at-SlotOk t i h))))

half_open-SlotOk :
    (host : Host) (i src dst : ℕ) (seg : Segment) → SlotOk (half_open host i src dst seg)
unfolding half_open
half_open-SlotOk host i src dst seg u = omega arith

open_passive-TableOk :
    (host : Host) (src dst : ℕ) (seg : Segment) (t : Tcp)
    → TableOk t
    → TableOk (open_passive host src dst seg t)
unfolding open_passive
open_passive-TableOk host src dst seg t h =
    if_elim TableOk _
      (Option_elim TableOk (find_listener seg.dst_port t) h (λ l e.
        Option_elim TableOk (find_slot t) h (λ i e'.
          send_segment-TableOk host i _ [] _
            (put-TableOk i _ t h (half_open-SlotOk host i src dst seg)))))
      h

-- A received packet, whatever its bytes, keeps every receive ring well-formed.
pub handle_packet-TableOk :
    (host : Host) (pkt : List ℕ) (len : ℤ) (src dst : ℕ) (t : Tcp)
    → TableOk t
    → TableOk (handle_packet host pkt len src dst t)
unfolding handle_packet
handle_packet-TableOk host pkt len src dst t h = if_elim TableOk _ h (
    Option_elim TableOk (find_connection _ _ _ _ t) (open_passive-TableOk host src dst _ t h)
      (λ i e. on_segment-TableOk host i _ t h))
