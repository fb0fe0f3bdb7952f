-- ===== src/Net/Tcp/Diagram.antt =====
-- The state diagram: what a segment of a connection does to its state, against a table of the
-- cases.
use utms.Net.Tcp.Input.{
  space, Segment, enter_and_ack, acknowledge, store, accept_data, transition, on_segment,
}
use utms.Base.{
  take, ℕ, ◌<◌, ◌≡◌, refl, ap, ◌∙◌, arith, Bool, true, false, ◌&&◌, List, [], ◌∷◌, Option, length,
  length-set, get_or-set_self, if_elim, if◌then◌else◌, has_bit, ◌==◌, ltb, sub32,
}
use utms.Net.State.{NetState}
use utms.Net.Ip.{Sent, sent, failed, overrun}
use utms.Net.Tcp.State.{
  State, closed, listen, syn_sent, syn_rcvd, established, fin_wait_1, fin_wait_2, close_wait,
  closing, last_ack, time_wait, Socket, Tcp, Host, at, put, blank,
}
use utms.Net.Tcp.Output.{conclude_send, send_segment, after_send, flag_fin, flag_syn, flag_ack}

-- The next state, by the flags, the acknowledgement number and the time in the state.
pub next_state : State → Segment → Socket → ℕ → State
next_state syn_sent seg s ticks =
    if has_bit flag_syn seg.flags && has_bit flag_ack seg.flags then established else syn_sent
next_state syn_rcvd seg s ticks = if has_bit flag_ack seg.flags then established else syn_rcvd
next_state established seg s ticks = if has_bit flag_fin seg.flags then close_wait else established
next_state fin_wait_1 seg s ticks =
    if has_bit flag_fin seg.flags
    then closing
    else if has_bit flag_ack seg.flags && seg.ack == s.snd_nxt
    then fin_wait_2
    else fin_wait_1
next_state fin_wait_2 seg s ticks = if has_bit flag_fin seg.flags then time_wait else fin_wait_2
next_state close_wait seg s ticks = if has_bit flag_fin seg.flags then last_ack else close_wait
next_state last_ack seg s ticks =
    if has_bit flag_ack seg.flags && seg.ack == s.snd_nxt then closed else last_ack
next_state time_wait seg s ticks = if ltb 2000 (sub32 ticks s.timestamp) then closed else time_wait
next_state closed seg s ticks = closed
next_state listen seg s ticks = listen
next_state closing seg s ticks = closing

-- A slot of the table and its state.
pub record Stands (i : ℕ) (st : State) (t : Tcp) : Type 0 where
  pub slot : i < length t.sockets
  pub state : (at t i).state ≡ st

put-Stands : (i : ℕ) (s : Socket) (t : Tcp) → i < length t.sockets → Stands i s.state (put i s t)
put-Stands i s t h = record {
  slot = omega (arith, length-set t.sockets i s);
  state = ap (λ (r : Socket). r.state) (get_or-set_self t.sockets i s blank h);
}

conclude_send-Stands :
    (i flags len : ℕ) (st : State) (t : Tcp) (r : NetState × Sent)
    → Stands i st t
    → Stands i st (conclude_send i flags len t r).0
unfolding conclude_send after_send
conclude_send-Stands i flags len st t (n, sent k) h =
    let p = put-Stands i (after_send t.ticks flags len (at t i)) (record t { net = n }) h.slot in
    record {
      slot = p.slot;
      state = p.state ∙ state-after_send t.ticks flags len (at t i) ∙ h.state;
    }
  where
    state-after_send :
        (ticks flags len : ℕ) (s : Socket) → (after_send ticks flags len s).state ≡ s.state
    state-after_send ticks flags len s = refl
conclude_send-Stands i flags len st t (n, failed) h = record { slot = h.slot; state = h.state }
conclude_send-Stands i flags len st t (n, overrun) h = record { slot = h.slot; state = h.state }

-- Sending does not change the state.
pub send_segment-Stands :
    (host : Host) (i flags : ℕ) (payload : List ℕ) (st : State) (t : Tcp)
    → Stands i st t
    → Stands i st (send_segment host i flags payload t).0
unfolding send_segment
send_segment-Stands host i flags payload st t h =
    if_elim {A = Tcp × Option ℕ} (λ r. Stands i st r.0) _
      (conclude_send-Stands i flags (length payload) st t _ h) h

-- Both branches of a test, with the state that each leads to.
branch :
    (i : ℕ) (b : Bool) {a c : State} {x y : Tcp}
    → Stands i a x
    → Stands i c y
    → Stands i (if b then a else c) (if b then x else y)
branch i true p q = p
branch i false p q = q

enter_and_ack-Stands :
    (host : Host) (i : ℕ) (st : State) (seg : Segment) (t : Tcp)
    → i < length t.sockets
    → Stands i st (enter_and_ack host i st seg t)
enter_and_ack-Stands host i st seg t h =
    send_segment-Stands host i flag_ack [] st _ (put-Stands i _ t h)

transition-Stands :
    (host : Host) (i : ℕ) (seg : Segment) (st : State) (t : Tcp)
    → Stands i st t
    → Stands i (next_state st seg (at t i) t.ticks) (transition host i seg st t)
unfolding transition next_state
transition-Stands host i seg syn_sent t h =
    branch i _ (send_segment-Stands host i flag_ack [] established _ (put-Stands i _ t h.slot)) h
transition-Stands host i seg syn_rcvd t h = branch i _ (put-Stands i _ t h.slot) h
transition-Stands host i seg established t h =
    branch i _ (enter_and_ack-Stands host i close_wait seg t h.slot) h
transition-Stands host i seg fin_wait_1 t h =
    let t' =
      branch i (has_bit flag_ack seg.flags && seg.ack == (at t i).snd_nxt)
        (put-Stands i (record (at t i) { state = fin_wait_2 }) t h.slot) h in
    branch i _ (enter_and_ack-Stands host i closing seg _ t'.slot) t'
transition-Stands host i seg fin_wait_2 t h =
    branch i _ (enter_and_ack-Stands host i time_wait seg t h.slot) h
transition-Stands host i seg close_wait t h =
    branch i _ (enter_and_ack-Stands host i last_ack seg t h.slot) h
transition-Stands host i seg last_ack t h = branch i _ (put-Stands i _ t h.slot) h
transition-Stands host i seg time_wait t h = branch i _ (put-Stands i _ t h.slot) h
transition-Stands host i seg closed t h = h
transition-Stands host i seg listen t h = h
transition-Stands host i seg closing t h = h

-- `tcp_handle_packet` after the acknowledgement and the data.
abbrev pub received : Host → ℕ → Segment → Tcp → Tcp
received host i seg t = accept_data host i seg (put i (acknowledge seg (at t i)) t)

state-acknowledge : (seg : Segment) (s : Socket) → (acknowledge seg s).state ≡ s.state
unfolding acknowledge
state-acknowledge seg s = ground arith

state-store : (chunk : List ℕ) (s : Socket) → (store chunk s).state ≡ s.state
unfolding store
state-store chunk s = ground arith

accept_data-Stands :
    (host : Host) (i : ℕ) (seg : Segment) (st : State) (t : Tcp)
    → Stands i st t
    → Stands i st (accept_data host i seg t)
unfolding accept_data
accept_data-Stands host i seg st t h =
    let s : Socket = store (take (space (at t i)) seg.payload) (at t i) in
    let p : Stands i s.state (put i s t) = put-Stands i s t h.slot in
    if_elim (Stands i st) _
      (send_segment-Stands host i flag_ack [] st (put i s t)
        (record { slot = p.slot; state = p.state ∙ (state-store _ (at t i) ∙ h.state) }))
      h

received-Stands :
    (host : Host) (i : ℕ) (seg : Segment) (t : Tcp)
    → i < length t.sockets
    → Stands i (at t i).state (received host i seg t)
received-Stands host i seg t h = accept_data-Stands host i seg _ _ (
    let p = put-Stands i (acknowledge seg (at t i)) t h in
    record { slot = p.slot; state = p.state ∙ state-acknowledge seg (at t i) })

-- A segment of a connection in a slot of the table moves its socket to the state that the diagram
-- `next_state` names for its old state, the segment, and the socket as the data of the segment left
-- it.
pub on_segment-next_state :
    (host : Host) (i : ℕ) (seg : Segment) (t : Tcp)
    → i < length t.sockets
    → (at (on_segment host i seg t) i).state
      ≡ next_state (at t i).state seg (at (received host i seg t) i) (received host i seg t).ticks
unfolding on_segment
on_segment-next_state host i seg t h =
    let r = received-Stands host i seg t h in
    rw (r.state) ((transition-Stands host i seg (at t i).state (received host i seg t) r).state)

-- The segments of one connection, one after the other.
pub on_segments : Host → ℕ → List Segment → Tcp → Tcp
on_segments host i [] t = t
on_segments host i (seg ∷ segs) t = on_segments host i segs (on_segment host i seg t)

closing-Stands :
    (host : Host) (i : ℕ) (seg : Segment) (t : Tcp)
    → Stands i closing t
    → Stands i closing (on_segment host i seg t)
unfolding on_segment next_state
closing-Stands host i seg t h =
    let r = received-Stands host i seg t h.slot in
    let r' : Stands i closing (received host i seg t) = rw (h.state) at r in
    rw (r'.state) (transition-Stands host i seg closing (received host i seg t) r')

closing-Stands_all :
    (host : Host) (i : ℕ) (segs : List Segment) (t : Tcp)
    → Stands i closing t
    → Stands i closing (on_segments host i segs t)
unfolding on_segments
closing-Stands_all host i [] t h = h
closing-Stands_all host i (seg ∷ segs) t h =
    closing-Stands_all host i segs (on_segment host i seg t) (closing-Stands host i seg t h)

-- No segment, and no number of them, takes a socket out of CLOSING, though its FIN be acknowledged.
pub closing_forever :
    (host : Host) (i : ℕ) (segs : List Segment) (t : Tcp)
    → i < length t.sockets
    → (at t i).state ≡ closing
    → (at (on_segments host i segs t) i).state ≡ closing
closing_forever host i segs t h e =
    (closing-Stands_all host i segs t (record { slot = h; state = e })).state
