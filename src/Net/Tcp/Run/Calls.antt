-- ===== src/Net/Tcp/Run/Calls.antt =====
-- Each call, and the timer, keeps the receive rings well-formed.
use utms.Base.{
  ◌&&◌, ltb, ◌-◌, drop, leb, take, Bool_elim, length, ◌+◌, ℕ, zero, suc, List, [], ◌∷◌, Option,
  none, some, Bool, false, not, refl, arith, if_elim, Option_elim, min,
}
use utms.Net.Tcp.Calls.{
  is_taken, ack_timeout, accept_timeout, close_timeout, conclude_accept, conclude_recv,
  data_timeout, socket, fresh, bind, connect, listen_on, accept, accept_loop, accept_from,
  hand_over, find_half_open, send, send_loop, wait_ack, recv, wait_data, deliver, take_out, consume,
  close, wait_closed,
}
use utms.Net.Tcp.State.{is, mss, Tcp, Host, at, put, Socket, find_socket, find_slot, closed}
use utms.Base.Int.{ℤ}
use utms.Net.Tcp.Output.{send_segment, flag_fin, flag_syn, flag_psh, flag_ack}
use utms.Net.Tcp.Timer.{timer, check_socket, check_from}
use utms.Net.Tcp.Ring.{SlotOk, TableOk, at-SlotOk, put-TableOk, same-TableOk, consume-RingOk}
use utms.Net.Tcp.Keep.{send_segment-TableOk}

check_socket-TableOk : (host : Host) (i : ℕ) (t : Tcp) → TableOk t → TableOk (check_socket host i t)
unfolding check_socket
check_socket-TableOk host i t h =
    if_elim TableOk _
      (if_elim TableOk _
        (send_segment-TableOk host i _ [] _ (put-TableOk i _ t h (at-SlotOk t i h)))
        (put-TableOk i _ t h (at-SlotOk t i h)))
      h

check_from-TableOk :
    (host : Host) (left i : ℕ) (t : Tcp) → TableOk t → TableOk (check_from host left i t)
unfolding check_from
check_from-TableOk host zero i t h = h
check_from-TableOk host (suc left) i t h =
    check_from-TableOk host left (suc i) _ (check_socket-TableOk host i t h)

pub timer-TableOk : (host : Host) (t : Tcp) → TableOk t → TableOk (timer host t)
unfolding timer
timer-TableOk host t h = check_from-TableOk host _ 0 _ (same-TableOk t _ refl h)

fresh-SlotOk : (host : Host) (i : ℕ) (b : Bool) (t : Tcp) → SlotOk (fresh host i b t)
unfolding fresh
fresh-SlotOk host i b t u = omega arith

-- What a call returns beside its result keeps the rings.
pub record Keeps {ℓ} {A : Type ℓ} (r : Tcp × A) : Type ℓ where
  pub table : TableOk r.0

keeps {ℓ} : {A : Type ℓ} (t : Tcp) (a : A) → TableOk t → Keeps (t, a)
keeps t a h = record { table = h }

send-Keeps :
    (host : Host) (i flags : ℕ) (payload : List ℕ) (t : Tcp)
    → TableOk t
    → Keeps (send_segment host i flags payload t)
send-Keeps host i flags payload t h = record {
  table = send_segment-TableOk host i flags payload t h;
}

pub socket-Keeps : (host : Host) (t : Tcp) → TableOk t → Keeps (socket host t)
unfolding socket
socket-Keeps host t h = Option_elim Keeps (find_slot t) (keeps t _ h) (λ i e. keeps _ _ (
    same-TableOk (put i (fresh host i _ t) t) _ refl
      (put-TableOk i _ t h (fresh-SlotOk host i _ t))))

pub bind-Keeps : (fd : ℤ) (port : ℕ) (t : Tcp) → TableOk t → Keeps (bind fd port t)
unfolding bind
bind-Keeps fd port t h = Option_elim Keeps (find_socket fd t) (keeps t none h) (λ i e.
    if_elim Keeps (not (is (at t i).state closed)) (keeps t none h) (
      if_elim Keeps (is_taken i port 0 t.sockets) (keeps t none h) (
        keeps (put i (record (at t i) { local_port = port }) t) (some 0)
          (put-TableOk i _ t h (at-SlotOk t i h)))))

pub connect-Keeps :
    (host : Host) (fd : ℤ) (ip port : ℕ) (t : Tcp) → TableOk t → Keeps (connect host fd ip port t)
unfolding connect
connect-Keeps host fd ip port t h = Option_elim Keeps (find_socket fd t) (keeps t _ h) (λ i e.
    if_elim Keeps _ (keeps t _ h)
      (send-Keeps host i flag_syn [] _ (put-TableOk i _ t h (at-SlotOk t i h))))

pub listen_on-Keeps : (fd : ℤ) (t : Tcp) → TableOk t → Keeps (listen_on fd t)
unfolding listen_on
listen_on-Keeps fd t h =
    Option_elim Keeps (find_socket fd t) (keeps t _ h)
      (λ i e. if_elim Keeps _ (keeps t _ h) (keeps _ _ (put-TableOk i _ t h (at-SlotOk t i h))))

-- A slot that is given back holds no ring.
free-TableOk : (i : ℕ) (t : Tcp) → TableOk t → TableOk (put i (record (at t i) { used = false }) t)
free-TableOk i t h = put-TableOk i _ t h (λ u. cc)

hand_over-TableOk : (i new : ℕ) (t : Tcp) → TableOk t → TableOk (hand_over i new t)
unfolding hand_over
hand_over-TableOk i new t h = free-TableOk i _ (put-TableOk new _ t h (at-SlotOk t new h))

conclude_accept-Keeps : (i : ℕ) (r : Tcp × Option ℕ) → Keeps r → Keeps (conclude_accept i r)
unfolding conclude_accept
conclude_accept-Keeps i (t, none) k = keeps t _ k.table
conclude_accept-Keeps i (t, some new) k = keeps _ _ (hand_over-TableOk i new t k.table)

-- What happens while a process sleeps keeps the rings too.
abbrev pub IsCalm : Host → Type 0
IsCalm host = (k : ℕ) (t : Tcp) → TableOk t → TableOk (host.sleep k t)

module _ (host : Host) (calm : IsCalm host) where
  accept_loop-Keeps : (fd left : ℕ) (t : Tcp) → TableOk t → Keeps (accept_loop host fd left t)
  unfolding accept_loop accept_from
  accept_loop-Keeps fd zero t h = keeps t _ h
  accept_loop-Keeps fd (suc left) t h =
      Option_elim Keeps (find_half_open _ t)
        (accept_loop-Keeps fd left (host.sleep left t) (calm left t h))
        (λ i e. conclude_accept-Keeps i (socket host t) (socket-Keeps host t h))

  pub accept-Keeps : (fd : ℤ) (t : Tcp) → TableOk t → Keeps (accept host fd t)
  unfolding accept
  accept-Keeps fd t h =
      Option_elim Keeps (find_socket fd t) (keeps t _ h)
        (λ i e. if_elim Keeps _ (keeps t _ h) (accept_loop-Keeps i accept_timeout t h))

  wait_ack-TableOk : (i left : ℕ) (t : Tcp) → TableOk t → TableOk (wait_ack host i left t)
  unfolding wait_ack
  wait_ack-TableOk i zero t h = h
  wait_ack-TableOk i (suc left) t h =
      Bool_elim TableOk (leb _ _) h (wait_ack-TableOk i left _ (calm left t h))

  wait_data-TableOk : (i left : ℕ) (t : Tcp) → TableOk t → TableOk (wait_data host i left t)
  unfolding wait_data
  wait_data-TableOk i zero t h = h
  wait_data-TableOk i (suc left) t h =
      Bool_elim TableOk _ (wait_data-TableOk i left _ (calm left t h)) h

  wait_closed-TableOk : (i left : ℕ) (t : Tcp) → TableOk t → TableOk (wait_closed host i left t)
  unfolding wait_closed
  wait_closed-TableOk i zero t h = h
  wait_closed-TableOk i (suc left) t h =
      Bool_elim TableOk _ h (wait_closed-TableOk i left _ (calm left t h))

  send_loop-Keeps :
      (i fuel : ℕ) (rest : List ℕ) (done : ℕ) (t : Tcp)
      → TableOk t
      → Keeps (send_loop host i fuel rest done t)
  unfolding send_loop
  send_loop-Keeps i zero rest done t h = keeps t _ h
  send_loop-Keeps i (suc fuel) [] done t h = keeps t _ h
  send_loop-Keeps i (suc fuel) (b ∷ bs) done t h =
      let r : Tcp × Option ℕ = send_segment host i (flag_psh + flag_ack) (take mss (b ∷ bs)) t in
      let out : TableOk r.0 =
        send_segment-TableOk host i (flag_psh + flag_ack) (take mss (b ∷ bs)) t h in
      Option_elim Keeps r.1
        {f = λ n.
          send_loop host i fuel (drop mss (b ∷ bs)) (done + length (take mss (b ∷ bs)))
            (wait_ack host i ack_timeout r.0)}
        (keeps r.0 done out)
        (λ n e.
          send_loop-Keeps i fuel (drop mss (b ∷ bs)) _ _ (wait_ack-TableOk i ack_timeout _ out))

  pub send_call-Keeps :
      (fd : ℤ) (payload : List ℕ) (t : Tcp) → TableOk t → Keeps (send host fd payload t)
  unfolding send
  send_call-Keeps fd payload t h = Option_elim Keeps (find_socket fd t) (keeps t _ h) (λ i e.
      if_elim Keeps _ (keeps t _ h)
        (keeps _ _ (send_loop-Keeps i (length payload) payload 0 t h).table))

  take_out-SlotOk : (fuel want : ℕ) (s : Socket) → SlotOk s → SlotOk (take_out fuel want s).1
  unfolding take_out consume
  take_out-SlotOk zero want s h = h
  take_out-SlotOk (suc fuel) want s h =
      let n : ℕ = min s.rcv_buf_count want in
      let ih : SlotOk (take_out fuel (want - n) (consume n s)).1 =
        take_out-SlotOk fuel (want - n) (consume n s)
          (λ u. consume-RingOk n s (h u) (omega arith)) in
      if_elim {A = List ℕ × Socket} (λ r. SlotOk r.1) (ltb 0 s.rcv_buf_count && ltb 0 want) ih h

  conclude_recv-Keeps :
      (i len : ℕ) (t : Tcp) (r : List ℕ × Socket)
      → TableOk t
      → SlotOk r.1
      → Keeps (conclude_recv host i len t r)
  unfolding conclude_recv
  conclude_recv-Keeps i len t (bytes, s) h p =
      if_elim Keeps _
        (keeps _ _ (send_segment-TableOk host i flag_ack [] _ (put-TableOk i s t h p)))
        (keeps _ _ (put-TableOk i s t h p))

  deliver-Keeps : (i len : ℕ) (t : Tcp) → TableOk t → Keeps (deliver host i len t)
  unfolding deliver
  deliver-Keeps i len t h =
      if_elim Keeps _ (keeps t _ h)
        (conclude_recv-Keeps i len t _ h (take_out-SlotOk _ len _ (at-SlotOk t i h)))

  pub recv-Keeps : (fd : ℤ) (len : ℕ) (t : Tcp) → TableOk t → Keeps (recv host fd len t)
  unfolding recv
  recv-Keeps fd len t h = Option_elim Keeps (find_socket fd t) (keeps t _ h) (λ i e.
      if_elim Keeps _ (keeps t _ h) (deliver-Keeps i len _ (wait_data-TableOk i data_timeout t h)))

  pub close-Keeps : (fd : ℤ) (t : Tcp) → TableOk t → Keeps (close host fd t)
  unfolding close
  close-Keeps fd t h = Option_elim Keeps (find_socket fd t) (keeps t _ h) (λ i e. keeps _ _ (
      free-TableOk i _ (
        if_elim TableOk _
          (wait_closed-TableOk i close_timeout _ (
            send_segment-TableOk host i (flag_fin + flag_ack) [] _
              (put-TableOk i _ t h (at-SlotOk t i h))))
          h)))
