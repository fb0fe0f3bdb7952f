-- ===== src/Net/Tcp/Fifo.antt =====
-- The receive ring as a queue of bytes: `tcp_handle_packet` appends, `tcp_recv` takes from the
-- front.
use utms.Base.{
  length-append, if_cases, true, ◌&&◌, ltb, ℕ, zero, suc, ◌+◌, ◌-◌, ◌≤◌, ◌<◌, ◌≡◌, refl, sym, ap,
  ◌∙◌, arith, List, [], ◌∷◌, ◌++◌, length, take, drop, overwrite, length-overwrite, length-take,
  length-drop, take-append-drop, min,
}
use mathlib.Core.List.{append-nil, append_assoc}
use mathlib.Core.Path.{ap₂}
use utms.Net.Tcp.State.{Socket}
use utms.Net.Tcp.Input.{store, space}
use utms.Net.Tcp.Calls.{consume, peek, take_out}
use utms.Net.Tcp.Ring.{RingOk, consume-RingOk}
use utms.Net.Tcp.Span.{
  span, step_by, step_by_cases, step_by-eq-mod, span-append, span-overwrite, span-eq-take-drop,
  length-span,
}

-- The bytes that the ring holds, the oldest first.
abbrev pub contents : Socket → List ℕ
contents s = span s.rcv_buf s.rcv_buf_size s.rcv_buf_head s.rcv_buf_count

-- The ring has its buffer.
pub record HasBuffer (s : Socket) : Type 0 where
  pub ring : RingOk s
  pub buffer : length s.rcv_buf ≡ s.rcv_buf_size

module _ (s : Socket) (h : HasBuffer s) (chunk : List ℕ) (fits : length chunk ≤ space s) where
  open s use {
    rcv_buf as buf, rcv_buf_size as size, rcv_buf_head as head, rcv_buf_tail as tail,
    rcv_buf_count as count,
  }

  -- The tail is where the next byte goes, when it does not stand at the end of the buffer.
  tail_lem : tail < size → tail ≡ step_by size head count
  tail_lem lt = omega (arith, h.ring, step_by_cases size head count h.ring.head_in h.ring.count_in)

  store_straight :
      tail + length chunk ≤ size
      → span (overwrite buf tail chunk) size head (count + length chunk) ≡ contents s ++ chunk
  store_straight le =
      span-overwrite chunk buf size head count tail h.buffer h.ring.head_in (omega arith) le
        (λ more. tail_lem (omega arith))

  -- The room before the end of the buffer.
  abbrev room : ℕ
  room = size - tail

  wrap_lem : size < tail + length chunk → count + room < size → 0 ≡ step_by size head (count + room)
  wrap_lem gt lt =
      omega (arith, h.ring, step_by_cases size head (count + room) h.ring.head_in (omega arith))

  first_piece :
      size < tail + length chunk
      → span (overwrite buf tail (take room chunk)) size head (count + room)
        ≡ contents s ++ take room chunk
  first_piece gt =
      let n : length (take room chunk) ≡ room = omega (arith, length-take {0} room chunk) in
      ap (λ k. span (overwrite buf tail (take room chunk)) size head (count + k)) (sym n)
      ∙ span-overwrite (take room chunk) buf size head count tail h.buffer h.ring.head_in
          (omega arith) (omega (arith, h.ring.tail_in)) (λ more. tail_lem (omega arith))

  store_wrapped :
      size < tail + length chunk
      → span
          (overwrite (overwrite buf tail (take room chunk)) 0 (drop room chunk))
          size
          head
          (count + length chunk)
        ≡ contents s ++ chunk
  store_wrapped gt =
      let piece : List ℕ = overwrite buf tail (take room chunk) in
      let n : length (drop room chunk) ≡ length chunk - room = length-drop room chunk in
      ap (λ k. span (overwrite piece 0 (drop room chunk)) size head k)
        (omega (arith, n, h.ring.tail_in))
      ∙ (span-overwrite (drop room chunk) piece size head (count + room) 0
            (length-overwrite buf tail (take room chunk) ∙ h.buffer) h.ring.head_in
            (omega (arith, n, h.ring.tail_in)) (omega (arith, n, h.ring.tail_in))
            (λ more. wrap_lem gt (omega (arith, n, h.ring.tail_in)))
          ∙ (ap (λ l. l ++ drop room chunk) (first_piece gt)
              ∙ (append_assoc (contents s) (take room chunk) (drop room chunk)
                  ∙ ap (λ l. contents s ++ l) (take-append-drop room chunk))))

-- A chunk that fits the free space of a well-formed ring is appended to the bytes held, also where
-- it goes round the end of the buffer.
pub contents-store :
    (s : Socket) (chunk : List ℕ)
    → HasBuffer s
    → length chunk ≤ space s
    → contents (store chunk s) ≡ contents s ++ chunk
unfolding store
contents-store s [] h fits = rw append-nil
contents-store s (b ∷ bs) h fits =
    ground (arith, store_straight s h (b ∷ bs) fits, store_wrapped s h (b ∷ bs) fits)

length-store : (s : Socket) (chunk : List ℕ) → length (store chunk s).rcv_buf ≡ length s.rcv_buf
unfolding store
length-store s chunk = ground (
  arith,
  length-overwrite s.rcv_buf s.rcv_buf_tail chunk,
  length-overwrite s.rcv_buf s.rcv_buf_tail (take (s.rcv_buf_size - s.rcv_buf_tail) chunk),
  length-overwrite
      (overwrite s.rcv_buf s.rcv_buf_tail (take (s.rcv_buf_size - s.rcv_buf_tail) chunk)) 0
      (drop (s.rcv_buf_size - s.rcv_buf_tail) chunk),
)

-- What is copied out is the front of the bytes held, and the rest stays.
module _ (s : Socket) (h : HasBuffer s) (n : ℕ) (le : n ≤ s.rcv_buf_count) where
  open s use {rcv_buf as buf, rcv_buf_size as size, rcv_buf_head as head, rcv_buf_count as count}

  peek_wrapped :
      size < head + n
      → span buf size head n ≡ take (size - head) (drop head buf) ++ take (n - (size - head)) buf
  peek_wrapped gt =
      let front : ℕ = size - head in
      let turn : step_by size head front ≡ 0 =
        omega (arith, step_by_cases size head front h.ring.head_in (omega arith), h.ring.head_in) in
      ap (λ k. span buf size head k) (omega (arith, h.ring.head_in))
      ∙ (span-append buf size head front (n - front)
          ∙ ap₂ ◌++◌
              (span-eq-take-drop front buf size head h.buffer (omega (arith, h.ring.head_in)))
              (ap (λ k. span buf size k (n - front)) turn
                ∙ span-eq-take-drop (n - front) buf size 0 h.buffer (omega (arith, h.ring))))

  peek-eq-span : peek n s ≡ span buf size head n
  unfolding peek
  peek-eq-span = ground (arith, span-eq-take-drop n buf size head h.buffer, peek_wrapped)

  contents-consume : contents s ≡ peek n s ++ contents (consume n s)
  unfolding consume
  contents-consume =
      ap (λ k. span buf size head k) (omega arith)
      ∙ (span-append buf size head n (count - n)
          ∙ ap₂ ◌++◌ (sym peek-eq-span) (
              ap (λ k. span buf size k (count - n))
                (step_by-eq-mod size head n h.ring.head_in (omega (arith, h.ring)))))

consume-HasBuffer :
    (s : Socket) → HasBuffer s → (n : ℕ) → n ≤ s.rcv_buf_count → HasBuffer (consume n s)
unfolding consume
consume-HasBuffer s h n le = record { ring = consume-RingOk n s h.ring le; buffer = h.buffer }

length-peek : (s : Socket) → HasBuffer s → (n : ℕ) → n ≤ s.rcv_buf_count → length (peek n s) ≡ n
length-peek s h n le =
    ap (λ l. length l) (peek-eq-span s h n le)
    ∙ length-span s.rcv_buf s.rcv_buf_size s.rcv_buf_head n

-- What the copying loop does to a socket.
record TakesFront (want : ℕ) (s : Socket) (r : List ℕ × Socket) : Type 0 where
  split : contents s ≡ r.0 ++ contents r.1
  size : length r.0 ≡ min s.rcv_buf_count want
  kept : HasBuffer r.1

stop :
    (want : ℕ) (s : Socket) → HasBuffer s → min s.rcv_buf_count want ≡ 0 → TakesFront want s ([], s)
stop want s h e = record { split = refl; size = sym e; kept = h }

take_round :
    (want : ℕ) (s : Socket) (h : HasBuffer s) (r : List ℕ × Socket)
    → TakesFront (want - min s.rcv_buf_count want) (consume (min s.rcv_buf_count want) s) r
    → TakesFront want s (peek (min s.rcv_buf_count want) s ++ r.0, r.1)
unfolding consume
take_round want s h r ih =
    let n : ℕ = min s.rcv_buf_count want in
    record {
      split =
          contents-consume s h n (omega arith)
          ∙ (ap (λ l. peek n s ++ l) ih.split ∙ sym (append_assoc (peek n s) r.0 (contents r.1)));
      size = omega (arith, length-append (peek n s) r.0, length-peek s h n (omega arith), ih.size);
      kept = ih.kept;
    }

fuel_left :
    (s : Socket) (fuel want : ℕ)
    → s.rcv_buf_count ≤ suc fuel
    → (ltb 0 s.rcv_buf_count && ltb 0 want) ≡ true
    → (consume (min s.rcv_buf_count want) s).rcv_buf_count ≤ fuel
unfolding consume
fuel_left s fuel want le go = ground arith

take_out-TakesFront :
    (fuel want : ℕ) (s : Socket)
    → HasBuffer s
    → s.rcv_buf_count ≤ fuel
    → TakesFront want s (take_out fuel want s)
unfolding take_out
take_out-TakesFront zero want s h le = stop want s h (omega arith)
take_out-TakesFront (suc fuel) want s h le =
    if_cases (TakesFront want s) (ltb 0 s.rcv_buf_count && ltb 0 want)
      (λ go. take_round want s h _ (
        take_out-TakesFront fuel _ _ (consume-HasBuffer s h _ (omega arith))
          (fuel_left s fuel want le go)))
      (λ done. stop want s h (ground arith))

-- On a well-formed ring the copying loop of `tcp_recv`, with the bytes held as its fuel, copies out
-- the oldest bytes, as many as there are and were asked for, and leaves the others in order in a
-- well-formed ring.
pub take_out-front :
    (want : ℕ) (s : Socket)
    → HasBuffer s
    → (contents s
        ≡ (take_out s.rcv_buf_count want s).0 ++ contents (take_out s.rcv_buf_count want s).1)
      × (length (take_out s.rcv_buf_count want s).0 ≡ min s.rcv_buf_count want)
      × HasBuffer (take_out s.rcv_buf_count want s).1
take_out-front want s h =
    let r = take_out-TakesFront s.rcv_buf_count want s h (omega arith) in (r.split, r.size, r.kept)
