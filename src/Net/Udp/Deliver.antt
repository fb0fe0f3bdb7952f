-- ===== src/Net/Udp/Deliver.antt =====
-- Where `udp_handle_packet` puts a datagram.
use utms.Base.{◌⊎◌}
use utms.Base.{Option_cases}
use utms.Base.{◌≤◌, find_index_complete, inl, inr, Bool-cases}
use utms.Base.Int.{pos, negsuc}
use utms.Base.{
  find_index_sound, ◌==◌, ◌&&◌, length-set, arith, if_cases, Option, none, some, find_index_sound,
  Bool, false, ◌||◌, ltb, ==_iff, replicate, set, find_index, ℕ, ◌-◌, ◌<◌, ◌≡◌, ◌≢◌, refl, ap, ◌∙◌,
  true, List, [], ◌∷◌, ◌++◌, length, take, drop, get_or-set_self, get_or-set_ne, load16,
}
use utms.Base.Int.{to_size, ℤ}
use utms.Net.State.{Env, port_site}
use utms.Net.Udp.{
  deliver, handle_packet, store, Port, at, free_port, Handled, dropped, stored, fault, waiting,
  udp_hdr_size, exceeds,
}
use utms.Net.Endian.{ntohs}

-- The port that a datagram names, and the bytes that its length field covers, less the header.
abbrev pub dst_port : List ℕ → ℕ
dst_port pkt = ntohs (load16 pkt 2)

abbrev pub bytes_of : List ℕ → List ℕ
bytes_of pkt = take (ntohs (load16 pkt 4) - udp_hdr_size) (drop udp_hdr_size pkt)

-- What storing `bytes` at port `i` does.
pub record StoredAt (i : ℕ) (bytes : List ℕ) (socks : List Port) (socks' : List Port) : Type 0 where
  pub waits : waiting (at socks' i) ≡ bytes
  pub others : (j : ℕ) → i ≢ j → at socks' j ≡ at socks j

-- The length field covers the header of eight bytes and at most what was received.
abbrev pub LengthOk : List ℕ → ℤ → Type 0
LengthOk pkt len =
    (n : ℕ) × (len ≡ pos n) × (udp_hdr_size ≤ ntohs (load16 pkt 4)) × (ntohs (load16 pkt 4) ≤ n)

-- The port in slot `i` is in use and has the destination's number.
pub record Owns (i : ℕ) (pkt : List ℕ) (socks : List Port) : Type 0 where
  pub slot : i < length socks
  pub is_used : (at socks i).used ≡ true
  pub is_dst : (at socks i).port ≡ dst_port pkt

-- What becomes of a datagram, and why: it is malformed; no port in use has its number; its port's
-- buffer is too small and there is no memory for another; its port has no buffer at all though
-- there are bytes; or its bytes wait at its port.
pub data Outcome (env : Env) (pkt : List ℕ) (len : ℤ) (socks : List Port) : Handled → Type 0 where
  malformed : ¬ LengthOk pkt len → Outcome env pkt len socks dropped
  no_port : LengthOk pkt len → ((i : ℕ) → ¬ Owns i pkt socks) → Outcome env pkt len socks dropped
  no_memory :
      (i : ℕ)
      → LengthOk pkt len
      → Owns i pkt socks
      → (at socks i).cap < length (bytes_of pkt)
      → env.alloc port_site (length (bytes_of pkt)) ≡ false
      → Outcome env pkt len socks dropped
  no_buffer :
      (i : ℕ)
      → LengthOk pkt len
      → Owns i pkt socks
      → (at socks i).buf ≡ none
      → 0 < length (bytes_of pkt)
      → length (bytes_of pkt) ≤ (at socks i).cap
      → Outcome env pkt len socks fault
  arrived :
      {i : ℕ} {socks' : List Port}
      → LengthOk pkt len
      → Owns i pkt socks
      → (length (bytes_of pkt) ≤ (at socks i).cap)
        ⊎ (env.alloc port_site (length (bytes_of pkt)) ≡ true)
      → StoredAt i (bytes_of pkt) socks socks'
      → Outcome env pkt len socks (stored i socks')

take-append_length : (xs ys : List ℕ) → take (length xs) (xs ++ ys) ≡ xs
take-append_length [] ys = refl
take-append_length (x ∷ xs) ys = ap (λ l. x ∷ l) (take-append_length xs ys)

put-StoredAt :
    (i : ℕ) (bytes : List ℕ) (p : Port) (socks : List Port)
    → i < length socks
    → waiting p ≡ bytes
    → StoredAt i bytes socks (set socks i p)
put-StoredAt i bytes p socks lt e = record {
  waits = ap waiting (get_or-set_self socks i p free_port lt) ∙ e;
  others = λ j ne. get_or-set_ne socks i j p free_port ne;
}

module _ (env : Env) (pkt : List ℕ) (len : ℤ) (i : ℕ) (socks : List Port) (ok : LengthOk pkt len)
    (owns : Owns i pkt socks) where
  no_bytes : (bytes : List ℕ) → (length bytes == 0) ≡ true → [] ≡ bytes
  no_bytes [] e = refl
  no_bytes (b ∷ bs) e = absurd (omega (arith, (==_iff (length (b ∷ bs)) 0).0 e))

  -- A copy into a buffer, in a table that is `socks` but for the port `i`.
  store-Outcome-some :
      (b : List ℕ) (base : List Port)
      → (length (bytes_of pkt) ≤ (at socks i).cap)
        ⊎ (env.alloc port_site (length (bytes_of pkt)) ≡ true)
      → i < length base
      → ((j : ℕ) → i ≢ j → at base j ≡ at socks j)
      → Outcome env pkt len socks (store i (bytes_of pkt) (some b) base)
  unfolding store
  store-Outcome-some b base room in_base agree =
      let p : Port = record (at base i) {
        buf = some (bytes_of pkt ++ drop (length (bytes_of pkt)) b);
        len = length (bytes_of pkt);
      } in
      let s =
        put-StoredAt i (bytes_of pkt) p base in_base
          (take-append_length (bytes_of pkt) (drop (length (bytes_of pkt)) b)) in
      arrived ok owns room (record { waits = s.waits; others = λ j ne. s.others j ne ∙ agree j ne })

  store-Outcome :
      (o : Option (List ℕ))
      → (at socks i).buf ≡ o
      → length (bytes_of pkt) ≤ (at socks i).cap
      → Outcome env pkt len socks (store i (bytes_of pkt) o socks)
  unfolding store
  store-Outcome none e fits =
      if_cases (Outcome env pkt len socks) (length (bytes_of pkt) == 0)
        (λ z. arrived ok owns (inl fits) (
          put-StoredAt i (bytes_of pkt) (record (at socks i) { len = 0 }) socks owns.slot
            (ap (λ o. elim o [ none ↦ [] | some b ↦ take 0 b ]) e ∙ no_bytes (bytes_of pkt) z)))
        (λ z. no_buffer i ok owns e (ground arith) fits)
  store-Outcome (some b) e fits = store-Outcome-some b socks (inl fits) owns.slot (λ j ne. refl)

  deliver-Outcome : Outcome env pkt len socks (deliver env i (bytes_of pkt) socks)
  unfolding deliver
  deliver-Outcome =
      let n = length (bytes_of pkt) in
      let p : Port = record (at socks i) { cap = n } in
      if_cases (Outcome env pkt len socks) (ltb (at socks i).cap n)
        (λ small.
          if_cases (Outcome env pkt len socks) (env.alloc port_site n)
            (λ m.
              store-Outcome-some (replicate n 0) (set socks i p) (inr m)
                (let slot = owns.slot in omega (arith, length-set socks i p))
                (λ j ne. get_or-set_ne socks i j p free_port ne))
            (λ m. no_memory i ok owns (ground arith) m))
        (λ large. store-Outcome (at socks i).buf refl (ground arith))

both : (a b : Bool) → (a && b) ≡ true → (a ≡ true) × (b ≡ true)
both true b e = (refl, e)
both false b e = cc

-- The test of a port, `wants`, and what it says.
abbrev wants : List ℕ → Port → Bool
wants pkt p = p.used && p.port == dst_port pkt

no_owner :
    (pkt : List ℕ) (socks : List Port)
    → find_index (wants pkt) socks ≡ none
    → (i : ℕ) → ¬ Owns i pkt socks
no_owner pkt socks e i o =
    let miss = find_index_complete (wants pkt) socks free_port i e o.slot in
    let hit : wants pkt (at socks i) ≡ true = rw (o.is_used, o.is_dst) (is_self (dst_port pkt)) in
    cc
  where
    is_self : (n : ℕ) → (n == n) ≡ true
    is_self n = (==_iff n n).1 refl

small_size : (pkt : List ℕ) (len : ℤ) → to_size len < 8 → ¬ LengthOk pkt len
small_size pkt len lt (n, e, covers, within) = let q : n < 8 = rw e at lt in omega arith

-- An `int` that a 16-bit number does not exceed is not negative.
length_cases :
    (pkt : List ℕ) (len : ℤ)
    → udp_hdr_size ≤ ntohs (load16 pkt 4)
    → exceeds (ntohs (load16 pkt 4)) len ≡ false
    → LengthOk pkt len
length_cases pkt (pos n) le e = (n, refl, le, ground arith)
length_cases pkt (negsuc n) le e = cc

exceeds-not_ok :
    (pkt : List ℕ) (len : ℤ) → exceeds (ntohs (load16 pkt 4)) len ≡ true → ¬ LengthOk pkt len
exceeds-not_ok pkt (pos m) t (n, e, covers, within) = ground arith
exceeds-not_ok pkt (negsuc m) t (n, e, covers, within) = cc

-- A datagram is dropped only when its length field does not cover its header or is more than what
-- was received, when no port in use has its number, or when the buffer of a port with its number is
-- too small and there is no memory for another; it is copied through a NULL pointer only when such a
-- port has room by its capacity but no buffer, and there are bytes. Else the length field is right,
-- there is room, or memory for it, for the bytes that it covers behind the header, and they are what
-- waits afterwards at a port in use of the datagram's destination number, while no other port has
-- changed.
pub handle_packet-Outcome :
    (env : Env) (pkt : List ℕ) (len : ℤ) (socks : List Port)
    → Outcome env pkt len socks (handle_packet env pkt len socks)
unfolding handle_packet
handle_packet-Outcome env pkt len socks =
    let P = Outcome env pkt len socks in
    let field = ntohs (load16 pkt 4) in
    if_cases P (ltb (to_size len) udp_hdr_size) (λ a. malformed (small_size pkt len (ground arith)))
      (λ a.
        if_cases P (ltb field udp_hdr_size || exceeds field len)
          (λ b. malformed (λ k.
            let c = k.2 in
            elim (Bool-cases (exceeds field len)) [
              | inl t ↦ exceeds-not_ok pkt len t k
              | inr f ↦ ground arith
            ]))
          (λ b.
            let ok = length_cases pkt len (ground arith) (ground arith) in
            Option_cases P (find_index (wants pkt) socks) (λ e. no_port ok (no_owner pkt socks e))
              (λ i e.
                let (slot, hit) = find_index_sound (wants pkt) socks free_port e in
                let (u, d) = both (at socks i).used ((at socks i).port == dst_port pkt) hit in
                deliver-Outcome env pkt len i socks ok (record {
                  slot = slot;
                  is_used = u;
                  is_dst = (==_iff (at socks i).port (dst_port pkt)).0 d;
                }))))
