-- ===== src/Unix/Ids.antt =====
-- The numbers of the sockets: a table that is full stays full.
use utms.Base.{
  ℕ, ◌<◌, ◌≡◌, refl, true, false, Option, none, some, length, length-set, get_or-set-keeps,
  find_index_sound, Option-cases, Option_elim, elim_none, ◌==◌, ap, ◌∙◌, sym, inl, inr,
}
use utms.Base.Int.{ℤ, pos, negsuc}
use utms.Unix.State.{Sock, Unix, at, put, blank, find_free, alloc_socket, sock_of}
use utms.Unix.Calls.{Result, failed, create, create_from, part, shut, close}

-- Every slot of the table has a number, so that none counts as free.
pub record IsFull (u : Unix) : Type 0 where
  pub ids : (j : ℕ) → j < length u.sockets → ((at u j).id == 0) ≡ false

full-find_free : (u : Unix) → IsFull u → find_free u ≡ none
unfolding find_free
full-find_free u h = elim (Option-cases (find_free u)) [
  | inl e ↦ e
  | inr (i, e) ↦
      let (lt, zero) = find_index_sound (λ (s : Sock). s.id == 0) u.sockets blank e in
      absurd (clash (sym zero ∙ h.ids i lt))
]
  where
    clash : true ≡ false → ⊥
    clash e = cc

full-create : (u : Unix) → IsFull u → (create u).1 ≡ failed
unfolding create alloc_socket create_from
full-create u h =
    elim_none (λ r. (create_from r).1 ≡ failed) (find_free u) _ _ (full-find_free u h) refl

put-IsFull : (i : ℕ) (s : Sock) (u : Unix) → s.id ≡ (at u i).id → IsFull u → IsFull (put i s u)
put-IsFull i s u e h = record {
  ids = λ j lt.
      ap (λ n. n == 0) (get_or-set-keeps (λ (x : Sock). x.id) u.sockets i j s blank e)
      ∙ h.ids j (rw (length-set u.sockets i s) at lt);
}

part-IsFull : (o : Option ℕ) (u : Unix) → IsFull u → IsFull (part o u)
unfolding part
part-IsFull none u h = h
part-IsFull (some j) u h = record {
  ids = (put-IsFull j (record (at u j) { peer = none }) u refl h).ids;
}

shut-IsFull : (i : ℕ) (u : Unix) → IsFull u → IsFull (shut i u)
unfolding shut
shut-IsFull i u h =
    part-IsFull _ _
      (record { ids = (put-IsFull i (record (at u i) { closed = true }) u refl h).ids })

close-IsFull : (fd : ℤ) (u : Unix) → IsFull u → IsFull (close fd u).0
unfolding close
close-IsFull (negsuc n) u h = h
close-IsFull (pos fd) u h =
    Option_elim (λ (r : Unix × Result). IsFull r.0) (sock_of (pos fd) u) h
      (λ i e. record { ids = (shut-IsFull i u h).ids })

-- When all sockets of the table have been given out, closing any of them frees none: after
-- `unix_close` on any descriptor, `unix_socket_create` still gives -1.
pub create-close_failed :
    (fd : ℤ) (u : Unix) → IsFull u → IsFull (close fd u).0 × ((create (close fd u).0).1 ≡ failed)
create-close_failed fd u h = let c = close-IsFull fd u h in (c, full-create (close fd u).0 c)
