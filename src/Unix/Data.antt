-- ===== src/Unix/Data.antt =====
-- `unix_send` and `unix_recv` of kernel/core/unix.c.
use utms.Base.{
  ℕ, zero, suc, ◌+◌, ◌-◌, ◌%◌, Bool, true, false, not, ◌||◌, List, [], ◌∷◌, Option, none, some,
  if◌then◌else◌, ◌==◌, ltb, leb, get_or, set, length, take, drop,
}
use utms.Base.Int.{ℤ}
use utms.Unix.State.{Sock, Unix, at, put, wakeup, sock_of, unix_buf_size}
use utms.Unix.Calls.{Result, failed, done, waiting, World}

-- The inner loop of `unix_send`: every byte of the chunk goes to the index `idx`.
unfoldable pub fill_cell : ℕ → List ℕ → List ℕ → List ℕ
fill_cell idx [] buf = buf
fill_cell idx (b ∷ bs) buf = fill_cell idx bs (set buf idx b)

-- A chunk that fits.
unfoldable pub copy_in : List ℕ → Sock → Sock
copy_in chunk s = record s {
  write_buf = fill_cell ((s.write_pos + s.write_len) % unix_buf_size) chunk s.write_buf;
  write_len = s.write_len + length chunk;
}

-- The wait of `unix_send` for space at the peer `j`: whether there is some, or a socket was closed.
unfoldable pub wait_space : World → ℕ → ℕ → ℕ → Unix → Unix × Option Bool
wait_space w i j zero u = (u, none)
wait_space w i j (suc left) u = elim (leb unix_buf_size (at u j).write_len) [
  | false ↦ (u, some true)
  | true ↦ elim ((at u j).closed || (at u i).closed) [
    | true ↦ (u, some false)
    | false ↦ wait_space w i j left (w.block j left u)
  ]
]

-- `written > 0 ? written : -1`
abbrev pub written_or : ℕ → Result
written_or zero = failed
written_or (suc n) = done (suc n)

-- The bytes of the next chunk.
abbrev pub chunk_of : ℕ → List ℕ → Unix → List ℕ
chunk_of j rest u = take (unix_buf_size - (at u j).write_len) rest

-- The outer loop of `unix_send`; a round copies a byte at least, so a fuel of the bytes left is
-- enough.
unfoldable pub send_loop : World → ℕ → ℕ → ℕ → ℕ → List ℕ → Unix → Unix × Result
send_loop w i j zero written rest u = (u, done written)
send_loop w i j (suc fuel) written [] u = (u, done written)
send_loop w i j (suc fuel) written (b ∷ bs) u =
    let (u1, room) = wait_space w i j w.patience u in
    let chunk = chunk_of j (b ∷ bs) u1 in
    elim room [
      | none ↦ (u1, waiting)
      | some has_room ↦ elim has_room [
        | false ↦ (u1, written_or written)
        | true ↦
            send_loop w i j fuel (written + length chunk) (drop (length chunk) (b ∷ bs))
              (wakeup j (put j (copy_in chunk (at u1 j)) u1))
      ]
    ]

-- `unix_send`
unfoldable pub send : World → ℤ → List ℕ → Unix → Unix × Result
send w fd bytes u = elim (sock_of fd u) [
  | none ↦ (u, failed)
  | some i ↦ if (at u i).closed || not (at u i).connected then (u, failed) else elim (at u i).peer [
    | none ↦ (u, failed)
    | some j ↦ if (at u j).closed then (u, failed) else send_loop w i j (length bytes) 0 bytes u
  ]
]

-- The wait of `unix_recv`: whether bytes came, or a socket was closed.
abbrev pub peer_closed : ℕ → Unix → Bool
peer_closed i u = elim (at u i).peer [ none ↦ false | some j ↦ (at u j).closed ]

unfoldable pub wait_bytes : World → ℕ → ℕ → Unix → Unix × Option Bool
wait_bytes w i zero u = (u, none)
wait_bytes w i (suc left) u = elim ((at u i).write_len == 0) [
  | false ↦ (u, some true)
  | true ↦ elim ((at u i).closed || peer_closed i u) [
    | true ↦ (u, some false)
    | false ↦ wait_bytes w i left (w.block i left u)
  ]
]

-- The loop of `unix_recv`: at most `len` bytes, one by one.
unfoldable pub copy_out : ℕ → Sock → List ℕ × Sock
copy_out zero s = ([], s)
copy_out (suc len) s =
    let rest =
      copy_out len
        (record s { write_pos = (s.write_pos + 1) % unix_buf_size; write_len = s.write_len - 1 }) in
    if ltb 0 s.write_len then (get_or s.write_buf s.write_pos 0 ∷ rest.0, rest.1) else ([], s)

unfoldable pub take_bytes : ℕ → ℕ → Unix → Unix × Result × List ℕ
take_bytes i len u =
    let (bytes, s) = copy_out len (at u i) in
    let u1 = put i s u in
    (
      elim s.peer [
        | none ↦ u1
        | some j ↦ if ltb s.write_len unix_buf_size then wakeup j u1 else u1
      ],
      done (length bytes),
      bytes,
    )

-- `unix_recv` into a buffer of `len` bytes, with the bytes that it copies.
unfoldable pub recv : World → ℤ → ℕ → Unix → Unix × Result × List ℕ
recv w fd len u = elim (sock_of fd u) [
  | none ↦ (u, failed, [])
  | some i ↦ if (at u i).closed then (u, failed, []) else after i (wait_bytes w i w.patience u)
]
  where
    after : ℕ → Unix × Option Bool → Unix × Result × List ℕ
    after i (u1, none) = (u1, waiting, [])
    after i (u1, some false) = (u1, done 0, [])
    after i (u1, some true) = take_bytes i len u1
