-- ===== src/Unix/Tests.antt =====
-- The theorems about local sockets at concrete inputs.
use utms.Base.{
  zero, suc, suc, false, ◌==◌, length-replicate, ◌<◌, ℕ, ◌+◌, ◌%◌, ◌≡◌, ◌≢◌, refl, arith, true,
  List, [], ◌∷◌, some, length, get_or,
}
use utms.Unix.State.{at, Unix, blank, unix_buf_size}
use utms.Base.Int.{pos}
use utms.Unix.Calls.{failed, create, close}
use utms.Unix.Data.{copy_in}
use utms.Unix.Cell.{last_byte, copy_in-one_cell}
use utms.Unix.Ids.{IsFull, create-close_failed}

-- "hi"
abbrev hi : List ℕ
hi = 104 ∷ 105 ∷ []

copy_in-one_cell_example :
    ((copy_in hi blank).write_len ≡ blank.write_len + length hi)
    × (get_or (copy_in hi blank).write_buf ((blank.write_pos + blank.write_len) % unix_buf_size) 0
        ≡ last_byte 104 (105 ∷ []))
    × ((j : ℕ)
        → (blank.write_pos + blank.write_len) % unix_buf_size ≢ j
        → get_or (copy_in hi blank).write_buf j 0 ≡ get_or blank.write_buf j 0)
copy_in-one_cell_example =
    copy_in-one_cell 104 (105 ∷ []) blank (length-replicate {A = ℕ} unix_buf_size 0)

-- A table of one socket, with its descriptor.
abbrev full : Unix
full = record {
  sockets = record blank { id = 1 } ∷ [];
  next_socket_id = 2;
  has_process = true;
  fds = record { used = true; is_unix = true; sock = some 0 } ∷ [];
  woken = [];
}

full-IsFull : IsFull full
full-IsFull = record { ids = given }
  where
    given : (j : ℕ) → j < 1 → ((at full j).id == 0) ≡ false
    given zero h = refl
    given (suc j) h = absurd (omega arith)

create-close_failed_example :
    IsFull (close (pos 0) full).0 × ((create (close (pos 0) full).0).1 ≡ failed)
create-close_failed_example = create-close_failed (pos 0) full full-IsFull
