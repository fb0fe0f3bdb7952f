-- ===== src/Unix/Cell.antt =====
-- What `unix_send` leaves of a chunk.
use utms.Base.{
  ℕ, ◌+◌, ◌%◌, ◌<◌, ◌≡◌, ◌≢◌, refl, ◌∙◌, arith, List, [], ◌∷◌, length, get_or, set, get_or-set_self,
  get_or-set_ne, length-set,
}
use utms.Unix.State.{Sock, unix_buf_size}
use utms.Unix.Data.{fill_cell, copy_in}

-- The last byte of a chunk that is not empty.
pub last_byte : ℕ → List ℕ → ℕ
last_byte b [] = b
last_byte b (c ∷ cs) = last_byte c cs

fill_cell-ne :
    (idx j : ℕ) (bs buf : List ℕ) → idx ≢ j → get_or (fill_cell idx bs buf) j 0 ≡ get_or buf j 0
unfolding fill_cell
fill_cell-ne idx j [] buf ne = refl
fill_cell-ne idx j (b ∷ bs) buf ne =
    fill_cell-ne idx j bs (set buf idx b) ne ∙ get_or-set_ne buf idx j b 0 ne

fill_cell_self :
    (idx b : ℕ) (bs buf : List ℕ)
    → idx < length buf
    → get_or (fill_cell idx (b ∷ bs) buf) idx 0 ≡ last_byte b bs
unfolding fill_cell last_byte
fill_cell_self idx b [] buf h = get_or-set_self buf idx b 0 h
fill_cell_self idx b (c ∷ cs) buf h =
    fill_cell_self idx c cs (set buf idx b) (omega (arith, h, length-set buf idx b))

-- A chunk that is not empty, copied into a ring with its 4096 bytes, counts with its full length,
-- but only one cell of the ring changes: it holds the last byte of the chunk.
pub copy_in-one_cell :
    (b : ℕ) (bs : List ℕ) (s : Sock)
    → length s.write_buf ≡ unix_buf_size
    → ((copy_in (b ∷ bs) s).write_len ≡ s.write_len + length (b ∷ bs))
      × (get_or (copy_in (b ∷ bs) s).write_buf ((s.write_pos + s.write_len) % unix_buf_size) 0
          ≡ last_byte b bs)
      × ((j : ℕ)
          → (s.write_pos + s.write_len) % unix_buf_size ≢ j
          → get_or (copy_in (b ∷ bs) s).write_buf j 0 ≡ get_or s.write_buf j 0)
unfolding copy_in
copy_in-one_cell b bs s h = (
  refl,
  fill_cell_self ((s.write_pos + s.write_len) % unix_buf_size) b bs s.write_buf (omega (arith, h)),
  λ j ne. fill_cell-ne ((s.write_pos + s.write_len) % unix_buf_size) j (b ∷ bs) s.write_buf ne,
)
