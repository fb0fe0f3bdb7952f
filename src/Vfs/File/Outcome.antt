-- ===== src/Vfs/File/Outcome.antt =====
-- ramfs_write as a whole.
use utms.Vfs.File.{
  grow_and_store, File, Written, write, store, reallocated, double_until, max_rounds,
}
use utms.Base.{
  ℕ, ◌+◌, ◌<◌, ◌≤◌, ◌≡◌, ◌∙◌, ◌==◌, zero, arith, u64, ap, sym, if_cases, elim_some, if◌then◌else◌,
  List, length, get_or, take, replicate, overwrite, length-overwrite, length-replicate, length-take,
  refl, Bool, ltb,
}
use native.Mathlib.Decide.{dec_lt}
use utms.Base.Bytes.{get_or-take, get_or-overwrite_in}
use utms.Vfs.File.Grow.{double_until-enough}
use utms.Vfs.File.Contents.{
  FileOk, byte, byte_in, byte_behind, Wrote, stored, refused, after, after-FileOk, written, before,
  behind, read_back,
}

-- The old bytes in a larger block.
module _ (f : File) (cap : ℕ) (ok : FileOk f) (large : f.capacity ≤ cap) where
  old : length (take f.size f.data_bytes) ≡ f.size
  old = let b = ok.block in let l = ok.fits in omega (arith, length-take f.size f.data_bytes)

  reallocated-FileOk : FileOk (reallocated cap f)
  unfolding reallocated
  reallocated-FileOk = record {
    block =
        length-overwrite (replicate cap 0) 0 (take f.size f.data_bytes) ∙ length-replicate cap 0;
    fits = let l = ok.fits in omega arith;
  }

  copied : (i : ℕ) → i < f.size → get_or (reallocated cap f).data_bytes i 0 ≡ byte f i
  unfolding reallocated
  copied i lt =
      let room : 0 + length (take f.size f.data_bytes) ≤ length (replicate cap zero) =
        omega (arith, old, ok.fits, large, length-replicate cap zero) in
      ap (λ j. get_or (overwrite (replicate cap zero) 0 (take f.size f.data_bytes)) j 0) {x = i}
        {y = 0 + i} (omega arith)
      ∙ (get_or-overwrite_in 0 (replicate cap zero) 0 (take f.size f.data_bytes) i
            (omega (arith, old, lt)) room
          ∙ (get_or-take 0 f.size f.data_bytes i lt ∙ sym (byte_in f i lt)))

  byte-reallocated : (i : ℕ) → byte (reallocated cap f) i ≡ byte f i
  unfolding reallocated
  byte-reallocated i = elim (dec_lt i f.size) [
    | yes lt ↦ byte_in (reallocated cap f) i lt ∙ copied i lt
    | no ge ↦ byte_behind (reallocated cap f) i (omega arith) ∙ sym (byte_behind f i (omega arith))
  ]

store-Wrote :
    (has_memory : Bool) (f g : File) (offset : ℕ) (bytes : List ℕ)
    → FileOk g
    → 0 < length bytes
    → offset + length bytes ≤ g.capacity
    → offset + length bytes < 18446744073709551616
    → g.size ≡ f.size
    → ((i : ℕ) → byte g i ≡ byte f i)
    → Wrote has_memory f offset bytes (store offset bytes g)
unfolding store
store-Wrote has_memory f g offset bytes ok pos room small same_size same =
    let wraps : u64 (offset + length bytes) ≡ offset + length bytes = omega arith in
    rw wraps (
      if_cases (Wrote has_memory f offset bytes) (ltb (length g.data_bytes) (offset + length bytes))
        (λ b. let l = ok.block in absurd (ground arith))
        (λ b.
          stored (after g offset bytes ok pos room) (after-FileOk g offset bytes ok pos room)
            (ap (λ n. if ltb n (offset + length bytes) then offset + length bytes else n) same_size)
            (written g offset bytes ok pos room)
            (λ i lt. before g offset bytes ok pos room i lt ∙ same i)
            (λ i le. behind g offset bytes ok pos room i le ∙ same i)
            (read_back g offset bytes ok pos room)))

room-reallocated : (cap : ℕ) (f : File) (n : ℕ) → n ≤ cap → n ≤ (reallocated cap f).capacity
unfolding reallocated
room-reallocated cap f n le = le

size-reallocated : (cap : ℕ) (f : File) → (reallocated cap f).size ≡ f.size
unfolding reallocated
size-reallocated cap f = refl

grow_and_store-Wrote :
    (has_memory : Bool) (offset : ℕ) (bytes : List ℕ) (f : File)
    → FileOk f
    → 0 < length bytes
    → offset + length bytes ≤ 9223372036854775808
    → Wrote has_memory f offset bytes
        (grow_and_store has_memory (offset + length bytes) offset bytes f)
unfolding grow_and_store
grow_and_store-Wrote has_memory offset bytes f ok pos le =
    let P : Written → Type 0 = Wrote has_memory f offset bytes in
    let start = if f.capacity == 0 then 4096 else f.capacity in
    let (cap, e, large) = double_until-enough start (offset + length bytes) (ground arith) le in
    if_cases P (ltb f.capacity (offset + length bytes))
      (λ l.
        let more : f.capacity ≤ cap = ground arith in
        elim_some P (double_until max_rounds start (offset + length bytes)) _ _ e (
          if_cases P has_memory
            (λ m.
              store-Wrote has_memory f (reallocated cap f) offset bytes
                (reallocated-FileOk f cap ok more) pos (room-reallocated cap f _ large)
                (omega arith) (size-reallocated cap f) (byte-reallocated f cap ok more))
            (λ m. refused m (ground arith))))
      (λ l.
        store-Wrote has_memory f f offset bytes ok pos (ground arith) (omega arith) refl
          (λ i. refl))

-- For a file whose block is as large as it says and holds it, and a write of at least one byte that
-- ends at 2^63 at most: ramfs_write ends, never stores outside the block, and stores the bytes, with
-- the other bytes of the file as they were and zeros between its old end and the offset; its result
-- is the number of bytes converted to `int`, and a read of as many bytes then gives them back with
-- the same result. Or it stores nothing and gives -1 for want of memory, which happens only when
-- the block is too small and there is none.
pub write-Wrote :
    (has_memory : Bool) (offset : ℕ) (bytes : List ℕ) (f : File)
    → FileOk f
    → 0 < length bytes
    → offset + length bytes ≤ 9223372036854775808
    → Wrote has_memory f offset bytes (write has_memory offset bytes f)
unfolding write
write-Wrote has_memory offset bytes f ok pos le =
    let wraps : u64 (offset + length bytes) ≡ offset + length bytes = omega arith in
    if_cases (Wrote has_memory f offset bytes) (length bytes == 0) (λ b. absurd (ground arith))
      (λ b. rw wraps (grow_and_store-Wrote has_memory offset bytes f ok pos le))
