-- ===== src/Vfs/File/Contents.antt =====
-- What ramfs_write makes of the bytes of a file.
use utms.Base.{min}
use utms.Base.Int.{to_int}
use mathlib.Core.Path.{ap₂}
use utms.Base.{
  ℕ, ◌+◌, ◌-◌, ◌<◌, ◌≤◌, ◌≡◌, ◌∙◌, zero, arith, ap, sym, if_cases, if_elim, if◌then◌else◌, List,
  length, get_or, take, drop, replicate, overwrite, length-overwrite, length-replicate, length-take,
  length-drop, Bool, false, ltb, leb,
}
use native.Mathlib.Decide.{dec_lt}
use utms.Base.Bytes.{
  get_or-take, get_or-drop, get_or-replicate, get_or-overwrite_before, get_or-overwrite_behind,
  get_or-overwrite_in, same_elements,
}
use utms.Vfs.File.{File, Written, wrote, no_memory, read}

-- The block has `capacity` bytes, which hold the file.
pub record FileOk (f : File) : Type 0 where
  pub block : length f.data_bytes ≡ f.capacity
  pub fits : f.size ≤ f.capacity

-- The file as a function: 0 from its end on.
abbrev pub byte : File → ℕ → ℕ
byte f i = if ltb i f.size then get_or f.data_bytes i 0 else 0

-- What a write of `bytes`, not none of them, at an offset does: the file reaches to the last byte
-- written at least, holds the bytes there and what it held elsewhere, 0 in a gap; the result is their number as an `int`, and a read
-- gives the bytes with the same result. Or there was no memory to make the block larger.
pub data Wrote (has_memory : Bool) (f : File) (offset : ℕ) (bytes : List ℕ) : Written → Type 0 where
  stored :
      (f' : File)
      → FileOk f'
      → f'.size ≡ (if ltb f.size (offset + length bytes) then offset + length bytes else f.size)
      → ((k : ℕ) → k < length bytes → byte f' (offset + k) ≡ get_or bytes k 0)
      → ((i : ℕ) → i < offset → byte f' i ≡ byte f i)
      → ((i : ℕ) → offset + length bytes ≤ i → byte f' i ≡ byte f i)
      → read f' (length bytes) offset ≡ (bytes, to_int (length bytes))
      → Wrote has_memory f offset bytes (wrote f' (to_int (length bytes)))
  refused :
      has_memory ≡ false
      → f.capacity < offset + length bytes
      → Wrote has_memory f offset bytes no_memory

pub byte_in : (f : File) (i : ℕ) → i < f.size → byte f i ≡ get_or f.data_bytes i 0
byte_in f i lt = ground arith

pub byte_behind : (f : File) (i : ℕ) → f.size ≤ i → byte f i ≡ 0
byte_behind f i le = ground arith

module _ (f : File) (offset : ℕ) (bytes : List ℕ) (ok : FileOk f) (some_bytes : 0 < length bytes)
    (room : offset + length bytes ≤ f.capacity) where
  abbrev end : ℕ
  end = offset + length bytes

  abbrev cleared : List ℕ
  cleared = overwrite f.data_bytes f.size (replicate (offset - f.size) 0)

  abbrev pub after : File
  after = record f {
    size = if ltb f.size end then end else f.size;
    data_bytes = overwrite cleared offset bytes;
  }

  length-cleared : length cleared ≡ f.capacity
  length-cleared = length-overwrite f.data_bytes f.size (replicate (offset - f.size) 0) ∙ ok.block

  pub after-FileOk : FileOk after
  after-FileOk = record {
    block = length-overwrite cleared offset bytes ∙ length-cleared;
    fits = if_elim (λ n. n ≤ f.capacity) (ltb f.size end) room ok.fits;
  }

  size_end : end ≤ after.size
  size_end = ground arith

  size_old : f.size ≤ after.size
  size_old = ground arith

  pub written : (k : ℕ) → k < length bytes → byte after (offset + k) ≡ get_or bytes k 0
  written k lt =
      byte_in after (offset + k) (omega (arith, size_end))
      ∙ get_or-overwrite_in 0 cleared offset bytes k lt (omega (arith, length-cleared, room))

  -- Outside what is written: the old bytes, and zeros behind them.
  old_bytes : (i : ℕ) → i < f.size → get_or cleared i 0 ≡ byte f i
  old_bytes i lt =
      get_or-overwrite_before 0 f.data_bytes f.size (replicate (offset - f.size) 0) i lt
      ∙ sym (byte_in f i lt)

  gap : (k : ℕ) → f.size + k < offset → get_or cleared (f.size + k) 0 ≡ 0
  gap k lt =
      let zeros : length (replicate (offset - f.size) zero) ≡ offset - f.size =
        length-replicate (offset - f.size) zero in
      get_or-overwrite_in 0 f.data_bytes f.size (replicate (offset - f.size) 0) k
        (omega (arith, zeros)) (omega (arith, zeros, ok.block, room, ok.fits))
      ∙ get_or-replicate 0 (offset - f.size) k

  pub before : (i : ℕ) → i < offset → byte after i ≡ byte f i
  before i lt =
      byte_in after i (omega (arith, size_end))
      ∙ (get_or-overwrite_before 0 cleared offset bytes i lt ∙ elim (dec_lt i f.size) [
        | yes in_file ↦ old_bytes i in_file
        | no behind ↦
            ap (λ j. get_or cleared j 0) {x = i} {y = f.size + (i - f.size)} (omega arith)
            ∙ (gap (i - f.size) (omega arith) ∙ sym (byte_behind f i (omega arith)))
      ])

  pub behind : (i : ℕ) → end ≤ i → byte after i ≡ byte f i
  behind i le = elim (dec_lt i f.size) [
    | yes in_file ↦
        byte_in after i (omega (arith, size_old))
        ∙ (get_or-overwrite_behind 0 cleared offset bytes i le ∙ old_bytes i in_file)
    | no out ↦ byte_behind after i (ground arith) ∙ sym (byte_behind f i (omega arith))
  ]

  span : ℕ → List ℕ
  span n = take n (drop offset (overwrite cleared offset bytes))

  span-bytes : span (length bytes) ≡ bytes
  unfolding span
  span-bytes =
      let rest = drop offset (overwrite cleared offset bytes) in
      let long : length rest ≡ f.capacity - offset =
        length-drop offset (overwrite cleared offset bytes)
        ∙ ap (λ n. n - offset) (length-overwrite cleared offset bytes ∙ length-cleared) in
      let same : length (take (length bytes) rest) ≡ length bytes =
        omega (arith, length-take (length bytes) rest, long, room) in
      same_elements 0 (take (length bytes) rest) bytes same (λ i lt.
        get_or-take 0 (length bytes) rest i (omega (arith, same, lt))
        ∙ (get_or-drop 0 offset (overwrite cleared offset bytes) i
            ∙ get_or-overwrite_in 0 cleared offset bytes i (omega (arith, same, lt))
                (omega (arith, length-cleared, room))))

  pub read_back : read after (length bytes) offset ≡ (bytes, to_int (length bytes))
  unfolding read span
  read_back =
      let all : min (length bytes) (after.size - offset) ≡ length bytes = omega (arith, size_end) in
      if_cases (λ r. r ≡ (bytes, to_int (length bytes))) (leb after.size offset)
        (λ b. absurd (ground (arith, size_end)))
        (λ b. ap₂ (λ bs n. (bs, to_int n)) (ap span all ∙ span-bytes) all)
