-- ===== src/Vfs/File.antt =====
-- The contents of a file of ramfs, kernel/core/vfs.c: ramfs_read and ramfs_write. Whether kmalloc
-- has a block is an argument; a block is cleared before it is used.
pub mod Grow
pub mod Contents
pub mod Outcome
use utms.Base.Int.{ℤ, pos, to_int}
use utms.Base.{
  ℕ, zero, suc, ◌+◌, ◌-◌, ◌*◌, Bool, true, false, List, [], ◌∷◌, ◌++◌, Option, none, some,
  if◌then◌else◌, ◌==◌, ltb, leb, u64, length, take, drop, replicate, overwrite, min,
}

-- `size`, `capacity` and `data` of `vfs_node_t`, the block being empty where `data` is NULL.
pub record File : Type 0 where
  pub size : ℕ
  pub capacity : ℕ
  pub data_bytes : List ℕ

-- `ramfs_read` of a file: what it copies into the buffer, and its result.
unfoldable pub read : File → ℕ → ℕ → List ℕ × ℤ
read f size offset =
    let to_copy = min size (f.size - offset) in
    if leb f.size offset
    then ([], pos 0)
    else (take to_copy (drop offset f.data_bytes), to_int to_copy)

-- The loop that doubles the capacity, for so many rounds: `none` where it goes on.
unfoldable pub double_until : ℕ → ℕ → ℕ → Option ℕ
double_until zero cap end = none
double_until (suc rounds) cap end =
    let later = double_until rounds (u64 (cap * 2)) end in if ltb cap end then later else some cap

-- 64 rounds bring every capacity past the end, or to 0, where it stays.
abbrev pub max_rounds : ℕ
max_rounds = 64

-- How a write ends: with a result, which is the number of bytes as an `int`, with -1 for want of memory, with a store outside the block, or never.
pub data Written : Type 0 where
  wrote : File → ℤ → Written
  no_memory : Written
  fault : Written
  endless : Written

-- A block of so many bytes with the old contents.
unfoldable pub reallocated : ℕ → File → File
reallocated cap f = record f {
  capacity = cap;
  data_bytes = overwrite (replicate cap 0) 0 (take f.size f.data_bytes);
}

-- The gap is cleared and the bytes are stored.
unfoldable pub store : ℕ → List ℕ → File → Written
store offset bytes f =
    let end = offset + length bytes in
    let cleared = overwrite f.data_bytes f.size (replicate (offset - f.size) 0) in
    if ltb (length f.data_bytes) end
    then fault
    else wrote
        (record f {
          size = if ltb f.size (u64 end) then u64 end else f.size;
          data_bytes = overwrite cleared offset bytes;
        })
        (to_int (length bytes))

-- The bytes up to `end` get room first.
unfoldable pub grow_and_store : Bool → ℕ → ℕ → List ℕ → File → Written
grow_and_store has_memory end offset bytes f =
    let start = if f.capacity == 0 then 4096 else f.capacity in
    if ltb f.capacity end
    then elim (double_until max_rounds start end) [
      | none ↦ endless
      | some cap ↦ if has_memory then store offset bytes (reallocated cap f) else no_memory
    ]
    else store offset bytes f

-- `ramfs_write` of a file.
unfoldable pub write : Bool → ℕ → List ℕ → File → Written
write has_memory offset bytes f =
    if length bytes == 0
    then wrote f (pos 0)
    else grow_and_store has_memory (u64 (offset + length bytes)) offset bytes f
