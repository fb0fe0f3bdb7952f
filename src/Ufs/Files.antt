-- ===== src/Ufs/Files.antt =====
-- The contents of files in kernel/fs/ufs.c: ufs_vfs_read, ufs_vfs_write and ufs_vfs_readdir. The
-- node is given by its inode number and by whether it has the type that the call asks for.
pub mod Contents
use utms.Base.Int.{ℤ, pos, to_int}
use utms.Base.{
  ℕ, zero, suc, ◌+◌, ◌-◌, ◌*◌, ◌/◌, ◌%◌, Bool, false, not, ◌&&◌, ◌||◌, List, [], ◌∷◌, ◌++◌, Option,
  none, some, if◌then◌else◌, ◌==◌, leb, ltb, u32, sub32, length, take, drop, min,
}
use utms.Ufs.{
  Inode, Dirent, Layout, Mount, block_size, dirent_size, dirents_per_block, read_block, write_block,
  read_inode, write_inode,
}
use utms.Ufs.Extents.{get_block, append_block}
use utms.Ufs.Alloc.{alloc_block, free_block}
use utms.Ufs.Dir.{blocks_of_size, is_free}
use utms.Ufs.Calls.{is_directory}

module _ {B : Type 0} ⦃layout : Layout B⦄ where
  -- The loop of ufs_vfs_read: `left` bytes from place `off` of block `i` on. Each round copies a
  -- byte at least, so `left` rounds are enough.
  unfoldable pub read_loop : Mount B → Inode → ℕ → ℕ → ℕ → ℕ → List ℕ
  read_loop m inode zero i off left = []
  read_loop m inode (suc rounds) i off left =
      let b = get_block inode.extents i in
      let chunk = min (block_size - off) left in
      let rest = read_loop m inode rounds (u32 (i + 1)) 0 (left - chunk) in
      if (left == 0) || (b == 0) then [] else elim (read_block m b) [
        | none ↦ []
        | some block ↦ take chunk (drop off (layout.bytes_of block)) ++ rest
      ]

  -- `ufs_vfs_read`: the bytes that are copied, and their number as an `int`; `none` is -1.
  unfoldable pub read : ℕ → Bool → ℕ → ℕ → Mount B → Option (List ℕ × ℤ)
  unfolding read_loop
  read ino is_file size offset m = elim (read_inode m ino) [
    | none ↦ none
    | some inode ↦
        let n = min size (inode.size - offset) in
        let copied = read_loop m inode n (u32 (offset / block_size)) (offset % block_size) n in
        if not (m.mounted && is_file)
        then none
        else if leb inode.size offset
        then some ([], pos 0)
        else some (copied, to_int (length copied))
  ]

  -- The block of an index in ufs_vfs_write, a new one where the file has none.
  unfoldable pub block_for : ℕ → Inode → Mount B → Mount B × Option (Inode × ℕ)
  block_for i inode m =
      let b = get_block inode.extents i in
      let (m1, nb) = alloc_block m in
      if not (b == 0)
      then (m, some (inode, b))
      else if nb == 0
      then (m1, none)
      else elim (append_block inode.extents nb) [
        | none ↦ (free_block nb m1, none)
        | some es ↦ (m1, some (record inode { extents = es }, nb))
      ]

  -- The loop of ufs_vfs_write, with the bytes that are left: the inode, and how many are written.
  unfoldable pub write_loop : ℕ → ℕ → ℕ → List ℕ → Inode → Mount B → Mount B × Inode × ℕ
  unfolding block_for
  write_loop zero i off bytes inode m = (m, inode, 0)
  write_loop (suc rounds) i off bytes inode m =
      let chunk = min (block_size - off) (length bytes) in
      let (m1, got) = block_for i inode m in
      if length bytes == 0 then (m, inode, 0) else elim got [
        | none ↦ (m1, inode, 0)
        | some (inode1, b) ↦ elim (read_block m1 b) [
          | none ↦ (m1, inode1, 0)
          | some block ↦
              let (m2, ok) = write_block b (layout.put_bytes off (take chunk bytes) block) m1 in
              let (m3, inode3, n) =
                write_loop rounds (u32 (i + 1)) 0 (drop chunk bytes) inode1 m2 in
              if ok then (m3, inode3, chunk + n) else (m2, inode1, 0)
        ]
      ]

  -- `ufs_vfs_write`: how many bytes are written, as an `int`, and the node's new size if the file
  -- has grown;
  -- `none` is -1.
  unfoldable pub write : ℕ → ℕ → Bool → List ℕ → ℕ → Mount B → Mount B × Option (ℤ × Option ℕ)
  unfolding write_loop
  write now ino is_file bytes offset m = elim (read_inode m ino) [
    | none ↦ (m, none)
    | some inode ↦
        let (m1, inode1, n) =
          write_loop (length bytes) (u32 (offset / block_size)) (offset % block_size) bytes inode
            m in
        let size = u32 (offset + n) in
        let grown = record inode1 { size = size; blocks = u32 (size + 511) / 512; mtime = now } in
        if not (m.mounted && is_file)
        then (m, none)
        else if ltb inode1.size (offset + n)
        then ((write_inode ino grown m1).0, some (to_int n, some size))
        else (m1, some (to_int n, none))
  ]

  -- What ufs_vfs_readdir tells of one entry: its name, whether it is a directory, its size.
  abbrev pub described : Mount B → Dirent → List ℕ × Bool × ℕ
  described m d = elim (read_inode m d.inode) [
    | none ↦ (d.name, false, 0)
    | some child ↦ (d.name, is_directory child, child.size)
  ]

  -- The entries of a block that are listed, from place `j` on.
  unfoldable pub list_slots : Mount B → B → ℕ → ℕ → List (List ℕ × Bool × ℕ)
  list_slots m block zero j = []
  list_slots m block (suc left) j =
      let d = layout.dirent_at j block in
      let rest = list_slots m block left (suc j) in
      if is_free d || (d.name_len == 0) then rest else described m d ∷ rest

  -- The blocks from index `i` on; of the last one as many entries as the size has room for.
  unfoldable pub list_blocks : Mount B → Inode → ℕ → ℕ → List (List ℕ × Bool × ℕ)
  unfolding list_slots
  list_blocks m dir zero i = []
  list_blocks m dir (suc left) i =
      let b = get_block dir.extents i in
      let slots =
        if left == 0 then sub32 dir.size (i * block_size) / dirent_size else dirents_per_block in
      let rest = list_blocks m dir left (suc i) in
      if b == 0
      then rest
      else elim (read_block m b) [ none ↦ rest | some block ↦ list_slots m block slots 0 ++ rest ]

  -- `ufs_vfs_readdir`: at most `max` entries; `none` is -1.
  unfoldable pub readdir : ℕ → Bool → ℕ → Mount B → Option (List (List ℕ × Bool × ℕ))
  unfolding list_blocks
  readdir ino is_dir max m = elim (read_inode m ino) [
    | none ↦ none
    | some dir ↦
        if m.mounted && is_dir
        then some (take max (list_blocks m dir (blocks_of_size dir.size) 0))
        else none
  ]
