-- ===== src/Ufs/Dir.antt =====
-- Directories of kernel/fs/ufs.c: ufs_find_in_dir, ufs_add_to_dir and ufs_remove_from_dir. A
-- directory is scanned block by block, as many as its size says.
pub mod Scan
pub mod Store
pub mod Place
pub mod Found
use utms.Base.{
  ℕ, zero, suc, ◌+◌, ◌/◌, Bool, true, false, not, ◌&&◌, List, [], Option, none, some, if◌then◌else◌,
  ◌==◌, u32, sub32, length, take,
}
use utms.Vfs.Dir.{same_name}
use utms.Ufs.{
  Inode, Dirent, Layout, Mount, block_size, dirent_size, dirents_per_block, read_block, write_block,
  read_inode, write_inode,
}
use utms.Ufs.Extents.{get_block, append_block}
use utms.Ufs.Alloc.{alloc_block, free_block}

-- `(dir.size + UFS_BLOCK_SIZE - 1) / UFS_BLOCK_SIZE`
abbrev pub blocks_of_size : ℕ → ℕ
blocks_of_size size = u32 (size + 4095) / block_size

-- An entry in use with the name; a free entry.
abbrev pub is_named : List ℕ → Dirent → Bool
is_named name d = not (d.inode == 0) && same_name d.name name

abbrev pub is_free : Dirent → Bool
is_free d = d.inode == 0

-- The entry of a new name, of at most 55 characters.
abbrev pub entry : ℕ → ℕ → List ℕ → Dirent
entry ino type name = record {
  inode = ino;
  type = type;
  name_len = length (take 55 name);
  name = take 55 name;
}

module _ {B : Type 0} ⦃layout : Layout B⦄ where
  -- The first entry of a block, from `j` on, that passes a test.
  unfoldable pub find_slot : (Dirent → Bool) → B → ℕ → ℕ → Option ℕ
  find_slot p block zero j = none
  find_slot p block (suc left) j =
      let later = find_slot p block left (suc j) in
      if p (layout.dirent_at j block) then some j else later

  -- The same in the blocks of a directory, from index `i` on: the block and the place in it.
  unfoldable pub find_entry : (Dirent → Bool) → Mount B → Inode → ℕ → ℕ → Option (ℕ × ℕ)
  unfolding find_slot
  find_entry p m dir zero i = none
  find_entry p m dir (suc left) i =
      let later = find_entry p m dir left (suc i) in
      let b = get_block dir.extents i in
      if b == 0 then later else elim (read_block m b) [
        | none ↦ later
        | some block ↦ elim (find_slot p block dirents_per_block 0) [
          | none ↦ later
          | some j ↦ some (b, j)
        ]
      ]

  abbrev pub dirent_of : Mount B → ℕ × ℕ → Dirent
  dirent_of m (b, j) = layout.dirent_at j (m.device b)

  -- A store of one entry.
  abbrev pub put_entry : ℕ × ℕ → Dirent → Mount B → Mount B
  put_entry (b, j) d m = (write_block b (layout.put_dirent j d (m.device b)) m).0

  -- `ufs_find_in_dir`: the number of the inode.
  unfoldable pub find_in_dir : Mount B → ℕ → List ℕ → Option ℕ
  unfolding find_entry
  find_in_dir m dir_ino name = elim (read_inode m dir_ino) [
    | none ↦ none
    | some dir ↦ elim (find_entry (is_named name) m dir (blocks_of_size dir.size) 0) [
      | none ↦ none
      | some at ↦ some (dirent_of m at).inode
    ]
  ]

  -- The part of ufs_add_to_dir that gives the directory one more block.
  unfoldable pub add_block : ℕ → Inode → Dirent → Mount B → Mount B × Bool
  add_block dir_ino dir d m =
      let (m1, nb) = alloc_block m in
      let (m2, stored) = write_block nb (layout.put_dirent 0 d layout.cleared) m1 in
      if nb == 0 then (m1, false) else elim (if stored then append_block dir.extents nb else none) [
        | none ↦ (free_block nb m2, false)
        | some extents ↦
            let size = u32 (dir.size + dirent_size) in
            (
              (write_inode dir_ino
                  (record dir { extents = extents; size = size; blocks = u32 (size + 511) / 512 })
                  m2).0,
              true,
            )
      ]

  -- `ufs_add_to_dir`; it says whether it gives 0.
  unfoldable pub add_to_dir : ℕ → ℕ → List ℕ → ℕ → Mount B → Mount B × Bool
  unfolding find_entry add_block
  add_to_dir dir_ino ino name type m = elim (read_inode m dir_ino) [
    | none ↦ (m, false)
    | some dir ↦ elim (find_entry is_free m dir (blocks_of_size dir.size) 0) [
      | none ↦ add_block dir_ino dir (entry ino type name) m
      | some at ↦ (
        (write_inode dir_ino (record dir { size = u32 (dir.size + dirent_size) })
            (put_entry at (entry ino type name) m)).0,
        true,
      )
    ]
  ]

  -- `ufs_remove_from_dir`: the entry is cleared and the size shrinks.
  unfoldable pub remove_from_dir : ℕ → List ℕ → Mount B → Mount B × Bool
  unfolding find_entry
  remove_from_dir dir_ino name m = elim (read_inode m dir_ino) [
    | none ↦ (m, false)
    | some dir ↦ elim (find_entry (is_named name) m dir (blocks_of_size dir.size) 0) [
      | none ↦ (m, false)
      | some at ↦ (
        (write_inode dir_ino (record dir { size = sub32 dir.size dirent_size })
            (put_entry at (record (dirent_of m at) { inode = 0; name = [] }) m)).0,
        true,
      )
    ]
  ]
