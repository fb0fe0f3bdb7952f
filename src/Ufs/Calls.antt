-- ===== src/Ufs/Calls.antt =====
-- The calls of kernel/fs/ufs.c on names, as the virtual file system makes them. A call is given the
-- inode number that a node keeps in `fs_data`; it gives 0, or `n` where the code gives -n. The time
-- of get_ticks is an argument.
use utms.Base.{
  ℕ, zero, suc, ◌+◌, ◌-◌, ◌*◌, ◌/◌, ◌%◌, Bool, true, false, not, ◌&&◌, ◌||◌, List, [], ◌∷◌, Option,
  none, some, if◌then◌else◌, ◌==◌, leb, ltb, u32, has_bit, length, take,
}
use utms.Ufs.{
  Extent, Inode, Dirent, Layout, Mount, dirent_size, dirents_per_block, read_block, write_block,
  read_inode, write_inode,
}
use utms.Ufs.Extents.{get_block, append_block}
use utms.Ufs.Alloc.{alloc_block, alloc_inode, free_inode, free_inode_blocks, free_inode_slot}
use utms.Ufs.Dir.{find_in_dir, add_to_dir, remove_from_dir, find_slot, blocks_of_size, is_free}

-- `UFS_INODE_FILE`, `UFS_INODE_DIR`, `UFS_INODE_SYMLINK`
abbrev pub inode_file : ℕ
inode_file = 32768

abbrev pub inode_dir : ℕ
inode_dir = 16384

abbrev pub inode_symlink : ℕ
inode_symlink = 40960

abbrev pub is_directory : Inode → Bool
is_directory n = has_bit inode_dir n.mode

-- A new inode: its mode, links, and three times.
abbrev pub new_inode : ℕ → ℕ → ℕ → Inode
new_inode mode nlink now = record free_inode_slot {
  mode = mode;
  nlink = nlink;
  atime = now;
  mtime = now;
  ctime = now;
}

abbrev pub status : Bool → ℕ
status ok = if ok then 0 else 1

-- `.` and `..`
abbrev pub dot_entry : ℕ → Dirent
dot_entry ino = record { inode = ino; type = 2; name_len = 1; name = 46 ∷ [] }

abbrev pub dot_dot_entry : ℕ → Dirent
dot_dot_entry ino = record { inode = ino; type = 2; name_len = 2; name = 46 ∷ 46 ∷ [] }

abbrev pub or_same : List Extent → Option (List Extent) → List Extent
or_same es none = es
or_same es (some es') = es'

abbrev pub is_found : Option ℕ → Bool
is_found none = false
is_found (some n) = true

module _ {B : Type 0} ⦃layout : Layout B⦄ where
  -- The first two entries of a new directory.
  abbrev pub dots : ℕ → ℕ → B
  dots ino parent =
      layout.put_dirent 1 (dot_dot_entry parent)
        (layout.put_dirent 0 (dot_entry ino) layout.cleared)

  -- `ufs_vfs_lookup`: the number, the inode.
  unfoldable pub lookup : ℕ → List ℕ → Mount B → Option (ℕ × Inode)
  unfolding find_in_dir
  lookup dir_ino name m =
      if m.mounted
      then elim (find_in_dir m dir_ino name) [
        | none ↦ none
        | some ino ↦ elim (read_inode m ino) [ none ↦ none | some inode ↦ some (ino, inode) ]
      ]
      else none

  -- `ufs_vfs_create`; a failed store of the inode is given as 1.
  unfoldable pub create : ℕ → ℕ → List ℕ → ℕ → Mount B → Mount B × ℕ
  unfolding find_in_dir alloc_inode add_to_dir
  create now dir_ino name mode m =
      let (m1, ino) = alloc_inode m in
      let (m2, ok) = write_inode ino (new_inode (inode_file + mode % 512) 1 now) m1 in
      let (m3, added) = add_to_dir dir_ino ino name 1 m2 in
      if not m.mounted
      then (m, 22)
      else if is_found (find_in_dir m dir_ino name)
      then (m, 17)
      else if ino == 0
      then (m1, 28)
      else if ok
      then (m3, status added)
      else (free_inode ino m2, 1)

  -- `ufs_vfs_mkdir`
  unfoldable pub mkdir : ℕ → ℕ → List ℕ → ℕ → Mount B → Mount B × ℕ
  unfolding find_in_dir alloc_inode alloc_block add_to_dir
  mkdir now dir_ino name mode m =
      let (m1, ino) = alloc_inode m in
      let (m2, b) = alloc_block m1 in
      let (m3, stored) = write_block b (dots ino dir_ino) m2 in
      let inode = record (new_inode (inode_dir + mode % 512) 2 now) {
        size = 2 * dirent_size;
        blocks = (2 * dirent_size + 511) / 512;
        extents = or_same free_inode_slot.extents (append_block free_inode_slot.extents b);
      } in
      let (m4, kept) = write_inode ino inode m3 in
      let (m5, added) = add_to_dir dir_ino ino name 2 m4 in
      if not m.mounted || is_found (find_in_dir m dir_ino name)
      then (m, 1)
      else if ino == 0
      then (m1, 1)
      else if b == 0
      then (free_inode ino m2, 1)
      else (m5, status added)

  -- An entry in use in the blocks of a directory from index `i` on.
  unfoldable pub has_entries : Mount B → Inode → ℕ → ℕ → Bool
  unfolding find_slot
  has_entries m dir zero i = false
  has_entries m dir (suc left) i =
      let b = get_block dir.extents i in
      let here : Bool = elim (read_block m b) [
        | none ↦ false
        | some block ↦ is_found (find_slot (λ d. not (is_free d)) block dirents_per_block 0)
      ] in
      (not (b == 0) && here) || has_entries m dir left (suc i)

  -- `ufs_vfs_unlink`
  unfoldable pub unlink : ℕ → List ℕ → Mount B → Mount B × ℕ
  unfolding lookup has_entries free_inode_blocks free_inode remove_from_dir
  unlink dir_ino name m = elim (lookup dir_ino name m) [
    | none ↦ (m, 1)
    | some (ino, inode) ↦
        let m1 = free_inode ino (free_inode_blocks ino m) in
        let (m2, removed) = remove_from_dir dir_ino name m1 in
        if is_directory inode
          && (ltb (2 * dirent_size) inode.size && has_entries m inode (blocks_of_size inode.size) 0)
        then (m, 39)
        else (m2, status removed)
  ]

  -- `ufs_vfs_rename` within one mount.
  unfoldable pub rename : ℕ → List ℕ → ℕ → List ℕ → Mount B → Mount B × ℕ
  unfolding lookup remove_from_dir add_to_dir
  rename old_dir old_name new_dir new_name m = elim (lookup old_dir old_name m) [
    | none ↦ (m, 1)
    | some (ino, inode) ↦
        let m1 = (remove_from_dir new_dir new_name m).0 in
        let (m2, removed) = remove_from_dir old_dir old_name m1 in
        let (m3, added) =
          add_to_dir new_dir ino new_name (if is_directory inode then 2 else 1) m2 in
        if removed then (m3, status added) else (m2, 1)
  ]

  -- `ufs_vfs_symlink`
  unfoldable pub symlink : ℕ → ℕ → List ℕ → List ℕ → Mount B → Mount B × ℕ
  unfolding find_in_dir alloc_inode alloc_block add_to_dir
  symlink now dir_ino name target m =
      let (m1, ino) = alloc_inode m in
      let (m2, b) = alloc_block m1 in
      let (m3, stored) = write_block b (layout.put_bytes 0 (take 4095 target) layout.cleared) m2 in
      let inode = record (new_inode (inode_symlink + 511) 1 now) {
        size = u32 (length target);
        blocks = u32 (u32 (length target) + 511) / 512;
        extents = or_same free_inode_slot.extents (append_block free_inode_slot.extents b);
      } in
      let (m4, kept) = write_inode ino inode m3 in
      let (m5, added) = add_to_dir dir_ino ino name 3 m4 in
      if not m.mounted || is_found (find_in_dir m dir_ino name)
      then (m, 1)
      else if ino == 0
      then (m1, 1)
      else if b == 0
      then (free_inode ino m2, 1)
      else (m5, status added)

  -- `ufs_vfs_readlink` into a buffer of so many bytes, one at least.
  unfoldable pub readlink : ℕ → ℕ → Mount B → Option (List ℕ)
  readlink ino size m = elim (read_inode m ino) [
    | none ↦ none
    | some inode ↦
        let b = get_block inode.extents 0 in
        let shown = if leb size inode.size then size - 1 else inode.size in
        if (not m.mounted || not (inode.mode / 4096 == 10)) || b == 0
        then none
        else elim (read_block m b) [
          | none ↦ none
          | some block ↦ some (take shown (layout.bytes_of block))
        ]
  ]

  -- `ufs_vfs_stat`: size, mode, and whether it is a directory.
  unfoldable pub stat : ℕ → Mount B → Option (ℕ × ℕ × Bool)
  stat ino m = elim (read_inode m ino) [
    | none ↦ none
    | some inode ↦ if m.mounted then some (inode.size, inode.mode, is_directory inode) else none
  ]
