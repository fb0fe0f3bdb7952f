-- ===== src/Ufs/Volume.antt =====
-- Making, mounting and unmounting a file system: ufs_vfs_format, ufs_vfs_mount and ufs_vfs_unmount
-- of kernel/fs/ufs.c, on a device of blocks that can be read and written or not.
pub mod Room
pub mod Sealed
pub mod Again
pub mod Made
pub mod Success
use utms.Base.{◌∷◌, drop}
use utms.Base.{
  ltb, sub32, not, zero, suc, ◌+◌, ◌-◌, ◌*◌, ◌/◌, ◌==◌, if◌then◌else◌, ◌⊎◌, inl, inr, true, ◌∷◌,
  false, Bool, u32, ℕ,
}
use utms.Ufs.{
  write_inode, block_size, dirent_size, inodes_per_block, write_block, write_superblock, Mount,
  sb_checksum, Inode, Layout, Superblock,
}
use utms.Ufs.Alloc.{alloc_block, bitmap_set, free_inode_slot}
use utms.Ufs.Calls.{inode_dir, new_inode, dots}

-- `UFS_MAGIC`
abbrev pub magic_number : ℕ
magic_number = 1431588179

abbrev pub inode_count : ℕ
inode_count = 1024

-- A cleared superblock.
abbrev pub no_superblock : Superblock
no_superblock = record {
  magic = 0;
  version = 0;
  total_blocks = 0;
  free_blocks = 0;
  inode_count = 0;
  free_inodes = 0;
  bitmap_start = 0;
  inode_table_start = 0;
  data_start = 0;
  root_inode = 0;
  checksum = 0;
}

-- The superblock of a new file system.
unfoldable pub new_superblock : ℕ → Superblock
new_superblock total =
    let bitmap_blocks = u32 (total + 32767) / 32768 in
    let inode_blocks = (inode_count + inodes_per_block - 1) / inodes_per_block in
    let data_start = 1 + bitmap_blocks + inode_blocks in
    record {
      magic = magic_number;
      version = 2;
      total_blocks = total;
      free_blocks = sub32 total data_start;
      inode_count = inode_count;
      free_inodes = inode_count;
      bitmap_start = 1;
      inode_table_start = 1 + bitmap_blocks;
      data_start = data_start;
      root_inode = 1;
      checksum = 0;
    }

-- The inode of the root, whose only block is given.
abbrev pub root_of : ℕ → ℕ → Inode
root_of now b = record (new_inode (inode_dir + 493) 2 now) {
  size = 2 * dirent_size;
  blocks = (2 * dirent_size + 511) / 512;
  extents = record { start = b; len = 1 } ∷ drop 1 free_inode_slot.extents;
}

module _ {B : Type 0} ⦃layout : Layout B⦄ where
  -- The two loops over the blocks in front of the data, from block `i` on.
  unfoldable pub clear_blocks : ℕ → ℕ → Mount B → Mount B
  clear_blocks zero i m = m
  clear_blocks (suc left) i m = clear_blocks left (suc i) (write_block i layout.cleared m).0

  unfoldable pub mark_blocks : ℕ → ℕ → Mount B → Mount B
  mark_blocks zero i m = m
  mark_blocks (suc left) i m = mark_blocks left (suc i) (bitmap_set i true m).0

  -- The last steps: the numbers and the checksum of the superblock, and block 0.
  unfoldable pub seal : Mount B → Mount B
  seal m =
      let sb = record m.sb { free_inodes = inode_count - 1 } in
      let sealed = record sb { checksum = sb_checksum sb } in
      (write_block 0 (layout.put_superblock sealed layout.cleared) (record m { sb = sealed })).0

  -- The mount on the stack of ufs_vfs_format, before anything is written.
  abbrev pub blank : ℕ → (ℕ → B) → (ℕ → Bool) → (ℕ → Bool) → Mount B
  blank total device readable writable = record {
    sb = new_superblock total;
    mounted = false;
    next_free_block = 0;
    next_free_inode = 0;
    device = device;
    readable = readable;
    writable = writable;
  }

  -- `ufs_vfs_format` of a device of so many bytes: what it leaves, and whether it gives 0.
  unfoldable pub format : ℕ → ℕ → (ℕ → B) → (ℕ → Bool) → (ℕ → Bool) → Mount B × Bool
  unfolding new_superblock clear_blocks mark_blocks alloc_block seal
  format now size device readable writable =
      let total = u32 (size / block_size) in
      let m = blank total device readable writable in
      let n = m.sb.data_start in
      let (m1, b) = alloc_block (mark_blocks n 0 (clear_blocks n 0 m)) in
      let (m2, kept) = write_inode 1 (root_of now b) m1 in
      let (m3, stored) = write_block b (dots 1 1) m2 in
      if ltb total 10
      then (m, false)
      else if b == 0
      then (m1, false)
      else if stored
      then (seal m3, true)
      else (m3, false)

  -- The mount of a superblock. The first free block is read from the superblock while that is still
  -- cleared.
  abbrev pub fresh_mount : Superblock → (ℕ → B) → (ℕ → Bool) → (ℕ → Bool) → Mount B
  fresh_mount sb device readable writable = record {
    sb = sb;
    mounted = true;
    next_free_block = no_superblock.data_start;
    next_free_inode = 2;
    device = device;
    readable = readable;
    writable = writable;
  }

  -- `ufs_vfs_mount`: the mount, or the number of the error.
  unfoldable pub mount : (ℕ → B) → (ℕ → Bool) → (ℕ → Bool) → ℕ ⊎ Mount B
  unfolding sb_checksum
  mount device readable writable =
      let sb = layout.superblock_of (device 0) in
      if not (readable 0)
      then inl 1
      else if not (sb.magic == magic_number)
      then inl 22
      else if not (sb.checksum == sb_checksum sb)
      then inl 5
      else inr (fresh_mount sb device readable writable)

  -- `ufs_vfs_unmount`, before the mount is freed.
  unfoldable pub unmount : Mount B → Mount B
  unmount m = record (write_superblock m) { mounted = false }
