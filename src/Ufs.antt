-- ===== src/Ufs.antt =====
-- The file system on disk, kernel/fs/ufs.c: its structures, a mount, and access to blocks. How the
-- compiler lays a structure out in the bytes of a block is an interface, `Layout`. Which blocks the
-- device can read and write is a field of the mount. The buffers are read again before each use; of
-- block 0 only the superblock counts: the code fills the rest, which nothing reads, with what the
-- buffer held, and the model leaves it.
pub mod Extents
pub mod Laws
pub mod Bytes
pub mod Alloc
pub mod Dir
pub mod Calls
pub mod Files
pub mod Volume
mod Tests
use Prim.Native.Nat.{bit_xor}
use utms.Base.{
  ℕ, suc, ◌+◌, ◌-◌, ◌*◌, ◌/◌, ◌%◌, Bool, true, false, not, ◌&&◌, ◌||◌, List, [], ◌∷◌, Option, none,
  some, if◌then◌else◌, ◌==◌, leb, u32,
}

-- `extent_t`
pub record Extent : Type 0 where
  pub start : ℕ
  pub len : ℕ

-- `ufs_superblock_t`; the words of its padding stay 0.
pub record Superblock : Type 0 where
  pub magic : ℕ
  pub version : ℕ
  pub total_blocks : ℕ
  pub free_blocks : ℕ
  pub inode_count : ℕ
  pub free_inodes : ℕ
  pub bitmap_start : ℕ
  pub inode_table_start : ℕ
  pub data_start : ℕ
  pub root_inode : ℕ
  pub checksum : ℕ

-- `ufs_inode_t`, with its eight extents; the owner, the padding and the checksum are never written
-- and stay 0.
pub record Inode : Type 0 where
  pub mode : ℕ
  pub nlink : ℕ
  pub size : ℕ
  pub blocks : ℕ
  pub atime : ℕ
  pub mtime : ℕ
  pub ctime : ℕ
  pub extents : List Extent

-- `ufs_dirent_t`; the name is its characters before the NUL.
pub record Dirent : Type 0 where
  pub inode : ℕ
  pub type : ℕ
  pub name_len : ℕ
  pub name : List ℕ

abbrev pub block_size : ℕ
block_size = 4096

-- `UFS_BLOCK_SIZE / sizeof(ufs_inode_t)`
abbrev pub inodes_per_block : ℕ
inodes_per_block = 30

-- `sizeof(ufs_dirent_t)`
abbrev pub dirent_size : ℕ
dirent_size = 64

-- `UFS_BLOCK_SIZE / sizeof(ufs_dirent_t)`
abbrev pub dirents_per_block : ℕ
dirents_per_block = 64

-- A block of 4096 bytes, and the casts of its buffer.
pub record Layout (B : Type 0) : Type 0 where
  pub cleared : B
  pub byte_at : ℕ → B → ℕ
  pub put_byte : ℕ → ℕ → B → B
  pub inode_at : ℕ → B → Inode
  pub put_inode : ℕ → Inode → B → B
  pub dirent_at : ℕ → B → Dirent
  pub put_dirent : ℕ → Dirent → B → B
  pub bytes_of : B → List ℕ
  pub put_bytes : ℕ → List ℕ → B → B
  pub superblock_of : B → Superblock
  pub put_superblock : Superblock → B → B

-- `ufs_mount_t`, with the blocks of the device.
pub record Mount (B : Type 0) : Type 0 where
  pub sb : Superblock
  pub mounted : Bool
  pub next_free_block : ℕ
  pub next_free_inode : ℕ
  pub device : ℕ → B
  pub readable : ℕ → Bool
  pub writable : ℕ → Bool

abbrev pub xor_all : ℕ → List ℕ → ℕ
xor_all sum [] = sum
xor_all sum (w ∷ ws) = xor_all (bit_xor sum w) ws

-- The words of the superblock but its padding, which is 0, and its checksum.
abbrev pub sb_words : Superblock → List ℕ
sb_words s =
    s.magic ∷ s.version ∷ s.total_blocks ∷ s.free_blocks ∷ s.inode_count ∷ s.free_inodes
    ∷ s.bitmap_start ∷ s.inode_table_start ∷ s.data_start ∷ s.root_inode ∷ []

-- `ufs_calc_sb_checksum`
unfoldable pub sb_checksum : Superblock → ℕ
sb_checksum s = xor_all 0 (sb_words s)

module _ {B : Type 0} where
  -- `ufs_read_block`
  unfoldable pub read_block : Mount B → ℕ → Option B
  read_block m b = if leb m.sb.total_blocks b || not (m.readable b) then none else some (m.device b)

  -- `ufs_write_block`; it says whether it gives 0.
  unfoldable pub write_block : ℕ → B → Mount B → Mount B × Bool
  write_block b block m =
      if leb m.sb.total_blocks b || not (m.writable b)
      then (m, false)
      else (record m { device = λ a. if a == b then block else m.device a }, true)

-- The place of an inode in its block.
abbrev pub inode_slot : ℕ → ℕ
inode_slot ino = (ino - 1) % inodes_per_block

module _ {B : Type 0} where
  -- The block of the table that holds an inode.
  abbrev pub inode_block : Mount B → ℕ → ℕ
  inode_block m ino = m.sb.inode_table_start + (ino - 1) / inodes_per_block

  abbrev pub is_inode : Mount B → ℕ → Bool
  is_inode m ino = not (ino == 0) && leb ino m.sb.inode_count

module _ {B : Type 0} ⦃layout : Layout B⦄ where
  -- `ufs_write_superblock`
  unfoldable pub write_superblock : Mount B → Mount B
  unfolding sb_checksum write_block
  write_superblock m =
      let sb = record m.sb { checksum = sb_checksum m.sb } in
      let m' = record m { sb = sb } in (write_block 0 (layout.put_superblock sb (m.device 0)) m').0

  -- `ufs_read_inode`
  unfoldable pub read_inode : Mount B → ℕ → Option Inode
  read_inode m ino =
      if is_inode m ino
      then elim (read_block m (inode_block m ino)) [
        | none ↦ none
        | some block ↦ some (layout.inode_at (inode_slot ino) block)
      ]
      else none

  -- `ufs_write_inode`; it says whether it gives 0.
  unfoldable pub write_inode : ℕ → Inode → Mount B → Mount B × Bool
  write_inode ino inode m =
      if is_inode m ino
      then elim (read_block m (inode_block m ino)) [
        | none ↦ (m, false)
        | some block ↦
            write_block (inode_block m ino) (layout.put_inode (inode_slot ino) inode block) m
      ]
      else (m, false)
