-- ===== src/Ufs/Laws.antt =====
-- What the layout of structures in a block of 4096 bytes has to keep: what fits the fields of a
-- structure, stored at a place inside the block, is read there, and no other place changes.
use utms.Base.{ℕ, ◌<◌, ◌≡◌, ◌≢◌, length, All}
use utms.Ufs.{
  Layout, Superblock, Dirent, Inode, Extent, block_size, dirents_per_block, inodes_per_block,
}

abbrev pub IsWord : ℕ → Type 0
IsWord x = x < 4294967296

-- A character of a name: a byte that is not the NUL.
abbrev pub IsChar : ℕ → Type 0
IsChar c = (0 < c) × (c < 256)

-- `inode` has 32 bits, `type` and `name_len` have 8, and the name ends in its 56 bytes.
pub record FitsDirent (d : Dirent) : Type 0 where
  pub inode : IsWord d.inode
  pub type : d.type < 256
  pub name_len : d.name_len < 256
  pub name : length d.name < 56
  pub chars : All IsChar d.name

abbrev pub FitsExtent : Extent → Type 0
FitsExtent e = IsWord e.start × IsWord e.len

-- `mode` and `nlink` have 16 bits, the others 32, and there are eight extents.
pub record FitsInode (n : Inode) : Type 0 where
  pub mode : n.mode < 65536
  pub nlink : n.nlink < 65536
  pub size : IsWord n.size
  pub blocks : IsWord n.blocks
  pub atime : IsWord n.atime
  pub mtime : IsWord n.mtime
  pub ctime : IsWord n.ctime
  pub eight : length n.extents ≡ 8
  pub extents : All FitsExtent n.extents

pub record FitsSuperblock (s : Superblock) : Type 0 where
  pub magic : IsWord s.magic
  pub version : IsWord s.version
  pub total_blocks : IsWord s.total_blocks
  pub free_blocks : IsWord s.free_blocks
  pub inode_count : IsWord s.inode_count
  pub free_inodes : IsWord s.free_inodes
  pub bitmap_start : IsWord s.bitmap_start
  pub inode_table_start : IsWord s.inode_table_start
  pub data_start : IsWord s.data_start
  pub root_inode : IsWord s.root_inode
  pub checksum : IsWord s.checksum

pub record IsLayout {B : Type 0} (layout : Layout B) : Type 0 where
  pub byte_lt : (i : ℕ) (b : B) → layout.byte_at i b < 256
  pub byte_self :
      (i v : ℕ) (b : B) → i < block_size → v < 256 → layout.byte_at i (layout.put_byte i v b) ≡ v
  pub byte_ne :
      (i j v : ℕ) (b : B)
      → i < block_size
      → j < block_size
      → i ≢ j
      → layout.byte_at j (layout.put_byte i v b) ≡ layout.byte_at j b
  pub dirent_self :
      (i : ℕ) (d : Dirent) (b : B)
      → i < dirents_per_block
      → FitsDirent d
      → layout.dirent_at i (layout.put_dirent i d b) ≡ d
  pub dirent_ne :
      (i j : ℕ) (d : Dirent) (b : B)
      → i < dirents_per_block
      → j < dirents_per_block
      → i ≢ j
      → FitsDirent d
      → layout.dirent_at j (layout.put_dirent i d b) ≡ layout.dirent_at j b
  pub inode_self :
      (i : ℕ) (n : Inode) (b : B)
      → i < inodes_per_block
      → FitsInode n
      → layout.inode_at i (layout.put_inode i n b) ≡ n
  pub superblock_self :
      (s : Superblock) (b : B)
      → FitsSuperblock s
      → layout.superblock_of (layout.put_superblock s b) ≡ s
  pub bytes_length : (b : B) → length (layout.bytes_of b) ≡ block_size
  pub cleared_byte : (i : ℕ) → i < block_size → layout.byte_at i layout.cleared ≡ 0
