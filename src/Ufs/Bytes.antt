-- ===== src/Ufs/Bytes.antt =====
-- The packed structures of kernel/fs/ufs.c in the bytes of a block, as x86 stores them: the lowest
-- byte of a number first.
pub mod Memory
pub mod Fields
pub mod Lawful
use utms.Base.{
  ℕ, zero, suc, ◌+◌, ◌*◌, List, [], ◌∷◌, ◌++◌, if◌then◌else◌, ◌==◌, u8, le16, le32, byte_at, load16,
  load32, drop, replicate,
}
use utms.Ufs.{sb_words, Layout, Superblock, Inode, Dirent, Extent, block_size, dirent_size}

-- The byte at an offset.
abbrev pub Block : Type 0
Block = ℕ → ℕ

abbrev pub put : ℕ → ℕ → Block → Block
put at x b = λ i. if i == at then x else b i

unfoldable pub store : ℕ → List ℕ → Block → Block
store at [] b = b
store at (x ∷ xs) b = put at x (store (suc at) xs b)

unfoldable pub load : ℕ → ℕ → Block → List ℕ
load at zero b = []
load at (suc n) b = u8 (b at) ∷ load (suc at) n b

-- The array `name`, and what is read of it.
abbrev pub padded : ℕ → List ℕ → List ℕ
padded zero xs = []
padded (suc n) [] = 0 ∷ padded n []
padded (suc n) (x ∷ xs) = x ∷ padded n xs

abbrev pub until_nul : List ℕ → List ℕ
until_nul [] = []
until_nul (x ∷ xs) = let rest = until_nul xs in if x == 0 then [] else x ∷ rest

unfoldable pub encode_dirent : Dirent → List ℕ
encode_dirent d = le32 d.inode ++ (d.type ∷ d.name_len ∷ 0 ∷ 0 ∷ padded 56 d.name)

unfoldable pub decode_dirent : List ℕ → Dirent
decode_dirent bs = record {
  inode = load32 bs 0;
  type = byte_at bs 4;
  name_len = byte_at bs 5;
  name = until_nul (drop 8 bs);
}

abbrev pub encode_extents : List Extent → List ℕ → List ℕ
encode_extents [] rest = rest
encode_extents (e ∷ es) rest = le32 e.start ++ (le32 e.len ++ encode_extents es rest)

abbrev pub decode_extents : ℕ → List ℕ → List Extent
decode_extents zero bs = []
decode_extents (suc n) bs =
    record { start = load32 bs 0; len = load32 bs 4 } ∷ decode_extents n (drop 8 bs)

-- `sizeof(ufs_inode_t)`
abbrev pub inode_size : ℕ
inode_size = 136

-- The owner, the padding and the checksum are 0.
unfoldable pub encode_inode : Inode → List ℕ
encode_inode n =
    le16 n.mode
    ++ (0
        ∷ 0
        ∷ 0
        ∷ 0
        ∷ (le16 n.nlink
            ++ (le32 n.size
                ++ (le32 n.blocks
                    ++ (le32 n.atime
                        ++ (le32 n.mtime
                            ++ (le32 n.ctime ++ encode_extents n.extents (replicate 44 0))))))))

unfoldable pub decode_inode : List ℕ → Inode
decode_inode bs = record {
  mode = load16 bs 0;
  nlink = load16 bs 6;
  size = load32 bs 8;
  blocks = load32 bs 12;
  atime = load32 bs 16;
  mtime = load32 bs 20;
  ctime = load32 bs 24;
  extents = decode_extents 8 (drop 28 bs);
}

-- `sizeof(ufs_superblock_t)`
abbrev pub superblock_size : ℕ
superblock_size = 260

abbrev pub encode_words : List ℕ → List ℕ → List ℕ
encode_words [] rest = rest
encode_words (w ∷ ws) rest = le32 w ++ encode_words ws rest

unfoldable pub encode_superblock : Superblock → List ℕ
encode_superblock s = encode_words (sb_words s) (replicate 216 0 ++ le32 s.checksum)

unfoldable pub decode_superblock : List ℕ → Superblock
decode_superblock bs = record {
  magic = load32 bs 0;
  version = load32 bs 4;
  total_blocks = load32 bs 8;
  free_blocks = load32 bs 12;
  inode_count = load32 bs 16;
  free_inodes = load32 bs 20;
  bitmap_start = load32 bs 24;
  inode_table_start = load32 bs 28;
  data_start = load32 bs 32;
  root_inode = load32 bs 36;
  checksum = load32 bs 256;
}

instance abbrev pub packed : Layout Block
packed = record {
  cleared = λ i. 0;
  byte_at = λ i b. u8 (b i);
  put_byte = λ i v b. put i v b;
  inode_at = λ i b. decode_inode (load (i * inode_size) inode_size b);
  put_inode = λ i n b. store (i * inode_size) (encode_inode n) b;
  dirent_at = λ i b. decode_dirent (load (i * dirent_size) dirent_size b);
  put_dirent = λ i d b. store (i * dirent_size) (encode_dirent d) b;
  bytes_of = λ b. load 0 block_size b;
  put_bytes = λ at bs b. store at bs b;
  superblock_of = λ b. decode_superblock (load 0 superblock_size b);
  put_superblock = λ s b. store 0 (encode_superblock s) b;
}
