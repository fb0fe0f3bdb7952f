-- ===== src/Ufs/Bytes/Lawful.antt =====
-- The packed structures keep the laws of a layout.
use utms.Base.{ℕ, ◌*◌, ◌<◌, ◌≡◌, ◌≢◌, ◌∙◌, refl, ap, arith, inl, inr, length, u8}
use native.Mathlib.Decide.{dec_lt}
use utms.Ufs.{Superblock, Inode, Dirent, block_size}
use utms.Ufs.Laws.{IsLayout, FitsDirent, FitsInode, FitsSuperblock}
use utms.Ufs.Bytes.{
  Block, packed, decode_dirent, decode_inode, decode_superblock, encode_dirent, encode_inode,
  encode_superblock,
}
use utms.Ufs.Bytes.Memory.{Apart, put_self, put_other, load-store, load-store_other, length-load}
use utms.Ufs.Bytes.Fields.{
  length-encode_dirent, bytes-encode_dirent, decode_dirent-encode_dirent, length-encode_inode,
  bytes-encode_inode, decode_inode-encode_inode, length-encode_superblock, bytes-encode_superblock,
  decode_superblock-encode_superblock,
}

-- Two different places of an array of entries share no byte.
places-Apart : (i j n : ℕ) → i ≢ j → n ≡ 64 → Apart (j * 64) 64 (i * 64) n
places-Apart i j n ne e = elim (dec_lt j i) [
  | yes lt ↦ inl (omega arith)
  | no ge ↦ inr (let gt : i < j = ground arith in omega arith)
]

dirent_self :
    (i : ℕ) (d : Dirent) (b : Block)
    → FitsDirent d
    → packed.dirent_at i (packed.put_dirent i d b) ≡ d
dirent_self i d b f =
    ap decode_dirent (
      load-store (i * 64) 64 (encode_dirent d) b (length-encode_dirent d) (bytes-encode_dirent d f))
    ∙ decode_dirent-encode_dirent d f

dirent_ne :
    (i j : ℕ) (d : Dirent) (b : Block)
    → i ≢ j
    → packed.dirent_at j (packed.put_dirent i d b) ≡ packed.dirent_at j b
dirent_ne i j d b ne = ap decode_dirent (
    load-store_other (j * 64) 64 (i * 64) (encode_dirent d) b
      (places-Apart i j (length (encode_dirent d)) ne (length-encode_dirent d)))

inode_self :
    (i : ℕ) (n : Inode) (b : Block) → FitsInode n → packed.inode_at i (packed.put_inode i n b) ≡ n
inode_self i n b f =
    ap decode_inode
      (load-store (i * 136) 136 (encode_inode n) b (length-encode_inode n f) (bytes-encode_inode n))
    ∙ decode_inode-encode_inode n f

superblock_self :
    (s : Superblock) (b : Block)
    → FitsSuperblock s
    → packed.superblock_of (packed.put_superblock s b) ≡ s
superblock_self s b f =
    ap decode_superblock (
      load-store 0 260 (encode_superblock s) b (length-encode_superblock s)
        (bytes-encode_superblock s))
    ∙ decode_superblock-encode_superblock s f

-- The layout of the packed structures keeps its laws.
pub packed-IsLayout : IsLayout packed
packed-IsLayout = record {
  byte_lt = λ i b. omega arith;
  byte_self = λ i v b at lt. ap u8 (put_self i v b) ∙ omega arith;
  byte_ne = λ i j v b at at' ne. ap u8 (put_other i v j b ne);
  dirent_self = λ i d b at f. dirent_self i d b f;
  dirent_ne = λ i j d b at at' ne f. dirent_ne i j d b ne;
  inode_self = λ i n b at f. inode_self i n b f;
  superblock_self = superblock_self;
  bytes_length = λ b. length-load 0 block_size b;
  cleared_byte = λ i at. refl;
}
