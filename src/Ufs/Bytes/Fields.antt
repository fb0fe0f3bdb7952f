-- ===== src/Ufs/Bytes/Fields.antt =====
-- The structures read back from their bytes, how many these are, and that they are bytes.
use utms.Base.{◌*◌}
use utms.Base.{
  ℕ, zero, suc, ◌+◌, ◌<◌, ◌≤◌, ◌≡◌, refl, ap, arith, List, [], ◌∷◌, ◌++◌, All, length, ◌==◌,
  if_cases, le16, le32, load16, load32, replicate, length-replicate,
}
use mathlib.Core.Path.{ap₂}
use utms.Ufs.{sb_words, Superblock, Inode, Dirent, Extent}
use utms.Ufs.Laws.{IsWord, IsChar, FitsDirent, FitsExtent, FitsInode, FitsSuperblock}
use utms.Ufs.Bytes.{
  padded, until_nul, encode_dirent, decode_dirent, encode_extents, decode_extents, encode_inode,
  decode_inode, encode_words, encode_superblock, decode_superblock,
}
use utms.Ufs.Bytes.Memory.{IsByte, bytes-le16, bytes-le32}

load32-le32 : (x : ℕ) (ys : List ℕ) → IsWord x → load32 (le32 x ++ ys) 0 ≡ x
load32-le32 x ys h = omega arith

load16-le16 : (x : ℕ) (ys : List ℕ) → x < 65536 → load16 (le16 x ++ ys) 0 ≡ x
load16-le16 x ys h = omega arith

until_nul-zeros : (n : ℕ) → until_nul (padded n []) ≡ []
until_nul-zeros zero = refl
until_nul-zeros (suc n) = refl

until_nul-padded :
    (n : ℕ) (xs : List ℕ) → length xs ≤ n → All IsChar xs → until_nul (padded n xs) ≡ xs
until_nul-padded n [] le h = until_nul-zeros n
until_nul-padded zero (x ∷ xs) le h = absurd (omega arith)
until_nul-padded (suc n) (x ∷ xs) le ((pos, lt), h) =
    if_cases (λ (r : List ℕ). r ≡ x ∷ xs) (x == 0) (λ z. absurd (ground arith))
      (λ z. ap (λ l. x ∷ l) (until_nul-padded n xs (omega arith) h))

length-padded : (n : ℕ) (xs : List ℕ) → length (padded n xs) ≡ n
length-padded zero xs = refl
length-padded (suc n) [] = ap suc (length-padded n [])
length-padded (suc n) (x ∷ xs) = ap suc (length-padded n xs)

bytes-padded : (n : ℕ) (xs : List ℕ) → All IsChar xs → All IsByte (padded n xs)
bytes-padded zero xs h = tt
bytes-padded (suc n) [] h = (omega arith, bytes-padded n [] tt)
bytes-padded (suc n) (x ∷ xs) ((pos, lt), h) = (lt, bytes-padded n xs h)

pub length-encode_dirent : (d : Dirent) → length (encode_dirent d) ≡ 64
unfolding encode_dirent
length-encode_dirent d = omega (arith, length-padded 56 d.name)

pub bytes-encode_dirent : (d : Dirent) → FitsDirent d → All IsByte (encode_dirent d)
unfolding encode_dirent
bytes-encode_dirent d f =
    bytes-le32 d.inode (d.type ∷ d.name_len ∷ 0 ∷ 0 ∷ padded 56 d.name)
      (f.type, (f.name_len, (omega arith, (omega arith, bytes-padded 56 d.name f.chars))))

pub decode_dirent-encode_dirent : (d : Dirent) → FitsDirent d → decode_dirent (encode_dirent d) ≡ d
unfolding encode_dirent decode_dirent
decode_dirent-encode_dirent d f =
    let inode = load32-le32 d.inode (d.type ∷ d.name_len ∷ 0 ∷ 0 ∷ padded 56 d.name) f.inode in
    let short = f.name in
    let name = until_nul-padded 56 d.name (omega arith) f.chars in
    λ i. record { inode = inode i; type = d.type; name_len = d.name_len; name = name i }

length-encode_extents :
    (es : List Extent) (rest : List ℕ) (n : ℕ)
    → length es ≡ n
    → length (encode_extents es rest) ≡ 8 * n + length rest
length-encode_extents [] rest n e = omega arith
length-encode_extents (x ∷ es) rest zero e = absurd (omega arith)
length-encode_extents (x ∷ es) rest (suc n) e =
    omega (arith, length-encode_extents es rest n (omega arith))

bytes-encode_extents :
    (es : List Extent) (rest : List ℕ) → All IsByte rest → All IsByte (encode_extents es rest)
bytes-encode_extents [] rest h = h
bytes-encode_extents (e ∷ es) rest h =
    let later = encode_extents es rest in
    bytes-le32 e.start (le32 e.len ++ later)
      (bytes-le32 e.len later (bytes-encode_extents es rest h))

decode_extents-encode_extents :
    (es : List Extent) (rest : List ℕ) (n : ℕ)
    → length es ≡ n
    → All FitsExtent es
    → decode_extents n (encode_extents es rest) ≡ es
decode_extents-encode_extents [] rest zero e f = refl
decode_extents-encode_extents [] rest (suc n) e f = absurd (omega arith)
decode_extents-encode_extents (x ∷ es) rest zero e f = absurd (omega arith)
decode_extents-encode_extents (x ∷ es) rest (suc n) e ((start, len), f) =
    let p = load32-le32 x.start (le32 x.len ++ encode_extents es rest) start in
    let q = load32-le32 x.len (encode_extents es rest) len in
    ap₂ (λ y ys. y ∷ ys) (λ i. record { start = p i; len = q i })
      (decode_extents-encode_extents es rest n (omega arith) f)

zeros : (n : ℕ) → All IsByte (replicate n 0)
zeros zero = tt
zeros (suc n) = (omega arith, zeros n)

pub length-encode_inode : (n : Inode) → FitsInode n → length (encode_inode n) ≡ 136
unfolding encode_inode
length-encode_inode n f =
    omega
      (arith, length-encode_extents n.extents (replicate 44 0) 8 f.eight, length-replicate 44 zero)

pub bytes-encode_inode : (n : Inode) → All IsByte (encode_inode n)
unfolding encode_inode
bytes-encode_inode n =
    let t0 = encode_extents n.extents (replicate 44 0) in
    let t1 = le32 n.ctime ++ t0 in
    let t2 = le32 n.mtime ++ t1 in
    let t3 = le32 n.atime ++ t2 in
    let t4 = le32 n.blocks ++ t3 in
    let t5 = le32 n.size ++ t4 in
    let t6 = le16 n.nlink ++ t5 in
    let z : IsByte 0 = omega arith in
    let numbers : All IsByte t2 =
      bytes-le32 n.mtime t1
        (bytes-le32 n.ctime t0 (bytes-encode_extents n.extents (replicate 44 0) (zeros 44))) in
    bytes-le16 n.mode (0 ∷ 0 ∷ 0 ∷ 0 ∷ t6) (
      z,
      (
        z,
        (
          z,
          (
            z,
            bytes-le16 n.nlink t5
                (bytes-le32 n.size t4 (bytes-le32 n.blocks t3 (bytes-le32 n.atime t2 numbers))),
          ),
        ),
      ),
    )

pub decode_inode-encode_inode : (n : Inode) → FitsInode n → decode_inode (encode_inode n) ≡ n
unfolding encode_inode decode_inode
decode_inode-encode_inode n f =
    let mode = load16-le16 n.mode [] f.mode in
    let nlink = load16-le16 n.nlink [] f.nlink in
    let size = load32-le32 n.size [] f.size in
    let blocks = load32-le32 n.blocks [] f.blocks in
    let atime = load32-le32 n.atime [] f.atime in
    let mtime = load32-le32 n.mtime [] f.mtime in
    let ctime = load32-le32 n.ctime [] f.ctime in
    let extents = decode_extents-encode_extents n.extents (replicate 44 0) 8 f.eight f.extents in
    λ i. record {
      mode = mode i;
      nlink = nlink i;
      size = size i;
      blocks = blocks i;
      atime = atime i;
      mtime = mtime i;
      ctime = ctime i;
      extents = extents i;
    }

pub length-encode_superblock : (s : Superblock) → length (encode_superblock s) ≡ 260
unfolding encode_superblock
length-encode_superblock s = refl

bytes-encode_words :
    (ws : List ℕ) (rest : List ℕ) → All IsByte rest → All IsByte (encode_words ws rest)
bytes-encode_words [] rest h = h
bytes-encode_words (w ∷ ws) rest h =
    bytes-le32 w (encode_words ws rest) (bytes-encode_words ws rest h)

bytes-behind_zeros : (n : ℕ) (rest : List ℕ) → All IsByte rest → All IsByte (replicate n 0 ++ rest)
bytes-behind_zeros zero rest h = h
bytes-behind_zeros (suc n) rest h = (omega arith, bytes-behind_zeros n rest h)

pub bytes-encode_superblock : (s : Superblock) → All IsByte (encode_superblock s)
unfolding encode_superblock
bytes-encode_superblock s =
    bytes-encode_words (sb_words s) (replicate 216 0 ++ le32 s.checksum)
      (bytes-behind_zeros 216 (le32 s.checksum) (bytes-le32 s.checksum [] tt))

pub decode_superblock-encode_superblock :
    (s : Superblock) → FitsSuperblock s → decode_superblock (encode_superblock s) ≡ s
unfolding encode_superblock decode_superblock
decode_superblock-encode_superblock s f =
    let word = λ (x : ℕ) (h : IsWord x). load32-le32 x [] h in
    λ i. record {
      magic = word s.magic f.magic i;
      version = word s.version f.version i;
      total_blocks = word s.total_blocks f.total_blocks i;
      free_blocks = word s.free_blocks f.free_blocks i;
      inode_count = word s.inode_count f.inode_count i;
      free_inodes = word s.free_inodes f.free_inodes i;
      bitmap_start = word s.bitmap_start f.bitmap_start i;
      inode_table_start = word s.inode_table_start f.inode_table_start i;
      data_start = word s.data_start f.data_start i;
      root_inode = word s.root_inode f.root_inode i;
      checksum = word s.checksum f.checksum i;
    }
