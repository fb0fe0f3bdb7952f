-- ===== src/Ufs/Volume/Sealed.antt =====
-- What is mounted again: the superblock with its checksum, as ufs_vfs_format leaves it in
-- block 0.
use utms.Base.{All, List, [], ◌∷◌}
use utms.Base.Bits.{bit_xor-lt}
use Prim.Native.Nat.{bit_xor}
use utms.Ufs.{xor_all, sb_words}
use utms.Ufs.Laws.{IsWord, FitsSuperblock}
use utms.Ufs.{
  Mount, write_block, write_superblock, write_inode, inode_block, is_inode, read_block, Inode,
  Superblock, Layout, sb_checksum,
}
use utms.Base.{
  zero, suc, ◌+◌, ◌||◌, ◌∙◌, not, leb, Option_elim, if_elim, sub32, ℕ, ◌≡◌, refl, arith, Bool, true,
  inr,
}
use utms.Ufs.Alloc.{
  bitmap_set, bitmap_block, take_block, alloc_block, search_block, first_candidate,
}
use utms.Ufs.Volume.{clear_blocks, mark_blocks, magic_number, fresh_mount, mount}

abbrev pub sealed : Superblock → Superblock
sealed sb = record sb { checksum = sb_checksum sb }

sealed-checksum : (sb : Superblock) → sb_checksum (sealed sb) ≡ sb_checksum sb
unfolding sb_checksum
sealed-checksum sb = refl

xor_all-IsWord : (sum : ℕ) (ws : List ℕ) → IsWord sum → All IsWord ws → IsWord (xor_all sum ws)
xor_all-IsWord sum [] h a = h
xor_all-IsWord sum (w ∷ ws) h (first, a) =
    xor_all-IsWord (bit_xor sum w) ws (bit_xor-lt 32 sum w h first) a

-- A superblock of words is one that fits its block, with the checksum too.
pub sealed-FitsSuperblock :
    (sb : Superblock) → All IsWord (sb_words sb) → FitsSuperblock (sealed sb)
unfolding sb_checksum
sealed-FitsSuperblock sb (a, (b, (c, (d, (e, (f, (g, (h, (i, (j, k)))))))))) = record {
  magic = a;
  version = b;
  total_blocks = c;
  free_blocks = d;
  inode_count = e;
  free_inodes = f;
  bitmap_start = g;
  inode_table_start = h;
  data_start = i;
  root_inode = j;
  checksum =
      xor_all-IsWord 0 (sb_words sb) (omega arith)
        (a, (b, (c, (d, (e, (f, (g, (h, (i, (j, k))))))))));
}

module _ {B : Type 0} ⦃layout : Layout B⦄ where
  -- A device whose block 0 holds a sealed superblock with the magic number.
  pub mount-sealed :
      (device : ℕ → B) (readable writable : ℕ → Bool) (sb : Superblock)
      → sb.magic ≡ magic_number
      → readable 0 ≡ true
      → layout.superblock_of (device 0) ≡ sealed sb
      → mount device readable writable ≡ inr (fresh_mount (sealed sb) device readable writable)
  unfolding mount
  mount-sealed device readable writable sb magic reads e =
      let good = sealed-checksum sb in ground arith

  -- What no store changes.
  pub record Keeps (m m' : Mount B) : Type 0 where
    pub magic : m'.sb.magic ≡ m.sb.magic
    pub total_blocks : m'.sb.total_blocks ≡ m.sb.total_blocks
    pub data_start : m'.sb.data_start ≡ m.sb.data_start
    pub inode_table_start : m'.sb.inode_table_start ≡ m.sb.inode_table_start
    pub inode_count : m'.sb.inode_count ≡ m.sb.inode_count
    pub readable : m'.readable ≡ m.readable
    pub writable : m'.writable ≡ m.writable
    pub words : All IsWord (sb_words m.sb) → All IsWord (sb_words m'.sb)

  Keeps-refl : (m : Mount B) → Keeps m m
  Keeps-refl m = record {
    magic = refl;
    total_blocks = refl;
    data_start = refl;
    inode_table_start = refl;
    inode_count = refl;
    readable = refl;
    writable = refl;
    words = λ h. h;
  }

  pub Keeps-trans : {m1 m2 m3 : Mount B} → Keeps m1 m2 → Keeps m2 m3 → Keeps m1 m3
  Keeps-trans a b = record {
    magic = b.magic ∙ a.magic;
    total_blocks = b.total_blocks ∙ a.total_blocks;
    data_start = b.data_start ∙ a.data_start;
    inode_table_start = b.inode_table_start ∙ a.inode_table_start;
    inode_count = b.inode_count ∙ a.inode_count;
    readable = b.readable ∙ a.readable;
    writable = b.writable ∙ a.writable;
    words = λ h. b.words (a.words h);
  }

  pub write_block-Keeps : (b : ℕ) (block : B) (m : Mount B) → Keeps m (write_block b block m).0
  unfolding write_block
  write_block-Keeps b block m =
      if_elim (λ (r : Mount B × Bool). Keeps m r.0) (leb m.sb.total_blocks b || not (m.writable b))
        (Keeps-refl m)
        (record {
          magic = refl;
          total_blocks = refl;
          data_start = refl;
          inode_table_start = refl;
          inode_count = refl;
          readable = refl;
          writable = refl;
          words = λ h. h;
        })

  write_superblock-Keeps : (m : Mount B) → Keeps m (write_superblock m)
  unfolding write_superblock
  write_superblock-Keeps m =
      let sb = sealed m.sb in
      let m' : Mount B = record m { sb = sb } in
      let same : Keeps m m' = record {
        magic = refl;
        total_blocks = refl;
        data_start = refl;
        inode_table_start = refl;
        inode_count = refl;
        readable = refl;
        writable = refl;
        words = λ h. h;
      } in
      Keeps-trans same (write_block-Keeps 0 (layout.put_superblock sb (m.device 0)) m')

  bitmap_set-Keeps : (b : ℕ) (val : Bool) (m : Mount B) → Keeps m (bitmap_set b val m).0
  unfolding bitmap_set
  bitmap_set-Keeps b val m =
      if_elim (λ (r : Mount B × Bool). Keeps m r.0) (leb m.sb.total_blocks b) (Keeps-refl m)
        (Option_elim (λ (r : Mount B × Bool). Keeps m r.0) (read_block m (bitmap_block m b))
          (Keeps-refl m) (λ block e. write_block-Keeps (bitmap_block m b) _ m))

  pub write_inode-Keeps :
      (ino : ℕ) (inode : Inode) (m : Mount B) → Keeps m (write_inode ino inode m).0
  unfolding write_inode
  write_inode-Keeps ino inode m =
      if_elim (λ (r : Mount B × Bool). Keeps m r.0) (is_inode m ino)
        (Option_elim (λ (r : Mount B × Bool). Keeps m r.0) (read_block m (inode_block m ino))
          (Keeps-refl m) (λ block e. write_block-Keeps (inode_block m ino) _ m))
        (Keeps-refl m)

  take_block-Keeps : (b : ℕ) (m : Mount B) → Keeps m (take_block b m)
  unfolding take_block
  take_block-Keeps b m =
      let m1 = (bitmap_set b true m).0 in
      let m2 : Mount B = record m1 {
        sb = record m1.sb { free_blocks = sub32 m1.sb.free_blocks 1 };
        next_free_block = b + 1;
      } in
      let same : Keeps m1 m2 = record {
        magic = refl;
        total_blocks = refl;
        data_start = refl;
        inode_table_start = refl;
        inode_count = refl;
        readable = refl;
        writable = refl;
        words = λ (a, (b, (c, (d, (e, (f, (g, (h, (i, (j, k)))))))))).
            (a, (b, (c, (omega arith, (e, (f, (g, (h, (i, (j, k))))))))));
      } in
      Keeps-trans (bitmap_set-Keeps b true m) (
        Keeps-trans same (
          Keeps-trans (write_block-Keeps b layout.cleared m2)
            (write_superblock-Keeps (write_block b layout.cleared m2).0)))

  pub alloc_block-Keeps : (m : Mount B) → Keeps m (alloc_block m).0
  unfolding alloc_block
  alloc_block-Keeps m =
      Option_elim (λ (r : Mount B × ℕ). Keeps m r.0)
        (search_block m (first_candidate m) m.sb.total_blocks 0) (Keeps-refl m)
        (λ b e. take_block-Keeps b m)

  pub clear_blocks-Keeps : (n i : ℕ) (m : Mount B) → Keeps m (clear_blocks n i m)
  unfolding clear_blocks
  clear_blocks-Keeps zero i m = Keeps-refl m
  clear_blocks-Keeps (suc n) i m =
      Keeps-trans (write_block-Keeps i layout.cleared m) (clear_blocks-Keeps n (suc i) _)

  pub mark_blocks-Keeps : (n i : ℕ) (m : Mount B) → Keeps m (mark_blocks n i m)
  unfolding mark_blocks
  mark_blocks-Keeps zero i m = Keeps-refl m
  mark_blocks-Keeps (suc n) i m =
      Keeps-trans (bitmap_set-Keeps i true m) (mark_blocks-Keeps n (suc i) _)
