-- ===== src/Ufs/Alloc.antt =====
-- Free blocks and inodes of kernel/fs/ufs.c: the bitmap, ufs_alloc_block, ufs_free_block,
-- ufs_alloc_inode, ufs_free_inode and ufs_free_inode_blocks.
pub mod Search
pub mod Fresh
pub mod Outcome
use Prim.Native.Nat.{bit_and, bit_or}
use utms.Base.{
  ℕ, zero, suc, ◌+◌, ◌-◌, ◌*◌, ◌/◌, ◌%◌, ◌^◌, Bool, true, false, not, ◌&&◌, ◌||◌, List, [], ◌∷◌,
  Option, none, some, if◌then◌else◌, ◌==◌, leb, ltb, u32, sub32,
}
use utms.Ufs.{
  Extent, Inode, Superblock, Layout, Mount, inodes_per_block, inode_slot, inode_block, read_block,
  write_block, write_superblock, read_inode, write_inode,
}

-- `(x >> bit) & 1`
abbrev pub bit_of : ℕ → ℕ → ℕ
bit_of bit x = x / 2 ^ bit % 2

-- `x |= 1 << bit`, and `x &= ~(1 << bit)` on a byte.
abbrev pub with_bit : Bool → ℕ → ℕ → ℕ
with_bit true bit x = bit_or x (2 ^ bit)
with_bit false bit x = bit_and x (255 - 2 ^ bit)

abbrev pub free_inode_slot : Inode
free_inode_slot = record {
  mode = 0;
  nlink = 0;
  size = 0;
  blocks = 0;
  atime = 0;
  mtime = 0;
  ctime = 0;
  extents = empty 8;
}
  where
    empty : ℕ → List Extent
    empty zero = []
    empty (suc n) = record { start = 0; len = 0 } ∷ empty n

abbrev pub is_clear : Option ℕ → Bool
is_clear none = false
is_clear (some v) = v == 0

module _ {B : Type 0} where
  abbrev pub bitmap_block : Mount B → ℕ → ℕ
  bitmap_block m b = m.sb.bitmap_start + b / 32768

  -- The index that round `i` of ufs_alloc_block looks at.
  abbrev pub candidate : Mount B → ℕ → ℕ → ℕ
  candidate m start i =
      let b = u32 (start + i) in
      if leb m.sb.total_blocks b then m.sb.data_start + (b - m.sb.total_blocks) else b

  abbrev pub first_candidate : Mount B → ℕ
  first_candidate m =
      if ltb m.next_free_block m.sb.data_start then m.sb.data_start else m.next_free_block

module _ {B : Type 0} ⦃layout : Layout B⦄ where
  -- `ufs_bitmap_get`; `none` is -1.
  unfoldable pub bitmap_get : Mount B → ℕ → Option ℕ
  bitmap_get m b =
      if leb m.sb.total_blocks b then none else elim (read_block m (bitmap_block m b)) [
        | none ↦ none
        | some block ↦ some (bit_of (b % 8) (layout.byte_at (b % 32768 / 8) block))
      ]

  -- `ufs_bitmap_set`
  unfoldable pub bitmap_set : ℕ → Bool → Mount B → Mount B × Bool
  bitmap_set b val m =
      if leb m.sb.total_blocks b then (m, false) else elim (read_block m (bitmap_block m b)) [
        | none ↦ (m, false)
        | some block ↦
            let off = b % 32768 / 8 in
            write_block (bitmap_block m b)
              (layout.put_byte off (with_bit val (b % 8) (layout.byte_at off block)) block) m
      ]

  -- The loop of ufs_alloc_block, from round `i` on.
  unfoldable pub search_block : Mount B → ℕ → ℕ → ℕ → Option ℕ
  search_block m start zero i = none
  search_block m start (suc left) i =
      let b = candidate m start i in
      let later = search_block m start left (suc i) in
      if ltb b m.sb.data_start || not (is_clear (bitmap_get m b)) then later else some b

  -- What ufs_alloc_block does to the block that it has found.
  unfoldable pub take_block : ℕ → Mount B → Mount B
  take_block b m =
      let m1 = (bitmap_set b true m).0 in
      let m2 = record m1 {
        sb = record m1.sb { free_blocks = sub32 m1.sb.free_blocks 1 };
        next_free_block = b + 1;
      } in
      write_superblock (write_block b layout.cleared m2).0

  -- `ufs_alloc_block`; 0 is failure.
  unfoldable pub alloc_block : Mount B → Mount B × ℕ
  alloc_block m = elim (search_block m (first_candidate m) m.sb.total_blocks 0) [
    | none ↦ (m, 0)
    | some b ↦ (take_block b m, b)
  ]

  -- `ufs_free_block`
  unfoldable pub free_block : ℕ → Mount B → Mount B
  free_block b m =
      let m1 = (bitmap_set b false m).0 in
      if (b == 0) || leb m.sb.total_blocks b
      then m
      else write_superblock (record m1 {
        sb = record m1.sb { free_blocks = u32 (m1.sb.free_blocks + 1) };
        next_free_block = if ltb b m1.next_free_block then b else m1.next_free_block;
      })

  -- The inode number that round `k` of ufs_alloc_inode looks at.
  abbrev pub inode_candidate : Mount B → ℕ → ℕ
  inode_candidate m k =
      let start =
        if ltb m.next_free_inode 1 || ltb m.sb.inode_count m.next_free_inode
        then 1
        else m.next_free_inode in
      if ltb m.sb.inode_count (start + k) then start + k - m.sb.inode_count else start + k

  -- The block of the table, if it can be read and its inode is free.
  abbrev pub free_slot : Mount B → ℕ → Option B
  free_slot m ino = elim (read_block m (inode_block m ino)) [
    | none ↦ none
    | some block ↦ if (layout.inode_at (inode_slot ino) block).mode == 0 then some block else none
  ]

  -- What ufs_alloc_inode does to the inode that it has found.
  unfoldable pub take_inode : ℕ → B → Mount B → Mount B
  take_inode ino block m =
      let m1 =
        (write_block (inode_block m ino) (layout.put_inode (inode_slot ino) free_inode_slot block)
          m).0 in
      write_superblock (record m1 {
        sb = record m1.sb { free_inodes = sub32 m1.sb.free_inodes 1 };
        next_free_inode = ino + 1;
      })

  unfoldable pub search_inode : ℕ → ℕ → Mount B → Mount B × ℕ
  search_inode zero k m = (m, 0)
  search_inode (suc left) k m =
      let ino = inode_candidate m k in
      let later = search_inode left (suc k) m in
      elim (free_slot m ino) [
        | none ↦ later
        | some block ↦
            if (ino == 0) || ltb m.sb.inode_count ino then later else (take_inode ino block m, ino)
      ]

  -- `ufs_alloc_inode`; 0 is failure.
  unfoldable pub alloc_inode : Mount B → Mount B × ℕ
  alloc_inode m = search_inode m.sb.inode_count 0 m

  -- `ufs_free_inode`
  unfoldable pub free_inode : ℕ → Mount B → Mount B
  free_inode ino m = elim (read_inode m ino) [
    | none ↦ m
    | some inode ↦
        let m1 = (write_inode ino free_inode_slot m).0 in
        write_superblock (record m1 {
          sb = record m1.sb { free_inodes = u32 (m1.sb.free_inodes + 1) };
          next_free_inode = if ltb ino m1.next_free_inode then ino else m1.next_free_inode;
        })
  ]

  unfoldable pub free_run : ℕ → ℕ → Mount B → Mount B
  free_run start zero m = m
  free_run start (suc n) m = free_run (u32 (start + 1)) n (free_block start m)

  unfoldable pub free_extents : List Extent → Mount B → Mount B
  free_extents [] m = m
  free_extents (e ∷ es) m = free_extents es (free_run e.start e.len m)

  -- `ufs_free_inode_blocks`
  unfoldable pub free_inode_blocks : ℕ → Mount B → Mount B
  free_inode_blocks ino m = elim (read_inode m ino) [
    | none ↦ m
    | some inode ↦ free_extents inode.extents m
  ]
