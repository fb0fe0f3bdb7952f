-- ===== src/Ufs/Alloc/Outcome.antt =====
-- ufs_alloc_block as a whole.
use native.Mathlib.Decide.{dec_lt}
use mathlib.Core.Path.{subst}
use utms.Base.{ℕ, ◌+◌, ◌-◌, ◌<◌, ◌≤◌, ◌≡◌, ◌≢◌, ◌∙◌, Option, none, some, arith}
use utms.Ufs.{Layout, Mount}
use utms.Ufs.Laws.{IsLayout}
use utms.Ufs.Alloc.{candidate, first_candidate, search_block, take_block, alloc_block}
use utms.Ufs.Alloc.Search.{bitmap_bit, IsSane, Search, all_taken, clear_at, search_block-Search}
use utms.Ufs.Alloc.Fresh.{
  device_other, Allocated, full, given, m5, take_block-stores, bit_self, bit_ne,
}

module _ {B : Type 0} ⦃layout : Layout B⦄ where
  first-bounds :
      (m : Mount B)
      → IsSane m
      → (m.sb.data_start ≤ first_candidate m) × (first_candidate m ≤ m.sb.total_blocks)
  first-bounds m sane = let w = sane.within in let s = sane.start in (ground arith, ground arith)

  candidate-ahead :
      (m : Mount B) (start k : ℕ)
      → start + k < m.sb.total_blocks
      → m.sb.total_blocks ≤ 2147483648
      → candidate m start k ≡ start + k
  candidate-ahead m start k lt small = ground arith

  candidate-round :
      (m : Mount B) (start k : ℕ)
      → m.sb.total_blocks ≤ start + k
      → start + k < 4294967296
      → candidate m start k ≡ m.sb.data_start + (start + k - m.sb.total_blocks)
  candidate-round m start k le small = ground arith

  -- Every block of the data is looked at in some round.
  round_of :
      (m : Mount B) (start b : ℕ)
      → IsSane m
      → m.sb.data_start ≤ start
      → start ≤ m.sb.total_blocks
      → m.sb.data_start ≤ b
      → b < m.sb.total_blocks
      → (k : ℕ) × (k < m.sb.total_blocks) × (candidate m start k ≡ b)
  round_of m start b sane lo hi below lt =
      let small = sane.small in
      elim (dec_lt b start) [
        | no ge ↦ (
          b - start,
          omega arith,
          candidate-ahead m start (b - start) (omega arith) small ∙ omega arith,
        )
        | yes wrap ↦ (
          m.sb.total_blocks - start + (b - m.sb.data_start),
          omega arith,
          candidate-round m start (m.sb.total_blocks - start + (b - m.sb.data_start)) (omega arith)
                (omega arith)
              ∙ omega arith,
        )
      ]

  m5-IsSane : (m : Mount B) (b : ℕ) → IsSane m → b < m.sb.total_blocks → IsSane (m5 m b)
  m5-IsSane m b sane lt = record {
    reads = sane.reads;
    writes = sane.writes;
    small = sane.small;
    within = sane.within;
    start = omega arith;
    behind_superblock = sane.behind_superblock;
    before_data = sane.before_data;
  }

  device_self : (m : Mount B) (b : ℕ) → 0 < b → (m5 m b).device b ≡ layout.cleared
  device_self m b pos = ground arith

  others :
      (m : Mount B) (b : ℕ)
      → IsSane m
      → m.sb.data_start ≤ b
      → b < m.sb.total_blocks
      → (a : ℕ) → m.sb.data_start ≤ a
      → b ≢ a
      → (m5 m b).device a ≡ m.device a
  others m b sane lo lt a in_data ne =
      let before = sane.before_data b lt in device_other m b a (omega arith) ne (omega arith)

  module _ (lawful : IsLayout layout) where
    of_Search :
        (m : Mount B) (r : Option ℕ)
        → IsSane m
        → 0 < m.sb.data_start
        → Search m (first_candidate m) m.sb.total_blocks 0 r
        → Allocated m (elim r [ none ↦ (m, 0) | some b ↦ (take_block b m, b) ])
    of_Search m none sane pos (all_taken f) = full (λ b lo lt.
        let (first, last) = first-bounds m sane in
        let (k, below, e) = round_of m (first_candidate m) b sane first last lo lt in
        let none_free = f k (omega arith) (omega arith) (omega (arith, e)) (omega (arith, e)) in
        subst (λ c. bitmap_bit m c ≢ 0) e none_free)
    of_Search m (some c) sane pos (clear_at b lo lt e) = rw (take_block-stores m b sane lt) (
        given b (m5 m b) lo lt e (bit_self lawful m b sane lo lt)
          (λ j jlt ne. bit_ne lawful m b j sane lo jlt ne) (device_self m b (omega arith))
          (others m b sane lo lt) (m5-IsSane m b sane lt))

    -- For a lawful layout, on a mount whose device can be read and written, with the bitmap in
    -- front of the data and behind block 0 and at most 2^31 blocks: ufs_alloc_block gives 0 only
    -- where every block of the data is taken, and then changes nothing; otherwise it gives a block
    -- of the data that was free, marks it and no other, clears it, leaves the other blocks of the
    -- data, and the mount stays as said.
    pub alloc_block-Allocated :
        (m : Mount B) → IsSane m → 0 < m.sb.data_start → Allocated m (alloc_block m)
    unfolding alloc_block
    alloc_block-Allocated m sane pos =
        of_Search m (search_block m (first_candidate m) m.sb.total_blocks 0) sane pos
          (search_block-Search m (first_candidate m) m.sb.total_blocks 0 sane)
