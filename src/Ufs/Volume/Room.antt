-- ===== src/Ufs/Volume/Room.antt =====
-- The two loops of ufs_vfs_format: the blocks in front of the data are cleared and marked, and
-- those of the data stay free.
use utms.Base.{ℕ, zero, suc, ◌+◌, ◌/◌, ◌%◌, ◌<◌, ◌≤◌, ◌≡◌, ◌≢◌, ◌∙◌, ◌==◌, refl, arith, if_cases}
use native.Mathlib.Decide.{dec_lt}
use utms.Ufs.{Layout, Mount}
use utms.Ufs.Laws.{IsLayout}
use utms.Ufs.Alloc.{bit_of, bitmap_block}
use utms.Ufs.Alloc.Search.{bitmap_bit, IsSane, stored, write_block-stored}
use utms.Ufs.Alloc.Fresh.{m1, marked, bitmap_set-marked, marked-bit_ne}
use utms.Ufs.Volume.{clear_blocks, mark_blocks}

module _ {B : Type 0} ⦃layout : Layout B⦄ where
  -- A store of one block keeps a mount sane.
  pub stored-IsSane : (m : Mount B) (b : ℕ) (block : B) → IsSane m → IsSane (stored b block m)
  stored-IsSane m b block sane = record {
    reads = sane.reads;
    writes = sane.writes;
    small = sane.small;
    within = sane.within;
    start = sane.start;
    behind_superblock = sane.behind_superblock;
    before_data = sane.before_data;
  }

  -- A mount that is as another but for its blocks.
  pub record Alike (m m' : Mount B) : Type 0 where
    pub sane : IsSane m'
    pub sb : m'.sb ≡ m.sb
    pub readable : m'.readable ≡ m.readable
    pub writable : m'.writable ≡ m.writable

  pub Alike-refl : (m : Mount B) → IsSane m → Alike m m
  Alike-refl m sane = record { sane = sane; sb = refl; readable = refl; writable = refl }

  Alike-stored :
      (m m' : Mount B) (b : ℕ) (block : B) → IsSane m → Alike (stored b block m) m' → Alike m m'
  Alike-stored m m' b block sane a = record {
    sane = a.sane;
    sb = a.sb;
    readable = a.readable;
    writable = a.writable;
  }

  clear_blocks-step :
      (n i : ℕ) (m : Mount B)
      → IsSane m
      → i < m.sb.total_blocks
      → clear_blocks (suc n) i m ≡ clear_blocks n (suc i) (stored i layout.cleared m)
  unfolding clear_blocks
  clear_blocks-step n i m sane lt =
      rw (write_block-stored m i layout.cleared (sane.writes i) lt) refl

  mark_blocks-step :
      (n i : ℕ) (m : Mount B)
      → IsSane m
      → i < m.sb.total_blocks
      → mark_blocks (suc n) i m ≡ mark_blocks n (suc i) (m1 m i)
  unfolding mark_blocks
  mark_blocks-step n i m sane lt = rw (bitmap_set-marked m i sane lt) refl

  -- The blocks that are cleared, and the others.
  pub clear_blocks-Alike :
      (n i : ℕ) (m : Mount B) → IsSane m → i + n ≤ m.sb.total_blocks → Alike m (clear_blocks n i m)
  unfolding clear_blocks
  clear_blocks-Alike zero i m sane le = Alike-refl m sane
  clear_blocks-Alike (suc n) i m sane le = rw (clear_blocks-step n i m sane (omega arith)) (
      Alike-stored m _ i layout.cleared sane (
        clear_blocks-Alike n (suc i) (stored i layout.cleared m)
          (stored-IsSane m i layout.cleared sane) (omega arith)))

  pub clear_blocks-kept :
      (n i a : ℕ) (m : Mount B)
      → IsSane m
      → i + n ≤ m.sb.total_blocks
      → a < i
      → (clear_blocks n i m).device a ≡ m.device a
  unfolding clear_blocks
  clear_blocks-kept zero i a m sane le lt = refl
  clear_blocks-kept (suc n) i a m sane le lt = rw (clear_blocks-step n i m sane (omega arith)) (
      clear_blocks-kept n (suc i) a (stored i layout.cleared m)
        (stored-IsSane m i layout.cleared sane) (omega arith) (omega arith)
      ∙ ground arith)

  pub clear_blocks-cleared :
      (n i a : ℕ) (m : Mount B)
      → IsSane m
      → i + n ≤ m.sb.total_blocks
      → i ≤ a
      → a < i + n
      → (clear_blocks n i m).device a ≡ layout.cleared
  unfolding clear_blocks
  clear_blocks-cleared zero i a m sane le lo lt = absurd (omega arith)
  clear_blocks-cleared (suc n) i a m sane le lo lt =
      rw (clear_blocks-step n i m sane (omega arith)) (elim (dec_lt i a) [
        | yes later ↦
            clear_blocks-cleared n (suc i) a (stored i layout.cleared m)
              (stored-IsSane m i layout.cleared sane) (omega arith) (omega arith) (omega arith)
        | no here ↦
            clear_blocks-kept n (suc i) a (stored i layout.cleared m)
              (stored-IsSane m i layout.cleared sane) (omega arith) (omega arith)
            ∙ ground arith
      ])

module _ {B : Type 0} ⦃layout : Layout B⦄ (lawful : IsLayout layout) where
  -- A bit is as it was after another is set.
  bitmap_bit-marked : (m : Mount B) (b j : ℕ) → b ≢ j → bitmap_bit (m1 m b) j ≡ bitmap_bit m j
  bitmap_bit-marked m b j ne =
      if_cases (λ (x : B). bit_of (j % 8) (layout.byte_at (j % 32768 / 8) x) ≡ bitmap_bit m j)
        (bitmap_block m j == bitmap_block m b) (λ e. marked-bit_ne lawful m b j ne (ground arith))
        (λ e. refl)

  pub mark_blocks-Alike :
      (n i : ℕ) (m : Mount B) → IsSane m → i + n ≤ m.sb.total_blocks → Alike m (mark_blocks n i m)
  unfolding mark_blocks
  mark_blocks-Alike zero i m sane le = Alike-refl m sane
  mark_blocks-Alike (suc n) i m sane le = rw (mark_blocks-step n i m sane (omega arith)) (
      Alike-stored m _ (bitmap_block m i) (marked m i) sane
        (mark_blocks-Alike n (suc i) (m1 m i) (stored-IsSane m _ _ sane) (omega arith)))

  pub bitmap_bit-mark_blocks :
      (n i j : ℕ) (m : Mount B)
      → IsSane m
      → i + n ≤ m.sb.total_blocks
      → i + n ≤ j
      → bitmap_bit (mark_blocks n i m) j ≡ bitmap_bit m j
  unfolding mark_blocks
  bitmap_bit-mark_blocks zero i j m sane le behind = refl
  bitmap_bit-mark_blocks (suc n) i j m sane le behind =
      rw (mark_blocks-step n i m sane (omega arith)) (
        bitmap_bit-mark_blocks n (suc i) j (m1 m i) (stored-IsSane m _ _ sane) (omega arith)
          (omega arith)
        ∙ bitmap_bit-marked m i j (λ e. omega arith))
