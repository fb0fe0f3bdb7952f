-- ===== src/Ufs/Alloc/Search.antt =====
-- The search for a free block in the bitmap.
use utms.Base.{==_iff}
use mathlib.Core.Path.{subst}
use native.Mathlib.Decide.{dec_lt}
use utms.Base.{
  zero, suc, ℕ, ◌+◌, ◌/◌, ◌%◌, ◌<◌, ◌≤◌, ◌≡◌, ◌≢◌, ◌==◌, ◌||◌, not, if◌then◌else◌, true, false,
  Option, none, some, ltb, leb, refl, arith, if_cases, if_known,
}
use utms.Ufs.{Layout, Mount, read_block, write_block}
use utms.Ufs.Alloc.{bit_of, bitmap_block, candidate, bitmap_get, is_clear, search_block}

module _ {B : Type 0} ⦃layout : Layout B⦄ where
  -- The bit of a block in the bitmap.
  abbrev pub bitmap_bit : Mount B → ℕ → ℕ
  bitmap_bit m b = bit_of (b % 8) (layout.byte_at (b % 32768 / 8) (m.device (bitmap_block m b)))

  -- Every block can be read and written, and the bitmap lies between the superblock and the data.
  pub record IsSane (m : Mount B) : Type 0 where
    pub reads : (b : ℕ) → m.readable b ≡ true
    pub writes : (b : ℕ) → m.writable b ≡ true
    pub small : m.sb.total_blocks ≤ 2147483648
    pub within : m.sb.data_start ≤ m.sb.total_blocks
    pub start : m.next_free_block ≤ m.sb.total_blocks
    pub behind_superblock : 0 < m.sb.bitmap_start
    pub before_data : (b : ℕ) → b < m.sb.total_blocks → bitmap_block m b < m.sb.data_start

  -- What the search gives from round `i` on.
  pub data Search (m : Mount B) (start left i : ℕ) : Option ℕ → Type 0 where
    all_taken :
        ((k : ℕ)
          → i ≤ k
          → k < i + left
          → m.sb.data_start ≤ candidate m start k
          → candidate m start k < m.sb.total_blocks
          → bitmap_bit m (candidate m start k) ≢ 0)
        → Search m start left i none
    clear_at :
        (b : ℕ)
        → m.sb.data_start ≤ b
        → b < m.sb.total_blocks
        → bitmap_bit m b ≡ 0
        → Search m start left i (some b)

  pub read_block-some :
      (m : Mount B) (b : ℕ) → IsSane m → b < m.sb.total_blocks → read_block m b ≡ some (m.device b)
  unfolding read_block
  read_block-some m b sane lt = let r = sane.reads b in ground arith

  abbrev pub stored : ℕ → B → Mount B → Mount B
  stored b block m = record m { device = λ a. if a == b then block else m.device a }

  pub write_block-stored :
      (m : Mount B) (b : ℕ) (block : B)
      → m.writable b ≡ true
      → b < m.sb.total_blocks
      → write_block b block m ≡ (stored b block m, true)
  unfolding write_block
  write_block-stored m b block w lt = ground arith

  bitmap_get-bit :
      (m : Mount B) (b : ℕ)
      → IsSane m
      → b < m.sb.total_blocks
      → bitmap_get m b ≡ some (bitmap_bit m b)
  unfolding bitmap_get
  bitmap_get-bit m b sane lt =
      let there = sane.before_data b lt in
      let below = sane.within in
      let read = read_block-some m (bitmap_block m b) sane (omega arith) in
      if_cases (λ (r : Option ℕ). r ≡ some (bitmap_bit m b)) (leb m.sb.total_blocks b)
        (λ t. absurd (ground arith)) (λ t. rw read refl)

  bitmap_get-none : (m : Mount B) (b : ℕ) → m.sb.total_blocks ≤ b → bitmap_get m b ≡ none
  unfolding bitmap_get
  bitmap_get-none m b le =
      if_known (λ (r : Option ℕ). r ≡ none) (leb m.sb.total_blocks b) _ (ground arith) refl

  clear-bit :
      (m : Mount B) (b : ℕ)
      → IsSane m
      → is_clear (bitmap_get m b) ≡ true
      → (b < m.sb.total_blocks) × (bitmap_bit m b ≡ 0)
  clear-bit m b sane t = elim (dec_lt b m.sb.total_blocks) [
    | yes lt ↦ let e = rw (bitmap_get-bit m b sane lt) at t in (lt, (==_iff (bitmap_bit m b) 0).0 e)
    | no ge ↦ let e = rw (bitmap_get-none m b (omega arith)) at t in absurd (clash e)
  ]
    where
      clash : false ≡ true → ⊥
      clash e = cc

  passed-bit :
      (m : Mount B) (b : ℕ)
      → IsSane m
      → (ltb b m.sb.data_start || not (is_clear (bitmap_get m b))) ≡ true
      → m.sb.data_start ≤ b
      → b < m.sb.total_blocks
      → bitmap_bit m b ≢ 0
  passed-bit m b sane t lo lt e =
      let f = rw (bitmap_get-bit m b sane lt) at t in
      let g = (==_iff (bitmap_bit m b) 0).1 e in ground arith

  later-Search :
      (m : Mount B) (start left i : ℕ)
      → (m.sb.data_start ≤ candidate m start i
          → candidate m start i < m.sb.total_blocks
          → bitmap_bit m (candidate m start i) ≢ 0)
      → (r : Option ℕ) → Search m start left (suc i) r
      → Search m start (suc left) i r
  later-Search m start left i h none (all_taken f) = all_taken (λ k lo hi. elim (dec_lt i k) [
    | yes lt ↦ f k lt (omega arith)
    | no ge ↦
        let e : i ≡ k = omega arith in
        subst
          (λ j.
            m.sb.data_start ≤ candidate m start j
            → candidate m start j < m.sb.total_blocks
            → bitmap_bit m (candidate m start j) ≢ 0)
          e h
  ])
  later-Search m start left i h (some c) (clear_at b lo lt e) = clear_at b lo lt e

  pub search_block-Search :
      (m : Mount B) (start left i : ℕ)
      → IsSane m
      → Search m start left i (search_block m start left i)
  unfolding search_block
  search_block-Search m start zero i sane = all_taken (λ k lo hi. absurd (omega arith))
  search_block-Search m start (suc left) i sane =
      let b = candidate m start i in
      if_cases (Search m start (suc left) i)
        (ltb b m.sb.data_start || not (is_clear (bitmap_get m b)))
        (λ t.
          later-Search m start left i (passed-bit m b sane t) _
            (search_block-Search m start left (suc i) sane))
        (λ t. let (lt, e) = clear-bit m b sane (ground arith) in clear_at b (ground arith) lt e)
