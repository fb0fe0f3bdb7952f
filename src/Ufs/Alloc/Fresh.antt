-- ===== src/Ufs/Alloc/Fresh.antt =====
-- What ufs_alloc_block gives.
use mathlib.Core.Path.{ap₂}
use Prim.Native.Nat.{bit_or}
use native.Mathlib.Decide.{ℕ_discrete}
use utms.Base.Bits.{pow-lt_pow, digit-bit_or, digit-pow_self, digit-pow_ne, bit_or-lt}
use utms.Ufs.Laws.{IsLayout}
use utms.Ufs.Alloc.{bit_of, bitmap_block, bitmap_set, take_block}
use utms.Ufs.Alloc.Search.{bitmap_bit, IsSane, stored, read_block-some, write_block-stored}
use utms.Base.{
  sym, ◌==◌, if◌then◌else◌, refl, if_known, ℕ, ◌+◌, ◌/◌, ◌%◌, ◌^◌, ◌<◌, ◌≤◌, ◌≡◌, ◌≢◌, ◌∙◌, Bool,
  true, leb, sub32, ap, arith, if_cases,
}
use utms.Ufs.{Layout, Mount, write_superblock, sb_checksum}

module _ {B : Type 0} ⦃layout : Layout B⦄ where
  -- What ufs_alloc_block does: it gives 0, every block of the data being taken; or a block of the
  -- data that was free and is then taken, with the other bits, and the other blocks of the data, as
  -- they were.
  pub data Allocated (m : Mount B) : Mount B × ℕ → Type 0 where
    full :
        ((b : ℕ) → m.sb.data_start ≤ b → b < m.sb.total_blocks → bitmap_bit m b ≢ 0)
        → Allocated m (m, 0)
    given :
        (b : ℕ) (m' : Mount B)
        → m.sb.data_start ≤ b
        → b < m.sb.total_blocks
        → bitmap_bit m b ≡ 0
        → bitmap_bit m' b ≡ 1
        → ((j : ℕ) → j < m.sb.total_blocks → b ≢ j → bitmap_bit m' j ≡ bitmap_bit m j)
        → m'.device b ≡ layout.cleared
        → ((a : ℕ) → m.sb.data_start ≤ a → b ≢ a → m'.device a ≡ m.device a)
        → IsSane m'
        → Allocated m (m', b)

  pub marked : Mount B → ℕ → B
  marked m b =
      let block = m.device (bitmap_block m b) in
      let off = b % 32768 / 8 in
      layout.put_byte off (bit_or (layout.byte_at off block) (2 ^ (b % 8))) block

  -- The mount after each of the three stores.
  module _ (m : Mount B) (b : ℕ) where
    abbrev pub m1 : Mount B
    m1 = stored (bitmap_block m b) (marked m b) m

    abbrev m2 : Mount B
    m2 = record m1 {
      sb = record m1.sb { free_blocks = sub32 m1.sb.free_blocks 1 };
      next_free_block = b + 1;
    }

    abbrev m3 : Mount B
    m3 = stored b layout.cleared m2

    abbrev m4 : Mount B
    m4 = record m3 { sb = record m3.sb { checksum = sb_checksum m3.sb } }

    abbrev pub m5 : Mount B
    m5 = stored 0 (layout.put_superblock m4.sb (m3.device 0)) m4

  pub bitmap_set-marked :
      (m : Mount B) (b : ℕ)
      → IsSane m
      → b < m.sb.total_blocks
      → bitmap_set b true m ≡ (m1 m b, true)
  unfolding bitmap_set marked
  bitmap_set-marked m b sane lt =
      let there = sane.before_data b lt in
      let below = sane.within in
      if_cases (λ (r : Mount B × Bool). r ≡ (m1 m b, true)) (leb m.sb.total_blocks b)
        (λ t. absurd (ground arith))
        (λ t.
          rw (read_block-some m (bitmap_block m b) sane (omega arith))
            (write_block-stored m (bitmap_block m b) (marked m b) (sane.writes _) (omega arith)))

  pub write_superblock-stores :
      (n : Mount B)
      → n.writable 0 ≡ true
      → 0 < n.sb.total_blocks
      → write_superblock n ≡ (
          let sb = record n.sb { checksum = sb_checksum n.sb } in
          stored 0 (layout.put_superblock sb (n.device 0)) (record n { sb = sb }))
  unfolding write_superblock
  write_superblock-stores n w pos = ground arith

  pub take_block-stores :
      (m : Mount B) (b : ℕ) → IsSane m → b < m.sb.total_blocks → take_block b m ≡ m5 m b
  unfolding take_block
  take_block-stores m b sane lt = rw (bitmap_set-marked m b sane lt) (
      ap (λ (r : Mount B × Bool). write_superblock r.0)
        (write_block-stored (m2 m b) b layout.cleared (sane.writes b) lt)
      ∙ write_superblock-stores (m3 m b) (sane.writes 0) (omega arith))

module _ {B : Type 0} ⦃layout : Layout B⦄ where
  pub device_other :
      (m : Mount B) (b a : ℕ)
      → 0 < a
      → b ≢ a
      → bitmap_block m b < a
      → (m5 m b).device a ≡ m.device a
  device_other m b a pos ne lt = ground arith

module _ {B : Type 0} ⦃layout : Layout B⦄ (lawful : IsLayout layout) where
  marked-byte :
      (m : Mount B) (b : ℕ)
      → layout.byte_at (b % 32768 / 8) (marked m b)
        ≡ bit_or (layout.byte_at (b % 32768 / 8) (m.device (bitmap_block m b))) (2 ^ (b % 8))
  unfolding marked
  marked-byte m b =
      lawful.byte_self (b % 32768 / 8) _ _ (omega arith)
        (bit_or-lt 8 _ _ (lawful.byte_lt _ _) (pow-lt_pow (b % 8) 8 (omega arith)))

  marked-bit_self :
      (m : Mount B) (b : ℕ) → bit_of (b % 8) (layout.byte_at (b % 32768 / 8) (marked m b)) ≡ 1
  marked-bit_self m b =
      let x = layout.byte_at (b % 32768 / 8) (m.device (bitmap_block m b)) in
      ap (bit_of (b % 8)) (marked-byte m b)
      ∙ omega (arith, digit-bit_or (b % 8) x (2 ^ (b % 8)), digit-pow_self (b % 8))

  -- Another block whose bit lies in the same block of the bitmap.
  pub marked-bit_ne :
      (m : Mount B) (b j : ℕ)
      → b ≢ j
      → j / 32768 ≡ b / 32768
      → bit_of (j % 8) (layout.byte_at (j % 32768 / 8) (marked m b)) ≡ bitmap_bit m j
  unfolding marked
  marked-bit_ne m b j ne same =
      let x = layout.byte_at (b % 32768 / 8) (m.device (bitmap_block m b)) in
      let place : bitmap_block m b ≡ bitmap_block m j = omega arith in
      elim (ℕ_discrete (b % 32768 / 8) (j % 32768 / 8)) [
        | yes off ↦
            ap (λ o. bit_of (j % 8) (layout.byte_at o (marked m b))) (sym off)
            ∙ (ap (bit_of (j % 8)) (marked-byte m b)
                ∙ (omega (
                  arith,
                  digit-bit_or (j % 8) x (2 ^ (b % 8)),
                  digit-pow_ne (b % 8) (j % 8) (λ e. ne (omega arith)),
                )
                    ∙ ap₂ (λ a o. bit_of (j % 8) (layout.byte_at o (m.device a))) place off))
        | no off ↦ ap (bit_of (j % 8)) (
            lawful.byte_ne (b % 32768 / 8) (j % 32768 / 8) _ _ (omega arith) (omega arith) off
            ∙ ap (λ a. layout.byte_at (j % 32768 / 8) (m.device a)) place)
      ]

  -- The blocks after the three stores.
  device-bitmap :
      (m : Mount B) (b a : ℕ)
      → 0 < a
      → b ≢ a
      → (m5 m b).device a ≡ (if a == bitmap_block m b then marked m b else m.device a)
  device-bitmap m b a pos ne = ground arith

  pub bit_self :
      (m : Mount B) (b : ℕ)
      → IsSane m
      → m.sb.data_start ≤ b
      → b < m.sb.total_blocks
      → bitmap_bit (m5 m b) b ≡ 1
  bit_self m b sane lo lt =
      let before = sane.before_data b lt in
      let behind = sane.behind_superblock in
      ap (λ x. bit_of (b % 8) (layout.byte_at (b % 32768 / 8) x))
        (device-bitmap m b (bitmap_block m b) (omega arith) (λ e. omega arith)
          ∙ if_known (λ (x : B). x ≡ marked m b) (bitmap_block m b == bitmap_block m b) _
              (ground arith) refl)
      ∙ marked-bit_self m b

  pub bit_ne :
      (m : Mount B) (b j : ℕ)
      → IsSane m
      → m.sb.data_start ≤ b
      → j < m.sb.total_blocks
      → b ≢ j
      → bitmap_bit (m5 m b) j ≡ bitmap_bit m j
  bit_ne m b j sane lo lt ne =
      let before = sane.before_data j lt in
      let behind = sane.behind_superblock in
      ap (λ x. bit_of (j % 8) (layout.byte_at (j % 32768 / 8) x))
        (device-bitmap m b (bitmap_block m j) (omega arith) (λ e. omega arith))
      ∙ if_cases (λ (x : B). bit_of (j % 8) (layout.byte_at (j % 32768 / 8) x) ≡ bitmap_bit m j)
          (bitmap_block m j == bitmap_block m b) (λ e. marked-bit_ne m b j ne (ground arith))
          (λ e. refl)
