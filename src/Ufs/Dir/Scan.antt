-- ===== src/Ufs/Dir/Scan.antt =====
-- The scan of a directory's blocks, which ufs_find_in_dir, ufs_add_to_dir and ufs_remove_from_dir
-- share.
use utms.Base.{
  ℕ, zero, suc, ◌+◌, ◌<◌, ◌≤◌, ◌≡◌, ◌≢◌, ◌==◌, arith, Bool, true, false, Option, none, some,
  if_cases,
}
use mathlib.Core.Path.{subst}
use native.Mathlib.Decide.{dec_lt}
use utms.Ufs.{Dirent, Inode, Layout, Mount, dirents_per_block}
use utms.Ufs.Extents.{get_block}
use utms.Ufs.Alloc.Search.{IsSane, read_block-some}
use utms.Ufs.Dir.{find_slot, find_entry, dirent_of}

module _ {B : Type 0} ⦃layout : Layout B⦄ (p : Dirent → Bool) where
  -- What the scan of a block gives from place `i` on.
  data Slot (block : B) (n i : ℕ) : Option ℕ → Type 0 where
    missed :
        ((j : ℕ) → i ≤ j → j < i + n → p (layout.dirent_at j block) ≡ false) → Slot block n i none
    hit :
        (j : ℕ) → i ≤ j → j < i + n → p (layout.dirent_at j block) ≡ true → Slot block n i (some j)

  later-Slot :
      (block : B) (n i : ℕ)
      → p (layout.dirent_at i block) ≡ false
      → (r : Option ℕ) → Slot block n (suc i) r
      → Slot block (suc n) i r
  later-Slot block n i f none (missed g) = missed (λ j lo hi. elim (dec_lt i j) [
    | yes lt ↦ g j lt (omega arith)
    | no ge ↦ let e : i ≡ j = omega arith in subst (λ k. p (layout.dirent_at k block) ≡ false) e f
  ])
  later-Slot block n i f (some _) (hit j lo hi t) = hit j (omega arith) (omega arith) t

  find_slot-Slot : (block : B) (n i : ℕ) → Slot block n i (find_slot p block n i)
  unfolding find_slot
  find_slot-Slot block zero i = missed (λ j lo hi. absurd (omega arith))
  find_slot-Slot block (suc n) i =
      if_cases (Slot block (suc n) i) (p (layout.dirent_at i block))
        (λ t. hit i (omega arith) (omega arith) t)
        (λ f. later-Slot block n i f _ (find_slot-Slot block n (suc i)))

  -- No entry of the blocks from index `i` to `e` passes the test.
  abbrev pub Without : Mount B → Inode → ℕ → ℕ → Type 0
  Without m dir i e =
      (k j : ℕ)
      → i ≤ k
      → k < e
      → get_block dir.extents k ≢ 0
      → j < dirents_per_block
      → p (dirent_of m (get_block dir.extents k, j)) ≡ false

  -- What the scan of the blocks gives from index `i` on.
  pub data Entry (m : Mount B) (dir : Inode) (n i : ℕ) : Option (ℕ × ℕ) → Type 0 where
    absent : Without m dir i (i + n) → Entry m dir n i none
    present :
        (k j : ℕ)
        → i ≤ k
        → k < i + n
        → get_block dir.extents k ≢ 0
        → j < dirents_per_block
        → p (dirent_of m (get_block dir.extents k, j)) ≡ true
        → Without m dir i k
        → Entry m dir n i (some (get_block dir.extents k, j))

  later-Without :
      (m : Mount B) (dir : Inode) (i e : ℕ)
      → ((j : ℕ)
          → get_block dir.extents i ≢ 0
          → j < dirents_per_block
          → p (dirent_of m (get_block dir.extents i, j)) ≡ false)
      → Without m dir (suc i) e
      → Without m dir i e
  later-Without m dir i e f g k j lo hi used lt = elim (dec_lt i k) [
    | yes past ↦ g k j past hi used lt
    | no ge ↦
        let here : i ≡ k = omega arith in
        subst
          (λ k. get_block dir.extents k ≢ 0 → p (dirent_of m (get_block dir.extents k, j)) ≡ false)
          here (λ u. f j u lt) used
  ]

  later-Entry :
      (m : Mount B) (dir : Inode) (n i : ℕ)
      → ((j : ℕ)
          → get_block dir.extents i ≢ 0
          → j < dirents_per_block
          → p (dirent_of m (get_block dir.extents i, j)) ≡ false)
      → (r : Option (ℕ × ℕ)) → Entry m dir n (suc i) r
      → Entry m dir (suc n) i r
  later-Entry m dir n i f none (absent g) = absent (
      subst (Without m dir i) {x = suc i + n} {y = i + suc n} (omega arith)
        (later-Without m dir i (suc i + n) f g))
  later-Entry m dir n i f (some _) (present k j lo hi used lt t first) =
      present k j (omega arith) (omega arith) used lt t (later-Without m dir i k f first)

  -- A block is scanned.
  of_Slot :
      (m : Mount B) (dir : Inode) (n i : ℕ)
      → get_block dir.extents i ≢ 0
      → (r : Option ℕ) → Slot (m.device (get_block dir.extents i)) dirents_per_block 0 r
      → (rest : Option (ℕ × ℕ)) → Entry m dir n (suc i) rest
      → Entry m dir (suc n) i (elim r [ none ↦ rest | some j ↦ some (get_block dir.extents i, j) ])
  of_Slot m dir n i used none (missed f) rest e =
      later-Entry m dir n i (λ j u lt. f j (omega arith) (omega arith)) rest e
  of_Slot m dir n i used (some _) (hit j lo hi t) rest e =
      present i j (omega arith) (omega arith) used (omega arith) t
        (λ k j' lo' hi' u lt. absurd (omega arith))

  pub find_entry-Entry :
      (m : Mount B) (dir : Inode) (n i : ℕ)
      → IsSane m
      → ((k : ℕ) → get_block dir.extents k < m.sb.total_blocks)
      → Entry m dir n i (find_entry p m dir n i)
  unfolding find_entry
  find_entry-Entry m dir zero i sane lt = absent (λ k j lo hi used small. absurd (omega arith))
  find_entry-Entry m dir (suc n) i sane lt =
      let b = get_block dir.extents i in
      let rest = find_entry-Entry m dir n (suc i) sane lt in
      if_cases (Entry m dir (suc n) i) (b == 0)
        (λ z. later-Entry m dir n i (λ j used small. absurd (used (ground arith))) _ rest)
        (λ used. rw (read_block-some m b sane (lt i)) (
          of_Slot m dir n i (λ z. ground arith) _ (find_slot-Slot (m.device b) dirents_per_block 0)
            _ rest))
