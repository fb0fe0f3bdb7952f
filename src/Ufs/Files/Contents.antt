-- ===== src/Ufs/Files/Contents.antt =====
-- The contents of a file as one list of bytes, and what ufs_vfs_read gives of it.
use utms.Base.{
  Option, elim_some, not, leb, ◌&&◌, ◌/◌, ◌%◌, inl, inr, Bool-cases, false, u32, refl, get_or, All,
  length-drop, ◌-◌, ◌==◌, ◌||◌, min, zero, suc, if_cases, take, ◌≤◌, ℕ, ◌+◌, ◌*◌, ◌<◌, ◌≡◌, ◌∙◌,
  sym, ap, arith, true, List, [], ◌∷◌, ◌++◌, some, drop, length,
}
use utms.Base.Int.{ℤ, to_int}
use utms.Base.Slices.{
  take-drop-take, take-nothing, take-append, drop-append_short, drop-append_long, drop-nothing,
}
use mathlib.Core.Path.{subst}
use utms.Ufs.Files.{read, get_block, read_loop}
use utms.Ufs.{read_inode, Inode, Layout, Mount, block_size, read_block}
use utms.Ufs.Extents.Insert.{Fits, get_block-blocks_of, blocks_of}
use native.Mathlib.Decide.{dec_lt}
use utms.Ufs.Laws.{IsLayout}

abbrev with_length : List ℕ → List ℕ × ℤ
with_length l = (l, to_int (length l))

module _ {B : Type 0} ⦃layout : Layout B⦄ where
  -- The bytes of blocks, one behind the other.
  unfoldable pub contents : Mount B → List ℕ → List ℕ
  contents m [] = []
  contents m (b ∷ bs) = layout.bytes_of (m.device b) ++ contents m bs

  -- A block that ufs_read_block reads, and that is not 0.
  abbrev pub Reads : Mount B → ℕ → Type 0
  Reads m b = (0 < b) × (b < m.sb.total_blocks) × (m.readable b ≡ true)

  read_block-Reads : (m : Mount B) (b : ℕ) → Reads m b → read_block m b ≡ some (m.device b)
  unfolding read_block
  read_block-Reads m b (pos, lt, r) = ground arith

  -- A place in the contents, behind whole blocks.
  drop-contents :
      (m : Mount B) (i off : ℕ) (bs : List ℕ)
      → IsLayout layout
      → drop (block_size * i + off) (contents m bs) ≡ drop off (contents m (drop i bs))
  unfolding contents
  drop-contents m zero off bs lawful =
      ap (λ k. drop k (contents m bs)) {x = block_size * 0 + off} {y = off} (omega arith)
  drop-contents m (suc i) off [] lawful =
      drop-nothing (block_size * suc i + off) ∙ sym (drop-nothing off)
  drop-contents m (suc i) off (b ∷ bs) lawful =
      let block = layout.bytes_of (m.device b) in
      let long = lawful.bytes_length (m.device b) in
      ap (λ k. drop k (block ++ contents m bs)) {x = block_size * suc i + off}
        {y = length block + (block_size * i + off)} (omega arith)
      ∙ (drop-append_long (block_size * i + off) block (contents m bs)
          ∙ drop-contents m i off bs lawful)

  -- One round of ufs_vfs_read against the contents.
  slice-step :
      (m : Mount B) (b off left : ℕ) (bs : List ℕ)
      → IsLayout layout
      → off ≤ block_size
      → take left (drop off (contents m (b ∷ bs)))
        ≡ take (min (block_size - off) left) (drop off (layout.bytes_of (m.device b)))
          ++ take (left - min (block_size - off) left) (contents m bs)
  unfolding contents
  slice-step m b off left bs lawful le =
      let block = layout.bytes_of (m.device b) in
      let long = lawful.bytes_length (m.device b) in
      let size : length (drop off block) ≡ block_size - off =
        omega (arith, length-drop off block) in
      let behind : left - (block_size - off) ≡ left - min (block_size - off) left = omega arith in
      rw (drop-append_short off block (contents m bs) (omega arith))
        (rw (take-append left (drop off block) (contents m bs)) (rw (size, behind) refl))

  -- Behind the last block there is none.
  no_block :
      (m : Mount B) (bs : List ℕ) (i : ℕ) → All (Reads m) bs → get_or bs i 0 ≡ 0 → drop i bs ≡ []
  no_block m [] i reads e = drop-nothing i
  no_block m (b ∷ bs) zero ((pos, lt, r), reads) e = absurd (omega arith)
  no_block m (b ∷ bs) (suc i) (first, reads) e = no_block m bs i reads e

  block_at :
      (m : Mount B) (bs : List ℕ) (i : ℕ)
      → All (Reads m) bs
      → 0 < get_or bs i 0
      → Reads m (get_or bs i 0) × (drop i bs ≡ get_or bs i 0 ∷ drop (i + 1) bs)
  block_at m [] i reads pos = absurd (omega arith)
  block_at m (b ∷ bs) zero (first, reads) pos = (first, refl)
  block_at m (b ∷ bs) (suc i) (first, reads) pos =
      let (here, split) = block_at m bs i reads pos in
      (
        here,
        split
            ∙ ap (λ k. get_or bs i 0 ∷ drop k (b ∷ bs)) {x = suc (i + 1)} {y = suc i + 1}
                (omega arith),
      )

  ended :
      (m : Mount B) (bs : List ℕ) (i off left b : ℕ)
      → All (Reads m) bs
      → b ≡ get_or bs i 0
      → ((left == 0) || (b == 0)) ≡ true
      → [] ≡ take left (drop off (contents m (drop i bs)))
  unfolding contents
  ended m bs i off left b reads same t = elim (dec_lt 0 left) [
    | no z ↦ ap (λ n. take n (drop off (contents m (drop i bs)))) {x = 0} {y = left} (omega arith)
    | yes pos ↦
        rw
          (
            no_block m bs i reads (ground arith),
            drop-nothing {A = ℕ} off,
            take-nothing {A = ℕ} left,
          )
          refl
  ]

  read_loop-end : (m : Mount B) (inode : Inode) (i off : ℕ) → read_loop m inode 0 i off 0 ≡ []
  unfolding read_loop
  read_loop-end m inode i off = refl

  read_loop-stop :
      (m : Mount B) (inode : Inode) (rounds i off left : ℕ)
      → ((left == 0) || (get_block inode.extents i == 0)) ≡ true
      → read_loop m inode (suc rounds) i off left ≡ []
  unfolding read_loop
  read_loop-stop m inode rounds i off left t = rw t refl

  read_loop-round :
      (m : Mount B) (inode : Inode) (rounds i off left : ℕ)
      → Reads m (get_block inode.extents i)
      → ((left == 0) || (get_block inode.extents i == 0)) ≡ false
      → read_loop m inode (suc rounds) i off left
        ≡ take
            (min (block_size - off) left)
            (drop off (layout.bytes_of (m.device (get_block inode.extents i))))
          ++ read_loop m inode rounds (u32 (i + 1)) 0 (left - min (block_size - off) left)
  unfolding read_loop
  read_loop-round m inode rounds i off left here t =
      rw (t, read_block-Reads m (get_block inode.extents i) here) refl

  -- The loop from index `i` on gives the contents from there on.
  pub read_loop-contents :
      (m : Mount B) (inode : Inode) (rounds i off left : ℕ)
      → IsLayout layout
      → All Fits inode.extents
      → All (Reads m) (blocks_of inode.extents)
      → left ≤ rounds
      → off < block_size
      → block_size * i + off + left ≤ 4294967296
      → read_loop m inode rounds i off left
        ≡ take left (drop off (contents m (drop i (blocks_of inode.extents))))
  read_loop-contents m inode zero i off left lawful fits reads le lt small =
      let bytes = drop off (contents m (drop i (blocks_of inode.extents))) in
      let none_left : left ≡ 0 = omega arith in rw none_left (read_loop-end m inode i off)
  read_loop-contents m inode (suc rounds) i off left lawful fits reads le lt small =
      let bs = blocks_of inode.extents in
      let b = get_block inode.extents i in
      let same : b ≡ get_or bs i 0 = get_block-blocks_of inode.extents i fits in
      let chunk = min (block_size - off) left in
      elim (Bool-cases ((left == 0) || (b == 0))) [
        | inl t ↦ read_loop-stop m inode rounds i off left t ∙ ended m bs i off left b reads same t
        | inr t ↦
            let (here, split) = block_at m bs i reads (ground arith) in
            let first : drop i bs ≡ b ∷ drop (i + 1) bs =
              split ∙ ap (λ x. x ∷ drop (i + 1) bs) (sym same) in
            let word : u32 (i + 1) ≡ i + 1 = ground arith in
            read_loop-round m inode rounds i off left (subst (Reads m) (sym same) here) t
            ∙ (ap (λ r. take chunk (drop off (layout.bytes_of (m.device b))) ++ r)
                  (ap (λ k. read_loop m inode rounds k 0 (left - chunk)) word
                    ∙ read_loop-contents m inode rounds (i + 1) 0 (left - chunk) lawful fits reads
                        (ground arith) (omega arith) (ground arith))
                ∙ (sym (slice-step m b off left (drop (i + 1) bs) lawful (omega arith))
                    ∙ ap (λ l. take left (drop off (contents m l))) (sym first)))
      ]

  -- The bytes of a file: as many of its blocks' as its size says.
  abbrev pub file_bytes : Mount B → Inode → List ℕ
  file_bytes m inode = take inode.size (contents m (blocks_of inode.extents))

  -- For a lawful layout and a mounted file system: of a file whose inode can be read, whose extents
  -- fit and whose blocks can all be read, ufs_vfs_read gives the bytes from the offset on, at most
  -- as many as asked for, however they lie in its blocks and extents, and none behind the end; its
  -- result is their number, converted to `int`.
  pub read-file_bytes :
      (m : Mount B) (ino size offset : ℕ) (inode : Inode)
      → IsLayout layout
      → m.mounted ≡ true
      → read_inode m ino ≡ some inode
      → inode.size < 4294967296
      → All Fits inode.extents
      → All (Reads m) (blocks_of inode.extents)
      → read ino true size offset m
        ≡ some (
          take size (drop offset (file_bytes m inode)),
          to_int (length (take size (drop offset (file_bytes m inode)))),
        )
  unfolding read
  read-file_bytes m ino size offset inode lawful on found small fits reads =
      let n = min size (inode.size - offset) in
      let wanted = take size (drop offset (file_bytes m inode)) in
      let whole = with_length wanted in
      let P : Option (List ℕ × ℤ) → Type 0 = λ r. r ≡ some whole in
      let bs = blocks_of inode.extents in
      let sliced : take n (drop offset (contents m bs)) ≡ wanted =
        sym (take-drop-take size offset inode.size (contents m bs)) in
      elim_some P (read_inode m ino) _ _ found (
        if_cases P (not (m.mounted && true)) (λ t. absurd (ground arith))
          (λ t.
            if_cases P (leb inode.size offset)
              (λ behind.
                let nothing : 0 ≡ n = ground arith in
                ap (λ l. some (with_length l))
                  (ap (λ k. take k (drop offset (contents m bs))) nothing ∙ sliced))
              (λ within.
                let word : u32 (offset / block_size) ≡ offset / block_size = ground arith in
                let place : block_size * (offset / block_size) + offset % block_size ≡ offset =
                  omega arith in
                ap (λ l. some (with_length l))
                  (ap (λ i. read_loop m inode n i (offset % block_size) n) word
                    ∙ (read_loop-contents m inode n (offset / block_size) (offset % block_size) n
                          lawful fits reads (omega arith) (omega arith) (ground arith)
                        ∙ (ap (take n) (
                              sym (
                                drop-contents m (offset / block_size) (offset % block_size) bs
                                  lawful)
                              ∙ ap (λ k. drop k (contents m bs)) place)
                            ∙ sliced))))))
