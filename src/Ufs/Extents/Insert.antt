-- ===== src/Ufs/Extents/Insert.antt =====
-- The extents as a list of blocks: what ufs_get_block reads, and where ufs_append_block puts a
-- block.
use mathlib.Core.Path.{ap₂}
use native.Mathlib.Decide.{dec_lt}
use utms.Base.{
  ◌≢◌, zero, suc, ℕ, ◌+◌, ◌-◌, ◌<◌, ◌≤◌, ◌≡◌, ◌==◌, ◌∙◌, if◌then◌else◌, List, [], ◌∷◌, ◌++◌, Option,
  none, some, u32, take, drop, length, get_or, All, refl, ap, sym, arith, if_cases,
}
use utms.Ufs.{Extent}
use utms.Ufs.Extents.{get_block, append_block}

abbrev pub count_up : ℕ → ℕ → List ℕ
count_up start zero = []
count_up start (suc n) = start ∷ count_up (suc start) n

-- The blocks of a file in the order of its bytes: the extents up to the first empty one.
unfoldable pub blocks_of : List Extent → List ℕ
blocks_of [] = []
blocks_of (e ∷ es) =
    let later = blocks_of es in if e.len == 0 then [] else count_up e.start e.len ++ later

-- The numbers of an extent's blocks are 32-bit words, also the one behind it, and its length is one
-- that can still grow.
abbrev pub Fits : Extent → Type 0
Fits e = (e.start + e.len < 4294967296) × (e.len < 4294967295)

-- The index behind the first extent that ends at `b`; else the number of blocks.
unfoldable pub join_point : List Extent → ℕ → ℕ
join_point [] b = 0
join_point (e ∷ es) b =
    let later = join_point es b in
    if e.len == 0 then 0 else if e.start + e.len == b then e.len else e.len + later

get_or-count_up :
    (start n : ℕ) (later : List ℕ) (i : ℕ)
    → i < n
    → get_or (count_up start n ++ later) i 0 ≡ start + i
get_or-count_up start zero later i lt = absurd (omega arith)
get_or-count_up start (suc n) later zero lt = omega arith
get_or-count_up start (suc n) later (suc i) lt =
    get_or-count_up (suc start) n later i (omega arith) ∙ omega arith

get_or-behind :
    (start n : ℕ) (later : List ℕ) (i : ℕ)
    → n ≤ i
    → get_or (count_up start n ++ later) i 0 ≡ get_or later (i - n) 0
get_or-behind start zero later i le = ap (λ k. get_or later k 0) {x = i} {y = i - 0} (omega arith)
get_or-behind start (suc n) later zero le = absurd (omega arith)
get_or-behind start (suc n) later (suc i) le =
    get_or-behind (suc start) n later i (omega arith)
    ∙ ap (λ k. get_or later k 0) {x = i - n} {y = suc i - suc n} (omega arith)

-- ufs_get_block reads the list, and gives 0 behind its end.
pub get_block-blocks_of :
    (es : List Extent) (i : ℕ) → All Fits es → get_block es i ≡ get_or (blocks_of es) i 0
unfolding get_block blocks_of
get_block-blocks_of [] i fits = refl
get_block-blocks_of (e ∷ es) i (fit, fits) = elim (dec_lt i e.len) [
  | yes lt ↦ ground (arith, get_or-count_up e.start e.len (blocks_of es) i lt)
  | no ge ↦ ground (
    arith,
    get_or-behind e.start e.len (blocks_of es) i (omega arith),
    get_block-blocks_of es (i - e.len) fits,
  )
]

-- The list with an element more, at an index.
abbrev pub inserted : ℕ → ℕ → List ℕ → List ℕ
inserted p b bs = take p bs ++ (b ∷ drop p bs)

inserted-behind :
    (start n p b : ℕ) (later : List ℕ)
    → inserted (n + p) b (count_up start n ++ later) ≡ count_up start n ++ inserted p b later
inserted-behind start zero p b later =
    ap (λ q. inserted q b later) {x = 0 + p} {y = p} (omega arith)
inserted-behind start (suc n) p b later =
    ap (λ q. inserted q b (start ∷ (count_up (suc start) n ++ later))) {x = suc n + p}
      {y = suc (n + p)} (omega arith)
    ∙ ap (λ bs. start ∷ bs) (inserted-behind (suc start) n p b later)

inserted-end :
    (start n b : ℕ) (later : List ℕ)
    → start + n ≡ b
    → inserted n b (count_up start n ++ later) ≡ count_up start (n + 1) ++ later
inserted-end start zero b later e = ap (λ x. x ∷ later) {x = b} {y = start} (omega arith)
inserted-end start (suc n) b later e =
    ap (λ bs. start ∷ bs) (inserted-end (suc start) n b later (omega arith))
    ∙ ap (λ q. count_up start q ++ later) {x = suc (n + 1)} {y = suc n + 1} (omega arith)

-- Behind an empty extent all are empty.
abbrev pub Packed : List Extent → Type 0
Packed [] = Unit
Packed (e ∷ es) = (e.len ≡ 0 → blocks_of es ≡ []) × Packed es

-- What ufs_append_block makes of the extents: the block is one of the file's, in front of what
-- stood at the join point; or no extent was empty and none ends at it.
pub data Appended (es : List Extent) (b : ℕ) : Option (List Extent) → Type 0 where
  refused : All (λ (e : Extent). (0 < e.len) × (e.start + e.len ≢ b)) es → Appended es b none
  appended :
      (es' : List Extent)
      → blocks_of es' ≡ inserted (join_point es b) b (blocks_of es)
      → length es' ≡ length es
      → Packed es'
      → Appended es b (some es')

module _ (e : Extent) (es : List Extent) where
  blocks_of-empty : e.len ≡ 0 → blocks_of (e ∷ es) ≡ []
  unfolding blocks_of
  blocks_of-empty z = ground arith

  blocks_of-used : 0 < e.len → blocks_of (e ∷ es) ≡ count_up e.start e.len ++ blocks_of es
  unfolding blocks_of
  blocks_of-used pos = ground arith

  join_point-empty : (b : ℕ) → e.len ≡ 0 → join_point (e ∷ es) b ≡ 0
  unfolding join_point
  join_point-empty b z = ground arith

  join_point-here : (b : ℕ) → 0 < e.len → e.start + e.len ≡ b → join_point (e ∷ es) b ≡ e.len
  unfolding join_point
  join_point-here b pos y = ground arith

  join_point-later :
      (b : ℕ) → 0 < e.len → e.start + e.len ≢ b → join_point (e ∷ es) b ≡ e.len + join_point es b
  unfolding join_point
  join_point-later b pos n = ground arith

push-Appended :
    (e : Extent) (es : List Extent) (b : ℕ)
    → 0 < e.len
    → e.start + e.len ≢ b
    → (r : Option (List Extent)) → Appended es b r
    → Appended (e ∷ es) b (elim r [ none ↦ none | some rest ↦ some (e ∷ rest) ])
push-Appended e es b used apart none (refused f) = refused ((used, apart), f)
push-Appended e es b used apart (some es2) (appended es' same long packed) =
    appended (e ∷ es2)
      (blocks_of-used e es2 used
        ∙ (ap (λ bs. count_up e.start e.len ++ bs) same
            ∙ (sym (inserted-behind e.start e.len (join_point es b) b (blocks_of es))
                ∙ sym (
                    ap₂ (λ p bs. inserted p b bs) (join_point-later e es b used apart)
                      (blocks_of-used e es used)))))
      (ap suc long) ((λ z. absurd (omega arith)), packed)

fresh-blocks :
    (e : Extent) (es : List Extent) (b : ℕ)
    → e.len ≡ 0
    → blocks_of es ≡ []
    → blocks_of (record { start = b; len = 1 } ∷ es)
      ≡ inserted (join_point (e ∷ es) b) b (blocks_of (e ∷ es))
fresh-blocks e es b z tail =
    rw (blocks_of-empty e es z, join_point-empty e es b z)
      (blocks_of-used (record { start = b; len = 1 }) es (omega arith) ∙ ap (λ bs. b ∷ bs) tail)

longer-blocks :
    (e : Extent) (es : List Extent) (b : ℕ)
    → Fits e
    → 0 < e.len
    → e.start + e.len ≡ b
    → blocks_of (record e { len = u32 (e.len + 1) } ∷ es)
      ≡ inserted (join_point (e ∷ es) b) b (blocks_of (e ∷ es))
longer-blocks e es b (low, short) pos y =
    let same : u32 (e.len + 1) ≡ e.len + 1 = omega arith in
    rw (same, blocks_of-used e es pos, join_point-here e es b pos y)
      (blocks_of-used (record e { len = e.len + 1 }) es (omega arith)
        ∙ sym (inserted-end e.start e.len b (blocks_of es) y))

-- When the extents fit, and behind an empty one all are empty: ufs_append_block puts the block
-- behind the first extent that ends at it, in front of the blocks of the extents behind that one,
-- and at the end of the file only where no extent ends at it or the last one does; or it gives -1,
-- when no extent is empty and none ends at it.
pub append_block-Appended :
    (es : List Extent) (b : ℕ) → All Fits es → Packed es → Appended es b (append_block es b)
unfolding append_block
append_block-Appended [] b fits packed = refused tt
append_block-Appended (e ∷ es) b (fit, fits) (tail, packed) =
    if_cases (Appended (e ∷ es) b) (e.len == 0)
      (λ z.
        appended (record { start = b; len = 1 } ∷ es)
          (fresh-blocks e es b (ground arith) (tail (ground arith))) refl
          ((λ o. absurd (omega arith)), packed))
      (λ used.
        if_cases (Appended (e ∷ es) b) (u32 (e.start + e.len) == b)
          (λ y.
            appended (record e { len = u32 (e.len + 1) } ∷ es)
              (longer-blocks e es b fit (ground arith) (ground arith)) refl
              ((λ o. absurd (omega arith)), packed))
          (λ n.
            push-Appended e es b (ground arith) (λ x. ground arith) _
              (append_block-Appended es b fits packed)))
