-- ===== src/Ufs/Bytes/Memory.antt =====
-- Reading what was stored into a block.
use utms.Base.{
  ℕ, zero, suc, ◌+◌, ◌<◌, ◌≤◌, ◌≡◌, ◌≢◌, ◌∙◌, ◌⊎◌, inl, inr, refl, ap, arith, List, [], ◌∷◌, ◌++◌,
  All, length, u8, le16, le32,
}
use mathlib.Core.Path.{ap₂}
use utms.Ufs.Bytes.{Block, put, store, load}

abbrev pub IsByte : ℕ → Type 0
IsByte x = x < 256

-- Behind or in front.
abbrev pub Apart : ℕ → ℕ → ℕ → ℕ → Type 0
Apart a n b m = (a + n ≤ b) ⊎ (b + m ≤ a)

pub put_self : (at x : ℕ) (b : Block) → put at x b at ≡ x
put_self at x b = ground arith

pub put_other : (at x i : ℕ) (b : Block) → at ≢ i → put at x b i ≡ b i
put_other at x i b ne = ground arith

pub length-load : (at n : ℕ) (b : Block) → length (load at n b) ≡ n
unfolding load
length-load at zero b = refl
length-load at (suc n) b = ap suc (length-load (suc at) n b)

load-put : (at n to x : ℕ) (b : Block) → Apart at n to 1 → load at n (put to x b) ≡ load at n b
unfolding load
load-put at zero to x b apart = refl
load-put at (suc n) to x b (inl before) =
    ap₂ (λ y ys. u8 y ∷ ys) (put_other to x at b (λ e. omega arith))
      (load-put (suc at) n to x b (inl (omega arith)))
load-put at (suc n) to x b (inr behind) =
    ap₂ (λ y ys. u8 y ∷ ys) (put_other to x at b (λ e. omega arith))
      (load-put (suc at) n to x b (inr (omega arith)))

pub load-store_other :
    (at n to : ℕ) (xs : List ℕ) (b : Block)
    → Apart at n to (length xs)
    → load at n (store to xs b) ≡ load at n b
unfolding store
load-store_other at n to [] b apart = refl
load-store_other at n to (x ∷ xs) b (inl before) =
    load-put at n to x (store (suc to) xs b) (inl before)
    ∙ load-store_other at n (suc to) xs b (inl (omega arith))
load-store_other at n to (x ∷ xs) b (inr behind) =
    load-put at n to x (store (suc to) xs b) (inr (omega arith))
    ∙ load-store_other at n (suc to) xs b (inr (omega arith))

pub load-store :
    (at n : ℕ) (xs : List ℕ) (b : Block)
    → length xs ≡ n
    → All IsByte xs
    → load at n (store at xs b) ≡ xs
unfolding load store
load-store at zero [] b long bytes = refl
load-store at zero (x ∷ xs) b long bytes = absurd (omega arith)
load-store at (suc n) [] b long bytes = absurd (omega arith)
load-store at (suc n) (x ∷ xs) b long (first, bytes) =
    let rest = store (suc at) xs b in
    ap₂ (λ y ys. y ∷ ys) (ap u8 (put_self at x rest) ∙ omega arith)
      (load-put (suc at) n at x rest (inr (omega arith))
        ∙ load-store (suc at) n xs b (omega arith) bytes)

pub bytes-le16 : (x : ℕ) (ys : List ℕ) → All IsByte ys → All IsByte (le16 x ++ ys)
bytes-le16 x ys h = (omega arith, (omega arith, h))

pub bytes-le32 : (x : ℕ) (ys : List ℕ) → All IsByte ys → All IsByte (le32 x ++ ys)
bytes-le32 x ys h = (omega arith, (omega arith, (omega arith, (omega arith, h))))
