-- ===== src/Base/Bytes.antt =====
-- What is read from pieces of lists.
use Prim.Native.Nat.{ℕ, zero, suc, ◌+◌, ◌≤◌, ◌<◌}
use mathlib.Core.Path.{◌≡◌, refl, ap, ◌∙◌}
use mathlib.Core.List.{List, [], ◌∷◌}
use native.Mathlib.Omega.{arith}
use utms.Base.Lists.{
  length, get_or, set, take, drop, replicate, overwrite, get_or-set_self, get_or-set_ne, length-set,
}

module _ {ℓ} {A : Type ℓ} (d : A) where
  pub get_or-take : (n : ℕ) (xs : List A) (i : ℕ) → i < n → get_or (take n xs) i d ≡ get_or xs i d
  get_or-take zero xs i lt = absurd (omega arith)
  get_or-take (suc n) [] i lt = refl
  get_or-take (suc n) (x ∷ xs) zero lt = refl
  get_or-take (suc n) (x ∷ xs) (suc i) lt = get_or-take n xs i (omega arith)

  pub get_or-drop : (n : ℕ) (xs : List A) (i : ℕ) → get_or (drop n xs) i d ≡ get_or xs (n + i) d
  get_or-drop zero xs i = ap (λ k. get_or xs k d) {x = i} {y = 0 + i} (omega arith)
  get_or-drop (suc n) [] i = refl
  get_or-drop (suc n) (x ∷ xs) i =
      get_or-drop n xs i
      ∙ ap (λ k. get_or (x ∷ xs) k d) {x = suc (n + i)} {y = suc n + i} (omega arith)

  pub get_or-replicate : (n i : ℕ) → get_or (replicate n d) i d ≡ d
  get_or-replicate zero i = refl
  get_or-replicate (suc n) zero = refl
  get_or-replicate (suc n) (suc i) = get_or-replicate n i

  pub get_or-overwrite_before :
      (xs : List A) (i : ℕ) (bs : List A) (j : ℕ)
      → j < i
      → get_or (overwrite xs i bs) j d ≡ get_or xs j d
  get_or-overwrite_before xs i [] j lt = refl
  get_or-overwrite_before xs i (b ∷ bs) j lt =
      get_or-overwrite_before (set xs i b) (i + 1) bs j (omega arith)
      ∙ get_or-set_ne xs i j b d (λ e. omega arith)

  pub get_or-overwrite_behind :
      (xs : List A) (i : ℕ) (bs : List A) (j : ℕ)
      → i + length bs ≤ j
      → get_or (overwrite xs i bs) j d ≡ get_or xs j d
  get_or-overwrite_behind xs i [] j le = refl
  get_or-overwrite_behind xs i (b ∷ bs) j le =
      get_or-overwrite_behind (set xs i b) (i + 1) bs j (omega arith)
      ∙ get_or-set_ne xs i j b d (λ e. omega arith)

  pub get_or-overwrite_in :
      (xs : List A) (i : ℕ) (bs : List A) (k : ℕ)
      → k < length bs
      → i + length bs ≤ length xs
      → get_or (overwrite xs i bs) (i + k) d ≡ get_or bs k d
  get_or-overwrite_in xs i [] k lt le = absurd (omega arith)
  get_or-overwrite_in xs i (b ∷ bs) zero lt le =
      ap (λ j. get_or (overwrite (set xs i b) (i + 1) bs) j d) {x = i + 0} {y = i} (omega arith)
      ∙ (get_or-overwrite_before (set xs i b) (i + 1) bs i (omega arith)
          ∙ get_or-set_self xs i b d (omega arith))
  get_or-overwrite_in xs i (b ∷ bs) (suc k) lt le =
      ap (λ j. get_or (overwrite (set xs i b) (i + 1) bs) j d) {x = i + suc k} {y = i + 1 + k}
        (omega arith)
      ∙ get_or-overwrite_in (set xs i b) (i + 1) bs k (omega arith)
          (omega (arith, length-set xs i b))

  -- Lists of one length with the same elements are the same.
  pub same_elements :
      (xs ys : List A)
      → length xs ≡ length ys
      → ((i : ℕ) → i < length xs → get_or xs i d ≡ get_or ys i d)
      → xs ≡ ys
  same_elements [] [] e f = refl
  same_elements [] (y ∷ ys) e f = absurd (omega arith)
  same_elements (x ∷ xs) [] e f = absurd (omega arith)
  same_elements (x ∷ xs) (y ∷ ys) e f =
      ap (λ z. z ∷ xs) (f 0 (omega arith))
      ∙ ap (λ zs. y ∷ zs) (same_elements xs ys (omega arith) (λ i lt. f (suc i) (omega arith)))
