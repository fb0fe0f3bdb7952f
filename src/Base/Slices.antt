-- ===== src/Base/Slices.antt =====
-- Taking and dropping of joined lists.
use mathlib.Core.Path.{sym}
use utms.Base.Lists.{take, drop, length, get_or}
use Prim.Native.Nat.{ℕ, zero, suc, ◌+◌, ◌-◌, ◌≤◌, ◌<◌, min}
use mathlib.Core.Path.{◌≡◌, refl, ap, ◌∙◌}
use mathlib.Core.List.{List, [], ◌∷◌, ◌++◌}
use native.Mathlib.Omega.{arith}

module _ {ℓ} {A : Type ℓ} where
  pub take-append :
      (n : ℕ) (xs ys : List A)
      → take n (xs ++ ys) ≡ take (min (length xs) n) xs ++ take (n - length xs) ys
  take-append zero xs ys =
      let none_first : min (length xs) 0 ≡ 0 = omega arith in
      let none_behind : 0 - length xs ≡ 0 = omega arith in rw (none_first, none_behind) refl
  take-append (suc n) [] ys =
      let none_first : min 0 (suc n) ≡ 0 = omega arith in
      let all_behind : suc n - 0 ≡ suc n = omega arith in rw (none_first, all_behind) refl
  take-append (suc n) (x ∷ xs) ys =
      let one_first : min (suc (length xs)) (suc n) ≡ suc (min (length xs) n) = omega arith in
      let less_behind : suc n - suc (length xs) ≡ n - length xs = omega arith in
      rw (one_first, less_behind) (ap (λ l. x ∷ l) (take-append n xs ys))

  pub drop-append_short :
      (n : ℕ) (xs ys : List A) → n ≤ length xs → drop n (xs ++ ys) ≡ drop n xs ++ ys
  drop-append_short zero xs ys le = refl
  drop-append_short (suc n) [] ys le = absurd (omega arith)
  drop-append_short (suc n) (x ∷ xs) ys le = drop-append_short n xs ys (omega arith)

  pub drop-append_long : (n : ℕ) (xs ys : List A) → drop (length xs + n) (xs ++ ys) ≡ drop n ys
  drop-append_long n [] ys = ap (λ k. drop k ys) {x = 0 + n} {y = n} (omega arith)
  drop-append_long n (x ∷ xs) ys =
      ap (λ k. drop k (x ∷ (xs ++ ys))) {x = suc (length xs) + n} {y = suc (length xs + n)}
        (omega arith)
      ∙ drop-append_long n xs ys

  pub take-nothing : (n : ℕ) → take {A = A} n [] ≡ []
  take-nothing zero = refl
  take-nothing (suc n) = refl

  pub drop-nothing : (n : ℕ) → drop {A = A} n [] ≡ []
  drop-nothing zero = refl
  drop-nothing (suc n) = refl

  -- The element at an index, and those behind it.
  pub drop-split :
      (i : ℕ) (d : A) (xs : List A) → i < length xs → drop i xs ≡ get_or xs i d ∷ drop (i + 1) xs
  drop-split i d [] lt = absurd (omega arith)
  drop-split zero d (x ∷ xs) lt = refl
  drop-split (suc i) d (x ∷ xs) lt =
      drop-split i d xs (omega arith)
      ∙ ap (λ k. get_or xs i d ∷ drop k (x ∷ xs)) {x = suc (i + 1)} {y = suc i + 1} (omega arith)

  pub drop-all : (i : ℕ) (xs : List A) → length xs ≤ i → drop i xs ≡ []
  drop-all i [] le = drop-nothing i
  drop-all zero (x ∷ xs) le = absurd (omega arith)
  drop-all (suc i) (x ∷ xs) le = drop-all i xs (omega arith)

  take-take : (n s : ℕ) (xs : List A) → take n (take s xs) ≡ take (min n s) xs
  take-take zero s xs = let none_first : min 0 s ≡ 0 = omega arith in rw none_first refl
  take-take (suc n) zero xs =
      let none_second : min (suc n) 0 ≡ 0 = omega arith in rw none_second refl
  take-take (suc n) (suc s) [] = sym (take-nothing (min (suc n) (suc s)))
  take-take (suc n) (suc s) (x ∷ xs) =
      let one_first : min (suc n) (suc s) ≡ suc (min n s) = omega arith in
      rw one_first (ap (λ l. x ∷ l) (take-take n s xs))

  drop-take : (o s : ℕ) (xs : List A) → drop o (take s xs) ≡ take (s - o) (drop o xs)
  drop-take zero s xs = let whole : s - 0 ≡ s = omega arith in rw whole refl
  drop-take (suc o) zero xs = let less : 0 - suc o ≡ 0 = omega arith in rw less refl
  drop-take (suc o) (suc s) [] = sym (take-nothing (suc s - suc o))
  drop-take (suc o) (suc s) (x ∷ xs) =
      let less : suc s - suc o ≡ s - o = omega arith in rw less (drop-take o s xs)

  -- A part of a beginning is a part of the whole.
  pub take-drop-take :
      (n o s : ℕ) (xs : List A) → take n (drop o (take s xs)) ≡ take (min n (s - o)) (drop o xs)
  take-drop-take n o s xs = ap (take n) (drop-take o s xs) ∙ take-take n (s - o) (drop o xs)
