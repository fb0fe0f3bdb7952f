-- ===== src/Net/Checksum/Verify.antt =====
-- What a receiver relies on: over data that carries its own checksum the checksum is 0.
use utms.Base.{
  ℕ, zero, suc, ◌+◌, ◌*◌, ◌/◌, ◌%◌, ◌≤◌, ◌<◌, ◌≡◌, refl, ◌∙◌, List, [], ◌∷◌, ◌++◌, arith, length,
  u32,
}
use native.Mathlib.Nat.{add-zero}
use utms.Net.Checksum.{sum_words, fold_carry, carry_fuel, finish, ip_checksum}

-- Three rounds end the carry loop on every 32-bit sum: what is left fits into 16 bits.
pub fold_carry-lt : (s : ℕ) → s < 4294967296 → fold_carry carry_fuel s < 65536
unfolding fold_carry
fold_carry-lt s h = ground arith

pub fold_carry-mod : (fuel s : ℕ) → fold_carry fuel s % 65535 ≡ s % 65535
unfolding fold_carry
fold_carry-mod zero s = refl
fold_carry-mod (suc fuel) s = ground (arith, fold_carry-mod fuel (s % 65536 + s / 65536))

pub fold_carry-pos : (fuel s : ℕ) → 0 < s → 0 < fold_carry fuel s
unfolding fold_carry
fold_carry-pos zero s h = h
fold_carry-pos (suc fuel) s h = ground (arith, fold_carry-pos fuel (s % 65536 + s / 65536))

fold_carry-zero : (fuel : ℕ) → fold_carry fuel 0 ≡ 0
unfolding fold_carry
fold_carry-zero zero = refl
fold_carry-zero (suc fuel) = refl

-- A multiple of 65535 that is not 0 folds to 65535, whose complement is 0.
finish_of_multiple : (s : ℕ) → 0 < s → s < 4294967296 → s % 65535 ≡ 0 → finish s ≡ 0
unfolding finish
finish_of_multiple s p h m =
    omega (arith, fold_carry-lt s h, fold_carry-mod carry_fuel s, fold_carry-pos carry_fuel s p)

finish-mod : (s : ℕ) → s < 4294967296 → (s + finish s) % 65535 ≡ 0
unfolding finish
finish-mod s h = omega (arith, fold_carry-lt s h, fold_carry-mod carry_fuel s)

finish-zero : finish 0 ≡ 65535
unfolding finish
finish-zero = omega (arith, fold_carry-zero carry_fuel)

finish-le : (s : ℕ) → finish s ≤ 65535
unfolding finish
finish-le s = omega arith

-- Adding the complement of a sum makes the folded sum all ones.
pub finish-add_finish : (s : ℕ) → s + 65535 < 4294967296 → finish (s + finish s) ≡ 0
finish-add_finish zero h =
    finish_of_multiple _ (omega (arith, finish-zero)) (omega (arith, finish-zero))
      (finish-mod 0 (omega arith))
finish-add_finish (suc s) h =
    finish_of_multiple _ (omega arith) (omega (arith, finish-le (suc s)))
      (finish-mod (suc s) (omega arith))

-- All elements are bytes.
abbrev pub AreBytes : List ℕ → Type 0
AreBytes [] = Unit {0}
AreBytes (b ∷ bs) = (b < 256) × AreBytes bs

-- An even number of bytes.
abbrev pub IsEven : List ℕ → Type 0
IsEven [] = Unit {0}
IsEven (b ∷ []) = ⊥
IsEven (b ∷ c ∷ bs) = IsEven bs

-- The sum without wrap-around.
unfoldable pub word_total : List ℕ → ℕ
word_total [] = 0
word_total (b ∷ []) = b
word_total (lo ∷ hi ∷ rest) = lo + 256 * hi + word_total rest

pub word_total_bound : (bs : List ℕ) → AreBytes bs → word_total bs ≤ 65535 * length bs
unfolding word_total
word_total_bound [] h = omega arith
word_total_bound (b ∷ []) h = omega arith
word_total_bound (lo ∷ hi ∷ rest) h = omega (arith, word_total_bound rest h.1.1)

-- The 32-bit sum does not wrap on data of up to 64 KB.
pub sum_words-eq-word_total :
    (acc : ℕ) (bs : List ℕ)
    → acc + word_total bs < 4294967296
    → sum_words acc bs ≡ acc + word_total bs
unfolding sum_words word_total
sum_words-eq-word_total acc [] h = omega arith
sum_words-eq-word_total acc (b ∷ []) h = omega arith
sum_words-eq-word_total acc (lo ∷ hi ∷ rest) h =
    sum_words-eq-word_total (u32 (acc + (lo + 256 * hi))) rest (omega arith) ∙ omega arith

pub word_total-append :
    (xs ys : List ℕ) → IsEven xs → word_total (xs ++ ys) ≡ word_total xs + word_total ys
unfolding word_total
word_total-append [] ys h = omega arith
word_total-append (b ∷ []) ys h = absurd h
word_total-append (b ∷ c ∷ xs) ys h = omega (arith, word_total-append xs ys h)

-- `bs` with a 16-bit word stored between its two parts.
abbrev pub with_word : List ℕ → ℕ → List ℕ → List ℕ
with_word before w after = before ++ (w % 256 ∷ w / 256 % 256 ∷ after)

module _ (before after : List ℕ) (even : IsEven before) (bytes_before : AreBytes before)
    (bytes_after : AreBytes after) (short : length before + length after ≤ 65535) where
  total : ℕ
  total = word_total before + word_total after

  total_bound : total ≤ 65535 * 65535
  unfolding total
  total_bound =
      omega (arith, word_total_bound before bytes_before, word_total_bound after bytes_after)

  sum-with_word : (w : ℕ) → w ≤ 65535 → sum_words 0 (with_word before w after) ≡ total + w
  unfolding total word_total
  sum-with_word w h =
      sum_words-eq-word_total 0 (with_word before w after) (
        omega (arith, total_bound, word_total-append before (w % 256 ∷ w / 256 % 256 ∷ after) even))
      ∙ omega (arith, word_total-append before (w % 256 ∷ w / 256 % 256 ∷ after) even)

  -- Data of up to 64 KB that stores, at an even offset, the checksum taken with that word 0, has
  -- checksum 0.
  pub ip_checksum-verifies :
      ip_checksum (with_word before (ip_checksum (with_word before 0 after)) after) ≡ 0
  unfolding ip_checksum
  ip_checksum-verifies = rw (sum-with_word 0 (omega arith)) (
      rw (sum-with_word (finish (total + 0)) (finish-le (total + 0)))
        (rw add-zero (finish-add_finish total (omega (arith, total_bound)))))
