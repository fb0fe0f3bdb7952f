-- ===== src/Base/Bits.antt =====
-- Bitwise operations of C on numbers whose bits do not overlap, and masks of high bits.
use native.Mathlib.Decide.{dec_lt}
use Prim.Native.Nat.{
  ℕ, zero, suc, ◌+◌, ◌-◌, ◌*◌, ◌/◌, ◌%◌, ◌^◌, ◌≤◌, ◌<◌, min, max, digits, bit_and, bit_or, bit_xor,
  bit_xor-bitwise, differ, bit_and-bitwise, bit_or-bitwise,
}
use mathlib.Core.Path.{◌≡◌, refl, sym, ap, ◌∙◌}
use native.Mathlib.Omega.{arith}
use mathlib.Core.Logic.{◌≢◌}
use native.Mathlib.Nat.{div-div-eq-div-mul, pow-suc}

module _ (z : ℕ → ℕ) (f : ℕ → ℕ → ℕ) where
  -- Rounds past the first number's last digit change nothing.
  digits-rounds : (n m a b : ℕ) → a ≤ n → a ≤ m → digits z f n a b ≡ digits z f m a b
  digits-rounds zero zero zero b p q = refl
  digits-rounds zero zero (suc a) b p q = absurd (omega arith)
  digits-rounds zero (suc m) zero b p q = refl
  digits-rounds zero (suc m) (suc a) b p q = absurd (omega arith)
  digits-rounds (suc n) zero zero b p q = refl
  digits-rounds (suc n) zero (suc a) b p q = absurd (omega arith)
  digits-rounds (suc n) (suc m) zero b p q = refl
  digits-rounds (suc n) (suc m) (suc a) b p q =
      ap (λ r. r * 2 + f (suc a % 2) (b % 2))
        (digits-rounds n m (suc a / 2) (b / 2) (omega arith) (omega arith))

pub bit_or-lowest : (a b : ℕ) → bit_or a b ≡ bit_or (a / 2) (b / 2) * 2 + max (a % 2) (b % 2)
bit_or-lowest zero b = omega (arith, bit_or-bitwise 0 b, bit_or-bitwise 0 (b / 2))
bit_or-lowest (suc a) b = omega (
  arith,
  bit_or-bitwise (suc a) b,
  bit_or-bitwise (suc a / 2) (b / 2),
  digits-rounds (λ c. c) max a (suc a / 2) (suc a / 2) (b / 2) (omega arith) (omega arith),
)

bit_and-lowest : (a b : ℕ) → bit_and a b ≡ bit_and (a / 2) (b / 2) * 2 + min (a % 2) (b % 2)
bit_and-lowest zero b = omega (arith, bit_and-bitwise 0 b, bit_and-bitwise 0 (b / 2))
bit_and-lowest (suc a) b = omega (
  arith,
  bit_and-bitwise (suc a) b,
  bit_and-bitwise (suc a / 2) (b / 2),
  digits-rounds (λ c. 0) min a (suc a / 2) (suc a / 2) (b / 2) (omega arith) (omega arith),
)

bit_or-zero_within : (n a : ℕ) → a ≤ n → bit_or a 0 ≡ a
bit_or-zero_within n zero le = bit_or-bitwise 0 0
bit_or-zero_within zero (suc a) le = absurd (omega arith)
bit_or-zero_within (suc n) (suc a) le =
    omega (arith, bit_or-lowest (suc a) 0, bit_or-zero_within n (suc a / 2) (omega arith))

bit_and-zero_within : (n a : ℕ) → a ≤ n → bit_and a 0 ≡ 0
bit_and-zero_within n zero le = bit_and-bitwise 0 0
bit_and-zero_within zero (suc a) le = absurd (omega arith)
bit_and-zero_within (suc n) (suc a) le =
    omega (arith, bit_and-lowest (suc a) 0, bit_and-zero_within n (suc a / 2) (omega arith))

pub double : (m k : ℕ) → m * 2 ^ suc k ≡ m * 2 ^ k * 2
double m k = ap (λ p. m * p) (pow-suc 2 k) ∙ omega arith

pub pow-add : (m k : ℕ) → 2 ^ (m + k) ≡ 2 ^ m * 2 ^ k
pow-add m zero = omega (arith, ap (λ n. 2 ^ n) {x = m + 0} {y = m} (omega arith))
pow-add m (suc k) = omega (
  arith,
  double (2 ^ m) k,
  pow-suc 2 (m + k),
  pow-add m k,
  ap (λ n. 2 ^ n) {x = m + suc k} {y = suc (m + k)} (omega arith),
)

half : (m k : ℕ) → m * 2 ^ suc k / 2 ≡ m * 2 ^ k
half m k = omega (arith, double m k)

even : (m k : ℕ) → m * 2 ^ suc k % 2 ≡ 0
even m k = omega (arith, double m k)

pub halves : (a k : ℕ) → a / 2 ^ suc k ≡ a / 2 / 2 ^ k
halves a k =
    ap (λ d. a / d) {x = 2 ^ suc k} {y = 2 * 2 ^ k} (omega arith)
    ∙ sym (div-div-eq-div-mul a 2 (2 ^ k))

-- A multiple of 2^k and a number below 2^k share no bit.
pub bit_or-low : (k a b : ℕ) → b < 2 ^ k → bit_or (a * 2 ^ k) b ≡ a * 2 ^ k + b
bit_or-low zero a b lt =
    let e : b ≡ 0 = omega arith in
    rw e (omega (arith, bit_or-zero_within (a * 1) (a * 1) (omega arith)))
bit_or-low (suc k) a b lt = omega (
  arith,
  double a k,
  bit_or-lowest (a * 2 ^ suc k) b,
  even a k,
  ap (λ h. bit_or h (b / 2)) (half a k),
  bit_or-low k a (b / 2) (omega arith),
)

-- A mask of the w lowest bits keeps a number below 2^w.
bit_and-ones : (w a : ℕ) → a < 2 ^ w → bit_and a (2 ^ w - 1) ≡ a
bit_and-ones zero a lt = let e : a ≡ 0 = omega arith in rw e (bit_and-bitwise 0 0)
bit_and-ones (suc w) a lt = omega (
  arith,
  bit_and-lowest a (2 ^ suc w - 1),
  bit_and-ones w (a / 2) (omega arith),
  ap (bit_and (a / 2)) {x = (2 ^ suc w - 1) / 2} {y = 2 ^ w - 1} (omega arith),
)

-- With k zeros behind it, it clears the lowest k bits.
pub bit_and-mask :
    (k w a : ℕ) → a < 2 ^ w * 2 ^ k → bit_and a ((2 ^ w - 1) * 2 ^ k) ≡ a / 2 ^ k * 2 ^ k
bit_and-mask zero w a lt = omega (
  arith,
  bit_and-ones w a (omega arith),
  ap (bit_and a) {x = (2 ^ w - 1) * 1} {y = 2 ^ w - 1} (omega arith),
)
bit_and-mask (suc k) w a lt = omega (
  arith,
  double (2 ^ w - 1) k,
  bit_and-lowest a ((2 ^ w - 1) * 2 ^ suc k),
  even (2 ^ w - 1) k,
  ap (bit_and (a / 2)) (half (2 ^ w - 1) k),
  bit_and-mask k w (a / 2) (omega (arith, double (2 ^ w) k)),
  double (a / 2 ^ suc k) k,
  ap (λ q. q * 2 ^ k) (halves a k),
)

-- The binary digit of a number at a place.
abbrev pub digit : ℕ → ℕ → ℕ
digit i x = x / 2 ^ i % 2

digit-half : (i x : ℕ) → digit (suc i) x ≡ digit i (x / 2)
digit-half i x = ap (λ q. q % 2) (halves x i)

pub digit-bit_or : (i a b : ℕ) → digit i (bit_or a b) ≡ max (digit i a) (digit i b)
digit-bit_or zero a b = omega (arith, bit_or-lowest a b)
digit-bit_or (suc i) a b =
    digit-half i (bit_or a b)
    ∙ (ap (digit i) {x = bit_or a b / 2} {y = bit_or (a / 2) (b / 2)}
          (omega (arith, bit_or-lowest a b))
        ∙ omega (arith, digit-bit_or i (a / 2) (b / 2), digit-half i a, digit-half i b))

digit_one : (i : ℕ) → digit (suc i) 1 ≡ 0
digit_one i = digit-half i 1 ∙ digit_zero i
  where
    digit_zero : (i : ℕ) → digit i 0 ≡ 0
    digit_zero zero = omega arith
    digit_zero (suc i) = digit-half i 0 ∙ digit_zero i

-- A power of two has one digit.
pub digit-pow_self : (i : ℕ) → digit i (2 ^ i) ≡ 1
digit-pow_self zero = omega arith
digit-pow_self (suc i) =
    digit-half i (2 ^ suc i)
    ∙ (ap (digit i) {x = 2 ^ suc i / 2} {y = 2 ^ i} (omega (arith, pow-suc 2 i)) ∙ digit-pow_self i)

pub digit-pow_ne : (i j : ℕ) → i ≢ j → digit j (2 ^ i) ≡ 0
digit-pow_ne zero zero ne = absurd (ne refl)
digit-pow_ne zero (suc j) ne = digit_one j
digit-pow_ne (suc i) zero ne = omega (arith, pow-suc 2 i)
digit-pow_ne (suc i) (suc j) ne =
    digit-half j (2 ^ suc i)
    ∙ (ap (digit j) {x = 2 ^ suc i / 2} {y = 2 ^ i} (omega (arith, pow-suc 2 i))
        ∙ digit-pow_ne i j (λ e. ne (ap suc e)))

pub bit_or-lt : (n a b : ℕ) → a < 2 ^ n → b < 2 ^ n → bit_or a b < 2 ^ n
bit_or-lt zero a b p q =
    let e : a ≡ 0 = omega arith in
    let f : b ≡ 0 = omega arith in rw (e, f) (omega (arith, bit_or-zero_within 0 0 (omega arith)))
bit_or-lt (suc n) a b p q = omega (
  arith,
  pow-suc 2 n,
  bit_or-lowest a b,
  bit_or-lt n (a / 2) (b / 2) (omega (arith, pow-suc 2 n)) (omega (arith, pow-suc 2 n)),
)

-- A digit of the exclusive or is one of the two, or their difference.
bit_xor-lowest : (a b : ℕ) → bit_xor a b ≡ bit_xor (a / 2) (b / 2) * 2 + differ (a % 2) (b % 2)
bit_xor-lowest zero b = omega (arith, bit_xor-bitwise 0 b, bit_xor-bitwise 0 (b / 2))
bit_xor-lowest (suc a) b = omega (
  arith,
  bit_xor-bitwise (suc a) b,
  bit_xor-bitwise (suc a / 2) (b / 2),
  digits-rounds (λ c. c) differ a (suc a / 2) (suc a / 2) (b / 2) (omega arith) (omega arith),
)

differ-lt : (x y : ℕ) → x < 2 → y < 2 → differ x y < 2
differ-lt zero y p q = q
differ-lt (suc x) zero p q = p
differ-lt (suc x) (suc y) p q = differ-lt x y (omega arith) (omega arith)

pub bit_xor-lt : (n a b : ℕ) → a < 2 ^ n → b < 2 ^ n → bit_xor a b < 2 ^ n
bit_xor-lt zero a b p q =
    let e : a ≡ 0 = omega arith in
    let f : b ≡ 0 = omega arith in rw (e, f) (omega (arith, bit_xor-bitwise 0 0))
bit_xor-lt (suc n) a b p q = omega (
  arith,
  pow-suc 2 n,
  bit_xor-lowest a b,
  differ-lt (a % 2) (b % 2) (omega arith) (omega arith),
  bit_xor-lt n (a / 2) (b / 2) (omega (arith, pow-suc 2 n)) (omega (arith, pow-suc 2 n)),
)

pub pow-pos : (n : ℕ) → 0 < 2 ^ n
pow-pos zero = omega arith
pow-pos (suc n) = omega (arith, pow-suc 2 n, pow-pos n)

pub pow-lt_pow : (i n : ℕ) → i < n → 2 ^ i < 2 ^ n
pow-lt_pow i zero lt = absurd (omega arith)
pow-lt_pow i (suc n) lt = elim (dec_lt i n) [
  | yes below ↦ omega (arith, pow-suc 2 n, pow-lt_pow i n below)
  | no at ↦ let e : i ≡ n = omega arith in rw e (omega (arith, pow-suc 2 n, pow-pos n))
]
