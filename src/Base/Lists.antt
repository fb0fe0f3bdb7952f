-- ===== src/Base/Lists.antt =====
-- C arrays as lists with native indices: a read out of range gives a default, a write out of range
-- changes nothing.
use Prim.Native.Nat.{ℕ, zero, suc, ◌+◌, ◌-◌, ◌≤◌, ◌<◌, min}
use mathlib.Core.Path.{◌≡◌, refl, ap}
use mathlib.Core.Logic.{◌≢◌}
use mathlib.Core.List.{List, [], ◌∷◌, ◌++◌}
use mathlib.Core.Bool.{Bool, true, false}
use utms.Base.Tests.{if◌then◌else◌, Bool-cases}
use mathlib.Core.Logic.{inl, inr}
use mathlib.Core.Option.{Option, none, some}
use native.Mathlib.Omega.{arith}

module _ {ℓ} {A : Type ℓ} where
  abbrev pub length : List A → ℕ
  length [] = 0
  length (x ∷ xs) = suc (length xs)

  abbrev pub get_elem? : List A → ℕ → Option A
  get_elem? [] i = none
  get_elem? (x ∷ xs) zero = some x
  get_elem? (x ∷ xs) (suc i) = get_elem? xs i

  abbrev pub get_or : List A → ℕ → A → A
  get_or [] i d = d
  get_or (x ∷ xs) zero d = x
  get_or (x ∷ xs) (suc i) d = get_or xs i d

  abbrev pub set : List A → ℕ → A → List A
  set [] i v = []
  set (x ∷ xs) zero v = v ∷ xs
  set (x ∷ xs) (suc i) v = x ∷ set xs i v

  abbrev pub take : ℕ → List A → List A
  take zero xs = []
  take (suc n) [] = []
  take (suc n) (x ∷ xs) = x ∷ take n xs

  abbrev pub drop : ℕ → List A → List A
  drop zero xs = xs
  drop (suc n) [] = []
  drop (suc n) (x ∷ xs) = drop n xs

  abbrev pub replicate : ℕ → A → List A
  replicate zero a = []
  replicate (suc n) a = a ∷ replicate n a

  pub length-append : (xs ys : List A) → length (xs ++ ys) ≡ length xs + length ys
  length-append [] ys = omega arith
  length-append (x ∷ xs) ys = omega (arith, length-append xs ys)

  pub length-set : (xs : List A) (i : ℕ) (v : A) → length (set xs i v) ≡ length xs
  length-set [] i v = refl
  length-set (x ∷ xs) zero v = refl
  length-set (x ∷ xs) (suc i) v = ap suc (length-set xs i v)

  pub length-take : (n : ℕ) (xs : List A) → length (take n xs) ≡ min n (length xs)
  length-take zero xs = omega arith
  length-take (suc n) [] = omega arith
  length-take (suc n) (x ∷ xs) = omega (arith, length-take n xs)

  pub length-drop : (n : ℕ) (xs : List A) → length (drop n xs) ≡ length xs - n
  length-drop zero xs = omega arith
  length-drop (suc n) [] = omega arith
  length-drop (suc n) (x ∷ xs) = omega (arith, length-drop n xs)

  pub length-replicate : (n : ℕ) (a : A) → length (replicate n a) ≡ n
  length-replicate zero a = refl
  length-replicate (suc n) a = ap suc (length-replicate n a)

  pub take-append-drop : (n : ℕ) (xs : List A) → take n xs ++ drop n xs ≡ xs
  take-append-drop zero xs = refl
  take-append-drop (suc n) [] = refl
  take-append-drop (suc n) (x ∷ xs) = rw (take-append-drop n xs)

  pub take-length_le : (n : ℕ) (xs : List A) → length xs ≤ n → take n xs ≡ xs
  take-length_le zero [] h = refl
  take-length_le zero (x ∷ xs) h = absurd (omega arith)
  take-length_le (suc n) [] h = refl
  take-length_le (suc n) (x ∷ xs) h = ap (λ l. x ∷ l) (take-length_le n xs (omega arith))

module _ {ℓ} {A : Type ℓ} where
  pub get_or-set_self :
      (xs : List A) (i : ℕ) (v d : A) → i < length xs → get_or (set xs i v) i d ≡ v
  get_or-set_self [] i v d h = absurd (omega arith)
  get_or-set_self (x ∷ xs) zero v d h = refl
  get_or-set_self (x ∷ xs) (suc i) v d h = get_or-set_self xs i v d (omega arith)

  pub get_or-set_ne :
      (xs : List A) (i j : ℕ) (v d : A) → i ≢ j → get_or (set xs i v) j d ≡ get_or xs j d
  get_or-set_ne [] i j v d h = refl
  get_or-set_ne (x ∷ xs) zero zero v d h = absurd (h refl)
  get_or-set_ne (x ∷ xs) zero (suc j) v d h = refl
  get_or-set_ne (x ∷ xs) (suc i) zero v d h = refl
  get_or-set_ne (x ∷ xs) (suc i) (suc j) v d h = get_or-set_ne xs i j v d (λ e. h (ap suc e))

module _ {ℓ} {A : Type ℓ} where
  pub set-set : (xs : List A) (i : ℕ) (u v : A) → set (set xs i u) i v ≡ set xs i v
  set-set [] i u v = refl
  set-set (x ∷ xs) zero u v = refl
  set-set (x ∷ xs) (suc i) u v = ap (λ l. x ∷ l) (set-set xs i u v)

  -- Writing back what was read changes nothing.
  pub set-get_or : (xs : List A) (i : ℕ) (d : A) → set xs i (get_or xs i d) ≡ xs
  set-get_or [] i d = refl
  set-get_or (x ∷ xs) zero d = refl
  set-get_or (x ∷ xs) (suc i) d = ap (λ l. x ∷ l) (set-get_or xs i d)

module _ {ℓ κ} {A : Type ℓ} {B : Type κ} (f : A → B) where
  -- A write that keeps `f` of its element keeps `f` of all.
  pub get_or-set-keeps :
      (xs : List A) (i j : ℕ) (v d : A)
      → f v ≡ f (get_or xs i d)
      → f (get_or (set xs i v) j d) ≡ f (get_or xs j d)
  get_or-set-keeps [] i j v d h = refl
  get_or-set-keeps (x ∷ xs) zero zero v d h = h
  get_or-set-keeps (x ∷ xs) zero (suc j) v d h = refl
  get_or-set-keeps (x ∷ xs) (suc i) zero v d h = refl
  get_or-set-keeps (x ∷ xs) (suc i) (suc j) v d h = get_or-set-keeps xs i j v d h

module _ {ℓ} {A : Type ℓ} where
  -- `memcpy` into an array at an index.
  abbrev pub overwrite : List A → ℕ → List A → List A
  overwrite xs i [] = xs
  overwrite xs i (b ∷ bs) = overwrite (set xs i b) (i + 1) bs

  pub length-overwrite :
      (xs : List A) (i : ℕ) (bs : List A) → length (overwrite xs i bs) ≡ length xs
  length-overwrite xs i [] = refl
  length-overwrite xs i (b ∷ bs) =
      omega (arith, length-overwrite (set xs i b) (i + 1) bs, length-set xs i b)

-- The index of the first element that passes a test: the search loop over a table.
abbrev pub suc? : Option ℕ → Option ℕ
suc? none = none
suc? (some i) = some (suc i)

suc?-some : (o : Option ℕ) {i : ℕ} → suc? o ≡ some i → (j : ℕ) × (o ≡ some j) × (i ≡ suc j)
suc?-some none h = cc
suc?-some (some j) h = (j, refl, ground arith)

suc?-none : (o : Option ℕ) → suc? o ≡ none → o ≡ none
suc?-none none h = refl
suc?-none (some i) h = cc

module _ {ℓ} {A : Type ℓ} where
  unfoldable pub find_index : (A → Bool) → List A → Option ℕ
  find_index p [] = none
  find_index p (x ∷ xs) = if p x then some 0 else suc? (find_index p xs)

  find_index-hit :
      (p : A → Bool) (x : A) (xs : List A) {i : ℕ}
      → p x ≡ true
      → find_index p (x ∷ xs) ≡ some i
      → i ≡ 0
  unfolding find_index
  find_index-hit p x xs t h = ground arith

  find_index-miss :
      (p : A → Bool) (x : A) (xs : List A) {i : ℕ}
      → p x ≡ false
      → find_index p (x ∷ xs) ≡ some i
      → (j : ℕ) × (find_index p xs ≡ some j) × (i ≡ suc j)
  unfolding find_index
  find_index-miss p x xs f h = suc?-some (find_index p xs) (rw f at h)

  -- What is found is in the table and passes the test.
  pub find_index_sound :
      (p : A → Bool) (xs : List A) (d : A) {i : ℕ}
      → find_index p xs ≡ some i
      → (i < length xs) × (p (get_or xs i d) ≡ true)
  unfolding find_index
  find_index_sound p [] d h = absurd (none≢some h)
    where
      none≢some : {i : ℕ} → none ≡ some i → ⊥
      none≢some e = cc
  find_index_sound p (x ∷ xs) d h = elim (Bool-cases (p x)) [
    | inl t ↦ rw (find_index-hit p x xs t h) (omega arith, t)
    | inr f ↦
        let (j, q, e) = find_index-miss p x xs f h in
        let r = find_index_sound p xs d q in rw e (omega arith, r.1)
  ]

  -- Where nothing is found nothing passes the test.
  pub find_index_complete :
      (p : A → Bool) (xs : List A) (d : A) (i : ℕ)
      → find_index p xs ≡ none
      → i < length xs
      → p (get_or xs i d) ≡ false
  unfolding find_index
  find_index_complete p [] d i h lt = absurd (omega arith)
  find_index_complete p (x ∷ xs) d zero h lt = elim (Bool-cases (p x)) [
    | inl t ↦ absurd (some≢none (rw t at h))
    | inr f ↦ f
  ]
    where
      some≢none : {i : ℕ} → some i ≡ none → ⊥
      some≢none e = cc
  find_index_complete p (x ∷ xs) d (suc i) h lt = elim (Bool-cases (p x)) [
    | inl t ↦ absurd (found (rw t at h))
    | inr f ↦ find_index_complete p xs d i (suc?-none (find_index p xs) (rw f at h)) (omega arith)
  ]
    where
      found : {i : ℕ} → some i ≡ none → ⊥
      found e = cc
