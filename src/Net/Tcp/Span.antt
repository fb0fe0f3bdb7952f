-- ===== src/Net/Tcp/Span.antt =====
-- Spans of a ring: runs of bytes that go on at index 0 after the last.
use utms.Base.{
  ◌==◌, if◌then◌else◌, ℕ, zero, suc, ◌+◌, ◌-◌, ◌%◌, ◌≤◌, ◌<◌, ◌≡◌, ◌≢◌, ◌⊎◌, inl, refl, sym, ap,
  ◌∙◌, arith, List, [], ◌∷◌, ◌++◌, length, get_or, set, take, drop, overwrite, length-set,
  get_or-set_self, get_or-set_ne,
}
use mathlib.Core.Path.{ap₂}
use mathlib.Core.List.{append-nil, append_assoc}
use native.Mathlib.Numerals.{add-one}
use native.Mathlib.Nat.{mod-eq_of_lt, mod-eq-sub-mod, add-zero, zero-add, suc-add}
use native.Mathlib.Decide.{dec_lt}

-- The index after `i` in a ring.
abbrev pub next : ℕ → ℕ → ℕ
next size i = if suc i == size then 0 else suc i

-- `n` bytes from index `i` on, round the end.
pub span : List ℕ → ℕ → ℕ → ℕ → List ℕ
span buf size i zero = []
span buf size i (suc n) = get_or buf i 0 ∷ span buf size (next size i) n

-- The index `n` steps after `i`.
pub step_by : ℕ → ℕ → ℕ → ℕ
step_by size i zero = i
step_by size i (suc n) = step_by size (next size i) n

pub step_by-lt : (size i n : ℕ) → i < size → step_by size i n < size
unfolding step_by
step_by-lt size i zero h = h
step_by-lt size i (suc n) h = step_by-lt size (next size i) n (ground arith)

-- Where that index lies, for at most one turn.
pub step_by_cases :
    (size i n : ℕ)
    → i < size
    → n ≤ size
    → ((step_by size i n ≡ i + n) × (i + n < size)) ⊎ ((step_by size i n + size ≡ i + n))
unfolding step_by
step_by_cases size i zero h le = inl (omega arith, omega arith)
step_by_cases size i (suc n) h le = ground (arith, step_by_cases size (next size i) n)

step_by-suc : (size i n : ℕ) → step_by size i (suc n) ≡ next size (step_by size i n)
unfolding step_by
step_by-suc size i zero = refl
step_by-suc size i (suc n) = step_by-suc size (next size i) n

-- Less than one turn does not come back to an index.
step_by-ne : (size i k n : ℕ) → i < size → k < n → n < size → step_by size i k ≢ step_by size i n
step_by-ne size i k n h lt le e =
    omega (arith, step_by_cases size i k h (omega arith), step_by_cases size i n h (omega arith))

-- Writing a byte at an index that a span does not reach leaves the span.
span-set_far :
    (buf : List ℕ) (size i n j v : ℕ)
    → ((k : ℕ) → k < n → step_by size i k ≢ j)
    → span (set buf j v) size i n ≡ span buf size i n
unfolding span step_by
span-set_far buf size i zero j v far = refl
span-set_far buf size i (suc n) j v far =
    ap₂ ◌∷◌ (get_or-set_ne buf j i v 0 (λ e. far 0 (omega arith) (sym e)))
      (span-set_far buf size (next size i) n j v (λ k lt. far (suc k) (omega arith)))

pub span-append :
    (buf : List ℕ) (size i n m : ℕ)
    → span buf size i (n + m) ≡ span buf size i n ++ span buf size (step_by size i n) m
unfolding span step_by
span-append buf size i zero m = rw zero-add
span-append buf size i (suc n) m =
    rw suc-add (ap (λ l. get_or buf i 0 ∷ l) (span-append buf size (next size i) n m))

-- A byte written just behind a span makes it longer by that byte.
span-push :
    (buf : List ℕ) (size i n v : ℕ)
    → length buf ≡ size
    → i < size
    → n < size
    → span (set buf (step_by size i n) v) size i (n + 1) ≡ span buf size i n ++ (v ∷ [])
unfolding span
span-push buf size i n v e h lt = rw (span-append (set buf (step_by size i n) v) size i n 1) (
    ap₂ ◌++◌
      (span-set_far buf size i n (step_by size i n) v (λ k kn. step_by-ne size i k n h kn lt))
      (ap (λ b. b ∷ [])
        (get_or-set_self buf (step_by size i n) v 0 (omega (arith, step_by-lt size i n h)))))

next_step : (size i n j : ℕ) → j ≡ step_by size i n → j + 1 < size → j + 1 ≡ step_by size i (n + 1)
next_step size i n j e lt =
    let s : step_by size i (n + 1) ≡ next size (step_by size i n) =
      rw add-one (step_by-suc size i n) in
    ground arith

-- So does a piece that does not pass the end of the buffer.
pub span-overwrite :
    (bs buf : List ℕ) (size i n j : ℕ)
    → length buf ≡ size
    → i < size
    → n + length bs ≤ size
    → j + length bs ≤ size
    → (0 < length bs → j ≡ step_by size i n)
    → span (overwrite buf j bs) size i (n + length bs) ≡ span buf size i n ++ bs
span-overwrite [] buf size i n j e h le fits at_end = rw (add-zero, append-nil)
span-overwrite (b ∷ bs) buf size i n j e h le fits at_end =
    let here : j ≡ step_by size i n = at_end (omega arith) in
    let push : span (set buf j b) size i (n + 1) ≡ span buf size i n ++ (b ∷ []) =
      rw here (span-push buf size i n b e h (omega arith)) in
    let ih : span (overwrite (set buf j b) (j + 1) bs) size i (n + 1 + length bs)
        ≡ span (set buf j b) size i (n + 1) ++ bs =
      span-overwrite bs (set buf j b) size i (n + 1) (j + 1) (length-set buf j b ∙ e) h
        (omega arith) (omega arith) (λ more. next_step size i n j here (omega arith)) in
    ap (λ k. span (overwrite (set buf j b) (j + 1) bs) size i k) (omega arith)
    ∙ (ih ∙ (ap (λ l. l ++ bs) push ∙ append_assoc (span buf size i n) (b ∷ []) bs))

-- A span that does not pass the end of the buffer is a piece of it.
cons-take-drop :
    (n i : ℕ) (buf : List ℕ)
    → i < length buf
    → get_or buf i 0 ∷ take n (drop (suc i) buf) ≡ take (suc n) (drop i buf)
cons-take-drop n i [] h = absurd (omega arith)
cons-take-drop n zero (b ∷ bs) h = refl
cons-take-drop n (suc i) (b ∷ bs) h = cons-take-drop n i bs (omega arith)

pub span-eq-take-drop :
    (n : ℕ) (buf : List ℕ) (size i : ℕ)
    → length buf ≡ size
    → i + n ≤ size
    → span buf size i n ≡ take n (drop i buf)
unfolding span
span-eq-take-drop zero buf size i e le = refl
span-eq-take-drop (suc zero) buf size i e le = cons-take-drop zero i buf (omega arith)
span-eq-take-drop (suc (suc n)) buf size i e le =
    ap (λ l. get_or buf i 0 ∷ l)
      (ap (λ k. span buf size k (suc n)) (next-suc (omega arith))
        ∙ span-eq-take-drop (suc n) buf size (suc i) e (omega arith))
    ∙ cons-take-drop (suc n) i buf (omega arith)
  where
    next-suc : suc i < size → next size i ≡ suc i
    next-suc lt = ground arith

pub length-span : (buf : List ℕ) (size i n : ℕ) → length (span buf size i n) ≡ n
unfolding span
length-span buf size i zero = refl
length-span buf size i (suc n) = ap suc (length-span buf size (next size i) n)

-- The index after less than one turn, as the code computes it.
pub step_by-eq-mod : (size i n : ℕ) → i < size → n ≤ size → step_by size i n ≡ (i + n) % size
step_by-eq-mod size i n h le = elim (dec_lt (i + n) size) [
  | yes lt ↦ omega (arith, step_by_cases size i n h le, mod-eq_of_lt lt)
  | no ge ↦ omega (
    arith,
    step_by_cases size i n h le,
    mod-eq-sub-mod {n = i + n} {m = size} (omega arith),
    mod-eq_of_lt {n = i + n - size} {m = size} (omega arith),
  )
]
