-- ===== src/Vfs/Mount/Longest.antt =====
-- find_mount takes the longest path that covers the one given.
use mathlib.Core.Option.{some_inj}
use mathlib.Core.Path.{subst}
use utms.Base.{
  ◌≡◌, ◌<◌, ◌≤◌, ◌&&◌, ◌+◌, ◌∙◌, zero, suc, ℕ, Bool, true, false, List, [], ◌∷◌, Option, none, some,
  refl, ap, arith, if◌then◌else◌, ltb, length, get_elem?, drop,
}
use utms.Vfs.Mount.{Mount, covers, best_from, find_mount, skip_slashes}

-- No mount of the table that covers the path has a longer path of its own.
abbrev pub NoLonger : List ℕ → List Mount → ℕ → Type 0
NoLonger path ms n =
    (j : ℕ) (m : Mount) → get_elem? ms j ≡ some m → covers path m ≡ true → length m.path ≤ n

-- What the loop makes of a best mount of length `n` so far.
data Scan (path : List ℕ) (ms : List Mount) (i : ℕ) (best : Option ℕ) (n : ℕ)
    : Option ℕ × ℕ → Type 0 where
  kept : NoLonger path ms n → Scan path ms i best n (best, n)
  better :
      (j p : ℕ) (m : Mount)
      → p ≡ i + j
      → get_elem? ms j ≡ some m
      → covers path m ≡ true
      → n < length m.path
      → NoLonger path ms (length m.path)
      → Scan path ms i best n (some p, length m.path)

longer_head :
    (path : List ℕ) (m : Mount) (ms : List Mount) (n : ℕ)
    → (covers path m ≡ true → length m.path ≤ n)
    → NoLonger path ms n
    → NoLonger path (m ∷ ms) n
longer_head path m ms n h f zero k e c =
    let same : m ≡ k = some_inj.0 e in
    subst (λ (x : Mount). length x.path ≤ n) same (h (ap (covers path) same ∙ c))
longer_head path m ms n h f (suc j) k e c = f j k e c

module _ (path : List ℕ) (m : Mount) (ms : List Mount) (i : ℕ) (best : Option ℕ) (n : ℕ) where
  -- The mount at the front is the best so far.
  front :
      covers path m ≡ true
      → n < length m.path
      → (r : Option ℕ × ℕ) → Scan path ms (suc i) (some i) (length m.path) r
      → Scan path (m ∷ ms) i best n r
  front c lt (b, l) (kept f) =
      better 0 i m (omega arith) refl c lt
        (longer_head path m ms (length m.path) (λ d. omega arith) f)
  front c lt (b, l) (better j p k e g d more f) =
      better (suc j) p k (omega arith) g d (omega (arith, lt, more))
        (longer_head path m ms (length k.path) (λ x. omega (arith, more)) f)

  -- It is not better than what was found.
  behind :
      (covers path m ≡ true → length m.path ≤ n)
      → (r : Option ℕ × ℕ) → Scan path ms (suc i) best n r
      → Scan path (m ∷ ms) i best n r
  behind h (b, l) (kept f) = kept (longer_head path m ms n h f)
  behind h (b, l) (better j p k e g d more f) =
      better (suc j) p k (omega arith) g d more
        (longer_head path m ms (length k.path) (λ x. let le = h x in omega arith) f)

both : (a b : Bool) → (a && b) ≡ true → (a ≡ true) × (b ≡ true)
both a b e = (ground arith, ground arith)

not_longer : (a : Bool) (n l : ℕ) → (a && ltb n l) ≡ false → a ≡ true → l ≤ n
not_longer a n l e f = ground arith

-- One round of the loop, whichever way its test comes out.
round-Scan :
    (path : List ℕ) (m : Mount) (ms : List Mount) (i : ℕ) (best : Option ℕ) (n : ℕ) (b : Bool)
    → (covers path m && ltb n (length m.path)) ≡ b
    → ((best' : Option ℕ) (n' : ℕ)
        → Scan path ms (suc i) best' n' (best_from path ms (suc i) best' n'))
    → Scan path
        (m ∷ ms)
        i
        best
        n
        (best_from path ms (suc i) (if b then some i else best) (if b then length m.path else n))
round-Scan path m ms i best n true e rest =
    let (c, lt) = both (covers path m) (ltb n (length m.path)) e in
    front path m ms i best n c (ground arith) _ (rest (some i) (length m.path))
round-Scan path m ms i best n false e rest =
    behind path m ms i best n (not_longer (covers path m) n (length m.path) e) _ (rest best n)

best_from-Scan :
    (path : List ℕ) (ms : List Mount) (i : ℕ) (best : Option ℕ) (n : ℕ)
    → Scan path ms i best n (best_from path ms i best n)
unfolding best_from
best_from-Scan path [] i best n = kept (λ j m e c. cc)
best_from-Scan path (m ∷ ms) i best n =
    round-Scan path m ms i best n (covers path m && ltb n (length m.path)) refl
      (λ best' n'. best_from-Scan path ms (suc i) best' n')

-- What find_mount gives.
pub data Found (path : List ℕ) (ms : List Mount) : Option (ℕ × List ℕ) → Type 0 where
  unmounted : NoLonger path ms 0 → Found path ms none
  below :
      (i : ℕ) (m : Mount)
      → get_elem? ms i ≡ some m
      → covers path m ≡ true
      → NoLonger path ms (length m.path)
      → Found path ms (some (i, skip_slashes (drop (length m.path) path)))

of_Scan :
    (path : List ℕ) (ms : List Mount) (r : Option ℕ × ℕ)
    → Scan path ms 0 none 0 r
    → Found path ms (elim r.0 [ none ↦ none | some i ↦ some (i, skip_slashes (drop r.1 path)) ])
of_Scan path ms (b, l) (kept f) = unmounted f
of_Scan path ms (b, l) (better j p m e g c lt f) =
    below p m (ap (get_elem? ms) {x = p} {y = j} (omega arith) ∙ g) c f

-- find_mount gives a mount of the table that is used and covers the path, with what is left of the
-- path behind it and no slash before that; no mount that covers the path has a longer one. It gives
-- NULL only where none but one of an empty path covers it.
pub find_mount-Found : (path : List ℕ) (ms : List Mount) → Found path ms (find_mount path ms)
unfolding find_mount
find_mount-Found path ms =
    of_Scan path ms (best_from path ms 0 none 0) (best_from-Scan path ms 0 none 0)
