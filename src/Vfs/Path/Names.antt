-- ===== src/Vfs/Path/Names.antt =====
-- A path as the list of its names, and resolve_path_internal along them.
use utms.Base.{if◌then◌else◌, none, some, zero}
use utms.Vfs.Path.{walk, step, Driver}
use utms.Vfs.Dir.{Nodes}
use utms.Base.{Bool-cases, inl, inr, ◌≤◌, ◌∙◌, suc, true, false}
use utms.Vfs.Path.{split_name}
use utms.Base.{
  ℕ, suc, ◌≤◌, ◌≡◌, ◌∙◌, refl, sym, ap, arith, Bool, true, false, List, [], ◌∷◌, Option, none, some,
  if◌then◌else◌, ◌==◌, length, if_cases,
}
use utms.Vfs.Dir.{Nodes}
use utms.Vfs.Mount.{slash, skip_slashes}
use utms.Vfs.Path.{Driver, split_name, step}

-- The pieces between the slashes of a path, empty ones too.
abbrev grow : ℕ → List (List ℕ) → List (List ℕ)
grow x [] = (x ∷ []) ∷ []
grow x (p ∷ ps) = (x ∷ p) ∷ ps

unfoldable pub pieces : List ℕ → List (List ℕ)
pieces [] = [] ∷ []
pieces (x ∷ xs) = let later = pieces xs in if x == slash then [] ∷ later else grow x later

unfoldable pub filled : List (List ℕ) → List (List ℕ)
filled [] = []
filled ([] ∷ ps) = filled ps
filled ((x ∷ xs) ∷ ps) = (x ∷ xs) ∷ filled ps

-- The names of a path: its pieces that are not empty.
abbrev pub names : List ℕ → List (List ℕ)
names path = filled (pieces path)

-- One name after the other.
unfoldable pub along : Driver → ℕ → List (List ℕ) → Nodes → Nodes × Option ℕ
along d a [] t = (t, some a)
along d a (n ∷ ns) t = elim (step d a n t).1 [
  | none ↦ ((step d a n t).0, none)
  | some b ↦ along d b ns (step d a n t).0
]

names-slash : (x : ℕ) (xs : List ℕ) → (x == slash) ≡ true → names (x ∷ xs) ≡ names xs
unfolding pieces filled
names-slash x xs t = rw t refl

names-skip_slashes : (path : List ℕ) → names (skip_slashes path) ≡ names path
unfolding skip_slashes
names-skip_slashes [] = refl
names-skip_slashes (x ∷ xs) =
    if_cases (λ (p : List ℕ). names p ≡ names (x ∷ xs)) (x == slash)
      (λ t. names-skip_slashes xs ∙ sym (names-slash x xs t)) (λ f. refl)

-- What is left begins with no slash, and is no longer.
abbrev Begins : Bool → List ℕ → Type 0
Begins b [] = Unit
Begins b (x ∷ xs) = (x == slash) ≡ b

skip_slashes-Begins : (path : List ℕ) → Begins false (skip_slashes path)
unfolding skip_slashes
skip_slashes-Begins [] = tt
skip_slashes-Begins (x ∷ xs) =
    if_cases (Begins false) (x == slash) (λ t. skip_slashes-Begins xs) (λ f. f)

length-skip_slashes : (path : List ℕ) → length (skip_slashes path) ≤ length path
unfolding skip_slashes
length-skip_slashes [] = omega arith
length-skip_slashes (x ∷ xs) =
    if_cases (λ (p : List ℕ). length p ≤ suc (length xs)) (x == slash)
      (λ t. omega (arith, length-skip_slashes xs)) (λ f. omega arith)

split_name-Begins : (path : List ℕ) → Begins true (split_name path).1
unfolding split_name
split_name-Begins [] = tt
split_name-Begins (x ∷ xs) =
    if_cases (λ (r : List ℕ × List ℕ). Begins true r.1) (x == slash) (λ t. t)
      (λ f. split_name-Begins xs)

length-split_name : (path : List ℕ) → length (split_name path).1 ≤ length path
unfolding split_name
length-split_name [] = omega arith
length-split_name (x ∷ xs) =
    if_cases (λ (r : List ℕ × List ℕ). length r.1 ≤ suc (length xs)) (x == slash) (λ t. omega arith)
      (λ f. omega (arith, length-split_name xs))

-- The pieces behind a slash.
abbrev behind : List ℕ → List (List ℕ)
behind [] = []
behind (x ∷ xs) = pieces xs

pieces-split_name : (path : List ℕ) → pieces path ≡ (split_name path).0 ∷ behind (split_name path).1
unfolding pieces split_name
pieces-split_name [] = refl
pieces-split_name (x ∷ xs) = elim (Bool-cases (x == slash)) [
  | inl t ↦ rw t refl
  | inr f ↦ rw f (ap (grow x) (pieces-split_name xs))
]

filled-behind : (rest : List ℕ) → Begins true rest → filled (behind rest) ≡ names rest
unfolding pieces filled
filled-behind [] b = refl
filled-behind (x ∷ xs) b = rw b refl

split_name-cons :
    (x : ℕ) (xs : List ℕ)
    → (x == slash) ≡ false
    → split_name (x ∷ xs) ≡ (x ∷ (split_name xs).0, (split_name xs).1)
unfolding split_name
split_name-cons x xs f = rw f refl

names-cons :
    (x : ℕ) (xs : List ℕ)
    → (x == slash) ≡ false
    → names (x ∷ xs) ≡ (x ∷ (split_name xs).0) ∷ names (split_name xs).1
unfolding filled
names-cons x xs f =
    ap filled (pieces-split_name (x ∷ xs))
    ∙ (ap (λ (r : List ℕ × List ℕ). filled (r.0 ∷ behind r.1)) (split_name-cons x xs f)
        ∙ ap (λ ns. (x ∷ (split_name xs).0) ∷ ns)
            (filled-behind (split_name xs).1 (split_name-Begins xs)))

walk-end :
    (rounds : ℕ) (d : Driver) (a : ℕ) (path : List ℕ) (t : Nodes)
    → skip_slashes path ≡ []
    → walk (suc rounds) d a path t ≡ (t, some a)
unfolding walk
walk-end rounds d a path t e = rw e refl

-- What a round does with the name that it has cut off.
abbrev taken : ℕ → Driver → ℕ → Nodes → List ℕ × List ℕ → Nodes × Option ℕ
taken rounds d a t r = elim (step d a r.0 t).1 [
  | none ↦ ((step d a r.0 t).0, none)
  | some b ↦ walk rounds d b r.1 (step d a r.0 t).0
]

walk-name :
    (rounds : ℕ) (d : Driver) (a : ℕ) (path : List ℕ) (t : Nodes) (x : ℕ) (xs : List ℕ)
    → skip_slashes path ≡ x ∷ xs
    → (x == slash) ≡ false
    → walk (suc rounds) d a path t ≡ taken rounds d a t (x ∷ (split_name xs).0, (split_name xs).1)
unfolding walk
walk-name rounds d a path t x xs e f =
    ap (λ (q : List ℕ). if length q == 0 then (t, some a) else taken rounds d a t (split_name q)) e
    ∙ if_cases
        (λ (r : Nodes × Option ℕ).
          r ≡ taken rounds d a t (x ∷ (split_name xs).0, (split_name xs).1))
        (length (x ∷ xs) == 0) (λ z. absurd (ground arith))
        (λ z. ap (taken rounds d a t) (split_name-cons x xs f))

-- Two ways to go on that agree on every node.
onward :
    (r : Nodes × Option ℕ) (f g : ℕ → Nodes → Nodes × Option ℕ)
    → ((b : ℕ) (t : Nodes) → f b t ≡ g b t)
    → ◌≡◌ {A = Nodes × Option ℕ}
        (elim r.1 [ none ↦ (r.0, none) | some b ↦ f b r.0 ])
        (elim r.1 [ none ↦ (r.0, none) | some b ↦ g b r.0 ])
onward (t, none) f g h = refl
onward (t, some b) f g h = h b t

-- One name of the path, then the rest.
along-name :
    (rounds : ℕ) (d : Driver) (a : ℕ) (t : Nodes) (x : ℕ) (xs : List ℕ)
    → ((b : ℕ) (t' : Nodes)
        → walk rounds d b (split_name xs).1 t' ≡ along d b (names (split_name xs).1) t')
    → taken rounds d a t (x ∷ (split_name xs).0, (split_name xs).1)
      ≡ along d a ((x ∷ (split_name xs).0) ∷ names (split_name xs).1) t
unfolding along
along-name rounds d a t x xs rest =
    onward (step d a (x ∷ (split_name xs).0) t) (λ b t'. walk rounds d b (split_name xs).1 t')
      (λ b t'. along d b (names (split_name xs).1) t') rest

along-nothing : (d : Driver) (a : ℕ) (t : Nodes) → along d a (names []) t ≡ (t, some a)
unfolding along pieces filled
along-nothing d a t = refl

walk-no_rounds : (d : Driver) (a : ℕ) (t : Nodes) → walk 0 d a [] t ≡ (t, some a)
unfolding walk
walk-no_rounds d a t = refl

-- One round, where the slashes in front are skipped.
walk-round :
    (rounds : ℕ) (d : Driver) (a : ℕ) (path : List ℕ) (t : Nodes)
    → ((b : ℕ) (rest : List ℕ) (t' : Nodes)
        → length rest ≤ rounds
        → walk rounds d b rest t' ≡ along d b (names rest) t')
    → length path ≤ suc rounds
    → (q : List ℕ) → skip_slashes path ≡ q
    → Begins false q
    → length q ≤ length path
    → walk (suc rounds) d a path t ≡ along d a (names q) t
walk-round rounds d a path t later le [] e b shorter =
    walk-end rounds d a path t e ∙ sym (along-nothing d a t)
walk-round rounds d a path t later le (x ∷ xs) e b shorter =
    let less = length-split_name xs in
    walk-name rounds d a path t x xs e b
    ∙ (along-name rounds d a t x xs (λ c t'. later c (split_name xs).1 t' (omega arith))
        ∙ ap (λ ns. along d a ns t) (sym (names-cons x xs b)))

-- The loop is what its step does with the names.
pub walk-along :
    (rounds : ℕ) (d : Driver) (a : ℕ) (path : List ℕ) (t : Nodes)
    → length path ≤ rounds
    → walk rounds d a path t ≡ along d a (names path) t
walk-along zero d a [] t le = walk-no_rounds d a t ∙ sym (along-nothing d a t)
walk-along zero d a (x ∷ xs) t le = absurd (omega arith)
walk-along (suc rounds) d a path t le =
    walk-round rounds d a path t (λ b rest t' h. walk-along rounds d b rest t' h) le
      (skip_slashes path) refl (skip_slashes-Begins path) (length-skip_slashes path)
    ∙ ap (λ ns. along d a ns t) (names-skip_slashes path)
