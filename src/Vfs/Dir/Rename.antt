-- ===== src/Vfs/Dir/Rename.antt =====
-- ramfs_rename of an entry to the name that it has.
use native.Mathlib.Omega.{arith}
use utms.Base.{
  ◌≡◌, ◌∙◌, ◌==◌, ℕ, Bool, true, false, List, [], ◌∷◌, Option, none, some, refl, ap, if_cases,
  if_known, elim_some, elim_none,
}
use utms.Vfs.Dir.{
  Node, Nodes, same_name, find_named, find_child, remove, remove_child, update, move, rename,
  is_dir, is_kept, or_same,
}

-- The name stands once among the children, at the node `c`, which stands there once.
pub data Once (t : Nodes) (name : List ℕ) (c : ℕ) : List ℕ → Type 0 where
  here :
      (cs : List ℕ)
      → same_name (t c).name name ≡ true
      → find_named t name cs ≡ none
      → remove c cs ≡ none
      → Once t name c (c ∷ cs)
  there :
      (x : ℕ) (cs : List ℕ)
      → (x == c) ≡ false
      → same_name (t x).name name ≡ false
      → Once t name c cs
      → Once t name c (x ∷ cs)

find_named-Once :
    (t : Nodes) (name : List ℕ) (c : ℕ) (cs : List ℕ)
    → Once t name c cs
    → find_named t name cs ≡ some c
unfolding find_named
find_named-Once t name c [] o = elim o [ ]
find_named-Once t name c (c' ∷ cs) (here cs' e f g) = rw e refl
find_named-Once t name c (x ∷ cs) (there x' cs' ne f o) = rw f (find_named-Once t name c cs o)

-- Without the node there is neither the name nor the node.
data Gone (t : Nodes) (name : List ℕ) (c : ℕ) : Option (List ℕ) → Type 0 where
  gone : (cs : List ℕ) → find_named t name cs ≡ none → remove c cs ≡ none → Gone t name c (some cs)

push-Gone :
    (t : Nodes) (name : List ℕ) (c x : ℕ)
    → (x == c) ≡ false
    → same_name (t x).name name ≡ false
    → (r : Option (List ℕ)) → Gone t name c r
    → Gone t name c (elim r [ none ↦ none | some ys ↦ some (x ∷ ys) ])
unfolding find_named remove
push-Gone t name c x ne f none g = elim g [ ]
push-Gone t name c x ne f (some cs') (gone cs g h) = gone (x ∷ cs) (rw f g) (rw (ne, h) refl)

remove-Gone :
    (t : Nodes) (name : List ℕ) (c : ℕ) (cs : List ℕ)
    → Once t name c cs
    → Gone t name c (remove c cs)
unfolding remove
remove-Gone t name c [] o = elim o [ ]
remove-Gone t name c (c' ∷ cs) (here cs' e f g) =
    if_known (Gone t name c) (c == c) _ (ground arith) (gone cs f g)
remove-Gone t name c (x ∷ cs) (there x' cs' ne f o) =
    rw ne (push-Gone t name c x ne f (remove c cs) (remove-Gone t name c cs o))

-- The names alone decide what is found.
find_named-names :
    (t u : Nodes) (name : List ℕ) (cs : List ℕ)
    → ((x : ℕ) → (u x).name ≡ (t x).name)
    → find_named u name cs ≡ find_named t name cs
unfolding find_named
find_named-names t u name [] same = refl
find_named-names t u name (c ∷ cs) same = rw (same c, find_named-names t u name cs same) refl

without : Nodes → ℕ → ℕ → List ℕ → Nodes
without t d c cs =
    let t' = update d (record (t d) { children = cs }) t in
    update c (record (t' c) { parent = none }) t'

update-keeps :
    {A : Type 0} (f : Node → A) (a : ℕ) (n : Node) (t : Nodes) (x : ℕ)
    → f n ≡ f (t a)
    → f (update a n t x) ≡ f (t x)
update-keeps f a n t x h =
    if_cases (λ m. f m ≡ f (t x)) (x == a)
      (λ e. let same : a ≡ x = ground arith in h ∙ ap (λ y. f (t y)) same) (λ e. refl)

module _ (t : Nodes) (d c : ℕ) (cs : List ℕ) where
  middle : Nodes
  middle = update d (record (t d) { children = cs }) t

  without-name : (x : ℕ) → (without t d c cs x).name ≡ (t x).name
  unfolding without middle
  without-name x =
      update-keeps (λ n. n.name) c (record (middle c) { parent = none }) middle x refl
      ∙ update-keeps (λ n. n.name) d (record (t d) { children = cs }) t x refl

  without-type : (x : ℕ) → (without t d c cs x).type ≡ (t x).type
  unfolding without middle
  without-type x =
      update-keeps (λ n. n.type) c (record (middle c) { parent = none }) middle x refl
      ∙ update-keeps (λ n. n.type) d (record (t d) { children = cs }) t x refl

  without-children : (without t d c cs d).children ≡ cs
  unfolding without middle
  without-children =
      update-keeps (λ n. n.children) c (record (middle c) { parent = none }) middle d refl
      ∙ if_known (λ (n : Node). n.children ≡ cs) (d == d) (t d) (ground arith) refl

-- The call fails, and the name is gone.
pub record Lost (d : ℕ) (name : List ℕ) (r : Nodes × Bool) : Type 0 where
  pub fails : r.1 ≡ false
  pub missing : find_child r.0 d name ≡ none

of_Gone :
    (t : Nodes) (d c : ℕ) (name : List ℕ) (r : Option (List ℕ))
    → is_dir (t d).type ≡ true
    → Gone t name c r
    → Lost d name
        (move d d c name (or_same t (elim r [ none ↦ none | some cs ↦ some (without t d c cs) ])))
unfolding move remove_child find_child remove without
of_Gone t d c name none is g = elim g [ ]
of_Gone t d c name (some cs') is (gone cs absent no_more) =
    let u = without t d c cs in
    elim_none (Lost d name)
      (elim (remove c (u d).children) [ none ↦ none | some ds ↦ some (without u d c ds) ]) _ _
      (elim_none (λ o. o ≡ none) (remove c (u d).children) _ _
        (ap (remove c) (without-children t d c cs) ∙ no_more) refl)
      (record {
        fails = refl;
        missing =
            rw (without-type t d c cs d, is)
              (ap (find_named u name) (without-children t d c cs)
                ∙ (find_named-names t u name cs (without-name t d c cs) ∙ absent));
      })

-- Where a name stands once in a directory, for a file or an empty directory: ramfs_rename of the
-- name to itself, in the same directory, fails, and the entry is removed all the same.
pub rename-Lost :
    (t : Nodes) (d c : ℕ) (name : List ℕ)
    → is_dir (t d).type ≡ true
    → Once t name c (t d).children
    → is_kept (t c) ≡ false
    → Lost d name (rename d name d name t)
unfolding rename find_child remove_child without
rename-Lost t d c name is o empty =
    let found : find_child t d name ≡ some c = rw is (find_named-Once t name c (t d).children o) in
    elim_some (Lost d name) (find_child t d name) _ _ found (
      elim_some (Lost d name) (find_child t d name) _ _ found
        (rw empty (of_Gone t d c name _ is (remove-Gone t name c (t d).children o))))
