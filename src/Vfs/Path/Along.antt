-- ===== src/Vfs/Path/Along.antt =====
-- Where resolve_path_internal leads, by what the names of a path mean.
use utms.Vfs.Path.{above, dot, dot_dot, walk, step, Driver}
use utms.Vfs.Path.Names.{along, names, walk-along}
use utms.Vfs.Dir.{same_name, Nodes, NodeType, is_dir, dir, file, symlink, block_device}
use mathlib.Core.Path.{ap₂, subst}
use utms.Base.{
  ==_iff, ◌≢◌, ℕ, ◌≤◌, ◌≡◌, ◌==◌, ◌∷◌, [], List, Option, none, some, refl, sym, true, false, inl,
  inr, Bool-cases, if_cases, arith, length,
}

-- Where a name leads from node `a`, and what it leaves of the nodes: `.` stays, `..` goes to the
-- parent, if there is one, and any other name is looked up, which only a directory allows.
pub data Leads (d : Driver) (a : ℕ) (t : Nodes) : List ℕ → Nodes × Option ℕ → Type 0 where
  stays : Leads d a t (46 ∷ []) (t, some a)
  up : (b : ℕ) → (t a).parent ≡ some b → Leads d a t (46 ∷ 46 ∷ []) (t, some b)
  at_top : (t a).parent ≡ none → Leads d a t (46 ∷ 46 ∷ []) (t, some a)
  looked_up :
      (n : List ℕ)
      → n ≢ 46 ∷ []
      → n ≢ 46 ∷ 46 ∷ []
      → (t a).type ≡ dir
      → Leads d a t n (d.lookup a n t)
  no_directory :
      (n : List ℕ) → n ≢ 46 ∷ [] → n ≢ 46 ∷ 46 ∷ [] → (t a).type ≢ dir → Leads d a t n (t, none)

-- One name after the other, up to the first that leads nowhere.
pub data Along (d : Driver) : ℕ → List (List ℕ) → Nodes → Nodes × Option ℕ → Type 0 where
  arrived : (a : ℕ) (t : Nodes) → Along d a [] t (t, some a)
  stopped :
      (a : ℕ) (n : List ℕ) (ns : List (List ℕ)) (t t' : Nodes)
      → Leads d a t n (t', none)
      → Along d a (n ∷ ns) t (t', none)
  further :
      (a b : ℕ) (n : List ℕ) (ns : List (List ℕ)) (t t' : Nodes) (r : Nodes × Option ℕ)
      → Leads d a t n (t', some b)
      → Along d b ns t' r
      → Along d a (n ∷ ns) t r

same_name_sound : (xs ys : List ℕ) → same_name xs ys ≡ true → xs ≡ ys
unfolding same_name
same_name_sound [] [] e = refl
same_name_sound [] (y ∷ ys) e = cc
same_name_sound (x ∷ xs) [] e = cc
same_name_sound (x ∷ xs) (y ∷ ys) e = elim (Bool-cases (x == y)) [
  | inl t ↦ ap₂ (λ n l. n ∷ l) ((==_iff x y).0 t) (same_name_sound xs ys (rw t at e))
  | inr f ↦ absurd (clash (rw f at e))
]
  where
    clash : false ≡ true → ⊥
    clash q = cc

same_name_self : (xs : List ℕ) → same_name xs xs ≡ true
unfolding same_name
same_name_self [] = refl
same_name_self (x ∷ xs) = let rest = same_name_self xs in ground arith

-- Names that differ.
apart : (xs ys : List ℕ) → same_name xs ys ≡ false → xs ≢ ys
apart xs ys f e = let s = same_name_self ys in let g : same_name ys ys ≡ false = rw e at f in cc

above-Leads : (d : Driver) (a : ℕ) (t : Nodes) → Leads d a t (46 ∷ 46 ∷ []) (t, some (above t a))
above-Leads d a t = above_of (t a).parent refl
  where
    above_of :
        (o : Option ℕ)
        → (t a).parent ≡ o
        → Leads d a t (46 ∷ 46 ∷ []) (t, some (elim o [ none ↦ a | some b ↦ b ]))
    above_of none e = at_top e
    above_of (some b) e = up b e

is_dir_sound : (k : NodeType) → is_dir k ≡ true → k ≡ dir
is_dir_sound dir e = refl
is_dir_sound file e = cc
is_dir_sound symlink e = cc
is_dir_sound block_device e = cc

not_dir : (k : NodeType) → is_dir k ≡ false → k ≢ dir
not_dir k f e = let g : is_dir dir ≡ false = rw e at f in cc

step-Leads : (d : Driver) (a : ℕ) (n : List ℕ) (t : Nodes) → Leads d a t n (step d a n t)
unfolding step
step-Leads d a n t =
    if_cases (Leads d a t n) (same_name n dot)
      (λ e. subst (λ m. Leads d a t m (t, some a)) (sym (same_name_sound n dot e)) stays)
      (λ e.
        if_cases (Leads d a t n) (same_name n dot_dot)
          (λ e'.
            subst (λ m. Leads d a t m (t, some (above t a))) (sym (same_name_sound n dot_dot e'))
              (above-Leads d a t))
          (λ e'.
            if_cases (Leads d a t n) (is_dir (t a).type)
              (λ k. looked_up n (apart n dot e) (apart n dot_dot e') (is_dir_sound _ k))
              (λ k. no_directory n (apart n dot e) (apart n dot_dot e') (not_dir _ k))))

along-Along :
    (d : Driver) (a : ℕ) (ns : List (List ℕ)) (t : Nodes) → Along d a ns t (along d a ns t)
unfolding along
along-Along d a [] t = arrived a t
along-Along d a (n ∷ ns) t = led (step d a n t) (λ b t'. along-Along d b ns t') (step-Leads d a n t)
  where
    led :
        (r : Nodes × Option ℕ)
        → ((b : ℕ) (t' : Nodes) → Along d b ns t' (along d b ns t'))
        → Leads d a t n r
        → Along d a (n ∷ ns) t (elim r.1 [ none ↦ (r.0, none) | some b ↦ along d b ns r.0 ])
    led (t', none) rest h = stopped a n ns t t' h
    led (t', some b) rest h = further a b n ns t t' (along d b ns t') h (rest b t')

-- With a round for each character, resolve_path_internal goes along the names of a path, which are
-- what stands between its slashes, in their order: `.` stays, `..` goes to the parent if there is
-- one, any other name is looked up in a node that is a directory, and the first name that leads
-- nowhere ends it.
pub walk-Along :
    (rounds : ℕ) (d : Driver) (a : ℕ) (path : List ℕ) (t : Nodes)
    → length path ≤ rounds
    → Along d a (names path) t (walk rounds d a path t)
walk-Along rounds d a path t le =
    subst (Along d a (names path) t) (sym (walk-along rounds d a path t le))
      (along-Along d a (names path) t)
