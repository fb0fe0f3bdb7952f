-- ===== src/Memory/Paging/Ensure.antt =====
-- The step from one table to the next, which makes a table where there is none.
use utms.Base.{
  inl, if◌then◌else◌, ◌&&◌, ◌+◌, if_elim, if_known, inr, has_bit, ◌⊎◌, some, Option, ℕ, zero, suc,
  ◌<◌, ◌≡◌, Bool, true, false, refl, arith, none, if_cases,
}
use utms.Memory.Paging.Grow.{IsLink-pos, grown-Step}
use utms.Memory.Paging.{
  huge, user, on_success, split, piece, bit_or, Machine, present, set_entry, fill, grow, ensure,
}
use Prim.Native.Nat.{bit_or}
use utms.Memory.Pages.{Pages, alloc_page}
use utms.Memory.Pages.Fresh.{Allocated, is_taken, exhausted, granted, alloc_page-Allocated}
use utms.Memory.Paging.Levels.{Levels, IsLevelled, IsLink, Step, is_leaf}

-- Every page is taken.
abbrev pub NoPage : Machine → Type 0
NoPage m = (idx : ℕ) → idx < m.pages.total → is_taken m.pages idx ≡ true

-- The step to the next level: there is no page for a table, or a table is there.
pub data Stepped (level : Levels) (m : Machine) (k t i : ℕ) : Machine × Bool → Type 0 where
  stuck : NoPage m → Stepped level m k t i (m, false)
  stepped :
      (level' : Levels) (m' : Machine)
      → Step level m k t i level' m'
      → Stepped level m k t i (m', true)

module _ (level : Levels) (m : Machine) (k t i flags : ℕ) (entries : ℕ → ℕ)
    (sound : IsLevelled level m) (at : level t ≡ suc k) (few : flags < 4096) (link : IsLink k flags)
    (no_links : (j l : ℕ) → k ≡ suc l → IsLink l (entries j) → ⊥) where
  grow_of : Pages × Option ℕ → Machine × Bool
  grow_of r = elim r.1 [
    | none ↦ (record m { pages = r.0 }, false)
    | some a ↦ (set_entry t i (bit_or a flags) (fill a entries (record m { pages = r.0 })), true)
  ]

  grow_of-Stepped : (r : Pages × Option ℕ) → Allocated m.pages r → Stepped level m k t i (grow_of r)
  unfolding grow_of
  grow_of-Stepped (p, none) (exhausted f) = stuck f
  grow_of-Stepped (q, some a) (granted idx p' lt free taken others ok same back) = stepped _ _ (
      grown-Step level m k idx entries q sound lt free taken others ok same no_links t i flags at
        few link)

  grow-Stepped : Stepped level m k t i (grow t i entries flags m)
  unfolding grow grow_of
  grow-Stepped =
      grow_of-Stepped (alloc_page m.pages) (alloc_page-Allocated m.pages sound.on sound.pages)

-- The step of the code: there is a table already, or a new one of no entries.
zero-no_link : (l : ℕ) → IsLink l 0 → ⊥
zero-no_link l h = let p = h.here in ground arith

new-IsLink : (k f : ℕ) → 0 < k → (f ≡ 3) ⊎ (f ≡ 7) → IsLink k f
new-IsLink zero f pos h = absurd (omega arith)
new-IsLink (suc zero) f pos h = record { here = ground arith; down = ground arith }
new-IsLink (suc (suc k)) f pos h = record { here = ground arith; down = refl }

module _ (level : Levels) (m : Machine) (k t i : ℕ) (sound : IsLevelled level m) where
  here-Stepped : IsLink k (m.table t i) → Stepped level m k t i (m, true)
  here-Stepped l =
      stepped level m
        (record { sound = sound; keeps = λ u p. refl; above = λ u j lt. refl; link = l })

  pub ensure-Stepped :
      0 < k
      → level t ≡ suc k
      → (has_bit present (m.table t i) ≡ true → is_leaf k (m.table t i) ≡ false)
      → Stepped level m k t i (ensure t i m)
  unfolding ensure
  ensure-Stepped pos at down =
      if_cases (Stepped level m k t i) (has_bit present (m.table t i))
        (λ p. here-Stepped (record { here = p; down = down p }))
        (λ p.
          grow-Stepped level m k t i 7 (λ j. 0) sound at (omega arith)
            (new-IsLink k 7 pos (inr refl)) (λ j l e. zero-no_link l))

  -- At the page directory: a huge page is split, and a missing table is made.
  split-Stepped :
      k ≡ 1
      → level t ≡ suc k
      → Stepped level m k t i
          (grow t i (piece (m.table t i)) (3 + (if has_bit user (m.table t i) then user else 0)) m)
  split-Stepped e at =
      if_elim (λ f. Stepped level m k t i (grow t i (piece (m.table t i)) (3 + f) m))
        (has_bit user (m.table t i)) (new 7 (inr refl)) (new 3 (inl refl))
    where
      new : (f : ℕ) → (f ≡ 3) ⊎ (f ≡ 7) → Stepped level m k t i (grow t i (piece (m.table t i)) f m)
      new f h =
          grow-Stepped level m k t i f (piece (m.table t i)) sound at (ground arith)
            (new-IsLink k f (omega arith) h)
            (λ j l e' w. let pos = IsLink-pos l _ w in absurd (omega (arith, pos)))

ensure-after :
    (level : Levels) (m : Machine) (k t i : ℕ) (r : Machine × Bool)
    → Stepped level m k t i r
    → Stepped level m k t i (on_success r (ensure t i))
unfolding ensure
ensure-after level m k t i (m', false) (stuck f) = stuck f
ensure-after level m k t i (m', true) (stepped level' m'' s) =
    if_known (Stepped level m k t i) (has_bit present (m'.table t i)) _ s.link.here
      (stepped level' m' s)

not_huge : (p h : Bool) → (p && h) ≡ false → p ≡ true → h ≡ false
not_huge p h e f = ground arith

pub ensure-split-Stepped :
    (level : Levels) (m : Machine) (t i : ℕ)
    → IsLevelled level m
    → level t ≡ 2
    → Stepped level m 1 t i (on_success (split t i m) (ensure t i))
unfolding split
ensure-split-Stepped level m t i sound at =
    if_cases (λ r. Stepped level m 1 t i (on_success r (ensure t i)))
      (has_bit present (m.table t i) && has_bit huge (m.table t i))
      (λ b. ensure-after level m 1 t i _ (split-Stepped level m 1 t i sound refl at))
      (λ b. ensure-Stepped level m 1 t i sound (omega arith) at (not_huge _ _ b))
