-- ===== src/Memory/Space/Grows.antt =====
-- New pages and mappings keep the tables of different levels apart.
use utms.Base.{
  u64, has_bit, List, [], ◌∷◌, ℕ, zero, suc, ◌+◌, ◌∙◌, ◌%◌, ◌<◌, ◌≡◌, Bool, true, false, refl,
  arith, Option, none, some, if_elim,
}
use utms.Memory.Pages.{Pages, alloc_page, free_page, address}
use utms.Memory.Pages.Fresh.{Allocated, exhausted, granted, alloc_page-Allocated}
use utms.Memory.Paging.{Machine, present, fill, map_for_process}
use utms.Memory.Paging.Levels.{Levels, IsLevelled, IsLink, Keeps}
use utms.Memory.Paging.Grow.{
  with_table_self, adopted-IsLevelled, adopted-Keeps, adopted-same, page_free, page_aligned,
}
use utms.Memory.Paging.Map.{Mapped, no_page, occupied, mapped, Keeps-trans}
use utms.Memory.Paging.Process.{map_for_process-Mapped}
use utms.Memory.Space.{Region, new_page, map_identity, map_regions, rounds_of}

-- The machine with one more table of level `k`; the old ones are as they were. Or none, and nothing
-- has changed.
pub data Added (level : Levels) (m : Machine) (k : ℕ) : Machine × Option ℕ → Type 0 where
  refused : Added level m k (m, none)
  added :
      (level' : Levels) (m' : Machine) (a : ℕ)
      → IsLevelled level' m'
      → Keeps level level'
      → level a ≡ 0
      → level' a ≡ k
      → a % 4096 ≡ 0
      → ((u j : ℕ) → 0 < level u → m'.table u j ≡ m.table u j)
      → (free_page a m'.pages).bitmap ≡ m.pages.bitmap
      → (0 < m.pages.base → 0 < a)
      → Added level m k (m', some a)

new_page_of : Machine → Pages × Option ℕ → Machine × Option ℕ
new_page_of m r = elim r.1 [
  | none ↦ (record m { pages = r.0 }, none)
  | some a ↦ (fill a (λ j. 0) (record m { pages = r.0 }), some a)
]

no_link_zero : (l : ℕ) → IsLink l 0 → ⊥
no_link_zero l h = let p = h.here in ground arith

new_page_of-Added :
    (level : Levels) (m : Machine) (k : ℕ)
    → IsLevelled level m
    → (r : Pages × Option ℕ) → Allocated m.pages r
    → Added level m k (new_page_of m r)
unfolding new_page_of fill
new_page_of-Added level m k sound (p, none) (exhausted f) = refused
new_page_of-Added level m k sound (q, some a) (granted idx p' lt free taken others ok same back) =
    let none_linked = λ (j l : ℕ) (e : k ≡ suc l). no_link_zero l in
    added _ _ _
      (adopted-IsLevelled level m k idx (λ j. 0) q sound lt free taken others ok same none_linked)
      (adopted-Keeps level m k idx (λ j. 0) q sound lt free taken others ok same none_linked)
      (page_free level m k idx (λ j. 0) q sound lt free taken others ok same none_linked)
      (with_table_self (address m.pages idx) k level)
      (page_aligned level m k idx (λ j. 0) q sound lt free taken others ok same none_linked)
      (adopted-same level m k idx (λ j. 0) q sound lt free taken others ok same none_linked) back
      (λ pos. omega arith)

pub new_page-Added :
    (level : Levels) (m : Machine) (k : ℕ) → IsLevelled level m → Added level m k (new_page m)
unfolding new_page new_page_of
new_page-Added level m k sound =
    new_page_of-Added level m k sound (alloc_page m.pages)
      (alloc_page-Allocated m.pages sound.on sound.pages)

-- A machine with tables of some levels, where the old tables keep theirs.
pub data Grows (level : Levels) (m : Machine) : Machine → Type 0 where
  grows :
      (level' : Levels) {m' : Machine}
      → IsLevelled level' m'
      → Keeps level level'
      → Grows level m m'

of_Mapped :
    (level : Levels) (m : Machine) (k t virt phys flags : ℕ) (r : Machine × Bool)
    → Mapped level m k t virt phys flags r
    → Grows level m r.0
of_Mapped level m k t virt phys flags (m', false) (no_page l m2 s e f) = grows l s e
of_Mapped level m k t virt phys flags (m', false) (occupied l m2 pd s e h a i) = grows l s e
of_Mapped level m k t virt phys flags (m', true) (mapped l m2 s e a w) = grows l s e

pub Grows-trans :
    (level : Levels) (m m' : Machine)
    → Grows level m m'
    → (P : Machine → Type 0)
    → ((level' : Levels) → IsLevelled level' m' → Keeps level level' → P m')
    → P m'
Grows-trans level m m' (grows l s e) P f = f l s e

pub weaken :
    (level level' : Levels) (m m' m2 : Machine)
    → Keeps level level'
    → Grows level' m' m2
    → Grows level m m2
weaken level level' m m' m2 k (grows l s e) = grows l s (Keeps-trans level level' l k e)

module _ (pml4 flags : ℕ) (few : flags < 4096) (p : has_bit present flags ≡ true) where
  pub map_identity-Grows :
      (rounds base off : ℕ) (level : Levels) (m : Machine)
      → IsLevelled level m
      → level pml4 ≡ 4
      → Grows level m (map_identity rounds pml4 base off flags m)
  unfolding map_identity
  map_identity-Grows zero base off level m sound at = grows level sound (λ u pos. refl)
  map_identity-Grows (suc rounds) base off level m sound at =
      let r = map_for_process pml4 (u64 (base + off)) (u64 (base + off)) flags m in
      let g = of_Mapped level m 4 pml4 (u64 (base + off)) (u64 (base + off)) flags r (
        map_for_process-Mapped level m pml4 (u64 (base + off)) (u64 (base + off)) flags sound at few
          p) in
      if_elim (Grows level m) r.1
        (Grows-trans level m r.0 g
          (λ m'. Grows level m (map_identity rounds pml4 base (off + 4096) flags m'))
          (λ level' sound' keeps. weaken level level' m r.0 _ keeps (
            map_identity-Grows rounds base (off + 4096) level' r.0 sound'
              (keeps pml4 (omega arith) ∙ at))))
        g

pub map_regions-Grows :
    (pml4 : ℕ) (rs : List Region) (level : Levels) (m : Machine)
    → IsLevelled level m
    → level pml4 ≡ 4
    → Grows level m (map_regions pml4 rs m)
unfolding map_regions
map_regions-Grows pml4 [] level m sound at = grows level sound (λ u pos. refl)
map_regions-Grows pml4 (r ∷ rs) level m sound at =
    let m' = map_identity (rounds_of r.len) pml4 r.base 0 3 m in
    Grows-trans level m m'
      (map_identity-Grows pml4 3 (omega arith) refl (rounds_of r.len) r.base 0 level m sound at)
      (λ m2. Grows level m (map_regions pml4 rs m2))
      (λ level' sound' keeps.
        weaken level level' m m' _ keeps
          (map_regions-Grows pml4 rs level' m' sound' (keeps pml4 (omega arith) ∙ at)))
