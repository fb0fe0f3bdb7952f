-- ===== src/Memory/Space/Create.antt =====
-- What create_address_space makes.
use Prim.Native.Nat.{ℕ, bit_or}
use mathlib.Core.Path.{subst}
use utms.Base.{
  leb, has_bit, List, suc, ◌∙◌, ◌%◌, ◌<◌, ◌≡◌, ◌≢◌, ◌==◌, if◌then◌else◌, true, refl, arith, Option,
  none, some, if_cases, if_elim, ap,
}
use utms.Memory.Pages.{free_page}
use utms.Memory.Paging.{Machine, present, base_of, set_entry, fill}
use utms.Memory.Paging.Levels.{Levels, IsLevelled, IsLink, Keeps}
use utms.Memory.Paging.Grow.{base_of-entry}
use utms.Memory.Paging.Map.{Keeps-trans}
use utms.Memory.Paging.Write.{write-IsLevelled}
use utms.Memory.Space.{
  Region, kernel_pml4, new_page, give_back, map_identity, map_regions, share_kernel,
  create_address_space, rounds_of,
}
use utms.Memory.Space.Grows.{
  Added, refused, added, new_page-Added, Grows-trans, map_identity-Grows, map_regions-Grows,
}

kept : (a b : Levels) (t k : ℕ) → Keeps a b → a t ≡ suc k → b t ≡ suc k
kept a b t k keeps at = keeps t (omega (arith, at)) ∙ at

fill-IsLevelled :
    (level : Levels) (m : Machine) (k t : ℕ) (g : ℕ → ℕ)
    → IsLevelled level m
    → level t ≡ suc k
    → ((j : ℕ) → IsLink k (g j) → level (base_of (g j)) ≡ k)
    → IsLevelled level (fill t g m)
unfolding fill
fill-IsLevelled level m k t g sound at target = record {
  on = sound.on;
  pages = sound.pages;
  aligned = sound.aligned;
  below = λ u j l at'.
      if_cases (λ e. IsLink l e → level (base_of e) ≡ l) (u == t)
        (λ b.
          let same : level u ≡ level t = ap level (ground arith) in
          let eq : k ≡ l = omega arith in
          subst (λ n. IsLink n (g j) → level (base_of (g j)) ≡ n) eq (target j))
        (λ b h. sound.below u j l at' h);
  unused = sound.unused;
}

-- The kernel's table, a new table of level 4 and a new one of level 3.
module _ (level : Levels) (m : Machine) (a b : ℕ) (sound : IsLevelled level m)
    (kernel : level kernel_pml4 ≡ 4) (low : has_bit present (m.table kernel_pml4 0) ≡ true)
    (at4 : level a ≡ 4) (at3 : level b ≡ 3) (other : kernel_pml4 ≢ a) (aligned : b % 4096 ≡ 0) where
  abbrev half : Machine
  half = fill a (λ i. if leb 256 i then m.table kernel_pml4 i else m.table a i) m

  half-IsLevelled : IsLevelled level half
  half-IsLevelled = fill-IsLevelled level m 3 a _ sound at4 (λ j.
      if_elim (λ e. IsLink 3 e → level (base_of e) ≡ 3) (leb 256 j)
        (sound.below kernel_pml4 j 3 kernel) (sound.below a j 3 at4))

  abbrev linked : Machine
  linked = set_entry a 0 (bit_or b 7) half

  linked-IsLevelled : IsLevelled level linked
  linked-IsLevelled =
      write-IsLevelled level half 3 a 0 (bit_or b 7) half-IsLevelled at4
        (λ h. ap level (base_of-entry b 7 aligned (omega arith)) ∙ at3)

  kernels_entry : linked.table kernel_pml4 0 ≡ m.table kernel_pml4 0
  unfolding set_entry fill
  kernels_entry = ground arith

  share_kernel-IsLevelled : IsLevelled level (share_kernel a b m)
  unfolding share_kernel
  share_kernel-IsLevelled =
      let l : IsLink 3 (linked.table kernel_pml4 0) = record {
        here = rw kernels_entry low;
        down = refl;
      } in
      let pdpt = base_of (linked.table kernel_pml4 0) in
      write-IsLevelled level linked 2 b 0 (linked.table pdpt 0) linked-IsLevelled at3
        (linked-IsLevelled.below pdpt 0 2 (linked-IsLevelled.below kernel_pml4 0 3 kernel l))

-- No page is lost when there are too few; or there is a table of level 4 that is new.
pub data Created (level : Levels) (m : Machine) : Machine × Option ℕ → Type 0 where
  failed : (m' : Machine) → m'.pages.bitmap ≡ m.pages.bitmap → Created level m (m', none)
  created :
      (level' : Levels) (m' : Machine) (a : ℕ)
      → IsLevelled level' m'
      → Keeps level level'
      → level a ≡ 0
      → level' a ≡ 4
      → Created level m (m', some a)

module _ (fb : Region) (regions : List Region) (level : Levels) (m : Machine)
    (sound : IsLevelled level m) (kernel : level kernel_pml4 ≡ 4)
    (low : has_bit present (m.table kernel_pml4 0) ≡ true) (pos : 0 < m.pages.base) where
  with_pdpt : ℕ → Machine × Option ℕ → Machine × Option ℕ
  with_pdpt a r = elim r.1 [
    | none ↦ (give_back a r.0, none)
    | some b ↦ (
      map_regions a regions (map_identity (rounds_of fb.len) a fb.base 0 7 (share_kernel a b r.0)),
      some a,
    )
  ]

  with_pml4 : Machine × Option ℕ → Machine × Option ℕ
  with_pml4 r = elim r.1 [ none ↦ (r.0, none) | some a ↦ with_pdpt a (new_page r.0) ]

  finish :
      (level2 : Levels) (m2 : Machine) (a : ℕ)
      → IsLevelled level2 m2
      → Keeps level level2
      → level a ≡ 0
      → level2 a ≡ 4
      → Created level m
          (map_regions a regions (map_identity (rounds_of fb.len) a fb.base 0 7 m2), some a)
  finish level2 m2 a s keeps new at =
      let m3 = map_identity (rounds_of fb.len) a fb.base 0 7 m2 in
      let P : Machine → Type 0 = λ m'. Created level m (m', some a) in
      Grows-trans level2 m2 m3
        (map_identity-Grows a 7 (omega arith) refl (rounds_of fb.len) fb.base 0 level2 m2 s at)
        (λ m'. P (map_regions a regions m'))
        (λ level3 s3 keeps3.
          Grows-trans level3 m3 (map_regions a regions m3)
            (map_regions-Grows a regions level3 m3 s3 (kept level2 level3 a 3 keeps3 at)) P
            (λ level4 s4 keeps4.
              created level4 _ a s4
                (Keeps-trans level level3 level4 (Keeps-trans level level2 level3 keeps keeps3)
                  keeps4)
                new (kept level3 level4 a 3 keeps4 (kept level2 level3 a 3 keeps3 at))))

  with_pdpt-Created :
      (level1 : Levels) (m1 : Machine) (a : ℕ)
      → IsLevelled level1 m1
      → Keeps level level1
      → level a ≡ 0
      → level1 a ≡ 4
      → has_bit present (m1.table kernel_pml4 0) ≡ true
      → (free_page a m1.pages).bitmap ≡ m.pages.bitmap
      → 0 < a
      → (r : Machine × Option ℕ) → Added level1 m1 3 r
      → Created level m (with_pdpt a r)
  unfolding with_pdpt
  with_pdpt-Created level1 m1 a s keeps new at low1 back apos (m2, none) refused = failed _ (
      if_cases (λ (x : Machine). x.pages.bitmap ≡ m.pages.bitmap) (a == 0)
        (λ e. absurd (ground arith)) (λ e. back))
  with_pdpt-Created level1 m1 a s keeps new at low1 back apos (m', some b')
        (added level2 m2 b s2 keeps2 new2 at2 al same back2 bpos) =
      let at4 = kept level1 level2 a 3 keeps2 at in
      let kernel1 = kept level level1 kernel_pml4 3 keeps kernel in
      finish level2 (share_kernel a b m2) a
        (share_kernel-IsLevelled level2 m2 a b s2 (kept level1 level2 kernel_pml4 3 keeps2 kernel1)
          (ap (has_bit present) (same kernel_pml4 0 (omega (arith, kernel1))) ∙ low1) at4 at2
          (λ e. let z = ap level e in omega (arith, z, new, kernel)) al)
        (Keeps-trans level level1 level2 keeps keeps2) new at4

  with_pml4-Created : (r : Machine × Option ℕ) → Added level m 4 r → Created level m (with_pml4 r)
  unfolding with_pml4 with_pdpt
  with_pml4-Created (m', none) refused = failed m' refl
  with_pml4-Created (m', some a') (added level1 m1 a s keeps new at al same back apos) =
      with_pdpt-Created level1 m1 a s keeps new at
        (ap (has_bit present) (same kernel_pml4 0 (omega (arith, kernel))) ∙ low) back (apos pos)
        (new_page m1) (new_page-Added level1 m1 3 s)

-- Where tables of one level name only tables of the next, the kernel's table at PML4_ADDR maps its
-- first 512 gigabytes through a table, and no page to give out lies at 0: create_address_space
-- gives NULL only with the bitmap of pages as it was; otherwise it gives a table of level 4 that is
-- new, the tables of different levels stay apart, and every old table keeps its level, however many
-- of the framebuffer's and the devices' pages could be mapped.
pub create_address_space-Created :
    (fb : Region) (regions : List Region) (level : Levels) (m : Machine)
    → IsLevelled level m
    → level kernel_pml4 ≡ 4
    → has_bit present (m.table kernel_pml4 0) ≡ true
    → 0 < m.pages.base
    → Created level m (create_address_space fb regions m)
unfolding create_address_space with_pml4 with_pdpt
create_address_space-Created fb regions level m sound kernel low pos =
    with_pml4-Created fb regions level m sound kernel low pos (new_page m)
      (new_page-Added level m 4 sound)
