-- ===== src/Memory/Paging/Process.antt =====
-- `paging_map_for_process` as a whole.
use utms.Memory.Paging.{
  base_of, bit_or, Machine, present, huge, set_entry, map_huge, map_page, map_in_pd, map_in_pdpt,
  map_for_process,
}
use Prim.Native.Nat.{bit_or}
use utms.Base.{
  has_bit, ℕ, suc, ◌*◌, ◌/◌, ◌∙◌, ◌<◌, ◌≡◌, Bool, true, false, refl, arith, some, not, if_cases,
  ◌&&◌, ap,
}
use utms.Memory.Paging.Levels.{Levels, IsLevelled, IsLink, is_leaf, index}
use utms.Memory.Paging.Grow.{bit_or-aligned, present-entry, huge-entry}
use utms.Memory.Paging.Ensure.{ensure-Stepped, ensure-split-Stepped}
use utms.Memory.Paging.Write.{write-IsLevelled, write-SameAbove, write_self}
use utms.Memory.Paging.Map.{Mapped, mapping, occupied, mapped, walk-leaf, after_step}

clash : (b : Bool) → b ≡ false → b ≡ true → ⊥
clash b e f = cc

write-Mapped :
    (level : Levels) (m : Machine) (k t virt phys flags e : ℕ)
    → IsLevelled level m
    → level t ≡ suc k
    → e ≡ mapping phys flags
    → has_bit present e ≡ true
    → is_leaf k e ≡ true
    → Mapped level m (suc k) t virt phys flags (set_entry t (index k virt) e m, true)
write-Mapped level m k t virt phys flags e sound at eq p leaf =
    let no_link : IsLink k e → level (base_of e) ≡ k = λ h. absurd (clash _ h.down leaf) in
    let self = write_self level m k t (index k virt) e sound at no_link in
    mapped level _ (write-IsLevelled level m k t (index k virt) e sound at no_link) (λ u pos. refl)
      (write-SameAbove level m k t (index k virt) e sound at no_link)
      (walk-leaf k t virt _ (rw self p) (rw self leaf) ∙ ap some (self ∙ eq))

module _ (virt phys flags : ℕ) (few : flags < 4096) (p : has_bit present flags ≡ true) where
  page_value : has_bit huge flags ≡ false → bit_or (phys / 4096 * 4096) flags ≡ mapping phys flags
  page_value h = rw h (bit_or-aligned (phys / 4096 * 4096) flags (omega arith) few)

  huge_value :
      has_bit huge flags ≡ true → bit_or (phys / 2097152 * 2097152) flags ≡ mapping phys flags
  huge_value h = rw h (bit_or-aligned (phys / 2097152 * 2097152) flags (omega arith) few)

  map_page-Mapped :
      (level : Levels) (m : Machine) (t : ℕ)
      → IsLevelled level m
      → level t ≡ 1
      → has_bit huge flags ≡ false
      → Mapped level m 1 t virt phys flags (map_page t phys virt flags m)
  unfolding map_page
  map_page-Mapped level m t sound at h =
      write-Mapped level m 0 t virt phys flags _ sound at (page_value h)
        (present-entry (phys / 4096 * 4096) flags (omega arith) few ∙ p) refl

  map_huge-Mapped :
      (level : Levels) (m : Machine) (t : ℕ)
      → IsLevelled level m
      → level t ≡ 2
      → has_bit huge flags ≡ true
      → Mapped level m 2 t virt phys flags (map_huge t phys virt flags m)
  unfolding map_huge
  map_huge-Mapped level m t sound at h =
      if_cases (Mapped level m 2 t virt phys flags)
        (has_bit present (m.table t (index 1 virt))
          && not (has_bit huge (m.table t (index 1 virt))))
        (λ b.
          occupied level m t sound (λ u pos. refl) h at
            (record { here = (both _ _ b).0; down = (both _ _ b).1 }))
        (λ b.
          write-Mapped level m 1 t virt phys flags _ sound at (huge_value h)
            (present-entry (phys / 2097152 * 2097152) flags (omega arith) few ∙ p)
            (huge-entry (phys / 2097152 * 2097152) flags (omega arith) few ∙ h))
    where
      both : (a b : Bool) → (a && not b) ≡ true → (a ≡ true) × (b ≡ false)
      both a b e = (ground arith, ground arith)

  map_in_pd-Mapped :
      (level : Levels) (m : Machine) (t : ℕ)
      → IsLevelled level m
      → level t ≡ 2
      → Mapped level m 2 t virt phys flags (map_in_pd t phys virt flags m)
  unfolding map_in_pd
  map_in_pd-Mapped level m t sound at =
      if_cases (Mapped level m 2 t virt phys flags) (has_bit huge flags)
        (map_huge-Mapped level m t sound at)
        (λ h.
          after_step level m 1 t virt phys flags _ sound at
            (λ level' m' sound' at'. map_page-Mapped level' m' _ sound' at' h) _
            (ensure-split-Stepped level m t (index 1 virt) sound at))

  map_in_pdpt-Mapped :
      (level : Levels) (m : Machine) (t : ℕ)
      → IsLevelled level m
      → level t ≡ 3
      → Mapped level m 3 t virt phys flags (map_in_pdpt t phys virt flags m)
  unfolding map_in_pdpt
  map_in_pdpt-Mapped level m t sound at =
      after_step level m 2 t virt phys flags _ sound at
        (λ level' m' sound' at'. map_in_pd-Mapped level' m' _ sound' at') _
        (ensure-Stepped level m 2 t (index 2 virt) sound (omega arith) at (λ b. refl))

-- Where tables of one level name only tables of the next, and no free page is a table: with flags
-- below 4096 that hold PRESENT, `paging_map_for_process` either succeeds, and the walk of the
-- processor then finds the frame with the flags; or it gives -1, when no page is left for a table,
-- or when a huge page is asked for where a table stands. Either way the levels stay apart and
-- every table keeps its level.
pub map_for_process-Mapped :
    (level : Levels) (m : Machine) (pml4 virt phys flags : ℕ)
    → IsLevelled level m
    → level pml4 ≡ 4
    → flags < 4096
    → has_bit present flags ≡ true
    → Mapped level m 4 pml4 virt phys flags (map_for_process pml4 phys virt flags m)
unfolding map_for_process
map_for_process-Mapped level m pml4 virt phys flags sound at few p =
    after_step level m 3 pml4 virt phys flags _ sound at
      (λ level' m' sound' at'. map_in_pdpt-Mapped virt phys flags few p level' m' _ sound' at') _
      (ensure-Stepped level m 3 pml4 (index 3 virt) sound (omega arith) at (λ b. refl))
