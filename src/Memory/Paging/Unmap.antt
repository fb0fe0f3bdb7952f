-- ===== src/Memory/Paging/Unmap.antt =====
-- `paging_unmap_for_process`.
use utms.Base.{
  inl, inr, Bool-cases, has_bit, ℕ, suc, ◌∙◌, ◌≡◌, Bool, true, false, refl, arith, none, not,
  if_cases, ◌||◌, ap,
}
use utms.Memory.Paging.{Machine, present, huge, base_of, set_entry, unmap_in_pd, unmap_for_process}
use utms.Memory.Paging.Levels.{Levels, IsLevelled, IsLink, SameAbove, walk, index}
use utms.Memory.Paging.Write.{write-IsLevelled, write-SameAbove, write_self}
use utms.Memory.Paging.Map.{walk-link}

-- From a table of level `k` on: nothing is changed and nothing was mapped; or nothing is mapped any
-- more.
pub data Unmapped (level : Levels) (m : Machine) (k t virt : ℕ) : Machine × Bool → Type 0 where
  absent : walk k t virt m ≡ none → Unmapped level m k t virt (m, false)
  cleared :
      (m' : Machine)
      → IsLevelled level m'
      → SameAbove k level m m'
      → walk k t virt m' ≡ none
      → Unmapped level m k t virt (m', true)

walk-absent :
    (k t virt : ℕ) (m : Machine)
    → has_bit present (m.table t (index k virt)) ≡ false
    → walk (suc k) t virt m ≡ none
unfolding walk
walk-absent k t virt m h = rw h refl

no_link_0 : (k : ℕ) {A : Type 0} → IsLink k 0 → A
no_link_0 k h = let p = h.here in absurd (ground arith)

clear-Unmapped :
    (level : Levels) (m : Machine) (k t virt : ℕ)
    → IsLevelled level m
    → level t ≡ suc k
    → Unmapped level m (suc k) t virt (set_entry t (index k virt) 0 m, true)
clear-Unmapped level m k t virt sound at =
    let i = index k virt in
    cleared _ (write-IsLevelled level m k t i 0 sound at (no_link_0 k))
      (write-SameAbove level m k t i 0 sound at (no_link_0 k))
      (walk-absent k t virt _
        (rw (write_self level m k t i 0 sound at (no_link_0 k)) (ground arith)))

unmap_below :
    (level : Levels) (m : Machine) (k t virt : ℕ) (r : Machine × Bool)
    → level t ≡ suc k
    → IsLink k (m.table t (index k virt))
    → Unmapped level m k (base_of (m.table t (index k virt))) virt r
    → Unmapped level m (suc k) t virt r
unmap_below level m k t virt (m', false) at l (absent w) = absent (walk-link k t virt m l ∙ w)
unmap_below level m k t virt (m', true) at l (cleared m2 sound above w) =
    let same = above t (index k virt) (omega arith) in
    cleared m2 sound (λ u j lt. above u j (omega arith))
      (walk-link k t virt m2 (rw same l) ∙ (ap (λ e. walk k (base_of e) virt m2) same ∙ w))

unmap_in_pd-Unmapped :
    (level : Levels) (m : Machine) (t virt : ℕ)
    → IsLevelled level m
    → level t ≡ 2
    → Unmapped level m 2 t virt (unmap_in_pd t virt m)
unfolding unmap_in_pd
unmap_in_pd-Unmapped level m t virt sound at =
    let e = m.table t (index 1 virt) in
    if_cases (Unmapped level m 2 t virt) (not (has_bit present e))
      (λ b. absent (walk-absent 1 t virt m (ground arith)))
      (λ b.
        if_cases (Unmapped level m 2 t virt) (has_bit huge e)
          (λ h. clear-Unmapped level m 1 t virt sound at)
          (λ h.
            let l : IsLink 1 e = record { here = ground arith; down = h } in
            unmap_below level m 1 t virt _ at l (
              clear-Unmapped level m 0 (base_of e) virt sound
                (sound.below t (index 1 virt) 1 at l))))

-- Where tables of one level name only tables of the next: `paging_unmap_for_process` gives -1 only
-- where nothing is mapped at the address, and changes nothing then; otherwise the levels stay apart
-- and the walk of the processor finds nothing at the address any more.
pub unmap_for_process-Unmapped :
    (level : Levels) (m : Machine) (pml4 virt : ℕ)
    → IsLevelled level m
    → level pml4 ≡ 4
    → Unmapped level m 4 pml4 virt (unmap_for_process pml4 virt m)
unfolding unmap_for_process
unmap_for_process-Unmapped level m pml4 virt sound at =
    let e4 = m.table pml4 (index 3 virt) in
    let e3 = m.table (base_of e4) (index 2 virt) in
    if_cases (Unmapped level m 4 pml4 virt) (not (has_bit present e4) || not (has_bit present e3))
      (λ b. absent (elim (Bool-cases (has_bit present e4)) [
        | inl p ↦
            walk-link 3 pml4 virt m (record { here = p; down = refl })
            ∙ walk-absent 2 (base_of e4) virt m (ground arith)
        | inr n ↦ walk-absent 3 pml4 virt m n
      ]))
      (λ b.
        let l4 : IsLink 3 e4 = record { here = ground arith; down = refl } in
        let l3 : IsLink 2 e3 = record { here = ground arith; down = refl } in
        let at3 = sound.below pml4 (index 3 virt) 3 at l4 in
        let at2 = sound.below (base_of e4) (index 2 virt) 2 at3 l3 in
        unmap_below level m 3 pml4 virt _ at l4 (
          unmap_below level m 2 (base_of e4) virt _ at3 l3
            (unmap_in_pd-Unmapped level m (base_of e3) virt sound at2)))
