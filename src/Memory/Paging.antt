-- ===== src/Memory/Paging.antt =====
-- The page tables of a process, arch/x86_64/paging.c. A table is named by its physical address, and
-- holds a word for each index; the contents of other pages are not modelled. The code's `invlpg`
-- and the address in CR3 belong to the processor.
pub mod Levels
pub mod Grow
pub mod Ensure
pub mod Map
pub mod Write
pub mod Unmap
pub mod Process
use Prim.Native.Nat.{bit_or}
use utms.Base.{
  ℕ, ◌*◌, ◌/◌, ◌%◌, ◌+◌, Bool, true, false, not, ◌&&◌, ◌||◌, Option, none, some, if◌then◌else◌,
  ◌==◌, ltb, has_bit,
}
use utms.Memory.Pages.{Pages, alloc_page}

abbrev pub present : ℕ
present = 1

abbrev pub writable : ℕ
writable = 2

abbrev pub user : ℕ
user = 4

abbrev pub huge : ℕ
huge = 128

-- The pages, and the entries of the tables.
pub record Machine : Type 0 where
  pub pages : Pages
  pub table : ℕ → ℕ → ℕ

-- `e & ~0xFFF`: the table, or page, that an entry names.
abbrev pub base_of : ℕ → ℕ
base_of e = e / 4096 * 4096

-- `virt >> 12 & 0x1FF` and so on: the index in the table of a level, from 0.
abbrev pub pt_index : ℕ → ℕ
pt_index virt = virt / 4096 % 512

abbrev pub pd_index : ℕ → ℕ
pd_index virt = virt / 2097152 % 512

abbrev pub pdpt_index : ℕ → ℕ
pdpt_index virt = virt / 1073741824 % 512

abbrev pub pml4_index : ℕ → ℕ
pml4_index virt = virt / 549755813888 % 512

-- A store into a table.
unfoldable pub set_entry : ℕ → ℕ → ℕ → Machine → Machine
set_entry t i e m = record m { table = λ u j. if (u == t) && (j == i) then e else m.table u j }

-- Every entry of a table is written.
unfoldable pub fill : ℕ → (ℕ → ℕ) → Machine → Machine
fill t entries m = record m { table = λ u j. if u == t then entries j else m.table u j }

-- A page is taken for a new table, and entry `i` of the table `t` names it.
unfoldable pub grow : ℕ → ℕ → (ℕ → ℕ) → ℕ → Machine → Machine × Bool
unfolding set_entry fill
grow t i entries flags m =
    let (pages, page) = alloc_page m.pages in
    elim page [
      | none ↦ (record m { pages = pages }, false)
      | some a ↦
          (set_entry t i (bit_or a flags) (fill a entries (record m { pages = pages })), true)
    ]

-- The step of paging_map_for_process that makes a table where none is.
unfoldable pub ensure : ℕ → ℕ → Machine → Machine × Bool
ensure t i m =
    if has_bit present (m.table t i)
    then (m, true)
    else grow t i (λ j. 0) (present + writable + user) m

-- Entry `j` of the table that takes the place of a huge page.
abbrev pub piece : ℕ → ℕ → ℕ
piece e j = bit_or (e / 2097152 * 2097152 + j * 4096) (e % 4096)

-- A huge page becomes a table of 512 pages.
unfoldable pub split : ℕ → ℕ → Machine → Machine × Bool
split pd i m =
    let e = m.table pd i in
    if has_bit present e && has_bit huge e
    then grow pd i (piece e) (present + writable + (if has_bit user e then user else 0)) m
    else (m, true)

unfoldable pub map_huge : ℕ → ℕ → ℕ → ℕ → Machine → Machine × Bool
map_huge pd phys virt flags m =
    let e = m.table pd (pd_index virt) in
    if has_bit present e && not (has_bit huge e)
    then (m, false)
    else (set_entry pd (pd_index virt) (bit_or (phys / 2097152 * 2097152) flags) m, true)

abbrev pub on_success : Machine × Bool → (Machine → Machine × Bool) → Machine × Bool
on_success (m, false) f = (m, false)
on_success (m, true) f = f m

unfoldable pub map_page : ℕ → ℕ → ℕ → ℕ → Machine → Machine × Bool
map_page pt phys virt flags m =
    (set_entry pt (pt_index virt) (bit_or (phys / 4096 * 4096) flags) m, true)

-- From the page directory on.
unfoldable pub map_in_pd : ℕ → ℕ → ℕ → ℕ → Machine → Machine × Bool
map_in_pd pd phys virt flags m =
    if has_bit huge flags
    then map_huge pd phys virt flags m
    else on_success (on_success (split pd (pd_index virt) m) (ensure pd (pd_index virt)))
        (λ m'. map_page (base_of (m'.table pd (pd_index virt))) phys virt flags m')

unfoldable pub map_in_pdpt : ℕ → ℕ → ℕ → ℕ → Machine → Machine × Bool
map_in_pdpt pdpt phys virt flags m =
    on_success (ensure pdpt (pdpt_index virt) m)
      (λ m'. map_in_pd (base_of (m'.table pdpt (pdpt_index virt))) phys virt flags m')

-- `paging_map_for_process`; `false` is -1.
unfoldable pub map_for_process : ℕ → ℕ → ℕ → ℕ → Machine → Machine × Bool
map_for_process pml4 phys virt flags m =
    on_success (ensure pml4 (pml4_index virt) m)
      (λ m'. map_in_pdpt (base_of (m'.table pml4 (pml4_index virt))) phys virt flags m')

-- `paging_unmap_for_process`: the entry that maps the address is cleared.
unfoldable pub unmap_in_pd : ℕ → ℕ → Machine → Machine × Bool
unmap_in_pd pd virt m =
    let e = m.table pd (pd_index virt) in
    if not (has_bit present e)
    then (m, false)
    else if has_bit huge e
    then (set_entry pd (pd_index virt) 0 m, true)
    else (set_entry (base_of e) (pt_index virt) 0 m, true)

unfoldable pub unmap_for_process : ℕ → ℕ → Machine → Machine × Bool
unmap_for_process pml4 virt m =
    let e4 = m.table pml4 (pml4_index virt) in
    let e3 = m.table (base_of e4) (pdpt_index virt) in
    if not (has_bit present e4) || not (has_bit present e3)
    then (m, false)
    else unmap_in_pd (base_of e3) virt m
