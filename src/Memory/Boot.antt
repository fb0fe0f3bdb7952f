-- ===== src/Memory/Boot.antt =====
-- The kernel's own mapping, arch/x86_64/paging.c: paging_init and paging_map, with the tables from
-- a pool of 64 pages.
use Prim.Native.Nat.{bit_or}
use utms.Base.{
  ℕ, ◌+◌, ◌*◌, ◌/◌, Bool, true, false, not, ◌&&◌, Option, none, some, if◌then◌else◌, leb, ltb,
  has_bit,
}
use utms.Memory.Paging.{
  Machine, present, writable, huge, base_of, pt_index, pd_index, pdpt_index, pml4_index, set_entry,
  fill,
}
use utms.Memory.Space.{kernel_pml4}

-- `next_free_table`, and the memory.
pub record Boot : Type 0 where
  pub next_free_table : ℕ
  pub memory : Machine

-- `PAGE_TABLE_POOL_ADDR`, and the end of the pool.
abbrev pub pool_start : ℕ
pool_start = 24576

abbrev pub pool_end : ℕ
pool_end = pool_start + 64 * 4096

-- `PD_ADDR`
abbrev pub kernel_pd : ℕ
kernel_pd = 12288

abbrev pub store : ℕ → ℕ → ℕ → Boot → Boot
store t i e b = record b { memory = set_entry t i e b.memory }

unfoldable pub alloc_page_table : Boot → Boot × Option ℕ
unfolding fill
alloc_page_table b = if leb pool_end b.next_free_table then (b, none) else (
  record {
    next_free_table = b.next_free_table + 4096;
    memory = fill b.next_free_table (λ j. 0) b.memory;
  },
  some b.next_free_table,
)

-- The entry of a page below 2 MB: the kernel's code, from `start` to `end`, is not writable.
abbrev pub low_entry : ℕ → ℕ → ℕ → ℕ
low_entry start end i =
    bit_or (i * 4096)
      (if leb start (i * 4096) && ltb (i * 4096) end then present else present + writable)

unfoldable pub paging_init : ℕ → ℕ → Boot → Boot × Bool
unfolding alloc_page_table fill set_entry
paging_init start end b =
    let (b1, page) = alloc_page_table b in
    if not (has_bit present (b.memory.table kernel_pml4 0)) then (b, false) else elim page [
      | none ↦ (b1, false)
      | some pt ↦ (
        store kernel_pd 0 (bit_or pt (present + writable))
            (record b1 { memory = fill pt (low_entry start end) b1.memory }),
        true,
      )
    ]

-- A table where there is none.
unfoldable pub pool_ensure : ℕ → ℕ → Boot → Boot × Bool
unfolding alloc_page_table set_entry
pool_ensure t i b =
    let (b1, page) = alloc_page_table b in
    if has_bit present (b.memory.table t i) then (b, true) else elim page [
      | none ↦ (b1, false)
      | some a ↦ (store t i (bit_or a (present + writable)) b1, true)
    ]

abbrev pub then_on : Boot × Bool → (Boot → Boot × Bool) → Boot × Bool
then_on (b, false) f = (b, false)
then_on (b, true) f = f b

abbrev pub entry_of : ℕ → ℕ → Boot → ℕ
entry_of t i b = base_of (b.memory.table t i)

unfoldable pub pool_map_in_pd : ℕ → ℕ → ℕ → ℕ → Boot → Boot × Bool
unfolding pool_ensure set_entry
pool_map_in_pd pd phys virt flags b =
    if has_bit huge flags
    then (store pd (pd_index virt) (bit_or (phys / 2097152 * 2097152) flags) b, true)
    else then_on (pool_ensure pd (pd_index virt) b) (λ b1. (
      store (entry_of pd (pd_index virt) b1) (pt_index virt) (bit_or (phys / 4096 * 4096) flags) b1,
      true,
    ))

unfoldable pub paging_map : ℕ → ℕ → ℕ → Boot → Boot × Bool
unfolding pool_ensure pool_map_in_pd
paging_map phys virt flags b = then_on (pool_ensure kernel_pml4 (pml4_index virt) b) (λ b1.
    let pdpt = entry_of kernel_pml4 (pml4_index virt) b1 in
    then_on (pool_ensure pdpt (pdpt_index virt) b1)
      (λ b2. pool_map_in_pd (entry_of pdpt (pdpt_index virt) b2) phys virt flags b2))
