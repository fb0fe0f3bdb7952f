-- ===== src/Memory/Pages.antt =====
-- The allocator of pages of kernel/core/memory.c. `bitmap` holds one truth value for each of the
-- pages, the bit `i % 8` of byte `i / 8`; the bits behind the last page are never read. The pages
-- handed out are cleared, which is left to the memory.
pub mod Fresh
use utms.Base.{
  ℕ, zero, suc, ◌+◌, ◌-◌, ◌*◌, ◌/◌, ◌%◌, Bool, true, false, not, ◌||◌, List, [], Option, none, some,
  if◌then◌else◌, ◌==◌, ltb, leb, u64, get_or, set, replicate,
}

-- `pmm_bitmap` (whether it is set, and its bits), `pmm_base`, `pmm_total`, `pmm_cursor`.
pub record Pages : Type 0 where
  pub ready : Bool
  pub bitmap : List Bool
  pub base : ℕ
  pub total : ℕ
  pub cursor : ℕ

abbrev pub page_size : ℕ
page_size = 4096

-- `pmm_init_region`: the first pages hold the bitmap.
unfoldable pub init_region : ℕ → ℕ → Pages → Pages
init_region base size p =
    let b = u64 (base + (page_size - 1)) / page_size * page_size in
    let e = u64 (base + size) / page_size * page_size in
    let pages = (e - b) / page_size in
    let bitmap_pages = ((pages + 7) / 8 + (page_size - 1)) / page_size in
    if p.ready || (leb e b || leb pages (bitmap_pages + 1)) then p else record {
      ready = true;
      bitmap = replicate (pages - bitmap_pages) false;
      base = b + bitmap_pages * page_size;
      total = pages - bitmap_pages;
      cursor = 0;
    }

-- The index that round `i` of the search looks at.
abbrev pub probe : Pages → ℕ → ℕ
probe p i = (p.cursor + i) % p.total

-- The first index from round `i` on whose bit is clear; `left` rounds are left.
unfoldable pub find_clear : Pages → ℕ → ℕ → Option ℕ
find_clear p zero i = none
find_clear p (suc left) i =
    let later = find_clear p left (suc i) in
    if get_or p.bitmap (probe p i) true then later else some (probe p i)

abbrev pub address : Pages → ℕ → ℕ
address p idx = p.base + idx * page_size

-- `pmm_alloc_page`
unfoldable pub alloc_page : Pages → Pages × Option ℕ
unfolding find_clear
alloc_page p =
    if p.ready
    then elim (find_clear p p.total 0) [
      | none ↦ (p, none)
      | some idx ↦ (
        record p { bitmap = set p.bitmap idx true; cursor = (idx + 1) % p.total },
        some (address p idx),
      )
    ]
    else (p, none)

-- `pmm_free_page` of a pointer that is not NULL
unfoldable pub free_page : ℕ → Pages → Pages
free_page addr p =
    let idx = (addr - p.base) / page_size in
    if not p.ready || (ltb addr p.base || leb p.total idx)
    then p
    else record p { bitmap = set p.bitmap idx false }
