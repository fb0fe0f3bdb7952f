-- ===== src/Memory/Heap.antt =====
-- The heap of kernel/core/memory.c. A block is its header and the bytes behind it; `live` holds the
-- headers of the blocks that are given out, which the code keeps in memory only. Regions lie in the
-- address space, so that addresses do not wrap; a size that is asked for may.
pub mod Disjoint
pub mod Insert
pub mod Sound
pub mod Run
pub mod Aligned
use Prim.Native.Nat.{bit_and}
use utms.Base.{
  ◌%◌, ℕ, ◌+◌, ◌-◌, ◌*◌, ◌/◌, Bool, true, false, not, ◌||◌, List, [], ◌∷◌, Option, none, some,
  if◌then◌else◌, ◌==◌, ltb, leb, u64, sub64,
}

-- `block_header_t`: where it lies and how many bytes follow it. Its flag is the list it stands in.
pub record Block : Type 0 where
  pub addr : ℕ
  pub size : ℕ

-- `sizeof(block_header_t)`
abbrev pub header_size : ℕ
header_size = 24

-- `free_list`, the blocks given out, `initialized`, `total_memory`, `used_memory`.
pub record Heap : Type 0 where
  pub free_list : List Block
  pub live : List Block
  pub initialized : Bool
  pub total_memory : ℕ
  pub used_memory : ℕ

-- `ALIGN_UP(x, 8)`
unfoldable pub align_up : ℕ → ℕ
align_up x = u64 (x + 7) / 8 * 8

-- The first address behind a block.
abbrev pub end_of : Block → ℕ
end_of b = b.addr + header_size + b.size

unfoldable pub add_free_block : ℕ → ℕ → List Block → List Block
unfolding align_up
add_free_block base size blocks =
    let lost = align_up base - base in
    if ltb size (header_size + 16) || ltb (size - lost) (header_size + 16)
    then blocks
    else record { addr = align_up base; size = size - lost - header_size } ∷ blocks

abbrev pub merge : Block → Block → Block
merge b c = record b { size = b.size + (header_size + c.size) }

-- The loop of `memory_init` and `memory_add_region` from the block `b` on.
unfoldable pub coalesce_from : Block → List Block → List Block
coalesce_from b [] = b ∷ []
coalesce_from b (c ∷ rest) =
    let merged = coalesce_from (merge b c) rest in
    let kept = coalesce_from c rest in if end_of b == c.addr then merged else b ∷ kept

unfoldable pub coalesce : List Block → List Block
coalesce [] = []
coalesce (b ∷ rest) = coalesce_from b rest

unfoldable pub memory_init : ℕ → ℕ → Heap → Heap
memory_init start size h = if h.initialized then h else record {
  free_list = coalesce (if ltb 0 size then add_free_block start size [] else []);
  live = h.live;
  initialized = true;
  total_memory = if ltb 0 size then size else 0;
  used_memory = 0;
}

unfoldable pub memory_add_region : ℕ → ℕ → Heap → Heap
memory_add_region base size h = if not h.initialized || size == 0 then h else record h {
  free_list = coalesce (add_free_block base size h.free_list);
  total_memory = u64 (h.total_memory + size);
}

-- The block that is given out of `b`, and what of `b` stays free in front of `rest`.
unfoldable pub carve : ℕ → Block → List Block → Block × List Block
carve size b rest =
    if leb (header_size + 16) (b.size - size)
    then (
      record b { size = size },
      record { addr = b.addr + header_size + size; size = b.size - size - header_size } ∷ rest,
    )
    else (b, rest)

abbrev pub push : Block → Option (Block × List Block) → Option (Block × List Block)
push b none = none
push b (some (c, rest)) = some (c, b ∷ rest)

-- The first block that is large enough is taken out of the list.
unfoldable pub take_fit : ℕ → List Block → Option (Block × List Block)
unfolding carve
take_fit size [] = none
take_fit size (b ∷ rest) =
    let later = take_fit size rest in
    if leb size b.size then some (carve size b rest) else push b later

-- A block of the size is given out, or nothing is.
unfoldable pub allocate : ℕ → Heap → Heap × Option ℕ
allocate size h = elim (take_fit size h.free_list) [
  | none ↦ (h, none)
  | some (b, rest) ↦ (
    record h {
      free_list = rest;
      live = b ∷ h.live;
      used_memory = u64 (h.used_memory + (b.size + header_size));
    },
    some (b.addr + header_size),
  )
]

-- `kmalloc`; NULL is `none`.
unfoldable pub kmalloc : ℕ → Heap → Heap × Option ℕ
unfolding align_up
kmalloc size h = if not h.initialized || size == 0 then (h, none) else allocate (align_up size) h

-- The header of the block at an address, and the other blocks.
unfoldable pub take_live : ℕ → List Block → Option (Block × List Block)
take_live addr [] = none
take_live addr (b ∷ rest) =
    let later = take_live addr rest in if b.addr == addr then some (b, rest) else push b later

-- A block and the list behind it, merged where they touch.
unfoldable pub join : Block → List Block → List Block
join b [] = b ∷ []
join b (c ∷ rest) = if end_of b == c.addr then merge b c ∷ rest else b ∷ c ∷ rest

abbrev pub starts_below : ℕ → List Block → Bool
starts_below addr [] = false
starts_below addr (b ∷ rest) = ltb b.addr addr

-- The block goes in front of the first block at no lower address, and is merged with the one
-- behind it, then with the one before it.
unfoldable pub insert : Block → List Block → List Block
unfolding join
insert b [] = b ∷ []
insert b (c ∷ rest) =
    let later = insert b rest in
    if ltb c.addr b.addr
    then (if starts_below b.addr rest then c ∷ later else join c (join b rest))
    else join b (c ∷ rest)

abbrev pub starts_at : ℕ → List Block → Bool
starts_at addr [] = false
starts_at addr (b ∷ rest) = (b.addr == addr) || starts_at addr rest

-- `kfree` of a pointer that is not NULL: nothing happens to a block in the free list. On a pointer
-- to no block, the code reads a header that is not one: `none`.
unfoldable pub kfree : ℕ → Heap → Option Heap
kfree ptr h = if not h.initialized then some h else elim (take_live (ptr - header_size) h.live) [
  | none ↦ if starts_at (ptr - header_size) h.free_list then some h else none
  | some (b, rest) ↦ some (record h {
    free_list = insert b h.free_list;
    live = rest;
    used_memory = sub64 h.used_memory (b.size + header_size);
  })
]

unfoldable pub memory_free : Heap → ℕ
memory_free h = sub64 h.total_memory h.used_memory

-- `kmalloc_aligned`: the address that is given out, in the block at `ptr`. The mask is a `u32`.
unfoldable pub align_in : ℕ → ℕ → ℕ
align_in alignment ptr = bit_and (u64 (ptr + alignment + 8)) (4294967296 - alignment)

unfoldable pub aligned_total : ℕ → ℕ → ℕ
aligned_total size alignment = u64 (size + alignment + 8)

unfoldable pub kmalloc_aligned : ℕ → ℕ → Heap → Heap × Option ℕ
kmalloc_aligned size alignment h =
    let a = if ltb alignment 8 then 8 else alignment in
    let (h', ptr) = kmalloc (aligned_total size a) h in
    (h', elim ptr [ none ↦ none | some p ↦ some (align_in a p) ])
