-- ===== src/Memory/Tests.antt =====
-- The theorems about the memory manager at concrete inputs.
use utms.Base.{◌&&◌, if_cases}
use utms.Memory.Paging.{base_of}
use utms.Memory.Paging.Levels.{IsLink}
use utms.Memory.Space.{create_address_space}
use utms.Memory.Space.Create.{Created, create_address_space-Created}
use utms.Base.{
  ℕ, zero, suc, ◌<◌, if◌then◌else◌, ◌==◌, refl, ◌≤◌, ◌+◌, false, some, ◌%◌, List, [], arith, true,
  ◌^◌, ◌∷◌, ◌≡◌,
}
use utms.Memory.Paging.{Machine, map_for_process, unmap_for_process}
use utms.Memory.Paging.Levels.{Levels, IsLevelled}
use utms.Memory.Paging.Map.{Mapped}
use utms.Memory.Paging.Unmap.{Unmapped, unmap_for_process-Unmapped}
use utms.Memory.Paging.Process.{map_for_process-Mapped}
use utms.Memory.Pages.{address, Pages, alloc_page}
use utms.Memory.Pages.Fresh.{is_taken, Allocated, alloc_page-Allocated}
use utms.Memory.Heap.{
  Block, Heap, kmalloc, allocate, take_fit, carve, align_up, kfree, memory_init, align_in,
}
use utms.Memory.Heap.Run.{Event, alloc, release, run, run-IsSound_init}
use utms.Memory.Heap.Sound.{IsSound}
use utms.Memory.Heap.Disjoint.{span}
use utms.Memory.Heap.Aligned.{Returned, kfree-kmalloc, align_in-bounds}

abbrev before : Heap
before = record {
  free_list = [];
  live = [];
  initialized = false;
  total_memory = 0;
  used_memory = 0;
}

abbrev block : Block
block = record { addr = 4096; size = 1000 }

abbrev heap : Heap
heap = record {
  free_list = block ∷ [];
  live = [];
  initialized = true;
  total_memory = 1024;
  used_memory = 0;
}

-- Two blocks are taken, and returned in the order that merges all three pieces.
abbrev events : List Event
events = alloc 16 ∷ alloc 40 ∷ release 4120 ∷ release 4160 ∷ []

run-IsSound_init_example :
    IsSound
      (span (memory_init 4096 1024 before).free_list)
      (run events (memory_init 4096 1024 before))
run-IsSound_init_example = run-IsSound_init 4096 1024 before events refl refl (omega arith)

first_block : (kmalloc 16 heap).1 ≡ some 4120
unfolding kmalloc allocate take_fit carve align_up
first_block = refl

kfree-kmalloc_example : Returned heap (kfree 4120 (kmalloc 16 heap).0)
kfree-kmalloc_example = kfree-kmalloc 16 4120 heap refl (omega arith) first_block

align_in-bounds_example :
    (align_in (2 ^ 6) 4120 % 2 ^ 6 ≡ 0)
    × (4120 + 8 ≤ align_in (2 ^ 6) 4120)
    × (align_in (2 ^ 6) 4120 + 100 ≤ 4120 + (100 + 2 ^ 6 + 8))
align_in-bounds_example = align_in-bounds 100 6 4120 (omega arith) (omega arith) (omega arith)

abbrev pages : Pages
pages = record {
  ready = true;
  bitmap = true ∷ false ∷ true ∷ [];
  base = 8192;
  total = 3;
  cursor = 2;
}

alloc_page-Allocated_example : Allocated pages (alloc_page pages)
alloc_page-Allocated_example =
    alloc_page-Allocated pages refl (record { bits = refl; start = omega arith })

-- A table of level 4 at 4096, two pages taken and three free.
abbrev machine : Machine
machine = record {
  pages = record {
    ready = true;
    bitmap = true ∷ true ∷ false ∷ false ∷ false ∷ [];
    base = 4096;
    total = 5;
    cursor = 2;
  };
  table = λ t i. 0;
}

abbrev levels : Levels
levels t = if t == 4096 then 4 else 0

machine-IsLevelled : IsLevelled levels machine
machine-IsLevelled = record {
  on = refl;
  pages = record { bits = refl; start = omega arith };
  aligned = refl;
  below = λ t i k at l. let p = l.here in absurd (ground arith);
  unused = unused;
}
  where
    unused :
        (idx : ℕ)
        → idx < 5
        → is_taken machine.pages idx ≡ false
        → levels (address machine.pages idx) ≡ 0
    unused zero lt free = absurd (ground arith)
    unused (suc n) lt free = ground arith

map_for_process-Mapped_example :
    Mapped levels machine 4 4096 1073741824 65536 7
      (map_for_process 4096 65536 1073741824 7 machine)
map_for_process-Mapped_example =
    map_for_process-Mapped levels machine 4096 1073741824 65536 7 machine-IsLevelled refl
      (omega arith) refl

unmap_for_process-Unmapped_example :
    Unmapped levels machine 4 4096 1073741824 (unmap_for_process 4096 1073741824 machine)
unmap_for_process-Unmapped_example =
    unmap_for_process-Unmapped levels machine 4096 1073741824 machine-IsLevelled refl

-- The kernel's tables at 4096 and 8192, and four free pages behind them.
abbrev kernel : Machine
kernel = record {
  pages = record {
    ready = true;
    bitmap = false ∷ false ∷ false ∷ false ∷ [];
    base = 12288;
    total = 4;
    cursor = 0;
  };
  table = λ t i. if (t == 4096) && (i == 0) then 8195 else 0;
}

abbrev kernel_levels : Levels
kernel_levels t = if t == 4096 then 4 else if t == 8192 then 3 else 0

kernel-IsLevelled : IsLevelled kernel_levels kernel
kernel-IsLevelled = record {
  on = refl;
  pages = record { bits = refl; start = omega arith };
  aligned = refl;
  below = below;
  unused = λ idx lt free. ground arith;
}
  where
    below :
        (t i k : ℕ)
        → kernel_levels t ≡ suc k
        → IsLink k (kernel.table t i)
        → kernel_levels (base_of (kernel.table t i)) ≡ k
    below t i k at =
        if_cases (λ e. IsLink k e → kernel_levels (base_of e) ≡ k) ((t == 4096) && (i == 0))
          (λ b h. ground arith) (λ b h. let p = h.here in absurd (ground arith))

-- A framebuffer of one page and the registers of one device.
create_address_space-Created_example : Created kernel_levels kernel (
    create_address_space
      (record { base = 3221225472; len = 4096 })
      (record { base = 3222274048; len = 4096 } ∷ [])
      kernel)
create_address_space-Created_example =
    create_address_space-Created (record { base = 3221225472; len = 4096 })
      (record { base = 3222274048; len = 4096 } ∷ []) kernel_levels kernel kernel-IsLevelled refl
      refl (omega arith)
