-- ===== src/Memory/Heap/Run.antt =====
-- Any sequence of allocations and releases.
use utms.Base.{
  ◌∙◌, sym, if_cases, ltb, if◌then◌else◌, ℕ, ◌+◌, ◌-◌, ◌<◌, ◌≤◌, ◌≡◌, refl, arith, true, false,
  ◌||◌, List, [], ◌∷◌, Option, none, some, if_elim,
}
use utms.Memory.Heap.{
  Block, Heap, header_size, kmalloc, kfree, align_up, memory_init, add_free_block, coalesce,
  coalesce_from,
}
use utms.Memory.Heap.Disjoint.{span}
use utms.Memory.Heap.Sound.{IsSound, FreeSound, freed, kmalloc-IsSound, kfree-FreeSound}

-- A call of the heap: a request of so many bytes, or the return of a pointer.
pub data Event : Type 0 where
  alloc : ℕ → Event
  release : ℕ → Event

-- The heap after a return; a pointer to no block is not returned.
pub or_same : Heap → Option Heap → Heap
or_same h none = h
or_same h (some h') = h'

pub step : Event → Heap → Heap
step (alloc size) h = (kmalloc size h).0
step (release ptr) h = or_same h (kfree ptr h)

pub run : List Event → Heap → Heap
run [] h = h
run (e ∷ es) h = run es (step e h)

or_same-IsSound :
    (n : ℕ) (h : Heap) (r : Option Heap) → IsSound n h → FreeSound n r → IsSound n (or_same h r)
unfolding or_same
or_same-IsSound n h none s f = s
or_same-IsSound n h (some h') s (freed k) = k

step-IsSound :
    (n : ℕ) → n < 18446744073709551616 → (e : Event) (h : Heap) → IsSound n h → IsSound n (step e h)
unfolding step
step-IsSound n small (alloc size) h s = (kmalloc-IsSound n small h s size).sound
step-IsSound n small (release ptr) h s =
    or_same-IsSound n h (kfree ptr h) s (kfree-FreeSound n small h s ptr)

run-IsSound :
    (n : ℕ)
    → n < 18446744073709551616
    → (es : List Event) (h : Heap) → IsSound n h
    → IsSound n (run es h)
unfolding run
run-IsSound n small [] h s = s
run-IsSound n small (e ∷ es) h s = run-IsSound n small es (step e h) (step-IsSound n small e h s)

-- At most one block, of at most `size` bytes with its header.
data OneBlock (size : ℕ) : List Block → Type 0 where
  empty : OneBlock size []
  one : (b : Block) → header_size + b.size ≤ size → OneBlock size (b ∷ [])

add_free_block-OneBlock : (base size : ℕ) → OneBlock size (add_free_block base size [])
unfolding add_free_block
add_free_block-OneBlock base size =
    if_cases (OneBlock size)
      (ltb size (header_size + 16) || ltb (size - (align_up base - base)) (header_size + 16))
      (λ t. empty) (λ t. one _ (ground arith))

coalesce-OneBlock : (size : ℕ) (bs : List Block) → OneBlock size bs → coalesce bs ≡ bs
unfolding coalesce coalesce_from
coalesce-OneBlock size [] h = refl
coalesce-OneBlock size (b ∷ bs) (one c h) = refl

-- A heap of one block at most, where none is given out.
pub record IsFresh (size : ℕ) (h : Heap) : Type 0 where
  pub sound : IsSound (span h.free_list) h
  pub small : span h.free_list ≤ size

start-IsFresh :
    (size : ℕ) (bs : List Block) (live : List Block) (total : ℕ)
    → live ≡ []
    → OneBlock size bs
    → IsFresh size (record {
      free_list = bs;
      live = live;
      initialized = true;
      total_memory = total;
      used_memory = 0;
    })
start-IsFresh size [] live total e empty = rw e (record {
  sound = record { free_apart = tt; live_apart = tt; apart = tt; used = refl; total = omega arith };
  small = omega arith;
})
start-IsFresh size (b ∷ bs) live total e (one c le) = rw e (record {
  sound = record {
    free_apart = (tt, tt);
    live_apart = tt;
    apart = tt;
    used = refl;
    total = omega arith;
  };
  small = omega arith;
})

init-IsFresh :
    (start size : ℕ) (h : Heap)
    → h.initialized ≡ false
    → h.live ≡ []
    → IsFresh size (memory_init start size h)
unfolding memory_init
init-IsFresh start size h off none_live =
    let bs = if ltb 0 size then add_free_block start size [] else [] in
    let blocks : OneBlock size bs =
      if_elim (OneBlock size) (ltb 0 size) (add_free_block-OneBlock start size) empty in
    if_cases (IsFresh size) h.initialized (λ t. absurd (clash (sym t ∙ off)))
      (λ t.
        start-IsFresh size (coalesce bs) h.live (if ltb 0 size then size else 0) none_live
          (rw (coalesce-OneBlock size bs blocks) blocks))
  where
    clash : true ≡ false → ⊥
    clash e = cc

-- From `memory_init` on a region of fewer than 2^64 bytes, with no block given out before: whatever
-- is asked for and returned in whatever order, no two blocks share a byte, free or given out,
-- `used_memory` is the sum of what is given out with its headers, and no byte of the blocks and
-- headers is lost.
pub run-IsSound_init :
    (start size : ℕ) (h : Heap) (es : List Event)
    → h.initialized ≡ false
    → h.live ≡ []
    → size < 18446744073709551616
    → IsSound (span (memory_init start size h).free_list) (run es (memory_init start size h))
run-IsSound_init start size h es off none_live lt =
    let f = init-IsFresh start size h off none_live in
    run-IsSound (span (memory_init start size h).free_list) (omega (arith, lt, f.small)) es
      (memory_init start size h) f.sound
