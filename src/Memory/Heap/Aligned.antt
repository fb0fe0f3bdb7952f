-- ===== src/Memory/Heap/Aligned.antt =====
-- Sizes and addresses at the edges: requests near 2^64, `kmalloc_aligned`, and a block's return.
use Prim.Native.Nat.{suc, bit_and}
use utms.Base.Bits.{bit_and-mask, pow-add}
use utms.Base.{
  zero, suc, ◌^◌, Bool, elim_some, ==_iff, ℕ, ◌+◌, ◌-◌, ◌*◌, ◌/◌, ◌%◌, ◌<◌, ◌≤◌, ◌≡◌, refl, arith,
  true, false, not, ◌||◌, ◌==◌, List, ◌∷◌, Option, none, some, if_cases, if_elim, u64, ◌∙◌, ap,
}
use native.Mathlib.Nat.{div-mul-le_self, lt-div-mul-add, mul-mod_left}
use utms.Memory.Heap.{
  Block, Heap, header_size, allocate, kmalloc, kfree, align_up, align_in, take_fit, take_live,
}

-- What `kfree` makes of the heap `h` with one more block.
pub data Returned (h : Heap) : Option Heap → Type 0 where
  returned : {h' : Heap} → h'.live ≡ h.live → h'.used_memory ≡ h.used_memory → Returned h (some h')

take_live-head :
    (addr : ℕ) (b : Block) (rest : List Block)
    → b.addr ≡ addr
    → take_live addr (b ∷ rest) ≡ some (b, rest)
unfolding take_live
take_live-head addr b rest e = ground (arith, (==_iff b.addr addr).1 e)

clash : (b : Bool) → b ≡ true → not b ≡ true → ⊥
clash true e f = cc
clash false e f = cc

-- What `allocate` makes of the block that was found.
given : Heap → Option (Block × List Block) → Heap × Option ℕ
given h none = (h, none)
given h (some (b, rest)) = (
  record h {
    free_list = rest;
    live = b ∷ h.live;
    used_memory = u64 (h.used_memory + (b.size + header_size));
  },
  some (b.addr + header_size),
)

-- The return of the latest block.
kfree-latest :
    (h : Heap) (b : Block) (rest : List Block) (ptr : ℕ)
    → h.initialized ≡ true
    → h.used_memory < 18446744073709551616
    → some (b.addr + header_size) ≡ some ptr
    → Returned h (
        kfree ptr (record h {
          free_list = rest;
          live = b ∷ h.live;
          used_memory = u64 (h.used_memory + (b.size + header_size));
        }))
unfolding kfree
kfree-latest h b rest ptr on lt e =
    let addr : b.addr ≡ ptr - header_size = ground arith in
    if_cases (Returned h) (not h.initialized) (λ t. absurd (clash h.initialized on t))
      (λ t.
        elim_some (Returned h) (take_live (ptr - header_size) (b ∷ h.live)) _ _
          (take_live-head (ptr - header_size) b h.live addr) (returned refl (omega arith)))

give_back :
    (h : Heap) (ptr : ℕ) (r : Option (Block × List Block))
    → h.initialized ≡ true
    → h.used_memory < 18446744073709551616
    → (given h r).1 ≡ some ptr
    → Returned h (kfree ptr (given h r).0)
unfolding given
give_back h ptr none on lt e = cc
give_back h ptr (some (b, rest)) on lt e = kfree-latest h b rest ptr on lt e

-- What `kmalloc` gave, `kfree` takes back at once: it finds the block, and the blocks given out and
-- the counter are as before.
pub kfree-kmalloc :
    (size ptr : ℕ) (h : Heap)
    → h.initialized ≡ true
    → h.used_memory < 18446744073709551616
    → (kmalloc size h).1 ≡ some ptr
    → Returned h (kfree ptr (kmalloc size h).0)
unfolding kmalloc allocate given
kfree-kmalloc size ptr h on lt =
    if_elim (λ (r : Heap × Option ℕ). r.1 ≡ some ptr → Returned h (kfree ptr r.0))
      (not h.initialized || size == 0) (λ e. cc)
      (give_back h ptr (take_fit (align_up size) h.free_list) on lt)

minus_one : (m p : ℕ) → (m - 1) * p ≡ m * p - p
minus_one zero p = omega arith
minus_one (suc m) p = omega (arith, ap (λ n. n * p) {x = suc m - 1} {y = m} (omega arith))

mask : (k : ℕ) → k < 32 → 4294967296 - 2 ^ k ≡ (2 ^ (32 - k) - 1) * 2 ^ k
mask k lt =
    let whole : 2 ^ 32 ≡ 2 ^ (32 - k) * 2 ^ k =
      ap (λ n. 2 ^ n) {x = 32} {y = 32 - k + k} (omega arith) ∙ pow-add (32 - k) k in
    omega (arith, whole, minus_one (2 ^ (32 - k)) (2 ^ k))

-- For an alignment that is a power of two, 8 at least, and a block of `size + alignment + 8` bytes
-- that ends below 4 GB, the address of `kmalloc_aligned` is a multiple of the alignment, with 8
-- bytes in front of it for the pointer and `size` bytes behind it in the block.
pub align_in-bounds :
    (size k ptr : ℕ)
    → 8 ≤ 2 ^ k
    → k < 32
    → ptr + (size + 2 ^ k + 8) < 4294967296
    → (align_in (2 ^ k) ptr % 2 ^ k ≡ 0)
      × (ptr + 8 ≤ align_in (2 ^ k) ptr)
      × (align_in (2 ^ k) ptr + size ≤ ptr + (size + 2 ^ k + 8))
unfolding align_in
align_in-bounds size k ptr le lt end =
    let low : u64 (ptr + 2 ^ k + 8) ≡ ptr + 2 ^ k + 8 = omega arith in
    let whole : 2 ^ 32 ≡ 2 ^ (32 - k) * 2 ^ k =
      ap (λ n. 2 ^ n) {x = 32} {y = 32 - k + k} (omega arith) ∙ pow-add (32 - k) k in
    let value : bit_and (u64 (ptr + 2 ^ k + 8)) (4294967296 - 2 ^ k)
        ≡ (ptr + 2 ^ k + 8) / 2 ^ k * 2 ^ k =
      rw (low, mask k lt) (bit_and-mask k (32 - k) (ptr + 2 ^ k + 8) (omega (arith, whole))) in
    let down = div-mul-le_self (ptr + 2 ^ k + 8) (2 ^ k) in
    let up = lt-div-mul-add {a = ptr + 2 ^ k + 8} {b = 2 ^ k} (omega arith) in
    rw value
      (mul-mod_left ((ptr + 2 ^ k + 8) / 2 ^ k) (2 ^ k), omega (arith, up), omega (arith, down))
