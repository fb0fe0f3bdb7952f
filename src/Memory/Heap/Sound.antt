-- ===== src/Memory/Heap/Sound.antt =====
-- The invariant of the heap: `kmalloc` and `kfree` keep it.
use utms.Base.{
  sub64, if◌then◌else◌, ℕ, ◌+◌, ◌-◌, ◌<◌, ◌≡◌, arith, not, ◌||◌, ◌==◌, List, [], ◌∷◌, Option, none,
  some, u64, if_elim,
}
use utms.Memory.Heap.{
  Block, Heap, header_size, take_fit, take_live, insert, allocate, kmalloc, kfree, align_up,
  starts_at,
}
use utms.Memory.Heap.Disjoint.{
  Apart, Apart-sym, Clear, Disjoint, AllClear, span, Fits, fits, take_fit-Fits, Taken, found,
  take_live-Taken,
}
use utms.Memory.Heap.Insert.{Adds, insert-Adds}

-- No two blocks share a byte, free or given out; the counter is what is given out, and `n` is the
-- number of bytes in all.
pub record IsSound (n : ℕ) (h : Heap) : Type 0 where
  pub free_apart : Disjoint h.free_list
  pub live_apart : Disjoint h.live
  pub apart : AllClear h.live h.free_list
  pub used : h.used_memory ≡ span h.live
  pub total : span h.free_list + span h.live ≡ n

-- What holds of the live blocks against a list of free ones.
AllClear-map :
    (live free free' : List Block)
    → ((c : Block) → Clear c free → Clear c free')
    → AllClear live free
    → AllClear live free'
AllClear-map [] free free' f h = tt
AllClear-map (b ∷ bs) free free' f h = (f b h.0, AllClear-map bs free free' f h.1)

Clear-map :
    (b : Block) (live free : List Block)
    → ((c : Block) → Clear c free → Apart c b)
    → AllClear live free
    → Clear b live
Clear-map b [] free f h = tt
Clear-map b (c ∷ cs) free f h = (Apart-sym c b (f c h.0), Clear-map b cs free f h.1)

-- What a call leaves.
pub record KeepsSound (n : ℕ) (r : Heap × Option ℕ) : Type 0 where
  pub sound : IsSound n r.0

module _ (n : ℕ) (small : n < 18446744073709551616) (h : Heap) (s : IsSound n h) where
  give :
      (size : ℕ) (r : Option (Block × List Block))
      → Fits size h.free_list r
      → KeepsSound n (elim r [
        | none ↦ (h, none)
        | some (b, rest) ↦ (
          record h {
            free_list = rest;
            live = b ∷ h.live;
            used_memory = u64 (h.used_memory + (b.size + header_size));
          },
          some (b.addr + header_size),
        )
      ])
  give size none k = record { sound = s }
  give size (some (b, rest)) (fits le k) = record {
    sound = record {
      free_apart = k.rest_disjoint;
      live_apart = (Clear-map b h.live h.free_list (λ c x. (k.inside c x).0) s.apart, s.live_apart);
      apart = (k.clear, AllClear-map h.live h.free_list rest (λ c x. (k.inside c x).1) s.apart);
      used = omega (arith, s.used, s.total, k.spans, small);
      total = omega (arith, s.total, k.spans);
    };
  }

  pub kmalloc-IsSound : (size : ℕ) → KeepsSound n (kmalloc size h)
  unfolding kmalloc allocate
  kmalloc-IsSound size =
      if_elim (KeepsSound n) (not h.initialized || size == 0) (record { sound = s })
        (give (align_up size) (take_fit (align_up size) h.free_list)
          (take_fit-Fits (align_up size) h.free_list s.free_apart))

-- What `kfree` leaves, where its pointer is to a block.
pub data FreeSound (n : ℕ) : Option Heap → Type 0 where
  wild : FreeSound n none
  freed : {h : Heap} → IsSound n h → FreeSound n (some h)

AllClear-heads :
    (c : Block) (bs cs : List Block) → AllClear bs (c ∷ cs) → Clear c bs × AllClear bs cs
AllClear-heads c [] cs h = (tt, tt)
AllClear-heads c (b ∷ bs) cs h =
    let r = AllClear-heads c bs cs h.1 in ((Apart-sym b c h.0.0, r.0), (h.0.1, r.1))

AllClear-sym : (bs cs : List Block) → AllClear bs cs → AllClear cs bs
AllClear-sym bs [] h = tt
AllClear-sym bs (c ∷ cs) h = let r = AllClear-heads c bs cs h in (r.0, AllClear-sym bs cs r.1)

AllClear-Adds :
    (b : Block) (live free free' : List Block)
    → Adds b free free'
    → Clear b live
    → AllClear live free
    → AllClear live free'
AllClear-Adds b [] free free' a cl h = tt
AllClear-Adds b (c ∷ cs) free free' a cl h =
    (a.covers c (Apart-sym b c cl.0) h.0, AllClear-Adds b cs free free' a cl.1 h.1)

module _ (n : ℕ) (small : n < 18446744073709551616) (h : Heap) (s : IsSound n h) where
  release_live :
      (addr : ℕ) (r : Option (Block × List Block))
      → Taken addr h.live r
      → FreeSound n (elim r [
        | none ↦ if starts_at addr h.free_list then some h else none
        | some (b, rest) ↦ some (record h {
          free_list = insert b h.free_list;
          live = rest;
          used_memory = sub64 h.used_memory (b.size + header_size);
        })
      ])
  release_live addr none k = if_elim (FreeSound n) (starts_at addr h.free_list) (freed s) wild
  release_live addr (some (b, rest)) (found e k) =
      let free_live = AllClear-sym h.live h.free_list s.apart in
      let clear_b : Clear b h.free_list =
        Clear-map b h.free_list h.live (λ c x. (k.inside c x).0) free_live in
      let free_rest : AllClear h.free_list rest =
        AllClear-map h.free_list h.live rest (λ c x. (k.inside c x).1) free_live in
      let a = insert-Adds b h.free_list clear_b s.free_apart in
      freed (record {
        free_apart = a.disjoint;
        live_apart = k.rest_disjoint;
        apart =
            AllClear-Adds b rest h.free_list (insert b h.free_list) a k.clear
              (AllClear-sym h.free_list rest free_rest);
        used = omega (arith, s.used, s.total, k.spans, small);
        total = omega (arith, s.total, k.spans, a.spans);
      })

  pub kfree-FreeSound : (ptr : ℕ) → FreeSound n (kfree ptr h)
  unfolding kfree
  kfree-FreeSound ptr = if_elim (FreeSound n) (not h.initialized) (freed s) (
      release_live (ptr - header_size) (take_live (ptr - header_size) h.live)
        (take_live-Taken (ptr - header_size) h.live s.live_apart))
