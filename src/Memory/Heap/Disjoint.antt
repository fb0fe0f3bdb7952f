-- ===== src/Memory/Heap/Disjoint.antt =====
-- Blocks that do not overlap, and what `kmalloc` does to them.
use utms.Base.{
  ◌-◌, ◌==◌, ==_iff, if_cases, ℕ, ◌+◌, ◌≤◌, ◌<◌, ◌≡◌, ◌⊎◌, refl, arith, List, [], ◌∷◌, Option, none,
  some, All, leb, inl, leb→le,
}
use utms.Memory.Heap.{Block, header_size, end_of, carve, take_fit, push, take_live}

-- Two blocks that share no byte.
pub record Apart (b c : Block) : Type 0 where
  pub order : (end_of b ≤ c.addr) ⊎ (end_of c ≤ b.addr)

-- A block that shares no byte with any of a list.
abbrev pub Clear : Block → List Block → Type 0
Clear b bs = All (Apart b) bs

abbrev pub Disjoint : List Block → Type 0
Disjoint [] = Unit
Disjoint (b ∷ bs) = Clear b bs × Disjoint bs

-- No block of one list shares a byte with one of the other.
abbrev pub AllClear : List Block → List Block → Type 0
AllClear bs cs = All (λ b. Clear b cs) bs

-- The bytes of blocks and headers.
abbrev pub span : List Block → ℕ
span [] = 0
span (b ∷ bs) = header_size + b.size + span bs

pub Apart-sym : (b c : Block) → Apart b c → Apart c b
Apart-sym b c h = ground (arith, h.order)

pub Clear-sym : (b : Block) (bs : List Block) → Clear b bs → All (λ c. Apart c b) bs
Clear-sym b [] h = tt
Clear-sym b (c ∷ cs) h = (Apart-sym b c h.0, Clear-sym b cs h.1)

-- A block and a list in place of a larger list: nothing new is covered.
pub record Splits (b : Block) (rest bs : List Block) : Type 0 where
  pub rest_disjoint : Disjoint rest
  pub clear : Clear b rest
  pub inside : (c : Block) → Clear c bs → Apart c b × Clear c rest
  pub spans : header_size + b.size + span rest ≡ span bs

Splits-push :
    (c b : Block) (rest bs : List Block)
    → Clear c bs
    → Splits b rest bs
    → Splits b (c ∷ rest) (c ∷ bs)
Splits-push c b rest bs h s =
    let (off, cl) = s.inside c h in
    record {
      rest_disjoint = (cl, s.rest_disjoint);
      clear = (Apart-sym c b off, s.clear);
      inside = λ d k. let (x, y) = s.inside d k.1 in (x, (k.0, y));
      spans = omega (arith, s.spans);
    }

-- A part of a block.
pub record Within (x b : Block) : Type 0 where
  pub low : b.addr ≤ x.addr
  pub high : end_of x ≤ end_of b

Apart-Within : (x b c : Block) → Within x b → Apart b c → Apart x c
Apart-Within x b c w h = ground (arith, w.low, w.high, h.order)

Clear-Within : (x b : Block) (bs : List Block) → Within x b → Clear b bs → Clear x bs
Clear-Within x b [] w h = tt
Clear-Within x b (c ∷ cs) w h = (Apart-Within x b c w h.0, Clear-Within x b cs w h.1)

carve-split :
    (size : ℕ) (b : Block) (rest : List Block)
    → header_size + 16 ≤ b.size - size
    → Disjoint (b ∷ rest)
    → Splits
        (record b { size = size })
        (record { addr = b.addr + header_size + size; size = b.size - size - header_size } ∷ rest)
        (b ∷ rest)
carve-split size b rest le h =
    let x : Block = record b { size = size } in
    let y : Block = record {
      addr = b.addr + header_size + size;
      size = b.size - size - header_size;
    } in
    let wx : Within x b = omega arith in
    let wy : Within y b = omega arith in
    record {
      rest_disjoint = (Clear-Within y b rest wy h.0, h.1);
      clear = (record { order = inl (omega arith) }, Clear-Within x b rest wx h.0);
      inside = λ c k. (
        Apart-sym x c (Apart-Within x b c wx (Apart-sym c b k.0)),
        (Apart-sym y c (Apart-Within y b c wy (Apart-sym c b k.0)), k.1),
      );
      spans = omega arith;
    }

-- The two parts of a block.
carve-Splits :
    (size : ℕ) (b : Block) (rest : List Block)
    → size ≤ b.size
    → Disjoint (b ∷ rest)
    → Splits (carve size b rest).0 (carve size b rest).1 (b ∷ rest)
unfolding carve
carve-Splits size b rest le h =
    if_cases (λ (r : Block × List Block). Splits r.0 r.1 (b ∷ rest))
      (leb (header_size + 16) (b.size - size)) (λ t. carve-split size b rest (leb→le _ _ t) h)
      (λ t. record { rest_disjoint = h.1; clear = h.0; inside = λ c k. (k.0, k.1); spans = refl })

-- What taking a block gives: no block of a list is large enough, or one is split off.
pub data Fits (size : ℕ) (bs : List Block) : Option (Block × List Block) → Type 0 where
  too_small : All (λ (b : Block). b.size < size) bs → Fits size bs none
  fits :
      {b : Block} {rest : List Block}
      → size ≤ b.size
      → Splits b rest bs
      → Fits size bs (some (b, rest))

push-Fits :
    (size : ℕ) (c : Block) (bs : List Block) (r : Option (Block × List Block))
    → c.size < size
    → Clear c bs
    → Fits size bs r
    → Fits size (c ∷ bs) (push c r)
push-Fits size c bs none lt h (too_small k) = too_small (lt, k)
push-Fits size c bs (some (b, rest)) lt h (fits le k) = fits le (Splits-push c b rest bs h k)

carve-fits :
    (size : ℕ) (b : Block) (rest : List Block) → size ≤ b.size → size ≤ (carve size b rest).0.size
unfolding carve
carve-fits size b rest h = ground arith

pub take_fit-Fits : (size : ℕ) (bs : List Block) → Disjoint bs → Fits size bs (take_fit size bs)
unfolding take_fit
take_fit-Fits size [] h = too_small tt
take_fit-Fits size (c ∷ cs) h =
    if_cases (Fits size (c ∷ cs)) (leb size c.size)
      (λ t. fits (carve-fits size c cs (leb→le _ _ t)) (carve-Splits size c cs (leb→le _ _ t) h))
      (λ t. push-Fits size c cs (take_fit size cs) (ground arith) h.0 (take_fit-Fits size cs h.1))

-- What taking a given block gives.
pub data Taken (addr : ℕ) (bs : List Block) : Option (Block × List Block) → Type 0 where
  absent : Taken addr bs none
  found :
      {b : Block} {rest : List Block}
      → b.addr ≡ addr
      → Splits b rest bs
      → Taken addr bs (some (b, rest))

push-Taken :
    (addr : ℕ) (c : Block) (bs : List Block) (r : Option (Block × List Block))
    → Clear c bs
    → Taken addr bs r
    → Taken addr (c ∷ bs) (push c r)
push-Taken addr c bs none h absent = absent
push-Taken addr c bs (some (b, rest)) h (found e k) = found e (Splits-push c b rest bs h k)

pub take_live-Taken : (addr : ℕ) (bs : List Block) → Disjoint bs → Taken addr bs (take_live addr bs)
unfolding take_live
take_live-Taken addr [] h = absent
take_live-Taken addr (c ∷ cs) h =
    if_cases (Taken addr (c ∷ cs)) (c.addr == addr)
      (λ t.
        found ((==_iff c.addr addr).0 t)
          (record { rest_disjoint = h.1; clear = h.0; inside = λ d k. (k.0, k.1); spans = refl }))
      (λ t. push-Taken addr c cs (take_live addr cs) h.0 (take_live-Taken addr cs h.1))
