-- ===== src/Memory/Heap/Insert.antt =====
-- What putting a block back into a list does.
use utms.Base.{◌+◌, ◌≡◌, refl, arith, List, [], ◌∷◌, if_cases, if_elim, ◌==◌, ==_iff, ltb}
use utms.Memory.Heap.{Block, header_size, end_of, merge, join, insert, starts_below}
use utms.Memory.Heap.Disjoint.{Apart, Apart-sym, Clear, Disjoint, span}

-- A list in place of a block and a list: nothing new is covered.
pub record Adds (b : Block) (bs bs' : List Block) : Type 0 where
  pub disjoint : Disjoint bs'
  pub covers : (c : Block) → Apart c b → Clear c bs → Clear c bs'
  pub spans : span bs' ≡ header_size + b.size + span bs

Apart-merge : (c b d : Block) → end_of b ≡ d.addr → Apart c b → Apart c d → Apart c (merge b d)
Apart-merge c b d e x y = ground (arith, x.order, y.order)

Clear-merge :
    (b d : Block) (bs : List Block)
    → end_of b ≡ d.addr
    → Clear b bs
    → Clear d bs
    → Clear (merge b d) bs
Clear-merge b d [] e x y = tt
Clear-merge b d (c ∷ cs) e x y = (
  Apart-sym c (merge b d) (Apart-merge c b d e (Apart-sym b c x.0) (Apart-sym d c y.0)),
  Clear-merge b d cs e x.1 y.1,
)

pub join-Adds : (b : Block) (bs : List Block) → Clear b bs → Disjoint bs → Adds b bs (join b bs)
unfolding join
join-Adds b [] cl h = record { disjoint = (tt, tt); covers = λ c x y. (x, tt); spans = refl }
join-Adds b (d ∷ bs) cl h =
    if_cases (Adds b (d ∷ bs)) (end_of b == d.addr)
      (λ t.
        let e = (==_iff (end_of b) d.addr).0 t in
        record {
          disjoint = (Clear-merge b d bs e cl.1 h.0, h.1);
          covers = λ c x y. (Apart-merge c b d e x y.0, y.1);
          spans = omega arith;
        })
      (λ t. record { disjoint = ((cl.0, cl.1), h); covers = λ c x y. (x, y); spans = refl })

pub insert-Adds : (b : Block) (bs : List Block) → Clear b bs → Disjoint bs → Adds b bs (insert b bs)
unfolding insert
insert-Adds b [] cl h = record { disjoint = (tt, tt); covers = λ c x y. (x, tt); spans = refl }
insert-Adds b (d ∷ bs) cl h =
    let later = insert-Adds b bs cl.1 h.1 in
    let behind = join-Adds b bs cl.1 h.1 in
    let clear_d = behind.covers d (Apart-sym b d cl.0) h.0 in
    let before = join-Adds d (join b bs) clear_d behind.disjoint in
    if_elim (Adds b (d ∷ bs)) (ltb d.addr b.addr)
      (if_elim (Adds b (d ∷ bs)) (starts_below b.addr bs)
        (record {
          disjoint = (later.covers d (Apart-sym b d cl.0) h.0, later.disjoint);
          covers = λ c x y. (y.0, later.covers c x y.1);
          spans = omega (arith, later.spans);
        })
        (record {
          disjoint = before.disjoint;
          covers = λ c x y. before.covers c y.0 (behind.covers c x y.1);
          spans = omega (arith, before.spans, behind.spans);
        }))
      (join-Adds b (d ∷ bs) cl h)
