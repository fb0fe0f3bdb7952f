-- ===== src/Memory/Pages/Fresh.antt =====
-- What `pmm_alloc_page` hands out.
use utms.Base.{
  refl, not, ◌||◌, ltb, leb, set-set, set-get_or, if_known, sym, ap, ◌∙◌, ◌∙◌, ap, ℕ, zero, suc,
  ◌+◌, ◌-◌, ◌/◌, ◌%◌, ◌<◌, ◌≤◌, ◌≡◌, ◌≢◌, arith, Bool, true, false, Option, none, some, length,
  get_or, set, get_or-set_self, get_or-set_ne, length-set, if_cases,
}
use native.Mathlib.Nat.{mod-lt, mod-eq_of_lt, mod-eq-sub-mod}
use native.Mathlib.Decide.{dec_lt}
use utms.Memory.Pages.{Pages, probe, find_clear, alloc_page, free_page, address, page_size}

-- There is a bit for each page, and the search starts at one of them.
pub record PagesOk (p : Pages) : Type 0 where
  pub bits : length p.bitmap ≡ p.total
  pub start : p.cursor < p.total

-- A page is handed out.
abbrev pub is_taken : Pages → ℕ → Bool
is_taken p idx = get_or p.bitmap idx true

-- Every index is looked at in some round.
round_of :
    (p : Pages) (idx : ℕ) → PagesOk p → idx < p.total → (i : ℕ) × (i < p.total) × (probe p i ≡ idx)
round_of p idx h lt = elim (dec_lt idx p.cursor) [
  | yes below ↦ (
    idx + p.total - p.cursor,
    omega (arith, h.start),
    ap (λ n. n % p.total) {x = p.cursor + (idx + p.total - p.cursor)} {y = idx + p.total}
          (omega (arith, h.start))
        ∙ (mod-eq-sub-mod {n = idx + p.total} {m = p.total} (omega arith)
            ∙ (ap (λ n. n % p.total) {x = idx + p.total - p.total} {y = idx} (omega arith)
                ∙ mod-eq_of_lt lt)),
  )
  | no above ↦ (
    idx - p.cursor,
    omega arith,
    ap (λ n. n % p.total) {x = p.cursor + (idx - p.cursor)} {y = idx} (omega arith)
        ∙ mod-eq_of_lt lt,
  )
]

-- What the search from round `i` on gives.
data Search (p : Pages) (left i : ℕ) : Option ℕ → Type 0 where
  all_taken :
      ((k : ℕ) → i ≤ k → k < i + left → is_taken p (probe p k) ≡ true) → Search p left i none
  clear_at : (k : ℕ) → is_taken p (probe p k) ≡ false → Search p left i (some (probe p k))

longer :
    (p : Pages) (left i : ℕ)
    → is_taken p (probe p i) ≡ true
    → (r : Option ℕ) → Search p left (suc i) r
    → Search p (suc left) i r
longer p left i t none (all_taken f) = all_taken (λ k lo hi. elim (dec_lt i k) [
  | yes lt ↦ f k lt (omega arith)
  | no ge ↦ let e : i ≡ k = omega arith in rw (sym e) t
])
longer p left i t (some n) (clear_at k e) = clear_at k e

find_clear-Search : (p : Pages) (left i : ℕ) → Search p left i (find_clear p left i)
unfolding find_clear
find_clear-Search p zero i = all_taken (λ k lo hi. absurd (omega arith))
find_clear-Search p (suc left) i =
    if_cases (Search p (suc left) i) (is_taken p (probe p i))
      (λ t. longer p left i t (find_clear p left (suc i)) (find_clear-Search p left (suc i)))
      (λ t. clear_at i t)

-- The region is the same.
pub record SamePlace (p q : Pages) : Type 0 where
  pub ready : q.ready ≡ p.ready
  pub base : q.base ≡ p.base
  pub total : q.total ≡ p.total

-- What `pmm_alloc_page` does: it gives NULL, every page being taken; or a page that was free, which
-- is then taken, the others being as they were, and which `pmm_free_page` gives back.
pub data Allocated (p : Pages) : Pages × Option ℕ → Type 0 where
  exhausted : ((idx : ℕ) → idx < p.total → is_taken p idx ≡ true) → Allocated p (p, none)
  granted :
      (idx : ℕ) (q : Pages)
      → idx < p.total
      → is_taken p idx ≡ false
      → is_taken q idx ≡ true
      → ((j : ℕ) → idx ≢ j → is_taken q j ≡ is_taken p j)
      → PagesOk q
      → SamePlace p q
      → (free_page (address p idx) q).bitmap ≡ p.bitmap
      → Allocated p (q, some (address p idx))

mark : Pages → ℕ → Pages
mark p idx = record p { bitmap = set p.bitmap idx true; cursor = (idx + 1) % p.total }

free_page-mark :
    (p : Pages) (idx : ℕ)
    → p.ready ≡ true
    → idx < p.total
    → is_taken p idx ≡ false
    → (free_page (address p idx) (mark p idx)).bitmap ≡ p.bitmap
unfolding free_page mark
free_page-mark p idx on lt e =
    let there : (address p idx - p.base) / page_size ≡ idx = omega arith in
    if_cases (λ (q : Pages). q.bitmap ≡ p.bitmap)
      (not p.ready
        || (ltb (address p idx) p.base || leb p.total ((address p idx - p.base) / page_size)))
      (λ t. absurd (ground arith))
      (λ t. rw there (
        set-set p.bitmap idx true false
        ∙ (ap (set p.bitmap idx) (sym e) ∙ set-get_or p.bitmap idx true)))

alloc_of :
    (p : Pages) (r : Option ℕ)
    → p.ready ≡ true
    → PagesOk p
    → Search p p.total 0 r
    → Allocated p (elim r [ none ↦ (p, none) | some idx ↦ (mark p idx, some (address p idx)) ])
unfolding mark
alloc_of p none on h (all_taken f) = exhausted (λ idx lt.
    let (i, below, e) = round_of p idx h lt in rw (sym e) (f i (omega arith) (omega arith)))
alloc_of p (some n) on h (clear_at k e) =
    let lt : probe p k < p.total = mod-lt (p.cursor + k) (omega (arith, h.start)) in
    granted (probe p k) (mark p (probe p k)) lt e
      (get_or-set_self p.bitmap (probe p k) true true (omega (arith, lt, h.bits)))
      (λ j ne. get_or-set_ne p.bitmap (probe p k) j true true ne)
      (record {
        bits = length-set p.bitmap (probe p k) true ∙ h.bits;
        start = mod-lt (probe p k + 1) (omega (arith, h.start));
      })
      (record { ready = refl; base = refl; total = refl }) (free_page-mark p (probe p k) on lt e)

-- Once the region is set, with a bit for each page and a cursor below their number:
-- `pmm_alloc_page` gives NULL only where every page is taken, and then changes nothing; otherwise
-- it gives a page that was free and is then taken, the others are as they were, the bits and the
-- cursor stay in bounds, and `pmm_free_page` of that page brings the bitmap back.
pub alloc_page-Allocated : (p : Pages) → p.ready ≡ true → PagesOk p → Allocated p (alloc_page p)
unfolding alloc_page mark
alloc_page-Allocated p on h =
    if_known (Allocated p) p.ready _ on
      (alloc_of p (find_clear p p.total 0) on h (find_clear-Search p p.total 0))
