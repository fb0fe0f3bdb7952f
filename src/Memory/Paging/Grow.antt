-- ===== src/Memory/Paging/Grow.antt =====
-- A new table below a table.
use utms.Base.{sym, ap}
use utms.Base.{
  sym, ap, has_bit, zero, suc, ◌+◌, ◌*◌, ◌/◌, ◌^◌, ◌∙◌, ◌%◌, ◌<◌, ◌≡◌, ◌≢◌, ◌==◌, if◌then◌else◌,
  true, false, refl, arith, if_cases,
}
use Prim.Native.Nat.{bit_or}
use utms.Memory.Paging.{
  bit_or, ◌==◌, if◌then◌else◌, ◌%◌, ℕ, Machine, present, huge, base_of, set_entry, fill,
}
use utms.Base.Bits.{bit_or-low}
use utms.Memory.Pages.{Pages, address, page_size}
use utms.Memory.Pages.Fresh.{PagesOk, SamePlace, is_taken}
use utms.Memory.Paging.Write.{write-IsLevelled, write-SameAbove, write_self}
use utms.Memory.Paging.Levels.{Levels, IsLevelled, IsLink, Keeps, Step, is_leaf}

-- The bits of an entry that names an aligned page.
pub bit_or-aligned : (a flags : ℕ) → a % 4096 ≡ 0 → flags < 4096 → bit_or a flags ≡ a + flags
bit_or-aligned a flags al lt =
    let e : a ≡ a / 4096 * 2 ^ 12 = omega arith in
    ap (λ x. bit_or x flags) e ∙ (bit_or-low 12 (a / 4096) flags lt ∙ omega arith)

pub base_of-entry : (a flags : ℕ) → a % 4096 ≡ 0 → flags < 4096 → base_of (bit_or a flags) ≡ a
base_of-entry a flags al lt = rw (bit_or-aligned a flags al lt) (omega arith)

pub present-entry :
    (a flags : ℕ)
    → a % 4096 ≡ 0
    → flags < 4096
    → has_bit present (bit_or a flags) ≡ has_bit present flags
present-entry a flags al lt = rw (bit_or-aligned a flags al lt) (ground arith)

pub huge-entry :
    (a flags : ℕ) → a % 4096 ≡ 0 → flags < 4096 → has_bit huge (bit_or a flags) ≡ has_bit huge flags
huge-entry a flags al lt = rw (bit_or-aligned a flags al lt) (ground arith)

is_leaf-entry :
    (k a flags : ℕ) → a % 4096 ≡ 0 → flags < 4096 → is_leaf k (bit_or a flags) ≡ is_leaf k flags
is_leaf-entry zero a flags al lt = refl
is_leaf-entry (suc zero) a flags al lt = huge-entry a flags al lt
is_leaf-entry (suc (suc k)) a flags al lt = refl

-- The levels with one more table.
pub with_table : ℕ → ℕ → Levels → Levels
with_table a k level t = if t == a then k else level t

pub with_table_self : (a k : ℕ) (level : Levels) → with_table a k level a ≡ k
unfolding with_table
with_table_self a k level = ground arith

with_table_ne : (a k t : ℕ) (level : Levels) → t ≢ a → with_table a k level t ≡ level t
unfolding with_table
with_table_ne a k t level ne = ground arith

with_table-Keeps : (a k : ℕ) (level : Levels) → level a ≡ 0 → Keeps level (with_table a k level)
with_table-Keeps a k level free t some_level =
    with_table_ne a k t level (λ e. let z : level t ≡ 0 = ap level e ∙ free in omega arith)

pub IsLink-pos : (l e : ℕ) → IsLink l e → 0 < l
IsLink-pos zero e h = let d = h.down in cc
IsLink-pos (suc l) e h = omega arith

true≢false : true ≢ false
true≢false e = cc

-- A page that was free becomes a table of level `k`, whose entries name no table.
module _ (level : Levels) (m : Machine) (k idx : ℕ) (entries : ℕ → ℕ) (q : Pages)
    (sound : IsLevelled level m) (lt : idx < m.pages.total)
    (was_free : is_taken m.pages idx ≡ false) (taken : is_taken q idx ≡ true)
    (others : (j : ℕ) → idx ≢ j → is_taken q j ≡ is_taken m.pages j) (ok : PagesOk q)
    (same : SamePlace m.pages q) (no_links : (j l : ℕ) → k ≡ suc l → IsLink l (entries j) → ⊥) where
  abbrev page : ℕ
  page = address m.pages idx

  abbrev level' : Levels
  level' = with_table page k level

  abbrev adopted : Machine
  adopted = fill page entries (record m { pages = q })

  pub page_aligned : page % 4096 ≡ 0
  page_aligned = let al = sound.aligned in omega arith

  pub page_free : level page ≡ 0
  page_free = sound.unused idx lt was_free

  pub adopted-Keeps : Keeps level level'
  adopted-Keeps = with_table-Keeps page k level page_free

  pub adopted-same : (u j : ℕ) → 0 < level u → adopted.table u j ≡ m.table u j
  unfolding fill
  adopted-same u j pos =
      if_cases (λ e. e ≡ m.table u j) (u == page)
        (λ b.
          let eq : level u ≡ level page = ap level (ground arith) in
          absurd (omega (arith, page_free)))
        (λ b. refl)

  adopted-below :
      (u j l : ℕ)
      → level' u ≡ suc l
      → IsLink l (adopted.table u j)
      → level' (base_of (adopted.table u j)) ≡ l
  unfolding fill
  adopted-below u j l at =
      if_cases (λ e. IsLink l e → level' (base_of e) ≡ l) (u == page)
        (λ b h.
          let eq : level' u ≡ level' page = ap level' (ground arith) in
          absurd (no_links j l (sym (with_table_self page k level) ∙ (sym eq ∙ at)) h))
        (λ b h.
          let old : level u ≡ level' u = sym (with_table_ne page k u level (λ e. ground arith)) in
          let down = sound.below u j l (old ∙ at) h in
          let pos = IsLink-pos l (m.table u j) h in
          adopted-Keeps (base_of (m.table u j)) (omega (arith, pos, down)) ∙ down)

  adopted-unused : (n : ℕ) → n < q.total → is_taken q n ≡ false → level' (address q n) ≡ 0
  adopted-unused n lt' free' =
      let old_free : is_taken m.pages n ≡ false =
        sym (others n (λ e. true≢false (sym taken ∙ (ap (is_taken q) e ∙ free')))) ∙ free' in
      let ne : address q n ≢ page = λ e. true≢false (
        sym taken
        ∙ (ap (is_taken q) {x = idx} {y = n} (let b = same.base in omega arith) ∙ free')) in
      let place : address q n ≡ address m.pages n = ap (λ b. b + n * page_size) same.base in
      with_table_ne page k (address q n) level ne
      ∙ (ap level place ∙ sound.unused n (let b = same.total in omega arith) old_free)

  pub adopted-IsLevelled : IsLevelled level' adopted
  unfolding fill
  adopted-IsLevelled = record {
    on = same.ready ∙ sound.on;
    pages = ok;
    aligned = ap (λ b. b % page_size) same.base ∙ sound.aligned;
    below = adopted-below;
    unused = adopted-unused;
  }

  -- The entry `i` of the table `t`, of level `k + 1`, comes to name it.
  module _ (t i flags : ℕ) (at : level t ≡ suc k) (few : flags < 4096) (link : IsLink k flags) where
    abbrev entry : ℕ
    entry = bit_or page flags

    entry-IsLink : IsLink k entry
    entry-IsLink = record {
      here = present-entry page flags page_aligned few ∙ link.here;
      down = is_leaf-entry k page flags page_aligned few ∙ link.down;
    }

    target : IsLink k entry → level' (base_of entry) ≡ k
    target h = ap level' (base_of-entry page flags page_aligned few) ∙ with_table_self page k level

    kept : level' t ≡ suc k
    kept = adopted-Keeps t (omega (arith, at)) ∙ at

    pub grown-Step : Step level m k t i level' (set_entry t i entry adopted)
    grown-Step = record {
      sound = write-IsLevelled level' adopted k t i entry adopted-IsLevelled kept target;
      keeps = adopted-Keeps;
      above = λ u j lt'.
          let e = adopted-Keeps u (omega (arith, lt')) in
          write-SameAbove level' adopted k t i entry adopted-IsLevelled kept target u j
            (omega (arith, e, lt'))
          ∙ adopted-same u j (omega (arith, lt'));
      link = rw (write_self level' adopted k t i entry adopted-IsLevelled kept target) entry-IsLink;
    }
