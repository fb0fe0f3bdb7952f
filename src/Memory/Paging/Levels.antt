-- ===== src/Memory/Paging/Levels.antt =====
-- What the processor reads, and what keeps the tables of different levels apart.
use utms.Base.{zero, suc, ◌%◌, ◌<◌, ◌≡◌, Bool, true, false}
use utms.Base.{some, false, none, Bool, Option, suc, true, ◌<◌, ℕ, ◌≡◌, if◌then◌else◌, has_bit}
use utms.Memory.Pages.{address, page_size}
use utms.Memory.Pages.Fresh.{PagesOk, is_taken}
use utms.Memory.Paging.{Machine, present, huge, base_of, pt_index, pd_index, pdpt_index, pml4_index}

abbrev pub index : ℕ → ℕ → ℕ
index zero virt = pt_index virt
index (suc zero) virt = pd_index virt
index (suc (suc zero)) virt = pdpt_index virt
index (suc (suc (suc k))) virt = pml4_index virt

-- An entry at a level, from 0, that maps a page: it names no table.
abbrev pub is_leaf : ℕ → ℕ → Bool
is_leaf zero e = true
is_leaf (suc zero) e = has_bit huge e
is_leaf (suc (suc k)) e = false

-- The processor's walk through so many levels: the entry that maps the address.
unfoldable pub walk : ℕ → ℕ → ℕ → Machine → Option ℕ
walk zero t virt m = none
walk (suc k) t virt m =
    let e = m.table t (index k virt) in
    let below = walk k (base_of e) virt m in
    if has_bit present e then (if is_leaf k e then some e else below) else none

-- A page is a table of level 1 to 4, or none, 0.
abbrev pub Levels : Type 0
Levels = ℕ → ℕ

-- An entry of a table of level `k + 1` that names another table.
pub record IsLink (k e : ℕ) : Type 0 where
  pub here : has_bit present e ≡ true
  pub down : is_leaf k e ≡ false

-- A table of one level names tables of the level below, and a free page is no table.
pub record IsLevelled (level : Levels) (m : Machine) : Type 0 where
  pub on : m.pages.ready ≡ true
  pub pages : PagesOk m.pages
  pub aligned : m.pages.base % page_size ≡ 0
  pub below :
      (t i k : ℕ) → level t ≡ suc k → IsLink k (m.table t i) → level (base_of (m.table t i)) ≡ k
  pub unused :
      (idx : ℕ)
      → idx < m.pages.total
      → is_taken m.pages idx ≡ false
      → level (address m.pages idx) ≡ 0

-- Tables stay what they are.
abbrev pub Keeps : Levels → Levels → Type 0
Keeps level level' = (t : ℕ) → 0 < level t → level' t ≡ level t

-- Nothing above a level changes.
abbrev pub SameAbove : ℕ → Levels → Machine → Machine → Type 0
SameAbove k level m m' = (t i : ℕ) → k < level t → m'.table t i ≡ m.table t i

-- Entry `i` of the table `t`, of level `k + 1`, names a table in `m'`.
pub record Step (level : Levels) (m : Machine) (k t i : ℕ) (level' : Levels) (m' : Machine)
    : Type 0 where
  pub sound : IsLevelled level' m'
  pub keeps : Keeps level level'
  pub above : SameAbove (suc k) level m m'
  pub link : IsLink k (m'.table t i)
