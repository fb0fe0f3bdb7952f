-- ===== src/Memory/Paging/Map.antt =====
-- What a mapping gives from a table on, and how the tables above lead to it.
use utms.Memory.Paging.Ensure.{stepped, stuck, Stepped, NoPage}
use utms.Base.{
  has_bit, ℕ, suc, ◌+◌, ◌*◌, ◌/◌, ◌∙◌, ◌≡◌, if◌then◌else◌, Bool, true, false, refl, arith, some, ap,
}
use utms.Memory.Paging.{on_success, Machine, present, huge, base_of}
use utms.Memory.Paging.Levels.{
  Levels, IsLevelled, IsLink, Keeps, SameAbove, Step, is_leaf, walk, index,
}

-- The entry that a mapping leaves: the address of a frame of 4 KB or of 2 MB, and the flags.
abbrev pub mapping : ℕ → ℕ → ℕ
mapping phys flags =
    (if has_bit huge flags then phys / 2097152 * 2097152 else phys / 4096 * 4096) + flags

-- From a table of level `k` on: no page is left; a table stands where the huge page should; or the
-- walk of the processor finds the mapping.
pub data Mapped (level : Levels) (m : Machine) (k t virt phys flags : ℕ)
    : Machine × Bool → Type 0 where
  no_page :
      (level' : Levels) (m' : Machine)
      → IsLevelled level' m'
      → Keeps level level'
      → NoPage m'
      → Mapped level m k t virt phys flags (m', false)
  occupied :
      (level' : Levels) (m' : Machine) (pd : ℕ)
      → IsLevelled level' m'
      → Keeps level level'
      → has_bit huge flags ≡ true
      → level' pd ≡ 2
      → IsLink 1 (m'.table pd (index 1 virt))
      → Mapped level m k t virt phys flags (m', false)
  mapped :
      (level' : Levels) (m' : Machine)
      → IsLevelled level' m'
      → Keeps level level'
      → SameAbove k level m m'
      → walk k t virt m' ≡ some (mapping phys flags)
      → Mapped level m k t virt phys flags (m', true)

pub walk-link :
    (k t virt : ℕ) (m : Machine)
    → IsLink k (m.table t (index k virt))
    → walk (suc k) t virt m ≡ walk k (base_of (m.table t (index k virt))) virt m
unfolding walk
walk-link k t virt m h = rw (h.here, h.down) refl

pub walk-leaf :
    (k t virt : ℕ) (m : Machine)
    → has_bit present (m.table t (index k virt)) ≡ true
    → is_leaf k (m.table t (index k virt)) ≡ true
    → walk (suc k) t virt m ≡ some (m.table t (index k virt))
unfolding walk
walk-leaf k t virt m p l = rw (p, l) refl

pub Keeps-trans : (a b c : Levels) → Keeps a b → Keeps b c → Keeps a c
Keeps-trans a b c p q t pos = let e = p t pos in q t (omega arith) ∙ e

-- A mapping from the next table on is one from this table.
descend :
    (level level' : Levels) (m m' : Machine) (k t virt phys flags : ℕ) (r : Machine × Bool)
    → level t ≡ suc k
    → Step level m k t (index k virt) level' m'
    → Mapped level' m' k (base_of (m'.table t (index k virt))) virt phys flags r
    → Mapped level m (suc k) t virt phys flags r
descend level level' m m' k t virt phys flags (m2, false) at s (no_page level2 m3 sound keeps f) =
    no_page level2 m3 sound (Keeps-trans level level' level2 s.keeps keeps) f
descend level level' m m' k t virt phys flags (m2, false) at s
      (occupied level2 m3 pd sound keeps h a l) =
    occupied level2 m3 pd sound (Keeps-trans level level' level2 s.keeps keeps) h a l
descend level level' m m' k t virt phys flags (m2, true) at s
      (mapped level2 m3 sound keeps above w) =
    let kept : level' t ≡ level t = s.keeps t (omega arith) in
    let same : m3.table t (index k virt) ≡ m'.table t (index k virt) =
      above t (index k virt) (omega arith) in
    mapped level2 m3 sound (Keeps-trans level level' level2 s.keeps keeps)
      (λ u j lt. let e = s.keeps u (omega arith) in above u j (omega arith) ∙ s.above u j lt)
      (walk-link k t virt m3 (rw same s.link) ∙ (ap (λ e. walk k (base_of e) virt m3) same ∙ w))

pub after_step :
    (level : Levels) (m : Machine) (k t virt phys flags : ℕ) (f : Machine → Machine × Bool)
    → IsLevelled level m
    → level t ≡ suc k
    → ((level' : Levels) (m' : Machine)
        → IsLevelled level' m'
        → level' (base_of (m'.table t (index k virt))) ≡ k
        → Mapped level' m' k (base_of (m'.table t (index k virt))) virt phys flags (f m'))
    → (r : Machine × Bool) → Stepped level m k t (index k virt) r
    → Mapped level m (suc k) t virt phys flags (on_success r f)
after_step level m k t virt phys flags f sound at go (m2, false) (stuck g) =
    no_page level m sound (λ u p. refl) g
after_step level m k t virt phys flags f sound at go (m2, true) (stepped level' m' s) =
    let at' : level' t ≡ suc k = s.keeps t (omega arith) ∙ at in
    descend level level' m m' k t virt phys flags (f m') at s
      (go level' m' s.sound (s.sound.below t (index k virt) k at' s.link))
