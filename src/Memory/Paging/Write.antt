-- ===== src/Memory/Paging/Write.antt =====
-- A store into a table.
use utms.Base.{◌∙◌, sym, ℕ, suc, ◌≡◌, ◌==◌, refl, arith, if_cases, ◌&&◌, ap}
use mathlib.Core.Path.{subst}
use utms.Memory.Paging.{Machine, base_of, set_entry}
use utms.Memory.Paging.Levels.{Levels, IsLevelled, IsLink, SameAbove}

-- A store of an entry that names a table of the level below, or none.
module _ (level : Levels) (m : Machine) (k t i e : ℕ) (sound : IsLevelled level m)
    (at : level t ≡ suc k) (target : IsLink k e → level (base_of e) ≡ k) where
  write_below :
      (u j l : ℕ)
      → level u ≡ suc l
      → IsLink l ((set_entry t i e m).table u j)
      → level (base_of ((set_entry t i e m).table u j)) ≡ l
  unfolding set_entry
  write_below u j l at' =
      if_cases (λ x. IsLink l x → level (base_of x) ≡ l) ((u == t) && (j == i))
        (λ b h.
          let same : level u ≡ level t = ap level (ground arith) in
          let eq : l ≡ k = omega arith in target (subst (λ n. IsLink n e) eq h) ∙ sym eq)
        (λ b h. sound.below u j l at' h)

  pub write-IsLevelled : IsLevelled level (set_entry t i e m)
  unfolding set_entry
  write-IsLevelled = record {
    on = sound.on;
    pages = sound.pages;
    aligned = sound.aligned;
    below = write_below;
    unused = sound.unused;
  }

  pub write-SameAbove : SameAbove (suc k) level m (set_entry t i e m)
  unfolding set_entry
  write-SameAbove u j lt =
      if_cases (λ x. x ≡ m.table u j) ((u == t) && (j == i))
        (λ b. let same : level u ≡ level t = ap level (ground arith) in absurd (omega arith))
        (λ b. refl)

  pub write_self : (set_entry t i e m).table t i ≡ e
  unfolding set_entry
  write_self = ground arith
