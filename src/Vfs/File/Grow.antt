-- ===== src/Vfs/File/Grow.antt =====
-- The loop of ramfs_write over capacities ends.
use utms.Base.{
  true, ltb, ℕ, ◌*◌, ◌^◌, ◌<◌, ◌≤◌, ◌≡◌, ◌∙◌, zero, suc, arith, some, u64, ap, if_known,
}
use native.Mathlib.Decide.{dec_lt}
use native.Mathlib.Nat.{pow-suc}
use utms.Vfs.File.{double_until, max_rounds}

ltb-true : (a b : ℕ) → a < b → ltb a b ≡ true
ltb-true a b lt = ground arith

twice_pow : (cap k : ℕ) → cap * 2 ^ suc k ≡ cap * 2 * 2 ^ k
twice_pow cap k = ap (λ p. cap * p) (pow-suc 2 k) ∙ omega arith

-- A capacity that is not 0 passes an end of at most 2^63, in as many rounds as it needs doublings.
double_until-ends :
    (rounds cap end : ℕ)
    → 0 < cap
    → end ≤ 9223372036854775808
    → end ≤ cap * 2 ^ rounds
    → (r : ℕ) × (double_until (suc rounds) cap end ≡ some r) × (end ≤ r)
unfolding double_until
double_until-ends zero cap end pos le reach = (cap, ground arith, omega arith)
double_until-ends (suc rounds) cap end pos le reach = elim (dec_lt cap end) [
  | yes lt ↦
      let wraps : u64 (cap * 2) ≡ cap * 2 = omega arith in
      let (r, e, b) =
        double_until-ends rounds (cap * 2) end (omega arith) le
          (omega (arith, twice_pow cap rounds)) in
      (
        r,
        if_known (λ o. o ≡ some r) (ltb cap end) (some cap) (ltb-true cap end lt)
            (ap (λ c. double_until (suc rounds) c end) wraps ∙ e),
        b,
      )
  | no ge ↦ (cap, ground arith, omega arith)
]

pub double_until-enough :
    (cap end : ℕ)
    → 0 < cap
    → end ≤ 9223372036854775808
    → (r : ℕ) × (double_until max_rounds cap end ≡ some r) × (end ≤ r)
double_until-enough cap end pos le = double_until-ends 63 cap end pos le (omega arith)
