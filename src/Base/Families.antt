-- ===== src/Base/Families.antt =====
-- Maps as functions on numbers: a change at one number, sums over the numbers below a bound.
use Prim.Native.Nat.{ℕ, zero, suc, ◌+◌, ◌≤◌, ◌<◌}
use mathlib.Core.Path.{◌≡◌, refl}
use mathlib.Core.Logic.{◌≢◌, inl, inr}
use cs_360_internet_programm.Base.Tests.{◌==◌, if◌then◌else◌, Bool-cases}
use native.Mathlib.Omega.{arith}

abbrev pub update {ℓ} : {A : Type ℓ} → ℕ → A → (ℕ → A) → ℕ → A
update p v f q = if q == p then v else f q

pub update_same {ℓ} : {A : Type ℓ} (p : ℕ) (v : A) (f : ℕ → A) → update p v f p ≡ v
update_same p v f = ground (arith)

pub update_other {ℓ} : {A : Type ℓ} (p q : ℕ) (v : A) (f : ℕ → A) → q ≢ p → update p v f q ≡ f q
update_other p q v f h = ground (arith, h)

module _ {ℓ} {A : Type ℓ} (weight : A → ℕ) where
  -- The weights of the first `n`, added up.
  pub sum : ℕ → (ℕ → A) → ℕ
  sum zero f = 0
  sum (suc n) f = sum n f + weight (f n)

  sum-update_above : (n p : ℕ) (v : A) (f : ℕ → A) → n ≤ p → sum n (update p v f) ≡ sum n f
  unfolding sum
  sum-update_above zero p v f h = refl
  sum-update_above (suc n) p v f h = ground (arith, h, sum-update_above n p v f)

  -- A change trades the old weight for the new one.
  pub sum-update :
      (n p : ℕ) (v : A) (f : ℕ → A)
      → p < n
      → sum n (update p v f) + weight (f p) ≡ sum n f + weight v
  unfolding sum
  sum-update zero p v f h = absurd (omega (arith, h))
  sum-update (suc n) p v f h = elim (Bool-cases (n == p)) [
    | inl t ↦ ground (arith, t, sum-update_above n p v f)
    | inr g ↦ ground (arith, g, h, sum-update n p v f)
  ]

  pub sum-le : (n p : ℕ) (f : ℕ → A) → p < n → weight (f p) ≤ sum n f
  unfolding sum
  sum-le zero p f h = absurd (omega (arith, h))
  sum-le (suc n) p f h = elim (Bool-cases (n == p)) [
    | inl t ↦ ground (arith, t)
    | inr g ↦ ground (arith, g, h, sum-le n p f)
  ]

  pub sum_zero : (n : ℕ) (v : A) → weight v ≡ 0 → sum n (λ i. v) ≡ 0
  unfolding sum
  sum_zero zero v e = refl
  sum_zero (suc n) v e = omega (arith, e, sum_zero n v e)

  -- A sum that is not zero has a place that is not.
  pub sum_find : (n : ℕ) (f : ℕ → A) → 0 < sum n f → (p : ℕ) × (p < n) × (0 < weight (f p))
  unfolding sum
  sum_find zero f h = absurd (omega (arith, h))
  sum_find (suc n) f h = elim (Bool-cases (weight (f n) == 0)) [
    | inl t ↦
        (let (p, below, found) = sum_find n f (ground (arith, t, h)) in
          (p, omega (arith, below), found))
    | inr g ↦ (n, omega arith, ground (arith, g))
  ]
