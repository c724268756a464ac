-- ===== src/Base/Loops.antt =====
-- The counted loop of C, `for (i = from; i < bound; i += step) s = body(i, s)`, on fuel.
use cs_360_internet_programm.Base.Tests.{ltb, Bool-cases, ltb→lt, ltb-eq-false}
use Prim.Native.Nat.{ℕ, zero, suc, ◌+◌, ◌≤◌, ◌<◌}
use mathlib.Core.Logic.{inl, inr}
use mathlib.Core.Bool.{true, false}
use native.Mathlib.Omega.{arith}

-- `bound` rounds are enough, since the counter grows with each.
unfoldable pub for_fuel {ℓ} : {S : Type ℓ} → ℕ → ℕ → ℕ → ℕ → (ℕ → S → S) → S → S
for_fuel zero i bound step body s = s
for_fuel (suc f) i bound step body s = elim (ltb i bound) [
  | true ↦ for_fuel f (i + step) bound step body (body i s)
  | false ↦ s
]

unfoldable pub for_loop {ℓ} : {S : Type ℓ} → ℕ → ℕ → ℕ → (ℕ → S → S) → S → S
unfolding for_fuel
for_loop from bound step body s = for_fuel bound from bound step body s

module _ {ℓ κ} {S : Type ℓ} (J : ℕ → S → Type κ) (bound step : ℕ) (body : ℕ → S → S)
    (pos : 0 < step) (keep : (i : ℕ) (s : S) → i < bound → J i s → J (i + step) (body i s)) where
  for_fuel_inv :
      (f i : ℕ) (s : S)
      → bound ≤ f + i
      → J i s
      → (e : ℕ) × (bound ≤ e) × J e (for_fuel f i bound step body s)
  unfolding for_fuel
  for_fuel_inv zero i s h p = (i, omega arith, p)
  for_fuel_inv (suc f) i s h p = elim (Bool-cases (ltb i bound)) [
    | inl t ↦
        rw (t, for_fuel)
          (for_fuel_inv f (i + step) (body i s) (omega arith) (keep i s (ltb→lt i bound t) p))
    | inr t ↦ rw (t, for_fuel) (i, ltb-eq-false i bound t, p)
  ]

  -- An invariant of the body holds at the first counter that fails the test.
  pub for_loop_inv :
      (from : ℕ) (s : S) → J from s → (e : ℕ) × (bound ≤ e) × J e (for_loop from bound step body s)
  unfolding for_loop
  for_loop_inv from s p = for_fuel_inv bound from s (omega arith) p

-- Two loops whose bodies keep a relation between their states.
module _ {ℓ κ ι} {S : Type ℓ} {T : Type κ} (R : S → T → Type ι) (bound step : ℕ) (f : ℕ → S → S)
    (g : ℕ → T → T) (keep : (i : ℕ) (s : S) (t : T) → i < bound → R s t → R (f i s) (g i t)) where
  for_fuel_rel :
      (n i : ℕ) (s : S) (t : T)
      → R s t
      → R (for_fuel n i bound step f s) (for_fuel n i bound step g t)
  unfolding for_fuel
  for_fuel_rel zero i s t p = p
  for_fuel_rel (suc n) i s t p = elim (Bool-cases (ltb i bound)) [
    | inl e ↦
        rw (e, for_fuel)
          (for_fuel_rel n (i + step) (f i s) (g i t) (keep i s t (ltb→lt i bound e) p))
    | inr e ↦ rw (e, for_fuel) p
  ]

  pub for_loop_rel :
      (from : ℕ) (s : S) (t : T)
      → R s t
      → R (for_loop from bound step f s) (for_loop from bound step g t)
  unfolding for_loop
  for_loop_rel from s t p = for_fuel_rel bound from s t p
