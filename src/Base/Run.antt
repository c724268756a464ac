-- ===== src/Base/Run.antt =====
-- The outcome of code that may run for ever or touch memory that it does not own.
use mathlib.Core.Path.{◌≡◌, refl, subst}
use mathlib.Core.Option.{Option, none, some}
use cs_360_internet_programm.Base.{◌⊎◌, inl, inr}

-- `fault` is an access outside an array; `out_of_fuel` says that the given rounds were not enough.
pub data Run {ℓ} (X : Type ℓ) : Type ℓ where
  fault out_of_fuel : Run X
  ok : X → Run X

infixl 5 ◌>>=◌
abbrev pub ◌>>=◌ {κ ℓ} : {X : Type ℓ} {Y : Type κ} → Run X → (X → Run Y) → Run Y
fault >>= next = fault
out_of_fuel >>= next = out_of_fuel
ok x >>= next = next x

-- A read or write that is out of range faults.
abbrev pub checked {ℓ} : {X : Type ℓ} → Option X → Run X
checked none = fault
checked (some x) = ok x

-- A chain that ends well went well at its first link.
pub >>=-eq-ok {κ ℓ} :
    {X : Type ℓ} {Y : Type κ} (first : Run X) (next : X → Run Y) {y : Y}
    → (first >>= next) ≡ ok y
    → (x : X) × (first ≡ ok x) × (next x ≡ ok y)
>>=-eq-ok fault next e = absurd (cc)
>>=-eq-ok out_of_fuel next e = absurd (cc)
>>=-eq-ok (ok x) next e = (x, refl, e)

pub ok-inj {ℓ} : {X : Type ℓ} {x y : X} → ok x ≡ ok y → x ≡ y
ok-inj e = cc

-- What holds of everything that code ends well with.
abbrev pub Every {κ ℓ} : {X : Type ℓ} → (X → Type κ) → Run X → Type (κ ⊔ ℓ)
Every P r = (x : _) → r ≡ ok x → P x

pub >>=-Every {ι κ ℓ} :
    {X : Type ℓ} {Y : Type κ} (first : Run X) (next : X → Run Y) (P : Y → Type ι)
    → ((x : X) → first ≡ ok x → Every P (next x))
    → Every P (first >>= next)
>>=-Every first next P h y e = let (x, a, b) = >>=-eq-ok first next e in h x a y b

pub ok-Every {κ ℓ} : {X : Type ℓ} (x : X) (P : X → Type κ) → P x → Every P (ok x)
ok-Every x P h y e = subst P (ok-inj e) h

pub Run-cases {ℓ} :
    {X : Type ℓ} (r : Run X) → ((r ≡ fault) ⊎ (r ≡ out_of_fuel)) ⊎ ((x : X) × (r ≡ ok x))
Run-cases fault = inl (inl refl)
Run-cases out_of_fuel = inl (inr refl)
Run-cases (ok x) = inr (x, refl)
