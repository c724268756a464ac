-- ===== src/Base/Pow.antt =====
-- Powers, and division and remainder by products.
use Prim.Native.Nat.{ℕ, zero, suc, ◌+◌, ◌*◌, ◌/◌, ◌%◌, ◌^◌, ◌≤◌, ◌<◌}
use mathlib.Core.Path.{◌≡◌, refl, ◌∙◌, ap}
use native.Mathlib.Nat.{
  pow-suc, pow-zero, mul_assoc, div-add-mod, mod-lt, mul-add-div, div-eq_of_lt, mul-div-mul_right,
  mul-add-mod_self_left, mod-eq_of_lt, one-le-pow,
}
use native.Mathlib.Omega.{arith}

pub pow-add : (a m n : ℕ) → a ^ (m + n) ≡ a ^ m * a ^ n
pow-add a m zero = grind (arith, pow-zero a)
pow-add a m (suc n) =
    let e : m + suc n ≡ suc (m + n) = omega arith in
    rw (e, pow-suc, pow-suc) (ap (λ t. t * a) (pow-add a m n) ∙ mul_assoc (a ^ m) (a ^ n) a)

pub two-pow-pos : (n : ℕ) → 0 < 2 ^ n
two-pow-pos n = one-le-pow n 2 (omega arith)

-- Quotient and remainder are determined by the equation that defines them.
pub mod_unique : (x m k r : ℕ) → x ≡ m * k + r → r < m → x % m ≡ r
mod_unique x m k r e h = rw (e, mul-add-mod_self_left m k r) (mod-eq_of_lt h)

pub div_unique : (x m k r : ℕ) → x ≡ m * k + r → r < m → x / m ≡ k
div_unique x m k r e h = rw (e, mul-add-div {m = m} (omega arith) k r, div-eq_of_lt h) (omega arith)

-- The quotient of a remainder by a product, digit by digit.
pub mod-mul-div : (a b s : ℕ) → 0 < b → 0 < s → a % (b * s) / b ≡ a / b % s
mod-mul-div a b s pb ps = rw small (div_unique _ b (a / b % s) (a % b) refl (mod-lt a pb))
  where
    room : b * (a / b % s) + b ≤ b * s
    room = let h : a / b % s < s = mod-lt (a / b) ps in grind arith

    whole : a ≡ b * s * (a / b / s) + (b * (a / b % s) + a % b)
    whole =
        grind (
          arith,
          div-add-mod a b,
          ap (λ t. b * t) (div-add-mod (a / b) s),
          mul_assoc b s (a / b / s),
        )

    small : a % (b * s) ≡ b * (a / b % s) + a % b
    small = mod_unique a (b * s) (a / b / s) _ whole (omega (arith, mod-lt a pb, room))

pub mul-mod-mul : (a m p : ℕ) → 0 < m → 0 < p → a * p % (m * p) ≡ a % m * p
mul-mod-mul a m p pm pp = mod_unique (a * p) (m * p) (a / m) (a % m * p) whole bound
  where
    whole : a * p ≡ m * p * (a / m) + a % m * p
    whole = grind (arith, ap (λ t. t * p) (div-add-mod a m))

    bound : a % m * p < m * p
    bound = let h : a % m < m = mod-lt a pm in grind arith

-- Shifting up by `p`, cutting off at `b * s * p` and shifting down by `b * p` leaves the digit at `b`.
pub cut_digit : (a b s p : ℕ) → 0 < b → 0 < s → 0 < p → a * p % (b * s * p) / (b * p) ≡ a / b % s
cut_digit a b s p pb ps pp =
    rw (mul-mod-mul a (b * s) p (grind arith) pp, mul-div-mul_right {m = p} (a % (b * s)) b pp)
      (mod-mul-div a b s pb ps)
