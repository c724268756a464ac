-- ===== src/Base/Text/Laws.antt =====
-- Laws of the functions on C strings.
use mathlib.Core.List.{append_assoc, append-nil}
use Prim.Native.Nat.{ℕ, zero, suc, ◌+◌, ◌-◌, ◌*◌, ◌/◌, ◌%◌, ◌^◌, ◌<◌}
use mathlib.Core.Path.{◌≡◌, refl, sym, ap, ◌∙◌}
use mathlib.Core.Logic.{inl, inr}
use mathlib.Core.Bool.{Bool, true, false}
use mathlib.Core.List.{List, [], ◌∷◌, ◌++◌}
use native.Mathlib.Omega.{arith}
use cs_360_internet_programm.Base.Tests.{ltb, Bool-cases}
use cs_360_internet_programm.Base.Lists.{length, All}
use cs_360_internet_programm.Base.Text.{
  string_eq, token, split_tokens, is_space, skip_spaces, take_word, drop_word, scan_word,
  decimal_fuel, decimal, number,
}

pub string_eq_refl : (s : List ℕ) → string_eq s s ≡ true
unfolding string_eq
string_eq_refl [] = refl
string_eq_refl (c ∷ s) = ground (arith, string_eq_refl s)

pub string_eq-eq : (a b : List ℕ) → string_eq a b ≡ true → a ≡ b
unfolding string_eq
string_eq-eq [] [] h = refl
string_eq-eq [] (b ∷ bs) h = absurd (cc)
string_eq-eq (a ∷ as') [] h = absurd (cc)
string_eq-eq (a ∷ as') (b ∷ bs) h = ground (arith, string_eq-eq as' bs)

-- A word for `%s`: not empty, and without white space.
abbrev pub Plain : List ℕ → Type 0
Plain = All (λ c. is_space c ≡ false)

-- `%s` reads a word up to white space.
pub scan_word-space :
    (w rest : List ℕ) → Plain w → 0 < length w → scan_word (w ++ (32 ∷ rest)) ≡ (w, 32 ∷ rest)
unfolding scan_word skip_spaces take_word drop_word
scan_word-space [] rest h filled = elim filled [ ]
scan_word-space (c ∷ w) rest h filled =
    rw h.0 (ground (arith, taken w rest h.1, dropped w rest h.1))
  where
    taken : (w rest : List ℕ) → Plain w → take_word (w ++ (32 ∷ rest)) ≡ w
    taken [] rest h = refl
    taken (c ∷ w) rest h = rw h.0 (ap (◌∷◌ c) (taken w rest h.1))

    dropped : (w rest : List ℕ) → Plain w → drop_word (w ++ (32 ∷ rest)) ≡ 32 ∷ rest
    dropped [] rest h = refl
    dropped (c ∷ w) rest h = rw h.0 (dropped w rest h.1)

pub scan_word-skip : (s : List ℕ) → scan_word (32 ∷ s) ≡ scan_word s
unfolding scan_word skip_spaces
scan_word-skip s = refl

pub scan_word_last : (w : List ℕ) → Plain w → 0 < length w → scan_word w ≡ (w, [])
unfolding scan_word skip_spaces take_word drop_word
scan_word_last [] h filled = elim filled [ ]
scan_word_last (c ∷ w) h filled = rw h.0 (ground (arith, taken w h.1, dropped w h.1))
  where
    taken : (w : List ℕ) → Plain w → take_word w ≡ w
    taken [] h = refl
    taken (c ∷ w) h = rw h.0 (ap (◌∷◌ c) (taken w h.1))

    dropped : (w : List ℕ) → Plain w → drop_word w ≡ []
    dropped [] h = refl
    dropped (c ∷ w) h = rw h.0 (dropped w h.1)

token_filled : (l : List ℕ) → 0 < length l → token l ≡ l ∷ []
token_filled [] h = elim h [ ]
token_filled (c ∷ l) h = refl

module _ (sep : ℕ → Bool) where
  split_tokens-append :
      (seen l rest : List ℕ)
      → All (λ c. sep c ≡ false) l
      → split_tokens sep seen (l ++ rest) ≡ split_tokens sep (seen ++ l) rest
  unfolding split_tokens
  split_tokens-append seen [] rest h = rw append-nil refl
  split_tokens-append seen (c ∷ l) rest h =
      rw (h.0, split_tokens)
        (split_tokens-append (seen ++ (c ∷ [])) l rest h.1
          ∙ ap (λ s. split_tokens sep s rest) (append_assoc seen (c ∷ []) l))

  -- strtok reads a line that two separators end.
  pub split_tokens-line :
      (l rest : List ℕ) (x y : ℕ)
      → All (λ c. sep c ≡ false) l
      → 0 < length l
      → sep x ≡ true
      → sep y ≡ true
      → split_tokens sep [] (l ++ (x ∷ y ∷ rest)) ≡ l ∷ split_tokens sep [] rest
  unfolding split_tokens
  split_tokens-line l rest x y h filled hx hy =
      split_tokens-append [] l (x ∷ y ∷ rest) h
      ∙ rw (hx, split_tokens)
          (rw hy (ap (λ t. t ++ split_tokens sep [] rest) (token_filled l filled)))

  pub split_tokens-last :
      (l : List ℕ) → All (λ c. sep c ≡ false) l → 0 < length l → split_tokens sep [] l ≡ l ∷ []
  unfolding split_tokens
  split_tokens-last l h filled =
      ap (split_tokens sep []) (sym (append-nil l))
      ∙ split_tokens-append [] l [] h
      ∙ token_filled l filled

-- A number of at most `suc f` digits.
abbrev Fits : ℕ → ℕ → Type 0
Fits zero n = n < 10
Fits (suc f) n = Fits f (n / 10)

number-decimal_fuel :
    (f n : ℕ) (acc : List ℕ) → Fits f n → number 0 (decimal_fuel (suc f) n acc) ≡ number n acc
unfolding decimal_fuel
number-decimal_fuel zero n acc h =
    let e : 0 * 10 + (48 + n % 10 - 48) ≡ n = omega (arith, h) in
    let t : ltb n 10 ≡ true = ground arith in rw t (ap (λ k. number k acc) e)
number-decimal_fuel (suc f) n acc h = elim (Bool-cases (ltb n 10)) [
  | inl t ↦
      (let e : 0 * 10 + (48 + n % 10 - 48) ≡ n = ground (arith, t) in
        rw t (ap (λ k. number k acc) e))
  | inr t ↦
      (let e : n / 10 * 10 + (48 + n % 10 - 48) ≡ n = omega arith in
        rw (t, decimal_fuel)
          (number-decimal_fuel f (n / 10) ((48 + n % 10) ∷ acc) h ∙ ap (λ k. number k acc) e))
]

-- The digits of a number that an `int` can hold are read as the number.
pub number-decimal : (n : ℕ) → n < 10 ^ 10 → number 0 (decimal n) ≡ n
unfolding decimal
number-decimal n h = number-decimal_fuel 9 n [] (omega (arith, h))
