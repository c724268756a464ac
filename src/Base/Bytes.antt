-- ===== src/Base/Bytes.antt =====
-- Arrays of bytes as lists of numbers: `memcpy` into and out of them, and big-endian fields.
use cs_360_internet_programm.Base.Lists.{length, drop}
use cs_360_internet_programm.Base.Tests.{Option-cases}
use mathlib.Core.Logic.{◌⊎◌, inl, inr}
use Prim.Native.Nat.{ℕ, zero, suc, ◌+◌, ◌/◌, ◌%◌, ◌^◌, ◌≤◌}
use mathlib.Core.Path.{◌≡◌, refl, sym, ap}
use mathlib.Core.List.{List, [], ◌∷◌, ◌++◌, append_assoc}
use mathlib.Core.Option.{Option, none, some}
use native.Mathlib.Omega.{arith}

-- Prepends to the result of a write.
abbrev pub cons? : ℕ → Option (List ℕ) → Option (List ℕ)
cons? x none = none
cons? x (some xs) = some (x ∷ xs)

-- `memcpy(buffer + offset, bytes, n)`; `none` is a write past the end.
pub overwrite : List ℕ → List ℕ → Option (List ℕ)
overwrite xs [] = some xs
overwrite [] (b ∷ bs) = none
overwrite (x ∷ xs) (b ∷ bs) = cons? b (overwrite xs bs)

unfoldable pub write_at : List ℕ → ℕ → List ℕ → Option (List ℕ)
unfolding overwrite
write_at xs zero bs = overwrite xs bs
write_at [] (suc o) bs = none
write_at (x ∷ xs) (suc o) bs = cons? x (write_at xs o bs)

-- `n` bytes from the start of the array, and from an offset; `none` is a read past the end.
pub prefix : List ℕ → ℕ → Option (List ℕ)
prefix xs zero = some []
prefix [] (suc n) = none
prefix (x ∷ xs) (suc n) = cons? x (prefix xs n)

unfoldable pub slice : List ℕ → ℕ → ℕ → Option (List ℕ)
unfolding prefix
slice xs zero n = prefix xs n
slice [] (suc o) n = none
slice (x ∷ xs) (suc o) n = slice xs o n

-- The bytes of a 16-bit and of a 32-bit number in network order.
abbrev pub be16 : ℕ → List ℕ
be16 n = (n / 256 % 256) ∷ (n % 256) ∷ []

abbrev pub be32 : ℕ → List ℕ
be32 n = (n / 2 ^ 24 % 256) ∷ (n / 2 ^ 16 % 256) ∷ (n / 256 % 256) ∷ (n % 256) ∷ []

-- A write replaces just as many bytes as it has, if there is room for them.
pub overwrite-drop :
    (xs bs : List ℕ) → length bs ≤ length xs → overwrite xs bs ≡ some (bs ++ drop (length bs) xs)
unfolding overwrite
overwrite-drop xs [] h = refl
overwrite-drop [] (b ∷ bs) h = absurd (omega arith)
overwrite-drop (x ∷ xs) (b ∷ bs) h = ap (cons? b) (overwrite-drop xs bs (omega arith))

pub write_at-append :
    (pre xs bs : List ℕ)
    → length bs ≤ length xs
    → write_at (pre ++ xs) (length pre) bs ≡ some (pre ++ (bs ++ drop (length bs) xs))
unfolding write_at
write_at-append [] xs bs h = overwrite-drop xs bs h
write_at-append (x ∷ pre) xs bs h = ap (cons? x) (write_at-append pre xs bs h)

pub prefix-append : (bs rest : List ℕ) → prefix (bs ++ rest) (length bs) ≡ some bs
unfolding prefix
prefix-append [] rest = refl
prefix-append (b ∷ bs) rest = ap (cons? b) (prefix-append bs rest)

pub slice-append :
    (pre bs rest : List ℕ) → slice (pre ++ (bs ++ rest)) (length pre) (length bs) ≡ some bs
unfolding slice
slice-append [] bs rest = prefix-append bs rest
slice-append (x ∷ pre) bs rest = slice-append pre bs rest

overwrite-length :
    (xs bs : List ℕ) {ys : List ℕ}
    → overwrite xs bs ≡ some ys
    → (length ys ≡ length xs) × (length bs ≤ length xs)
unfolding overwrite
overwrite-length xs [] h = ground arith
overwrite-length [] (b ∷ bs) h = absurd (cc)
overwrite-length (x ∷ xs) (b ∷ bs) h = elim (Option-cases (overwrite xs bs)) [
  | inl n ↦ absurd (ground (arith, n))
  | inr (zs, e) ↦ ground (arith, e, overwrite-length xs bs e)
]

-- A write keeps the size of the array, and ends inside it.
pub write_at-length :
    (xs : List ℕ) (o : ℕ) (bs : List ℕ) {ys : List ℕ}
    → write_at xs o bs ≡ some ys
    → (length ys ≡ length xs) × ((o + length bs ≤ length xs) ⊎ (length bs ≡ 0))
unfolding write_at
write_at-length xs zero bs h = let (p, q) = overwrite-length xs bs h in (p, inl (omega (arith, q)))
write_at-length [] (suc o) bs h = absurd (cc)
write_at-length (x ∷ xs) (suc o) bs h = elim (Option-cases (write_at xs o bs)) [
  | inl n ↦ absurd (ground (arith, n))
  | inr (zs, e) ↦ ground (arith, e, write_at-length xs o bs e)
]

-- A write right behind a known front, which it extends.
pub write_next :
    (b pre xs bs : List ℕ) (o : ℕ)
    → b ≡ pre ++ xs
    → o ≡ length pre
    → length bs ≤ length xs
    → write_at b o bs ≡ some ((pre ++ bs) ++ drop (length bs) xs)
write_next b pre xs bs o e p room =
    rw (e, p, write_at-append pre xs bs room)
      (ap some (sym (append_assoc pre bs (drop (length bs) xs))))
