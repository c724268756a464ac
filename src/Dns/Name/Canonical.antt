-- ===== src/Dns/Name/Canonical.antt =====
-- labs/dnsserverlab-handout/dns.c, `canonicalize_name`.
use cs_360_internet_programm.Base.{
  ℕ, ◌≤◌, ◌≡◌, ◌≢◌, refl, sym, arith, true, false, List, [], ◌∷◌, ◌++◌, map, length, ap,
  length-append, All, Bool-cases, inl, inr, ◌↔◌,
}
use cs_360_internet_programm.Dns.Name.{dot, lower, same_string, cut_dot, canonicalize_name}

pub same_string_iff : (a b : List ℕ) → (same_string a b ≡ true) ↔ (a ≡ b)
unfolding same_string
same_string_iff [] [] = (λ h. refl, λ h. refl)
same_string_iff [] (b ∷ bs) = (λ h. absurd (cc), λ h. absurd (cc))
same_string_iff (a ∷ as') [] = (λ h. absurd (cc), λ h. absurd (cc))
same_string_iff (a ∷ as') (b ∷ bs) =
    let (f, g) = same_string_iff as' bs in (λ h. ground (arith, f), λ h. ground (arith, g))

abbrev pub IsUpper : ℕ → Type 0
IsUpper c = (b'A' ≤ c) × (c ≤ b'Z')

map-lower : (s : List ℕ) → All (λ c. ¬ IsUpper c) (map lower s)
map-lower [] = tt
map-lower (c ∷ s) = (λ u. ground arith, map-lower s)

cut_dot-append : (c : ℕ) (s : List ℕ) → cut_dot ((c ∷ s) ++ (dot ∷ [])) ≡ c ∷ s
unfolding cut_dot
cut_dot-append c [] = refl
cut_dot-append c (d ∷ s) = ap (λ t. c ∷ t) (cut_dot-append d s)

cut_dot-plain : (s : List ℕ) (c : ℕ) → c ≢ dot → cut_dot (s ++ (c ∷ [])) ≡ s ++ (c ∷ [])
unfolding cut_dot
cut_dot-plain [] c h = ground arith
cut_dot-plain (d ∷ []) c h = ap (λ t. d ∷ t) (cut_dot-plain [] c h)
cut_dot-plain (d ∷ e ∷ s) c h = ap (λ t. d ∷ t) (cut_dot-plain (e ∷ s) c h)

last_of_one : (s : List ℕ) (c : ℕ) → s ++ (c ∷ []) ≡ dot ∷ [] → c ≡ dot
last_of_one [] c e = ground arith
last_of_one (d ∷ s) c e = absurd (omega (arith, ap length e, length-append s (c ∷ [])))

-- No name but the root's compares equal to the root's.
not_root : (s : List ℕ) → s ≢ dot ∷ [] → same_string s (dot ∷ []) ≡ false
not_root s h = elim (Bool-cases (same_string s (dot ∷ []))) [
  | inl t ↦ absurd (h ((same_string_iff s (dot ∷ [])).0 t))
  | inr t ↦ t
]

-- A name that does not end in a dot is made lower case, has no upper-case letter then, and the same
-- name with a dot behind it becomes the same.
pub canonicalize_name_lem :
    (s : List ℕ) (c : ℕ)
    → c ≢ dot
    → All (λ x. ¬ IsUpper x) (canonicalize_name (s ++ (c ∷ [])))
      × (canonicalize_name (s ++ (c ∷ [])) ≡ map lower (s ++ (c ∷ [])))
      × (canonicalize_name ((s ++ (c ∷ [])) ++ (dot ∷ [])) ≡ canonicalize_name (s ++ (c ∷ [])))
unfolding canonicalize_name
canonicalize_name_lem s c h =
    (rw lowered (map-lower (s ++ (c ∷ []))), lowered, rw (not_root dotted far, cut) (sym lowered))
  where
    dotted : List ℕ
    dotted = (s ++ (c ∷ [])) ++ (dot ∷ [])

    lowered : canonicalize_name (s ++ (c ∷ [])) ≡ map lower (s ++ (c ∷ []))
    lowered = rw (not_root (s ++ (c ∷ [])) (λ e. h (last_of_one s c e)), cut_dot-plain s c h)

    far : dotted ≢ dot ∷ []
    far e =
        omega
          (arith, ap length e, length-append (s ++ (c ∷ [])) (dot ∷ []), length-append s (c ∷ []))

    cut : cut_dot dotted ≡ s ++ (c ∷ [])
    cut = cut_dot_after s
      where
        cut_dot_after : (t : List ℕ) → cut_dot ((t ++ (c ∷ [])) ++ (dot ∷ [])) ≡ t ++ (c ∷ [])
        cut_dot_after [] = cut_dot-append c []
        cut_dot_after (d ∷ t) = cut_dot-append d (t ++ (c ∷ []))
