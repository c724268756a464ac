-- ===== src/EventServer/Table/Slots.antt =====
-- labs/event-webserver/http_server.c, the loops of `http_server_run` over the slots for clients.
use mathlib.Core.Path.{subst}
use cs_360_internet_programm.Base.Families.{update, update_other}
use cs_360_internet_programm.Base.{
  ℕ, suc, ◌≡◌, ◌≢◌, refl, sym, ap, ◌∙◌, arith, inl, inr, Option, none, some, List, [], ◌∷◌, length,
  ◌==◌, Bool-cases, All,
}
use cs_360_internet_programm.EventServer.Table.{Connected, add_slot, remove_slot}

abbrev pub Live : (ℕ → Option Connected) → ℕ → Type 0
Live heap p = (x : Connected) × (heap p ≡ some x)

-- A slot is free or points to a client that was not freed.
abbrev pub Slot : (ℕ → Option Connected) → Option ℕ → Type 0
Slot heap none = Unit
Slot heap (some p) = Live heap p

abbrev pub Absent : ℕ → List (Option ℕ) → Type 0
Absent p = All (λ o. o ≢ some p)

-- No client has two slots.
abbrev pub Distinct : List (Option ℕ) → Type 0
Distinct [] = Unit
Distinct (none ∷ t) = Distinct t
Distinct (some p ∷ t) = Absent p t × Distinct t

-- Slots that are live stay so when another client is freed, and when a client is stored.
pub freed-Slot :
    (heap : ℕ → Option Connected) (p : ℕ) (t : List (Option ℕ))
    → Absent p t
    → All (Slot heap) t
    → All (Slot (update p none heap)) t
freed-Slot heap p [] a h = tt
freed-Slot heap p (none ∷ t) a h = (tt, freed-Slot heap p t a.1 h.1)
freed-Slot heap p (some q ∷ t) a h = (
  (h.0.0, update_other p q none heap (λ e. a.0 (ap some e)) ∙ h.0.1),
  freed-Slot heap p t a.1 h.1,
)

pub stored-Live :
    (heap : ℕ → Option Connected) (p q : ℕ) (x : Connected)
    → Live heap q
    → Live (update p (some x) heap) q
stored-Live heap p q x h = elim (Bool-cases (q == p)) [
  | inl t ↦ (x, rw t refl)
  | inr f ↦ (h.0, rw f h.1)
]

pub stored-Slot :
    (heap : ℕ → Option Connected) (p : ℕ) (x : Connected) (t : List (Option ℕ))
    → All (Slot heap) t
    → All (Slot (update p (some x) heap)) t
stored-Slot heap p x [] h = tt
stored-Slot heap p x (none ∷ t) h = (tt, stored-Slot heap p x t h.1)
stored-Slot heap p x (some q ∷ t) h = (stored-Live heap p q x h.0, stored-Slot heap p x t h.1)

-- A pointer at which there is nothing is in no slot.
pub dead-Absent :
    (heap : ℕ → Option Connected) (p : ℕ) (t : List (Option ℕ))
    → heap p ≡ none
    → All (Slot heap) t
    → Absent p t
dead-Absent heap p [] e h = tt
dead-Absent heap p (none ∷ t) e h = ((λ d. absurd (cc)), dead-Absent heap p t e h.1)
dead-Absent heap p (some q ∷ t) e h =
    let found : heap q ≡ some h.0.0 = h.0.1 in
    (
      (λ d. let same : q ≡ p = cc in absurd (cc (ap heap same, found, e))),
      dead-Absent heap p t e h.1,
    )

module _ (p : ℕ) where
  pub add_slot-length : (t : List (Option ℕ)) → length (add_slot p t) ≡ length t
  unfolding add_slot
  add_slot-length [] = refl
  add_slot-length (none ∷ t) = refl
  add_slot-length (some q ∷ t) = ap suc (add_slot-length t)

  add_slot-Absent : (q : ℕ) (t : List (Option ℕ)) → q ≢ p → Absent q t → Absent q (add_slot p t)
  unfolding add_slot
  add_slot-Absent q [] n a = tt
  add_slot-Absent q (none ∷ t) n a = ((λ e. n (sym (cc))), a.1)
  add_slot-Absent q (some r ∷ t) n a = (a.0, add_slot-Absent q t n a.1)

  pub add_slot-Distinct : (t : List (Option ℕ)) → Absent p t → Distinct t → Distinct (add_slot p t)
  unfolding add_slot
  add_slot-Distinct [] a d = tt
  add_slot-Distinct (none ∷ t) a d = (a.1, d)
  add_slot-Distinct (some q ∷ t) a d =
      (add_slot-Absent q t (λ e. a.0 (ap some e)) d.0, add_slot-Distinct t a.1 d.1)

  pub add_slot-Slot :
      (heap : ℕ → Option Connected) (t : List (Option ℕ))
      → Live heap p
      → All (Slot heap) t
      → All (Slot heap) (add_slot p t)
  unfolding add_slot
  add_slot-Slot heap [] l h = tt
  add_slot-Slot heap (none ∷ t) l h = (l, h.1)
  add_slot-Slot heap (some q ∷ t) l h = (h.0, add_slot-Slot heap t l h.1)

  pub remove_slot-length : (t : List (Option ℕ)) → length (remove_slot p t) ≡ length t
  unfolding remove_slot
  remove_slot-length [] = refl
  remove_slot-length (none ∷ t) = ap suc (remove_slot-length t)
  remove_slot-length (some q ∷ t) = elim (Bool-cases (q == p)) [
    | inl e ↦ rw e refl
    | inr f ↦ rw f (ap suc (remove_slot-length t))
  ]

  remove_slot-Absent : (q : ℕ) (t : List (Option ℕ)) → Absent q t → Absent q (remove_slot p t)
  unfolding remove_slot
  remove_slot-Absent q [] a = tt
  remove_slot-Absent q (none ∷ t) a = (a.0, remove_slot-Absent q t a.1)
  remove_slot-Absent q (some r ∷ t) a = elim (Bool-cases (r == p)) [
    | inl e ↦ rw e ((λ d. absurd (cc)), a.1)
    | inr f ↦ rw f (a.0, remove_slot-Absent q t a.1)
  ]

  -- The client is in no slot behind the loop.
  pub remove_slot-gone : (t : List (Option ℕ)) → Distinct t → Absent p (remove_slot p t)
  unfolding remove_slot
  remove_slot-gone [] d = tt
  remove_slot-gone (none ∷ t) d = ((λ e. absurd (cc)), remove_slot-gone t d)
  remove_slot-gone (some q ∷ t) d = elim (Bool-cases (q == p)) [
    | inl e ↦ rw e ((λ d. absurd (cc)), subst (λ r. Absent r t) (ground (arith, e)) d.0)
    | inr f ↦
        rw f
          ((λ e. let same : q ≡ p = cc in absurd (ground (arith, f, same))), remove_slot-gone t d.1)
  ]

  pub remove_slot-Distinct : (t : List (Option ℕ)) → Distinct t → Distinct (remove_slot p t)
  unfolding remove_slot
  remove_slot-Distinct [] d = tt
  remove_slot-Distinct (none ∷ t) d = remove_slot-Distinct t d
  remove_slot-Distinct (some q ∷ t) d = elim (Bool-cases (q == p)) [
    | inl e ↦ rw e d.1
    | inr f ↦ rw f (remove_slot-Absent q t d.0, remove_slot-Distinct t d.1)
  ]

  pub remove_slot-Slot :
      (heap : ℕ → Option Connected) (t : List (Option ℕ))
      → All (Slot heap) t
      → All (Slot heap) (remove_slot p t)
  unfolding remove_slot
  remove_slot-Slot heap [] h = tt
  remove_slot-Slot heap (none ∷ t) h = (tt, remove_slot-Slot heap t h.1)
  remove_slot-Slot heap (some q ∷ t) h = elim (Bool-cases (q == p)) [
    | inl e ↦ rw e (tt, h.1)
    | inr f ↦ rw f (h.0, remove_slot-Slot heap t h.1)
  ]
