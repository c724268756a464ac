-- ===== src/EventServer/Table/Swept.antt =====
-- labs/event-webserver/http_server.c, `http_server_run`: the sweep over the slots.
use mathlib.Core.Path.{subst}
use cs_360_internet_programm.Base.Families.{update, update_same, update_other}
use cs_360_internet_programm.Base.{
  ℕ, suc, ◌≡◌, ◌≢◌, refl, sym, ap, ◌∙◌, ◌⊎◌, inl, inr, true, false, Option, none, some, List, [],
  ◌∷◌, length, Bool-cases, All, ◌==◌, arith,
}
use cs_360_internet_programm.Base.Run.{ok}
use cs_360_internet_programm.EventServer.Table.{
  Connected, Server, release, is_expired, visit_slot, sweep_slots,
}
use cs_360_internet_programm.EventServer.Table.Slots.{Live, Slot, Absent, Distinct, freed-Slot}

-- A pointer is as it was, or it was freed and is no longer watched.
abbrev pub Same : Server → Server → ℕ → Type 0
Same s s' q = (s'.heap q ≡ s.heap q) × (s'.watched q ≡ s.watched q)

abbrev pub Gone : Server → ℕ → Type 0
Gone s q = (s.heap q ≡ none) × (s.watched q ≡ none)

-- A slot is free, or its client was active in the last five seconds.
abbrev pub Young : ℕ → (ℕ → Option Connected) → Option ℕ → Type 0
Young now heap none = Unit
Young now heap (some p) = (x : Connected) × (heap p ≡ some x) × (is_expired now x.client ≡ false)

pub Young-Slot :
    (now : ℕ) (heap : ℕ → Option Connected) (t : List (Option ℕ))
    → All (Young now heap) t
    → All (Slot heap) t
Young-Slot now heap [] h = tt
Young-Slot now heap (none ∷ t) h = (tt, Young-Slot now heap t h.1)
Young-Slot now heap (some p ∷ t) h = ((h.0.0, h.0.1), Young-Slot now heap t h.1)

pub record Swept (now : ℕ) (t : List (Option ℕ)) (s : Server) (t' : List (Option ℕ)) (s' : Server)
    : Type 0 where
  pub slots : length t' ≡ length t
  pub live : All (Young now s'.heap) t'
  pub once : Distinct t'
  pub absent : (q : ℕ) → Absent q t → Absent q t'
  pub kept : (q : ℕ) → Absent q t → Same s s' q
  pub either : (q : ℕ) → Same s s' q ⊎ Gone s' q
  pub counter : s'.allocated ≡ s.allocated

abbrev freed : ℕ → Server → Server
freed p s = record s { heap = update p none s.heap; watched = update p none s.watched }

freed-Same : (p q : ℕ) (s : Server) → q ≢ p → Same s (freed p s) q
freed-Same p q s n = (update_other p q none s.heap n, update_other p q none s.watched n)

Same-trans : (r s t : Server) (q : ℕ) → Same r s q → Same s t q → Same r t q
Same-trans r s t q h k = (k.0 ∙ h.0, k.1 ∙ h.1)

abbrev Sweeps : ℕ → List (Option ℕ) → Server → Type 0
Sweeps now t s =
    (t' : List (Option ℕ)) × (s' : Server) × (sweep_slots now t s ≡ ok (t', s'))
    × Swept now t s t' s'

release-freed : (p : ℕ) (s : Server) → Live s.heap p → release p s ≡ ok (freed p s)
unfolding release
release-freed p s h = rw h.1 refl

visit_slot-expired :
    (now : ℕ) (p : ℕ) (x : Connected) (s : Server)
    → Live s.heap p
    → is_expired now x.client ≡ true
    → visit_slot now p x s ≡ ok (none, freed p s)
unfolding visit_slot
visit_slot-expired now p x s h e = rw e (rw (release-freed p s h) refl)

visit_slot_fresh :
    (now : ℕ) (p : ℕ) (x : Connected) (s : Server)
    → is_expired now x.client ≡ false
    → visit_slot now p x s ≡ ok (some p, s)
unfolding visit_slot
visit_slot_fresh now p x s e = rw e refl

-- The sweep goes on behind a slot.
sweep_slots-some :
    (now : ℕ) (p : ℕ) (t t' : List (Option ℕ)) (s s' s'' : Server) (o : Option ℕ)
    (h : Live s.heap p)
    → visit_slot now p h.0 s ≡ ok (o, s')
    → sweep_slots now t s' ≡ ok (t', s'')
    → sweep_slots now (some p ∷ t) s ≡ ok (o ∷ t', s'')
unfolding sweep_slots
sweep_slots-some now p t t' s s' s'' o h e f = rw h.1 (rw e (rw f refl))

freed-either :
    (p : ℕ) (t : List (Option ℕ)) (s s' : Server)
    → Absent p t
    → ((q : ℕ) → Absent q t → Same (freed p s) s' q)
    → ((q : ℕ) → Same (freed p s) s' q ⊎ Gone s' q)
    → (q : ℕ) → Same s s' q ⊎ Gone s' q
freed-either p t s s' a kept either q = elim (Bool-cases (q == p)) [
  | inl e ↦ inr (
      subst (Gone s') (sym (ground (arith, e))) (elim (either p) [
        | inl h ↦ (h.0 ∙ update_same p none s.heap, h.1 ∙ update_same p none s.watched)
        | inr h ↦ h
      ]))
  | inr f ↦ elim (either q) [
    | inl h ↦
        inl
          (Same-trans s (freed p s) s' q (freed-Same p q s (λ e. absurd (ground (arith, f, e)))) h)
    | inr h ↦ inr h
  ]
]

pub sweep_slots-Swept :
    (now : ℕ) (t : List (Option ℕ)) (s : Server) → All (Slot s.heap) t → Distinct t → Sweeps now t s
unfolding sweep_slots release
sweep_slots-Swept now [] s h d = (
  [],
  s,
  refl,
  record {
    slots = refl;
    live = tt;
    once = tt;
    absent = λ q a. a;
    kept = λ q a. (refl, refl);
    either = λ q. inl (refl, refl);
    counter = refl;
  },
)
sweep_slots-Swept now (none ∷ t) s h d =
    let (t', s', e, w) = sweep_slots-Swept now t s h.1 d in
    (
      none ∷ t',
      s',
      rw e refl,
      record {
        slots = ap suc w.slots;
        live = (tt, w.live);
        once = w.once;
        absent = λ q a. (a.0, w.absent q a.1);
        kept = λ q a. w.kept q a.1;
        either = w.either;
        counter = w.counter;
      },
    )
sweep_slots-Swept now (some p ∷ t) s h d = elim (Bool-cases (is_expired now h.0.0.client)) [
  | inl x ↦
      (let (t', s', e, w) =
          sweep_slots-Swept now t (freed p s) (freed-Slot s.heap p t d.0 h.1) d.1 in
        (
          none ∷ t',
          s',
          sweep_slots-some now p t t' s (freed p s) s' none h.0
              (visit_slot-expired now p h.0.0 s h.0 x) e,
          record {
            slots = ap suc w.slots;
            live = (tt, w.live);
            once = w.once;
            absent = λ q a. ((λ e. absurd (cc)), w.absent q a.1);
            kept = λ q a.
                Same-trans s (freed p s) s' q (freed-Same p q s (λ e. a.0 (ap some (sym e))))
                  (w.kept q a.1);
            either = freed-either p t s s' d.0 w.kept w.either;
            counter = w.counter;
          },
        ))
  | inr x ↦
      (let (t', s', e, w) = sweep_slots-Swept now t s h.1 d.1 in
        (
          some p ∷ t',
          s',
          sweep_slots-some now p t t' s s s' (some p) h.0 (visit_slot_fresh now p h.0.0 s x) e,
          record {
            slots = ap suc w.slots;
            live = ((h.0.0, (w.kept p d.0).0 ∙ h.0.1, x), w.live);
            once = (w.absent p d.0, w.once);
            absent = λ q a. (a.0, w.absent q a.1);
            kept = λ q a. w.kept q a.1;
            either = w.either;
            counter = w.counter;
          },
        ))
]
