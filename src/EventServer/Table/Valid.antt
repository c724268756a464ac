-- ===== src/EventServer/Table/Valid.antt =====
-- labs/event-webserver/http_server.c, `http_server_run`: the clients and their slots agree.
use mathlib.Core.Path.{subst}
use cs_360_internet_programm.Base.Families.{update, update_same, update_other}
use cs_360_internet_programm.Base.{
  ℕ, zero, suc, ◌≤◌, ◌≡◌, ◌≢◌, refl, ap, ◌∙◌, arith, inl, inr, Bool, true, false, ◌==◌, Option,
  none, some, List, [], length, length-replicate, replicate, Bool-cases, All,
}
use cs_360_internet_programm.Base.Run.{Run, ok, checked, ◌>>=◌}
use cs_360_internet_programm.EventServer.{max_clients}
use cs_360_internet_programm.EventServer.Table.{
  Connected, Server, Interest, input, empty_server, get_new_client, remove_slot, accept_client,
  release, sweep, is_disconnected, settle,
}
use cs_360_internet_programm.EventServer.Table.Moves.{waits}
use cs_360_internet_programm.EventServer.Table.Handled.{Settled}
use cs_360_internet_programm.EventServer.Table.Slots.{
  Live, Slot, Absent, Distinct, freed-Slot, stored-Slot, dead-Absent, add_slot-length,
  add_slot-Distinct, add_slot-Slot, remove_slot-length, remove_slot-gone, remove_slot-Distinct,
  remove_slot-Slot,
}
use cs_360_internet_programm.EventServer.Table.Swept.{Swept, Young-Slot, sweep_slots-Swept}

-- What the heap and epoll have for a pointer: nothing, or a client and what it waits for.
pub data Registered (h : Option Connected) (w : Option Interest) : Type 0 where
  gone : h ≡ none → w ≡ none → Registered h w
  live :
      (x : Connected) (i : Interest)
      → h ≡ some x
      → w ≡ some i
      → waits i x.client.state ≡ true
      → Registered h w

pub record IsValid (s : Server) : Type 0 where
  pub slots : length s.table ≡ max_clients
  pub held : All (Slot s.heap) s.table
  pub once : Distinct s.table
  pub each : (p : ℕ) → Registered (s.heap p) (s.watched p)
  pub fresh : (p : ℕ) → s.allocated ≤ p → s.heap p ≡ none

pub Registered-at :
    {h h' : Option Connected} {w w' : Option Interest}
    → h' ≡ h
    → w' ≡ w
    → Registered h w
    → Registered h' w'
Registered-at e f (gone a b) = gone (e ∙ a) (f ∙ b)
Registered-at e f (live x i a b v) = live x i (e ∙ a) (f ∙ b) v

-- The pointer `p` gets a new entry, the others keep theirs.
pub updated-Registered :
    (p : ℕ) (h : Option Connected) (w : Option Interest) (s : Server)
    → Registered h w
    → ((q : ℕ) → Registered (s.heap q) (s.watched q))
    → (q : ℕ) → Registered (update p h s.heap q) (update p w s.watched q)
updated-Registered p h w s new old q = elim (Bool-cases (q == p)) [
  | inl e ↦ Registered-at (rw e refl) (rw e refl) new
  | inr f ↦ Registered-at (rw f refl) (rw f refl) (old q)
]

pub replicate-free :
    (n : ℕ) (heap : ℕ → Option Connected)
    → All (Slot heap) (replicate n none) × Distinct (replicate n none)
replicate-free zero heap = (tt, tt)
replicate-free (suc n) heap = ((tt, (replicate-free n heap).0), (replicate-free n heap).1)

pub empty_server-IsValid : IsValid empty_server
empty_server-IsValid = record {
  slots = length-replicate {A = Option ℕ} max_clients none;
  held = (replicate-free max_clients (λ p. none)).0;
  once = (replicate-free max_clients (λ p. none)).1;
  each = λ p. gone refl refl;
  fresh = λ p h. refl;
}

pub accept_client-IsValid :
    (now : ℕ) (came : Bool) (s : Server) → IsValid s → IsValid (accept_client now came s)
unfolding accept_client
accept_client-IsValid now false s v = v
accept_client-IsValid now true s v = record {
  slots = add_slot-length s.allocated s.table ∙ v.slots;
  held =
      add_slot-Slot s.allocated _ s.table (_, update_same s.allocated (some new) s.heap)
        (stored-Slot s.heap s.allocated new s.table v.held);
  once =
      add_slot-Distinct s.allocated s.table
        (dead-Absent s.heap s.allocated s.table (v.fresh s.allocated (omega arith)) v.held) v.once;
  each =
      updated-Registered s.allocated (some new) (some input) s (live new input refl refl refl)
        v.each;
  fresh = λ p h.
      update_other s.allocated p (some new) s.heap (omega (arith, h))
      ∙ v.fresh p (omega (arith, h));
}
  where
    new : Connected
    new = record { client = get_new_client now; sent = [] }

abbrev pub ValidOk : Run Server → Type 0
ValidOk r = (s' : Server) × (r ≡ ok s') × IsValid s'

-- The sweep ends well, with what becomes of the slots.
pub sweep-Swept :
    (now : ℕ) (s : Server)
    → IsValid s
    → (t : List (Option ℕ)) × (s' : Server) × (sweep now s ≡ ok (record s' { table = t }))
      × IsValid (record s' { table = t })
      × Swept now s.table s t s'
unfolding sweep
sweep-Swept now s v =
    let (t, s', e, w) = sweep_slots-Swept now s.table s v.held v.once in
    (
      t,
      s',
      rw e refl,
      record {
        slots = w.slots ∙ v.slots;
        held = Young-Slot now s'.heap t w.live;
        once = w.once;
        each = λ p. elim (w.either p) [
          | inl same ↦ Registered-at same.0 same.1 (v.each p)
          | inr h ↦ gone h.0 h.1
        ];
        fresh = λ p h. elim (w.either p) [
          | inl same ↦ same.0 ∙ v.fresh p (subst (λ n. n ≤ p) w.counter h)
          | inr g ↦ g.0
        ];
      },
      w,
    )

pub sweep-IsValid : (now : ℕ) (s : Server) → IsValid s → ValidOk (sweep now s)
sweep-IsValid now s v =
    let (t, s', e, v', w) = sweep-Swept now s v in (record s' { table = t }, e, v')

pub Live-below : (p q : ℕ) (s : Server) → IsValid s → Live s.heap p → s.allocated ≤ q → q ≢ p
Live-below p q s v l h e =
    absurd (let at_p : s.heap q ≡ some l.0 = ap s.heap e ∙ l.1 in cc (v.fresh q h, at_p))

pub settle-IsValid :
    (p : ℕ) (x : Connected) (i : Interest) (s : Server)
    → IsValid s
    → Live s.heap p
    → Settled (x, i)
    → ValidOk (settle p x i s)
unfolding settle release
settle-IsValid p x i s v l h = elim (Bool-cases (is_disconnected x.client.state)) [
  | inl d ↦
      (let stored : Server = record s {
        heap = update p (some x) s.heap;
        watched = update p (some i) s.watched;
        table = remove_slot p s.table;
      } in
        let away : Absent p (remove_slot p s.table) = remove_slot-gone p s.table v.once in
        (
          record stored {
            heap = update p none stored.heap;
            watched = update p none stored.watched;
          },
          rw (d, settle)
              (ap
                (λ o. checked o >>= λ y. ok (record stored {
                  heap = update p none stored.heap;
                  watched = update p none stored.watched;
                }))
                (update_same p (some x) s.heap)),
          record {
            slots = remove_slot-length p s.table ∙ v.slots;
            held = freed-Slot stored.heap p (remove_slot p s.table) away (
                stored-Slot s.heap p x (remove_slot p s.table)
                  (remove_slot-Slot p s.heap s.table v.held));
            once = remove_slot-Distinct p s.table v.once;
            each = λ q. elim (Bool-cases (q == p)) [
              | inl e ↦ gone (rw e refl) (rw e refl)
              | inr f ↦ Registered-at (rw f refl) (rw f refl) (v.each q)
            ];
            fresh = λ q k.
                update_other p q none stored.heap (Live-below p q s v l k)
                ∙ update_other p q (some x) s.heap (Live-below p q s v l k)
                ∙ v.fresh q k;
          },
        ))
  | inr c ↦ (
    _,
    rw (c, settle) refl,
    record {
      slots = v.slots;
      held = stored-Slot s.heap p x s.table v.held;
      once = v.once;
      each =
          updated-Registered p (some x) (some i) s
            (live x i refl refl (elim h [ inl w ↦ w | inr d ↦ absurd (cc (c, d)) ])) v.each;
      fresh = λ q k. update_other p q (some x) s.heap (Live-below p q s v l k) ∙ v.fresh q k;
    },
  )
]
