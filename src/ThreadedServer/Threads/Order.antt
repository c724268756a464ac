-- ===== src/ThreadedServer/Threads/Order.antt =====
-- labs/threaded-webserver/http_server.c: the clients that are accepted, queued and taken.
use mathlib.Core.Path.{subst}
use mathlib.Core.List.{append_assoc, append-nil}
use cs_360_internet_programm.Base.{
  ℕ, ◌<◌, ◌≡◌, refl, sym, ap, ◌∙◌, arith, inl, inr, Bool, List, [], ◌∷◌, ◌++◌, length, ltb,
  Bool-cases, ltb→lt,
}
use cs_360_internet_programm.Base.Run.{ok, ok-inj}
use cs_360_internet_programm.ThreadedServer.{QueueItem}
use cs_360_internet_programm.ThreadedServer.Queue.{push, Holds, push-Holds, pop-Holds}
use cs_360_internet_programm.ThreadedServer.Threads.{
  World, MainPc, WorkerPc, MainMove, WorkerMove, System, Step, Reached, start_system, main_moves,
  worker_moves, interrupt, here, next,
}
use cs_360_internet_programm.ThreadedServer.Threads.Counts.{pop-eq-ok}

-- The client that the main thread has accepted, and has not pushed.
abbrev pub pending : MainPc → List QueueItem
pending (MainPc.at_lock item) = item ∷ []
pending (MainPc.at_push item) = item ∷ []
pending _ = []

-- The queue is of this size, and holds what was accepted, in this order, but for what was taken
-- before and what is still to be pushed.
pub record Ordered (max_q_size : ℕ) (w : World) (p : MainPc) : Type 0 where
  pub room : length w.queue ≡ max_q_size
  pub waiting : List QueueItem
  pub held : Holds w.queue w.q_size waiting
  pub order : w.accepted ≡ w.taken ++ (waiting ++ pending p)

push-fits :
    (queue : List QueueItem) (n : ℕ) (item : QueueItem) {r : List QueueItem × ℕ}
    → push queue n item ≡ ok r
    → n < length queue
unfolding push
push-fits queue n item e = elim (Bool-cases (ltb n (length queue))) [
  | inl t ↦ ltb→lt n (length queue) t
  | inr f ↦ absurd (cc (rw f at e))
]

pub queue_filled :
    (queue : List QueueItem) (n : ℕ) (items : List QueueItem)
    → Holds queue n items
    → 0 < n
    → (oldest : QueueItem) × (rest : List QueueItem) × (items ≡ oldest ∷ rest)
queue_filled queue n [] h p = absurd (omega (arith, h.counted, p))
queue_filled queue n (oldest ∷ rest) h p = (oldest, rest, refl)

module _ (max_q_size : ℕ) where
  -- What is not about the queue changes nothing.
  Ordered-kept :
      {w w' : World} {p p' : MainPc}
      → Ordered max_q_size w p
      → w'.queue ≡ w.queue
      → w'.q_size ≡ w.q_size
      → w'.accepted ≡ w.accepted
      → w'.taken ≡ w.taken
      → pending p' ≡ pending p
      → Ordered max_q_size w' p'
  Ordered-kept {w} {w'} {p} {p'} o a b c d e = record {
    room = ap length a ∙ o.room;
    waiting = o.waiting;
    held = rw (a, b) o.held;
    order = c ∙ o.order ∙ rw (d, e) refl;
  }

  MainMove-Ordered :
      {r : Bool} {w w' : World} {p p' : MainPc}
      → Ordered max_q_size w p
      → MainMove r w p w' p'
      → Ordered max_q_size w' p'
  MainMove-Ordered o (MainMove.go_on e) = Ordered-kept o refl refl refl refl refl
  MainMove-Ordered o (MainMove.stop e) = Ordered-kept o refl refl refl refl refl
  MainMove-Ordered o (MainMove.wait n e) = Ordered-kept o refl refl refl refl refl
  MainMove-Ordered o (MainMove.wait_interrupted e) = Ordered-kept o refl refl refl refl refl
  MainMove-Ordered {w = w} o (MainMove.accept item) = record {
    room = o.room;
    waiting = o.waiting;
    held = o.held;
    order =
        ap (λ l. l ++ (item ∷ [])) o.order
        ∙ append_assoc w.taken (o.waiting ++ []) (item ∷ [])
        ∙ ap (λ l. w.taken ++ (l ++ (item ∷ []))) (append-nil o.waiting);
  }
  MainMove-Ordered o (MainMove.accept_interrupted e) = Ordered-kept o refl refl refl refl refl
  MainMove-Ordered o MainMove.accept_failed = Ordered-kept o refl refl refl refl refl
  MainMove-Ordered o (MainMove.lock item e) = Ordered-kept o refl refl refl refl refl
  MainMove-Ordered {w = w} o (MainMove.push_item item queue n e) =
      let (queue', f, held, same) =
        push-Holds w.queue w.q_size o.waiting item o.held (push-fits w.queue w.q_size item e) in
      let result = ok-inj (sym f ∙ e) in
      record {
        room = ap length (sym (ap (λ r. r.0) result)) ∙ same ∙ o.room;
        waiting = o.waiting ++ (item ∷ []);
        held =
            subst (λ (r : List QueueItem × ℕ). Holds r.0 r.1 (o.waiting ++ (item ∷ []))) result
              held;
        order = o.order ∙ ap (λ l. w.taken ++ l) (sym (append-nil (o.waiting ++ (item ∷ []))));
      }
  MainMove-Ordered o MainMove.post = Ordered-kept o refl refl refl refl refl
  MainMove-Ordered o MainMove.unlock = Ordered-kept o refl refl refl refl refl

  WorkerMove-Ordered :
      {r : Bool} {w w' : World} {q q' : WorkerPc} (p : MainPc)
      → Ordered max_q_size w p
      → WorkerMove r w q w' q'
      → Ordered max_q_size w' p
  WorkerMove-Ordered p o (WorkerMove.go_on e) = Ordered-kept o refl refl refl refl refl
  WorkerMove-Ordered p o (WorkerMove.stop e) = Ordered-kept o refl refl refl refl refl
  WorkerMove-Ordered p o (WorkerMove.wait n e) = Ordered-kept o refl refl refl refl refl
  WorkerMove-Ordered p o (WorkerMove.wait_interrupted e) = Ordered-kept o refl refl refl refl refl
  WorkerMove-Ordered p o (WorkerMove.lock e) = Ordered-kept o refl refl refl refl refl
  WorkerMove-Ordered {w = w} p o (WorkerMove.pop_item item queue n e) =
      let (oldest, rest, parts) =
        queue_filled w.queue w.q_size o.waiting o.held
          (omega (arith, pop-eq-ok w.queue w.q_size e)) in
      let (queue', f, held, same) =
        pop-Holds w.queue w.q_size oldest rest (subst (Holds w.queue w.q_size) parts o.held) in
      let result = ok-inj (sym f ∙ e) in
      record {
        room = ap length (sym (ap (λ r. r.1) result)) ∙ same ∙ o.room;
        waiting = rest;
        held = subst (λ (r : QueueItem × List QueueItem × ℕ). Holds r.1 r.2 rest) result held;
        order =
            o.order
            ∙ ap (λ l. w.taken ++ (l ++ pending p)) parts
            ∙ ap (λ x. w.taken ++ (x ∷ (rest ++ pending p))) (ap (λ r. r.0) result)
            ∙ sym (append_assoc w.taken (item ∷ []) (rest ++ pending p));
      }
  WorkerMove-Ordered p o (WorkerMove.post item) = Ordered-kept o refl refl refl refl refl
  WorkerMove-Ordered p o (WorkerMove.unlock item) = Ordered-kept o refl refl refl refl refl
  WorkerMove-Ordered p o (WorkerMove.handled item) = Ordered-kept o refl refl refl refl refl

  Step-Ordered :
      {n : ℕ} {s t : System}
      → Ordered max_q_size s.world s.main
      → Step n s t
      → Ordered max_q_size t.world t.main
  Step-Ordered o (main_moves w p m) = MainMove-Ordered o m
  Step-Ordered {s = s} o (worker_moves i w p h m) = WorkerMove-Ordered s.main o m
  Step-Ordered o interrupt = o

  Ordered-later :
      {n : ℕ} {s t : System}
      → Ordered max_q_size s.world s.main
      → Reached n s t
      → Ordered max_q_size t.world t.main
  Ordered-later o here = o
  Ordered-later o (next r step) = Step-Ordered (Ordered-later o r) step

module _ (num_threads max_q_size : ℕ) (memory : List QueueItem) (s : System) where
  -- Clients reach the workers in the order in which they are accepted, and each just once: with
  -- memory for the queue, in any state that the threads get to by any interleaving, those that were
  -- accepted are those that were taken, followed by those in the queue, followed by the one that the
  -- main thread is about to push.
  pub Reached-Ordered :
      length memory ≡ max_q_size
      → Reached num_threads (start_system memory max_q_size) s
      → Ordered max_q_size s.world s.main
  Reached-Ordered e r =
      Ordered-later max_q_size
        (record {
          room = e;
          waiting = [];
          held = record { unused = memory; parts = refl; counted = refl };
          order = refl;
        })
        r
