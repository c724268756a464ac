-- ===== src/ThreadedServer/Threads/Counts.antt =====
-- labs/threaded-webserver/http_server.c: the semaphores, the mutex and the size of the queue agree.
use cs_360_internet_programm.Base.{
  ℕ, ◌+◌, ◌-◌, ◌≤◌, ◌<◌, ◌≡◌, refl, sym, ap, arith, Bool, true, false, List, length, get_elem?, ltb,
  ◌==◌, Bool-cases, inl, inr,
}
use cs_360_internet_programm.Base.Families.{update, sum, sum-update, sum-le, sum_zero}
use cs_360_internet_programm.Base.Run.{ok, checked, ◌>>=◌, ok-inj, >>=-eq-ok}
use cs_360_internet_programm.ThreadedServer.{QueueItem}
use cs_360_internet_programm.ThreadedServer.Queue.{push, shift, pop}
use cs_360_internet_programm.ThreadedServer.Threads.{
  World, MainPc, WorkerPc, MainMove, WorkerMove, System, Step, Reached, start_system, main_moves,
  worker_moves, interrupt, here, next,
}

-- A free slot that the main thread has got, and has not filled.
abbrev pub main_slots : MainPc → ℕ
main_slots MainPc.at_accept = 1
main_slots (MainPc.at_lock item) = 1
main_slots (MainPc.at_push item) = 1
main_slots _ = 0

-- An item that was pushed, and is not posted.
abbrev pub main_items : MainPc → ℕ
main_items MainPc.at_post = 1
main_items _ = 0

abbrev pub main_inside : MainPc → ℕ
main_inside (MainPc.at_push item) = 1
main_inside MainPc.at_post = 1
main_inside MainPc.at_unlock = 1
main_inside _ = 0

-- An item that a worker has got, and has not popped.
abbrev pub worker_items : WorkerPc → ℕ
worker_items WorkerPc.at_lock = 1
worker_items WorkerPc.at_pop = 1
worker_items _ = 0

-- A slot that was popped, and is not posted.
abbrev pub worker_slots : WorkerPc → ℕ
worker_slots (WorkerPc.at_post item) = 1
worker_slots _ = 0

abbrev pub worker_inside : WorkerPc → ℕ
worker_inside WorkerPc.at_pop = 1
worker_inside (WorkerPc.at_post item) = 1
worker_inside (WorkerPc.at_unlock item) = 1
worker_inside _ = 0

abbrev pub bit : Bool → ℕ
bit true = 1
bit false = 0

-- Every slot of the queue is free, got by a thread, full or lost; every item in the queue is posted
-- or got by a thread; and the mutex is locked by just the thread that is inside.
pub record Counted (num_threads max_q_size : ℕ) (s : System) : Type 0 where
  pub slots :
      s.world.q_not_full
        + main_slots s.main
        + s.world.q_size
        + sum worker_slots num_threads s.workers
        + s.world.failed
      ≡ max_q_size
  pub items :
      s.world.q_size
      ≡ s.world.q_not_empty + main_items s.main + sum worker_items num_threads s.workers
  pub inside : main_inside s.main + sum worker_inside num_threads s.workers ≡ bit s.world.locked

pub push-eq-ok :
    (queue : List QueueItem) (n : ℕ) (item : QueueItem) {queue' : List QueueItem} {n' : ℕ}
    → push queue n item ≡ ok (queue', n')
    → n' ≡ n + 1
unfolding push
push-eq-ok queue n item e = elim (Bool-cases (ltb n (length queue))) [
  | inl t ↦ sym (ap (λ r. r.1) (ok-inj (rw t at e)))
  | inr f ↦ absurd (cc (rw f at e))
]

pub pop-eq-ok :
    (queue : List QueueItem) (n : ℕ) {item : QueueItem} {queue' : List QueueItem} {n' : ℕ}
    → pop queue n ≡ ok (item, queue', n')
    → n ≡ n' + 1
unfolding pop
pop-eq-ok queue n e = elim (Bool-cases (n == 0)) [
  | inl t ↦ absurd (cc (rw t at e))
  | inr f ↦
      (let (item, a, b) =
          >>=-eq-ok (checked (get_elem? queue 0))
            (λ item. shift (n - 1) 1 queue >>= λ queue'. ok (item, queue', n - 1)) (rw f at e) in
        let (queue', c, d) =
          >>=-eq-ok (shift (n - 1) 1 queue) (λ queue'. ok (item, queue', n - 1)) b in
        let less = ap (λ r. r.2) (ok-inj d) in ground (arith, f, less))
]

pub bit-le : (b : Bool) → bit b ≤ 1
bit-le true = omega arith
bit-le false = omega arith

-- What a move of the main thread does to the counts.
record MainCounted (w : World) (p : MainPc) (w' : World) (p' : MainPc) : Type 0 where
  slots :
      w'.q_not_full + main_slots p' + w'.q_size + w'.failed
      ≡ w.q_not_full + main_slots p + w.q_size + w.failed
  items : w'.q_size + (w.q_not_empty + main_items p) ≡ w.q_size + (w'.q_not_empty + main_items p')
  inside : (k : ℕ) → main_inside p + k ≡ bit w.locked → main_inside p' + k ≡ bit w'.locked

MainMove-Counted :
    {r : Bool} {w w' : World} {p p' : MainPc} → MainMove r w p w' p' → MainCounted w p w' p'
MainMove-Counted (MainMove.go_on e) = record { slots = refl; items = refl; inside = λ k h. h }
MainMove-Counted (MainMove.stop e) = record { slots = refl; items = refl; inside = λ k h. h }
MainMove-Counted (MainMove.wait n e) = record {
  slots = omega (arith, e);
  items = refl;
  inside = λ k h. h;
}
MainMove-Counted (MainMove.wait_interrupted e) = record {
  slots = refl;
  items = refl;
  inside = λ k h. h;
}
MainMove-Counted (MainMove.accept item) = record { slots = refl; items = refl; inside = λ k h. h }
MainMove-Counted (MainMove.accept_interrupted e) = record {
  slots = omega arith;
  items = refl;
  inside = λ k h. h;
}
MainMove-Counted MainMove.accept_failed = record {
  slots = omega arith;
  items = refl;
  inside = λ k h. h;
}
MainMove-Counted (MainMove.lock item e) = record {
  slots = refl;
  items = refl;
  inside = λ k h. ground (arith, e, h);
}
MainMove-Counted {w = w} (MainMove.push_item item queue n e) =
    let more = push-eq-ok w.queue w.q_size item e in
    record { slots = omega (arith, more); items = omega (arith, more); inside = λ k h. h }
MainMove-Counted MainMove.post = record { slots = refl; items = omega arith; inside = λ k h. h }
MainMove-Counted {w = w} MainMove.unlock = record {
  slots = refl;
  items = refl;
  inside = λ k h. omega (arith, h, bit-le w.locked);
}

-- What a move of a worker does to the counts.
record WorkerCounted (w : World) (p : WorkerPc) (w' : World) (p' : WorkerPc) : Type 0 where
  slots : w'.q_not_full + w'.q_size + worker_slots p' ≡ w.q_not_full + w.q_size + worker_slots p
  items :
      w'.q_size + (w.q_not_empty + worker_items p) ≡ w.q_size + (w'.q_not_empty + worker_items p')
  inside : (k : ℕ) → k + worker_inside p ≡ bit w.locked → k + worker_inside p' ≡ bit w'.locked
  failed : w'.failed ≡ w.failed

WorkerMove-Counted :
    {r : Bool} {w w' : World} {p p' : WorkerPc} → WorkerMove r w p w' p' → WorkerCounted w p w' p'
WorkerMove-Counted (WorkerMove.go_on e) = record {
  slots = refl;
  items = refl;
  inside = λ k h. h;
  failed = refl;
}
WorkerMove-Counted (WorkerMove.stop e) = record {
  slots = refl;
  items = refl;
  inside = λ k h. h;
  failed = refl;
}
WorkerMove-Counted (WorkerMove.wait n e) = record {
  slots = refl;
  items = omega (arith, e);
  inside = λ k h. h;
  failed = refl;
}
WorkerMove-Counted (WorkerMove.wait_interrupted e) = record {
  slots = refl;
  items = refl;
  inside = λ k h. h;
  failed = refl;
}
WorkerMove-Counted (WorkerMove.lock e) = record {
  slots = refl;
  items = refl;
  inside = λ k h. ground (arith, e, h);
  failed = refl;
}
WorkerMove-Counted {w = w} (WorkerMove.pop_item item queue n e) =
    let less = pop-eq-ok w.queue w.q_size e in
    record {
      slots = omega (arith, less);
      items = omega (arith, less);
      inside = λ k h. h;
      failed = refl;
    }
WorkerMove-Counted (WorkerMove.post item) = record {
  slots = omega arith;
  items = refl;
  inside = λ k h. h;
  failed = refl;
}
WorkerMove-Counted {w = w} (WorkerMove.unlock item) = record {
  slots = refl;
  items = refl;
  inside = λ k h. omega (arith, h, bit-le w.locked);
  failed = refl;
}
WorkerMove-Counted (WorkerMove.handled item) = record {
  slots = refl;
  items = refl;
  inside = λ k h. h;
  failed = refl;
}

module _ (num_threads max_q_size : ℕ) where
  pub start-Counted :
      (memory : List QueueItem) → Counted num_threads max_q_size (start_system memory max_q_size)
  start-Counted memory = record {
    slots = omega (arith, sum_zero worker_slots num_threads WorkerPc.at_loop refl);
    items = omega (arith, sum_zero worker_items num_threads WorkerPc.at_loop refl);
    inside = omega (arith, sum_zero worker_inside num_threads WorkerPc.at_loop refl);
  }

  main_moves-Counted :
      (s : System) {w : World} {p : MainPc}
      → Counted num_threads max_q_size s
      → MainMove s.running s.world s.main w p
      → Counted num_threads max_q_size (record s { world = w; main = p })
  main_moves-Counted s v m =
      let c = MainMove-Counted m in
      record {
        slots = omega (arith, c.slots, v.slots);
        items = omega (arith, c.items, v.items);
        inside = c.inside (sum worker_inside num_threads s.workers) v.inside;
      }

  worker_moves-Counted :
      (s : System) (i : ℕ) {w : World} {p : WorkerPc}
      → i < num_threads
      → Counted num_threads max_q_size s
      → WorkerMove s.running s.world (s.workers i) w p
      → Counted num_threads max_q_size (record s { world = w; workers = update i p s.workers })
  worker_moves-Counted s i {w} {p} h v m =
      let c = WorkerMove-Counted m in
      let slots = sum-update worker_slots num_threads i p s.workers h in
      let items = sum-update worker_items num_threads i p s.workers h in
      let inside = sum-update worker_inside num_threads i p s.workers h in
      let own = sum-le worker_inside num_threads i s.workers h in
      let others : ℕ =
        main_inside s.main
        + sum worker_inside num_threads s.workers
        - worker_inside (s.workers i) in
      let moved = c.inside others (omega (arith, own, v.inside)) in
      record {
        slots = omega (arith, c.slots, c.failed, v.slots, slots);
        items = omega (arith, c.items, v.items, items);
        inside = omega (arith, moved, inside, own);
      }

  Step-Counted :
      {s t : System}
      → Counted num_threads max_q_size s
      → Step num_threads s t
      → Counted num_threads max_q_size t
  Step-Counted {s} v (main_moves w p m) = main_moves-Counted s v m
  Step-Counted {s} v (worker_moves i w p h m) = worker_moves-Counted s i h v m
  Step-Counted v interrupt = record { slots = v.slots; items = v.items; inside = v.inside }

  pub Reached-Counted :
      {s t : System}
      → Counted num_threads max_q_size s
      → Reached num_threads s t
      → Counted num_threads max_q_size t
  Reached-Counted v here = v
  Reached-Counted v (next r step) = Step-Counted (Reached-Counted v r) step
