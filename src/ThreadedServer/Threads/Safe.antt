-- ===== src/ThreadedServer/Threads/Safe.antt =====
-- labs/threaded-webserver/http_server.c: what the mutex and the semaphores protect.
use mathlib.Core.Path.{subst}
use native.Mathlib.Decide.{ℕ_discrete}
use cs_360_internet_programm.Base.{
  ℕ, ◌+◌, ◌-◌, ◌≤◌, ◌<◌, ◌≡◌, ◌≢◌, refl, ap, ◌∙◌, arith, ◌⊎◌, inl, inr, List, ◌∷◌, ◌++◌, length,
}
use cs_360_internet_programm.Base.Families.{update, sum, sum-update, sum-le, update_other}
use cs_360_internet_programm.Base.Run.{ok}
use cs_360_internet_programm.ThreadedServer.{QueueItem}
use cs_360_internet_programm.ThreadedServer.Queue.{push, pop, Holds, push-Holds, pop-Holds}
use cs_360_internet_programm.ThreadedServer.Threads.{
  MainPc, WorkerPc, System, Reached, start_system,
}
use cs_360_internet_programm.ThreadedServer.Threads.Counts.{
  main_slots, main_inside, worker_items, worker_inside, bit-le, Counted, start-Counted,
  Reached-Counted,
}
use cs_360_internet_programm.ThreadedServer.Threads.Order.{Reached-Ordered, queue_filled, pending}

-- Two different places of a sum.
sum-two :
    (weight : WorkerPc → ℕ) (n i j : ℕ) (f : ℕ → WorkerPc)
    → weight WorkerPc.at_loop ≡ 0
    → i < n
    → j < n
    → j ≢ i
    → weight (f i) + weight (f j) ≤ sum weight n f
sum-two weight n i j f z hi hj d =
    let without = update i WorkerPc.at_loop f in
    let same = ap weight (update_other i j WorkerPc.at_loop f d) in
    omega
      (arith, z, same, sum-update weight n i WorkerPc.at_loop f hi, sum-le weight n j without hj)

module _ (num_threads max_q_size : ℕ) (memory : List QueueItem) (s : System) where
  pub Counted-at :
      Reached num_threads (start_system memory max_q_size) s → Counted num_threads max_q_size s
  Counted-at r =
      Reached-Counted num_threads max_q_size (start-Counted num_threads max_q_size memory) r

  -- Mutual exclusion, for any number of workers: while a worker is between its lock and its unlock,
  -- the main thread is not, and no other worker is.
  pub inside_alone :
      (i j : ℕ)
      → Reached num_threads (start_system memory max_q_size) s
      → i < num_threads
      → j < num_threads
      → worker_inside (s.workers i) ≡ 1
      → (main_inside s.main ≡ 0) × ((j ≡ i) ⊎ (worker_inside (s.workers j) ≡ 0))
  inside_alone i j r hi hj e =
      let v = Counted-at r in
      let one = sum-le worker_inside num_threads i s.workers hi in
      (
        omega (arith, e, one, v.inside, bit-le s.world.locked),
        elim (ℕ_discrete j i) [
          | yes same ↦ inl same
          | no other ↦
              (let two = sum-two worker_inside num_threads i j s.workers refl hi hj other in
                inr (omega (arith, e, two, v.inside, bit-le s.world.locked)))
        ],
      )

  -- When the main thread is about to push a client, there is room in the queue for it: the push is
  -- inside the array.
  pub push_item-ok :
      (item : QueueItem)
      → length memory ≡ max_q_size
      → Reached num_threads (start_system memory max_q_size) s
      → s.main ≡ MainPc.at_push item
      → (queue : List QueueItem) × (push s.world.queue s.world.q_size item
          ≡ ok (queue, s.world.q_size + 1))
  push_item-ok item e r at =
      let v = Counted-at r in
      let o = Reached-Ordered num_threads max_q_size memory s e r in
      let slot : main_slots s.main ≡ 1 = ap main_slots at in
      let (queue, f, held, same) =
        push-Holds s.world.queue s.world.q_size o.waiting item o.held
          (omega (arith, o.room, slot, v.slots)) in
      (queue, f)

  -- When a worker is about to pop, the queue is not empty, and the worker takes the client that was
  -- accepted first of those that nobody took before.
  pub pop_item-oldest :
      (i : ℕ)
      → length memory ≡ max_q_size
      → Reached num_threads (start_system memory max_q_size) s
      → i < num_threads
      → s.workers i ≡ WorkerPc.at_pop
      → (oldest : QueueItem) × (later : List QueueItem) × (queue : List QueueItem)
        × (s.world.accepted ≡ s.world.taken ++ (oldest ∷ later))
        × (pop s.world.queue s.world.q_size ≡ ok (oldest, queue, s.world.q_size - 1))
  pop_item-oldest i e r h at =
      let v = Counted-at r in
      let o = Reached-Ordered num_threads max_q_size memory s e r in
      let one : worker_items (s.workers i) ≡ 1 = ap worker_items at in
      let some_item : 0 < s.world.q_size =
        omega (arith, one, v.items, sum-le worker_items num_threads i s.workers h) in
      let (oldest, rest, parts) =
        queue_filled s.world.queue s.world.q_size o.waiting o.held some_item in
      let (queue, f, held, same) =
        pop-Holds s.world.queue s.world.q_size oldest rest
          (subst (Holds s.world.queue s.world.q_size) parts o.held) in
      (
        oldest,
        rest ++ pending s.main,
        queue,
        o.order ∙ ap (λ l. s.world.taken ++ (l ++ pending s.main)) parts,
        f,
      )
