-- ===== src/ThreadedServer/Threads.antt =====
-- labs/threaded-webserver/http_server.c, `http_server_run` and `worker`: the main thread and the
-- workers, interleaved in any order. A step is one call on the shared state; `push` and `pop` are one
-- step each, made by a thread that holds the mutex. SIGINT clears `server_running` and interrupts a
-- call that waits.
pub mod Counts
pub mod Order
pub mod Safe
pub mod Stuck
pub mod Progress
mod Tests
use cs_360_internet_programm.Base.{
  ℕ, zero, suc, ◌+◌, ◌<◌, ◌≡◌, Bool, true, false, List, [], ◌∷◌, ◌++◌, replicate,
}
use cs_360_internet_programm.Base.Families.{update}
use cs_360_internet_programm.Base.Run.{ok}
use cs_360_internet_programm.ThreadedServer.{QueueItem}
use cs_360_internet_programm.ThreadedServer.Queue.{push, pop}

-- `world_t`, with the history of the clients: those that were accepted and those that a worker took,
-- oldest first, and how often `accept` returned none.
pub record World : Type 0 where
  pub locked : Bool
  pub q_not_empty : ℕ
  pub q_not_full : ℕ
  pub queue : List QueueItem
  pub q_size : ℕ
  pub accepted : List QueueItem
  pub taken : List QueueItem
  pub failed : ℕ

-- Where the main thread stands, by the call that is next.
pub data MainPc : Type 0 where
  at_loop at_wait at_accept : MainPc
  at_lock at_push : QueueItem → MainPc
  at_post at_unlock finished : MainPc

-- Where a worker stands.
pub data WorkerPc : Type 0 where
  at_loop at_wait at_lock at_pop : WorkerPc
  at_post at_unlock handling : QueueItem → WorkerPc
  finished : WorkerPc

pub data MainMove (running : Bool) (w : World) : MainPc → World → MainPc → Type 0 where
  go_on : running ≡ true → MainMove running w at_loop w at_wait
  stop : running ≡ false → MainMove running w at_loop w finished
  wait :
      (n : ℕ)
      → w.q_not_full ≡ suc n
      → MainMove running w at_wait (record w { q_not_full = n }) at_accept
  wait_interrupted : running ≡ false → MainMove running w at_wait w finished
  accept :
      (item : QueueItem)
      → MainMove running w at_accept
          (record w { accepted = w.accepted ++ (item ∷ []) })
          (at_lock item)
  accept_interrupted :
      running ≡ false → MainMove running w at_accept (record w { failed = w.failed + 1 }) finished
  accept_failed : MainMove running w at_accept (record w { failed = w.failed + 1 }) at_loop
  lock :
      (item : QueueItem)
      → w.locked ≡ false
      → MainMove running w (at_lock item) (record w { locked = true }) (at_push item)
  push_item :
      (item : QueueItem) (queue : List QueueItem) (q_size : ℕ)
      → push w.queue w.q_size item ≡ ok (queue, q_size)
      → MainMove running w (at_push item) (record w { queue = queue; q_size = q_size }) at_post
  post : MainMove running w at_post (record w { q_not_empty = w.q_not_empty + 1 }) at_unlock
  unlock : MainMove running w at_unlock (record w { locked = false }) at_loop

pub data WorkerMove (running : Bool) (w : World) : WorkerPc → World → WorkerPc → Type 0 where
  go_on : running ≡ true → WorkerMove running w at_loop w at_wait
  stop : running ≡ false → WorkerMove running w at_loop w finished
  wait :
      (n : ℕ)
      → w.q_not_empty ≡ suc n
      → WorkerMove running w at_wait (record w { q_not_empty = n }) at_lock
  wait_interrupted : running ≡ false → WorkerMove running w at_wait w finished
  lock : w.locked ≡ false → WorkerMove running w at_lock (record w { locked = true }) at_pop
  pop_item :
      (item : QueueItem) (queue : List QueueItem) (q_size : ℕ)
      → pop w.queue w.q_size ≡ ok (item, queue, q_size)
      → WorkerMove running w at_pop
          (record w { queue = queue; q_size = q_size; taken = w.taken ++ (item ∷ []) })
          (at_post item)
  post :
      (item : QueueItem)
      → WorkerMove running w
          (at_post item)
          (record w { q_not_full = w.q_not_full + 1 })
          (at_unlock item)
  unlock :
      (item : QueueItem)
      → WorkerMove running w (at_unlock item) (record w { locked = false }) (handling item)
  handled : (item : QueueItem) → WorkerMove running w (handling item) w at_loop

pub record System : Type 0 where
  pub running : Bool
  pub world : World
  pub main : MainPc
  pub workers : ℕ → WorkerPc

-- The semaphores and the queue as `main` sets them up; what malloc leaves in the queue is given.
abbrev pub start_world : List QueueItem → ℕ → World
start_world memory max_q_size = record {
  locked = false;
  q_not_empty = 0;
  q_not_full = max_q_size;
  queue = memory;
  q_size = 0;
  accepted = [];
  taken = [];
  failed = 0;
}

abbrev pub start_system : List QueueItem → ℕ → System
start_system memory max_q_size = record {
  running = true;
  world = start_world memory max_q_size;
  main = MainPc.at_loop;
  workers = λ i. WorkerPc.at_loop;
}

pub data Step (num_threads : ℕ) (s : System) : System → Type 0 where
  main_moves :
      (w : World) (p : MainPc)
      → MainMove s.running s.world s.main w p
      → Step num_threads s (record s { world = w; main = p })
  worker_moves :
      (i : ℕ) (w : World) (p : WorkerPc)
      → i < num_threads
      → WorkerMove s.running s.world (s.workers i) w p
      → Step num_threads s (record s { world = w; workers = update i p s.workers })
  interrupt : Step num_threads s (record s { running = false })

-- The states that the server gets to from a given state.
pub data Reached (num_threads : ℕ) (s : System) : System → Type 0 where
  here : Reached num_threads s s
  next : {t u : System} → Reached num_threads s t → Step num_threads t u → Reached num_threads s u
