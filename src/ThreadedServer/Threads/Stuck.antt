-- ===== src/ThreadedServer/Threads/Stuck.antt =====
-- labs/threaded-webserver/http_server.c, `http_server_run`: what failed calls of `accept` lead to.
use cs_360_internet_programm.Base.{ℕ, ◌≡◌, refl, ◌∙◌, arith, Bool, List}
use cs_360_internet_programm.ThreadedServer.{QueueItem}
use cs_360_internet_programm.ThreadedServer.Threads.{
  World, MainPc, WorkerPc, MainMove, WorkerMove, System, Step, Reached, start_system, main_moves,
  worker_moves, interrupt, here, next,
}
use cs_360_internet_programm.ThreadedServer.Threads.Counts.{
  main_slots, Counted, start-Counted, Reached-Counted,
}

-- Without a free slot, a move of the main thread accepts no client.
MainMove-kept :
    {r : Bool} {w w' : World} {p p' : MainPc}
    → MainMove r w p w' p'
    → w.q_not_full ≡ 0
    → main_slots p ≡ 0
    → (w'.accepted ≡ w.accepted) × (w'.failed ≡ w.failed)
MainMove-kept (MainMove.go_on e) z h = (refl, refl)
MainMove-kept (MainMove.stop e) z h = (refl, refl)
MainMove-kept (MainMove.wait n e) z h = (refl, refl)
MainMove-kept (MainMove.wait_interrupted e) z h = (refl, refl)
MainMove-kept (MainMove.accept item) z h = absurd (omega (arith, h))
MainMove-kept (MainMove.accept_interrupted e) z h = absurd (omega (arith, h))
MainMove-kept MainMove.accept_failed z h = absurd (omega (arith, h))
MainMove-kept (MainMove.lock item e) z h = (refl, refl)
MainMove-kept (MainMove.push_item item queue n e) z h = (refl, refl)
MainMove-kept MainMove.post z h = (refl, refl)
MainMove-kept MainMove.unlock z h = (refl, refl)

WorkerMove-kept :
    {r : Bool} {w w' : World} {p p' : WorkerPc}
    → WorkerMove r w p w' p'
    → (w'.accepted ≡ w.accepted) × (w'.failed ≡ w.failed)
WorkerMove-kept (WorkerMove.go_on e) = (refl, refl)
WorkerMove-kept (WorkerMove.stop e) = (refl, refl)
WorkerMove-kept (WorkerMove.wait n e) = (refl, refl)
WorkerMove-kept (WorkerMove.wait_interrupted e) = (refl, refl)
WorkerMove-kept (WorkerMove.lock e) = (refl, refl)
WorkerMove-kept (WorkerMove.pop_item item queue n e) = (refl, refl)
WorkerMove-kept (WorkerMove.post item) = (refl, refl)
WorkerMove-kept (WorkerMove.unlock item) = (refl, refl)
WorkerMove-kept (WorkerMove.handled item) = (refl, refl)

module _ (num_threads max_q_size : ℕ) where
  Step-kept :
      {s t : System}
      → Counted num_threads max_q_size s
      → s.world.failed ≡ max_q_size
      → Step num_threads s t
      → (t.world.accepted ≡ s.world.accepted) × (t.world.failed ≡ s.world.failed)
  Step-kept v e (main_moves w p m) =
      MainMove-kept m (omega (arith, e, v.slots)) (omega (arith, e, v.slots))
  Step-kept v e (worker_moves i w p h m) = WorkerMove-kept m
  Step-kept v e interrupt = (refl, refl)

  Reached-kept :
      {s t : System}
      → Counted num_threads max_q_size s
      → s.world.failed ≡ max_q_size
      → Reached num_threads s t
      → (t.world.accepted ≡ s.world.accepted) × (t.world.failed ≡ s.world.failed)
  Reached-kept v e here = (refl, refl)
  Reached-kept v e (next r step) =
      let (a, f) = Reached-kept v e r in
      let (b, g) = Step-kept (Reached-Counted num_threads max_q_size v r) (f ∙ e) step in
      (b ∙ a, g ∙ f)

  -- When `accept` has failed as often as the queue has slots, the server accepts no client any more,
  -- whatever the threads do from then on.
  pub accept_failures :
      (memory : List QueueItem) (s t : System)
      → Reached num_threads (start_system memory max_q_size) s
      → s.world.failed ≡ max_q_size
      → Reached num_threads s t
      → t.world.accepted ≡ s.world.accepted
  accept_failures memory s t r e later =
      (Reached-kept
        (Reached-Counted num_threads max_q_size (start-Counted num_threads max_q_size memory) r) e
        later).0
