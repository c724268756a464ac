-- ===== src/ThreadedServer/Threads/Progress.antt =====
-- labs/threaded-webserver/http_server.c: the threads never wait for each other for ever.
use mathlib.Core.Path.{subst}
use cs_360_internet_programm.Base.{
  ℕ, ◌<◌, ◌≡◌, ◌≢◌, refl, sym, ap, arith, inl, inr, Bool, true, false, List, length, ltb, ◌-◌,
  ltb→lt, ltb-eq-false, ◌==◌, Bool-cases,
}
use cs_360_internet_programm.Base.Families.{sum, sum_find}
use cs_360_internet_programm.ThreadedServer.{QueueItem}
use cs_360_internet_programm.ThreadedServer.Threads.{
  World, MainPc, WorkerPc, MainMove, WorkerMove, System, Step, Reached, start_system, main_moves,
  worker_moves, interrupt, here, next,
}
use cs_360_internet_programm.ThreadedServer.Threads.Counts.{
  main_slots, main_items, main_inside, worker_items, worker_slots, worker_inside, bit,
}
use cs_360_internet_programm.ThreadedServer.Threads.Safe.{Counted-at, push_item-ok, pop_item-oldest}

-- While the server runs, no thread has finished.
record Alive (s : System) : Type 0 where
  main_alive : s.running ≡ true → s.main ≢ MainPc.finished
  workers_alive : s.running ≡ true → (i : ℕ) → s.workers i ≢ WorkerPc.finished

MainMove-alive :
    {r : Bool} {w w' : World} {p p' : MainPc}
    → MainMove r w p w' p'
    → r ≡ true
    → p' ≢ MainPc.finished
MainMove-alive (MainMove.go_on e) t = λ d. absurd (cc)
MainMove-alive (MainMove.stop e) t = absurd (cc)
MainMove-alive (MainMove.wait n e) t = λ d. absurd (cc)
MainMove-alive (MainMove.wait_interrupted e) t = absurd (cc)
MainMove-alive (MainMove.accept item) t = λ d. absurd (cc)
MainMove-alive (MainMove.accept_interrupted e) t = absurd (cc)
MainMove-alive MainMove.accept_failed t = λ d. absurd (cc)
MainMove-alive (MainMove.lock item e) t = λ d. absurd (cc)
MainMove-alive (MainMove.push_item item queue n e) t = λ d. absurd (cc)
MainMove-alive MainMove.post t = λ d. absurd (cc)
MainMove-alive MainMove.unlock t = λ d. absurd (cc)

WorkerMove-alive :
    {r : Bool} {w w' : World} {p p' : WorkerPc}
    → WorkerMove r w p w' p'
    → r ≡ true
    → p' ≢ WorkerPc.finished
WorkerMove-alive (WorkerMove.go_on e) t = λ d. absurd (cc)
WorkerMove-alive (WorkerMove.stop e) t = absurd (cc)
WorkerMove-alive (WorkerMove.wait n e) t = λ d. absurd (cc)
WorkerMove-alive (WorkerMove.wait_interrupted e) t = absurd (cc)
WorkerMove-alive (WorkerMove.lock e) t = λ d. absurd (cc)
WorkerMove-alive (WorkerMove.pop_item item queue n e) t = λ d. absurd (cc)
WorkerMove-alive (WorkerMove.post item) t = λ d. absurd (cc)
WorkerMove-alive (WorkerMove.unlock item) t = λ d. absurd (cc)
WorkerMove-alive (WorkerMove.handled item) t = λ d. absurd (cc)

Reached-Alive : {n : ℕ} {s t : System} → Alive s → Reached n s t → Alive t
Reached-Alive a here = a
Reached-Alive a (next r (main_moves w p m)) = record {
  main_alive = MainMove-alive m;
  workers_alive = (Reached-Alive a r).workers_alive;
}
Reached-Alive a (next {t = t} r (worker_moves i w p h m)) = record {
  main_alive = (Reached-Alive a r).main_alive;
  workers_alive = λ e j. elim (Bool-cases (j == i)) [
    | inl same ↦ rw same (WorkerMove-alive m e)
    | inr other ↦ rw other ((Reached-Alive a r).workers_alive e j)
  ];
}
Reached-Alive a (next r interrupt) = record {
  main_alive = λ e. absurd (cc);
  workers_alive = λ e. absurd (cc);
}

module _ (num_threads max_q_size : ℕ) (memory : List QueueItem) (s : System) where
  -- A step that leaves the server running.
  abbrev pub Moves : Type 0
  Moves = (t : System) × Step num_threads s t × (t.running ≡ true)

  module _ (room : length memory ≡ max_q_size)
      (r : Reached num_threads (start_system memory max_q_size) s) (on : s.running ≡ true) where
    main_can : {w : World} {p p' : MainPc} → s.main ≡ p → MainMove s.running s.world p w p' → Moves
    main_can {w} {p} {p'} e m =
        (_, main_moves w p' (subst (λ q. MainMove s.running s.world q w p') (sym e) m), on)

    worker_can :
        {w : World} {p p' : WorkerPc} (i : ℕ)
        → i < num_threads
        → s.workers i ≡ p
        → WorkerMove s.running s.world p w p'
        → Moves
    worker_can {w} {p} {p'} i h e m =
        (_, worker_moves i w p' h (subst (λ q. WorkerMove s.running s.world q w p') (sym e) m), on)

    worker_inside_can :
        (i : ℕ) (p : WorkerPc) → i < num_threads → s.workers i ≡ p → 0 < worker_inside p → Moves
    worker_inside_can i WorkerPc.at_pop h e k =
        let (item, later, queue, order, f) =
          pop_item-oldest num_threads max_q_size memory s i room r h e in
        worker_can i h e (WorkerMove.pop_item item queue _ f)
    worker_inside_can i (WorkerPc.at_post item) h e k = worker_can i h e (WorkerMove.post item)
    worker_inside_can i (WorkerPc.at_unlock item) h e k = worker_can i h e (WorkerMove.unlock item)
    worker_inside_can i WorkerPc.at_loop h e k = absurd (omega (arith, k))
    worker_inside_can i WorkerPc.at_wait h e k = absurd (omega (arith, k))
    worker_inside_can i WorkerPc.at_lock h e k = absurd (omega (arith, k))
    worker_inside_can i (WorkerPc.handling item) h e k = absurd (omega (arith, k))
    worker_inside_can i WorkerPc.finished h e k = absurd (omega (arith, k))

    main_inside_can : (p : MainPc) → s.main ≡ p → 0 < main_inside p → Moves
    main_inside_can (MainPc.at_push item) e k =
        let (queue, f) = push_item-ok num_threads max_q_size memory s item room r e in
        main_can e (MainMove.push_item item queue _ f)
    main_inside_can MainPc.at_post e k = main_can e MainMove.post
    main_inside_can MainPc.at_unlock e k = main_can e MainMove.unlock
    main_inside_can MainPc.at_loop e k = absurd (omega (arith, k))
    main_inside_can MainPc.at_wait e k = absurd (omega (arith, k))
    main_inside_can MainPc.at_accept e k = absurd (omega (arith, k))
    main_inside_can (MainPc.at_lock item) e k = absurd (omega (arith, k))
    main_inside_can MainPc.finished e k = absurd (omega (arith, k))

    -- Whoever has locked the mutex can go on.
    lock_can : (s.world.locked ≡ false → Moves) → Moves
    lock_can free = elim (Bool-cases s.world.locked) [
      | inr unlocked ↦ free unlocked
      | inl held ↦
          (let v = Counted-at num_threads max_q_size memory s r in
            let one : bit s.world.locked ≡ 1 = ap bit held in
            elim (Bool-cases (ltb 0 (main_inside s.main))) [
              | inl k ↦ main_inside_can s.main refl (ltb→lt 0 _ k)
              | inr k ↦
                  (let (i, h, found) =
                      sum_find worker_inside num_threads s.workers
                        (omega (arith, one, v.inside, ltb-eq-false 0 _ k)) in
                    worker_inside_can i (s.workers i) h refl found)
            ])
    ]

    -- A worker that has got an item, or may get one.
    worker_any :
        (i : ℕ) (p : WorkerPc)
        → i < num_threads
        → s.workers i ≡ p
        → 0 < s.world.q_not_empty
        → p ≢ WorkerPc.finished
        → Moves
    worker_any i WorkerPc.at_loop h e k d = worker_can i h e (WorkerMove.go_on on)
    worker_any i WorkerPc.at_wait h e k d =
        worker_can i h e (WorkerMove.wait (s.world.q_not_empty - 1) (omega (arith, k)))
    worker_any i WorkerPc.at_lock h e k d = lock_can (λ u. worker_can i h e (WorkerMove.lock u))
    worker_any i WorkerPc.at_pop h e k d = worker_inside_can i _ h e (omega arith)
    worker_any i (WorkerPc.at_post item) h e k d = worker_inside_can i _ h e (omega arith)
    worker_any i (WorkerPc.at_unlock item) h e k d = worker_inside_can i _ h e (omega arith)
    worker_any i (WorkerPc.handling item) h e k d = worker_can i h e (WorkerMove.handled item)
    worker_any i WorkerPc.finished h e k d = absurd (d refl)

    worker_items_can :
        (i : ℕ) (p : WorkerPc) → i < num_threads → s.workers i ≡ p → 0 < worker_items p → Moves
    worker_items_can i WorkerPc.at_lock h e k = lock_can (λ u. worker_can i h e (WorkerMove.lock u))
    worker_items_can i WorkerPc.at_pop h e k = worker_inside_can i _ h e (omega arith)
    worker_items_can i WorkerPc.at_loop h e k = absurd (omega (arith, k))
    worker_items_can i WorkerPc.at_wait h e k = absurd (omega (arith, k))
    worker_items_can i (WorkerPc.at_post item) h e k = absurd (omega (arith, k))
    worker_items_can i (WorkerPc.at_unlock item) h e k = absurd (omega (arith, k))
    worker_items_can i (WorkerPc.handling item) h e k = absurd (omega (arith, k))
    worker_items_can i WorkerPc.finished h e k = absurd (omega (arith, k))

    worker_slots_can :
        (i : ℕ) (p : WorkerPc) → i < num_threads → s.workers i ≡ p → 0 < worker_slots p → Moves
    worker_slots_can i (WorkerPc.at_post item) h e k = worker_can i h e (WorkerMove.post item)
    worker_slots_can i WorkerPc.at_lock h e k = absurd (omega (arith, k))
    worker_slots_can i WorkerPc.at_pop h e k = absurd (omega (arith, k))
    worker_slots_can i WorkerPc.at_loop h e k = absurd (omega (arith, k))
    worker_slots_can i WorkerPc.at_wait h e k = absurd (omega (arith, k))
    worker_slots_can i (WorkerPc.at_unlock item) h e k = absurd (omega (arith, k))
    worker_slots_can i (WorkerPc.handling item) h e k = absurd (omega (arith, k))
    worker_slots_can i WorkerPc.finished h e k = absurd (omega (arith, k))

    alive : Alive s
    alive =
        Reached-Alive
          (record { main_alive = λ e d. absurd (cc); workers_alive = λ e i d. absurd (cc) }) r

    -- The main thread waits for a slot: there is a worker that has one, or that can get an item.
    slot_can :
        s.main ≡ MainPc.at_wait
        → s.world.q_not_full ≡ 0
        → s.world.failed < max_q_size
        → 0 < num_threads
        → Moves
    slot_can e z few some_worker =
        let v = Counted-at num_threads max_q_size memory s r in
        let no_slot : main_slots s.main ≡ 0 = ap main_slots e in
        let no_item : main_items s.main ≡ 0 = ap main_items e in
        elim (Bool-cases (ltb 0 (sum worker_slots num_threads s.workers))) [
          | inl k ↦
              (let (i, h, found) = sum_find worker_slots num_threads s.workers (ltb→lt 0 _ k) in
                worker_slots_can i (s.workers i) h refl found)
          | inr k ↦ elim (Bool-cases (ltb 0 (sum worker_items num_threads s.workers))) [
            | inl l ↦
                (let (i, h, found) = sum_find worker_items num_threads s.workers (ltb→lt 0 _ l) in
                  worker_items_can i (s.workers i) h refl found)
            | inr l ↦
                worker_any 0 (s.workers 0) some_worker refl
                  (omega (
                    arith,
                    z,
                    few,
                    no_slot,
                    no_item,
                    v.slots,
                    v.items,
                    ltb-eq-false 0 _ k,
                    ltb-eq-false 0 _ l,
                  ))
                  (alive.workers_alive on 0)
          ]
        ]

    main_any : (p : MainPc) → s.main ≡ p → s.world.failed < max_q_size → 0 < num_threads → Moves
    main_any MainPc.at_loop e few some_worker = main_can e (MainMove.go_on on)
    main_any MainPc.at_wait e few some_worker = elim (Bool-cases (ltb 0 s.world.q_not_full)) [
      | inl k ↦ main_can e (MainMove.wait (s.world.q_not_full - 1) (omega (arith, ltb→lt 0 _ k)))
      | inr k ↦ slot_can e (omega (arith, ltb-eq-false 0 _ k)) few some_worker
    ]
    main_any MainPc.at_accept e few some_worker = main_can e MainMove.accept_failed
    main_any (MainPc.at_lock item) e few some_worker =
        lock_can (λ u. main_can e (MainMove.lock item u))
    main_any (MainPc.at_push item) e few some_worker = main_inside_can _ e (omega arith)
    main_any MainPc.at_post e few some_worker = main_inside_can _ e (omega arith)
    main_any MainPc.at_unlock e few some_worker = main_inside_can _ e (omega arith)
    main_any MainPc.finished e few some_worker = absurd (alive.main_alive on e)

  -- No deadlock: with at least one worker, and as long as `accept` has failed less often than the
  -- queue has slots, the threads of a server that runs get to no state in which none can move.
  pub no_deadlock :
      length memory ≡ max_q_size
      → Reached num_threads (start_system memory max_q_size) s
      → s.running ≡ true
      → s.world.failed < max_q_size
      → 0 < num_threads
      → Moves
  no_deadlock room r on few some_worker = main_any room r on s.main refl few some_worker
