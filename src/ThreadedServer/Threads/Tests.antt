-- ===== src/ThreadedServer/Threads/Tests.antt =====
-- labs/threaded-webserver/http_server.c: two workers and a queue of two slots.
use cs_360_internet_programm.Base.{◌⊎◌, ℕ, ◌+◌, ◌-◌, ◌≡◌, refl, arith, true, List, [], ◌∷◌, ◌++◌}
use cs_360_internet_programm.Base.Families.{update}
use cs_360_internet_programm.Base.Run.{ok}
use cs_360_internet_programm.ThreadedServer.{QueueItem}
use cs_360_internet_programm.ThreadedServer.Queue.{push, pop}
use cs_360_internet_programm.ThreadedServer.Threads.{
  MainPc, WorkerPc, MainMove, WorkerMove, System, Reached, start_world, start_system, main_moves,
  worker_moves, here, next,
}
use cs_360_internet_programm.ThreadedServer.Threads.Counts.{main_inside, worker_inside}
use cs_360_internet_programm.ThreadedServer.Threads.Order.{Ordered, Reached-Ordered}
use cs_360_internet_programm.ThreadedServer.Threads.Safe.{
  inside_alone, push_item-ok, pop_item-oldest,
}
use cs_360_internet_programm.ThreadedServer.Threads.Stuck.{accept_failures}
use cs_360_internet_programm.ThreadedServer.Threads.Progress.{Moves, no_deadlock}

abbrev visitor : ℕ → QueueItem
visitor n = record { client = n; client_addr = []; client_addr_len = 0 }

-- What malloc returned.
abbrev memory : List QueueItem
memory = visitor 100 ∷ visitor 101 ∷ []

-- The client 7 was accepted, and is about to be pushed.
abbrev pushing : System
pushing = record {
  running = true;
  world = record (start_world memory 2) {
    locked = true;
    q_not_full = 1;
    accepted = visitor 7 ∷ [];
  };
  main = MainPc.at_push (visitor 7);
  workers = λ i. WorkerPc.at_loop;
}

pushing-Reached : Reached 2 (start_system memory 2) pushing
pushing-Reached =
    next
      (next
        (next (next here (main_moves _ _ (MainMove.go_on refl)))
          (main_moves _ _ (MainMove.wait 1 refl)))
        (main_moves _ _ (MainMove.accept (visitor 7))))
      (main_moves _ _ (MainMove.lock (visitor 7) refl))

-- It was pushed, and the first worker is about to pop it.
abbrev popping : System
popping = record {
  running = true;
  world = record {
    locked = true;
    q_not_empty = 0;
    q_not_full = 1;
    queue = visitor 7 ∷ visitor 101 ∷ [];
    q_size = 1;
    accepted = visitor 7 ∷ [];
    taken = [];
    failed = 0;
  };
  main = MainPc.at_loop;
  workers =
      update 0 WorkerPc.at_pop
        (update 0 WorkerPc.at_lock (update 0 WorkerPc.at_wait (λ i. WorkerPc.at_loop)));
}

popping-Reached : Reached 2 (start_system memory 2) popping
unfolding push
popping-Reached =
    next
      (next
        (next
          (next
            (next
              (next pushing-Reached (
                main_moves _ _
                  (MainMove.push_item (visitor 7) (visitor 7 ∷ visitor 101 ∷ []) 1 refl)))
              (main_moves _ _ MainMove.post))
            (main_moves _ _ MainMove.unlock))
          (worker_moves 0 _ _ (omega arith) (WorkerMove.go_on refl)))
        (worker_moves 0 _ _ (omega arith) (WorkerMove.wait 0 refl)))
      (worker_moves 0 _ _ (omega arith) (WorkerMove.lock refl))

Reached-Ordered_example : Ordered 2 pushing.world pushing.main
Reached-Ordered_example = Reached-Ordered 2 2 memory pushing refl pushing-Reached

inside_alone_example :
    (main_inside popping.main ≡ 0) × (◌≡◌ {A = ℕ} 1 0 ⊎ (worker_inside (popping.workers 1) ≡ 0))
inside_alone_example =
    inside_alone 2 2 memory popping 0 1 popping-Reached (omega arith) (omega arith) refl

push_item-ok_example :
    (queue : List QueueItem) × (push pushing.world.queue pushing.world.q_size (visitor 7)
      ≡ ok (queue, pushing.world.q_size + 1))
push_item-ok_example = push_item-ok 2 2 memory pushing (visitor 7) refl pushing-Reached refl

pop_item-oldest_example :
    (oldest : QueueItem) × (later : List QueueItem) × (queue : List QueueItem)
    × (popping.world.accepted ≡ popping.world.taken ++ (oldest ∷ later))
    × (pop popping.world.queue popping.world.q_size ≡ ok (oldest, queue, popping.world.q_size - 1))
pop_item-oldest_example =
    pop_item-oldest 2 2 memory popping 0 refl popping-Reached (omega arith) refl

-- A queue of one slot, behind a call of `accept` that failed.
abbrev refused : System
refused = record (start_system (visitor 100 ∷ []) 1) {
  world = record (start_world (visitor 100 ∷ []) 1) { q_not_full = 0; failed = 1 };
}

refused-Reached : Reached 2 (start_system (visitor 100 ∷ []) 1) refused
refused-Reached =
    next
      (next (next here (main_moves _ _ (MainMove.go_on refl)))
        (main_moves _ _ (MainMove.wait 0 refl)))
      (main_moves _ _ MainMove.accept_failed)

abbrev waiting : System
waiting = record refused { main = MainPc.at_wait }

accept_failures_example : waiting.world.accepted ≡ refused.world.accepted
accept_failures_example =
    accept_failures 2 1 (visitor 100 ∷ []) refused waiting refused-Reached refl
      (next here (main_moves _ _ (MainMove.go_on refl)))

no_deadlock_example : Moves 2 2 memory popping
no_deadlock_example =
    no_deadlock 2 2 memory popping refl popping-Reached refl (omega arith) (omega arith)
