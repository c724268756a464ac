-- ===== src/ThreadedServer/Queue.antt =====
-- labs/threaded-webserver/http_server.c, `push` and `pop`: the queue of clients in an array.
use mathlib.Core.Path.{ap₂}
use mathlib.Core.List.{append_assoc}
use cs_360_internet_programm.Base.{
  ℕ, zero, suc, ◌+◌, ◌-◌, ◌<◌, ◌≡◌, refl, sym, ap, ◌∙◌, arith, false, some, List, [], ◌∷◌, ◌++◌,
  length, set, get_elem?, ltb, ◌==◌, if◌then◌else◌, lt→ltb, length-append, set_append, drop,
  length-drop,
}
use cs_360_internet_programm.Base.Run.{Run, ok, fault, checked, ◌>>=◌}
use cs_360_internet_programm.ThreadedServer.{QueueItem}

-- The array and its size behind a push; a push on a full array writes behind it.
unfoldable pub push : List QueueItem → ℕ → QueueItem → Run (List QueueItem × ℕ)
push queue q_size item =
    if ltb q_size (length queue) then ok (set queue q_size item, q_size + 1) else fault

-- The loop of `pop`: `n` items are moved, from the index `i` on.
unfoldable pub shift : ℕ → ℕ → List QueueItem → Run (List QueueItem)
shift zero i queue = ok queue
shift (suc n) i queue = do
  item ← checked (get_elem? queue i)
  shift n (i + 1) (set queue (i - 1) item)

-- The item, the array and its size. With a size of 0 the item is one that nobody pushed, and the size
-- gets negative: this counts as a fault.
unfoldable pub pop : List QueueItem → ℕ → Run (QueueItem × List QueueItem × ℕ)
unfolding shift
pop queue q_size = if q_size == 0 then fault else (do
  item ← checked (get_elem? queue 0)
  queue' ← shift (q_size - 1) 1 queue
  ok (item, queue', q_size - 1))

-- The array holds these items, oldest first.
pub record Holds (queue : List QueueItem) (q_size : ℕ) (items : List QueueItem) : Type 0 where
  pub unused : List QueueItem
  pub parts : queue ≡ items ++ unused
  pub counted : q_size ≡ length items

-- A push writes the first unused place.
push_parts :
    (items unused : List QueueItem) (item : QueueItem)
    → 0 < length unused
    → push (items ++ unused) (length items) item
      ≡ ok (items ++ (item ∷ drop 1 unused), length items + 1)
unfolding push
push_parts items [] item h = absurd (omega (arith, h))
push_parts items (old ∷ unused) item h =
    rw
      (lt→ltb (length items) (length (items ++ (old ∷ unused)))
        (omega (arith, length-append items (old ∷ unused))))
      (rw (set_append items unused old item) refl)

-- A push puts the item behind the others.
pub push-Holds :
    (queue : List QueueItem) (q_size : ℕ) (items : List QueueItem) (item : QueueItem)
    → Holds queue q_size items
    → q_size < length queue
    → (queue' : List QueueItem) × (push queue q_size item ≡ ok (queue', q_size + 1))
      × Holds queue' (q_size + 1) (items ++ (item ∷ []))
      × (length queue' ≡ length queue)
unfolding push
push-Holds queue q_size items item h room =
    let some_unused : 0 < length h.unused =
      omega (arith, room, h.counted, ap length h.parts, length-append items h.unused) in
    (
      items ++ (item ∷ drop 1 h.unused),
      ap₂ (λ q n. push q n item) h.parts h.counted
          ∙ push_parts items h.unused item some_unused
          ∙ ap (λ n. ok (items ++ (item ∷ drop 1 h.unused), n + 1)) (sym h.counted),
      record {
        unused = drop 1 h.unused;
        parts = sym (append_assoc items (item ∷ []) (drop 1 h.unused));
        counted = omega (arith, h.counted, length-append items (item ∷ []));
      },
      omega (
        arith,
        some_unused,
        ap length h.parts,
        length-append items h.unused,
        length-append items (item ∷ drop 1 h.unused),
        length-drop 1 h.unused,
      ),
    )

get_second :
    (front : List QueueItem) (old x : QueueItem) (rest : List QueueItem)
    → get_elem? (front ++ (old ∷ (x ∷ rest))) (length front + 1) ≡ some x
get_second [] old x rest = refl
get_second (y ∷ front) old x rest =
    let next : suc (length front) + 1 ≡ suc (length front + 1) = omega arith in
    ap (get_elem? (y ∷ (front ++ (old ∷ (x ∷ rest))))) next ∙ get_second front old x rest

-- The items behind the first move to the front, one by one.
shift-Holds :
    (front : List QueueItem) (old : QueueItem) (items unused : List QueueItem)
    → (last : QueueItem) × (shift
          (length items)
          (length front + 1)
          (front ++ (old ∷ (items ++ unused)))
        ≡ ok (front ++ (items ++ (last ∷ unused))))
unfolding shift
shift-Holds front old [] unused = (old, refl)
shift-Holds front old (x ∷ items) unused =
    let (last, e) = shift-Holds (front ++ (x ∷ [])) x items unused in
    let assoc = append_assoc front (x ∷ []) in
    (
      last,
      rw
          (
            get_second front old x (items ++ unused),
            less,
            set_append front (x ∷ (items ++ unused)) old x,
          )
          (ap₂ (shift (length items)) (omega (arith, length-append front (x ∷ [])))
              (sym (assoc (x ∷ (items ++ unused))))
            ∙ e
            ∙ ap ok (assoc (items ++ (last ∷ unused)))),
    )
  where
    less : length front + 1 - 1 ≡ length front
    less = omega arith

-- A pop takes the oldest item, and keeps the others in order.
pub pop-Holds :
    (queue : List QueueItem) (q_size : ℕ) (item : QueueItem) (items : List QueueItem)
    → Holds queue q_size (item ∷ items)
    → (queue' : List QueueItem) × (pop queue q_size ≡ ok (item, queue', q_size - 1))
      × Holds queue' (q_size - 1) items
      × (length queue' ≡ length queue)
unfolding pop
pop-Holds queue q_size item items h =
    let (last, e) = shift-Holds [] item items h.unused in
    (
      items ++ (last ∷ h.unused),
      ap₂ pop h.parts h.counted
          ∙ rw (filled, less, e) refl
          ∙ ap (λ n. ok (item, items ++ (last ∷ h.unused), n - 1)) (sym h.counted),
      record { unused = last ∷ h.unused; parts = refl; counted = omega (arith, h.counted) },
      omega (
        arith,
        ap length h.parts,
        length-append items h.unused,
        length-append items (last ∷ h.unused),
      ),
    )
  where
    filled : (suc (length items) == 0) ≡ false
    filled = ground arith

    less : suc (length items) - 1 ≡ length items
    less = omega arith
