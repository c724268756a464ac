-- ===== src/EventServer/Table.antt =====
-- labs/event-webserver/http_server.c, `http_server_run`: the clients of the event loop. A pointer to a
-- client is a number, and the heap has nothing at one that was freed; `close` takes a socket out of
-- epoll. What the calls of `recv` and `send` return while an event is handled comes with the event.
pub mod States
pub mod Moves
pub mod Handled
pub mod Slots
pub mod Swept
pub mod Valid
pub mod Safe
pub mod Idle
mod Tests
use cs_360_internet_programm.Base.{
  ℕ, zero, suc, ◌+◌, ◌-◌, ◌*◌, Bool, true, false, ◌&&◌, Option, none, some, List, [], ◌∷◌,
  replicate, leb, ◌==◌, if◌then◌else◌,
}
use cs_360_internet_programm.Base.Families.{update}
use cs_360_internet_programm.Base.Run.{Run, ok, fault, checked, ◌>>=◌}
use cs_360_internet_programm.EventServer.{
  unset, buffer_max, max_clients, expire_time, State, status_ok, receiving_headers, disconnected,
}
use cs_360_internet_programm.EventServer.Transfer.{Buffer, Client, Receiving, Sending, Socket, Done}
use cs_360_internet_programm.EventServer.Responses.{Opened}
use cs_360_internet_programm.EventServer.Connection.{is_receiving, receive_requests, send_responses}

-- EPOLLIN or EPOLLOUT; EPOLLRDHUP is always asked for.
pub data Interest : Type 0 where
  input output : Interest

-- A client with what came through its socket.
pub record Connected : Type 0 where
  pub client : Client
  pub sent : List ℕ

pub record Server : Type 0 where
  pub heap : ℕ → Option Connected
  pub watched : ℕ → Option Interest
  pub table : List (Option ℕ)
  -- The next pointer that calloc returns.
  pub allocated : ℕ

pub record Event : Type 0 where
  pub pointer : ℕ
  pub readable : Bool
  pub writable : Bool
  pub hung_up : Bool
  pub receivings : List Receiving
  pub sendings : List Sending

abbrev pub empty_server : Server
empty_server = record {
  heap = λ p. none;
  watched = λ p. none;
  table = replicate max_clients none;
  allocated = 0;
}

abbrev pub empty_buffer : Buffer
empty_buffer = record { bytes = []; max_length = buffer_max; position = 0 }

abbrev pub get_new_client : ℕ → Client
get_new_client now = record {
  state = receiving_headers;
  send_buf = empty_buffer;
  recv_buf = empty_buffer;
  status = unset;
  last_active = now;
  requests = [];
  cur_request = 0;
}

-- The first slot that is free, if there is one, takes the pointer.
unfoldable pub add_slot : ℕ → List (Option ℕ) → List (Option ℕ)
add_slot p [] = []
add_slot p (none ∷ t) = some p ∷ t
add_slot p (some q ∷ t) = some q ∷ add_slot p t

unfoldable pub remove_slot : ℕ → List (Option ℕ) → List (Option ℕ)
remove_slot p [] = []
remove_slot p (none ∷ t) = none ∷ remove_slot p t
remove_slot p (some q ∷ t) = if q == p then none ∷ t else some q ∷ remove_slot p t

-- An event on the server's socket, where `accept` and `getnameinfo` may fail.
unfoldable pub accept_client : ℕ → Bool → Server → Server
unfolding add_slot
accept_client now false s = s
accept_client now true s = record {
  heap = update s.allocated (some (record { client = get_new_client now; sent = [] })) s.heap;
  watched = update s.allocated (some input) s.watched;
  table = add_slot s.allocated s.table;
  allocated = s.allocated + 1;
}

-- `close` and `free_client`, which faults at a pointer that was freed.
unfoldable pub release : ℕ → Server → Run Server
release p s = do
  x ← checked (s.heap p)
  ok (record s { heap = update p none s.heap; watched = update p none s.watched })

unfoldable pub is_expired : ℕ → Client → Bool
is_expired now c = leb expire_time ((now - c.last_active) * 1000)

-- What becomes of a slot, and of the client it points to.
unfoldable pub visit_slot : ℕ → ℕ → Connected → Server → Run (Option ℕ × Server)
visit_slot now p x s =
    if is_expired now x.client then (release p s >>= λ s'. ok (none, s')) else ok (some p, s)

-- The sweep over the slots, with what becomes of them.
unfoldable pub sweep_slots : ℕ → List (Option ℕ) → Server → Run (List (Option ℕ) × Server)
unfolding visit_slot
sweep_slots now [] s = ok ([], s)
sweep_slots now (none ∷ t) s = do (t', s') ← sweep_slots now t s; ok (none ∷ t', s')
sweep_slots now (some p ∷ t) s = do
  x ← checked (s.heap p)
  (o, s') ← visit_slot now p x s
  (t', s'') ← sweep_slots now t s'
  ok (o ∷ t', s'')

abbrev pub is_disconnected : State → Bool
is_disconnected disconnected = true
is_disconnected _ = false

-- The struct in the heap is changed; a client that is disconnected is removed.
unfoldable pub settle : ℕ → Connected → Interest → Server → Run Server
unfolding release remove_slot
settle p x i s =
    let stored : Server = record s {
      heap = update p (some x) s.heap;
      watched = update p (some i) s.watched;
    } in
    if is_disconnected x.client.state
    then release p (record stored { table = remove_slot p s.table })
    else ok stored

abbrev pub hang_up : Event → Connected → Connected
hang_up e x =
    if e.hung_up && is_receiving x.client.state
    then record x { client = record x.client { state = disconnected } }
    else x

module _ (open_file : List ℕ → Opened) (format_date : ℕ → List ℕ) (running : Bool) (now : ℕ) where
  -- The client and what epoll watches for, behind each test of the handler.
  unfoldable pub input_part : Event → Connected → Interest → Run (Connected × Interest)
  unfolding receive_requests
  input_part e x i =
      if e.readable
      then (do
        d ←
            receive_requests open_file format_date running now
              (record { receivings = e.receivings; sendings = e.sendings; sent = x.sent }) x.client
        ok (
          record { client = d.client; sent = d.socket.sent },
          (if d.result == 0 then output else i),
        ))
      else ok (x, i)

  unfoldable pub output_part : Event → Connected → Interest → Run (Connected × Interest)
  unfolding send_responses
  output_part e x i =
      if e.writable
      then (do
        d ←
            send_responses open_file format_date running now
              (record { receivings = e.receivings; sendings = e.sendings; sent = x.sent }) x.client
        ok (
          record { client = d.client; sent = d.socket.sent },
          (if d.result == 0 then input else i),
        ))
      else ok (x, i)

  unfoldable pub serve_client : Event → Connected → Interest → Run (Connected × Interest)
  unfolding input_part output_part
  serve_client e x i = do
    (x', i') ← input_part e x i
    (x'', i'') ← output_part e x' i'
    ok (hang_up e x'', i'')

  unfoldable pub handle_event : Event → Server → Run Server
  unfolding serve_client settle
  handle_event e s = do
    x ← checked (s.heap e.pointer)
    i ← checked (s.watched e.pointer)
    (x', i') ← serve_client e x i
    settle e.pointer x' i' s

unfoldable pub sweep : ℕ → Server → Run Server
unfolding sweep_slots
sweep now s = do (t, s') ← sweep_slots now s.table s; ok (record s' { table = t })
