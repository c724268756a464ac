-- ===== src/EventServer/Table/Safe.antt =====
-- labs/event-webserver/http_server.c, `http_server_run`: no client is used behind its release.
use mathlib.Core.Path.{subst}
use cs_360_internet_programm.Base.{
  ◌⊎◌, inl, inr, ℕ, ◌≡◌, refl, sym, ◌∙◌, Bool, true, some, List, All,
}
use cs_360_internet_programm.Base.Run.{fault, out_of_fuel, Run-cases, ok, ◌>>=◌, >>=-eq-ok, ok-inj}
use cs_360_internet_programm.EventServer.Responses.{Opened}
use cs_360_internet_programm.EventServer.Table.{
  Connected, Server, Event, Interest, empty_server, accept_client, sweep, serve_client, settle,
  handle_event,
}
use cs_360_internet_programm.EventServer.Table.Moves.{waits}
use cs_360_internet_programm.EventServer.Table.Handled.{Raised, serve_client-Settled}
use cs_360_internet_programm.EventServer.Table.Swept.{Young}
use cs_360_internet_programm.EventServer.Table.Valid.{
  gone, live, IsValid, empty_server-IsValid, accept_client-IsValid, sweep-Swept, sweep-IsValid,
  settle-IsValid,
}

module _ (open_file : List ℕ → Opened) (format_date : ℕ → List ℕ) where
  -- What the loop does in a round: clients that come, events that epoll reports, the sweep.
  pub data Step (s : Server) : Server → Type 0 where
    accepted : (now : ℕ) (came : Bool) → Step s (accept_client now came s)
    handled :
        (running : Bool) (now : ℕ) (e : Event) (i : Interest) (s' : Server)
        → s.watched e.pointer ≡ some i
        → Raised i e
        → handle_event open_file format_date running now e s ≡ ok s'
        → Step s s'
    swept : (now : ℕ) (s' : Server) → sweep now s ≡ ok s' → Step s s'

  pub data Reached : Server → Type 0 where
    start : Reached empty_server
    next : {s t : Server} → Reached s → Step s t → Reached t

  -- An event finds the client, and its handler ends well unless receiving or sending does not.
  abbrev pub Serves : Bool → ℕ → Server → Event → Interest → Type 0
  Serves running now s e i =
      (x : Connected) × (s.heap e.pointer ≡ some x)
      × (((serve_client open_file format_date running now e x i ≡ fault)
            ⊎ (serve_client open_file format_date running now e x i ≡ out_of_fuel))
          ⊎ ((s' : Server) × (handle_event open_file format_date running now e s ≡ ok s')
              × IsValid s'))

  handle_event-settle :
      (running : Bool) (now : ℕ) (e : Event) (s : Server) (x : Connected) (i : Interest)
      → s.heap e.pointer ≡ some x
      → s.watched e.pointer ≡ some i
      → handle_event open_file format_date running now e s
        ≡ (serve_client open_file format_date running now e x i >>= λ r. settle e.pointer r.0 r.1 s)
  unfolding handle_event
  handle_event-settle running now e s x i h w = rw h (rw w refl)

  -- A client that was served is stored or removed.
  served-IsValid :
      (running : Bool) (now : ℕ) (s : Server) (e : Event) (x : Connected) (i : Interest)
      (r : Connected × Interest)
      → IsValid s
      → s.heap e.pointer ≡ some x
      → s.watched e.pointer ≡ some i
      → waits i x.client.state ≡ true
      → Raised i e
      → serve_client open_file format_date running now e x i ≡ ok r
      → (s' : Server) × (handle_event open_file format_date running now e s ≡ ok s') × IsValid s'
  served-IsValid running now s e x i r v h w waiting raised f =
      let settled =
        serve_client-Settled open_file format_date running now e x i waiting raised r f in
      let (s', g, v') = settle-IsValid e.pointer r.0 r.1 s v (x, h) settled in
      (s', handle_event-settle running now e s x i h w ∙ rw f g, v')

  -- The client of an event waits for what epoll watches.
  event-Live :
      (s : Server) (e : Event) (i : Interest)
      → IsValid s
      → s.watched e.pointer ≡ some i
      → (x : Connected) × (s.heap e.pointer ≡ some x) × (waits i x.client.state ≡ true)
  event-Live s e i v w = elim (v.each e.pointer) [
    | gone h none_watched ↦ absurd (cc)
    | live x j h k waiting ↦
        (let same : j ≡ i = cc in (x, h, subst (λ n. waits n x.client.state ≡ true) same waiting))
  ]

  Step-IsValid : {s t : Server} → IsValid s → Step s t → IsValid t
  Step-IsValid {s} v (accepted now came) = accept_client-IsValid now came s v
  Step-IsValid {s} v (swept now t e) =
      let (t', f, v') = sweep-IsValid now s v in subst IsValid (ok-inj (sym f ∙ e)) v'
  Step-IsValid {s} v (handled running now e i t w raised f) =
      let (x, h, waiting) = event-Live s e i v w in
      let (r, g, k) =
        >>=-eq-ok (serve_client open_file format_date running now e x i)
          (λ r. settle e.pointer r.0 r.1 s)
          (sym (handle_event-settle running now e s x i h w) ∙ f) in
      let (t', l, v') = served-IsValid running now s e x i r v h w waiting raised g in
      subst IsValid (ok-inj (sym l ∙ f)) v'

  -- Whatever clients come, events are reported and sweeps are made: no client has two slots, every
  -- slot that is not free points to a client that was not freed, and epoll watches for input on
  -- exactly the sockets of the clients that receive, and for output on those of the clients that
  -- send.
  pub Reached-IsValid : (s : Server) → Reached s → IsValid s
  Reached-IsValid s start = empty_server-IsValid
  Reached-IsValid s (next r step) = Step-IsValid (Reached-IsValid _ r) step

  -- In a state that the loop can be in, the sweep frees no client twice, and no slot has a client
  -- that was idle for five seconds behind it. An event that epoll reports, on what it watches for, is
  -- one on a client that was not freed, and the whole handler ends well unless receiving or sending
  -- for this client does not.
  pub Reached-Serves :
      (s : Server) (running : Bool) (now : ℕ) (e : Event) (i : Interest)
      → Reached s
      → s.watched e.pointer ≡ some i
      → Raised i e
      → ((s' : Server) × (sweep now s ≡ ok s') × IsValid s' × All (Young now s'.heap) s'.table)
        × Serves running now s e i
  Reached-Serves s running now e i reached w raised =
      let v = Reached-IsValid s reached in
      let (t, s', g, v', young) = sweep-Swept now s v in
      let (x, h, waiting) = event-Live s e i v w in
      (
        (record s' { table = t }, g, v', young.live),
        (
          x,
          h,
          elim (Run-cases (serve_client open_file format_date running now e x i)) [
            | inl broken ↦ inl broken
            | inr (r, f) ↦ inr (served-IsValid running now s e x i r v h w waiting raised f)
          ],
        ),
      )
