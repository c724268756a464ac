-- ===== src/EventServer/Table/Handled.antt =====
-- labs/event-webserver/http_server.c: what becomes of a client while `http_server_run` handles an event.
use cs_360_internet_programm.Base.{
  ℕ, ◌≡◌, refl, ◌⊎◌, inl, inr, Bool, true, false, ◌&&◌, Bool-cases, List,
}
use cs_360_internet_programm.Base.Run.{Every, >>=-Every, ok-Every}
use cs_360_internet_programm.EventServer.Responses.{Opened}
use cs_360_internet_programm.EventServer.Transfer.{Socket}
use cs_360_internet_programm.EventServer.Connection.{is_receiving, receive_requests, send_responses}
use cs_360_internet_programm.EventServer.Table.{
  Connected, Event, Interest, input, output, is_disconnected, input_part, output_part, hang_up,
  serve_client,
}
use cs_360_internet_programm.EventServer.Table.Moves.{
  waits, receive_requests-Turns, send_responses-Turns,
}

-- epoll reports what it watches for.
abbrev pub Raised : Interest → Event → Type 0
Raised input e = e.writable ≡ false
Raised output e = e.readable ≡ false

-- epoll watches for what the client waits for, or the client is disconnected.
abbrev pub Settled : Connected × Interest → Type 0
Settled r = (waits r.1 r.0.client.state ≡ true) ⊎ (is_disconnected r.0.client.state ≡ true)

module _ (open_file : List ℕ → Opened) (format_date : ℕ → List ℕ) (running : Bool) (now : ℕ) where
  hang_up-Settled :
      (e : Event) (r : Connected × Interest) → Settled r → Settled (hang_up e r.0, r.1)
  hang_up-Settled e r h = elim (Bool-cases (e.hung_up && is_receiving r.0.client.state)) [
    | inl t ↦ rw t (inr refl)
    | inr f ↦ rw f h
  ]

  abbrev socket_of : Event → Connected → Socket
  socket_of e x = record { receivings = e.receivings; sendings = e.sendings; sent = x.sent }

  input_part-Settled :
      (e : Event) (x : Connected)
      → waits input x.client.state ≡ true
      → Every Settled (input_part open_file format_date running now e x input)
  unfolding input_part
  input_part-Settled e x w = elim (Bool-cases e.readable) [
    | inl t ↦ rw t (
        >>=-Every (receive_requests open_file format_date running now (socket_of e x) x.client) _
          Settled
          (λ d f.
            elim (receive_requests-Turns open_file format_date running now (socket_of e x) x.client
              w d f) [
                | inl (z, v) ↦ rw z (ok-Every _ Settled (inl v))
                | inr (o, states) ↦ rw o (ok-Every _ Settled states)
              ]))
    | inr f ↦ rw f (ok-Every _ Settled (inl w))
  ]

  output_part-Settled :
      (e : Event) (x : Connected)
      → waits output x.client.state ≡ true
      → Every Settled (output_part open_file format_date running now e x output)
  unfolding output_part
  output_part-Settled e x w = elim (Bool-cases e.writable) [
    | inl t ↦ rw t (
        >>=-Every (send_responses open_file format_date running now (socket_of e x) x.client) _
          Settled
          (λ d f.
            elim (send_responses-Turns open_file format_date running now (socket_of e x) x.client w
              d f) [
                | inl (z, v) ↦ rw z (ok-Every _ Settled (inl v))
                | inr (o, states) ↦ rw o (ok-Every _ Settled states)
              ]))
    | inr f ↦ rw f (ok-Every _ Settled (inl w))
  ]

  pub serve_client-Settled :
      (e : Event) (x : Connected) (i : Interest)
      → waits i x.client.state ≡ true
      → Raised i e
      → Every Settled (serve_client open_file format_date running now e x i)
  unfolding serve_client output_part input_part
  serve_client-Settled e x input w raised =
      >>=-Every (input_part open_file format_date running now e x input) _ Settled
        (λ r f. rw raised (ok-Every _ Settled (hang_up-Settled e r (input_part-Settled e x w r f))))
  serve_client-Settled e x output w raised = rw raised (
      >>=-Every (output_part open_file format_date running now e x output) _ Settled
        (λ r f. ok-Every _ Settled (hang_up-Settled e r (output_part-Settled e x w r f))))
