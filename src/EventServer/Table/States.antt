-- ===== src/EventServer/Table/States.antt =====
-- labs/event-webserver/http_server.c: the state of a client behind the transfers and the headers.
use cs_360_internet_programm.Base.{
  ℕ, ◌≡◌, refl, sym, ap, ◌∙◌, ◌⊎◌, inl, inr, Bool, true, false, Option, none, some, List, [], ◌∷◌,
  ◌++◌, length, ltb, ◌==◌, Bool-cases,
}
use cs_360_internet_programm.Base.Run.{ok, fault, >>=-eq-ok, ok-inj, Every, ok-Every}
use cs_360_internet_programm.EventServer.{
  buffer_max, forbidden, not_found, internal_error, RequestLine, State, disconnected,
}
use cs_360_internet_programm.EventServer.Responses.{
  Opened, opened, missing, denied, failed, header_of, current_line, build_ok_header,
  build_error_header, error_text, ok_text, file_path, put_header,
}
use cs_360_internet_programm.EventServer.Transfer.{
  Client, Receiving, received, closed, Sending, took, Socket, bytes_left, advance, unsent, take,
  Done, append_received, recv_loop, send_loop,
}
use cs_360_internet_programm.EventServer.Connection.{is_ok, build_header}

pub append_received-state :
    (now : ℕ) (bs : List ℕ) (c c' : Client) → append_received now bs c ≡ ok c' → c'.state ≡ c.state
unfolding append_received
append_received-state now bs c c' e =
    elim (Bool-cases (ltb buffer_max (length (c.recv_buf.bytes ++ bs)))) [
      | inl t ↦ absurd (cc (rw t at e))
      | inr f ↦ ap (λ c. c.state) (sym (ok-inj (rw f at e)))
    ]

pub recv_loop-state :
    (running : Bool) (now : ℕ) (rs : List Receiving) (k : Socket) (c : Client) (d : Done)
    → recv_loop running now rs k c ≡ ok d
    → d.client.state ≡ c.state
unfolding recv_loop
recv_loop-state running now [] k c d e = absurd (cc)
recv_loop-state running now (received bs ∷ rs) k c d e =
    let (c', a, b) = >>=-eq-ok (append_received now bs c) (λ c'. recv_loop running now rs k c') e in
    recv_loop-state running now rs k c' d b ∙ append_received-state now bs c c' a
recv_loop-state running now (closed ∷ rs) k c d e = ap (λ d. d.client.state) (sym (ok-inj e))
recv_loop-state running now (Receiving.blocked ∷ rs) k c d e =
    ap (λ d. d.client.state) (sym (ok-inj e))
recv_loop-state true now (Receiving.interrupted ∷ rs) k c d e = recv_loop-state true now rs k c d e
recv_loop-state false now (Receiving.interrupted ∷ rs) k c d e =
    ap (λ d. d.client.state) (sym (ok-inj e))
recv_loop-state running now (Receiving.broken ∷ rs) k c d e =
    ap (λ d. d.client.state) (sym (ok-inj e))

-- The state behind `send_data`: with 0 the client is in the state `st`.
abbrev pub Sends : State → Done → Type 0
Sends st d =
    (((d.result == 0) ≡ true) × (d.client.state ≡ st))
    ⊎ (((d.result == 0) ≡ false) × ((d.client.state ≡ st) ⊎ (d.client.state ≡ disconnected)))

module _ (running : Bool) where
  pub send_loop-state :
      (as' : List Sending) (sent : List ℕ) (k : Socket) (c : Client)
      → Every (Sends c.state) (send_loop running as' sent k c)
  unfolding send_loop
  send_loop-state [] sent k c = elim (Bool-cases (bytes_left c == 0)) [
    | inl t ↦ rw (t, send_loop) (ok-Every _ (Sends c.state) (inl (refl, refl)))
    | inr f ↦ rw (f, send_loop) (λ d e. absurd (cc e))
  ]
  send_loop-state (took n ∷ as') sent k c = elim (Bool-cases (bytes_left c == 0)) [
    | inl t ↦ rw (t, send_loop) (ok-Every _ (Sends c.state) (inl (refl, refl)))
    | inr f ↦ rw (f, send_loop) (send_loop-state as' (sent ++ take n (unsent c)) k (advance n c))
  ]
  send_loop-state (Sending.blocked ∷ as') sent k c = elim (Bool-cases (bytes_left c == 0)) [
    | inl t ↦ rw (t, send_loop) (ok-Every _ (Sends c.state) (inl (refl, refl)))
    | inr f ↦ rw (f, send_loop) (ok-Every _ (Sends c.state) (inr (refl, inl refl)))
  ]
  send_loop-state (Sending.broken ∷ as') sent k c = elim (Bool-cases (bytes_left c == 0)) [
    | inl t ↦ rw (t, send_loop) (ok-Every _ (Sends c.state) (inl (refl, refl)))
    | inr f ↦ rw (f, send_loop) (ok-Every _ (Sends c.state) (inr (refl, inr refl)))
  ]
  send_loop-state (Sending.interrupted ∷ as') sent k c = elim (Bool-cases (bytes_left c == 0)) [
    | inl t ↦ rw (t, send_loop) (ok-Every _ (Sends c.state) (inl (refl, refl)))
    | inr f ↦ elim (Bool-cases running) [
      | inl r ↦ rw (f, r, send_loop) (send_loop-state as' sent k c)
      | inr r ↦ rw (f, r, send_loop) (ok-Every _ (Sends c.state) (inl (refl, refl)))
    ]
  ]

module _ (open_file : List ℕ → Opened) (format_date : ℕ → List ℕ) (running : Bool) (now : ℕ) where
  pub build_error_header-state :
      (c c' : Client) → build_error_header open_file format_date now c ≡ ok c' → c'.state ≡ c.state
  unfolding build_error_header
  build_error_header-state c c' e =
      let (t, a, b) =
        >>=-eq-ok (error_text open_file format_date now c.status) (λ t. ok (put_header now t c))
          e in
      ap (λ c. c.state) (sym (ok-inj b))

  pub header_of-state :
      (line : RequestLine) (o : Opened) (c c' : Client)
      → header_of open_file format_date now line o c ≡ ok c'
      → c'.state ≡ c.state
  unfolding header_of
  header_of-state line (opened contents changed) c c' e =
      let (t, a, b) =
        >>=-eq-ok (ok_text open_file format_date now line contents changed)
          (λ t. ok (put_header now t c)) e in
      ap (λ c. c.state) (sym (ok-inj b))
  header_of-state line missing c c' e =
      build_error_header-state (record c { status = not_found }) c' e
  header_of-state line denied c c' e =
      build_error_header-state (record c { status = forbidden }) c' e
  header_of-state line failed c c' e =
      build_error_header-state (record c { status = internal_error }) c' e

  pub line_header-state :
      (o : Option RequestLine) (c c' : Client)
      → (elim o [
        | none ↦ fault
        | some line ↦ header_of open_file format_date now line (open_file (file_path line.uri)) c
      ])
        ≡ ok c'
      → c'.state ≡ c.state
  line_header-state none c c' e = absurd (cc)
  line_header-state (some line) c c' e =
      header_of-state line (open_file (file_path line.uri)) c c' e

  pub build_header-state :
      (c c' : Client)
      → build_header open_file format_date running now c ≡ ok c'
      → c'.state ≡ c.state
  unfolding build_header build_ok_header
  build_header-state c c' e = elim (Bool-cases (is_ok c.status)) [
    | inl t ↦ line_header-state (current_line c) c c' (rw t at e)
    | inr f ↦ build_error_header-state c c' (rw f at e)
  ]
