-- ===== src/EventServer/Table/Moves.antt =====
-- labs/event-webserver/http_server.c, `receive_requests` and `send_responses`: the states that they
-- leave a client in.
use cs_360_internet_programm.Base.{
  ℕ, ◌+◌, ◌≡◌, refl, ap, ◌∙◌, ◌⊎◌, inl, inr, Bool, true, false, none, some, List, length, ltb, ◌==◌,
  if◌then◌else◌, Bool-cases,
}
use cs_360_internet_programm.Base.Run.{ok, ◌>>=◌, Every, >>=-Every, ok-Every}
use cs_360_internet_programm.Base.Text.{split_at}
use cs_360_internet_programm.EventServer.{
  State, receiving_headers, receiving_body, sending_headers, sending_body, disconnected,
}
use cs_360_internet_programm.EventServer.Requests.{end_of_request, request_to_struct}
use cs_360_internet_programm.EventServer.Responses.{Opened, clear_send}
use cs_360_internet_programm.EventServer.Transfer.{
  Client, Socket, Done, recv_loop, recv_data, send_loop, send_data,
}
use cs_360_internet_programm.EventServer.Table.{Interest, input, output, is_disconnected}
use cs_360_internet_programm.EventServer.Connection.{
  build_header, build_body, answer_requests, parse_and_answer, receive_requests, received_text,
  next_request, send_body, send_header, send_in, send_responses,
}
use cs_360_internet_programm.EventServer.Table.States.{
  recv_loop-state, send_loop-state, build_header-state,
}

-- What a client in a state waits for.
abbrev pub waits : Interest → State → Bool
waits input receiving_headers = true
waits input receiving_body = true
waits output sending_headers = true
waits output sending_body = true
waits _ _ = false

-- A call returned 0 and the client waits for `new`, or it returned something else and the client
-- waits for `old` as before, or is disconnected.
abbrev pub Turns : Interest → Interest → Done → Type 0
Turns new old d =
    (((d.result == 0) ≡ true) × (waits new d.client.state ≡ true))
    ⊎ (((d.result == 0) ≡ false)
        × ((waits old d.client.state ≡ true) ⊎ (is_disconnected d.client.state ≡ true)))

module _ (open_file : List ℕ → Opened) (format_date : ℕ → List ℕ) (running : Bool) (now : ℕ) where
  parse_and_answer-Turns :
      (text : List ℕ) (k : Socket) (c : Client)
      → Every (Turns output input) (parse_and_answer open_file format_date running now text k c)
  unfolding parse_and_answer
  parse_and_answer-Turns text k c =
      >>=-Every (request_to_struct text c.requests) _ (Turns output input) (λ r f.
        >>=-Every
          (build_header open_file format_date running now
            (record (clear_send c) { status = r.0; requests = r.1 }))
          _ (Turns output input) (λ c' g. ok-Every _ (Turns output input) (inl (refl, refl))))

  answer_requests-Turns :
      (text : List ℕ) (k : Socket) (c : Client)
      → waits input c.state ≡ true
      → Every (Turns output input) (answer_requests open_file format_date running now text k c)
  unfolding answer_requests
  answer_requests-Turns text k c w =
      elim (split_at end_of_request text)
        as (λ o. Every (Turns output input) (elim o [
          | none ↦ ok (record { result = 1; socket = k; client = c })
          | some parts ↦ parse_and_answer open_file format_date running now text k c
        ])) [
          | none ↦ ok-Every _ (Turns output input) (inr (refl, inl w))
          | some parts ↦ parse_and_answer-Turns text k c
        ]

  pub receive_requests-Turns :
      (k : Socket) (c : Client)
      → waits input c.state ≡ true
      → Every (Turns output input) (receive_requests open_file format_date running now k c)
  unfolding receive_requests recv_data
  receive_requests-Turns k c w =
      >>=-Every (recv_loop running now k.receivings k c) _ (Turns output input)
        (λ d e. behind d (rw (recv_loop-state running now k.receivings k c d e) w))
    where
      behind :
          (d : Done)
          → waits input d.client.state ≡ true
          → Every (Turns output input) (
              if d.result == 0
              then (received_text d.client >>= λ text.
                  answer_requests open_file format_date running now text d.socket d.client)
              else ok (record d { result = 1; client = record d.client { state = disconnected } }))
      behind d v = elim (Bool-cases (d.result == 0)) [
        | inl t ↦ rw t (
            >>=-Every (received_text d.client) _ (Turns output input)
              (λ text f. answer_requests-Turns text d.socket d.client v))
        | inr f ↦ rw f (ok-Every _ (Turns output input) (inr (refl, inr refl)))
      ]

  next_request-Turns :
      (k : Socket) (c : Client)
      → Every (Turns input output) (next_request open_file format_date running now k c)
  unfolding next_request
  next_request-Turns k c = elim (Bool-cases (ltb (c.cur_request + 1) (length c.requests))) [
    | inl t ↦
        rw (t, next_request)
          (>>=-Every (build_header open_file format_date running now following) _
            (Turns input output)
            (λ c' e. ok-Every _ (Turns input output) (
              inr (
                refl,
                inl (
                    ap (waits output)
                      (build_header-state open_file format_date running now following c' e)),
              ))))
    | inr f ↦ rw (f, next_request) (ok-Every _ (Turns input output) (inl (refl, refl)))
  ]
    where
      following : Client
      following = clear_send (record c { cur_request = c.cur_request + 1; state = sending_headers })

  sent-Turns :
      (d : Done)
      → (waits output d.client.state ≡ true) ⊎ (is_disconnected d.client.state ≡ true)
      → Every (Turns input output) (ok (record d { result = 1 }))
  sent-Turns d h = ok-Every _ (Turns input output) (inr (refl, h))

  send_body-Turns :
      (k : Socket) (c : Client)
      → waits output c.state ≡ true
      → Every (Turns input output) (send_body open_file format_date running now k c)
  unfolding send_body send_data
  send_body-Turns k c w =
      >>=-Every (send_loop running k.sendings k.sent k c) _ (Turns input output) (λ d e.
        elim (send_loop-state running k.sendings k.sent k c d e) [
          | inl (z, same) ↦ rw z (next_request-Turns d.socket d.client)
          | inr (o, states) ↦ rw o (
              sent-Turns d (elim states [
                | inl s ↦ inl (ap (waits output) s ∙ w)
                | inr s ↦ inr (ap is_disconnected s)
              ]))
        ])

  send_header-Turns :
      (k : Socket) (c : Client)
      → waits output c.state ≡ true
      → Every (Turns input output) (send_header open_file format_date running now k c)
  unfolding send_header send_data
  send_header-Turns k c w =
      >>=-Every (send_loop running k.sendings k.sent k c) _ (Turns input output) (λ d e.
        elim (send_loop-state running k.sendings k.sent k c d e) [
          | inl (z, same) ↦ rw z (
              >>=-Every (build_body open_file format_date running now (clear_send d.client)) _
                (Turns input output)
                (λ c' f. send_body-Turns d.socket (record c' { state = sending_body }) refl))
          | inr (o, states) ↦ rw o (
              sent-Turns d (elim states [
                | inl s ↦ inl (ap (waits output) s ∙ w)
                | inr s ↦ inr (ap is_disconnected s)
              ]))
        ])

  send_in-Turns :
      (st : State) (k : Socket) (c : Client)
      → c.state ≡ st
      → waits output st ≡ true
      → Every (Turns input output) (send_in open_file format_date running now st k c)
  unfolding send_in
  send_in-Turns sending_headers k c e w = send_header-Turns k c (ap (waits output) e)
  send_in-Turns sending_body k c e w = send_body-Turns k c (ap (waits output) e)
  send_in-Turns receiving_headers k c e w = absurd (cc)
  send_in-Turns receiving_body k c e w = absurd (cc)
  send_in-Turns disconnected k c e w = absurd (cc)

  pub send_responses-Turns :
      (k : Socket) (c : Client)
      → waits output c.state ≡ true
      → Every (Turns input output) (send_responses open_file format_date running now k c)
  unfolding send_responses
  send_responses-Turns k c w = send_in-Turns c.state k c refl w
