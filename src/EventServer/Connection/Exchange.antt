-- ===== src/EventServer/Connection/Exchange.antt =====
-- labs/event-webserver/http_server.c, `receive_requests`: from the bytes that arrive to the first
-- response.
use cs_360_internet_programm.Base.{
  ℕ, zero, suc, ◌-◌, ◌≤◌, ◌<◌, ◌≡◌, ◌≢◌, refl, sym, ap, ◌∙◌, arith, inl, inr, true, List, [], ◌∷◌,
  ◌++◌, map, length, replicate, ◌==◌, Bool-cases, All, le→ltb, get_elem?,
}
use cs_360_internet_programm.Base.Run.{ok}
use cs_360_internet_programm.EventServer.{
  buffer_max, max_requests, status_ok, Request, sending_headers,
}
use cs_360_internet_programm.EventServer.Requests.{request_to_struct}
use cs_360_internet_programm.EventServer.Messages.{Message, IsMessage, render_all, to_request}
use cs_360_internet_programm.EventServer.RoundTrip.{request_to_struct-render, split_at-render}
use cs_360_internet_programm.EventServer.Responses.{Opened, clear_send, put_header}
use cs_360_internet_programm.EventServer.Bodies.{
  Serving, IsServed, header_text, build_ok_header-served,
}
use cs_360_internet_programm.EventServer.Transfer.{
  Client, Receiving, received, Socket, Done, recv_data,
}
use cs_360_internet_programm.EventServer.Transfer.Overflow.{join, stamp, outcome, recv_data-chunks}
use cs_360_internet_programm.EventServer.Connection.{
  string_in, received_text, parse_and_answer, answer_requests, receive_requests,
}
use cs_360_internet_programm.EventServer.Connection.Promise.{
  requests_of, responses, Queued, Pending, in_header, build_header_good,
}

-- A text without zeros is the string in a buffer that has room behind it.
string_in-zeros :
    (text : List ℕ) (n : ℕ)
    → All (λ b. b ≢ 0) text
    → 0 < n
    → string_in (text ++ replicate n 0) ≡ ok text
unfolding string_in
string_in-zeros [] zero h p = absurd (omega (arith, p))
string_in-zeros [] (suc n) h p = refl
string_in-zeros (b ∷ text) n h p = elim (Bool-cases (b == 0)) [
  | inl t ↦ absurd (h.0 (ground (arith, t)))
  | inr f ↦ rw (f, string_in) (rw (string_in-zeros text n h.1 p) refl)
]

fitting :
    (rest : List Receiving) (k : Socket) (c : Client) (bytes : List ℕ) (time : ℕ)
    → length bytes ≤ buffer_max
    → outcome rest k c bytes time
      ≡ ok (record {
        result = 0;
        socket = record k { receivings = rest };
        client = record c { recv_buf = record c.recv_buf { bytes = bytes }; last_active = time };
      })
fitting rest k c bytes time h = rw (le→ltb buffer_max (length bytes) h) refl

module _ (open_file : List ℕ → Opened) (format_date : ℕ → List ℕ) (now : ℕ) where
  -- A text that is parsed is answered with the header of the first response.
  parse_and_answer-served :
      (text : List ℕ) (rs : List Request) (s : Serving) (k : Socket) (c : Client)
      → request_to_struct text c.requests ≡ ok (status_ok, s.request ∷ rs)
      → c.cur_request ≡ 0
      → IsServed open_file format_date now s
      → parse_and_answer open_file format_date true now text k c
        ≡ ok (record {
          result = 0;
          socket = k;
          client =
              record (put_header now
                (header_text open_file format_date now s)
                (clear_send (record c { status = status_ok; requests = s.request ∷ rs }))) {
                  state = sending_headers;
                };
        })
  unfolding parse_and_answer
  parse_and_answer-served text rs s k c e z served =
      let ready : Client =
        clear_send (record c { status = status_ok; requests = s.request ∷ rs }) in
      let header =
        build_header_good open_file format_date now ready refl
        ∙ build_ok_header-served open_file format_date now s ready served
            (ap (get_elem? (s.request ∷ rs)) z) in
      rw e (rw header refl)

  answer_requests-render :
      (m : Message) (ms : List Message) (k : Socket) (c : Client)
      → IsMessage m
      → answer_requests open_file format_date true now (render_all (m ∷ ms)) k c
        ≡ parse_and_answer open_file format_date true now (render_all (m ∷ ms)) k c
  unfolding answer_requests
  answer_requests-render m ms k c h = rw (split_at-render m (render_all ms) h, answer_requests) refl

  -- On a client without requests: a full text that was received.
  receive_requests-received :
      (text : List ℕ) (k : Socket) (c : Client) (d : Done)
      → recv_data true now k c ≡ ok d
      → d.result ≡ 0
      → d.client.recv_buf.bytes ≡ text
      → All (λ b. b ≢ 0) text
      → length text < buffer_max
      → receive_requests open_file format_date true now k c
        ≡ answer_requests open_file format_date true now text d.socket d.client
  unfolding receive_requests received_text
  receive_requests-received text k c d e z b plain short =
      rw (e, receive_requests)
        (rw z (
          rw b (
            rw (string_in-zeros text (buffer_max - length text) plain (omega (arith, short)))
              refl)))

  -- A client without requests, with nothing in its receive buffer, is sent the text of one to ten
  -- requests, in any pieces, before its socket would block. The text has no zero and is shorter than
  -- the buffer, no order to stop comes, and for each request there is a file of fewer than 10 ^ 9
  -- bytes that can be opened. Then `receive_requests`
  -- returns 0, and what `send_responses` is to send are the responses to these requests, in order.
  pub receive_requests-Queued :
      (m : Message) (ms : List Message) (s : Serving) (later : List Serving) (xs : List (List ℕ))
      (rest : List Receiving) (k : Socket) (c : Client)
      → All IsMessage (m ∷ ms)
      → length (m ∷ ms) ≤ max_requests
      → All (λ b. b ≢ 0) (render_all (m ∷ ms))
      → length (render_all (m ∷ ms)) < buffer_max
      → requests_of (s ∷ later) ≡ map to_request (m ∷ ms)
      → All (IsServed open_file format_date now) (s ∷ later)
      → join xs ≡ render_all (m ∷ ms)
      → k.receivings ≡ map received xs ++ (Receiving.blocked ∷ rest)
      → c.recv_buf.bytes ≡ []
      → c.requests ≡ []
      → c.cur_request ≡ 0
      → (d : Done) × (receive_requests open_file format_date true now k c ≡ ok d)
        × (d.result ≡ 0)
        × Queued open_file format_date now [] s later d.client
        × Pending open_file format_date now s later d.client
            (responses open_file format_date now (s ∷ later))
  receive_requests-Queued m ms s later xs rest k c h few plain short asked served arrives answers
        empty none_yet first =
      let text = render_all (m ∷ ms) in
      let c' : Client = record c {
        recv_buf = record c.recv_buf { bytes = text };
        last_active = stamp now xs c;
      } in
      let k' : Socket = record k { receivings = rest } in
      let d' : Done = record { result = 0; socket = k'; client = c' } in
      let got : recv_data true now k c ≡ ok d' =
        recv_data-chunks true now k rest xs c answers (rw empty (omega arith))
        ∙ ap (λ b. outcome rest k c b (stamp now xs c)) (ap (λ b. b ++ join xs) empty ∙ arrives)
        ∙ fitting rest k c text (stamp now xs c) (omega (arith, short)) in
      let parsed : request_to_struct text c'.requests
          ≡ ok (status_ok, s.request ∷ requests_of later) =
        ap (request_to_struct text) none_yet
        ∙ request_to_struct-render (m ∷ ms) h few
        ∙ ap (λ r. ok (status_ok, r)) (sym asked) in
      (
        _,
        receive_requests-received text k c d' got refl refl plain short
            ∙ answer_requests-render m ms k' c' h.0
            ∙ parse_and_answer-served text (requests_of later) s k' c' parsed first served.0,
        refl,
        record {
          requests = refl;
          current = first;
          good = refl;
          served = served.0;
          rest = served.1;
        },
        in_header refl refl,
      )
