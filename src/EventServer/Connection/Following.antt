-- ===== src/EventServer/Connection/Following.antt =====
-- labs/event-webserver/http_server.c, `send_responses`: behind a body, and where the socket would
-- block.
use mathlib.Core.List.{append_assoc, append-nil}
use cs_360_internet_programm.Base.{
  ℕ, ◌+◌, ◌*◌, ◌<◌, ◌≢◌, ◌≡◌, refl, sym, ap, ◌∙◌, arith, inl, inr, true, false, List, [], ◌∷◌, ◌++◌,
  length, ltb, length-append, lt→ltb, le→ltb,
}
use cs_360_internet_programm.Base.Run.{Run, ok}
use cs_360_internet_programm.EventServer.{sending_headers, disconnected}
use cs_360_internet_programm.EventServer.Bodies.{Serving, header_text, build_ok_header-served}
use cs_360_internet_programm.EventServer.Connection.{build_header, next_request, finish_requests}
use cs_360_internet_programm.EventServer.Responses.{Opened, clear_send, put_header}
use cs_360_internet_programm.EventServer.Transfer.{Client, Sending, Socket, Done, unsent}
use cs_360_internet_programm.EventServer.Transfer.Delivery.{Delivered, Takes, Unbroken}
use cs_360_internet_programm.EventServer.Connection.Promise.{
  stage, requests_of, requests_of-append, responses, Queued, Pending, in_header, Progress, complete,
  more, gone, Queued-Current, build_header_good,
}

module _ (open_file : List ℕ → Opened) (format_date : ℕ → List ℕ) (now : ℕ) where
  abbrev pub Progresses : List Sending → ℕ → List ℕ → Run Done → Type 0
  Progresses answers bound total r =
      (d : Done) × (r ≡ ok d) × Progress open_file format_date now answers bound total d

  -- Behind a body that was sent.
  pub next_request-Progress :
      (answers : List Sending) (bound : ℕ) (before : List Serving) (s : Serving)
      (later : List Serving) (k : Socket) (c : Client)
      → Queued open_file format_date now before s later c
      → length (responses open_file format_date now later) + 2 * length later < bound
      → Progresses answers bound
          (k.sent ++ responses open_file format_date now later)
          (next_request open_file format_date true now k c)
  unfolding next_request
  next_request-Progress answers bound before s [] k c q light = (
    record {
      result = 0;
      socket = k;
      client =
          finish_requests open_file format_date true now
            (record c { cur_request = c.cur_request + 1 });
    },
    rw (last, next_request) refl,
    complete refl refl refl refl refl (sym (append-nil k.sent)),
  )
    where
      last : ltb (c.cur_request + 1) (length c.requests) ≡ false
      last =
          rw (q.requests, q.current)
            (le→ltb _ _ (omega (arith, length-append (requests_of before) (s.request ∷ []))))
  next_request-Progress answers bound before s (t ∷ later) k c q light = (
    record {
      result = 1;
      socket = k;
      client = put_header now (header_text open_file format_date now t) cleared_client;
    },
    rw (again, next_request) (rw built refl),
    more (before ++ (s ∷ [])) t later _ refl queued (in_header refl refl)
        (λ e. omega (arith, light)) refl,
  )
    where
      cleared_client : Client
      cleared_client =
          clear_send (record c { cur_request = c.cur_request + 1; state = sending_headers })

      again : ltb (c.cur_request + 1) (length c.requests) ≡ true
      again =
          rw (q.requests, q.current)
            (lt→ltb _ _ (
              omega (
                arith,
                length-append (requests_of before) (s.request ∷ t.request ∷ requests_of later),
              )))

      shifted : c.requests ≡ requests_of (before ++ (s ∷ [])) ++ (t.request ∷ requests_of later)
      shifted =
          q.requests
          ∙ sym (append_assoc (requests_of before) (s.request ∷ []) (t.request ∷ requests_of later))
          ∙ ap (λ r. r ++ (t.request ∷ requests_of later)) (sym (requests_of-append before s))

      count : c.cur_request + 1 ≡ length (requests_of (before ++ (s ∷ [])))
      count =
          rw (q.current, requests_of-append before s)
            (omega (arith, length-append (requests_of before) (s.request ∷ [])))

      queued :
          Queued open_file format_date now
            (before ++ (s ∷ []))
            t
            later
            (put_header now (header_text open_file format_date now t) cleared_client)
      queued = record {
        requests = shifted;
        current = count;
        good = q.good;
        served = q.rest.0;
        rest = q.rest.1;
      }

      built :
          build_header open_file format_date true now cleared_client
          ≡ ok (put_header now (header_text open_file format_date now t) cleared_client)
      built =
          build_header_good open_file format_date now cleared_client q.good
          ∙ build_ok_header-served open_file format_date now t cleared_client q.rest.0 (
              Queued-Current open_file format_date now (before ++ (s ∷ [])) t later cleared_client
                (record {
                  requests = shifted;
                  current = count;
                  good = q.good;
                  served = q.rest.0;
                  rest = q.rest.1;
                }))

  -- The parts of a client that sending leaves alone.
  pub Queued-Delivered :
      (before : List Serving) (s : Serving) (later : List Serving) (k : Socket) (c : Client)
      (d : Done)
      → Delivered k c d
      → Queued open_file format_date now before s later c
      → Queued open_file format_date now before s later d.client
  Queued-Delivered before s later k c d r q = record {
    requests = ap (λ x. x.requests) r.only ∙ q.requests;
    current = ap (λ x. x.cur_request) r.only ∙ q.current;
    good = ap (λ x. x.status) r.only ∙ q.good;
    served = q.served;
    rest = q.rest;
  }

  -- A call of `send_data` that was stopped.
  pub stopped-Progress :
      (answers : List Sending) (bound : ℕ) (before : List Serving) (s : Serving)
      (later : List Serving) (tail : List ℕ) (k : Socket) (c : Client) (d : Done)
      → Queued open_file format_date now before s later c
      → Delivered k c d
      → (d.client.state ≡ c.state
          → Pending open_file format_date now s later d.client (unsent d.client ++ tail))
      → (Takes answers
          → length (unsent d.client) + length tail + 2 * length later + stage c.state < bound)
      → (Unbroken answers → d.client.state ≡ c.state)
      → c.state ≢ disconnected
      → Progress open_file format_date now answers bound
          (k.sent ++ (unsent c ++ tail))
          (record d { result = 1 })
  stopped-Progress answers bound before s later tail k c d q r pending light stays sending =
      elim r.states [
        | inl same ↦
            more before s later (unsent d.client ++ tail) refl
              (Queued-Delivered before s later k c d r q) (pending same)
              (λ t. omega (arith, light t, length-append (unsent d.client) tail, ap stage same))
              whole
        | inr lost ↦
            gone (unsent d.client ++ tail) refl lost (λ u. sending (sym (stays u) ∙ lost)) whole
      ]
    where
      whole : d.socket.sent ++ (unsent d.client ++ tail) ≡ k.sent ++ (unsent c ++ tail)
      whole =
          sym (append_assoc d.socket.sent (unsent d.client) tail)
          ∙ ap (λ b. b ++ tail) r.in_order
          ∙ append_assoc k.sent (unsent c) tail

  -- All was sent: what was sent is what was to be.
  pub sent_all :
      (k : Socket) (c : Client) (d : Done) (tail : List ℕ)
      → Delivered k c d
      → d.result ≡ 0
      → d.socket.sent ++ tail ≡ k.sent ++ (unsent c ++ tail)
  sent_all k c d tail r z =
      ap (λ b. b ++ tail)
        (sym (append-nil d.socket.sent)
          ∙ ap (λ u. d.socket.sent ++ u) (sym (r.finished z))
          ∙ r.in_order)
      ∙ append_assoc k.sent (unsent c) tail
