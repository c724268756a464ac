-- ===== src/EventServer/Connection/Promise.antt =====
-- labs/event-webserver/http_server.c, `send_responses`: what a client is still to be sent.
use cs_360_internet_programm.Base.{
  ℕ, ◌+◌, ◌*◌, ◌<◌, ◌≡◌, refl, ap, true, List, [], ◌∷◌, ◌++◌, length, get_elem?-append,
  if◌then◌else◌, All,
}
use cs_360_internet_programm.Base.Run.{ok}
use cs_360_internet_programm.EventServer.{
  status_ok, Request, State, receiving_headers, sending_headers, sending_body, disconnected,
}
use cs_360_internet_programm.EventServer.Bodies.{Serving, IsServed, header_text, Current}
use cs_360_internet_programm.EventServer.Connection.{is_ok, build_header, build_body}
use cs_360_internet_programm.EventServer.Responses.{
  Opened, build_ok_header, build_error_header, build_ok_body, build_error_body,
}
use cs_360_internet_programm.EventServer.Transfer.{Client, Sending, Done, unsent}
use cs_360_internet_programm.EventServer.Transfer.Delivery.{Takes, Unbroken}

abbrev pub requests_of : List Serving → List Request
requests_of [] = []
requests_of (s ∷ ss) = s.request ∷ requests_of ss

pub requests_of-append :
    (ss : List Serving) (s : Serving)
    → requests_of (ss ++ (s ∷ [])) ≡ requests_of ss ++ (s.request ∷ [])
requests_of-append [] s = refl
requests_of-append (t ∷ ss) s = ap (◌∷◌ t.request) (requests_of-append ss s)

abbrev pub stage : State → ℕ
stage sending_headers = 2
stage _ = 1

-- What is left to do for a client: the bytes to send, the headers and bodies to build.
abbrev pub weight : List Serving → Client → List ℕ → ℕ
weight later c p = length p + 2 * length later + stage c.state

module _ (open_file : List ℕ → Opened) (format_date : ℕ → List ℕ) (now : ℕ) where
  -- The responses, one behind the other.
  abbrev pub responses : List Serving → List ℕ
  responses [] = []
  responses (s ∷ ss) = header_text open_file format_date now s ++ (s.contents ++ responses ss)

  -- The client has the requests `before`, which were answered, the current one, and the later ones.
  pub record Queued (before : List Serving) (s : Serving) (later : List Serving) (c : Client)
      : Type 0 where
    pub requests : c.requests ≡ requests_of before ++ (s.request ∷ requests_of later)
    pub current : c.cur_request ≡ length (requests_of before)
    pub good : c.status ≡ status_ok
    pub served : IsServed open_file format_date now s
    pub rest : All (IsServed open_file format_date now) later

  -- What is still to be sent to the client.
  pub data Pending (s : Serving) (later : List Serving) (c : Client) (p : List ℕ) : Type 0 where
    in_header :
        c.state ≡ sending_headers
        → p ≡ unsent c ++ (s.contents ++ responses later)
        → Pending s later c p
    in_body : c.state ≡ sending_body → p ≡ unsent c ++ responses later → Pending s later c p

  -- What a call of `send_responses` leaves, when `total` was to be on the wire at the end, with the
  -- answers that the calls of `send` get, and a bound on what is left to do if the first answer is that
  -- bytes were taken.
  pub data Progress (answers : List Sending) (bound : ℕ) (total : List ℕ) (d : Done) : Type 0 where
    complete :
        d.result ≡ 0
        → d.client.state ≡ receiving_headers
        → d.client.requests ≡ []
        → d.client.cur_request ≡ 0
        → d.client.recv_buf.bytes ≡ []
        → d.socket.sent ≡ total
        → Progress answers bound total d
    more :
        (before : List Serving) (s : Serving) (later : List Serving) (p : List ℕ)
        → d.result ≡ 1
        → Queued before s later d.client
        → Pending s later d.client p
        → (Takes answers → weight later d.client p < bound)
        → d.socket.sent ++ p ≡ total
        → Progress answers bound total d
    gone :
        (lost : List ℕ)
        → d.result ≡ 1
        → d.client.state ≡ disconnected
        → ¬ Unbroken answers
        → d.socket.sent ++ lost ≡ total
        → Progress answers bound total d

  pub Queued-Current :
      (before : List Serving) (s : Serving) (later : List Serving) (c : Client)
      → Queued before s later c
      → Current open_file format_date now s c
  Queued-Current before s later c q =
      rw (q.requests, q.current)
        (get_elem?-append (requests_of before) s.request (requests_of later))

  pub build_header_good :
      (c : Client)
      → c.status ≡ status_ok
      → build_header open_file format_date true now c ≡ build_ok_header open_file format_date now c
  unfolding build_header
  build_header_good c e =
      ap
        (λ st.
          if is_ok st
          then build_ok_header open_file format_date now c
          else build_error_header open_file format_date now c)
        e

  pub build_body_good :
      (c : Client)
      → c.status ≡ status_ok
      → build_body open_file format_date true now c ≡ build_ok_body open_file format_date now c
  unfolding build_body
  build_body_good c e =
      ap
        (λ st.
          if is_ok st then build_ok_body open_file format_date now c else ok (build_error_body c))
        e
