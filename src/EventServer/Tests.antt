-- ===== src/EventServer/Tests.antt =====
-- labs/event-webserver/http_server.c: the theorems on requests, transfers and responses at concrete
-- inputs.
use cs_360_internet_programm.Base.{
  ℕ, zero, suc, ◌≤◌, ◌≡◌, ◌≢◌, refl, ap, arith, Bool, true, false, none, some, List, [], ◌∷◌, ◌++◌,
  length, All,
}
use cs_360_internet_programm.Base.Run.{ok}
use cs_360_internet_programm.Base.Text.{codes, decimal}
use cs_360_internet_programm.EventServer.{
  buffer_max, status_ok, receiving_headers, sending_headers, Header, RequestLine, Request, State,
}
use cs_360_internet_programm.EventServer.Messages.{Message, get, IsMessage, render_all, to_request}
use cs_360_internet_programm.EventServer.Requests.{
  request_to_struct, filetype_of, get_filename_ext, page_of,
}
use cs_360_internet_programm.EventServer.RoundTrip.{request_to_struct-render}
use cs_360_internet_programm.EventServer.Transfer.{
  Buffer, Client, Receiving, received, Sending, took, Socket, Done, recv_data, send_data,
}
use cs_360_internet_programm.EventServer.Transfer.Delivery.{Delivered, send_data-Delivered}
use cs_360_internet_programm.EventServer.Transfer.Overflow.{outcome, recv_data-chunks}
use cs_360_internet_programm.EventServer.Responses.{Opened, opened, set_header}
use cs_360_internet_programm.EventServer.Bodies.{Serving, IsServed}
use cs_360_internet_programm.EventServer.Connection.{receive_requests}
use cs_360_internet_programm.EventServer.Connection.Exchange.{receive_requests-Queued}
use cs_360_internet_programm.EventServer.Connection.Promise.{
  Queued, Pending, in_header, responses, weight,
}
use cs_360_internet_programm.EventServer.Connection.Rounds.{
  Answering, Finished, send_rounds, send_rounds-Finished,
}

abbrev accept : Header
accept = record { name = codes "A"; value = codes "b" }

abbrev front_page : Message
front_page = record { method = get; uri = codes "/"; host = codes "me"; headers = accept ∷ [] }

front_page-IsMessage : IsMessage front_page
front_page-IsMessage = record {
  uri_word = record { plain = (refl, tt); filled = omega arith };
  host_word = record { plain = (refl, (refl, tt)); filled = omega arith };
  each = (
    record {
      name_word = record { plain = (refl, tt); filled = omega arith };
      no_colon = ((λ e. absurd (omega (arith, e))), tt);
      not_host = λ e. absurd (omega (arith, ap length e));
      short = omega arith;
      value_word = record { plain = (refl, tt); filled = omega arith };
    },
    tt,
  );
  few = omega arith;
}

request_to_struct-render_example :
    request_to_struct (render_all (front_page ∷ front_page ∷ [])) []
    ≡ ok (status_ok, to_request front_page ∷ to_request front_page ∷ [])
request_to_struct-render_example =
    request_to_struct-render (front_page ∷ front_page ∷ [])
      (front_page-IsMessage, (front_page-IsMessage, tt)) (omega arith)

abbrev buffer : List ℕ → Buffer
buffer bytes = record { bytes = bytes; max_length = buffer_max; position = 0 }

-- A client with bytes in its buffers.
abbrev client : State → List ℕ → List ℕ → List Request → Client
client state to_send arrived requests = record {
  state = state;
  send_buf = buffer to_send;
  recv_buf = buffer arrived;
  status = status_ok;
  last_active = 5;
  requests = requests;
  cur_request = 0;
}

-- A socket that takes two bytes, and then blocks.
abbrev slow_socket : Socket
slow_socket = record {
  receivings = received (3 ∷ []) ∷ received (4 ∷ 5 ∷ []) ∷ Receiving.blocked ∷ [];
  sendings = took 2 ∷ Sending.interrupted ∷ took 1 ∷ Sending.blocked ∷ [];
  sent = 9 ∷ [];
}

send_data-Delivered_example :
    (d : Done) × (send_data true slow_socket (client sending_headers (1 ∷ 2 ∷ 3 ∷ 4 ∷ []) [] [])
      ≡ ok d)
    × Delivered slow_socket (client sending_headers (1 ∷ 2 ∷ 3 ∷ 4 ∷ []) [] []) d
send_data-Delivered_example =
    send_data-Delivered slow_socket (client sending_headers (1 ∷ 2 ∷ 3 ∷ 4 ∷ []) [] []) tt

recv_data-chunks_example :
    recv_data true 7 slow_socket (client receiving_headers [] (1 ∷ 2 ∷ []) [])
    ≡ outcome [] slow_socket
        (client receiving_headers [] (1 ∷ 2 ∷ []) [])
        (1 ∷ 2 ∷ 3 ∷ 4 ∷ 5 ∷ [])
        7
recv_data-chunks_example =
    recv_data-chunks true 7 slow_socket [] ((3 ∷ []) ∷ (4 ∷ 5 ∷ []) ∷ [])
      (client receiving_headers [] (1 ∷ 2 ∷ []) []) refl (omega arith)

abbrev page_line : RequestLine
page_line = record {
  method = codes "GET";
  uri = codes "/";
  filetype = codes "text/html";
  version = codes "HTTP/1.1";
}

abbrev page : Serving
page = record {
  request = record { line = some page_line; host = none; headers = [] };
  line = page_line;
  contents = codes "hi";
  changed = 3;
}

-- Every file can be opened and has the same contents.
abbrev open_page : List ℕ → Opened
open_page path = opened (codes "hi") 3

abbrev date_text : ℕ → List ℕ
date_text time = codes "now"

page-IsServed : IsServed open_page date_text 7 page
page-IsServed = record { has_line = refl; readable = refl; small = omega arith }

abbrev two_pages : Client
two_pages = client sending_headers (codes "header") [] (page.request ∷ page.request ∷ [])

two_pages-Queued : Queued open_page date_text 7 [] page (page ∷ []) two_pages
two_pages-Queued = record {
  requests = refl;
  current = refl;
  good = refl;
  served = page-IsServed;
  rest = (page-IsServed, tt);
}

-- Each time the socket takes five bytes.
abbrev slow_reports : ℕ → List (List Sending)
slow_reports zero = []
slow_reports (suc n) = (took 5 ∷ Sending.blocked ∷ []) ∷ slow_reports n

slow_reports-Answering : (n : ℕ) → All Answering (slow_reports n)
slow_reports-Answering zero = tt
slow_reports-Answering (suc n) = ((tt, tt, tt), slow_reports-Answering n)

abbrev two_responses : List ℕ
two_responses = codes "header" ++ (codes "hi" ++ responses open_page date_text 7 (page ∷ []))

enough_reports : weight (page ∷ []) two_pages two_responses ≤ length (slow_reports 400)
unfolding set_header decimal
enough_reports = omega arith

send_rounds-Finished_example :
    (d : Done) × (send_rounds open_page date_text 7 (slow_reports 400) slow_socket two_pages ≡ ok d)
    × Finished (9 ∷ two_responses) d
send_rounds-Finished_example =
    send_rounds-Finished open_page date_text 7 (slow_reports 400) [] page (page ∷ []) two_responses
      slow_socket two_pages (slow_reports-Answering 400) two_pages-Queued (in_header refl refl)
      enough_reports

-- The front page, asked for twice.
abbrev front_line : RequestLine
front_line = record {
  method = codes "GET";
  uri = codes "/";
  filetype = filetype_of (get_filename_ext (page_of (codes "/")));
  version = codes "HTTP/1.1";
}

abbrev front : Serving
front = record {
  request = to_request front_page;
  line = front_line;
  contents = codes "hi";
  changed = 3;
}

front-IsServed : IsServed open_page date_text 7 front
front-IsServed = record { has_line = refl; readable = refl; small = omega arith }

abbrev asking_socket : Socket
asking_socket = record {
  receivings = received (render_all (front_page ∷ front_page ∷ [])) ∷ Receiving.blocked ∷ [];
  sendings = [];
  sent = [];
}

abbrev no_zero : List ℕ → Bool
no_zero [] = true
no_zero (zero ∷ bs) = false
no_zero (suc b ∷ bs) = no_zero bs

no_zero-All : (bs : List ℕ) → no_zero bs ≡ true → All (λ b. b ≢ 0) bs
no_zero-All [] h = tt
no_zero-All (zero ∷ bs) h = absurd (cc)
no_zero-All (suc b ∷ bs) h = ((λ e. omega (arith, e)), no_zero-All bs h)

receive_requests-Queued_example :
    (d : Done) × (receive_requests open_page date_text true 7 asking_socket
        (client receiving_headers [] [] [])
      ≡ ok d)
    × (d.result ≡ 0)
    × Queued open_page date_text 7 [] front (front ∷ []) d.client
    × Pending open_page date_text 7 front
        (front ∷ [])
        d.client
        (responses open_page date_text 7 (front ∷ front ∷ []))
receive_requests-Queued_example =
    receive_requests-Queued open_page date_text 7 front_page (front_page ∷ []) front (front ∷ [])
      (render_all (front_page ∷ front_page ∷ []) ∷ []) [] asking_socket
      (client receiving_headers [] [] []) (front_page-IsMessage, (front_page-IsMessage, tt))
      (omega arith) (no_zero-All (render_all (front_page ∷ front_page ∷ [])) refl) (omega arith)
      refl (front-IsServed, (front-IsServed, tt)) refl refl refl refl refl
