-- ===== src/EventServer/Connection.antt =====
-- labs/event-webserver/http_server.c: `receive_requests`, `send_responses`, and what `http_server_run`
-- does with an event on a client. Time stands still while an event is handled.
pub mod Promise
pub mod Following
pub mod Pipeline
pub mod Rounds
pub mod Exchange
use cs_360_internet_programm.Base.{
  ℕ, zero, suc, ◌+◌, ◌-◌, Bool, true, false, ◌&&◌, ◌||◌, Option, none, some, List, [], ◌∷◌, ◌++◌,
  length, replicate, ltb, ◌==◌, if◌then◌else◌,
}
use cs_360_internet_programm.Base.Run.{Run, ok, fault, out_of_fuel, ◌>>=◌}
use cs_360_internet_programm.Base.Text.{split_at}
use cs_360_internet_programm.EventServer.{
  buffer_max, Status, status_ok, Request, State, receiving_headers, receiving_body, sending_headers,
  sending_body, disconnected,
}
use cs_360_internet_programm.EventServer.Requests.{end_of_request, request_to_struct}
use cs_360_internet_programm.EventServer.Responses.{
  Opened, clear_send, build_ok_header, build_ok_body, build_error_header, build_error_body,
}
use cs_360_internet_programm.EventServer.Transfer.{
  Buffer, Client, Socket, Done, recv_data, send_data,
}

-- The string in an array: the bytes before the first zero, which has to be there.
unfoldable pub string_in : List ℕ → Run (List ℕ)
string_in [] = fault
string_in (b ∷ bs) = elim (b == 0) [ true ↦ ok [] | false ↦ (string_in bs >>= λ s. ok (b ∷ s)) ]

-- The string in the receive buffer, which is zero behind its length.
unfoldable pub received_text : Client → Run (List ℕ)
unfolding string_in
received_text c = string_in (c.recv_buf.bytes ++ replicate (buffer_max - length c.recv_buf.bytes) 0)

abbrev pub is_ok : Status → Bool
is_ok status_ok = true
is_ok _ = false

abbrev pub is_receiving : State → Bool
is_receiving receiving_headers = true
is_receiving receiving_body = true
is_receiving _ = false

module _ (open_file : List ℕ → Opened) (format_date : ℕ → List ℕ) (running : Bool) (now : ℕ) where
  -- The header for the current request, by the status of the client.
  unfoldable pub build_header : Client → Run Client
  build_header c =
      if is_ok c.status
      then build_ok_header open_file format_date now c
      else build_error_header open_file format_date now c

  unfoldable pub build_body : Client → Run Client
  build_body c =
      if is_ok c.status then build_ok_body open_file format_date now c else ok (build_error_body c)

  -- The part of `receive_requests` behind `recv_data`. The zeros that strtok writes into the receive
  -- buffer are left out: it is cleared before it is read again.
  unfoldable pub parse_and_answer : List ℕ → Socket → Client → Run Done
  unfolding build_header
  parse_and_answer text k c = do
    (status, requests) ← request_to_struct text c.requests
    c' ← build_header (record (clear_send c) { status = status; requests = requests })
    ok (record { result = 0; socket = k; client = record c' { state = sending_headers } })

  unfoldable pub answer_requests : List ℕ → Socket → Client → Run Done
  unfolding parse_and_answer
  answer_requests text k c = elim (split_at end_of_request text) [
    | none ↦ ok (record { result = 1; socket = k; client = c })
    | some parts ↦ parse_and_answer text k c
  ]

  unfoldable pub receive_requests : Socket → Client → Run Done
  unfolding answer_requests received_text
  receive_requests k c = do
    d ← recv_data running now k c
    if d.result == 0
        then (received_text d.client >>= λ text. answer_requests text d.socket d.client)
        else ok (record d { result = 1; client = record d.client { state = disconnected } })

  -- All responses were sent: the buffers and the requests are cleared.
  abbrev pub finish_requests : Client → Client
  finish_requests c = record c {
    cur_request = 0;
    requests = [];
    recv_buf = record c.recv_buf { bytes = [] };
    state = receiving_headers;
  }

  -- The next request, if there is one; the length of the send buffer is set by its header.
  unfoldable pub next_request : Socket → Client → Run Done
  unfolding build_header
  next_request k c =
      let moved : Client = record c { cur_request = c.cur_request + 1 } in
      elim (ltb moved.cur_request (length c.requests)) [
        | true ↦ (do
          c' ← build_header (clear_send (record moved { state = sending_headers }))
          ok (record { result = 1; socket = k; client = c' }))
        | false ↦ ok (record { result = 0; socket = k; client = finish_requests moved })
      ]

  -- The second test of `send_responses`, for the state that the first leaves.
  unfoldable pub send_body : Socket → Client → Run Done
  unfolding next_request
  send_body k c = do
    d ← send_data running k c
    if d.result == 0 then next_request d.socket d.client else ok (record d { result = 1 })

  unfoldable pub send_header : Socket → Client → Run Done
  unfolding build_body send_body
  send_header k c = do
    d ← send_data running k c
    if d.result == 0
        then (build_body (clear_send d.client) >>= λ c'.
            send_body d.socket (record c' { state = sending_body }))
        else ok (record d { result = 1 })

  unfoldable pub send_in : State → Socket → Client → Run Done
  unfolding send_header send_body
  send_in sending_headers k c = send_header k c
  send_in sending_body k c = send_body k c
  send_in _ k c = ok (record { result = 1; socket = k; client = c })

  unfoldable pub send_responses : Socket → Client → Run Done
  unfolding send_in
  send_responses k c = send_in c.state k c
