-- ===== src/ThreadedServer/Client.antt =====
-- labs/threaded-webserver/http_server.c, `handle_client` and what it calls. The functions on lines,
-- names and headers are the same text as in labs/event-webserver, so are their models. What `recv`
-- returns is given, one answer for a call, and what `send` takes of a buffer; `memory` is what the
-- array `request` has in it at the start.
pub mod Pieces
pub mod Served
use cs_360_internet_programm.Base.{
  ℕ, zero, suc, ◌+◌, Bool, true, false, Option, none, some, List, [], ◌∷◌, ◌++◌, length, replicate,
  set, drop, ltb, ◌==◌, if◌then◌else◌,
}
use cs_360_internet_programm.Base.Run.{Run, ok, fault, out_of_fuel, checked, ◌>>=◌}
use cs_360_internet_programm.Base.Bytes.{write_at}
use cs_360_internet_programm.Base.Text.{split_at, split_tokens}
use cs_360_internet_programm.EventServer.{
  Status, not_found, forbidden, internal_error, RequestLine, Request,
}
use cs_360_internet_programm.EventServer.Requests.{
  Parsed, taken, refused, end_of_line, end_of_request, request_lines,
}
use cs_360_internet_programm.EventServer.Responses.{
  Opened, opened, missing, denied, failed, file_path, ok_text, error_text,
}
use cs_360_internet_programm.EventServer.Transfer.{Receiving, received, take}
use cs_360_internet_programm.ThreadedServer.{buffer_max}

-- The string in an array: the bytes before the first zero.
unfoldable pub before_zero : List ℕ → List ℕ
before_zero [] = []
before_zero (b ∷ bs) = if b == 0 then [] else b ∷ before_zero bs

-- `strstr(request, "\r\n\r\n")`, which reads on behind an array that has neither that nor a zero.
unfoldable pub has_end : List ℕ → Run Bool
unfolding before_zero
has_end buffer = elim (split_at end_of_request (before_zero buffer)) [
  | some parts ↦ ok true
  | none ↦ if ltb (length (before_zero buffer)) (length buffer) then ok false else fault
]

-- The lines of the whole text are read, also those behind its first empty line.
unfoldable pub request_to_struct : List ℕ → Run (Parsed Request)
unfolding request_lines split_tokens
request_to_struct request = request_lines (split_tokens end_of_line [] request)

-- How `handle_client` ends: what was sent, and whether the socket was closed.
pub record Ended : Type 0 where
  pub sent : List ℕ
  pub closed : Bool

module _ (open_file : List ℕ → Opened) (format_date : ℕ → List ℕ) (send : List ℕ → List ℕ)
    (now : ℕ) where
  unfoldable pub send_error_response : Status → Run (List ℕ)
  unfolding error_text
  send_error_response status = do
    response ← error_text open_file format_date now status
    if ltb (length response) buffer_max then ok (send response) else fault

  -- The file, in pieces of the size of `buf`.
  unfoldable pub send_file : ℕ → List ℕ → Run (List ℕ)
  send_file zero contents = out_of_fuel
  send_file (suc fuel) [] = ok []
  send_file (suc fuel) (x ∷ contents) = do
    rest ← send_file fuel (drop buffer_max (x ∷ contents))
    ok (send (take buffer_max (x ∷ contents)) ++ rest)

  -- What follows the call of `open`.
  unfoldable pub send_opened : RequestLine → Opened → Run (List ℕ)
  unfolding ok_text send_error_response send_file
  send_opened line (opened contents changed) = do
    response ← ok_text open_file format_date now line contents changed
    body ← send_file (suc (length contents)) contents
    if ltb (length response) buffer_max then ok (send response ++ body) else fault
  send_opened line missing = send_error_response not_found
  send_opened line denied = send_error_response forbidden
  send_opened line failed = send_error_response internal_error

  unfoldable pub send_response : Request → Run (List ℕ)
  unfolding send_opened
  send_response r = elim r.line [
    | none ↦ fault
    | some line ↦ send_opened line (open_file (file_path line.uri))
  ]

  -- The response to a text in the buffer.
  unfoldable pub answer : List ℕ → Run (List ℕ)
  unfolding request_to_struct send_response send_error_response
  answer request = do
    p ← request_to_struct request
    elim p [ taken r ↦ send_response r | refused status ↦ send_error_response status ]

  -- The loop: `bytes_read` is what the last call of `recv` returned, or 0 behind a response.
  unfoldable pub client_loop : Bool → List Receiving → List ℕ → ℕ → List ℕ → Run Ended
  unfolding has_end answer write_at
  client_loop running [] request bytes_read sent = out_of_fuel
  client_loop running (Receiving.closed ∷ rs) request bytes_read sent =
      ok (record { sent = sent; closed = false })
  client_loop running (Receiving.interrupted ∷ rs) request bytes_read sent =
      ok (record { sent = sent; closed = if running then false else true })
  client_loop running (Receiving.blocked ∷ rs) request bytes_read sent =
      ok (record { sent = sent; closed = false })
  client_loop running (Receiving.broken ∷ rs) request bytes_read sent =
      ok (record { sent = sent; closed = false })
  client_loop running (received bs ∷ rs) request bytes_read sent = do
    request' ← checked (write_at request bytes_read bs)
    found ← has_end request'
    elim found [
      | false ↦ client_loop running rs request' (length bs) sent
      | true ↦ (do
        response ← answer (before_zero (set request' (length bs) 0))
        client_loop running rs (replicate buffer_max 0) 0 (sent ++ response))
    ]

  -- `named` says whether `getnameinfo` finds a name.
  unfoldable pub handle_client : Bool → Bool → List ℕ → List Receiving → Run Ended
  unfolding client_loop
  handle_client named running memory rs =
      if named
      then client_loop running rs memory 0 []
      else ok (record { sent = []; closed = false })
