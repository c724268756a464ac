-- ===== src/ThreadedServer/Client/Served.antt =====
-- labs/threaded-webserver/http_server.c, `handle_client`: whole requests and their responses.
use mathlib.Core.List.{append_assoc, append-nil}
use cs_360_internet_programm.Base.{
  ℕ, zero, suc, ◌^◌, ◌<◌, ◌≡◌, ◌≢◌, refl, sym, ap, ◌∙◌, arith, Bool, true, false, List, [], ◌∷◌,
  ◌++◌, map, length, replicate, drop, All, length-drop, length-replicate, lt→ltb,
}
use cs_360_internet_programm.Base.Run.{ok}
use cs_360_internet_programm.EventServer.Messages.{
  Message, IsMessage, first_line, host_line, render_header, render, to_request,
}
use cs_360_internet_programm.EventServer.Lines.{tokens_ended}
use cs_360_internet_programm.EventServer.Fields.{request_lines-message}
use cs_360_internet_programm.EventServer.RoundTrip.{
  split_at-render, first_line-IsLine, host_line-IsLine, headers-IsLine,
}
use cs_360_internet_programm.EventServer.Requests.{taken, request_lines}
use cs_360_internet_programm.EventServer.Responses.{
  Opened, ok_text, common_headers, set_content_length_header,
}
use cs_360_internet_programm.EventServer.Bodies.{Serving, IsServed, header_text}
use cs_360_internet_programm.EventServer.Connection.Promise.{requests_of, responses}
use cs_360_internet_programm.EventServer.Transfer.{Receiving, received, take}
use cs_360_internet_programm.EventServer.Transfer.Delivery.{take-drop}
use cs_360_internet_programm.ThreadedServer.{buffer_max}
use cs_360_internet_programm.ThreadedServer.Client.{
  before_zero, has_end, request_to_struct, send_file, send_opened, send_response, answer,
  client_loop, handle_client,
}
use cs_360_internet_programm.ThreadedServer.Client.Pieces.{has_end-found, client_loop-whole}

-- A request that fits the array and has no zero.
pub record Fits (m : Message) : Type 0 where
  pub message : IsMessage m
  pub plain : All (λ b. b ≢ 0) (render m)
  pub short : length (render m) < buffer_max

has_end-render : (m : Message) (rest : List ℕ) → Fits m → has_end (render m ++ rest) ≡ ok true
has_end-render m rest f =
    has_end-found (render m) rest f.plain (split_at-render m (before_zero rest) f.message)

request_to_struct-render_one :
    (m : Message) → IsMessage m → request_to_struct (render m) ≡ ok (taken (to_request m))
unfolding request_to_struct
request_to_struct-render_one m h =
    ap request_lines (
      tokens_ended (first_line m) (host_line m ∷ map render_header m.headers)
        (first_line-IsLine m h) (host_line-IsLine m h, headers-IsLine m.headers h.each))
    ∙ request_lines-message m h

module _ (open_file : List ℕ → Opened) (format_date : ℕ → List ℕ) (send : List ℕ → List ℕ)
    (now : ℕ) where
  module _ (whole : (xs : List ℕ) → send xs ≡ xs) where
    send_file-contents :
        (fuel : ℕ) (contents : List ℕ)
        → length contents < fuel
        → send_file open_file format_date send now fuel contents ≡ ok contents
    unfolding send_file
    send_file-contents zero contents h = absurd (omega (arith, h))
    send_file-contents (suc fuel) [] h = refl
    send_file-contents (suc fuel) (x ∷ contents) h =
        let all : List ℕ = x ∷ contents in
        rw
          (send_file-contents fuel (drop buffer_max all)
            (omega (arith, h, length-drop buffer_max all)))
          (ap (λ l. ok (l ++ drop buffer_max all)) (whole (take buffer_max all))
            ∙ ap ok (take-drop buffer_max all))

    ok_text-served :
        (s : Serving)
        → IsServed open_file format_date now s
        → ok_text open_file format_date now s.line s.contents s.changed
          ≡ ok (header_text open_file format_date now s)
    unfolding ok_text common_headers set_content_length_header
    ok_text-served s w = rw (lt→ltb (length s.contents) (10 ^ 9) w.small) refl

    -- The file of a request is sent behind its header, which fits its array.
    send_response-served :
        (s : Serving)
        → IsServed open_file format_date now s
        → length (header_text open_file format_date now s) < buffer_max
        → send_response open_file format_date send now s.request
          ≡ ok (header_text open_file format_date now s ++ s.contents)
    unfolding send_response send_opened
    send_response-served s w short =
        rw (w.has_line, send_response)
          (rw w.readable (
            rw (ok_text-served s w) (
              rw (send_file-contents (suc (length s.contents)) s.contents (omega arith)) (
                rw (lt→ltb _ buffer_max short) (
                  ap (λ l. ok (l ++ s.contents))
                    (whole (header_text open_file format_date now s)))))))

    answer-served :
        (m : Message) (s : Serving)
        → IsMessage m
        → IsServed open_file format_date now s
        → length (header_text open_file format_date now s) < buffer_max
        → s.request ≡ to_request m
        → answer open_file format_date send now (render m)
          ≡ ok (header_text open_file format_date now s ++ s.contents)
    unfolding answer
    answer-served m s h w short e =
        rw (request_to_struct-render_one m h, answer)
          (ap (send_response open_file format_date send now) (sym e)
            ∙ send_response-served s w short)

    -- A file that can be opened, with a header that fits its array.
    abbrev pub Ready : Serving → Type 0
    Ready s =
        IsServed open_file format_date now s
        × (length (header_text open_file format_date now s) < buffer_max)

    abbrev pub one_by_one : List Message → List Receiving
    one_by_one [] = Receiving.closed ∷ []
    one_by_one (m ∷ ms) = received (render m) ∷ one_by_one ms

    client_loop-served :
        (running : Bool) (ms : List Message) (ss : List Serving) (memory sent : List ℕ)
        → All Fits ms
        → All Ready ss
        → requests_of ss ≡ map to_request ms
        → length memory ≡ buffer_max
        → client_loop open_file format_date send now running (one_by_one ms) memory 0 sent
          ≡ ok (record { sent = sent ++ responses open_file format_date now ss; closed = false })
    unfolding client_loop
    client_loop-served running [] [] memory sent f w e room =
        ap (λ l. ok (record { sent = l; closed = false })) (sym (append-nil sent))
    client_loop-served running [] (s ∷ ss) memory sent f w e room = absurd (cc)
    client_loop-served running (m ∷ ms) [] memory sent f w e room = absurd (cc)
    client_loop-served running (m ∷ ms) (s ∷ ss) memory sent f w e room =
        client_loop-whole open_file format_date send now running (one_by_one ms) sent (render m)
          memory f.0.plain (λ rest. has_end-render m rest f.0) (omega (arith, f.0.short, room))
        ∙ rw (answer-served m s f.0.message w.0.0 w.0.1 (cc)) (
            client_loop-served running ms ss (replicate buffer_max 0)
              (sent ++ (header_text open_file format_date now s ++ s.contents)) f.1 w.1 (cc)
              (length-replicate {A = ℕ} buffer_max 0)
            ∙ ap (λ l. ok (record { sent = l; closed = false }))
                (append_assoc sent (header_text open_file format_date now s ++ s.contents)
                    (responses open_file format_date now ss)
                  ∙ ap (λ l. sent ++ l)
                      (append_assoc (header_text open_file format_date now s) s.contents
                        (responses open_file format_date now ss))))

    -- A client that sends requests, each in one piece that fits the array and has no zero, and then
    -- closes, over a socket that takes all that is sent: whatever the array had in it, and if for each
    -- request there is a file that can be opened, of fewer than 10 ^ 9 bytes and with a header that
    -- fits its array, the responses to the requests are sent, in order; and the socket stays open.
    pub handle_client-served :
        (running : Bool) (ms : List Message) (ss : List Serving) (memory : List ℕ)
        → All Fits ms
        → All Ready ss
        → requests_of ss ≡ map to_request ms
        → length memory ≡ buffer_max
        → handle_client open_file format_date send now true running memory (one_by_one ms)
          ≡ ok (record { sent = responses open_file format_date now ss; closed = false })
    unfolding handle_client
    handle_client-served running ms ss memory f w e room =
        client_loop-served running ms ss memory [] f w e room
