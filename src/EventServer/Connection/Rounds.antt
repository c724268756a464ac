-- ===== src/EventServer/Connection/Rounds.antt =====
-- labs/event-webserver/http_server.c, `http_server_run` and `send_responses`: the responses go out as
-- epoll reports again and again that the socket takes bytes.
use mathlib.Core.Path.{subst}
use cs_360_internet_programm.Base.{
  ℕ, ◌≤◌, ◌<◌, ◌≡◌, refl, ap, arith, true, false, List, [], ◌∷◌, ◌++◌, length, ◌==◌, All,
}
use cs_360_internet_programm.Base.Run.{Run, ok, out_of_fuel, ◌>>=◌}
use cs_360_internet_programm.EventServer.{receiving_headers}
use cs_360_internet_programm.EventServer.Bodies.{Serving}
use cs_360_internet_programm.EventServer.Responses.{Opened}
use cs_360_internet_programm.EventServer.Transfer.{Client, Sending, Socket, Done}
use cs_360_internet_programm.EventServer.Transfer.Delivery.{Blocks, Takes, Unbroken}
use cs_360_internet_programm.EventServer.Connection.{send_responses}
use cs_360_internet_programm.EventServer.Connection.Promise.{
  stage, weight, Queued, Pending, in_header, in_body, complete, more, gone,
}
use cs_360_internet_programm.EventServer.Connection.Pipeline.{send_responses-Progress}

-- What the calls of `send` answer behind a report: some bytes are taken first, then more or none until
-- the socket would block, and there is no error.
abbrev pub Answering : List Sending → Type 0
Answering answers = Blocks answers × Takes answers × Unbroken answers

-- All was sent, and the client is ready to receive.
pub record Finished (total : List ℕ) (d : Done) : Type 0 where
  pub result : d.result ≡ 0
  pub sent : d.socket.sent ≡ total
  pub state : d.client.state ≡ receiving_headers
  pub requests : d.client.requests ≡ []
  pub current : d.client.cur_request ≡ 0
  pub received : d.client.recv_buf.bytes ≡ []

module _ (open_file : List ℕ → Opened) (format_date : ℕ → List ℕ) (now : ℕ) where
  -- The calls of `send_responses` for one client, a call for each report, until one returns 0.
  unfoldable pub send_rounds : List (List Sending) → Socket → Client → Run Done
  unfolding send_responses
  send_rounds [] k c = out_of_fuel
  send_rounds (answers ∷ reports) k c = do
    d ← send_responses open_file format_date true now (record k { sendings = answers }) c
    elim (d.result == 0) [ true ↦ ok d | false ↦ send_rounds reports d.socket d.client ]

  work_left :
      (s : Serving) (later : List Serving) (c : Client) (p : List ℕ)
      → Pending open_file format_date now s later c p
      → 0 < weight later c p
  work_left s later c p (in_header st e) = omega (arith, ap stage st)
  work_left s later c p (in_body st e) = omega (arith, ap stage st)

  pub send_rounds-Finished :
      (reports : List (List Sending)) (before : List Serving) (s : Serving) (later : List Serving)
      (p : List ℕ) (k : Socket) (c : Client)
      → All Answering reports
      → Queued open_file format_date now before s later c
      → Pending open_file format_date now s later c p
      → weight later c p ≤ length reports
      → (d : Done) × (send_rounds reports k c ≡ ok d) × Finished (k.sent ++ p) d
  unfolding send_rounds
  send_rounds-Finished [] before s later p k c ready q w enough =
      absurd (omega (arith, enough, work_left s later c p w))
  send_rounds-Finished (answers ∷ reports) before s later p k c ready q w enough =
      let (blocks, takes, unbroken) = ready.0 in
      let (d, e, made) =
        send_responses-Progress open_file format_date now before s later p
          (record k { sendings = answers }) c blocks q w in
      elim made [
        | complete zero_result state requests current received total ↦ (
          d,
          rw e (rw (◌>>=◌, zero_result) refl),
          record {
            result = zero_result;
            sent = total;
            state = state;
            requests = requests;
            current = current;
            received = received;
          },
        )
        | more before' s' later' p' one q' w' lighter total ↦
            (let (d', e', f) =
                send_rounds-Finished reports before' s' later' p' d.socket d.client ready.1 q' w'
                  (omega (arith, enough, lighter takes)) in
              (d', rw e (rw (◌>>=◌, one) e'), subst (λ t. Finished t d') total f))
        | gone lost one state broken total ↦ absurd (broken unbroken)
      ]
