-- ===== src/EventServer/Transfer.antt =====
-- labs/event-webserver/http_server.c, `recv_data` and `send_data`, on a client and its socket. What the
-- calls of `recv` and `send` return is given, one answer for a call.
pub mod Delivery
pub mod Overflow
use cs_360_internet_programm.Base.{
  ℕ, zero, suc, ◌+◌, ◌-◌, Bool, true, false, Option, none, some, List, [], ◌∷◌, ◌++◌, length, ltb,
  ◌==◌, if◌then◌else◌, drop,
}
use cs_360_internet_programm.Base.Run.{Run, ok, fault, out_of_fuel, ◌>>=◌}
use cs_360_internet_programm.EventServer.{buffer_max, Status, Request, State, disconnected}

-- `buffer_t`: the bytes up to `length`, `max_length` and `position`.
pub record Buffer : Type 0 where
  pub bytes : List ℕ
  pub max_length : ℕ
  pub position : ℕ

-- `client_t`; the requests that count are those below `num_requests`.
pub record Client : Type 0 where
  pub state : State
  pub send_buf : Buffer
  pub recv_buf : Buffer
  pub status : Status
  pub last_active : ℕ
  pub requests : List Request
  pub cur_request : ℕ

-- `closed` is a return of 0, `blocked` EWOULDBLOCK or EAGAIN, `interrupted` EINTR, `broken` any other
-- error.
pub data Receiving : Type 0 where
  received : List ℕ → Receiving
  closed blocked interrupted broken : Receiving

pub data Sending : Type 0 where
  took : ℕ → Sending
  blocked interrupted broken : Sending

-- The answers that are still to come, and the bytes that were sent so far.
pub record Socket : Type 0 where
  pub receivings : List Receiving
  pub sendings : List Sending
  pub sent : List ℕ

-- What a call returns, 0 or 1, with the state behind it.
pub record Done : Type 0 where
  pub result : ℕ
  pub socket : Socket
  pub client : Client

abbrev pub take : ℕ → List ℕ → List ℕ
take zero xs = []
take (suc n) [] = []
take (suc n) (x ∷ xs) = x ∷ take n xs

-- The `memcpy` behind the bytes that were received before; `recv_buf.data` has `buffer_max` bytes.
unfoldable pub append_received : ℕ → List ℕ → Client → Run Client
append_received now bs c =
    let bytes = c.recv_buf.bytes ++ bs in
    if ltb buffer_max (length bytes)
    then fault
    else ok (record c { recv_buf = record c.recv_buf { bytes = bytes }; last_active = now })

-- The loop of `recv_data`. `running` is the flag that SIGINT clears.
module _ (running : Bool) (now : ℕ) where
  unfoldable pub recv_loop : List Receiving → Socket → Client → Run Done
  unfolding append_received
  recv_loop [] k c = out_of_fuel
  recv_loop (received bs ∷ rs) k c = append_received now bs c >>= λ c'. recv_loop rs k c'
  recv_loop (closed ∷ rs) k c =
      ok (record { result = 0; socket = record k { receivings = rs }; client = c })
  recv_loop (Receiving.blocked ∷ rs) k c =
      ok (record { result = 0; socket = record k { receivings = rs }; client = c })
  recv_loop (Receiving.interrupted ∷ rs) k c = elim running [
    | true ↦ recv_loop rs k c
    | false ↦ ok (record { result = 0; socket = record k { receivings = rs }; client = c })
  ]
  recv_loop (Receiving.broken ∷ rs) k c =
      ok (record { result = 1; socket = record k { receivings = rs }; client = c })

  unfoldable pub recv_data : Socket → Client → Run Done
  unfolding recv_loop
  recv_data k c = recv_loop k.receivings k c

-- `bytes_left`, which is not negative since no send takes more than it is given.
abbrev pub bytes_left : Client → ℕ
bytes_left c = length c.send_buf.bytes - c.send_buf.position

abbrev pub advance : ℕ → Client → Client
advance n c = record c { send_buf = record c.send_buf { position = c.send_buf.position + n } }

-- The bytes of the send buffer that were not sent.
abbrev pub unsent : Client → List ℕ
unsent c = drop c.send_buf.position c.send_buf.bytes

-- The loop of `send_data`, with the answers to come and the bytes that were sent.
module _ (running : Bool) where
  unfoldable pub send_loop : List Sending → List ℕ → Socket → Client → Run Done
  send_loop [] sent k c =
      if bytes_left c == 0
      then ok (record { result = 0; socket = record k { sendings = []; sent = sent }; client = c })
      else out_of_fuel
  send_loop (a ∷ rest) sent k c =
      let done : Socket = record k { sendings = a ∷ rest; sent = sent } in
      let stopped : Socket = record k { sendings = rest; sent = sent } in
      elim (bytes_left c == 0) [
        | true ↦ ok (record { result = 0; socket = done; client = c })
        | false ↦ elim a [
          | took n ↦ send_loop rest (sent ++ take n (unsent c)) k (advance n c)
          | blocked ↦ ok (record { result = 1; socket = stopped; client = c })
          | interrupted ↦ elim running [
            | true ↦ send_loop rest sent k c
            | false ↦ ok (record { result = 0; socket = stopped; client = c })
          ]
          | broken ↦
              ok (record {
                result = 1;
                socket = stopped;
                client = record c { state = disconnected };
              })
        ]
      ]

  unfoldable pub send_data : Socket → Client → Run Done
  unfolding send_loop
  send_data k c = send_loop k.sendings k.sent k c
