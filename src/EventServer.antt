-- ===== src/EventServer.antt =====
-- labs/event-webserver/http_server.h: the constants and the structs of the event-driven web server.
-- A buffer that was cleared is zero behind its length, so that the bytes up to the length are all of
-- its state; a null pointer is `none`.
pub mod Transfer
pub mod Responses
pub mod Bodies
pub mod Connection
pub mod Requests
pub mod Messages
pub mod Lines
pub mod Fields
pub mod RoundTrip
pub mod Table
mod Tests
use cs_360_internet_programm.Base.{ℕ, Bool, true, false, Option, none, some, List, [], ◌∷◌, ◌++◌}
use cs_360_internet_programm.Base.Text.{codes}

abbrev pub buffer_max : ℕ
buffer_max = 2048

abbrev pub header_max : ℕ
header_max = 12

abbrev pub max_requests : ℕ
max_requests = 10

abbrev pub max_clients : ℕ
max_clients = 100

abbrev pub expire_time : ℕ
expire_time = 5000

-- `unset` is the zero of calloc.
pub data Status : Type 0 where
  unset status_ok bad_request forbidden not_found not_implemented internal_error : Status

pub record Header : Type 0 where
  pub name : List ℕ
  pub value : List ℕ

-- What the request line sets.
pub record RequestLine : Type 0 where
  pub method : List ℕ
  pub uri : List ℕ
  pub filetype : List ℕ
  pub version : List ℕ

-- `http_request`
pub record Request : Type 0 where
  pub line : Option RequestLine
  pub host : Option (List ℕ)
  pub headers : List Header

pub data State : Type 0 where
  receiving_headers receiving_body sending_headers sending_body disconnected : State
