-- ===== src/ThreadedServer.antt =====
-- labs/threaded-webserver/http_server.h: the constants and the structs of the threaded web server.
pub mod Queue
pub mod Threads
pub mod Client
mod Tests
use cs_360_internet_programm.Base.{ℕ, List}

abbrev pub buffer_max : ℕ
buffer_max = 1024

-- `queue_item_t`: a client's socket and address.
pub record QueueItem : Type 0 where
  pub client : ℕ
  pub client_addr : List ℕ
  pub client_addr_len : ℕ
