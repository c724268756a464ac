-- ===== src/EventServer/Table/Tests.antt =====
-- labs/event-webserver/http_server.c, `http_server_run`: a server with a hundred clients.
use cs_360_internet_programm.Base.{false, ℕ, zero, suc, ◌≡◌, refl, true, some, List, [], ◌∷◌, All}
use cs_360_internet_programm.Base.Run.{ok}
use cs_360_internet_programm.EventServer.Responses.{Opened, missing}
use cs_360_internet_programm.EventServer.Transfer.{received, Receiving}
use cs_360_internet_programm.EventServer.Table.{
  input, Server, Event, empty_server, get_new_client, accept_client, sweep,
}
use cs_360_internet_programm.EventServer.Table.Swept.{Young}
use cs_360_internet_programm.EventServer.Table.Valid.{IsValid}
use cs_360_internet_programm.EventServer.Table.Safe.{
  Reached, start, next, accepted, Serves, Reached-IsValid, Reached-Serves,
}
use cs_360_internet_programm.EventServer.Table.Idle.{is_full, sweep_all, accept_client_full}

abbrev no_file : List ℕ → Opened
no_file path = missing

abbrev no_date : ℕ → List ℕ
no_date time = []

-- The server when so many clients came at the time 5.
abbrev crowd : ℕ → Server
crowd zero = empty_server
crowd (suc n) = accept_client 5 true (crowd n)

crowd-Reached : (n : ℕ) → Reached no_file no_date (crowd n)
crowd-Reached zero = start
crowd-Reached (suc n) = next (crowd-Reached n) (accepted 5 true)

Reached-IsValid_example : IsValid (crowd 3)
Reached-IsValid_example = Reached-IsValid no_file no_date (crowd 3) (crowd-Reached 3)

-- The second client sends a part of a request.
abbrev arrival : Event
arrival = record {
  pointer = 1;
  readable = true;
  writable = false;
  hung_up = false;
  receivings = received (b'G' ∷ []) ∷ Receiving.blocked ∷ [];
  sendings = [];
}

Reached-Serves_example :
    ((s' : Server) × (sweep 7 (crowd 2) ≡ ok s') × IsValid s' × All (Young 7 s'.heap) s'.table)
    × Serves no_file no_date true 7 (crowd 2) arrival input
unfolding accept_client
Reached-Serves_example =
    Reached-Serves no_file no_date (crowd 2) true 7 arrival input (crowd-Reached 2) refl refl

crowd_full : is_full (crowd 100).table ≡ true
unfolding accept_client
crowd_full = refl

accept_client_full_example :
    (s' : Server) × (sweep_all (20000 ∷ 30000 ∷ []) (accept_client 9 true (crowd 100)) ≡ ok s')
    × (s'.heap (crowd 100).allocated ≡ some (record { client = get_new_client 9; sent = [] }))
accept_client_full_example =
    accept_client_full no_file no_date 9 (20000 ∷ 30000 ∷ []) (crowd 100) (crowd-Reached 100)
      crowd_full
