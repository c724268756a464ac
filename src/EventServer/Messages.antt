-- ===== src/EventServer/Messages.antt =====
-- The requests that a client may send to the web servers, and their text: an independent view of what
-- labs/event-webserver/http_server.c parses.
use cs_360_internet_programm.Base.{ℕ, ◌≤◌, ◌<◌, ◌≢◌, some, List, [], ◌∷◌, ◌++◌, map, length, All}
use cs_360_internet_programm.Base.Text.{codes}
use cs_360_internet_programm.Base.Text.Laws.{Plain}
use cs_360_internet_programm.EventServer.{header_max, Header, Request}
use cs_360_internet_programm.EventServer.Requests.{
  end_of_request, filetype_of, get_filename_ext, page_of,
}

pub data Method : Type 0 where
  get post head : Method

pub record Message : Type 0 where
  pub method : Method
  pub uri : List ℕ
  pub host : List ℕ
  pub headers : List Header

abbrev pub method_text : Method → List ℕ
method_text get = codes "GET"
method_text post = codes "POST"
method_text head = codes "HEAD"

-- Words have no white space, and are not empty.
pub record IsWord (w : List ℕ) : Type 0 where
  pub plain : Plain w
  pub filled : 0 < length w

-- The name of a header has no colon, and is not that of the host.
pub record IsHeader (h : Header) : Type 0 where
  pub name_word : IsWord h.name
  pub no_colon : All (λ c. c ≢ b':') h.name
  pub not_host : h.name ≢ codes "Host"
  pub short : length h.name < 1024
  pub value_word : IsWord h.value

pub record IsMessage (m : Message) : Type 0 where
  pub uri_word : IsWord m.uri
  pub host_word : IsWord m.host
  pub each : All IsHeader m.headers
  pub few : length m.headers ≤ header_max

abbrev pub first_line : Message → List ℕ
first_line m = method_text m.method ++ (32 ∷ (m.uri ++ (32 ∷ codes "HTTP/1.1")))

abbrev pub host_line : Message → List ℕ
host_line m = codes "Host:" ++ (32 ∷ m.host)

abbrev pub render_header : Header → List ℕ
render_header h = (h.name ++ (b':' ∷ [])) ++ (32 ∷ h.value)

-- Lines with an end of line between two.
abbrev pub lines_text : List ℕ → List (List ℕ) → List ℕ
lines_text l [] = l
lines_text l (k ∷ ls) = l ++ (13 ∷ 10 ∷ lines_text k ls)

abbrev pub render : Message → List ℕ
render m = lines_text (first_line m) (host_line m ∷ map render_header m.headers) ++ end_of_request

abbrev pub render_all : List Message → List ℕ
render_all [] = []
render_all (m ∷ ms) = render m ++ render_all ms

-- The struct that a request becomes.
abbrev pub to_request : Message → Request
to_request m = record {
  line = some (record {
    method = method_text m.method;
    uri = m.uri;
    filetype = filetype_of (get_filename_ext (page_of m.uri));
    version = codes "HTTP/1.1";
  });
  host = some m.host;
  headers = m.headers;
}
