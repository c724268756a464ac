-- ===== src/EventServer/Requests.antt =====
-- labs/event-webserver/http_server.c, `request_to_struct` and its helpers. `fault` is a write outside
-- an array, or the use of memory that no `sscanf` filled.
use cs_360_internet_programm.Base.{
  ℕ, zero, suc, Bool, not, ◌||◌, Option, none, some, List, [], ◌∷◌, ◌++◌, length, ltb, leb, ◌==◌,
  if◌then◌else◌,
}
use cs_360_internet_programm.Base.Run.{Run, ok, fault, out_of_fuel, ◌>>=◌}
use cs_360_internet_programm.Base.Text.{codes, string_eq, split_at, split_tokens, scan_word}
use cs_360_internet_programm.EventServer.{
  header_max, max_requests, Status, status_ok, not_implemented, internal_error, Header, RequestLine,
  Request,
}

-- What follows the last dot, if there is one.
unfoldable pub last_ext : List ℕ → Option (List ℕ)
last_ext [] = none
last_ext (c ∷ cs) = elim (last_ext cs) [
  | some ext ↦ some ext
  | none ↦ if c == b'.' then some cs else none
]

-- A dot at the start does not count.
unfoldable pub get_filename_ext : List ℕ → List ℕ
unfolding last_ext
get_filename_ext [] = []
get_filename_ext (c ∷ cs) = elim (last_ext cs) [ some ext ↦ ext | none ↦ [] ]

abbrev pub html : List ℕ
html = codes "text/html"

abbrev pub text : List ℕ
text = codes "text/plain"

abbrev pub jpeg : List ℕ
jpeg = codes "image/jpeg"

abbrev pub gif : List ℕ
gif = codes "image/gif"

abbrev pub png : List ℕ
png = codes "image/png"

abbrev pub pdf : List ℕ
pdf = codes "application/pdf"

unfoldable pub filetype_of : List ℕ → List ℕ
unfolding string_eq
filetype_of ext =
    if string_eq ext (codes "html")
    then html
    else if string_eq ext (codes "txt")
    then text
    else if string_eq ext (codes "jpg")
    then jpeg
    else if string_eq ext (codes "gif")
    then gif
    else if string_eq ext (codes "png")
    then png
    else if string_eq ext (codes "pdf")
    then pdf
    else text

abbrev pub is_known : List ℕ → Bool
is_known method =
    string_eq method (codes "GET")
    || (string_eq method (codes "POST") || string_eq method (codes "HEAD"))

-- A line or a request that is taken, or the status that ends the parse.
pub data Parsed {ℓ} (A : Type ℓ) : Type ℓ where
  taken : A → Parsed A
  refused : Status → Parsed A

-- The index page, whose extension the content type of "/" goes by.
abbrev pub page_of : List ℕ → List ℕ
page_of uri = if string_eq uri (codes "/") then codes "/index.html" else uri

-- `method` has room for 15 characters, `version` for 31, `uri` for more than the receive buffer holds.
unfoldable pub request_line : List ℕ → Run (Parsed RequestLine)
unfolding get_filename_ext filetype_of
request_line l =
    let (method, behind) = scan_word l in
    let (uri, behind') = scan_word behind in
    let (version, behind'') = scan_word behind' in
    let made : RequestLine = record {
      method = method;
      uri = uri;
      filetype = filetype_of (get_filename_ext (page_of uri));
      version = version;
    } in
    if (length method == 0) || (leb 16 (length method) || leb 32 (length version))
    then fault
    else if not (is_known method)
    then ok (refused not_implemented)
    else if length version == 0
    then fault
    else if string_eq version (codes "HTTP/1.1")
    then ok (taken made)
    else ok (refused internal_error)

-- `str_replace(name, ":", "\0")`: the replacement is the empty string.
unfoldable pub str_replace : List ℕ → List ℕ
str_replace [] = []
str_replace (c ∷ cs) = if c == b':' then str_replace cs else c ∷ str_replace cs

-- A line behind the first. The buffer of `str_replace` has 1024 bytes.
unfoldable pub header_line : List ℕ → Request → Run Request
unfolding str_replace string_eq
header_line l r =
    let (name, behind) = scan_word l in
    let (value, behind') = scan_word behind in
    let plain = str_replace name in
    let made : Header = record { name = plain; value = value } in
    if string_eq name (codes "Host:")
    then ok (record r { host = some value })
    else if leb 1024 (length plain) || leb header_max (length r.headers)
    then fault
    else ok (record r { headers = r.headers ++ (made ∷ []) })

unfoldable pub header_lines : List (List ℕ) → Request → Run Request
unfolding header_line
header_lines [] r = ok r
header_lines (l ∷ ls) r = do r' ← header_line l r; header_lines ls r'

-- `httpr` before its lines are read, which `calloc` or `memset` cleared.
abbrev pub cleared : Request
cleared = record { line = none; host = none; headers = [] }

abbrev pub end_of_line : ℕ → Bool
end_of_line c = (c == 13) || (c == 10)

unfoldable pub request_lines : List (List ℕ) → Run (Parsed Request)
unfolding request_line header_lines
request_lines [] = ok (taken cleared)
request_lines (l ∷ ls) = do
  p ← request_line l
  elim p [
    | refused st ↦ ok (refused st)
    | taken line ↦ (do r ← header_lines ls (record cleared { line = some line }); ok (taken r))
  ]

abbrev pub end_of_request : List ℕ
end_of_request = 13 ∷ 10 ∷ 13 ∷ 10 ∷ []

-- A request is added, if there is room for it, and the loop goes on; a refusal ends it. Only the
-- refusal of a method writes nothing to the array of requests.
unfoldable pub add_request :
    List Request
    → Parsed Request
    → (List Request → Run (Status × List Request))
    → Run (Status × List Request)
add_request rs (refused not_implemented) next = ok (not_implemented, rs)
add_request rs (refused st) next = if ltb (length rs) max_requests then ok (st, rs) else fault
add_request rs (taken r) next =
    if ltb (length rs) max_requests then next (rs ++ (r ∷ [])) else fault

-- The loop over the requests in the text, with those that were added before.
unfoldable pub parse_requests : ℕ → List ℕ → List Request → Run (Status × List Request)
unfolding request_lines add_request
parse_requests zero s rs = out_of_fuel
parse_requests (suc fuel) s rs = elim (split_at end_of_request s) [
  | none ↦ ok (status_ok, rs)
  | some (request, rest) ↦ request_lines (split_tokens end_of_line [] request) >>= λ p.
      add_request rs p (parse_requests fuel rest)
]

-- Each round takes four bytes at least.
unfoldable pub request_to_struct : List ℕ → List Request → Run (Status × List Request)
unfolding parse_requests split_at
request_to_struct s rs = parse_requests (suc (length s)) s rs
