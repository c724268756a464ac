-- ===== src/EventServer/Responses.antt =====
-- labs/event-webserver/http_server.c: the headers and bodies of the responses. Opening a file and the
-- text of a date are the system's and the C library's; files have fewer than 2 ^ 31 bytes.
use cs_360_internet_programm.Base.{
  ℕ, zero, suc, ◌+◌, ◌*◌, ◌^◌, Option, none, some, List, [], ◌∷◌, ◌++◌, length, get_elem?, ltb,
  if◌then◌else◌, drop,
}
use cs_360_internet_programm.Base.Run.{Run, ok, fault, out_of_fuel, ◌>>=◌}
use cs_360_internet_programm.Base.Text.{codes, string_eq, decimal}
use cs_360_internet_programm.EventServer.{
  unset, buffer_max, Status, status_ok, bad_request, forbidden, not_found, not_implemented,
  internal_error, RequestLine,
}
use cs_360_internet_programm.EventServer.Transfer.{Buffer, Client, take}

abbrev pub crlf : List ℕ
crlf = 13 ∷ 10 ∷ []

abbrev pub server_name : List ℕ
server_name = codes "Prestige/CS360 (Ubuntu 64-bit)"

-- What `open` gives: the contents of the file and the time of its last change, or why there is none.
pub data Opened : Type 0 where
  opened : List ℕ → ℕ → Opened
  missing denied failed : Opened

-- The text that `set_header` adds.
unfoldable pub set_header : List ℕ → List ℕ → List ℕ
set_header name value = name ++ (codes ": " ++ (value ++ crlf))

-- `num` has room for nine digits.
unfoldable pub set_content_length_header : ℕ → Run (List ℕ)
unfolding set_header decimal
set_content_length_header n =
    if ltb n (10 ^ 9) then ok (set_header (codes "Content-Length") (decimal n)) else fault

-- The status line and the page of an error; the `switch` has a case for errors only.
abbrev pub error_line : Status → Option (List ℕ)
error_line unset = none
error_line status_ok = none
error_line bad_request = some (codes "400 Bad Request")
error_line forbidden = some (codes "403 Forbidden")
error_line not_found = some (codes "404 Not Found")
error_line not_implemented = some (codes "501 Not Implemented")
error_line internal_error = some (codes "500 Internal Server Error")

abbrev pub error_page : Status → List ℕ
error_page unset = []
error_page status_ok = []
error_page bad_request = codes "<h1>400 - Bad Request</h1>"
error_page forbidden = codes "<h1>403 - Forbidden</h1>"
error_page not_found = codes "<h1>404 - Not Found</h1>"
error_page not_implemented = codes "<h1>501 - Not Implemented</h1>"
error_page internal_error = codes "<h1>500 - Internal Server Error</h1>"

-- `memset` of the send buffer, with position and length.
abbrev pub clear_send : Client → Client
clear_send c = record c { send_buf = record c.send_buf { bytes = []; position = 0 } }

-- A header is written from the start of the send buffer, and `length` is set to its length.
abbrev pub put_header : ℕ → List ℕ → Client → Client
put_header now bytes c = record c {
  send_buf = record c.send_buf { bytes = bytes };
  last_active = now;
}

abbrev pub file_path : List ℕ → List ℕ
file_path uri = codes "www" ++ (if string_eq (codes "/") uri then codes "/index.html" else uri)

-- The file of the current request, whose struct has no URI if no request line was read.
abbrev pub current_line : Client → Option RequestLine
current_line c = elim (get_elem? c.requests c.cur_request) [ none ↦ none | some r ↦ r.line ]

-- One round of the loop that reads the file: the buffer grows to twice what it needs.
abbrev pub append_chunk : List ℕ → Buffer → Buffer
append_chunk chunk b =
    let new_length = length b.bytes + length chunk in
    record b {
      bytes = b.bytes ++ chunk;
      max_length = if ltb b.max_length new_length then new_length * 2 else b.max_length;
    }

unfoldable pub read_file : ℕ → List ℕ → Buffer → Run Buffer
read_file zero contents b = out_of_fuel
read_file (suc fuel) [] b = ok b
read_file (suc fuel) (x ∷ contents) b =
    read_file fuel (drop buffer_max (x ∷ contents))
      (append_chunk (take buffer_max (x ∷ contents)) b)

abbrev pub build_error_body : Client → Client
build_error_body c = record c { send_buf = record c.send_buf { bytes = [] } }

-- What the reads of the body give; from a file that cannot be opened, nothing.
abbrev pub contents_of : Opened → List ℕ
contents_of (opened contents changed) = contents
contents_of missing = []
contents_of denied = []
contents_of failed = []

module _ (open_file : List ℕ → Opened) (format_date : ℕ → List ℕ) where
  -- The headers that every response has: date, server, type, length, last change.
  unfoldable pub common_headers : ℕ → List ℕ → ℕ → ℕ → Run (List ℕ)
  unfolding set_header set_content_length_header
  common_headers now filetype size changed = do
    size_header ← set_content_length_header size
    ok (
        set_header (codes "Date") (format_date now)
        ++ (set_header (codes "Server") server_name
            ++ (set_header (codes "Content-Type") filetype
                ++ (size_header
                    ++ (set_header (codes "Last-Modified") (format_date changed) ++ crlf)))))

  unfoldable pub error_text : ℕ → Status → Run (List ℕ)
  unfolding common_headers
  error_text now st = elim (error_line st) [
    | none ↦ fault
    | some line ↦ (do
      headers ← common_headers now (codes "text/html") (length (error_page st)) now
      ok (codes "HTTP/1.1 " ++ (line ++ (crlf ++ (headers ++ error_page st)))))
  ]

  unfoldable pub build_error_header : ℕ → Client → Run Client
  unfolding error_text
  build_error_header now c = do t ← error_text now c.status; ok (put_header now t c)

  unfoldable pub ok_text : ℕ → RequestLine → List ℕ → ℕ → Run (List ℕ)
  unfolding common_headers
  ok_text now line contents changed = do
    headers ← common_headers now line.filetype (length contents) changed
    ok (line.version ++ (codes " 200 OK" ++ (crlf ++ headers)))

  -- What follows the call of `open` in `build_ok_header`.
  unfoldable pub header_of : ℕ → RequestLine → Opened → Client → Run Client
  unfolding ok_text build_error_header
  header_of now line (opened contents changed) c = do
    t ← ok_text now line contents changed
    ok (put_header now t c)
  header_of now line missing c = build_error_header now (record c { status = not_found })
  header_of now line denied c = build_error_header now (record c { status = forbidden })
  header_of now line failed c = build_error_header now (record c { status = internal_error })

  unfoldable pub build_ok_header : ℕ → Client → Run Client
  unfolding header_of
  build_ok_header now c = elim (current_line c) [
    | none ↦ fault
    | some line ↦ header_of now line (open_file (file_path line.uri)) c
  ]

  unfoldable pub build_ok_body : ℕ → Client → Run Client
  unfolding read_file
  build_ok_body now c = elim (current_line c) [
    | none ↦ fault
    | some line ↦ (do
      let contents = contents_of (open_file (file_path line.uri))
      b ← read_file (suc (length contents)) contents c.send_buf
      ok (record c { send_buf = b; last_active = now }))
  ]
