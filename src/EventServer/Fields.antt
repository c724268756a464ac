-- ===== src/EventServer/Fields.antt =====
-- labs/event-webserver/http_server.c, `request_to_struct`: the words of a line.
use mathlib.Core.List.{append_assoc, append-nil}
use cs_360_internet_programm.Base.{
  ℕ, ◌+◌, ◌≤◌, ◌<◌, ◌≡◌, ◌≢◌, refl, sym, ap, ◌∙◌, arith, true, false, some, List, [], ◌∷◌, ◌++◌,
  map, length, All, leb, ◌==◌, length-append, Bool-cases, inl, inr,
}
use cs_360_internet_programm.Base.Run.{ok}
use cs_360_internet_programm.Base.Text.{codes, string_eq, scan_word}
use cs_360_internet_programm.Base.Text.Laws.{
  Plain, scan_word-space, scan_word-skip, scan_word_last, string_eq-eq,
}
use cs_360_internet_programm.EventServer.{header_max, Header, Request}
use cs_360_internet_programm.EventServer.Requests.{
  is_known, filetype_of, get_filename_ext, page_of, taken, request_line, str_replace, header_line,
  header_lines, cleared, request_lines,
}
use cs_360_internet_programm.EventServer.Messages.{
  Method, get, post, head, Message, method_text, IsWord, IsHeader, IsMessage, first_line, host_line,
  render_header, to_request,
}

pub method-IsWord : (m : Method) → IsWord (method_text m)
method-IsWord get = record { plain = ground arith; filled = omega arith }
method-IsWord post = record { plain = ground arith; filled = omega arith }
method-IsWord head = record { plain = ground arith; filled = omega arith }

pub version-IsWord : IsWord (codes "HTTP/1.1")
version-IsWord = record { plain = ground arith; filled = omega arith }

known_method :
    (m : Method)
    → ((length (method_text m) == 0) ≡ false)
      × (leb 16 (length (method_text m)) ≡ false)
      × (is_known (method_text m) ≡ true)
unfolding string_eq
known_method get = (refl, refl, refl)
known_method post = (refl, refl, refl)
known_method head = (refl, refl, refl)

-- The request line gives its fields back.
request_line-first :
    (m : Message)
    → IsWord m.uri
    → request_line (first_line m)
      ≡ ok (
          taken (record {
            method = method_text m.method;
            uri = m.uri;
            filetype = filetype_of (get_filename_ext (page_of m.uri));
            version = codes "HTTP/1.1";
          }))
unfolding request_line string_eq
request_line-first m u =
    let (some_method, short, known) = known_method m.method in
    rw (one, two, three, some_method, short, known) refl
  where
    version : List ℕ
    version = codes "HTTP/1.1"

    one : scan_word (first_line m) ≡ (method_text m.method, 32 ∷ (m.uri ++ (32 ∷ version)))
    one =
        scan_word-space (method_text m.method) (m.uri ++ (32 ∷ version))
          (method-IsWord m.method).plain (method-IsWord m.method).filled

    two : scan_word (32 ∷ (m.uri ++ (32 ∷ version))) ≡ (m.uri, 32 ∷ version)
    two = scan_word-skip (m.uri ++ (32 ∷ version)) ∙ scan_word-space m.uri version u.plain u.filled

    three : scan_word (32 ∷ version) ≡ (version, [])
    three =
        scan_word-skip version ∙ scan_word_last version version-IsWord.plain version-IsWord.filled

header_line-host :
    (host : List ℕ) (r : Request)
    → IsWord host
    → header_line (codes "Host:" ++ (32 ∷ host)) r ≡ ok (record r { host = some host })
unfolding header_line string_eq
header_line-host host r w = rw (one, two) refl
  where
    one : scan_word (codes "Host:" ++ (32 ∷ host)) ≡ (codes "Host:", 32 ∷ host)
    one = scan_word-space (codes "Host:") host (ground arith) (omega arith)

    two : scan_word (32 ∷ host) ≡ (host, [])
    two = scan_word-skip host ∙ scan_word_last host w.plain w.filled

str_replace-name : (w : List ℕ) → All (λ c. c ≢ b':') w → str_replace (w ++ (b':' ∷ [])) ≡ w
unfolding str_replace
str_replace-name [] h = refl
str_replace-name (c ∷ w) h =
    let e : (c == b':') ≡ false = ground (arith, h.0) in rw e (ap (◌∷◌ c) (str_replace-name w h.1))

pub Plain-colon : (w : List ℕ) → Plain w → Plain (w ++ (b':' ∷ []))
Plain-colon [] h = (refl, tt)
Plain-colon (c ∷ w) h = (h.0, Plain-colon w h.1)

colon-cancel : (v w : List ℕ) → v ++ (b':' ∷ []) ≡ w ++ (b':' ∷ []) → v ≡ w
colon-cancel [] [] e = refl
colon-cancel [] (d ∷ w) e = absurd (omega (arith, ap length e, length-append w (b':' ∷ [])))
colon-cancel (c ∷ v) [] e = absurd (omega (arith, ap length e, length-append v (b':' ∷ [])))
colon-cancel (c ∷ v) (d ∷ w) e = ground (arith, colon-cancel v w)

header_line-header :
    (h : Header) (r : Request)
    → IsHeader h
    → length r.headers < header_max
    → header_line (render_header h) r ≡ ok (record r { headers = r.headers ++ (h ∷ []) })
unfolding header_line
header_line-header h r w room =
    rw (one, two, str_replace-name h.name w.no_colon, other, short, more) refl
  where
    one : scan_word (render_header h) ≡ (h.name ++ (b':' ∷ []), 32 ∷ h.value)
    one =
        scan_word-space (h.name ++ (b':' ∷ [])) h.value (Plain-colon h.name w.name_word.plain)
          (omega (arith, length-append h.name (b':' ∷ [])))

    two : scan_word (32 ∷ h.value) ≡ (h.value, [])
    two = scan_word-skip h.value ∙ scan_word_last h.value w.value_word.plain w.value_word.filled

    other : string_eq (h.name ++ (b':' ∷ [])) (codes "Host:") ≡ false
    other = elim (Bool-cases (string_eq (h.name ++ (b':' ∷ [])) (codes "Host:"))) [
      | inl t ↦ absurd (w.not_host (colon-cancel h.name (codes "Host") (string_eq-eq _ _ t)))
      | inr f ↦ f
    ]

    short : leb 1024 (length h.name) ≡ false
    short = ground (arith, w.short)

    more : leb header_max (length r.headers) ≡ false
    more = ground (arith, room)

header_lines-headers :
    (hs : List Header) (r : Request)
    → All IsHeader hs
    → length r.headers + length hs ≤ header_max
    → header_lines (map render_header hs) r ≡ ok (record r { headers = r.headers ++ hs })
unfolding header_lines
header_lines-headers [] r w room =
    ap (λ hs. ok (record r { headers = hs })) (sym (append-nil r.headers))
header_lines-headers (h ∷ hs) r w room = rw (header_line-header h r w.0 (omega (arith, room))) (
    header_lines-headers hs (record r { headers = r.headers ++ (h ∷ []) }) w.1
      (omega (arith, room, length-append r.headers (h ∷ [])))
    ∙ ap (λ k. ok (record r { headers = k })) (append_assoc r.headers (h ∷ []) hs))

-- A request that is sent is parsed to its struct.
pub request_lines-message :
    (m : Message)
    → IsMessage m
    → request_lines (first_line m ∷ host_line m ∷ map render_header m.headers)
      ≡ ok (taken (to_request m))
unfolding request_lines header_lines
request_lines-message m w = rw (request_line-first m w.uri_word) (
    rw (header_line-host m.host (record cleared { line = (to_request m).line }) w.host_word) (
      rw
        (header_lines-headers m.headers (record (to_request m) { headers = [] }) w.each
          (omega (arith, w.few)))
        refl))
