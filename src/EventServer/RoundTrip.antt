-- ===== src/EventServer/RoundTrip.antt =====
-- labs/event-webserver/http_server.c, `request_to_struct`: requests that are sent are read back.
use mathlib.Core.List.{append_assoc, append-nil}
use cs_360_internet_programm.Base.{
  ℕ, zero, suc, ◌+◌, ◌≤◌, ◌<◌, ◌≡◌, refl, sym, ap, ◌∙◌, arith, true, false, some, List, [], ◌∷◌,
  ◌++◌, map, length, All, ltb, length-append, lt→ltb,
}
use cs_360_internet_programm.Base.Run.{ok}
use cs_360_internet_programm.Base.Text.{codes, after, split_at, split_tokens}
use cs_360_internet_programm.Base.Text.Laws.{Plain}
use cs_360_internet_programm.EventServer.{max_requests, status_ok, Header, Request}
use cs_360_internet_programm.EventServer.Requests.{
  end_of_request, end_of_line, add_request, parse_requests, request_to_struct,
}
use cs_360_internet_programm.EventServer.Messages.{
  Message, method_text, IsWord, IsHeader, IsMessage, first_line, host_line, render_header,
  lines_text, render, render_all, to_request,
}
use cs_360_internet_programm.EventServer.Lines.{IsLine, split_lines, tokens_lines}
use cs_360_internet_programm.EventServer.Fields.{
  method-IsWord, version-IsWord, Plain-colon, request_lines-message,
}

inside-append :
    (l k : List ℕ)
    → All (λ c. end_of_line c ≡ false) l
    → All (λ c. end_of_line c ≡ false) k
    → All (λ c. end_of_line c ≡ false) (l ++ k)
inside-append [] k h g = g
inside-append (c ∷ l) k h g = (h.0, inside-append l k h.1 g)

Plain-inside : (w : List ℕ) → Plain w → All (λ c. end_of_line c ≡ false) w
Plain-inside [] h = tt
Plain-inside (c ∷ w) h = (ground (arith, h.0), Plain-inside w h.1)

-- Two words with a space between them are a line.
words-IsLine :
    (v w : List ℕ) → IsWord v → All (λ c. end_of_line c ≡ false) w → IsLine (v ++ (32 ∷ w))
words-IsLine v w a b = record {
  inside = inside-append v (32 ∷ w) (Plain-inside v a.plain) (refl, b);
  filled = omega (arith, a.filled, length-append v (32 ∷ w));
}

pub first_line-IsLine : (m : Message) → IsMessage m → IsLine (first_line m)
first_line-IsLine m w =
    words-IsLine (method_text m.method) (m.uri ++ (32 ∷ codes "HTTP/1.1")) (method-IsWord m.method)
      (words-IsLine m.uri (codes "HTTP/1.1") w.uri_word
        (Plain-inside (codes "HTTP/1.1") version-IsWord.plain)).inside

pub host_line-IsLine : (m : Message) → IsMessage m → IsLine (host_line m)
host_line-IsLine m w =
    words-IsLine (codes "Host:") m.host (record { plain = ground arith; filled = omega arith })
      (Plain-inside m.host w.host_word.plain)

pub headers-IsLine : (hs : List Header) → All IsHeader hs → All IsLine (map render_header hs)
headers-IsLine [] h = tt
headers-IsLine (x ∷ hs) h = (
  words-IsLine (x.name ++ (b':' ∷ [])) x.value
      (record {
        plain = Plain-colon x.name h.0.name_word.plain;
        filled = omega (arith, length-append x.name (b':' ∷ []));
      })
      (Plain-inside x.value h.0.value_word.plain),
  headers-IsLine hs h.1,
)

-- strstr finds the end of the first of several requests.
pub split_at-render :
    (m : Message) (rest : List ℕ)
    → IsMessage m
    → split_at end_of_request (render m ++ rest)
      ≡ some (lines_text (first_line m) (host_line m ∷ map render_header m.headers), rest)
split_at-render m rest h =
    rw
      (append_assoc (lines_text (first_line m) (host_line m ∷ map render_header m.headers))
        end_of_request rest)
      (split_lines (first_line m) (host_line m ∷ map render_header m.headers) rest
        (first_line-IsLine m h) (host_line-IsLine m h, headers-IsLine m.headers h.each))

parse_requests-render :
    (fuel : ℕ) (ms : List Message) (rs : List Request)
    → All IsMessage ms
    → length rs + length ms ≤ max_requests
    → length ms < fuel
    → parse_requests fuel (render_all ms) rs ≡ ok (status_ok, rs ++ map to_request ms)
unfolding parse_requests add_request
parse_requests-render zero ms rs h room enough = absurd (omega (arith, enough))
parse_requests-render (suc fuel) [] rs h room enough =
    unfold split_at after in ap (λ k. ok (status_ok, k)) (sym (append-nil rs))
parse_requests-render (suc fuel) (m ∷ ms) rs h room enough =
    rw (split_at-render m (render_all ms) h.0, parse_requests)
      (rw (parts) (
        rw (request_lines-message m h.0) (
          rw (more, add_request)
            (parse_requests-render fuel ms (rs ++ (to_request m ∷ [])) h.1
                (omega (arith, room, length-append rs (to_request m ∷ []))) (omega (arith, enough))
              ∙ ap (λ k. ok (status_ok, k))
                  (append_assoc rs (to_request m ∷ []) (map to_request ms))))))
  where
    lines : List (List ℕ)
    lines = host_line m ∷ map render_header m.headers

    each : All IsLine lines
    each = (host_line-IsLine m h.0, headers-IsLine m.headers h.0.each)

    parts : split_tokens end_of_line [] (lines_text (first_line m) lines) ≡ first_line m ∷ lines
    parts = tokens_lines (first_line m) lines (first_line-IsLine m h.0) each

    more : ltb (length rs) max_requests ≡ true
    more = lt→ltb _ _ (omega (arith, room))

length-render_all : (ms : List Message) → length ms ≤ length (render_all ms)
length-render_all [] = omega arith
length-render_all (m ∷ ms) = omega (
  arith,
  length-render_all ms,
  length-append (render m) (render_all ms),
  length-append (lines_text (first_line m) (host_line m ∷ map render_header m.headers))
      end_of_request,
)

-- At most ten requests that are sent one behind the other, each with a known method, a URI, a host
-- and at most twelve headers, all words without white space, where no name of a header has a colon or
-- 1024 characters or is that of the host, are parsed to as many structs in the same order, with the
-- content type that the URI has by its extension, and the status is OK.
pub request_to_struct-render :
    (ms : List Message)
    → All IsMessage ms
    → length ms ≤ max_requests
    → request_to_struct (render_all ms) [] ≡ ok (status_ok, map to_request ms)
unfolding request_to_struct
request_to_struct-render ms h few =
    parse_requests-render (suc (length (render_all ms))) ms [] h (omega (arith, few))
      (omega (arith, length-render_all ms))
