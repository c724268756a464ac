-- ===== src/EventServer/Bodies.antt =====
-- labs/event-webserver/http_server.c, `build_ok_header` and `build_ok_body`: what they put in the send
-- buffer.
use mathlib.Core.List.{append_assoc, append-nil}
use cs_360_internet_programm.Base.{
  ℕ, zero, suc, ◌+◌, ◌^◌, ◌≤◌, ◌<◌, ◌≡◌, refl, sym, ap, ◌∙◌, arith, inl, inr, some, List, [], ◌∷◌,
  ◌++◌, length, get_elem?, ltb, Bool-cases, length-append, length-drop, drop, lt→ltb,
}
use cs_360_internet_programm.Base.Run.{ok}
use cs_360_internet_programm.Base.Text.{codes, decimal}
use cs_360_internet_programm.EventServer.{buffer_max, RequestLine, Request}
use cs_360_internet_programm.EventServer.Transfer.{Buffer, Client, take}
use cs_360_internet_programm.EventServer.Transfer.Delivery.{take-drop}
use cs_360_internet_programm.EventServer.Responses.{
  crlf, server_name, Opened, opened, set_header, set_content_length_header, append_chunk, read_file,
  common_headers, ok_text, build_ok_header, build_ok_body, put_header, current_line, file_path,
  header_of,
}

-- The buffer behind the reads: the contents are added, and there is room for them.
pub record Holds (b : Buffer) (contents : List ℕ) (b' : Buffer) : Type 0 where
  pub bytes : b'.bytes ≡ b.bytes ++ contents
  pub position : b'.position ≡ b.position
  pub room : length b.bytes ≤ b.max_length → length b'.bytes ≤ b'.max_length

append_chunk-room :
    (chunk : List ℕ) (b : Buffer)
    → length b.bytes ≤ b.max_length
    → length (append_chunk chunk b).bytes ≤ (append_chunk chunk b).max_length
append_chunk-room chunk b h = elim (Bool-cases (ltb b.max_length (length b.bytes + length chunk))) [
  | inl t ↦ rw t (omega (arith, length-append b.bytes chunk))
  | inr f ↦ rw f (ground (arith, f, length-append b.bytes chunk))
]

read_file-Holds :
    (fuel : ℕ) (contents : List ℕ) (b : Buffer)
    → length contents < fuel
    → (b' : Buffer) × (read_file fuel contents b ≡ ok b') × Holds b contents b'
unfolding read_file
read_file-Holds zero contents b h = absurd (omega (arith, h))
read_file-Holds (suc fuel) [] b h =
    (b, refl, record { bytes = sym (append-nil b.bytes); position = refl; room = λ r. r })
read_file-Holds (suc fuel) (x ∷ contents) b h =
    let whole : List ℕ = x ∷ contents in
    let (b', e, r) =
      read_file-Holds fuel (drop buffer_max whole) (append_chunk (take buffer_max whole) b)
        (omega (arith, h, length-drop buffer_max whole)) in
    (
      b',
      e,
      record {
        bytes =
            r.bytes
            ∙ append_assoc b.bytes (take buffer_max whole) (drop buffer_max whole)
            ∙ ap (λ t. b.bytes ++ t) (take-drop buffer_max whole);
        position = r.position;
        room = λ q. r.room (append_chunk-room (take buffer_max whole) b q);
      },
    )

-- A request whose file can be opened.
pub record Serving : Type 0 where
  pub request : Request
  pub line : RequestLine
  pub contents : List ℕ
  pub changed : ℕ

module _ (open_file : List ℕ → Opened) (format_date : ℕ → List ℕ) (now : ℕ) where
  pub record IsServed (s : Serving) : Type 0 where
    pub has_line : s.request.line ≡ some s.line
    pub readable : open_file (file_path s.line.uri) ≡ opened s.contents s.changed
    pub small : length s.contents < 10 ^ 9

  -- The header of a response, written out.
  abbrev pub header_text : Serving → List ℕ
  header_text s =
      s.line.version
      ++ (codes " 200 OK"
          ++ (crlf
              ++ (set_header (codes "Date") (format_date now)
                  ++ (set_header (codes "Server") server_name
                      ++ (set_header (codes "Content-Type") s.line.filetype
                          ++ (set_header (codes "Content-Length") (decimal (length s.contents))
                              ++ (set_header (codes "Last-Modified") (format_date s.changed)
                                  ++ crlf)))))))

  -- The client's current request is the one that is served.
  abbrev pub Current : Serving → Client → Type 0
  Current s c = get_elem? c.requests c.cur_request ≡ some s.request

  current_line-Current :
      (s : Serving) (c : Client) → IsServed s → Current s c → current_line c ≡ some s.line
  current_line-Current s c w e = rw (e, current_line) w.has_line

  pub build_ok_header-served :
      (s : Serving) (c : Client)
      → IsServed s
      → Current s c
      → build_ok_header open_file format_date now c ≡ ok (put_header now (header_text s) c)
  unfolding build_ok_header header_of ok_text common_headers set_content_length_header
  build_ok_header-served s c w e =
      rw (current_line-Current s c w e, build_ok_header)
        (rw w.readable (rw (lt→ltb (length s.contents) (10 ^ 9) w.small) refl))

  pub build_ok_body-served :
      (s : Serving) (c : Client)
      → IsServed s
      → Current s c
      → (b : Buffer) × (build_ok_body open_file format_date now c
          ≡ ok (record c { send_buf = b; last_active = now }))
        × Holds c.send_buf s.contents b
  unfolding build_ok_body
  build_ok_body-served s c w e =
      let (b, p, r) =
        read_file-Holds (suc (length s.contents)) s.contents c.send_buf (omega arith) in
      (b, rw (current_line-Current s c w e, build_ok_body) (rw w.readable (rw p refl)), r)
