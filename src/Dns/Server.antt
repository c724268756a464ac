-- ===== src/Dns/Server.antt =====
-- labs/dnsserverlab-handout/server.c: the database, and the answer to a request. The clock is read
-- once for a request: `now` is what `time` returns while it is handled. DEBUG_MODE is 0.
pub mod Lookup
pub mod Answer
pub mod Database
mod Tests
use Prim.Native.Nat.{bit_or}
use cs_360_internet_programm.Base.{
  ℕ, zero, suc, ◌+◌, ◌-◌, ◌*◌, ◌/◌, ◌%◌, ◌^◌, Bool, true, false, ◌&&◌, Option, none, some, List, [],
  ◌∷◌, ◌++◌, length, get_elem?, replicate, ltb, leb, ◌==◌, if◌then◌else◌,
}
use cs_360_internet_programm.Base.Run.{Run, ok, fault, out_of_fuel, ◌>>=◌, checked}
use cs_360_internet_programm.Base.Bytes.{write_at, slice, be16}
use cs_360_internet_programm.Dns.Name.{
  buffer_max, same_string, name_ascii_to_wire, name_ascii_from_wire,
}
use cs_360_internet_programm.Dns.Record.{Rr, Parsed, read_be, rr_from_wire, rr_to_wire}

abbrev pub max_entries : ℕ
max_entries = 1024

abbrev pub type_a : ℕ
type_a = 1

abbrev pub cname : ℕ
cname = 5

-- `dns_db_entry`. The database is the list of the entries before the first with a null name.
pub record Entry : Type 0 where
  pub rr : Rr
  pub expires : ℕ

-- What `sscanf` reads from a line of the cache file; a time to live that is not negative.
pub record DbLine : Type 0 where
  pub host : List ℕ
  pub ttl : ℕ
  pub class_word : List ℕ
  pub type_word : List ℕ
  pub content : List ℕ

abbrev pub word_in : List ℕ
word_in = b'I' ∷ b'N' ∷ []

abbrev pub word_a : List ℕ
word_a = b'A' ∷ []

abbrev pub word_cname : List ℕ
word_cname = b'C' ∷ b'N' ∷ b'A' ∷ b'M' ∷ b'E' ∷ []

-- `inet_pton(AF_INET, ...)` is the C library's: it fills the four bytes, or leaves them zero. The array
-- of the name has just the bytes of the host: the string that begins there goes on with what the
-- memory holds behind the array, up to a zero. For the array of the entry `rr_num` these are the bytes
-- `behind rr_num`, which the heap is taken to keep.
module _ (inet_pton : List ℕ → List ℕ) (behind : ℕ → List ℕ) where
  unfoldable pub line_entry : ℕ → ℕ → DbLine → Run Entry
  unfolding same_string name_ascii_to_wire
  line_entry start rr_num l =
      let rr_class = if same_string l.class_word word_in then 1 else 0 in
      let plain : Rr = record {
        name = l.host ++ behind rr_num;
        rr_type = 0;
        rr_class = rr_class;
        ttl = l.ttl;
        rdata_len = 0;
        rdata = [];
      } in
      let address : Rr = record plain {
        rr_type = type_a;
        rdata_len = 4;
        rdata = inet_pton l.content;
      } in
      let alias = name_ascii_to_wire l.content (replicate buffer_max 0) 0 in
      if same_string l.type_word word_a
      then ok (record { rr = address; expires = start + l.ttl })
      else if same_string l.type_word word_cname
      then (alias >>= λ r. ok (record {
        rr = record plain { rr_type = cname; rdata_len = r.1 % 2 ^ 16; rdata = r.0 };
        expires = start + l.ttl;
      }))
      else ok (record { rr = plain; expires = start + l.ttl })

  -- The entry of each line in turn, from the entry `rr_num` on; there is room for `room` more.
  pub init_entries : ℕ → ℕ → ℕ → List DbLine → Run (List Entry)
  init_entries room start rr_num [] = ok []
  init_entries zero start rr_num (l ∷ ls) = fault
  init_entries (suc room) start rr_num (l ∷ ls) = do
    e ← line_entry start rr_num l
    es ← init_entries room start (rr_num + 1) ls
    ok (e ∷ es)

  pub init_db : ℕ → List DbLine → Run (List Entry)
  unfolding line_entry init_entries
  init_db start ls = init_entries max_entries start 0 ls

-- QR is bit 15, the opcode bits 11 to 14.
unfoldable pub is_valid_request : List ℕ → Run Bool
unfolding read_be
is_valid_request request = do
  code_n_flags ← read_be request 2 2
  total_questions ← read_be request 4 2
  ok (
      (code_n_flags / 2 ^ 15 % 2 == 0)
      && (code_n_flags / 2 ^ 11 % 16 == 0)
      && (total_questions == 1))

unfoldable pub get_question : ℕ → List ℕ → Run Parsed
get_question fuel request = do (question, index) ← rr_from_wire fuel request 12 true; ok question

-- What the search leaves: the response, the index behind it, `num_answers` and `found`.
pub record Search : Type 0 where
  pub response : List ℕ
  pub index : ℕ
  pub num_answers : ℕ
  pub found : Bool

-- The record of an entry, with the time that it has left, as `dns_rr_ttl`.
abbrev pub remaining : ℕ → Entry → Rr
remaining now e = record e.rr { ttl = (e.expires - now) % 2 ^ 32 }

-- The entry has the name that is looked for, and has not expired.
unfoldable pub is_live : ℕ → List ℕ → Entry → Bool
unfolding same_string
is_live now qname e = same_string e.rr.name qname && ltb now e.expires

-- The loop over the database, a round for each entry that is looked at. The `i = 0` of the source
-- behind an alias is followed by the `i++` of the loop, so that the search goes on at entry 1.
pub search_loop : ℕ → List Entry → ℕ → ℕ → List ℕ → ℕ → Search → Run Search
search_loop zero db now qtype qname i s = out_of_fuel
search_loop (suc fuel) db now qtype qname i s =
    elim (if ltb i max_entries then get_elem? db i else none) [
      | none ↦ ok s
      | some cur ↦ elim (is_live now qname cur) [
        | false ↦ search_loop fuel db now qtype qname (i + 1) s
        | true ↦ elim (cur.rr.rr_type == qtype) [
          | true ↦ (do
            (b, rr_len) ← rr_to_wire (remaining now cur) s.response s.index false
            ok (record {
              response = b;
              index = s.index + rr_len;
              num_answers = s.num_answers + 1;
              found = true;
            }))
          | false ↦ elim (cur.rr.rr_type == cname) [
            | false ↦ search_loop fuel db now qtype qname (i + 1) s
            | true ↦ (do
              (b, rr_len) ← rr_to_wire (remaining now cur) s.response s.index false
              (alias, tmp) ← name_ascii_from_wire fuel cur.rr.rdata 0
              search_loop fuel db now qtype alias 1 (record {
                response = b;
                index = s.index + rr_len;
                num_answers = s.num_answers + 1;
                found = s.found;
              }))
          ]
        ]
      ]
    ]

abbrev pub response_flags : ℕ → ℕ
response_flags req = if req / 2 ^ 8 % 2 == 1 then bit_or 0x8000 0x0100 else 0x8000

-- The answer to a request that is valid, behind the copied id.
unfoldable pub answer_request : ℕ → List Entry → ℕ → List ℕ → ℕ → List ℕ → Run (List ℕ × ℕ)
answer_request fuel db now request code_n_flags response = do
  b ← checked (write_at response 2 (be16 code_n_flags))
  b ← checked (write_at b 4 (be16 1))
  b ← checked (write_at b 6 (replicate 6 0))
  question ← get_question fuel request
  (b, name_len) ← name_ascii_to_wire question.name b 12
  b ← checked (write_at b (12 + name_len) (be16 question.rr_type))
  b ← checked (write_at b (12 + name_len + 2) (be16 question.rr_class))
  s ←
      search_loop fuel db now question.rr_type question.name 0
        (record { response = b; index = 12 + name_len + 4; num_answers = 0; found = false })
  b ←
      checked
        (if s.found then some s.response else write_at s.response 2 (be16 (bit_or code_n_flags 3)))
  b ← checked (if s.num_answers == 0 then some b else write_at b 6 (be16 s.num_answers))
  ok (b, s.index)

-- The answer to a request that is not valid: the flags go out in the host's order.
unfoldable pub refuse_request : ℕ → List ℕ → Run (List ℕ × ℕ)
unfolding write_at
refuse_request code_n_flags response = do
  let c = bit_or code_n_flags 1
  b ← checked (write_at response 2 ((c % 256) ∷ (c / 256 % 256) ∷ []))
  ok (b, 12)

abbrev pub if_valid : Bool → Run (List ℕ × ℕ) → Run (List ℕ × ℕ) → Run (List ℕ × ℕ)
if_valid valid answer refusal = if valid then answer else refusal

unfoldable pub get_response : ℕ → List Entry → ℕ → List ℕ → List ℕ → Run (List ℕ × ℕ)
get_response fuel db now request response = do
  id ← checked (slice request 0 2)
  b ← checked (write_at response 0 id)
  req ← read_be request 2 2
  valid ← is_valid_request request
  if_valid valid (answer_request fuel db now request (response_flags req) b)
      (refuse_request (response_flags req) b)

-- A round of the loop of `serve_udp`: a datagram of at most `buffer_max` bytes in, the bytes that
-- are sent back out.
unfoldable pub serve_request : ℕ → List Entry → ℕ → List ℕ → Run (List ℕ)
serve_request fuel db now datagram = do
  (b, n) ←
      get_response fuel db now (datagram ++ replicate (buffer_max - length datagram) 0)
        (replicate buffer_max 0)
  checked (slice b 0 n)
