-- ===== src/Dns/Resolver/Response.antt =====
-- labs/dnsresolverlab-handout/resolver.c: how the resolver reads a response. Its reader of names and
-- records is that of dns.c but for the time to live, which is not swapped, and the array of a name, which malloc gives and nobody zeroes: what
-- malloc leaves in it is given, by the number of the call.
pub mod Names
pub mod Found
pub mod Resolved
use cs_360_internet_programm.Base.{
  ℕ, zero, suc, ◌+◌, ◌*◌, Bool, true, false, not, ◌&&◌, Option, none, some, List, [], ◌∷◌, ◌++◌,
  length, drop, get_elem?, ltb, leb, ◌==◌, if◌then◌else◌,
}
use cs_360_internet_programm.Base.Run.{Run, ok, fault, out_of_fuel, ◌>>=◌, checked}
use cs_360_internet_programm.Base.Bytes.{slice}
use cs_360_internet_programm.Dns.Name.{
  buffer_max, compressed_val, dot, same_string, canonicalize_name, c_string,
}
use cs_360_internet_programm.Dns.Record.{Tail, Parsed, read_be}
use cs_360_internet_programm.Dns.Resolver.{resolve_query}

abbrev pub cname : ℕ
cname = 5

-- The string in the array of a name, behind which the memory is as it was found. An array without a
-- zero is read past its end.
unfoldable pub string_in : List ℕ → List ℕ → Run (List ℕ)
unfolding c_string
string_in memory name =
    let s = c_string (name ++ drop (length name) memory) in
    if ltb (length s) buffer_max then ok s else fault

-- The loop of `name_ascii_from_wire`, one round for a label or a pointer.
unfoldable pub name_loop : ℕ → List ℕ → List ℕ → ℕ → ℕ → Bool → List ℕ → ℕ → Run (List ℕ × ℕ)
unfolding string_in
name_loop zero memory wire wire_ptr index compressed name label_len = out_of_fuel
name_loop (suc fuel) memory wire wire_ptr index compressed name label_len = elim (label_len == 0) [
  | true ↦ (do s ← string_in memory name; ok (s, index + 1))
  | false ↦ elim (leb compressed_val label_len) [
    | true ↦ (do
      name_offset ← checked (get_elem? wire (wire_ptr + 1))
      next_len ← checked (get_elem? wire name_offset)
      name_loop fuel memory wire name_offset (if compressed then index else index + 1) true name
          next_len)
    | false ↦ (do
      label ← checked (slice wire (wire_ptr + 1) label_len)
      next_len ← checked (get_elem? wire (wire_ptr + 1 + label_len))
      let name' = name ++ (label ++ (if next_len == 0 then [] else dot ∷ []))
      let rest =
          name_loop fuel memory wire (wire_ptr + 1 + label_len)
            (if compressed then index else index + 1 + label_len) compressed name' next_len
      if ltb buffer_max (length name') then fault else rest)
  ]
]

-- `name_ascii_from_wire` of the resolver.
unfoldable pub response_name : ℕ → List ℕ → List ℕ → ℕ → Run (List ℕ × ℕ)
unfolding name_loop
response_name fuel memory wire index = do
  label_len ← checked (get_elem? wire index)
  name_loop fuel memory wire index index false [] label_len

-- The number that four bytes are to the host, in which the time to live is left as it is copied.
abbrev pub from_le : List ℕ → ℕ
from_le [] = 0
from_le (b ∷ bs) = b + 256 * from_le bs

-- The time to live, the data length and the pointer to the data, and the index behind the data.
unfoldable pub response_tail : List ℕ → ℕ → Run (Tail × ℕ)
unfolding read_be
response_tail wire index = do
  ttl ← checked (slice wire index 4)
  rdata_len ← read_be wire (index + 4) 2
  ok (record { ttl = from_le ttl; rdata_len = rdata_len; rdata = index + 6 }, index + 6 + rdata_len)

unfoldable pub response_end : Bool → List ℕ → ℕ → Parsed → Run (Parsed × ℕ)
unfolding response_tail
response_end true wire index rr = ok (rr, index)
response_end false wire index rr = do
  (tail, i) ← response_tail wire index
  ok (record rr { tail = some tail }, i)

-- `rr_from_wire` of the resolver.
unfoldable pub response_rr : ℕ → List ℕ → List ℕ → ℕ → Bool → Run (Parsed × ℕ)
response_rr fuel memory wire index query_only = do
  mark ← checked (get_elem? wire index)
  let start = if ltb mark compressed_val && not query_only then index + 11 else index
  (name, i) ← response_name fuel memory wire start
  rr_type ← read_be wire i 2
  rr_class ← read_be wire (i + 2) 2
  response_end query_only wire (i + 4)
      (record { name = name; rr_type = rr_type; rr_class = rr_class; tail = none })

-- The bytes that `inet_ntoa` is called with. `addr` has room for four bytes, and with fewer it is
-- partly not set: both count as faults.
unfoldable pub address_of : List ℕ → Tail → Run (Option (List ℕ))
unfolding slice
address_of wire tail = do
  ip ← checked (slice wire tail.rdata tail.rdata_len)
  if length ip == 4 then ok (some ip) else fault

-- The loop of `get_answer_address` with `rr_left` rounds to go: `calls` is how often malloc was
-- called for a name before.
unfoldable pub answer_loop :
    ℕ → (ℕ → List ℕ) → List ℕ → ℕ → ℕ → ℕ → List ℕ → ℕ → Run (Option (List ℕ))
unfolding address_of response_name canonicalize_name same_string
answer_loop fuel memory wire qtype zero calls qname offset = ok none
answer_loop fuel memory wire qtype (suc rr_left) calls qname offset = do
  (rr, i) ← response_rr fuel (memory calls) wire offset false
  elim (same_string rr.name qname) [
    | false ↦ ok none
    | true ↦ elim rr.tail [
      | none ↦ fault
      | some tail ↦ elim (rr.rr_type == qtype) [
        | true ↦ address_of wire tail
        | false ↦ elim (rr.rr_type == cname) [
          | true ↦ (do
            (alias, j) ← response_name fuel (memory (calls + 1)) wire tail.rdata
            answer_loop fuel memory wire qtype rr_left (calls + 2) (canonicalize_name alias) i)
          | false ↦ answer_loop fuel memory wire qtype rr_left (calls + 1) qname i
        ]
      ]
    ]
  ]

-- The bytes of the address in a response, or none.
unfoldable pub get_answer_address : ℕ → (ℕ → List ℕ) → List ℕ → ℕ → List ℕ → Run (Option (List ℕ))
unfolding read_be
get_answer_address fuel memory qname qtype wire = do
  num_questions ← read_be wire 4 2
  num_answer_rr ← read_be wire 6 2
  num_auth_rr ← read_be wire 8 2
  num_add_rr ← read_be wire 10 2
  (question_rr, offset) ← response_rr fuel (memory 0) wire 12 true
  answer_loop fuel memory wire qtype (num_answer_rr + num_auth_rr + num_add_rr) 1 qname offset

-- `resolve`: what `exchange` makes of the query is the array of the response as `recv` leaves it.
unfoldable pub resolve :
    ℕ → (ℕ → List ℕ) → (List ℕ → List ℕ) → ℕ → List ℕ → List ℕ → Run (Option (List ℕ))
unfolding get_answer_address resolve_query
resolve fuel memory exchange rand_id qname query_msg = do
  (query_msg', query_len) ← resolve_query rand_id qname query_msg
  request ← checked (slice query_msg' 0 query_len)
  get_answer_address fuel memory (canonicalize_name qname) 1 (exchange request)
