-- ===== src/Dns/Resolver.antt =====
-- labs/dnsresolverlab-handout/resolver.c: the query that the resolver sends. Its copies of
-- `canonicalize_name` and of the loop of `name_ascii_to_wire` are those of dns.c; the length that it
-- returns is another. What `rand` returns is given.
pub mod Query
mod Tests
pub mod Answered
pub mod Response
use cs_360_internet_programm.Base.{
  ℕ, ◌+◌, ◌/◌, ◌%◌, ◌^◌, Bool, true, false, Option, none, some, List, [], ◌∷◌, ◌++◌, length, ltb,
  if◌then◌else◌,
}
use cs_360_internet_programm.Base.Run.{Run, ok, fault, out_of_fuel, ◌>>=◌, checked}
use cs_360_internet_programm.Base.Bytes.{write_at, be16}
use cs_360_internet_programm.Dns.Name.{buffer_max, canonicalize_name, tokens, write_labels}

-- The lengths of the labels, added up.
abbrev pub label_bytes : List (List ℕ) → ℕ
label_bytes [] = 0
label_bytes (l ∷ ls) = length l + label_bytes ls

-- `name_ascii_to_wire` of the resolver: the array, and `total_len`.
unfoldable pub query_name_to_wire : List ℕ → List ℕ → ℕ → Run (List ℕ × ℕ)
query_name_to_wire name buffer start =
    if ltb (length name) buffer_max
    then (do
      (b, wire_ptr) ← write_labels buffer start (tokens [] name)
      ok (b, label_bytes (tokens [] name) + 4))
    else fault

abbrev pub preset_data : List ℕ
preset_data = 1 ∷ 0 ∷ 0 ∷ 1 ∷ 0 ∷ 0 ∷ 0 ∷ 0 ∷ 0 ∷ 0 ∷ []

unfoldable pub create_dns_query : ℕ → List ℕ → ℕ → List ℕ → Run (List ℕ × ℕ)
create_dns_query rand_id qname qtype wire = do
  b ← checked (write_at wire 0 ((rand_id % 256) ∷ (rand_id / 256 % 256) ∷ []))
  b ← checked (write_at b 2 preset_data)
  (b, name_length) ← query_name_to_wire qname b 12
  b ← checked (write_at b (12 + name_length) (be16 qtype))
  b ← checked (write_at b (12 + name_length + 2) (be16 1))
  ok (b, (12 + name_length + 4) % 2 ^ 16)

-- The first half of `resolve`: the query for an address, in the array `query_msg` as it was found.
unfoldable pub resolve_query : ℕ → List ℕ → List ℕ → Run (List ℕ × ℕ)
unfolding create_dns_query
resolve_query rand_id qname query_msg =
    create_dns_query rand_id (canonicalize_name qname) 1 query_msg
