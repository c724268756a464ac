-- ===== src/Dns/Resolver/Tests.antt =====
-- labs/dnsresolverlab-handout/resolver.c: the theorems at the query for a.b.c.
use cs_360_internet_programm.Base.{
  ℕ, ◌<◌, ◌≡◌, ◌↔◌, refl, arith, some, List, [], ◌∷◌, length, replicate, All,
}
use cs_360_internet_programm.Base.Run.{ok}
use cs_360_internet_programm.Base.Bytes.{slice}
use cs_360_internet_programm.Dns.Name.{canonicalize_name, c_string}
use cs_360_internet_programm.Dns.Name.RoundTrip.{IsLabel, join}
use cs_360_internet_programm.Dns.Resolver.{query_name_to_wire, create_dns_query}
use cs_360_internet_programm.Dns.Resolver.Query.{query_name_to_wire_iff}
use cs_360_internet_programm.Dns.Resolver.Response.{resolve}
use cs_360_internet_programm.Dns.Resolver.Response.Found.{response}
use cs_360_internet_programm.Dns.Resolver.Response.Resolved.{resolve-found}
use cs_360_internet_programm.Dns.Server.Answer.{header}
use cs_360_internet_programm.Dns.Resolver.Answered.{reply, create_dns_query-serve_request}
use cs_360_internet_programm.Dns.Server.{Entry, serve_request}

abbrev name : List (List ℕ)
name = (b'a' ∷ []) ∷ (b'b' ∷ []) ∷ (b'c' ∷ []) ∷ []

letter-IsLabel : (c : ℕ) → 46 < c → IsLabel (c ∷ [])
letter-IsLabel c h = record {
  filled = omega arith;
  short = omega arith;
  plain = (((λ e. absurd (omega (arith, e))), (λ e. absurd (omega (arith, e)))), tt);
}

name-IsLabel : All IsLabel name
name-IsLabel = (
  letter-IsLabel b'a' (omega arith),
  (letter-IsLabel b'b' (omega arith), (letter-IsLabel b'c' (omega arith), tt)),
)

query_name_to_wire_iff_example :
    (query_name_to_wire (join name) (9 ∷ replicate 8 7) 1
      ≡ ok (9 ∷ 1 ∷ b'a' ∷ 1 ∷ b'b' ∷ 1 ∷ b'c' ∷ 0 ∷ 7 ∷ [], 7))
    ↔ (length name ≡ 3)
query_name_to_wire_iff_example =
    query_name_to_wire_iff (9 ∷ []) (replicate 8 7) name name-IsLabel (omega arith) (omega arith)

abbrev address : Entry
address = record {
  rr = record {
    name = join name;
    rr_type = 1;
    rr_class = 1;
    ttl = 300;
    rdata_len = 4;
    rdata = 10 ∷ 0 ∷ 0 ∷ 7 ∷ [];
  };
  expires = 2000;
}

create_dns_query-serve_request_example :
    (b : List ℕ) × (n : ℕ) × (m : List ℕ) × (create_dns_query 0x2211 (join name) 1 (replicate 30 7)
      ≡ ok (b, n))
    × (slice b 0 n ≡ some m)
    × (serve_request 5 (address ∷ []) 1700 m
        ≡ ok (reply 0x2211 1 1700 address name (10 ∷ 0 ∷ 0 ∷ 7 ∷ [])))
create_dns_query-serve_request_example =
    create_dns_query-serve_request 5 (address ∷ []) 1700 0x2211 1 (replicate 30 7) (b'a' ∷ [])
      ((b'b' ∷ []) ∷ (b'c' ∷ []) ∷ []) name-IsLabel (omega arith) refl (omega arith) (omega arith)
      [] [] address (10 ∷ 0 ∷ 0 ∷ 7 ∷ []) [] refl tt (omega arith) (omega arith) refl (omega arith)
      refl refl refl (omega arith) (omega arith)

-- The same name with capital letters and a dot at its end.
abbrev typed_name : List ℕ
typed_name = b'A' ∷ b'.' ∷ b'b' ∷ b'.' ∷ b'C' ∷ b'.' ∷ []

typed_name-canonical : canonicalize_name typed_name ≡ join name
unfolding canonicalize_name
typed_name-canonical = refl

abbrev zeroed : ℕ → List ℕ
zeroed n = replicate 1024 0

abbrev answering : List ℕ → List ℕ
answering request =
    response (header 0x11 0x22 0x8180 1) name 1 (0 ∷ 0 ∷ 1 ∷ 44 ∷ []) (10 ∷ 0 ∷ 0 ∷ 7 ∷ []) []

zeroed_ends : c_string (replicate 1019 0) ≡ []
unfolding c_string
zeroed_ends = refl

resolve-found_example :
    resolve 5 zeroed answering 0x2211 typed_name (replicate 30 7) ≡ ok (some (10 ∷ 0 ∷ 0 ∷ 7 ∷ []))
resolve-found_example =
    resolve-found 5 zeroed answering typed_name (replicate 30 7) name 0x2211 0x11 0x22 0x8180 0
      (0 ∷ 0 ∷ 1 ∷ 44 ∷ []) (10 ∷ 0 ∷ 0 ∷ 7 ∷ []) [] (replicate 1018 0) typed_name-canonical
      name-IsLabel refl (omega arith) (omega arith) refl refl refl refl
      (rw zeroed_ends (omega arith)) (rw zeroed_ends (omega arith))
