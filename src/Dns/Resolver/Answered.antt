-- ===== src/Dns/Resolver/Answered.antt =====
-- labs/dnsresolverlab-handout/resolver.c and labs/dnsserverlab-handout/server.c: the query of the
-- resolver is answered by the server.
use mathlib.Core.List.{append_assoc}
use cs_360_internet_programm.Base.{
  ℕ, ◌+◌, ◌-◌, ◌/◌, ◌%◌, ◌≤◌, ◌<◌, ◌≡◌, ap, arith, true, some, List, [], ◌∷◌, ◌++◌, length,
  replicate, All, length-append, drop,
}
use cs_360_internet_programm.Base.Run.{ok, checked}
use cs_360_internet_programm.Base.Bytes.{slice, slice-append}
use cs_360_internet_programm.Dns.Name.{buffer_max}
use cs_360_internet_programm.Dns.Name.RoundTrip.{IsLabel, join, encode}
use cs_360_internet_programm.Dns.Record.Written.{fields}
use cs_360_internet_programm.Dns.Resolver.{create_dns_query}
use cs_360_internet_programm.Dns.Resolver.Query.{query, create_dns_query-layout}
use cs_360_internet_programm.Dns.Server.{Entry, max_entries, remaining, serve_request}
use cs_360_internet_programm.Dns.Server.Lookup.{passes}
use cs_360_internet_programm.Dns.Server.Answer.{header, asked, answer_flags, get_response-found}

-- The answer to a query for a name, with one record.
abbrev pub reply : ℕ → ℕ → ℕ → Entry → List (List ℕ) → List ℕ → List ℕ
reply rand_id t now e ls content =
    (header (rand_id % 256) (rand_id / 256 % 256) (answer_flags 1 0) 1 ++ asked ls t 1)
    ++ (encode ls ++ fields (remaining now e) content)

module _ (fuel : ℕ) (db : List Entry) (now rand_id t : ℕ) (wire : List ℕ) (l : List ℕ)
    (ls : List (List ℕ)) (labels : All IsLabel (l ∷ ls))
    (fits : length (join (l ∷ ls)) < buffer_max) (three : length (l ∷ ls) ≡ 3) (enough : 3 < fuel)
    (small : t < 65536) where
  answered :
      (front back : List Entry) (e : Entry) (content spare : List ℕ)
      → db ≡ front ++ (e ∷ back)
      → All (λ e. passes now t (join (l ∷ ls)) e ≡ true) front
      → length front < max_entries
      → length front < fuel
      → e.rr.name ≡ join (l ∷ ls)
      → now < e.expires
      → e.rr.rr_type ≡ t
      → e.rr.rdata ≡ content ++ spare
      → e.rr.rdata_len ≡ length content
      → length (reply rand_id t now e (l ∷ ls) content) ≤ buffer_max
      → serve_request fuel db now (query rand_id (l ∷ ls) t)
        ≡ ok (reply rand_id t now e (l ∷ ls) content)
  unfolding serve_request
  answered front back e content spare d absent few rounds named alive typed holds sized room =
      let r =
        get_response-found (rand_id % 256) (rand_id / 256 % 256) 1 0 0 0 0 0 0 0 (omega arith)
          (omega arith) fuel db now l ls t 1
          (replicate (buffer_max - length (query rand_id (l ∷ ls) t)) 0)
          (replicate (buffer_max - 12) 0) labels fits (omega (arith, three, enough)) small
          (omega arith) front back e content spare d absent few rounds named alive typed holds sized
          (omega (arith, room, sizes)) in
      rw (r, shape, end)
        (ap checked (slice-append [] (reply rand_id t now e (l ∷ ls) content) rest))
    where
      k : ℕ
      k = length (encode (l ∷ ls))

      head : List ℕ
      head = header (rand_id % 256) (rand_id / 256 % 256) (answer_flags 1 0) 1

      n : ℕ
      n = length (asked (l ∷ ls) t 1) + (k + 10 + length content)

      rest : List ℕ
      rest = drop n (replicate (buffer_max - 12) 0)

      sizes : length (reply rand_id t now e (l ∷ ls) content) ≡ 12 + n
      sizes = omega (
        arith,
        length-append (head ++ asked (l ∷ ls) t 1)
            (encode (l ∷ ls) ++ fields (remaining now e) content),
        length-append (encode (l ∷ ls)) (fields (remaining now e) content),
      )

      end :
          12 + length (asked (l ∷ ls) t 1) + (k + 10 + length content)
          ≡ length (reply rand_id t now e (l ∷ ls) content)
      end = omega (arith, sizes)

      shape :
          (head ++ asked (l ∷ ls) t 1)
            ++ (encode (l ∷ ls) ++ (fields (remaining now e) content ++ rest))
          ≡ reply rand_id t now e (l ∷ ls) content ++ rest
      shape = simp append_assoc

  -- The resolver and the server together, for a name of three labels, shorter than its buffer, with
  -- an entry that has the name, is alive and of the type asked for, and none before it that is that or
  -- an alias, and with fuel for the labels and these entries: the resolver creates a query in any
  -- array with room for it, and the server answers the bytes of the returned length with the id of
  -- the query, its question, and the record of the entry, if the answer fits its buffer.
  pub create_dns_query-serve_request :
      (front back : List Entry) (e : Entry) (content spare : List ℕ)
      → db ≡ front ++ (e ∷ back)
      → All (λ e. passes now t (join (l ∷ ls)) e ≡ true) front
      → length front < max_entries
      → length front < fuel
      → e.rr.name ≡ join (l ∷ ls)
      → now < e.expires
      → e.rr.rr_type ≡ t
      → e.rr.rdata ≡ content ++ spare
      → e.rr.rdata_len ≡ length content
      → length (reply rand_id t now e (l ∷ ls) content) ≤ buffer_max
      → length (query rand_id (l ∷ ls) t) ≤ length wire
      → (b : List ℕ) × (n : ℕ) × (m : List ℕ) × (create_dns_query rand_id (join (l ∷ ls)) t wire
          ≡ ok (b, n))
        × (slice b 0 n ≡ some m)
        × (serve_request fuel db now m ≡ ok (reply rand_id t now e (l ∷ ls) content))
  create_dns_query-serve_request front back e content spare d absent few rounds named alive typed
        holds sized room space =
      (
        _,
        _,
        _,
        create_dns_query-layout rand_id t wire (l ∷ ls) labels fits three space,
        slice-append [] (query rand_id (l ∷ ls) t) _,
        answered front back e content spare d absent few rounds named alive typed holds sized room,
      )
