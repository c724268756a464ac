-- ===== src/Dns/Resolver/Response/Resolved.antt =====
-- labs/dnsresolverlab-handout/resolver.c, `resolve`: from a name to its address.
use cs_360_internet_programm.Base.{
  ℕ, ◌≤◌, ◌<◌, ◌≡◌, arith, none, some, List, [], ◌∷◌, ◌++◌, length, drop, ◌==◌, if◌then◌else◌, All,
  length-append,
}
use cs_360_internet_programm.Base.Run.{ok}
use cs_360_internet_programm.Base.Bytes.{slice-append}
use cs_360_internet_programm.Dns.Name.{buffer_max, canonicalize_name, c_string}
use cs_360_internet_programm.Dns.Name.RoundTrip.{IsLabel, join}
use cs_360_internet_programm.Dns.Server.Answer.{header}
use cs_360_internet_programm.Dns.Resolver.Query.{query, create_dns_query-layout}
use cs_360_internet_programm.Dns.Resolver.Response.{resolve}
use cs_360_internet_programm.Dns.Resolver.Response.Found.{response, get_answer_address-found}

-- The resolver, for a name whose canonical form is three labels, with fuel for them, an array with
-- room for the query, and a server that answers the query with one record of the type asked for,
-- whose name is a pointer to the question's and whose data are four bytes: the result is these bytes
-- if the array that malloc gives for the name of the record is zero behind the name, and no address
-- otherwise. The arrays of both names have a zero somewhere.
pub resolve-found :
    (fuel : ℕ) (memory : ℕ → List ℕ) (exchange : List ℕ → List ℕ) (qname query_msg : List ℕ)
    (ls : List (List ℕ)) (rand_id id0 id1 flags b : ℕ) (ttl ip rest back : List ℕ)
    → canonicalize_name qname ≡ join ls
    → All IsLabel ls
    → length ls ≡ 3
    → 4 < fuel
    → length (query rand_id ls 1) ≤ length query_msg
    → exchange (query rand_id ls 1) ≡ response (header id0 id1 flags 1) ls 1 ttl ip rest
    → length ttl ≡ 4
    → length ip ≡ 4
    → drop (length (join ls)) (memory 1) ≡ b ∷ back
    → length (join ls ++ c_string (b ∷ back)) < buffer_max
    → length (join ls ++ c_string (drop (length (join ls)) (memory 0))) < buffer_max
    → resolve fuel memory exchange rand_id qname query_msg ≡ ok (if b == 0 then some ip else none)
unfolding resolve
resolve-found fuel memory exchange qname query_msg ls rand_id id0 id1 flags b ttl ip rest back
      canonical labels three enough room answer ttl_size ip_size found ends ends' =
    let fits : length (join ls) < buffer_max =
      omega (arith, ends, length-append (join ls) (c_string (b ∷ back))) in
    rw (canonical) (
      rw (create_dns_query-layout rand_id 1 query_msg ls labels fits three room) (
        rw (slice-append [] (query rand_id ls 1) (drop (length (query rand_id ls 1)) query_msg)) (
          rw (answer) (
            get_answer_address-found fuel memory ls 1 id0 id1 flags b ttl ip rest back labels
              (omega (arith, three, enough)) (omega arith) ttl_size ip_size found ends ends'))))
