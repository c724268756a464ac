-- ===== src/Dns/Server/Tests.antt =====
-- labs/dnsserverlab-handout/: the theorems on names, records and answers at concrete inputs.
use cs_360_internet_programm.Base.{
  ℕ, zero, suc, ◌+◌, ◌<◌, ◌≡◌, ◌≢◌, refl, arith, true, false, none, List, [], ◌∷◌, ◌++◌, replicate,
  length, get_elem?, some, All,
}
use cs_360_internet_programm.Base.Run.{ok, out_of_fuel}
use cs_360_internet_programm.Base.Bytes.{slice}
use cs_360_internet_programm.Dns.Name.{
  dot, name_ascii_to_wire, name_ascii_from_wire, from_wire_loop, c_string, canonicalize_name,
}
use cs_360_internet_programm.Dns.Name.RoundTrip.{IsLabel, join, name_round_trip}
use cs_360_internet_programm.Dns.Name.Pointers.{self_pointer_loops}
use cs_360_internet_programm.Dns.Name.Canonical.{IsUpper, canonicalize_name_lem}
use cs_360_internet_programm.Dns.Record.{Rr, rr_from_wire, rr_to_wire}
use cs_360_internet_programm.Dns.Record.Question.{rr_from_wire-question}
use cs_360_internet_programm.Dns.Record.Written.{rr_to_wire-layout}
use cs_360_internet_programm.Dns.Server.{
  Entry, Search, DbLine, cname, type_a, is_live, is_valid_request, search_loop, get_response,
  init_db,
}
use cs_360_internet_programm.Dns.Server.Database.{IsLine, Loaded, init_db-Loaded}
use cs_360_internet_programm.Dns.Server.Lookup.{passes, alias_cycle}
use cs_360_internet_programm.Dns.Server.Answer.{
  get_response-refused, get_response-nxdomain, get_response-found,
}

-- The name a.b
abbrev name : List (List ℕ)
name = (b'a' ∷ []) ∷ (b'b' ∷ []) ∷ []

letter-IsLabel : (c : ℕ) → 46 < c → IsLabel (c ∷ [])
letter-IsLabel c h = record {
  filled = omega arith;
  short = omega arith;
  plain = (((λ e. absurd (omega (arith, e))), (λ e. absurd (omega (arith, e)))), tt);
}

name-IsLabel : All IsLabel name
name-IsLabel = (letter-IsLabel b'a' (omega arith), (letter-IsLabel b'b' (omega arith), tt))

name_round_trip_example :
    (b : List ℕ) × (n : ℕ) × (name_ascii_to_wire (join name) (9 ∷ replicate 6 7) 1 ≡ ok (b, n))
    × (name_ascii_from_wire 3 b 1 ≡ ok (join name, 1 + n))
name_round_trip_example =
    name_round_trip 3 (9 ∷ []) (replicate 6 7) name name-IsLabel (omega arith) (omega arith)
      (omega arith)

abbrev question_wire : List ℕ
question_wire = 9 ∷ 1 ∷ b'a' ∷ 1 ∷ b'b' ∷ 0 ∷ 0 ∷ 1 ∷ 0 ∷ 1 ∷ 7 ∷ []

rr_from_wire-question_example :
    rr_from_wire 3 question_wire 1 true
    ≡ ok (record { name = join name; rr_type = 1; rr_class = 1; tail = none }, 10)
rr_from_wire-question_example =
    rr_from_wire-question 3 (9 ∷ []) (7 ∷ []) (b'a' ∷ []) ((b'b' ∷ []) ∷ []) 1 1 name-IsLabel
      (omega arith) (omega arith) (omega arith) (omega arith)

-- A full record whose name is written out, with a pointer mark eleven bytes further on.
abbrev address : Rr
address = record {
  name = join name;
  rr_type = type_a;
  rr_class = 1;
  ttl = 300;
  rdata_len = 4;
  rdata = 10 ∷ 0 ∷ 0 ∷ 7 ∷ [];
}

rr_to_wire-layout_example :
    rr_to_wire address (9 ∷ replicate 20 7) 1 false
    ≡ ok (
      9 ∷ 1 ∷ b'a' ∷ 1 ∷ b'b' ∷ 0 ∷ 0 ∷ 1 ∷ 0 ∷ 1 ∷ 0 ∷ 0 ∷ 1 ∷ 44 ∷ 0 ∷ 4 ∷ 10 ∷ 0 ∷ 0 ∷ 7 ∷ 7
          ∷ [],
      19,
    )
rr_to_wire-layout_example =
    rr_to_wire-layout address (b'a' ∷ []) ((b'b' ∷ []) ∷ []) (10 ∷ 0 ∷ 0 ∷ 7 ∷ []) [] (9 ∷ [])
      (replicate 20 7) false refl name-IsLabel (omega arith) refl refl (omega arith)

-- The database of an address that has expired, and one that has not.
abbrev stale : Entry
stale = record { rr = address; expires = 1000 }

abbrev fresh : Entry
fresh = record { rr = address; expires = 2000 }

-- A request for the address of a.b, with recursion desired.
abbrev wanted : List ℕ
wanted =
    17 ∷ 34 ∷ 1 ∷ 0 ∷ 0 ∷ 1 ∷ 0 ∷ 0 ∷ 0 ∷ 0 ∷ 0 ∷ 0 ∷ 1 ∷ b'a' ∷ 1 ∷ b'b' ∷ 0 ∷ 0 ∷ 1 ∷ 0 ∷ 1 ∷ 0
    ∷ []

stale-passes : passes 1700 1 (join name) stale ≡ true
unfolding is_live
stale-passes = refl

get_response-nxdomain_example :
    get_response 5 (stale ∷ []) 1700 wanted (replicate 12 0 ++ replicate 9 0)
    ≡ ok (
      17 ∷ 34 ∷ 129 ∷ 3 ∷ 0 ∷ 1 ∷ 0 ∷ 0 ∷ 0 ∷ 0 ∷ 0 ∷ 0 ∷ 1 ∷ b'a' ∷ 1 ∷ b'b' ∷ 0 ∷ 0 ∷ 1 ∷ 0 ∷ 1
          ∷ [],
      21,
    )
get_response-nxdomain_example =
    get_response-nxdomain 17 34 1 0 0 0 0 0 0 0 (omega arith) (omega arith) 5 (stale ∷ []) 1700
      (b'a' ∷ []) ((b'b' ∷ []) ∷ []) 1 1 (0 ∷ []) (replicate 9 0) name-IsLabel (omega arith)
      (omega arith) (omega arith) (omega arith) (stale-passes, tt) (omega arith) (omega arith)
      (omega arith)

get_response-found_example :
    get_response 5 (stale ∷ fresh ∷ []) 1700 wanted (replicate 12 0 ++ replicate 28 0)
    ≡ ok (
      17 ∷ 34 ∷ 129 ∷ 0 ∷ 0 ∷ 1 ∷ 0 ∷ 1 ∷ 0 ∷ 0 ∷ 0 ∷ 0 ∷ 1 ∷ b'a' ∷ 1 ∷ b'b' ∷ 0 ∷ 0 ∷ 1 ∷ 0 ∷ 1
          ∷ 1 ∷ b'a' ∷ 1 ∷ b'b' ∷ 0 ∷ 0 ∷ 1 ∷ 0 ∷ 1 ∷ 0 ∷ 0 ∷ 1 ∷ 44 ∷ 0 ∷ 4 ∷ 10 ∷ 0 ∷ 0 ∷ 7 ∷ [],
      40,
    )
get_response-found_example =
    get_response-found 17 34 1 0 0 0 0 0 0 0 (omega arith) (omega arith) 5 (stale ∷ fresh ∷ []) 1700
      (b'a' ∷ []) ((b'b' ∷ []) ∷ []) 1 1 (0 ∷ []) (replicate 28 0) name-IsLabel (omega arith)
      (omega arith) (omega arith) (omega arith) (stale ∷ []) [] fresh (10 ∷ 0 ∷ 0 ∷ 7 ∷ []) [] refl
      (stale-passes, tt) (omega arith) (omega arith) refl (omega arith) refl refl refl (omega arith)

-- A request with two questions.
abbrev two_questions : List ℕ
two_questions = 1 ∷ 0 ∷ 0 ∷ 2 ∷ []

refused_request : is_valid_request (17 ∷ 34 ∷ two_questions) ≡ ok false
unfolding is_valid_request
refused_request = refl

get_response-refused_example :
    get_response 5 [] 1700 (17 ∷ 34 ∷ two_questions) (replicate 12 0 ++ [])
    ≡ ok (17 ∷ 34 ∷ 1 ∷ 129 ∷ 0 ∷ 0 ∷ 0 ∷ 0 ∷ 0 ∷ 0 ∷ 0 ∷ 0 ∷ [], 12)
get_response-refused_example =
    get_response-refused 5 [] 1700 17 34 1 0 (0 ∷ 2 ∷ []) [] (omega arith) refused_request

-- An alias from a to a, as the second entry.
abbrev circle : Entry
circle = record {
  rr = record {
    name = b'a' ∷ [];
    rr_type = cname;
    rr_class = 1;
    ttl = 300;
    rdata_len = 3;
    rdata = 1 ∷ b'a' ∷ 0 ∷ [];
  };
  expires = 2000;
}

abbrev circles : List Entry
circles = stale ∷ circle ∷ []

circle_target :
    (f : ℕ) (a : List ℕ) (j : ℕ)
    → name_ascii_from_wire f (1 ∷ b'a' ∷ 0 ∷ []) 0 ≡ ok (a, j)
    → a ≡ b'a' ∷ []
unfolding name_ascii_from_wire from_wire_loop slice c_string
circle_target zero a j e = absurd (cc)
circle_target (suc zero) a j e = absurd (cc)
circle_target (suc (suc f)) a j e = grind (arith, e)

circle_live : is_live 1700 (b'a' ∷ []) circle ≡ true
unfolding is_live
circle_live = refl

abbrev begun : Search
begun = record { response = replicate 40 0; index = 12; num_answers = 0; found = false }

stale_is_passed : passes 1700 type_a (b'a' ∷ []) stale ≡ true
unfolding is_live
stale_is_passed = refl

alias_cycle_example : search_loop 9 circles 1700 type_a (b'a' ∷ []) 0 begun ≢ ok begun
alias_cycle_example =
    alias_cycle circles 1700 type_a (b'a' ∷ []) stale circle [] [] refl (omega arith)
      (stale_is_passed, tt) circle_live refl (λ e. absurd (omega (arith, e))) circle_target 9 begun
      begun

self_pointer_loops_example : name_ascii_from_wire 100 (7 ∷ 192 ∷ 1 ∷ []) 1 ≡ out_of_fuel
self_pointer_loops_example = self_pointer_loops (7 ∷ 192 ∷ 1 ∷ []) 1 192 (omega arith) refl refl 100

canonicalize_name_lem_example :
    All (λ x. ¬ IsUpper x) (canonicalize_name ((b'A' ∷ []) ++ (b'B' ∷ [])))
    × (canonicalize_name ((b'A' ∷ []) ++ (b'B' ∷ [])) ≡ b'a' ∷ b'b' ∷ [])
    × (canonicalize_name (((b'A' ∷ []) ++ (b'B' ∷ [])) ++ (dot ∷ []))
        ≡ canonicalize_name ((b'A' ∷ []) ++ (b'B' ∷ [])))
canonicalize_name_lem_example =
    canonicalize_name_lem (b'A' ∷ []) b'B' (λ e. absurd (omega (arith, e)))

-- The database of two lines of a cache file: an address and an alias, and the answer to a datagram.
abbrev pton : List ℕ → List ℕ
pton s = 10 ∷ 0 ∷ 0 ∷ 7 ∷ []

-- What stands in the memory behind the names.
abbrev leftover : ℕ → List ℕ
leftover zero = []
leftover (suc n) = b'x' ∷ []

abbrev cache_lines : List DbLine
cache_lines =
    record {
      host = b'c' ∷ [];
      ttl = 60;
      class_word = b'I' ∷ b'N' ∷ [];
      type_word = b'A' ∷ [];
      content = [];
    }
    ∷ record {
      host = join name;
      ttl = 60;
      class_word = b'I' ∷ b'N' ∷ [];
      type_word = b'A' ∷ [];
      content = [];
    }
    ∷ []

init_db_loads :
    init_db pton leftover 1000 cache_lines
    ≡ ok (
        record {
          rr = record {
            name = b'c' ∷ [];
            rr_type = 1;
            rr_class = 1;
            ttl = 60;
            rdata_len = 4;
            rdata = 10 ∷ 0 ∷ 0 ∷ 7 ∷ [];
          };
          expires = 1060;
        }
        ∷ record {
          rr = record {
            name = join name ++ (b'x' ∷ []);
            rr_type = 1;
            rr_class = 1;
            ttl = 60;
            rdata_len = 4;
            rdata = 10 ∷ 0 ∷ 0 ∷ 7 ∷ [];
          };
          expires = 1060;
        }
        ∷ [])
unfolding init_db
init_db_loads = refl

abbrev alias_line : DbLine
alias_line = record {
  host = b'c' ∷ [];
  ttl = 60;
  class_word = b'I' ∷ b'N' ∷ [];
  type_word = b'C' ∷ b'N' ∷ b'A' ∷ b'M' ∷ b'E' ∷ [];
  content = join name;
}

alias_line-IsLine : IsLine alias_line
alias_line-IsLine = record { target = λ p. (name, name-IsLabel, refl, omega arith) }

init_db-Loaded_example :
    (es : List Entry) × (init_db pton leftover 1000 (alias_line ∷ []) ≡ ok es)
    × (length es ≡ 1)
    × ((i : ℕ) (l : DbLine)
        → get_elem? (alias_line ∷ []) i ≡ some l
        → (e : Entry) × (get_elem? es i ≡ some e) × Loaded pton leftover 1000 i l e)
init_db-Loaded_example =
    init_db-Loaded pton leftover 1000 (alias_line ∷ []) (alias_line-IsLine, tt) (omega arith)
