-- ===== src/Dns/Resolver/Response/Found.antt =====
-- labs/dnsresolverlab-handout/resolver.c, `get_answer_address`: a response with one record that points
-- to the name of its question.
use mathlib.Core.Path.{subst}
use mathlib.Core.List.{append_assoc, append-nil}
use cs_360_internet_programm.Base.{
  ℕ, suc, ◌+◌, ◌<◌, ◌≡◌, refl, sym, arith, Bool, true, false, ◌&&◌, none, some, List, [], ◌∷◌, ◌++◌,
  length, drop, get_elem?, ltb, ◌==◌, if◌then◌else◌, All, Bool-cases, inl, inr, length-append,
  get_elem?-append,
}
use cs_360_internet_programm.Base.Run.{ok, ◌>>=◌}
use cs_360_internet_programm.Base.Bytes.{slice, slice-append, be16}
use cs_360_internet_programm.Dns.Name.{buffer_max, compressed_val, c_string, same_string}
use cs_360_internet_programm.Dns.Name.Canonical.{same_string_iff}
use cs_360_internet_programm.Dns.Name.RoundTrip.{
  IsLabel, join, encode, first, encode-first, NoZero-join,
}
use cs_360_internet_programm.Dns.Record.{Tail, read_be}
use cs_360_internet_programm.Dns.Record.Question.{read_be-be16}
use cs_360_internet_programm.Dns.Server.Answer.{header, asked}
use cs_360_internet_programm.Dns.Resolver.Response.{
  from_le, response_end, string_in, response_name, response_rr, address_of, answer_loop,
  get_answer_address,
}
use cs_360_internet_programm.Dns.Resolver.Response.Names.{
  response_name-encode, response_name-pointer, string_in-name,
}

-- A record of class IN with an address, whose name is a pointer to the question's.
abbrev pub address_record : ℕ → List ℕ → List ℕ → List ℕ
address_record t ttl ip = compressed_val ∷ 12 ∷ (be16 t ++ (be16 1 ++ (ttl ++ (be16 4 ++ ip))))

-- A response to a question for a name, with one record and what follows.
abbrev pub response : List ℕ → List (List ℕ) → ℕ → List ℕ → List ℕ → List ℕ → List ℕ
response head ls t ttl ip rest = (head ++ asked ls t 1) ++ (address_record t ttl ip ++ rest)

slice-bytes :
    (wire pre bs rest : List ℕ) (o n : ℕ)
    → wire ≡ pre ++ (bs ++ rest)
    → o ≡ length pre
    → length bs ≡ n
    → slice wire o n ≡ some bs
slice-bytes wire pre bs rest o n e p l = rw (e, p, ← l) (slice-append pre bs rest)

full_or_asked : (short : Bool) → (short && false) ≡ false
full_or_asked true = refl
full_or_asked false = refl

-- A name is not the same string as a longer one.
same_string_longer : (xs : List ℕ) (y : ℕ) (ys : List ℕ) → same_string (xs ++ (y ∷ ys)) xs ≡ false
unfolding same_string
same_string_longer [] y ys = refl
same_string_longer (x ∷ xs) y ys =
    let e : (x == x) ≡ true = ground arith in rw e (same_string_longer xs y ys)

module _ (fuel : ℕ) (ls : List (List ℕ)) (t : ℕ) (ttl ip head rest : List ℕ)
    (labels : All IsLabel ls) (fits : length (join ls) < buffer_max)
    (enough : suc (length ls) < fuel) (typed : t < 65536) (ttl_size : length ttl ≡ 4)
    (ip_size : length ip ≡ 4) (head_size : length head ≡ 12) where
  abbrev wire : List ℕ
  wire = response head ls t ttl ip rest

  abbrev k : ℕ
  k = length (encode ls)

  abbrev question : List ℕ
  question = head ++ asked ls t 1

  question_size : length question ≡ 12 + k + 4
  question_size = omega (
    arith,
    head_size,
    length-append head (asked ls t 1),
    length-append (encode ls) (be16 t ++ be16 1),
  )

  wire_name :
      wire ≡ head ++ (encode ls ++ (be16 t ++ (be16 1 ++ (address_record t ttl ip ++ rest))))
  wire_name = simp append_assoc

  -- Behind the pointer, the type, the class, the time to live and the data length.
  abbrev p_name : List ℕ
  p_name = question ++ (compressed_val ∷ 12 ∷ [])

  sizes :
      (length p_name ≡ 12 + k + 4 + 2)
      × (length (p_name ++ be16 t) ≡ 12 + k + 4 + 2 + 2)
      × (length ((p_name ++ be16 t) ++ be16 1) ≡ 12 + k + 4 + 2 + 4)
      × (length (((p_name ++ be16 t) ++ be16 1) ++ ttl) ≡ 12 + k + 4 + 2 + 4 + 4)
      × (length ((((p_name ++ be16 t) ++ be16 1) ++ ttl) ++ be16 4) ≡ 12 + k + 4 + 2 + 4 + 6)
  sizes = omega (
    arith,
    question_size,
    ttl_size,
    length-append question (compressed_val ∷ 12 ∷ []),
    length-append p_name (be16 t),
    length-append (p_name ++ be16 t) (be16 1),
    length-append ((p_name ++ be16 t) ++ be16 1) ttl,
    length-append (((p_name ++ be16 t) ++ be16 1) ++ ttl) (be16 4),
  )

  abbrev record_read : Tail
  record_read = record { ttl = from_le ttl; rdata_len = 4; rdata = 12 + k + 4 + 2 + 4 + 6 }

  -- The record behind the question.
  response_rr-record :
      (memory s : List ℕ)
      → string_in memory (join ls) ≡ ok s
      → response_rr fuel memory wire (12 + k + 4) false
        ≡ ok (
          record { name = s; rr_type = t; rr_class = 1; tail = some record_read },
          12 + k + 4 + 2 + 4 + 6 + 4,
        )
  unfolding response_rr response_end
  response_rr-record memory s e =
      rw (mark, name) (rw e (rw (type_read) (rw (class_read) (rw (ttl_read) (rw (len_read) refl)))))
    where
      mark : get_elem? wire (12 + k + 4) ≡ some compressed_val
      mark = rw (← question_size) (get_elem?-append question compressed_val _)

      name :
          response_name fuel memory wire (12 + k + 4)
          ≡ (string_in memory (join ls) >>= (λ s. ok (s, 12 + k + 4 + 2)))
      name =
          response_name-pointer fuel memory wire head
            (be16 t ++ (be16 1 ++ (address_record t ttl ip ++ rest))) question
            ((be16 t ++ (be16 1 ++ (ttl ++ (be16 4 ++ ip)))) ++ rest) ls (12 + k + 4) labels fits
            enough wire_name (rw head_size refl) (sym question_size)

      type_read : read_be wire (12 + k + 4 + 2) 2 ≡ ok t
      type_read =
          read_be-be16 wire p_name (be16 1 ++ (ttl ++ (be16 4 ++ (ip ++ rest)))) _ t
            (simp append_assoc) (sym sizes.0) typed

      class_read : read_be wire (12 + k + 4 + 2 + 2) 2 ≡ ok 1
      class_read =
          read_be-be16 wire (p_name ++ be16 t) (ttl ++ (be16 4 ++ (ip ++ rest))) _ 1
            (simp append_assoc) (sym sizes.1) (omega arith)

      ttl_read : slice wire (12 + k + 4 + 2 + 4) 4 ≡ some ttl
      ttl_read =
          slice-bytes wire ((p_name ++ be16 t) ++ be16 1) ttl (be16 4 ++ (ip ++ rest)) _ 4
            (simp append_assoc) (sym sizes.2) ttl_size

      len_read : read_be wire (12 + k + 4 + 2 + 4 + 4) 2 ≡ ok 4
      len_read =
          read_be-be16 wire (((p_name ++ be16 t) ++ be16 1) ++ ttl) (ip ++ rest) _ 4
            (simp append_assoc) (sym sizes.3) (omega arith)

  response_rr-asked :
      (memory s : List ℕ)
      → string_in memory (join ls) ≡ ok s
      → response_rr fuel memory wire 12 true
        ≡ ok (record { name = s; rr_type = t; rr_class = 1; tail = none }, 12 + k + 4)
  unfolding response_rr response_end
  response_rr-asked memory s e =
      rw (mark, full_or_asked (ltb (first ls) compressed_val), name)
        (rw e (rw (type_read) (rw (class_read) refl)))
    where
      mark : get_elem? wire 12 ≡ some (first ls)
      mark = rw (wire_name, ← head_size, encode-first ls) (get_elem?-append head (first ls) _)

      name :
          response_name fuel memory wire 12 ≡ (string_in memory (join ls) >>= (λ s. ok (s, 12 + k)))
      name =
          subst
            (λ n.
              response_name fuel memory wire n
              ≡ (string_in memory (join ls) >>= (λ s. ok (s, n + k))))
            head_size
            (rw wire_name (
              response_name-encode fuel memory head
                (be16 t ++ (be16 1 ++ (address_record t ttl ip ++ rest))) ls labels fits
                (omega (arith, enough))))

      type_read : read_be wire (12 + k) 2 ≡ ok t
      type_read =
          read_be-be16 wire (head ++ encode ls) (be16 1 ++ (address_record t ttl ip ++ rest)) _ t
            (simp append_assoc) (omega (arith, head_size, length-append head (encode ls))) typed

      class_read : read_be wire (12 + k + 2) 2 ≡ ok 1
      class_read =
          read_be-be16 wire ((head ++ encode ls) ++ be16 t) (address_record t ttl ip ++ rest) _ 1
            (simp append_assoc)
            (omega (
              arith,
              head_size,
              length-append head (encode ls),
              length-append (head ++ encode ls) (be16 t),
            ))
            (omega arith)

  -- The bytes of the address stand behind the data length.
  address_of-record : address_of wire record_read ≡ ok (some ip)
  unfolding address_of
  address_of-record = rw (read) (rw ip_size refl)
    where
      read : slice wire (12 + k + 4 + 2 + 4 + 6) 4 ≡ some ip
      read =
          slice-bytes wire ((((p_name ++ be16 t) ++ be16 1) ++ ttl) ++ be16 4) ip rest _ 4
            (simp append_assoc) (sym sizes.4) ip_size

  module _ (memory : ℕ → List ℕ) (b : ℕ) (back : List ℕ)
      (found : drop (length (join ls)) (memory 1) ≡ b ∷ back)
      (ends : length (join ls ++ c_string (b ∷ back)) < buffer_max) where
    answer_loop-record :
        answer_loop fuel memory wire t 1 1 (join ls) (12 + k + 4)
        ≡ ok (if b == 0 then some ip else none)
    unfolding answer_loop c_string
    answer_loop-record =
        rw
          (response_rr-record (memory 1) (join ls ++ c_string (b ∷ back))
            (string_in-name (memory 1) (join ls) (b ∷ back) (NoZero-join ls labels) found ends))
          (elim (Bool-cases (b == 0)) [
            | inl z ↦
                rw (ended z, ◌>>=◌, answer_loop, z) (rw typed_right (rw address_of-record refl))
            | inr z ↦ rw (longer z, ◌>>=◌, answer_loop, z) refl
          ])
      where
        typed_right : (t == t) ≡ true
        typed_right = ground arith

        ended : (b == 0) ≡ true → same_string (join ls ++ c_string (b ∷ back)) (join ls) ≡ true
        ended z = rw (z) ((same_string_iff (join ls ++ []) (join ls)).1 (append-nil (join ls)))

        longer : (b == 0) ≡ false → same_string (join ls ++ c_string (b ∷ back)) (join ls) ≡ false
        longer z = rw (z) (same_string_longer (join ls) b (c_string back))

-- X
pub get_answer_address-found :
    (fuel : ℕ) (memory : ℕ → List ℕ) (ls : List (List ℕ)) (t id0 id1 flags b : ℕ)
    (ttl ip rest back : List ℕ)
    → All IsLabel ls
    → suc (length ls) < fuel
    → t < 65536
    → length ttl ≡ 4
    → length ip ≡ 4
    → drop (length (join ls)) (memory 1) ≡ b ∷ back
    → length (join ls ++ c_string (b ∷ back)) < buffer_max
    → length (join ls ++ c_string (drop (length (join ls)) (memory 0))) < buffer_max
    → get_answer_address fuel memory
        (join ls)
        t
        (response (header id0 id1 flags 1) ls t ttl ip rest)
      ≡ ok (if b == 0 then some ip else none)
unfolding get_answer_address read_be slice
get_answer_address-found fuel memory ls t id0 id1 flags b ttl ip rest back labels enough typed
      ttl_size ip_size found ends ends' =
    let head : List ℕ = header id0 id1 flags 1 in
    let fits : length (join ls) < buffer_max =
      omega (arith, ends, length-append (join ls) (c_string (b ∷ back))) in
    rw
      (response_rr-asked fuel ls t ttl ip head rest labels fits enough typed ttl_size ip_size refl
        (memory 0) _ (string_in-name (memory 0) (join ls) _ (NoZero-join ls labels) refl ends'))
      (answer_loop-record fuel ls t ttl ip head rest labels fits enough typed ttl_size ip_size refl
        memory b back found ends)
