-- ===== src/Dns/Server/Answer.antt =====
-- labs/dnsserverlab-handout/server.c, `get_response`: the bytes of the answers.
use Prim.Native.Nat.{bit_or}
use mathlib.Core.Path.{ap₂}
use mathlib.Core.List.{append_assoc}
use cs_360_internet_programm.Base.{
  ℕ, ◌+◌, ◌*◌, ◌/◌, ◌%◌, ◌^◌, ◌≤◌, ◌<◌, ◌≡◌, refl, sym, ap, ◌∙◌, arith, true, false, none, some,
  List, [], ◌∷◌, ◌++◌, length, replicate, ◌==◌, if◌then◌else◌, All, length-append, drop, drop-drop,
  length-drop, Bool-cases, inl, inr, lt→ltb,
}
use cs_360_internet_programm.Base.Run.{Run, ok, ◌>>=◌, checked}
use cs_360_internet_programm.Base.Bytes.{write_at, slice, be16, write_next}
use cs_360_internet_programm.Dns.Name.{buffer_max, name_ascii_to_wire}
use cs_360_internet_programm.Dns.Name.RoundTrip.{IsLabel, join, encode, name_ascii_to_wire-encode}
use cs_360_internet_programm.Dns.Record.{read_be, rr_to_wire}
use cs_360_internet_programm.Dns.Name.Canonical.{same_string_iff}
use cs_360_internet_programm.Dns.Record.Question.{rr_from_wire-question}
use cs_360_internet_programm.Dns.Record.Written.{fields, rr_to_wire-layout}
use cs_360_internet_programm.Dns.Server.{
  Entry, Search, max_entries, remaining, is_live, search_loop, is_valid_request, get_question,
  answer_request, refuse_request, response_flags, get_response,
}
use cs_360_internet_programm.Dns.Server.Lookup.{passes, search_loop-absent, search_loop-found}

-- The twelve bytes of a header with one question and `answers` answers.
abbrev pub header : ℕ → ℕ → ℕ → ℕ → List ℕ
header id0 id1 flags answers =
    id0
    ∷ id1
    ∷ (flags / 256 % 256)
    ∷ (flags % 256)
    ∷ 0
    ∷ 1
    ∷ (answers / 256 % 256)
    ∷ (answers % 256)
    ∷ 0
    ∷ 0
    ∷ 0
    ∷ 0
    ∷ []

-- The bytes of a question.
abbrev pub asked : List (List ℕ) → ℕ → ℕ → List ℕ
asked ls t c = encode ls ++ (be16 t ++ be16 c)

abbrev blank : List ℕ → List ℕ
blank xs = replicate 12 0 ++ xs

-- The response to a request that is not valid is the id, then a byte 1 without the response bit,
-- then the byte with the response bit and with recursion desired as the request has it, then zeros;
-- its length is 12.
pub get_response-refused :
    (fuel : ℕ) (db : List Entry) (now id0 id1 f0 f1 : ℕ) (rest xs : List ℕ)
    → f1 < 256
    → is_valid_request (id0 ∷ id1 ∷ f0 ∷ f1 ∷ rest) ≡ ok false
    → get_response fuel db now (id0 ∷ id1 ∷ f0 ∷ f1 ∷ rest) (blank xs)
      ≡ ok (id0 ∷ id1 ∷ 1 ∷ (128 + f0 % 2) ∷ (replicate 8 0 ++ xs), 12)
unfolding get_response refuse_request write_at slice read_be
get_response-refused fuel db now id0 id1 f0 f1 rest xs small e =
    rw e (elim (Bool-cases (desired == 1)) [
      | inl t ↦ (let b : 129 ≡ 128 + f0 % 2 = ground (arith, t) in rw (t, ← b) refl)
      | inr t ↦ (let b : 128 ≡ 128 + f0 % 2 = ground (arith, t) in rw (t, ← b) refl)
    ])
  where
    desired : ℕ
    desired = ((0 * 256 + f0) * 256 + f1) / 2 ^ 8 % 2

-- What `answer_request` does behind the search.
abbrev conclude : ℕ → Search → Run (List ℕ × ℕ)
conclude flags s = do
  b ← checked (if s.found then some s.response else write_at s.response 2 (be16 (bit_or flags 3)))
  b ← checked (if s.num_answers == 0 then some b else write_at b 6 (be16 s.num_answers))
  ok (b, s.index)

module _ (fuel : ℕ) (db : List Entry) (now : ℕ) (l : List ℕ) (ls : List (List ℕ)) (t c : ℕ)
    (labels : All IsLabel (l ∷ ls)) (fits : length (join (l ∷ ls)) < buffer_max) where
  abbrev q : List ℕ
  q = asked (l ∷ ls) t c

  abbrev k : ℕ
  k = length (encode (l ∷ ls))

  -- The question is read from the request and written into the response, and the search begins
  -- behind it.
  question_copied :
      (request xs : List ℕ) (id0 id1 flags : ℕ)
      → get_question fuel request
        ≡ ok (record { name = join (l ∷ ls); rr_type = t; rr_class = c; tail = none })
      → k + 4 ≤ length xs
      → answer_request fuel db now request flags (id0 ∷ id1 ∷ (replicate 10 0 ++ xs)) ≡ (
          search_loop fuel db now t (join (l ∷ ls)) 0 (record {
            response = (header id0 id1 flags 0 ++ q) ++ drop (k + 4) xs;
            index = 12 + k + 4;
            num_answers = 0;
            found = false;
          })
          >>= conclude flags)
  unfolding answer_request write_at
  question_copied request xs id0 id1 flags e room =
      rw (e, name, type_written, class_written, shape) refl
    where
      h : List ℕ
      h = header id0 id1 flags 0

      x1 : List ℕ
      x1 = drop k xs

      p1 : List ℕ
      p1 = h ++ encode (l ∷ ls)

      x2 : List ℕ
      x2 = drop 2 x1

      sizes : (length p1 ≡ 12 + k) × (length x1 + k ≡ length xs) × (length x2 + 2 ≡ length x1)
      sizes =
          omega (arith, room, length-append h (encode (l ∷ ls)), length-drop k xs, length-drop 2 x1)

      name : name_ascii_to_wire (join (l ∷ ls)) (h ++ xs) 12 ≡ ok (h ++ (encode (l ∷ ls) ++ x1), k)
      name = name_ascii_to_wire-encode h xs (l ∷ ls) labels fits (omega (arith, room))

      type_written :
          write_at (h ++ (encode (l ∷ ls) ++ x1)) (12 + k) (be16 t) ≡ some ((p1 ++ be16 t) ++ x2)
      type_written =
          write_next _ p1 x1 (be16 t) (12 + k) (sym (append_assoc h (encode (l ∷ ls)) x1))
            (omega (arith, sizes)) (omega (arith, room, sizes))

      class_written :
          write_at ((p1 ++ be16 t) ++ x2) (12 + k + 2) (be16 c)
          ≡ some (((p1 ++ be16 t) ++ be16 c) ++ drop 2 x2)
      class_written =
          write_next _ (p1 ++ be16 t) x2 (be16 c) (12 + k + 2) refl
            (omega (arith, sizes, length-append p1 (be16 t))) (omega (arith, room, sizes))

      shape : ((p1 ++ be16 t) ++ be16 c) ++ drop 2 x2 ≡ (h ++ asked (l ∷ ls) t c) ++ drop (k + 4) xs
      shape = let n : k + 2 + 2 ≡ k + 4 = omega arith in simp (append_assoc, drop-drop) (rw n refl)

-- The first byte of the flags of an answer: a response, with recursion desired as it was asked.
abbrev pub answer_flags : ℕ → ℕ → ℕ
answer_flags f0 rcode = (128 + f0 % 2) * 256 + rcode

response_flags_lem :
    (f0 f1 : ℕ) → f1 < 256 → response_flags ((0 * 256 + f0) * 256 + f1) ≡ answer_flags f0 0
response_flags_lem f0 f1 small = elim (Bool-cases (desired == 1)) [
  | inl t ↦ (let b : 0x8100 ≡ answer_flags f0 0 = ground (arith, t) in rw t b)
  | inr t ↦ (let b : 0x8000 ≡ answer_flags f0 0 = ground (arith, t) in rw t b)
]
  where
    desired : ℕ
    desired = ((0 * 256 + f0) * 256 + f1) / 2 ^ 8 % 2

nxdomain_flags : (f0 : ℕ) → bit_or (answer_flags f0 0) 3 ≡ answer_flags f0 3
nxdomain_flags f0 = elim (Bool-cases (f0 % 2 == 0)) [
  | inl e ↦ (let z : f0 % 2 ≡ 0 = ground (arith, e) in rw z refl)
  | inr e ↦ (let z : f0 % 2 ≡ 1 = ground (arith, e) in rw z refl)
]

-- The header of a request: a query with opcode zero and one question, other counts as they may be.
module _ (id0 id1 f0 f1 r0 r1 r2 r3 r4 r5 : ℕ) (query : f0 < 8) (byte : f1 < 256) where
  abbrev pub request : List ℕ → List ℕ
  request rest = id0 ∷ id1 ∷ f0 ∷ f1 ∷ 0 ∷ 1 ∷ r0 ∷ r1 ∷ r2 ∷ r3 ∷ r4 ∷ r5 ∷ rest

  request-IsValid : (rest : List ℕ) → is_valid_request (request rest) ≡ ok true
  unfolding is_valid_request read_be slice
  request-IsValid rest = ap ok (ground arith)

  get_response-valid :
      (fuel : ℕ) (db : List Entry) (now : ℕ) (rest xs : List ℕ)
      → get_response fuel db now (request rest) (blank xs)
        ≡ answer_request fuel db now
            (request rest)
            (answer_flags f0 0)
            (id0 ∷ id1 ∷ (replicate 10 0 ++ xs))
  unfolding get_response write_at slice read_be
  get_response-valid fuel db now rest xs =
      rw (request-IsValid rest) (rw (response_flags_lem f0 f1 byte) refl)

  module _ (fuel : ℕ) (db : List Entry) (now : ℕ) (l : List ℕ) (ls : List (List ℕ)) (t c : ℕ)
      (more xs : List ℕ) (labels : All IsLabel (l ∷ ls))
      (fits : length (join (l ∷ ls)) < buffer_max) (enough : length (l ∷ ls) < fuel)
      (ht : t < 65536) (hc : c < 65536) where
    question_read :
        get_question fuel (request (asked (l ∷ ls) t c ++ more))
        ≡ ok (record { name = join (l ∷ ls); rr_type = t; rr_class = c; tail = none })
    unfolding get_question
    question_read =
        let s : asked (l ∷ ls) t c ++ more ≡ encode (l ∷ ls) ++ (be16 t ++ (be16 c ++ more)) =
          simp append_assoc in
        rw (s, rr_from_wire-question fuel (request []) more l ls t c labels fits enough ht hc) refl

    -- A valid request for a name of labels that no entry of the database has, alive and with the
    -- type asked for or as an alias, with a database that fits its array, more fuel than entries and
    -- than labels, and room in the response: the answer has the code of a name that does not exist,
    -- no records, and the question of the request; its length ends it behind the question, and no
    -- later byte changes.
    pub get_response-nxdomain :
        All (λ e. passes now t (join (l ∷ ls)) e ≡ true) db
        → length db ≤ max_entries
        → length db < fuel
        → length (asked (l ∷ ls) t c) ≤ length xs
        → get_response fuel db now (request (asked (l ∷ ls) t c ++ more)) (blank xs)
          ≡ ok (
            (header id0 id1 (answer_flags f0 3) 0 ++ asked (l ∷ ls) t c)
                ++ drop (length (asked (l ∷ ls) t c)) xs,
            12 + length (asked (l ∷ ls) t c),
          )
    unfolding write_at
    get_response-nxdomain absent small rounds room =
        get_response-valid fuel db now _ xs
        ∙ question_copied fuel db now l ls t c labels fits _ xs id0 id1 (answer_flags f0 0)
            question_read (omega (arith, room, size))
        ∙ rw
            (
              search_loop-absent db now t (join (l ∷ ls)) _ fuel absent small rounds,
              nxdomain_flags f0,
            )
            (ap₂
              (λ d n.
                ok ((header id0 id1 (answer_flags f0 3) 0 ++ asked (l ∷ ls) t c) ++ drop d xs, n))
              (sym size) (omega (arith, size)))
      where
        size : length (asked (l ∷ ls) t c) ≡ length (encode (l ∷ ls)) + 4
        size = length-append (encode (l ∷ ls)) (be16 t ++ be16 c)

    -- A valid request for a name of labels, where an entry has the name, is alive and of the type
    -- asked for, none before it is that or an alias, and its data are as many bytes as it says, with
    -- more fuel than entries before it and than labels, and room in the response: the answer says
    -- that there is no error and one record, and holds the question and the record of the entry with
    -- the time that it has left; its length ends it there, and no later byte changes.
    pub get_response-found :
        (front back : List Entry) (e : Entry) (content spare : List ℕ)
        → db ≡ front ++ (e ∷ back)
        → All (λ e. passes now t (join (l ∷ ls)) e ≡ true) front
        → length front < max_entries
        → length front < fuel
        → e.rr.name ≡ join (l ∷ ls)
        → now < e.expires
        → e.rr.rr_type ≡ t
        → e.rr.rdata ≡ content ++ spare
        → e.rr.rdata_len ≡ length content
        → length (asked (l ∷ ls) t c) + (length (encode (l ∷ ls)) + 10 + length content) ≤ length xs
        → get_response fuel db now (request (asked (l ∷ ls) t c ++ more)) (blank xs)
          ≡ ok (
            (header id0 id1 (answer_flags f0 0) 1 ++ asked (l ∷ ls) t c)
                ++ (encode (l ∷ ls)
                    ++ (fields (remaining now e) content
                        ++ drop
                            (length (asked (l ∷ ls) t c)
                              + (length (encode (l ∷ ls)) + 10 + length content))
                            xs)),
            12 + length (asked (l ∷ ls) t c) + (length (encode (l ∷ ls)) + 10 + length content),
          )
    unfolding write_at is_live
    get_response-found front back e content spare d absent small rounds named alive typed holds
          sized room =
        get_response-valid fuel db now _ xs
        ∙ question_copied fuel db now l ls t c labels fits _ xs id0 id1 (answer_flags f0 0)
            question_read (omega (arith, room, size))
        ∙ rw
            (
              search_loop-found db now t (join (l ∷ ls)) _ fuel front back e d absent small rounds
                  live typed,
              added,
            )
            (ap₂
              (λ d n. ok (
                (header id0 id1 (answer_flags f0 0) 1 ++ asked (l ∷ ls) t c)
                    ++ (encode (l ∷ ls) ++ (fields (remaining now e) content ++ d)),
                n,
              ))
              left (omega (arith, size)))
      where
        size : length (asked (l ∷ ls) t c) ≡ length (encode (l ∷ ls)) + 4
        size = length-append (encode (l ∷ ls)) (be16 t ++ be16 c)

        live : is_live now (join (l ∷ ls)) e ≡ true
        live = rw ((same_string_iff e.rr.name (join (l ∷ ls))).1 named, lt→ltb _ _ alive) refl

        k : ℕ
        k = length (encode (l ∷ ls))

        pre : List ℕ
        pre = header id0 id1 (answer_flags f0 0) 0 ++ asked (l ∷ ls) t c

        place : 12 + k + 4 ≡ length pre
        place =
            omega (
              arith,
              size,
              length-append (header id0 id1 (answer_flags f0 0) 0) (asked (l ∷ ls) t c),
            )

        left :
            drop (k + 10 + length content) (drop (k + 4) xs)
            ≡ drop (length (asked (l ∷ ls) t c) + (k + 10 + length content)) xs
        left = rw (← size) (drop-drop (length (asked (l ∷ ls) t c)) (k + 10 + length content) xs)

        added :
            rr_to_wire (remaining now e) (pre ++ drop (k + 4) xs) (12 + k + 4) false
            ≡ ok (
              pre
                  ++ (encode (l ∷ ls)
                      ++ (fields (remaining now e) content
                          ++ drop (k + 10 + length content) (drop (k + 4) xs))),
              k + 10 + length content,
            )
        added = rw place (
            rr_to_wire-layout (remaining now e) l ls content spare pre (drop (k + 4) xs) false named
              labels (rw named fits) holds sized
              (omega (arith, room, size, length-drop (k + 4) xs)))
