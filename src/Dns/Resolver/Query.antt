-- ===== src/Dns/Resolver/Query.antt =====
-- labs/dnsresolverlab-handout/resolver.c: the bytes of a query, and the server's answer to it.
use mathlib.Core.Path.{ap₂}
use mathlib.Core.List.{append_assoc}
use cs_360_internet_programm.Base.{
  ℕ, ◌+◌, ◌/◌, ◌%◌, ◌^◌, ◌≤◌, ◌<◌, ◌≡◌, ◌↔◌, refl, sym, ap, ◌∙◌, arith, some, List, [], ◌∷◌, ◌++◌,
  length, All, length-append, drop, drop-drop, length-drop, lt→ltb,
}
use cs_360_internet_programm.Base.Run.{ok}
use cs_360_internet_programm.Base.Bytes.{write_at, be16, write_next}
use cs_360_internet_programm.Dns.Name.{buffer_max}
use cs_360_internet_programm.Dns.Name.RoundTrip.{
  IsLabel, join, encode, encode_short, tokens-join, write_labels-encode,
}
use cs_360_internet_programm.Dns.Resolver.{
  label_bytes, query_name_to_wire, preset_data, create_dns_query,
}
use cs_360_internet_programm.Dns.Server.Answer.{header, asked}

encode-label_bytes : (ls : List (List ℕ)) → length (encode ls) ≡ label_bytes ls + length ls + 1
encode-label_bytes [] = refl
encode-label_bytes (l ∷ ls) = omega (arith, encode-label_bytes ls, length-append l (encode ls))

-- For a name of labels, shorter than its buffer, in an array with room for it, the resolver returns
-- the length of what it writes exactly if the name has three labels.
pub query_name_to_wire_iff :
    (pre xs : List ℕ) (ls : List (List ℕ))
    → All IsLabel ls
    → length (join ls) < buffer_max
    → length (encode ls) ≤ length xs
    → (query_name_to_wire (join ls) (pre ++ xs) (length pre)
        ≡ ok (pre ++ (encode ls ++ drop (length (encode ls)) xs), length (encode ls)))
      ↔ (length ls ≡ 3)
unfolding query_name_to_wire
query_name_to_wire_iff pre xs ls h fits room =
    rw (lt→ltb _ _ fits, tokens-join ls h, write_labels-encode pre xs ls h room)
      (
        (λ e. ground (arith, e, encode-label_bytes ls)),
        (λ three.
            ap (λ n. ok (pre ++ (encode ls ++ drop (length (encode ls)) xs), n))
              (omega (arith, three, encode-label_bytes ls))),
      )

-- The bytes of a query.
abbrev pub query : ℕ → List (List ℕ) → ℕ → List ℕ
query rand_id ls t = header (rand_id % 256) (rand_id / 256 % 256) 256 0 ++ asked ls t 1

-- The query for a name of three labels, shorter than its buffer, in an array with room for it, is
-- the id, a header that asks one question with recursion desired, and the question in wire format;
-- its length is returned, and no later byte changes.
pub create_dns_query-layout :
    (rand_id t : ℕ) (wire : List ℕ) (ls : List (List ℕ))
    → All IsLabel ls
    → length (join ls) < buffer_max
    → length ls ≡ 3
    → length (query rand_id ls t) ≤ length wire
    → create_dns_query rand_id (join ls) t wire
      ≡ ok (
        query rand_id ls t ++ drop (length (query rand_id ls t)) wire,
        length (query rand_id ls t),
      )
unfolding create_dns_query
create_dns_query-layout rand_id t wire ls labels fits three room =
    rw (id_written, preset_written, named, type_written, class_written)
      (ap₂ (λ b n. ok (b, n)) shape total)
  where
    k : ℕ
    k = length (encode ls)

    h : List ℕ
    h = header (rand_id % 256) (rand_id / 256 % 256) 256 0

    id : List ℕ
    id = (rand_id % 256) ∷ (rand_id / 256 % 256) ∷ []

    x1 : List ℕ
    x1 = drop 2 wire

    x2 : List ℕ
    x2 = drop 10 x1

    x3 : List ℕ
    x3 = drop k x2

    x4 : List ℕ
    x4 = drop 2 x3

    size : length (query rand_id ls t) ≡ 12 + k + 4
    size =
        omega (arith, length-append h (asked ls t 1), length-append (encode ls) (be16 t ++ be16 1))

    rooms :
        (length x1 + 2 ≡ length wire)
        × (length x2 + 12 ≡ length wire)
        × (length x3 + 12 + k ≡ length wire)
        × (length x4 + 14 + k ≡ length wire)
    rooms = omega (
      arith,
      room,
      size,
      length-drop 2 wire,
      length-drop 10 x1,
      length-drop k x2,
      length-drop 2 x3,
    )

    id_written : write_at wire 0 id ≡ some (id ++ x1)
    id_written = write_next wire [] wire id 0 refl refl (omega (arith, room, size))

    preset_written : write_at (id ++ x1) 2 preset_data ≡ some (h ++ x2)
    preset_written =
        write_next (id ++ x1) id x1 preset_data 2 refl refl (omega (arith, room, size, rooms))

    named : query_name_to_wire (join ls) (h ++ x2) 12 ≡ ok (h ++ (encode ls ++ x3), k)
    named = (query_name_to_wire_iff h x2 ls labels fits (omega (arith, room, size, rooms))).1 three

    p : List ℕ
    p = h ++ encode ls

    place : length p ≡ 12 + k
    place = length-append h (encode ls)

    type_written : write_at (h ++ (encode ls ++ x3)) (12 + k) (be16 t) ≡ some ((p ++ be16 t) ++ x4)
    type_written =
        write_next _ p x3 (be16 t) (12 + k) (sym (append_assoc h (encode ls) x3)) (sym place)
          (omega (arith, room, size, rooms))

    class_written :
        write_at ((p ++ be16 t) ++ x4) (12 + k + 2) (be16 1)
        ≡ some (((p ++ be16 t) ++ be16 1) ++ drop 2 x4)
    class_written =
        write_next _ (p ++ be16 t) x4 (be16 1) (12 + k + 2) refl
          (omega (arith, place, length-append p (be16 t))) (omega (arith, room, size, rooms))

    tail : drop 2 x4 ≡ drop (length (query rand_id ls t)) wire
    tail =
        let n : 2 + (10 + (k + 4)) ≡ length (query rand_id ls t) = omega (arith, size) in
        drop-drop 2 2 x3
        ∙ drop-drop k 4 x2
        ∙ drop-drop 10 (k + 4) x1
        ∙ drop-drop 2 (10 + (k + 4)) wire
        ∙ ap (λ n. drop n wire) n

    shape :
        ((p ++ be16 t) ++ be16 1) ++ drop 2 x4
        ≡ query rand_id ls t ++ drop (length (query rand_id ls t)) wire
    shape = rw tail (
        let e : (p ++ be16 t) ++ be16 1 ≡ query rand_id ls t = simp append_assoc in
        ap (λ b. b ++ drop (length (query rand_id ls t)) wire) e)

    total : (12 + k + 4) % 2 ^ 16 ≡ length (query rand_id ls t)
    total = omega (arith, size, fits, encode_short ls)
