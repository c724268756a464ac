-- ===== src/Dns/Record/Question.antt =====
-- labs/dnsserverlab-handout/dns.c, `rr_from_wire`: the question of a request, and full records.
use mathlib.Core.List.{append_assoc}
use cs_360_internet_programm.Base.{
  ℕ, ◌+◌, ◌*◌, ◌/◌, ◌%◌, ◌≤◌, ◌<◌, ◌≡◌, refl, sym, ap, arith, true, false, none, some, List, ◌∷◌,
  ◌++◌, length, All, length-append, get_elem?, get_elem?-append, ltb, lt→ltb, le→ltb,
}
use cs_360_internet_programm.Base.Run.{ok}
use cs_360_internet_programm.Base.Bytes.{be16, slice-append}
use cs_360_internet_programm.Dns.Name.{buffer_max, compressed_val, name_ascii_from_wire}
use cs_360_internet_programm.Dns.Name.RoundTrip.{IsLabel, join, encode, name_ascii_from_wire-encode}
use cs_360_internet_programm.Dns.Record.{read_be, finish_rr, rr_from_wire}

-- A 16-bit field behind a known front is read as its number.
pub read_be-be16 :
    (wire pre rest : List ℕ) (o n : ℕ)
    → wire ≡ pre ++ (be16 n ++ rest)
    → o ≡ length pre
    → n < 65536
    → read_be wire o 2 ≡ ok n
unfolding read_be
read_be-be16 wire pre rest o n e p small =
    let v : (0 * 256 + n / 256 % 256) * 256 + n % 256 ≡ n = omega arith in
    rw (e, p, slice-append pre (be16 n) rest) (ap ok v)

-- A question in wire format, anywhere in an array, whose name is one or more labels and shorter than
-- the buffer, is read as its name, type and class, with the index behind it, if there is more fuel
-- than labels.
pub rr_from_wire-question :
    (fuel : ℕ) (pre rest l : List ℕ) (ls : List (List ℕ)) (t c : ℕ)
    → All IsLabel (l ∷ ls)
    → length (join (l ∷ ls)) < buffer_max
    → length (l ∷ ls) < fuel
    → t < 65536
    → c < 65536
    → rr_from_wire fuel (pre ++ (encode (l ∷ ls) ++ (be16 t ++ (be16 c ++ rest)))) (length pre) true
      ≡ ok (
        record { name = join (l ∷ ls); rr_type = t; rr_class = c; tail = none },
        length pre + length (encode (l ∷ ls)) + 4,
      )
unfolding rr_from_wire finish_rr
rr_from_wire-question fuel pre rest l ls t c labels fits enough ht hc =
    rw (mark, short, name, type_read, class_read)
  where
    behind_name : List ℕ
    behind_name = be16 t ++ (be16 c ++ rest)

    wire : List ℕ
    wire = pre ++ (encode (l ∷ ls) ++ behind_name)

    mark : get_elem? wire (length pre) ≡ some (length l)
    mark = get_elem?-append pre (length l) _

    short : ltb (length l) compressed_val ≡ true
    short = lt→ltb _ _ labels.0.short

    name :
        name_ascii_from_wire fuel wire (length pre)
        ≡ ok (join (l ∷ ls), length pre + length (encode (l ∷ ls)))
    name = name_ascii_from_wire-encode fuel pre behind_name (l ∷ ls) labels fits enough

    type_read : read_be wire (length pre + length (encode (l ∷ ls))) 2 ≡ ok t
    type_read =
        read_be-be16 wire (pre ++ encode (l ∷ ls)) (be16 c ++ rest) _ t
          (sym (append_assoc pre (encode (l ∷ ls)) behind_name))
          (sym (length-append pre (encode (l ∷ ls)))) ht

    class_read : read_be wire (length pre + length (encode (l ∷ ls)) + 2) 2 ≡ ok c
    class_read =
        read_be-be16 wire ((pre ++ encode (l ∷ ls)) ++ be16 t) rest _ c (simp append_assoc)
          (omega (
            arith,
            length-append pre (encode (l ∷ ls)),
            length-append (pre ++ encode (l ∷ ls)) (be16 t),
          ))
          hc

-- A full record at an index that holds no pointer mark is read as the one eleven bytes behind, if
-- that begins with a pointer mark.
rr_from_wire-misplaced :
    (fuel : ℕ) (wire : List ℕ) (index mark mark' : ℕ)
    → get_elem? wire index ≡ some mark
    → mark < compressed_val
    → get_elem? wire (index + 11) ≡ some mark'
    → compressed_val ≤ mark'
    → rr_from_wire fuel wire index false ≡ rr_from_wire fuel wire (index + 11) false
unfolding rr_from_wire
rr_from_wire-misplaced fuel wire index mark mark' p short q long =
    let e : ltb mark compressed_val ≡ true = lt→ltb _ _ short in
    let f : ltb mark' compressed_val ≡ false = le→ltb _ _ long in rw (p, e, q, f) refl
