-- ===== src/Dns/Record/Written.antt =====
-- labs/dnsserverlab-handout/dns.c, `rr_to_wire`: the bytes of a record.
use mathlib.Core.Path.{ap₂}
use mathlib.Core.List.{append_assoc}
use cs_360_internet_programm.Base.{
  ℕ, ◌+◌, ◌≤◌, ◌<◌, ◌≡◌, refl, sym, arith, Bool, false, some, List, [], ◌∷◌, ◌++◌, length, ◌==◌,
  All, length-append, drop, drop-drop, length-drop,
}
use cs_360_internet_programm.Base.Run.{ok}
use cs_360_internet_programm.Base.Bytes.{slice, be16, be32, write_next, slice-append}
use cs_360_internet_programm.Dns.Name.{buffer_max, name_ascii_to_wire}
use cs_360_internet_programm.Dns.Name.RoundTrip.{
  IsLabel, join, encode, name_ascii_to_wire-encode, length-encode,
}
use cs_360_internet_programm.Dns.Record.{Rr, rr_to_wire, write_fields}

-- The fields behind the name.
abbrev pub fields : Rr → List ℕ → List ℕ
fields rr content =
    be16 rr.rr_type ++ (be16 rr.rr_class ++ (be32 rr.ttl ++ (be16 rr.rdata_len ++ content)))

module _ (rr : Rr) (content more : List ℕ) (holds : rr.rdata ≡ content ++ more)
    (sized : rr.rdata_len ≡ length content) (pre xs : List ℕ)
    (room : 10 + length content ≤ length xs) where
  p1 : List ℕ
  p1 = pre ++ be16 rr.rr_type

  p2 : List ℕ
  p2 = p1 ++ be16 rr.rr_class

  p3 : List ℕ
  p3 = p2 ++ be32 rr.ttl

  p4 : List ℕ
  p4 = p3 ++ be16 rr.rdata_len

  x1 : List ℕ
  x1 = drop 2 xs

  x2 : List ℕ
  x2 = drop 2 x1

  x3 : List ℕ
  x3 = drop 4 x2

  x4 : List ℕ
  x4 = drop 2 x3

  lengths :
      (length p1 ≡ length pre + 2)
      × (length p2 ≡ length pre + 4)
      × (length p3 ≡ length pre + 8)
      × (length p4 ≡ length pre + 10)
  unfolding p1 p2 p3 p4
  lengths = omega (
    arith,
    length-append pre (be16 rr.rr_type),
    length-append p1 (be16 rr.rr_class),
    length-append p2 (be32 rr.ttl),
    length-append p3 (be16 rr.rdata_len),
  )

  rooms :
      (length x1 + 2 ≡ length xs)
      × (length x2 + 4 ≡ length xs)
      × (length x3 + 8 ≡ length xs)
      × (length x4 + 10 ≡ length xs)
  unfolding x1 x2 x3 x4
  rooms =
      omega (arith, room, length-drop 2 xs, length-drop 2 x1, length-drop 4 x2, length-drop 2 x3)

  content_read : slice rr.rdata 0 rr.rdata_len ≡ some content
  content_read = rw (holds, sized) (slice-append [] content more)

  write_fields-layout :
      write_fields rr (pre ++ xs) (length pre)
      ≡ ok (pre ++ (fields rr content ++ drop (10 + length content) xs))
  unfolding write_fields p1 p2 p3 p4 x1 x2 x3 x4
  write_fields-layout =
      rw
        (write_next (pre ++ xs) pre xs (be16 rr.rr_type) (length pre) refl refl
          (omega (arith, room)))
        (rw
          (write_next (p1 ++ x1) p1 x1 (be16 rr.rr_class) (length pre + 2) refl
            (omega (arith, lengths)) (omega (arith, room, rooms)))
          (rw
            (write_next (p2 ++ x2) p2 x2 (be32 rr.ttl) (length pre + 4) refl
              (omega (arith, lengths)) (omega (arith, room, rooms)))
            (rw
              (write_next (p3 ++ x3) p3 x3 (be16 rr.rdata_len) (length pre + 8) refl
                (omega (arith, lengths)) (omega (arith, room, rooms)))
              (rw content_read (
                rw
                  (write_next (p4 ++ x4) p4 x4 content (length pre + 10) refl
                    (omega (arith, lengths)) (omega (arith, room, rooms)))
                  (simp (append_assoc, drop-drop)))))))

-- A record whose name is one or more labels, shorter than the buffer, and whose data are at least
-- as many bytes as it says, goes out in an array with room for it as its name, type, class, time to
-- live, data length and that many bytes of its data, one behind the other; the length of all this
-- is returned, and no other byte of the array changes.
pub rr_to_wire-layout :
    (rr : Rr) (l : List ℕ) (ls : List (List ℕ)) (content more pre xs : List ℕ) (query_only : Bool)
    → rr.name ≡ join (l ∷ ls)
    → All IsLabel (l ∷ ls)
    → length rr.name < buffer_max
    → rr.rdata ≡ content ++ more
    → rr.rdata_len ≡ length content
    → length (encode (l ∷ ls)) + 10 + length content ≤ length xs
    → rr_to_wire rr (pre ++ xs) (length pre) query_only
      ≡ ok (
        pre
            ++ (encode (l ∷ ls)
                ++ (fields rr content ++ drop (length (encode (l ∷ ls)) + 10 + length content) xs)),
        length (encode (l ∷ ls)) + 10 + length content,
      )
unfolding rr_to_wire
rr_to_wire-layout rr l ls content more pre xs query_only named labels fits holds sized room =
    rw (named_wire, longer, reshaped, rest_written)
      (ap₂ (λ b n. ok (b, n)) shape (omega (arith, sized)))
  where
    k : ℕ
    k = length (encode (l ∷ ls))

    p : List ℕ
    p = pre ++ encode (l ∷ ls)

    reshaped : pre ++ (encode (l ∷ ls) ++ drop k xs) ≡ p ++ drop k xs
    reshaped = sym (append_assoc pre (encode (l ∷ ls)) (drop k xs))

    named_wire :
        name_ascii_to_wire rr.name (pre ++ xs) (length pre)
        ≡ ok (pre ++ (encode (l ∷ ls) ++ drop k xs), k)
    named_wire =
        rw named (
          name_ascii_to_wire-encode pre xs (l ∷ ls) labels (rw (← named) fits)
            (omega (arith, room)))

    longer : (k == length rr.name) ≡ false
    longer = rw named (ground (arith, length-encode l ls))

    offset : length pre + k ≡ length p
    offset = sym (length-append pre (encode (l ∷ ls)))

    rest_written :
        write_fields rr (p ++ drop k xs) (length pre + k)
        ≡ ok (p ++ (fields rr content ++ drop (10 + length content) (drop k xs)))
    rest_written = rw offset (
        write_fields-layout rr content more holds sized p (drop k xs)
          (omega (arith, room, length-drop k xs)))

    shape :
        p ++ (fields rr content ++ drop (10 + length content) (drop k xs))
        ≡ pre ++ (encode (l ∷ ls) ++ (fields rr content ++ drop (k + 10 + length content) xs))
    shape =
        let e : k + (10 + length content) ≡ k + 10 + length content = omega arith in
        rw (drop-drop k (10 + length content) xs, e) (append_assoc pre (encode (l ∷ ls)) _)
