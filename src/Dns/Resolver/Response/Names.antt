-- ===== src/Dns/Resolver/Response/Names.antt =====
-- labs/dnsresolverlab-handout/resolver.c, `name_ascii_from_wire`: names and pointers to names.
use mathlib.Core.List.{append_assoc, append-nil}
use cs_360_internet_programm.Base.{
  ℕ, zero, suc, ◌+◌, ◌≤◌, ◌<◌, ◌≡◌, refl, sym, ap, ◌∙◌, arith, Bool, true, false, some, List, [],
  ◌∷◌, ◌++◌, length, drop, get_elem?, ltb, leb, ◌==◌, if◌then◌else◌, All, length-append,
  get_elem?-append, lt→ltb, le→ltb,
}
use cs_360_internet_programm.Base.Run.{ok, ◌>>=◌}
use cs_360_internet_programm.Base.Bytes.{slice, slice-append}
use cs_360_internet_programm.Dns.Name.{buffer_max, compressed_val, c_string}
use cs_360_internet_programm.Dns.Name.RoundTrip.{
  IsLabel, join, encode, first, behind, dotted, join-dotted, encode-first, NoZero,
}
use cs_360_internet_programm.Dns.Resolver.Response.{string_in, name_loop, response_name}

c_string-append : (xs ys : List ℕ) → NoZero xs → c_string (xs ++ ys) ≡ xs ++ c_string ys
unfolding c_string
c_string-append [] ys h = refl
c_string-append (x ∷ xs) ys h =
    let e : (x == 0) ≡ false = ground (arith, h.0) in
    rw e (ap (λ t. x ∷ t) (c_string-append xs ys h.1))

-- A round of the reader at a label.
label_round :
    (fuel : ℕ) (memory wire : List ℕ) (wire_ptr index : ℕ) (compressed : Bool) (name l : List ℕ)
    (ls : List (List ℕ))
    → 0 < length l
    → length l < compressed_val
    → slice wire (wire_ptr + 1) (length l) ≡ some l
    → get_elem? wire (wire_ptr + 1 + length l) ≡ some (first ls)
    → length (name ++ dotted l ls) ≤ buffer_max
    → name_loop (suc fuel) memory wire wire_ptr index compressed name (length l)
      ≡ name_loop fuel memory wire
          (wire_ptr + 1 + length l)
          (if compressed then index else index + 1 + length l)
          compressed
          (name ++ dotted l ls)
          (first ls)
unfolding name_loop
label_round fuel memory wire wire_ptr index compressed name l ls filled short s g room =
    let e : (length l == 0) ≡ false = ground (arith, filled) in
    let f : leb compressed_val (length l) ≡ false = ground (arith, short) in
    let o : ltb buffer_max (length (name ++ dotted l ls)) ≡ false = le→ltb _ _ room in
    rw (e, name_loop) (rw f (rw s (rw g (rw o refl))))

-- Where the index gets to: behind the pointer, or behind the name.
abbrev index_after : Bool → ℕ → List (List ℕ) → ℕ
index_after true index ls = index + 1
index_after false index ls = index + length (encode ls)

index_after_end : (c : Bool) (index : ℕ) → index_after c index [] ≡ index + 1
index_after_end true index = refl
index_after_end false index = refl

module _ (memory wire final : List ℕ) (fits : length final < buffer_max) where
  name_loop-encode :
      (fuel : ℕ) (pre rest name : List ℕ) (ls : List (List ℕ)) (wire_ptr index : ℕ)
      (compressed : Bool)
      → All IsLabel ls
      → length ls < fuel
      → wire ≡ pre ++ (encode ls ++ rest)
      → wire_ptr ≡ length pre
      → name ++ join ls ≡ final
      → name_loop fuel memory wire wire_ptr index compressed name (first ls)
        ≡ (string_in memory final >>= (λ s. ok (s, index_after compressed index ls)))
  name_loop-encode zero pre rest name ls wire_ptr index c h enough w p e = absurd (omega arith)
  name_loop-encode (suc fuel) pre rest name [] wire_ptr index c h enough w p e =
      let n : name ≡ final = sym (append-nil name) ∙ e in
      unfold name_loop in rw (n, index_after_end c index) refl
  name_loop-encode (suc fuel) pre rest name (l ∷ ls) wire_ptr index c h enough w p e =
      label_round fuel memory wire wire_ptr index c name l ls h.0.filled h.0.short read next room
      ∙ name_loop-encode fuel (pre ++ (length l ∷ l)) rest (name ++ dotted l ls) ls
          (wire_ptr + 1 + length l) _ c h.1 (omega arith) at_next pointer copied
      ∙ ap (λ k. string_in memory final >>= (λ s. ok (s, k))) (total c)
    where
      at_label : wire ≡ (pre ++ (length l ∷ [])) ++ (l ++ (encode ls ++ rest))
      at_label = w ∙ simp append_assoc

      at_next : wire ≡ (pre ++ (length l ∷ l)) ++ (encode ls ++ rest)
      at_next = w ∙ simp append_assoc

      label_pointer : wire_ptr + 1 ≡ length (pre ++ (length l ∷ []))
      label_pointer = omega (arith, p, length-append pre (length l ∷ []))

      pointer : wire_ptr + 1 + length l ≡ length (pre ++ (length l ∷ l))
      pointer = omega (arith, p, length-append pre (length l ∷ l))

      read : slice wire (wire_ptr + 1) (length l) ≡ some l
      read =
          rw (at_label, label_pointer) (slice-append (pre ++ (length l ∷ [])) l (encode ls ++ rest))

      next : get_elem? wire (wire_ptr + 1 + length l) ≡ some (first ls)
      next =
          rw (at_next, pointer, encode-first ls)
            (get_elem?-append (pre ++ (length l ∷ l)) (first ls) (behind ls ++ rest))

      copied : (name ++ dotted l ls) ++ join ls ≡ final
      copied =
          append_assoc name (dotted l ls) (join ls)
          ∙ ap (λ t. name ++ t) (sym (join-dotted l ls h.1))
          ∙ e

      room : length (name ++ dotted l ls) ≤ buffer_max
      room = omega (arith, fits, ap length copied, length-append (name ++ dotted l ls) (join ls))

      total :
          (b : Bool)
          → index_after b (if b then index else index + 1 + length l) ls
            ≡ index_after b index (l ∷ ls)
      total true = refl
      total false = omega (arith, length-append l (encode ls))

-- A name in the wire is read as the string that its array then holds.
pub response_name-encode :
    (fuel : ℕ) (memory pre rest : List ℕ) (ls : List (List ℕ))
    → All IsLabel ls
    → length (join ls) < buffer_max
    → length ls < fuel
    → response_name fuel memory (pre ++ (encode ls ++ rest)) (length pre)
      ≡ (string_in memory (join ls) >>= (λ s. ok (s, length pre + length (encode ls))))
unfolding response_name
response_name-encode fuel memory pre rest ls h fits enough = rw start (
    name_loop-encode memory (pre ++ (encode ls ++ rest)) (join ls) fits fuel pre rest [] ls
      (length pre) (length pre) false h enough refl refl refl)
  where
    start : get_elem? (pre ++ (encode ls ++ rest)) (length pre) ≡ some (first ls)
    start = rw (encode-first ls) (get_elem?-append pre (first ls) (behind ls ++ rest))

-- A pointer to a name is read as that name; the index gets behind the pointer.
pub response_name-pointer :
    (fuel : ℕ) (memory wire pre rest pre' rest' : List ℕ) (ls : List (List ℕ)) (index : ℕ)
    → All IsLabel ls
    → length (join ls) < buffer_max
    → suc (length ls) < fuel
    → wire ≡ pre ++ (encode ls ++ rest)
    → wire ≡ pre' ++ (compressed_val ∷ length pre ∷ rest')
    → index ≡ length pre'
    → response_name fuel memory wire index
      ≡ (string_in memory (join ls) >>= (λ s. ok (s, index + 2)))
unfolding response_name name_loop
response_name-pointer zero memory wire pre rest pre' rest' ls index h fits enough w w' i =
    absurd (omega (arith, enough))
response_name-pointer (suc fuel) memory wire pre rest pre' rest' ls index h fits enough w w' i =
    rw (mark) (
      rw (offset) (
        rw (target) (
          name_loop-encode memory wire (join ls) fits fuel pre rest [] ls (length pre) (index + 1)
            true h (omega (arith, enough)) w refl refl
          ∙ ap (λ k. string_in memory (join ls) >>= (λ s. ok (s, k))) two)))
  where
    mark : get_elem? wire index ≡ some compressed_val
    mark = rw (w', i) (get_elem?-append pre' compressed_val (length pre ∷ rest'))

    place : index + 1 ≡ length (pre' ++ (compressed_val ∷ []))
    place = omega (arith, i, length-append pre' (compressed_val ∷ []))

    shape : wire ≡ (pre' ++ (compressed_val ∷ [])) ++ (length pre ∷ rest')
    shape = w' ∙ sym (append_assoc pre' (compressed_val ∷ []) (length pre ∷ rest'))

    offset : get_elem? wire (index + 1) ≡ some (length pre)
    offset = rw (shape, place) (get_elem?-append (pre' ++ (compressed_val ∷ [])) (length pre) rest')

    target : get_elem? wire (length pre) ≡ some (first ls)
    target = rw (w, encode-first ls) (get_elem?-append pre (first ls) (behind ls ++ rest))

    two : index + 1 + 1 ≡ index + 2
    two = omega arith

-- The string in an array that has a name in front, and a zero somewhere behind.
pub string_in-name :
    (memory name m : List ℕ)
    → NoZero name
    → drop (length name) memory ≡ m
    → length (name ++ c_string m) < buffer_max
    → string_in memory name ≡ ok (name ++ c_string m)
unfolding string_in
string_in-name memory name m plain e fits =
    rw (e, c_string-append name m plain, lt→ltb _ _ fits) refl
