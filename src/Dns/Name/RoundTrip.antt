-- ===== src/Dns/Name/RoundTrip.antt =====
-- labs/dnsserverlab-handout/dns.c: a name that is written in wire format is read back.
use mathlib.Core.Path.{ap₂}
use mathlib.Core.List.{append_assoc, append-nil}
use cs_360_internet_programm.Base.{
  ℕ, zero, suc, ◌+◌, ◌-◌, ◌%◌, ◌≤◌, ◌<◌, ◌≡◌, ◌≢◌, refl, sym, ap, ◌∙◌, arith, false, some, List, [],
  ◌∷◌, ◌++◌, length, get_elem?, ltb, leb, ◌==◌, if◌then◌else◌, All, length-append, lt→ltb, le→ltb,
  drop, drop-drop, length-drop, get_elem?-append,
}
use cs_360_internet_programm.Base.Run.{ok}
use cs_360_internet_programm.Base.Bytes.{slice, write_at-append, slice-append}
use cs_360_internet_programm.Dns.Name.{
  buffer_max, compressed_val, dot, tokens, token, write_labels, name_ascii_to_wire, c_string,
  from_wire_loop, name_ascii_from_wire,
}

-- A label that the wire format can carry beside pointers: not empty, and short enough that its
-- length is no pointer mark.
pub record IsLabel (l : List ℕ) : Type 0 where
  pub filled : 0 < length l
  pub short : length l < compressed_val
  pub plain : All (λ c. (c ≢ dot) × (c ≢ 0)) l

-- The labels with a dot between two.
abbrev pub join : List (List ℕ) → List ℕ
join [] = []
join (l ∷ []) = l
join (l ∷ k ∷ ls) = l ++ (dot ∷ join (k ∷ ls))

-- The wire format: each label behind its length, and a zero at the end.
abbrev pub encode : List (List ℕ) → List ℕ
encode [] = 0 ∷ []
encode (l ∷ ls) = length l ∷ (l ++ encode ls)

-- `strtok` reads a label up to the dot, or up to the end.
tokens_label :
    (seen l : List ℕ) (rest : List ℕ)
    → All (λ c. (c ≢ dot) × (c ≢ 0)) l
    → tokens seen (l ++ rest) ≡ tokens (seen ++ l) rest
unfolding tokens
tokens_label seen [] rest h = rw append-nil refl
tokens_label seen (c ∷ l) rest h =
    let e : (c == dot) ≡ false = ground (arith, h.0.0) in
    rw (e, tokens)
      (tokens_label (seen ++ (c ∷ [])) l rest h.1
        ∙ ap (λ s. tokens s rest) (append_assoc seen (c ∷ []) l))

token_filled : (l : List ℕ) → 0 < length l → token l ≡ l ∷ []
token_filled [] h = elim h [ ]
token_filled (c ∷ l) h = refl

pub tokens-join : (ls : List (List ℕ)) → All IsLabel ls → tokens [] (join ls) ≡ ls
unfolding tokens
tokens-join [] h = refl
tokens-join (l ∷ []) h =
    ap (tokens []) (sym (append-nil l)) ∙ tokens_label [] l [] h.0.plain ∙ token_filled l h.0.filled
tokens-join (l ∷ k ∷ ls) h =
    tokens_label [] l (dot ∷ join (k ∷ ls)) h.0.plain
    ∙ ap (λ t. token l ++ t) (tokens-join (k ∷ ls) h.1)
    ∙ ap (λ t. t ++ (k ∷ ls)) (token_filled l h.0.filled)

-- The loop of `name_ascii_to_wire` writes the encoding in place of as many bytes, and stops
-- behind it.
pub write_labels-encode :
    (pre xs : List ℕ) (ls : List (List ℕ))
    → All IsLabel ls
    → length (encode ls) ≤ length xs
    → write_labels (pre ++ xs) (length pre) ls
      ≡ ok (pre ++ (encode ls ++ drop (length (encode ls)) xs), length pre + length (encode ls))
unfolding write_labels
write_labels-encode pre xs [] h room = rw (write_at-append pre xs (0 ∷ []) room) refl
write_labels-encode pre xs (l ∷ ls) h room =
    step
    ∙ write_labels-encode (pre ++ chunk) rest ls h.1 (omega (arith, length-drop size xs, parts))
    ∙ rw (written, moved)
  where
    chunk : List ℕ
    chunk = length l ∷ l

    size : ℕ
    size = suc (length l)

    rest : List ℕ
    rest = drop size xs

    parts : length (l ++ encode ls) ≡ length l + length (encode ls)
    parts = length-append l (encode ls)

    one_byte : length l % 256 ≡ length l
    one_byte = omega (arith, h.0.short)

    step :
        write_labels (pre ++ xs) (length pre) (l ∷ ls)
        ≡ write_labels ((pre ++ chunk) ++ rest) (length (pre ++ chunk)) ls
    step =
        rw (one_byte, write_at-append pre xs chunk (omega (arith, parts)))
          (ap₂ (λ b p. write_labels b p ls) (sym (append_assoc pre chunk rest))
            (omega (arith, length-append pre chunk)))

    sizes : suc (length l) + length (encode ls) ≡ suc (length (l ++ encode ls))
    sizes = omega (arith, parts)

    written :
        (pre ++ chunk) ++ (encode ls ++ drop (length (encode ls)) rest)
        ≡ pre ++ (encode (l ∷ ls) ++ drop (length (encode (l ∷ ls))) xs)
    written = simp (append_assoc, drop-drop) (rw (sizes) refl)

    moved : length (pre ++ chunk) + length (encode ls) ≡ length pre + length (encode (l ∷ ls))
    moved = omega (arith, length-append pre chunk, parts)

-- The first byte of an encoding, and what the reader does with it.
abbrev pub first : List (List ℕ) → ℕ
first [] = 0
first (l ∷ ls) = length l

abbrev pub behind : List (List ℕ) → List ℕ
behind [] = []
behind (l ∷ ls) = l ++ encode ls

pub encode-first : (ls : List (List ℕ)) → encode ls ≡ first ls ∷ behind ls
encode-first [] = refl
encode-first (l ∷ ls) = refl

-- Behind a label comes a dot, unless the name ends there.
abbrev pub dotted : List ℕ → List (List ℕ) → List ℕ
dotted l ls = l ++ (if first ls == 0 then [] else dot ∷ [])

pub join-dotted :
    (l : List ℕ) (ls : List (List ℕ)) → All IsLabel ls → join (l ∷ ls) ≡ dotted l ls ++ join ls
join-dotted l [] h = sym (append-nil (l ++ []) ∙ append-nil l)
join-dotted l (k ∷ ls) h =
    let e : (length k == 0) ≡ false = ground (arith, h.0.filled) in
    rw e (sym (append_assoc l (dot ∷ []) (join (k ∷ ls))))

-- A round of the reader at a label.
label_step :
    (fuel : ℕ) (wire : List ℕ) (wire_ptr index : ℕ) (name l : List ℕ) (ls : List (List ℕ))
    → 0 < length l
    → length l < compressed_val
    → slice wire (wire_ptr + 1) (length l) ≡ some l
    → get_elem? wire (wire_ptr + 1 + length l) ≡ some (first ls)
    → length (name ++ dotted l ls) ≤ buffer_max
    → from_wire_loop (suc fuel) wire wire_ptr index false name (length l)
      ≡ from_wire_loop fuel wire
          (wire_ptr + 1 + length l)
          (index + 1 + length l)
          false
          (name ++ dotted l ls)
          (first ls)
unfolding from_wire_loop
label_step fuel wire wire_ptr index name l ls filled short s g room =
    let e : (length l == 0) ≡ false = ground (arith, filled) in
    let f : leb compressed_val (length l) ≡ false = ground (arith, short) in
    let o : ltb buffer_max (length (name ++ dotted l ls)) ≡ false = le→ltb _ _ room in
    rw (e, from_wire_loop) (rw f (rw s (rw g (rw o refl))))

module _ (wire final : List ℕ) (plain : c_string final ≡ final)
    (fits : length final < buffer_max) where
  from_wire_loop-encode :
      (fuel : ℕ) (pre rest name : List ℕ) (ls : List (List ℕ)) (wire_ptr index : ℕ)
      → All IsLabel ls
      → length ls < fuel
      → wire ≡ pre ++ (encode ls ++ rest)
      → wire_ptr ≡ length pre
      → name ++ join ls ≡ final
      → from_wire_loop fuel wire wire_ptr index false name (first ls)
        ≡ ok (final, index + length (encode ls))
  from_wire_loop-encode zero pre rest name ls wire_ptr index h enough w p e = absurd (omega arith)
  from_wire_loop-encode (suc fuel) pre rest name [] wire_ptr index h enough w p e =
      let n : name ≡ final = sym (append-nil name) ∙ e in
      unfold from_wire_loop in rw (n, lt→ltb _ _ fits, plain) refl
  from_wire_loop-encode (suc fuel) pre rest name (l ∷ ls) wire_ptr index h enough w p e =
      label_step fuel wire wire_ptr index name l ls h.0.filled h.0.short read next room
      ∙ from_wire_loop-encode fuel (pre ++ (length l ∷ l)) rest (name ++ dotted l ls) ls
          (wire_ptr + 1 + length l) (index + 1 + length l) h.1 (omega arith) at_next pointer copied
      ∙ ap (λ k. ok (final, k)) total
    where
      at_label : wire ≡ (pre ++ (length l ∷ [])) ++ (l ++ (encode ls ++ rest))
      at_label = w ∙ simp append_assoc

      at_next : wire ≡ (pre ++ (length l ∷ l)) ++ (encode ls ++ rest)
      at_next = w ∙ simp append_assoc

      label_pointer : wire_ptr + 1 ≡ length (pre ++ (length l ∷ []))
      label_pointer = omega (arith, p, length-append pre (length l ∷ []))

      pointer : wire_ptr + 1 + length l ≡ length (pre ++ (length l ∷ l))
      pointer = omega (arith, p, length-append pre (length l ∷ l))

      read : slice wire (wire_ptr + 1) (length l) ≡ some l
      read =
          rw (at_label, label_pointer) (slice-append (pre ++ (length l ∷ [])) l (encode ls ++ rest))

      next : get_elem? wire (wire_ptr + 1 + length l) ≡ some (first ls)
      next =
          rw (at_next, pointer, encode-first ls)
            (get_elem?-append (pre ++ (length l ∷ l)) (first ls) (behind ls ++ rest))

      copied : (name ++ dotted l ls) ++ join ls ≡ final
      copied =
          append_assoc name (dotted l ls) (join ls)
          ∙ ap (λ t. name ++ t) (sym (join-dotted l ls h.1))
          ∙ e

      room : length (name ++ dotted l ls) ≤ buffer_max
      room = omega (arith, fits, ap length copied, length-append (name ++ dotted l ls) (join ls))

      total : index + 1 + length l + length (encode ls) ≡ index + length (encode (l ∷ ls))
      total = omega (arith, length-append l (encode ls))

-- A string of labels has no zero.
abbrev pub NoZero : List ℕ → Type 0
NoZero = All (λ c. c ≢ 0)

c_string-NoZero : (s : List ℕ) → NoZero s → c_string s ≡ s
unfolding c_string
c_string-NoZero [] h = refl
c_string-NoZero (c ∷ s) h =
    let e : (c == 0) ≡ false = ground (arith, h.0) in rw e (ap (λ t. c ∷ t) (c_string-NoZero s h.1))

NoZero-append : (l s : List ℕ) → All (λ c. (c ≢ dot) × (c ≢ 0)) l → NoZero s → NoZero (l ++ s)
NoZero-append [] s h k = k
NoZero-append (c ∷ l) s h k = (h.0.1, NoZero-append l s h.1 k)

pub NoZero-join : (ls : List (List ℕ)) → All IsLabel ls → NoZero (join ls)
NoZero-join [] h = tt
NoZero-join (l ∷ []) h = rw (← append-nil l) (NoZero-append l [] h.0.plain tt)
NoZero-join (l ∷ k ∷ ls) h =
    NoZero-append l _ h.0.plain ((λ e. absurd (omega (arith, e))), NoZero-join (k ∷ ls) h.1)

-- A name of `n` labels takes two bytes more than its string: the first length and the zero.
pub length-encode :
    (l : List ℕ) (ls : List (List ℕ)) → length (encode (l ∷ ls)) ≡ length (join (l ∷ ls)) + 2
length-encode l [] = omega (arith, length-append l (0 ∷ []))
length-encode l (k ∷ ls) = omega (
  arith,
  length-encode k ls,
  length-append l (encode (k ∷ ls)),
  length-append l (dot ∷ join (k ∷ ls)),
)

pub encode_short : (ls : List (List ℕ)) → length (encode ls) ≤ length (join ls) + 2
encode_short [] = omega arith
encode_short (l ∷ ls) = omega (arith, length-encode l ls)

-- Writing a name puts its encoding over as many bytes of the array, leaves the rest alone, and
-- returns the length of the encoding.
pub name_ascii_to_wire-encode :
    (pre xs : List ℕ) (ls : List (List ℕ))
    → All IsLabel ls
    → length (join ls) < buffer_max
    → length (encode ls) ≤ length xs
    → name_ascii_to_wire (join ls) (pre ++ xs) (length pre)
      ≡ ok (pre ++ (encode ls ++ drop (length (encode ls)) xs), length (encode ls))
unfolding name_ascii_to_wire
name_ascii_to_wire-encode pre xs ls h fits room =
    rw (lt→ltb _ _ fits, tokens-join ls h, write_labels-encode pre xs ls h room)
      (let e : length pre + length (encode ls) - length pre ≡ length (encode ls) = omega arith in
        rw e refl)

-- Reading at the encoding of a name gives the name, and the index behind the encoding, with one
-- round of fuel more than the name has labels.
pub name_ascii_from_wire-encode :
    (fuel : ℕ) (pre rest : List ℕ) (ls : List (List ℕ))
    → All IsLabel ls
    → length (join ls) < buffer_max
    → length ls < fuel
    → name_ascii_from_wire fuel (pre ++ (encode ls ++ rest)) (length pre)
      ≡ ok (join ls, length pre + length (encode ls))
unfolding name_ascii_from_wire
name_ascii_from_wire-encode fuel pre rest ls h fits enough = rw start (
    from_wire_loop-encode (pre ++ (encode ls ++ rest)) (join ls)
      (c_string-NoZero _ (NoZero-join ls h)) fits fuel pre rest [] ls (length pre) (length pre) h
      enough refl refl refl)
  where
    start : get_elem? (pre ++ (encode ls ++ rest)) (length pre) ≡ some (first ls)
    start = rw (encode-first ls) (get_elem?-append pre (first ls) (behind ls ++ rest))

-- A name of labels, shorter than its buffer: what `name_ascii_to_wire` writes anywhere in an array
-- with room for it, `name_ascii_from_wire` reads back there, with more rounds of fuel than labels,
-- and both agree on how many bytes it takes.
pub name_round_trip :
    (fuel : ℕ) (pre xs : List ℕ) (ls : List (List ℕ))
    → All IsLabel ls
    → length (join ls) < buffer_max
    → length (encode ls) ≤ length xs
    → length ls < fuel
    → (b : List ℕ) × (n : ℕ) × (name_ascii_to_wire (join ls) (pre ++ xs) (length pre) ≡ ok (b, n))
      × (name_ascii_from_wire fuel b (length pre) ≡ ok (join ls, length pre + n))
name_round_trip fuel pre xs ls h fits room enough = (
  _,
  _,
  name_ascii_to_wire-encode pre xs ls h fits room,
  name_ascii_from_wire-encode fuel pre _ ls h fits enough,
)
