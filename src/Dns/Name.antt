-- ===== src/Dns/Name.antt =====
-- labs/dnsserverlab-handout/dns.c: domain names, as strings and in wire format.
pub mod RoundTrip
pub mod Pointers
pub mod Canonical
use cs_360_internet_programm.Base.{
  ℕ, zero, suc, ◌+◌, ◌-◌, ◌%◌, Bool, true, false, ◌&&◌, Option, none, some, List, [], ◌∷◌, ◌++◌,
  map, length, get_elem?, ltb, leb, ◌==◌, if◌then◌else◌,
}
use cs_360_internet_programm.Base.Run.{Run, ok, fault, out_of_fuel, ◌>>=◌, checked}
use cs_360_internet_programm.Base.Bytes.{write_at, slice}

abbrev pub buffer_max : ℕ
buffer_max = 1024

abbrev pub compressed_val : ℕ
compressed_val = 192

abbrev pub dot : ℕ
dot = b'.'

-- `strcmp(a, b) == 0`
unfoldable pub same_string : List ℕ → List ℕ → Bool
same_string [] [] = true
same_string [] (b ∷ bs) = false
same_string (a ∷ as') [] = false
same_string (a ∷ as') (b ∷ bs) = (a == b) && same_string as' bs

abbrev pub lower : ℕ → ℕ
lower c = if leb b'A' c && leb c b'Z' then c + 32 else c

-- `name[namelen - 1] = '\0'` cuts the string short by one. For the empty string the source reads
-- the byte before the array; that read is not modelled, and nothing is cut.
unfoldable pub cut_dot : List ℕ → List ℕ
cut_dot [] = []
cut_dot (c ∷ []) = if c == dot then [] else c ∷ []
cut_dot (c ∷ d ∷ cs) = c ∷ cut_dot (d ∷ cs)

unfoldable pub canonicalize_name : List ℕ → List ℕ
unfolding same_string cut_dot
canonicalize_name name = if same_string name (dot ∷ []) then name else map lower (cut_dot name)

-- A token of `strtok`, unless it is empty.
abbrev pub token : List ℕ → List (List ℕ)
token [] = []
token (c ∷ cs) = (c ∷ cs) ∷ []

-- The tokens that `strtok(name, ".")` and its further calls return, behind the characters of the
-- token that is being read.
unfoldable pub tokens : List ℕ → List ℕ → List (List ℕ)
tokens seen [] = token seen
tokens seen (c ∷ cs) = elim (c == dot) [
  | true ↦ token seen ++ tokens [] cs
  | false ↦ tokens (seen ++ (c ∷ [])) cs
]

-- The loop of `name_ascii_to_wire`: the labels are written from `wire_ptr` on, each behind its
-- length as a `char`. It returns the array and the pointer behind the terminating zero.
unfoldable pub write_labels : List ℕ → ℕ → List (List ℕ) → Run (List ℕ × ℕ)
write_labels buffer wire_ptr [] = do
  b ← checked (write_at buffer wire_ptr (0 ∷ []))
  ok (b, wire_ptr + 1)
write_labels buffer wire_ptr (l ∷ ls) = do
  b ← checked (write_at buffer wire_ptr ((length l % 256) ∷ l))
  write_labels b (wire_ptr + 1 + length l) ls

-- `name_ascii_to_wire(name, buffer + start)`: the array, and the length that is returned. A name
-- that does not fit `name_buffer` with its zero faults.
unfoldable pub name_ascii_to_wire : List ℕ → List ℕ → ℕ → Run (List ℕ × ℕ)
unfolding tokens write_labels
name_ascii_to_wire name buffer start =
    if ltb (length name) buffer_max
    then (do (b, wire_ptr) ← write_labels buffer start (tokens [] name); ok (b, wire_ptr - start))
    else fault

-- The string that an array holds: the bytes before its first zero.
unfoldable pub c_string : List ℕ → List ℕ
c_string [] = []
c_string (c ∷ cs) = if c == 0 then [] else c ∷ c_string cs

-- The loop of `name_ascii_from_wire`, one round for a label or a pointer. `name` is what was copied
-- to the new array so far; the copy faults where it would leave no room for the zero.
unfoldable pub from_wire_loop : ℕ → List ℕ → ℕ → ℕ → Bool → List ℕ → ℕ → Run (List ℕ × ℕ)
from_wire_loop zero wire wire_ptr index compressed name label_len = out_of_fuel
from_wire_loop (suc fuel) wire wire_ptr index compressed name label_len = elim (label_len == 0) [
  | true ↦ if ltb (length name) buffer_max then ok (c_string name, index + 1) else fault
  | false ↦ elim (leb compressed_val label_len) [
    | true ↦ (do
      name_offset ← checked (get_elem? wire (wire_ptr + 1))
      next_len ← checked (get_elem? wire name_offset)
      from_wire_loop fuel wire name_offset (if compressed then index else index + 1) true name
          next_len)
    | false ↦ (do
      label ← checked (slice wire (wire_ptr + 1) label_len)
      next_len ← checked (get_elem? wire (wire_ptr + 1 + label_len))
      let name' = name ++ (label ++ (if next_len == 0 then [] else dot ∷ []))
      let rest =
          from_wire_loop fuel wire (wire_ptr + 1 + label_len)
            (if compressed then index else index + 1 + label_len) compressed name' next_len
      if ltb buffer_max (length name') then fault else rest)
  ]
]

-- The string at `index`, and the index behind it.
unfoldable pub name_ascii_from_wire : ℕ → List ℕ → ℕ → Run (List ℕ × ℕ)
unfolding from_wire_loop
name_ascii_from_wire fuel wire index = do
  label_len ← checked (get_elem? wire index)
  from_wire_loop fuel wire index index false [] label_len
