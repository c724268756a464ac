-- ===== src/Dns/Name/Pointers.antt =====
-- labs/dnsserverlab-handout/dns.c, `name_ascii_from_wire`: compression pointers.
use cs_360_internet_programm.Base.{
  ℕ, zero, suc, ◌+◌, ◌≤◌, ◌≡◌, refl, arith, Bool, true, false, some, List, [], get_elem?, leb, ◌==◌,
  if◌then◌else◌, ◌∙◌,
}
use cs_360_internet_programm.Base.Run.{out_of_fuel}
use cs_360_internet_programm.Dns.Name.{compressed_val, from_wire_loop, name_ascii_from_wire}

-- A round of the reader at a pointer: it goes to the offset that the next byte holds.
pointer_step :
    (fuel : ℕ) (wire : List ℕ) (wire_ptr index : ℕ) (compressed : Bool) (name : List ℕ)
    (b offset next : ℕ)
    → compressed_val ≤ b
    → get_elem? wire (wire_ptr + 1) ≡ some offset
    → get_elem? wire offset ≡ some next
    → from_wire_loop (suc fuel) wire wire_ptr index compressed name b
      ≡ from_wire_loop fuel wire offset (if compressed then index else index + 1) true name next
unfolding from_wire_loop
pointer_step fuel wire wire_ptr index compressed name b offset next mark p q =
    let e : (b == 0) ≡ false = ground arith in
    let f : leb compressed_val b ≡ true = ground arith in
    rw (e, from_wire_loop) (rw f (rw p (rw q refl)))

self_loop :
    (fuel : ℕ) (wire : List ℕ) (i index : ℕ) (compressed : Bool) (name : List ℕ) (b : ℕ)
    → compressed_val ≤ b
    → get_elem? wire i ≡ some b
    → get_elem? wire (i + 1) ≡ some i
    → from_wire_loop fuel wire i index compressed name b ≡ out_of_fuel
self_loop zero wire i index compressed name b mark p q = unfold from_wire_loop in refl
self_loop (suc fuel) wire i index compressed name b mark p q =
    pointer_step fuel wire i index compressed name b i b mark q p
    ∙ self_loop fuel wire i (if compressed then index else index + 1) true name b mark p q

-- A name that is a pointer to its own index is never read to its end: no fuel is enough.
pub self_pointer_loops :
    (wire : List ℕ) (i b : ℕ)
    → compressed_val ≤ b
    → get_elem? wire i ≡ some b
    → get_elem? wire (i + 1) ≡ some i
    → (fuel : ℕ) → name_ascii_from_wire fuel wire i ≡ out_of_fuel
unfolding name_ascii_from_wire
self_pointer_loops wire i b mark p q fuel = rw p (self_loop fuel wire i i false [] b mark p q)
