-- ===== src/Dns/Server/Lookup.antt =====
-- labs/dnsserverlab-handout/server.c: the search through the database.
use mathlib.Core.List.{append_assoc, append-nil}
use mathlib.Core.Path.{subst}
use cs_360_internet_programm.Base.{
  ℕ, zero, suc, ◌+◌, ◌-◌, ◌≤◌, ◌<◌, ◌≡◌, ◌≢◌, refl, sym, ◌∙◌, arith, Bool, true, false, ◌&&◌, none,
  some, List, [], ◌∷◌, ◌++◌, length, ◌==◌, if◌then◌else◌, All, length-append, get_elem?,
  get_elem?-append, get_elem?-length, ltb, lt→ltb, Bool-cases, inl, inr, not,
}
use cs_360_internet_programm.Base.Run.{Run, ok, ◌>>=◌, >>=-eq-ok}
use cs_360_internet_programm.Dns.Name.{name_ascii_from_wire}
use cs_360_internet_programm.Dns.Record.{rr_to_wire}
use cs_360_internet_programm.Dns.Server.{
  Entry, Search, max_entries, cname, remaining, is_live, search_loop,
}

-- The search goes past an entry that is not live, or is of neither the type asked for nor an alias.
abbrev pub passes : ℕ → ℕ → List ℕ → Entry → Bool
passes now qtype qname e =
    not (is_live now qname e && (if e.rr.rr_type == qtype then true else e.rr.rr_type == cname))

module _ (db : List Entry) (now qtype : ℕ) (qname : List ℕ) (s : Search) where
  abbrev AllPass : List Entry → Type 0
  AllPass = All (λ e. passes now qtype qname e ≡ true)

  pass_step :
      (fuel i : ℕ) (e : Entry)
      → i < max_entries
      → get_elem? db i ≡ some e
      → passes now qtype qname e ≡ true
      → search_loop (suc fuel) db now qtype qname i s
        ≡ search_loop fuel db now qtype qname (i + 1) s
  unfolding search_loop
  pass_step fuel i e small g p = rw (lt→ltb i max_entries small, search_loop) (rw g (ground arith))

  skip :
      (fuel rest_fuel i : ℕ) (pre front back : List Entry)
      → fuel ≡ length front + rest_fuel
      → db ≡ pre ++ (front ++ back)
      → i ≡ length pre
      → i + length front ≤ max_entries
      → AllPass front
      → search_loop fuel db now qtype qname i s
        ≡ search_loop rest_fuel db now qtype qname (i + length front) s
  skip fuel rest_fuel i pre [] back e d p small h =
      let f : fuel ≡ rest_fuel = omega (arith, e) in
      let j : i ≡ i + 0 = omega arith in rw (f, ← j) refl
  skip zero rest_fuel i pre (x ∷ front) back e d p small h = absurd (omega (arith, e))
  skip (suc fuel) rest_fuel i pre (x ∷ front) back e d p small h =
      pass_step fuel i x (omega (arith, small)) (rw (d, p) (get_elem?-append pre x (front ++ back)))
        h.0
      ∙ skip fuel rest_fuel (i + 1) (pre ++ (x ∷ [])) front back (omega (arith, e))
          (d ∙ sym (append_assoc pre (x ∷ []) (front ++ back)))
          (omega (arith, p, length-append pre (x ∷ []))) (omega (arith, small)) h.1
      ∙ (let j : i + 1 + length front ≡ i + suc (length front) = omega arith in rw j refl)

  past_end :
      (fuel i : ℕ) → get_elem? db i ≡ none → search_loop (suc fuel) db now qtype qname i s ≡ ok s
  unfolding search_loop
  past_end fuel i g = elim (Bool-cases (ltb i max_entries)) [
    | inl t ↦ rw (t, search_loop) (rw g refl)
    | inr t ↦ rw (t, search_loop) refl
  ]

  -- If the search goes past every entry, it ends with what it began with.
  pub search_loop-absent :
      (fuel : ℕ)
      → AllPass db
      → length db ≤ max_entries
      → length db < fuel
      → search_loop fuel db now qtype qname 0 s ≡ ok s
  search_loop-absent fuel h small enough =
      skip fuel (suc (fuel - length db - 1)) 0 [] db [] (omega (arith, enough))
        (sym (append-nil db)) refl (omega (arith, small)) h
      ∙ past_end (fuel - length db - 1) (0 + length db)
          (let z : 0 + length db ≡ length db = omega arith in rw z (get_elem?-length db))

  hit_step :
      (fuel i : ℕ) (e : Entry)
      → i < max_entries
      → get_elem? db i ≡ some e
      → is_live now qname e ≡ true
      → e.rr.rr_type ≡ qtype
      → search_loop (suc fuel) db now qtype qname i s ≡ (
          rr_to_wire (remaining now e) s.response s.index false >>= λ r. ok (record {
            response = r.0;
            index = s.index + r.1;
            num_answers = s.num_answers + 1;
            found = true;
          }))
  unfolding search_loop
  hit_step fuel i e small g live t =
      let same : (e.rr.rr_type == qtype) ≡ true = ground (arith, t) in
      rw (lt→ltb i max_entries small, search_loop) (rw g (rw live (rw same refl)))

  -- The first entry that is live and of the type asked for ends the search, if the search goes past
  -- all that stand before it: its record is added, with the time that it has left.
  pub search_loop-found :
      (fuel : ℕ) (front back : List Entry) (e : Entry)
      → db ≡ front ++ (e ∷ back)
      → AllPass front
      → length front < max_entries
      → length front < fuel
      → is_live now qname e ≡ true
      → e.rr.rr_type ≡ qtype
      → search_loop fuel db now qtype qname 0 s ≡ (
          rr_to_wire (remaining now e) s.response s.index false >>= λ r. ok (record {
            response = r.0;
            index = s.index + r.1;
            num_answers = s.num_answers + 1;
            found = true;
          }))
  search_loop-found fuel front back e d h small enough live t =
      skip fuel (suc (fuel - length front - 1)) 0 [] front (e ∷ back) (omega (arith, enough)) d refl
        (omega (arith, small)) h
      ∙ hit_step (fuel - length front - 1) (0 + length front) e (omega (arith, small))
          (let z : 0 + length front ≡ length front = omega arith in
            rw (z, d) (get_elem?-append front e back))
          live t

module _ (db : List Entry) (now qtype : ℕ) where
  -- What an alias does: its record is added, and the search goes on for its target, at entry 1.
  abbrev follow : ℕ → Entry → Search → Run Search
  follow fuel c s = rr_to_wire (remaining now c) s.response s.index false >>= λ r.
      name_ascii_from_wire fuel c.rr.rdata 0 >>= λ a. search_loop fuel db now qtype a.0 1 (record {
        response = r.0;
        index = s.index + r.1;
        num_answers = s.num_answers + 1;
        found = s.found;
      })

  alias_step :
      (fuel i : ℕ) (qname : List ℕ) (s : Search) (c : Entry)
      → i < max_entries
      → get_elem? db i ≡ some c
      → is_live now qname c ≡ true
      → c.rr.rr_type ≡ cname
      → qtype ≢ cname
      → search_loop (suc fuel) db now qtype qname i s ≡ follow fuel c s
  unfolding search_loop
  alias_step fuel i qname s c small g live t other =
      let differs : (c.rr.rr_type == qtype) ≡ false = ground (arith, t, other) in
      let alias : (c.rr.rr_type == cname) ≡ true = ground (arith, t) in
      rw (lt→ltb i max_entries small, search_loop) (rw g (rw live (rw differs (rw alias refl))))

  module _ (qname : List ℕ) (c : Entry) (live : is_live now qname c ≡ true)
      (t : c.rr.rr_type ≡ cname) (other : qtype ≢ cname) where
    -- A search that ends with a result, and has only entries before the alias that it goes past, has
    -- followed the alias.
    reaches :
        (fuel i : ℕ) (pre front back : List Entry) (s r : Search)
        → db ≡ pre ++ (front ++ (c ∷ back))
        → i ≡ length pre
        → i + length front < max_entries
        → All (λ e. passes now qtype qname e ≡ true) front
        → search_loop fuel db now qtype qname i s ≡ ok r
        → (rest : ℕ) × (rest < fuel) × (follow rest c s ≡ ok r)
    reaches zero i pre front back s r d p small h e = unfold search_loop in absurd (cc e)
    reaches (suc fuel) i pre [] back s r d p small h e = (
      fuel,
      omega arith,
      sym (
            alias_step fuel i qname s c (omega (arith, small))
              (rw (d, p) (get_elem?-append pre c back)) live t other)
          ∙ e,
    )
    reaches (suc fuel) i pre (x ∷ front) back s r d p small h e =
        let step =
          pass_step db now qtype qname s fuel i x (omega (arith, small))
            (rw (d, p) (get_elem?-append pre x (front ++ (c ∷ back)))) h.0 in
        let (rest, less, f) =
          reaches fuel (i + 1) (pre ++ (x ∷ [])) front back s r
            (d ∙ sym (append_assoc pre (x ∷ []) (front ++ (c ∷ back))))
            (omega (arith, p, length-append pre (x ∷ []))) (omega (arith, small)) h.1
            (sym step ∙ e) in
        (rest, omega (arith, less), f)

    module _
        (self : (f : ℕ) (a : List ℕ) (j : ℕ)
          → name_ascii_from_wire f c.rr.rdata 0 ≡ ok (a, j)
          → a ≡ qname)
        (first : Entry) (front back : List Entry) (d : db ≡ first ∷ (front ++ (c ∷ back)))
        (small : 1 + length front < max_entries)
        (absent : All (λ e. passes now qtype qname e ≡ true) front) where
      -- Behind the alias, the search is again one for the same name, from entry 1 on.
      again :
          (rest : ℕ) (s r : Search)
          → follow rest c s ≡ ok r
          → (s' : Search) × (search_loop rest db now qtype qname 1 s' ≡ ok r)
      again rest s r run =
          let (w, p, q) = >>=-eq-ok (rr_to_wire (remaining now c) s.response s.index false) _ run in
          let (a, p', q') = >>=-eq-ok (name_ascii_from_wire rest c.rr.rdata 0) _ q in
          let s' : Search = record {
            response = w.0;
            index = s.index + w.1;
            num_answers = s.num_answers + 1;
            found = s.found;
          } in
          (s', subst (λ n. search_loop rest db now qtype n 1 s' ≡ ok r) (self rest a.0 a.1 p') q')

      circles_on :
          (bound fuel : ℕ) (s r : Search)
          → fuel < bound
          → search_loop fuel db now qtype qname 1 s ≢ ok r
      circles_on zero fuel s r h e = absurd (omega (arith, h))
      circles_on (suc bound) fuel s r h e =
          let (rest, less, f) = reaches fuel 1 (first ∷ []) front back s r d refl small absent e in
          let (s', g) = again rest s r f in circles_on bound rest s' r (omega (arith, h, less)) g

  -- An alias that is alive, stands behind the first entry, and whose target is read as its own name
  -- whenever it is read: if the search for that name and another type goes past all entries before the
  -- alias, the first one too, then it ends with no result, on any fuel. (A search goes on at the
  -- second entry behind an alias, and does not meet an alias that is the first entry again.)
  pub alias_cycle :
      (qname : List ℕ) (first c : Entry) (front back : List Entry)
      → db ≡ first ∷ (front ++ (c ∷ back))
      → 1 + length front < max_entries
      → All (λ e. passes now qtype qname e ≡ true) (first ∷ front)
      → is_live now qname c ≡ true
      → c.rr.rr_type ≡ cname
      → qtype ≢ cname
      → ((f : ℕ) (a : List ℕ) (j : ℕ) → name_ascii_from_wire f c.rr.rdata 0 ≡ ok (a, j) → a ≡ qname)
      → (fuel : ℕ) (s r : Search) → search_loop fuel db now qtype qname 0 s ≢ ok r
  alias_cycle qname first c front back d small absent live t other self fuel s r e =
      let (rest, less, f) =
        reaches qname c live t other fuel 0 [] (first ∷ front) back s r d refl
          (omega (arith, small)) absent e in
      let (s', g) = again qname c live t other self first front back d small absent.1 rest s r f in
      circles_on qname c live t other self first front back d small absent.1 (suc rest) rest s' r
        (omega arith) g
