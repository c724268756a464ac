-- ===== src/Dns/Server/Database.antt =====
-- labs/dnsserverlab-handout/server.c, `init_db`: the entries that the lines of the cache file become.
use mathlib.Core.Path.{subst}
use cs_360_internet_programm.Base.{
  ℕ, zero, suc, ◌+◌, ◌%◌, ◌^◌, ◌≤◌, ◌<◌, ◌≡◌, ◌≢◌, refl, ap, arith, true, false, some, List, [],
  ◌∷◌, ◌++◌, length, replicate, length-replicate, All, get_elem?, drop, Bool-cases, inl, inr,
  if◌then◌else◌,
}
use cs_360_internet_programm.Base.Run.{ok, >>=-eq-ok}
use cs_360_internet_programm.Dns.Name.{buffer_max, same_string, name_ascii_to_wire}
use cs_360_internet_programm.Dns.Name.RoundTrip.{
  IsLabel, join, encode, encode_short, name_ascii_to_wire-encode,
}
use cs_360_internet_programm.Dns.Record.{Rr}
use cs_360_internet_programm.Dns.Server.{
  Entry, DbLine, max_entries, type_a, cname, word_in, word_a, word_cname, line_entry, init_entries,
  init_db,
}

-- The target of an alias is a name of labels that fits its buffers.
pub record IsLine (l : DbLine) : Type 0 where
  pub target :
      same_string l.type_word word_cname ≡ true
      → (ls : List (List ℕ)) × All IsLabel ls
        × (l.content ≡ join ls)
        × (length l.content + 2 ≤ buffer_max)

module _ (inet_pton : List ℕ → List ℕ) (behind : ℕ → List ℕ) (start : ℕ) where
  -- What the line `n` becomes: an entry whose name is that of the line with the bytes of the memory
  -- behind it, that expires when its time has passed, with the
  -- address, or with the wire format of the target in a buffer of zeros.
  pub record Loaded (n : ℕ) (l : DbLine) (e : Entry) : Type 0 where
    pub named : e.rr.name ≡ l.host ++ behind n
    pub until : e.expires ≡ start + l.ttl
    pub address :
        same_string l.type_word word_a ≡ true
        → (e.rr.rr_type ≡ type_a) × (e.rr.rdata ≡ inet_pton l.content) × (e.rr.rdata_len ≡ 4)
    pub alias :
        same_string l.type_word word_a ≡ false
        → same_string l.type_word word_cname ≡ true
        → (ls : List (List ℕ)) × All IsLabel ls
          × (l.content ≡ join ls)
          × (e.rr.rr_type ≡ cname)
          × (e.rr.rdata ≡ encode ls ++ drop (length (encode ls)) (replicate buffer_max 0))
          × (e.rr.rdata_len ≡ length (encode ls))

  alias_written :
      (content : List ℕ) (ls : List (List ℕ))
      → All IsLabel ls
      → content ≡ join ls
      → length content + 2 ≤ buffer_max
      → name_ascii_to_wire content (replicate buffer_max 0) 0
        ≡ ok (encode ls ++ drop (length (encode ls)) (replicate buffer_max 0), length (encode ls))
  alias_written content ls labels e fits =
      let f : length (join ls) + 2 ≤ buffer_max = rw (← e) fits in
      rw e (
        name_ascii_to_wire-encode [] (replicate buffer_max 0) ls labels (omega (arith, f))
          (omega (arith, f, encode_short ls, length-replicate {A = ℕ} buffer_max 0)))

  small :
      (ls : List (List ℕ)) (content : List ℕ)
      → content ≡ join ls
      → length content + 2 ≤ buffer_max
      → length (encode ls) % 2 ^ 16 ≡ length (encode ls)
  small ls content e fits = omega (arith, encode_short ls, fits, ap length e)

  plain : ℕ → DbLine → Rr
  plain n l = record {
    name = l.host ++ behind n;
    rr_type = 0;
    rr_class = if same_string l.class_word word_in then 1 else 0;
    ttl = l.ttl;
    rdata_len = 0;
    rdata = [];
  }

  address_entry : ℕ → DbLine → Entry
  address_entry n l = record {
    rr = record (plain n l) { rr_type = type_a; rdata_len = 4; rdata = inet_pton l.content };
    expires = start + l.ttl;
  }

  alias_entry : ℕ → DbLine → List (List ℕ) → Entry
  alias_entry n l ls = record {
    rr = record (plain n l) {
      rr_type = cname;
      rdata_len = length (encode ls) % 2 ^ 16;
      rdata = encode ls ++ drop (length (encode ls)) (replicate buffer_max 0);
    };
    expires = start + l.ttl;
  }

  line_entry-Loaded :
      (n : ℕ) (l : DbLine)
      → IsLine l
      → (e : Entry) × (line_entry inet_pton behind start n l ≡ ok e) × Loaded n l e
  unfolding line_entry plain address_entry alias_entry
  line_entry-Loaded n l h = elim (Bool-cases (same_string l.type_word word_a)) [
    | inl t ↦ (
      address_entry n l,
      rw t refl,
      record {
        named = refl;
        until = refl;
        address = λ p. (refl, refl, refl);
        alias = λ p. absurd (cc (p, t));
      },
    )
    | inr t ↦ elim (Bool-cases (same_string l.type_word word_cname)) [
      | inl u ↦
          (let (ls, labels, e, fits) = h.target u in
            let w = alias_written l.content ls labels e fits in
            (
              alias_entry n l ls,
              rw (t, u, w) refl,
              record {
                named = refl;
                until = refl;
                address = λ p. absurd (cc (p, t));
                alias = λ p q. (ls, labels, e, refl, refl, small ls l.content e fits);
              },
            ))
      | inr u ↦ (
        record { rr = plain n l; expires = start + l.ttl },
        rw (t, u) refl,
        record {
          named = refl;
          until = refl;
          address = λ p. absurd (cc (p, t));
          alias = λ p q. absurd (cc (q, u));
        },
      )
    ]
  ]

  init_entries-Loaded :
      (room n : ℕ) (ls : List DbLine)
      → All IsLine ls
      → length ls ≤ room
      → (es : List Entry) × (init_entries inet_pton behind room start n ls ≡ ok es)
        × (length es ≡ length ls)
        × ((i : ℕ) (l : DbLine)
            → get_elem? ls i ≡ some l
            → (e : Entry) × (get_elem? es i ≡ some e) × Loaded (n + i) l e)
  unfolding init_entries
  init_entries-Loaded room n [] h fits = ([], refl, refl, λ i l e. absurd (cc))
  init_entries-Loaded zero n (x ∷ ls) h fits = absurd (omega (arith, fits))
  init_entries-Loaded (suc room) n (x ∷ ls) h fits =
      let (y, p, w) = line_entry-Loaded n x h.0 in
      let (es, q, size, each) = init_entries-Loaded room (n + 1) ls h.1 (omega (arith, fits)) in
      (y ∷ es, rw (p, q) refl, ap suc size, pick y es w each)
    where
      pick :
          (y : Entry) (es : List Entry)
          → Loaded n x y
          → ((i : ℕ) (l : DbLine)
              → get_elem? ls i ≡ some l
              → (e : Entry) × (get_elem? es i ≡ some e) × Loaded (n + 1 + i) l e)
          → (i : ℕ) (l : DbLine) → get_elem? (x ∷ ls) i ≡ some l
          → (e : Entry) × (get_elem? (y ∷ es) i ≡ some e) × Loaded (n + i) l e
      pick y es w each zero l g =
          let z : n ≡ n + 0 = omega arith in
          let s : x ≡ l = cc g in
          (y, refl, subst (λ k. Loaded k l y) z (subst (λ k. Loaded n k y) s w))
      pick y es w each (suc i) l g =
          let (e, found, v) = each i l g in
          let z : n + 1 + i ≡ n + suc i = omega arith in (e, found, subst (λ k. Loaded k l e) z v)

  -- A cache file of at most `max_entries` lines, in which the target of each alias is a name of labels
  -- that fits its buffers, becomes a database of as many entries in the same order. The name of each is
  -- the name of its line followed by the bytes that stand in the memory behind that, up to a zero, so
  -- that it is the name of its line only where a zero happens to stand there. Each expires when the
  -- time of its line has passed, and holds the address or the target of the line if it is of type A
  -- or CNAME.
  pub init_db-Loaded :
      (ls : List DbLine)
      → All IsLine ls
      → length ls ≤ max_entries
      → (es : List Entry) × (init_db inet_pton behind start ls ≡ ok es)
        × (length es ≡ length ls)
        × ((i : ℕ) (l : DbLine)
            → get_elem? ls i ≡ some l
            → (e : Entry) × (get_elem? es i ≡ some e) × Loaded i l e)
  unfolding init_db
  init_db-Loaded ls h fits =
      let (es, made, size, each) = init_entries-Loaded max_entries 0 ls h fits in
      (
        es,
        made,
        size,
        λ i l g.
            (let (e, found, v) = each i l g in
              (e, found, subst (λ k. Loaded k l e) (zero_add i) v)),
      )
    where
      zero_add : (i : ℕ) → 0 + i ≡ i
      zero_add i = omega arith

  init_entries-length :
      (room n : ℕ) (ls : List DbLine) (es : List Entry)
      → init_entries inet_pton behind room start n ls ≡ ok es
      → length ls ≤ room
  unfolding init_entries
  init_entries-length room n [] es h = omega arith
  init_entries-length zero n (x ∷ ls) es h = absurd (cc)
  init_entries-length (suc room) n (x ∷ ls) es h =
      let (e, p, q) = >>=-eq-ok (line_entry inet_pton behind start n x) _ h in
      let (rest, p', q') = >>=-eq-ok (init_entries inet_pton behind room start (n + 1) ls) _ q in
      let few = init_entries-length room (n + 1) ls rest p' in omega (arith, few)

  -- A cache file with more lines than `max_entries` makes `init_db` write outside its array, or
  -- fail before.
  pub init_db-overflow :
      (ls : List DbLine) (es : List Entry)
      → max_entries < length ls
      → init_db inet_pton behind start ls ≢ ok es
  unfolding init_db
  init_db-overflow ls es many h =
      let n = init_entries-length max_entries 0 ls es h in absurd (omega (arith, many, n))
