-- ===== src/CacheSim/Sets.antt =====
-- labs/cachelab/csim.c, one access to one set: how often a tag is held before and after.
use cs_360_internet_programm.Base.{
  ℕ, zero, suc, ◌∙◌, ◌+◌, ◌≤◌, ◌<◌, ◌≡◌, refl, true, false, some, List, [], ◌∷◌, arith, ◌⊎◌, inl,
  inr, ltb, ◌==◌, if◌then◌else◌, get_elem?, set, length, length-set, Bool-cases,
}
use cs_360_internet_programm.CacheSim.{
  Line, Scan, Outcome, Lru, lru_step, lru_loop, find_lru, find_empty_line, scan_lines, loaded,
  replace_line, access_set,
}

-- How many valid lines hold the tag.
abbrev pub weight : ℕ → Line → ℕ
weight t l = if l.valid then (if l.tag == t then 1 else 0) else 0

abbrev pub count_tag : ℕ → List Line → ℕ
count_tag t [] = 0
count_tag t (l ∷ ls) = weight t l + count_tag t ls

-- No two valid lines of a set hold one tag.
abbrev pub IsDistinct : List Line → Type 0
IsDistinct ls = (t : ℕ) → count_tag t ls ≤ 1

count_tag-set :
    (t : ℕ) (ls : List Line) (i : ℕ) (v : Line) {l : Line}
    → get_elem? ls i ≡ some l
    → count_tag t (set ls i v) + weight t l ≡ count_tag t ls + weight t v
count_tag-set t [] i v e = absurd (cc)
count_tag-set t (x ∷ ls) zero v e = ground arith
count_tag-set t (x ∷ ls) (suc i) v e = omega (arith, count_tag-set t ls i v e)

weight-le-count_tag :
    (t : ℕ) (ls : List Line) (i : ℕ) {l : Line}
    → get_elem? ls i ≡ some l
    → weight t l ≤ count_tag t ls
weight-le-count_tag t [] i e = absurd (cc)
weight-le-count_tag t (x ∷ ls) zero e = ground arith
weight-le-count_tag t (x ∷ ls) (suc i) e = omega (arith, weight-le-count_tag t ls i e)

-- The loop of `cacheSimulate` finds the tag as often as valid lines hold it, and moves no tag.
pub scan_lines_count :
    (tag : ℕ) (ls : List Line)
    → ((scan_lines tag ls).hits ≡ count_tag tag ls)
      × (length (scan_lines tag ls).lines ≡ length ls)
      × ((t : ℕ) → count_tag t (scan_lines tag ls).lines ≡ count_tag t ls)
unfolding scan_lines
scan_lines_count tag [] = (refl, refl, λ t. refl)
scan_lines_count tag (l ∷ ls) =
    let (h, n, c) = scan_lines_count tag ls in
    (ground (arith, h), ground (arith, n), λ t. ground (arith, c t))

pub hit_flag_iff :
    (tag : ℕ) (ls : List Line)
    → (scan_lines tag ls).hit_flag ≡ (if ltb 0 (count_tag tag ls) then true else false)
unfolding scan_lines
hit_flag_iff tag [] = refl
hit_flag_iff tag (l ∷ ls) = ground (arith, hit_flag_iff tag ls)

pub c_full-lines :
    (tag : ℕ) (ls : List Line)
    → (scan_lines tag ls).c_full ≡ false
    → (i : ℕ) × (l : Line) × (find_empty_line (scan_lines tag ls).lines ≡ some i)
      × (get_elem? (scan_lines tag ls).lines i ≡ some l)
      × (l.valid ≡ false)
unfolding scan_lines find_empty_line
c_full-lines tag [] h = absurd (cc)
c_full-lines tag (l ∷ ls) h = elim (Bool-cases l.valid) [
  | inl v ↦
      let (i, x, p, q, r) = c_full-lines tag ls (ground arith) in
      (suc i, x, ground arith, ground arith, r)
  | inr v ↦ (0, l, ground arith, ground arith, v)
]

c_full-valid :
    (tag : ℕ) (ls : List Line)
    → (scan_lines tag ls).c_full ≡ true
    → (i : ℕ) {l : Line} → get_elem? (scan_lines tag ls).lines i ≡ some l
    → l.valid ≡ true
unfolding scan_lines
c_full-valid tag [] h i e = absurd (cc)
c_full-valid tag (x ∷ ls) h zero e = ground arith
c_full-valid tag (x ∷ ls) h (suc i) {l} e = elim (Bool-cases x.valid) [
  | inl v ↦ c_full-valid tag ls (ground arith) i {l = l} (ground arith)
  | inr v ↦ absurd (ground arith)
]

-- What `findLRU` promises: a line whose count is the least, and the least and greatest counts.
pub record IsLru (ls : List Line) (u : Lru) : Type 0 where
  pub line : Line
  pub found : get_elem? ls u.lru_index ≡ some line
  pub least : line.access_count ≡ u.min_used
  pub bounds :
      (j : ℕ) (l : Line)
      → get_elem? ls j ≡ some l
      → (u.min_used ≤ l.access_count) × (l.access_count ≤ u.max_used)

-- The loop keeps a candidate of the lines before, or finds one among those that follow.
record Walked (i : ℕ) (ls : List Line) (r u : Lru) : Type 0 where
  below : (u.min_used ≤ r.min_used) × (r.max_used ≤ u.max_used)
  bounds :
      (j : ℕ) (l : Line)
      → get_elem? ls j ≡ some l
      → (u.min_used ≤ l.access_count) × (l.access_count ≤ u.max_used)
  origin :
      ((u.lru_index ≡ r.lru_index) × (u.min_used ≡ r.min_used))
      ⊎ ((j : ℕ) × (l : Line) × (u.lru_index ≡ i + j)
          × (get_elem? ls j ≡ some l)
          × (l.access_count ≡ u.min_used))

Walked-cons :
    (i : ℕ) (x : Line) (ls : List Line) (r u : Lru)
    → Walked (i + 1) ls (lru_step i x r) u
    → Walked i (x ∷ ls) r u
Walked-cons i x ls r u w = record {
  below = ground (arith, w.below);
  bounds = bounds;
  origin = elim w.origin [
    | inr (j, l, e, g, c) ↦ inr (suc j, l, omega (arith, e), g, c)
    | inl (e, m) ↦ elim (Bool-cases (ltb x.access_count r.min_used)) [
      | inl t ↦ inr (0, x, ground (arith, e), refl, ground (arith, m))
      | inr t ↦ inl (ground (arith, e), ground (arith, m))
    ]
  ];
}
  where
    bounds :
        (j : ℕ) (l : Line)
        → get_elem? (x ∷ ls) j ≡ some l
        → (u.min_used ≤ l.access_count) × (l.access_count ≤ u.max_used)
    bounds zero l e = ground (arith, w.below)
    bounds (suc j) l e = w.bounds j l e

lru_loop_walk : (i : ℕ) (ls : List Line) (r : Lru) → Walked i ls r (lru_loop i ls r)
unfolding lru_loop
lru_loop_walk i [] r = record {
  below = omega arith;
  bounds = λ j l e. absurd (cc);
  origin = inl (refl, refl);
}
lru_loop_walk i (x ∷ ls) r = Walked-cons i x ls r _ (lru_loop_walk (i + 1) ls (lru_step i x r))

-- In a set that has a line, `findLRU` finds one.
pub find_lru-IsLru :
    (ls : List Line) → 0 < length ls → (u : Lru) × (find_lru ls ≡ some u) × IsLru ls u
unfolding find_lru
find_lru-IsLru [] h = elim h [ ]
find_lru-IsLru (x ∷ ls) h = (
  u,
  refl,
  elim w.origin [
    | inr (j, l, e, g, c) ↦ record {
      line = l;
      found = ground (arith, e, g);
      least = c;
      bounds = w.bounds;
    }
    | inl (e, m) ↦ record {
      line = x;
      found = ground (arith, e);
      least = ground (arith, m);
      bounds = w.bounds;
    }
  ],
)
  where
    start : Lru
    start = record { lru_index = 0; min_used = x.access_count; max_used = x.access_count }

    u : Lru
    u = lru_loop 0 (x ∷ ls) start

    w : Walked 0 (x ∷ ls) start u
    w = lru_loop_walk 0 (x ∷ ls) start

-- What one access to a set does, told by whether the tag was held.
pub record Accessed (tag : ℕ) (ls : List Line) (o : Outcome) : Type 0 where
  pub same_length : length o.lines ≡ length ls
  pub counted : o.hits + o.misses ≡ 1
  pub was_held : o.hits ≡ count_tag tag ls
  pub now_held : count_tag tag o.lines ≡ 1
  pub kept : (t : ℕ) → count_tag t o.lines ≤ 1
  pub evicted : o.evictions ≤ o.misses

module _ (tag : ℕ) (ls : List Line) (distinct : IsDistinct ls) where
  abbrev scanned : Scan
  scanned = scan_lines tag ls

  -- On a hit the loop has done all.
  hit-Accessed :
      scanned.hit_flag ≡ true
      → Accessed tag ls
          (record { lines = scanned.lines; hits = scanned.hits; misses = 0; evictions = 0 })
  hit-Accessed e =
      let (h, n, c) = scan_lines_count tag ls in
      record {
        same_length = n;
        counted = ground (arith, h, hit_flag_iff tag ls, distinct tag);
        was_held = h;
        now_held = ground (arith, c tag, hit_flag_iff tag ls, distinct tag);
        kept = λ t. omega (arith, c t, distinct t);
        evicted = omega arith;
      }

  -- A line of the set is given the tag, on a miss.
  miss-Accessed :
      scanned.hit_flag ≡ false
      → (i : ℕ) (l v : Line) (evictions : ℕ) → get_elem? scanned.lines i ≡ some l
      → v.valid ≡ true
      → v.tag ≡ tag
      → evictions ≤ 1
      → Accessed tag ls (record {
        lines = set scanned.lines i v;
        hits = scanned.hits;
        misses = 1;
        evictions = evictions;
      })
  miss-Accessed e i l v evictions g ok same few =
      let (h, n, c) = scan_lines_count tag ls in
      record {
        same_length = length-set scanned.lines i v ∙ n;
        counted = ground (arith, h, hit_flag_iff tag ls);
        was_held = h;
        now_held = ground (
          arith,
          c tag,
          hit_flag_iff tag ls,
          weight-le-count_tag tag scanned.lines i g,
          count_tag-set tag scanned.lines i v g,
        );
        kept = λ t. ground (
          arith,
          c t,
          c tag,
          hit_flag_iff tag ls,
          distinct t,
          count_tag-set t scanned.lines i v g,
        );
        evicted = few;
      }

  abbrev after : List Line → ℕ → ℕ → Outcome
  after lines misses evictions = record {
    lines = lines;
    hits = scanned.hits;
    misses = misses;
    evictions = evictions;
  }

  evict-Accessed :
      scanned.hit_flag ≡ false
      → scanned.c_full ≡ true
      → (u : Lru) → find_lru scanned.lines ≡ some u
      → IsLru scanned.lines u
      → (o : Outcome) × (replace_line tag scanned ≡ some o) × Accessed tag ls o
  unfolding replace_line
  evict-Accessed miss full u p w =
      let v : Line = record w.line { access_count = u.max_used + 1; tag = tag } in
      (
        after (set scanned.lines u.lru_index v) 1 1,
        rw (replace_line, p, full, w.found),
        miss-Accessed miss u.lru_index w.line v 1 w.found
            (c_full-valid tag ls full u.lru_index w.found) refl (omega arith),
      )

  fill-Accessed :
      scanned.hit_flag ≡ false
      → scanned.c_full ≡ false
      → (u : Lru) → find_lru scanned.lines ≡ some u
      → (o : Outcome) × (replace_line tag scanned ≡ some o) × Accessed tag ls o
  unfolding replace_line
  fill-Accessed miss free u p =
      let (i, l, q, g, inv) = c_full-lines tag ls free in
      let v = loaded tag (u.max_used + 1) in
      (
        after (set scanned.lines i v) 1 0,
        rw (replace_line, p, free, q),
        miss-Accessed miss i l v 0 g refl refl (omega arith),
      )

  -- An access to a set that has a line counts one hit or one miss, leaves the tag held by exactly
  -- one valid line and every other tag by at most one, and evicts only on a miss.
  pub access_set-Accessed :
      0 < length ls → (o : Outcome) × (access_set tag ls ≡ some o) × Accessed tag ls o
  unfolding access_set
  access_set-Accessed pos = elim (Bool-cases scanned.hit_flag) [
    | inl hit ↦ (after scanned.lines 0 0, rw hit, hit-Accessed hit)
    | inr miss ↦
        let (u, p, w) = find_lru-IsLru scanned.lines (omega (arith, (scan_lines_count tag ls).1)) in
        elim (Bool-cases scanned.c_full) [
          | inl full ↦ let (o, q, a) = evict-Accessed miss full u p w in (o, rw miss q, a)
          | inr free ↦ let (o, q, a) = fill-Accessed miss free u p in (o, rw miss q, a)
        ]
  ]
