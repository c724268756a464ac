-- ===== src/CacheSim/Policy.antt =====
-- labs/cachelab/csim.c: which line `findLRU` gives up, and how large the access counts grow.
use cs_360_internet_programm.Base.{
  ℕ, ◌+◌, ◌≤◌, ◌<◌, ◌≡◌, refl, ◌∙◌, arith, true, false, some, List, [], ◌∷◌, All,
}
use cs_360_internet_programm.CacheSim.{
  Line, Lru, Outcome, lru_loop, lru_step, find_lru, scan_lines, replace_line, access_set,
}
use cs_360_internet_programm.CacheSim.Sets.{count_tag}

-- A candidate that no line undercuts is kept.
lru_index-lru_loop :
    (m i : ℕ) (ls : List Line) (r : Lru)
    → r.min_used ≡ m
    → All (λ l. m ≤ l.access_count) ls
    → (lru_loop i ls r).lru_index ≡ r.lru_index
unfolding lru_loop
lru_index-lru_loop m i [] r e h = refl
lru_index-lru_loop m i (l ∷ ls) r e h =
    lru_index-lru_loop m (i + 1) ls (lru_step i l r) (ground (arith, h.0)) h.1 ∙ ground (arith, h.0)

-- The loop of `cacheSimulate` leaves a set alone in which every line is valid and none has the tag.
abbrev pub AllValid : List Line → Type 0
AllValid = All (λ l. l.valid ≡ true)

scan_lines-absent :
    (t : ℕ) (ls : List Line)
    → AllValid ls
    → count_tag t ls ≡ 0
    → scan_lines t ls ≡ record { lines = ls; hit_flag = false; c_full = true; hits = 0 }
unfolding scan_lines
scan_lines-absent t [] v h = refl
scan_lines-absent t (l ∷ ls) v h =
    ground (arith, v.0, scan_lines-absent t ls v.1 (ground (arith, v.0)))

abbrev bumped : Line → Line
bumped l = record l { access_count = l.access_count + 1 }

hit_first :
    (l : Line) (ls : List Line)
    → AllValid (l ∷ ls)
    → count_tag l.tag ls ≡ 0
    → access_set l.tag (l ∷ ls)
      ≡ some (record { lines = bumped l ∷ ls; hits = 1; misses = 0; evictions = 0 })
unfolding access_set scan_lines
hit_first l ls v alone = ground (arith, v.0, scan_lines-absent l.tag ls v.1 alone)

abbrev start : Line → Lru
start l = record { lru_index = 0; min_used = l.access_count; max_used = l.access_count }

abbrev replaced : ℕ → Line → List Line → Line
replaced t l ls = record l { access_count = (lru_loop 0 (l ∷ ls) (start l)).max_used + 1; tag = t }

replace_first :
    (l : Line) (ls : List Line) (t : ℕ) (u : Lru)
    → find_lru (l ∷ ls) ≡ some u
    → u.lru_index ≡ 0
    → replace_line t (record { lines = l ∷ ls; hit_flag = false; c_full = true; hits = 0 })
      ≡ some (record {
        lines = record l { access_count = u.max_used + 1; tag = t } ∷ ls;
        hits = 0;
        misses = 1;
        evictions = 1;
      })
unfolding replace_line
replace_first l ls t u e z = ground arith

evict_first :
    (l : Line) (ls : List Line) (t : ℕ)
    → AllValid (l ∷ ls)
    → All (λ k. l.access_count ≤ k.access_count) ls
    → count_tag t (l ∷ ls) ≡ 0
    → access_set t (l ∷ ls)
      ≡ some (record { lines = replaced t l ls ∷ ls; hits = 0; misses = 1; evictions = 1 })
unfolding access_set find_lru
evict_first l ls t v least absent = rw (scan_lines-absent t (l ∷ ls) v absent) (
    replace_first l ls t (lru_loop 0 (l ∷ ls) (start l)) refl
      (lru_index-lru_loop l.access_count 0 (l ∷ ls) (start l) refl (omega arith, least)))

-- In a full set whose first line alone has its tag, and a count below every other, an access to
-- that tag is a hit, and an access right after it to a tag that no line holds evicts that line.
pub evicts_most_recent :
    (l : Line) (ls : List Line) (t : ℕ)
    → AllValid (l ∷ ls)
    → All (λ k. l.access_count < k.access_count) ls
    → count_tag l.tag ls ≡ 0
    → count_tag t (l ∷ ls) ≡ 0
    → (o o' : Outcome) × (access_set l.tag (l ∷ ls) ≡ some o)
      × (access_set t o.lines ≡ some o')
      × (o.hits ≡ 1)
      × (o'.evictions ≡ 1)
      × (count_tag l.tag o'.lines ≡ 0)
evicts_most_recent l ls t v least alone absent = (
  record { lines = bumped l ∷ ls; hits = 1; misses = 0; evictions = 0 },
  record { lines = replaced t (bumped l) ls ∷ ls; hits = 0; misses = 1; evictions = 1 },
  hit_first l ls v alone,
  evict_first (bumped l) ls t v (weaken ls least) absent,
  refl,
  refl,
  ground arith,
)
  where
    weaken :
        (ks : List Line)
        → All (λ k. l.access_count < k.access_count) ks
        → All (λ k. l.access_count + 1 ≤ k.access_count) ks
    weaken [] h = tt
    weaken (k ∷ ks) h = (omega (arith, h.0), weaken ks h.1)
