-- ===== src/CacheSim/Runs.antt =====
-- labs/cachelab/csim.c: whole accesses, and the loop of `main` over the trace.
use cs_360_internet_programm.Base.{
  ℕ, zero, suc, ◌+◌, ◌^◌, ◌≤◌, ◌<◌, ◌≡◌, refl, ◌∙◌, arith, Option, some, List, [], ◌∷◌, length,
  get_elem?, replicate, All, All-get, All-set, All-replicate, determined, length-set,
  length-replicate, get_elem?-IsSome, get_elem?-set_self,
}
use cs_360_internet_programm.CacheSim.{
  Line, Simulator, Outcome, empty_line, initialize_cache, access_set, set_index, input_tag,
  record_outcome, cache_simulate, Cmd, instruction, load, store, modify, other, run_line, run_trace,
}
use cs_360_internet_programm.CacheSim.Sets.{count_tag, IsDistinct, Accessed, access_set-Accessed}
use cs_360_internet_programm.CacheSim.Address.{set_index-lt}

-- A set that the simulator can hold: `E` lines, no tag twice among the valid ones.
pub record IsSetOf (num_lines : ℕ) (ls : List Line) : Type 0 where
  pub size : length ls ≡ num_lines
  pub distinct : IsDistinct ls

-- The arrays have the sizes that the arguments ask for, with at least one set bit and one line.
pub record IsValid (m : Simulator) : Type 0 where
  pub some_bits : 0 < m.set_bits
  pub fits : m.set_bits + m.data_bits ≤ 32
  pub some_lines : 0 < m.num_lines
  pub all_sets : length m.sets ≡ 2 ^ m.set_bits
  pub each_set : All (IsSetOf m.num_lines) m.sets
  pub few_evictions : m.evictions ≤ m.misses

-- The lines of the set of an address, and how many of them hold its tag.
abbrev pub set_of : Simulator → ℕ → Option (List Line)
set_of m a = get_elem? m.sets (set_index m.set_bits m.data_bits a)

abbrev pub holders : Simulator → ℕ → List Line → ℕ
holders m a ls = count_tag (input_tag m.set_bits m.data_bits a) ls

-- What one access does to a valid simulator.
pub record Simulated (m : Simulator) (a : ℕ) (m' : Simulator) : Type 0 where
  pub valid : IsValid m'
  pub counted : m'.hits + m'.misses ≡ m.hits + m.misses + 1
  pub geometry : (m'.set_bits ≡ m.set_bits) × (m'.data_bits ≡ m.data_bits)
  pub lines : List Line
  pub found : set_of m' a ≡ some lines
  pub now_held : holders m' a lines ≡ 1
  pub hits_by : (ls : List Line) → set_of m a ≡ some ls → m'.hits ≡ m.hits + holders m a ls

module _ (m : Simulator) (v : IsValid m) (a : ℕ) where
  abbrev index : ℕ
  index = set_index m.set_bits m.data_bits a

  abbrev tag : ℕ
  tag = input_tag m.set_bits m.data_bits a

  index-lt : index < length m.sets
  index-lt = omega (arith, v.all_sets, set_index-lt m.set_bits m.data_bits a v.some_bits v.fits)

  outcome-Simulated :
      (ls : List Line) (o : Outcome)
      → get_elem? m.sets index ≡ some ls
      → IsSetOf m.num_lines ls
      → Accessed tag ls o
      → Simulated m a (record_outcome m index o)
  outcome-Simulated ls o e s w = record {
    valid = record {
      some_bits = v.some_bits;
      fits = v.fits;
      some_lines = v.some_lines;
      all_sets = length-set m.sets index o.lines ∙ v.all_sets;
      each_set =
          All-set (IsSetOf m.num_lines) m.sets index o.lines v.each_set
            (record { size = w.same_length ∙ s.size; distinct = w.kept });
      few_evictions = omega (arith, v.few_evictions, w.evicted);
    };
    counted = omega (arith, w.counted);
    geometry = (refl, refl);
    lines = o.lines;
    found = get_elem?-set_self m.sets index o.lines index-lt;
    now_held = w.now_held;
    hits_by = λ ks k. ground (arith, w.was_held);
  }

  cache_simulate_lem :
      (ls : List Line) (o : Outcome)
      → get_elem? m.sets index ≡ some ls
      → access_set tag ls ≡ some o
      → cache_simulate m a ≡ some (record_outcome m index o)
  unfolding cache_simulate
  cache_simulate_lem ls o e p = rw (cache_simulate, e, p)

  -- An access to a valid simulator reads and writes inside the arrays, counts one hit or one miss,
  -- is a hit exactly if its tag was held, leaves its tag held by one line, and keeps the simulator
  -- valid.
  pub cache_simulate-Simulated :
      (m' : Simulator) × (cache_simulate m a ≡ some m') × Simulated m a m'
  cache_simulate-Simulated =
      let (ls, e) = get_elem?-IsSome m.sets index index-lt in
      let s : IsSetOf m.num_lines ls = All-get (IsSetOf m.num_lines) m.sets index v.each_set e in
      let (o, p, w) = access_set-Accessed tag ls s.distinct (omega (arith, s.size, v.some_lines)) in
      (record_outcome m index o, cache_simulate_lem ls o e p, outcome-Simulated ls o e s w)

-- After an access to a valid simulator, a second access to the same address runs, and is a hit: it
-- adds one to the hits and no miss.
pub second_access_hits :
    (m : Simulator) (a : ℕ) {m' : Simulator}
    → IsValid m
    → cache_simulate m a ≡ some m'
    → (n : Simulator) × (cache_simulate m' a ≡ some n)
      × (n.hits ≡ m'.hits + 1)
      × (n.misses ≡ m'.misses)
second_access_hits m a {m'} v e =
    let w : Simulated m a m' = determined (Simulated m a) e (cache_simulate-Simulated m v a) in
    let (n, p, x) = cache_simulate-Simulated m' w.valid a in
    let gain = x.hits_by w.lines w.found in
    (n, p, omega (arith, gain, w.now_held), omega (arith, gain, w.now_held, x.counted))

-- The accesses that a trace line makes.
abbrev pub accesses : Cmd → ℕ
accesses instruction = 0
accesses load = 1
accesses store = 1
accesses modify = 2
accesses other = 0

abbrev pub total_accesses : List (Cmd × ℕ) → ℕ
total_accesses [] = 0
total_accesses ((c, a) ∷ rest) = accesses c + total_accesses rest

abbrev Counted : Simulator → ℕ → Simulator → Type 0
Counted m k n = IsValid n × (n.hits + n.misses ≡ m.hits + m.misses + k)

run_line-Counted :
    (m : Simulator) (c : Cmd) (a : ℕ)
    → IsValid m
    → (n : Simulator) × (run_line m c a ≡ some n) × Counted m (accesses c) n
unfolding run_line
run_line-Counted m instruction a v = (m, refl, (v, omega arith))
run_line-Counted m load a v =
    let (n, p, w) = cache_simulate-Simulated m v a in (n, p, (w.valid, w.counted))
run_line-Counted m store a v =
    let (n, p, w) = cache_simulate-Simulated m v a in (n, p, (w.valid, w.counted))
run_line-Counted m modify a v =
    let (k, p, w) = cache_simulate-Simulated m v a in
    let (n, q, x) = cache_simulate-Simulated k w.valid a in
    (n, ground (arith, p, q), (x.valid, omega (arith, w.counted, x.counted)))
run_line-Counted m other a v = (m, refl, (v, omega arith))

-- From a valid simulator every trace runs to its end inside the arrays, and hits and misses
-- together grow by the accesses of the trace: one for L and S, two for M, none for the rest.
pub run_trace-Counted :
    (m : Simulator) (trace : List (Cmd × ℕ))
    → IsValid m
    → (n : Simulator) × (run_trace m trace ≡ some n)
      × IsValid n
      × (n.hits + n.misses ≡ m.hits + m.misses + total_accesses trace)
unfolding run_trace
run_trace-Counted m [] v = (m, refl, v, omega arith)
run_trace-Counted m ((c, a) ∷ rest) v =
    let (k, p, w) = run_line-Counted m c a v in
    let (n, q, x, total) = run_trace-Counted k rest w.0 in
    (n, ground (arith, p, q), x, omega (arith, w.1, total))

empty-IsDistinct : (n t : ℕ) → count_tag t (replicate n empty_line) ≡ 0
empty-IsDistinct zero t = refl
empty-IsDistinct (suc n) t = omega (arith, empty-IsDistinct n t)

-- `initializeCache` builds a valid simulator, if there is a set bit, a line to a set, and room for
-- set index and block offset in a 32-bit address.
pub initialize_cache-IsValid :
    (s e b : ℕ) → 0 < s → s + b ≤ 32 → 0 < e → IsValid (initialize_cache s e b)
unfolding initialize_cache
initialize_cache-IsValid s e b hs fits he = record {
  some_bits = hs;
  fits = fits;
  some_lines = he;
  all_sets = length-replicate (2 ^ s) _;
  each_set = All-replicate (IsSetOf e) (2 ^ s) _ (record {
    size = length-replicate e empty_line;
    distinct = λ t. omega (arith, empty-IsDistinct e t);
  });
  few_evictions = omega arith;
}
