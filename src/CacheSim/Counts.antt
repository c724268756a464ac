-- ===== src/CacheSim/Counts.antt =====
-- labs/cachelab/csim.c: how large the `int` access counts of the lines can grow.
use mathlib.Core.Path.{subst}
use native.Mathlib.Nat.{add-zero}
use cs_360_internet_programm.Base.{
  ℕ, ◌+◌, ◌^◌, ◌≤◌, ◌≡◌, refl, arith, false, some, List, [], ◌∷◌, get_elem?, set, All, All-get,
  All-set, All-replicate, Bool-cases, Option-cases, inl, inr,
}
use cs_360_internet_programm.CacheSim.{
  Line, Lru, Outcome, Scan, Simulator, lru_loop, lru_step, find_lru, find_empty_line, scan_lines,
  retag, loaded, replace_line, access_set, cache_simulate, Cmd, instruction, load, store, modify,
  other, run_line, run_trace, set_index, input_tag, initialize_cache, empty_line,
}
use cs_360_internet_programm.CacheSim.Runs.{accesses, total_accesses}

abbrev pub Within : ℕ → List Line → Type 0
Within k = All (λ l. l.access_count ≤ k)

Within-suc : (k : ℕ) (ls : List Line) → Within k ls → Within (k + 1) ls
Within-suc k [] h = tt
Within-suc k (l ∷ ls) h = (omega (arith, h.0), Within-suc k ls h.1)

max_used-le :
    (k i : ℕ) (ls : List Line) (r : Lru)
    → r.max_used ≤ k
    → Within k ls
    → (lru_loop i ls r).max_used ≤ k
unfolding lru_loop
max_used-le k i [] r e h = e
max_used-le k i (l ∷ ls) r e h = max_used-le k (i + 1) ls (lru_step i l r) (ground (arith, h.0)) h.1

find_lru-le :
    (k : ℕ) (ls : List Line) (u : Lru) → Within k ls → find_lru ls ≡ some u → u.max_used ≤ k
unfolding find_lru
find_lru-le k [] u h e = absurd (cc)
find_lru-le k (l ∷ ls) u h e =
    let top =
      max_used-le k 0 (l ∷ ls)
        (record { lru_index = 0; min_used = l.access_count; max_used = l.access_count }) h.0 h in
    ground (arith, top)

scan_lines-Within :
    (k t : ℕ) (ls : List Line) → Within k ls → Within (k + 1) (scan_lines t ls).lines
unfolding scan_lines
scan_lines-Within k t [] h = tt
scan_lines-Within k t (l ∷ ls) h = ground (arith, h.0, scan_lines-Within k t ls h.1)

scan_lines_miss :
    (t : ℕ) (ls : List Line) → (scan_lines t ls).hit_flag ≡ false → (scan_lines t ls).lines ≡ ls
unfolding scan_lines
scan_lines_miss t [] h = refl
scan_lines_miss t (l ∷ ls) h = ground (arith, scan_lines_miss t ls)

module _ (k t : ℕ) (r : Scan) (h : Within k r.lines) where
  retag-Within :
      (i count : ℕ) {ls : List Line}
      → count ≤ k + 1
      → retag r.lines i t count ≡ some ls
      → Within (k + 1) ls
  retag-Within i count {ls} small e = elim (Option-cases (get_elem? r.lines i)) [
    | inl n ↦ absurd (ground (arith, n))
    | inr (l, p) ↦
        let q : set r.lines i (record l { access_count = count; tag = t }) ≡ ls =
          ground (arith, p) in
        rw q at (
          All-set (λ x. x.access_count ≤ k + 1) r.lines i
            (record l { access_count = count; tag = t }) (Within-suc k r.lines h) small)
  ]

  fill-Within : (i count : ℕ) → count ≤ k + 1 → Within (k + 1) (set r.lines i (loaded t count))
  fill-Within i count small =
      All-set (λ x. x.access_count ≤ k + 1) r.lines i (loaded t count) (Within-suc k r.lines h)
        small

  replace_line-Within : (o : Outcome) → replace_line t r ≡ some o → Within (k + 1) o.lines
  unfolding replace_line
  replace_line-Within o e = elim (Option-cases (find_lru r.lines)) [
    | inl n ↦ absurd (ground (arith, n))
    | inr (u, p) ↦
        let small = find_lru-le k r.lines u h p in
        elim (Bool-cases r.c_full) [
          | inl full ↦
              retag-Within u.lru_index (u.max_used + 1) {ls = o.lines} (omega arith)
                (ground (arith, p, full))
          | inr free ↦ elim (Option-cases (find_empty_line r.lines)) [
            | inl n ↦ absurd (ground (arith, p, n))
            | inr (i, q) ↦
                let e : set r.lines i (loaded t (u.max_used + 1)) ≡ o.lines =
                  ground (arith, p, q) in
                rw e at (fill-Within i (u.max_used + 1) (omega arith))
          ]
        ]
  ]

-- An access raises the greatest access count of its set by at most one.
access_set-Within :
    (k t : ℕ) (ls : List Line) (o : Outcome)
    → Within k ls
    → access_set t ls ≡ some o
    → Within (k + 1) o.lines
unfolding access_set
access_set-Within k t ls o h e = elim (Bool-cases (scan_lines t ls).hit_flag) [
  | inl hit ↦
      let q : (scan_lines t ls).lines ≡ o.lines = ground (arith, hit) in
      rw q at (scan_lines-Within k t ls h)
  | inr miss ↦
      replace_line-Within k t (scan_lines t ls) (rw (scan_lines_miss t ls miss) h) o
        (ground (arith, miss))
]

-- No line of the simulator was counted more than `k` times.
abbrev pub AllWithin : ℕ → Simulator → Type 0
AllWithin k m = All (Within k) m.sets

sets-Within-suc :
    (k : ℕ) (sets : List (List Line)) → All (Within k) sets → All (Within (k + 1)) sets
sets-Within-suc k [] h = tt
sets-Within-suc k (ls ∷ sets) h = (Within-suc k ls h.0, sets-Within-suc k sets h.1)

cache_simulate-Within :
    (k : ℕ) (m : Simulator) (a : ℕ) (n : Simulator)
    → AllWithin k m
    → cache_simulate m a ≡ some n
    → AllWithin (k + 1) n
unfolding cache_simulate
cache_simulate-Within k m a n h e =
    let i = set_index m.set_bits m.data_bits a in
    let t = input_tag m.set_bits m.data_bits a in
    elim (Option-cases (get_elem? m.sets i)) [
      | inl out ↦ absurd (ground (arith, out))
      | inr (ls, p) ↦ elim (Option-cases (access_set t ls)) [
        | inl out ↦ absurd (ground (arith, p, out))
        | inr (o, q) ↦
            let s : set m.sets i o.lines ≡ n.sets = ground (arith, p, q) in
            rw s at (
              All-set (Within (k + 1)) m.sets i o.lines (sets-Within-suc k m.sets h)
                (access_set-Within k t ls o (All-get (Within k) m.sets i h p) q))
      ]
    ]

run_line-Within :
    (k : ℕ) (m : Simulator) (c : Cmd) (a : ℕ) (n : Simulator)
    → AllWithin k m
    → run_line m c a ≡ some n
    → AllWithin (k + accesses c) n
unfolding run_line
run_line-Within k m instruction a n h e =
    let s : m ≡ n = cc in subst (AllWithin (k + 0)) s (rw add-zero h)
run_line-Within k m load a n h e = cache_simulate-Within k m a n h e
run_line-Within k m store a n h e = cache_simulate-Within k m a n h e
run_line-Within k m modify a n h e = elim (Option-cases (cache_simulate m a)) [
  | inl out ↦ absurd (ground (arith, out))
  | inr (m', p) ↦
      let two : k + 2 ≡ k + 1 + 1 = omega arith in
      rw two (
        cache_simulate-Within (k + 1) m' a n (cache_simulate-Within k m a m' h p)
          (ground (arith, p)))
]
run_line-Within k m other a n h e =
    let s : m ≡ n = cc in subst (AllWithin (k + 0)) s (rw add-zero h)

run_trace-Within :
    (k : ℕ) (m : Simulator) (trace : List (Cmd × ℕ)) (n : Simulator)
    → AllWithin k m
    → run_trace m trace ≡ some n
    → AllWithin (k + total_accesses trace) n
unfolding run_trace
run_trace-Within k m [] n h e = let s : m ≡ n = cc in subst (AllWithin (k + 0)) s (rw add-zero h)
run_trace-Within k m ((c, a) ∷ rest) n h e = elim (Option-cases (run_line m c a)) [
  | inl out ↦ absurd (ground (arith, out))
  | inr (m', p) ↦
      let total : k + (accesses c + total_accesses rest) ≡ k + accesses c + total_accesses rest =
        omega arith in
      rw total (
        run_trace-Within (k + accesses c) m' rest n (run_line-Within k m c a m' h p)
          (ground (arith, p)))
]

-- After a trace that runs from the empty cache to its end, no access count of a line is greater than
-- the number of accesses that the trace makes.
pub access_count_bound :
    (s e b : ℕ) (trace : List (Cmd × ℕ)) (n : Simulator)
    → run_trace (initialize_cache s e b) trace ≡ some n
    → AllWithin (total_accesses trace) n
unfolding initialize_cache
access_count_bound s e b trace n r =
    let z : 0 + total_accesses trace ≡ total_accesses trace = omega arith in
    rw z at (
      run_trace-Within 0 (initialize_cache s e b) trace n
        (All-replicate (Within 0) (2 ^ s) _
          (All-replicate (λ l. l.access_count ≤ 0) e empty_line (omega arith)))
        r)
