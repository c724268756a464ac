-- ===== src/CacheSim.antt =====
-- labs/cachelab/csim.c: the cache simulator. `int` counters are numbers (the module Counts is about
-- them); a shift count is taken modulo 32, which is what the x86 instructions that the compiler
-- emits do with a count that C leaves undefined. `Line.block` is never used and has no field.
-- A set is the list of its `numLines` lines; `none` is an access outside an allocated array.
pub mod Args
pub mod Sets
pub mod Address
pub mod Runs
pub mod Policy
pub mod Counts
mod Tests
use cs_360_internet_programm.Base.{
  ◌%◌, ℕ, zero, suc, ◌+◌, ◌-◌, ◌^◌, Bool, true, false, not, ◌&&◌, Option, none, some, List, [], ◌∷◌,
  ltb, ◌==◌, if◌then◌else◌, get_elem?, set, replicate, length,
}
use cs_360_internet_programm.Base.Words.{shl32, shr32, sar32, sext64}

pub record Line : Type 0 where
  pub valid : Bool
  pub access_count : ℕ
  pub tag : ℕ

-- The globals of the program, with the memory that `cache.sets` points to.
pub record Simulator : Type 0 where
  pub set_bits : ℕ
  pub num_lines : ℕ
  pub data_bits : ℕ
  pub sets : List (List Line)
  pub hits : ℕ
  pub misses : ℕ
  pub evictions : ℕ

abbrev pub empty_line : Line
empty_line = record { valid = false; access_count = 0; tag = 0 }

pub initialize_cache : ℕ → ℕ → ℕ → Simulator
initialize_cache set_bits num_lines data_bits = record {
  set_bits = set_bits;
  num_lines = num_lines;
  data_bits = data_bits;
  sets = replicate (2 ^ set_bits) (replicate num_lines empty_line);
  hits = 0;
  misses = 0;
  evictions = 0;
}

-- The index of the first line that is not valid; `none` is the -1 of the source.
pub find_empty_line : List Line → Option ℕ
find_empty_line [] = none
find_empty_line (l ∷ ls) =
    if not l.valid
    then some 0
    else elim (find_empty_line ls) [ none ↦ none | some i ↦ some (suc i) ]

pub record Lru : Type 0 where
  pub lru_index : ℕ
  pub min_used : ℕ
  pub max_used : ℕ

-- One round of the loop of `findLRU`, at line number `i`.
abbrev pub lru_step : ℕ → Line → Lru → Lru
lru_step i l r =
    let c = l.access_count in
    record {
      lru_index = if ltb c r.min_used then i else r.lru_index;
      min_used = if ltb c r.min_used then c else r.min_used;
      max_used = if ltb r.max_used c then c else r.max_used;
    }

pub lru_loop : ℕ → List Line → Lru → Lru
lru_loop i [] r = r
lru_loop i (l ∷ ls) r = lru_loop (i + 1) ls (lru_step i l r)

-- `none` is the read of `lines[0]` in a set without lines.
pub find_lru : List Line → Option Lru
find_lru [] = none
find_lru (l ∷ ls) = some (lru_loop 0 (l ∷ ls) start)
  where
    start : Lru
    start = record { lru_index = 0; min_used = l.access_count; max_used = l.access_count }

-- What the loop over the lines of the set leaves: the lines, `hitFlag`, `cFull`, the added hits.
pub record Scan : Type 0 where
  pub lines : List Line
  pub hit_flag : Bool
  pub c_full : Bool
  pub hits : ℕ

pub scan_lines : ℕ → List Line → Scan
scan_lines input_tag [] = record { lines = []; hit_flag = false; c_full = true; hits = 0 }
scan_lines input_tag (l ∷ ls) =
    let r = scan_lines input_tag ls in
    if l.valid
    then (if l.tag == input_tag
        then record {
          lines = record l { access_count = l.access_count + 1 } ∷ r.lines;
          hit_flag = true;
          c_full = r.c_full;
          hits = r.hits + 1;
        }
        else record r { lines = l ∷ r.lines })
    else record r { lines = l ∷ r.lines; c_full = false }

-- The new lines of the set, and what is added to each counter.
pub record Outcome : Type 0 where
  pub lines : List Line
  pub hits : ℕ
  pub misses : ℕ
  pub evictions : ℕ

abbrev pub loaded : ℕ → ℕ → Line
loaded input_tag count = record { valid = true; access_count = count; tag = input_tag }

-- An eviction sets the tag and the count; the line keeps its valid flag.
abbrev pub retag : List Line → ℕ → ℕ → ℕ → Option (List Line)
retag ls i input_tag count = elim (get_elem? ls i) [
  | none ↦ none
  | some l ↦ some (set ls i (record l { access_count = count; tag = input_tag }))
]

-- The part of `cacheSimulate` after the loop, when no line was hit.
pub replace_line : ℕ → Scan → Option Outcome
unfolding find_lru find_empty_line
replace_line input_tag r = elim (find_lru r.lines) [
  | none ↦ none
  | some u ↦
      if r.c_full
      then elim (retag r.lines u.lru_index input_tag (u.max_used + 1)) [
        | none ↦ none
        | some ls ↦ some (record { lines = ls; hits = r.hits; misses = 1; evictions = 1 })
      ]
      else elim (find_empty_line r.lines) [
        | none ↦ none
        | some i ↦ some (record {
          lines = set r.lines i (loaded input_tag (u.max_used + 1));
          hits = r.hits;
          misses = 1;
          evictions = 0;
        })
      ]
]

pub access_set : ℕ → List Line → Option Outcome
unfolding scan_lines replace_line
access_set input_tag ls =
    let r = scan_lines input_tag ls in
    if r.hit_flag
    then some (record { lines = r.lines; hits = r.hits; misses = 0; evictions = 0 })
    else replace_line input_tag r

-- As a 32-bit word: it is negative for more than 64 bits in the fields.
abbrev pub tag_bits : ℕ → ℕ → ℕ
tag_bits s b = (2 ^ 32 + 64 - (s + b) % 2 ^ 32) % 2 ^ 32

-- The two shifts by which `cacheSimulate` cuts the set index out of the address.
pub set_index : ℕ → ℕ → ℕ → ℕ
unfolding shl32 shr32
set_index s b address = shr32 (shl32 address (tag_bits s b)) (tag_bits s b + b)

-- `address >> (setBits + dataBits)`, as it is compared with and stored in a 64-bit tag.
pub input_tag : ℕ → ℕ → ℕ → ℕ
unfolding sar32 sext64
input_tag s b address = sext64 (sar32 address (s + b))

abbrev pub record_outcome : Simulator → ℕ → Outcome → Simulator
record_outcome m i o = record m {
  sets = set m.sets i o.lines;
  hits = m.hits + o.hits;
  misses = m.misses + o.misses;
  evictions = m.evictions + o.evictions;
}

pub cache_simulate : Simulator → ℕ → Option Simulator
cache_simulate m address =
    let i = set_index m.set_bits m.data_bits address in
    elim (get_elem? m.sets i) [
      | none ↦ none
      | some ls ↦ elim (access_set (input_tag m.set_bits m.data_bits address) ls) [
        | none ↦ none
        | some o ↦ some (record_outcome m i o)
      ]
    ]

-- The command of a trace line; `other` is any character that no case of the switch names.
pub data Cmd : Type 0 where
  instruction load store modify other : Cmd

-- One round of the loop of `main`; the size of the access is read and not used.
pub run_line : Simulator → Cmd → ℕ → Option Simulator
run_line m Cmd.instruction address = some m
run_line m Cmd.load address = cache_simulate m address
run_line m Cmd.store address = cache_simulate m address
run_line m Cmd.modify address = elim (cache_simulate m address) [
  | none ↦ none
  | some m' ↦ cache_simulate m' address
]
run_line m Cmd.other address = some m

-- The loop of `main` over the lines that `fscanf` reads from the trace file.
pub run_trace : Simulator → List (Cmd × ℕ) → Option Simulator
run_trace m [] = some m
run_trace m ((c, address) ∷ rest) = elim (run_line m c address) [
  | none ↦ none
  | some m' ↦ run_trace m' rest
]
