-- ===== src/CacheSim/Tests.antt =====
-- labs/cachelab/csim.c: runs on small inputs, and the theorems at inputs that meet their hypotheses.
use Prim.Native.String.{String}
use mathlib.Core.Option
use mathlib.Core.Option.{Option}
use cs_360_internet_programm.Base.{
  ℕ, ◌+◌, ◌*◌, ◌/◌, ◌%◌, ◌^◌, ◌≡◌, refl, arith, true, false, none, some, List, [], ◌∷◌,
}
use cs_360_internet_programm.CacheSim.{
  Line, Simulator, Outcome, initialize_cache, lru_loop, access_set, set_index, input_tag,
  cache_simulate, Cmd, run_line, run_trace,
}
use cs_360_internet_programm.CacheSim.Args.{
  Result, initialize_args, initialize_args-render, sets, lines, file, verbose,
}
use cs_360_internet_programm.CacheSim.Sets.{count_tag}
use cs_360_internet_programm.CacheSim.Address.{same_block, set_index-no_set_bits}
use cs_360_internet_programm.CacheSim.Runs.{
  IsValid, Simulated, cache_simulate-Simulated, run_trace-Counted, initialize_cache-IsValid,
}
use cs_360_internet_programm.CacheSim.Policy.{evicts_most_recent}
use cs_360_internet_programm.CacheSim.Counts.{access_count_bound, AllWithin}

-- The trace traces/yi.trace of the repository, whose counts with -s 4 -E 1 -b 4 are known.
abbrev yi : List (Cmd × ℕ)
yi =
    (Cmd.load, 0x10)
    ∷ (Cmd.modify, 0x20)
    ∷ (Cmd.load, 0x22)
    ∷ (Cmd.store, 0x18)
    ∷ (Cmd.load, 0x110)
    ∷ (Cmd.load, 0x210)
    ∷ (Cmd.modify, 0x12)
    ∷ []

abbrev yi_end : Option (ℕ × ℕ × ℕ)
yi_end = Option.map (λ m. (m.hits, m.misses, m.evictions)) (run_trace (initialize_cache 4 1 4) yi)

yi_counts : yi_end ≡ some (4, 5, 3)
unfolding run_trace run_line cache_simulate access_set set_index input_tag initialize_cache lru_loop
yi_counts = refl

same_block_example : 0x213 / 2 ^ 4 ≡ 0x21c / 2 ^ 4
unfolding set_index input_tag
same_block_example =
    same_block 4 4 0x213 0x21c (omega arith) (omega arith) (omega arith) (omega arith) refl refl

-- Set 0 is the only one, and the index of address 0x12 is 2 ^ 29.
set_index-no_set_bits_example : set_index 0 4 0x12 ≡ 0x12 % 2 ^ 4 * 2 ^ 28
set_index-no_set_bits_example = set_index-no_set_bits 4 0x12 (omega arith) (omega arith)

no_set_bits_faults : cache_simulate (initialize_cache 0 2 4) 0x12 ≡ none
unfolding cache_simulate set_index initialize_cache
no_set_bits_faults = refl

abbrev small : Simulator
small = initialize_cache 1 2 4

small-IsValid : IsValid small
small-IsValid = initialize_cache-IsValid 1 2 4 (omega arith) (omega arith) (omega arith)

cache_simulate-Simulated_example :
    (m : Simulator) × (cache_simulate small 0x12 ≡ some m) × Simulated small 0x12 m
cache_simulate-Simulated_example = cache_simulate-Simulated small small-IsValid 0x12

abbrev once : Simulator
once = record small {
  sets =
      (record { valid = false; access_count = 0; tag = 0 }
        ∷ record { valid = false; access_count = 0; tag = 0 }
        ∷ [])
      ∷ (record { valid = true; access_count = 1; tag = 0 }
          ∷ record { valid = false; access_count = 0; tag = 0 }
          ∷ [])
      ∷ [];
  misses = 1;
}

small-once : cache_simulate small 0x12 ≡ some once
unfolding initialize_cache cache_simulate access_set lru_loop set_index input_tag
small-once = refl

run_trace-Counted_example :
    (n : Simulator) × (run_trace small yi ≡ some n)
    × IsValid n
    × (n.hits + n.misses ≡ small.hits + small.misses + 9)
run_trace-Counted_example = run_trace-Counted small yi small-IsValid

abbrev line : ℕ → ℕ → Line
line count tag = record { valid = true; access_count = count; tag = tag }

-- Tags 7, 8 and 9 come in, 7 is hit again, and 5 takes the line of 7.
evicts_most_recent_example :
    (o o' : Outcome) × (access_set 7 (line 1 7 ∷ line 2 8 ∷ line 3 9 ∷ []) ≡ some o)
    × (access_set 5 o.lines ≡ some o')
    × (o.hits ≡ 1)
    × (o'.evictions ≡ 1)
    × (count_tag 7 o'.lines ≡ 0)
evicts_most_recent_example =
    evicts_most_recent (line 1 7) (line 2 8 ∷ line 3 9 ∷ []) 5 (refl, (refl, (refl, tt)))
      (omega arith, (omega arith, tt)) refl refl

access_count_bound_example : AllWithin 1 once
unfolding initialize_cache run_trace run_line cache_simulate access_set lru_loop set_index input_tag
access_count_bound_example = access_count_bound 1 2 4 ((Cmd.load, 0x12) ∷ []) once refl

-- A stand-in for `atoi`: what it returns does not matter here.
abbrev one_digit : String → ℕ
one_digit _ = 4

initialize_args-render_example :
    initialize_args one_digit ("-E" ∷ "4" ∷ "-s" ∷ "4" ∷ "-v" ∷ "-t" ∷ "x.trace" ∷ [])
    ≡ Result.missing
initialize_args-render_example =
    initialize_args-render one_digit (lines "4" ∷ sets "4" ∷ verbose ∷ file "x.trace" ∷ [])
