-- ===== src/CacheSim/Args.antt =====
-- labs/cachelab/csim.c, `initializeArgs`. `atoi` is the C library's: a parameter. The usage text
-- that `printUsage` and `printError` write is left out; the results tell the cases apart.
use Prim.Native.String.{String}
use text.Mathlib.Text.{◌==◌ as str_eq}
use cs_360_internet_programm.Base.{
  ℕ, suc, ◌+◌, ◌≡◌, refl, ap, ◌∙◌, arith, Bool, true, false, Option, none, some, List, [], ◌∷◌,
  ◌==◌, if◌then◌else◌, All,
}

pub record Args : Type 0 where
  pub set_bits : ℕ
  pub num_lines : ℕ
  pub data_bits : ℕ
  pub verbose_flag : Bool
  pub filepath : Option String  -- `none` is the null pointer

-- `accepted` is the return of 0; the next three return 1; `crashed` is `atoi` of a null pointer.
pub data Result : Type 0 where
  accepted : Args → Result
  help : Result
  invalid : Result
  missing : Result
  crashed : Result

-- An independent view of a command line: options in any order, each with its value.
pub data Opt : Type 0 where
  verbose : Opt
  sets lines block file : String → Opt

abbrev pub render : List Opt → List String
render [] = []
render (verbose ∷ os) = "-v" ∷ render os
render (sets v ∷ os) = "-s" ∷ v ∷ render os
render (lines v ∷ os) = "-E" ∷ v ∷ render os
render (block v ∷ os) = "-b" ∷ v ∷ render os
render (file v ∷ os) = "-t" ∷ v ∷ render os

abbrev pub values : List Opt → ℕ
values [] = 0
values (verbose ∷ os) = values os
values (sets v ∷ os) = suc (values os)
values (lines v ∷ os) = suc (values os)
values (block v ∷ os) = suc (values os)
values (file v ∷ os) = suc (values os)

abbrev pub names_file : Opt → Bool
names_file (file v) = true
names_file _ = false

module _ (atoi : String → ℕ) where
  -- The loop over `argv`, with the number of required arguments seen so far: `reqArgs` is 4 less it.
  pub parse : List String → ℕ → Args → Result
  parse [] seen g = if seen == 4 then Result.accepted g else Result.missing
  parse (arg ∷ []) seen g =
      if str_eq arg "-h"
      then Result.help
      else if str_eq arg "-v"
      then (if seen == 4
          then Result.accepted (record g { verbose_flag = true })
          else Result.missing)
      else if str_eq arg "-s"
      then Result.crashed
      else if str_eq arg "-E"
      then Result.crashed
      else if str_eq arg "-b"
      then Result.crashed
      else if str_eq arg "-t"
      then (if seen + 1 == 4
          then Result.accepted (record g { filepath = none })
          else Result.missing)
      else Result.invalid
  parse (arg ∷ val ∷ rest) seen g =
      let after_v = parse (val ∷ rest) seen (record g { verbose_flag = true }) in
      let after_s = parse rest (seen + 1) (record g { set_bits = atoi val }) in
      let after_e = parse rest (seen + 1) (record g { num_lines = atoi val }) in
      let after_b = parse rest (seen + 1) (record g { data_bits = atoi val }) in
      let after_t = parse rest (seen + 1) (record g { filepath = some val }) in
      if str_eq arg "-h"
      then Result.help
      else if str_eq arg "-v"
      then after_v
      else if str_eq arg "-s"
      then after_s
      else if str_eq arg "-E"
      then after_e
      else if str_eq arg "-b"
      then after_b
      else if str_eq arg "-t"
      then after_t
      else Result.invalid

  abbrev pub no_args : Args
  no_args = record {
    set_bits = 0;
    num_lines = 0;
    data_bits = 0;
    verbose_flag = false;
    filepath = none;
  }

  pub initialize_args : List String → Result
  unfolding parse
  initialize_args argv = parse argv 0 no_args

  -- The last value of an option counts.
  abbrev pub settings : List Opt → Args → Args
  settings [] g = g
  settings (verbose ∷ os) g = settings os (record g { verbose_flag = true })
  settings (sets v ∷ os) g = settings os (record g { set_bits = atoi v })
  settings (lines v ∷ os) g = settings os (record g { num_lines = atoi v })
  settings (block v ∷ os) g = settings os (record g { data_bits = atoi v })
  settings (file v ∷ os) g = settings os (record g { filepath = some v })

  abbrev accept : ℕ → Args → Result
  accept n g = if n == 4 then Result.accepted g else Result.missing

  parse-verbose :
      (l : List String) (seen : ℕ) (g : Args)
      → parse ("-v" ∷ l) seen g ≡ parse l seen (record g { verbose_flag = true })
  unfolding parse
  parse-verbose [] seen g = refl
  parse-verbose (x ∷ l) seen g = refl

  parse-sets :
      (v : String) (l : List String) (seen : ℕ) (g : Args)
      → parse ("-s" ∷ v ∷ l) seen g ≡ parse l (seen + 1) (record g { set_bits = atoi v })
  unfolding parse
  parse-sets v l seen g = refl

  parse-lines :
      (v : String) (l : List String) (seen : ℕ) (g : Args)
      → parse ("-E" ∷ v ∷ l) seen g ≡ parse l (seen + 1) (record g { num_lines = atoi v })
  unfolding parse
  parse-lines v l seen g = refl

  parse-block :
      (v : String) (l : List String) (seen : ℕ) (g : Args)
      → parse ("-b" ∷ v ∷ l) seen g ≡ parse l (seen + 1) (record g { data_bits = atoi v })
  unfolding parse
  parse-block v l seen g = refl

  parse-file :
      (v : String) (l : List String) (seen : ℕ) (g : Args)
      → parse ("-t" ∷ v ∷ l) seen g ≡ parse l (seen + 1) (record g { filepath = some v })
  unfolding parse
  parse-file v l seen g = refl

  accept_step : (seen n : ℕ) (g : Args) → accept (seen + 1 + n) g ≡ accept (seen + suc n) g
  accept_step seen n g = ap (λ k. accept k g) (omega arith)

  parse-render :
      (os : List Opt) (seen : ℕ) (g : Args)
      → parse (render os) seen g ≡ accept (seen + values os) (settings os g)
  parse-render [] seen g = unfold parse in ap (λ k. accept k g) (omega arith)
  parse-render (verbose ∷ os) seen g =
      parse-verbose (render os) seen g ∙ parse-render os seen (record g { verbose_flag = true })
  parse-render (sets v ∷ os) seen g =
      parse-sets v (render os) seen g
      ∙ parse-render os (seen + 1) (record g { set_bits = atoi v })
      ∙ accept_step seen (values os) (settings os (record g { set_bits = atoi v }))
  parse-render (lines v ∷ os) seen g =
      parse-lines v (render os) seen g
      ∙ parse-render os (seen + 1) (record g { num_lines = atoi v })
      ∙ accept_step seen (values os) (settings os (record g { num_lines = atoi v }))
  parse-render (block v ∷ os) seen g =
      parse-block v (render os) seen g
      ∙ parse-render os (seen + 1) (record g { data_bits = atoi v })
      ∙ accept_step seen (values os) (settings os (record g { data_bits = atoi v }))
  parse-render (file v ∷ os) seen g =
      parse-file v (render os) seen g
      ∙ parse-render os (seen + 1) (record g { filepath = some v })
      ∙ accept_step seen (values os) (settings os (record g { filepath = some v }))

  -- A command line that is made of options and their values is accepted exactly if it has four
  -- options with a value, with the settings that the options make from left to right.
  pub initialize_args-render :
      (os : List Opt)
      → initialize_args (render os)
        ≡ (if values os == 4 then Result.accepted (settings os no_args) else Result.missing)
  unfolding initialize_args
  initialize_args-render os =
      parse-render os 0 no_args ∙ ap (λ n. accept n (settings os no_args)) (omega arith)

  settings-filepath :
      (os : List Opt) (g : Args)
      → All (λ o. names_file o ≡ false) os
      → (settings os g).filepath ≡ g.filepath
  settings-filepath [] g h = refl
  settings-filepath (verbose ∷ os) g h = settings-filepath os _ h.1
  settings-filepath (sets v ∷ os) g h = settings-filepath os _ h.1
  settings-filepath (lines v ∷ os) g h = settings-filepath os _ h.1
  settings-filepath (block v ∷ os) g h = settings-filepath os _ h.1
  settings-filepath (file v ∷ os) g h = absurd (cc h.0)

  -- What counts is the number of options with a value, not which they are: four of them are
  -- accepted also when none of them is `-t`, and the path of the trace file is the null pointer.
  pub missing_file_accepted :
      (os : List Opt)
      → values os ≡ 4
      → All (λ o. names_file o ≡ false) os
      → (g : Args) × (initialize_args (render os) ≡ Result.accepted g) × (g.filepath ≡ none)
  missing_file_accepted os four h = (
    settings os no_args,
    initialize_args-render os ∙ ground arith,
    settings-filepath os no_args h,
  )
