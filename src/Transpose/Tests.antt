-- ===== src/Transpose/Tests.antt =====
-- labs/cachelab/trans.c: runs on small matrices, and the theorems at inputs that meet their hypotheses.
use cs_360_internet_programm.Base.{Bool, ◌+◌, ◌*◌, ◌≡◌, ◌↔◌, refl, arith, true, false}
use cs_360_internet_programm.Base.Run.{Run, ok, ◌>>=◌}
use cs_360_internet_programm.Transpose.{Matrix, transpose_submit, trans, is_transpose, blocks}
use cs_360_internet_programm.Transpose.Correct.{
  IsTranspose, transpose_submit-IsTranspose, is_transpose_iff,
}

abbrev grid : Matrix
grid r c = r * 10 + c

abbrev blank : Matrix
blank r c = 0

transposed : Run Matrix → Run Bool
transposed r = r >>= is_transpose 3 2 grid

submit_runs : transposed (transpose_submit 3 2 grid blank) ≡ ok true
unfolding transposed transpose_submit blocks is_transpose
submit_runs = refl

checks : transposed (trans 3 2 grid blank) ≡ ok true
unfolding transposed is_transpose trans
checks = refl

rejects : is_transpose 3 2 grid grid ≡ ok false
unfolding is_transpose
rejects = refl

transpose_submit-IsTranspose_example :
    (b' : Matrix) × (transpose_submit 61 67 grid blank ≡ ok b') × IsTranspose 61 67 grid b'
transpose_submit-IsTranspose_example =
    transpose_submit-IsTranspose 61 67 grid blank (λ e. absurd (omega arith))
      (λ e. absurd (omega arith))

is_transpose_iff_example : (is_transpose 3 2 grid grid ≡ ok true) ↔ IsTranspose 3 2 grid grid
is_transpose_iff_example = is_transpose_iff 3 2 grid grid
