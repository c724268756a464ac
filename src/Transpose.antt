-- ===== src/Transpose.antt =====
-- labs/cachelab/trans.c: the matrix transposes. A matrix is the function that gives its elements,
-- row first; an `int` element is only moved, never computed with, so it is any number. The sizes of the
-- arrays are kept apart: an access outside of one counts as a fault of the whole call.
pub mod Blocks
pub mod Inside
pub mod Correct
mod Tests
use Prim.Native.Nat.{min}
use cs_360_internet_programm.Base.{ℕ, ◌+◌, Bool, true, false, ◌&&◌, ltb, ◌==◌, if◌then◌else◌}
use cs_360_internet_programm.Base.Run.{Run, ok, fault}
use cs_360_internet_programm.Base.Loops.{for_loop}

abbrev pub Matrix : Type 0
Matrix = ℕ → ℕ → ℕ

-- `b[r][c] = v`
abbrev pub store : Matrix → ℕ → ℕ → ℕ → Matrix
store b r c v r' c' = if (r == r') && (c == c') then v else b r' c'

-- The matrix `B`, the locals that live across iterations, and whether all accesses of `A[n][m]` and
-- `B[m][n]` so far were inside.
pub record Work : Type 0 where
  pub b : Matrix
  pub temp : ℕ
  pub diagonal : ℕ
  pub inside : Bool

module _ (m n : ℕ) where
  -- `A[i][j]` and `B[j][i]` are elements.
  abbrev pub within : ℕ → ℕ → Bool
  within i j = ltb i n && ltb j m

  -- `B[j][i] = A[i][j]`
  pub move : Matrix → ℕ → ℕ → Work → Work
  move a i j w = record w { b = store w.b j i (a i j); inside = w.inside && within i j }

  -- The body of the innermost loop: an element off the diagonal is stored, one on it is kept back.
  pub element : Matrix → ℕ → ℕ → Work → Work
  unfolding move
  element a i j w =
      if i == j
      then record w { temp = a i j; diagonal = i; inside = w.inside && within i j }
      else move a i j w

  -- The store of the diagonal element behind the innermost loop.
  pub flush : ℕ → ℕ → Work → Work
  flush row column w =
      if row == column
      then record w {
        b = store w.b w.diagonal w.diagonal w.temp;
        inside = w.inside && within w.diagonal w.diagonal;
      }
      else w

-- The four loops, with the size of a block, the bounds of the outer loops, and where the inner
-- loops end in the block that starts at a row or column.
module _ (m n : ℕ) (a : Matrix) (size columns rows : ℕ) (row_end column_end : ℕ → ℕ) where
  pub block_row : ℕ → ℕ → ℕ → Work → Work
  unfolding flush element for_loop
  block_row column row i w =
      flush m n row column (for_loop column (column_end column) 1 (element m n a i) w)

  pub blocks : Work → Work
  unfolding block_row for_loop
  blocks =
      for_loop 0 columns size
        λ column. for_loop 0 rows size λ row. for_loop row (row_end row) 1 (block_row column row)

abbrev pub fresh_work : Matrix → Work
fresh_work b = record { b = b; temp = 0; diagonal = 0; inside = true }

-- What a call leaves in `B`.
abbrev pub result_of : Work → Run Matrix
result_of w = if w.inside then ok w.b else fault

-- The transpose of the submission: blocks of 8 for 32 rows, of 4 for 64 rows, and of 16 with
-- bounds tested for any other number of rows.
pub transpose_submit : ℕ → ℕ → Matrix → Matrix → Run Matrix
transpose_submit m n a b =
    let by_eight = blocks m n a 8 n n (λ row. row + 8) (λ column. column + 8) (fresh_work b) in
    let by_four = blocks m n a 4 n n (λ row. row + 4) (λ column. column + 4) (fresh_work b) in
    let by_sixteen =
      blocks m n a 16 m n (λ row. min (row + 16) n) (λ column. min (column + 16) m)
        (fresh_work b) in
    result_of (if n == 32 then by_eight else if n == 64 then by_four else by_sixteen)

pub trans : ℕ → ℕ → Matrix → Matrix → Run Matrix
unfolding for_loop move
trans m n a b = result_of (for_loop 0 n 1 (λ i. for_loop 0 m 1 (move m n a i)) (fresh_work b))

-- A round of `is_transpose`: behind the first pair that differs nothing is read.
abbrev pub compare_pair : ℕ → ℕ → Matrix → Matrix → ℕ → ℕ → Run Bool → Run Bool
compare_pair m n a b i j (ok true) = if within m n i j then ok (a i j == b j i) else fault
compare_pair m n a b i j r = r

-- The two loops return at the first pair that differs: here, whether a pair differs so far.
pub is_transpose : ℕ → ℕ → Matrix → Matrix → Run Bool
unfolding for_loop
is_transpose m n a b = for_loop 0 n 1 (λ i. for_loop 0 m 1 (compare_pair m n a b i)) (ok true)
