-- ===== src/Transpose/Blocks.antt =====
-- labs/cachelab/trans.c, the four loops of `transpose_submit`: one element is followed through them.
use native.Mathlib.Decide.{dec_lt, ℕ_discrete}
use native.Mathlib.Nat.{div-add-mod, add-mod_right, zero-mod}
use cs_360_internet_programm.Base.{
  ℕ, ◌+◌, ◌-◌, ◌/◌, ◌%◌, ◌≤◌, ◌<◌, ◌≡◌, ◌≢◌, arith, Bool-cases, inl, inr, ◌==◌,
}
use cs_360_internet_programm.Base.Pow.{div_unique}
use cs_360_internet_programm.Base.Loops.{for_loop, for_loop_inv}
use cs_360_internet_programm.Transpose.{Matrix, Work, move, element, flush, block_row, blocks}

-- Two block starts with an index in common are one.
same_start :
    (size r c i : ℕ)
    → r % size ≡ 0
    → c % size ≡ 0
    → r ≤ i
    → i < r + size
    → c ≤ i
    → i < c + size
    → r ≡ c
same_start size r c i hr hc r0 r1 c0 c1 =
    let p : i / size ≡ r / size =
      div_unique i size (r / size) (i - r) (omega (arith, div-add-mod r size)) (omega arith) in
    let q : i / size ≡ c / size =
      div_unique i size (c / size) (i - c) (omega (arith, div-add-mod c size)) (omega arith) in
    grind (arith, p, q, div-add-mod r size, div-add-mod c size)

pub next_start : (size r : ℕ) → r % size ≡ 0 → (r + size) % size ≡ 0
next_start size r h = omega (arith, add-mod_right r size)

module _ (m n : ℕ) (a : Matrix) (size columns rows : ℕ) (row_end column_end : ℕ → ℕ) (x y : ℕ)
    (pos : 0 < size) (in_rows : x < rows) (in_columns : y < columns)
    (rows_reached : (row : ℕ) → x < row + size → x < row_end row)
    (columns_reached : (column : ℕ) → y < column + size → y < column_end column)
    (row_end-le : (row : ℕ) → row_end row ≤ row + size)
    (starts_inside : (column : ℕ) → column < columns → column < column_end column) where
  -- The element that belongs at `b[y][x]` stands there.
  abbrev Right : Work → Type 0
  Right w = w.b y x ≡ a x y

  -- What is kept back is an element of the diagonal.
  abbrev Held : Work → Type 0
  Held w = w.temp ≡ a w.diagonal w.diagonal

  record InRow (column row i j : ℕ) (w : Work) : Type 0 where
    left : y < column → Right w
    above : y < column + size → x < i → Right w
    here : x ≡ i → column ≤ y → y < j → y ≢ i → Right w
    seen : column ≤ i → i < j → (w.temp ≡ a i i) × (w.diagonal ≡ i)
    before : row ≡ column → row < i → Held w

  element-InRow :
      (column row i j : ℕ) (w : Work)
      → InRow column row i j w
      → InRow column row i (j + 1) (element m n a i j w)
  unfolding element move
  element-InRow column row i j w h = ground arith

  record InBlock (column row i : ℕ) (w : Work) : Type 0 where
    left : y < column → Right w
    above : y < column + size → x < i → Right w
    before : row ≡ column → row < i → Held w

  -- Flushing keeps what is right, if what it stores is an element of the diagonal.
  flush_keeps :
      (row column : ℕ) (w : Work)
      → (row ≡ column → Held w)
      → Right w
      → Right (flush m n row column w)
  unfolding flush
  flush_keeps row column w ok r = elim (Bool-cases (row == column)) [
    | inl t ↦ let h = ok (ground arith) in ground (arith, t)
    | inr t ↦ rw t r
  ]

  flush-Held :
      (row column : ℕ) (w : Work)
      → (row ≡ column → Held w)
      → row ≡ column
      → Held (flush m n row column w)
  unfolding flush
  flush-Held row column w ok e = let h = ok e in ground arith

  flush_here :
      (row column : ℕ) (w : Work)
      → row ≡ column
      → Held w
      → w.diagonal ≡ y
      → x ≡ y
      → Right (flush m n row column w)
  unfolding flush
  flush_here row column w e h d xy = ground arith

  flush-InBlock :
      (column row i e : ℕ) (w : Work)
      → column < columns
      → column % size ≡ 0
      → row % size ≡ 0
      → i < row_end row
      → row ≤ i
      → column_end column ≤ e
      → InRow column row i e w
      → InBlock column row (i + 1) (flush m n row column w)
  flush-InBlock column row i e w inside hc hr hi low le k = record {
    left = λ p. flush_keeps row column w diag (k.left p);
    above = above;
    before = λ p q. flush-Held row column w diag p;
  }
    where
      diag : row ≡ column → Held w
      diag p = elim (dec_lt i e) [
        | yes lt ↦ let s = k.seen (omega arith) lt in ground (arith, s.0, s.1)
        | no ge ↦ k.before p (omega (arith, starts_inside column inside))
      ]

      above : y < column + size → x < i + 1 → Right (flush m n row column w)
      above p q = elim (dec_lt x i) [
        | yes lt ↦ flush_keeps row column w diag (k.above p lt)
        | no ge ↦ elim (dec_lt y column) [
          | yes lt ↦ flush_keeps row column w diag (k.left lt)
          | no far ↦
              let reach : y < e = omega (arith, columns_reached column p) in
              elim (ℕ_discrete y i) [
                | no off ↦
                    flush_keeps row column w diag (k.here (omega arith) (omega arith) reach off)
                | yes on ↦
                    let start : row ≡ column =
                      same_start size row column i hr hc low (omega (arith, row_end-le row))
                        (omega arith) (omega arith) in
                    let s = k.seen (omega arith) (omega arith) in
                    flush_here row column w start (diag start) (omega (arith, s.1)) (omega arith)
              ]
        ]
      ]

  block_row-InBlock :
      (column row i : ℕ) (w : Work)
      → column < columns
      → column % size ≡ 0
      → row % size ≡ 0
      → i < row_end row
      → row ≤ i
      → InBlock column row i w
      → InBlock column row
          (i + 1)
          (block_row m n a size columns rows row_end column_end column row i w)
  unfolding block_row flush
  block_row-InBlock column row i w inside hc hr hi low h =
      let (e, le, k) =
        for_loop_inv (InRow column row i) (column_end column) 1 (element m n a i) (omega arith)
          (λ j v lt p. element-InRow column row i j v p) column w
          (record {
            left = h.left;
            above = h.above;
            here = λ p q r s. absurd (omega arith);
            seen = λ p q. absurd (omega arith);
            before = h.before;
          }) in
      flush-InBlock column row i e _ inside hc hr hi low le k

  record InColumn (column row : ℕ) (w : Work) : Type 0 where
    start : row % size ≡ 0
    left : y < column → Right w
    above : y < column + size → x < row → Right w

  block-InColumn :
      (column row : ℕ) (w : Work)
      → column < columns
      → column % size ≡ 0
      → InColumn column row w
      → InColumn column (row + size) (
          for_loop row
            (row_end row)
            1
            (block_row m n a size columns rows row_end column_end column row)
            w)
  block-InColumn column row w inside hc h =
      let (e, le, both) =
        for_loop_inv (λ i v. (row ≤ i) × InBlock column row i v) (row_end row) 1
          (block_row m n a size columns rows row_end column_end column row) (omega arith)
          (λ i v lt p.
            (omega (arith, p.0), block_row-InBlock column row i v inside hc h.start lt p.0 p.1))
          row w
          (
            omega arith,
            record { left = h.left; above = h.above; before = λ p q. absurd (omega arith) },
          ) in
      record {
        start = next_start size row h.start;
        left = both.1.left;
        above = λ p q. both.1.above p (omega (arith, le, rows_reached row q));
      }

  record InAll (column : ℕ) (w : Work) : Type 0 where
    start : column % size ≡ 0
    left : y < column → Right w

  column-InAll :
      (column : ℕ) (w : Work)
      → column < columns
      → InAll column w
      → InAll (column + size) (
          for_loop 0 rows size
            (λ row.
              for_loop row
                (row_end row)
                1
                (block_row m n a size columns rows row_end column_end column row))
            w)
  column-InAll column w inside h =
      let (e, le, k) =
        for_loop_inv (InColumn column) rows size
          (λ row.
            for_loop row (row_end row) 1
              (block_row m n a size columns rows row_end column_end column row))
          pos (λ row v lt p. block-InColumn column row v inside h.start p) 0 w
          (record { start = zero-mod size; left = h.left; above = λ p q. absurd (omega arith) }) in
      record { start = next_start size column h.start; left = λ p. k.above p (omega (arith, le)) }

  -- The four loops put the element that belongs there at `b[y][x]`.
  pub blocks-right :
      (w : Work) → (blocks m n a size columns rows row_end column_end w).b y x ≡ a x y
  unfolding blocks
  blocks-right w =
      let (e, le, k) =
        for_loop_inv InAll columns size
          (λ column. for_loop 0 rows size (λ row.
            for_loop row (row_end row) 1
              (block_row m n a size columns rows row_end column_end column row)))
          pos (λ column v lt p. column-InAll column v lt p) 0 w
          (record { start = zero-mod size; left = λ p. absurd (omega arith) }) in
      k.left (omega (arith, le))
