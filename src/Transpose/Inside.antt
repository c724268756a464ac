-- ===== src/Transpose/Inside.antt =====
-- labs/cachelab/trans.c, the four loops of `transpose_submit`: no access is outside of its array.
use native.Mathlib.Nat.{zero-mod}
use cs_360_internet_programm.Base.{
  ℕ, ◌%◌, ◌≤◌, ◌<◌, ◌≡◌, refl, arith, Bool-cases, inl, inr, true, ◌==◌, lt→ltb,
}
use cs_360_internet_programm.Base.Loops.{for_loop, for_loop_inv}
use cs_360_internet_programm.Transpose.{
  Matrix, Work, fresh_work, move, element, flush, block_row, blocks,
}
use cs_360_internet_programm.Transpose.Blocks.{next_start}

module _ (m n : ℕ) (a : Matrix) where
  -- All was inside so far, and so would be the diagonal element that was kept back last.
  record Safe (w : Work) : Type 0 where
    clean : w.inside ≡ true
    held : 0 < m → 0 < n → (w.diagonal < m) × (w.diagonal < n)

  pub move_inside :
      (i j : ℕ) (w : Work) → i < n → j < m → w.inside ≡ true → (move m n a i j w).inside ≡ true
  unfolding move
  move_inside i j w hi hj e = rw (e, lt→ltb i n hi, lt→ltb j m hj) refl

  element-Safe : (i j : ℕ) (w : Work) → i < n → j < m → Safe w → Safe (element m n a i j w)
  unfolding element
  element-Safe i j w hi hj h = elim (Bool-cases (i == j)) [
    | inl t ↦ rw t (record {
      clean = rw (h.clean, lt→ltb i n hi, lt→ltb j m hj) refl;
      held = λ p q. (ground (arith, t), hi);
    })
    | inr t ↦ rw t (record { clean = move_inside i j w hi hj h.clean; held = h.held })
  ]

  flush-Safe : (row column : ℕ) (w : Work) → 0 < m → 0 < n → Safe w → Safe (flush m n row column w)
  unfolding flush
  flush-Safe row column w p q h = elim (Bool-cases (row == column)) [
    | inl t ↦ rw t (record {
      clean =
          rw (h.clean, lt→ltb w.diagonal n (h.held p q).1, lt→ltb w.diagonal m (h.held p q).0) refl;
      held = h.held;
    })
    | inr t ↦ rw t h
  ]

  module _ (size columns rows : ℕ) (row_end column_end : ℕ → ℕ) (pos : 0 < size)
      (rows_fit : rows ≤ n) (columns_fit : columns ≤ m)
      (row_end_fits : (row : ℕ) → row % size ≡ 0 → row < rows → row_end row ≤ n)
      (column_end_fits : (column : ℕ)
        → column % size ≡ 0
        → column < columns
        → column_end column ≤ m) where
    block_row-Safe :
        (column row i : ℕ) (w : Work)
        → column % size ≡ 0
        → column < columns
        → i < n
        → Safe w
        → Safe (block_row m n a size columns rows row_end column_end column row i w)
    unfolding block_row
    block_row-Safe column row i w hc inside hi h =
        let fits = column_end_fits column hc inside in
        let (e, le, k) =
          for_loop_inv (λ j v. Safe v) (column_end column) 1 (element m n a i) (omega arith)
            (λ j v lt p. element-Safe i j v hi (omega (arith, lt, fits)) p) column w h in
        flush-Safe row column _ (omega (arith, inside, columns_fit)) (omega (arith, hi)) k

    column-Safe :
        (column : ℕ) (w : Work)
        → column % size ≡ 0
        → column < columns
        → Safe w
        → Safe (
            for_loop 0 rows size
              (λ row.
                for_loop row
                  (row_end row)
                  1
                  (block_row m n a size columns rows row_end column_end column row))
              w)
    column-Safe column w hc inside h =
        let (e, le, k) =
          for_loop_inv (λ row v. (row % size ≡ 0) × Safe v) rows size
            (λ row.
              for_loop row (row_end row) 1
                (block_row m n a size columns rows row_end column_end column row))
            pos
            (λ row v lt p.
              let fits = row_end_fits row p.0 lt in
              let (e', le', k') =
                for_loop_inv (λ i u. Safe u) (row_end row) 1
                  (block_row m n a size columns rows row_end column_end column row) (omega arith)
                  (λ i u lt' q.
                    block_row-Safe column row i u hc inside (omega (arith, lt', fits)) q)
                  row v p.1 in
              (next_start size row p.0, k'))
            0 w (zero-mod size, h) in
        k.1

    -- If the blocks end inside the arrays, all accesses of the four loops are.
    pub blocks_inside :
        (b : Matrix)
        → (blocks m n a size columns rows row_end column_end (fresh_work b)).inside ≡ true
    unfolding blocks
    blocks_inside b =
        let (e, le, k) =
          for_loop_inv (λ column v. (column % size ≡ 0) × Safe v) columns size
            (λ column. for_loop 0 rows size (λ row.
              for_loop row (row_end row) 1
                (block_row m n a size columns rows row_end column_end column row)))
            pos (λ column v lt p. (next_start size column p.0, column-Safe column v p.0 lt p.1)) 0
            (fresh_work b) (zero-mod size, record { clean = refl; held = λ p q. (p, q) }) in
        k.1.clean
