-- ===== src/Transpose/Correct.antt =====
-- labs/cachelab/trans.c: the transposes against their specification, B = A^T.
use Prim.Native.Nat.{min}
use native.Mathlib.Decide.{dec_lt}
use cs_360_internet_programm.Base.{
  ℕ, ◌+◌, ◌≤◌, ◌<◌, ◌≡◌, refl, sym, ap, ◌∙◌, lt→ltb, arith, Bool, true, false, Bool-cases, inl, inr,
  ◌&&◌, ◌==◌, ◌↔◌, if◌then◌else◌,
}
use cs_360_internet_programm.Base.Run.{Run, ok, ok-inj}
use cs_360_internet_programm.Base.Loops.{for_loop, for_loop_inv, for_loop_rel}
use cs_360_internet_programm.Transpose.{
  Matrix, Work, move, fresh_work, result_of, blocks, transpose_submit, trans, compare_pair,
  is_transpose,
}
use cs_360_internet_programm.Transpose.Blocks.{blocks-right}
use cs_360_internet_programm.Transpose.Inside.{move_inside, blocks_inside}

-- `b` holds the transpose of the `n` by `m` matrix `a`.
abbrev pub IsTranspose : ℕ → ℕ → Matrix → Matrix → Type 0
IsTranspose m n a b = (x y : ℕ) → x < n → y < m → b y x ≡ a x y

-- What the shape of the matrix chooses.
abbrev by_eight : ℕ → ℕ → Matrix → Matrix → Work
by_eight m n a b = blocks m n a 8 n n (λ row. row + 8) (λ column. column + 8) (fresh_work b)

abbrev by_four : ℕ → ℕ → Matrix → Matrix → Work
by_four m n a b = blocks m n a 4 n n (λ row. row + 4) (λ column. column + 4) (fresh_work b)

abbrev by_sixteen : ℕ → ℕ → Matrix → Matrix → Work
by_sixteen m n a b =
    blocks m n a 16 m n (λ row. min (row + 16) n) (λ column. min (column + 16) m) (fresh_work b)

-- All accesses were inside, and the transpose stands in B.
record Transposed (m n : ℕ) (a : Matrix) (w : Work) : Type 0 where
  clean : w.inside ≡ true
  right : IsTranspose m n a w.b

by_eight-Transposed :
    (m n : ℕ) (a b : Matrix) → n ≡ 32 → m ≡ 32 → Transposed m n a (by_eight m n a b)
by_eight-Transposed m n a b e f = record {
  clean =
      blocks_inside m n a 8 n n (λ row. row + 8) (λ column. column + 8) (omega arith) (omega arith)
        (omega arith) (λ r p q. omega (arith, p, q, e)) (λ c p q. omega (arith, p, q, e, f)) b;
  right = λ x y hx hy.
      blocks-right m n a 8 n n (λ row. row + 8) (λ column. column + 8) x y (omega arith) hx
        (omega (arith, e, f)) (λ r p. p) (λ c p. p) (λ r. omega arith) (λ c p. omega arith)
        (fresh_work b);
}

by_four-Transposed : (m n : ℕ) (a b : Matrix) → n ≡ 64 → m ≡ 64 → Transposed m n a (by_four m n a b)
by_four-Transposed m n a b e f = record {
  clean =
      blocks_inside m n a 4 n n (λ row. row + 4) (λ column. column + 4) (omega arith) (omega arith)
        (omega arith) (λ r p q. omega (arith, p, q, e)) (λ c p q. omega (arith, p, q, e, f)) b;
  right = λ x y hx hy.
      blocks-right m n a 4 n n (λ row. row + 4) (λ column. column + 4) x y (omega arith) hx
        (omega (arith, e, f)) (λ r p. p) (λ c p. p) (λ r. omega arith) (λ c p. omega arith)
        (fresh_work b);
}

by_sixteen-Transposed : (m n : ℕ) (a b : Matrix) → Transposed m n a (by_sixteen m n a b)
by_sixteen-Transposed m n a b = record {
  clean =
      blocks_inside m n a 16 m n (λ row. min (row + 16) n) (λ column. min (column + 16) m)
        (omega arith) (omega arith) (omega arith) (λ r p q. omega arith) (λ c p q. omega arith) b;
  right = λ x y hx hy.
      blocks-right m n a 16 m n (λ row. min (row + 16) n) (λ column. min (column + 16) m) x y
        (omega arith) hx hy (λ r p. omega arith) (λ c p. omega arith) (λ r. omega arith)
        (λ c p. omega arith) (fresh_work b);
}

result_of-Transposed :
    (m n : ℕ) (a : Matrix) (w : Work)
    → Transposed m n a w
    → (b' : Matrix) × (result_of w ≡ ok b') × IsTranspose m n a b'
result_of-Transposed m n a w h = (w.b, rw h.clean refl, h.right)

-- The submission stays inside both arrays and transposes every matrix, of any shape and whatever B
-- held, except that with 32 or with 64 rows it takes the matrix to be square.
pub transpose_submit-IsTranspose :
    (m n : ℕ) (a b : Matrix)
    → (n ≡ 32 → m ≡ 32)
    → (n ≡ 64 → m ≡ 64)
    → (b' : Matrix) × (transpose_submit m n a b ≡ ok b') × IsTranspose m n a b'
unfolding transpose_submit
transpose_submit-IsTranspose m n a b square square' = result_of-Transposed m n a _ chosen
  where
    chosen : Transposed m n a (
        if n == 32
        then by_eight m n a b
        else if n == 64
        then by_four m n a b
        else by_sixteen m n a b)
    chosen = elim (Bool-cases (n == 32)) [
      | inl t ↦
          (let e : n ≡ 32 = ground (arith, t) in rw t (by_eight-Transposed m n a b e (square e)))
      | inr t ↦ rw t (elim (Bool-cases (n == 64)) [
        | inl u ↦
            (let e : n ≡ 64 = ground (arith, u) in rw u (by_four-Transposed m n a b e (square' e)))
        | inr u ↦ rw u (by_sixteen-Transposed m n a b)
      ])
    ]

-- The element of a row that is done, or of the row that is being moved.
record Moved (m n : ℕ) (a : Matrix) (x y : ℕ) (i j : ℕ) (w : Work) : Type 0 where
  clean : w.inside ≡ true
  done : y < m → x < i → w.b y x ≡ a x y
  here : x ≡ i → y < j → w.b y x ≡ a x y

move-Moved :
    (m n : ℕ) (a : Matrix) (x y i j : ℕ) (w : Work)
    → i < n
    → j < m
    → Moved m n a x y i j w
    → Moved m n a x y i (j + 1) (move m n a i j w)
unfolding move
move-Moved m n a x y i j w hi hj h = record {
  clean = move_inside m n a i j w hi hj h.clean;
  done = λ p q. (let d = h.done p q in ground arith);
  here = λ p q. (let d = h.here p in ground arith);
}

row-Moved :
    (m n : ℕ) (a : Matrix) (x y i : ℕ) (w : Work)
    → i < n
    → Moved m n a x y i 0 w
    → Moved m n a x y (i + 1) 0 (for_loop 0 m 1 (move m n a i) w)
row-Moved m n a x y i w hi h =
    let (e, le, k) =
      for_loop_inv (λ j v. Moved m n a x y i j v) m 1 (move m n a i) (omega arith)
        (λ j v lt p. move-Moved m n a x y i j v hi lt p) 0 w h in
    record {
      clean = k.clean;
      done = λ p q. elim (dec_lt x i) [
        | yes lt ↦ k.done p lt
        | no ge ↦ k.here (omega (arith, q, ge)) (omega (arith, p, le))
      ];
      here = λ p q. absurd (omega (arith, q));
    }

-- The baseline loop transposes every matrix.
pub trans-IsTranspose :
    (m n : ℕ) (a b : Matrix) → (b' : Matrix) × (trans m n a b ≡ ok b') × IsTranspose m n a b'
unfolding trans
trans-IsTranspose m n a b =
    result_of-Transposed m n a (for_loop 0 n 1 (λ i. for_loop 0 m 1 (move m n a i)) (fresh_work b))
      (record {
        clean = (moved 0 0).2.clean;
        right = λ x y hx hy. (let (e, le, k) = moved x y in k.done hy (omega (arith, le, hx)));
      })
  where
    moved :
        (x y : ℕ)
        → (e : ℕ) × (n ≤ e)
          × Moved m n a x y e 0 (for_loop 0 n 1 (λ i. for_loop 0 m 1 (move m n a i)) (fresh_work b))
    moved x y =
        for_loop_inv (λ i v. Moved m n a x y i 0 v) n 1 (λ i. for_loop 0 m 1 (move m n a i))
          (omega arith) (λ i v lt p. row-Moved m n a x y i v lt p) 0 (fresh_work b)
          (record {
            clean = refl;
            done = λ p q. absurd (omega (arith, q));
            here = λ p q. absurd (omega (arith, q));
          })

module _ (m n : ℕ) (a b : Matrix) where
  abbrev agree_row : ℕ → Bool → Bool
  agree_row i = for_loop 0 m 1 (λ j same. same && (a i j == b j i))

  -- If all agrees at the end of the row loop, it did at the start, and at each column passed.
  row_sound :
      (i x y : ℕ) (same : Bool)
      → i ≡ x
      → y < m
      → agree_row i same ≡ true
      → (same ≡ true) × (b y x ≡ a x y)
  row_sound i x y same e hy h =
      let (f, le, k) =
        for_loop_inv (λ j s. s ≡ true → (same ≡ true) × (y < j → b y x ≡ a x y)) m 1
          (λ j s. s && (a i j == b j i)) (omega arith)
          (λ j s lt p q. ground (arith, p (ground arith))) 0 same
          (λ p. (p, λ q. absurd (omega arith))) in
      let r = k h in (r.0, r.1 (omega (arith, le)))

  row_complete : (i : ℕ) → i < n → IsTranspose m n a b → agree_row i true ≡ true
  row_complete i hi t =
      let (f, le, k) =
        for_loop_inv (λ j s. s ≡ true) m 1 (λ j s. s && (a i j == b j i)) (omega arith)
          (λ j s lt p. ground (arith, t i j hi lt)) 0 true refl in
      k

  abbrev agree : Bool
  agree = for_loop 0 n 1 agree_row true

  agree_iff : (agree ≡ true) ↔ IsTranspose m n a b
  agree_iff = (sound, complete)
    where
      sound : agree ≡ true → IsTranspose m n a b
      sound h x y hx hy =
          let (e, le, k) =
            for_loop_inv (λ i s. s ≡ true → x < i → b y x ≡ a x y) n 1 agree_row (omega arith)
              (λ i s lt p q lt'. step i s p q lt') 0 true (λ p q. absurd (omega arith)) in
          k h (omega (arith, le))
        where
          step :
              (i : ℕ) (s : Bool)
              → (s ≡ true → x < i → b y x ≡ a x y)
              → agree_row i s ≡ true
              → x < i + 1
              → b y x ≡ a x y
          step i s p q lt = elim (dec_lt x i) [
            | yes before ↦ p (row_sound i i y s refl hy q).0 before
            | no here ↦ (row_sound i x y s (omega arith) hy q).1
          ]

      complete : IsTranspose m n a b → agree ≡ true
      complete t =
          let (e, le, k) =
            for_loop_inv (λ i s. s ≡ true) n 1 agree_row (omega arith)
              (λ i s lt p. rw p (row_complete i lt t)) 0 true refl in
          k

  compare_pair-ok :
      (i j : ℕ) (r : Run Bool) (same : Bool)
      → i < n
      → j < m
      → r ≡ ok same
      → compare_pair m n a b i j r ≡ ok (same && (a i j == b j i))
  compare_pair-ok i j r true hi hj e = rw (e) (rw (lt→ltb i n hi, lt→ltb j m hj) refl)
  compare_pair-ok i j r false hi hj e = rw (e) refl

  -- No access of `is_transpose` is outside.
  is_transpose-agree : is_transpose m n a b ≡ ok agree
  unfolding is_transpose
  is_transpose-agree =
      for_loop_rel (λ r same. r ≡ ok same) n 1 (λ i. for_loop 0 m 1 (compare_pair m n a b i))
        agree_row
        (λ i r same hi e.
          for_loop_rel (λ r same. r ≡ ok same) m 1 (compare_pair m n a b i)
            (λ j same. same && (a i j == b j i))
            (λ j r same hj e. compare_pair-ok i j r same hi hj e) 0 r same e)
        0 (ok true) true refl

  pub is_transpose_iff : (is_transpose m n a b ≡ ok true) ↔ IsTranspose m n a b
  is_transpose_iff = (
    λ e. agree_iff.0 (ok-inj (sym is_transpose-agree ∙ e)),
    λ t. is_transpose-agree ∙ ap ok (agree_iff.1 t),
  )
