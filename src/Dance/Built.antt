-- ===== src/Dance/Built.antt =====
-- The whole constructor of `Dance` in Lab1/sudoku_dancing_links.cpp.
use cloud_computing.Prelude.{
  ℕ, suc, ◌+◌, ◌*◌, ◌/◌, ◌%◌, ◌<◌, ◌≤◌, Bool, true, false, not, ◌||◌, Option, some, ◌≡◌, refl,
  subst, ◌==◌, ==_iff, arith, ◌>>=◌, Bool-cases, inl, inr,
}
use cloud_computing.Dance.{Dance, max_nodes}
use cloud_computing.Dance.Build.{
  digit_rows, cell_rows, for_below, get_row_col, get_col_col, get_box_col, box_of, Marks, marks_of,
  dance, new_column, empty_dance, cell_column, digit_columns, lone,
}
use cloud_computing.Dance.Columns.{Ends, Ends-bind, for_below-Ends, Has, Cells, cell_column-Cells}
use cloud_computing.Dance.Digits.{Digits, HasDigit, for_below-Digits}
use cloud_computing.Dance.WellFormed.{IsMutual, IsWellFormed, lone-IsWellFormed}
use cloud_computing.Dance.Matrix.{Rows, add_rows_lem}

Rows-le :
    (columns : ℕ → Option ℕ) (b c : ℕ) (d : Dance) → b ≤ c → Rows columns b d → Rows columns c d
Rows-le columns b c d le h = record {
  started = h.started;
  few = omega (arith, h.few);
  same = h.same;
}

Or-false : (a b c : Bool) → not (a || b || c) ≡ true → (a ≡ false) × (b ≡ false) × (c ≡ false)
Or-false false false false e = (refl, refl, refl)
Or-false true b c e = cc
Or-false false true c e = cc
Or-false false false true e = cc

module _ (inout : ℕ → ℕ) (m : Marks) (columns : ℕ → Option ℕ)
    (cells : (i : ℕ) → i < 81 → inout i ≡ 0 → Has columns i)
    (digits : (i v : ℕ)
      → 1 ≤ v
      → v ≤ 9
      → i * 10 + v < 9 * 10 + 0 + 1
      → HasDigit inout m columns i v (i * 10 + v)) where
  module _ (i k : ℕ) (li : i < 9) (lk : k < 9) where
    get_row_col-Has : m.rows i (k + 1) ≡ false → Has columns (get_row_col i (k + 1))
    unfolding get_row_col
    get_row_col-Has e =
        let at : 100 + (i * 10 + (k + 1)) ≡ 100 + i * 10 + (k + 1) = omega arith in
        subst (Has columns) at ((digits i (k + 1) (omega arith) (omega arith) (omega arith)).0 e)

    get_col_col-Has : m.cols i (k + 1) ≡ false → Has columns (get_col_col i (k + 1))
    unfolding get_col_col
    get_col_col-Has e =
        let at : 200 + (i * 10 + (k + 1)) ≡ 200 + i * 10 + (k + 1) = omega arith in
        subst (Has columns) at ((digits i (k + 1) (omega arith) (omega arith) (omega arith)).1 e)

    get_box_col-Has : m.boxes i (k + 1) ≡ false → Has columns (get_box_col i (k + 1))
    unfolding get_box_col
    get_box_col-Has e =
        let at : 300 + (i * 10 + (k + 1)) ≡ 300 + i * 10 + (k + 1) = omega arith in
        subst (Has columns) at ((digits i (k + 1) (omega arith) (omega arith) (omega arith)).2 e)

  box_of-lt : (i : ℕ) → i < 81 → box_of i < 9
  unfolding box_of
  box_of-lt i lt = omega arith

  digit_rows_lem :
      (i k b : ℕ) (d : Dance)
      → i < 81
      → k < 9
      → b < 729
      → inout i ≡ 0
      → Rows columns b d
      → Ends (digit_rows m i k d) (Rows columns (suc b))
  unfolding digit_rows
  digit_rows_lem i k b d li lk lb empty h =
      elim (Bool-cases
        (not (m.rows (i / 9) (k + 1) || m.cols (i % 9) (k + 1) || m.boxes (box_of i) (k + 1)))) [
          | inl e ↦
              let (row, col, box) =
                Or-false (m.rows (i / 9) (k + 1)) (m.cols (i % 9) (k + 1))
                  (m.boxes (box_of i) (k + 1)) e in
              rw (e, digit_rows)
                (add_rows_lem columns i (k + 1) b d lb (cells i li empty)
                  (get_row_col-Has (i / 9) k (omega arith) lk row)
                  (get_col_col-Has (i % 9) k (omega arith) lk col)
                  (get_box_col-Has (box_of i) k (box_of-lt i li) lk box) h)
          | inr e ↦ (d, rw (e, digit_rows) refl, Rows-le columns b (suc b) d (omega arith) h)
        ]

  cell_rows_lem :
      (i : ℕ) (d : Dance)
      → i < 81
      → Rows columns (9 * i) d
      → Ends (cell_rows inout m i d) (Rows columns (9 * suc i))
  unfolding cell_rows
  cell_rows_lem i d lt h = elim (Bool-cases (inout i == 0)) [
    | inl e ↦
        let (g, ran, done) =
          for_below-Ends (λ k. Rows columns (9 * i + k)) 9 (digit_rows m i) d
            (λ k f lk at.
              let (g, ran, done) =
                digit_rows_lem i k (9 * i + k) f lt lk (omega arith) ((==_iff (inout i) 0).0 e)
                  at in
              (g, ran, Rows-le columns (suc (9 * i + k)) (9 * i + suc k) g (omega arith) done))
            (Rows-le columns (9 * i) (9 * i + 0) d (omega arith) h) in
        (g, rw (e, cell_rows) ran, Rows-le columns (9 * i + 9) (9 * suc i) g (omega arith) done)
    | inr e ↦ (d, rw (e, cell_rows) refl, Rows-le columns (9 * i) (9 * suc i) d (omega arith) h)
  ]

  for_below-Rows :
      (d : Dance)
      → Rows columns 0 d
      → Ends (for_below 81 (cell_rows inout m) d) (Rows columns (9 * 81))
  for_below-Rows d h =
      for_below-Ends (λ i. Rows columns (9 * i)) 81 (cell_rows inout m) d
        (λ i e lt. cell_rows_lem i e lt) (Rows-le columns 0 (9 * 0) d (omega arith) h)

pub empty-IsWellFormed : (inout : ℕ → ℕ) → IsWellFormed (empty_dance inout)
unfolding empty_dance
empty-IsWellFormed inout = record {
  across = nothing;
  along = nothing;
  headers = λ j lt. absurd (omega arith);
  named = λ n c e. cc;
}
  where
    nothing : IsMutual 0 (λ n. 0) (λ n. 0)
    nothing = record {
      first_below = λ j lt. absurd (omega arith);
      second_below = λ j lt. absurd (omega arith);
      first_second = λ j lt. absurd (omega arith);
      second_first = λ j lt. absurd (omega arith);
    }

root-Cells : (inout : ℕ → ℕ) → Cells inout 0 (lone 0 0 0 (empty_dance inout))
unfolding lone empty_dance
root-Cells inout = record {
  started = record {
    well_formed =
        lone-IsWellFormed 0 0 (empty_dance inout) (omega arith) (empty-IsWellFormed inout);
    has_root = omega arith;
  };
  few = omega arith;
  free = λ n le. refl;
  cells = λ i lt. absurd (omega arith);
}

columns_done :
    (inout : ℕ → ℕ)
    → Ends
        (for_below 81 (cell_column inout) (lone 0 0 0 (empty_dance inout))
          >>= for_below 9 (λ i. for_below 9 (digit_columns (marks_of 81 inout) i)))
        (Digits inout (marks_of 81 inout) (9 * 10 + 0 + 1) (9 * 9 + 0))
columns_done inout =
    Ends-bind
      (for_below-Ends (Cells inout) 81 (cell_column inout) (lone 0 0 0 (empty_dance inout))
        (λ i e lt. cell_column-Cells inout i e lt) (root-Cells inout))
      (λ e. for_below-Digits inout (marks_of 81 inout) e)

rows_done :
    (inout : ℕ → ℕ) (m : Marks) (d : Dance)
    → Digits inout m (9 * 10 + 0 + 1) (9 * 9 + 0) d
    → Ends (for_below 81 (cell_rows inout m) d) IsWellFormed
rows_done inout m d h =
    let (e, ran, rows) =
      for_below-Rows inout m d.columns h.cells h.digits d
        (record { started = h.started; few = omega (arith, h.few); same = refl }) in
    (e, ran, rows.started.well_formed)

-- The matrix of any board is built: no `assert` fails, the nodes suffice, and the nodes in use are
-- linked in both directions.
pub dance-IsWellFormed : (inout : ℕ → ℕ) → (d : Dance) × (dance inout ≡ some d) × IsWellFormed d
unfolding dance new_column empty_dance
dance-IsWellFormed inout =
    Ends-bind (columns_done inout) (λ e. rows_done inout (marks_of 81 inout) e)

rows_few :
    (inout : ℕ → ℕ) (m : Marks) (d : Dance)
    → Digits inout m (9 * 10 + 0 + 1) (9 * 9 + 0) d
    → Ends (for_below 81 (cell_rows inout m) d) (λ e. e.cur_node ≤ max_nodes)
rows_few inout m d h =
    let (e, ran, rows) =
      for_below-Rows inout m d.columns h.cells h.digits d
        (record { started = h.started; few = omega (arith, h.few); same = refl }) in
    (e, ran, omega (arith, rows.few))

-- The matrix of a board has no more nodes than there is room for.
pub dance_few : (inout : ℕ → ℕ) → Ends (dance inout) (λ e. e.cur_node ≤ max_nodes)
unfolding dance new_column empty_dance
dance_few inout = Ends-bind (columns_done inout) (λ e. rows_few inout (marks_of 81 inout) e)
