-- ===== src/Sudoku/Rules.antt =====
-- `solved` decides the rules of the game: each row, column and box holds every digit once.
use cloud_computing.Prelude.{
  ℕ, zero, suc, ◌+◌, ◌*◌, ◌≤◌, ◌<◌, ◌≡◌, ◌↔◌, refl, Bool, true, false, ◌&&◌, inl, inr, some, List,
  [], ◌∷◌, ◌==◌, ==_iff, Bool-cases, if◌then◌else◌, arith, All,
}
use cloud_computing.Sudoku.{
  num, is_complete, Board, row_values, col_values, box_values, in_range, check_rows, check_cols,
  check_box_row, check_boxes, solved,
}
use cloud_computing.Sudoku.Units.{Complete, IsDigit, is_complete_iff}

-- `P` holds at `rounds` numbers from `start` on.
abbrev pub Interval : (ℕ → Type 0) → ℕ → ℕ → Type 0
Interval P rounds start = (i : ℕ) → start ≤ i → i < start + rounds → P i

Interval-suc :
    (P : ℕ → Type 0) (rounds start : ℕ)
    → P start
    → Interval P rounds (start + 1)
    → Interval P (suc rounds) start
Interval-suc P rounds start now later i lo hi = elim (Bool-cases (i == start)) [
  | inl e ↦ rw ((==_iff i start).0 e) now
  | inr e ↦ later i (ground arith) (omega arith)
]

-- One round of a loop that stops at the first failure.
and-Interval :
    (P : ℕ → Type 0) (rounds start : ℕ) (a b : Bool)
    → (a ≡ true) ↔ P start
    → (b ≡ true) ↔ Interval P rounds (start + 1)
    → ((a && b) ≡ true) ↔ Interval P (suc rounds) start
and-Interval P rounds start true b now later = (
  λ e. Interval-suc P rounds start (now.0 refl) (later.0 e),
  λ all. later.1 (λ i lo hi. all i (omega arith) (omega arith)),
)
and-Interval P rounds start false b now later =
    (λ e. absurd (cc), λ all. now.1 (all start (omega arith) (omega arith)))

if-and : (a b : Bool) → (if a then some b else some false) ≡ some (a && b)
if-and true b = refl
if-and false b = refl

and_true : (a b : Bool) → (a && b) ≡ true → (a ≡ true) × (b ≡ true)
and_true true b e = (refl, e)
and_true false b e = absurd (cc)

module _ (board : Board) (digits : (cell : ℕ) → cell < 81 → IsDigit (board cell)) where
  row_digits : (row : ℕ) → row < 9 → All IsDigit (row_values board row)
  row_digits row h = (
    digits _ (omega arith),
    (
      digits _ (omega arith),
      (
        digits _ (omega arith),
        (
          digits _ (omega arith),
          (
            digits _ (omega arith),
            (
              digits _ (omega arith),
              (digits _ (omega arith), (digits _ (omega arith), (digits _ (omega arith), tt))),
            ),
          ),
        ),
      ),
    ),
  )

  col_digits : (col : ℕ) → col < 9 → All IsDigit (col_values board col)
  col_digits col h = (
    digits _ (omega arith),
    (
      digits _ (omega arith),
      (
        digits _ (omega arith),
        (
          digits _ (omega arith),
          (
            digits _ (omega arith),
            (
              digits _ (omega arith),
              (digits _ (omega arith), (digits _ (omega arith), (digits _ (omega arith), tt))),
            ),
          ),
        ),
      ),
    ),
  )

  box_digits : (row col : ℕ) → row < 7 → col < 7 → All IsDigit (box_values board row col)
  box_digits row col h k = (
    digits _ (omega arith),
    (
      digits _ (omega arith),
      (
        digits _ (omega arith),
        (
          digits _ (omega arith),
          (
            digits _ (omega arith),
            (
              digits _ (omega arith),
              (digits _ (omega arith), (digits _ (omega arith), (digits _ (omega arith), tt))),
            ),
          ),
        ),
      ),
    ),
  )

  in_range-digits : (vals : List ℕ) → All IsDigit vals → in_range vals ≡ true
  unfolding in_range
  in_range-digits [] h = refl
  in_range-digits (v ∷ vals) (hv, h) = ground (arith, in_range-digits vals h)

  abbrev Rows : ℕ → Type 0
  Rows row = Complete (row_values board row)

  abbrev Cols : ℕ → Type 0
  Cols col = Complete (col_values board col)

  abbrev Boxes : ℕ → ℕ → Type 0
  Boxes row col = Complete (box_values board (3 * row) (3 * col))

  check_rows-Rows :
      (rounds row : ℕ)
      → row + rounds ≤ 9
      → (b : Bool) × (check_rows rounds row board ≡ some b)
        × ((b ≡ true) ↔ Interval Rows rounds row)
  unfolding check_rows
  check_rows-Rows zero row le = (true, refl, (λ e i lo hi. absurd (omega arith), λ r. refl))
  check_rows-Rows (suc rounds) row le =
      let digits_here = row_digits row (omega arith) in
      let one = is_complete_iff (row_values board row) digits_here in
      let (b, rest, iff) = check_rows-Rows rounds (row + 1) (omega arith) in
      (
        is_complete (row_values board row) && b,
        rw (in_range-digits (row_values board row) digits_here, rest)
            (if-and (is_complete (row_values board row)) b),
        and-Interval Rows rounds row (is_complete (row_values board row)) b one iff,
      )

  check_cols-Cols :
      (rounds col : ℕ)
      → col + rounds ≤ 9
      → (check_cols rounds col board ≡ true) ↔ Interval Cols rounds col
  unfolding check_cols
  check_cols-Cols zero col le = (λ e i lo hi. absurd (omega arith), λ r. refl)
  check_cols-Cols (suc rounds) col le =
      and-Interval Cols rounds col (is_complete (col_values board col))
        (check_cols rounds (col + 1) board)
        (is_complete_iff (col_values board col) (col_digits col (omega arith)))
        (check_cols-Cols rounds (col + 1) (omega arith))

  check_box_row-Boxes :
      (rounds row col : ℕ)
      → row < 3
      → col + rounds ≤ 3
      → (check_box_row rounds (3 * row) (3 * col) board ≡ true) ↔ Interval (Boxes row) rounds col
  unfolding check_box_row
  check_box_row-Boxes zero row col lt le = (λ e i lo hi. absurd (omega arith), λ r. refl)
  check_box_row-Boxes (suc rounds) row col lt le =
      let next : 3 * col + 3 ≡ 3 * (col + 1) = omega arith in
      and-Interval (Boxes row) rounds col (is_complete (box_values board (3 * row) (3 * col)))
        (check_box_row rounds (3 * row) (3 * col + 3) board)
        (is_complete_iff (box_values board (3 * row) (3 * col))
          (box_digits (3 * row) (3 * col) (omega arith) (omega arith)))
        (rw next (check_box_row-Boxes rounds row (col + 1) lt (omega arith)))

  check_boxes-Boxes :
      (rounds row : ℕ)
      → row + rounds ≤ 3
      → (check_boxes rounds (3 * row) board ≡ true)
        ↔ Interval (λ r. Interval (Boxes r) 3 0) rounds row
  unfolding check_boxes
  check_boxes-Boxes zero row le = (λ e i lo hi. absurd (omega arith), λ r. refl)
  check_boxes-Boxes (suc rounds) row le =
      let next : 3 * row + 3 ≡ 3 * (row + 1) = omega arith in
      and-Interval (λ r. Interval (Boxes r) 3 0) rounds row (check_box_row 3 (3 * row) 0 board)
        (check_boxes rounds (3 * row + 3) board)
        (check_box_row-Boxes 3 row 0 (omega arith) (omega arith))
        (rw next (check_boxes-Boxes rounds (row + 1) (omega arith)))

-- The rules of the game.
pub record Solved (board : Board) : Type 0 where
  pub rows : (row : ℕ) → row < 9 → Complete (row_values board row)
  pub cols : (col : ℕ) → col < 9 → Complete (col_values board col)
  pub boxes : (row col : ℕ) → row < 3 → col < 3 → Complete (box_values board (3 * row) (3 * col))

-- On a board of digits `solved` gives an answer, and the answer is yes exactly if each row, column and
-- box holds every digit once.
pub solved_iff :
    (board : Board)
    → ((cell : ℕ) → cell < 81 → IsDigit (board cell))
    → (b : Bool) × (solved board ≡ some b) × ((b ≡ true) ↔ Solved board)
unfolding solved
solved_iff board digits =
    let (r, rows, rows_iff) = check_rows-Rows board digits 9 0 (omega arith) in
    let cols_iff = check_cols-Cols board digits 9 0 (omega arith) in
    let boxes_iff = check_boxes-Boxes board digits 3 0 (omega arith) in
    (
      r && (check_cols num 0 board && check_boxes 3 0 board),
      rw rows,
      (
        λ e.
            let (row_ok, rest) = and_true r (check_cols num 0 board && check_boxes 3 0 board) e in
            let (col_ok, box_ok) = and_true (check_cols num 0 board) (check_boxes 3 0 board) rest in
            record {
              rows = λ i lt. rows_iff.0 row_ok i (omega arith) (omega arith);
              cols = λ i lt. cols_iff.0 col_ok i (omega arith) (omega arith);
              boxes = λ i j lt lt'.
                  boxes_iff.0 box_ok i (omega arith) (omega arith) j (omega arith) (omega arith);
            },
        λ s.
            let a = rows_iff.1 (λ i lo hi. s.rows i (omega arith)) in
            let b = cols_iff.1 (λ i lo hi. s.cols i (omega arith)) in
            let c = boxes_iff.1 (λ i lo hi j lo' hi'. s.boxes i j (omega arith) (omega arith)) in
            rw (a, b, c) refl,
      ),
    )
