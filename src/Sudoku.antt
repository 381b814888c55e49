-- ===== src/Sudoku.antt =====
-- Lab1: `init_neighbors` and `solved` of Lab1/neighbor.cpp, and `getJob` of Lab1/main.cpp. A board is
-- the function from the 81 cells to their values; a failed `assert` is `none`.
pub mod HandOut
pub mod Units
pub mod Rules
use cloud_computing.Prelude.{
  ℕ, zero, suc, ◌+◌, ◌*◌, ◌/◌, Bool, true, false, not, ◌&&◌, Option, none, some, List, [], ◌∷◌,
  ◌++◌, length, ltb, leb, ◌==◌, check, update, ◌>>=◌, ◌>>◌, if◌then◌else◌, ◌≡◌, refl,
}

abbrev pub num : ℕ
num = 9

abbrev pub n : ℕ
n = 81

abbrev pub neighbor : ℕ
neighbor = 20

-- `adjacent[row][col]`
abbrev pub Adjacent : Type 0
Adjacent = ℕ → ℕ → Bool

unfoldable pub mark_cell : ℕ → ℕ → Adjacent → Adjacent
mark_cell row col adjacent = λ y x. if (y == row) && (x == col) then true else adjacent y x

-- `rounds` rounds from `i` on
unfoldable pub mark_lines : ℕ → ℕ → ℕ → ℕ → Adjacent → Adjacent
unfolding mark_cell
mark_lines zero i row col adjacent = adjacent
mark_lines (suc rounds) i row col adjacent =
    mark_lines rounds (i + 1) row col (mark_cell i col (mark_cell row i adjacent))

unfoldable pub mark_box : ℕ → ℕ → Adjacent → Adjacent
unfolding mark_cell
mark_box top left adjacent = mark_cell (top + 2) (left + 2) (
    mark_cell (top + 2) (left + 1) (
      mark_cell (top + 2) left (
        mark_cell (top + 1) (left + 2) (
          mark_cell (top + 1) (left + 1) (
            mark_cell (top + 1) left (
              mark_cell top (left + 2)
                (mark_cell top (left + 1) (mark_cell top left adjacent))))))))

unfoldable pub mark_adjacent : Adjacent → ℕ → ℕ → Adjacent
unfolding mark_lines mark_box
mark_adjacent adjacent row col =
    mark_box ((row / 3) * 3) ((col / 3) * 3) (mark_lines num 0 row col adjacent)

-- The cells in the row `y` that are adjacent to another cell, behind those that were found before.
unfoldable pub collect_row : ℕ → ℕ → ℕ → Adjacent → ℕ → ℕ → List ℕ → Option (List ℕ)
collect_row zero x y adjacent row col found = some found
collect_row (suc rounds) x y adjacent row col found =
    if adjacent y x && not ((y == row) && (x == col))
    then (do
      check (ltb (length found) neighbor)
      collect_row rounds (x + 1) y adjacent row col (found ++ ((y * num + x) ∷ [])))
    else collect_row rounds (x + 1) y adjacent row col found

unfoldable pub collect_rows : ℕ → ℕ → Adjacent → ℕ → ℕ → List ℕ → Option (List ℕ)
unfolding collect_row
collect_rows zero y adjacent row col found = some found
collect_rows (suc rounds) y adjacent row col found = do
  more ← collect_row num 0 y adjacent row col found
  collect_rows rounds (y + 1) adjacent row col more

unfoldable pub collect_neighbors : Adjacent → ℕ → ℕ → Option (List ℕ)
unfolding collect_rows
collect_neighbors adjacent row col = do
  found ← collect_rows num 0 adjacent row col []
  check (length found == neighbor)
  some found

-- `neighbors[row*COL + col]` after `init_neighbors`
unfoldable pub neighbors_of : ℕ → ℕ → Option (List ℕ)
unfolding collect_neighbors mark_adjacent
neighbors_of row col = collect_neighbors (mark_adjacent (λ y x. false) row col) row col

-- `++occurs[val]` for each value
unfoldable pub tally : List ℕ → (ℕ → ℕ) → ℕ → ℕ
tally [] occurs = occurs
tally (val ∷ vals) occurs = tally vals (update occurs val (occurs val + 1))

-- `std::count(occurs, occurs+rounds, 1)`
unfoldable pub count_ones : ℕ → (ℕ → ℕ) → ℕ
count_ones zero occurs = 0
count_ones (suc rounds) occurs =
    if occurs rounds == 1 then count_ones rounds occurs + 1 else count_ones rounds occurs

unfoldable pub is_complete : List ℕ → Bool
unfolding tally count_ones
is_complete vals = count_ones 10 (tally vals (λ val. 0)) == num

abbrev pub Board : Type 0
Board = ℕ → ℕ

abbrev pub row_values : Board → ℕ → List ℕ
row_values board row =
    let at : ℕ → ℕ = λ col. board (row * num + col) in
    at 0 ∷ at 1 ∷ at 2 ∷ at 3 ∷ at 4 ∷ at 5 ∷ at 6 ∷ at 7 ∷ at 8 ∷ []

abbrev pub col_values : Board → ℕ → List ℕ
col_values board col =
    let at : ℕ → ℕ = λ row. board (row * num + col) in
    at 0 ∷ at 1 ∷ at 2 ∷ at 3 ∷ at 4 ∷ at 5 ∷ at 6 ∷ at 7 ∷ at 8 ∷ []

abbrev pub box_values : Board → ℕ → ℕ → List ℕ
box_values board row col =
    let at : ℕ → ℕ → ℕ = λ y x. board ((row + y) * num + (col + x)) in
    at 0 0 ∷ at 0 1 ∷ at 0 2 ∷ at 1 0 ∷ at 1 1 ∷ at 1 2 ∷ at 2 0 ∷ at 2 1 ∷ at 2 2 ∷ []

unfoldable pub in_range : List ℕ → Bool
in_range [] = true
in_range (val ∷ vals) = leb 1 val && (leb val num && in_range vals)

-- The first unit that is not complete ends the check.
unfoldable pub check_rows : ℕ → ℕ → Board → Option Bool
unfolding in_range is_complete
check_rows zero row board = some true
check_rows (suc rounds) row board = do
  check (in_range (row_values board row))
  (if is_complete (row_values board row) then check_rows rounds (row + 1) board else some false)

unfoldable pub check_cols : ℕ → ℕ → Board → Bool
unfolding is_complete
check_cols zero col board = true
check_cols (suc rounds) col board =
    is_complete (col_values board col) && check_cols rounds (col + 1) board

-- `rounds` boxes of the row of boxes at `row`, from `col` on
unfoldable pub check_box_row : ℕ → ℕ → ℕ → Board → Bool
unfolding is_complete
check_box_row zero row col board = true
check_box_row (suc rounds) row col board =
    is_complete (box_values board row col) && check_box_row rounds row (col + 3) board

unfoldable pub check_boxes : ℕ → ℕ → Board → Bool
unfolding check_box_row
check_boxes zero row board = true
check_boxes (suc rounds) row board =
    check_box_row 3 row 0 board && check_boxes rounds (row + 3) board

unfoldable pub solved : Board → Option Bool
unfolding check_rows check_cols check_boxes
solved board = do
  rows ← check_rows num 0 board
  some (rows && (check_cols num 0 board && check_boxes 3 0 board))

-- The counters that the workers share.
pub record Jobs : Type 0 where
  pub total : ℕ
  pub sid : ℕ
  pub shutdown : Bool

-- `none` is -1
unfoldable pub get_job : Jobs → Option ℕ × Jobs
get_job jobs = if leb jobs.total jobs.sid then (none, jobs) else (
  some jobs.sid,
  record jobs {
    sid = jobs.sid + 1;
    shutdown = if jobs.sid + 1 == jobs.total then true else jobs.shutdown;
  },
)

-- What happens to the counters, under the mutex: the reader adds a puzzle, or a worker asks for one.
pub data Event : Type 0 where
  add_puzzle ask_job : Event

abbrev pub hand_out : Option ℕ → List ℕ × Jobs → List ℕ × Jobs
hand_out none r = r
hand_out (some id) (ids, last) = (id ∷ ids, last)

-- The jobs that are handed out in a run, and the counters after it.
unfoldable pub run : List Event → Jobs → List ℕ × Jobs
unfolding get_job
run [] jobs = ([], jobs)
run (add_puzzle ∷ events) jobs = run events (record jobs { total = jobs.total + 1 })
run (ask_job ∷ events) jobs = let (job, after) = get_job jobs in hand_out job (run events after)
