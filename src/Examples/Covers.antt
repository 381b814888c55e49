-- ===== src/Examples/Covers.antt =====
-- Columns and rows of Lab1/sudoku_dancing_links.cpp at concrete inputs.
use cloud_computing.Prelude.{
  ℕ, Bool, true, false, Option, none, some, List, [], ◌∷◌, ◌≡◌, ◌≢◌, refl, ◌+◌, ◌*◌, ◌/◌, ◌%◌, ◌==◌,
  if◌then◌else◌, arith, ◌>>=◌,
}
use cloud_computing.Dance.{Dance, cover, uncover}
use cloud_computing.Dance.Build.{
  new_column, append_column, new_row, put_left, empty_dance, for_below, cell_column, digit_columns,
  cell_rows, marks_of, dance, find_spaces,
}
use cloud_computing.Dance.Solve.{solve, solve_sudoku_dancing_links}
use cloud_computing.Dance.WellFormed.{IsWellFormed}
use cloud_computing.Dance.Built.{dance-IsWellFormed}
use cloud_computing.Dance.Spaces.{AreSpaces, find_spaces-AreSpaces}
use cloud_computing.Dance.Undo.{IsColumn, uncover-cover}

-- Two columns, 1 and 2, and two rows that have a node in each.
unfoldable matrix : Option Dance
unfolding new_column append_column new_row put_left empty_dance
matrix = do
  (r, d0) ← new_column 0 (empty_dance (λ n. 0))
  d1 ← append_column 5 d0
  d2 ← append_column 106 d1
  (a, d3) ← new_row 5 d2
  (b, d4) ← new_row 106 d3
  (x, d5) ← new_row 5 d4
  (y, d6) ← new_row 106 d5
  some (put_left x y (put_left a b d6))

abbrev from_some : Option Dance → Dance
from_some none = empty_dance (λ n. 0)
from_some (some d) = d

abbrev nodes_of : ℕ → List ℕ
nodes_of r = if r == 3 then 4 ∷ [] else 6 ∷ []

unfoldable pub links : Dance
unfolding matrix
links = from_some matrix

apart : (a b : ℕ) → (a == b) ≡ false → a ≢ b
apart a b h e = ground arith

links-IsColumn : IsColumn nodes_of 1 (3 ∷ 5 ∷ []) links
unfolding links
links-IsColumn = record {
  down = (refl, apart 3 1 refl, (refl, apart 5 1 refl, refl));
  up = (refl, apart 5 1 refl, (refl, apart 3 1 refl, refl));
  across = (
    ((refl, apart 4 3 refl, refl), (refl, apart 4 3 refl, refl)),
    (((refl, apart 6 5 refl, refl), (refl, apart 6 5 refl, refl)), tt),
  );
  free = (
    record { up_down = refl; down_up = refl },
    (apart 6 4 refl, tt),
    (record { up_down = refl; down_up = refl }, tt, tt),
  );
  apart = (
    (apart 1 6 refl, (apart 1 4 refl, tt)),
    ((apart 3 6 refl, (apart 3 4 refl, tt)), ((apart 5 6 refl, (apart 5 4 refl, tt)), tt)),
  );
  left_right = refl;
  right_left = refl;
  headers = (
    ((apart 3 0 refl, apart 3 2 refl), ((apart 4 0 refl, apart 4 2 refl), tt)),
    (((apart 5 0 refl, apart 5 2 refl), ((apart 6 0 refl, apart 6 2 refl), tt)), tt),
  );
}

uncover-cover_example : (cover 9 1 links >>= uncover 9 1) ≡ some links
uncover-cover_example =
    uncover-cover nodes_of 1 links 9 (3 ∷ 5 ∷ []) links-IsColumn (omega arith)
      (omega arith, (omega arith, tt))

-- The answer, the chosen rows and the digit of cell 5.
abbrev seen : Bool × Dance → Bool × List ℕ × ℕ
seen (found, d) = (found, d.stack, d.inout 5)

solve_runs : (solve 5 50 links >>= λ r. some (seen r)) ≡ some (true, 3 ∷ [], 6)
unfolding solve links
solve_runs = refl

-- A board whose cell 80 is empty, the cells of each row being shifted digits.
abbrev pub puzzle : ℕ → ℕ
puzzle i = if i == 80 then 0 else (i / 9 * 3 + i / 27 + i) % 9 + 1

abbrev digit : Bool × (ℕ → ℕ) → Bool × ℕ
digit (found, board) = (found, board 80)

solve_sudoku_runs :
    (solve_sudoku_dancing_links 5 50 puzzle >>= λ r. some (digit r)) ≡ some (true, 8)
unfolding solve_sudoku_dancing_links dance empty_dance new_column for_below cell_column
    digit_columns cell_rows marks_of
solve_sudoku_runs = refl

dance-IsWellFormed_example : (d : Dance) × (dance puzzle ≡ some d) × IsWellFormed d
dance-IsWellFormed_example = dance-IsWellFormed puzzle

find_spaces-AreSpaces_example :
    AreSpaces 81 puzzle
      (λ i. 0)
      (find_spaces 81 puzzle (λ i. 0)).0
      (find_spaces 81 puzzle (λ i. 0)).1
find_spaces-AreSpaces_example = find_spaces-AreSpaces 81 puzzle (λ i. 0)
