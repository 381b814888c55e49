-- ===== src/Dance/Build.antt =====
-- Lab1/sudoku_dancing_links.cpp: the constructor of `Dance`, from a board whose values are digits (as
-- `input` asserts), and `input` with `find_spaces`.
use cloud_computing.Prelude.{
  ℕ, zero, suc, ◌+◌, ◌-◌, ◌*◌, ◌/◌, ◌%◌, Bool, true, false, not, ◌&&◌, ◌||◌, Option, none, some, [],
  ltb, leb, ◌==◌, update, check, ◌>>=◌, ◌>>◌, if◌then◌else◌,
}
use cloud_computing.Std.Int.{pos}
use cloud_computing.Dance.{Dance, root, max_nodes, inc}

abbrev pub is_none : Option ℕ → Bool
is_none none = true
is_none (some c) = false

unfoldable pub put_left : ℕ → ℕ → Dance → Dance
put_left old nnew d = record d {
  left = update (update d.left nnew (d.left old)) old nnew;
  right = update (update d.right nnew old) (d.left old) nnew;
}

unfoldable pub put_up : ℕ → ℕ → Dance → Dance
put_up old nnew d = record d {
  up = update (update d.up nnew (d.up old)) old nnew;
  down = update (update d.down nnew old) (d.up old) nnew;
  size = update d.size old (inc (d.size old));
  col = update d.col nnew old;
}

-- A node that is alone in its row and its column
unfoldable pub lone : ℕ → ℕ → ℕ → Dance → Dance
lone c col n d = record d {
  left = update d.left c c;
  right = update d.right c c;
  up = update d.up c c;
  down = update d.down c c;
  col = update d.col c col;
  name = update d.name c n;
  size = update d.size c (pos 0);
  cur_node = d.cur_node + 1;
}

unfoldable pub new_column : ℕ → Dance → Option (ℕ × Dance)
unfolding lone
new_column n d =
    check (ltb d.cur_node max_nodes) >> some (d.cur_node, lone d.cur_node d.cur_node n d)

unfoldable pub append_column : ℕ → Dance → Option Dance
unfolding new_column put_left
append_column n d = check (is_none (d.columns n)) >> (do
  (c, e) ← new_column n d
  (let f = put_left root c e in some (record f { columns = update f.columns n (some c) })))

unfoldable pub new_row : ℕ → Dance → Option (ℕ × Dance)
unfolding lone put_up
new_row col d = do
  c ← d.columns col
  (let r = d.cur_node in check (ltb r max_nodes) >> some (r, put_up c r (lone r c col d)))

unfoldable pub get_row_col : ℕ → ℕ → ℕ
get_row_col row val = 100 + row * 10 + val

unfoldable pub get_col_col : ℕ → ℕ → ℕ
get_col_col col val = 200 + col * 10 + val

unfoldable pub get_box_col : ℕ → ℕ → ℕ
get_box_col box val = 300 + box * 10 + val

-- The tables `rows`, `cols` and `boxes` of the digits that a unit has.
pub record Marks : Type 0 where
  pub rows : ℕ → ℕ → Bool
  pub cols : ℕ → ℕ → Bool
  pub boxes : ℕ → ℕ → Bool

unfoldable pub box_of : ℕ → ℕ
box_of i = i / 9 / 3 * 3 + i % 9 / 3

unfoldable pub add_mark : (ℕ → ℕ) → ℕ → Marks → Marks
unfolding box_of
add_mark inout i m = record m {
  rows = update m.rows (i / 9) (update (m.rows (i / 9)) (inout i) true);
  cols = update m.cols (i % 9) (update (m.cols (i % 9)) (inout i) true);
  boxes = update m.boxes (box_of i) (update (m.boxes (box_of i)) (inout i) true);
}

unfoldable pub marks_of : ℕ → (ℕ → ℕ) → Marks
unfolding add_mark
marks_of zero inout = record {
  rows = λ row val. false;
  cols = λ col val. false;
  boxes = λ box val. false;
}
marks_of (suc i) inout = add_mark inout i (marks_of i inout)

-- `for (i = 0; i < n; ++i) body`, which ends at the first failed `assert`
unfoldable pub for_below : ℕ → (ℕ → Dance → Option Dance) → Dance → Option Dance
for_below zero body d = some d
for_below (suc n) body d = for_below n body d >>= body n

unfoldable pub cell_column : (ℕ → ℕ) → ℕ → Dance → Option Dance
unfolding append_column
cell_column inout i d = if inout i == 0 then append_column i d else some d

unfoldable pub missing_column : Bool → ℕ → Dance → Option Dance
unfolding append_column
missing_column marked n d = if marked then some d else append_column n d

-- The columns for the digit `v`, which is `k + 1`
unfoldable pub digit_columns : Marks → ℕ → ℕ → Dance → Option Dance
unfolding missing_column get_row_col get_col_col get_box_col
digit_columns m i k d =
    let v = k + 1 in
    missing_column (m.rows i v) (get_row_col i v) d
    >>= missing_column (m.cols i v) (get_col_col i v)
    >>= missing_column (m.boxes i v) (get_box_col i v)

unfoldable pub add_rows : ℕ → ℕ → Dance → Option Dance
unfolding new_row put_left get_row_col get_col_col get_box_col box_of
add_rows i v d = do
  (n0, d0) ← new_row i d
  (nr, d1) ← new_row (get_row_col (i / 9) v) d0
  (nc, d2) ← new_row (get_col_col (i % 9) v) d1
  (nb, d3) ← new_row (get_box_col (box_of i) v) d2
  some (put_left n0 nb (put_left n0 nc (put_left n0 nr d3)))

unfoldable pub digit_rows : Marks → ℕ → ℕ → Dance → Option Dance
unfolding add_rows box_of
digit_rows m i k d =
    let v = k + 1 in
    if not (m.rows (i / 9) v || m.cols (i % 9) v || m.boxes (box_of i) v)
    then add_rows i v d
    else some d

unfoldable pub cell_rows : (ℕ → ℕ) → Marks → ℕ → Dance → Option Dance
unfolding for_below digit_rows
cell_rows inout m i d = if inout i == 0 then for_below 9 (digit_rows m i) d else some d

unfoldable pub empty_dance : (ℕ → ℕ) → Dance
empty_dance inout = record {
  left = λ n. 0;
  right = λ n. 0;
  up = λ n. 0;
  down = λ n. 0;
  col = λ n. 0;
  name = λ n. 0;
  size = λ n. pos 0;
  columns = λ n. none;
  cur_node = 0;
  stack = [];
  inout = inout;
}

-- `Dance::Dance`
unfoldable pub dance : (ℕ → ℕ) → Option Dance
dance inout =
    let m = marks_of 81 inout in
    new_column 0 (empty_dance inout)
    >>= (λ (r, d). for_below 81 (cell_column inout) d)
    >>= for_below 9 (λ i. for_below 9 (digit_columns m i))
    >>= for_below 81 (cell_rows inout m)

-- `spaces` and `nspaces` after the first `cell` rounds
unfoldable pub find_spaces : ℕ → (ℕ → ℕ) → (ℕ → ℕ) → (ℕ → ℕ) × ℕ
find_spaces zero board spaces = (spaces, 0)
find_spaces (suc cell) board spaces =
    let (found, nspaces) = find_spaces cell board spaces in
    if board cell == 0 then (update found nspaces cell, nspaces + 1) else (found, nspaces)

-- The digits of the first `cell` characters; 48 is `'0'`.
unfoldable pub read_cells : ℕ → (ℕ → ℕ) → (ℕ → ℕ) → Option (ℕ → ℕ)
read_cells zero cs board = some board
read_cells (suc cell) cs board = do
  done ← read_cells cell cs board
  (check (leb 48 (cs cell) && leb (cs cell - 48) 9) >> some (update done cell (cs cell - 48)))

-- `input`
unfoldable pub input : (ℕ → ℕ) → (ℕ → ℕ) → (ℕ → ℕ) → Option ((ℕ → ℕ) × (ℕ → ℕ))
unfolding read_cells find_spaces
input cs board spaces = do
  done ← read_cells 81 cs board
  (let (found, nspaces) = find_spaces 81 done spaces in some (done, found))
