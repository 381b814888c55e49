-- ===== src/Dance/Solve.antt =====
-- Lab1/sudoku_dancing_links.cpp: `get_min_column`, `solve` and `solve_sudoku_dancing_links`. A call of
-- `solve` covers a column, so `depth` bounds the calls that wait for one another.
use cloud_computing.Prelude.{
  ℕ, zero, suc, ◌%◌, Bool, true, false, Option, none, some, List, [], ◌∷◌, ◌++◌, ltb, ◌==◌, update,
  ◌>>=◌, if◌then◌else◌,
}
use cloud_computing.Std.Int.{ℤ, pos, negsuc}
use cloud_computing.Dance.{Dance, root, walk, cover, uncover}
use cloud_computing.Dance.Build.{dance}

-- `a > b`
abbrev pub gtb : ℤ → ℤ → Bool
gtb (pos a) (pos b) = ltb b a
gtb (pos a) (negsuc b) = true
gtb (negsuc a) (pos b) = false
gtb (negsuc a) (negsuc b) = ltb a b

-- The loop of `get_min_column`, with the `break`
unfoldable pub min_column : ℕ → Dance → ℕ → ℕ → Option ℕ
min_column zero d c cc = if cc == root then some c else none
min_column (suc rounds) d c cc = elim (cc == root) [
  | true ↦ some c
  | false ↦ elim (gtb (d.size c) (d.size cc)) [
    | true ↦ elim (gtb (d.size cc) (pos 1)) [
      | true ↦ min_column rounds d cc (d.right cc)
      | false ↦ some cc
    ]
    | false ↦ min_column rounds d c (d.right cc)
  ]
]

unfoldable pub get_min_column : ℕ → Dance → Option ℕ
unfolding min_column
get_min_column rounds d =
    let c = d.right root in
    if gtb (d.size c) (pos 1) then min_column rounds d c (d.right c) else some c

-- The loop that finds the cell and the digit of a row of the stack
unfoldable pub cell_val : ℕ → Dance → Option ℕ → Option ℕ → ℕ → Option (ℕ × ℕ)
cell_val rounds d (some cell) (some val) n = some (cell, val)
cell_val zero d cell val n = none
cell_val (suc rounds) d cell val n = elim (ltb (d.name n) 100) [
  | true ↦ cell_val rounds d (some (d.name n)) val (d.right n)
  | false ↦ cell_val rounds d cell (some (d.name n % 10)) (d.right n)
]

unfoldable pub fill_cells : ℕ → List ℕ → Dance → Option Dance
unfolding cell_val
fill_cells rounds [] d = some d
fill_cells rounds (n ∷ ns) d = do
  (cell, val) ← cell_val rounds d none none n
  fill_cells rounds ns (record d { inout = update d.inout cell val })

unfoldable pub pop_back : List ℕ → List ℕ
pop_back [] = []
pop_back (n ∷ []) = []
pop_back (n ∷ m ∷ ns) = n ∷ pop_back (m ∷ ns)

unfoldable pub choose : ℕ → ℕ → Dance → Option Dance
unfolding walk cover
choose rounds row d =
    let e = record d { stack = d.stack ++ (row ∷ []) } in
    walk (λ f. f.right) (λ j f. cover rounds (f.col j) f) rounds row (e.right row) e

unfoldable pub take_back : ℕ → ℕ → Dance → Option Dance
unfolding walk uncover pop_back
take_back rounds row d =
    let e = record d { stack = pop_back d.stack } in
    walk (λ f. f.left) (λ j f. uncover rounds (f.col j) f) rounds row (e.left row) e

-- The loop over the rows of a column, which ends when a row leads to a solution
unfoldable pub try_rows :
    (Dance → Option (Bool × Dance)) → ℕ → ℕ → ℕ → ℕ → Dance → Option (Bool × Dance)
unfolding choose take_back
try_rows search rounds zero col row d = if row == col then some (false, d) else none
try_rows search rounds (suc more) col row d = elim (row == col) [
  | true ↦ some (false, d)
  | false ↦ choose rounds row d >>= search >>= λ (found, e). elim found [
    | true ↦ some (true, e)
    | false ↦ take_back rounds row e >>= λ f. try_rows search rounds more col (f.down row) f
  ]
]

unfoldable pub close_column : ℕ → ℕ → Bool × Dance → Option (Bool × Dance)
unfolding uncover
close_column rounds col (true, d) = some (true, d)
close_column rounds col (false, d) = uncover rounds col d >>= λ e. some (false, e)

-- `Dance::solve`
unfoldable pub solve : ℕ → ℕ → Dance → Option (Bool × Dance)
unfolding fill_cells get_min_column cover try_rows close_column
solve zero rounds d = none
solve (suc depth) rounds d = elim (d.left root == root) [
  | true ↦ fill_cells rounds d.stack d >>= λ e. some (true, e)
  | false ↦ get_min_column rounds d >>= λ col. cover rounds col d >>= λ e.
      try_rows (solve depth rounds) rounds rounds col (e.down col) e >>= close_column rounds col
]

-- The answer and the board afterwards
unfoldable pub solve_sudoku_dancing_links : ℕ → ℕ → (ℕ → ℕ) → Option (Bool × (ℕ → ℕ))
unfolding dance solve
solve_sudoku_dancing_links depth rounds board = do
  d ← dance board
  (found, e) ← solve depth rounds d
  some (found, e.inout)
