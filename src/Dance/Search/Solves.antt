-- ===== src/Dance/Search/Solves.antt =====
-- `solve` of Lab1/sudoku_dancing_links.cpp on a matrix.
use cloud_computing.Prelude.{
  ℕ, zero, suc, ◌≡◌, ◌≢◌, ◌<◌, ◌≤◌, refl, sym, ap, subst, ◌∙◌, Bool, true, Option, some, List, All,
  [], ◌∷◌, length, arith, append-nil,
}
use cloud_computing.Dance.{Dance, root, cover, uncover}
use cloud_computing.Dance.Rows.{Chain, eq_true, eq_false, onto}
use cloud_computing.Dance.Solve.{try_rows, close_column, solve}
use cloud_computing.Dance.Search.Members.{mem, remove, without, length-remove-lt, All-mem, mem-All}
use cloud_computing.Dance.Search.Full.{AreRows, rest_of}
use cloud_computing.Dance.Search.Cover.{IsMatrix, with_stack, after_cover, cover_runs, uncover_runs}
use cloud_computing.Dance.Search.Choose.{hs_left, vs_left, choose_lem, take_back_lem}
use cloud_computing.Dance.Search.Choice.{after_cover-down}
use cloud_computing.Dance.Search.Least.{get_min_column_lem}
use cloud_computing.Dance.Search.Exact.{IsExactCover, length-hs_left}
use cloud_computing.Dance.Search.Digits.{write_all, fill_cells_lem, right-IsNode}
use cloud_computing.Dance.Search.Exchange.{has_choice}
use cloud_computing.Dance.Search.Step.{
  after_cover-stack, IsReady, Outcome, failed, solved, covered_matrix, row_ok, chosen-IsReady,
  IsSolved-step,
}

left_not_end :
    (g : ℕ → ℕ) (end x y : ℕ) (xs ys : List ℕ) → Chain g end x (onto xs (y ∷ ys)) → x ≢ end
left_not_end g end x y [] ys (here, ne, path) = λ e. ne (sym here ∙ e)
left_not_end g end x y (z ∷ xs) ys path = left_not_end g end x z xs (y ∷ ys) path

module _ (nodes : ℕ → List ℕ) (base top rounds : ℕ) (col : ℕ → ℕ) (digit : ℕ → ℕ × ℕ)
    (rows : AreRows nodes base top rounds) where
  -- `cover` and `uncover` on the state itself
  module _ (c : ℕ) (hs : List ℕ) (vs : ℕ → List ℕ) (at : mem c hs ≡ true) (d : Dance)
      (h : IsMatrix nodes base top rounds col hs vs d) where
    same_stack : with_stack d.stack (after_cover nodes c vs d) ≡ after_cover nodes c vs d
    same_stack =
        ap (λ t. with_stack t (after_cover nodes c vs d)) (sym (after_cover-stack nodes col c vs d))

    covers : cover rounds c d ≡ some (after_cover nodes c vs d)
    covers = cover_runs nodes base top rounds col rows c hs vs at d d.stack h ∙ ap some same_stack

    uncovers : uncover rounds c (after_cover nodes c vs d) ≡ some d
    uncovers =
        ap (uncover rounds c) (sym same_stack)
        ∙ uncover_runs nodes base top rounds col rows c hs vs at d d.stack h

  -- No rows meet every column once.
  abbrev pub HasNone : List ℕ → (ℕ → List ℕ) → Type 0
  HasNone hs vs = (rs : List ℕ) → ¬ IsExactCover nodes col hs vs rs

  module _ (c : ℕ) (hs : List ℕ) (vs : ℕ → List ℕ) (d : Dance) (at : mem c hs ≡ true)
      (ready : IsReady nodes base top rounds col digit rows hs vs d)
      (search : Dance → Option (Bool × Dance))
      (searches : (gs : List ℕ)
        → (us : ℕ → List ℕ) → (e : Dance) → IsReady nodes base top rounds col digit rows gs us e
        → length gs < length hs
        → Outcome nodes base top rounds col digit rows gs us e e (HasNone gs us) (search e)) where
    -- Nothing is left to find when the row has been chosen.
    abbrev RowFails : ℕ → Type 0
    RowFails r =
        HasNone (hs_left nodes col (nodes r) (remove c hs))
          (vs_left nodes col (nodes r) (λ x. without (rest_of nodes c vs) (vs x)))

    next_row :
        (r : ℕ) (rs : List ℕ) (o : Option (Bool × Dance))
        → RowFails r
        → Outcome nodes base top rounds col digit rows hs vs d
            (after_cover nodes c vs d)
            (All RowFails rs)
            o
        → Outcome nodes base top rounds col digit rows hs vs d
            (after_cover nodes c vs d)
            (All RowFails (r ∷ rs))
            o
    next_row r rs o lost (failed ran more) = failed ran (lost, more)
    next_row r rs o lost (solved e ran sol) = solved e ran sol

    try_rows_lem :
        (more row : ℕ) (xs : List ℕ)
        → Chain (after_cover nodes c vs d).down c row xs
        → length xs ≤ more
        → All (λ r. mem r (vs c) ≡ true) xs
        → Outcome nodes base top rounds col digit rows hs vs d
            (after_cover nodes c vs d)
            (All RowFails xs)
            (try_rows search rounds more c row (after_cover nodes c vs d))
    unfolding try_rows
    try_rows_lem zero row [] path fuel all = failed (rw (eq_true row c path, try_rows) refl) tt
    try_rows_lem (suc more) row [] path fuel all =
        failed (rw (eq_true row c path, try_rows) refl) tt
    try_rows_lem zero row (r ∷ rs) path fuel all = absurd (omega arith)
    try_rows_lem (suc more) row (r ∷ rs) (here, ne, path) fuel (inside, all) =
        let go = eq_false r c ne in
        let chosen =
          choose_lem nodes base top rounds col rows r (remove c hs) vs_left_here links
            (covered_matrix nodes base top rounds col digit rows c hs vs d at ready)
            (row_ok nodes base top rounds col digit rows c hs vs d at ready r inside)
            (ready.matrix.linked.high c r at inside) (ready.matrix.below c r at inside) in
        let back =
          take_back_lem nodes base top rounds col rows r (remove c hs) vs_left_here links
            (covered_matrix nodes base top rounds col digit rows c hs vs d at ready)
            (row_ok nodes base top rounds col digit rows c hs vs d at ready r inside)
            (ready.matrix.linked.high c r at inside) (ready.matrix.below c r at inside) in
        let shorter : length (hs_left nodes col (nodes r) (remove c hs)) < length hs =
          omega
            (arith, length-hs_left nodes col (nodes r) (remove c hs), length-remove-lt c hs at) in
        let rest = try_rows_lem more (links.down r) rs path (omega arith) all in
        subst
          (λ z.
            Outcome nodes base top rounds col digit rows hs vs d links (All RowFails (r ∷ rs))
              (try_rows search rounds (suc more) c z links))
          (sym here)
          (elim (searches _ _ _
            (chosen-IsReady nodes base top rounds col digit rows c hs vs d at ready r inside)
            shorter) [
              | solved e ran sol ↦ solved e (rw (try_rows, go, chosen, ran) refl) (
                  IsSolved-step nodes base top rounds col digit rows c hs vs d at ready r e inside
                    sol)
              | failed ran lost ↦ rw (try_rows, go, chosen, ran, back) (next_row r rs _ lost rest)
            ])
      where
        links : Dance
        links = after_cover nodes c vs d

        vs_left_here : ℕ → List ℕ
        vs_left_here x = without (rest_of nodes c vs) (vs x)

  -- From links that stand for a matrix of whole rows, whose nodes are named by cells and digits, the
  -- search always ends, when `depth` exceeds the number of columns and `rounds` is no less than the
  -- number of columns, than the nodes of any column and than the other nodes of any row. Either
  -- it answers false, no rows of the matrix meet every column exactly once, and every link, size, stack
  -- entry and cell is as before; or it answers true, rows of the matrix that meet every column exactly
  -- once have been put on the stack, and the board has the digits of all rows on the stack.
  pub solve-Outcome :
      (depth : ℕ) (hs : List ℕ) (vs : ℕ → List ℕ) (d : Dance)
      → IsReady nodes base top rounds col digit rows hs vs d
      → length hs < depth
      → Outcome nodes base top rounds col digit rows hs vs d d
          (HasNone hs vs)
          (solve depth rounds d)
  unfolding solve
  solve-Outcome zero hs vs d ready deep = absurd (omega arith)
  solve-Outcome (suc depth) [] vs d ready deep =
      let empty = eq_true (d.left root) root ready.matrix.linked.headers.back in
      let filled =
        fill_cells_lem base top rounds digit d.stack d ready.named
          (right-IsNode nodes base top rounds col digit rows [] vs d ready.matrix) ready.chosen in
      solved (record d { inout = write_all digit d.stack d.inout }) (rw (solve, empty, filled) refl)
        (record {
          solution = [];
          exact = record { inside = tt; once = tt; every = λ c. refl };
          stacked = sym (append-nil d.stack);
          written = ap (λ t. write_all digit t d.inout) (sym (append-nil d.stack));
        })
  solve-Outcome (suc depth) (x ∷ xs) vs d ready deep =
      let more =
        eq_false (d.left root) root
          (left_not_end d.left root (d.left root) x xs [] ready.matrix.linked.headers.back) in
      let (c, ran, at) =
        get_min_column_lem d rounds x xs ready.matrix.linked.headers.forth ready.matrix.few in
      let shut = covers c (x ∷ xs) vs at d ready.matrix in
      let reopened = uncovers c (x ∷ xs) vs at d ready.matrix in
      elim (try_rows_lem c (x ∷ xs) vs d at ready (solve depth rounds)
        (λ gs us e is lt. solve-Outcome depth gs us e is (omega arith)) rounds
        ((after_cover nodes c vs d).down c) (vs c)
        (after_cover-down nodes base top rounds col rows c (x ∷ xs) vs d ready.matrix at)
        (ready.matrix.short c at) (All-mem (λ r. mem r (vs c) ≡ true) (vs c) (λ r e. e))) [
          | solved e tried sol ↦
              solved e (rw (solve, more, ran, shut, tried, close_column) refl) sol
          | failed tried lost ↦
              failed (rw (solve, more, ran, shut, tried, close_column, reopened) refl) (λ rs exact.
                let got =
                  has_choice nodes base top rounds col rows c (x ∷ xs) vs ready.matrix.full
                    ready.matrix.linked.under at rs exact in
                mem-All
                  (λ r.
                    HasNone (hs_left nodes col (nodes r) (remove c (x ∷ xs)))
                      (vs_left nodes col (nodes r) (λ z. without (rest_of nodes c vs) (vs z))))
                  (vs c) got.row lost got.inside got.others got.exact)
        ]
