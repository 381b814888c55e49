-- ===== src/Dance/Table/Search.antt =====
-- `solve_sudoku_dancing_links` of Lab1/sudoku_dancing_links.cpp: the search of the matrix that the
-- constructor of `Dance` builds.
use cloud_computing.Prelude.{
  ℕ, zero, suc, ◌+◌, ◌-◌, ◌*◌, ◌%◌, ◌<◌, ◌≤◌, ◌≡◌, refl, sym, ap, subst, ◌∙◌, Option, ◌>>=◌, none,
  some, some_inj, List, All, [], ◌∷◌, ◌++◌, length, true, false, ltb, ◌==◌, arith, Bool-cases, inl,
  inr,
}
use cloud_computing.Dance.{Dance, max_nodes}
use cloud_computing.Dance.Build.{dance}
use cloud_computing.Dance.Solve.{solve_sudoku_dancing_links, cell_val, solve}
use cloud_computing.Dance.Search.Digits.{IsNode, AreNamed}
use cloud_computing.Dance.WellFormed.{IsWellFormed}
use cloud_computing.Dance.Built.{dance-IsWellFormed, dance_few}
use cloud_computing.Dance.Search.Cover.{IsMatrix}
use cloud_computing.Dance.Search.Step.{IsReady, Outcome}
use cloud_computing.Dance.Search.Solves.{HasNone, solve-Outcome}
use cloud_computing.Dance.Table.Heads.{heads, length-heads}
use cloud_computing.Dance.Table.Done.{AreNodes-IsLinkedMatrix, dance-AreUnits}
use cloud_computing.Dance.Table.Fours.{IsUnit, four_cases}
use cloud_computing.Dance.Table.Mates.{first_of, mates, mates-AreRows}
use cloud_computing.Dance.Table.Ready.{first_of-IsUnit, table-IsFull, table-IsRow}
use cloud_computing.Dance.Table.Nodes.{AreNodes, nodes_in, mem-nodes_in}

read_cell :
    (n x y : ℕ) (d : Dance) (val : Option ℕ)
    → d.name x < 100
    → d.right x ≡ y
    → cell_val (suc n) d none val x ≡ cell_val n d (some (d.name x)) val y
unfolding cell_val
read_cell n x y d val lt to =
    let small : ltb (d.name x) 100 ≡ true = ground arith in rw (cell_val, small, to) refl

read_val :
    (n x y : ℕ) (d : Dance) (val : Option ℕ)
    → 100 ≤ d.name x
    → d.right x ≡ y
    → cell_val (suc n) d none val x ≡ cell_val n d none (some (d.name x % 10)) y
unfolding cell_val
read_val n x y d val le to =
    let large : ltb (d.name x) 100 ≡ false = ground arith in rw (cell_val, large, to) refl

read_last :
    (n x cell : ℕ) (d : Dance)
    → 100 ≤ d.name x
    → cell_val (suc (suc n)) d (some cell) none x ≡ some (cell, d.name x % 10)
unfolding cell_val
read_last n x cell d le =
    let large : ltb (d.name x) 100 ≡ false = ground arith in rw (cell_val, large) refl

read_both :
    (n x cell val : ℕ) (d : Dance) → cell_val (suc n) d (some cell) (some val) x ≡ some (cell, val)
unfolding cell_val
read_both n x cell val d = refl

-- The cell and the digit of a row, as its nodes name them
abbrev pub digit_of : ℕ → Dance → ℕ → ℕ × ℕ
digit_of base d x = (d.name (first_of base x), d.name (first_of base x + 1) % 10)

-- The cell and the digit are found from any node of the row.
unit_named :
    (n r : ℕ) (d : Dance)
    → IsUnit r d
    → (x : ℕ) → r ≤ x
    → x < r + 4
    → cell_val (suc (suc (suc (suc (suc n))))) d none none x ≡ some (d.name r, d.name (r + 1) % 10)
unit_named n r d u =
    let (r0, r1, r2, r3) = u.rights in
    let cell : d.name r < 100 = omega (arith, u.cell) in
    let v1 : 100 ≤ d.name (r + 1) = omega (arith, u.in_row.0) in
    let v2 : 100 ≤ d.name (r + 2) = omega (arith, u.in_col.0) in
    let v3 : 100 ≤ d.name (r + 3) = omega (arith, u.in_box.0) in
    let same : d.name (r + 3) % 10 ≡ d.name (r + 1) % 10 = u.in_box.2 ∙ sym u.in_row.2 in
    let pair : some (d.name r, d.name (r + 3) % 10) ≡ some (d.name r, d.name (r + 1) % 10) =
      ap (λ v. some (d.name r, v)) same in
    four_cases r
      (λ x.
        cell_val (suc (suc (suc (suc (suc n))))) d none none x
        ≡ some (d.name r, d.name (r + 1) % 10))
      (read_cell _ r (r + 1) d none cell r0 ∙ read_last _ (r + 1) (d.name r) d v1)
      (read_val _ (r + 1) (r + 2) d none v1 r1
        ∙ read_val _ (r + 2) (r + 3) d _ v2 r2
        ∙ read_val _ (r + 3) r d _ v3 r3
        ∙ read_cell _ r (r + 1) d _ cell r0
        ∙ read_both _ (r + 1) (d.name r) _ d
        ∙ pair)
      (read_val _ (r + 2) (r + 3) d none v2 r2
        ∙ read_val _ (r + 3) r d _ v3 r3
        ∙ read_cell _ r (r + 1) d _ cell r0
        ∙ read_both _ (r + 1) (d.name r) _ d
        ∙ pair)
      (read_val _ (r + 3) r d none v3 r3
        ∙ read_cell _ r (r + 1) d _ cell r0
        ∙ read_both _ (r + 1) (d.name r) _ d
        ∙ pair)

module _ (m q n : ℕ) (d : Dance) (nodes : AreNodes m (4 * q) d)
    (units : (j : ℕ) → j < q → IsUnit (m + 1 + 4 * j) d) where
  pub table-AreNamed :
      AreNamed (m + 1) (m + 1 + 4 * q) (suc (suc (suc (suc (suc n))))) (digit_of (m + 1) d) d
  table-AreNamed x (lo, hi) =
      unit_named n (first_of (m + 1) x) d (first_of-IsUnit m q d nodes units x lo hi) x
        (omega arith) (omega arith)

length-nodes_in : (col : ℕ → ℕ) (c base k : ℕ) → length (nodes_in col c base k) ≤ k
length-nodes_in col c base zero = omega arith
length-nodes_in col c base (suc k) = elim (Bool-cases (col (base + k) == c)) [
  | inl e ↦ rw e (
      omega (
        arith,
        length-append (nodes_in col c base k) ((base + k) ∷ []),
        length-nodes_in col c base k,
      ))
  | inr e ↦ rw e (omega (arith, length-nodes_in col c base k))
]
  where
    length-append : (xs ys : List ℕ) → length (xs ++ ys) ≡ length xs + length ys
    length-append [] ys = omega arith
    length-append (x ∷ xs) ys = omega (arith, length-append xs ys)

module _ (m q rounds : ℕ) (d : Dance) (well : IsWellFormed d) (nodes : AreNodes m (4 * q) d)
    (units : (j : ℕ) → j < q → IsUnit (m + 1 + 4 * j) d) (enough : m + 4 * q + 5 ≤ rounds) where
  table-IsMatrix :
      IsMatrix
        (mates (m + 1) q)
        (m + 1)
        (m + 1 + 4 * q)
        rounds
        d.col
        (heads m)
        (λ c. nodes_in d.col c (m + 1) (4 * q))
        d
  table-IsMatrix = record {
    linked = AreNodes-IsLinkedMatrix m (4 * q) d well nodes;
    full = table-IsFull m q d nodes units;
    around = table-IsRow m q d nodes units;
    below = λ c x at is. ground (arith, mem-nodes_in d.col c (m + 1) (4 * q) x, is);
    short = λ c at. omega (arith, length-nodes_in d.col c (m + 1) (4 * q));
    few = omega (arith, length-heads m);
  }

  pub table-IsReady :
      (three : 3 ≤ rounds)
      → IsReady
          (mates (m + 1) q)
          (m + 1)
          (m + 1 + 4 * q)
          rounds
          d.col
          (digit_of (m + 1) d)
          (mates-AreRows (m + 1) q rounds three)
          (heads m)
          (λ c. nodes_in d.col c (m + 1) (4 * q))
          d
  table-IsReady three = record {
    matrix = table-IsMatrix;
    named =
        let all : suc (suc (suc (suc (suc (rounds - 5))))) ≡ rounds = omega arith in
        subst (λ z. AreNamed (m + 1) (m + 1 + 4 * q) z (digit_of (m + 1) d) d) all
          (table-AreNamed m q (rounds - 5) d nodes units);
    chosen = subst (All (IsNode (m + 1) (m + 1 + 4 * q))) (sym nodes.fresh) tt;
  }

pub three_rounds : (rounds : ℕ) → max_nodes + 5 ≤ rounds → 3 ≤ rounds
three_rounds rounds long = omega (arith, long)

-- What becomes of a board: the constructor ends in `state`, whose links stand for the matrix of the
-- headers 1 to `m` with `q` rows of four nodes behind them, each header with exactly the nodes whose
-- column it is, and the search from there ends in the outcome.
pub record IsSearched (inout : ℕ → ℕ) (depth rounds : ℕ) (three : 3 ≤ rounds) : Type 0 where
  pub state : Dance
  pub built : dance inout ≡ some state
  pub m : ℕ
  pub q : ℕ
  pub counted : state.cur_node ≡ m + 1 + 4 * q
  pub rows : (j : ℕ) → j < q → IsUnit (m + 1 + 4 * j) state
  pub ready :
      IsReady
        (mates (m + 1) q)
        (m + 1)
        (m + 1 + 4 * q)
        rounds
        state.col
        (digit_of (m + 1) state)
        (mates-AreRows (m + 1) q rounds three)
        (heads m)
        (λ c. nodes_in state.col c (m + 1) (4 * q))
        state
  pub outcome :
      Outcome
        (mates (m + 1) q)
        (m + 1)
        (m + 1 + 4 * q)
        rounds
        state.col
        (digit_of (m + 1) state)
        (mates-AreRows (m + 1) q rounds three)
        (heads m)
        (λ c. nodes_in state.col c (m + 1) (4 * q))
        state
        state
        (HasNone
          (mates (m + 1) q)
          (m + 1)
          (m + 1 + 4 * q)
          rounds
          state.col
          (digit_of (m + 1) state)
          (mates-AreRows (m + 1) q rounds three)
          (heads m)
          (λ c. nodes_in state.col c (m + 1) (4 * q)))
        (solve depth rounds state)
  pub answer :
      solve_sudoku_dancing_links depth rounds inout
      ≡ (solve depth rounds state >>= λ (found, e). some (found, e.inout))

-- The constructor ends for any board, its links stand for a matrix of whole rows, four nodes each, that
-- are named by a cell and a digit, and the search of that very matrix ends, when `depth` is no less
-- than the number of nodes there is room for, and `rounds` exceeds that by 5 at least. Either the
-- search answers false, no rows of the matrix meet every column exactly once, and the state is as
-- before; or it answers true, rows that meet every column exactly once are on the stack, and their
-- digits are on the board. The answer and the board are those of `solve_sudoku_dancing_links`.
pub dance-IsSearched :
    (inout : ℕ → ℕ) (depth rounds : ℕ)
    → max_nodes ≤ depth
    → (long : max_nodes + 5 ≤ rounds) → IsSearched inout depth rounds (three_rounds rounds long)
unfolding solve_sudoku_dancing_links
dance-IsSearched inout depth rounds deep long =
    let (d, ran, well) = dance-IsWellFormed inout in
    let (e, ran2, few) = dance_few inout in
    let small : d.cur_node ≤ max_nodes =
      subst (λ f. f.cur_node ≤ max_nodes) (some_inj (sym ran2 ∙ ran)) few in
    let (m, (q, k, h)) = dance-AreUnits inout d ran in
    let nodes : AreNodes m (4 * q) d = subst (λ z. AreNodes m z d) h.whole h.nodes in
    let three = three_rounds rounds long in
    let ready =
      table-IsReady m q rounds d well nodes h.units (omega (arith, nodes.count, small, long))
        three in
    record {
      state = d;
      built = ran;
      m = m;
      q = q;
      counted = nodes.count;
      rows = h.units;
      ready = ready;
      outcome =
          solve-Outcome (mates (m + 1) q) (m + 1) (m + 1 + 4 * q) rounds d.col (digit_of (m + 1) d)
            (mates-AreRows (m + 1) q rounds three) depth (heads m)
            (λ c. nodes_in d.col c (m + 1) (4 * q)) d ready
            (omega (arith, length-heads m, nodes.count, small, deep));
      answer = rw ran refl;
    }
