-- ===== src/Dance/Search/Exchange.antt =====
-- Rows that meet every column once, and the column that `solve` of Lab1/sudoku_dancing_links.cpp tries.
use cloud_computing.Prelude.{
  ℕ, ◌≡◌, sym, ap, subst, ◌∙◌, true, false, ◌||◌, List, All, [], ◌∷◌, ◌++◌, ◌==◌, ==_iff,
  Bool-cases, inl, inr, arith,
}
use cloud_computing.Dance.Rows.{onto}
use cloud_computing.Dance.Search.Members.{
  mem, remove, without, Distinct, mem-append, mem-remove, mem-without, mem-onto, All-mem, mem-All,
}
use cloud_computing.Dance.Search.Linked.{Inside}
use cloud_computing.Dance.Search.Full.{AreRows, IsFull, rest_of, in_stack}
use cloud_computing.Dance.Search.Choose.{hs_left, vs_left}
use cloud_computing.Dance.Search.Exact.{met, cols_of, IsExactCover, mem-hs_left}
use cloud_computing.Dance.Search.Middle.{
  IsMiddle, middle_lem, row_cols, met-append, Meets, meets_lem, col-among, in_column, row_cols-met,
  row_cols-same,
}

module _ (nodes : ℕ → List ℕ) (base top rounds : ℕ) (col : ℕ → ℕ)
    (rows : AreRows nodes base top rounds) where
  -- The row of `y` has no node in the column `c`.
  abbrev Misses : ℕ → (ℕ → List ℕ) → ℕ → Type 0
  Misses c vs y = (r : ℕ) → mem r (vs c) ≡ true → mem y (nodes r) ≡ false

  Misses-rest_of :
      (c : ℕ) (vs : ℕ → List ℕ) (y : ℕ) → Misses c vs y → mem y (rest_of nodes c vs) ≡ false
  Misses-rest_of c vs y miss = elim (Bool-cases (mem y (rest_of nodes c vs))) [
    | inr e ↦ e
    | inl e ↦
        let got = in_stack nodes base top rounds y (onto (vs c) []) e in
        absurd (
          let both : true ≡ false =
            sym got.has ∙ miss got.row (ground (arith, got.among, mem-onto got.row (vs c) [])) in
          cc)
  ]

  stays_left :
      (js : List ℕ) (vs : ℕ → List ℕ) (x y : ℕ)
      → mem y (vs x) ≡ true
      → ((j : ℕ) → mem j js ≡ true → Misses (col j) vs y)
      → mem y (vs_left nodes col js vs x) ≡ true
  stays_left [] vs x y e miss = e
  stays_left (j ∷ js) vs x y e miss =
      let out = Misses-rest_of (col j) vs y (miss j (ground arith)) in
      stays_left js (λ z. without (rest_of nodes (col j) vs) (vs z)) x y
        (ground (arith, mem-without (rest_of nodes (col j) vs) y (vs x)))
        (λ k at r is.
          miss k (ground arith) r
            (ground (arith, mem-without (rest_of nodes (col j) vs) r (vs (col k)))))

  module _ (c : ℕ) (hs : List ℕ) (vs : ℕ → List ℕ) (full : IsFull nodes col hs vs)
      (under : (e x : ℕ) → mem e hs ≡ true → mem x (vs e) ≡ true → col x ≡ e)
      (at : mem c hs ≡ true) where
    -- Rows that meet what is left when a row of the column has been chosen
    pub record HasChoice : Type 0 where
      pub row : ℕ
      pub inside : mem row (vs c) ≡ true
      pub others : List ℕ
      pub exact :
          IsExactCover nodes col
            (hs_left nodes col (nodes row) (remove c hs))
            (vs_left nodes col (nodes row) (λ x. without (rest_of nodes c vs) (vs x)))
            others

    module _ (r : ℕ) (inside : mem r (vs c) ≡ true) (ys : List ℕ) (all : All (Inside col hs vs) ys)
        (apart : IsMiddle (met nodes col ys) (row_cols nodes col r))
        (every : (x : ℕ)
          → mem x hs ≡ (mem x (met nodes col ys) || mem x (row_cols nodes col r))) where
      here_is : Inside col hs vs r
      here_is = let own = under c r at inside in (rw own at, rw own inside)

      col-in : (j : ℕ) → mem j (r ∷ nodes r) ≡ true → mem (col j) (row_cols nodes col r) ≡ true
      col-in j e = elim (Bool-cases (j == r)) [
        | inl same ↦ ground (arith, ap col ((==_iff j r).0 same))
        | inr other ↦ ground (arith, col-among nodes col j (nodes r) (ground arith))
      ]

      row-Misses : (y j : ℕ) → mem y ys ≡ true → mem j (r ∷ nodes r) ≡ true → Misses (col j) vs y
      row-Misses y j among near q is = elim (Bool-cases (mem y (nodes q))) [
        | inr e ↦ e
        | inl e ↦
            let there : mem (col j) hs ≡ true = ground (arith, every (col j), col-in j near) in
            let own = under (col j) q there is in
            let back = col-among nodes col q (nodes y) (rows.back q y e) in
            let hit : mem (col j) (row_cols nodes col y) ≡ true =
              ground (arith, ap (λ z. mem z (cols_of nodes col (nodes y))) own, back) in
            let seen = row_cols-met nodes col y (col j) ys among hit in
            absurd (let both : true ≡ false = sym (col-in j near) ∙ apart.apart (col j) seen in cc)
      ]

      column-Misses : (y : ℕ) → mem y ys ≡ true → Misses c vs y
      column-Misses y among =
          subst (λ e. Misses e vs y) (under c r at inside) (row-Misses y r among (ground arith))

      every_left :
          (x : ℕ) → mem x (met nodes col ys) ≡ mem x (hs_left nodes col (nodes r) (remove c hs))
      every_left x =
          let own = under c r at inside in
          let which : (x == col r) ≡ (x == c) = ap (λ z. x == z) own in
          ground (
            arith,
            every x,
            apart.apart x,
            mem-hs_left nodes col x (nodes r) (remove c hs),
            mem-remove c x hs,
            which,
            ==_iff x c,
            ==_iff c x,
          )

      Inside-left :
          (y : ℕ)
          → mem y ys ≡ true
          → Inside col
              (hs_left nodes col (nodes r) (remove c hs))
              (vs_left nodes col (nodes r) (λ x. without (rest_of nodes c vs) (vs x)))
              y
      Inside-left y among = (
        sym (every_left (col y)) ∙ row_cols-met nodes col y (col y) ys among (ground arith),
        stays_left (nodes r) (λ x. without (rest_of nodes c vs) (vs x)) (col y) y
            (let has = mem-All (Inside col hs vs) ys y all among in
              let out = Misses-rest_of c vs y (column-Misses y among) in
              ground (arith, mem-without (rest_of nodes c vs) y (vs (col y)), has))
            (λ k at q is.
              row-Misses y k among (ground arith) q
                (ground (arith, mem-without (rest_of nodes c vs) q (vs (col k))))),
      )

      pub choice_lem : HasChoice
      choice_lem = record {
        row = r;
        inside = inside;
        others = ys;
        exact = record {
          inside = All-mem _ ys Inside-left;
          once = apart.distinct;
          every = every_left;
        };
      }

    -- The row of the column is taken out of an exact cover.
    module _ (rs : List ℕ) (exact : IsExactCover nodes col hs vs rs)
        (m : Meets nodes col c rs) where
      abbrev left_rows : List ℕ
      left_rows = m.front ++ m.behind

      split :
          met nodes col rs
          ≡ met nodes col m.front ++ (row_cols nodes col m.row ++ met nodes col m.behind)
      split = ap (met nodes col) m.parts ∙ met-append nodes col m.front (m.row ∷ m.behind)

      left-IsMiddle : IsMiddle (met nodes col left_rows) (row_cols nodes col m.row)
      left-IsMiddle =
          subst (λ t. IsMiddle t (row_cols nodes col m.row))
            (sym (met-append nodes col m.front m.behind))
            (middle_lem (met nodes col m.front) (row_cols nodes col m.row) (met nodes col m.behind)
              (subst Distinct split exact.once))

      left_every :
          (x : ℕ) → mem x hs ≡ (mem x (met nodes col left_rows) || mem x (row_cols nodes col m.row))
      left_every x = ground (
        arith,
        exact.every x,
        ap (mem x) split,
        ap (mem x) (met-append nodes col m.front m.behind),
        mem-append x (met nodes col m.front) (row_cols nodes col m.row ++ met nodes col m.behind),
        mem-append x (row_cols nodes col m.row) (met nodes col m.behind),
        mem-append x (met nodes col m.front) (met nodes col m.behind),
      )

      row_among : mem m.row rs ≡ true
      row_among =
          ground (arith, ap (mem m.row) m.parts, mem-append m.row m.front (m.row ∷ m.behind))

      left_among : (y : ℕ) → mem y left_rows ≡ true → mem y rs ≡ true
      left_among y e = ground (
        arith,
        ap (mem y) m.parts,
        mem-append y m.front (m.row ∷ m.behind),
        mem-append y m.front m.behind,
      )

      left_all : All (Inside col hs vs) left_rows
      left_all =
          All-mem (Inside col hs vs) left_rows
            (λ y e. mem-All (Inside col hs vs) rs y exact.inside (left_among y e))

      row_is : Inside col hs vs m.row
      row_is = mem-All (Inside col hs vs) rs m.row exact.inside row_among

      -- Another node of the row stands for the row.
      other_node : (k : ℕ) → mem k (nodes m.row) ≡ true → mem k (vs c) ≡ true → HasChoice
      other_node k near inside =
          let same = λ (x : ℕ). row_cols-same nodes col base top rounds rows m.row k x near in
          choice_lem k inside left_rows left_all
            (record {
              distinct = left-IsMiddle.distinct;
              apart = λ z e. same z ∙ left-IsMiddle.apart z e;
            })
            (λ x. left_every x ∙ ap (λ b. mem x (met nodes col left_rows) || b) (sym (same x)))

      choice_at : HasChoice
      choice_at = elim (Bool-cases (c == col m.row)) [
        | inl own ↦
            choice_lem m.row (ap (λ z. mem m.row (vs z)) ((==_iff c (col m.row)).0 own) ∙ row_is.1)
              left_rows left_all left-IsMiddle left_every
        | inr other ↦
            let got = in_column nodes col c (nodes m.row) (ground (arith, m.meets)) in
            let (there, has) = full.inside m.row got.node row_is got.among in
            other_node got.node got.among (ap (λ z. mem got.node (vs z)) (sym got.own) ∙ has)
      ]

    -- Where some rows meet every column once, one of them is in the column.
    pub has_choice : (rs : List ℕ) → IsExactCover nodes col hs vs rs → HasChoice
    has_choice rs exact = choice_at rs exact (meets_lem nodes col c rs (exact.every c ∙ at))
