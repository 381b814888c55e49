-- ===== src/Dance/Table/Whole.antt =====
-- The loops over cells and digits with which the constructor of `Dance` in Lab1/sudoku_dancing_links.cpp adds rows.
use cloud_computing.Prelude.{
  ℕ, suc, ◌+◌, ◌*◌, ◌/◌, ◌%◌, ◌<◌, ◌≤◌, ◌≡◌, refl, sym, subst, ◌∙◌, not, ◌||◌, some_inj, ltb, ◌==◌,
  arith, Bool-cases, inl, inr,
}
use cloud_computing.Dance.{Dance}
use cloud_computing.Dance.Build.{
  put_left, new_row, add_rows, digit_rows, cell_rows, Marks, box_of, get_row_col, get_col_col,
  get_box_col,
}
use cloud_computing.Dance.Table.Inverse.{Keeps, bind_then, for_below-Keeps}
use cloud_computing.Dance.Table.Nodes.{AreNodes}
use cloud_computing.Dance.Table.Fours.{IsUnit, IsUnit-Agree}
use cloud_computing.Dance.Table.Join.{joined-AreNodes, four-Agree, four-IsUnit}
use cloud_computing.Dance.Table.Units.{IsAdded, new_row-IsAdded}

-- Behind `m` headers, all nodes are in rows of four.
pub record AreUnits (m q k : ℕ) (d : Dance) : Type 0 where
  pub nodes : AreNodes m k d
  pub whole : k ≡ 4 * q
  pub units : (j : ℕ) → j < q → IsUnit (m + 1 + 4 * j) d

abbrev pub HasUnits : ℕ → Dance → Type 0
HasUnits m d = (q : ℕ) × (k : ℕ) × AreUnits m q k d

get_row_col-digit :
    (i v : ℕ)
    → i < 9
    → v ≤ 9
    → (100 ≤ get_row_col i v) × (get_row_col i v < 200) × (get_row_col i v % 10 ≡ v % 10)
unfolding get_row_col
get_row_col-digit i v lt le = (omega arith, omega arith, omega arith)

get_col_col-digit :
    (i v : ℕ)
    → i < 9
    → v ≤ 9
    → (200 ≤ get_col_col i v) × (get_col_col i v < 300) × (get_col_col i v % 10 ≡ v % 10)
unfolding get_col_col
get_col_col-digit i v lt le = (omega arith, omega arith, omega arith)

get_box_col-digit :
    (i v : ℕ)
    → i < 9
    → v ≤ 9
    → (300 ≤ get_box_col i v) × (get_box_col i v < 400) × (get_box_col i v % 10 ≡ v % 10)
unfolding get_box_col
get_box_col-digit i v lt le = (omega arith, omega arith, omega arith)

module _ (m i v q k n0 nr nc nb : ℕ) (d d0 d1 d2 d3 : Dance) (li : i < 81) (lv : v ≤ 9)
    (h : AreUnits m q k d) (a0 : IsAdded m k i d n0 d0)
    (a1 : IsAdded m (suc k) (get_row_col (i / 9) v) d0 nr d1)
    (a2 : IsAdded m (suc (suc k)) (get_col_col (i % 9) v) d1 nc d2)
    (a3 : IsAdded m (suc (suc (suc k))) (get_box_col (box_of i) v) d2 nb d3) where
  abbrev all_four : Dance
  all_four = put_left n0 nb (put_left n0 nc (put_left n0 nr d3))

  box_small : box_of i < 9
  unfolding box_of
  box_small = omega arith

  new-IsUnit : IsUnit (m + 1 + k) all_four
  new-IsUnit =
      four-IsUnit m k i _ _ _ n0 nr nc nb d d0 d1 d2 d3 a0 a1 a2 a3 (v % 10) li
        (get_row_col-digit (i / 9) v (omega arith) lv)
        (get_col_col-digit (i % 9) v (omega arith) lv) (get_box_col-digit (box_of i) v box_small lv)

  old-IsUnit : (j : ℕ) → j < q → IsUnit (m + 1 + 4 * j) all_four
  old-IsUnit j lt =
      IsUnit-Agree (m + 1 + 4 * j) (m + 1 + k) d all_four (omega (arith, h.whole))
        (λ x lo hi. omega (arith, (h.nodes.under x (omega arith) (omega (arith, h.whole))).1))
        (four-Agree m k i _ _ _ n0 nr nc nb d d0 d1 d2 d3 a0 a1 a2 a3) (h.units j lt)

  more-AreUnits : AreUnits m (suc q) (suc (suc (suc (suc k)))) all_four
  more-AreUnits = record {
    nodes = joined-AreNodes m k i _ _ _ n0 nr nc nb d d0 d1 d2 d3 a0 a1 a2 a3;
    whole = omega (arith, h.whole);
    units = λ j lt. elim (Bool-cases (ltb j q)) [
      | inl old ↦ old-IsUnit j (ground arith)
      | inr new ↦
          let here : m + 1 + k ≡ m + 1 + 4 * j = ground (arith, h.whole) in
          subst (λ r. IsUnit r all_four) here new-IsUnit
    ];
  }

add_rows-HasUnits : (m i v : ℕ) → i < 81 → v ≤ 9 → Keeps (HasUnits m) (add_rows i v)
unfolding add_rows
add_rows-HasUnits m i v li lv d e ran (q, k, h) =
    bind_then (new_row i d) _ e ran (λ (n0, d0) first rest0.
      let a0 = new_row-IsAdded m k i n0 d d0 h.nodes first in
      bind_then (new_row (get_row_col (i / 9) v) d0) _ e rest0 (λ (nr, d1) second rest1.
        let a1 = new_row-IsAdded m (suc k) _ nr d0 d1 a0.nodes second in
        bind_then (new_row (get_col_col (i % 9) v) d1) _ e rest1 (λ (nc, d2) third rest2.
          let a2 = new_row-IsAdded m (suc (suc k)) _ nc d1 d2 a1.nodes third in
          bind_then (new_row (get_box_col (box_of i) v) d2) _ e rest2 (λ (nb, d3) fourth last.
            let a3 = new_row-IsAdded m (suc (suc (suc k))) _ nb d2 d3 a2.nodes fourth in
            subst (HasUnits m) (some_inj last) (
              suc q,
              suc (suc (suc (suc k))),
              more-AreUnits m i v q k n0 nr nc nb d d0 d1 d2 d3 li lv h a0 a1 a2 a3,
            )))))

digit_rows-HasUnits :
    (m i k : ℕ) (marks : Marks) → i < 81 → k < 9 → Keeps (HasUnits m) (digit_rows marks i k)
unfolding digit_rows
digit_rows-HasUnits m i k marks li lk d e ran h =
    elim (Bool-cases (
      not (
        marks.rows (i / 9) (k + 1)
        || marks.cols (i % 9) (k + 1)
        || marks.boxes (box_of i) (k + 1)))) [
          | inl free ↦
              add_rows-HasUnits m i (k + 1) li (omega arith) d e
                (sym (rw (digit_rows, free) refl) ∙ ran) h
          | inr marked ↦ subst (HasUnits m) (some_inj (sym (rw (digit_rows, marked) refl) ∙ ran)) h
        ]

pub cell_rows-HasUnits :
    (m i : ℕ) (inout : ℕ → ℕ) (marks : Marks)
    → i < 81
    → Keeps (HasUnits m) (cell_rows inout marks i)
unfolding cell_rows
cell_rows-HasUnits m i inout marks li d e ran h = elim (Bool-cases (inout i == 0)) [
  | inl empty ↦
      for_below-Keeps (HasUnits m) 9 (digit_rows marks i)
        (λ k lt. digit_rows-HasUnits m i k marks li lt) d e (sym (rw (cell_rows, empty) refl) ∙ ran)
        h
  | inr full ↦ subst (HasUnits m) (some_inj (sym (rw (cell_rows, full) refl) ∙ ran)) h
]
