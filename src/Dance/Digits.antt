-- ===== src/Dance/Digits.antt =====
-- The columns for the digits of rows, columns and boxes that the constructor of `Dance` in
-- Lab1/sudoku_dancing_links.cpp appends. The columns of a kind are appended in the order of their
-- numbers.
use cloud_computing.Prelude.{
  ℕ, suc, ◌+◌, ◌*◌, ◌<◌, ◌≤◌, false, Option, none, ◌≡◌, ◌≢◌, ◌∙◌, ◌==◌, ==_iff, arith, ◌>>=◌,
  Bool-cases, inl, inr,
}
use cloud_computing.Dance.{Dance}
use cloud_computing.Dance.Build.{
  missing_column, digit_columns, for_below, get_row_col, get_col_col, get_box_col, Marks,
}
use cloud_computing.Dance.Columns.{Ends, for_below-Ends, Has, Started, missing_column_lem, Cells}

module _ (inout : ℕ → ℕ) (m : Marks) where
  -- The digit `v` has its columns where it is missing, `n` being `10 * i + v` for the unit `i`.
  abbrev pub HasDigit : (ℕ → Option ℕ) → ℕ → ℕ → ℕ → Type 0
  HasDigit columns i v n =
      (m.rows i v ≡ false → Has columns (100 + n))
      × (m.cols i v ≡ false → Has columns (200 + n))
      × (m.boxes i v ≡ false → Has columns (300 + n))

  -- The columns below the digit `t` have been appended, `3 * b` in number.
  pub record Digits (t b : ℕ) (d : Dance) : Type 0 where
    pub started : Started d
    pub few : d.cur_node ≤ 82 + 3 * b
    pub free :
        (n : ℕ)
        → t ≤ n
        → n < 100
        → (d.columns (100 + n) ≡ none) × (d.columns (200 + n) ≡ none) × (d.columns (300 + n) ≡ none)
    pub cells : (i : ℕ) → i < 81 → inout i ≡ 0 → Has d.columns i
    pub digits : (i v : ℕ) → 1 ≤ v → v ≤ 9 → i * 10 + v < t → HasDigit d.columns i v (i * 10 + v)

  three_columns :
      (i v t b : ℕ) (d : Dance)
      → i * 10 + v ≡ t
      → 1 ≤ v
      → v ≤ 9
      → i < 9
      → b < 81
      → Digits t b d
      → Ends
          (missing_column (m.rows i v) (100 + t) d
            >>= missing_column (m.cols i v) (200 + t)
            >>= missing_column (m.boxes i v) (300 + t))
          (Digits (t + 1) (b + 1))
  three_columns i v t b d at lo hi small few h =
      let (e, ran, a) =
        missing_column_lem (m.rows i v) (100 + t) d h.started (omega (arith, h.few))
          (h.free t (omega arith) (omega arith)).0 in
      let (f, ran2, a2) =
        missing_column_lem (m.cols i v) (200 + t) e a.started (omega (arith, h.few, a.few))
          (a.others (200 + t) (λ e. omega arith) ∙ (h.free t (omega arith) (omega arith)).1) in
      let (g, ran3, a3) =
        missing_column_lem (m.boxes i v) (300 + t) f a2.started
          (omega (arith, h.few, a.few, a2.few))
          (a2.others (300 + t) (λ e. omega arith)
            ∙ a.others (300 + t) (λ e. omega arith)
            ∙ (h.free t (omega arith) (omega arith)).2) in
      let keeps = λ (n : ℕ) (has : Has d.columns n). a3.keeps n (a2.keeps n (a.keeps n has)) in
      let others = λ (n : ℕ) (x : n ≢ 100 + t) (y : n ≢ 200 + t) (z : n ≢ 300 + t).
        a3.others n z ∙ a2.others n y ∙ a.others n x in
      (
        g,
        rw (ran, ran2) ran3,
        record {
          started = a3.started;
          few = omega (arith, h.few, a.few, a2.few, a3.few);
          free = λ n le lt. (
            others (100 + n) (λ e. omega arith) (λ e. omega arith) (λ e. omega arith)
                ∙ (h.free n (omega arith) lt).0,
            others (200 + n) (λ e. omega arith) (λ e. omega arith) (λ e. omega arith)
                ∙ (h.free n (omega arith) lt).1,
            others (300 + n) (λ e. omega arith) (λ e. omega arith) (λ e. omega arith)
                ∙ (h.free n (omega arith) lt).2,
          );
          cells = λ j below empty. keeps j (h.cells j below empty);
          digits = λ j w low high below. elim (Bool-cases (j * 10 + w == t)) [
            | inl same ↦
                let hit = (==_iff (j * 10 + w) t).0 same in
                let unit : j ≡ i = omega (arith, hit) in
                let digit : w ≡ v = omega (arith, hit) in
                rw (unit, digit, at)
                  (
                    λ e. a3.keeps (100 + t) (a2.keeps (100 + t) (a.here e)),
                    λ e. a3.keeps (200 + t) (a2.here e),
                    λ e. a3.here e,
                  )
            | inr other ↦
                let (x, y, z) = h.digits j w low high (ground arith) in
                (
                  λ e. keeps (100 + (j * 10 + w)) (x e),
                  λ e. keeps (200 + (j * 10 + w)) (y e),
                  λ e. keeps (300 + (j * 10 + w)) (z e),
                )
          ];
        },
      )

  digit_columns_lem :
      (i k : ℕ) (d : Dance)
      → i < 9
      → k < 9
      → Digits (i * 10 + k + 1) (9 * i + k) d
      → Ends (digit_columns m i k d) (Digits (i * 10 + suc k + 1) (9 * i + suc k))
  unfolding digit_columns get_row_col get_col_col get_box_col
  digit_columns_lem i k d li lk h =
      let t = i * 10 + k + 1 in
      let at : i * 10 + (k + 1) ≡ t = omega arith in
      let row : 100 + i * 10 + (k + 1) ≡ 100 + t = omega arith in
      let col : 200 + i * 10 + (k + 1) ≡ 200 + t = omega arith in
      let box : 300 + i * 10 + (k + 1) ≡ 300 + t = omega arith in
      let next : i * 10 + suc k + 1 ≡ t + 1 = omega arith in
      let count : 9 * i + suc k ≡ 9 * i + k + 1 = omega arith in
      rw (row, col, box, next, count)
        (three_columns i (k + 1) t (9 * i + k) d at (omega arith) (omega arith) li (omega arith) h)

  Digits-next :
      (i : ℕ) (d : Dance)
      → i < 9
      → Digits (i * 10 + 9 + 1) (9 * i + 9) d
      → Digits (suc i * 10 + 0 + 1) (9 * suc i + 0) d
  Digits-next i d li h = record {
    started = h.started;
    few = omega (arith, h.few);
    free = λ n le lt. h.free n (omega arith) lt;
    cells = h.cells;
    digits = λ j w low high below. h.digits j w low high (omega arith);
  }

  Cells-Digits : (d : Dance) → Cells inout 81 d → Digits (0 * 10 + 0 + 1) (9 * 0 + 0) d
  Cells-Digits d h = record {
    started = h.started;
    few = omega (arith, h.few);
    free = λ n le lt. (
      h.free (100 + n) (omega arith),
      h.free (200 + n) (omega arith),
      h.free (300 + n) (omega arith),
    );
    cells = h.cells;
    digits = λ j w low high below. absurd (omega arith);
  }

  pub for_below-Digits :
      (d : Dance)
      → Cells inout 81 d
      → Ends
          (for_below 9 (λ i. for_below 9 (digit_columns m i)) d)
          (Digits (9 * 10 + 0 + 1) (9 * 9 + 0))
  for_below-Digits d h =
      for_below-Ends (λ i. Digits (i * 10 + 0 + 1) (9 * i + 0)) 9
        (λ i. for_below 9 (digit_columns m i)) d
        (λ i e lt ready.
          let (g, ran, done) =
            for_below-Ends (λ k. Digits (i * 10 + k + 1) (9 * i + k)) 9 (digit_columns m i) e
              (λ k f lk at. digit_columns_lem i k f lt lk at) ready in
          (g, ran, Digits-next i g lt done))
        (Cells-Digits d h)
