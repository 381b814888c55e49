-- ===== src/Dance/Table/Fours.antt =====
-- The rows of four nodes that the constructor of `Dance` in Lab1/sudoku_dancing_links.cpp adds.
use cloud_computing.Prelude.{ℕ, ◌+◌, ◌%◌, ◌<◌, ◌≤◌, ◌≡◌, sym, ap, ◌∙◌, [], ◌∷◌, arith}
use cloud_computing.Dance.{Dance}
use cloud_computing.Dance.Search.Members.{mem-All}

-- The four nodes from `r` on are a row: a ring, in the columns of a cell and of a digit in its row, its
-- column and its box, with the numbers of the columns as names.
pub record IsUnit (r : ℕ) (d : Dance) : Type 0 where
  pub rights :
      (d.right r ≡ r + 1)
      × (d.right (r + 1) ≡ r + 2)
      × (d.right (r + 2) ≡ r + 3)
      × (d.right (r + 3) ≡ r)
  pub lefts :
      (d.left r ≡ r + 3)
      × (d.left (r + 1) ≡ r)
      × (d.left (r + 2) ≡ r + 1)
      × (d.left (r + 3) ≡ r + 2)
  pub titled : (x : ℕ) → r ≤ x → x < r + 4 → d.name (d.col x) ≡ d.name x
  pub cell : d.name r < 81
  pub digit : ℕ
  pub in_row : (100 ≤ d.name (r + 1)) × (d.name (r + 1) < 200) × (d.name (r + 1) % 10 ≡ digit)
  pub in_col : (200 ≤ d.name (r + 2)) × (d.name (r + 2) < 300) × (d.name (r + 2) % 10 ≡ digit)
  pub in_box : (300 ≤ d.name (r + 3)) × (d.name (r + 3) < 400) × (d.name (r + 3) % 10 ≡ digit)

-- The first `hi` nodes are in `e` what they are in `d`.
pub record Agree (hi : ℕ) (d e : Dance) : Type 0 where
  pub right : (x : ℕ) → x < hi → e.right x ≡ d.right x
  pub left : (x : ℕ) → x < hi → e.left x ≡ d.left x
  pub col : (x : ℕ) → x < hi → e.col x ≡ d.col x
  pub name : (x : ℕ) → x < hi → e.name x ≡ d.name x

pub IsUnit-Agree :
    (r hi : ℕ) (d e : Dance)
    → r + 4 ≤ hi
    → ((x : ℕ) → r ≤ x → x < r + 4 → d.col x < hi)
    → Agree hi d e
    → IsUnit r d
    → IsUnit r e
IsUnit-Agree r hi d e le low a u = record {
  rights = (
    a.right r (omega arith) ∙ u.rights.0,
    a.right (r + 1) (omega arith) ∙ u.rights.1,
    a.right (r + 2) (omega arith) ∙ u.rights.2,
    a.right (r + 3) (omega arith) ∙ u.rights.3,
  );
  lefts = (
    a.left r (omega arith) ∙ u.lefts.0,
    a.left (r + 1) (omega arith) ∙ u.lefts.1,
    a.left (r + 2) (omega arith) ∙ u.lefts.2,
    a.left (r + 3) (omega arith) ∙ u.lefts.3,
  );
  titled = λ x lo lt.
      ap e.name (a.col x (omega arith))
      ∙ a.name (d.col x) (low x lo lt)
      ∙ u.titled x lo lt
      ∙ sym (a.name x (omega arith));
  cell = rw (a.name r (omega arith)) u.cell;
  digit = u.digit;
  in_row = rw (a.name (r + 1) (omega arith)) u.in_row;
  in_col = rw (a.name (r + 2) (omega arith)) u.in_col;
  in_box = rw (a.name (r + 3) (omega arith)) u.in_box;
}

-- What holds of four nodes
pub four_cases :
    (r : ℕ) (P : ℕ → Type 0)
    → P r
    → P (r + 1)
    → P (r + 2)
    → P (r + 3)
    → (x : ℕ) → r ≤ x
    → x < r + 4
    → P x
four_cases r P p0 p1 p2 p3 x lo lt =
    mem-All P (r ∷ (r + 1) ∷ (r + 2) ∷ (r + 3) ∷ []) x (p0, (p1, (p2, (p3, tt)))) (ground arith)
