-- ===== src/Dance/Search/Least.antt =====
-- `get_min_column` of Lab1/sudoku_dancing_links.cpp.
use cloud_computing.Prelude.{
  ℕ, zero, suc, ◌≡◌, ◌≤◌, refl, sym, ◌∙◌, true, some, List, [], ◌∷◌, length, ==_iff, Bool-cases,
  inl, inr, arith,
}
use cloud_computing.Std.Int.{pos}
use cloud_computing.Dance.{Dance, root}
use cloud_computing.Dance.Rows.{Chain, eq_true, eq_false}
use cloud_computing.Dance.Solve.{gtb, min_column, get_min_column}
use cloud_computing.Dance.Search.Members.{mem}

-- The loop ends, at the column that it started with or at one of the list.
min_column_lem :
    (d : Dance) (rounds c cc : ℕ) (xs : List ℕ)
    → Chain d.right root cc xs
    → length xs ≤ rounds
    → (m : ℕ) × (min_column rounds d c cc ≡ some m) × (mem m (c ∷ xs) ≡ true)
unfolding min_column
min_column_lem d zero c cc [] path fuel =
    (c, rw (eq_true cc root path, min_column) refl, ground arith)
min_column_lem d (suc rounds) c cc [] path fuel =
    (c, rw (eq_true cc root path, min_column) refl, ground arith)
min_column_lem d zero c cc (x ∷ xs) path fuel = absurd (omega arith)
min_column_lem d (suc rounds) c cc (x ∷ xs) (here, ne, path) fuel =
    let go = eq_false cc root (λ e. ne (sym here ∙ e)) in
    let next : Chain d.right root (d.right cc) xs = rw here path in
    elim (Bool-cases (gtb (d.size c) (d.size cc))) [
      | inr e ↦
          let (m, ran, is) = min_column_lem d rounds c (d.right cc) xs next (omega arith) in
          (m, rw (go, e, min_column) ran, ground (arith, is))
      | inl e ↦ elim (Bool-cases (gtb (d.size cc) (pos 1))) [
        | inl more ↦
            let (m, ran, is) = min_column_lem d rounds cc (d.right cc) xs next (omega arith) in
            (m, rw (go, e, more, min_column) ran, ground (arith, is, ==_iff m cc, ==_iff m x))
        | inr least ↦ (cc, rw (go, e, least, min_column) refl, ground (arith, here))
      ]
    ]

pub get_min_column_lem :
    (d : Dance) (rounds x : ℕ) (xs : List ℕ)
    → Chain d.right root (d.right root) (x ∷ xs)
    → length (x ∷ xs) ≤ rounds
    → (m : ℕ) × (get_min_column rounds d ≡ some m) × (mem m (x ∷ xs) ≡ true)
unfolding get_min_column
get_min_column_lem d rounds x xs (here, ne, path) fuel =
    elim (Bool-cases (gtb (d.size (d.right root)) (pos 1))) [
      | inl e ↦
          let (m, ran, is) =
            min_column_lem d rounds (d.right root) (d.right (d.right root)) xs (rw here path)
              (omega arith) in
          (m, rw (e, get_min_column) ran, rw (sym here) is)
      | inr e ↦ (d.right root, rw (e, get_min_column) refl, ground (arith, here))
    ]
