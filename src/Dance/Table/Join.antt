-- ===== src/Dance/Table/Join.antt =====
-- The four nodes of a row that the constructor of `Dance` in Lab1/sudoku_dancing_links.cpp joins.
use cloud_computing.Prelude.{ℕ, suc, ◌+◌, ◌%◌, ◌<◌, ◌≤◌, ◌≡◌, refl, sym, ap, subst, ◌∙◌, arith}
use cloud_computing.Dance.{Dance}
use cloud_computing.Dance.Build.{put_left}
use cloud_computing.Dance.Matrix.{left-put_left}
use cloud_computing.Dance.Table.Nodes.{AreNodes}
use cloud_computing.Dance.Table.Fours.{IsUnit, Agree, four_cases}
use cloud_computing.Dance.Table.Units.{IsAdded, put_left-AreNodes}

-- The first `hi` nodes have the columns and names in `e` that they have in `d`.
record SameNames (hi : ℕ) (d e : Dance) : Type 0 where
  col : (x : ℕ) → x < hi → e.col x ≡ d.col x
  name : (x : ℕ) → x < hi → e.name x ≡ d.name x

-- Later nodes change neither.
later-SameNames :
    (m k n hi r : ℕ) (c d e : Dance)
    → hi ≤ m + 1 + k
    → SameNames hi c d
    → IsAdded m k n d r e
    → SameNames hi c e
later-SameNames m k n hi r c d e le s a = record {
  col = λ x lt. a.col x (λ same. omega (arith, same, a.here)) ∙ s.col x lt;
  name = λ x lt. ground (arith, a.name x, a.here, s.name x);
}

-- The new node has the number of its column as its name, and keeps it.
added_names :
    (m k n r : ℕ) (d e f : Dance)
    → IsAdded m k n d r e
    → SameNames (m + 1 + suc k) e f
    → (f.name (f.col (m + 1 + k)) ≡ n) × (f.name (m + 1 + k) ≡ n)
added_names m k n r d e f a s =
    let low = (a.nodes.under (m + 1 + k) (omega arith) (omega arith)).1 in
    let at : e.name (e.col (m + 1 + k)) ≡ n = ap (λ z. e.name (e.col z)) (sym a.here) ∙ a.titled in
    (
      ap f.name (s.col (m + 1 + k) (omega arith))
          ∙ s.name (e.col (m + 1 + k)) (omega (arith, low))
          ∙ at,
      ground (arith, s.name (m + 1 + k), a.name (m + 1 + k), a.here),
    )

pub joined-AreNodes :
    (m k na nd ne nf n0 nr nc nb : ℕ) (d d0 d1 d2 d3 : Dance)
    → IsAdded m k na d n0 d0
    → IsAdded m (suc k) nd d0 nr d1
    → IsAdded m (suc (suc k)) ne d1 nc d2
    → IsAdded m (suc (suc (suc k))) nf d2 nb d3
    → AreNodes m (suc (suc (suc (suc k)))) (put_left n0 nb (put_left n0 nc (put_left n0 nr d3)))
joined-AreNodes m k na nd ne nf n0 nr nc nb d d0 d1 d2 d3 a0 a1 a2 a3 =
    let left3 : d3.left n0 ≡ n0 =
      ground (
        arith,
        a0.left n0,
        a1.left n0,
        a2.left n0,
        a3.left n0,
        a0.here,
        a1.here,
        a2.here,
        a3.here,
      ) in
    put_left-AreNodes m (suc (suc (suc (suc k)))) n0 nb (put_left n0 nc (put_left n0 nr d3))
      (put_left-AreNodes m (suc (suc (suc (suc k)))) n0 nc (put_left n0 nr d3)
        (put_left-AreNodes m (suc (suc (suc (suc k)))) n0 nr d3 a3.nodes (omega (arith, a1.here))
          (omega (arith, left3, a0.here)))
        (omega (arith, a2.here)) (omega (arith, left-put_left n0 nr d3, a1.here)))
      (omega (arith, a3.here)) (omega (arith, left-put_left n0 nc (put_left n0 nr d3), a2.here))

module _ (m k na nd ne nf n0 nr nc nb : ℕ) (d d0 d1 d2 d3 : Dance) (a0 : IsAdded m k na d n0 d0)
    (a1 : IsAdded m (suc k) nd d0 nr d1) (a2 : IsAdded m (suc (suc k)) ne d1 nc d2)
    (a3 : IsAdded m (suc (suc (suc k))) nf d2 nb d3) where
  -- The four nodes when they have been joined
  abbrev pub four : Dance
  four = put_left n0 nb (put_left n0 nc (put_left n0 nr d3))

  col_own : (x : ℕ) → x < m + 1 + k → four.col x ≡ d.col x
  unfolding put_left
  col_own x lt =
      a3.col x (λ e. omega (arith, e, a3.here))
      ∙ a2.col x (λ e. omega (arith, e, a2.here))
      ∙ a1.col x (λ e. omega (arith, e, a1.here))
      ∙ a0.col x (λ e. omega (arith, e, a0.here))

  pub four-Agree : Agree (m + 1 + k) d four
  unfolding put_left
  four-Agree = record {
    right = λ x lt. ground (
      arith,
      a0.left n0,
      a1.left n0,
      a2.left n0,
      a3.left n0,
      a0.right x,
      a1.right x,
      a2.right x,
      a3.right x,
      a0.here,
      a1.here,
      a2.here,
      a3.here,
    );
    left = λ x lt.
        ground
          (arith, a0.left x, a1.left x, a2.left x, a3.left x, a0.here, a1.here, a2.here, a3.here);
    col = col_own;
    name = λ x lt.
        ground
          (arith, a0.name x, a1.name x, a2.name x, a3.name x, a0.here, a1.here, a2.here, a3.here);
  }

  same_from : (hi : ℕ) (c : Dance) → SameNames hi c d3 → SameNames hi c four
  unfolding put_left
  same_from hi c s = record { col = s.col; name = s.name }

  itself : (hi : ℕ) (c : Dance) → SameNames hi c c
  itself hi c = record { col = λ x lt. refl; name = λ x lt. refl }

  names0 : (four.name (four.col (m + 1 + k)) ≡ na) × (four.name (m + 1 + k) ≡ na)
  names0 = added_names m k na n0 d d0 four a0 (
      same_from (m + 1 + suc k) d0 (
        later-SameNames m _ nf _ nb d0 d2 d3 (omega arith)
          (later-SameNames m _ ne _ nc d0 d1 d2 (omega arith)
            (later-SameNames m _ nd _ nr d0 d0 d1 (omega arith) (itself _ d0) a1) a2)
          a3))

  names1 : (four.name (four.col (m + 1 + suc k)) ≡ nd) × (four.name (m + 1 + suc k) ≡ nd)
  names1 = added_names m (suc k) nd nr d0 d1 four a1 (
      same_from (m + 1 + suc (suc k)) d1 (
        later-SameNames m _ nf _ nb d1 d2 d3 (omega arith)
          (later-SameNames m _ ne _ nc d1 d1 d2 (omega arith) (itself _ d1) a2) a3))

  names2 :
      (four.name (four.col (m + 1 + suc (suc k))) ≡ ne) × (four.name (m + 1 + suc (suc k)) ≡ ne)
  names2 = added_names m (suc (suc k)) ne nc d1 d2 four a2 (
      same_from (m + 1 + suc (suc (suc k))) d2
        (later-SameNames m _ nf _ nb d2 d2 d3 (omega arith) (itself _ d2) a3))

  names3 :
      (four.name (four.col (m + 1 + suc (suc (suc k)))) ≡ nf)
      × (four.name (m + 1 + suc (suc (suc k))) ≡ nf)
  names3 =
      added_names m (suc (suc (suc k))) nf nb d2 d3 four a3
        (same_from (m + 1 + suc (suc (suc (suc k)))) d3 (itself _ d3))

  start_alone : d3.left n0 ≡ n0
  start_alone =
      ground
        (arith, a0.left n0, a1.left n0, a2.left n0, a3.left n0, a0.here, a1.here, a2.here, a3.here)

  four-rights :
      (four.right (m + 1 + k) ≡ m + 1 + k + 1)
      × (four.right (m + 1 + k + 1) ≡ m + 1 + k + 2)
      × (four.right (m + 1 + k + 2) ≡ m + 1 + k + 3)
      × (four.right (m + 1 + k + 3) ≡ m + 1 + k)
  unfolding put_left
  four-rights = (
    ground (arith, start_alone, a0.here, a1.here, a2.here, a3.here),
    ground (arith, start_alone, a0.here, a1.here, a2.here, a3.here),
    ground (arith, start_alone, a0.here, a1.here, a2.here, a3.here),
    ground (arith, start_alone, a0.here, a1.here, a2.here, a3.here),
  )

  four-lefts :
      (four.left (m + 1 + k) ≡ m + 1 + k + 3)
      × (four.left (m + 1 + k + 1) ≡ m + 1 + k)
      × (four.left (m + 1 + k + 2) ≡ m + 1 + k + 1)
      × (four.left (m + 1 + k + 3) ≡ m + 1 + k + 2)
  unfolding put_left
  four-lefts = (
    ground (arith, start_alone, a0.here, a1.here, a2.here, a3.here),
    ground (arith, start_alone, a0.here, a1.here, a2.here, a3.here),
    ground (arith, start_alone, a0.here, a1.here, a2.here, a3.here),
    ground (arith, start_alone, a0.here, a1.here, a2.here, a3.here),
  )

  pub four-IsUnit :
      (v : ℕ)
      → na < 81
      → (100 ≤ nd) × (nd < 200) × (nd % 10 ≡ v)
      → (200 ≤ ne) × (ne < 300) × (ne % 10 ≡ v)
      → (300 ≤ nf) × (nf < 400) × (nf % 10 ≡ v)
      → IsUnit (m + 1 + k) four
  four-IsUnit v ha hd he hf =
      let e1 : m + 1 + suc k ≡ m + 1 + k + 1 = omega arith in
      let e2 : m + 1 + suc (suc k) ≡ m + 1 + k + 2 = omega arith in
      let e3 : m + 1 + suc (suc (suc k)) ≡ m + 1 + k + 3 = omega arith in
      record {
        rights = four-rights;
        lefts = four-lefts;
        titled = λ x lo lt.
            four_cases (m + 1 + k) (λ y. four.name (four.col y) ≡ four.name y)
              (names0.0 ∙ sym names0.1)
              (subst (λ y. four.name (four.col y) ≡ four.name y) e1 (names1.0 ∙ sym names1.1))
              (subst (λ y. four.name (four.col y) ≡ four.name y) e2 (names2.0 ∙ sym names2.1))
              (subst (λ y. four.name (four.col y) ≡ four.name y) e3 (names3.0 ∙ sym names3.1)) x lo
              lt;
        cell = rw names0.1 ha;
        digit = v;
        in_row = rw (sym e1, names1.1) hd;
        in_col = rw (sym e2, names2.1) he;
        in_box = rw (sym e3, names3.1) hf;
      }
