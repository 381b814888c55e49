-- ===== src/Dance/Search/Exact.antt =====
-- What `solve` of Lab1/sudoku_dancing_links.cpp looks for: rows that meet every column once.
use cloud_computing.Prelude.{
  ℕ, ◌≡◌, ◌≤◌, ap, true, false, not, ◌&&◌, List, All, [], ◌∷◌, ◌++◌, length, ◌==◌, ==_iff,
  Bool-cases, inl, inr, arith,
}
use cloud_computing.Dance.Search.Members.{
  mem, remove, without, Distinct, Distinct-append, mem-append, mem-remove, mem-without,
  length-remove,
}
use cloud_computing.Dance.Search.Linked.{Inside}
use cloud_computing.Dance.Search.Full.{AreRows, rest_of}
use cloud_computing.Dance.Search.Choose.{Choosable, hs_left, vs_left}

module _ (nodes : ℕ → List ℕ) (col : ℕ → ℕ) where
  abbrev pub cols_of : List ℕ → List ℕ
  cols_of [] = []
  cols_of (j ∷ js) = col j ∷ cols_of js

  -- The columns that rows meet
  abbrev pub met : List ℕ → List ℕ
  met [] = []
  met (r ∷ rs) = (col r ∷ cols_of (nodes r)) ++ met rs

  pub record IsExactCover (hs : List ℕ) (vs : ℕ → List ℕ) (rs : List ℕ) : Type 0 where
    pub inside : All (Inside col hs vs) rs
    pub once : Distinct (met rs)
    pub every : (c : ℕ) → mem c (met rs) ≡ mem c hs

  pub mem-hs_left :
      (x : ℕ) (js hs : List ℕ)
      → mem x (hs_left nodes col js hs) ≡ (mem x hs && not (mem x (cols_of js)))
  mem-hs_left x [] hs = ground arith
  mem-hs_left x (j ∷ js) hs = ground (
    arith,
    mem-hs_left x js (remove (col j) hs),
    mem-remove (col j) x hs,
    ==_iff x (col j),
    ==_iff (col j) x,
  )

  mem-vs_left :
      (x y : ℕ) (js : List ℕ) (vs : ℕ → List ℕ)
      → mem y (vs_left nodes col js vs x) ≡ true
      → mem y (vs x) ≡ true
  mem-vs_left x y [] vs e = e
  mem-vs_left x y (j ∷ js) vs e = ground (
    arith,
    mem-vs_left x y js (λ x. without (rest_of nodes (col j) vs) (vs x)) e,
    mem-without (rest_of nodes (col j) vs) y (vs x),
  )

  pub length-hs_left : (js hs : List ℕ) → length (hs_left nodes col js hs) ≤ length hs
  length-hs_left [] hs = omega arith
  length-hs_left (j ∷ js) hs =
      omega (arith, length-hs_left js (remove (col j) hs), length-remove (col j) hs)

module _ (nodes : ℕ → List ℕ) (base top rounds : ℕ) (col : ℕ → ℕ)
    (rows : AreRows nodes base top rounds) where
  cols_of-among :
      (x : ℕ) (js hs : List ℕ)
      → Choosable nodes base top rounds col rows js hs
      → mem x (cols_of nodes col js) ≡ true
      → mem x hs ≡ true
  cols_of-among x [] hs ok e = absurd (let both : false ≡ true = e in cc)
  cols_of-among x (j ∷ js) hs (at, le, ok) e = elim (Bool-cases (x == col j)) [
    | inl same ↦ rw ((==_iff x (col j)).0 same) at
    | inr other ↦
        ground
          (arith, cols_of-among x js (remove (col j) hs) ok (ground arith), mem-remove (col j) x hs)
  ]

  not_among :
      (c : ℕ) (js hs : List ℕ)
      → Choosable nodes base top rounds col rows js (remove c hs)
      → mem c (cols_of nodes col js) ≡ false
  not_among c js hs ok = elim (Bool-cases (mem c (cols_of nodes col js))) [
    | inr e ↦ e
    | inl e ↦ ground (arith, cols_of-among c js (remove c hs) ok e, mem-remove c c hs)
  ]

  Distinct-cols_of :
      (js hs : List ℕ)
      → Choosable nodes base top rounds col rows js hs
      → Distinct (cols_of nodes col js)
  Distinct-cols_of [] hs ok = tt
  Distinct-cols_of (j ∷ js) hs (at, le, ok) =
      (not_among (col j) js hs ok, Distinct-cols_of js (remove (col j) hs) ok)

  module _ (c r : ℕ) (hs : List ℕ) (vs : ℕ → List ℕ)
      (ok : Choosable nodes base top rounds col rows (nodes r) (remove c hs)) where
    -- The columns that are left when the row has been chosen
    mem-left :
        (x : ℕ)
        → mem x (hs_left nodes col (nodes r) (remove c hs))
          ≡ (mem x hs && not (c == x) && not (mem x (cols_of nodes col (nodes r))))
    mem-left x = ground (arith, mem-hs_left nodes col x (nodes r) (remove c hs), mem-remove c x hs)

    left-Inside :
        (x : ℕ)
        → Inside col
            (hs_left nodes col (nodes r) (remove c hs))
            (vs_left nodes col (nodes r) (λ y. without (rest_of nodes c vs) (vs y)))
            x
        → Inside col hs vs x
    left-Inside x (there, has) = (
      ground (arith, mem-left (col x)),
      ground (
        arith,
        mem-without (rest_of nodes c vs) x (vs (col x)),
        mem-vs_left nodes col (col x) x (nodes r) (λ y. without (rest_of nodes c vs) (vs y)) has,
      ),
    )

    all-Inside :
        (rs : List ℕ)
        → All
            (Inside col
              (hs_left nodes col (nodes r) (remove c hs))
              (vs_left nodes col (nodes r) (λ y. without (rest_of nodes c vs) (vs y))))
            rs
        → All (Inside col hs vs) rs
    all-Inside [] all = tt
    all-Inside (x ∷ rs) (is, all) = (left-Inside x is, all-Inside rs all)

  -- A row of the column, and rows that meet what is left when the row has been chosen
  pub IsExactCover-step :
      (c r : ℕ) (hs : List ℕ) (vs : ℕ → List ℕ) (rs : List ℕ)
      → mem c hs ≡ true
      → mem r (vs c) ≡ true
      → col r ≡ c
      → Choosable nodes base top rounds col rows (nodes r) (remove c hs)
      → IsExactCover nodes col
          (hs_left nodes col (nodes r) (remove c hs))
          (vs_left nodes col (nodes r) (λ x. without (rest_of nodes c vs) (vs x)))
          rs
      → IsExactCover nodes col hs vs (r ∷ rs)
  IsExactCover-step c r hs vs rs at inside own ok exact = record {
    inside = ((rw own at, rw own inside), all-Inside c r hs vs ok rs exact.inside);
    once = rw own (
      ground (
        arith,
        mem-append c (cols_of nodes col (nodes r)) (met nodes col rs),
        exact.every c,
        mem-left c r hs vs ok c,
        not_among c (nodes r) hs ok,
      ),
      Distinct-append (cols_of nodes col (nodes r)) (met nodes col rs)
          (Distinct-cols_of (nodes r) (remove c hs) ok) exact.once
          (λ z e. ground (arith, exact.every z, mem-left c r hs vs ok z, e)),
    );
    every = λ x. rw own (
        ground (
          arith,
          mem-append x (cols_of nodes col (nodes r)) (met nodes col rs),
          exact.every x,
          mem-left c r hs vs ok x,
          cols_of-among x (nodes r) (remove c hs) ok,
          mem-remove c x hs,
          at,
          ==_iff x c,
          ap (λ z. mem z hs),
        ));
  }
