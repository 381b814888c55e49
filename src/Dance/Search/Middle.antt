-- ===== src/Dance/Search/Middle.antt =====
-- Columns that rows meet, and a row among others.
use cloud_computing.Prelude.{
  ℕ, ◌≡◌, refl, sym, ap, ◌∙◌, true, false, List, [], ◌∷◌, ◌++◌, ◌==◌, ==_iff, Bool-cases, inl, inr,
  arith, append_assoc,
}
use cloud_computing.Dance.Search.Members.{mem, Distinct, mem-append}
use cloud_computing.Dance.Search.Full.{AreRows}
use cloud_computing.Dance.Search.Exact.{met, cols_of}

pub record IsMiddle (a b : List ℕ) : Type 0 where
  pub distinct : Distinct a
  pub apart : (z : ℕ) → mem z a ≡ true → mem z b ≡ false

after_front : (b c : List ℕ) → Distinct (b ++ c) → IsMiddle c b
after_front [] c dist = record { distinct = dist; apart = λ z e. refl }
after_front (x ∷ b) c (out, dist) =
    let rest = after_front b c dist in
    record {
      distinct = rest.distinct;
      apart = λ z e.
          ground (arith, rest.apart z e, mem-append x b c, out, ==_iff z x, ap (λ y. mem y c));
    }

-- What is left when a part of different nodes is taken out has none of its nodes.
pub middle_lem : (a b c : List ℕ) → Distinct (a ++ (b ++ c)) → IsMiddle (a ++ c) b
middle_lem [] b c dist = after_front b c dist
middle_lem (x ∷ a) b c (out, dist) =
    let rest = middle_lem a b c dist in
    record {
      distinct = (
        ground (arith, mem-append x a (b ++ c), mem-append x b c, mem-append x a c),
        rest.distinct,
      );
      apart = λ z e. ground (
        arith,
        rest.apart z,
        mem-append x a (b ++ c),
        mem-append x b c,
        out,
        ==_iff z x,
        ap (λ y. mem y b),
      );
    }

module _ (nodes : ℕ → List ℕ) (col : ℕ → ℕ) where
  abbrev pub row_cols : ℕ → List ℕ
  row_cols r = col r ∷ cols_of nodes col (nodes r)

  pub met-append :
      (ps qs : List ℕ) → met nodes col (ps ++ qs) ≡ met nodes col ps ++ met nodes col qs
  met-append [] qs = refl
  met-append (p ∷ ps) qs =
      ap (λ t. row_cols p ++ t) (met-append ps qs)
      ∙ sym (append_assoc (row_cols p) (met nodes col ps) (met nodes col qs))

  -- A row that meets the column, with the rows before it and after it
  pub record Meets (c : ℕ) (rs : List ℕ) : Type 0 where
    pub front : List ℕ
    pub row : ℕ
    pub behind : List ℕ
    pub parts : rs ≡ front ++ (row ∷ behind)
    pub meets : mem c (row_cols row) ≡ true

  pub meets_lem : (c : ℕ) (rs : List ℕ) → mem c (met nodes col rs) ≡ true → Meets c rs
  meets_lem c [] e = absurd (let both : false ≡ true = e in cc)
  meets_lem c (r ∷ rs) e = elim (Bool-cases (mem c (row_cols r))) [
    | inl is ↦ record { front = []; row = r; behind = rs; parts = refl; meets = is }
    | inr e2 ↦
        let rest = meets_lem c rs (ground (arith, mem-append c (row_cols r) (met nodes col rs))) in
        record {
          front = r ∷ rest.front;
          row = rest.row;
          behind = rest.behind;
          parts = ap (λ t. r ∷ t) rest.parts;
          meets = rest.meets;
        }
  ]

  pub col-among :
      (k : ℕ) (js : List ℕ) → mem k js ≡ true → mem (col k) (cols_of nodes col js) ≡ true
  col-among k [] e = absurd (let both : false ≡ true = e in cc)
  col-among k (j ∷ js) e = elim (Bool-cases (k == j)) [
    | inl same ↦ ground (arith, ap col ((==_iff k j).0 same))
    | inr other ↦ ground (arith, col-among k js (ground arith))
  ]

  -- A node of the list in the column
  pub record InColumn (x : ℕ) (js : List ℕ) : Type 0 where
    pub node : ℕ
    pub among : mem node js ≡ true
    pub own : col node ≡ x

  pub in_column : (x : ℕ) (js : List ℕ) → mem x (cols_of nodes col js) ≡ true → InColumn x js
  in_column x [] e = absurd (let both : false ≡ true = e in cc)
  in_column x (j ∷ js) e = elim (Bool-cases (x == col j)) [
    | inl same ↦ record { node = j; among = ground arith; own = sym ((==_iff x (col j)).0 same) }
    | inr other ↦
        let rest = in_column x js (ground arith) in
        record { node = rest.node; among = ground (arith, rest.among); own = rest.own }
  ]

  pub row_cols-met :
      (y z : ℕ) (ys : List ℕ)
      → mem y ys ≡ true
      → mem z (row_cols y) ≡ true
      → mem z (met nodes col ys) ≡ true
  row_cols-met y z [] at e = absurd (let both : false ≡ true = at in cc)
  row_cols-met y z (x ∷ ys) at e = elim (Bool-cases (y == x)) [
    | inl same ↦
        let here : mem z (row_cols x) ≡ true =
          ap (λ w. mem z (row_cols w)) (sym ((==_iff y x).0 same)) ∙ e in
        ground (arith, mem-append z (row_cols x) (met nodes col ys), here)
    | inr other ↦
        ground (
          arith,
          mem-append z (row_cols x) (met nodes col ys),
          row_cols-met y z ys (ground arith) e,
        )
  ]

  module _ (base top rounds : ℕ) (rows : AreRows nodes base top rounds) where
    row_cols-into :
        (q k x : ℕ) → mem k (nodes q) ≡ true → mem x (row_cols k) ≡ true → mem x (row_cols q) ≡ true
    row_cols-into q k x near e = elim (Bool-cases (x == col k)) [
      | inl same ↦
          let own = (==_iff x (col k)).0 same in
          ground
            (arith, col-among k (nodes q) near, ap (λ w. mem w (cols_of nodes col (nodes q))) own)
      | inr other ↦
          let got = in_column x (nodes k) (ground arith) in
          let side = rows.others q got.node k near (rows.back k got.node got.among) in
          elim (Bool-cases (q == got.node)) [
            | inl same ↦
                let is : x ≡ col q = sym got.own ∙ ap col (sym ((==_iff q got.node).0 same)) in
                ground (arith, is)
            | inr apart ↦
                let there = col-among got.node (nodes q) (ground arith) in
                ground (arith, there, ap (λ w. mem w (cols_of nodes col (nodes q))) got.own)
          ]
    ]

    -- The nodes of a row meet the same columns.
    pub row_cols-same :
        (q k x : ℕ) → mem k (nodes q) ≡ true → mem x (row_cols k) ≡ mem x (row_cols q)
    row_cols-same q k x near =
        let into = row_cols-into q k x near in
        let back = row_cols-into k q x (rows.back q k near) in ground (arith, into, back)
