-- ===== src/Dance/Search/Full.antt =====
-- The rows of a matrix of Lab1/sudoku_dancing_links.cpp: which nodes `cover` takes out, and that the
-- rows that are left are whole.
use cloud_computing.Prelude.{
  ℕ, ◌≡◌, ◌≢◌, ◌<◌, ◌≤◌, refl, sym, ap, ◌∙◌, true, false, ◌||◌, List, [], ◌∷◌, length, ◌==◌, ==_iff,
  Bool-cases, inl, inr, arith,
}
use cloud_computing.Dance.Rows.{onto}
use cloud_computing.Dance.Undo.{stack_of}
use cloud_computing.Dance.Search.Members.{
  mem, remove, without, mem-remove, mem-without, mem-onto, mem-append, Distinct, Distinct-onto,
  Distinct-append,
}
use cloud_computing.Dance.Search.Linked.{Inside}

-- `nodes x` has the other nodes of the row of `x`, from left to right. The nodes are those from `base`
-- up to `top`, and the loops have `rounds` rounds.
pub record AreRows (nodes : ℕ → List ℕ) (base top rounds : ℕ) : Type 0 where
  pub distinct : (x : ℕ) → Distinct (nodes x)
  pub back : (x k : ℕ) → mem k (nodes x) ≡ true → mem x (nodes k) ≡ true
  pub others :
      (x y k : ℕ)
      → mem k (nodes x) ≡ true
      → mem k (nodes y) ≡ true
      → ((x == y) || mem y (nodes x)) ≡ true
  pub high : (x k : ℕ) → mem k (nodes x) ≡ true → base ≤ k
  pub below : (x k : ℕ) → mem k (nodes x) ≡ true → k < top
  pub short : (x : ℕ) → length (nodes x) ≤ rounds

-- A node of the row is in the list.
pub record InStack (nodes : ℕ → List ℕ) (k : ℕ) (rs : List ℕ) : Type 0 where
  pub row : ℕ
  pub among : mem row rs ≡ true
  pub has : mem k (nodes row) ≡ true

module _ (nodes : ℕ → List ℕ) (base top rounds : ℕ) where
  pub in_stack : (k : ℕ) (rs : List ℕ) → mem k (stack_of nodes rs) ≡ true → InStack nodes k rs
  in_stack k [] inside = absurd (let both : false ≡ true = inside in cc)
  in_stack k (r ∷ rs) inside =
      let split = mem-append k (onto (nodes r) []) (stack_of nodes rs) in
      let turned = mem-onto k (nodes r) [] in
      elim (Bool-cases (mem k (nodes r))) [
        | inl e ↦ record { row = r; among = ground arith; has = e }
        | inr e ↦
            let rest = in_stack k rs (ground (arith, split, turned)) in
            record { row = rest.row; among = ground (arith, rest.among); has = rest.has }
      ]

  pub stack_has :
      (k r : ℕ) (rs : List ℕ)
      → mem r rs ≡ true
      → mem k (nodes r) ≡ true
      → mem k (stack_of nodes rs) ≡ true
  stack_has k r [] at has = absurd (let both : false ≡ true = at in cc)
  stack_has k r (q ∷ rs) at has =
      let split = mem-append k (onto (nodes q) []) (stack_of nodes rs) in
      let turned = mem-onto k (nodes q) [] in
      elim (Bool-cases (r == q)) [
        | inl e ↦
            let same = (==_iff r q).0 e in
            let here : mem k (nodes q) ≡ true = ap (λ z. mem k (nodes z)) (sym same) ∙ has in
            ground (arith, split, turned)
        | inr e ↦ let rest = stack_has k r rs (ground arith) has in ground (arith, split)
      ]

  -- The rows of one column have no node in common.
  pub Distinct-stack_of :
      (rs : List ℕ)
      → AreRows nodes base top rounds
      → Distinct rs
      → ((x y : ℕ) → mem x rs ≡ true → mem y rs ≡ true → mem y (nodes x) ≡ false)
      → Distinct (stack_of nodes rs)
  Distinct-stack_of [] rows dist apart = tt
  Distinct-stack_of (r ∷ rs) rows (out, dist) apart =
      Distinct-append (onto (nodes r) []) (stack_of nodes rs)
        (Distinct-onto (nodes r) [] (rows.distinct r) tt (λ z inside. refl))
        (Distinct-stack_of rs rows dist (λ x y a b. apart x y (ground arith) (ground arith)))
        (λ z inside. elim (Bool-cases (mem z (stack_of nodes rs))) [
          | inr e ↦ e
          | inl e ↦
              let at = in_stack z rs e in
              let other = rows.others r at.row z (ground (arith, mem-onto z (nodes r) [])) at.has in
              absurd (ground (arith, other, at.among, out, apart r at.row, ==_iff r at.row))
        ])

module _ (nodes : ℕ → List ℕ) (col : ℕ → ℕ) where
  -- The other nodes of the row of a node are in other columns.
  pub record IsFull (hs : List ℕ) (vs : ℕ → List ℕ) : Type 0 where
    pub inside : (x k : ℕ) → Inside col hs vs x → mem k (nodes x) ≡ true → Inside col hs vs k
    pub apart : (x k : ℕ) → Inside col hs vs x → mem k (nodes x) ≡ true → col x ≢ col k

-- The nodes that `cover` takes out of their columns
abbrev pub rest_of : (ℕ → List ℕ) → ℕ → (ℕ → List ℕ) → List ℕ
rest_of nodes c vs = stack_of nodes (onto (vs c) [])

module _ (nodes : ℕ → List ℕ) (base top rounds : ℕ) (col : ℕ → ℕ)
    (rows : AreRows nodes base top rounds) (c : ℕ) (hs : List ℕ) (vs : ℕ → List ℕ)
    (full : IsFull nodes col hs vs) (under : (x : ℕ) → mem x (vs c) ≡ true → col x ≡ c)
    (at : mem c hs ≡ true) where
  in_rest :
      (x r : ℕ) → mem r (vs c) ≡ true → mem x (nodes r) ≡ true → mem x (rest_of nodes c vs) ≡ true
  in_rest x r inside has =
      stack_has nodes base top rounds x r (onto (vs c) []) (ground (arith, mem-onto r (vs c) []))
        has

  pub of_rest : (k : ℕ) → mem k (rest_of nodes c vs) ≡ true → InStack nodes k (vs c)
  of_rest k inside =
      let got = in_stack nodes base top rounds k (onto (vs c) []) inside in
      record {
        row = got.row;
        among = ground (arith, got.among, mem-onto got.row (vs c) []);
        has = got.has;
      }

  pub Inside-rest : (k : ℕ) → mem k (rest_of nodes c vs) ≡ true → Inside col (remove c hs) vs k
  Inside-rest k inside =
      let got = of_rest k inside in
      let own = under got.row got.among in
      let is : Inside col hs vs got.row = (rw own at, rw own got.among) in
      let there = full.inside got.row k is got.has in
      let other = full.apart got.row k is got.has in
      (ground (arith, mem-remove c (col k) hs, own, there.0), there.1)

  -- No node of a row that is left has been taken out.
  left_out :
      (x k : ℕ)
      → col x ≢ c
      → mem x (rest_of nodes c vs) ≡ false
      → mem k (nodes x) ≡ true
      → mem k (rest_of nodes c vs) ≡ false
  left_out x k ne out near = elim (Bool-cases (mem k (rest_of nodes c vs))) [
    | inr e ↦ e
    | inl e ↦
        let got = of_rest k e in
        let other = rows.others got.row x k got.has near in
        elim (Bool-cases (got.row == x)) [
          | inl same ↦
              absurd (ne (ap col (sym ((==_iff got.row x).0 same)) ∙ under got.row got.among))
          | inr apart ↦ absurd (
              let inside = in_rest x got.row got.among (ground arith) in
              let both : true ≡ false = sym inside ∙ out in cc)
        ]
  ]

  -- The row of a node that is left has no node in the column.
  other_column :
      (x k : ℕ)
      → mem x (rest_of nodes c vs) ≡ false
      → mem k (vs (col k)) ≡ true
      → mem k (nodes x) ≡ true
      → (c == col k) ≡ false
  other_column x k out inside near = elim (Bool-cases (c == col k)) [
    | inr e ↦ e
    | inl e ↦ absurd (
        let same = (==_iff c (col k)).0 e in
        let hit = in_rest x k (ap (λ z. mem k (vs z)) same ∙ inside) (rows.back x k near) in
        let both : true ≡ false = sym hit ∙ out in cc)
  ]

  pub Distinct-rest : Distinct (vs c) → Distinct (rest_of nodes c vs)
  Distinct-rest dist =
      Distinct-stack_of nodes base top rounds (onto (vs c) []) rows
        (Distinct-onto (vs c) [] dist tt (λ z inside. refl))
        (λ x y a b. elim (Bool-cases (mem y (nodes x))) [
          | inr e ↦ e
          | inl e ↦
              let ownx = under x (ground (arith, a, mem-onto x (vs c) [])) in
              let owny = under y (ground (arith, b, mem-onto y (vs c) [])) in
              let is : Inside col hs vs x =
                (rw ownx at, rw ownx (ground (arith, a, mem-onto x (vs c) []))) in
              absurd (full.apart x y is e (ownx ∙ sym owny))
        ])

  pub IsFull-remove : IsFull nodes col (remove c hs) (λ x. without (rest_of nodes c vs) (vs x))
  IsFull-remove = record {
    inside = λ x k (is, has) near.
        let out : mem x (rest_of nodes c vs) ≡ false =
          ground (arith, mem-without (rest_of nodes c vs) x (vs (col x))) in
        let gone = mem-remove c (col x) hs in
        let (there, inside) =
          full.inside x k
            (ground arith, ground (arith, mem-without (rest_of nodes c vs) x (vs (col x)))) near in
        let other = other_column x k out inside near in
        let stays = left_out x k (λ e. ground (arith, e)) out near in
        (
          ground (arith, mem-remove c (col k) hs),
          ground (arith, mem-without (rest_of nodes c vs) k (vs (col k))),
        );
    apart = λ x k (is, has) near.
        full.apart x k
          (
            ground (arith, mem-remove c (col x) hs),
            ground (arith, mem-without (rest_of nodes c vs) x (vs (col x))),
          )
          near;
  }
