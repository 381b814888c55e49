-- ===== src/Dance/Table/Ready.antt =====
-- The search of Lab1/sudoku_dancing_links.cpp on the matrix that the constructor of `Dance` builds.
use cloud_computing.Prelude.{
  ℕ, ◌+◌, ◌-◌, ◌*◌, ◌/◌, ◌%◌, ◌<◌, ◌≤◌, ◌≡◌, ◌≢◌, refl, sym, ap, subst, ◌∙◌, [], ◌∷◌, true, ◌&&◌,
  ltb, leb, arith,
}
use cloud_computing.Dance.{Dance}
use cloud_computing.Dance.Rows.{Chain, onto}
use cloud_computing.Dance.Undo.{IsRow}
use cloud_computing.Dance.Search.Members.{mem}
use cloud_computing.Dance.Search.Full.{IsFull}
use cloud_computing.Dance.Table.Heads.{heads, mem-heads}
use cloud_computing.Dance.Table.Nodes.{nodes_in, mem-nodes_in, AreNodes}
use cloud_computing.Dance.Table.Fours.{IsUnit, four_cases}
use cloud_computing.Dance.Table.Mates.{mates, first_of, mem-mates, mates_are, others_of}

-- The names of a row are in different hundreds.
unit_hundred :
    (r : ℕ) (d : Dance) → IsUnit r d → (x : ℕ) → r ≤ x → x < r + 4 → d.name x / 100 ≡ x - r
unit_hundred r d u =
    four_cases r (λ x. d.name x / 100 ≡ x - r) (omega (arith, u.cell))
      (omega (arith, u.in_row.0, u.in_row.1)) (omega (arith, u.in_col.0, u.in_col.1))
      (omega (arith, u.in_box.0, u.in_box.1))

mates_at :
    (base q j p : ℕ) → j < q → p < 4 → mates base q (base + 4 * j + p) ≡ others_of (base + 4 * j) p
mates_at base q j p lt small =
    let block : (base + 4 * j + p - base) / 4 ≡ j = omega arith in
    let place : (base + 4 * j + p - base) % 4 ≡ p = omega arith in
    let inside : (leb base (base + 4 * j + p) && ltb (base + 4 * j + p) (base + 4 * q)) ≡ true =
      ground arith in
    rw (inside, block, place) refl

three-Chain :
    (f : ℕ → ℕ) (end a b c : ℕ)
    → f end ≡ a
    → f a ≡ b
    → f b ≡ c
    → f c ≡ end
    → (a ≢ end) × (b ≢ end) × (c ≢ end)
    → Chain f end (f end) (a ∷ b ∷ c ∷ [])
three-Chain f end a b c p q r s (na, nb, nc) = (p, na, (q, nb, (r, nc, s)))

-- The row leads once around itself, from any of its nodes.
unit_round :
    (r : ℕ) (d : Dance)
    → IsUnit r d
    → (p : ℕ) → 0 ≤ p
    → p < 0 + 4
    → Chain d.right (r + p) (d.right (r + p)) (others_of r p)
      × Chain d.left (r + p) (d.left (r + p)) (onto (others_of r p) [])
unit_round r d u =
    let (r0, r1, r2, r3) = u.rights in
    let (l0, l1, l2, l3) = u.lefts in
    let start : r ≡ r + 0 = omega arith in
    four_cases 0
      (λ p.
        Chain d.right (r + p) (d.right (r + p)) (others_of r p)
        × Chain d.left (r + p) (d.left (r + p)) (onto (others_of r p) []))
      (subst
        (λ z.
          Chain d.right z (d.right z) ((r + 1) ∷ (r + 2) ∷ (r + 3) ∷ [])
          × Chain d.left z (d.left z) ((r + 3) ∷ (r + 2) ∷ (r + 1) ∷ []))
        start
        (
          three-Chain d.right r (r + 1) (r + 2) (r + 3) r0 r1 r2 r3
              ((λ e. omega (arith, e)), (λ e. omega (arith, e)), (λ e. omega (arith, e))),
          three-Chain d.left r (r + 3) (r + 2) (r + 1) l0 l3 l2 l1
              ((λ e. omega (arith, e)), (λ e. omega (arith, e)), (λ e. omega (arith, e))),
        ))
      (
        three-Chain d.right (r + 1) (r + 2) (r + 3) r r1 r2 r3 r0
            ((λ e. omega (arith, e)), (λ e. omega (arith, e)), (λ e. omega (arith, e))),
        three-Chain d.left (r + 1) r (r + 3) (r + 2) l1 l0 l3 l2
            ((λ e. omega (arith, e)), (λ e. omega (arith, e)), (λ e. omega (arith, e))),
      )
      (
        three-Chain d.right (r + 2) (r + 3) r (r + 1) r2 r3 r0 r1
            ((λ e. omega (arith, e)), (λ e. omega (arith, e)), (λ e. omega (arith, e))),
        three-Chain d.left (r + 2) (r + 1) r (r + 3) l2 l1 l0 l3
            ((λ e. omega (arith, e)), (λ e. omega (arith, e)), (λ e. omega (arith, e))),
      )
      (
        three-Chain d.right (r + 3) r (r + 1) (r + 2) r3 r0 r1 r2
            ((λ e. omega (arith, e)), (λ e. omega (arith, e)), (λ e. omega (arith, e))),
        three-Chain d.left (r + 3) (r + 2) (r + 1) r l3 l2 l1 l0
            ((λ e. omega (arith, e)), (λ e. omega (arith, e)), (λ e. omega (arith, e))),
      )

module _ (m q : ℕ) (d : Dance) (nodes : AreNodes m (4 * q) d)
    (units : (j : ℕ) → j < q → IsUnit (m + 1 + 4 * j) d) where
  pub first_of-IsUnit : (x : ℕ) → m + 1 ≤ x → x < m + 1 + 4 * q → IsUnit (first_of (m + 1) x) d
  first_of-IsUnit x lo hi = units ((x - (m + 1)) / 4) (omega arith)

  name_differs :
      (x k : ℕ)
      → m + 1 ≤ x
      → x < m + 1 + 4 * q
      → mem k (mates (m + 1) q x) ≡ true
      → d.name x ≢ d.name k
  name_differs x k lo hi near same =
      let u = first_of-IsUnit x lo hi in
      let a = unit_hundred (first_of (m + 1) x) d u x (omega arith) (omega arith) in
      let b =
        unit_hundred (first_of (m + 1) x) d u k (ground (arith, mem-mates (m + 1) q x k, near))
          (ground (arith, mem-mates (m + 1) q x k, near)) in
      let equal = ap (λ z. z / 100) same in
      ground (arith, mem-mates (m + 1) q x k, near, a, b, equal)

  titled_at : (x : ℕ) → m + 1 ≤ x → x < m + 1 + 4 * q → d.name (d.col x) ≡ d.name x
  titled_at x lo hi = (first_of-IsUnit x lo hi).titled x (omega arith) (omega arith)

  pub table-IsFull :
      IsFull (mates (m + 1) q) d.col (heads m) (λ c. nodes_in d.col c (m + 1) (4 * q))
  table-IsFull = record {
    inside = λ x k is near.
        let (lo, hi) = (mates_are (m + 1) q 3 (omega arith) x k near).1 in
        let (pos_col, low) = nodes.under k lo hi in
        (
          ground (arith, mem-heads (d.col k) m, pos_col, low),
          ground (arith, mem-nodes_in d.col (d.col k) (m + 1) (4 * q) k, lo, hi),
        );
    apart = λ x k is near same.
        let (lo, hi) = (mates_are (m + 1) q 3 (omega arith) x k near).0 in
        let (lk, hk) = (mates_are (m + 1) q 3 (omega arith) x k near).1 in
        name_differs x k lo hi near (sym (titled_at x lo hi) ∙ ap d.name same ∙ titled_at k lk hk);
  }

  unit-IsRow : (j p : ℕ) → j < q → p < 4 → IsRow (mates (m + 1) q) d (m + 1 + 4 * j + p)
  unit-IsRow j p lt small =
      rw (mates_at (m + 1) q j p lt small)
        (unit_round (m + 1 + 4 * j) d (units j lt) p (omega arith) small)

  pub table-IsRow : (x : ℕ) → m + 1 ≤ x → x < m + 1 + 4 * q → IsRow (mates (m + 1) q) d x
  table-IsRow x lo hi =
      let at : first_of (m + 1) x + (x - (m + 1)) % 4 ≡ x = omega arith in
      subst (IsRow (mates (m + 1) q) d) at
        (unit-IsRow ((x - (m + 1)) / 4) ((x - (m + 1)) % 4) (omega arith) (omega arith))
