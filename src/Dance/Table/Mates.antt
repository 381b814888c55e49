-- ===== src/Dance/Table/Mates.antt =====
-- The other nodes of the rows of four that the constructor of `Dance` in
-- Lab1/sudoku_dancing_links.cpp adds.
use cloud_computing.Prelude.{
  ℕ, ◌+◌, ◌-◌, ◌*◌, ◌/◌, ◌%◌, ◌<◌, ◌≤◌, ◌≡◌, ◌≢◌, refl, sym, ◌∙◌, List, [], ◌∷◌, length, true,
  false, not, ◌&&◌, ltb, leb, ◌==◌, arith, Bool-cases, inl, inr, if◌then◌else◌,
}
use cloud_computing.Dance.Search.Members.{mem, Distinct}
use cloud_computing.Dance.Search.Full.{AreRows}

-- The other nodes of the row from `r` on, from the right of its node `p` on
abbrev pub others_of : ℕ → ℕ → List ℕ
others_of r p =
    if p == 0
    then (r + 1) ∷ (r + 2) ∷ (r + 3) ∷ []
    else if p == 1
    then (r + 2) ∷ (r + 3) ∷ r ∷ []
    else if p == 2
    then (r + 3) ∷ r ∷ (r + 1) ∷ []
    else r ∷ (r + 1) ∷ (r + 2) ∷ []

-- The first node of the row of `x`
abbrev pub first_of : ℕ → ℕ → ℕ
first_of base x = base + 4 * ((x - base) / 4)

abbrev pub mates : ℕ → ℕ → ℕ → List ℕ
mates base q x =
    if leb base x && ltb x (base + 4 * q) then others_of (first_of base x) ((x - base) % 4) else []

mem-others_of :
    (r p k : ℕ) → p < 4 → mem k (others_of r p) ≡ (leb r k && ltb k (r + 4) && not (k == r + p))
mem-others_of r p k lt = ground arith

pub mem-mates :
    (base q x k : ℕ)
    → mem k (mates base q x) ≡ (
        leb base x
        && ltb x (base + 4 * q)
        && (leb (first_of base x) k && ltb k (first_of base x + 4) && not (k == x)))
mem-mates base q x k = elim (Bool-cases (leb base x && ltb x (base + 4 * q))) [
  | inl e ↦
      let known = mem-others_of (first_of base x) ((x - base) % 4) k (omega arith) in
      let here : first_of base x + (x - base) % 4 ≡ x = ground arith in
      ground (arith, known, here, e)
  | inr e ↦ ground (arith, e)
]

length-others_of : (r p : ℕ) → length (others_of r p) ≡ 3
length-others_of r p = ground arith

three-Distinct : (a b c : ℕ) → a ≢ b → a ≢ c → b ≢ c → Distinct (a ∷ b ∷ c ∷ [])
three-Distinct a b c ab ac bc = (ground arith, (ground arith, (refl, tt)))

others_of-Distinct : (r p : ℕ) → Distinct (others_of r p)
others_of-Distinct r p = elim (Bool-cases (p == 0)) [
  | inl e0 ↦ rw e0 (
      three-Distinct (r + 1) (r + 2) (r + 3) (λ e. omega (arith, e)) (λ e. omega (arith, e))
        (λ e. omega (arith, e)))
  | inr n0 ↦ elim (Bool-cases (p == 1)) [
    | inl e1 ↦
        rw (n0, e1)
          (three-Distinct (r + 2) (r + 3) r (λ e. omega (arith, e)) (λ e. omega (arith, e))
            (λ e. omega (arith, e)))
    | inr n1 ↦ elim (Bool-cases (p == 2)) [
      | inl e2 ↦
          rw (n0, n1, e2)
            (three-Distinct (r + 3) r (r + 1) (λ e. omega (arith, e)) (λ e. omega (arith, e))
              (λ e. omega (arith, e)))
      | inr n2 ↦
          rw (n0, n1, n2)
            (three-Distinct r (r + 1) (r + 2) (λ e. omega (arith, e)) (λ e. omega (arith, e))
              (λ e. omega (arith, e)))
    ]
  ]
]

module _ (base q rounds : ℕ) (enough : 3 ≤ rounds) where
  pub first_same : (x k : ℕ) → mem k (mates base q x) ≡ true → first_of base k ≡ first_of base x
  first_same x k e = ground (arith, mem-mates base q x k, e)

  -- The nodes from `base` on
  abbrev IsIn : ℕ → Type 0
  IsIn x = (base ≤ x) × (x < base + 4 * q)

  pub mates_are : (x k : ℕ) → mem k (mates base q x) ≡ true → IsIn x × IsIn k × ((k == x) ≡ false)
  mates_are x k e = (
    (ground (arith, mem-mates base q x k, e), ground (arith, mem-mates base q x k, e)),
    (ground (arith, mem-mates base q x k, e), ground (arith, mem-mates base q x k, e)),
    ground (arith, mem-mates base q x k, e),
  )

  in_row :
      (x k : ℕ)
      → IsIn x
      → IsIn k
      → (k == x) ≡ false
      → first_of base k ≡ first_of base x
      → mem k (mates base q x) ≡ true
  in_row x k (lx, hx) (lk, hk) ne same =
      let low : first_of base x ≤ k = omega (arith, same, lk) in
      let high : k < first_of base x + 4 = omega (arith, same, lk) in
      mem-mates base q x k ∙ ground (arith, lx, hx, ne, low, high)

  pub mates-AreRows : AreRows (mates base q) base (base + 4 * q) rounds
  mates-AreRows = record {
    distinct = λ x. elim (Bool-cases (leb base x && ltb x (base + 4 * q))) [
      | inl e ↦ rw e (others_of-Distinct (first_of base x) ((x - base) % 4))
      | inr e ↦ rw e tt
    ];
    back = λ x k e.
        let (ix, ik, ne) = mates_are x k e in
        in_row k x ik ix (ground (arith, ne)) (sym (first_same x k e));
    others = λ x y k e f. elim (Bool-cases (x == y)) [
      | inl same ↦ rw same refl
      | inr ne ↦ rw (ne) (
          in_row x y (mates_are x k e).0 (mates_are y k f).0 (ground (arith, ne))
            (sym (first_same y k f) ∙ first_same x k e))
    ];
    high = λ x k e. ground (arith, mem-mates base q x k, e);
    below = λ x k e. ground (arith, mem-mates base q x k, e);
    short = λ x. elim (Bool-cases (leb base x && ltb x (base + 4 * q))) [
      | inl e ↦ rw e (omega (arith, length-others_of (first_of base x) ((x - base) % 4)))
      | inr e ↦ rw e (omega arith)
    ];
  }
