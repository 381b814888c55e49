-- ===== src/Dance/Spaces.antt =====
-- `find_spaces` of Lab1/sudoku_dancing_links.cpp.
use cloud_computing.Prelude.{
  ℕ, zero, suc, ◌+◌, ◌<◌, ◌≤◌, ◌≡◌, refl, false, Bool-cases, inl, inr, update, ◌==◌, ==_iff, arith,
}
use cloud_computing.Dance.Build.{find_spaces}

-- The first `count` places hold the empty cells below `n`, each of them once and in their order, and
-- the other places are as before.
pub record AreSpaces (n : ℕ) (board spaces found : ℕ → ℕ) (count : ℕ) : Type 0 where
  pub few : count ≤ n
  pub below : (i : ℕ) → i < count → found i < n
  pub empty : (i : ℕ) → i < count → board (found i) ≡ 0
  pub all : (cell : ℕ) → cell < n → board cell ≡ 0 → (i : ℕ) × (i < count) × (found i ≡ cell)
  pub rising : (i j : ℕ) → i < j → j < count → found i < found j
  pub rest : (i : ℕ) → count ≤ i → found i ≡ spaces i

one_more :
    (n : ℕ) (board spaces found : ℕ → ℕ) (count : ℕ)
    → board n ≡ 0
    → AreSpaces n board spaces found count
    → AreSpaces (suc n) board spaces (update found count n) (count + 1)
one_more n board spaces found count e h = record {
  few = omega (arith, h.few);
  below = λ i lt. ground (arith, h.below i);
  empty = λ i lt. ground (arith, h.empty i);
  all = λ cell lt empty. elim (Bool-cases (cell == n)) [
    | inl same ↦ (count, omega arith, ground arith)
    | inr other ↦
        let (i, li, at) = h.all cell (ground arith) empty in (i, omega arith, ground arith)
  ];
  rising = λ i j lt lj. ground (arith, h.rising i j, h.below i);
  rest = λ i le. ground (arith, h.rest i);
}

no_more :
    (n : ℕ) (board spaces found : ℕ → ℕ) (count : ℕ)
    → (board n == 0) ≡ false
    → AreSpaces n board spaces found count
    → AreSpaces (suc n) board spaces found count
no_more n board spaces found count e h = record {
  few = omega (arith, h.few);
  below = λ i lt. omega (arith, h.below i lt);
  empty = h.empty;
  all = λ cell lt empty. elim (Bool-cases (cell == n)) [
    | inl same ↦ ground arith
    | inr other ↦ h.all cell (ground arith) empty
  ];
  rising = h.rising;
  rest = h.rest;
}

-- `find_spaces` writes the empty cells of the board into `spaces`, each of them once and in their
-- order, and nothing else; it counts them.
pub find_spaces-AreSpaces :
    (n : ℕ) (board spaces : ℕ → ℕ)
    → AreSpaces n board spaces (find_spaces n board spaces).0 (find_spaces n board spaces).1
unfolding find_spaces
find_spaces-AreSpaces zero board spaces = record {
  few = omega arith;
  below = λ i lt. absurd (omega arith);
  empty = λ i lt. absurd (omega arith);
  all = λ cell lt. absurd (omega arith);
  rising = λ i j lt lj. absurd (omega arith);
  rest = λ i le. refl;
}
find_spaces-AreSpaces (suc n) board spaces =
    let (found, count) = find_spaces n board spaces in
    let h = find_spaces-AreSpaces n board spaces in
    elim (Bool-cases (board n == 0)) [
      | inl e ↦
          rw (find_spaces, e) (one_more n board spaces found count ((==_iff (board n) 0).0 e) h)
      | inr e ↦ rw (find_spaces, e) (no_more n board spaces found count e h)
    ]
