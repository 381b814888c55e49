-- ===== src/Sudoku/Units.antt =====
-- One unit of the board: `is_complete` decides that every digit stands in it once.
use cloud_computing.Prelude.{
  ℕ, zero, suc, ◌+◌, ◌≤◌, ◌≡◌, ◌≢◌, ◌↔◌, refl, sym, ◌∙◌, true, inl, inr, List, [], ◌∷◌, ◌==◌,
  ==_iff, Bool-cases, update, if◌then◌else◌, arith, All,
}
use cloud_computing.Sudoku.{num, tally, count_ones, is_complete}

unfoldable pub count : ℕ → List ℕ → ℕ
count v [] = 0
count v (x ∷ xs) = if x == v then count v xs + 1 else count v xs

-- Every digit stands in the unit once.
abbrev pub Complete : List ℕ → Type 0
Complete vals = (v : ℕ) → 1 ≤ v → v ≤ num → count v vals ≡ 1

abbrev pub IsDigit : ℕ → Type 0
IsDigit v = (1 ≤ v) × (v ≤ num)

tally_lem : (vals : List ℕ) (occurs : ℕ → ℕ) (v : ℕ) → tally vals occurs v ≡ occurs v + count v vals
unfolding tally count
tally_lem [] occurs v = omega arith
tally_lem (x ∷ vals) occurs v = ground (arith, tally_lem vals (update occurs x (occurs x + 1)) v)

count-zero : (vals : List ℕ) → All IsDigit vals → count 0 vals ≡ 0
unfolding count
count-zero [] h = refl
count-zero (x ∷ vals) (hx, h) = ground (arith, count-zero vals h)

-- Of the places 0 to `k`, where place 0 does not count, all count or fewer than `k` do.
count_ones-le : (k : ℕ) (occurs : ℕ → ℕ) → occurs 0 ≢ 1 → count_ones (suc k) occurs ≤ k
unfolding count_ones
count_ones-le zero occurs h = ground arith
count_ones-le (suc k) occurs h = ground (arith, count_ones-le k occurs h)

count_ones-all :
    (k : ℕ) (occurs : ℕ → ℕ)
    → occurs 0 ≢ 1
    → ((v : ℕ) → 1 ≤ v → v ≤ k → occurs v ≡ 1)
    → count_ones (suc k) occurs ≡ k
unfolding count_ones
count_ones-all zero occurs h all = ground arith
count_ones-all (suc k) occurs h all = ground (
  arith,
  count_ones-all k occurs h (λ v lo hi. all v lo (omega arith)),
  all (suc k) (omega arith) (omega arith),
)

all-count_ones :
    (k : ℕ) (occurs : ℕ → ℕ)
    → occurs 0 ≢ 1
    → count_ones (suc k) occurs ≡ k
    → (v : ℕ) → 1 ≤ v
    → v ≤ k
    → occurs v ≡ 1
unfolding count_ones
all-count_ones zero occurs h e v lo hi = absurd (omega arith)
all-count_ones (suc k) occurs h e v lo hi = elim (Bool-cases (v == suc k)) [
  | inl same ↦ rw ((==_iff v (suc k)).0 same) (ground (arith, count_ones-le k occurs h))
  | inr other ↦
      all-count_ones k occurs h (ground (arith, count_ones-le k occurs h)) v lo (ground arith)
]

pub is_complete_iff : (vals : List ℕ) → All IsDigit vals → (is_complete vals ≡ true) ↔ Complete vals
unfolding is_complete
is_complete_iff vals h =
    let occurs : ℕ → ℕ = tally vals (λ v. 0) in
    let none_zero : occurs 0 ≢ 1 =
      λ e. absurd (omega (arith, e, tally_lem vals (λ v. 0) 0, count-zero vals h)) in
    (
      λ e v lo hi.
          sym (tally_lem vals (λ w. 0) v ∙ omega arith)
          ∙ all-count_ones 9 occurs none_zero ((==_iff (count_ones 10 occurs) 9).0 e) v lo hi,
      λ all. (==_iff (count_ones 10 occurs) 9).1 (
          count_ones-all 9 occurs none_zero
            (λ v lo hi. tally_lem vals (λ w. 0) v ∙ (omega (arith, all v lo hi)))),
    )
