-- ===== src/Dance/Search/Skip.antt =====
-- A ring of nodes from which one node is taken out.
use cloud_computing.Prelude.{
  ℕ, ◌≡◌, ◌≢◌, sym, subst, false, List, All, [], ◌∷◌, ◌==◌, ==_iff, Bool-cases, inl, inr, update,
  if◌then◌else◌, arith,
}
use cloud_computing.Dance.Rows.{Chain}
use cloud_computing.Dance.Search.Members.{mem, remove, Distinct}

-- `f` and `g` undo one another at `y`.
abbrev pub Mutual : (ℕ → ℕ) → (ℕ → ℕ) → ℕ → Type 0
Mutual f g y = (g (f y) ≡ y) × (f (g y) ≡ y)

abbrev pub skip : (ℕ → ℕ) → ℕ → ℕ → ℕ
skip f j x = if x == j then f j else x

pub skip_next :
    (f g : ℕ → ℕ) (j y : ℕ) → Mutual f g j → Mutual f g y → update f (g j) (f j) y ≡ skip f j (f y)
skip_next f g j y hj hy = ground (arith, hj.0, hj.1, hy.0, hy.1)

-- The next node is the first one of the list, or the end.
first_not :
    (f : ℕ → ℕ) (end x j : ℕ) (xs : List ℕ)
    → Chain f end x xs
    → end ≢ j
    → mem j xs ≡ false
    → (x == j) ≡ false
first_not f end x j [] path ne out = ground arith
first_not f end x j (y ∷ ys) (here, _, path) ne out = ground arith

pub Chain-remove :
    (f g : ℕ → ℕ) (end x j : ℕ) (xs : List ℕ)
    → Mutual f g j
    → All (Mutual f g) xs
    → end ≢ j
    → Distinct xs
    → Chain f end x xs
    → Chain (update f (g j) (f j)) end (skip f j x) (remove j xs)
Chain-remove f g end x j [] hj all ne dist path = ground arith
Chain-remove f g end x j (y ∷ ys) hj (hy, all) ne (out, dist) (here, go, path) =
    let ih = Chain-remove f g end (f y) j ys hj all ne dist path in
    elim (Bool-cases (j == y)) [
      | inl e ↦
          let same = (==_iff j y).0 e in
          let start : skip f j (f y) ≡ skip f j x =
            ground (arith, first_not f end (f y) j ys path ne (rw same out)) in
          rw e (subst (λ z. Chain (update f (g j) (f j)) end z (remove j ys)) start ih)
      | inr e ↦
          let start : skip f j x ≡ y = ground (arith, here) in
          rw e (
            start,
            go,
            subst (λ z. Chain (update f (g j) (f j)) end z (remove j ys))
                (sym (skip_next f g j y hj hy)) ih,
          )
    ]
