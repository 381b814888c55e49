-- ===== src/Dance/Search/Ring.antt =====
-- A doubly linked list of Lab1/sudoku_dancing_links.cpp: the headers, or the nodes of a column. `f` and
-- `g` are the two directions.
use cloud_computing.Prelude.{
  ℕ, ◌≡◌, ◌≢◌, refl, sym, subst, false, List, All, [], ◌∷◌, ◌==◌, update, arith,
}
use cloud_computing.Dance.Rows.{Chain, onto, All-onto}
use cloud_computing.Dance.Search.Members.{
  remove, remove-onto, mem-remove, All-mem, mem-All, Distinct, Distinct-onto, Distinct-remove,
}
use cloud_computing.Dance.Search.Skip.{Mutual, skip_next, Chain-remove}

pub record IsRing (f g : ℕ → ℕ) (end : ℕ) (xs : List ℕ) : Type 0 where
  pub forth : Chain f end (f end) xs
  pub back : Chain g end (g end) (onto xs [])
  pub at_end : Mutual f g end
  pub at_nodes : All (Mutual f g) xs
  pub distinct : Distinct xs

pub turned : (f g : ℕ → ℕ) (y : ℕ) → Mutual f g y → Mutual g f y
turned f g y (a, b) = (b, a)

turned_all : (f g : ℕ → ℕ) (xs : List ℕ) → All (Mutual f g) xs → All (Mutual g f) xs
turned_all f g [] all = tt
turned_all f g (x ∷ xs) (h, all) = (turned f g x h, turned_all f g xs all)

Mutual-remove :
    (f g : ℕ → ℕ) (j y : ℕ)
    → (j == y) ≡ false
    → Mutual f g j
    → Mutual f g y
    → Mutual (update f (g j) (f j)) (update g (f j) (g j)) y
Mutual-remove f g j y ne hj hy =
    (ground (arith, hj.0, hj.1, hy.0, hy.1), ground (arith, hj.0, hj.1, hy.0, hy.1))

All-Mutual-remove :
    (f g : ℕ → ℕ) (j : ℕ) (xs : List ℕ)
    → Mutual f g j
    → All (Mutual f g) xs
    → All (Mutual (update f (g j) (f j)) (update g (f j) (g j))) (remove j xs)
All-Mutual-remove f g j xs hj all =
    All-mem (Mutual (update f (g j) (f j)) (update g (f j) (g j))) (remove j xs) (λ y inside.
      Mutual-remove f g j y (ground (arith, mem-remove j y xs)) hj
        (mem-All (Mutual f g) xs y all (ground (arith, mem-remove j y xs))))

path_on :
    (f g : ℕ → ℕ) (end j : ℕ) (xs : List ℕ)
    → end ≢ j
    → Mutual f g j
    → Mutual f g end
    → All (Mutual f g) xs
    → Distinct xs
    → Chain f end (f end) xs
    → Chain (update f (g j) (f j)) end (update f (g j) (f j) end) (remove j xs)
path_on f g end j xs ne hj he all dist path =
    subst (λ z. Chain (update f (g j) (f j)) end z (remove j xs)) (sym (skip_next f g j end hj he))
      (Chain-remove f g end (f end) j xs hj all ne dist path)

-- Taking a node out of one list leaves a ring, of that list or of another.
pub IsRing-remove :
    (f g : ℕ → ℕ) (end j : ℕ) (xs : List ℕ)
    → end ≢ j
    → Mutual f g j
    → IsRing f g end xs
    → IsRing (update f (g j) (f j)) (update g (f j) (g j)) end (remove j xs)
IsRing-remove f g end j xs ne hj ring = record {
  forth = path_on f g end j xs ne hj ring.at_end ring.at_nodes ring.distinct ring.forth;
  back = subst (Chain (update g (f j) (g j)) end (update g (f j) (g j) end)) (remove-onto j xs []) (
      path_on g f end j (onto xs []) ne (turned f g j hj) (turned f g end ring.at_end)
        (All-onto (Mutual g f) xs [] (turned_all f g xs ring.at_nodes) tt)
        (Distinct-onto xs [] ring.distinct tt (λ z inside. refl)) ring.back);
  at_end = Mutual-remove f g j end (ground arith) hj ring.at_end;
  at_nodes = All-Mutual-remove f g j xs hj ring.at_nodes;
  distinct = Distinct-remove j xs ring.distinct;
}
