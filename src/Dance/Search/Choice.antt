-- ===== src/Dance/Search/Choice.antt =====
-- The rows of the column that `solve` of Lab1/sudoku_dancing_links.cpp has covered.
use cloud_computing.Prelude.{ℕ, ◌≡◌, ◌≢◌, ap, true, false, List, All, [], ◌∷◌, ◌==◌, ==_iff, arith}
use cloud_computing.Dance.{Dance, hide}
use cloud_computing.Dance.Links.{taken-down}
use cloud_computing.Dance.Rows.{Chain}
use cloud_computing.Dance.Undo.{All-Chain, IsColumn, hide-IsFree}
use cloud_computing.Dance.Search.Members.{mem, remove, Distinct, mem-remove, All-mem, mem-All}
use cloud_computing.Dance.Search.Linked.{Inside}
use cloud_computing.Dance.Search.Full.{AreRows, rest_of}
use cloud_computing.Dance.Search.Cover.{IsMatrix, after_cover, matrix-IsColumn}
use cloud_computing.Dance.Search.Choose.{Choosable}

pub Chain-same :
    (f g : ℕ → ℕ) (end x : ℕ) (xs : List ℕ)
    → All (λ y. g y ≡ f y) xs
    → Chain f end x xs
    → Chain g end x xs
Chain-same f g end x [] same path = path
Chain-same f g end x (y ∷ ys) (eq, same) (here, ne, path) =
    (here, ne, rw eq (Chain-same f g end (f y) ys same path))

module _ (nodes : ℕ → List ℕ) (base top rounds : ℕ) (col : ℕ → ℕ)
    (rows : AreRows nodes base top rounds) (c : ℕ) (hs : List ℕ) (vs : ℕ → List ℕ) (d : Dance)
    (h : IsMatrix nodes base top rounds col hs vs d) (at : mem c hs ≡ true) where
  -- The column keeps its nodes.
  pub after_cover-down :
      Chain (after_cover nodes c vs d).down c ((after_cover nodes c vs d).down c) (vs c)
  unfolding hide
  after_cover-down =
      rw (same.0)
        (Chain-same d.down (after_cover nodes c vs d).down c (d.down c) (vs c) same.1 column.down)
    where
      column : IsColumn nodes c (vs c) d
      column = matrix-IsColumn nodes base top rounds col rows c hs vs at d h

      apart : All (λ y. All (λ k. d.down y ≢ k) (rest_of nodes c vs)) (c ∷ vs c)
      apart =
          All-Chain nodes (λ y. All (λ k. y ≢ k) (rest_of nodes c vs)) d.down c (d.down c) (vs c)
            column.down column.apart.0 column.apart.1

      same : All (λ y. (after_cover nodes c vs d).down y ≡ d.down y) (c ∷ vs c)
      same =
          All-mem (λ y. (after_cover nodes c vs d).down y ≡ d.down y) (c ∷ vs c)
            (λ y inside.
              taken-down y (rest_of nodes c vs) (hide c d)
                (hide-IsFree nodes c d (rest_of nodes c vs) column.free)
                (mem-All (λ y. All (λ k. d.down y ≢ k) (rest_of nodes c vs)) (c ∷ vs c) y apart
                  inside))

  module _ (r : ℕ) (inside : mem r (vs c) ≡ true) where
    here_is : Inside col hs vs r
    here_is = let own = h.linked.under c r at inside in (rw own at, rw own inside)

    -- Two nodes of the row are in different columns.
    cols_differ :
        (j k : ℕ)
        → mem j (nodes r) ≡ true
        → mem k (nodes r) ≡ true
        → (j == k) ≡ false
        → col j ≢ col k
    cols_differ j k nj nk ne =
        let other = rows.others j k r (rows.back r j nj) (rows.back r k nk) in
        h.full.apart j k (h.full.inside r j here_is nj) (ground arith)

    Choosable-lem :
        (js gs : List ℕ)
        → Distinct js
        → ((k : ℕ) → mem k js ≡ true → mem k (nodes r) ≡ true)
        → ((k : ℕ) → mem k js ≡ true → mem (col k) gs ≡ true)
        → Choosable nodes base top rounds col rows js gs
    Choosable-lem [] gs dist near there = tt
    Choosable-lem (j ∷ js) gs (out, dist) near there = (
      there j (ground arith),
      rows.high r j (near j (ground arith)),
      Choosable-lem js (remove (col j) gs) dist (λ k e. near k (ground arith))
          (λ k e.
            let other =
              cols_differ j k (near j (ground arith)) (near k (ground arith))
                (ground (arith, ap (λ z. mem z js), ==_iff j k, e, out)) in
            ground (
              arith,
              mem-remove (col j) (col k) gs,
              there k,
              λ (same : col j ≡ col k). other same,
            )),
    )

    pub row-Choosable : Choosable nodes base top rounds col rows (nodes r) (remove c hs)
    row-Choosable =
        Choosable-lem (nodes r) (remove c hs) (rows.distinct r) (λ k e. e)
          (λ k e.
            let (there, _) = h.full.inside r k here_is e in
            let other = h.full.apart r k here_is e in
            let own = h.linked.under c r at inside in ground (arith, mem-remove c (col k) hs))
