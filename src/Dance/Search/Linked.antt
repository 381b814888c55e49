-- ===== src/Dance/Search/Linked.antt =====
-- The matrix that the links of Lab1/sudoku_dancing_links.cpp stand for: the headers `hs` of the columns
-- that are not covered, and the nodes `vs c` of the column `c`. Headers are below `base`, nodes are not.
use cloud_computing.Prelude.{ℕ, ◌≡◌, ◌≢◌, ◌<◌, ◌≤◌, true, false, List, All, [], ◌∷◌, arith}
use cloud_computing.Dance.{Dance, root, unlink, hide}
use cloud_computing.Dance.Links.{taken, IsFree}
use cloud_computing.Dance.Search.Members.{
  mem, remove, without, mem-remove, mem-without, mem-All, Distinct,
}
use cloud_computing.Dance.Search.Skip.{Mutual}
use cloud_computing.Dance.Search.Ring.{IsRing, IsRing-remove}

-- A node of the matrix
abbrev pub Inside : (ℕ → ℕ) → List ℕ → (ℕ → List ℕ) → ℕ → Type 0
Inside col hs vs j = (mem (col j) hs ≡ true) × (mem j (vs (col j)) ≡ true)

module _ (base : ℕ) (col : ℕ → ℕ) where
  pub record IsLinkedMatrix (hs : List ℕ) (vs : ℕ → List ℕ) (d : Dance) : Type 0 where
    pub has_root : 0 < base
    pub headers : IsRing d.right d.left root hs
    pub column : (c : ℕ) → mem c hs ≡ true → IsRing d.down d.up c (vs c)
    pub low : (c : ℕ) → mem c hs ≡ true → c < base
    pub high : (c x : ℕ) → mem c hs ≡ true → mem x (vs c) ≡ true → base ≤ x
    pub cols : d.col ≡ col
    pub under : (c x : ℕ) → mem c hs ≡ true → mem x (vs c) ≡ true → col x ≡ c

  pub Inside-Mutual :
      (hs : List ℕ) (vs : ℕ → List ℕ) (d : Dance) (j : ℕ)
      → IsLinkedMatrix hs vs d
      → Inside col hs vs j
      → Mutual d.down d.up j
  Inside-Mutual hs vs d j h (at, inside) =
      mem-All (Mutual d.down d.up) (vs (col j)) j (h.column (col j) at).at_nodes inside

  unlink_lem :
      (hs : List ℕ) (vs : ℕ → List ℕ) (d : Dance) (j : ℕ)
      → IsLinkedMatrix hs vs d
      → Inside col hs vs j
      → IsLinkedMatrix hs (λ c. remove j (vs c)) (unlink j d)
  unfolding unlink
  unlink_lem hs vs d j h (at, inside) = record {
    has_root = h.has_root;
    headers = h.headers;
    column = λ c is.
        IsRing-remove d.down d.up c j (vs c)
          (λ e. omega (arith, e, h.low c is, h.high (col j) j at inside))
          (Inside-Mutual hs vs d j h (at, inside)) (h.column c is);
    low = h.low;
    high = λ c x is has. h.high c x is (ground (arith, mem-remove j x (vs c)));
    cols = h.cols;
    under = λ c x is has. h.under c x is (ground (arith, mem-remove j x (vs c)));
  }

  pub hide_lem :
      (hs : List ℕ) (vs : ℕ → List ℕ) (d : Dance) (c : ℕ)
      → IsLinkedMatrix hs vs d
      → mem c hs ≡ true
      → root ≢ c
      → IsLinkedMatrix (remove c hs) vs (hide c d)
  unfolding hide
  hide_lem hs vs d c h at ne = record {
    has_root = h.has_root;
    headers =
        IsRing-remove d.right d.left root c hs ne
          (mem-All (Mutual d.right d.left) hs c h.headers.at_nodes at) h.headers;
    column = λ x is. h.column x (ground (arith, mem-remove c x hs));
    low = λ x is. h.low x (ground (arith, mem-remove c x hs));
    high = λ x y is has. h.high x y (ground (arith, mem-remove c x hs)) has;
    cols = h.cols;
    under = λ x y is has. h.under x y (ground (arith, mem-remove c x hs)) has;
  }

  pub taken_lem :
      (hs : List ℕ) (vs : ℕ → List ℕ) (d : Dance) (s : List ℕ)
      → IsLinkedMatrix hs vs d
      → Distinct s
      → All (Inside col hs vs) s
      → IsLinkedMatrix hs (λ c. without s (vs c)) (taken s d)
  taken_lem hs vs d [] h dist all = h
  taken_lem hs vs d (j ∷ s) h (out, dist) ((at, inside), all) =
      unlink_lem hs (λ c. without s (vs c)) (taken s d) j (taken_lem hs vs d s h dist all)
        (at, ground (arith, mem-without s j (vs (col j))))

  apart_all : (j : ℕ) (s : List ℕ) → mem j s ≡ false → All (λ k. j ≢ k) s
  apart_all j [] out = tt
  apart_all j (k ∷ s) out = (ground arith, apart_all j s (ground arith))

  pub Inside-IsFree :
      (hs : List ℕ) (vs : ℕ → List ℕ) (d : Dance) (s : List ℕ)
      → IsLinkedMatrix hs vs d
      → Distinct s
      → All (Inside col hs vs) s
      → IsFree d s
  Inside-IsFree hs vs d [] h dist all = tt
  Inside-IsFree hs vs d (j ∷ s) h (out, dist) (is, all) =
      let (a, b) = Inside-Mutual hs vs d j h is in
      (record { up_down = a; down_up = b }, apart_all j s out, Inside-IsFree hs vs d s h dist all)
