-- ===== src/Dance/Search/Cover.antt =====
-- `cover` of Lab1/sudoku_dancing_links.cpp on a matrix.
use cloud_computing.Prelude.{
  ℕ, ◌≡◌, ◌≢◌, ◌<◌, ◌≤◌, refl, sym, ap, ◌∙◌, true, false, some, List, All, [], ◌∷◌, length, ◌==◌,
  ==_iff, Bool-cases, inl, inr, arith,
}
use cloud_computing.Dance.{Dance, root, hide, unlink, cover, uncover}
use cloud_computing.Dance.Links.{taken, taken-right, taken-left}
use cloud_computing.Dance.Rows.{Chain, onto, All-onto}
use cloud_computing.Dance.Undo.{IsRow, IsRow-hide, IsColumn, All-Chain, covered, uncovered}
use cloud_computing.Dance.Search.Members.{
  mem, remove, without, Distinct, mem-remove, mem-without, mem-onto, All-mem, mem-All,
  length-remove, length-without,
}
use cloud_computing.Dance.Search.Skip.{Mutual}
use cloud_computing.Dance.Search.Ring.{IsRing}
use cloud_computing.Dance.Search.Linked.{Inside, IsLinkedMatrix, hide_lem, taken_lem, Inside-IsFree}
use cloud_computing.Dance.Search.Full.{
  AreRows, IsFull, rest_of, Inside-rest, IsFull-remove, Distinct-rest,
}

not_end : (f : ℕ → ℕ) (end x c : ℕ) (xs : List ℕ) → Chain f end x xs → mem c xs ≡ true → end ≢ c
not_end f end x c [] path at = absurd (let both : false ≡ true = at in cc)
not_end f end x c (y ∷ ys) (here, ne, path) at = elim (Bool-cases (c == y)) [
  | inl e ↦ λ same. ne (sym ((==_iff c y).0 e) ∙ sym same)
  | inr e ↦ not_end f end (f y) c ys path (ground arith)
]

both_apart : (base y l r : ℕ) → l < base → r < base → base ≤ y → (y ≢ l) × (y ≢ r)
both_apart base y l r ll lr le = ((λ e. omega (arith, e)), (λ e. omega (arith, e)))

abbrev pub with_stack : List ℕ → Dance → Dance
with_stack t d = record d { stack = t }

taken-with_stack : (s t : List ℕ) (d : Dance) → taken s (with_stack t d) ≡ with_stack t (taken s d)
unfolding unlink
taken-with_stack [] t d = refl
taken-with_stack (j ∷ s) t d = ap (unlink j) (taken-with_stack s t d)

-- The links after `cover`, `d` being those before
abbrev pub after_cover : (ℕ → List ℕ) → ℕ → (ℕ → List ℕ) → Dance → Dance
after_cover nodes c vs d = taken (rest_of nodes c vs) (hide c d)

module _ (nodes : ℕ → List ℕ) (base top rounds : ℕ) (col : ℕ → ℕ) where
  -- The links stand for a matrix of whole rows, and the loops have rounds enough for it.
  pub record IsMatrix (hs : List ℕ) (vs : ℕ → List ℕ) (d : Dance) : Type 0 where
    pub linked : IsLinkedMatrix base col hs vs d
    pub full : IsFull nodes col hs vs
    pub around : (x : ℕ) → base ≤ x → x < top → IsRow nodes d x
    pub below : (c x : ℕ) → mem c hs ≡ true → mem x (vs c) ≡ true → x < top
    pub short : (c : ℕ) → mem c hs ≡ true → length (vs c) ≤ rounds
    pub few : length hs ≤ rounds

  pub with_stack-IsMatrix :
      (hs : List ℕ) (vs : ℕ → List ℕ) (t : List ℕ) (d : Dance)
      → IsMatrix hs vs d
      → IsMatrix hs vs (with_stack t d)
  with_stack-IsMatrix hs vs t d h = record {
    linked = record {
      has_root = h.linked.has_root;
      headers = h.linked.headers;
      column = h.linked.column;
      low = h.linked.low;
      high = h.linked.high;
      cols = h.linked.cols;
      under = h.linked.under;
    };
    full = h.full;
    around = h.around;
    below = h.below;
    short = h.short;
    few = h.few;
  }

  module _ (rows : AreRows nodes base top rounds) (c : ℕ) (hs : List ℕ) (vs : ℕ → List ℕ)
      (at : mem c hs ≡ true) where
    module _ (d : Dance) (h : IsMatrix hs vs d) where
      pub near_headers : (d.left c < base) × (d.right c < base)
      near_headers =
          let low = All-mem (λ y. y < base) hs h.linked.low in
          let ring = h.linked.headers in
          (
            mem-All (λ y. d.left y < base) (onto hs []) c
                (All-Chain nodes (λ y. y < base) d.left root (d.left root) (onto hs []) ring.back
                  h.linked.has_root (All-onto (λ y. y < base) hs [] low tt)).1
                (ground (arith, mem-onto c hs [])),
            mem-All (λ y. d.right y < base) hs c
                (All-Chain nodes (λ y. y < base) d.right root (d.right root) hs ring.forth
                  h.linked.has_root low).1
                at,
          )

      not_near : (x : ℕ) → base ≤ x → All (λ j. (j ≢ d.left c) × (j ≢ d.right c)) (x ∷ nodes x)
      not_near x le =
          let (l, r) = near_headers in
          (
            both_apart base x (d.left c) (d.right c) l r le,
            All-mem (λ j. (j ≢ d.left c) × (j ≢ d.right c)) (nodes x)
                (λ y near. both_apart base y (d.left c) (d.right c) l r (rows.high x y near)),
          )

      own : (x : ℕ) → mem x (vs c) ≡ true → col x ≡ c
      own x = h.linked.under c x at

      gone : (k : ℕ) → mem k (rest_of nodes c vs) ≡ true → Inside col (remove c hs) vs k
      gone = Inside-rest nodes base top rounds col rows c hs vs h.full own at

      was_inside : (k : ℕ) → mem k (rest_of nodes c vs) ≡ true → Inside col hs vs k
      was_inside k e = (ground (arith, mem-remove c (col k) hs, gone k e), (gone k e).1)

      elsewhere : (k : ℕ) → mem k (rest_of nodes c vs) ≡ true → col k ≢ c
      elsewhere k e same = ground (arith, mem-remove c (col k) hs, gone k e, same)

      dist : Distinct (rest_of nodes c vs)
      dist =
          Distinct-rest nodes base top rounds col rows c hs vs h.full own at
            (h.linked.column c at).distinct

      pub matrix-IsColumn : IsColumn nodes c (vs c) d
      matrix-IsColumn = record {
        down = ring.forth;
        up = ring.back;
        across =
            All-mem (IsRow nodes d) (vs c)
              (λ x inside. h.around x (h.linked.high c x at inside) (h.below c x at inside));
        free =
            Inside-IsFree base col hs vs d (rest_of nodes c vs) h.linked dist
              (All-mem (Inside col hs vs) (rest_of nodes c vs) (λ k e. was_inside k e));
        apart = (
          All-mem (λ k. c ≢ k) (rest_of nodes c vs)
              (λ k e. λ same. omega (
                arith,
                same,
                h.linked.low c at,
                h.linked.high (col k) k (was_inside k e).0 (was_inside k e).1,
              )),
          All-mem (λ r. All (λ k. r ≢ k) (rest_of nodes c vs)) (vs c)
              (λ r inside.
                All-mem (λ k. r ≢ k) (rest_of nodes c vs)
                  (λ k e. λ same. elsewhere k e (ap col (sym same) ∙ own r inside))),
        );
        left_right = (mem-All (Mutual d.right d.left) hs c h.linked.headers.at_nodes at).0;
        right_left = (mem-All (Mutual d.right d.left) hs c h.linked.headers.at_nodes at).1;
        headers =
            All-mem (λ r. All (λ j. (j ≢ d.left c) × (j ≢ d.right c)) (r ∷ nodes r)) (vs c)
              (λ x inside. not_near x (h.linked.high c x at inside));
      }
        where
          ring : IsRing d.down d.up c (vs c)
          ring = h.linked.column c at

      around-cover :
          (x : ℕ) → base ≤ x → x < top → IsRow nodes (taken (rest_of nodes c vs) (hide c d)) x
      around-cover x le lt =
          let row = IsRow-hide nodes c d x (not_near x le) (h.around x le lt) in
          rw
            (
              taken-right (rest_of nodes c vs) (hide c d),
              taken-left (rest_of nodes c vs) (hide c d),
            )
            row

      pub cover-IsMatrix :
          IsMatrix
            (remove c hs)
            (λ x. without (rest_of nodes c vs) (vs x))
            (after_cover nodes c vs d)
      cover-IsMatrix = record {
        linked =
            taken_lem base col (remove c hs) vs (hide c d) (rest_of nodes c vs)
              (hide_lem base col hs vs d c h.linked at
                (not_end d.right root (d.right root) c hs h.linked.headers.forth at))
              dist (All-mem (Inside col (remove c hs) vs) (rest_of nodes c vs) gone);
        full = IsFull-remove nodes base top rounds col rows c hs vs h.full own at;
        around = around-cover;
        below = λ e x is has.
            h.below e x (ground (arith, mem-remove c e hs))
              (ground (arith, mem-without (rest_of nodes c vs) x (vs e)));
        short = λ e is. omega (
          arith,
          h.short e (ground (arith, mem-remove c e hs)),
          length-without (rest_of nodes c vs) (vs e),
        );
        few = omega (arith, h.few, length-remove c hs);
      }

      short_rows : All (λ r. length (nodes r) ≤ rounds) (vs c)
      short_rows = All-mem (λ r. length (nodes r) ≤ rounds) (vs c) (λ r inside. rows.short r)

    pub cover_runs :
        (d : Dance) (t : List ℕ)
        → IsMatrix hs vs d
        → cover rounds c (with_stack t d) ≡ some (with_stack t (after_cover nodes c vs d))
    unfolding hide
    cover_runs d t h =
        let g = with_stack-IsMatrix hs vs t d h in
        covered nodes c (with_stack t d) rounds (vs c) (matrix-IsColumn (with_stack t d) g)
          (h.short c at) (short_rows d h)
        ∙ ap some (taken-with_stack (rest_of nodes c vs) t (hide c d))

    pub uncover_runs :
        (d : Dance) (t : List ℕ)
        → IsMatrix hs vs d
        → uncover rounds c (with_stack t (after_cover nodes c vs d)) ≡ some (with_stack t d)
    unfolding hide
    uncover_runs d t h =
        let g = with_stack-IsMatrix hs vs t d h in
        ap (uncover rounds c) (sym (taken-with_stack (rest_of nodes c vs) t (hide c d)))
        ∙ uncovered nodes c (with_stack t d) rounds (vs c) (matrix-IsColumn (with_stack t d) g)
            (h.short c at) (short_rows d h)
