-- ===== src/Dance/Search/Step.antt =====
-- The states that `solve` of Lab1/sudoku_dancing_links.cpp goes through.
use cloud_computing.Prelude.{
  ℕ, ◌≡◌, refl, sym, ap, subst, ◌∙◌, Bool, true, false, Option, some, List, All, [], ◌∷◌, ◌++◌,
  append_assoc,
}
use cloud_computing.Dance.{Dance, hide, unlink}
use cloud_computing.Dance.Links.{taken}
use cloud_computing.Dance.Search.Members.{mem, remove, without}
use cloud_computing.Dance.Search.Full.{AreRows, rest_of}
use cloud_computing.Dance.Search.Cover.{
  IsMatrix, with_stack, with_stack-IsMatrix, after_cover, cover-IsMatrix,
}
use cloud_computing.Dance.Search.Choose.{Choosable, choose-IsMatrix, after_all, hs_left, vs_left}
use cloud_computing.Dance.Search.Choice.{row-Choosable}
use cloud_computing.Dance.Search.Exact.{IsExactCover, IsExactCover-step}
use cloud_computing.Dance.Search.Digits.{
  IsNode, AreNamed, write_all, cover-AreNamed, choose-AreNamed, with_stack-AreNamed,
}

taken-stack : (s : List ℕ) (d : Dance) → (taken s d).stack ≡ d.stack
unfolding unlink
taken-stack [] d = refl
taken-stack (j ∷ s) d = taken-stack s d

taken-inout : (s : List ℕ) (d : Dance) → (taken s d).inout ≡ d.inout
unfolding unlink
taken-inout [] d = refl
taken-inout (j ∷ s) d = taken-inout s d

module _ (nodes : ℕ → List ℕ) (col : ℕ → ℕ) where
  pub after_cover-stack :
      (c : ℕ) (vs : ℕ → List ℕ) (d : Dance) → (after_cover nodes c vs d).stack ≡ d.stack
  unfolding hide
  after_cover-stack c vs d = taken-stack (rest_of nodes c vs) (hide c d)

  after_cover-inout :
      (c : ℕ) (vs : ℕ → List ℕ) (d : Dance) → (after_cover nodes c vs d).inout ≡ d.inout
  unfolding hide
  after_cover-inout c vs d = taken-inout (rest_of nodes c vs) (hide c d)

  after_all-inout :
      (js : List ℕ) (vs : ℕ → List ℕ) (d : Dance) → (after_all nodes col js vs d).inout ≡ d.inout
  after_all-inout [] vs d = refl
  after_all-inout (j ∷ js) vs d =
      after_all-inout js _ (after_cover nodes (col j) vs d) ∙ after_cover-inout (col j) vs d

module _ (nodes : ℕ → List ℕ) (base top rounds : ℕ) (col : ℕ → ℕ) (digit : ℕ → ℕ × ℕ)
    (rows : AreRows nodes base top rounds) where
  -- A state that `solve` meets
  pub record IsReady (hs : List ℕ) (vs : ℕ → List ℕ) (d : Dance) : Type 0 where
    pub matrix : IsMatrix nodes base top rounds col hs vs d
    pub named : AreNamed base top rounds digit d
    pub chosen : All (IsNode base top) d.stack

  -- Rows that meet every column once have been put on the stack, and the digits of the rows of the
  -- stack have been written.
  pub record IsSolved (hs : List ℕ) (vs : ℕ → List ℕ) (stack : List ℕ) (inout : ℕ → ℕ) (e : Dance)
      : Type 0 where
    pub solution : List ℕ
    pub exact : IsExactCover nodes col hs vs solution
    pub stacked : e.stack ≡ stack ++ solution
    pub written : e.inout ≡ write_all digit (stack ++ solution) inout

  -- The search from `d` ends: without a solution in `z`, where `Fails` holds, or with one.
  pub data Outcome (hs : List ℕ) (vs : ℕ → List ℕ) (d z : Dance) (Fails : Type 0)
      (o : Option (Bool × Dance)) : Type 0 where
    failed : o ≡ some (false, z) → Fails → Outcome hs vs d z Fails o
    solved :
        (e : Dance)
        → o ≡ some (true, e)
        → IsSolved hs vs d.stack d.inout e
        → Outcome hs vs d z Fails o

  All-append : (P : ℕ → Type 0) (xs ys : List ℕ) → All P xs → All P ys → All P (xs ++ ys)
  All-append P [] ys hx hy = hy
  All-append P (x ∷ xs) ys (h, hx) hy = (h, All-append P xs ys hx hy)

  module _ (c : ℕ) (hs : List ℕ) (vs : ℕ → List ℕ) (d : Dance) (at : mem c hs ≡ true)
      (ready : IsReady hs vs d) where
    -- The links when the column has been covered, and when a row has been chosen
    abbrev pub covered_links : Dance
    covered_links = after_cover nodes c vs d

    abbrev pub vs_covered : ℕ → List ℕ
    vs_covered x = without (rest_of nodes c vs) (vs x)

    abbrev pub chosen_links : ℕ → Dance
    chosen_links r =
        with_stack (covered_links.stack ++ (r ∷ []))
          (after_all nodes col (nodes r) vs_covered covered_links)

    pub covered_matrix : IsMatrix nodes base top rounds col (remove c hs) vs_covered covered_links
    covered_matrix = cover-IsMatrix nodes base top rounds col rows c hs vs at d ready.matrix

    pub row_ok :
        (r : ℕ)
        → mem r (vs c) ≡ true
        → Choosable nodes base top rounds col rows (nodes r) (remove c hs)
    row_ok r inside =
        row-Choosable nodes base top rounds col rows c hs vs d ready.matrix at r inside

    pub chosen-IsReady :
        (r : ℕ)
        → mem r (vs c) ≡ true
        → IsReady
            (hs_left nodes col (nodes r) (remove c hs))
            (vs_left nodes col (nodes r) vs_covered)
            (chosen_links r)
    chosen-IsReady r inside =
        let ok = row_ok r inside in
        let after =
          choose-IsMatrix nodes base top rounds col rows (nodes r) (remove c hs) vs_covered
            covered_links covered_matrix ok in
        record {
          matrix = with_stack-IsMatrix nodes base top rounds col _ _ _ _ after;
          named = with_stack-AreNamed nodes base top rounds col digit rows _ _ _ _ after (
              choose-AreNamed nodes base top rounds col digit rows (nodes r) (remove c hs)
                vs_covered covered_links covered_matrix ok
                (cover-AreNamed nodes base top rounds col digit rows c hs vs d ready.matrix at
                  ready.named));
          chosen =
              All-append (IsNode base top) covered_links.stack (r ∷ [])
                (subst (All (IsNode base top)) (sym (after_cover-stack nodes col c vs d))
                  ready.chosen)
                ((ready.matrix.linked.high c r at inside, ready.matrix.below c r at inside), tt);
        }

    pub IsSolved-step :
        (r : ℕ) (e : Dance)
        → mem r (vs c) ≡ true
        → IsSolved
            (hs_left nodes col (nodes r) (remove c hs))
            (vs_left nodes col (nodes r) vs_covered)
            (chosen_links r).stack
            (chosen_links r).inout
            e
        → IsSolved hs vs d.stack d.inout e
    IsSolved-step r e inside s =
        let longer : (covered_links.stack ++ (r ∷ [])) ++ s.solution ≡ d.stack ++ (r ∷ s.solution) =
          append_assoc covered_links.stack (r ∷ []) s.solution
          ∙ ap (λ t. t ++ (r ∷ s.solution)) (after_cover-stack nodes col c vs d) in
        let board : (chosen_links r).inout ≡ d.inout =
          after_all-inout nodes col (nodes r) vs_covered covered_links
          ∙ after_cover-inout nodes col c vs d in
        record {
          solution = r ∷ s.solution;
          exact =
              IsExactCover-step nodes base top rounds col rows c r hs vs s.solution at inside
                (ready.matrix.linked.under c r at inside) (row_ok r inside) s.exact;
          stacked = s.stacked ∙ longer;
          written =
              s.written
              ∙ ap (λ t. write_all digit t (chosen_links r).inout) longer
              ∙ ap (write_all digit (d.stack ++ (r ∷ s.solution))) board;
        }
