-- ===== src/Dance/Search/Choose.antt =====
-- The loops of `solve` in Lab1/sudoku_dancing_links.cpp that cover the columns of a row, and uncover
-- them again.
use cloud_computing.Prelude.{
  ℕ, ◌≡◌, ◌<◌, ◌≤◌, refl, ap, ◌∙◌, true, some, List, [], ◌∷◌, ◌++◌, arith, update-ne,
}
use cloud_computing.Dance.{Dance, hide, cover, uncover}
use cloud_computing.Dance.Links.{taken-right, taken-left}
use cloud_computing.Dance.Rows.{Runs, done, step, walk-Runs, onto, length-onto}
use cloud_computing.Dance.Solve.{choose, take_back, pop_back}
use cloud_computing.Dance.Search.Members.{mem, remove, without}
use cloud_computing.Dance.Search.Full.{AreRows, rest_of}
use cloud_computing.Dance.Search.Cover.{
  IsMatrix, with_stack, after_cover, cover-IsMatrix, near_headers, cover_runs, uncover_runs,
}

pop_back-append : (s : List ℕ) (x : ℕ) → pop_back (s ++ (x ∷ [])) ≡ s
unfolding pop_back
pop_back-append [] x = refl
pop_back-append (y ∷ []) x = refl
pop_back-append (y ∷ z ∷ s) x = ap (λ t. y ∷ t) (pop_back-append (z ∷ s) x)

-- The headers, the columns and the links after the columns of the nodes have been covered
module _ (nodes : ℕ → List ℕ) (col : ℕ → ℕ) where
  abbrev pub hs_left : List ℕ → List ℕ → List ℕ
  hs_left [] hs = hs
  hs_left (j ∷ js) hs = hs_left js (remove (col j) hs)

  abbrev pub vs_left : List ℕ → (ℕ → List ℕ) → ℕ → List ℕ
  vs_left [] vs = vs
  vs_left (j ∷ js) vs = vs_left js (λ x. without (rest_of nodes (col j) vs) (vs x))

  abbrev pub after_all : List ℕ → (ℕ → List ℕ) → Dance → Dance
  after_all [] vs d = d
  after_all (j ∷ js) vs d =
      after_all js (λ x. without (rest_of nodes (col j) vs) (vs x)) (after_cover nodes (col j) vs d)

module _ (nodes : ℕ → List ℕ) (base top rounds : ℕ) (col : ℕ → ℕ)
    (rows : AreRows nodes base top rounds) where
  -- The nodes are in different columns that are not covered.
  abbrev pub Choosable : List ℕ → List ℕ → Type 0
  Choosable [] hs = Unit
  Choosable (j ∷ js) hs = (mem (col j) hs ≡ true) × (base ≤ j) × Choosable js (remove (col j) hs)

  pub choose-IsMatrix :
      (js hs : List ℕ) (vs : ℕ → List ℕ) (d : Dance)
      → IsMatrix nodes base top rounds col hs vs d
      → Choosable js hs
      → IsMatrix nodes base top rounds col
          (hs_left nodes col js hs)
          (vs_left nodes col js vs)
          (after_all nodes col js vs d)
  choose-IsMatrix [] hs vs d h ok = h
  choose-IsMatrix (j ∷ js) hs vs d h (at, le, ok) =
      choose-IsMatrix js (remove (col j) hs) _ _
        (cover-IsMatrix nodes base top rounds col rows (col j) hs vs at d h) ok

  pub after-right :
      (c y : ℕ) (hs : List ℕ) (vs : ℕ → List ℕ) (d : Dance)
      → IsMatrix nodes base top rounds col hs vs d
      → mem c hs ≡ true
      → base ≤ y
      → (after_cover nodes c vs d).right y ≡ d.right y
  unfolding hide
  after-right c y hs vs d h at le =
      let (l, r) = near_headers nodes base top rounds col rows c hs vs at d h in
      ap (λ f. f y) (taken-right (rest_of nodes c vs) (hide c d))
      ∙ update-ne d.right (d.left c) y (d.right c) (λ e. omega (arith, e))

  after-left :
      (c y : ℕ) (hs : List ℕ) (vs : ℕ → List ℕ) (d : Dance)
      → IsMatrix nodes base top rounds col hs vs d
      → mem c hs ≡ true
      → base ≤ y
      → (after_cover nodes c vs d).left y ≡ d.left y
  unfolding hide
  after-left c y hs vs d h at le =
      let (l, r) = near_headers nodes base top rounds col rows c hs vs at d h in
      ap (λ f. f y) (taken-left (rest_of nodes c vs) (hide c d))
      ∙ update-ne d.left (d.right c) y (d.left c) (λ e. omega (arith, e))

  module _ (f : ℕ → ℕ) (t : List ℕ) where
    choose-Runs :
        (js hs : List ℕ) (vs : ℕ → List ℕ) (d : Dance)
        → IsMatrix nodes base top rounds col hs vs d
        → Choosable js hs
        → ((y : ℕ) → base ≤ y → d.right y ≡ f y)
        → Runs
            (λ e. e.right)
            (λ j e. cover rounds (e.col j) e)
            f
            js
            (with_stack t d)
            (with_stack t (after_all nodes col js vs d))
    choose-Runs [] hs vs d h ok same = done
    choose-Runs (j ∷ js) hs vs d h (at, le, ok) same =
        let next =
          λ (y : ℕ) (high : base ≤ y). after-right (col j) y hs vs d h at high ∙ same y high in
        step
          (ap (λ c. cover rounds (c j) (with_stack t d)) h.linked.cols
            ∙ cover_runs nodes base top rounds col rows (col j) hs vs at d t h)
          (next j le)
          (choose-Runs js (remove (col j) hs) _ _
            (cover-IsMatrix nodes base top rounds col rows (col j) hs vs at d h) ok next)

    take_back-Runs :
        (js s hs : List ℕ) (vs : ℕ → List ℕ) (d z : Dance)
        → IsMatrix nodes base top rounds col hs vs d
        → Choosable js hs
        → ((y : ℕ) → base ≤ y → d.left y ≡ f y)
        → Runs (λ e. e.left) (λ j e. uncover rounds (e.col j) e) f s (with_stack t d) z
        → Runs
            (λ e. e.left)
            (λ j e. uncover rounds (e.col j) e)
            f
            (onto js s)
            (with_stack t (after_all nodes col js vs d))
            z
    take_back-Runs [] s hs vs d z h ok same runs = runs
    take_back-Runs (j ∷ js) s hs vs d z h (at, le, ok) same runs =
        let after = cover-IsMatrix nodes base top rounds col rows (col j) hs vs at d h in
        take_back-Runs js (j ∷ s) (remove (col j) hs) _ _ z after ok
          (λ y high. after-left (col j) y hs vs d h at high ∙ same y high)
          (step
            (ap (λ c. uncover rounds (c j) (with_stack t (after_cover nodes (col j) vs d)))
                after.linked.cols
              ∙ uncover_runs nodes base top rounds col rows (col j) hs vs at d t h)
            (same j le) runs)

  after_all-left :
      (js hs : List ℕ) (vs : ℕ → List ℕ) (d : Dance) (y : ℕ)
      → IsMatrix nodes base top rounds col hs vs d
      → Choosable js hs
      → base ≤ y
      → (after_all nodes col js vs d).left y ≡ d.left y
  after_all-left [] hs vs d y h ok le = refl
  after_all-left (j ∷ js) hs vs d y h (at, high, ok) le =
      after_all-left js (remove (col j) hs) _ _ y
        (cover-IsMatrix nodes base top rounds col rows (col j) hs vs at d h) ok le
      ∙ after-left (col j) y hs vs d h at le

  module _ (r : ℕ) (hs : List ℕ) (vs : ℕ → List ℕ) (d : Dance)
      (h : IsMatrix nodes base top rounds col hs vs d) (ok : Choosable (nodes r) hs) (le : base ≤ r)
      (lt : r < top) where
    pub choose_lem :
        choose rounds r d
        ≡ some (with_stack (d.stack ++ (r ∷ [])) (after_all nodes col (nodes r) vs d))
    unfolding choose
    choose_lem =
        walk-Runs (λ e. e.right) (λ j e. cover rounds (e.col j) e) d.right rounds r (d.right r)
          (nodes r) _ _ (rows.short r) (h.around r le lt).0
          (choose-Runs d.right (d.stack ++ (r ∷ [])) (nodes r) hs vs d h ok (λ y high. refl))

    pub take_back_lem :
        take_back rounds r (with_stack (d.stack ++ (r ∷ [])) (after_all nodes col (nodes r) vs d))
        ≡ some d
    unfolding take_back
    take_back_lem =
        rw (pop_back-append d.stack r, after_all-left (nodes r) hs vs d r h ok le)
          (walk-Runs (λ e. e.left) (λ j e. uncover rounds (e.col j) e) d.left rounds r (d.left r)
            (onto (nodes r) []) _ _ (omega (arith, length-onto (nodes r) [], rows.short r))
            (h.around r le lt).1
            (take_back-Runs d.left d.stack (nodes r) [] hs vs d _ h ok (λ y high. refl) done))
