-- ===== src/Dance/Undo.antt =====
-- `uncover` of Lab1/sudoku_dancing_links.cpp gives the links back that `cover` has changed.
use cloud_computing.Prelude.{
  ℕ, ◌≤◌, some, List, All, [], ◌∷◌, ◌++◌, length, ◌≡◌, ◌≢◌, refl, sym, ap, subst, ◌∙◌, append_assoc,
  update-ne, arith, ◌>>=◌,
}
use cloud_computing.Dance.{Dance, hide, show, cover, uncover, cover_row, uncover_row}
use cloud_computing.Dance.Links.{
  IsFree, taken, taken-down, taken-up, restored_first, restored_second,
}
use cloud_computing.Dance.Rows.{
  Chain, Runs, done, step, walk-Runs, onto, onto-append, length-onto, All-onto, cover_row_lem,
  uncover_row_lem,
}

module _ (nodes : ℕ → List ℕ) where
  -- The stack of the nodes of rows, the rows' nodes from left to right.
  abbrev pub stack_of : List ℕ → List ℕ
  stack_of [] = []
  stack_of (r ∷ rs) = onto (nodes r) [] ++ stack_of rs

  -- The pointers of a row lead once around it, in both directions.
  abbrev pub IsRow : Dance → ℕ → Type 0
  IsRow d r = Chain d.right r (d.right r) (nodes r) × Chain d.left r (d.left r) (onto (nodes r) [])

  -- No node on the stack is `y`.
  abbrev Apart : List ℕ → ℕ → Type 0
  Apart s y = All (λ k. y ≢ k) s

  -- A column with the rows `rows`, as the loops meet it: the links lead around it and around its rows,
  -- the nodes of the rows are different ones, linked, and not in the column, and the column's header is
  -- linked to headers that are in no row.
  pub record IsColumn (c : ℕ) (rows : List ℕ) (d : Dance) : Type 0 where
    pub down : Chain d.down c (d.down c) rows
    pub up : Chain d.up c (d.up c) (onto rows [])
    pub across : All (IsRow d) rows
    pub free : IsFree d (stack_of (onto rows []))
    pub apart : All (Apart (stack_of (onto rows []))) (c ∷ rows)
    pub left_right : d.left (d.right c) ≡ c
    pub right_left : d.right (d.left c) ≡ c
    pub headers : All (λ r. All (λ j. (j ≢ d.left c) × (j ≢ d.right c)) (r ∷ nodes r)) rows

  -- A part of a stack that reaches down to its bottom.
  abbrev Bottom : List ℕ → List ℕ → Type 0
  Bottom s t = (p : List ℕ) × (s ≡ p ++ t)

  Bottom-tail : (s a t : List ℕ) → Bottom s (a ++ t) → Bottom s t
  Bottom-tail s a t (p, e) = (p ++ a, e ∙ sym (append_assoc p a t))

  All-Bottom : (P : ℕ → Type 0) (s t : List ℕ) → Bottom s t → All P s → All P t
  All-Bottom P s t (p, e) all = drop p (subst (All P) e all)
    where
      drop : (p : List ℕ) → All P (p ++ t) → All P t
      drop [] all = all
      drop (x ∷ p) (h, all) = drop p all

  IsFree-Bottom : (d : Dance) (s t : List ℕ) → Bottom s t → IsFree d s → IsFree d t
  IsFree-Bottom d s t (p, e) all = drop p (subst (IsFree d) e all)
    where
      drop : (p : List ℕ) → IsFree d (p ++ t) → IsFree d t
      drop [] free = free
      drop (x ∷ p) (h, fresh, free) = drop p free

  stack_of-onto : (rs qs : List ℕ) → Bottom (stack_of (onto rs qs)) (stack_of qs)
  stack_of-onto [] qs = ([], refl)
  stack_of-onto (r ∷ rs) qs =
      Bottom-tail (stack_of (onto rs (r ∷ qs))) (onto (nodes r) []) (stack_of qs)
        (stack_of-onto rs (r ∷ qs))

  module _ (d : Dance) (rounds : ℕ) where
    cover_rows-Runs :
        (rs qs : List ℕ)
        → All (IsRow d) rs
        → All (λ r. length (nodes r) ≤ rounds) rs
        → IsFree d (stack_of (onto rs qs))
        → All (λ r. Apart (stack_of (onto rs qs)) (d.down r)) rs
        → Runs
            (λ e. e.down)
            (cover_row rounds)
            d.down
            rs
            (taken (stack_of qs) d)
            (taken (stack_of (onto rs qs)) d)
    cover_rows-Runs [] qs across fuel free apart = done
    cover_rows-Runs (r ∷ rs) qs ((path, _), across) (enough, fuel) free (ap_r, apart) =
        let below = stack_of-onto rs (r ∷ qs) in
        step
          (cover_row_lem d rounds r (nodes r) (stack_of qs) enough path
            ∙ ap (λ s. some (taken s d)) (onto-append (nodes r) [] (stack_of qs)))
          (taken-down r (stack_of (r ∷ qs)) d (IsFree-Bottom d _ (stack_of (r ∷ qs)) below free)
            (All-Bottom (λ k. d.down r ≢ k) _ (stack_of (r ∷ qs)) below ap_r))
          (cover_rows-Runs rs (r ∷ qs) across fuel free apart)

    uncover_rows-Runs :
        (s rs : List ℕ)
        → Bottom s (stack_of rs)
        → All (IsRow d) rs
        → All (λ r. length (nodes r) ≤ rounds) rs
        → IsFree d s
        → All (λ r. Apart s (d.up r)) rs
        → Runs (λ e. e.up) (uncover_row rounds) d.up rs (taken (stack_of rs) d) d
    uncover_rows-Runs s [] below across fuel free apart = done
    uncover_rows-Runs s (r ∷ rs) below ((_, path), across) (enough, fuel) free (ap_r, apart) =
        let bottom = Bottom-tail s (onto (nodes r) []) (stack_of rs) below in
        step
          (uncover_row_lem d rounds r (onto (nodes r) []) (stack_of rs)
            (omega (arith, length-onto (nodes r) [])) path
            (IsFree-Bottom d s (stack_of (r ∷ rs)) below free))
          (taken-up r (stack_of rs) d (IsFree-Bottom d s (stack_of rs) bottom free)
            (All-Bottom (λ k. d.up r ≢ k) s (stack_of rs) bottom ap_r))
          (uncover_rows-Runs s rs bottom across fuel free apart)

  All-weaken : {P Q : ℕ → Type 0} → ((x : ℕ) → P x → Q x) → (xs : List ℕ) → All P xs → All Q xs
  All-weaken f [] all = tt
  All-weaken f (x ∷ xs) (h, all) = (f x h, All-weaken f xs all)

  -- Every pointer of a path leads to a node of the path or to its end.
  pub All-Chain :
      (P : ℕ → Type 0) (f : ℕ → ℕ) (end x : ℕ) (xs : List ℕ)
      → Chain f end x xs
      → P end
      → All P xs
      → P x × All (λ y. P (f y)) xs
  All-Chain P f end x [] path pe all = (subst P (sym path) pe, tt)
  All-Chain P f end x (y ∷ ys) (here, ne, path) pe (py, all) =
      (subst P (sym here) py, All-Chain P f end (f y) ys path pe all)

  module _ (c : ℕ) (d : Dance) where
    pub hide-IsFree : (s : List ℕ) → IsFree d s → IsFree (hide c d) s
    unfolding hide
    hide-IsFree [] free = tt
    hide-IsFree (j ∷ s) (h, fresh, free) =
        (record { up_down = h.up_down; down_up = h.down_up }, fresh, hide-IsFree s free)

    hide-right :
        (end x : ℕ) (xs : List ℕ)
        → All (λ j. j ≢ d.left c) xs
        → Chain d.right end x xs
        → Chain (hide c d).right end x xs
    unfolding hide
    hide-right end x [] ne path = path
    hide-right end x (y ∷ ys) (ne, nes) (here, go, path) = (
      here,
      go,
      rw (update-ne d.right (d.left c) y (d.right c) ne) (hide-right end (d.right y) ys nes path),
    )

    hide-left :
        (end x : ℕ) (xs : List ℕ)
        → All (λ j. j ≢ d.right c) xs
        → Chain d.left end x xs
        → Chain (hide c d).left end x xs
    unfolding hide
    hide-left end x [] ne path = path
    hide-left end x (y ∷ ys) (ne, nes) (here, go, path) = (
      here,
      go,
      rw (update-ne d.left (d.right c) y (d.left c) ne) (hide-left end (d.left y) ys nes path),
    )

    show-hide : d.left (d.right c) ≡ c → d.right (d.left c) ≡ c → show c (hide c d) ≡ d
    unfolding show hide
    show-hide lr rl =
        let left_same = restored_first d.left d.right c lr in
        let right_same = restored_second d.left d.right c lr rl in
        λ i. record d { left = left_same i; right = right_same i }

    pub IsRow-hide :
        (r : ℕ)
        → All (λ j. (j ≢ d.left c) × (j ≢ d.right c)) (r ∷ nodes r)
        → IsRow d r
        → IsRow (hide c d) r
    unfolding hide
    IsRow-hide r ((nl, nr), ne) (right, left) = (
      rw (update-ne d.right (d.left c) r (d.right c) nl)
          (hide-right r (d.right r) (nodes r) (All-weaken (λ x both. both.0) (nodes r) ne) right),
      rw (update-ne d.left (d.right c) r (d.left c) nr) (
          hide-left r (d.left r) (onto (nodes r) [])
            (All-onto (λ j. j ≢ d.right c) (nodes r) [] (All-weaken (λ x both. both.1) (nodes r) ne)
              tt)
            left),
    )

    across-hide :
        (rows : List ℕ)
        → All (λ r. All (λ j. (j ≢ d.left c) × (j ≢ d.right c)) (r ∷ nodes r)) rows
        → All (IsRow d) rows
        → All (IsRow (hide c d)) rows
    across-hide [] _ _ = tt
    across-hide (r ∷ rs) (ne, nes) (row, across) = (IsRow-hide r ne row, across-hide rs nes across)

    module _ (rounds : ℕ) (rows : List ℕ) (column : IsColumn c rows d) (fuel : length rows ≤ rounds)
        (enough : All (λ r. length (nodes r) ≤ rounds) rows) where
      pub covered : cover rounds c d ≡ some (taken (stack_of (onto rows [])) (hide c d))
      unfolding cover hide
      covered =
          walk-Runs (λ e. e.down) (cover_row rounds) d.down rounds c (d.down c) rows _ _ fuel
            column.down
            (cover_rows-Runs (hide c d) rounds rows []
              (across-hide rows column.headers column.across) enough (hide-IsFree _ column.free)
              (All-Chain (Apart (stack_of (onto rows []))) d.down c (d.down c) rows column.down
                column.apart.0 column.apart.1).1)

      pub uncovered : uncover rounds c (taken (stack_of (onto rows [])) (hide c d)) ≡ some d
      unfolding uncover hide
      uncovered =
          let rs = onto rows [] in
          let s = stack_of rs in
          let (first, rest) =
            All-Chain (Apart s) d.up c (d.up c) rs column.up column.apart.0
              (All-onto (Apart s) rows [] column.apart.1 tt) in
          let walked =
            walk-Runs (λ e. e.up) (uncover_row rounds) d.up rounds c (d.up c) rs _ _
              (omega (arith, length-onto rows [])) column.up
              (uncover_rows-Runs (hide c d) rounds s rs ([], refl)
                (All-onto (IsRow (hide c d)) rows [] (across-hide rows column.headers column.across)
                  tt)
                (All-onto (λ r. length (nodes r) ≤ rounds) rows [] enough tt)
                (hide-IsFree s column.free) rest) in
          rw (taken-up c s (hide c d) (hide-IsFree s column.free) first, walked)
            (ap some (show-hide column.left_right column.right_left))

      -- Covering a column ends, and uncovering it afterwards ends and gives every link and every size
      -- back.
      pub uncover-cover : (cover rounds c d >>= uncover rounds c) ≡ some d
      uncover-cover = rw covered uncovered
