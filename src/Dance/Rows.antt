-- ===== src/Dance/Rows.antt =====
-- The loops of Lab1/sudoku_dancing_links.cpp that follow a pointer until it is back at the start.
use cloud_computing.Prelude.{
  ℕ, zero, suc, ◌+◌, ◌≤◌, true, false, Option, some, List, All, [], ◌∷◌, ◌++◌, length, ◌≡◌, ◌≢◌,
  refl, sym, ap, ◌∙◌, ◌==◌, arith,
}
use cloud_computing.Dance.{Dance, walk, unlink, relink, cover_row, uncover_row}
use cloud_computing.Dance.Links.{
  IsFree, taken, relink-unlink, top-IsLinked, taken-right, taken-left,
}

-- From `x`, the pointers `f` visit `xs` and then `end`.
abbrev pub Chain : (ℕ → ℕ) → ℕ → ℕ → List ℕ → Type 0
Chain f end x [] = x ≡ end
Chain f end x (y ∷ ys) = (x ≡ y) × (y ≢ end) × Chain f end (f y) ys

-- The body runs at each node of the list, and leaves the next pointer of the node as in `f`.
pub data Runs (next : Dance → ℕ → ℕ) (body : ℕ → Dance → Option Dance) (f : ℕ → ℕ)
    : List ℕ → Dance → Dance → Type 0 where
  done : {d : Dance} → Runs next body f [] d d
  step :
      {x : ℕ} {xs : List ℕ} {d e g : Dance}
      → body x d ≡ some e
      → next e x ≡ f x
      → Runs next body f xs e g
      → Runs next body f (x ∷ xs) d g

pub eq_true : (a b : ℕ) → a ≡ b → (a == b) ≡ true
eq_true a b h = ground arith

pub eq_false : (a b : ℕ) → a ≢ b → (a == b) ≡ false
eq_false a b h = ground arith

pub walk-Runs :
    (next : Dance → ℕ → ℕ) (body : ℕ → Dance → Option Dance) (f : ℕ → ℕ) (rounds end x : ℕ)
    (xs : List ℕ) (d e : Dance)
    → length xs ≤ rounds
    → Chain f end x xs
    → Runs next body f xs d e
    → walk next body rounds end x d ≡ some e
unfolding walk
walk-Runs next body f zero end x [] d e fuel path done = rw (walk, eq_true x end path) refl
walk-Runs next body f (suc rounds) end x [] d e fuel path done = rw (walk, eq_true x end path) refl
walk-Runs next body f zero end x (y ∷ ys) d e fuel path runs = absurd (omega arith)
walk-Runs next body f (suc rounds) end x (y ∷ ys) d e fuel (here, ne, path)
      (step {e = g} ran same runs) =
    rw (walk, eq_false x end (λ e. ne (sym here ∙ e)), here, ran, same)
      (walk-Runs next body f rounds end (f y) ys g e (omega arith) path runs)

-- The nodes of `js` are put on the stack `s`, the first one first.
abbrev pub onto : List ℕ → List ℕ → List ℕ
onto [] s = s
onto (j ∷ js) s = onto js (j ∷ s)

pub onto-append : (js s t : List ℕ) → onto js (s ++ t) ≡ onto js s ++ t
onto-append [] s t = refl
onto-append (j ∷ js) s t = onto-append js (j ∷ s) t

pub length-onto : (js s : List ℕ) → length (onto js s) ≡ length js + length s
length-onto [] s = omega arith
length-onto (j ∷ js) s = omega (arith, length-onto js (j ∷ s))

pub All-onto : (P : ℕ → Type 0) (js s : List ℕ) → All P js → All P s → All P (onto js s)
All-onto P [] s _ hs = hs
All-onto P (j ∷ js) s (h, hjs) hs = All-onto P js (j ∷ s) hjs (h, hs)

module _ (d : Dance) where
  cover-Runs :
      (js s : List ℕ)
      → Runs (λ e. e.right) (λ j e. some (unlink j e)) d.right js (taken s d) (taken (onto js s) d)
  cover-Runs [] s = done
  cover-Runs (j ∷ js) s = step refl (ap (λ f. f j) (taken-right (j ∷ s) d)) (cover-Runs js (j ∷ s))

  pub cover_row_lem :
      (rounds row : ℕ) (js s : List ℕ)
      → length js ≤ rounds
      → Chain d.right row (d.right row) js
      → cover_row rounds row (taken s d) ≡ some (taken (onto js s) d)
  unfolding cover_row
  cover_row_lem rounds row js s fuel path = rw (ap (λ f. f row) (taken-right s d)) (
      walk-Runs (λ e. e.right) (λ j e. some (unlink j e)) d.right rounds row (d.right row) js _ _
        fuel path (cover-Runs js s))

  uncover-Runs :
      (js s : List ℕ)
      → IsFree d (js ++ s)
      → Runs (λ e. e.left) (λ j e. some (relink j e)) d.left js (taken (js ++ s) d) (taken s d)
  uncover-Runs [] s free = done
  uncover-Runs (j ∷ js) s (h, fresh, free) =
      step
        (ap some
          (relink-unlink j (taken (js ++ s) d) (top-IsLinked j (js ++ s) d (h, fresh, free))))
        (ap (λ f. f j) (taken-left (js ++ s) d)) (uncover-Runs js s free)

  pub uncover_row_lem :
      (rounds row : ℕ) (js s : List ℕ)
      → length js ≤ rounds
      → Chain d.left row (d.left row) js
      → IsFree d (js ++ s)
      → uncover_row rounds row (taken (js ++ s) d) ≡ some (taken s d)
  unfolding uncover_row
  uncover_row_lem rounds row js s fuel path free = rw (ap (λ f. f row) (taken-left (js ++ s) d)) (
      walk-Runs (λ e. e.left) (λ j e. some (relink j e)) d.left rounds row (d.left row) js _ _ fuel
        path (uncover-Runs js s free))
