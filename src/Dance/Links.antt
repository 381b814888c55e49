-- ===== src/Dance/Links.antt =====
-- The vertical links of Lab1/sudoku_dancing_links.cpp while nodes are taken out of their columns:
-- a stack of taken nodes, the last on top, determines the links.
use mathlib.Core.Path.{fun_ext}
use cloud_computing.Prelude.{
  ℕ, zero, suc, List, All, [], ◌∷◌, ◌≡◌, ◌≢◌, refl, sym, ap, ◌∙◌, update, update_self, arith,
}
use cloud_computing.Std.Int.{ℤ, pos, negsuc}
use cloud_computing.Dance.{Dance, inc, dec, unlink, relink}

-- The neighbours of a node point at it.
pub record IsLinked (j : ℕ) (d : Dance) : Type 0 where
  pub up_down : d.up (d.down j) ≡ j
  pub down_up : d.down (d.up j) ≡ j

-- The links after the nodes of a stack have been taken out, the bottom first.
abbrev pub taken : List ℕ → Dance → Dance
taken [] d = d
taken (j ∷ s) d = unlink j (taken s d)

-- The nodes of the stack are different ones, and each is linked before the first is taken out.
abbrev pub IsFree : Dance → List ℕ → Type 0
IsFree d [] = Unit
IsFree d (j ∷ s) = IsLinked j d × All (λ k. j ≢ k) s × IsFree d s

inc-dec : (n : ℤ) → inc (dec n) ≡ n
inc-dec (pos zero) = refl
inc-dec (pos (suc n)) = ap pos (omega arith)
inc-dec (negsuc n) = refl

update-update {ℓ} :
    {A : Type ℓ} (f : ℕ → A) (i : ℕ) (a b : A) → f i ≡ b → update (update f i a) i b ≡ f
update-update f i a b h = fun_ext (λ j. ground arith)

unlink-IsLinked :
    (j k : ℕ) (d : Dance) → j ≢ k → IsLinked k d → IsLinked j d → IsLinked j (unlink k d)
unfolding unlink
unlink-IsLinked j k d ne hk hj = record {
  up_down = ground (arith, hk.up_down, hk.down_up, hj.up_down, hj.down_up);
  down_up = ground (arith, hk.up_down, hk.down_up, hj.up_down, hj.down_up);
}

update_at {ℓ} : {A : Type ℓ} (f : ℕ → A) (i j : ℕ) → update f i (f j) j ≡ f j
update_at f i j = ground arith

with_links :
    (d : Dance) (up down : ℕ → ℕ) (size : ℕ → ℤ)
    → up ≡ d.up
    → down ≡ d.down
    → size ≡ d.size
    → record d { up = up; down = down; size = size } ≡ d
with_links d up down size p q r = λ i. record d { up = p i; down = q i; size = r i }

-- A node that is taken out of a doubly linked list and put back, `f` and `g` being the two directions;
-- the second assignment reads what the first one wrote.
module _ (f g : ℕ → ℕ) (j : ℕ) (back : f (g j) ≡ j) where
  pub restored_first : update (update f (g j) (f j)) (update g (f j) (g j) j) j ≡ f
  restored_first =
      ap (λ x. update (update f (g j) (f j)) x j) (update_at g (f j) j)
      ∙ update-update f (g j) (f j) j back

  pub restored_second :
      g (f j) ≡ j
      → update (update g (f j) (g j)) (update (update f (g j) (f j)) (update g (f j) (g j) j) j j) j
        ≡ g
  restored_second forth =
      ap (λ h. update (update g (f j) (g j)) (h j) j) restored_first
      ∙ update-update g (f j) (g j) j forth

pub relink-unlink : (j : ℕ) (d : Dance) → IsLinked j d → relink j (unlink j d) ≡ d
unfolding relink unlink
relink-unlink j d h =
    let size = d.size (d.col j) in
    with_links d _ _ _ (restored_first d.up d.down j h.up_down)
      (restored_second d.up d.down j h.up_down h.down_up)
      (ap (λ z. update (update d.size (d.col j) (dec size)) (d.col j) (inc z))
          (update_self d.size (d.col j) (dec size))
        ∙ update-update d.size (d.col j) (dec size) (inc (dec size)) (sym (inc-dec size)))

taken-IsLinked :
    (j : ℕ) (s : List ℕ) (d : Dance)
    → IsFree d s
    → All (λ k. j ≢ k) s
    → IsLinked j d
    → IsLinked j (taken s d)
taken-IsLinked j [] d free apart h = h
taken-IsLinked j (k ∷ s) d (hk, ks, free) (ne, apart) h =
    unlink-IsLinked j k (taken s d) ne (taken-IsLinked k s d free ks hk)
      (taken-IsLinked j s d free apart h)

pub top-IsLinked : (j : ℕ) (s : List ℕ) (d : Dance) → IsFree d (j ∷ s) → IsLinked j (taken s d)
top-IsLinked j s d (h, apart, free) = taken-IsLinked j s d free apart h

-- What the columns look like to the nodes that have not been taken out.
unlink-down : (x y : ℕ) (d : Dance) → IsLinked x d → d.down y ≢ x → (unlink x d).down y ≡ d.down y
unfolding unlink
unlink-down x y d h ne = ground (arith, h.down_up)

unlink-up : (x y : ℕ) (d : Dance) → IsLinked x d → d.up y ≢ x → (unlink x d).up y ≡ d.up y
unfolding unlink
unlink-up x y d h ne = ground (arith, h.up_down)

pub taken-down :
    (y : ℕ) (s : List ℕ) (d : Dance)
    → IsFree d s
    → All (λ k. d.down y ≢ k) s
    → (taken s d).down y ≡ d.down y
taken-down y [] d free apart = refl
taken-down y (j ∷ s) d (h, fresh, free) (ne, apart) =
    let same = taken-down y s d free apart in
    unlink-down j y (taken s d) (taken-IsLinked j s d free fresh h) (λ e. ne (sym same ∙ e)) ∙ same

pub taken-up :
    (y : ℕ) (s : List ℕ) (d : Dance)
    → IsFree d s
    → All (λ k. d.up y ≢ k) s
    → (taken s d).up y ≡ d.up y
taken-up y [] d free apart = refl
taken-up y (j ∷ s) d (h, fresh, free) (ne, apart) =
    let same = taken-up y s d free apart in
    unlink-up j y (taken s d) (taken-IsLinked j s d free fresh h) (λ e. ne (sym same ∙ e)) ∙ same

-- The rows and the columns' names stay as they are.
pub taken-right : (s : List ℕ) (d : Dance) → (taken s d).right ≡ d.right
unfolding unlink
taken-right [] d = refl
taken-right (j ∷ s) d = taken-right s d

pub taken-left : (s : List ℕ) (d : Dance) → (taken s d).left ≡ d.left
unfolding unlink
taken-left [] d = refl
taken-left (j ∷ s) d = taken-left s d
