-- ===== src/Prelude/Loops.antt =====
-- `for (id = 1; id <= n; id++)`, maps with a default as functions, and the invariant rule.
use Prim.Native.Nat.{ℕ, zero, suc, ◌≤◌}
use mathlib.Core.Path.{◌≡◌}
use mathlib.Core.Logic.{◌≢◌}
use native.Mathlib.Omega.{arith}
use cloud_computing.Prelude.Tests.{◌==◌, if◌then◌else◌}

module _ {ℓ} {S : Type ℓ} where
  -- the rounds run in the order 1, 2, …, n
  unfoldable pub for_ids : ℕ → (ℕ → S → S) → S → S
  for_ids zero body s = s
  for_ids (suc n) body s = body (suc n) (for_ids n body s)

  pub for_ids_inv {κ} :
      (P : ℕ → S → Type κ) (body : ℕ → S → S) (n : ℕ) (s : S)
      → ((i : ℕ) (t : S) → suc i ≤ n → P i t → P (suc i) (body (suc i) t))
      → P 0 s
      → P n (for_ids n body s)
  unfolding for_ids
  for_ids_inv P body zero s keep h = h
  for_ids_inv P body (suc n) s keep h =
      keep n (for_ids n body s) (omega arith)
        (for_ids_inv P body n s (λ i t lt. keep i t (omega arith)) h)

abbrev pub update {ℓ} : {A : Type ℓ} → (ℕ → A) → ℕ → A → ℕ → A
update f i a j = if i == j then a else f j

pub update_self {ℓ} : {A : Type ℓ} (f : ℕ → A) (i : ℕ) (a : A) → update f i a i ≡ a
update_self f i a = ground arith

pub update-ne {ℓ} : {A : Type ℓ} (f : ℕ → A) (i j : ℕ) (a : A) → j ≢ i → update f i a j ≡ f j
update-ne f i j a h = ground arith
