-- ===== src/Dance/Table/Inverse.antt =====
-- What a fallible step that has ended says of the steps in it.
use cloud_computing.Prelude.{
  ℕ, zero, suc, ◌<◌, ◌≡◌, refl, Bool, true, false, Option, none, some, some_inj, subst, check,
  arith, ◌>>=◌, ◌>>◌,
}
use cloud_computing.Dance.{Dance}
use cloud_computing.Dance.Build.{for_below}

pub none_ends {ℓ} : {A : Type ℓ} (a : A) → ¬ (none ≡ some a)
none_ends a e = absurd (cc)

-- Both steps of a sequence have ended.
pub bind_ends {ℓ κ} :
    {A : Type ℓ} {B : Type κ} (o : Option A) (k : A → Option B) (b : B)
    → (o >>= k) ≡ some b
    → (a : A) × (o ≡ some a) × (k a ≡ some b)
bind_ends none k b e = absurd (none_ends b e)
bind_ends (some a) k b e = (a, refl, e)

-- The same, for what follows from both
pub bind_then {ℓ κ μ} :
    {A : Type ℓ} {B : Type κ} {Q : Type μ} (o : Option A) (k : A → Option B) (b : B)
    → (o >>= k) ≡ some b
    → ((a : A) → o ≡ some a → k a ≡ some b → Q)
    → Q
bind_then o k b e next = let (a, first, last) = bind_ends o k b e in next a first last

pub check_ends {ℓ} :
    {B : Type ℓ} (t : Bool) (o : Option B) (b : B)
    → (check t >> o) ≡ some b
    → (t ≡ true) × (o ≡ some b)
check_ends true o b e = (refl, e)
check_ends false o b e = absurd (none_ends b e)

-- The step keeps a property of the state.
abbrev pub Keeps {ℓ} : (Dance → Type ℓ) → (Dance → Option Dance) → Type ℓ
Keeps P step = (d e : Dance) → step d ≡ some e → P d → P e

pub for_below-Keeps {ℓ} :
    (P : Dance → Type ℓ) (n : ℕ) (body : ℕ → Dance → Option Dance)
    → ((i : ℕ) → i < n → Keeps P (body i))
    → Keeps P (for_below n body)
unfolding for_below
for_below-Keeps P zero body keep d e ran h = subst P (some_inj ran) h
for_below-Keeps P (suc n) body keep d e ran h =
    let (f, first, last) = bind_ends (for_below n body d) (body n) e ran in
    keep n (omega arith) f e last
      (for_below-Keeps P n body (λ i lt. keep i (omega arith)) d f first h)
