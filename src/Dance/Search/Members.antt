-- ===== src/Dance/Search/Members.antt =====
-- Lists of nodes: membership, and what is left when nodes are taken out.
use cloud_computing.Prelude.{
  ℕ, ◌≤◌, ◌<◌, ◌≡◌, refl, ◌∙◌, Bool, true, false, not, ◌&&◌, ◌||◌, List, [], ◌∷◌, ◌++◌, length, All,
  ◌==◌, ==_iff, Bool-cases, inl, inr, if◌then◌else◌, arith,
}
use cloud_computing.Dance.Rows.{onto}

abbrev pub mem : ℕ → List ℕ → Bool
mem x [] = false
mem x (y ∷ ys) = (x == y) || mem x ys

abbrev pub remove : ℕ → List ℕ → List ℕ
remove x [] = []
remove x (y ∷ ys) = let rest = remove x ys in if x == y then rest else y ∷ rest

-- The nodes of the second list that the first one lacks
abbrev pub without : List ℕ → List ℕ → List ℕ
without [] ys = ys
without (x ∷ xs) ys = remove x (without xs ys)

abbrev pub Distinct : List ℕ → Type 0
Distinct [] = Unit
Distinct (x ∷ xs) = (mem x xs ≡ false) × Distinct xs

pub mem-remove : (x z : ℕ) (ys : List ℕ) → mem z (remove x ys) ≡ (mem z ys && not (z == x))
mem-remove x z [] = refl
mem-remove x z (y ∷ ys) = ground (arith, mem-remove x z ys)

pub mem-without :
    (xs : List ℕ) (z : ℕ) (ys : List ℕ) → mem z (without xs ys) ≡ (mem z ys && not (mem z xs))
mem-without [] z ys = ground arith
mem-without (x ∷ xs) z ys = ground (arith, mem-without xs z ys, mem-remove x z (without xs ys))

pub length-remove : (x : ℕ) (ys : List ℕ) → length (remove x ys) ≤ length ys
length-remove x [] = omega arith
length-remove x (y ∷ ys) = ground (arith, length-remove x ys)

pub length-remove-lt : (x : ℕ) (ys : List ℕ) → mem x ys ≡ true → length (remove x ys) < length ys
length-remove-lt x (y ∷ ys) h = ground (arith, length-remove-lt x ys, length-remove x ys)
length-remove-lt x [] h = absurd (let both : false ≡ true = h in cc)

pub length-without : (xs ys : List ℕ) → length (without xs ys) ≤ length ys
length-without [] ys = omega arith
length-without (x ∷ xs) ys = omega (arith, length-without xs ys, length-remove x (without xs ys))

pub Distinct-remove : (x : ℕ) (ys : List ℕ) → Distinct ys → Distinct (remove x ys)
Distinct-remove x [] h = tt
Distinct-remove x (y ∷ ys) (ne, h) = elim (Bool-cases (x == y)) [
  | inl e ↦ rw e (Distinct-remove x ys h)
  | inr e ↦ rw e (ground (arith, mem-remove x y ys), Distinct-remove x ys h)
]

pub Distinct-without : (xs ys : List ℕ) → Distinct ys → Distinct (without xs ys)
Distinct-without [] ys h = h
Distinct-without (x ∷ xs) ys h = Distinct-remove x (without xs ys) (Distinct-without xs ys h)

pub mem-onto : (x : ℕ) (xs ys : List ℕ) → mem x (onto xs ys) ≡ (mem x xs || mem x ys)
mem-onto x [] ys = refl
mem-onto x (y ∷ xs) ys = ground (arith, mem-onto x xs (y ∷ ys))

pub mem-append : (x : ℕ) (xs ys : List ℕ) → mem x (xs ++ ys) ≡ (mem x xs || mem x ys)
mem-append x [] ys = refl
mem-append x (y ∷ xs) ys = ground (arith, mem-append x xs ys)

-- A list that is turned round without a node is turned round.
pub remove-onto :
    (x : ℕ) (xs ys : List ℕ) → remove x (onto xs ys) ≡ onto (remove x xs) (remove x ys)
remove-onto x [] ys = refl
remove-onto x (y ∷ xs) ys = elim (Bool-cases (x == y)) [
  | inl e ↦ remove-onto x xs (y ∷ ys) ∙ rw e refl
  | inr e ↦ remove-onto x xs (y ∷ ys) ∙ rw e refl
]

pub All-mem : (P : ℕ → Type 0) (xs : List ℕ) → ((x : ℕ) → mem x xs ≡ true → P x) → All P xs
All-mem P [] h = tt
All-mem P (x ∷ xs) h = (h x (ground arith), All-mem P xs (λ z e. h z (ground arith)))

pub mem-All : (P : ℕ → Type 0) (xs : List ℕ) (x : ℕ) → All P xs → mem x xs ≡ true → P x
mem-All P [] x all h = absurd (let both : false ≡ true = h in cc)
mem-All P (y ∷ xs) x (p, all) h = elim (Bool-cases (x == y)) [
  | inl e ↦ rw ((==_iff x y).0 e) p
  | inr e ↦ mem-All P xs x all (ground arith)
]

pub Distinct-onto :
    (xs ys : List ℕ)
    → Distinct xs
    → Distinct ys
    → ((z : ℕ) → mem z xs ≡ true → mem z ys ≡ false)
    → Distinct (onto xs ys)
Distinct-onto [] ys hx hy apart = hy
Distinct-onto (x ∷ xs) ys (out, hx) hy apart =
    Distinct-onto xs (x ∷ ys) hx (apart x (ground arith), hy)
      (λ z inside. ground (arith, apart z, out))

pub Distinct-append :
    (xs ys : List ℕ)
    → Distinct xs
    → Distinct ys
    → ((z : ℕ) → mem z xs ≡ true → mem z ys ≡ false)
    → Distinct (xs ++ ys)
Distinct-append [] ys hx hy apart = hy
Distinct-append (x ∷ xs) ys (out, hx) hy apart = (
  ground (arith, mem-append x xs ys, apart x),
  Distinct-append xs ys hx hy (λ z inside. apart z (ground arith)),
)
