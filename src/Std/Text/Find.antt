-- ===== src/Std/Text/Find.antt =====
-- Where `find` stops, and what `substr` cuts out.
use cloud_computing.Prelude.{
  Bool-cases, inl, inr, Option, ◌+◌, suc, false, ◌==◌, ap, leb_iff, length-append, drop-append,
  take-append, take_all, ℕ, ◌≤◌, ◌≡◌, ◌≢◌, refl, true, some, none, [], ◌∷◌, ◌++◌, arith, Bytes,
  length, All,
}
use mathlib.Core.Option
use cloud_computing.Std.Text.{starts_with, find, substr}

pub starts_with-append : (p s : Bytes) → starts_with p (p ++ s) ≡ true
unfolding starts_with
starts_with-append [] s = refl
starts_with-append (c ∷ p) s = ground (arith, starts_with-append p s)

-- A pattern is found at once behind text that lacks its first byte.
pub find-append :
    (c : ℕ) (pat front rest : Bytes)
    → All (λ x. x ≢ c) front
    → find (c ∷ pat) (front ++ ((c ∷ pat) ++ rest)) ≡ some (length front)
unfolding find
find-append c pat [] rest h = ground (arith, starts_with-append (c ∷ pat) rest)
find-append c pat (x ∷ front) rest (hx, h) =
    unfold starts_with in ground (arith, find-append c pat front rest h)

-- A pattern is not found in text that lacks its first byte.
pub find_none : (c : ℕ) (pat text : Bytes) → All (λ x. x ≢ c) text → find (c ∷ pat) text ≡ none
unfolding find starts_with
find_none c pat [] h = refl
find_none c pat (x ∷ text) (hx, h) = ground (arith, find_none c pat text h)

-- Text that lacks the first byte of the pattern is passed over.
pub find-skip :
    (c : ℕ) (pat front text : Bytes)
    → All (λ x. x ≢ c) front
    → find (c ∷ pat) (front ++ text) ≡ Option.map (λ n. length front + n) (find (c ∷ pat) text)
unfolding find starts_with
find-skip c pat [] text h = go (find (c ∷ pat) text)
  where
    go : (o : Option ℕ) → o ≡ Option.map (λ n. 0 + n) o
    go none = refl
    go (some n) = ap (λ k. some k) (omega arith)
find-skip c pat (x ∷ front) text (hx, h) =
    let other : (c == x) ≡ false = ground arith in
    rw (other, find-skip c pat front text h) (go (find (c ∷ pat) text))
  where
    go :
        (o : Option ℕ)
        → Option.map suc (Option.map (λ n. length front + n) o)
          ≡ Option.map (λ n. length (x ∷ front) + n) o
    go none = refl
    go (some n) = ap (λ k. some k) (omega arith)

-- A pattern that stands somewhere is found.
pub find_of_mem : (pat front rest : Bytes) → (n : ℕ) × (find pat (front ++ (pat ++ rest)) ≡ some n)
unfolding find
find_of_mem [] [] [] = (0, refl)
find_of_mem [] [] (x ∷ rest) = (0, unfold starts_with in refl)
find_of_mem (p ∷ pat) [] rest = (0, rw (starts_with-append (p ∷ pat) rest) refl)
find_of_mem pat (x ∷ front) rest =
    let (n, e) = find_of_mem pat front rest in
    elim (Bool-cases (starts_with pat (x ∷ (front ++ (pat ++ rest))))) [
      | inl now ↦ (0, rw now refl)
      | inr later ↦ (suc n, rw (later, e) refl)
    ]

pub substr_middle :
    (front middle back : Bytes) (position count : ℕ)
    → position ≡ length front
    → count ≡ length middle
    → substr (front ++ (middle ++ back)) position count ≡ some middle
unfolding substr
substr_middle front middle back position count e f = rw (
  (leb_iff position (length (front ++ (middle ++ back)))).1
      (omega (arith, length-append front (middle ++ back))),
  drop-append front (middle ++ back) position e,
  take-append middle back count f,
)

pub substr_rest :
    (front back : Bytes) (position count : ℕ)
    → position ≡ length front
    → length back ≤ count
    → substr (front ++ back) position count ≡ some back
unfolding substr
substr_rest front back position count e f = rw (
  (leb_iff position (length (front ++ back))).1 (omega (arith, length-append front back)),
  drop-append front back position e,
  take_all back count f,
)
