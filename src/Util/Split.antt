-- ===== src/Util/Split.antt =====
-- `split` of Lab3/src/include/util.hpp.
use cloud_computing.Prelude.{
  ℕ, zero, suc, ◌+◌, ◌-◌, ◌<◌, ◌≤◌, ◌≡◌, ◌≢◌, refl, sym, ◌∙◌, ap, subst, Option, none, some, List,
  [], ◌∷◌, ◌++◌, Bytes, length, drop, All, Bool-cases, inl, inr, ◌==◌, ==_iff, append_assoc,
  length-append, drop-append, arith, ◌>>=◌,
}
use mathlib.Core.Option
use cloud_computing.Std.Text.{find, substr}
use cloud_computing.Std.Text.Find.{find-append, find_none, substr_middle, substr_rest}

-- `txt.find(ch, initialPos)`
unfoldable pub find_from : Bytes → ℕ → ℕ → Option ℕ
find_from txt ch initial_pos =
    Option.map (λ n. initial_pos + n) (find (ch ∷ []) (drop initial_pos txt))

-- The loop, with the words that it has pushed behind those that it pushes; at its end `pos` is `npos`,
-- so the smaller of it and the size is the size. A round passes a `ch`, so there are no more rounds
-- than bytes.
unfoldable pub split_loop : ℕ → Bytes → ℕ → ℕ → Option ℕ → Option (List Bytes)
unfolding find_from
split_loop rounds txt ch initial_pos none = do
  last ← substr txt initial_pos (length txt - initial_pos + 1)
  some (last ∷ [])
split_loop zero txt ch initial_pos (some pos) = none
split_loop (suc rounds) txt ch initial_pos (some pos) = do
  word ← substr txt initial_pos (pos - initial_pos)
  words ← split_loop rounds txt ch (pos + 1) (find_from txt ch (pos + 1))
  some (word ∷ words)

unfoldable pub split : Bytes → ℕ → Option (List Bytes)
unfolding split_loop find_from
split txt ch = split_loop (length txt) txt ch 0 (find_from txt ch 0)

-- The words with a `ch` between any two.
abbrev pub joined : ℕ → List Bytes → Bytes
joined ch [] = []
joined ch (w ∷ []) = w
joined ch (w ∷ v ∷ ws) = w ++ (ch ∷ joined ch (v ∷ ws))

abbrev pub Lacks : ℕ → Bytes → Type 0
Lacks ch w = All (λ c. c ≢ ch) w

find_from-append :
    (front rest : Bytes) (ch : ℕ)
    → find_from (front ++ rest) ch (length front)
      ≡ Option.map (λ n. length front + n) (find (ch ∷ []) rest)
unfolding find_from
find_from-append front rest ch = rw (drop-append front rest (length front) refl) refl

split_loop-joined :
    (rounds ch : ℕ) (front w : Bytes) (ws : List Bytes)
    → Lacks ch w
    → All (Lacks ch) ws
    → length (joined ch (w ∷ ws)) ≤ rounds
    → split_loop rounds
        (front ++ joined ch (w ∷ ws))
        ch
        (length front)
        (Option.map (λ n. length front + n) (find (ch ∷ []) (joined ch (w ∷ ws))))
      ≡ some (w ∷ ws)
unfolding split_loop
split_loop-joined rounds ch front w [] hw _ enough =
    rw
      (
        find_none ch [] w hw,
        split_loop,
        substr_rest front w (length front) (length (front ++ w) - length front + 1) refl
            (omega (arith, length-append front w)),
      )
      refl
split_loop-joined zero ch front w (v ∷ ws) hw hws enough =
    absurd (omega (arith, length-append w (ch ∷ joined ch (v ∷ ws))))
split_loop-joined (suc rounds) ch front w (v ∷ ws) hw (hv, hws) enough =
    let rest = joined ch (v ∷ ws) in
    let next = (front ++ w) ++ (ch ∷ []) in
    let whole : front ++ (w ++ (ch ∷ rest)) ≡ next ++ rest =
      sym (append_assoc (front ++ w) (ch ∷ []) rest ∙ append_assoc front w (ch ∷ rest)) in
    let at : length front + length w + 1 ≡ length next =
      omega (arith, length-append (front ++ w) (ch ∷ []), length-append front w) in
    let cut : substr (front ++ (w ++ (ch ∷ rest))) (length front)
          (length front + length w - length front)
        ≡ some w =
      substr_middle front w (ch ∷ rest) (length front) (length front + length w - length front) refl
        (omega arith) in
    let words : split_loop rounds (next ++ rest) ch (length next)
          (find_from (next ++ rest) ch (length next))
        ≡ some (v ∷ ws) =
      rw (find_from-append next rest ch) (
        split_loop-joined rounds ch next v ws hv hws
          (omega (arith, length-append w (ch ∷ rest)))) in
    rw (find-append ch [] w rest hw, split_loop, cut, whole, at, words) refl

-- A text that is joined from words which lack `ch`, one word at least, is split into these words.
pub split-joined :
    (ch : ℕ) (w : Bytes) (ws : List Bytes)
    → All (Lacks ch) (w ∷ ws)
    → split (joined ch (w ∷ ws)) ch ≡ some (w ∷ ws)
unfolding split
split-joined ch w ws (hw, hws) =
    rw (find_from-append [] (joined ch (w ∷ ws)) ch)
      (split_loop-joined (length (joined ch (w ∷ ws))) ch [] w ws hw hws (omega arith))

-- What `split` returns for a text
pub record IsSplit (ch : ℕ) (txt : Bytes) : Type 0 where
  pub first : Bytes
  pub others : List Bytes
  pub lacks : All (Lacks ch) (first ∷ others)
  pub joins : joined ch (first ∷ others) ≡ txt

more_word :
    (ch c : ℕ) (s w : Bytes) (ws : List Bytes)
    → joined ch (w ∷ ws) ≡ s
    → joined ch ((c ∷ w) ∷ ws) ≡ c ∷ s
more_word ch c s w [] e = ap (λ k. c ∷ k) e
more_word ch c s w (v ∷ ws) e = ap (λ k. c ∷ k) e

to_words : (ch : ℕ) (txt : Bytes) → IsSplit ch txt
to_words ch [] = record { first = []; others = []; lacks = (tt, tt); joins = refl }
to_words ch (c ∷ s) =
    let rest = to_words ch s in
    elim (Bool-cases (c == ch)) [
      | inl e ↦ record {
        first = [];
        others = rest.first ∷ rest.others;
        lacks = (tt, rest.lacks);
        joins = rw (sym ((==_iff c ch).0 e)) (ap (λ k. c ∷ k) rest.joins);
      }
      | inr e ↦ record {
        first = c ∷ rest.first;
        others = rest.others;
        lacks = (((λ same. ground arith), rest.lacks.0), rest.lacks.1);
        joins = more_word ch c s rest.first rest.others rest.joins;
      }
    ]

-- Every text is split, into words that lack `ch` and that give the text again when they are joined.
pub split-IsSplit :
    (ch : ℕ) (txt : Bytes)
    → (words : IsSplit ch txt) × (split txt ch ≡ some (words.first ∷ words.others))
split-IsSplit ch txt =
    let words = to_words ch txt in
    (
      words,
      subst (λ t. split t ch ≡ some (words.first ∷ words.others)) words.joins
          (split-joined ch words.first words.others words.lacks),
    )

-- No word is longer than the text, and there is at most one word more than the text has bytes.
pub joined-short :
    (ch n : ℕ) (w : Bytes) (ws : List Bytes)
    → length (joined ch (w ∷ ws)) < n
    → All (λ v. length v < n) (w ∷ ws) × (length ws < n)
joined-short ch n w [] lt = ((lt, tt), omega arith)
joined-short ch n w (v ∷ ws) lt =
    let shorter : length (joined ch (v ∷ ws)) < n - length w - 1 =
      omega (arith, length-append w (ch ∷ joined ch (v ∷ ws)), lt) in
    let rest = joined-short ch n v ws (omega (arith, shorter)) in
    let fewer = joined-short ch (n - 1) v ws (omega (arith, shorter)) in
    ((omega (arith, length-append w (ch ∷ joined ch (v ∷ ws)), lt), rest.0), omega (arith, fewer.1))
