-- ===== src/Dance/Table/Insert.antt =====
-- A node that is put at the end of a ring.
use cloud_computing.Prelude.{
  ℕ, ◌≡◌, ◌≢◌, refl, sym, ap, subst, ◌∙◌, false, List, All, [], ◌∷◌, ◌++◌, ◌==◌, ==_iff, update,
  if◌then◌else◌, arith, Bool-cases, inl, inr,
}
use cloud_computing.Dance.Rows.{Chain, onto}
use cloud_computing.Dance.Search.Members.{mem, All-mem, mem-All}
use cloud_computing.Dance.Search.Skip.{Mutual}

-- The last node of the ring is the one before its end.
abbrev IsLast : (ℕ → ℕ) → ℕ → ℕ → ℕ → Type 0
IsLast f end last y = (f y == end) ≡ (y == last)

next_of :
    (f : ℕ → ℕ) (end last new y : ℕ)
    → new ≢ y
    → IsLast f end last y
    → update (update f new end) last new y ≡ (if f y == end then new else f y)
next_of f end last new y ne h = ground (arith, h)

Chain-insert :
    (f : ℕ → ℕ) (end last new x : ℕ) (xs : List ℕ)
    → new ≢ end
    → last ≢ new
    → mem new xs ≡ false
    → All (IsLast f end last) xs
    → Chain f end x xs
    → Chain
        (update (update f new end) last new)
        end
        (if x == end then new else x)
        (xs ++ (new ∷ []))
Chain-insert f end last new x [] ne nl out all path = (ground (arith, path), ne, ground arith)
Chain-insert f end last new x (y ∷ ys) ne nl out (h, all) (here, go, path) = (
  ground (arith, here),
  go,
  subst (λ z. Chain (update (update f new end) last new) end z (ys ++ (new ∷ [])))
      (sym (next_of f end last new y (λ e. ground (arith, e, out)) h))
      (Chain-insert f end last new (f y) ys ne nl (ground arith) all path),
)

-- Where the pointers undo one another, only the node before the end leads to it.
Mutual-IsLast : (f g : ℕ → ℕ) (end y : ℕ) → Mutual f g end → Mutual f g y → IsLast f end (g end) y
Mutual-IsLast f g end y he hy = elim (Bool-cases (f y == end)) [
  | inl e ↦
      let same : g end ≡ y = ap g (sym ((==_iff (f y) end).0 e)) ∙ hy.0 in
      rw e (ground (arith, same))
  | inr e ↦ elim (Bool-cases (y == g end)) [
    | inr other ↦ rw (e, other) refl
    | inl is ↦ absurd (ground (arith, e, ap f ((==_iff y (g end)).0 is), he.1))
  ]
]

-- The chain from the end, when the node `new` has been put before it
pub insert-Chain :
    (f g : ℕ → ℕ) (end new : ℕ) (xs : List ℕ)
    → new ≢ end
    → g end ≢ new
    → mem new xs ≡ false
    → Mutual f g end
    → All (Mutual f g) xs
    → Chain f end (f end) xs
    → Chain
        (update (update f new end) (g end) new)
        end
        (update (update f new end) (g end) new end)
        (xs ++ (new ∷ []))
insert-Chain f g end new xs ne nl out he all path =
    subst (λ z. Chain (update (update f new end) (g end) new) end z (xs ++ (new ∷ [])))
      (sym (next_of f end (g end) new end ne (Mutual-IsLast f g end end he he)))
      (Chain-insert f end (g end) new (f end) xs ne nl out
        (All-mem (IsLast f end (g end)) xs
          (λ y e. Mutual-IsLast f g end y he (mem-All (Mutual f g) xs y all e)))
        path)

-- A chain is walked back.
pub Chain-back :
    (f g : ℕ → ℕ) (end x : ℕ) (xs ys : List ℕ)
    → All (Mutual f g) xs
    → Chain f end x xs
    → Chain g end (g x) ys
    → Chain g end (g end) (onto xs ys)
Chain-back f g end x [] ys all path back = subst (λ z. Chain g end (g z) ys) path back
Chain-back f g end x (y ∷ xs) ys (h, all) (here, ne, path) back =
    Chain-back f g end (f y) xs (y ∷ ys) all path
      (h.0, ne, subst (λ z. Chain g end (g z) ys) here back)
