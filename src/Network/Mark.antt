-- ===== src/Network/Mark.antt =====
-- The mark that starts a packet, found in the first bytes of a buffer.
use cloud_computing.Prelude.{
  ℕ, suc, ◌+◌, ◌-◌, ◌≡◌, ◌≢◌, refl, sym, ◌∙◌, ap, subst, ◌⊎◌, inl, inr, some, [], ◌∷◌, ◌++◌, Bytes,
  length, All, length-append, arith,
}
use cloud_computing.Std.Text.Find.{find-append, find_none, substr_rest}
use cloud_computing.Network.{from_mark}

abbrev pub mark : ℕ
mark = b'~'

-- Bytes without the mark.
abbrev pub IsNoise : Bytes → Type 0
IsNoise = All (λ c. c ≢ mark)

overlap :
    (buf q noise rest : Bytes)
    → buf ++ q ≡ noise ++ rest
    → ((more : Bytes) × (noise ≡ buf ++ more) × (q ≡ more ++ rest))
      ⊎ ((x : ℕ) × (xs : Bytes) × (buf ≡ noise ++ (x ∷ xs)) × (x ∷ (xs ++ q) ≡ rest))
overlap [] q noise rest e = inl (noise, refl, e)
overlap (x ∷ buf) q [] rest e = inr (x, buf, refl, e)
overlap (x ∷ buf) q (y ∷ noise) rest e = elim (overlap buf q noise rest (cc)) [
  | inl (more, a, b) ↦ inl (more, cc, b)
  | inr (z, zs, a, b) ↦ inr (z, zs, cc, b)
]

IsNoise-split : (a b : Bytes) → IsNoise (a ++ b) → IsNoise a × IsNoise b
IsNoise-split [] b h = (tt, h)
IsNoise-split (x ∷ a) b (hx, h) = let (l, r) = IsNoise-split a b h in ((hx, l), r)

from_mark-noise : (buf : Bytes) → IsNoise buf → from_mark buf ≡ some []
unfolding from_mark
from_mark-noise buf h = rw (from_mark, find_none mark [] buf h) refl

from_mark-append :
    (noise xs : Bytes) → IsNoise noise → from_mark (noise ++ (mark ∷ xs)) ≡ some (mark ∷ xs)
unfolding from_mark
from_mark-append noise xs h =
    rw (from_mark, find-append mark [] noise xs h)
      (substr_rest noise (mark ∷ xs) (length noise) (length (noise ++ (mark ∷ xs)) - length noise)
        refl (omega (arith, length-append noise (mark ∷ xs))))

-- A buffer at the front of noise and a packet holds noise only, or it starts the header.
pub from_mark-cases :
    (buf q noise tail : Bytes)
    → buf ++ q ≡ noise ++ (mark ∷ tail)
    → IsNoise noise
    → ((more : Bytes) × (from_mark buf ≡ some [])
        × IsNoise more
        × (q ≡ more ++ (mark ∷ tail))
        × (length noise ≡ length buf + length more))
      ⊎ ((xs : Bytes) × (from_mark buf ≡ some (mark ∷ xs))
          × ((mark ∷ xs) ++ q ≡ mark ∷ tail)
          × (length buf ≡ length noise + suc (length xs)))
from_mark-cases buf q noise tail e h = elim (overlap buf q noise (mark ∷ tail) e) [
  | inl (more, a, b) ↦
      let (front, back) = IsNoise-split buf more (subst IsNoise a h) in
      inl (
        more,
        from_mark-noise buf front,
        back,
        b,
        ap (λ (k : Bytes). length k) a ∙ length-append buf more,
      )
  | inr (x, xs, a, b) ↦
      let is : x ≡ mark = cc in
      let whole : buf ≡ noise ++ (mark ∷ xs) = a ∙ ap (λ k. noise ++ (k ∷ xs)) is in
      inr (
        xs,
        rw whole (from_mark-append noise xs h),
        ap (λ k. k ∷ (xs ++ q)) (sym is) ∙ b,
        ap (λ (k : Bytes). length k) whole ∙ length-append noise (mark ∷ xs),
      )
]
