-- ===== src/Std/Text.antt =====
-- `find` and `substr` of `std::string`.
pub mod Find
use cloud_computing.Prelude.{
  ℕ, suc, ◌+◌, ◌-◌, ◌^◌, ◌≡◌, refl, Bool, true, false, ◌&&◌, Option, none, some, [], ◌∷◌, Bytes,
  codes, length, take, drop, leb, ◌==◌, if◌then◌else◌,
}
use mathlib.Core.Option

abbrev pub npos : ℕ
npos = 2 ^ 64 - 1

unfoldable pub starts_with : Bytes → Bytes → Bool
starts_with [] s = true
starts_with (p ∷ ps) [] = false
starts_with (p ∷ ps) (c ∷ s) = (p == c) && starts_with ps s

-- The first position of `pat`; `none` is `npos`.
unfoldable pub find : Bytes → Bytes → Option ℕ
unfolding starts_with
find pat [] = if starts_with pat [] then some 0 else none
find pat (c ∷ s) =
    let later = Option.map suc (find pat s) in if starts_with pat (c ∷ s) then some 0 else later

-- It throws `out_of_range` behind the end.
unfoldable pub substr : Bytes → ℕ → ℕ → Option Bytes
substr s position count =
    if leb position (length s) then some (take count (drop position s)) else none

find_test : (find (codes "lo") (codes "hello") ≡ some 3) × (find (codes "x") (codes "hello") ≡ none)
unfolding find
find_test = (refl, refl)
