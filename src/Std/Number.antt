-- ===== src/Std/Number.antt =====
-- `std::to_string`, `strtol` with base 10, and `atoi`.
pub mod RoundTrip
use Prim.Native.Nat.{min}
use cloud_computing.Prelude.{
  ℕ, zero, suc, ◌+◌, ◌-◌, ◌*◌, ◌/◌, ◌%◌, ◌^◌, ◌≡◌, refl, Bool, ◌&&◌, ◌||◌, [], ◌∷◌, Bytes, codes,
  ltb, leb, ◌==◌, if◌then◌else◌,
}
use cloud_computing.Std.Int.{ℤ, pos, negsuc}

-- `n` digits are at most `n` rounds; the digits are written from the last one on.
pub emit : ℕ → ℕ → Bytes → Bytes
emit zero n out = out
emit (suc fuel) n out =
    let rest = emit fuel (n / 10) ((b'0' + n % 10) ∷ out) in if n == 0 then out else rest

-- of an unsigned number
unfoldable pub to_string : ℕ → Bytes
unfolding emit
to_string n = if n == 0 then b'0' ∷ [] else emit n n []

-- of a signed number
unfoldable pub to_string_int : ℤ → Bytes
unfolding to_string
to_string_int (pos n) = to_string n
to_string_int (negsuc n) = b'-' ∷ to_string (n + 1)

abbrev pub is_digit : ℕ → Bool
is_digit c = leb b'0' c && leb c b'9'

abbrev pub is_space : ℕ → Bool
is_space c = (c == 32) || (leb 9 c && leb c 13)

-- The number that the digits in front spell behind `n`.
unfoldable pub scan : ℕ → Bytes → ℕ
scan n [] = n
scan n (c ∷ s) = let rest = scan (n * 10 + (c - b'0')) s in if is_digit c then rest else n

abbrev pub long_max : ℕ
long_max = 2 ^ 63 - 1

-- The result is clamped to the range of `long`.
abbrev pub clamp_neg : ℕ → ℤ
clamp_neg n = if n == 0 then pos 0 else negsuc (min (n - 1) long_max)

abbrev pub sign : Bytes → ℤ
sign [] = pos 0
sign (c ∷ s) =
    if c == b'-'
    then clamp_neg (scan 0 s)
    else if c == b'+'
    then pos (min (scan 0 s) long_max)
    else pos (min (scan 0 (c ∷ s)) long_max)

abbrev pub skip_space : Bytes → Bytes
skip_space [] = []
skip_space (c ∷ s) = let rest = skip_space s in if is_space c then rest else c ∷ s

unfoldable pub strtol : Bytes → ℤ
unfolding scan
strtol s = sign (skip_space s)

-- A `long` stored in an `int`, by its low 32 bits.
abbrev pub int_of_bits : ℕ → ℤ
int_of_bits w = if ltb w (2 ^ 31) then pos w else negsuc (2 ^ 32 - 1 - w)

unfoldable pub to_int : ℤ → ℤ
to_int (pos n) = int_of_bits (n % 2 ^ 32)
to_int (negsuc n) = int_of_bits (2 ^ 32 - 1 - n % 2 ^ 32)

unfoldable pub atoi : Bytes → ℤ
unfolding strtol to_int
atoi s = to_int (strtol s)

-- A `long` stored in a `uint64_t`.
unfoldable pub to_u64 : ℤ → ℕ
to_u64 (pos n) = n % 2 ^ 64
to_u64 (negsuc n) = 2 ^ 64 - 1 - n % 2 ^ 64

to_string_test : to_string 8010314 ≡ codes "8010314"
unfolding to_string
to_string_test = refl

strtol_test :
    (strtol (codes "  -12x") ≡ negsuc 11)
    × (strtol (codes "99999999999999999999") ≡ pos long_max)
    × (strtol (codes "x") ≡ pos 0)
unfolding strtol
strtol_test = (refl, refl, refl)

atoi_test : (atoi (codes "4294967295\r\n") ≡ negsuc 0) × (atoi (codes "10\r\n") ≡ pos 10)
unfolding atoi
atoi_test = (refl, refl)
