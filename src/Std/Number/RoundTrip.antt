-- ===== src/Std/Number/RoundTrip.antt =====
-- A printed number is read back, whatever text that is no digit follows it.
use Prim.Native.Nat.{min}
use cloud_computing.Prelude.{
  ℕ, zero, suc, ◌+◌, ◌/◌, ◌%◌, ◌^◌, ◌≤◌, ◌<◌, ◌≡◌, refl, [], ◌∷◌, ◌++◌, arith, Bytes, ◌==◌, All,
  append-nil, length, false, Bool-cases, inl, inr, ap, ◌⊎◌, ==_iff,
}
use cloud_computing.Std.Int.{pos}
use cloud_computing.Std.Number.{
  emit, to_string, to_string_int, scan, long_max, strtol, to_int, atoi, to_u64, is_digit,
}

abbrev pub IsDigit : ℕ → Type 0
IsDigit c = (b'0' ≤ c) × (c ≤ b'9')

-- The text does not go on with a digit.
abbrev pub EndsNumber : Bytes → Type 0
EndsNumber [] = Unit {0}
EndsNumber (c ∷ s) = is_digit c ≡ false

abbrev StartsNumber : Bytes → Type 0
StartsNumber [] = ⊥
StartsNumber (c ∷ s) = IsDigit c

emit-append : (f n : ℕ) (out rest : Bytes) → emit f n out ++ rest ≡ emit f n (out ++ rest)
unfolding emit
emit-append zero n out rest = refl
emit-append (suc f) n out rest = ground (arith, emit-append f (n / 10) ((b'0' + n % 10) ∷ out) rest)

scan_last : (n : ℕ) (out : Bytes) → scan (n / 10) ((b'0' + n % 10) ∷ out) ≡ scan n out
unfolding scan
scan_last n out = ground arith

scan-emit : (f n : ℕ) (out : Bytes) → n ≤ f → scan 0 (emit f n out) ≡ scan n out
unfolding emit
scan-emit zero n out h = let e : n ≡ 0 = omega arith in rw e
scan-emit (suc f) n out h =
    ground (arith, scan-emit f (n / 10) ((b'0' + n % 10) ∷ out), scan_last n out)

zero_starts : {n : ℕ} (out : Bytes) → n ≡ 0 → StartsNumber out ⊎ (0 < n) → StartsNumber out
zero_starts out e (inl s) = s
zero_starts out e (inr s) = absurd (omega arith)

emit-StartsNumber :
    (f n : ℕ) (out : Bytes) → n ≤ f → StartsNumber out ⊎ (0 < n) → StartsNumber (emit f n out)
unfolding emit
emit-StartsNumber zero n out h (inl s) = s
emit-StartsNumber zero n out h (inr s) = absurd (omega arith)
emit-StartsNumber (suc f) n out h s = elim (Bool-cases (n == 0)) [
  | inl e ↦ rw e (zero_starts out ((==_iff n 0).0 e) s)
  | inr e ↦
      rw e (emit-StartsNumber f (n / 10) ((b'0' + n % 10) ∷ out) (ground arith) (inl (omega arith)))
]

emit-IsDigit : (f n : ℕ) (out : Bytes) → All IsDigit out → All IsDigit (emit f n out)
unfolding emit
emit-IsDigit zero n out h = h
emit-IsDigit (suc f) n out h = ground (arith, emit-IsDigit f (n / 10) ((b'0' + n % 10) ∷ out))

pub to_string-IsDigit : (n : ℕ) → All IsDigit (to_string n)
unfolding to_string
to_string-IsDigit n = ground (arith, emit-IsDigit n n [] tt)

scan_ends : (n : ℕ) (rest : Bytes) → EndsNumber rest → scan n rest ≡ n
unfolding scan
scan_ends n [] h = refl
scan_ends n (c ∷ s) h = rw h

scan-to_string : (n : ℕ) (rest : Bytes) → EndsNumber rest → scan 0 (to_string n ++ rest) ≡ n
unfolding to_string
scan-to_string n rest h = elim (Bool-cases (n == 0)) [
  | inl e ↦ rw e (unfold scan in ground (arith, scan_ends 0 rest h))
  | inr e ↦ rw (e, emit-append n n [] rest, scan-emit n n rest (omega arith), scan_ends n rest h)
]

to_string-StartsNumber : (n : ℕ) (rest : Bytes) → StartsNumber (to_string n ++ rest)
unfolding to_string
to_string-StartsNumber n rest = elim (Bool-cases (n == 0)) [
  | inl e ↦ rw e (omega arith)
  | inr e ↦
      rw (e, emit-append n n [] rest)
        (emit-StartsNumber n n rest (omega arith) (inr (ground arith)))
]

strtol_number : (s : Bytes) → StartsNumber s → strtol s ≡ pos (min (scan 0 s) long_max)
unfolding strtol
strtol_number [] h = absurd h
strtol_number (c ∷ s) h = ground arith

-- A number in the range of `long` is read back from its print.
pub strtol-to_string :
    (n : ℕ) (rest : Bytes) → n ≤ long_max → EndsNumber rest → strtol (to_string n ++ rest) ≡ pos n
strtol-to_string n rest fits h =
    rw (strtol_number _ (to_string-StartsNumber n rest), scan-to_string n rest h)
      (ap pos (omega arith))

-- A number in the range of `int` is read back from its print.
pub atoi-to_string :
    (n : ℕ) (rest : Bytes) → n < 2 ^ 31 → EndsNumber rest → atoi (to_string n ++ rest) ≡ pos n
unfolding atoi
atoi-to_string n rest fits h =
    rw (strtol-to_string n rest (omega arith) h) (unfold to_int in ground arith)

pub to_string_int-pos : (n : ℕ) → to_string_int (pos n) ≡ to_string n
unfolding to_string_int
to_string_int-pos n = refl

length-emit-le : (f n : ℕ) (out : Bytes) → length (emit f n out) ≤ f + length out
unfolding emit
length-emit-le zero n out = omega arith
length-emit-le (suc f) n out = ground (arith, length-emit-le f (n / 10) ((b'0' + n % 10) ∷ out))

pub length-to_string-le : (n : ℕ) → length (to_string n) ≤ n + 1
unfolding to_string
length-to_string-le n = ground (arith, length-emit-le n n [])

length-emit-le_number : (f n : ℕ) (out : Bytes) → length (emit f n out) ≤ n + length out
unfolding emit
length-emit-le_number zero n out = omega arith
length-emit-le_number (suc f) n out =
    ground (arith, length-emit-le_number f (n / 10) ((b'0' + n % 10) ∷ out))

length-emit-le_tenth : (f n : ℕ) → length (emit f n []) ≤ n / 10 + 1
unfolding emit
length-emit-le_tenth zero n = omega arith
length-emit-le_tenth (suc f) n =
    ground (arith, length-emit-le_number f (n / 10) ((b'0' + n % 10) ∷ []))

pub length-to_string-le_tenth : (n : ℕ) → length (to_string n) ≤ n / 10 + 1
unfolding to_string
length-to_string-le_tenth n = ground (arith, length-emit-le_tenth n n)

-- A number in the range of `long` survives the conversion to `uint64_t`.
pub to_u64-strtol-to_string : (n : ℕ) → n ≤ long_max → to_u64 (strtol (to_string n)) ≡ n
to_u64-strtol-to_string n fits =
    rw (← append-nil (to_string n), strtol-to_string n [] fits tt) (unfold to_u64 in omega arith)
