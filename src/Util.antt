-- ===== src/Util.antt =====
-- Lab3/src/include/util.hpp: `numtob` and `btonum` for `uint64_t` on a little-endian machine.
pub mod Split
use cloud_computing.Prelude.{
  ℕ, zero, suc, ◌+◌, ◌*◌, ◌/◌, ◌%◌, ◌^◌, ◌<◌, ◌≡◌, refl, sym, ◌∙◌, ap, Option, none, some, [], ◌∷◌,
  ◌++◌, Bytes, length, take, drop, leb, take-append, drop-append, append_assoc, length-append,
  leb_iff, if◌then◌else◌, arith,
}

-- the memory of a number of `width` bytes
unfoldable pub memory : ℕ → ℕ → Bytes
memory zero n = []
memory (suc width) n = (n % 256) ∷ memory width (n / 256)

unfoldable pub value : Bytes → ℕ
value [] = 0
value (b ∷ s) = b + 256 * value s

unfoldable pub numtob : ℕ → Bytes
unfolding memory
numtob number = memory 8 number

-- The copy ends at the closing NUL of `c_str()`; a read behind it is a fault.
unfoldable pub btonum : Bytes → ℕ → Option ℕ
unfolding value
btonum str offset =
    if leb (offset + 8) (length str + 1)
    then some (value (take 8 (drop offset (str ++ (0 ∷ [])))))
    else none

pub length-memory : (width n : ℕ) → length (memory width n) ≡ width
unfolding memory
length-memory zero n = refl
length-memory (suc width) n = omega (arith, length-memory width (n / 256))

pub value-memory : (width n : ℕ) → n < 256 ^ width → value (memory width n) ≡ n
unfolding memory value
value-memory zero n h = omega arith
value-memory (suc width) n h = omega (arith, value-memory width (n / 256) (omega arith))

pub length-numtob : (n : ℕ) → length (numtob n) ≡ 8
unfolding numtob
length-numtob n = length-memory 8 n

btonum_at :
    (before m after : Bytes)
    → length m ≡ 8
    → btonum (before ++ (m ++ after)) (length before) ≡ some (value m)
unfolding btonum
btonum_at before m after e =
    rw
      (
        (leb_iff (length before + 8) (length (before ++ (m ++ after)) + 1)).1
            (omega (arith, length-append before (m ++ after), length-append m after)),
        append_assoc before (m ++ after) (0 ∷ []),
        drop-append before ((m ++ after) ++ (0 ∷ [])) (length before) refl,
        append_assoc m after (0 ∷ []),
        take-append m (after ++ (0 ∷ [])) 8 (sym e),
      )
      refl

-- A number of 64 bits is read back from the bytes that stand for it, wherever they stand.
pub btonum-numtob :
    (n : ℕ) (before after : Bytes)
    → n < 2 ^ 64
    → btonum (before ++ (numtob n ++ after)) (length before) ≡ some n
unfolding numtob
btonum-numtob n before after h =
    btonum_at before (memory 8 n) after (length-memory 8 n)
    ∙ ap (λ k. some k) (value-memory 8 n (omega (arith, h)))

numtob_test :
    (numtob 258 ≡ 2 ∷ 1 ∷ 0 ∷ 0 ∷ 0 ∷ 0 ∷ 0 ∷ 0 ∷ []) × (btonum (126 ∷ numtob 258) 1 ≡ some 258)
unfolding numtob btonum
numtob_test = (refl, refl)
