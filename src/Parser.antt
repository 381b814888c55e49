-- ===== src/Parser.antt =====
-- Lab3/src/parser.cc and Lab3/src/include/parser.hpp: the RESP messages. A `char *` is the bytes of
-- the string that it points into, with the NUL behind them; a read outside them is a fault, and so
-- is a failed `assert`, and an `int` that overflows. The parsers return the value and the number of
-- bytes that they consumed, which the source stores if it is given a pointer for it.
pub mod RoundTrip
use cloud_computing.Prelude.{
  ℕ, zero, suc, ◌+◌, ◌≡◌, refl, Bool, true, false, ◌||◌, Option, none, some, List, [], ◌∷◌, ◌++◌,
  Bytes, codes, length, take, drop, leb, ltb, ◌^◌, ◌==◌, if◌then◌else◌, ◌>>=◌, ◌>>◌, check,
}
use cloud_computing.Std.Int.{ℤ, pos, negsuc}
use cloud_computing.Std.Number.{to_string, to_string_int, to_int, atoi}

abbrev pub crlf : Bytes
crlf = 13 ∷ 10 ∷ []

-- `std::to_string` of a size that is stored in an `int`
size_string : ℕ → Bytes
size_string n = to_string_int (to_int (pos n))

unfoldable pub get_string_message : Bytes → Bytes
unfolding size_string
get_string_message raw = b'$' ∷ (size_string (length raw) ++ (crlf ++ (raw ++ crlf)))

unfoldable pub get_success_message : Bytes
get_success_message = codes "+OK" ++ crlf

unfoldable pub get_error_message : Bytes
get_error_message = codes "-ERROR" ++ crlf

unfoldable pub get_interger_message : ℤ → Bytes
get_interger_message raw = b':' ∷ (to_string_int raw ++ crlf)

-- the loop over the vector
unfoldable pub string_messages : List Bytes → Bytes
string_messages [] = []
string_messages (s ∷ raw) = get_string_message s ++ string_messages raw

unfoldable pub get_resp_arry : List Bytes → Bytes
unfolding string_messages get_string_message size_string
get_resp_arry raw = b'*' ∷ (size_string (length raw) ++ (crlf ++ string_messages raw))

-- the overload for one string
unfoldable pub get_resp_arry_one : Bytes → Bytes
unfolding get_string_message
get_resp_arry_one raw = b'*' ∷ (to_string 1 ++ (crlf ++ get_string_message raw))

-- `message + n`: a pointer may stand one behind the last byte.
abbrev pub advance : ℕ → Bytes → Option Bytes
advance n message = if leb n (length message) then some (drop n message) else none

-- `std::string(message, n)`; a negative `n` becomes a huge `size_t`, and the constructor throws.
abbrev pub copy : Bytes → ℤ → Option Bytes
copy message (pos n) = if leb n (length message) then some (take n message) else none
copy message (negsuc n) = none

abbrev pub first_is : ℕ → Bytes → Bool
first_is c [] = false
first_is c (x ∷ s) = x == c

abbrev pub byte_count : ℤ → ℕ
byte_count (pos n) = n
byte_count (negsuc n) = 0

-- The sum of two `int`s that are not negative; the overflow of an `int` is undefined.
abbrev pub int_sum : ℕ → ℕ → Option ℕ
int_sum a b = if ltb (a + b) (2 ^ 31) then some (a + b) else none

unfoldable pub parse_string_message : Bytes → Option (Bytes × ℕ)
parse_string_message message = do
  check (first_is b'$' message)
  rest ← advance 1 message
  let strl = atoi rest
  let position = 3 + length (to_string_int strl)
  from ← advance position message
  rc ← copy from strl
  behind ← int_sum position (byte_count strl)
  len ← int_sum behind 2
  some (rc, len)

unfoldable pub parser_interger_message : Bytes → Option (ℤ × ℕ)
parser_interger_message message = do
  check (first_is b':' message)
  rest ← advance 1 message
  let rc = atoi rest
  some (rc, 3 + length (to_string_int rc))

unfoldable pub parser_success_message : Bytes → Option (Bool × ℕ)
parser_success_message message = do
  check (first_is b'+' message || first_is b'-' message)
  some (if first_is b'+' message then (true, 5) else (false, 8))

-- the loop `for (i = 0; i < number; i++)`; a negative `number` makes no round
parse_strings : ℕ → Bytes → ℕ → List Bytes → Option (List Bytes × ℕ)
unfolding parse_string_message
parse_strings zero message position rc = some (rc, position)
parse_strings (suc number) message position rc = do
  from ← advance position message
  (tmp, len) ← parse_string_message from
  next ← int_sum position len
  parse_strings number message next (rc ++ (tmp ∷ []))

unfoldable pub parser_resp_arry : Bytes → Option (List Bytes × ℕ)
unfolding parse_strings
parser_resp_arry message = do
  check (first_is b'*' message)
  rest ← advance 1 message
  let number = atoi rest
  parse_strings (byte_count number) message (length (to_string_int number) + 3) []

parser_test :
    (get_resp_arry (codes "Cloud" ∷ codes "Computing" ∷ [])
      ≡ codes "*2"
        ++ crlf
        ++ codes "$5"
        ++ crlf
        ++ codes "Cloud"
        ++ crlf
        ++ codes "$9"
        ++ crlf
        ++ codes "Computing"
        ++ crlf)
    × (parse_string_message (get_string_message (codes "CS06142")) ≡ some (codes "CS06142", 13))
    × (parser_resp_arry (get_resp_arry (codes "Cloud" ∷ [] ∷ []))
        ≡ some (codes "Cloud" ∷ [] ∷ [], 21))
    × (parser_success_message get_error_message ≡ some (false, 8))
unfolding get_resp_arry parse_string_message parser_resp_arry parser_success_message
    get_error_message to_string to_string_int to_int atoi
parser_test = (refl, refl, refl, refl)

-- a leading zero puts the text one byte off
leading_zero :
    parse_string_message (codes "$02" ++ crlf ++ codes "ab" ++ crlf) ≡ some (10 ∷ b'a' ∷ [], 8)
unfolding parse_string_message to_string_int atoi
leading_zero = refl
