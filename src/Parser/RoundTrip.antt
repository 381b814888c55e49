-- ===== src/Parser/RoundTrip.antt =====
-- Messages are read back, whatever bytes they hold and whatever follows them.
use cloud_computing.Prelude.{
  ℕ, ◌+◌, ◌^◌, ◌<◌, ◌≡◌, refl, sym, ap, ◌∙◌, some, List, [], ◌∷◌, ◌++◌, append_assoc, append-nil,
  arith, Bytes, length, leb_iff, All, length-append, Option, none, ltb, if◌then◌else◌, ◌>>=◌,
  Bool-cases, inl, inr, ◌⊎◌, some_inj, true, false, drop-append, take-append,
}
use cloud_computing.Std.Int.{pos}
use cloud_computing.Std.Number.{to_string, to_string_int, to_int}
use cloud_computing.Std.Number.RoundTrip.{
  atoi-to_string, length-to_string-le_tenth, to_string_int-pos,
}
use cloud_computing.Parser.{
  crlf, get_string_message, string_messages, get_resp_arry, get_interger_message, advance, copy,
  int_sum, parse_string_message, parse_strings, parser_resp_arry, parser_interger_message,
}

advance-append : (xs ys : Bytes) (n : ℕ) → n ≡ length xs → advance n (xs ++ ys) ≡ some ys
advance-append xs ys n e =
    rw (
      (leb_iff n (length (xs ++ ys))).1 (omega (arith, length-append xs ys)),
      drop-append xs ys n e,
    )

copy-append : (xs ys : Bytes) → copy (xs ++ ys) (pos (length xs)) ≡ some xs
copy-append xs ys = rw (
  (leb_iff (length xs) (length (xs ++ ys))).1 (omega (arith, length-append xs ys)),
  take-append xs ys (length xs) refl,
)

advance_one : (c : ℕ) (s : Bytes) → advance 1 (c ∷ s) ≡ some s
advance_one c s = ground arith

-- The text behind a marker, a number and its line end.
advance_header : (c : ℕ) (d t : Bytes) → advance (3 + length d) (c ∷ (d ++ (13 ∷ 10 ∷ t))) ≡ some t
advance_header c d t =
    ap (advance (3 + length d)) (ap (λ s. c ∷ s) (sym (append_assoc d crlf t)))
    ∙ advance-append (c ∷ (d ++ crlf)) t (3 + length d) (omega (arith, length-append d crlf))

-- Strings of a length that fits an `int`.
abbrev pub IsShort : Bytes → Type 0
IsShort s = length s < 2 ^ 31

int_size : (n : ℕ) → n < 2 ^ 31 → to_string_int (to_int (pos n)) ≡ to_string n
int_size n fits =
    let small : to_int (pos n) ≡ pos n = unfold to_int in ground arith in
    rw small (to_string_int-pos n)

pub string_message_shape :
    (raw rest : Bytes)
    → IsShort raw
    → get_string_message raw ++ rest
      ≡ b'$' ∷ (to_string (length raw) ++ (13 ∷ 10 ∷ (raw ++ (13 ∷ 10 ∷ rest))))
unfolding get_string_message
string_message_shape raw rest short = rw (int_size (length raw) short) (simp append_assoc)

length-get_string_message :
    (raw : Bytes)
    → IsShort raw
    → length (get_string_message raw) ≡ 3 + length (to_string (length raw)) + length raw + 2
unfolding get_string_message
length-get_string_message raw short = rw (int_size (length raw) short) (
    omega (
      arith,
      length-append (to_string (length raw)) (crlf ++ (raw ++ crlf)),
      length-append raw crlf,
    ))

-- A result whose number of bytes fits an `int`; where it does not, the `int` overflows.
abbrev pub where_fits {ℓ} : {A : Type ℓ} → ℕ → A → Option A
where_fits n a = if ltb n (2 ^ 31) then some a else none

int_sums {ℓ} :
    {A : Type ℓ} (a b : ℕ) (k : ℕ → A)
    → (int_sum a b >>= λ c. int_sum c 2 >>= λ d. some (k d))
      ≡ where_fits (a + b + 2) (k (a + b + 2))
int_sums a b k = elim (Bool-cases (ltb (a + b) (2 ^ 31))) [
  | inl e ↦ elim (Bool-cases (ltb (a + b + 2) (2 ^ 31))) [
    | inl f ↦ rw (e, f) refl
    | inr f ↦ rw (e, f) refl
  ]
  | inr e ↦ let long : ltb (a + b + 2) (2 ^ 31) ≡ false = ground arith in rw (e, long) refl
]

-- One round of the loop over the strings: `k` is the rest of the loop.
next_string {ℓ} :
    {A : Type ℓ} (s : Bytes) (len position more : ℕ) (k : Bytes → ℕ → Option A) (a : A)
    → (position + len < 2 ^ 31 → k s (position + len) ≡ where_fits (position + len + more) a)
    → (where_fits len (s, len) >>= λ (tmp, n). int_sum position n >>= λ next. k tmp next)
      ≡ where_fits (position + len + more) a
next_string s len position more k a rest = elim (Bool-cases (ltb (position + len) (2 ^ 31))) [
  | inl e ↦
      let short : ltb len (2 ^ 31) ≡ true = ground arith in rw (short, e) (rest (ground arith))
  | inr e ↦
      let long : ltb (position + len + more) (2 ^ 31) ≡ false = ground arith in
      rw long (stops (Bool-cases (ltb len (2 ^ 31))) e)
]
  where
    stops :
        (ltb len (2 ^ 31) ≡ true) ⊎ (ltb len (2 ^ 31) ≡ false)
        → ltb (position + len) (2 ^ 31) ≡ false
        → (where_fits len (s, len) >>= λ (tmp, n). int_sum position n >>= λ next. k tmp next) ≡ none
    stops (inl short) e = rw (short, e) refl
    stops (inr long) e = rw long refl

string_message_parses :
    (raw tail : Bytes)
    → IsShort raw
    → parse_string_message (b'$' ∷ (to_string (length raw) ++ (13 ∷ 10 ∷ (raw ++ tail))))
      ≡ where_fits
          (3 + length (to_string (length raw)) + length raw + 2)
          (raw, 3 + length (to_string (length raw)) + length raw + 2)
unfolding parse_string_message
string_message_parses raw tail short =
    rw
      (
        advance_one b'$' (to_string (length raw) ++ (13 ∷ 10 ∷ (raw ++ tail))),
        atoi-to_string (length raw) (13 ∷ 10 ∷ (raw ++ tail)) short refl,
        to_string_int-pos (length raw),
        advance_header b'$' (to_string (length raw)) (raw ++ tail),
        copy-append raw tail,
      )
      (int_sums (3 + length (to_string (length raw))) (length raw) (λ n. (raw, n)))

-- A string of less than 2 ^ 31 bytes is parsed back from its message, with the length of the message,
-- whatever stands behind it, if that length fits an `int`. If it does not, the `int` of the length
-- overflows.
pub parse_string_message-get_string_message :
    (raw rest : Bytes)
    → IsShort raw
    → parse_string_message (get_string_message raw ++ rest) ≡ (
        if ltb (length (get_string_message raw)) (2 ^ 31)
        then some (raw, length (get_string_message raw))
        else none)
parse_string_message-get_string_message raw rest short =
    rw (string_message_shape raw rest short, length-get_string_message raw short)
      (string_message_parses raw (13 ∷ 10 ∷ rest) short)

parse_strings-string_messages :
    (raw : List Bytes) (front rest : Bytes) (rc : List Bytes) (position : ℕ)
    → position ≡ length front
    → position < 2 ^ 31
    → All IsShort raw
    → parse_strings (length raw) (front ++ (string_messages raw ++ rest)) position rc
      ≡ where_fits
          (position + length (string_messages raw))
          (rc ++ raw, position + length (string_messages raw))
unfolding parse_strings string_messages
parse_strings-string_messages [] front rest rc position e small h =
    let same : position + 0 ≡ position = omega arith in
    let fits : ltb position (2 ^ 31) ≡ true = ground arith in rw (append-nil, same, fits) refl
parse_strings-string_messages (s ∷ raw) front rest rc position e small (short, h) =
    let len = length (get_string_message s) in
    let total : position + length (get_string_message s ++ string_messages raw)
        ≡ position + len + length (string_messages raw) =
      omega (arith, length-append (get_string_message s) (string_messages raw)) in
    rw
      (
        append_assoc (get_string_message s) (string_messages raw) rest,
        advance-append front (get_string_message s ++ (string_messages raw ++ rest)) position e,
        parse_string_message-get_string_message s (string_messages raw ++ rest) short,
        total,
      )
      (next_string s len position (length (string_messages raw))
        (λ tmp next.
          parse_strings (length raw)
            (front ++ (get_string_message s ++ (string_messages raw ++ rest))) next
            (rc ++ (tmp ∷ [])))
        (rc ++ (s ∷ raw), position + len + length (string_messages raw))
        (λ fits.
          rw
            (
              ← append_assoc front (get_string_message s) (string_messages raw ++ rest),
              parse_strings-string_messages raw (front ++ get_string_message s) rest
                  (rc ++ (s ∷ [])) (position + len)
                  (omega (arith, length-append front (get_string_message s))) fits h,
              append_assoc rc (s ∷ []) raw,
            )
            refl))

pub resp_arry_shape :
    (raw : List Bytes) (rest : Bytes)
    → length raw < 2 ^ 31
    → get_resp_arry raw ++ rest
      ≡ b'*' ∷ (to_string (length raw) ++ (13 ∷ 10 ∷ (string_messages raw ++ rest)))
unfolding get_resp_arry
resp_arry_shape raw rest few = rw (int_size (length raw) few) (simp append_assoc)

length-get_resp_arry :
    (raw : List Bytes)
    → length raw < 2 ^ 31
    → length (get_resp_arry raw)
      ≡ length (to_string (length raw)) + 3 + length (string_messages raw)
unfolding get_resp_arry
length-get_resp_arry raw few =
    rw (int_size (length raw) few)
      (omega (arith, length-append (to_string (length raw)) (crlf ++ string_messages raw)))

-- the header as the text in front of the strings
header_front :
    (d t : Bytes) → ◌≡◌ {A = Bytes} (b'*' ∷ (d ++ (13 ∷ 10 ∷ t))) ((b'*' ∷ (d ++ crlf)) ++ t)
header_front d t = rw (append_assoc d crlf t)

header_small : (n : ℕ) → n < 2 ^ 31 → length (to_string n) + 3 < 2 ^ 31
header_small n few = omega (arith, length-to_string-le_tenth n)

strings_parse :
    (raw : List Bytes) (rest : Bytes)
    → length raw < 2 ^ 31
    → All IsShort raw
    → parse_strings
        (length raw)
        (b'*' ∷ (to_string (length raw) ++ (13 ∷ 10 ∷ (string_messages raw ++ rest))))
        (length (to_string (length raw)) + 3)
        []
      ≡ where_fits (length (get_resp_arry raw)) (raw, length (get_resp_arry raw))
strings_parse raw rest few h =
    rw (header_front, length-get_resp_arry raw few)
      (parse_strings-string_messages raw (b'*' ∷ (to_string (length raw) ++ crlf)) rest []
        (length (to_string (length raw)) + 3)
        (omega (arith, length-append (to_string (length raw)) crlf)) (header_small (length raw) few)
        h)

-- A command, whose number of words and whose words' lengths fit an `int`, is read back from its
-- message with the length of the message, whatever bytes its words hold and whatever stands behind it,
-- if that length fits an `int`. If it does not, the position in the message overflows.
pub parser_resp_arry-get_resp_arry :
    (raw : List Bytes) (rest : Bytes)
    → length raw < 2 ^ 31
    → All IsShort raw
    → parser_resp_arry (get_resp_arry raw ++ rest) ≡ (
        if ltb (length (get_resp_arry raw)) (2 ^ 31)
        then some (raw, length (get_resp_arry raw))
        else none)
unfolding parser_resp_arry
parser_resp_arry-get_resp_arry raw rest few h =
    rw
      (
        resp_arry_shape raw rest few,
        advance_one b'*' (to_string (length raw) ++ (13 ∷ 10 ∷ (string_messages raw ++ rest))),
        atoi-to_string (length raw) (13 ∷ 10 ∷ (string_messages raw ++ rest)) few refl,
        to_string_int-pos (length raw),
      )
      (strings_parse raw rest few h)

-- A parsed message of a command gives the command's words.
pub parsed_words :
    (raw comds : List Bytes) (rest : Bytes) (n : ℕ)
    → length raw < 2 ^ 31
    → All IsShort raw
    → parser_resp_arry (get_resp_arry raw ++ rest) ≡ some (comds, n)
    → raw ≡ comds
parsed_words raw comds rest n few h parsed =
    elim (Bool-cases (ltb (length (get_resp_arry raw)) (2 ^ 31))) [
      | inl e ↦
          let done : some (raw, length (get_resp_arry raw)) ≡ some (comds, n) =
            sym (parser_resp_arry-get_resp_arry raw rest few h ∙ rw e refl) ∙ parsed in
          ap (λ (x : List Bytes × ℕ). x.0) (some_inj done)
      | inr e ↦ absurd (
          let failed : none ≡ some (comds, n) =
            sym (parser_resp_arry-get_resp_arry raw rest few h ∙ rw e refl) ∙ parsed in
          cc)
    ]

-- A number that fits an `int` and is not negative is read back from its message.
pub parser_interger_message-get_interger_message :
    (n : ℕ) (rest : Bytes)
    → n < 2 ^ 31
    → parser_interger_message (get_interger_message (pos n) ++ rest)
      ≡ some (pos n, length (get_interger_message (pos n)))
unfolding parser_interger_message get_interger_message
parser_interger_message-get_interger_message n rest fits =
    rw
      (
        advance_one b':' (to_string_int (pos n) ++ crlf ++ rest),
        to_string_int-pos n,
        append_assoc (to_string n) crlf rest,
        atoi-to_string n (13 ∷ 10 ∷ rest) fits refl,
        to_string_int-pos n,
      )
      (ap (λ p. some (pos n, p)) (omega (arith, length-append (to_string n) crlf)))
