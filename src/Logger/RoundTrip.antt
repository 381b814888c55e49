-- ===== src/Logger/RoundTrip.antt =====
-- The text of a log entry is read back.
use cloud_computing.Prelude.{
  ℕ, ◌+◌, ◌%◌, ◌^◌, ◌<◌, ◌≤◌, ◌≡◌, ◌≢◌, refl, ap, some, [], ◌∷◌, ◌++◌, arith, Bytes, codes, length,
  All, All-append, length-append, append_assoc,
}
use cloud_computing.Std.Number.{to_string, long_max}
use cloud_computing.Std.Number.RoundTrip.{
  to_u64-strtol-to_string, length-to_string-le, IsDigit, to_string-IsDigit,
}
use cloud_computing.Std.Text.{find, substr}
use cloud_computing.Std.Text.Find.{find-append, substr_middle, substr_rest}
use cloud_computing.Parser.{crlf}
use cloud_computing.Logger.{u64, sub_size, Log, cut_line, str_to_log, log_to_str}

digits_lack_cr : (s : Bytes) → All IsDigit s → All (λ x. x ≢ 13) s
digits_lack_cr [] h = tt
digits_lack_cr (c ∷ s) (d, h) = (omega arith, digits_lack_cr s h)

-- A line with a label and a number is cut into the number and the rest.
module _ (c : ℕ) (label : Bytes) (n skip : ℕ) (gap rest : Bytes) where
  abbrev line : Bytes
  line = (c ∷ label) ++ (to_string n ++ (crlf ++ (gap ++ rest)))

  find_label : find (c ∷ label) line ≡ some 0
  find_label = find-append c label [] (to_string n ++ (crlf ++ (gap ++ rest))) tt

  find_crlf :
      All (λ x. x ≢ 13) (c ∷ label)
      → find crlf line ≡ some (length (c ∷ label) + length (to_string n))
  find_crlf lacks = rw (
    ← append_assoc (c ∷ label) (to_string n) (crlf ++ (gap ++ rest)),
    find-append 13 (10 ∷ []) ((c ∷ label) ++ to_string n) (gap ++ rest) (
        All-append (λ x. x ≢ 13) (c ∷ label) (to_string n) lacks
          (digits_lack_cr (to_string n) (to_string-IsDigit n))),
    length-append (c ∷ label) (to_string n),
  )

  after_line :
      skip ≡ 2 + length gap
      → length rest ≤ u64
      → substr line (length (c ∷ label) + length (to_string n) + skip) u64 ≡ some rest
  after_line e fits =
      rw
        (
          ← append_assoc (c ∷ label) (to_string n) (crlf ++ (gap ++ rest)),
          ← append_assoc crlf gap rest,
          ← append_assoc ((c ∷ label) ++ to_string n) (crlf ++ gap) rest,
        )
        (substr_rest (((c ∷ label) ++ to_string n) ++ (crlf ++ gap)) rest _ u64
          (omega (
            arith,
            length-append ((c ∷ label) ++ to_string n) (crlf ++ gap),
            length-append (c ∷ label) (to_string n),
          ))
          fits)

  cut_line_lem :
      skip ≡ 2 + length gap
      → All (λ x. x ≢ 13) (c ∷ label)
      → length (to_string n) ≤ 2 ^ 63
      → length (c ∷ label) < 2 ^ 63
      → length rest ≤ u64
      → cut_line (c ∷ label) (length (c ∷ label)) skip line ≡ some (to_string n, rest)
  unfolding cut_line
  cut_line_lem e lacks short narrow fits = rw (
    find_label,
    find_crlf lacks,
    substr_middle (c ∷ label) (to_string n) (crlf ++ (gap ++ rest)) (0 + length (c ∷ label))
        (sub_size (length (c ∷ label) + length (to_string n)) 0 (length (c ∷ label))) (omega arith)
        (omega arith),
    after_line e fits,
  )

abbrev state_line : Log → Bytes
state_line l = codes "S: " ++ (to_string l.state ++ (crlf ++ (crlf ++ l.event)))

-- An entry is read back from its text, whatever bytes its event holds, if its number fits a `long`
-- and its state a byte.
pub str_to_log-log_to_str :
    (l : Log)
    → l.id ≤ long_max
    → l.state < 2 ^ 8
    → length l.event < 2 ^ 63
    → str_to_log (log_to_str l) ≡ some l
unfolding str_to_log log_to_str
str_to_log-log_to_str l id_fits state_fits event_fits =
    rw
      (
        cut_line_lem b'T' (codes "XID: ") l.id 2 [] (state_line l) refl (omega arith)
            (omega (arith, length-to_string-le l.id)) (omega arith)
            (omega (
              arith,
              length-append (to_string l.state) (crlf ++ (crlf ++ l.event)),
              length-to_string-le l.state,
            )),
        cut_line_lem b'S' (codes ": ") l.state 4 crlf l.event refl (omega arith)
            (omega (arith, length-to_string-le l.state)) (omega arith) (omega arith),
        to_u64-strtol-to_string l.id id_fits,
        to_u64-strtol-to_string l.state (omega arith),
      )
      (let e : l.state % 2 ^ 8 ≡ l.state = omega arith in ap (λ t. some (record l { state = t })) e)
