-- ===== src/Network/Command/RoundTrip.antt =====
-- `recvCommand` reads what `getRESPArry` of Lab3/src/parser.cc prints.
use cloud_computing.Prelude.{
  ℕ, zero, suc, ◌+◌, ◌^◌, ◌≤◌, ◌<◌, ◌≡◌, ◌≢◌, refl, sym, ◌∙◌, ap, Bool, false, inl, inr, some, List,
  [], ◌∷◌, ◌++◌, Bytes, length, All, ==_iff, length-append, append_assoc, append-nil, arith,
}
use cloud_computing.Codes.{Code, kv_ok, is_ok, is_close}
use cloud_computing.Std.Number.{to_string}
use cloud_computing.Std.Number.RoundTrip.{IsDigit, to_string-IsDigit, to_u64-strtol-to_string}
use cloud_computing.Parser.{crlf, get_string_message, string_messages, get_resp_arry}
use cloud_computing.Parser.RoundTrip.{IsShort, string_message_shape, resp_arry_shape}
use cloud_computing.Network.{Socket, Result, failed, content_loop}
use cloud_computing.Network.Loops.{
  Delivers, delivered, waited, Patient, Done, Patient-le, content_loop_lem,
}
use cloud_computing.Network.RoundTrip.{Stream}
use cloud_computing.Network.Command.{
  Scan, before_mark, in_digits, before_lf, scan_byte, scanned, heard_byte, length_loop, heard_word,
  heard_length, words_loop, heard_number, recv_command,
}

module _ (socket : Socket) (stream : Stream socket) (ends : Code → Bool)
    (going : ends kv_ok ≡ false) (d : ℕ) where
  open socket use {State}
  open stream use {view, recv_nf_law}

  -- One byte arrives, or the reader waits.
  byte_round :
      (next : Scan → Bytes → State → Result socket) (lead : ℕ) (step : Scan) (header : Bytes)
      (s : State) (x : ℕ) (p whole rest : Bytes) (c : Code × Bytes × State)
      → Delivers socket view s 1 c
      → Patient socket view ends d s
      → view.pending s ≡ x ∷ p
      → ((t : State)
          → view.pending t ≡ p
          → view.delay t ≤ view.delay s
          → Patient socket view ends d t
          → Done socket view ends d whole rest
              (scanned socket next (scan_byte lead step header x) t))
      → ((t : State)
          → view.pending t ≡ x ∷ p
          → view.delay t < view.delay s
          → Patient socket view ends d t
          → Done socket view ends d whole rest (next step header t))
      → Done socket view ends d whole rest (heard_byte socket ends next lead step header c)
  unfolding heard_byte is_ok
  byte_round next lead step header s x p whole rest _ (delivered {buf = []} few le cut slow) patient
        e got again =
      absurd (omega arith)
  byte_round next lead step header s x p whole rest _
        (delivered {buf = y ∷ []} {t = t} few le cut slow) patient e got again =
      let same : y ≡ x = cc in
      rw (going, same) (got t (cc) slow (Patient-le socket view ends d s t slow patient))
  byte_round next lead step header s x p whole rest _
        (delivered {buf = y ∷ z ∷ buf} few le cut slow) patient e got again =
      absurd (omega arith)
  byte_round next lead step header s x p whole rest _ (waited {buf} {t} same slow) (b, inl q) e got
        again =
      let (k, done, left, more) = again t (same ∙ e) slow (omega arith, inl q) in
      (k, rw q done, left, more)
  byte_round next lead step header s x p whole rest _ (waited same slow) (b, inr z) e got again =
      absurd (omega arith)

  one_byte :
      (s : State) (x : ℕ) (p : Bytes)
      → view.pending s ≡ x ∷ p
      → Delivers socket view s 1 (socket.recv_nf 1 s)
  one_byte s x p e = recv_nf_law 1 s (omega arith) (omega (arith, ap (λ (k : Bytes). length k) e))

  lf_lem :
      (rounds lead : ℕ) (header : Bytes) (s : State) (rest : Bytes)
      → 1 + view.delay s ≤ rounds
      → Patient socket view ends d s
      → view.pending s ≡ 10 ∷ rest
      → Done socket view ends d header rest (length_loop socket ends rounds lead before_lf header s)
  unfolding length_loop scanned scan_byte
  lf_lem zero lead header s rest enough patient e = absurd (omega arith)
  lf_lem (suc rounds) lead header s rest enough patient e =
      byte_round (λ step longer t. length_loop socket ends rounds lead step longer t) lead before_lf
        header s 10 rest header rest (socket.recv_nf 1 s) (one_byte s 10 rest e) patient e
        (λ t left slow more. (t, refl, left, more))
        (λ t left less more. lf_lem rounds lead header t rest (omega arith) more left)

  scan_byte-digit :
      (lead : ℕ) (header : Bytes) (c : ℕ)
      → IsDigit c
      → scan_byte lead in_digits header c ≡ (in_digits, header ++ (c ∷ []))
  unfolding scan_byte
  scan_byte-digit lead header c h = ground arith

  digits_lem :
      (rounds lead : ℕ) (header digits : Bytes) (s : State) (rest : Bytes)
      → All IsDigit digits
      → 2 + length digits + view.delay s ≤ rounds
      → Patient socket view ends d s
      → view.pending s ≡ digits ++ (13 ∷ 10 ∷ rest)
      → Done socket view ends d
          (header ++ digits)
          rest
          (length_loop socket ends rounds lead in_digits header s)
  unfolding length_loop scanned scan_byte
  digits_lem zero lead header digits s rest h enough patient e = absurd (omega arith)
  digits_lem (suc rounds) lead header [] s rest h enough patient e =
      byte_round (λ step longer t. length_loop socket ends rounds lead step longer t) lead in_digits
        header s 13 (10 ∷ rest) (header ++ []) rest (socket.recv_nf 1 s)
        (one_byte s 13 (10 ∷ rest) e) patient e
        (λ t left slow more.
          rw (append-nil header) (lf_lem rounds lead header t rest (omega arith) more left))
        (λ t left less more. digits_lem rounds lead header [] t rest h (omega arith) more left)
  digits_lem (suc rounds) lead header (c ∷ digits) s rest (hc, h) enough patient e =
      byte_round (λ step longer t. length_loop socket ends rounds lead step longer t) lead in_digits
        header s c (digits ++ (13 ∷ 10 ∷ rest)) (header ++ (c ∷ digits)) rest (socket.recv_nf 1 s)
        (one_byte s c (digits ++ (13 ∷ 10 ∷ rest)) e) patient e
        (λ t left slow more.
          rw (scan_byte-digit lead header c hc, sym (append_assoc header (c ∷ []) digits))
            (digits_lem rounds lead (header ++ (c ∷ [])) digits t rest h (omega arith) more left))
        (λ t left less more.
          digits_lem rounds lead header (c ∷ digits) t rest (hc, h) (omega arith) more left)

  scan_byte-noise : (lead c : ℕ) → c ≢ lead → scan_byte lead before_mark [] c ≡ (before_mark, [])
  unfolding scan_byte
  scan_byte-noise lead c h = ground arith

  -- A length is read from its mark to its LF; bytes before the mark are skipped.
  length_loop_lem :
      (rounds lead : ℕ) (noise digits : Bytes) (s : State) (rest : Bytes)
      → All (λ c. c ≢ lead) noise
      → All IsDigit digits
      → 3 + length noise + length digits + view.delay s ≤ rounds
      → Patient socket view ends d s
      → view.pending s ≡ noise ++ (lead ∷ (digits ++ (13 ∷ 10 ∷ rest)))
      → Done socket view ends d digits rest (length_loop socket ends rounds lead before_mark [] s)
  unfolding length_loop scanned scan_byte
  length_loop_lem zero lead noise digits s rest q h enough patient e = absurd (omega arith)
  length_loop_lem (suc rounds) lead [] digits s rest q h enough patient e =
      byte_round (λ step longer t. length_loop socket ends rounds lead step longer t) lead
        before_mark [] s lead (digits ++ (13 ∷ 10 ∷ rest)) digits rest (socket.recv_nf 1 s)
        (one_byte s lead (digits ++ (13 ∷ 10 ∷ rest)) e) patient e
        (λ t left slow more.
          rw ((==_iff lead lead).1 refl)
            (digits_lem rounds lead [] digits t rest h (omega arith) more left))
        (λ t left less more.
          length_loop_lem rounds lead [] digits t rest tt h (omega arith) more left)
  length_loop_lem (suc rounds) lead (c ∷ noise) digits s rest (hc, q) h enough patient e =
      byte_round (λ step longer t. length_loop socket ends rounds lead step longer t) lead
        before_mark [] s c (noise ++ (lead ∷ (digits ++ (13 ∷ 10 ∷ rest)))) digits rest
        (socket.recv_nf 1 s) (one_byte s c (noise ++ (lead ∷ (digits ++ (13 ∷ 10 ∷ rest)))) e)
        patient e
        (λ t left slow more.
          rw (scan_byte-noise lead c hc)
            (length_loop_lem rounds lead noise digits t rest q h (omega arith) more left))
        (λ t left less more.
          length_loop_lem rounds lead (c ∷ noise) digits t rest (hc, q) h (omega arith) more left)

length-packet :
    (noise digits tail : Bytes)
    → length (noise ++ (b'$' ∷ (digits ++ (13 ∷ 10 ∷ tail))))
      ≡ length noise + 3 + length digits + length tail
length-packet noise digits tail = omega (
  arith,
  length-append noise (b'$' ∷ (digits ++ (13 ∷ 10 ∷ tail))),
  length-append digits (13 ∷ 10 ∷ tail),
)

-- What stands before the next length: the CR LF of the word that was read last.
abbrev pub left_of : Bytes → List Bytes → Bytes
left_of noise [] = noise
left_of noise (w ∷ raw) = crlf

left_of-crlf : (raw : List Bytes) → left_of crlf raw ≡ crlf
left_of-crlf [] = refl
left_of-crlf (w ∷ raw) = refl

module _ (socket : Socket) (stream : Stream socket) (d rounds : ℕ) where
  open socket use {State}
  open stream use {view, recv_law}

  words_step :
      (w : Bytes) (raw str : List Bytes) (s t u x : State)
      → length_loop socket is_close rounds b'$' before_mark [] s
        ≡ some (kv_ok, to_string (length w), t)
      → content_loop socket is_close socket.recv rounds (length w) [] t ≡ some (kv_ok, w, u)
      → length w < 2 ^ 31
      → words_loop socket rounds (length raw) (str ++ (w ∷ [])) u
        ≡ some (kv_ok, (str ++ (w ∷ [])) ++ raw, x)
      → words_loop socket rounds (length (w ∷ raw)) str s ≡ some (kv_ok, str ++ (w ∷ raw), x)
  unfolding words_loop heard_length heard_word failed is_ok
  words_step w raw str s t u x read got short done =
      rw (read, to_u64-strtol-to_string (length w) (omega arith), got)
        (done ∙ ap (λ k. some (kv_ok, k, x)) (append_assoc str (w ∷ []) raw))

  words_loop_lem :
      (raw : List Bytes) (noise : Bytes) (str : List Bytes) (s : State) (rest : Bytes)
      → All IsShort raw
      → All (λ c. c ≢ b'$') noise
      → length (view.pending s) + d ≤ rounds
      → view.delay s ≤ d
      → view.pending s ≡ noise ++ (string_messages raw ++ rest)
      → (t : State) × (words_loop socket rounds (length raw) str s ≡ some (kv_ok, str ++ raw, t))
        × (view.pending t ≡ left_of noise raw ++ rest)
  unfolding words_loop heard_length heard_word failed is_ok string_messages is_close
  words_loop_lem [] noise str s rest short q enough slow e =
      (s, ap (λ k. some (kv_ok, k, s)) (sym (append-nil str)), e)
  words_loop_lem (w ∷ raw) noise str s rest (hw, short) q enough slow e =
      let after : Bytes = string_messages raw ++ rest in
      let digits : Bytes = to_string (length w) in
      let shape : view.pending s
          ≡ noise ++ (b'$' ∷ (digits ++ (13 ∷ 10 ∷ (w ++ (13 ∷ 10 ∷ after))))) =
        e
        ∙ ap (λ k. noise ++ k)
            (append_assoc (get_string_message w) (string_messages raw) rest
              ∙ string_message_shape w after hw) in
      let size : length (view.pending s)
          ≡ length noise + 3 + length digits + length (w ++ (13 ∷ 10 ∷ after)) =
        ap (λ (k : Bytes). length k) shape ∙ length-packet noise digits (w ++ (13 ∷ 10 ∷ after)) in
      let (t, read, left, (later, _)) =
        length_loop_lem socket stream is_close refl d rounds b'$' noise digits s
          (w ++ (13 ∷ 10 ∷ after)) q (to_string-IsDigit (length w))
          (omega (arith, size, slow, enough)) (slow, inl refl) shape in
      let (u, got, rest_left, (last, _)) =
        content_loop_lem socket view is_close refl socket.recv recv_law d rounds [] t w
          (13 ∷ 10 ∷ after) hw (omega arith)
          (omega (arith, size, later, enough, length-append w (13 ∷ 10 ∷ after))) (later, inl refl)
          left in
      let (x, done, end) =
        words_loop_lem raw crlf (str ++ (w ∷ [])) u rest short (omega arith, (omega arith, tt))
          (omega (
            arith,
            size,
            enough,
            ap (λ (k : Bytes). length k) rest_left,
            length-append w (13 ∷ 10 ∷ after),
          ))
          last rest_left in
      (
        x,
        words_step w raw str s t u x read got hw done,
        end ∙ ap (λ k. k ++ rest) (left_of-crlf raw),
      )

-- A coordinator reads the command that a client sent, however the stream cuts the bytes into pieces,
-- if it never makes the coordinator wait, the number of words and their lengths fit an `int`, and the
-- loops may take as many rounds as bytes are pending. The last CR LF of the command and what follows
-- it stay in the stream.
pub recv_command-get_resp_arry :
    (socket : Socket) (stream : Stream socket) (rounds : ℕ) (s : socket.State) (raw : List Bytes)
    (rest : Bytes)
    → length raw < 2 ^ 31
    → All IsShort raw
    → stream.view.delay s ≡ 0
    → length (stream.view.pending s) ≤ rounds
    → stream.view.pending s ≡ get_resp_arry raw ++ rest
    → (t : socket.State) × (recv_command socket rounds s ≡ some (kv_ok, raw, t))
      × (stream.view.pending t ≡ left_of [] raw ++ rest)
unfolding recv_command heard_number failed is_ok
recv_command-get_resp_arry socket stream rounds s raw rest few short now enough e =
    let shape = e ∙ resp_arry_shape raw rest few in
    let after : Bytes = string_messages raw ++ rest in
    let size : length (stream.view.pending s) ≡ 3 + length (to_string (length raw)) + length after =
      ap (λ (k : Bytes). length k) shape ∙ length-packet [] (to_string (length raw)) after in
    let (t, read, left, (later, _)) =
      length_loop_lem socket stream failed refl 0 rounds b'*' [] (to_string (length raw)) s after tt
        (to_string-IsDigit (length raw)) (omega (arith, size)) (omega arith, inr now) shape in
    rw (read, to_u64-strtol-to_string (length raw) (omega arith))
      (words_loop_lem socket stream 0 rounds raw [] [] t rest short tt
        (omega (arith, size, ap (λ (k : Bytes). length k) left)) later left)
