-- ===== src/Network/Loops.antt =====
-- The two loops that receive a packet, over a byte stream that cuts it anywhere and makes its reader
-- wait.
use cloud_computing.Prelude.{
  ℕ, zero, suc, ◌+◌, ◌-◌, ◌^◌, ◌≤◌, ◌<◌, ◌≡◌, refl, sym, ◌∙◌, ap, Bool, true, false, ◌⊎◌, inl, inr,
  Option, some, [], ◌∷◌, ◌++◌, Bytes, length, ltb, ◌==◌, ==_iff, Bool-cases, length-append,
  append_assoc, arith,
}
use cloud_computing.Codes.{Code, kv_ok, kv_timeout, is_ok}
use cloud_computing.Network.Mark.{mark, IsNoise, from_mark-cases}
use cloud_computing.Network.{
  Socket, header_len, add_header, add_content, heard, header_loop, content_loop,
}

module _ (socket : Socket) where
  open socket use {State}

  -- What a stream has still to deliver, and how often it will make its reader wait.
  pub record View : Type 0 where
    pub pending : State → Bytes
    pub delay : State → ℕ

  -- A call that asks for `most` bytes either delivers some of the next bytes or times out.
  pub data Delivers (v : View) (s : State) (most : ℕ) : Code × Bytes × State → Type 0 where
    delivered :
        {buf : Bytes} {t : State}
        → 1 ≤ length buf
        → length buf ≤ most
        → v.pending s ≡ buf ++ v.pending t
        → v.delay t ≤ v.delay s
        → Delivers v s most (kv_ok, buf, t)
    waited :
        {buf : Bytes} {t : State}
        → v.pending t ≡ v.pending s
        → v.delay t < v.delay s
        → Delivers v s most (kv_timeout, buf, t)

  abbrev pub IsReceive : View → (ℕ → State → Code × Bytes × State) → Type 0
  IsReceive v receive =
      (most : ℕ) (s : State)
      → 1 ≤ most
      → most ≤ length (v.pending s)
      → Delivers v s most (receive most s)

pub append_split :
    (got rest msg tail : Bytes)
    → got ++ rest ≡ msg ++ tail
    → length got ≡ length msg
    → (got ≡ msg) × (rest ≡ tail)
append_split [] rest [] tail e l = (refl, e)
append_split [] rest (x ∷ msg) tail e l = absurd (omega arith)
append_split (x ∷ got) rest [] tail e l = absurd (omega arith)
append_split (x ∷ got) rest (y ∷ msg) tail e l =
    let (a, b) = append_split got rest msg tail (cc) (omega arith) in (cc, b)

add_header_more :
    (header buf : Bytes) → 1 ≤ length header → add_header header buf ≡ some (header ++ buf)
unfolding add_header
add_header_more header buf h = ground arith

module _ (socket : Socket) (v : View socket) (ends : Code → Bool) (d : ℕ) where
  open socket use {State}

  -- At most `d` timeouts are left, and a timeout does not end the loop or there is none.
  abbrev pub Patient : State → Type 0
  Patient s = (v.delay s ≤ d) × ((ends kv_timeout ≡ false) ⊎ (v.delay s ≡ 0))

  abbrev pub Done : Bytes → Bytes → Option (Code × Bytes × State) → Type 0
  Done msg rest o = (t : State) × (o ≡ some (kv_ok, msg, t)) × (v.pending t ≡ rest) × Patient t

  pub Patient-le : (s t : State) → v.delay t ≤ v.delay s → Patient s → Patient t
  Patient-le s t le (b, inl e) = (omega arith, inl e)
  Patient-le s t le (b, inr z) = (omega arith, inr (omega arith))

module _ (socket : Socket) (v : View socket) (ends : Code → Bool) (going : ends kv_ok ≡ false)
    (receive : ℕ → socket.State → Code × Bytes × socket.State) (law : IsReceive socket v receive)
    (d : ℕ) where
  open socket use {State}

  -- One round of a loop that appends what it receives.
  round :
      (next : Bytes → State → Option (Code × Bytes × State)) (add : Bytes → Bytes → Option Bytes)
      (got : Bytes) (s : State) (most : ℕ) (msg rest : Bytes)
      → ((buf : Bytes) → add got buf ≡ some (got ++ buf))
      → (c : Code × Bytes × State) → Delivers socket v s most c
      → Patient socket v ends d s
      → got ++ v.pending s ≡ msg ++ rest
      → ((longer : Bytes) (t : State)
          → length got ≤ length longer
          → length longer ≤ length got + most
          → v.delay t + length got < length longer + v.delay s
          → longer ++ v.pending t ≡ msg ++ rest
          → Patient socket v ends d t
          → Done socket v ends d msg rest (next longer t))
      → Done socket v ends d msg rest (heard socket ends next add got c)
  unfolding heard is_ok
  round next add got s most msg rest adds _ (delivered {buf} {t} few le cut slow) patient e ih =
      rw (going, adds buf)
        (ih (got ++ buf) t (omega (arith, length-append got buf))
          (omega (arith, length-append got buf)) (omega (arith, length-append got buf))
          (append_assoc got buf (v.pending t) ∙ ap (λ p. got ++ p) (sym cut) ∙ e)
          (Patient-le socket v ends d s t slow patient))
  round next add got s most msg rest adds _ (waited {buf} {t} same slow) (b, inl p) e ih =
      let (x, done, left, more) =
        ih got t (omega arith) (omega arith) (omega arith) (ap (λ k. got ++ k) same ∙ e)
          (omega arith, inl p) in
      (x, rw p done, left, more)
  round next add got s most msg rest adds _ (waited same slow) (b, inr z) e ih =
      absurd (omega arith)

  -- What the loops have read when they end.
  complete :
      (got : Bytes) (s : State) (msg rest : Bytes)
      → Patient socket v ends d s
      → got ++ v.pending s ≡ msg ++ rest
      → (length got == length msg) ≡ true
      → Done socket v ends d msg rest (some (kv_ok, got, s))
  complete got s msg rest patient e full =
      let (same, left) =
        append_split got (v.pending s) msg rest e ((==_iff (length got) (length msg)).0 full) in
      (s, ap (λ k. some (kv_ok, k, s)) same, left, patient)

  left_over : (got p msg rest : Bytes) → got ++ p ≡ msg ++ rest → length msg ≤ length got + length p
  left_over got p msg rest e =
      omega (arith, length-append got p, length-append msg rest, ap (λ (k : Bytes). length k) e)

  pub content_loop_lem :
      (rounds : ℕ) (content : Bytes) (s : State) (msg rest : Bytes)
      → length msg < 2 ^ 31
      → length content ≤ length msg
      → length msg + v.delay s ≤ rounds + length content
      → Patient socket v ends d s
      → content ++ v.pending s ≡ msg ++ rest
      → Done socket v ends d msg rest
          (content_loop socket ends receive rounds (length msg) content s)
  unfolding content_loop
  content_loop_lem zero content s msg rest short le enough patient e =
      let full : (length content == length msg) ≡ true = ground arith in
      rw full (complete content s msg rest patient e full)
  content_loop_lem (suc rounds) content s msg rest short le enough patient e =
      elim (Bool-cases (length content == length msg)) [
        | inl full ↦ rw full (complete content s msg rest patient e full)
        | inr part ↦
            let most : ℕ = length msg - length content in
            let fits : ltb most (2 ^ 31) ≡ true = ground arith in
            rw (part, fits)
              (round (λ longer t. content_loop socket ends receive rounds (length msg) longer t)
                add_content content s most msg rest (λ buf. refl) (receive most s)
                (law most s (ground arith)
                  (omega (arith, left_over content (v.pending s) msg rest e)))
                patient e
                (λ longer t more few less e' p.
                  content_loop_lem rounds longer t msg rest short (omega arith) (omega arith) p e'))
      ]

  -- Once the mark is found, the header is read on to its end.
  header_rest :
      (rounds : ℕ) (header : Bytes) (s : State) (whole rest : Bytes)
      → length whole ≡ header_len
      → 1 ≤ length header
      → length header ≤ header_len
      → header_len + v.delay s ≤ rounds + length header
      → Patient socket v ends d s
      → header ++ v.pending s ≡ whole ++ rest
      → Done socket v ends d whole rest (header_loop socket ends receive rounds header s)
  unfolding header_loop
  header_rest zero header s whole rest nine some_read le enough patient e =
      let full : (length header == length whole) ≡ true = ground arith in
      rw (sym nine, full) (complete header s whole rest patient e full)
  header_rest (suc rounds) header s whole rest nine some_read le enough patient e =
      elim (Bool-cases (length header == header_len)) [
        | inl full ↦ rw full (complete header s whole rest patient e (rw nine full))
        | inr part ↦
            let most : ℕ = header_len - length header in
            rw part (
              round (λ longer t. header_loop socket ends receive rounds longer t) add_header header
                s most whole rest (λ buf. add_header_more header buf some_read) (receive most s)
                (law most s (ground arith)
                  (omega (arith, left_over header (v.pending s) whole rest e)))
                patient e
                (λ longer t more few less e' p.
                  header_rest rounds longer t whole rest nine (omega arith) (omega arith)
                    (omega arith) p e'))
      ]

  -- A first round, while no mark is found.
  noise_round :
      (next : Bytes → State → Option (Code × Bytes × State)) (noise : Bytes) (s : State)
      (tail whole rest : Bytes) (c : Code × Bytes × State)
      → Delivers socket v s header_len c
      → Patient socket v ends d s
      → IsNoise noise
      → v.pending s ≡ noise ++ (mark ∷ tail)
      → ((more : Bytes) (t : State)
          → IsNoise more
          → length more + v.delay t < length noise + v.delay s
          → v.pending t ≡ more ++ (mark ∷ tail)
          → Patient socket v ends d t
          → Done socket v ends d whole rest (next [] t))
      → ((xs : Bytes) (t : State)
          → length xs < header_len
          → v.delay t ≤ v.delay s
          → (mark ∷ xs) ++ v.pending t ≡ mark ∷ tail
          → Patient socket v ends d t
          → Done socket v ends d whole rest (next (mark ∷ xs) t))
      → Done socket v ends d whole rest (heard socket ends next add_header [] c)
  unfolding heard is_ok add_header
  noise_round next noise s tail whole rest _ (delivered {buf} {t} few le cut slow) patient h e again
        found =
      elim (from_mark-cases buf (v.pending t) noise tail (sym cut ∙ e) h) [
        | inl (more, new, quiet, left, shorter) ↦
            rw (going, new)
              (again more t quiet (omega (arith, shorter)) left
                (Patient-le socket v ends d s t slow patient))
        | inr (xs, new, left, longer) ↦
            rw (going, new)
              (found xs t (omega (arith, longer)) slow left
                (Patient-le socket v ends d s t slow patient))
      ]
  noise_round next noise s tail whole rest _ (waited {buf} {t} same slow) (b, inl p) h e again
        found =
      let (x, done, left, more) = again noise t h (omega arith) (same ∙ e) (omega arith, inl p) in
      (x, rw p done, left, more)
  noise_round next noise s tail whole rest _ (waited same slow) (b, inr z) h e again found =
      absurd (omega arith)

  pub header_loop_lem :
      (rounds : ℕ) (noise : Bytes) (s : State) (xs rest : Bytes)
      → length (mark ∷ xs) ≡ header_len
      → IsNoise noise
      → length noise + header_len + v.delay s ≤ rounds
      → Patient socket v ends d s
      → v.pending s ≡ noise ++ (mark ∷ (xs ++ rest))
      → Done socket v ends d (mark ∷ xs) rest (header_loop socket ends receive rounds [] s)
  unfolding header_loop
  header_loop_lem zero noise s xs rest nine h enough patient e = absurd (omega arith)
  header_loop_lem (suc rounds) noise s xs rest nine h enough patient e =
      noise_round (λ longer t. header_loop socket ends receive rounds longer t) noise s (xs ++ rest)
        (mark ∷ xs) rest (receive header_len s)
        (law header_len s (omega arith) (
          omega (
            arith,
            nine,
            ap (λ (k : Bytes). length k) e,
            length-append noise (mark ∷ (xs ++ rest)),
            length-append xs rest,
          )))
        patient h e
        (λ more t quiet less left p.
          header_loop_lem rounds more t xs rest nine quiet (omega arith) p left)
        (λ ys t few slow left p.
          header_rest rounds (mark ∷ ys) t (mark ∷ xs) rest nine (omega arith) (omega arith)
            (omega arith) p left)
