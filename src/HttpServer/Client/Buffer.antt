-- ===== src/HttpServer/Client/Buffer.antt =====
-- What `Dealer` sees of the receive buffer.
use cloud_computing.Prelude.{
  ℕ, zero, suc, ◌+◌, ◌-◌, ◌≤◌, ◌≡◌, ◌≢◌, refl, sym, ◌∙◌, ap, inl, inr, true, false, none, some, [],
  ◌∷◌, ◌++◌, Bytes, All, All-append, length, drop, replicate, length-append, append_assoc,
  append-nil, arith, Bool-cases, if◌then◌else◌, ltb,
}
use cloud_computing.HttpServer.Messages.{Files}
use cloud_computing.HttpServer.Dealer.{fault, dealer, until}
use cloud_computing.HttpServer.Dealer.Requests.{until-append}
use cloud_computing.HttpServer.Client.{recv_size, empty_buf, received, deal_buffer}

abbrev pub NoNul : Bytes → Type 0
NoNul = All (λ c. c ≢ 0)

-- The buffer holds a text and NULs behind it.
pub record HasText (text recv_buf : Bytes) : Type 0 where
  pub no_nul : NoNul text
  pub whole : recv_buf ≡ text ++ replicate (recv_size - length text) 0
  pub fits : length text ≤ recv_size

pub HasText-empty_buf : HasText [] empty_buf
unfolding empty_buf
HasText-empty_buf = record { no_nul = tt; whole = refl; fits = omega arith }

-- A longer text covers the shorter one; behind a shorter text the end of the longer one stays.
abbrev pub over : Bytes → Bytes → Bytes
over chunk text = chunk ++ drop (length chunk) text

NoNul-drop : (n : ℕ) (s : Bytes) → NoNul s → NoNul (drop n s)
NoNul-drop zero s h = h
NoNul-drop (suc n) [] h = tt
NoNul-drop (suc n) (c ∷ s) (hc, h) = NoNul-drop n s h

drop-replicate : (n k : ℕ) → ◌≡◌ {A = Bytes} (drop n (replicate k 0)) (replicate (k - n) 0)
unfolding replicate
drop-replicate zero k = let e : k - 0 ≡ k = omega arith in rw e refl
drop-replicate (suc n) zero = let e : 0 - suc n ≡ 0 = omega arith in rw e refl
drop-replicate (suc n) (suc k) =
    let e : suc k - suc n ≡ k - n = omega arith in rw e (drop-replicate n k)

drop-text :
    (n : ℕ) (text : Bytes) (k : ℕ)
    → drop n (text ++ replicate k 0) ≡ drop n text ++ replicate (k - (n - length text)) 0
drop-text zero text k = ap (λ m. text ++ replicate m 0) (omega arith)
drop-text (suc n) [] k = drop-replicate (suc n) k ∙ ap (λ m. replicate m 0) (omega arith)
drop-text (suc n) (c ∷ text) k =
    drop-text n text k ∙ ap (λ m. drop n text ++ replicate m 0) (omega arith)

length-drop : (n : ℕ) (s : Bytes) → length (drop n s) ≡ length s - n
length-drop zero s = omega arith
length-drop (suc n) [] = omega arith
length-drop (suc n) (c ∷ s) = length-drop n s ∙ omega arith

-- The buffer after a call of `recv`.
pub received-HasText :
    (chunk text recv_buf : Bytes)
    → HasText text recv_buf
    → NoNul chunk
    → length chunk ≤ recv_size
    → HasText (over chunk text) (received chunk recv_buf)
unfolding received
received-HasText chunk text recv_buf h no_nul fits =
    let size : length (over chunk text) ≡ length chunk + (length text - length chunk) =
      length-append chunk (drop (length chunk) text)
      ∙ omega (arith, length-drop (length chunk) text) in
    record {
      no_nul =
          All-append (λ c. c ≢ 0) chunk (drop (length chunk) text) no_nul
            (NoNul-drop (length chunk) text h.no_nul);
      whole =
          ap (λ b. chunk ++ drop (length chunk) b) h.whole
          ∙ ap (λ b. chunk ++ b) (drop-text (length chunk) text (recv_size - length text))
          ∙ sym (
              append_assoc chunk (drop (length chunk) text)
                (replicate (recv_size - length text - (length chunk - length text)) 0))
          ∙ ap (λ m. over chunk text ++ replicate m 0) (omega (arith, size, h.fits));
      fits = omega (arith, size, h.fits);
    }

until-NoNul : (text : Bytes) → NoNul text → until 0 text ≡ none
unfolding until
until-NoNul [] h = refl
until-NoNul (c ∷ text) (hc, h) = ground (arith, until-NoNul text h)

until-padded :
    (text : Bytes) (k : ℕ)
    → NoNul text
    → until 0 (text ++ replicate k 0) ≡ (if ltb 0 k then some text else none)
unfolding replicate
until-padded text zero h = rw (append-nil text) (until-NoNul text h)
until-padded text (suc k) h = rw (until-append 0 text (replicate k 0) h) (ground arith)

deal_buffer-HasText :
    (files : Files) (connfd rounds : ℕ) (text recv_buf : Bytes)
    → HasText text recv_buf
    → deal_buffer files connfd rounds recv_buf
      ≡ (if ltb (length text) recv_size then dealer files connfd rounds text else fault)
unfolding deal_buffer
deal_buffer-HasText files connfd rounds text recv_buf h =
    let found : until 0 recv_buf ≡ (if ltb 0 (recv_size - length text) then some text else none) =
      ap (λ b. until 0 b) h.whole ∙ until-padded text (recv_size - length text) h.no_nul in
    elim (Bool-cases (ltb (length text) recv_size)) [
      | inl room ↦
          let pad : ltb 0 (recv_size - length text) ≡ true = ground arith in
          rw (found, pad, room) refl
      | inr full ↦
          let pad : ltb 0 (recv_size - length text) ≡ false = ground arith in
          rw (found, pad, full) refl
    ]

-- `Dealer` gets the bytes that were received and, if the text before them was longer, the end of that
-- text behind them. A text that fills the whole buffer has no NUL behind it, which is a fault.
pub received-deal_buffer :
    (files : Files) (connfd rounds : ℕ) (chunk text recv_buf : Bytes)
    → HasText text recv_buf
    → NoNul chunk
    → length chunk ≤ recv_size
    → (deal_buffer files connfd rounds (received chunk recv_buf) ≡ (
        if ltb (length (over chunk text)) recv_size
        then dealer files connfd rounds (over chunk text)
        else fault))
      × HasText (over chunk text) (received chunk recv_buf)
received-deal_buffer files connfd rounds chunk text recv_buf h no_nul fits =
    let after = received-HasText chunk text recv_buf h no_nul fits in
    (
      deal_buffer-HasText files connfd rounds (over chunk text) (received chunk recv_buf) after,
      after,
    )
