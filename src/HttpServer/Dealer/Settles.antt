-- ===== src/HttpServer/Dealer/Settles.antt =====
-- What becomes of a buffer: it is answered at most once, or the loop never ends.
use cloud_computing.Prelude.{
  ℕ, zero, suc, ◌+◌, ◌≡◌, refl, ap, true, false, ◌⊎◌, inl, inr, none, some, length, get_elem?, [],
  ◌∷◌, ◌++◌, Bytes, codes, Bool-cases, Option-cases, arith,
}
use cloud_computing.Std.Text.{find}
use cloud_computing.HttpServer.Ring.{OutPutTask}
use cloud_computing.HttpServer.Messages.{Files}
use cloud_computing.HttpServer.Dealer.{
  has_request, cut_request, char_at, answer, dealt, round, ended, fault, running, behind, dealer,
}

-- The head has no end yet, or the entity is not all there.
abbrev pub IsPartial : Bytes → Type 0
IsPartial s_buf =
    (find (codes "\r\n\r\n") s_buf ≡ none)
    ⊎ ((p : ℕ) × (find (codes "\r\n\r\n") s_buf ≡ some p) × (cut_request s_buf (p + 4) ≡ some none))

-- One character is no request.
has_request-one : (c : ℕ) → has_request (c ∷ []) ≡ false
unfolding has_request find
has_request-one c = ground arith

module _ (files : Files) (connfd : ℕ) where
  pub data Settles (s_buf : Bytes) : Type 0 where
    idle :
        has_request s_buf ≡ false
        → ((rounds : ℕ) → dealer files connfd (suc rounds) s_buf ≡ ended [])
        → Settles s_buf
    answered :
        (task : OutPutTask)
        → has_request s_buf ≡ true
        → ((rounds : ℕ) → dealer files connfd (suc (suc rounds)) s_buf ≡ ended (task ∷ []))
        → Settles s_buf
    broken :
        has_request s_buf ≡ true
        → ((rounds : ℕ) → dealer files connfd (suc rounds) s_buf ≡ fault)
        → Settles s_buf
    spins :
        has_request s_buf ≡ true
        → IsPartial s_buf
        → ((rounds : ℕ) → dealer files connfd rounds s_buf ≡ running)
        → Settles s_buf

  char_at-cases :
      (s_buf : Bytes) (p : ℕ)
      → (char_at s_buf p ≡ none) ⊎ ((c : ℕ) × (char_at s_buf p ≡ some (c ∷ [])))
  unfolding char_at
  char_at-cases s_buf p = elim (Option-cases (get_elem? (s_buf ++ (0 ∷ [])) p)) [
    | inl e ↦ inl (rw e refl)
    | inr (c, e) ↦ inr (c, rw e refl)
  ]

  dealt-cases :
      (s_buf request : Bytes) (entity_pos : ℕ)
      → (dealt files connfd s_buf request entity_pos ≡ none)
        ⊎ ((task : OutPutTask) × (c : ℕ) × (dealt files connfd s_buf request entity_pos
              ≡ some (task ∷ [], c ∷ [])))
  unfolding dealt
  dealt-cases s_buf request entity_pos = elim (char_at-cases s_buf (length request)) [
    | inl e ↦ inl (rw e refl)
    | inr (c, e) ↦ elim (Option-cases (answer files connfd request entity_pos)) [
      | inl a ↦ inl (rw (e, a) refl)
      | inr (task, a) ↦ inr (task, c, rw (e, a) refl)
    ]
  ]

  round-cases :
      (s_buf : Bytes)
      → (round files connfd s_buf ≡ none)
        ⊎ ((task : OutPutTask) × (c : ℕ) × (round files connfd s_buf ≡ some (task ∷ [], c ∷ [])))
        ⊎ (IsPartial s_buf × (round files connfd s_buf ≡ some ([], s_buf)))
  unfolding round
  round-cases s_buf = elim (Option-cases (find (codes "\r\n\r\n") s_buf)) [
    | inl e ↦ inr (inr (inl e, rw (e, round) refl))
    | inr (p, e) ↦ elim (Option-cases (cut_request s_buf (p + 4))) [
      | inl b ↦ inl (rw (e, round, b) refl)
      | inr (none, b) ↦ inr (inr (inr (p, e, b), rw (e, round, b) refl))
      | inr (some (request, entity_pos), b) ↦ elim (dealt-cases s_buf request entity_pos) [
        | inl d ↦ inl (rw (e, round, b) d)
        | inr (task, c, d) ↦ inr (inl (task, c, rw (e, round, b) d))
      ]
    ]
  ]

  spinning :
      (s_buf : Bytes)
      → has_request s_buf ≡ true
      → round files connfd s_buf ≡ some ([], s_buf)
      → (rounds : ℕ) → dealer files connfd rounds s_buf ≡ running
  unfolding dealer
  spinning s_buf has same zero = refl
  spinning s_buf has same (suc rounds) =
      rw (has, dealer, same) (ap (behind []) (spinning s_buf has same rounds))

  pub settled :
      (s_buf : Bytes) (task : OutPutTask) (c : ℕ)
      → has_request s_buf ≡ true
      → round files connfd s_buf ≡ some (task ∷ [], c ∷ [])
      → (rounds : ℕ) → dealer files connfd (suc (suc rounds)) s_buf ≡ ended (task ∷ [])
  unfolding dealer
  settled s_buf task c has once rounds = rw (has, dealer, once, has_request-one c) refl

  faulty :
      (s_buf : Bytes)
      → has_request s_buf ≡ true
      → round files connfd s_buf ≡ none
      → (rounds : ℕ) → dealer files connfd (suc rounds) s_buf ≡ fault
  unfolding dealer
  faulty s_buf has bad rounds = rw (has, dealer, bad) refl

  idles :
      (s_buf : Bytes)
      → has_request s_buf ≡ false
      → (rounds : ℕ) → dealer files connfd (suc rounds) s_buf ≡ ended []
  unfolding dealer
  idles s_buf no_request rounds = rw (no_request, dealer) refl

  -- A buffer without a request is left alone. Otherwise, whatever the buffer holds: two rounds put
  -- exactly one message and end the loop, also when the buffer holds several requests; or the loop
  -- meets a fault; or the request is not complete, and the loop never ends.
  pub dealer-Settles : (s_buf : Bytes) → Settles s_buf
  dealer-Settles s_buf = elim (Bool-cases (has_request s_buf)) [
    | inr e ↦ idle e (idles s_buf e)
    | inl e ↦ elim (round-cases s_buf) [
      | inl bad ↦ broken e (faulty s_buf e bad)
      | inr (inl (task, c, once)) ↦ answered task e (settled s_buf task c e once)
      | inr (inr (partial, same)) ↦ spins e partial (spinning s_buf e same)
    ]
  ]
