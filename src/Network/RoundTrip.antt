-- ===== src/Network/RoundTrip.antt =====
-- A message goes through a byte stream that cuts it anywhere and makes its reader wait.
use cloud_computing.Prelude.{
  ℕ, ◌+◌, ◌^◌, ◌≤◌, ◌<◌, ◌≡◌, refl, ◌∙◌, ap, subst, true, inl, inr, some, [], ◌∷◌, ◌++◌, Bytes,
  length, ◌==◌, Bool-cases, if◌then◌else◌, append_assoc, append-nil, arith,
}
use cloud_computing.Codes.{kv_ok, is_ok, is_close}
use cloud_computing.Util.{numtob, btonum, btonum-numtob, length-numtob}
use cloud_computing.Network.Mark.{mark, IsNoise}
use cloud_computing.Network.{
  Socket, header_len, pack, recv_content, recv, recv_reply, await_reply, send, send_and_recv,
  failed,
}
use cloud_computing.Network.Loops.{View, IsReceive, append_split, header_loop_lem, content_loop_lem}

-- The length of a message is read back from its header.
length_read :
    (msg : Bytes) → length msg < 2 ^ 31 → btonum (mark ∷ numtob (length msg)) 1 ≡ some (length msg)
length_read msg short =
    subst (λ (k : Bytes). btonum (mark ∷ k) 1 ≡ some (length msg))
      (append-nil (numtob (length msg))) (btonum-numtob (length msg) (mark ∷ []) [] (omega arith))

-- Both calls that receive.
pub record Stream (socket : Socket) : Type 0 where
  pub view : View socket
  pub recv_law : IsReceive socket view socket.recv
  pub recv_nf_law : IsReceive socket view socket.recv_nf

module _ (socket : Socket) (stream : Stream socket) where
  open socket use {State}
  open stream use {view, recv_law, recv_nf_law}

  message :
      (rounds : ℕ) (s : State) (msg rest : Bytes)
      → length msg < 2 ^ 31
      → length msg + view.delay s ≤ rounds
      → view.pending s ≡ msg ++ rest
      → (t : State) × (recv_content socket rounds (kv_ok, mark ∷ numtob (length msg), s)
          ≡ some (kv_ok, msg, t))
        × (view.pending t ≡ rest)
  unfolding recv_content is_close
  message rounds s msg rest short enough e =
      let (t, done, left, _) =
        content_loop_lem socket view is_close refl socket.recv recv_law (view.delay s) rounds [] s
          msg rest short (omega arith) (omega arith) (omega arith, inl refl) e in
      (t, rw (length_read msg short) done, left)

  -- A participant receives a message that was sent to it, however the stream cuts the bytes into
  -- pieces and however often it makes the reader wait. Bytes before the mark are skipped, and the
  -- bytes behind the message stay in the stream. The loops end after at most as many rounds as there
  -- are bytes and waits.
  pub recv-pack :
      (rounds : ℕ) (s : State) (noise msg rest : Bytes)
      → IsNoise noise
      → length msg < 2 ^ 31
      → length noise + header_len + length msg + view.delay s ≤ rounds
      → view.pending s ≡ noise ++ (pack msg ++ rest)
      → (t : State) × (recv socket rounds s ≡ some (kv_ok, msg, t)) × (view.pending t ≡ rest)
  unfolding recv pack is_close
  recv-pack rounds s noise msg rest quiet short enough e =
      let (t, read, left, (later, _)) =
        header_loop_lem socket view is_close refl socket.recv_nf recv_nf_law (view.delay s) rounds
          noise s (numtob (length msg)) (msg ++ rest) (omega (arith, length-numtob (length msg)))
          quiet (omega arith) (omega arith, inl refl)
          (e ∙ ap (λ k. noise ++ (mark ∷ k)) (append_assoc (numtob (length msg)) msg rest)) in
      rw read (message rounds t msg rest short (omega arith) left)

  reply :
      (rounds : ℕ) (rmsg : Bytes) (s : State) (msg rest : Bytes)
      → length msg < 2 ^ 31
      → length msg ≤ rounds
      → view.delay s ≡ 0
      → view.pending s ≡ msg ++ rest
      → (t : State) × (recv_reply socket rounds rmsg (kv_ok, mark ∷ numtob (length msg), s)
          ≡ some (kv_ok, if length msg == 0 then rmsg else msg, t))
        × (view.pending t ≡ rest)
  unfolding recv_reply failed is_ok
  reply rounds rmsg s msg rest short enough now e = elim (Bool-cases (length msg == 0)) [
    | inl empty ↦
        let (_, left) = append_split [] (view.pending s) msg rest e (ground arith) in
        (s, rw (length_read msg short, empty) refl, left)
    | inr full ↦
        let (t, done, left, _) =
          content_loop_lem socket view failed refl socket.recv_nf recv_nf_law 0 rounds [] s msg rest
            short (omega arith) (omega arith) (omega arith, inr now) e in
        (t, rw (length_read msg short, full) done, left)
  ]

  -- If the connection stands, the request is sent and a reply arrives before a timeout, the
  -- coordinator's call returns without an error and hands over the reply, however the stream cuts it
  -- into pieces. An empty reply leaves the caller's buffer as it was.
  pub send_and_recv-pack :
      (rounds : ℕ) (smsg rmsg : Bytes) (s t : State) (noise msg rest : Bytes)
      → socket.is_connected s ≡ true
      → socket.send (pack smsg) s ≡ (kv_ok, t)
      → view.delay t ≡ 0
      → IsNoise noise
      → length msg < 2 ^ 31
      → length noise + header_len + length msg ≤ rounds
      → view.pending t ≡ noise ++ (pack msg ++ rest)
      → (x : State) × (send_and_recv socket rounds smsg rmsg s
          ≡ some (kv_ok, if length msg == 0 then rmsg else msg, x))
        × (view.pending x ≡ rest)
  unfolding send_and_recv await_reply send pack failed is_ok
  send_and_recv-pack rounds smsg rmsg s t noise msg rest on sent now quiet short enough e =
      let (x, read, left, (later, _)) =
        header_loop_lem socket view failed refl socket.recv recv_law 0 rounds noise t
          (numtob (length msg)) (msg ++ rest) (omega (arith, length-numtob (length msg))) quiet
          (omega arith) (omega arith, inr now)
          (e ∙ ap (λ k. noise ++ (mark ∷ k)) (append_assoc (numtob (length msg)) msg rest)) in
      rw (on, sent, read) (reply rounds rmsg x msg rest short (omega arith) (omega arith) left)
