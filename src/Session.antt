-- ===== src/Session.antt =====
-- `Working` of Lab3/src/participant.cc: one request over the participant's connection.
use cloud_computing.Prelude.{
  ℕ, ◌+◌, ◌^◌, ◌≤◌, ◌<◌, ◌≡◌, refl, Option, some, ◌++◌, Bytes, length, ◌>>=◌, if◌then◌else◌,
}
use cloud_computing.Codes.{Code, kv_ok, is_ok}
use cloud_computing.Phmap.{HashMap}
use cloud_computing.Participant.{Participant, p_worker}
use cloud_computing.Network.{Socket, header_len, pack, failed, recv, send}
use cloud_computing.Network.Mark.{IsNoise}
use cloud_computing.Network.RoundTrip.{Stream, recv-pack}

module _ (h : HashMap) (socket : Socket) where
  open socket use {State}

  -- The code of the reply's `send` is dropped.
  unfoldable pub reply_to :
      Participant h → Code × Bytes × State → Option (Code × Participant h × State)
  unfolding failed
  reply_to p (rc, content, s) =
      if failed rc
      then some (rc, p, s)
      else (do (rmsg, after) ← p_worker h p content; some (rc, after, (send socket rmsg s).1))

  -- `none` is a fault, or a loop of `recv` that takes more than `rounds` rounds
  unfoldable pub serve_request : ℕ → Participant h × State → Option (Code × Participant h × State)
  unfolding reply_to
  serve_request rounds (p, s) = recv socket rounds s >>= reply_to p

module _ (h : HashMap) (socket : Socket) (stream : Stream socket) where
  open stream use {view}

  -- A request of less than 2 ^ 31 bytes that arrives behind noise, however the stream cuts it into
  -- pieces, and that the participant's work gives a reply to, is answered, when `rounds` is no less
  -- than the bytes of the noise, the header and the request together with the waits: the work on it
  -- is done once, and its reply is sent on the stream behind the request.
  pub serve_request-pack :
      (rounds : ℕ) (p q : Participant h) (s : socket.State) (noise msg rest rmsg : Bytes)
      → IsNoise noise
      → length msg < 2 ^ 31
      → length noise + header_len + length msg + view.delay s ≤ rounds
      → view.pending s ≡ noise ++ (pack msg ++ rest)
      → p_worker h p msg ≡ some (rmsg, q)
      → (t : socket.State) × (serve_request h socket rounds (p, s)
          ≡ some (kv_ok, q, (socket.send (pack rmsg) t).1))
        × (view.pending t ≡ rest)
  unfolding serve_request failed is_ok send
  serve_request-pack rounds p q s noise msg rest rmsg quiet short enough e work =
      let (t, read, left) = recv-pack socket stream rounds s noise msg rest quiet short enough e in
      (t, rw (read, work) refl, left)
