-- ===== src/Network.antt =====
-- Lab3/src/network.cc: messages over a socket. The socket is third_party/ossSocket, a parameter with
-- the calls that are used. A loop takes a number of rounds; `none` is a fault, or a loop that has not
-- ended after that many rounds.
pub mod Mark
pub mod Loops
pub mod Command
pub mod RoundTrip
pub mod Connect
use cloud_computing.Prelude.{
  ℕ, zero, suc, ◌+◌, ◌-◌, ◌^◌, Bool, true, false, not, Option, none, some, [], ◌∷◌, ◌++◌, Bytes,
  codes, length, ltb, leb, ◌==◌, ◌>>=◌, if◌then◌else◌,
}
use cloud_computing.Codes.{Code, kv_ok, kv_network, is_ok, is_close}
use cloud_computing.Std.Text.{find, substr}
use cloud_computing.Util.{numtob, btonum}

-- Each call returns the code and what the buffer holds after it. `recv` fills the buffer, `recv_nf`
-- returns with what is there.
pub record Socket : Type 1 where
  pub State : Type 0
  pub is_connected : State → Bool
  pub send : Bytes → State → Code × State
  pub recv : ℕ → State → Code × Bytes × State
  pub recv_nf : ℕ → State → Code × Bytes × State

abbrev pub header_len : ℕ
header_len = 9

-- A packet is the mark, the length of the message, and the message.
unfoldable pub pack : Bytes → Bytes
pack msg = codes "~" ++ (numtob (length msg) ++ msg)

-- What the first bytes add to the header: all from the mark on.
unfoldable pub from_mark : Bytes → Option Bytes
from_mark buf = elim (find (codes "~") buf) [
  | none ↦ some []
  | some pos ↦ substr buf pos (length buf - pos)
]

unfoldable pub add_header : Bytes → Bytes → Option Bytes
unfolding from_mark
add_header header buf = if length header == 0 then from_mark buf else some (header ++ buf)

abbrev pub add_content : Bytes → Bytes → Option Bytes
add_content content buf = some (content ++ buf)

-- `if(rc)`
unfoldable pub failed : Code → Bool
unfolding is_ok
failed rc = not (is_ok rc)

module _ (socket : Socket) where
  open socket use {State}

  abbrev pub Result : Type 0
  Result = Option (Code × Bytes × State)

  -- One round of a loop: a code that `ends` the loop is returned, another error is ignored.
  unfoldable pub heard :
      (ends : Code → Bool) (next : Bytes → State → Result) (add : Bytes → Bytes → Option Bytes)
      (got : Bytes)
      → Code × Bytes × State
      → Result
  unfolding is_ok
  heard ends next add got (rc, buf, s) =
      if ends rc
      then some (rc, got, s)
      else if not (is_ok rc)
      then next got s
      else (do longer ← add got buf; next longer s)

  module _ (ends : Code → Bool) (receive : ℕ → State → Code × Bytes × State) where
    -- The loop that reads the header.
    unfoldable pub header_loop : ℕ → Bytes → State → Result
    unfolding heard add_header
    header_loop zero header s =
        if length header == header_len then some (kv_ok, header, s) else none
    header_loop (suc rounds) header s =
        if length header == header_len
        then some (kv_ok, header, s)
        else heard ends (λ longer t. header_loop rounds longer t) add_header header
            (receive (header_len - length header) s)

    -- The loop that reads the message. The calls take an `int`, which holds no longer length.
    unfoldable pub content_loop : ℕ → ℕ → Bytes → State → Result
    unfolding heard
    content_loop zero content_len content s =
        if length content == content_len then some (kv_ok, content, s) else none
    content_loop (suc rounds) content_len content s =
        if length content == content_len
        then some (kv_ok, content, s)
        else if ltb (content_len - length content) (2 ^ 31)
        then heard ends (λ longer t. content_loop rounds content_len longer t) add_content content
            (receive (content_len - length content) s)
        else none

  -- `Network::send`
  unfoldable pub send : Bytes → State → Code × State
  unfolding pack
  send msg s = socket.send (pack msg) s

  -- `Network::sendResult`, with the NUL of `c_str()`
  unfoldable pub send_result : Bytes → State → Code × State
  send_result content s = socket.send (content ++ (0 ∷ [])) s

  -- `Network::recv` from the header on
  unfoldable pub recv_content : ℕ → Code × Bytes × State → Result
  unfolding content_loop is_close
  recv_content rounds (rc, header, s) = if is_close rc then some (rc, [], s) else (do
    content_len ← btonum header 1
    content_loop is_close socket.recv rounds content_len [] s)

  -- `Network::recv` of the participant
  unfoldable pub recv : ℕ → State → Result
  unfolding recv_content header_loop is_close
  recv rounds s = header_loop is_close socket.recv_nf rounds [] s >>= recv_content rounds

  -- `Network::sendAndRecv` from the reply's header on; `rmsg` keeps its value until the length is read
  unfoldable pub recv_reply : ℕ → Bytes → Code × Bytes × State → Result
  unfolding content_loop failed
  recv_reply rounds rmsg (rc, header, s) = if failed rc then some (rc, rmsg, s) else (do
    content_len ← btonum header 1
    (if content_len == 0
        then some (rc, rmsg, s)
        else content_loop failed socket.recv_nf rounds content_len [] s))

  unfoldable pub await_reply : ℕ → Bytes → Code × State → Result
  unfolding recv_reply header_loop
  await_reply rounds rmsg (rc, s) =
      if failed rc
      then some (rc, rmsg, s)
      else header_loop failed socket.recv rounds [] s >>= recv_reply rounds rmsg

  -- `Network::sendAndRecv` of the coordinator
  unfoldable pub send_and_recv : ℕ → Bytes → Bytes → State → Result
  unfolding await_reply send
  send_and_recv rounds smsg rmsg s =
      if socket.is_connected s
      then await_reply rounds rmsg (send smsg s)
      else some (kv_network, rmsg, s)
