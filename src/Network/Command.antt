-- ===== src/Network/Command.antt =====
-- `recvCommand` of Lab3/src/network.cc: a client's command, read byte by byte up to each length.
pub mod RoundTrip
use cloud_computing.Prelude.{
  ℕ, zero, suc, Bool, true, false, not, ◌||◌, Option, none, some, List, [], ◌∷◌, ◌++◌, Bytes, codes,
  ltb, ◌==◌, ◌>>=◌, if◌then◌else◌, ◌≡◌, refl,
}
use cloud_computing.Codes.{Code, kv_ok, kv_bad_commad, is_ok, is_close}
use cloud_computing.Std.Number.{strtol, to_u64}
use cloud_computing.Participant.{head_char}
use cloud_computing.Network.{Socket, Result, failed, content_loop}

-- How far a length is read: before its mark, in its digits, or before its LF; or that it is read.
pub data Scan : Type 0 where
  before_mark in_digits before_lf read_all bad_commad : Scan

-- One byte of a length that starts with `lead`.
unfoldable pub scan_byte : ℕ → Scan → Bytes → ℕ → Scan × Bytes
scan_byte lead before_mark header c = (if c == lead then in_digits else before_mark, header)
scan_byte lead in_digits header c =
    if c == b'\r'
    then (before_lf, header)
    else if ltb c b'0' || ltb b'9' c
    then (bad_commad, header)
    else (in_digits, header ++ (c ∷ []))
scan_byte lead before_lf header c = (if c == b'\n' then read_all else bad_commad, header)
scan_byte lead read_all header c = (read_all, header)
scan_byte lead bad_commad header c = (bad_commad, header)

module _ (socket : Socket) where
  open socket use {State}

  unfoldable pub scanned :
      (next : Scan → Bytes → State → Result socket) → Scan × Bytes → State → Result socket
  scanned next (read_all, header) s = some (kv_ok, header, s)
  scanned next (bad_commad, header) s = some (kv_bad_commad, header, s)
  scanned next (step, header) s = next step header s

  unfoldable pub heard_byte :
      (ends : Code → Bool) (next : Scan → Bytes → State → Result socket) (lead : ℕ) (step : Scan)
      (header : Bytes)
      → Code × Bytes × State
      → Result socket
  unfolding scanned scan_byte is_ok
  heard_byte ends next lead step header (rc, buf, s) =
      if ends rc
      then some (rc, header, s)
      else if not (is_ok rc)
      then next step header s
      else scanned next (scan_byte lead step header (head_char buf)) s

  -- The loops that read the digits of a length.
  unfoldable pub length_loop : (ends : Code → Bool) → ℕ → ℕ → Scan → Bytes → State → Result socket
  unfolding heard_byte
  length_loop ends zero lead step header s = none
  length_loop ends (suc rounds) lead step header s =
      heard_byte ends (λ step' longer t. length_loop ends rounds lead step' longer t) lead step
        header (socket.recv_nf 1 s)

  abbrev pub Words : Type 0
  Words = Option (Code × List Bytes × State)

  unfoldable pub heard_word :
      (next : List Bytes → State → Words) → List Bytes → Code × Bytes × State → Words
  unfolding failed
  heard_word next str (rc, content, s) =
      if failed rc then some (rc, str, s) else next (str ++ (content ∷ [])) s

  unfoldable pub heard_length :
      (next : List Bytes → State → Words) → ℕ → List Bytes → Code × Bytes × State → Words
  unfolding heard_word failed content_loop is_close
  heard_length next rounds str (rc, header, s) =
      if failed rc
      then some (rc, str, s)
      else content_loop socket is_close socket.recv rounds (to_u64 (strtol header)) [] s
        >>= heard_word next str

  -- `str_num` words; an error ends the loop, and the words before it stay in `str`
  unfoldable pub words_loop : ℕ → ℕ → List Bytes → State → Words
  unfolding heard_length length_loop is_close
  words_loop rounds zero str s = some (kv_ok, str, s)
  words_loop rounds (suc str_num) str s =
      length_loop is_close rounds b'$' before_mark [] s
      >>= heard_length (λ more t. words_loop rounds str_num more t) rounds str

  unfoldable pub heard_number : ℕ → Code × Bytes × State → Words
  unfolding words_loop failed
  heard_number rounds (rc, header, s) =
      if failed rc then some (rc, [], s) else words_loop rounds (to_u64 (strtol header)) [] s

  -- `Network::recvCommand` with an empty vector
  unfoldable pub recv_command : ℕ → State → Words
  unfolding heard_number length_loop failed
  recv_command rounds s = length_loop failed rounds b'*' before_mark [] s >>= heard_number rounds
