-- ===== src/Client/Reaches.antt =====
-- A line of the client of Lab3/src/main.cc on its way to the coordinator of Lab3/src/network.cc.
use cloud_computing.Prelude.{
  ℕ, ◌-◌, ◌^◌, sym, ap, ◌∙◌, some_inj, arith, ◌≤◌, ◌<◌, ◌≡◌, Option, some, List, ◌∷◌, ◌++◌, Bytes,
  length, ◌>>=◌,
}
use cloud_computing.Codes.{kv_ok}
use cloud_computing.Util.Split.{IsSplit, split-IsSplit, joined-short}
use cloud_computing.Parser.{get_resp_arry}
use cloud_computing.Network.{Socket}
use cloud_computing.Network.RoundTrip.{Stream}
use cloud_computing.Network.Command.{recv_command}
use cloud_computing.Network.Command.RoundTrip.{recv_command-get_resp_arry}
use cloud_computing.Client.{line_packet}

-- The words of a line as the coordinator reads them.
pub record Reached (socket : Socket) (stream : Stream socket) (rounds : ℕ) (s : socket.State)
    (line : Bytes) : Type 0 where
  pub words : IsSplit b' ' line
  pub later : socket.State
  pub read : recv_command socket rounds s ≡ some (kv_ok, words.first ∷ words.others, later)

-- Every line that a client sends is read by the coordinator as the words of the line: no word has a
-- space, and the line is the words with a space between any two. The stream may cut the bytes into
-- any pieces and must not make the coordinator wait, the line is shorter than 2 ^ 31 bytes, and the
-- loops may take as many rounds as bytes are pending.
pub line_packet-Reached :
    (socket : Socket) (stream : Stream socket) (rounds : ℕ) (s : socket.State)
    (line pac rest : Bytes)
    → length line < 2 ^ 31 - 1
    → line_packet line ≡ some pac
    → stream.view.delay s ≡ 0
    → length (stream.view.pending s) ≤ rounds
    → stream.view.pending s ≡ pac ++ rest
    → Reached socket stream rounds s line
unfolding line_packet
line_packet-Reached socket stream rounds s line pac rest short packed now enough e =
    let (words, ran) = split-IsSplit b' ' line in
    let same : get_resp_arry (words.first ∷ words.others) ≡ pac = some_inj (
      sym (ap (λ (o : Option (List Bytes)). o >>= λ list. some (get_resp_arry list)) ran)
      ∙ packed) in
    let small = joined-short b' ' (2 ^ 31 - 1) words.first words.others (rw words.joins short) in
    let fits =
      joined-short b' ' (2 ^ 31) words.first words.others (rw words.joins (omega (arith, short))) in
    let (t, read, left) =
      recv_command-get_resp_arry socket stream rounds s (words.first ∷ words.others) rest
        (omega (arith, small.1)) fits.0 now enough (e ∙ ap (λ p. p ++ rest) (sym same)) in
    record { words = words; later = t; read = read }
