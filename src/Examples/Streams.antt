-- ===== src/Examples/Streams.antt =====
-- A stream that delivers three bytes at most at a time and makes its reader wait.
use cloud_computing.Prelude.{
  append-nil, ℕ, zero, suc, ◌≤◌, ◌≡◌, refl, sym, ap, true, some, [], ◌∷◌, ◌++◌, Bytes, codes,
  length, take, drop, leb, if◌then◌else◌, arith,
}
use cloud_computing.Codes.{Code, kv_ok, kv_timeout}
use cloud_computing.Std.Text.{find, substr}
use cloud_computing.Util.{numtob, btonum, btonum-numtob}
use cloud_computing.Parser.{get_resp_arry, crlf}
use cloud_computing.Std.Number.{to_string, to_string_int, to_int, strtol, to_u64}
use cloud_computing.Network.Command.{recv_command}
use cloud_computing.Network.Command.RoundTrip.{recv_command-get_resp_arry}
use cloud_computing.Network.{Socket, pack, recv, send_and_recv}
use cloud_computing.Network.Loops.{View, delivered, waited, IsReceive}
use cloud_computing.Phmap.{entries_map}
use cloud_computing.Logger.{
  log, log_pre, recovery_txid, log_to_str, str_to_log, cut_line, last_txid,
}
use cloud_computing.Participant.{init, p_worker, handle}
use cloud_computing.Util.Split.{split, split_loop, find_from, IsSplit, split-IsSplit}
use cloud_computing.Client.{line_packet}
use cloud_computing.Client.Reaches.{Reached, line_packet-Reached}
use cloud_computing.Session.{serve_request, serve_request-pack}
use cloud_computing.Network.RoundTrip.{Stream, recv-pack, send_and_recv-pack}

abbrev Pipe : Type 0
Pipe = Bytes × ℕ

abbrev receive : ℕ → Pipe → Code × Bytes × Pipe
receive most (pending, suc n) = (kv_timeout, [], (pending, n))
receive most (pending, zero) =
    let few = if leb most 3 then most else 3 in (kv_ok, take few pending, (drop few pending, zero))

-- The peer replies to everything with `PRE`.
abbrev pipe : Socket
pipe = record {
  State = Pipe;
  is_connected = λ s. true;
  send = λ msg s. (kv_ok, (s.0 ++ pack (codes "PRE"), s.1));
  recv = receive;
  recv_nf = receive;
}

abbrev view : View pipe
view = record { pending = λ s. s.0; delay = λ s. s.1 }

take-drop : (n : ℕ) (s : Bytes) → s ≡ take n s ++ drop n s
take-drop zero s = refl
take-drop (suc n) [] = refl
take-drop (suc n) (x ∷ s) = ap (λ t. x ∷ t) (take-drop n s)

length-take : (n : ℕ) (s : Bytes) → n ≤ length s → length (take n s) ≡ n
length-take zero s h = refl
length-take (suc n) [] h = absurd (omega arith)
length-take (suc n) (x ∷ s) h = omega (arith, length-take n s (omega arith))

receive-IsReceive : IsReceive pipe view receive
receive-IsReceive most (pending, suc n) one enough = waited refl (omega arith)
receive-IsReceive most (pending, zero) one enough =
    let few : ℕ = if leb most 3 then most else 3 in
    delivered (ground (arith, length-take few pending)) (ground (arith, length-take few pending))
      (take-drop few pending) (omega arith)

abbrev stream : Stream pipe
stream = record { view = view; recv_law = receive-IsReceive; recv_nf_law = receive-IsReceive }

abbrev arriving : Pipe
arriving = (codes "??" ++ (pack (codes "hello") ++ codes "~tail"), 2)

recv-pack_example :
    (t : Pipe) × (recv pipe 20 arriving ≡ some (kv_ok, codes "hello", t)) × (t.0 ≡ codes "~tail")
recv-pack_example =
    recv-pack pipe stream 20 arriving (codes "??") (codes "hello") (codes "~tail")
      (omega arith, (omega arith, tt)) (omega arith) (omega arith) refl

recv_runs : recv pipe 20 arriving ≡ some (kv_ok, codes "hello", (codes "~tail", 0))
unfolding recv pack numtob btonum find substr
recv_runs = refl

send_and_recv-pack_example :
    (t : Pipe) × (send_and_recv pipe 12 (codes "vote") [] ([], 0) ≡ some (kv_ok, codes "PRE", t))
    × (t.0 ≡ [])
send_and_recv-pack_example =
    send_and_recv-pack pipe stream 12 (codes "vote") [] ([], 0) (pack (codes "PRE"), 0) []
      (codes "PRE") [] refl refl refl tt (omega arith) (omega arith)
      (sym (append-nil (pack (codes "PRE"))))

btonum-numtob_example : btonum (codes "~" ++ (numtob 4096 ++ [])) 1 ≡ some 4096
btonum-numtob_example = btonum-numtob 4096 (codes "~") [] (omega arith)

abbrev command : Pipe
command = (get_resp_arry (codes "GET" ∷ codes "a" ∷ []) ++ codes "next", 0)

recv_command-get_resp_arry_example :
    (t : Pipe) × (recv_command pipe 30 command ≡ some (kv_ok, codes "GET" ∷ codes "a" ∷ [], t))
    × (t.0 ≡ crlf ++ codes "next")
unfolding get_resp_arry to_string_int to_int to_string
recv_command-get_resp_arry_example =
    recv_command-get_resp_arry pipe stream 30 command (codes "GET" ∷ codes "a" ∷ []) (codes "next")
      (omega arith) (omega arith, (omega arith, tt)) refl (omega arith) refl

abbrev ask_txid : Bytes
ask_txid = log_to_str (log recovery_txid log_pre [])

ask_txid_runs :
    p_worker entries_map (init entries_map) ask_txid ≡ some (codes "4", init entries_map)
unfolding p_worker init handle log_to_str str_to_log cut_line find substr to_string to_string_int
    to_int strtol to_u64 last_txid
ask_txid_runs = refl

serve_request-pack_example :
    (t : Pipe) × (serve_request entries_map pipe 40 (init entries_map, (pack ask_txid, 1))
      ≡ some (kv_ok, init entries_map, (pipe.send (pack (codes "4")) t).1))
    × (t.0 ≡ [])
unfolding log_to_str to_string to_string_int to_int
serve_request-pack_example =
    serve_request-pack entries_map pipe stream 40 (init entries_map) (init entries_map)
      (pack ask_txid, 1) [] ask_txid [] (codes "4") tt (omega arith) (omega arith)
      (sym (append-nil (pack ask_txid))) ask_txid_runs

-- The first line that a client sends.
abbrev line : Bytes
line = codes "GET a"

line_packet_runs : line_packet line ≡ some (get_resp_arry (codes "GET" ∷ codes "a" ∷ []))
unfolding line_packet split split_loop find_from find substr get_resp_arry
line_packet_runs = refl

line_packet-Reached_example : Reached pipe stream 30 command line
unfolding get_resp_arry to_string_int to_int to_string
line_packet-Reached_example =
    line_packet-Reached pipe stream 30 command line (get_resp_arry (codes "GET" ∷ codes "a" ∷ []))
      (codes "next") (omega arith) line_packet_runs refl (omega arith) refl

split-IsSplit_example :
    (words : IsSplit b' ' line) × (split line b' ' ≡ some (words.first ∷ words.others))
split-IsSplit_example = split-IsSplit b' ' line
