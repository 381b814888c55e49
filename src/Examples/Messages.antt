-- ===== src/Examples/Messages.antt =====
-- The messages of Lab3/src/parser.cc.
use cloud_computing.Prelude.{
  ◌≡◌, some, none, ltb, ◌^◌, if◌then◌else◌, [], ◌∷◌, ◌++◌, Bytes, List, codes, length, arith,
}
use cloud_computing.Std.Int.{pos}
use cloud_computing.Parser.{
  get_string_message, get_interger_message, get_resp_arry, parse_string_message,
  parser_interger_message, parser_resp_arry,
}
use cloud_computing.Parser.RoundTrip.{
  parse_string_message-get_string_message, parser_resp_arry-get_resp_arry,
  parser_interger_message-get_interger_message,
}

parse_string_message-get_string_message_example :
    parse_string_message (get_string_message (codes "CS06142") ++ codes "tail") ≡ (
      if ltb (length (get_string_message (codes "CS06142"))) (2 ^ 31)
      then some (codes "CS06142", length (get_string_message (codes "CS06142")))
      else none)
parse_string_message-get_string_message_example =
    parse_string_message-get_string_message (codes "CS06142") (codes "tail") (omega arith)

abbrev words : List Bytes
words = codes "SET" ∷ codes "k\r\n" ∷ [] ∷ []

parser_resp_arry-get_resp_arry_example : parser_resp_arry (get_resp_arry words ++ (0 ∷ [])) ≡ (
    if ltb (length (get_resp_arry words)) (2 ^ 31)
    then some (words, length (get_resp_arry words))
    else none)
parser_resp_arry-get_resp_arry_example =
    parser_resp_arry-get_resp_arry words (0 ∷ []) (omega arith) (omega arith)

parser_interger_message-get_interger_message_example :
    parser_interger_message (get_interger_message (pos 10) ++ codes "x")
    ≡ some (pos 10, length (get_interger_message (pos 10)))
parser_interger_message-get_interger_message_example =
    parser_interger_message-get_interger_message 10 (codes "x") (omega arith)
