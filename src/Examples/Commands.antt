-- ===== src/Examples/Commands.antt =====
-- Commands that `eventParser` of Lab3/src/participant.cc executes.
use cloud_computing.Prelude.{◌≡◌, refl, some, List, [], ◌∷◌, Bytes, codes, arith, bytes_eq}
use cloud_computing.Phmap.{entries_map, Entries, find_entry}
use cloud_computing.Std.Int.{pos}
use cloud_computing.Std.Number.{to_string, to_string_int, to_int}
use cloud_computing.Kv.Spec.{names, distinct, count_present}
use cloud_computing.Parser.{
  get_success_message, get_resp_arry, get_resp_arry_one, get_interger_message,
}
use cloud_computing.Participant.Commands.{command_of, answer, change, obey, execute, execute-obey}

abbrev table : Entries
table = (codes "a", codes "1") ∷ []

-- a SET, a GET, a DEL that names a key twice and one that is missing, and a GET of a deleted key
abbrev commands : List (List Bytes)
commands =
    (codes "SET" ∷ codes "b" ∷ codes "2" ∷ [])
    ∷ (codes "GET" ∷ codes "b" ∷ [])
    ∷ (codes "DEL" ∷ codes "b" ∷ codes "x" ∷ codes "b" ∷ codes "a" ∷ [])
    ∷ (codes "GET" ∷ codes "a" ∷ [])
    ∷ []

execute-obey_example :
    (after : Entries) × (execute entries_map commands table
      ≡ some ((obey commands (find_entry table)).0, after))
    × (find_entry after ≡ (obey commands (find_entry table)).1)
unfolding get_resp_arry to_string to_string_int to_int
execute-obey_example = execute-obey entries_map table commands (
  (omega arith, (omega arith, (omega arith, (omega arith, tt))), omega arith),
  (
    (omega arith, (omega arith, (omega arith, tt)), omega arith),
    (
      (
        omega arith,
        (omega arith, (omega arith, (omega arith, (omega arith, (omega arith, tt))))),
        omega arith,
      ),
      ((omega arith, (omega arith, (omega arith, tt)), omega arith), tt),
    ),
  ),
)

answers :
    (obey commands (find_entry table)).0
    ≡ get_success_message
      ∷ get_resp_arry_one (codes "2")
      ∷ get_interger_message (pos 2)
      ∷ get_resp_arry_one (codes "nil")
      ∷ []
unfolding obey command_of answer change find_entry bytes_eq names distinct count_present
answers = refl
