-- ===== src/Examples/Nodes.antt =====
-- Participants of Lab3/src/participant.cc.
use cloud_computing.Prelude.{◌≡◌, refl, some, List, [], ◌∷◌, Bytes, codes, arith, bytes_eq}
use cloud_computing.Phmap.{entries_map, find_entry, erase_entry}
use cloud_computing.Std.Map
use cloud_computing.Std.Number.{to_string, to_string_int, to_int, strtol, to_u64, atoi}
use cloud_computing.Std.Text.{find, substr}
use cloud_computing.Kv
use cloud_computing.Parser.{get_resp_arry, get_error_message, get_success_message, parser_resp_arry}
use cloud_computing.Logger.{
  Log, log, log_pre, log_commit, log_to_str, str_to_log, cut_line, write_log, next_txid,
}
use cloud_computing.Participant.{
  Participant, init, p_worker, handle, transaction, event_parser, run_comds, serve,
}
use cloud_computing.Participant.Events.{IsSafe}
use cloud_computing.Participant.Change.{Change, handle-Change}
use cloud_computing.Participant.Durable.{IsDurable, serve-IsDurable, numbered-IsSafeTask}

abbrev set_a : Bytes
set_a = get_resp_arry (codes "SET" ∷ codes "a" ∷ codes "1" ∷ [])

abbrev tasks : List Bytes
tasks = log_to_str (log 5 log_pre []) ∷ log_to_str (log 5 log_commit set_a) ∷ []

abbrev node : Participant entries_map
node = record {
  txid = 6;
  lg = (5, log 5 log_commit set_a) ∷ [];
  kvdb = (codes "a", codes "1") ∷ [];
}

serve_runs : serve entries_map (init entries_map) tasks ≡ some node
unfolding serve p_worker handle transaction event_parser run_comds Kv.set find_entry erase_entry
    init get_resp_arry parser_resp_arry log_to_str str_to_log cut_line find substr to_string
    to_string_int to_int strtol to_u64 atoi write_log next_txid get_success_message
    get_error_message bytes_eq Map.insert
serve_runs = refl

pre-IsSafe : (l : Log) → str_to_log (log_to_str (log 5 log_pre [])) ≡ some l → IsSafe l
pre-IsSafe =
    numbered-IsSafeTask entries_map (log 5 log_pre []) (omega arith) (omega arith) (omega arith)
      (omega arith)

commit-IsSafe : (l : Log) → str_to_log (log_to_str (log 5 log_commit set_a)) ≡ some l → IsSafe l
unfolding get_resp_arry to_string_int to_int to_string
commit-IsSafe =
    numbered-IsSafeTask entries_map (log 5 log_commit set_a) (omega arith) (omega arith)
      (omega arith) (omega arith)

serve-IsDurable_example : IsDurable entries_map node
serve-IsDurable_example =
    serve-IsDurable entries_map tasks node (omega arith) (pre-IsSafe, (commit-IsSafe, tt))
      serve_runs

node-IsDurable : IsDurable entries_map node
node-IsDurable =
    serve-IsDurable entries_map tasks node (omega arith) (pre-IsSafe, (commit-IsSafe, tt))
      serve_runs

commit_runs :
    handle entries_map (init entries_map) (log 5 log_commit set_a)
    ≡ some (get_success_message, node)
unfolding handle transaction event_parser run_comds Kv.set find_entry erase_entry init get_resp_arry
    parser_resp_arry to_string to_string_int to_int strtol to_u64 atoi write_log next_txid
    get_success_message get_error_message bytes_eq Map.insert
commit_runs = refl

handle-Change_example :
    Change entries_map (init entries_map) (log 5 log_commit set_a) get_success_message node
handle-Change_example =
    handle-Change entries_map (init entries_map) (log 5 log_commit set_a) get_success_message node
      (λ e. absurd (omega arith)) commit_runs
