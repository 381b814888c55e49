-- ===== src/Examples/Updates.antt =====
-- Two participants under the coordinator of Lab3/src/coordinator.cc.
use cloud_computing.Prelude.{
  ℕ, List, ◌≡◌, refl, ◌&&◌, some, [], ◌∷◌, Bytes, codes, bytes_eq, arith, leb, if◌then◌else◌,
}
use cloud_computing.Phmap.{entries_map}
use cloud_computing.Std.Number.{to_string, to_string_int, to_int}
use cloud_computing.Parser.{get_resp_arry}
use cloud_computing.Participant.{init}
use cloud_computing.Participant.Durable.{IsDurable-init}
use cloud_computing.Coordinator
use cloud_computing.Coordinator.{Coordinator, CState, p_working, p_waiting, is_working}
use cloud_computing.Coordinator.Update.{update_db, request, working}
use cloud_computing.System.{Fault, World, delivered, reply_lost, send_and_recv}
use cloud_computing.System.Agreement.{Agrees}
use cloud_computing.System.Request.{Asks, request-Asks}
use cloud_computing.System.Working.{IsCommand, get-IsSafe, Served, working-Served}
use cloud_computing.System.Update.{Updated, update_db-Updated}

abbrev two : Coordinator
two = record (Coordinator.init 2) {
  cstate = CState.c_working;
  pstate = λ id. if leb 1 id && leb id 2 then p_working else p_waiting;
}

abbrev fresh : World entries_map
fresh = record { node = λ _. some (init entries_map); clock = 0 }

-- the reply to the second call is lost
abbrev faults : ℕ → Fault
faults n = if leb 2 n && leb n 2 then reply_lost else delivered

two-Agrees : Agrees entries_map two fresh
unfolding Coordinator.init init is_working
two-Agrees = record {
  low = omega arith;
  numbered = λ id works. ground arith;
  in_sync = λ id works. (
    init entries_map,
    refl,
    record {
      same_txid = refl;
      durable = IsDurable-init entries_map;
      same_log = λ t lo hi. absurd (omega arith);
    },
  );
}

abbrev set_a : Bytes
set_a = get_resp_arry (codes "SET" ∷ codes "a" ∷ codes "1" ∷ [])

update_db-Updated_example :
    (x : Bytes × Coordinator × World entries_map) × (update_db
        (send_and_recv entries_map faults)
        set_a
        (two, fresh)
      ≡ some x)
    × Updated entries_map set_a two x
unfolding Coordinator.init get_resp_arry to_string_int to_int to_string
update_db-Updated_example =
    update_db-Updated entries_map faults set_a two fresh two-Agrees (omega arith) (omega arith)

abbrev words : List Bytes
words = codes "SET" ∷ codes "a" ∷ codes "1" ∷ []

words-IsCommand : IsCommand words
unfolding get_resp_arry to_string_int to_int to_string
words-IsCommand = record {
  few = omega arith;
  short = (omega arith, (omega arith, (omega arith, tt)));
  fits = omega arith;
}

working-Served_example :
    (x : Bytes × Coordinator × World entries_map) × (working
        (send_and_recv entries_map faults)
        words
        (two, fresh)
      ≡ some x)
    × Served entries_map two fresh words x
    × Agrees entries_map x.1 x.2
unfolding Coordinator.init
working-Served_example =
    working-Served entries_map faults two fresh words two-Agrees (omega arith) words-IsCommand

abbrev get_a : Bytes
get_a = get_resp_arry (codes "GET" ∷ codes "a" ∷ [])

get_a-IsCommand : IsCommand (codes "GET" ∷ codes "a" ∷ [])
unfolding get_resp_arry to_string_int to_int to_string
get_a-IsCommand = record {
  few = omega arith;
  short = (omega arith, (omega arith, tt));
  fits = omega arith;
}

request-Asks_example :
    Asks entries_map get_a two (request (send_and_recv entries_map faults) get_a (two, fresh))
unfolding bytes_eq
request-Asks_example =
    request-Asks entries_map faults get_a
      (get-IsSafe (codes "GET") (codes "a" ∷ []) get_a-IsCommand refl) get_a-IsCommand.fits two
      fresh two-Agrees
