-- ===== src/Coordinator/Update.antt =====
-- The requests of clients: `UpdateDB`, `Request` and `Working` of Lab3/src/coordinator.cc.
use cloud_computing.Prelude.{
  ℕ, zero, suc, ◌+◌, Bool, true, false, not, ◌&&◌, ◌||◌, Option, some, List, [], ◌∷◌, Bytes, codes,
  bytes_eq, update, for_ids, if◌then◌else◌, ◌>>=◌,
}
use cloud_computing.Codes.{is_ok}
use cloud_computing.Parser.{get_error_message, get_resp_arry}
use cloud_computing.Logger.{
  log, super_txid, log_pre, log_commit, log_to_str, write_log, chage_log_state, next_txid,
}
use cloud_computing.Coordinator.{Coordinator, CState, SendAndRecv, p_working_turn}

-- the task buffer of participant `id`
abbrev pub give : Bytes → ℕ → Coordinator → Coordinator
give task id c = record c { ptask = update c.ptask id task }

unfoldable pub give_all : Bytes → Coordinator → Coordinator
give_all task c = for_ids c.pnum (give task) c

abbrev pub voted : Coordinator → ℕ → Bool → Bool
voted c id vote =
    if is_ok (c.pworking_ret id) && bytes_eq (c.pworking_data_ret id) (codes "PRE")
    then true
    else vote

-- Any vote is enough.
unfoldable pub collect_votes : Coordinator → Bool
collect_votes c = for_ids c.pnum (voted c) false

abbrev pub applied : Coordinator → ℕ → Bool
applied c id =
    is_ok (c.pworking_ret id) && not (bytes_eq (c.pworking_data_ret id) get_error_message)

abbrev pub acknowledged : Coordinator → ℕ → Bool × Bytes → Bool × Bytes
acknowledged c id (commit, rc) =
    if applied c id then (true, c.pworking_data_ret id) else (commit, rc)

-- The reply of the last participant that applied the event.
unfoldable pub collect_commits : Coordinator → Bool × Bytes
collect_commits c = for_ids c.pnum (acknowledged c) (false, get_error_message)

abbrev pub answered : Coordinator → ℕ → Bool
answered c id = is_ok (c.pworking_ret id) && not (bytes_eq (c.pworking_data_ret id) [])

pub is_state_working : CState → Bool
is_state_working CState.c_working = true
is_state_working _ = false

module _ {W : Type 0} (send_and_recv : SendAndRecv W) where
  unfoldable pub turns : ℕ → Coordinator × W → Coordinator × W
  turns n s = for_ids n (p_working_turn send_and_recv) s

  -- every participant's thread takes the same task
  unfoldable pub round : Bytes → Coordinator × W → Coordinator × W
  unfolding turns
  round task (c, w) = turns c.pnum (give_all task c, w)

  -- the end of `UpdateDB`, with what the commits came to
  unfoldable pub finish_update : Bool × Bytes → Coordinator × W → Option (Bytes × Coordinator × W)
  finish_update (commit, rc) (c, w) =
      if commit
      then (do
        lg ← chage_log_state c.lg c.txid log_commit
        some (rc, record c { lg = lg; txid = next_txid c.txid }, w))
      else some (get_error_message, c, w)

  unfoldable pub commit_update : Bytes → Coordinator × W → Option (Bytes × Coordinator × W)
  commit_update resp (c, w) =
      let (c', w') = round (log_to_str (log c.txid log_commit resp)) (c, w) in
      finish_update (collect_commits c') (c', w')

  unfoldable pub vote_update : Bytes → Coordinator × W → Option (Bytes × Coordinator × W)
  vote_update resp (c, w) =
      if collect_votes c then commit_update resp (c, w) else some (get_error_message, c, w)

  unfoldable pub update_db : Bytes → Coordinator × W → Option (Bytes × Coordinator × W)
  update_db resp (c, w) = vote_update resp (
      round (log_to_str (log c.txid log_pre []))
        (record c { lg = write_log c.lg (log c.txid log_pre resp) }, w))

  -- `rounds` participants from `id` on; the first that answers ends the loop
  unfoldable pub ask_from : Bytes → ℕ → ℕ → Coordinator × W → Bytes × Coordinator × W
  ask_from task zero id (c, w) = (get_error_message, c, w)
  ask_from task (suc rounds) id (c, w) =
      let (c', w') = p_working_turn send_and_recv id (give task id c, w) in
      let later = ask_from task rounds (id + 1) (c', w') in
      if answered c' id then (c'.pworking_data_ret id, c', w') else later

  unfoldable pub request : Bytes → Coordinator × W → Bytes × Coordinator × W
  request resp (c, w) = ask_from (log_to_str (log super_txid log_commit resp)) c.pnum 1 (c, w)

  unfoldable pub serve_comds : List Bytes → Coordinator × W → Option (Bytes × Coordinator × W)
  serve_comds [] (c, w) = some (get_error_message, c, w)
  serve_comds (verb ∷ args) (c, w) =
      if bytes_eq verb (codes "SET") || bytes_eq verb (codes "DEL")
      then update_db (get_resp_arry (verb ∷ args)) (c, w)
      else if bytes_eq verb (codes "GET")
      then some (request (get_resp_arry (verb ∷ args)) (c, w))
      else some (get_error_message, c, w)

  -- `Working` from the words of a command to the reply for the client
  unfoldable pub working : List Bytes → Coordinator × W → Option (Bytes × Coordinator × W)
  unfolding serve_comds
  working task (c, w) =
      if is_state_working c.cstate then serve_comds task (c, w) else some (get_error_message, c, w)
