-- ===== src/Coordinator/Recover.antt =====
-- Recovery: `Recovery`, `recoveryFromC`, `recoveryFromP` and `getRecoveryLeader` of
-- Lab3/src/coordinator.cc. `none` is a fault, or that the rounds ran out.
pub mod Open
pub mod Rounds
use cloud_computing.Prelude.{
  ℕ, zero, suc, ◌+◌, ◌-◌, Bool, true, false, not, ◌&&◌, Option, none, some, [], ◌∷◌, Bytes, ltb,
  ◌==◌, bytes_eq, update, for_ids, length, if◌then◌else◌, ◌>>=◌,
}
use cloud_computing.Codes.{is_ok}
use cloud_computing.Std.Map
use cloud_computing.Std.Map.{Map}
use cloud_computing.Std.Number.{to_string, strtol, to_u64}
use cloud_computing.Logger.{
  Log, log, txid_start, recovery_txid, ask_data_txid, log_pre, log_commit, log_to_str, str_to_log,
  write_log, get_log_by_txid, next_txid, last_txid,
}
use cloud_computing.Coordinator.{
  Coordinator, CState, PState, p_working, p_temp, p_recovery, SendAndRecv, p_working_turn,
  p_recovery_turn,
}
use cloud_computing.Coordinator.Update.{give}

-- the entries of `maxTxidTB` in the order of their keys; the first largest number wins
leader_loop : Map ℕ → ℕ → ℕ → ℕ × ℕ
leader_loop [] max_p max_id = (max_p, max_id)
leader_loop ((id, txid) ∷ entries) max_p max_id =
    leader_loop entries (if ltb max_id txid then id else max_p)
      (if ltb max_id txid then txid else max_id)

-- The participant, 0 for none, and the number of its last transaction.
unfoldable pub get_recovery_leader : Coordinator → ℕ × ℕ
unfolding leader_loop
get_recovery_leader c = leader_loop c.max_txid_tb 0 (last_txid c.txid)

unfoldable pub to_recovery : PState → PState
to_recovery p_temp = p_recovery
to_recovery p_working = p_recovery
to_recovery state = state

abbrev pub give_recovery : Bytes → ℕ → Coordinator → Coordinator
give_recovery task id c = record c { prtask = update c.prtask id task }

-- the reply to a request for the number of the last transaction
abbrev reported : Coordinator → ℕ → Bool
reported c id = is_ok (c.precovery_ret id) && not (bytes_eq (c.preovery_data_ret id) [])

abbrev reported_txid : Coordinator → ℕ → ℕ
reported_txid c id = to_u64 (strtol (c.preovery_data_ret id))

unfoldable pub collect_report : ℕ → Coordinator × Bool → Coordinator × Bool
collect_report id (c, consistance) =
    if reported c id
    then (
      record c { max_txid_tb = Map.insert id (reported_txid c id) c.max_txid_tb },
      if reported_txid c id == last_txid c.txid then consistance else false,
    )
    else (c, consistance)

unfoldable pub min_entry : Map ℕ → ℕ → ℕ
min_entry [] min_id = min_id
min_entry ((id, txid) ∷ entries) min_id =
    min_entry entries (if ltb txid min_id then txid else min_id)

-- the loop at the end of `Recovery`
unfoldable pub promote : Map ℕ → Coordinator → Coordinator
promote [] c = c
promote ((id, txid) ∷ entries) c =
    promote entries
      (if txid == last_txid c.txid then record c { pstate = update c.pstate id p_working } else c)

module _ {W : Type 0} (send_and_recv : SendAndRecv W) where
  -- participants 1 to `n`, one after the other; a fault ends the loop
  unfoldable pub recovery_turns : ℕ → Coordinator × W → Option (Coordinator × W)
  recovery_turns zero s = some s
  recovery_turns (suc n) s = do t ← recovery_turns n s; p_recovery_turn send_and_recv (suc n) t

  -- one task for all, each result awaited before the next task is given
  broadcast_turns : Bytes → ℕ → Coordinator × W → Option (Coordinator × W)
  broadcast_turns task zero s = some s
  broadcast_turns task (suc n) s = do
    (c, w) ← broadcast_turns task n s
    p_recovery_turn send_and_recv (suc n) (give_recovery task (suc n) c, w)

  unfoldable pub broadcast : Bytes → Coordinator × W → Option (Coordinator × W)
  unfolding broadcast_turns
  broadcast task (c, w) = broadcast_turns task c.pnum (c, w)

  -- transactions `tid` to `tid + rounds - 1` from the coordinator's log
  push_logs : ℕ → ℕ → Coordinator × W → Option (Coordinator × W)
  push_logs zero tid s = some s
  push_logs (suc rounds) tid (c, w) = do
    l ← get_log_by_txid c.lg tid
    t ← broadcast (log_to_str l) (c, w)
    push_logs rounds (tid + 1) t

  unfoldable pub recovery_from_c : Coordinator × W → Option (Coordinator × W)
  unfolding push_logs
  recovery_from_c (c, w) = push_logs (c.txid - txid_start) txid_start (c, w)

  -- the answer of the leader, if there is one
  abbrev asked : ℕ → Coordinator → Option Bytes
  asked leader c =
      if is_ok (c.pworking_ret leader) && not (bytes_eq (c.pworking_data_ret leader) [])
      then some (c.pworking_data_ret leader)
      else none

  unfoldable pub ask_leader : ℕ → ℕ → Coordinator × W → Coordinator × W
  ask_leader leader tid (c, w) =
      p_working_turn send_and_recv leader
        (give (log_to_str (log ask_data_txid log_commit (to_string tid))) leader c, w)

  -- the coordinator's own log and counter
  abbrev adopt : Log → Coordinator → Coordinator
  adopt l c =
      if l.id == c.txid then record c { lg = write_log c.lg l; txid = next_txid c.txid } else c

  -- the loop over the leader's transactions from `tid` on; it ends early, with the transaction that
  -- is still to be sent, when the leader does not answer
  unfoldable pub pull_logs : ℕ → ℕ → ℕ → Coordinator × W → Option (ℕ × Coordinator × W)
  pull_logs zero leader tid (c, w) = some (tid, c, w)
  pull_logs (suc rounds) leader tid s =
      let (c, w) = ask_leader leader tid s in
      elim (asked leader c) [
        | none ↦ some (tid, c, w)
        | some rc ↦ (do
          l ← str_to_log rc
          t ← broadcast rc (adopt l c, w)
          pull_logs rounds leader (tid + 1) t)
      ]

  unfoldable pub follow : ℕ → Coordinator → Coordinator
  follow leader c = record c {
    pstate = update c.pstate leader p_working;
    max_txid_tb = Map.erase leader c.max_txid_tb;
  }

  -- each turn of the outer loop takes one leader out of the table
  unfoldable pub recovery_from_p : ℕ → ℕ → Coordinator × W → Option (Coordinator × W)
  unfolding pull_logs follow
  recovery_from_p zero tid s = none
  recovery_from_p (suc turns) tid (c, w) =
      let (leader, max_id) = get_recovery_leader c in
      elim (leader == 0) [
        | true ↦ recovery_from_c (c, w)
        | false ↦ (do
          (later, c', w') ← pull_logs (max_id + 1 - tid) leader tid (follow leader c, w)
          recovery_from_p turns later (c', w'))
      ]

  abbrev start_recovery : Coordinator → Coordinator
  start_recovery c = record c {
    cstate = CState.c_recovery;
    pstate = λ id. to_recovery (c.pstate id);
    max_txid_tb = [];
  }

  -- ask every participant for its last transaction
  ask_reports : Coordinator × W → Option ((Coordinator × Bool) × W)
  ask_reports (c, w) = do
    (c', w') ←
        recovery_turns c.pnum
          (for_ids c.pnum (give_recovery (log_to_str (log recovery_txid log_pre []))) c, w)
    some (for_ids c'.pnum collect_report (c', true), w')

  abbrev end_recovery : Coordinator → Coordinator
  end_recovery c = record (promote c.max_txid_tb c) { tmp_num = 0; cstate = CState.c_working }

  level : ℕ → (Coordinator × Bool) × W → Option (Coordinator × W)
  level min_id ((c, true), w) = some (c, w)
  level min_id ((c, false), w) =
      recovery_from_p (c.pnum + 1) (next_txid (min_entry c.max_txid_tb min_id)) (c, w)

  -- one call of `Recovery` from the moment when a participant is connected. `min_id` is the last
  -- transaction when the call began to wait for that.
  unfoldable pub recovery : ℕ → Coordinator × W → Option (Coordinator × W)
  unfolding ask_reports level
  recovery min_id (c, w) = if c.tmp_num == 0 then some (c, w) else (do
    r ← ask_reports (start_recovery c, w)
    (c', w') ← level min_id r
    some (end_recovery c', w'))
