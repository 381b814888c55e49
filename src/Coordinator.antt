-- ===== src/Coordinator.antt =====
-- Lab3/src/coordinator.cc and Lab3/src/include/coordinator.hpp: the state of the coordinator and
-- the bodies of its threads, one turn of each loop. The maps from participants to values have the
-- keys 1 to `pnum` and are functions; `max_txid_tb`, whose keys come and go, is a map. What stands
-- behind a connection is a parameter: `send_and_recv` is called with the state of the world and
-- returns the code, the reply and the new state of the world. The semaphores hand one task to one
-- thread and one result back, so a turn of a thread stands where its task is given.
pub mod Update
pub mod Recover
use cloud_computing.Prelude.{
  ℕ, ◌+◌, ◌%◌, ◌≡◌, refl, Bool, true, false, not, Option, none, some, List, [], ◌∷◌, Bytes, leb,
  ◌==◌, bytes_eq, update, ◌>>=◌, if◌then◌else◌,
}
use cloud_computing.Codes.{Code, kv_ok, ret_skip, is_ok}
use cloud_computing.Std.Map
use cloud_computing.Std.Map.{Map}
use cloud_computing.Parser.{get_error_message}
use cloud_computing.Logger.{Log, Logger, txid_start, str_to_log, next_txid}

pub data CState : Type 0 where
  c_invalid c_working c_recovery : CState

pub data PState : Type 0 where
  p_invalid p_working p_recovery p_waiting p_temp : PState

unfoldable pub is_working : PState → Bool
is_working p_working = true
is_working _ = false

unfoldable pub is_recovery : PState → Bool
is_recovery p_recovery = true
is_recovery _ = false

unfoldable pub is_waiting : PState → Bool
is_waiting p_waiting = true
is_waiting _ = false

pub record Coordinator : Type 0 where
  pub txid : ℕ
  pub cstate : CState
  pub pnum : ℕ
  pub pstate : ℕ → PState
  pub lg : Logger
  pub ptask : ℕ → Bytes
  pub pworking_ret : ℕ → Code
  pub pworking_data_ret : ℕ → Bytes
  pub tmp_num : ℕ
  pub max_txid_tb : Map ℕ
  pub prtask : ℕ → Bytes
  pub precovery_ret : ℕ → Code
  pub preovery_data_ret : ℕ → Bytes

-- The participants are numbered from 1; every other key of a map has the default value.
unfoldable pub init : ℕ → Coordinator
init pnum = record {
  txid = txid_start;
  cstate = c_recovery;
  pnum = pnum;
  pstate = λ id. if leb 1 id then (if leb id pnum then p_waiting else p_invalid) else p_invalid;
  lg = [];
  ptask = λ _. [];
  pworking_ret = λ _. kv_ok;
  pworking_data_ret = λ _. [];
  tmp_num = 0;
  max_txid_tb = [];
  prtask = λ _. [];
  precovery_ret = λ _. kv_ok;
  preovery_data_ret = λ _. [];
}

-- `keepAlive`, when `reconnect` has returned 0
unfoldable pub keep_alive : ℕ → Coordinator → Coordinator
keep_alive id c =
    if is_waiting (c.pstate id)
    then record c { pstate = update c.pstate id p_temp; tmp_num = c.tmp_num + 1 }
    else c

-- How the world answers participant `id`'s connection.
abbrev pub SendAndRecv : Type 0 → Type 0
SendAndRecv W = ℕ → Bytes → W → Code × Bytes × W

module _ {W : Type 0} (send_and_recv : SendAndRecv W) where
  unfoldable pub heard_working : ℕ → Coordinator → Code × Bytes × W → Coordinator × W
  unfolding is_ok
  heard_working id c (rc, rmsg, w) = (
    record c {
      pworking_ret = update c.pworking_ret id rc;
      pworking_data_ret = update c.pworking_data_ret id rmsg;
      pstate = if is_ok rc then c.pstate else update c.pstate id p_waiting;
    },
    w,
  )

  -- one turn of `pWorking`: an error closes the connection and leaves the participant waiting
  unfoldable pub p_working_turn : ℕ → Coordinator × W → Coordinator × W
  unfolding heard_working is_working
  p_working_turn id (c, w) =
      if is_working (c.pstate id)
      then heard_working id c (send_and_recv id (c.ptask id) w)
      else (record c { pworking_ret = update c.pworking_ret id ret_skip }, w)

  -- `maxTxidTB[id]`, which makes the entry 0 if there is none
  abbrev pub max_txid_of : ℕ → Coordinator → ℕ
  max_txid_of id c = elim (Map.get id c.max_txid_tb) [ none ↦ 0 | some t ↦ t ]

  abbrev pub touch_max_txid : ℕ → Coordinator → Coordinator
  touch_max_txid id c = record c { max_txid_tb = Map.insert id (max_txid_of id c) c.max_txid_tb }

  unfoldable pub heard_recovery : ℕ → Coordinator → Code × Bytes × W → Coordinator × W
  unfolding is_ok
  heard_recovery id c (rc, rmsg, w) =
      let heard = record c {
        precovery_ret = update c.precovery_ret id rc;
        preovery_data_ret = update c.preovery_data_ret id rmsg;
      } in
      if not (is_ok rc)
      then (
        record heard {
          pstate = update c.pstate id p_waiting;
          max_txid_tb = Map.erase id c.max_txid_tb;
        },
        w,
      )
      else if bytes_eq rmsg get_error_message
      then (heard, w)
      else (
        record heard { max_txid_tb = Map.insert id (next_txid (max_txid_of id c)) c.max_txid_tb },
        w,
      )

  unfoldable pub skip_recovery : ℕ → Coordinator × W → Coordinator × W
  skip_recovery id (c, w) = (record c { precovery_ret = update c.precovery_ret id ret_skip }, w)

  unfoldable pub send_recovery : ℕ → Coordinator × W → Coordinator × W
  send_recovery id (c, w) = heard_recovery id c (send_and_recv id (c.prtask id) w)

  -- a transaction goes only to a participant that waits for it
  unfoldable pub check_recovery : ℕ → Log → Coordinator × W → Coordinator × W
  check_recovery id l (c, w) =
      if leb txid_start l.id
      then (if l.id == next_txid (max_txid_of id c)
          then send_recovery id (touch_max_txid id c, w)
          else skip_recovery id (touch_max_txid id c, w))
      else send_recovery id (c, w)

  -- one turn of `pRecovery`; a task that is no log entry is a fault
  unfoldable pub p_recovery_turn : ℕ → Coordinator × W → Option (Coordinator × W)
  p_recovery_turn id (c, w) =
      if is_recovery (c.pstate id)
      then (do l ← str_to_log (c.prtask id); some (check_recovery id l (c, w)))
      else some (skip_recovery id (c, w))
