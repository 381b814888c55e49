-- ===== src/Participant.antt =====
-- Lab3/src/participant.cc and Lab3/src/include/participant.hpp: the work of a participant on one
-- request. The connection is not part of the state.
-- `none` is a fault, which ends the process.
pub mod Events
pub mod Change
pub mod Durable
pub mod Replies
pub mod Commands
use cloud_computing.Prelude.{
  ℕ, ◌+◌, ◌-◌, ◌%◌, ◌^◌, ◌≡◌, refl, Bool, true, false, not, ◌&&◌, Option, none, some, List, [], ◌∷◌,
  ◌++◌, Bytes, codes, length, leb, ◌==◌, bytes_eq, if◌then◌else◌, ◌>>=◌, ◌>>◌,
}
use cloud_computing.Std.Int.{ℤ, pos, negsuc}
use cloud_computing.Std.Number.{to_string, strtol, to_u64}
use cloud_computing.Phmap.{HashMap, entries_map, find_entry, erase_entry}
use cloud_computing.Kv
use cloud_computing.Parser.{
  get_error_message, get_success_message, get_interger_message, get_resp_arry, get_resp_arry_one,
  parser_resp_arry,
}
use cloud_computing.Logger.{
  Log, log, Logger, u64, txid_start, super_txid, recovery_txid, ask_data_txid, log_pre, log_commit,
  str_to_log, log_to_str, write_log, get_log_by_txid, next_txid, last_txid,
}

pub record Participant (h : HashMap) : Type 0 where
  pub txid : ℕ
  pub lg : Logger
  pub kvdb : h.Table

-- `s[0]`, which is NUL in the empty string
abbrev pub head_char : Bytes → ℕ
head_char [] = 0
head_char (c ∷ s) = c

module _ (h : HashMap) where
  open h use {Table, empty}

  -- the three cases of the switch that read the arguments
  run_del : Table → List Bytes → Bytes × Table
  run_del kvdb args =
      let (delnumber, rest) = Kv.del_arry h kvdb args in
      (get_interger_message (pos delnumber), rest)

  run_set : Table → List Bytes → Bytes × Table
  run_set kvdb (k ∷ v ∷ []) = (get_success_message, (Kv.set h kvdb k v).1)
  run_set kvdb _ = (get_error_message, kvdb)

  run_get : Table → List Bytes → Bytes × Table
  run_get kvdb (k ∷ []) = (get_resp_arry_one (Kv.get h kvdb k), kvdb)
  run_get kvdb _ = (get_error_message, kvdb)

  unfoldable pub run_comds : Table → List Bytes → Bytes × Table
  unfolding run_del run_set run_get
  run_comds kvdb [] = (get_error_message, kvdb)
  run_comds kvdb (verb ∷ args) =
      if head_char verb == b'D'
      then run_del kvdb args
      else if head_char verb == b'S'
      then run_set kvdb args
      else if head_char verb == b'G'
      then run_get kvdb args
      else if head_char verb == b'P'
      then (codes "PRE", kvdb)
      else (get_error_message, kvdb)

  -- `event.c_str()` ends with a NUL
  unfoldable pub event_parser : Table → Bytes → Option (Bytes × Table)
  event_parser kvdb event = do
    (comds, _) ← parser_resp_arry (event ++ (0 ∷ []))
    some (run_comds kvdb comds)

  abbrev pub super : Participant h → Option (Bytes × Table) → Option (Bytes × Participant h)
  super p none = none
  super p (some (rc, kvdb)) = some (rc, record p { kvdb = kvdb })

  unfoldable pub ask_data : Participant h → ℕ → Option (Bytes × Participant h)
  ask_data p tid =
      if leb p.txid tid
      then some ([], p)
      else do l ← get_log_by_txid p.lg tid; some (log_to_str l, p)

  -- the log is written only if the event succeeded; the store keeps what the event did
  abbrev pub committed :
      Participant h → Log → Option (Bytes × Table) → Option (Bytes × Participant h)
  committed p l none = none
  committed p l (some (rc, kvdb)) =
      if bytes_eq rc get_error_message
      then some (rc, record p { kvdb = kvdb })
      else some (rc, record { txid = next_txid p.txid; lg = write_log p.lg l; kvdb = kvdb })

  unfoldable pub transaction : Participant h → Log → Option (Bytes × Participant h)
  transaction p l =
      if (l.id == p.txid) && (l.state == log_pre)
      then some (codes "PRE", p)
      else if (l.id == p.txid) && (l.state == log_commit)
      then committed p l (event_parser p.kvdb l.event)
      else some (get_error_message, p)

  -- the switch on the number of the request
  unfoldable pub handle : Participant h → Log → Option (Bytes × Participant h)
  unfolding ask_data transaction
  handle p l =
      if l.id == super_txid
      then super p (event_parser p.kvdb l.event)
      else if l.id == recovery_txid
      then some (to_string (last_txid p.txid), p)
      else if l.id == ask_data_txid
      then ask_data p (to_u64 (strtol l.event))
      else transaction p l

  unfoldable pub p_worker : Participant h → Bytes → Option (Bytes × Participant h)
  unfolding handle
  p_worker p task = do l ← str_to_log task; handle p l

  unfoldable pub init : Participant h
  init = record { txid = txid_start; lg = []; kvdb = empty }

  -- one request after the other, each reply dropped
  unfoldable pub serve : Participant h → List Bytes → Option (Participant h)
  serve p [] = some p
  serve p (task ∷ tasks) = do (_, p') ← p_worker p task; serve p' tasks
