-- ===== src/Participant/Replies.antt =====
-- What a participant answers to each request that the coordinator builds.
use cloud_computing.Prelude.{ℕ, ◌^◌, ◌≤◌, ◌<◌, ◌≡◌, some, [], Bytes, codes, length, arith}
use cloud_computing.Phmap.{HashMap}
use cloud_computing.Std.Number.{to_string, long_max}
use cloud_computing.Logger.{
  last_txid, Log, log, txid_start, super_txid, recovery_txid, log_pre, log_commit, log_to_str,
}
use cloud_computing.Logger.RoundTrip.{str_to_log-log_to_str}
use cloud_computing.Participant.{
  Participant, event_parser, super, committed, transaction, handle, p_worker,
}

module _ (h : HashMap) (p : Participant h) where
  -- A request that the coordinator wrote is read as the entry that it was made from.
  pub p_worker-log_to_str :
      (l : Log)
      → l.id ≤ long_max
      → l.state < 2 ^ 8
      → length l.event < 2 ^ 63
      → p_worker h p (log_to_str l) ≡ handle h p l
  unfolding p_worker
  p_worker-log_to_str l id state event = rw (str_to_log-log_to_str l id state event)

  -- The request for a vote on the transaction that the participant waits for.
  pub p_worker_vote :
      (t : ℕ)
      → t ≡ p.txid
      → txid_start ≤ t
      → t ≤ long_max
      → p_worker h p (log_to_str (log t log_pre [])) ≡ some (codes "PRE", p)
  unfolding handle transaction
  p_worker_vote t e lo fits =
      rw (p_worker-log_to_str (log t log_pre []) fits (omega arith) (omega arith)) (ground arith)

  -- The request to commit it.
  pub p_worker_commit :
      (t : ℕ) (event : Bytes)
      → t ≡ p.txid
      → txid_start ≤ t
      → t ≤ long_max
      → length event < 2 ^ 63
      → p_worker h p (log_to_str (log t log_commit event))
        ≡ committed h p (log t log_commit event) (event_parser h p.kvdb event)
  unfolding handle transaction
  p_worker_commit t event e lo fits short =
      rw (p_worker-log_to_str (log t log_commit event) fits (omega arith) short) (ground arith)

  -- The request of a client's read.
  pub p_worker_query :
      (event : Bytes)
      → length event < 2 ^ 63
      → p_worker h p (log_to_str (log super_txid log_commit event))
        ≡ super h p (event_parser h p.kvdb event)
  unfolding handle
  p_worker_query event short =
      rw (p_worker-log_to_str (log super_txid log_commit event) (omega arith) (omega arith) short)

  -- The request for the number of the last transaction.
  pub p_worker_recovery :
      p_worker h p (log_to_str (log recovery_txid log_pre []))
      ≡ some (to_string (last_txid p.txid), p)
  unfolding handle
  p_worker_recovery =
      rw (
        p_worker-log_to_str (log recovery_txid log_pre []) (omega arith) (omega arith)
          (omega arith))
