-- ===== src/Participant/Change.antt =====
-- What one request does to a participant: the switch of `pWorker` in Lab3/src/participant.cc.
use cloud_computing.Prelude.{
  ◌∙◌, ap, ℕ, ◌≡◌, ◌⊎◌, true, false, refl, ◌&&◌, Option, none, some, Bytes, arith, ◌==◌, ==_iff,
  bytes_eq, bytes_eq_iff, Bool-cases, inl, inr,
}
use cloud_computing.Phmap.{HashMap}
use cloud_computing.Std.Number.{strtol, to_u64}
use cloud_computing.Parser.{get_error_message}
use cloud_computing.Logger.{
  next_txid, Log, super_txid, log_commit, log_pre, recovery_txid, ask_data_txid, write_log,
}
use cloud_computing.Participant.{
  Participant, event_parser, super, committed, transaction, ask_data, handle,
}
use cloud_computing.Participant.Events.{IsSafe, event_parser_read, event_parser_error}

module _ (h : HashMap) where
  open h use {Table}

  -- The state after transaction `l` has been committed with the store `kvdb`.
  abbrev pub after_commit : Participant h → Log → Table → Participant h
  after_commit p l kvdb = record { txid = next_txid p.txid; lg = write_log p.lg l; kvdb = kvdb }

  -- What a request that is answered with `rc` may do to a participant: nothing, or commit the next
  -- transaction, whose event has the same answer, and no error.
  pub data Change (p : Participant h) (l : Log) (rc : Bytes) (p' : Participant h) : Type 0 where
    kept : p' ≡ p → Change p l rc p'
    advanced :
        (kvdb : Table)
        → l.id ≡ p.txid
        → l.state ≡ log_commit
        → event_parser h p.kvdb l.event ≡ some (rc, kvdb)
        → bytes_eq rc get_error_message ≡ false
        → p' ≡ after_commit p l kvdb
        → Change p l rc p'

  -- A commit that was answered: the event ran, and the log grew unless the answer is an error.
  pub committed-cases :
      (p : Participant h) (l : Log) (o : Option (Bytes × Table)) (rc : Bytes) (p' : Participant h)
      → committed h p l o ≡ some (rc, p')
      → (kvdb : Table) × (o ≡ some (rc, kvdb))
        × (((bytes_eq rc get_error_message ≡ true) × (p' ≡ record p { kvdb = kvdb }))
            ⊎ ((bytes_eq rc get_error_message ≡ false) × (p' ≡ after_commit p l kvdb)))
  committed-cases p l none rc p' e = absurd (cc)
  committed-cases p l (some (reply, kvdb)) rc p' e =
      elim (Bool-cases (bytes_eq reply get_error_message)) [
        | inl failed ↦ (kvdb, ground arith, inl (ground arith, ground arith))
        | inr done ↦ (kvdb, ground arith, inr (ground arith, ground arith))
      ]

  committed-Change :
      (p : Participant h) (l : Log) (rc : Bytes) (p' : Participant h)
      → l.id ≡ p.txid
      → l.state ≡ log_commit
      → committed h p l (event_parser h p.kvdb l.event) ≡ some (rc, p')
      → Change p l rc p'
  committed-Change p l rc p' at state e =
      let (kvdb, ran, result) = committed-cases p l (event_parser h p.kvdb l.event) rc p' e in
      elim result [
        | inl (failed, after) ↦ kept (
            after
            ∙ ap (λ (k : Table). record p { kvdb = k })
                (event_parser_error h p.kvdb l.event (rc, kvdb) ran
                  ((bytes_eq_iff rc get_error_message).0 failed)))
        | inr (done, after) ↦ advanced kvdb at state ran done after
      ]

  super-Change :
      (p : Participant h) (l : Log) (o : Option (Bytes × Table)) (rc : Bytes) (p' : Participant h)
      → event_parser h p.kvdb l.event ≡ o
      → IsSafe l
      → l.id ≡ super_txid
      → super h p o ≡ some (rc, p')
      → p' ≡ p
  super-Change p l none rc p' ran safe at e = cc
  super-Change p l (some (reply, kvdb)) rc p' ran safe at e =
      let same : kvdb ≡ p.kvdb = event_parser_read h p.kvdb l (reply, kvdb) safe at ran in
      ground arith

  transaction-Change :
      (p : Participant h) (l : Log) (rc : Bytes) (p' : Participant h)
      → transaction h p l ≡ some (rc, p')
      → Change p l rc p'
  unfolding transaction
  transaction-Change p l rc p' e = elim (Bool-cases ((l.id == p.txid) && (l.state == log_pre))) [
    | inl vote ↦ kept (ground arith)
    | inr other ↦ elim (Bool-cases ((l.id == p.txid) && (l.state == log_commit))) [
      | inl commit ↦
          committed-Change p l rc p' (ground arith) (ground arith) (rw (other, commit) at e)
      | inr neither ↦ kept (ground arith)
    ]
  ]

  ask_data-Change :
      (p : Participant h) (tid : ℕ) (rc : Bytes) (p' : Participant h)
      → ask_data h p tid ≡ some (rc, p')
      → p' ≡ p
  unfolding ask_data
  ask_data-Change p tid rc p' e = ground arith

  -- Every answered request leaves the participant as it was, or commits the transaction that the
  -- participant waits for; a request without a number must be one that only reads.
  pub handle-Change :
      (p : Participant h) (l : Log) (rc : Bytes) (p' : Participant h)
      → IsSafe l
      → handle h p l ≡ some (rc, p')
      → Change p l rc p'
  unfolding handle
  handle-Change p l rc p' safe e = elim (Bool-cases (l.id == super_txid)) [
    | inl is_super ↦ kept (
        super-Change p l (event_parser h p.kvdb l.event) rc p' refl safe
          ((==_iff l.id super_txid).0 is_super) (rw is_super at e))
    | inr numbered ↦ elim (Bool-cases (l.id == recovery_txid)) [
      | inl is_recovery ↦ kept (ground arith)
      | inr other ↦ elim (Bool-cases (l.id == ask_data_txid)) [
        | inl asks ↦
            kept
              (ask_data-Change p (to_u64 (strtol l.event)) rc p' (rw (numbered, other, asks) at e))
        | inr transacts ↦ transaction-Change p l rc p' (rw (numbered, other, transacts) at e)
      ]
    ]
  ]
