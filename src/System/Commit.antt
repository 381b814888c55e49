-- ===== src/System/Commit.antt =====
-- A round of commits keeps the working participants in step.
use cloud_computing.Prelude.{
  ℕ, ◌≤◌, ◌<◌, ◌^◌, ◌≡◌, refl, sym, ◌∙◌, ap, true, false, ◌⊎◌, some, Bytes, length, arith,
  Bool-cases, inl, inr, ◌==◌, ==_iff, some_inj, bytes_eq, bytes_eq_iff,
}
use cloud_computing.Phmap.{HashMap}
use cloud_computing.Std.Map
use cloud_computing.Std.Map.{get-insert}
use cloud_computing.Std.Number.{long_max}
use cloud_computing.Parser.{get_error_message}
use cloud_computing.Logger.{log, Logger, txid_start, log_commit, log_to_str, next_txid}
use cloud_computing.Participant.{Participant, event_parser}
use cloud_computing.Participant.Events.{event_parser_error}
use cloud_computing.Participant.Change.{advanced, after_commit, committed-cases}
use cloud_computing.Participant.Durable.{Change-IsDurable, get-write_log-lt, get-write_log_self}
use cloud_computing.Participant.Replies.{p_worker_commit}
use cloud_computing.Coordinator.{Coordinator}
use cloud_computing.System.{Fault, World}
use cloud_computing.System.Agreement.{InSync, InSync-same_store, Report}

module _ (h : HashMap) (faults : ℕ → Fault) (resp : Bytes) (c : Coordinator)
    (t : Coordinator × World h) where
  abbrev pub msg : Bytes
  msg = log_to_str (log c.txid log_commit resp)

  -- What the event came to at a participant.
  record Outcome (id : ℕ) (before after : Participant h) : Type 0 where
    kvdb : h.Table
    ran : event_parser h before.kvdb resp ≡ some (t.0.pworking_data_ret id, kvdb)
    result :
        ((bytes_eq (t.0.pworking_data_ret id) get_error_message ≡ true)
          × (after ≡ record before { kvdb = kvdb }))
        ⊎ ((bytes_eq (t.0.pworking_data_ret id) get_error_message ≡ false)
            × (after ≡ after_commit h before (log c.txid log_commit resp) kvdb))

  module _ (low : txid_start ≤ c.txid) (fits : c.txid ≤ long_max)
      (short : length resp < 2 ^ 63) where
    outcome : (id : ℕ) (r : Report h faults id msg c t) → Outcome id r.before r.after
    outcome id r =
        let e =
          sym (p_worker_commit h r.before c.txid resp (sym r.sync.same_txid) low fits short)
          ∙ r.ran in
        let (kvdb, ran, result) =
          committed-cases h r.before (log c.txid log_commit resp)
            (event_parser h r.before.kvdb resp) (t.0.pworking_data_ret id) r.after e in
        record { kvdb = kvdb; ran = ran; result = result }

    -- Participants in step give the same reply.
    pub same_reply :
        (i j : ℕ) (r : Report h faults i msg c t) (s : Report h faults j msg c t)
        → t.0.pworking_data_ret i ≡ t.0.pworking_data_ret j
    same_reply i j r s =
        let stores = InSync-same_store h c.lg c.txid r.before s.before r.sync s.sync in
        let same =
          sym (outcome i r).ran
          ∙ ap (λ kvdb. event_parser h kvdb resp) stores
          ∙ (outcome j s).ran in
        ap (λ (x : Bytes × h.Table). x.0) (some_inj same)

    -- An event that failed has changed nothing.
    pub failed_kept :
        (id : ℕ) (r : Report h faults id msg c t)
        → bytes_eq (t.0.pworking_data_ret id) get_error_message ≡ true
        → InSync h c.lg c.txid r.after
    failed_kept id r failed = elim o.result [
      | inl (_, kept) ↦ rw (kept ∙ restored) r.sync
      | inr (done, _) ↦ absurd (cc (failed, done))
    ]
      where
        o : Outcome id r.before r.after
        o = outcome id r

        restored : record r.before { kvdb = o.kvdb } ≡ r.before
        restored =
            ap (λ (k : h.Table). record r.before { kvdb = k })
              (event_parser_error h r.before.kvdb resp (t.0.pworking_data_ret id, o.kvdb) o.ran
                ((bytes_eq_iff (t.0.pworking_data_ret id) get_error_message).0 failed))

    logged :
        (p : Participant h) (kvdb : h.Table) (lg : Logger)
        → InSync h c.lg c.txid p
        → ((j : ℕ) → j < c.txid → Map.get j lg ≡ Map.get j c.lg)
        → Map.get c.txid lg ≡ some (log c.txid log_commit resp)
        → (j : ℕ) → txid_start ≤ j
        → j < next_txid c.txid
        → Map.get j (after_commit h p (log c.txid log_commit resp) kvdb).lg ≡ Map.get j lg
    logged p kvdb lg sync same entry j lo hi = elim (Bool-cases (j == c.txid)) [
      | inl e ↦
          let last : j ≡ c.txid = (==_iff j c.txid).0 e in
          get-write_log_self h p.lg (log c.txid log_commit resp) j last
          ∙ sym (ap (λ k. Map.get k lg) last ∙ entry)
      | inr e ↦
          let below : j < c.txid = unfold next_txid in ground arith in
          get-write_log-lt h p.lg (log c.txid log_commit resp) j below
          ∙ sync.same_log j lo below
          ∙ sym (same j below)
    ]

    -- An event that succeeded has been logged.
    pub done_advanced :
        (id : ℕ) (r : Report h faults id msg c t) (lg : Logger)
        → bytes_eq (t.0.pworking_data_ret id) get_error_message ≡ false
        → ((j : ℕ) → j < c.txid → Map.get j lg ≡ Map.get j c.lg)
        → Map.get c.txid lg ≡ some (log c.txid log_commit resp)
        → InSync h lg (next_txid c.txid) r.after
    done_advanced id r lg done same entry = elim o.result [
      | inl (failed, _) ↦ absurd (cc (failed, done))
      | inr (good, advance) ↦ rw advance (record {
        same_txid = ap next_txid r.sync.same_txid;
        durable =
            Change-IsDurable h r.before (log c.txid log_commit resp) (t.0.pworking_data_ret id) _
              r.sync.durable (omega (arith, r.sync.same_txid))
              (advanced o.kvdb (sym r.sync.same_txid) refl o.ran good refl);
        same_log = logged r.before o.kvdb lg r.sync same entry;
      })
    ]
      where
        o : Outcome id r.before r.after
        o = outcome id r
