-- ===== src/System/Agreement.antt =====
-- Every participant that the coordinator counts as working has the coordinator's transactions.
use cloud_computing.Prelude.{
  ℕ, ◌≤◌, ◌<◌, ◌≡◌, sym, ◌∙◌, ap, true, some, [], Bytes, codes, arith, Bool-cases, inl, inr,
  some_inj, leb, leb_iff,
}
use cloud_computing.Codes.{is_ok}
use cloud_computing.Phmap.{HashMap}
use cloud_computing.Std.Map
use cloud_computing.Std.Number.{long_max}
use cloud_computing.Logger.{Log, log, Logger, txid_start, log_pre, log_to_str, write_log}
use cloud_computing.Participant.{Participant, p_worker}
use cloud_computing.Participant.Durable.{IsDurable, same_log_same_store, get-write_log-lt}
use cloud_computing.Participant.Replies.{p_worker_vote}
use cloud_computing.Coordinator.{Coordinator, is_working}
use cloud_computing.System.{Fault, World}
use cloud_computing.System.Round.{Rounded}

module _ (h : HashMap) where
  -- A participant with the transactions of a log below `txid`, each of them applied to its store.
  pub record InSync (lg : Logger) (txid : ℕ) (p : Participant h) : Type 0 where
    pub same_txid : p.txid ≡ txid
    pub durable : IsDurable h p
    pub same_log : (t : ℕ) → txid_start ≤ t → t < txid → Map.get t p.lg ≡ Map.get t lg

  abbrev pub NodeInSync : Coordinator → World h → ℕ → Type 0
  NodeInSync c w id = (p : Participant h) × (w.node id ≡ some p) × InSync c.lg c.txid p

  pub record Agrees (c : Coordinator) (w : World h) : Type 0 where
    pub low : txid_start ≤ c.txid
    pub numbered : (id : ℕ) → is_working (c.pstate id) ≡ true → (1 ≤ id) × (id ≤ c.pnum)
    pub in_sync : (id : ℕ) → is_working (c.pstate id) ≡ true → NodeInSync c w id

  -- Participants in step with one coordinator have equal stores.
  pub InSync-same_store :
      (lg : Logger) (txid : ℕ) (p q : Participant h)
      → InSync lg txid p
      → InSync lg txid q
      → p.kvdb ≡ q.kvdb
  InSync-same_store lg txid p q a b =
      same_log_same_store h p q a.durable b.durable (a.same_txid ∙ sym b.same_txid) (λ t lo hi.
        let below : t < txid = omega (arith, a.same_txid) in
        a.same_log t lo below ∙ sym (b.same_log t lo below))

  InSync-write_log :
      (lg : Logger) (txid : ℕ) (p : Participant h) (l : Log)
      → l.id ≡ txid
      → InSync lg txid p
      → InSync (write_log lg l) txid p
  InSync-write_log lg txid p l e a = record {
    same_txid = a.same_txid;
    durable = a.durable;
    same_log = λ t lo hi. a.same_log t lo hi ∙ sym (get-write_log-lt h lg l t (rw e hi));
  }

  -- An entry for the transaction under way does not matter yet.
  pub Agrees-write_log :
      (c : Coordinator) (w : World h) (l : Log)
      → l.id ≡ c.txid
      → Agrees c w
      → Agrees (record c { lg = write_log c.lg l }) w
  Agrees-write_log c w l e a = record {
    low = a.low;
    numbered = a.numbered;
    in_sync = λ id works.
        let (p, node, sync) = a.in_sync id works in
        (p, node, InSync-write_log c.lg c.txid p l e sync);
  }

module _ (h : HashMap) (faults : ℕ → Fault) where
  -- Who works after a round worked before it, and has a number.
  pub round_numbered :
      (msg : Bytes) (c : Coordinator) (w : World h) (t : Coordinator × World h)
      → Agrees h c w
      → Rounded h faults c.pnum msg c w t
      → (id : ℕ) → is_working (t.0.pstate id) ≡ true
      → (1 ≤ id) × (id ≤ c.pnum)
  round_numbered msg c w t a r id works = elim (Bool-cases (leb 1 id)) [
    | inr none_named ↦
        let zero_id : id ≡ 0 = ground arith in
        let before : is_working (c.pstate id) ≡ true =
          rw zero_id (rw (← r.zero_state) (rw zero_id at works)) in
        a.numbered id before
    | inl lo ↦ elim (Bool-cases (leb id c.pnum)) [
      | inl hi ↦ ((leb_iff 1 id).0 lo, (leb_iff id c.pnum).0 hi)
      | inr above ↦ a.numbered id (rw (r.later_state id (ground arith)) at works)
    ]
  ]

  -- What a participant that still works after a round was, answered and is.
  pub record Report (id : ℕ) (msg : Bytes) (c : Coordinator) (t : Coordinator × World h)
      : Type 0 where
    pub before : Participant h
    pub after : Participant h
    pub sync : InSync h c.lg c.txid before
    pub ok : is_ok (t.0.pworking_ret id) ≡ true
    pub ran : p_worker h before msg ≡ some (t.0.pworking_data_ret id, after)
    pub node : t.1.node id ≡ some after

  pub round-Report :
      (msg : Bytes) (c : Coordinator) (w : World h) (t : Coordinator × World h)
      → Agrees h c w
      → Rounded h faults c.pnum msg c w t
      → (id : ℕ) → is_working (t.0.pstate id) ≡ true
      → Report id msg c t
  round-Report msg c w t a r id works =
      let (lo, hi) = round_numbered msg c w t a r id works in
      let (worked_before, ok, worked) = (r.done id lo hi).heard works in
      let (p, node, sync) = a.in_sync id worked_before in
      let same : worked.before ≡ p = some_inj (sym worked.was ∙ node) in
      record {
        before = worked.before;
        after = worked.after;
        sync = rw same sync;
        ok = ok;
        ran = worked.ran;
        node = worked.is;
      }

  -- A vote changes no participant.
  pub vote-Agrees :
      (c : Coordinator) (w : World h) (t : Coordinator × World h)
      → Agrees h c w
      → c.txid ≤ long_max
      → Rounded h faults c.pnum (log_to_str (log c.txid log_pre [])) c w t
      → Agrees h t.0 t.1
  vote-Agrees c w t a fits r = record {
    low = rw r.same_txid a.low;
    numbered = λ id works.
        rw r.same_pnum (round_numbered (log_to_str (log c.txid log_pre [])) c w t a r id works);
    in_sync = λ id works.
        let report = round-Report (log_to_str (log c.txid log_pre [])) c w t a r id works in
        let voted : some (codes "PRE", report.before)
            ≡ some (t.0.pworking_data_ret id, report.after) =
          sym (p_worker_vote h report.before c.txid (sym report.sync.same_txid) a.low fits)
          ∙ report.ran in
        let same : report.before ≡ report.after =
          ap (λ (x : Bytes × Participant h). x.1) (some_inj voted) in
        (report.after, report.node, rw (r.same_lg, r.same_txid, ← same) report.sync);
  }
