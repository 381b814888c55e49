-- ===== src/System/Request.antt =====
-- `Request`: a read is answered by a participant that is in step with the coordinator.
use cloud_computing.Prelude.{
  ℕ, zero, suc, ◌+◌, ◌<◌, ◌^◌, ◌≡◌, ◌≢◌, refl, sym, ◌∙◌, ap, ap₂, true, false, ◌⊎◌, Option, none,
  some, [], Bytes, length, arith, Bool-cases, inl, inr, ◌==◌, ==_iff, some_inj, bytes_eq_iff,
  update_self,
}
use cloud_computing.Codes.{is_ok}
use cloud_computing.Phmap.{HashMap}
use cloud_computing.Parser.{get_error_message}
use cloud_computing.Logger.{log, super_txid, log_commit, log_to_str}
use cloud_computing.Participant.{Participant, event_parser, super}
use cloud_computing.Participant.Events.{IsSafe, event_parser_read, event_parser-ne-nil}
use cloud_computing.Participant.Replies.{p_worker_query}
use cloud_computing.Coordinator.{Coordinator, is_working, p_working_turn}
use cloud_computing.Coordinator.Update.{give, answered, ask_from, request}
use cloud_computing.System.{Fault, World, send_and_recv}
use cloud_computing.System.Turn.{Turned, p_working_turn-Turned}
use cloud_computing.System.Agreement.{InSync, NodeInSync, Agrees}

module _ (h : HashMap) (resp : Bytes) where
  -- The reply of a participant in step, whose store the event leaves as it is.
  pub record Read (c : Coordinator) (rc : Bytes) : Type 0 where
    pub reader : Participant h
    pub sync : InSync h c.lg c.txid reader
    pub ran : event_parser h reader.kvdb resp ≡ some (rc, reader.kvdb)

  -- What a read comes to.
  pub record Asks (c : Coordinator) (r : Bytes × Coordinator × World h) : Type 0 where
    pub agrees : Agrees h r.1 r.2
    pub same_lg : r.1.lg ≡ c.lg
    pub same_txid : r.1.txid ≡ c.txid
    pub same_pnum : r.1.pnum ≡ c.pnum
    pub outcome :
        Read c r.0 ⊎ ((r.0 ≡ get_error_message) × ((id : ℕ) → is_working (r.1.pstate id) ≡ false))

  read_kept :
      (p p' : Participant h) (o : Option (Bytes × h.Table)) (rc : Bytes)
      → IsSafe (log super_txid log_commit resp)
      → event_parser h p.kvdb resp ≡ o
      → super h p o ≡ some (rc, p')
      → (p' ≡ p) × (event_parser h p.kvdb resp ≡ some (rc, p.kvdb))
  read_kept p p' none rc safe ran e = absurd (cc)
  read_kept p p' (some (reply, kvdb)) rc safe ran e =
      let same : kvdb ≡ p.kvdb =
        event_parser_read h p.kvdb (log super_txid log_commit resp) (reply, kvdb) safe refl ran in
      let answer : (reply ≡ rc) × (record p { kvdb = kvdb } ≡ p') = (ground arith, ground arith) in
      (
        sym answer.1 ∙ ap (λ (k : h.Table). record p { kvdb = k }) same,
        ran ∙ ap₂ (λ (r : Bytes) (k : h.Table). some (r, k)) answer.0 same,
      )

module _ (h : HashMap) (faults : ℕ → Fault) (resp : Bytes)
    (safe : IsSafe (log super_txid log_commit resp)) (short : length resp < 2 ^ 63) where
  abbrev query : Bytes
  query = log_to_str (log super_txid log_commit resp)

  -- One participant is asked.
  record Asked (id : ℕ) (c : Coordinator) (t : Coordinator × World h) : Type 0 where
    agrees : Agrees h t.0 t.1
    same_lg : t.0.lg ≡ c.lg
    same_txid : t.0.txid ≡ c.txid
    same_pnum : t.0.pnum ≡ c.pnum
    others : (j : ℕ) → j ≢ id → t.0.pstate j ≡ c.pstate j
    reply : answered t.0 id ≡ true → Read h resp c (t.0.pworking_data_ret id)
    silent : answered t.0 id ≡ false → is_working (t.0.pstate id) ≡ false

  -- What is known of a participant that still works after it was asked.
  record Reader (id : ℕ) (c : Coordinator) (t : Coordinator × World h) : Type 0 where
    node : Participant h
    is : t.1.node id ≡ some node
    sync : InSync h c.lg c.txid node
    ran : event_parser h node.kvdb resp ≡ some (t.0.pworking_data_ret id, node.kvdb)
    worked : is_working (c.pstate id) ≡ true
    ok : is_ok (t.0.pworking_ret id) ≡ true

  module _ (id : ℕ) (c : Coordinator) (w : World h) (t : Coordinator × World h) (a : Agrees h c w)
      (v : Turned h faults id (give query id c, w) t) where
    reader : is_working (t.0.pstate id) ≡ true → Reader id c t
    reader works =
        let (was, ok, done) = v.heard works in
        let (p, node, sync) = a.in_sync id was in
        let same : done.before ≡ p = some_inj (sym done.was ∙ node) in
        let e =
          sym (p_worker_query h done.before resp short)
          ∙ (rw (update_self c.ptask id query) at done.ran) in
        let (kept, ran) =
          read_kept h resp done.before done.after (event_parser h done.before.kvdb resp)
            (t.0.pworking_data_ret id) safe refl e in
        record {
          node = done.before;
          is = done.is ∙ ap (λ x. some x) kept;
          sync = rw same sync;
          ran = ran;
          worked = was;
          ok = ok;
        }

    worked_before : (j : ℕ) → is_working (t.0.pstate j) ≡ true → is_working (c.pstate j) ≡ true
    worked_before j works = elim (Bool-cases (j == id)) [
      | inl e ↦
          let same : j ≡ id = (==_iff j id).0 e in rw same ((reader (rw same at works)).worked)
      | inr e ↦ rw (v.other_state j (λ p. ground arith)) at works
    ]

    in_step : (j : ℕ) → is_working (t.0.pstate j) ≡ true → NodeInSync h t.0 t.1 j
    in_step j works = elim (Bool-cases (j == id)) [
      | inl e ↦
          let same : j ≡ id = (==_iff j id).0 e in
          let r = reader (rw same at works) in
          (r.node, ap (λ k. t.1.node k) same ∙ r.is, rw (v.same_lg, v.same_txid) r.sync)
      | inr e ↦
          let (p, node, sync) = a.in_sync j (worked_before j works) in
          (p, v.other_node j (λ q. ground arith) ∙ node, rw (v.same_lg, v.same_txid) sync)
    ]

    spoke : is_working (t.0.pstate id) ≡ true → answered t.0 id ≡ true
    spoke works =
        let r = reader works in
        let some_bytes =
          event_parser-ne-nil h r.node.kvdb resp (t.0.pworking_data_ret id, r.node.kvdb) r.ran in
        ground (arith, r.ok, bytes_eq_iff (t.0.pworking_data_ret id) [])

    ask_one : Asked id c t
    ask_one = record {
      agrees = record {
        low = rw v.same_txid a.low;
        numbered = λ j works. rw v.same_pnum (a.numbered j (worked_before j works));
        in_sync = in_step;
      };
      same_lg = v.same_lg;
      same_txid = v.same_txid;
      same_pnum = v.same_pnum;
      others = v.other_state;
      reply = λ yes_answered.
          let r = reader (v.ok_works (ground arith)) in
          record { reader = r.node; sync = r.sync; ran = r.ran };
      silent = λ not_answered. ground (arith, spoke);
    }

  nobody_left :
      (c : Coordinator) (w : World h)
      → Agrees h c w
      → (id : ℕ) → c.pnum < id
      → ((j : ℕ) → j < id → is_working (c.pstate j) ≡ false)
      → (j : ℕ) → is_working (c.pstate j) ≡ false
  nobody_left c w a id above quiet j = elim (Bool-cases (is_working (c.pstate j))) [
    | inl works ↦ let (lo, hi) = a.numbered j works in quiet j (omega arith)
    | inr idle ↦ idle
  ]

  nobody_named :
      (c : Coordinator) (w : World h)
      → Agrees h c w
      → (j : ℕ) → j < 1
      → is_working (c.pstate j) ≡ false
  nobody_named c w a j lt = elim (Bool-cases (is_working (c.pstate j))) [
    | inl works ↦ let (lo, hi) = a.numbered j works in absurd (omega arith)
    | inr idle ↦ idle
  ]

  still_quiet :
      (id : ℕ) (c : Coordinator) (t : Coordinator × World h)
      → Asked id c t
      → ((j : ℕ) → j < id → is_working (c.pstate j) ≡ false)
      → is_working (t.0.pstate id) ≡ false
      → (j : ℕ) → j < id + 1
      → is_working (t.0.pstate j) ≡ false
  still_quiet id c t k quiet idle j lt = elim (Bool-cases (j == id)) [
    | inl e ↦ rw ((==_iff j id).0 e) idle
    | inr e ↦ rw (k.others j (λ p. ground arith)) (quiet j (ground arith))
  ]

  Asks-from :
      (id : ℕ) (c : Coordinator) (t : Coordinator × World h) (r : Bytes × Coordinator × World h)
      → Asked id c t
      → Asks h resp t.0 r
      → Asks h resp c r
  Asks-from id c t r k later = record {
    agrees = later.agrees;
    same_lg = later.same_lg ∙ k.same_lg;
    same_txid = later.same_txid ∙ k.same_txid;
    same_pnum = later.same_pnum ∙ k.same_pnum;
    outcome = elim later.outcome [
      | inl read ↦ inl (record {
        reader = read.reader;
        sync = rw (← k.same_lg, ← k.same_txid) read.sync;
        ran = read.ran;
      })
      | inr left ↦ inr left
    ];
  }

  ask_from-Asks :
      (rounds id : ℕ) (c : Coordinator) (w : World h)
      → Agrees h c w
      → id + rounds ≡ c.pnum + 1
      → ((j : ℕ) → j < id → is_working (c.pstate j) ≡ false)
      → Asks h resp c (ask_from (send_and_recv h faults) query rounds id (c, w))
  unfolding ask_from
  ask_from-Asks zero id c w a e quiet = record {
    agrees = a;
    same_lg = refl;
    same_txid = refl;
    same_pnum = refl;
    outcome = inr (refl, nobody_left c w a id (omega arith) quiet);
  }
  ask_from-Asks (suc rounds) id c w a e quiet =
      let turn = p_working_turn (send_and_recv h faults) id (give query id c, w) in
      let k : Asked id c turn =
        ask_one id c w turn a (p_working_turn-Turned h faults id (give query id c, w)) in
      elim (Bool-cases (answered turn.0 id)) [
        | inl spoke ↦ rw spoke (record {
          agrees = k.agrees;
          same_lg = k.same_lg;
          same_txid = k.same_txid;
          same_pnum = k.same_pnum;
          outcome = inl (k.reply spoke);
        })
        | inr silent ↦ rw silent (
            Asks-from id c turn (ask_from (send_and_recv h faults) query rounds (id + 1) turn) k (
              ask_from-Asks rounds (id + 1) turn.0 turn.1 k.agrees (omega (arith, k.same_pnum))
                (still_quiet id c turn k quiet (k.silent silent))))
      ]

  -- A read of a command that writes nothing: the participants that work stay in step with the
  -- coordinator, its log and counter are unchanged, and either the reply is the one that the command
  -- gives on the store of a participant in step, or it is the error message and no participant works
  -- any more.
  pub request-Asks :
      (c : Coordinator) (w : World h)
      → Agrees h c w
      → Asks h resp c (request (send_and_recv h faults) resp (c, w))
  unfolding request
  request-Asks c w a = ask_from-Asks c.pnum 1 c w a (omega arith) (λ j lt. nobody_named c w a j lt)
