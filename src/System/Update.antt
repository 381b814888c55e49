-- ===== src/System/Update.antt =====
-- `UpdateDB` as a whole: it always ends with a reply, the participants that work are in step with
-- the coordinator afterwards, and the reply tells whether the transaction was committed.
use cloud_computing.Prelude.{
  ℕ, ◌≤◌, ◌<◌, ◌^◌, ◌≡◌, ◌≢◌, refl, sym, ◌∙◌, ap, ap₂, subst, Bool, true, false, ◌⊎◌, some, [],
  Bytes, length, arith, Bool-cases, inl, inr, bytes_eq, bytes_eq_iff,
}
use cloud_computing.Codes.{is_ok}
use cloud_computing.Phmap.{HashMap}
use cloud_computing.Std.Map
use cloud_computing.Std.Map.{get-insert}
use cloud_computing.Std.Number.{long_max}
use cloud_computing.Parser.{get_error_message}
use cloud_computing.Logger.{
  Log, log, Logger, log_pre, log_commit, log_to_str, next_txid, write_log, chage_log_state,
}
use cloud_computing.Participant.Durable.{get-write_log-lt, get-write_log_self}
use cloud_computing.Coordinator.{Coordinator, is_working}
use cloud_computing.Coordinator.Update.{
  applied, collect_votes, collect_commits, round, finish_update, commit_update, vote_update,
  update_db,
}
use cloud_computing.System.{Fault, World, send_and_recv}
use cloud_computing.System.Round.{Rounded, round-Rounded}
use cloud_computing.System.Agreement.{
  Agrees, Agrees-write_log, Report, round-Report, round_numbered, vote-Agrees,
}
use cloud_computing.System.Collect.{Collected, collect_commits-Collected}
use cloud_computing.System.Commit.{failed_kept, done_advanced, same_reply}

module _ (h : HashMap) where
  -- What a client's update came to.
  pub record Updated (resp : Bytes) (c : Coordinator) (r : Bytes × Coordinator × World h)
      : Type 0 where
    pub agrees : Agrees h r.1 r.2
    pub outcome :
        ((r.0 ≡ get_error_message) × (r.1.txid ≡ c.txid))
        ⊎ ((r.0 ≢ get_error_message)
            × (r.1.txid ≡ next_txid c.txid)
            × (Map.get c.txid r.1.lg ≡ some (log c.txid log_commit resp)))
    pub earlier : (j : ℕ) → j < c.txid → Map.get j r.1.lg ≡ Map.get j c.lg

module _ (h : HashMap) (faults : ℕ → Fault) (resp : Bytes) where
  chage_log_state_pre :
      (lg : Logger) (id : ℕ)
      → Map.get id lg ≡ some (log id log_pre resp)
      → chage_log_state lg id log_commit ≡ some (Map.insert id (log id log_commit resp) lg)
  unfolding chage_log_state
  chage_log_state_pre lg id e = rw e

  module _ (c : Coordinator) (w : World h) (t : Coordinator × World h) (a : Agrees h c w)
      (fits : c.txid ≤ long_max) (short : length resp < 2 ^ 63)
      (entry : Map.get c.txid c.lg ≡ some (log c.txid log_pre resp))
      (r : Rounded h faults c.pnum (log_to_str (log c.txid log_commit resp)) c w t) where
    abbrev new_lg : Logger
    new_lg = Map.insert c.txid (log c.txid log_commit resp) c.lg

    report :
        (id : ℕ)
        → is_working (t.0.pstate id) ≡ true
        → Report h faults id (log_to_str (log c.txid log_commit resp)) c t
    report = round-Report h faults (log_to_str (log c.txid log_commit resp)) c w t a r

    abbrev committed_state : Coordinator
    committed_state = record t.0 { lg = new_lg; txid = next_txid c.txid }

    applied_somewhere :
        (i : ℕ) → 1 ≤ i → i ≤ c.pnum → applied t.0 i ≡ true → Agrees h committed_state t.1
    applied_somewhere i lo hi was = record {
      low = unfold next_txid in omega (arith, a.low);
      numbered = λ id works.
          rw r.same_pnum
            (round_numbered h faults (log_to_str (log c.txid log_commit resp)) c w t a r id works);
      in_sync = λ id works.
          let mine = report id works in
          let reply = same_reply h faults resp c t a.low fits short id i mine witness_report in
          (
            mine.after,
            mine.node,
            done_advanced h faults resp c t a.low fits short id mine new_lg
                (ap (λ d. bytes_eq d get_error_message) reply ∙ not_error)
                (λ j lt. get-insert c.txid j (log c.txid log_commit resp) c.lg ∙ ground arith)
                (get-insert c.txid c.txid (log c.txid log_commit resp) c.lg ∙ ground arith),
          );
    }
      where
        not_error : bytes_eq (t.0.pworking_data_ret i) get_error_message ≡ false
        not_error = ground arith

        witness_report : Report h faults i (log_to_str (log c.txid log_commit resp)) c t
        witness_report = report i ((r.done i lo hi).ok_works (ground arith))

    applied_nowhere : ((id : ℕ) → 1 ≤ id → id ≤ c.pnum → applied t.0 id ≡ false) → Agrees h t.0 t.1
    applied_nowhere nobody = record {
      low = rw r.same_txid a.low;
      numbered = λ id works. rw r.same_pnum (number id works);
      in_sync = λ id works.
          let mine = report id works in
          let (lo, hi) = number id works in
          let idle = nobody id lo hi in
          (
            mine.after,
            mine.node,
            rw (r.same_lg, r.same_txid)
                (failed_kept h faults resp c t a.low fits short id mine
                  (not_applied id mine.ok idle)),
          );
    }
      where
        number : (id : ℕ) → is_working (t.0.pstate id) ≡ true → (1 ≤ id) × (id ≤ c.pnum)
        number = round_numbered h faults (log_to_str (log c.txid log_commit resp)) c w t a r

        not_applied :
            (id : ℕ)
            → is_ok (t.0.pworking_ret id) ≡ true
            → applied t.0 id ≡ false
            → bytes_eq (t.0.pworking_data_ret id) get_error_message ≡ true
        not_applied id ok idle = ground arith

    finish-Updated :
        (o : Bool × Bytes)
        → Collected t.0 c.pnum o
        → (x : Bytes × Coordinator × World h) × (finish_update (send_and_recv h faults) o t
            ≡ some x)
          × Updated h resp c x
    unfolding finish_update
    finish-Updated (commit, rc) (inl (e, (i, lo, hi, was, reply))) = (
      (rc, committed_state, t.1),
      rw (e, changed)
          (ap (λ (id : ℕ). some (rc, record t.0 { lg = new_lg; txid = next_txid id }, t.1))
            r.same_txid),
      record {
        agrees = applied_somewhere i lo hi was;
        outcome = inr (
          λ p. not_error (reply ∙ refl) p,
          refl,
          get-insert c.txid c.txid (log c.txid log_commit resp) c.lg ∙ ground arith,
        );
        earlier = λ j lt. get-insert c.txid j (log c.txid log_commit resp) c.lg ∙ ground arith;
      },
    )
      where
        changed : chage_log_state t.0.lg t.0.txid log_commit ≡ some new_lg
        changed =
            ap₂ (λ lg id. chage_log_state lg id log_commit) r.same_lg r.same_txid
            ∙ chage_log_state_pre c.lg c.txid entry

        not_error : rc ≡ t.0.pworking_data_ret i → rc ≢ get_error_message
        not_error same p =
            let failed =
              (bytes_eq_iff (t.0.pworking_data_ret i) get_error_message).1 (sym same ∙ p) in
            ground arith
    finish-Updated (commit, rc) (inr (e, nobody)) = (
      (get_error_message, t.0, t.1),
      rw e,
      record {
        agrees = applied_nowhere nobody;
        outcome = inl (refl, r.same_txid);
        earlier = λ j lt. ap (λ lg. Map.get j lg) r.same_lg;
      },
    )

  Updated-from :
      (c d : Coordinator) (x : Bytes × Coordinator × World h)
      → d.txid ≡ c.txid
      → ((j : ℕ) → j < c.txid → Map.get j d.lg ≡ Map.get j c.lg)
      → Updated h resp d x
      → Updated h resp c x
  Updated-from c d x e same u = record {
    agrees = u.agrees;
    outcome =
        subst
          (λ k.
            ((x.0 ≡ get_error_message) × (x.1.txid ≡ k))
            ⊎ ((x.0 ≢ get_error_message)
                × (x.1.txid ≡ next_txid k)
                × (Map.get k x.1.lg ≡ some (log k log_commit resp))))
          e u.outcome;
    earlier = λ j lt. u.earlier j (rw e lt) ∙ same j lt;
  }

  -- from the end of the votes on
  vote_update-Updated :
      (c : Coordinator) (w : World h)
      → Agrees h c w
      → c.txid ≤ long_max
      → length resp < 2 ^ 63
      → Map.get c.txid c.lg ≡ some (log c.txid log_pre resp)
      → (x : Bytes × Coordinator × World h) × (vote_update (send_and_recv h faults) resp (c, w)
          ≡ some x)
        × Updated h resp c x
  unfolding vote_update commit_update
  vote_update-Updated c w a fits short entry = elim (Bool-cases (collect_votes c)) [
    | inl e ↦
        let msg : Bytes = log_to_str (log c.txid log_commit resp) in
        let t = round (send_and_recv h faults) msg (c, w) in
        let r = round-Rounded h faults msg c w in
        let found = collect_commits-Collected t.0 in
        let (x, done, updated) =
          finish-Updated c w t a fits short entry r (collect_commits t.0)
            (subst (λ n. Collected t.0 n (collect_commits t.0)) r.same_pnum found) in
        (x, rw e done, updated)
    | inr e ↦ (
      (get_error_message, c, w),
      rw e,
      record { agrees = a; outcome = inl (refl, refl); earlier = λ j lt. refl },
    )
  ]

  -- An update always returns a reply. If the working participants are in step with the coordinator
  -- before it, they are afterwards, whatever requests and replies the network loses and whatever
  -- processes end. Either the reply is the error message and the number of transactions is the
  -- old one, or the reply is no error message, the number is one higher and the coordinator's log
  -- holds the command as committed. The log of earlier transactions is unchanged.
  pub update_db-Updated :
      (c : Coordinator) (w : World h)
      → Agrees h c w
      → c.txid ≤ long_max
      → length resp < 2 ^ 63
      → (x : Bytes × Coordinator × World h) × (update_db (send_and_recv h faults) resp (c, w)
          ≡ some x)
        × Updated h resp c x
  unfolding update_db
  update_db-Updated c w a fits short =
      let (x, done, updated) =
        vote_update-Updated t.0 t.1
          (vote-Agrees h faults pre w t (Agrees-write_log h c w entry refl a) fits r)
          (rw r.same_txid fits) short
          (ap₂ (λ k lg. Map.get k lg) r.same_txid r.same_lg
            ∙ get-write_log_self h c.lg entry c.txid refl
            ∙ ap (λ k. some (log k log_pre resp)) (sym r.same_txid)) in
      (
        x,
        done,
        Updated-from c t.0 x r.same_txid
            (λ j lt. ap (λ lg. Map.get j lg) r.same_lg ∙ get-write_log-lt h c.lg entry j lt)
            updated,
      )
    where
      entry : Log
      entry = log c.txid log_pre resp

      pre : Coordinator
      pre = record c { lg = write_log c.lg entry }

      t : Coordinator × World h
      t = round (send_and_recv h faults) (log_to_str (log c.txid log_pre [])) (pre, w)

      r : Rounded h faults pre.pnum (log_to_str (log c.txid log_pre [])) pre w t
      r = round-Rounded h faults (log_to_str (log c.txid log_pre [])) pre w
