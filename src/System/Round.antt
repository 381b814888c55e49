-- ===== src/System/Round.antt =====
-- What a round does, in which every participant's thread takes the same task.
use cloud_computing.Prelude.{
  ℕ, suc, ◌≤◌, ◌<◌, ◌≡◌, ◌≢◌, refl, sym, ◌∙◌, ap, true, Bytes, for_ids, for_ids_inv, arith,
  Bool-cases, inl, inr, ==_iff, ◌==◌,
}
use cloud_computing.Codes.{is_ok}
use cloud_computing.Phmap.{HashMap}
use cloud_computing.Coordinator.{Coordinator, is_working, p_working_turn}
use cloud_computing.Coordinator.Update.{give, give_all, round}
use cloud_computing.System.{Fault, World, send_and_recv}
use cloud_computing.System.Turn.{Worked, Turned, p_working_turn-Turned}

-- Giving tasks changes the task buffers only.
pub record Given (task : Bytes) (n : ℕ) (c d : Coordinator) : Type 0 where
  pub same_txid : d.txid ≡ c.txid
  pub same_lg : d.lg ≡ c.lg
  pub same_pnum : d.pnum ≡ c.pnum
  pub same_state : d.pstate ≡ c.pstate
  pub tasks : (id : ℕ) → 1 ≤ id → id ≤ n → d.ptask id ≡ task

give_from : (task : Bytes) (n : ℕ) (c : Coordinator) → Given task n c (for_ids n (give task) c)
give_from task n c =
    for_ids_inv (λ k d. Given task k c d) (give task) n c
      (λ i d lt g. record {
        same_txid = g.same_txid;
        same_lg = g.same_lg;
        same_pnum = g.same_pnum;
        same_state = g.same_state;
        tasks = λ id lo hi. ground (arith, g.tasks id);
      })
      (record {
        same_txid = refl;
        same_lg = refl;
        same_pnum = refl;
        same_state = refl;
        tasks = λ id lo hi. absurd (omega arith);
      })

module _ (h : HashMap) (faults : ℕ → Fault) where
  -- What participant `id` has done since `w`, if it is still working.
  pub record Heard (id : ℕ) (msg : Bytes) (c : Coordinator) (w : World h)
      (t : Coordinator × World h) : Type 0 where
    pub heard :
        is_working (t.0.pstate id) ≡ true
        → (is_working (c.pstate id) ≡ true)
          × (is_ok (t.0.pworking_ret id) ≡ true)
          × Worked h id msg (t.0.pworking_data_ret id) w t.1
    pub ok_works : is_ok (t.0.pworking_ret id) ≡ true → is_working (t.0.pstate id) ≡ true

  -- After the turns of participants 1 to `k`.
  pub record Rounded (k : ℕ) (msg : Bytes) (c : Coordinator) (w : World h)
      (t : Coordinator × World h) : Type 0 where
    pub same_txid : t.0.txid ≡ c.txid
    pub same_lg : t.0.lg ≡ c.lg
    pub same_pnum : t.0.pnum ≡ c.pnum
    pub tasks : (id : ℕ) → 1 ≤ id → id ≤ c.pnum → t.0.ptask id ≡ msg
    pub done : (id : ℕ) → 1 ≤ id → id ≤ k → Heard id msg c w t
    pub later_state : (id : ℕ) → k < id → t.0.pstate id ≡ c.pstate id
    pub later_node : (id : ℕ) → k < id → t.1.node id ≡ w.node id
    pub zero_state : t.0.pstate 0 ≡ c.pstate 0

  Heard-now :
      (k : ℕ) (msg : Bytes) (c : Coordinator) (w : World h) (s t : Coordinator × World h)
      → suc k ≤ c.pnum
      → Rounded k msg c w s
      → Turned h faults (suc k) s t
      → Heard (suc k) msg c w t
  Heard-now k msg c w s t lt r v = record {
    heard = λ state.
        let (was_working, ok, worked) = v.heard state in
        (
          rw (r.later_state (suc k) (omega arith)) at was_working,
          ok,
          record {
            before = worked.before;
            after = worked.after;
            was = sym (r.later_node (suc k) (omega arith)) ∙ worked.was;
            ran = rw (r.tasks (suc k) (omega arith) lt) at worked.ran;
            is = worked.is;
          },
        );
    ok_works = v.ok_works;
  }

  Heard-before :
      (id k : ℕ) (msg : Bytes) (c : Coordinator) (w : World h) (s t : Coordinator × World h)
      → id ≢ suc k
      → Heard id msg c w s
      → Turned h faults (suc k) s t
      → Heard id msg c w t
  Heard-before id k msg c w s t ne r v = record {
    heard = λ state.
        let (was_working, ok, worked) = r.heard (rw (v.other_state id ne) at state) in
        (
          was_working,
          rw (v.other_ret id ne) ok,
          record {
            before = worked.before;
            after = worked.after;
            was = worked.was;
            ran = rw (v.other_data id ne) worked.ran;
            is = v.other_node id ne ∙ worked.is;
          },
        );
    ok_works = λ ok. rw (v.other_state id ne) (r.ok_works (rw (v.other_ret id ne) at ok));
  }

  Rounded-turn :
      (k : ℕ) (msg : Bytes) (c : Coordinator) (w : World h) (s t : Coordinator × World h)
      → suc k ≤ c.pnum
      → Rounded k msg c w s
      → Turned h faults (suc k) s t
      → Rounded (suc k) msg c w t
  Rounded-turn k msg c w s t lt r v = record {
    same_txid = v.same_txid ∙ r.same_txid;
    same_lg = v.same_lg ∙ r.same_lg;
    same_pnum = v.same_pnum ∙ r.same_pnum;
    tasks = λ id lo hi. v.same_task id ∙ r.tasks id lo hi;
    done = λ id lo hi. elim (Bool-cases (id == suc k)) [
      | inl e ↦ rw ((==_iff id (suc k)).0 e) (Heard-now k msg c w s t lt r v)
      | inr e ↦ Heard-before id k msg c w s t (λ p. ground arith) (r.done id lo (ground arith)) v
    ];
    later_state = λ id lt. v.other_state id (omega arith) ∙ r.later_state id (omega arith);
    later_node = λ id lt. v.other_node id (omega arith) ∙ r.later_node id (omega arith);
    zero_state = v.other_state 0 (omega arith) ∙ r.zero_state;
  }

  start_round :
      (msg : Bytes) (c : Coordinator) (w : World h) {d : Coordinator}
      → Given msg c.pnum c d
      → Rounded 0 msg c w (d, w)
  start_round msg c w g = record {
    same_txid = g.same_txid;
    same_lg = g.same_lg;
    same_pnum = g.same_pnum;
    tasks = g.tasks;
    done = λ id lo hi. absurd (omega arith);
    later_state = λ id lt. ap (λ f. f id) g.same_state;
    later_node = λ id lt. refl;
    zero_state = ap (λ f. f 0) g.same_state;
  }

  -- A whole round.
  pub round-Rounded :
      (msg : Bytes) (c : Coordinator) (w : World h)
      → Rounded c.pnum msg c w (round (send_and_recv h faults) msg (c, w))
  unfolding round give_all
  round-Rounded msg c w =
      for_ids_inv (λ k t. Rounded k msg c w t) (p_working_turn (send_and_recv h faults)) c.pnum
        (for_ids c.pnum (give msg) c, w)
        (λ i t lt r. Rounded-turn i msg c w t _ lt r (p_working_turn-Turned h faults (suc i) t))
        (start_round msg c w (give_from msg c.pnum c))
