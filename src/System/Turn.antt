-- ===== src/System/Turn.antt =====
-- What one turn of `pWorking` does to the coordinator and to the participants.
use cloud_computing.Prelude.{
  ℕ, ◌≡◌, ◌≢◌, refl, true, Option, none, some, Bytes, update, update_self, arith, Bool-cases, inl,
  inr, if◌then◌else◌,
}
use cloud_computing.Codes.{Code, is_ok}
use cloud_computing.Phmap.{HashMap}
use cloud_computing.Participant.{Participant, p_worker}
use cloud_computing.Coordinator.{
  Coordinator, PState, is_working, p_waiting, p_working_turn, heard_working,
}
use cloud_computing.System.{
  Fault, delivered, request_lost, reply_lost, World, answer, reach, send_and_recv,
}

module _ (h : HashMap) where
  -- Participant `id` has worked on `msg` with this reply.
  pub record Worked (id : ℕ) (msg rmsg : Bytes) (w w' : World h) : Type 0 where
    pub before : Participant h
    pub after : Participant h
    pub was : w.node id ≡ some before
    pub ran : p_worker h before msg ≡ some (rmsg, after)
    pub is : w'.node id ≡ some after

  pub record Exchanged (id : ℕ) (msg : Bytes) (w : World h) (r : Code × Bytes × World h)
      : Type 0 where
    pub others : (j : ℕ) → j ≢ id → r.2.node j ≡ w.node j
    pub heard : is_ok r.0 ≡ true → Worked id msg r.1 w r.2

  answer-Exchanged :
      (fault : Fault) (id : ℕ) (msg : Bytes) (w : World h) (p : Participant h)
      (o : Option (Bytes × Participant h))
      → w.node id ≡ some p
      → p_worker h p msg ≡ o
      → Exchanged id msg w (answer h fault id w o)
  unfolding answer is_ok
  answer-Exchanged fault id msg w p none was ran = record {
    others = λ j ne. ground arith;
    heard = λ ok. cc;
  }
  answer-Exchanged delivered id msg w p (some (rc, p')) was ran = record {
    others = λ j ne. ground arith;
    heard = λ ok. record { before = p; after = p'; was = was; ran = ran; is = ground arith };
  }
  answer-Exchanged request_lost id msg w p (some (rc, p')) was ran = record {
    others = λ j ne. ground arith;
    heard = λ ok. cc;
  }
  answer-Exchanged reply_lost id msg w p (some (rc, p')) was ran = record {
    others = λ j ne. ground arith;
    heard = λ ok. cc;
  }

  reach-Exchanged :
      (fault : Fault) (id : ℕ) (msg : Bytes) (w : World h) (o : Option (Participant h))
      → w.node id ≡ o
      → Exchanged id msg w (reach h fault id msg w o)
  unfolding reach is_ok
  reach-Exchanged fault id msg w none was = record { others = λ j ne. refl; heard = λ ok. cc }
  reach-Exchanged request_lost id msg w (some p) was = record {
    others = λ j ne. refl;
    heard = λ ok. cc;
  }
  reach-Exchanged delivered id msg w (some p) was =
      answer-Exchanged delivered id msg w p (p_worker h p msg) was refl
  reach-Exchanged reply_lost id msg w (some p) was =
      answer-Exchanged reply_lost id msg w p (p_worker h p msg) was refl

module _ (h : HashMap) (faults : ℕ → Fault) where
  pub send_and_recv-Exchanged :
      (id : ℕ) (msg : Bytes) (w : World h) → Exchanged h id msg w (send_and_recv h faults id msg w)
  unfolding send_and_recv
  send_and_recv-Exchanged id msg w = reach-Exchanged h (faults w.clock) id msg w (w.node id) refl

  -- What a turn leaves alone, and what a participant that is still working after it has done.
  pub record Turned (id : ℕ) (s t : Coordinator × World h) : Type 0 where
    pub same_txid : t.0.txid ≡ s.0.txid
    pub same_lg : t.0.lg ≡ s.0.lg
    pub same_pnum : t.0.pnum ≡ s.0.pnum
    pub same_task : (j : ℕ) → t.0.ptask j ≡ s.0.ptask j
    pub other_state : (j : ℕ) → j ≢ id → t.0.pstate j ≡ s.0.pstate j
    pub other_ret : (j : ℕ) → j ≢ id → t.0.pworking_ret j ≡ s.0.pworking_ret j
    pub other_data : (j : ℕ) → j ≢ id → t.0.pworking_data_ret j ≡ s.0.pworking_data_ret j
    pub other_node : (j : ℕ) → j ≢ id → t.1.node j ≡ s.1.node j
    pub heard :
        is_working (t.0.pstate id) ≡ true
        → (is_working (s.0.pstate id) ≡ true)
          × (is_ok (t.0.pworking_ret id) ≡ true)
          × Worked h id (s.0.ptask id) (t.0.pworking_data_ret id) s.1 t.1
    pub ok_works : is_ok (t.0.pworking_ret id) ≡ true → is_working (t.0.pstate id) ≡ true

  still_working :
      (f : ℕ → PState) (id : ℕ) (rc : Code)
      → is_working ((if is_ok rc then f else update f id p_waiting) id) ≡ true
      → is_ok rc ≡ true
  unfolding is_working
  still_working f id rc e = ground arith

  heard-Turned :
      (id : ℕ) (c : Coordinator) (w : World h) (r : Code × Bytes × World h)
      → is_working (c.pstate id) ≡ true
      → Exchanged h id (c.ptask id) w r
      → Turned id (c, w) (heard_working (send_and_recv h faults) id c r)
  unfolding heard_working
  heard-Turned id c w r works x = record {
    same_txid = refl;
    same_lg = refl;
    same_pnum = refl;
    same_task = λ j. refl;
    other_state = λ j ne. ground arith;
    other_ret = λ j ne. ground arith;
    other_data = λ j ne. ground arith;
    other_node = x.others;
    heard = λ state.
        let ok = still_working c.pstate id r.0 state in
        (
          works,
          rw (update_self c.pworking_ret id r.0) ok,
          rw (update_self c.pworking_data_ret id r.1) (x.heard ok),
        );
    ok_works = λ ok. rw (rw (update_self c.pworking_ret id r.0) at ok) works;
  }

  -- One turn of the thread of participant `id`.
  pub p_working_turn-Turned :
      (id : ℕ) (s : Coordinator × World h)
      → Turned id s (p_working_turn (send_and_recv h faults) id s)
  unfolding p_working_turn is_ok
  p_working_turn-Turned id (c, w) = elim (Bool-cases (is_working (c.pstate id))) [
    | inl works ↦ rw works (
        heard-Turned id c w (send_and_recv h faults id (c.ptask id) w) works
          (send_and_recv-Exchanged id (c.ptask id) w))
    | inr idle ↦ rw idle (record {
      same_txid = refl;
      same_lg = refl;
      same_pnum = refl;
      same_task = λ j. refl;
      other_state = λ j ne. refl;
      other_ret = λ j ne. ground arith;
      other_data = λ j ne. refl;
      other_node = λ j ne. refl;
      heard = λ works. absurd (cc);
      ok_works = λ ok. ground arith;
    })
  ]
