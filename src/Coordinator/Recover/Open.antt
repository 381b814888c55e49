-- ===== src/Coordinator/Recover/Open.antt =====
-- The turns of a recovery in Lab3/src/coordinator.cc and the participants that it is about: those that
-- are recovering or have an entry in `maxTxidTB`.
use cloud_computing.Prelude.{
  ℕ, zero, suc, ◌+◌, ◌≡◌, refl, sym, subst, some_inj, ◌∙◌, Bool, true, false, ◌||◌, Option, none,
  some, Bytes, leb, arith, Bool-cases, Option-cases, inl, inr, ◌==◌,
}
use cloud_computing.Std.Map
use cloud_computing.Std.Map.{Map, map_laws, get-insert, get-erase}
use cloud_computing.Std.Number.{to_string}
use cloud_computing.Logger.{
  next_txid, txid_start, Log, log, ask_data_txid, log_commit, log_to_str, str_to_log,
}
use cloud_computing.Codes.{Code}
use cloud_computing.Coordinator.{
  Coordinator, is_recovery, SendAndRecv, p_working_turn, p_recovery_turn, max_txid_of,
  touch_max_txid, skip_recovery, heard_recovery, send_recovery, check_recovery,
}
use cloud_computing.Coordinator.Update.{give}
use cloud_computing.Coordinator.Recover.{
  broadcast, broadcast_turns, give_recovery, ask_leader, asked, adopt, pull_logs,
}

no_value : {A : Type 0} {a : A} → none ≡ some a → ⊥
no_value h = cc

pub no_truth : false ≡ true → ⊥
no_truth h = cc

pub or_right : (a : Bool) {b : Bool} → b ≡ true → (a || b) ≡ true
or_right true h = refl
or_right false h = h

abbrev pub is_there : Option ℕ → Bool
is_there none = false
is_there (some t) = true

-- The participant is recovering or has an entry in the table.
abbrev pub is_open : Coordinator → ℕ → Bool
is_open c id = is_recovery (c.pstate id) || is_there (Map.get id c.max_txid_tb)

unfoldable pub Shrinks : Coordinator → Coordinator → Type 0
Shrinks c d = (id : ℕ) → is_open d id ≡ true → is_open c id ≡ true

Shrinks-refl : (c : Coordinator) → Shrinks c c
unfolding Shrinks
Shrinks-refl c id h = h

module _ {W : Type 0} (send_and_recv : SendAndRecv W) where
  heard_recovery-Shrinks :
      (id : ℕ) (c : Coordinator) (r : Code × Bytes × W)
      → is_recovery (c.pstate id) ≡ true
      → Shrinks c (heard_recovery send_and_recv id c r).0
  unfolding heard_recovery Shrinks is_recovery
  heard_recovery-Shrinks id c (rc, rmsg, w) on j h = ground (
    arith,
    get-insert id j (next_txid (max_txid_of send_and_recv id c)) c.max_txid_tb,
    get-erase id j c.max_txid_tb,
  )

  touch_max_txid-Shrinks :
      (id : ℕ) (c : Coordinator)
      → is_recovery (c.pstate id) ≡ true
      → Shrinks c (touch_max_txid send_and_recv id c)
  unfolding Shrinks
  touch_max_txid-Shrinks id c on j h =
      ground (arith, get-insert id j (max_txid_of send_and_recv id c) c.max_txid_tb)

  skip_recovery-Shrinks :
      (id : ℕ) (c : Coordinator) (w : W) → Shrinks c (skip_recovery send_and_recv id (c, w)).0
  unfolding skip_recovery Shrinks
  skip_recovery-Shrinks id c w j h = h

  Shrinks-trans : (c d e : Coordinator) → Shrinks c d → Shrinks d e → Shrinks c e
  unfolding Shrinks
  Shrinks-trans c d e f g j h = f j (g j h)

  send_recovery-Shrinks :
      (id : ℕ) (c : Coordinator) (w : W)
      → is_recovery (c.pstate id) ≡ true
      → Shrinks c (send_recovery send_and_recv id (c, w)).0
  unfolding send_recovery
  send_recovery-Shrinks id c w on =
      heard_recovery-Shrinks id c (send_and_recv id (c.prtask id) w) on

  check_recovery-Shrinks :
      (id : ℕ) (l : Log) (c : Coordinator) (w : W)
      → is_recovery (c.pstate id) ≡ true
      → Shrinks c (check_recovery send_and_recv id l (c, w)).0
  unfolding check_recovery
  check_recovery-Shrinks id l c w on =
      let t = touch_max_txid send_and_recv id c in
      let touched = touch_max_txid-Shrinks id c on in
      elim (Bool-cases (leb txid_start l.id)) [
        | inr e ↦ rw (e, check_recovery) (send_recovery-Shrinks id c w on)
        | inl e ↦ elim (Bool-cases (l.id == next_txid (max_txid_of send_and_recv id c))) [
          | inl f ↦
              rw (e, check_recovery, f)
                (Shrinks-trans c t _ touched (send_recovery-Shrinks id t w on))
          | inr f ↦
              rw (e, check_recovery, f) (Shrinks-trans c t _ touched (skip_recovery-Shrinks id t w))
        ]
      ]

  p_working_turn-Shrinks :
      (id : ℕ) (c : Coordinator) (w : W) → Shrinks c (p_working_turn send_and_recv id (c, w)).0
  unfolding p_working_turn Shrinks is_recovery
  p_working_turn-Shrinks id c w j h = ground arith

  p_recovery_turn-Shrinks :
      (id : ℕ) (c d : Coordinator) (w v : W)
      → p_recovery_turn send_and_recv id (c, w) ≡ some (d, v)
      → Shrinks c d
  unfolding p_recovery_turn
  p_recovery_turn-Shrinks id c d w v ran = elim (Bool-cases (is_recovery (c.pstate id))) [
    | inr e ↦
        done (skip_recovery send_and_recv id (c, w)) (skip_recovery-Shrinks id c w)
          (sym (rw (e, p_recovery_turn) refl) ∙ ran)
    | inl e ↦ elim (Option-cases (str_to_log (c.prtask id))) [
      | inl f ↦ absurd (no_value (sym (rw (e, p_recovery_turn, f) refl) ∙ ran))
      | inr (l, f) ↦
          done (check_recovery send_and_recv id l (c, w)) (check_recovery-Shrinks id l c w e)
            (sym (rw (e, p_recovery_turn, f) refl) ∙ ran)
    ]
  ]
    where
      done : (s : Coordinator × W) → Shrinks c s.0 → some s ≡ some (d, v) → Shrinks c d
      done s h e = subst (λ (t : Coordinator × W). Shrinks c t.0) (some_inj e) h

  broadcast_turns-Shrinks :
      (task : Bytes) (n : ℕ) (c d : Coordinator) (w v : W)
      → broadcast_turns send_and_recv task n (c, w) ≡ some (d, v)
      → Shrinks c d
  unfolding broadcast_turns Shrinks
  broadcast_turns-Shrinks task zero c d w v ran =
      subst (λ (t : Coordinator × W). Shrinks c t.0) (some_inj ran) (Shrinks-refl c)
  broadcast_turns-Shrinks task (suc n) c d w v ran =
      elim (Option-cases (broadcast_turns send_and_recv task n (c, w))) [
        | inl e ↦ absurd (no_value (sym (rw (broadcast_turns, e) refl) ∙ ran))
        | inr ((e, u), h) ↦ Shrinks-trans c e d (broadcast_turns-Shrinks task n c e w u h) (
            p_recovery_turn-Shrinks (suc n) (give_recovery task (suc n) e) d u v
              (sym (rw (broadcast_turns, h) refl) ∙ ran))
      ]

  broadcast-Shrinks :
      (task : Bytes) (c d : Coordinator) (w v : W)
      → broadcast send_and_recv task (c, w) ≡ some (d, v)
      → Shrinks c d
  unfolding broadcast
  broadcast-Shrinks task c d w v ran = broadcast_turns-Shrinks task c.pnum c d w v ran

  ask_leader-Shrinks :
      (leader tid : ℕ) (c : Coordinator) (w : W)
      → Shrinks c (ask_leader send_and_recv leader tid (c, w)).0
  unfolding ask_leader Shrinks
  ask_leader-Shrinks leader tid c w =
      p_working_turn-Shrinks leader
        (give (log_to_str (log ask_data_txid log_commit (to_string tid))) leader c) w

  adopt-Shrinks : (l : Log) (c : Coordinator) → Shrinks c (adopt send_and_recv l c)
  unfolding Shrinks
  adopt-Shrinks l c j h = ground arith

  pub pull_logs-Shrinks :
      (rounds leader tid later : ℕ) (c d : Coordinator) (w v : W)
      → pull_logs send_and_recv rounds leader tid (c, w) ≡ some (later, d, v)
      → Shrinks c d
  unfolding pull_logs
  pull_logs-Shrinks zero leader tid later c d w v ran =
      subst (λ (t : ℕ × Coordinator × W). Shrinks c t.1) (some_inj ran) (Shrinks-refl c)
  pull_logs-Shrinks (suc rounds) leader tid later c d w v ran =
      let (c1, w1) = ask_leader send_and_recv leader tid (c, w) in
      let start = ask_leader-Shrinks leader tid c w in
      elim (Option-cases (asked send_and_recv leader c1)) [
        | inl e ↦
            let stopped : some (tid, c1, w1) ≡ some (later, d, v) = rw (pull_logs, e) at ran in
            subst (λ (t : ℕ × Coordinator × W). Shrinks c t.1) (some_inj stopped) start
        | inr (rc, e) ↦ elim (Option-cases (str_to_log rc)) [
          | inl f ↦ absurd (no_value (sym (rw (pull_logs, e, f) refl) ∙ ran))
          | inr (l, f) ↦
              let a = adopt send_and_recv l c1 in
              elim (Option-cases (broadcast send_and_recv rc (a, w1))) [
                | inl g ↦ absurd (no_value (sym (rw (pull_logs, e, f, g) refl) ∙ ran))
                | inr ((b, u), g) ↦ Shrinks-trans c c1 d start (
                    Shrinks-trans c1 a d (adopt-Shrinks l c1) (
                      Shrinks-trans a b d (broadcast-Shrinks rc a b w1 u g) (
                        pull_logs-Shrinks rounds leader (tid + 1) later b d u v
                          (sym (rw (pull_logs, e, f, g) refl) ∙ ran))))
              ]
        ]
      ]
