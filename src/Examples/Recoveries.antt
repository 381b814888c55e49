-- ===== src/Examples/Recoveries.antt =====
-- A recovery of Lab3/src/coordinator.cc at a concrete input.
use cloud_computing.Prelude.{◌≡◌, refl, some, [], ◌∷◌, leb, if◌then◌else◌, ◌>>=◌}
use cloud_computing.Codes.{kv_network, is_ok}
use cloud_computing.Coordinator.{Coordinator, SendAndRecv, p_recovery, p_invalid}
use cloud_computing.Coordinator
use cloud_computing.Logger.{last_txid}
use cloud_computing.Std.Map
use cloud_computing.Coordinator.Recover.{
  recovery_from_p, get_recovery_leader, ask_leader, recovery_from_c,
}

-- Every connection fails.
abbrev unreachable : SendAndRecv Unit
unreachable id msg w = (kv_network, [], w)

-- Two participants, of which the second is ahead of the coordinator.
unfoldable behind : Coordinator
unfolding Coordinator.init
behind = record (Coordinator.init 2) {
  pstate = λ id. if leb 1 id then (if leb id 2 then p_recovery else p_invalid) else p_invalid;
  max_txid_tb = (1, 0) ∷ (2, 1000) ∷ [];
}

recovery_from_p_runs :
    (recovery_from_p unreachable 3 1 (behind, tt) >>= λ s. some (s.0.max_txid_tb))
    ≡ some ((1, 0) ∷ [])
unfolding recovery_from_p behind get_recovery_leader last_txid is_ok ask_leader
    Coordinator.p_working_turn Map.erase recovery_from_c
recovery_from_p_runs = refl
