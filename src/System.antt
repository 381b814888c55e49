-- ===== src/System.antt =====
-- The coordinator of Lab3/src/coordinator.cc together with the participants of
-- Lab3/src/participant.cc. A call of `sendAndRecv` reaches a running participant, unless the network
-- loses the request or the reply; which of these happens at which call is any function of time. A
-- participant whose process has ended by a fault does not answer.
pub mod Turn
pub mod Round
pub mod Agreement
pub mod Collect
pub mod Commit
pub mod Update
pub mod Request
pub mod Working
use cloud_computing.Prelude.{ℕ, ◌+◌, ◌≤◌, ◌<◌, ◌≡◌, Option, none, some, [], Bytes, update}
use cloud_computing.Codes.{Code, kv_ok, kv_timeout, kv_network, kv_network_close}
use cloud_computing.Phmap.{HashMap}
use cloud_computing.Participant.{Participant, p_worker}

pub data Fault : Type 0 where
  delivered request_lost reply_lost : Fault

pub record World (h : HashMap) : Type 0 where
  pub node : ℕ → Option (Participant h)
  pub clock : ℕ

module _ (h : HashMap) where
  abbrev tick : World h → World h
  tick w = record w { clock = w.clock + 1 }

  abbrev set_node : ℕ → Option (Participant h) → World h → World h
  set_node id p w = record w { node = update w.node id p; clock = w.clock + 1 }

  -- the participant has worked on the request, and its reply comes back or not
  answer : Fault → ℕ → World h → Option (Bytes × Participant h) → Code × Bytes × World h
  answer fault id w none = (kv_network_close, [], set_node id none w)
  answer delivered id w (some (rc, p)) = (kv_ok, rc, set_node id (some p) w)
  answer reply_lost id w (some (rc, p)) = (kv_timeout, [], set_node id (some p) w)
  answer request_lost id w (some (rc, p)) = (kv_timeout, [], tick w)

  reach : Fault → ℕ → Bytes → World h → Option (Participant h) → Code × Bytes × World h
  unfolding answer
  reach fault id msg w none = (kv_network, [], tick w)
  reach request_lost id msg w (some p) = (kv_timeout, [], tick w)
  reach fault id msg w (some p) = answer fault id w (p_worker h p msg)

module _ (h : HashMap) (faults : ℕ → Fault) where
  unfoldable pub send_and_recv : ℕ → Bytes → World h → Code × Bytes × World h
  unfolding reach
  send_and_recv id msg w = reach h (faults w.clock) id msg w (w.node id)
