-- ===== src/Client.antt =====
-- `main` of Lab3/src/main.cc: without arguments it is the client, whose lines become commands, and
-- with a configuration file it is a node. The connection of the client is a `Socket` that is
-- connected; `none` is a fault, or a reply that has not arrived after `rounds` calls.
pub mod Reaches
use cloud_computing.Prelude.{
  ℕ, zero, suc, Bool, true, false, Option, none, some, List, [], ◌∷◌, Bytes, ◌>>=◌, if◌then◌else◌,
}
use cloud_computing.Codes.{Code}
use cloud_computing.Util.Split.{split}
use cloud_computing.Parser.{get_resp_arry}
use cloud_computing.Network.{Socket, failed}
use cloud_computing.Conf.{Conf, NodeInfo, Mode, mode_invalid, mode_c, mode_p}

-- The command for a line
unfoldable pub line_packet : Bytes → Option Bytes
line_packet msg = split msg b' ' >>= λ list. some (get_resp_arry list)

module _ (socket : Socket) where
  open socket use {State}

  -- `while(client.recvNF(p, len, 100000)) {}`, with a buffer of 1024 bytes
  unfoldable pub reply_loop : ℕ → State → Option (Bytes × State)
  unfolding failed
  reply_loop zero s = none
  reply_loop (suc rounds) s =
      let (rc, p, t) = socket.recv_nf 1024 s in
      elim (failed rc) [ true ↦ reply_loop rounds t | false ↦ some (p, t) ]

  -- What the client prints for a line
  unfoldable pub client_line : ℕ → Bytes → State → Option (Bytes × State)
  unfolding line_packet reply_loop
  client_line rounds msg s = line_packet msg >>= λ pac. reply_loop rounds (socket.send pac s).1

-- What the program becomes
pub data Role : Type 0 where
  no_conf no_mode no_participant : Role
  coordinator : List NodeInfo → NodeInfo → Role
  participant : NodeInfo → Role

unfoldable pub single : List NodeInfo → Role
single [] = no_participant
single (info ∷ []) = participant info
single (info ∷ other ∷ infos) = no_participant

unfoldable pub role_of : Mode → Conf → Role
unfolding single
role_of mode_invalid conf = no_mode
role_of mode_c conf = coordinator conf.p conf.c
role_of mode_p conf = single conf.p

-- `main` behind `readConf`, with what it has returned and filled
unfoldable pub start_node : Bool × Conf → Role
unfolding role_of
start_node (false, conf) = no_conf
start_node (true, conf) = role_of conf.m conf
