-- ===== src/Examples/Confs.antt =====
-- A configuration file, read.
use cloud_computing.Prelude.{ℕ, ◌<◌, ◌^◌, arith, ◌≡◌, refl, true, some, [], ◌∷◌, codes, List, Bytes}
use cloud_computing.Conf.{
  Conf, mode_invalid, mode_p, read_conf, contains, info_behind, node_info, remove_spaces, stored,
}
use cloud_computing.Conf.{
  NodeInfo, mode_c, read_line, read_coordinator, read_participant, mode_of, colon_info, info_in,
}
use cloud_computing.Conf.RoundTrip.{IsNode, conf_lines, read_conf-conf_lines}
use cloud_computing.Client.{start_node, coordinator}
use cloud_computing.Std.Number.{strtol, to_u64}
use cloud_computing.Std.Text.{find, substr}

abbrev blank : Conf
blank = record { p = []; c = record { add = []; port = 0 }; m = mode_invalid }

abbrev bufs : List Bytes
bufs =
    codes "! a participant"
    ∷ codes "mode participant"
    ∷ codes "coordinator_info 127.0.0.1:8001"
    ∷ codes "participant_info 127.0.0.1: 8002"
    ∷ []
    ∷ []

read_conf_runs :
    read_conf bufs blank
    ≡ some (
      true,
      record {
        p = record { add = codes "127.0.0.1"; port = 8002 } ∷ [];
        c = record { add = codes "127.0.0.1"; port = 8001 };
        m = mode_p;
      },
    )
unfolding read_conf read_line read_coordinator read_participant mode_of colon_info info_in contains
    info_behind node_info remove_spaces stored strtol to_u64 find substr
read_conf_runs = refl

abbrev local : ℕ → NodeInfo
local port = record { add = codes "127.0.0.1"; port = port }

abbrev cluster : Conf
cluster = record { p = local 8002 ∷ local 8003 ∷ []; c = local 8001; m = mode_c }

local-IsNode : (port : ℕ) → port < 2 ^ 32 → IsNode (local port)
local-IsNode port lt = record { dotted = ground arith; short = omega arith; port_lt = lt }

read_conf-conf_lines_example : read_conf (conf_lines cluster) blank ≡ some (true, cluster)
read_conf-conf_lines_example =
    read_conf-conf_lines cluster (local-IsNode 8001 (omega arith))
      (local-IsNode 8002 (omega arith), (local-IsNode 8003 (omega arith), tt))

start_node_runs :
    start_node (true, cluster) ≡ coordinator (local 8002 ∷ local 8003 ∷ []) (local 8001)
unfolding start_node
start_node_runs = refl
