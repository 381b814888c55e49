-- ===== src/Examples/Connections.antt =====
-- A network whose calls time out a few times before a connection arrives.
use cloud_computing.Prelude.{ℕ, zero, suc, ◌≤◌, ◌≡◌, some, none, codes, arith}
use cloud_computing.Codes.{Code, kv_ok, kv_timeout, is_ok}
use cloud_computing.Network.{failed}
use cloud_computing.Network.Connect.{Sockets, Net, keep_alive, await_client}
use cloud_computing.Network.Connect.Awaits.{await_client_ends}
use cloud_computing.Network.Connect.Ends.{Spends, FewFailures, keep_alive_ends}

abbrev attempt : ℕ → Code × ℕ
attempt zero = (kv_ok, zero)
attempt (suc w) = (kv_timeout, w)

abbrev sockets : Sockets
sockets = record {
  Sock = ℕ;
  World = ℕ;
  listen_on = λ port w. (port, w);
  peer_at = λ add port w. (port, w);
  init_socket = λ s w. (kv_ok, w);
  bind_listen = λ s w. (kv_ok, w);
  accept = λ s w. let (rc, t) = attempt w in (rc, 7, t);
  connect = λ s w. attempt w;
  close = λ s w. w;
  drop = λ s w. w;
}

fine : (w : ℕ) → Spends w w kv_ok
unfolding failed is_ok
fine w = record { no_more = omega arith; one_less = λ e. cc }

attempt-Spends : (w : ℕ) → Spends w (attempt w).1 (attempt w).0
attempt-Spends zero = fine zero
attempt-Spends (suc w) = record { no_more = omega arith; one_less = λ e. omega arith }

abbrev few : FewFailures sockets
few = record {
  left = λ w. w;
  listen_on_left = λ port w. omega arith;
  peer_at_left = λ add port w. omega arith;
  close_left = λ s w. omega arith;
  drop_left = λ s w. omega arith;
  init_spends = λ s w. fine w;
  bind_spends = λ s w. fine w;
  accept_spends = λ s w. attempt-Spends w;
  connect_spends = λ s w. attempt-Spends w;
}

abbrev net : Net sockets
net = record {
  peer = some 3;
  server = none;
  peer_address = codes "127.0.0.1";
  peer_port = 8002;
  port = 8002;
}

keep_alive_ends_example :
    (client : ℕ) × (m : Net sockets) × (t : ℕ) × (keep_alive sockets 5 (net, 4) ≡ some (m, t))
    × (m.peer ≡ some client)
    × (t ≤ 4)
keep_alive_ends_example = keep_alive_ends sockets few 5 net 4 (omega arith)

await_client_ends_example :
    (client : ℕ) × (m : Net sockets) × (t : ℕ) × (await_client sockets 5 6 (net, 4) ≡ some (m, t))
    × (m.peer ≡ some client)
    × (t ≤ 4)
await_client_ends_example = await_client_ends sockets few 5 6 net 4 (omega arith) (omega arith)
