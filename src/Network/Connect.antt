-- ===== src/Network/Connect.antt =====
-- How Lab3/src/network.cc comes to its connections: `close`, `initBind`, `acceptWithoutCloseBind`,
-- `reaccept` and `reconnect`, and the loop of `keepAlive` of Lab3/src/participant.cc. The calls of
-- third_party/ossSocket are a parameter. A loop takes a number of rounds; `none` is a loop that has
-- not ended after that many rounds, or a null pointer that is used.
pub mod Ends
pub mod Awaits
use cloud_computing.Prelude.{
  ℕ, zero, suc, Bool, true, false, Option, none, some, Bytes, ◌>>=◌, if◌then◌else◌,
}
use cloud_computing.Codes.{Code, kv_ok, kv_timeout, kv_network_close, is_ok}
use cloud_computing.Network.{failed}

-- `listen_on` and `peer_at` are the constructors with a port and with an address and a port; `accept`
-- also returns the socket of the client, wrapped in an `ossSocket`; `drop` is the destructor.
pub record Sockets : Type 1 where
  pub Sock : Type 0
  pub World : Type 0
  pub listen_on : ℕ → World → Sock × World
  pub peer_at : Bytes → ℕ → World → Sock × World
  pub init_socket : Sock → World → Code × World
  pub bind_listen : Sock → World → Code × World
  pub accept : Sock → World → Code × Sock × World
  pub connect : Sock → World → Code × World
  pub close : Sock → World → World
  pub drop : Sock → World → World

-- `rc == KV_TIMEOUT`
unfoldable pub is_timeout : Code → Bool
is_timeout kv_timeout = true
is_timeout _ = false

module _ (sockets : Sockets) where
  open sockets use {Sock, World}

  -- the members of `Network`
  pub record Net : Type 0 where
    pub peer : Option Sock
    pub server : Option Sock
    pub peer_address : Bytes
    pub peer_port : ℕ
    pub port : ℕ

  abbrev pub drop_all : Option Sock → World → World
  drop_all none w = w
  drop_all (some s) w = sockets.drop s w

  -- `Network::close`
  unfoldable pub close : Net × World → Net × World
  close (n, w) = (record n { peer = none; server = none }, drop_all n.server (drop_all n.peer w))

  -- the loop over `accept` until it does not time out
  unfoldable pub accept_loop : ℕ → Sock → World → Option (Code × Sock × World)
  accept_loop zero server w = none
  accept_loop (suc rounds) server w =
      let (rc, client, t) = sockets.accept server w in
      elim (is_timeout rc) [ true ↦ accept_loop rounds server t | false ↦ some (rc, client, t) ]

  -- `initSocket` and then `bind_listen`
  unfoldable pub init_listen : Sock → World → Code × World
  init_listen server w =
      let (rc, t) = sockets.init_socket server w in
      if failed rc then (rc, t) else sockets.bind_listen server t

  -- `Network::initBind`
  unfoldable pub init_bind : Net × World → Code × Net × World
  unfolding init_listen
  init_bind (n, w) =
      let (server, t) = sockets.listen_on n.port (drop_all n.server w) in
      let (rc, u) = init_listen server t in (rc, record n { server = some server }, u)

  -- what stands behind the loop
  unfoldable pub accepted : Net → Code × Sock × World → Code × Net × World
  accepted n (rc, client, w) =
      if failed rc then (rc, n, w) else (rc, record n { peer = some client }, w)

  unfoldable pub accept_on : ℕ → Option Sock → Net → World → Option (Code × Net × World)
  accept_on rounds none n w = some (kv_network_close, n, w)
  accept_on rounds (some server) n w = accept_loop rounds server w >>= λ r. some (accepted n r)

  -- `Network::acceptWithoutCloseBind`
  unfoldable pub accept_without_close_bind : ℕ → Net × World → Option (Code × Net × World)
  accept_without_close_bind rounds (n, w) = accept_on rounds n.server n w

  -- `reaccept` behind `bind_listen`; `server` is closed, and destroyed at the end
  unfoldable pub reaccept_on : ℕ → Sock → Net → Code × World → Option (Code × Net × World)
  reaccept_on rounds server n (rc, w) =
      if failed rc then some (rc, n, sockets.drop server w) else (do
        (rc', client, t) ← accept_loop rounds server w
        (let (rc'', m, u) = accepted n (rc', client, sockets.close server t) in
            some (rc'', m, sockets.drop server u)))

  -- `Network::reaccept`
  unfoldable pub reaccept : ℕ → Net × World → Option (Code × Net × World)
  reaccept rounds (n, w) =
      let (server, t) = sockets.listen_on n.port w in
      reaccept_on rounds server n (init_listen server t)

  unfoldable pub connect_loop : ℕ → Sock → World → Option World
  connect_loop zero sock w = none
  connect_loop (suc rounds) sock w =
      let (rc, t) = sockets.connect sock w in
      elim (failed rc) [ true ↦ connect_loop rounds sock t | false ↦ some t ]

  -- `Network::reconnect`, whose code is that of the last `connect`; the code of `initSocket` is
  -- overwritten
  unfoldable pub reconnect : ℕ → Net × World → Option (Code × Net × World)
  reconnect rounds (n, w) =
      let (sock, t) = sockets.peer_at n.peer_address n.peer_port w in
      connect_loop rounds sock (sockets.init_socket sock t).1 >>= λ u.
      some (kv_ok, record n { peer = some sock }, u)

  unfoldable pub retry :
      (Net × World → Option (Net × World)) → Code × Net × World → Option (Net × World)
  retry next (rc, n, w) = elim (failed rc) [ true ↦ next (n, w) | false ↦ some (n, w) ]

  -- `while (_net.reaccept())`
  unfoldable pub reaccept_loop : ℕ → ℕ → Net × World → Option (Net × World)
  reaccept_loop rounds zero s = none
  reaccept_loop rounds (suc turns) s =
      reaccept rounds s >>= retry (λ t. reaccept_loop rounds turns t)

  -- `Participant::keepAlive`
  unfoldable pub keep_alive : ℕ → Net × World → Option (Net × World)
  keep_alive rounds s = reaccept_loop rounds rounds (close s)

  -- `initBind`, whose code is dropped
  unfoldable pub rebind : Net × World → Net × World
  rebind s = let (rc, m, t) = init_bind s in (m, t)

  -- another `initBind` before the next `acceptWithoutCloseBind`
  unfoldable pub bind_again :
      (Net × World → Option (Net × World)) → Code × Net × World → Option (Net × World)
  bind_again next (rc, n, w) = elim (failed rc) [
    | true ↦ next (rebind (n, w))
    | false ↦ some (n, w)
  ]

  -- `while (_cnet.acceptWithoutCloseBind()) _cnet.initBind();` of `Working` of
  -- Lab3/src/coordinator.cc
  unfoldable pub await_client : ℕ → ℕ → Net × World → Option (Net × World)
  await_client rounds zero s = none
  await_client rounds (suc turns) s =
      accept_without_close_bind rounds s >>= bind_again (λ t. await_client rounds turns t)
