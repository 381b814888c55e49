-- ===== src/Network/Connect/Ends.antt =====
-- The loops of Lab3/src/network.cc that wait for a connection end once the calls stop failing.
use cloud_computing.Prelude.{
  ℕ, zero, suc, ◌<◌, ◌≤◌, ◌≡◌, refl, sym, ap, ◌∙◌, true, false, Option, none, some, Bytes,
  Bool-cases, inl, inr, arith,
}
use cloud_computing.Codes.{Code, kv_ok, is_ok}
use cloud_computing.Network.{failed}
use cloud_computing.Network.Connect.{
  Sockets, Net, drop_all, close, is_timeout, accept_loop, init_listen, accepted, reaccept_on,
  reaccept, connect_loop, reconnect, retry, reaccept_loop, keep_alive,
}

-- A call does not add failures, and uses one up when it fails.
pub record Spends (before after : ℕ) (rc : Code) : Type 0 where
  pub no_more : after ≤ before
  pub one_less : failed rc ≡ true → after < before

-- `left` bounds the failures and timeouts that are still to come.
pub record FewFailures (sockets : Sockets) : Type 0 where
  pub left : sockets.World → ℕ
  pub listen_on_left : (port : ℕ) (w : sockets.World) → left (sockets.listen_on port w).1 ≤ left w
  pub peer_at_left :
      (add : Bytes) (port : ℕ) (w : sockets.World) → left (sockets.peer_at add port w).1 ≤ left w
  pub close_left : (s : sockets.Sock) (w : sockets.World) → left (sockets.close s w) ≤ left w
  pub drop_left : (s : sockets.Sock) (w : sockets.World) → left (sockets.drop s w) ≤ left w
  pub init_spends :
      (s : sockets.Sock) (w : sockets.World)
      → Spends (left w) (left (sockets.init_socket s w).1) (sockets.init_socket s w).0
  pub bind_spends :
      (s : sockets.Sock) (w : sockets.World)
      → Spends (left w) (left (sockets.bind_listen s w).1) (sockets.bind_listen s w).0
  pub accept_spends :
      (s : sockets.Sock) (w : sockets.World)
      → Spends (left w) (left (sockets.accept s w).2) (sockets.accept s w).0
  pub connect_spends :
      (s : sockets.Sock) (w : sockets.World)
      → Spends (left w) (left (sockets.connect s w).1) (sockets.connect s w).0

is_timeout-failed : (rc : Code) → is_timeout rc ≡ true → failed rc ≡ true
unfolding is_timeout failed is_ok
is_timeout-failed rc h = ground arith

module _ (sockets : Sockets) (few : FewFailures sockets) where
  open sockets use {Sock, World}
  open few use {left}

  Spends-le : (a b c d : ℕ) (rc : Code) → b ≤ a → d ≤ c → Spends b c rc → Spends a d rc
  Spends-le a b c d rc le less h = record {
    no_more = omega (arith, h.no_more);
    one_less = λ fails. omega (arith, h.one_less fails);
  }

  pub accept_loop_ends :
      (rounds : ℕ) (server : Sock) (w : World)
      → left w < rounds
      → (r : Code × Sock × World) × (accept_loop sockets rounds server w ≡ some r)
        × Spends (left w) (left r.2) r.0
  unfolding accept_loop
  accept_loop_ends zero server w lt = absurd (omega arith)
  accept_loop_ends (suc rounds) server w lt =
      let r = sockets.accept server w in
      let spends = few.accept_spends server w in
      elim (Bool-cases (is_timeout r.0)) [
        | inr e ↦ (r, rw (accept_loop, e) refl, spends)
        | inl e ↦
            let less = spends.one_less (is_timeout-failed r.0 e) in
            let (q, ran, later) = accept_loop_ends rounds server r.2 (omega (arith, less)) in
            (
              q,
              rw (accept_loop, e) ran,
              record {
                no_more = omega (arith, less, later.no_more);
                one_less = λ fails. omega (arith, less, later.no_more);
              },
            )
      ]

  connect_loop_ends :
      (rounds : ℕ) (sock : Sock) (w : World)
      → left w < rounds
      → (t : World) × (connect_loop sockets rounds sock w ≡ some t) × (left t ≤ left w)
  unfolding connect_loop
  connect_loop_ends zero sock w lt = absurd (omega arith)
  connect_loop_ends (suc rounds) sock w lt =
      let r = sockets.connect sock w in
      let spends = few.connect_spends sock w in
      elim (Bool-cases (failed r.0)) [
        | inr e ↦ (r.1, rw (connect_loop, e) refl, spends.no_more)
        | inl e ↦
            let less = spends.one_less e in
            let (t, ran, later) = connect_loop_ends rounds sock r.1 (omega (arith, less)) in
            (t, rw (connect_loop, e) ran, omega (arith, less, later))
      ]

  -- The coordinator's `reconnect` ends with a socket to the participant, once no more calls fail than
  -- there are rounds.
  pub reconnect_ends :
      (rounds : ℕ) (n : Net sockets) (w : World)
      → left w < rounds
      → (sock : Sock) × (t : World) × (reconnect sockets rounds (n, w)
          ≡ some (kv_ok, record n { peer = some sock }, t))
        × (left t ≤ left w)
  unfolding reconnect
  reconnect_ends rounds n w lt =
      let (sock, v) = sockets.peer_at n.peer_address n.peer_port w in
      let made = few.peer_at_left n.peer_address n.peer_port w in
      let started = few.init_spends sock v in
      let (t, ran, later) =
        connect_loop_ends rounds sock (sockets.init_socket sock v).1
          (omega (arith, made, started.no_more)) in
      (sock, t, rw ran refl, omega (arith, made, started.no_more, later))

  pub init_listen-Spends :
      (s : Sock) (w : World)
      → Spends (left w) (left (init_listen sockets s w).1) (init_listen sockets s w).0
  unfolding init_listen
  init_listen-Spends s w =
      let started = few.init_spends s w in
      let (rc, t) = sockets.init_socket s w in
      elim (Bool-cases (failed rc)) [
        | inl e ↦ rw (init_listen, e) started
        | inr e ↦
            rw (init_listen, e)
              (Spends-le (left w) (left t) _ _ _ started.no_more (omega arith)
                (few.bind_spends s t))
      ]

  -- What `reaccept` comes to: without a failure there is a connection.
  pub record Reaccepted (n : Net sockets) (w : World) (r : Code × Net sockets × World)
      : Type 0 where
    pub spends : Spends (left w) (left r.2) r.0
    pub connected : failed r.0 ≡ false → (client : Sock) × (r.1 ≡ record n { peer = some client })

  pub failed-Reaccepted :
      (n : Net sockets) (v t : World) (rc : Code)
      → failed rc ≡ true
      → left t < left v
      → Reaccepted n v (rc, n, t)
  failed-Reaccepted n v t rc bad less = record {
    spends = record { no_more = omega arith; one_less = λ _. less };
    connected = λ fine. let both : true ≡ false = sym bad ∙ fine in absurd cc;
  }

  reaccept_on_ends :
      (rounds : ℕ) (server : Sock) (n : Net sockets) (v w : World) (rc : Code)
      → left v < rounds
      → Spends (left v) (left w) rc
      → (r : Code × Net sockets × World) × (reaccept_on sockets rounds server n (rc, w) ≡ some r)
        × Reaccepted n v r
  unfolding reaccept_on accepted
  reaccept_on_ends rounds server n v w rc lt spends = elim (Bool-cases (failed rc)) [
    | inl e ↦ (
      (rc, n, sockets.drop server w),
      rw (reaccept_on, e) refl,
      failed-Reaccepted n v (sockets.drop server w) rc e
          (omega (arith, spends.one_less e, few.drop_left server w)),
    )
    | inr e ↦
        let (r, ran, later) = accept_loop_ends rounds server w (omega (arith, spends.no_more)) in
        let t = sockets.drop server (sockets.close server r.2) in
        let cheap : left t ≤ left r.2 =
          omega
            (arith, few.drop_left server (sockets.close server r.2), few.close_left server r.2) in
        elim (Bool-cases (failed r.0)) [
          | inl f ↦ (
            (r.0, n, t),
            rw (reaccept_on, e, ran, f) refl,
            failed-Reaccepted n v t r.0 f (omega (arith, spends.no_more, later.one_less f, cheap)),
          )
          | inr f ↦ (
            (r.0, record n { peer = some r.1 }, t),
            rw (reaccept_on, e, ran, f) refl,
            record {
              spends =
                  Spends-le (left v) (left w) (left r.2) (left t) r.0 spends.no_more cheap later;
              connected = λ _. (r.1, refl);
            },
          )
        ]
  ]

  reaccept_ends :
      (rounds : ℕ) (n : Net sockets) (w : World)
      → left w < rounds
      → (r : Code × Net sockets × World) × (reaccept sockets rounds (n, w) ≡ some r)
        × Reaccepted n w r
  unfolding reaccept
  reaccept_ends rounds n w lt =
      let (server, t) = sockets.listen_on n.port w in
      let made = few.listen_on_left n.port w in
      let (rc, u) = init_listen sockets server t in
      let (r, ran, h) =
        reaccept_on_ends rounds server n t u rc (omega (arith, made))
          (init_listen-Spends server t) in
      (
        r,
        ran,
        record {
          spends =
              Spends-le (left w) (left t) (left r.2) (left r.2) r.0 made (omega arith) h.spends;
          connected = h.connected;
        },
      )

  retry_again :
      (next : Net sockets × World → Option (Net sockets × World)) (rc : Code) (n : Net sockets)
      (w : World)
      → failed rc ≡ true
      → retry sockets next (rc, n, w) ≡ next (n, w)
  unfolding retry
  retry_again next rc n w e = rw (retry, e) refl

  retry_done :
      (next : Net sockets × World → Option (Net sockets × World)) (rc : Code) (n : Net sockets)
      (w : World)
      → failed rc ≡ false
      → retry sockets next (rc, n, w) ≡ some (n, w)
  unfolding retry
  retry_done next rc n w e = rw (retry, e) refl

  reaccept_loop_ends :
      (rounds turns : ℕ) (n : Net sockets) (w : World)
      → left w < rounds
      → left w < turns
      → (client : Sock) × (m : Net sockets) × (t : World) × (reaccept_loop sockets rounds turns
            (n, w)
          ≡ some (m, t))
        × (m.peer ≡ some client)
        × (left t ≤ left w)
  unfolding reaccept_loop
  reaccept_loop_ends rounds zero n w lt few_turns = absurd (omega arith)
  reaccept_loop_ends rounds (suc turns) n w lt few_turns =
      let (r, ran, h) = reaccept_ends rounds n w lt in
      elim (Bool-cases (failed r.0)) [
        | inl e ↦
            let less = h.spends.one_less e in
            let (client, m, t, more, connected, le) =
              reaccept_loop_ends rounds turns r.1 r.2 (omega (arith, less)) (omega (arith, less)) in
            (
              client,
              m,
              t,
              rw (reaccept_loop, ran)
                  (retry_again (λ s. reaccept_loop sockets rounds turns s) r.0 r.1 r.2 e ∙ more),
              connected,
              omega (arith, less, le),
            )
        | inr e ↦
            let (client, same) = h.connected e in
            (
              client,
              r.1,
              r.2,
              rw (reaccept_loop, ran)
                  (retry_done (λ s. reaccept_loop sockets rounds turns s) r.0 r.1 r.2 e),
              ap (λ (k : Net sockets). k.peer) same,
              h.spends.no_more,
            )
      ]

  pub drop_all_left : (s : Option Sock) (w : World) → left (drop_all sockets s w) ≤ left w
  drop_all_left none w = omega arith
  drop_all_left (some s) w = few.drop_left s w

  -- The participant's `keepAlive` ends with a connection to the coordinator, once no more calls fail or
  -- time out than there are rounds.
  pub keep_alive_ends :
      (rounds : ℕ) (n : Net sockets) (w : World)
      → left w < rounds
      → (client : Sock) × (m : Net sockets) × (t : World) × (keep_alive sockets rounds (n, w)
          ≡ some (m, t))
        × (m.peer ≡ some client)
        × (left t ≤ left w)
  unfolding keep_alive close
  keep_alive_ends rounds n w lt =
      let v = drop_all sockets n.server (drop_all sockets n.peer w) in
      let cheap : left v ≤ left w =
        omega (arith, drop_all_left n.server (drop_all sockets n.peer w), drop_all_left n.peer w) in
      let (client, m, t, ran, connected, le) =
        reaccept_loop_ends rounds rounds (close sockets (n, w)).0 v (omega (arith, cheap))
          (omega (arith, cheap)) in
      (client, m, t, ran, connected, omega (arith, le, cheap))
