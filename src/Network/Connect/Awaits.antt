-- ===== src/Network/Connect/Awaits.antt =====
-- `Working` of Lab3/src/coordinator.cc comes to a client.
use cloud_computing.Prelude.{
  ℕ, zero, suc, ◌+◌, ◌<◌, ◌≤◌, ◌≡◌, refl, ap, ◌∙◌, true, false, Option, none, some, Bool-cases, inl,
  inr, arith, ◌>>=◌,
}
use cloud_computing.Codes.{Code, kv_network_close, is_ok}
use cloud_computing.Network.{failed}
use cloud_computing.Network.Connect.{
  Sockets, Net, drop_all, init_listen, accepted, init_bind, rebind, accept_on,
  accept_without_close_bind, bind_again, await_client,
}
use cloud_computing.Network.Connect.Ends.{
  FewFailures, drop_all_left, init_listen-Spends, accept_loop_ends, failed-Reaccepted, Reaccepted,
}

module _ (sockets : Sockets) (few : FewFailures sockets) where
  open sockets use {Sock, World}
  open few use {left}

  rebind_lem :
      (n : Net sockets) (w : World)
      → (server : Sock) × (t : World) × (rebind sockets (n, w)
          ≡ (record n { server = some server }, t))
        × (left t ≤ left w)
  unfolding init_bind rebind
  rebind_lem n w =
      let v = drop_all sockets n.server w in
      let (server, t) = sockets.listen_on n.port v in
      let made = few.listen_on_left n.port v in
      let started = init_listen-Spends sockets few server t in
      (
        server,
        (init_listen sockets server t).1,
        refl,
        omega (arith, drop_all_left sockets few n.server w, made, started.no_more),
      )

  accept_on_ends :
      (rounds : ℕ) (server : Sock) (n : Net sockets) (w : World)
      → left w < rounds
      → (r : Code × Net sockets × World) × (accept_on sockets rounds (some server) n w ≡ some r)
        × Reaccepted sockets few n w r
  unfolding accept_on accepted
  accept_on_ends rounds server n w lt =
      let (r, ran, h) = accept_loop_ends sockets few rounds server w lt in
      elim (Bool-cases (failed r.0)) [
        | inl e ↦ (
          (r.0, n, r.2),
          rw (accept_on, ran, e) refl,
          failed-Reaccepted sockets few n w r.2 r.0 e (h.one_less e),
        )
        | inr e ↦ (
          (r.0, record n { peer = some r.1 }, r.2),
          rw (accept_on, ran, e) refl,
          record { spends = h; connected = λ _. (r.1, refl) },
        )
      ]

  bind_done :
      (next : Net sockets × World → Option (Net sockets × World)) (rc : Code) (n : Net sockets)
      (w : World)
      → failed rc ≡ false
      → bind_again sockets next (rc, n, w) ≡ some (n, w)
  unfolding bind_again
  bind_done next rc n w e = rw (bind_again, e) refl

  bind_next :
      (next : Net sockets × World → Option (Net sockets × World)) (rc : Code) (n : Net sockets)
      (w : World)
      → failed rc ≡ true
      → bind_again sockets next (rc, n, w) ≡ next (rebind sockets (n, w))
  unfolding bind_again
  bind_next next rc n w e = rw (bind_again, e) refl

  -- How the wait for a client has ended
  abbrev Awaited : ℕ → ℕ → Net sockets × World → Type 0
  Awaited rounds turns (n, w) =
      (client : Sock) × (m : Net sockets) × (t : World) × (await_client sockets rounds turns (n, w)
        ≡ some (m, t))
      × (m.peer ≡ some client)
      × (left t ≤ left w)

  turn_on :
      (rounds turns : ℕ) (server : Option Sock) (n : Net sockets) (w : World)
      → n.server ≡ server
      → await_client sockets rounds (suc turns) (n, w) ≡ (
          accept_on sockets rounds server n w
          >>= bind_again sockets (λ s. await_client sockets rounds turns s))
  unfolding await_client accept_without_close_bind
  turn_on rounds turns server n w e =
      ap
        (λ o.
          accept_on sockets rounds o n w
          >>= bind_again sockets (λ s. await_client sockets rounds turns s))
        e

  await_client_on :
      (rounds turns : ℕ) (server : Sock) (n : Net sockets) (w : World)
      → n.server ≡ some server
      → left w < rounds
      → left w < turns
      → Awaited rounds turns (n, w)
  await_client_on rounds zero server n w on lt few_turns = absurd (omega arith)
  await_client_on rounds (suc turns) server n w on lt few_turns =
      let (r, ran, h) = accept_on_ends rounds server n w lt in
      let next = λ (s : Net sockets × World). await_client sockets rounds turns s in
      elim (Bool-cases (failed r.0)) [
        | inr e ↦
            let (client, same) = h.connected e in
            (
              client,
              r.1,
              r.2,
              turn_on rounds turns (some server) n w on ∙ rw ran (bind_done next r.0 r.1 r.2 e),
              ap (λ (k : Net sockets). k.peer) same,
              h.spends.no_more,
            )
        | inl e ↦
            let less = h.spends.one_less e in
            let (again, t, bound, le) = rebind_lem r.1 r.2 in
            let (client, m, u, more, connected, cheap) =
              await_client_on rounds turns again (record r.1 { server = some again }) t refl
                (omega (arith, less, le)) (omega (arith, less, le)) in
            (
              client,
              m,
              u,
              turn_on rounds turns (some server) n w on
                  ∙ rw ran (bind_next next r.0 r.1 r.2 e ∙ rw bound more),
              connected,
              omega (arith, less, le, cheap),
            )
      ]

  unbound :
      (rounds turns : ℕ) (n : Net sockets) (w : World)
      → n.server ≡ none
      → left w < rounds
      → left w + 1 < turns
      → Awaited rounds turns (n, w)
  unfolding accept_on failed is_ok
  unbound rounds zero n w off lt few_turns = absurd (omega arith)
  unbound rounds (suc turns) n w off lt few_turns =
      let next = λ (s : Net sockets × World). await_client sockets rounds turns s in
      let (again, t, bound, le) = rebind_lem n w in
      let (client, m, u, more, connected, cheap) =
        await_client_on rounds turns again (record n { server = some again }) t refl
          (omega (arith, le)) (omega (arith, le)) in
      (
        client,
        m,
        u,
        turn_on rounds turns none n w off
            ∙ (bind_next next kv_network_close n w refl ∙ rw bound more),
        connected,
        omega (arith, le, cheap),
      )

  -- The coordinator's wait for a client ends with a connection, also when no port is bound yet: `Working`
  -- binds it and goes on, once no more calls fail or time out than there are rounds.
  pub await_client_ends :
      (rounds turns : ℕ) (n : Net sockets) (w : World)
      → left w < rounds
      → left w + 1 < turns
      → (client : Sock) × (m : Net sockets) × (t : World) × (await_client sockets rounds turns
            (n, w)
          ≡ some (m, t))
        × (m.peer ≡ some client)
        × (left t ≤ left w)
  await_client_ends rounds turns n w lt few_turns = bound n.server refl
    where
      bound : (o : Option Sock) → n.server ≡ o → Awaited rounds turns (n, w)
      bound (some server) on = await_client_on rounds turns server n w on lt (omega arith)
      bound none off = unbound rounds turns n w off lt few_turns
