-- ===== src/Participant/Durable.antt =====
-- The store of a participant is what its log replays to.
use cloud_computing.Prelude.{
  ◌≢◌, ◌^◌, All, some_inj, ℕ, zero, suc, ◌+◌, ◌^◌, ◌≤◌, ◌<◌, ◌≡◌, ◌≢◌, refl, sym, ap, ◌∙◌, false,
  Option, none, some, List, [], ◌∷◌, Bytes, length, arith, ◌==◌, ==_iff, Bool-cases, inl, inr,
  ◌>>=◌,
}
use cloud_computing.Std.Number.{long_max}
use cloud_computing.Logger.RoundTrip.{str_to_log-log_to_str}
use cloud_computing.Phmap.{HashMap}
use cloud_computing.Std.Map
use cloud_computing.Std.Map.{get-insert}
use cloud_computing.Logger.{
  super_txid, log_to_str, next_txid, Log, Logger, u64, txid_start, super_txid, log_commit,
  str_to_log, write_log, get_log_by_txid,
}
use cloud_computing.Participant.{Participant, event_parser, handle, p_worker, init, serve, serve}
use cloud_computing.Participant.Events.{IsSafe}
use cloud_computing.Participant.Change.{Change, kept, advanced, handle-Change}

module _ (h : HashMap) where
  open h use {Table, empty}

  -- The store after the events of the first `n` transactions of a log.
  unfoldable pub replay : Logger → ℕ → Option Table
  replay lg zero = some empty
  replay lg (suc n) = do
    kvdb ← replay lg n
    l ← get_log_by_txid lg (txid_start + n)
    (_, rest) ← event_parser h kvdb l.event
    some rest

  pub record IsDurable (p : Participant h) : Type 0 where
    -- how many transactions are committed
    pub count : ℕ
    pub counted : p.txid ≡ txid_start + count
    pub entries :
        (t : ℕ)
        → txid_start ≤ t
        → t < p.txid
        → (l : Log) × (Map.get t p.lg ≡ some l) × (l.id ≡ t) × (l.state ≡ log_commit)
    pub replayed : replay p.lg count ≡ some p.kvdb

  -- A replay reads only the entries that it counts.
  pub replay_local :
      (lg lg' : Logger) (n : ℕ)
      → ((t : ℕ) → txid_start ≤ t → t < txid_start + n → Map.get t lg ≡ Map.get t lg')
      → replay lg n ≡ replay lg' n
  unfolding replay get_log_by_txid
  replay_local lg lg' zero same = refl
  replay_local lg lg' (suc n) same = rw (
    replay_local lg lg' n (λ t lo hi. same t lo (omega arith)),
    same (txid_start + n) (omega arith) (omega arith),
  )

  pub get-write_log-lt :
      (lg : Logger) (l : Log) (t : ℕ) → t < l.id → Map.get t (write_log lg l) ≡ Map.get t lg
  unfolding write_log
  get-write_log-lt lg l t lt = rw (get-insert l.id t l lg) (ground arith)

  pub get-write_log_self :
      (lg : Logger) (l : Log) (t : ℕ) → t ≡ l.id → Map.get t (write_log lg l) ≡ some l
  unfolding write_log
  get-write_log_self lg l t e = rw (get-insert l.id t l lg) (ground arith)

  replay-write_log :
      (lg : Logger) (l : Log) (n : ℕ) (kvdb : Table) {rc : Bytes} {kvdb' : Table}
      → replay lg n ≡ some kvdb
      → l.id ≡ txid_start + n
      → event_parser h kvdb l.event ≡ some (rc, kvdb')
      → replay (write_log lg l) (suc n) ≡ some kvdb'
  unfolding replay get_log_by_txid
  replay-write_log lg l n kvdb before at step = rw (
    replay_local (write_log lg l) lg n (λ t lo hi. get-write_log-lt lg l t (omega arith)),
    before,
    get-write_log_self lg l (txid_start + n) (sym at),
    step,
  )

  below_txid : (txid t id : ℕ) → id ≡ txid → t < next_txid txid → (t == id) ≡ false → t < txid
  unfolding next_txid
  below_txid txid t id at hi e = ground arith

  commit-IsDurable :
      (p : Participant h) (l : Log) (rc : Bytes) (kvdb' : Table)
      → IsDurable p
      → p.txid + 1 < u64
      → l.id ≡ p.txid
      → l.state ≡ log_commit
      → event_parser h p.kvdb l.event ≡ some (rc, kvdb')
      → IsDurable (record { txid = next_txid p.txid; lg = write_log p.lg l; kvdb = kvdb' })
  unfolding next_txid
  commit-IsDurable p l rc kvdb' d room at state step = record {
    count = suc d.count;
    counted = omega (arith, d.counted);
    entries = λ t lo hi. elim (Bool-cases (t == l.id)) [
      | inl e ↦
          (l, get-write_log_self p.lg l t ((==_iff t l.id).0 e), sym ((==_iff t l.id).0 e), state)
      | inr e ↦
          let (x, found, numbered, done) = d.entries t lo (below_txid p.txid t l.id at hi e) in
          (
            x,
            get-write_log-lt p.lg l t (rw at (below_txid p.txid t l.id at hi e)) ∙ found,
            numbered,
            done,
          )
    ];
    replayed = replay-write_log p.lg l d.count p.kvdb d.replayed (at ∙ d.counted) step;
  }

  pub Change-IsDurable :
      (p : Participant h) (l : Log) (rc : Bytes) (p' : Participant h)
      → IsDurable p
      → p.txid + 1 < u64
      → Change h p l rc p'
      → IsDurable p'
  Change-IsDurable p l rc p' d room (kept e) = rw e d
  Change-IsDurable p l rc p' d room (advanced kvdb at state ran done e) =
      rw e (commit-IsDurable p l rc kvdb d room at state ran)

  pub IsDurable-init : IsDurable (init h)
  unfolding init replay
  IsDurable-init = record {
    count = 0;
    counted = refl;
    entries = λ t lo hi. absurd (omega arith);
    replayed = refl;
  }

  answered :
      (p : Participant h) (task : Bytes) (o : Option Log) (r : Bytes × Participant h)
      → str_to_log task ≡ o
      → p_worker h p task ≡ some r
      → (l : Log) × (o ≡ some l) × (handle h p l ≡ some r)
  unfolding p_worker
  answered p task none r parsed e = let stuck : none ≡ some r = rw parsed at e in cc
  answered p task (some l) r parsed e = (l, refl, rw parsed at e)

  -- A request without a number must be a command that only reads, as the coordinator sends it.
  abbrev pub IsSafeTask : Bytes → Type 0
  IsSafeTask task = (l : Log) → str_to_log task ≡ some l → IsSafe l

  -- A request with a number is safe.
  pub numbered-IsSafeTask :
      (l : Log)
      → l.id ≢ super_txid
      → l.id ≤ long_max
      → l.state < 2 ^ 8
      → length l.event < 2 ^ 63
      → IsSafeTask (log_to_str l)
  numbered-IsSafeTask l numbered id state event l' parsed at =
      let same : l ≡ l' = some_inj (sym (str_to_log-log_to_str l id state event) ∙ parsed) in
      absurd (numbered (ap (λ (x : Log). x.id) same ∙ at))

  p_worker-Change :
      (p p' : Participant h) (task rc : Bytes)
      → IsSafeTask task
      → p_worker h p task ≡ some (rc, p')
      → (l : Log) × Change h p l rc p'
  p_worker-Change p p' task rc safe e =
      let (l, parsed, handled) = answered p task (str_to_log task) (rc, p') refl e in
      (l, handle-Change h p l rc p' (safe l parsed) handled)

  -- Every answered request keeps the store equal to the replay of the log.
  pub p_worker-IsDurable :
      (p p' : Participant h) (task rc : Bytes)
      → IsDurable p
      → p.txid + 1 < u64
      → IsSafeTask task
      → p_worker h p task ≡ some (rc, p')
      → IsDurable p'
  p_worker-IsDurable p p' task rc d room safe e =
      let (l, changes) = p_worker-Change p p' task rc safe e in
      Change-IsDurable p l rc p' d room changes

  pub same_log_same_store :
      (p q : Participant h)
      → IsDurable p
      → IsDurable q
      → p.txid ≡ q.txid
      → ((t : ℕ) → txid_start ≤ t → t < p.txid → Map.get t p.lg ≡ Map.get t q.lg)
      → p.kvdb ≡ q.kvdb
  same_log_same_store p q dp dq e same =
      let local : replay p.lg dp.count ≡ replay q.lg dp.count =
        replay_local p.lg q.lg dp.count (λ t lo hi. same t lo (omega (arith, dp.counted))) in
      let counts : dp.count ≡ dq.count = omega (arith, dp.counted, dq.counted) in
      some_inj (cc (local, dp.replayed, dq.replayed, ap (replay q.lg) counts))

  Change-txid-le :
      (p : Participant h) (l : Log) (rc : Bytes) (p' : Participant h)
      → Change h p l rc p'
      → p'.txid ≤ p.txid + 1
  unfolding next_txid
  Change-txid-le p l rc p' (kept e) = rw e (omega arith)
  Change-txid-le p l rc p' (advanced kvdb at state ran done e) = rw e (omega arith)

  served :
      (p p' : Participant h) (task : Bytes) (tasks : List Bytes)
      (o : Option (Bytes × Participant h))
      → p_worker h p task ≡ o
      → serve h p (task ∷ tasks) ≡ some p'
      → (rc : Bytes) × (q : Participant h) × (o ≡ some (rc, q)) × (serve h q tasks ≡ some p')
  unfolding serve
  served p p' task tasks none answer e = let stuck : none ≡ some p' = rw answer at e in cc
  served p p' task tasks (some (rc, q)) answer e = (rc, q, refl, rw answer at e)

  serve_from :
      (tasks : List Bytes) (p p' : Participant h)
      → IsDurable p
      → p.txid + length tasks < u64
      → All IsSafeTask tasks
      → serve h p tasks ≡ some p'
      → IsDurable p'
  unfolding serve
  serve_from [] p p' d room safe e = let same : p ≡ p' = some_inj e in rw (← same) d
  serve_from (task ∷ tasks) p p' d room (safe, rest) e =
      let (rc, q, answer, later) = served p p' task tasks (p_worker h p task) refl e in
      let (l, changes) = p_worker-Change p q task rc safe answer in
      serve_from tasks q p' (Change-IsDurable p l rc q d (omega arith) changes)
        (omega (arith, Change-txid-le p l rc q changes)) rest later

  -- A participant that has answered requests since its start, fewer than transactions have numbers,
  -- has a store that is the replay of its log, which has an entry with the right number and the state
  -- of a commit for each transaction. Every request must be safe: one whose number is that of a direct
  -- read, 0, carries no SET and no DEL, which would change the store without a log entry.
  pub serve-IsDurable :
      (tasks : List Bytes) (p : Participant h)
      → txid_start + length tasks < u64
      → All IsSafeTask tasks
      → serve h (init h) tasks ≡ some p
      → IsDurable p
  serve-IsDurable tasks p room safe e =
      serve_from tasks (init h) p IsDurable-init (unfold init in room) safe e
