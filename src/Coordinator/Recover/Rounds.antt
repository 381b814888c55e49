-- ===== src/Coordinator/Recover/Rounds.antt =====
-- The rounds of `recoveryFromP` of Lab3/src/coordinator.cc: each takes one participant out of those
-- that are recovering or have an entry in `maxTxidTB`, and none comes back.
use cloud_computing.Prelude.{
  ℕ, zero, suc, ◌+◌, ◌-◌, ◌≤◌, ◌≡◌, Bool, true, false, ◌||◌, Option, none, some, List, [], ◌∷◌,
  ◌==◌, if◌then◌else◌,
}
use cloud_computing.Std.Map
use cloud_computing.Std.Map.{Map, map_laws, get-insert}
use cloud_computing.Coordinator.{Coordinator, SendAndRecv}
use cloud_computing.Coordinator.Recover.{get_recovery_leader, pull_logs, follow, recovery_from_c}
use cloud_computing.Coordinator.Recover.Open.{is_open}

-- What is left of a list of participants without one of them
abbrev mem : ℕ → List ℕ → Bool
mem x [] = false
mem x (y ∷ ys) = (x == y) || mem x ys

abbrev remove : ℕ → List ℕ → List ℕ
remove x [] = []
remove x (y ∷ ys) = let rest = remove x ys in if x == y then rest else y ∷ rest

abbrev numbers : ℕ → List ℕ
numbers zero = []
numbers (suc n) = suc n ∷ numbers n

-- The participants that are recovering or have an entry have the numbers 1 to `pnum`.
abbrev pub IsNumbered : Coordinator → Type 0
IsNumbered c = (id : ℕ) → is_open c id ≡ true → (1 ≤ id) × (id ≤ c.pnum)

module _ {W : Type 0} (send_and_recv : SendAndRecv W) where
  -- The inner loop with the leader of the moment
  abbrev pub pull : ℕ → Coordinator × W → Option (ℕ × Coordinator × W)
  pull tid (c, w) =
      pull_logs send_and_recv ((get_recovery_leader c).1 + 1 - tid) (get_recovery_leader c).0 tid
        (follow send_and_recv (get_recovery_leader c).0 c, w)

  -- All participants that are recovering or have an entry are among `ids`.
  abbrev Within : List ℕ → Coordinator → Type 0
  Within ids c = (id : ℕ) → is_open c id ≡ true → mem id ids ≡ true

  -- The `while` loop of `recoveryFromP` without a bound: it ends when there is no leader, or with a
  -- fault.
  pub data LeaderLoop : ℕ → Coordinator × W → Option (Coordinator × W) → Type 0 where
    last :
        {tid : ℕ} {c : Coordinator} {w : W}
        → (get_recovery_leader c).0 == 0 ≡ true
        → LeaderLoop tid (c, w) (recovery_from_c send_and_recv (c, w))
    fault :
        {tid : ℕ} {c : Coordinator} {w : W}
        → (get_recovery_leader c).0 == 0 ≡ false
        → pull tid (c, w) ≡ none
        → LeaderLoop tid (c, w) none
    next :
        {tid later : ℕ} {c d : Coordinator} {w v : W} {r : Option (Coordinator × W)}
        → (get_recovery_leader c).0 == 0 ≡ false
        → pull tid (c, w) ≡ some (later, d, v)
        → LeaderLoop later (d, v) r
        → LeaderLoop tid (c, w) r
