-- ===== src/System/Collect.antt =====
-- What the coordinator reads off the results of a round.
use cloud_computing.Prelude.{
  ℕ, suc, ◌≤◌, ◌≡◌, refl, Bool, true, false, ◌⊎◌, Bytes, arith, for_ids_inv, Bool-cases, inl, inr,
  ==_iff, ◌==◌,
}
use cloud_computing.Parser.{get_error_message}
use cloud_computing.Coordinator.{Coordinator}
use cloud_computing.Coordinator.Update.{applied, acknowledged, collect_commits}

-- Some participant among the first `n` applied the event, and its reply is the result; or none did.
abbrev pub Collected : Coordinator → ℕ → Bool × Bytes → Type 0
Collected c n r =
    ((r.0 ≡ true)
      × ((id : ℕ) × (1 ≤ id) × (id ≤ n) × (applied c id ≡ true) × (r.1 ≡ c.pworking_data_ret id)))
    ⊎ ((r.0 ≡ false) × ((id : ℕ) → 1 ≤ id → id ≤ n → applied c id ≡ false))

nobody_else :
    (c : Coordinator) (n id : ℕ)
    → 1 ≤ id
    → id ≤ suc n
    → ((j : ℕ) → 1 ≤ j → j ≤ n → applied c j ≡ false)
    → applied c (suc n) ≡ false
    → applied c id ≡ false
nobody_else c n id lo hi nobody e = elim (Bool-cases (id == suc n)) [
  | inl last ↦ rw ((==_iff id (suc n)).0 last) e
  | inr other ↦ nobody id lo (ground arith)
]

Collected-next :
    (c : Coordinator) (n : ℕ) (r : Bool × Bytes)
    → Collected c n r
    → Collected c (suc n) (acknowledged c (suc n) r)
Collected-next c n r h = elim (Bool-cases (applied c (suc n))) [
  | inl e ↦ rw e (inl (refl, (suc n, omega arith, omega arith, e, refl)))
  | inr e ↦ rw e (elim h [
    | inl (commit, (id, lo, hi, was, reply)) ↦ inl (commit, (id, lo, omega arith, was, reply))
    | inr (commit, nobody) ↦ inr (commit, λ id lo hi. nobody_else c n id lo hi nobody e)
  ])
]

pub collect_commits-Collected : (c : Coordinator) → Collected c c.pnum (collect_commits c)
unfolding collect_commits
collect_commits-Collected c =
    for_ids_inv (λ n r. Collected c n r) (acknowledged c) c.pnum (false, get_error_message)
      (λ i r lt. Collected-next c i r) (inr (refl, λ id lo hi. absurd (omega arith)))
