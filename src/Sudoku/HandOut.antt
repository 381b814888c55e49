-- ===== src/Sudoku/HandOut.antt =====
-- `getJob` hands out each puzzle once.
use cloud_computing.Prelude.{
  ℕ, zero, suc, ◌+◌, ◌≤◌, ◌≡◌, refl, sym, subst, ap, true, false, inl, inr, Option, none, some,
  List, [], ◌∷◌, length, arith, leb, ◌==◌, Bool-cases, if◌then◌else◌,
}
use cloud_computing.Sudoku.{Jobs, get_job, Event, add_puzzle, ask_job, hand_out, run}

-- `count` numbers from `start` on
unfoldable pub range : ℕ → ℕ → List ℕ
range start zero = []
range start (suc count) = start ∷ range (start + 1) count

get_job-none : (jobs : Jobs) → leb jobs.total jobs.sid ≡ true → get_job jobs ≡ (none, jobs)
unfolding get_job
get_job-none jobs done = rw done refl

-- the counters when a job was handed out
abbrev taken : Jobs → Jobs
taken jobs = record jobs {
  sid = jobs.sid + 1;
  shutdown = if jobs.sid + 1 == jobs.total then true else jobs.shutdown;
}

get_job-some :
    (jobs : Jobs) → leb jobs.total jobs.sid ≡ false → get_job jobs ≡ (some jobs.sid, taken jobs)
unfolding get_job
get_job-some jobs more = rw more refl

pub record HandedOut (jobs : Jobs) (r : List ℕ × Jobs) : Type 0 where
  pub in_order : r.0 ≡ range jobs.sid (length r.0)
  pub counted : r.1.sid ≡ jobs.sid + length r.0
  pub below : r.1.sid ≤ r.1.total
  pub grown : jobs.total ≤ r.1.total

-- However the reader and the workers interleave, the jobs that are handed out are the next numbers in
-- their order, each once, and only numbers of puzzles that were added.
pub run-HandedOut :
    (events : List Event) (jobs : Jobs) → jobs.sid ≤ jobs.total → HandedOut jobs (run events jobs)
unfolding run range
run-HandedOut [] jobs h = record {
  in_order = refl;
  counted = omega arith;
  below = h;
  grown = omega arith;
}
run-HandedOut (add_puzzle ∷ events) jobs h =
    let k = run-HandedOut events (record jobs { total = jobs.total + 1 }) (omega arith) in
    record {
      in_order = k.in_order;
      counted = k.counted;
      below = k.below;
      grown = omega (arith, k.grown);
    }
run-HandedOut (ask_job ∷ events) jobs h = elim (Bool-cases (leb jobs.total jobs.sid)) [
  | inl done ↦
      subst (λ (x : Option ℕ × Jobs). HandedOut jobs (hand_out x.0 (run events x.1)))
        (sym (get_job-none jobs done)) (run-HandedOut events jobs h)
  | inr more ↦
      let k = run-HandedOut events (taken jobs) (ground arith) in
      subst (λ (x : Option ℕ × Jobs). HandedOut jobs (hand_out x.0 (run events x.1)))
        (sym (get_job-some jobs more))
        (record {
          in_order = ap (λ ids. jobs.sid ∷ ids) k.in_order;
          counted = omega (arith, k.counted);
          below = k.below;
          grown = k.grown;
        })
]
