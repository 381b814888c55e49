-- ===== src/Examples/Puzzles.antt =====
-- The counters and the check of Lab1 at concrete inputs.
use cloud_computing.Prelude.{
  ◌+◌, ◌*◌, ◌/◌, ◌%◌, ◌≡◌, ◌↔◌, Bool, refl, false, true, some, List, [], ◌∷◌, arith,
}
use cloud_computing.Sudoku.{
  Board, Jobs, Event, add_puzzle, ask_job, run, get_job, neighbors_of, solved, is_complete,
}
use cloud_computing.Sudoku.Rules.{Solved, solved_iff}
use cloud_computing.Sudoku.HandOut.{HandedOut, run-HandedOut}

abbrev start : Jobs
start = record { total = 0; sid = 0; shutdown = false }

abbrev events : List Event
events = add_puzzle ∷ ask_job ∷ ask_job ∷ add_puzzle ∷ add_puzzle ∷ ask_job ∷ []

run-HandedOut_example : HandedOut start (run events start)
run-HandedOut_example = run-HandedOut events start (omega arith)

run_runs : run events start ≡ (0 ∷ 1 ∷ [], record { total = 3; sid = 2; shutdown = true })
unfolding run get_job
run_runs = refl

neighbors_runs :
    neighbors_of 0 0
    ≡ some (
        1 ∷ 2 ∷ 3 ∷ 4 ∷ 5 ∷ 6 ∷ 7 ∷ 8 ∷ 9 ∷ 10 ∷ 11 ∷ 18 ∷ 19 ∷ 20 ∷ 27 ∷ 36 ∷ 45 ∷ 54 ∷ 63 ∷ 72
        ∷ [])
unfolding neighbors_of
neighbors_runs = refl

-- a filled board
abbrev board : Board
board cell = ((cell / 9) * 3 + cell / 27 + cell % 9) % 9 + 1

solved_runs : solved board ≡ some true
unfolding solved is_complete
solved_runs = refl

unsolved_runs : solved (λ cell. cell % 9 + 1) ≡ some false
unfolding solved is_complete
unsolved_runs = refl

solved_iff_example : (b : Bool) × (solved board ≡ some b) × ((b ≡ true) ↔ Solved board)
solved_iff_example = solved_iff board (λ cell lt. (omega arith, omega arith))
