-- ===== src/Examples/Pools.antt =====
-- A connection that is put into the ring and taken out.
use cloud_computing.Prelude.{ℕ, ◌≤◌, ◌≡◌, some, List, length, ◌++◌, [], ◌∷◌, arith}
use cloud_computing.Lock
use cloud_computing.Lock.{
  CpLock, p_get_empty, p_get_mutex, p_release_full, c_get_full, c_get_mutex, p_released, c_released,
}
use cloud_computing.HttpServer.Ring.{Ring, put_task, get_task, fresh, size}
use cloud_computing.HttpServer.Ring.Fifo.{Holds, Holds-fresh, put_task-Holds, get_task-Holds}
use cloud_computing.HttpServer.Pool
use cloud_computing.HttpServer.Pool.{Run, start, put, take}
use cloud_computing.HttpServer.Pool.Drain.{Onward, Run-drains}
use cloud_computing.HttpServer.Pool.Order.{InOrder, Run-InOrder}

abbrev no_fd : ℕ
no_fd = 0

abbrev fd : ℕ
fd = 7

abbrev filling : CpLock
filling = record (Lock.init size) { empty = 999; mutex = 0; p_inside = 1 }

filling-Run : Run no_fd filling (fresh no_fd) [] []
filling-Run =
    Pool.quiet (Pool.quiet start (p_get_empty (omega arith)))
      (p_get_mutex (omega arith) (omega arith))

filled : (s : Ring ℕ) × (put_task fd (fresh no_fd) ≡ some s) × Holds s (fd ∷ [])
filled = put_task-Holds fd (fresh no_fd) [] (Holds-fresh no_fd) (omega arith)

abbrev emptying : CpLock
emptying = record (Lock.init size) { empty = 999; mutex = 0; c_inside = 1 }

emptying-Run : Run no_fd emptying filled.0 (fd ∷ []) []
emptying-Run =
    Pool.quiet
      (Pool.quiet
        (Pool.quiet (put fd filling-Run (omega arith) filled.1) (p_release_full (omega arith)))
        (c_get_full (omega arith)))
      (c_get_mutex (omega arith) (omega arith))

emptied : (s : Ring ℕ) × (get_task filled.0 ≡ some (fd, s)) × Holds s []
emptied = get_task-Holds fd filled.0 [] filled.2

Run-InOrder_example : InOrder (c_released emptying) emptied.0 (fd ∷ []) (fd ∷ [])
Run-InOrder_example =
    Run-InOrder no_fd (c_released emptying) emptied.0 (fd ∷ []) (fd ∷ [])
      (take fd emptying-Run (omega arith) emptied.1)

Run-drains_example :
    (m : CpLock) × (s : Ring ℕ) × (more : List ℕ) × (length more ≤ emptying.p_inside)
    × Onward emptying filled.0 (fd ∷ []) [] m s ((fd ∷ []) ++ more) ((fd ∷ []) ++ more)
Run-drains_example = Run-drains no_fd 8 emptying filled.0 (fd ∷ []) [] emptying-Run
