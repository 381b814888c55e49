-- ===== src/Examples/Locks.antt =====
-- A producer that is inside.
use cloud_computing.Prelude.{arith}
use cloud_computing.Lock.{CpLock, init, quiet, p_get_empty, p_get_mutex, Reachable, start, step}
use cloud_computing.Lock.Exclusion.{IsExclusive, Reachable-IsExclusive}

abbrev inside : CpLock
inside = record (init 1) { empty = 0; mutex = 0; p_inside = 1 }

inside-Reachable : Reachable 1 inside
inside-Reachable =
    step (step start (quiet (p_get_empty (omega arith))))
      (quiet (p_get_mutex (omega arith) (omega arith)))

Reachable-IsExclusive_example : IsExclusive 1 inside
Reachable-IsExclusive_example = Reachable-IsExclusive 1 inside inside-Reachable
