-- ===== src/HttpServer/Pool.antt =====
-- How the threads of Lab2/httpserverMy.cc share a ring: `main` with `client_process`, and `putMessage`
-- with `output_process`. Both pairs guard their ring by an empty, a full and a mutex semaphore in the
-- order of `Lock`, so the steps are the steps of a `CpLock`; the ring is used between the second wait
-- and the first post.
pub mod Order
pub mod Drain
use cloud_computing.Prelude.{ℕ, ◌≤◌, ◌≡◌, some, List, [], ◌∷◌, ◌++◌}
use cloud_computing.Lock.{CpLock, Quiet, p_released, c_released}
use cloud_computing.Lock
use cloud_computing.HttpServer.Ring.{size, Ring, put_task, get_task, fresh}

-- A run of the threads: the semaphores, the ring, the values that were put, in their order, and the
-- values that were taken, in their order.
pub data Run {A : Type 0} (value : A) : CpLock → Ring A → List A → List A → Type 0 where
  start : Run value (Lock.init size) (fresh value) [] []
  quiet :
      {l m : CpLock} {r : Ring A} {ins outs : List A}
      → Run value l r ins outs
      → Quiet l m
      → Run value m r ins outs
  put :
      (x : A) {l : CpLock} {r s : Ring A} {ins outs : List A}
      → Run value l r ins outs
      → 1 ≤ l.p_inside
      → put_task x r ≡ some s
      → Run value (p_released l) s (ins ++ (x ∷ [])) outs
  take :
      (x : A) {l : CpLock} {r s : Ring A} {ins outs : List A}
      → Run value l r ins outs
      → 1 ≤ l.c_inside
      → get_task r ≡ some (x, s)
      → Run value (c_released l) s ins (outs ++ (x ∷ []))
