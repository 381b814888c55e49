-- ===== src/HttpServer/Ring.antt =====
-- The rings of Lab2/httpserverMy.cc: `putTask` and `getTask` on the accepted connections, `putTaskOut`
-- and `getTaskOut` on the messages that wait for the output thread. A read or a write outside the
-- array is a fault, `none`.
pub mod Fifo
use cloud_computing.Prelude.{
  ℕ, ◌+◌, ◌%◌, Option, none, some, List, Bytes, length, get_elem?, set, ltb, replicate, ◌>>=◌,
  if◌then◌else◌,
}

-- `Size`
abbrev pub size : ℕ
size = 1000

-- `outPutTask`: type 0 sends the file behind the message
pub record OutPutTask : Type 0 where
  pub kind : ℕ
  pub file_path : Bytes
  pub sockfd : ℕ
  pub message : Bytes

-- the array with the indices of the next write and the next read
pub record Ring (A : Type 0) : Type 0 where
  pub slots : List A
  pub sem_fill : ℕ
  pub sem_use : ℕ

module _ {A : Type 0} where
  unfoldable pub put_task : A → Ring A → Option (Ring A)
  put_task value r =
      if ltb r.sem_fill (length r.slots)
      then some (record {
        slots = set r.slots r.sem_fill value;
        sem_fill = (r.sem_fill + 1) % size;
        sem_use = r.sem_use;
      })
      else none

  unfoldable pub get_task : Ring A → Option (A × Ring A)
  get_task r = do
    tmp ← get_elem? r.slots r.sem_use
    some (tmp, record r { sem_use = (r.sem_use + 1) % size })

  -- the ring of the static array
  unfoldable pub fresh : A → Ring A
  fresh value = record { slots = replicate size value; sem_fill = 0; sem_use = 0 }
