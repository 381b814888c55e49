-- ===== src/Lock.antt =====
-- `cpLock` of Lab3/src/include/lock.hpp: the buffer of one task between a producer and a consumer. The
-- state holds the three semaphores and how many threads stand at each place of `pGet`, `pRelease`,
-- `cGet` and `cRelease`; a step is one `sem_wait` or `sem_post`.
pub mod Exclusion
use cloud_computing.Prelude.{ℕ, ◌+◌, ◌-◌, ◌≤◌}

pub record CpLock : Type 0 where
  pub empty : ℕ
  pub full : ℕ
  pub mutex : ℕ
  -- producers between the waits of `pGet`, behind it, and between the posts of `pRelease`
  pub p_getting : ℕ
  pub p_inside : ℕ
  pub p_releasing : ℕ
  -- consumers likewise
  pub c_getting : ℕ
  pub c_inside : ℕ
  pub c_releasing : ℕ

abbrev pub init : ℕ → CpLock
init len = record {
  empty = len;
  full = 0;
  mutex = 1;
  p_getting = 0;
  p_inside = 0;
  p_releasing = 0;
  c_getting = 0;
  c_inside = 0;
  c_releasing = 0;
}

-- the first post of `pRelease` and of `cRelease`
abbrev pub p_released : CpLock → CpLock
p_released l = record l {
  mutex = l.mutex + 1;
  p_inside = l.p_inside - 1;
  p_releasing = l.p_releasing + 1;
}

abbrev pub c_released : CpLock → CpLock
c_released l = record l {
  mutex = l.mutex + 1;
  c_inside = l.c_inside - 1;
  c_releasing = l.c_releasing + 1;
}

-- The waits and the second posts, which stand outside the use of the buffer.
pub data Quiet (l : CpLock) : CpLock → Type 0 where
  p_get_empty :
      1 ≤ l.empty → Quiet l (record l { empty = l.empty - 1; p_getting = l.p_getting + 1 })
  p_get_mutex :
      1 ≤ l.p_getting
      → 1 ≤ l.mutex
      → Quiet l
          (record l { mutex = l.mutex - 1; p_getting = l.p_getting - 1; p_inside = l.p_inside + 1 })
  p_release_full :
      1 ≤ l.p_releasing → Quiet l (record l { p_releasing = l.p_releasing - 1; full = l.full + 1 })
  c_get_full : 1 ≤ l.full → Quiet l (record l { full = l.full - 1; c_getting = l.c_getting + 1 })
  c_get_mutex :
      1 ≤ l.c_getting
      → 1 ≤ l.mutex
      → Quiet l
          (record l { mutex = l.mutex - 1; c_getting = l.c_getting - 1; c_inside = l.c_inside + 1 })
  c_release_empty :
      1 ≤ l.c_releasing
      → Quiet l (record l { c_releasing = l.c_releasing - 1; empty = l.empty + 1 })

pub data Step (l : CpLock) : CpLock → Type 0 where
  quiet : {m : CpLock} → Quiet l m → Step l m
  p_release_mutex : 1 ≤ l.p_inside → Step l (p_released l)
  c_release_mutex : 1 ≤ l.c_inside → Step l (c_released l)

pub data Reachable (len : ℕ) : CpLock → Type 0 where
  start : Reachable len (init len)
  step : {l m : CpLock} → Reachable len l → Step l m → Reachable len m
