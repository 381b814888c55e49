-- ===== src/Lock/Exclusion.antt =====
-- One thread at a time is inside, and the buffer holds no more than it has room for.
use cloud_computing.Prelude.{ℕ, ◌+◌, ◌≡◌, arith}
use cloud_computing.Lock.{
  CpLock, Quiet, quiet, Step, p_get_empty, p_get_mutex, p_release_mutex, p_release_full, c_get_full,
  c_get_mutex, c_release_mutex, c_release_empty, Reachable, start, step,
}

-- A slot is free, holds a task, or is on its way from one to the other.
abbrev pub producing : CpLock → ℕ
producing l = l.p_getting + l.p_inside + l.p_releasing

abbrev pub consuming : CpLock → ℕ
consuming l = l.c_getting + l.c_inside + l.c_releasing

pub record IsExclusive (len : ℕ) (l : CpLock) : Type 0 where
  pub one : l.mutex + l.p_inside + l.c_inside ≡ 1
  pub slots : l.empty + producing l + l.full + consuming l ≡ len

Quiet-IsExclusive : (len : ℕ) (l m : CpLock) → IsExclusive len l → Quiet l m → IsExclusive len m
Quiet-IsExclusive len l _ s (p_get_empty a) = record {
  one = omega (arith, s.one);
  slots = omega (arith, s.slots);
}
Quiet-IsExclusive len l _ s (p_get_mutex a b) = record {
  one = omega (arith, s.one);
  slots = omega (arith, s.slots);
}
Quiet-IsExclusive len l _ s (p_release_full a) = record {
  one = omega (arith, s.one);
  slots = omega (arith, s.slots);
}
Quiet-IsExclusive len l _ s (c_get_full a) = record {
  one = omega (arith, s.one);
  slots = omega (arith, s.slots);
}
Quiet-IsExclusive len l _ s (c_get_mutex a b) = record {
  one = omega (arith, s.one);
  slots = omega (arith, s.slots);
}
Quiet-IsExclusive len l _ s (c_release_empty a) = record {
  one = omega (arith, s.one);
  slots = omega (arith, s.slots);
}

pub Step-IsExclusive : (len : ℕ) (l m : CpLock) → IsExclusive len l → Step l m → IsExclusive len m
Step-IsExclusive len l m s (quiet q) = Quiet-IsExclusive len l m s q
Step-IsExclusive len l _ s (p_release_mutex a) = record {
  one = omega (arith, s.one);
  slots = omega (arith, s.slots);
}
Step-IsExclusive len l _ s (c_release_mutex a) = record {
  one = omega (arith, s.one);
  slots = omega (arith, s.slots);
}

-- In every reachable state the mutex is free or exactly one thread is inside, and each of the `len`
-- slots is free, taken by a producer, full, or taken by a consumer.
pub Reachable-IsExclusive : (len : ℕ) (l : CpLock) → Reachable len l → IsExclusive len l
Reachable-IsExclusive len _ start = record { one = omega arith; slots = omega arith }
Reachable-IsExclusive len m (step {l} r s) =
    Step-IsExclusive len l m (Reachable-IsExclusive len l r) s
