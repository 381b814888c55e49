-- ===== src/HttpServer/Pool/Order.antt =====
-- Values leave the ring in the order in which they were put, and no thread finds the ring full or empty.
use cloud_computing.Prelude.{
  ℕ, ◌+◌, ◌≤◌, ◌≡◌, refl, sym, ◌∙◌, ap, subst, some, List, [], ◌∷◌, ◌++◌, length, append_assoc,
  length-append, some_inj, arith,
}
use cloud_computing.Lock.{
  CpLock, Quiet, p_get_empty, p_get_mutex, p_release_full, c_get_full, c_get_mutex, c_release_empty,
  p_released, c_released, quiet, p_release_mutex, c_release_mutex,
}
use cloud_computing.Lock.Exclusion.{IsExclusive, Step-IsExclusive}
use cloud_computing.HttpServer.Ring.{size, Ring, put_task, get_task}
use cloud_computing.HttpServer.Ring.Fifo.{Holds, Holds-fresh, put_task-Holds, get_task-Holds}
use cloud_computing.HttpServer.Pool.{Run, start, put, take}
use cloud_computing.HttpServer.Pool

-- How many values the semaphores say are in the ring.
abbrev pub held : CpLock → ℕ
held l = l.p_releasing + l.full + l.c_getting + l.c_inside

held-Quiet : (l m : CpLock) → Quiet l m → held m ≡ held l
held-Quiet l _ (p_get_empty a) = refl
held-Quiet l _ (p_get_mutex a b) = refl
held-Quiet l _ (p_release_full a) = omega arith
held-Quiet l _ (c_get_full a) = omega arith
held-Quiet l _ (c_get_mutex a b) = omega arith
held-Quiet l _ (c_release_empty a) = refl

module _ {A : Type 0} where
  pub record InOrder (l : CpLock) (r : Ring A) (ins outs : List A) : Type 0 where
    pub exclusive : IsExclusive size l
    pub waiting : List A
    pub holds : Holds r waiting
    pub counted : length waiting ≡ held l
    -- what was put is what was taken and then what waits
    pub in_order : ins ≡ outs ++ waiting

  -- A value is put.
  put-InOrder :
      (l : CpLock) (r s : Ring A) (ins outs : List A) (x : A)
      → InOrder l r ins outs
      → 1 ≤ l.p_inside
      → put_task x r ≡ some s
      → InOrder (p_released l) s (ins ++ (x ∷ [])) outs
  put-InOrder l r s ins outs x k inside done =
      let (t, wrote, holds) =
        put_task-Holds x r k.waiting k.holds (omega (arith, k.counted, k.exclusive.slots)) in
      record {
        exclusive = Step-IsExclusive size l (p_released l) k.exclusive (p_release_mutex inside);
        waiting = k.waiting ++ (x ∷ []);
        holds = subst (λ z. Holds z (k.waiting ++ (x ∷ []))) (some_inj (sym wrote ∙ done)) holds;
        counted = omega (arith, length-append k.waiting (x ∷ []), k.counted);
        in_order = ap (λ z. z ++ (x ∷ [])) k.in_order ∙ append_assoc outs k.waiting (x ∷ []);
      }

  take-waiting :
      (l : CpLock) (r s : Ring A) (ins outs : List A) (x : A) (waiting : List A)
      → IsExclusive size l
      → Holds r waiting
      → length waiting ≡ held l
      → ins ≡ outs ++ waiting
      → 1 ≤ l.c_inside
      → get_task r ≡ some (x, s)
      → InOrder (c_released l) s ins (outs ++ (x ∷ []))
  take-waiting l r s ins outs x [] e holds counted order inside done = absurd (omega arith)
  take-waiting l r s ins outs x (y ∷ waiting) e holds counted order inside done =
      let (t, read, rest) = get_task-Holds y r waiting holds in
      let same : ◌≡◌ {A = A × Ring A} (y, t) (x, s) = some_inj (sym read ∙ done) in
      record {
        exclusive = Step-IsExclusive size l (c_released l) e (c_release_mutex inside);
        waiting = waiting;
        holds = subst (λ z. Holds z waiting) (ap (λ (z : A × Ring A). z.1) same) rest;
        counted = omega (arith, counted);
        in_order =
            order
            ∙ ap (λ z. outs ++ (z ∷ waiting)) (ap (λ (z : A × Ring A). z.0) same)
            ∙ sym (append_assoc outs (x ∷ []) waiting);
      }

  -- However the threads interleave: one at a time uses the ring, the values are taken in the order in
  -- which they were put, none is lost or taken twice, and the ring holds what the semaphores say.
  pub Run-InOrder :
      (value : A) (l : CpLock) (r : Ring A) (ins outs : List A)
      → Run value l r ins outs
      → InOrder l r ins outs
  Run-InOrder value _ _ _ _ start = record {
    exclusive = record { one = omega arith; slots = omega arith };
    waiting = [];
    holds = Holds-fresh value;
    counted = omega arith;
    in_order = refl;
  }
  Run-InOrder value m r ins outs (Pool.quiet {l} run q) =
      let k = Run-InOrder value l r ins outs run in
      record {
        exclusive = Step-IsExclusive size l m k.exclusive (quiet q);
        waiting = k.waiting;
        holds = k.holds;
        counted = k.counted ∙ sym (held-Quiet l m q);
        in_order = k.in_order;
      }
  Run-InOrder value _ s _ outs (put x {l} {r} {ins = ins} run inside done) =
      put-InOrder l r s ins outs x (Run-InOrder value l r ins outs run) inside done
  Run-InOrder value _ s ins _ (take x {l} {r} {outs = outs} run inside done) =
      let k = Run-InOrder value l r ins outs run in
      take-waiting l r s ins outs x k.waiting k.exclusive k.holds k.counted k.in_order inside done

  pub Run-never_stuck :
      (value x : A) (l : CpLock) (r : Ring A) (ins outs : List A)
      → Run value l r ins outs
      → (1 ≤ l.p_inside → (s : Ring A) × (put_task x r ≡ some s))
        × (1 ≤ l.c_inside → (y : A) × (s : Ring A) × (get_task r ≡ some (y, s)))
  Run-never_stuck value x l r ins outs run =
      let k = Run-InOrder value l r ins outs run in
      (
        λ inside.
            let (s, done, _) =
              put_task-Holds x r k.waiting k.holds (omega (arith, k.counted, k.exclusive.slots)) in
            (s, done),
        λ inside. found r k.waiting k.holds (omega (arith, k.counted)),
      )
    where
      found :
          (r : Ring A) (waiting : List A)
          → Holds r waiting
          → 1 ≤ length waiting
          → (y : A) × (s : Ring A) × (get_task r ≡ some (y, s))
      found r [] h some_held = absurd (omega arith)
      found r (y ∷ waiting) h some_held =
          let (s, done, _) = get_task-Holds y r waiting h in (y, s, done)
