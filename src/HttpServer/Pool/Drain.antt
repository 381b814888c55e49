-- ===== src/HttpServer/Pool/Drain.antt =====
-- The tasks of a ring leave it: from every state that the threads can reach, they can go on until
-- every task that has been put is taken.
use cloud_computing.Prelude.{
  ℕ, zero, suc, ◌+◌, ◌-◌, ◌≤◌, ◌≡◌, refl, sym, ◌∙◌, subst, some, List, [], ◌∷◌, ◌++◌, length, leb,
  leb_iff, Bool-cases, inl, inr, append-nil, arith,
}
use cloud_computing.Lock.{
  CpLock, Quiet, p_release_full, c_get_full, c_get_mutex, p_released, c_released,
}
use cloud_computing.HttpServer.Ring.{Ring, put_task, get_task}
use cloud_computing.HttpServer.Pool
use cloud_computing.HttpServer.Pool.{Run}
use cloud_computing.HttpServer.Pool.Order.{held, InOrder, Run-InOrder, Run-never_stuck}

-- How the threads go on from a state: the steps of `Run`, behind those that led to the state.
pub data Onward {A : Type 0} (l : CpLock) (r : Ring A) (ins outs : List A)
    : CpLock → Ring A → List A → List A → Type 0 where
  here : Onward l r ins outs l r ins outs
  quiet :
      {m n : CpLock} {s : Ring A} {ins2 outs2 : List A}
      → Onward l r ins outs m s ins2 outs2
      → Quiet m n
      → Onward l r ins outs n s ins2 outs2
  put :
      (x : A) {m : CpLock} {s t : Ring A} {ins2 outs2 : List A}
      → Onward l r ins outs m s ins2 outs2
      → 1 ≤ m.p_inside
      → put_task x s ≡ some t
      → Onward l r ins outs (p_released m) t (ins2 ++ (x ∷ [])) outs2
  take :
      (x : A) {m : CpLock} {s t : Ring A} {ins2 outs2 : List A}
      → Onward l r ins outs m s ins2 outs2
      → 1 ≤ m.c_inside
      → get_task s ≡ some (x, t)
      → Onward l r ins outs (c_released m) t ins2 (outs2 ++ (x ∷ []))

module _ {A : Type 0} (value : A) (l0 : CpLock) (r0 : Ring A) (ins0 outs0 : List A)
    (run0 : Run value l0 r0 ins0 outs0) where
  -- What has been gone on to is a run from the start.
  Onward-Run :
      (l : CpLock) (r : Ring A) (ins outs : List A)
      → Onward l0 r0 ins0 outs0 l r ins outs
      → Run value l r ins outs
  Onward-Run l r ins outs here = run0
  Onward-Run l r ins outs (quiet on step) = Pool.quiet (Onward-Run _ _ _ _ on) step
  Onward-Run l r ins outs (put x on inside done) = Pool.put x (Onward-Run _ _ _ _ on) inside done
  Onward-Run l r ins outs (take x on inside done) = Pool.take x (Onward-Run _ _ _ _ on) inside done

  -- A consumer holds a slot and no thread is inside.
  record Ready (r : Ring A) (ins outs : List A) (n : ℕ) : Type 0 where
    lock : CpLock
    on : Onward l0 r0 ins0 outs0 lock r ins outs
    free : lock.mutex ≡ 1
    same : held lock ≡ n
    getting : 1 ≤ lock.c_getting

  consumer-Ready :
      (l : CpLock) (r : Ring A) (ins outs : List A) (n : ℕ)
      → Onward l0 r0 ins0 outs0 l r ins outs
      → l.mutex ≡ 1
      → held l ≡ n
      → 1 ≤ l.c_getting + l.full
      → Ready r ins outs n
  consumer-Ready l r ins outs n on free same some_held = elim (Bool-cases (leb 1 l.c_getting)) [
    | inl e ↦ record {
      lock = l;
      on = on;
      free = free;
      same = same;
      getting = (leb_iff 1 l.c_getting).0 e;
    }
    | inr e ↦ record {
      lock = record l { full = l.full - 1; c_getting = l.c_getting + 1 };
      on = quiet on (c_get_full (ground arith));
      free = free;
      same = ground arith;
      getting = omega arith;
    }
  ]

  Ready-held :
      (l : CpLock) (r : Ring A) (ins outs : List A) (n : ℕ)
      → Onward l0 r0 ins0 outs0 l r ins outs
      → l.mutex ≡ 1
      → held l ≡ suc n
      → Ready r ins outs (suc n)
  Ready-held l r ins outs n on free same = elim (Bool-cases (leb 1 (l.c_getting + l.full))) [
    | inl e ↦
        consumer-Ready l r ins outs (suc n) on free same ((leb_iff 1 (l.c_getting + l.full)).0 e)
    | inr e ↦
        let k = Run-InOrder value l r ins outs (Onward-Run l r ins outs on) in
        let posting : 1 ≤ l.p_releasing = ground (arith, k.exclusive.one) in
        consumer-Ready (record l { p_releasing = l.p_releasing - 1; full = l.full + 1 }) r ins outs
          (suc n) (quiet on (p_release_full posting)) free (omega (arith, posting, same))
          (omega arith)
  ]

  -- The oldest value is taken.
  taken :
      (l : CpLock) (r : Ring A) (ins outs : List A) (n : ℕ)
      → Onward l0 r0 ins0 outs0 l r ins outs
      → l.mutex ≡ 1
      → held l ≡ suc n
      → (m : CpLock) × (s : Ring A) × (y : A) × Onward l0 r0 ins0 outs0 m s ins (outs ++ (y ∷ []))
        × (m.mutex ≡ 1)
        × (held m ≡ n)
  taken l r ins outs n on free same =
      let a = Ready-held l r ins outs n on free same in
      let k = Run-InOrder value a.lock r ins outs (Onward-Run a.lock r ins outs a.on) in
      let got = quiet a.on (c_get_mutex a.getting (omega (arith, a.free))) in
      let inside = record a.lock {
        mutex = a.lock.mutex - 1;
        c_getting = a.lock.c_getting - 1;
        c_inside = a.lock.c_inside + 1;
      } in
      let (y, s, done) =
        (Run-never_stuck value value inside r ins outs (Onward-Run inside r ins outs got)).1
          (omega arith) in
      (
        c_released inside,
        s,
        y,
        take y got (omega arith) done,
        omega (arith, a.free),
        omega (arith, a.same, a.getting, a.free, k.exclusive.one),
      )

  drained :
      (n : ℕ) (l : CpLock) (r : Ring A) (ins outs : List A)
      → Onward l0 r0 ins0 outs0 l r ins outs
      → l.mutex ≡ 1
      → held l ≡ n
      → (m : CpLock) × (s : Ring A) × Onward l0 r0 ins0 outs0 m s ins ins
  drained zero l r ins outs on free same =
      emptied (k.waiting) (k.in_order) (omega (arith, k.counted, same))
    where
      k : InOrder l r ins outs
      k = Run-InOrder value l r ins outs (Onward-Run l r ins outs on)

      emptied :
          (waiting : List A)
          → ins ≡ outs ++ waiting
          → length waiting ≡ 0
          → (m : CpLock) × (s : Ring A) × Onward l0 r0 ins0 outs0 m s ins ins
      emptied [] order none_left =
          (l, r, subst (Onward l0 r0 ins0 outs0 l r ins) (sym (order ∙ append-nil outs)) on)
      emptied (x ∷ xs) order none_left = absurd (omega (arith, none_left))
  drained (suc n) l r ins outs on free same =
      let (m, s, y, on2, free2, same2) = taken l r ins outs n on free same in
      drained n m s ins (outs ++ (y ∷ [])) on2 free2 same2

-- Whatever the threads have done, they can go on from the state they are in so that the values that
-- were put are all taken; consumers come for them, and a producer that is inside finishes first, with
-- a value `x`, and puts no other.
pub Run-drains :
    {A : Type 0} (value x : A) (l : CpLock) (r : Ring A) (ins outs : List A)
    → Run value l r ins outs
    → (m : CpLock) × (s : Ring A) × (more : List A) × (length more ≤ l.p_inside)
      × Onward l r ins outs m s (ins ++ more) (ins ++ more)
Run-drains value x l r ins outs run = elim (Bool-cases (leb 1 l.mutex)) [
  | inl e ↦
      let (m, s, ended) =
        drained value l r ins outs run (held l) l r ins outs here
          (omega (arith, one, (leb_iff 1 l.mutex).0 e)) refl in
      (m, s, [], omega arith, rw (append-nil ins) ended)
  | inr e ↦ elim (Bool-cases (leb 1 l.p_inside)) [
    | inl f ↦
        let (t, done) = (Run-never_stuck value x l r ins outs run).0 ((leb_iff 1 l.p_inside).0 f) in
        let (m, s, ended) =
          drained value l r ins outs run (held (p_released l)) (p_released l) t (ins ++ (x ∷ []))
            outs (put x here ((leb_iff 1 l.p_inside).0 f) done) (ground (arith, one)) refl in
        (m, s, x ∷ [], ground arith, ended)
    | inr f ↦
        let (y, t, done) = (Run-never_stuck value x l r ins outs run).1 (ground (arith, one)) in
        let (m, s, ended) =
          drained value l r ins outs run (held (c_released l)) (c_released l) t ins
            (outs ++ (y ∷ [])) (take y here (ground (arith, one)) done) (ground (arith, one))
            refl in
        (m, s, [], omega arith, rw (append-nil ins) ended)
  ]
]
  where
    one : l.mutex + l.p_inside + l.c_inside ≡ 1
    one = (Run-InOrder value l r ins outs run).exclusive.one
