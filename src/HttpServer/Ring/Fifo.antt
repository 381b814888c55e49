-- ===== src/HttpServer/Ring/Fifo.antt =====
-- A ring that never holds more than its size is a first-in first-out queue.
use cloud_computing.Prelude.{
  ℕ, suc, ◌+◌, ◌%◌, ◌≤◌, ◌<◌, ◌≡◌, ◌≢◌, refl, sym, ◌∙◌, ap, true, inl, inr, some, List, [], ◌∷◌,
  ◌++◌, length, get_elem?, set, ltb, ltb_iff, ◌==◌, ==_iff, Bool-cases, length-append, length-set,
  length-replicate, get_elem?-set_self, get_elem?-set-ne, get_elem?-append_left,
  get_elem?-append_middle, arith,
}
use cloud_computing.HttpServer.Ring.{size, Ring, put_task, get_task, fresh}

module _ {A : Type 0} where
  -- The ring holds the values of `q`, the oldest first.
  pub record Holds (r : Ring A) (q : List A) : Type 0 where
    pub whole : length r.slots ≡ size
    pub room : length q ≤ size
    pub use_lt : r.sem_use < size
    pub fill : r.sem_fill ≡ (r.sem_use + length q) % size
    pub at : (i : ℕ) → i < length q → get_elem? r.slots ((r.sem_use + i) % size) ≡ get_elem? q i

  pub Holds-fresh : (value : A) → Holds (fresh value) []
  unfolding fresh
  Holds-fresh value = record {
    whole = length-replicate size value;
    room = omega arith;
    use_lt = omega arith;
    fill = omega arith;
    at = λ i lt. absurd (omega arith);
  }

  put_at :
      (value : A) (r : Ring A) (q : List A)
      → Holds r q
      → length q < size
      → (i : ℕ) → i < length (q ++ (value ∷ []))
      → get_elem? (set r.slots r.sem_fill value) ((r.sem_use + i) % size)
        ≡ get_elem? (q ++ (value ∷ [])) i
  put_at value r q h room i lt = elim (Bool-cases (i == length q)) [
    | inl e ↦
        let last : i ≡ length q = (==_iff i (length q)).0 e in
        let here : (r.sem_use + i) % size ≡ r.sem_fill = omega (arith, h.fill, last) in
        let wrote : get_elem? (set r.slots r.sem_fill value) r.sem_fill ≡ some value =
          get_elem?-set_self r.slots r.sem_fill value (omega (arith, h.fill, h.whole)) in
        rw (here, wrote, last) (sym (get_elem?-append_middle q value []))
    | inr e ↦
        let before : i < length q = ground (arith, length-append q (value ∷ [])) in
        let other : (r.sem_use + i) % size ≢ r.sem_fill =
          λ same. absurd (omega (arith, h.fill, h.use_lt)) in
        get_elem?-set-ne r.slots r.sem_fill ((r.sem_use + i) % size) value other
        ∙ h.at i before
        ∙ sym (get_elem?-append_left q (value ∷ []) i before)
  ]

  -- A value that is put into a ring with room stands behind the others.
  pub put_task-Holds :
      (value : A) (r : Ring A) (q : List A)
      → Holds r q
      → length q < size
      → (s : Ring A) × (put_task value r ≡ some s) × Holds s (q ++ (value ∷ []))
  unfolding put_task
  put_task-Holds value r q h room =
      let inside : ltb r.sem_fill (length r.slots) ≡ true =
        (ltb_iff r.sem_fill (length r.slots)).1 (omega (arith, h.fill, h.whole)) in
      (
        record {
          slots = set r.slots r.sem_fill value;
          sem_fill = (r.sem_fill + 1) % size;
          sem_use = r.sem_use;
        },
        rw inside refl,
        record {
          whole = length-set r.slots r.sem_fill value ∙ h.whole;
          room = omega (arith, length-append q (value ∷ []));
          use_lt = h.use_lt;
          fill = omega (arith, length-append q (value ∷ []), h.fill);
          at = put_at value r q h room;
        },
      )

  -- The value that is taken is the oldest.
  pub get_task-Holds :
      (value : A) (r : Ring A) (q : List A)
      → Holds r (value ∷ q)
      → (s : Ring A) × (get_task r ≡ some (value, s)) × Holds s q
  unfolding get_task
  get_task-Holds value r q h =
      let first : get_elem? r.slots r.sem_use ≡ some value =
        ap (λ i. get_elem? r.slots i) (omega (arith, h.use_lt)) ∙ h.at 0 (omega arith) in
      (
        record r { sem_use = (r.sem_use + 1) % size },
        rw first refl,
        record {
          whole = h.whole;
          room = omega (arith, h.room);
          use_lt = omega arith;
          fill = omega (arith, h.fill);
          at = λ i lt.
              ap (λ j. get_elem? r.slots j) (omega (arith, h.use_lt)) ∙ h.at (suc i) (omega arith);
        },
      )
