-- ===== src/Kv/Spec.antt =====
-- What the deletion of a list of keys promises: it counts each key that was there once.
use cloud_computing.Prelude.{
  ℕ, ◌+◌, ◌≡◌, refl, Bool, false, ◌||◌, Option, none, some, List, [], ◌∷◌, arith, Bytes, bytes_eq,
  bytes_eq_iff, if◌then◌else◌, ◌∙◌,
}
use cloud_computing.Codes.{is_ok}
use cloud_computing.Phmap.{HashMap}
use cloud_computing.Kv.{del, del_loop, del_arry}

-- The keys that a list names.
unfoldable pub names : List Bytes → Bytes → Bool
names [] k = false
names (j ∷ ks) k = bytes_eq j k || names ks k

without : Bytes → List Bytes → List Bytes
without k [] = []
without k (j ∷ ks) = let rest = without k ks in if bytes_eq k j then rest else j ∷ rest

-- Each key once.
unfoldable pub distinct : List Bytes → List Bytes
unfolding without
distinct [] = []
distinct (k ∷ ks) = k ∷ without k (distinct ks)

abbrev pub present : Option Bytes → ℕ
present none = 0
present (some _) = 1

-- How many of the keys have a value.
unfoldable pub count_present : (Bytes → Option Bytes) → List Bytes → ℕ
count_present view [] = 0
count_present view (k ∷ ks) = present (view k) + count_present view ks

module _ (h : HashMap) where
  open h use {Table, find, assign, erase, find-assign, find-erase}

  find-del :
      (t : Table) (k j : Bytes) → find (del h t k).1 j ≡ (if bytes_eq k j then none else find t j)
  unfolding del
  find-del t k j = ground (arith, find-erase t k j, bytes_eq_iff k j)

  find-del_loop :
      (ks : List Bytes) (n : ℕ) (t : Table) (j : Bytes)
      → find (del_loop h ks n t).1 j ≡ (if names ks j then none else find t j)
  unfolding del_loop names
  find-del_loop [] n t j = refl
  find-del_loop (k ∷ ks) n t j = ground (
    arith,
    find-del t k j,
    find-del_loop ks (if is_ok (del h t k).0 then n + 1 else n) (del h t k).1 j,
  )

  count-find-erase :
      (t : Table) (k : Bytes) (ks : List Bytes)
      → count_present (find (erase t k)) ks ≡ count_present (find t) (without k ks)
  unfolding count_present without
  count-find-erase t k [] = refl
  count-find-erase t k (j ∷ ks) = ground (arith, find-erase t k j, count-find-erase t k ks)

  count_without_absent :
      (t : Table) (k : Bytes) (ks : List Bytes)
      → find t k ≡ none
      → count_present (find t) (without k ks) ≡ count_present (find t) ks
  unfolding count_present without
  count_without_absent t k [] e = refl
  count_without_absent t k (j ∷ ks) e =
      ground (arith, bytes_eq_iff k j, count_without_absent t k ks e)

  count-del_loop :
      (ks : List Bytes) (n : ℕ) (t : Table)
      → (del_loop h ks n t).0 ≡ n + count_present (find t) (distinct ks)
  unfolding del_loop distinct count_present
  count-del_loop [] n t = omega arith
  count-del_loop (k ∷ ks) n t = ground (
    arith,
    count-del_loop ks n t,
    count_without_absent t k (distinct ks),
    count-del_loop ks (n + 1) (erase t k),
    count-find-erase t k (distinct ks),
  )

  -- Deleting a list of keys removes exactly the named keys, and returns how many distinct ones of
  -- them had a value.
  pub del_arry_lem :
      (t : Table) (ks : List Bytes)
      → ((del_arry h t ks).0 ≡ count_present (find t) (distinct ks))
        × ((j : Bytes) → find (del_arry h t ks).1 j ≡ (if names ks j then none else find t j))
  unfolding del_arry
  del_arry_lem t ks = (count-del_loop ks 0 t ∙ omega arith, find-del_loop ks 0 t)
