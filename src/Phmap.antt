-- ===== src/Phmap.antt =====
-- What the program relies on of phmap's `parallel_flat_hash_map<std::string, std::string>`.
use cloud_computing.Prelude.{
  ◌≡◌, refl, Option, none, some, List, [], ◌∷◌, arith, Bytes, bytes_eq, bytes_eq_iff, if◌then◌else◌,
}

pub record HashMap : Type 1 where
  pub Table : Type 0
  pub empty : Table
  -- `find`, with the value that the iterator points to
  pub find : Table → Bytes → Option Bytes
  -- `operator[]` and the assignment
  pub assign : Table → Bytes → Bytes → Table
  -- `erase` of the entry that `find` found
  pub erase : Table → Bytes → Table
  pub find-empty : (k : Bytes) → find empty k ≡ none
  pub find-assign :
      (t : Table) (k v j : Bytes)
      → find (assign t k v) j ≡ (if bytes_eq k j then some v else find t j)
  pub find-erase :
      (t : Table) (k j : Bytes) → find (erase t k) j ≡ (if bytes_eq k j then none else find t j)

-- An association list meets these laws.
abbrev pub Entries : Type 0
Entries = List (Bytes × Bytes)

unfoldable pub find_entry : Entries → Bytes → Option Bytes
find_entry [] k = none
find_entry ((j, v) ∷ t) k = if bytes_eq j k then some v else find_entry t k

unfoldable pub erase_entry : Entries → Bytes → Entries
erase_entry [] k = []
erase_entry ((j, v) ∷ t) k =
    let rest = erase_entry t k in if bytes_eq j k then rest else (j, v) ∷ rest

pub find_entry-erase_entry :
    (t : Entries) (k j : Bytes)
    → find_entry (erase_entry t k) j ≡ (if bytes_eq k j then none else find_entry t j)
unfolding find_entry erase_entry
find_entry-erase_entry [] k j = ground arith
find_entry-erase_entry ((i, v) ∷ t) k j =
    ground
      (arith, find_entry-erase_entry t k j, bytes_eq_iff i k, bytes_eq_iff i j, bytes_eq_iff k j)

pub find_entry-assign :
    (t : Entries) (k v j : Bytes)
    → find_entry ((k, v) ∷ t) j ≡ (if bytes_eq k j then some v else find_entry t j)
unfolding find_entry
find_entry-assign t k v j = refl

pub find_entry-empty : (k : Bytes) → find_entry [] k ≡ none
unfolding find_entry
find_entry-empty k = refl

abbrev pub entries_map : HashMap
entries_map = record {
  Table = Entries;
  empty = [];
  find = find_entry;
  assign = λ t k v. (k, v) ∷ t;
  erase = erase_entry;
  find-empty = find_entry-empty;
  find-assign = find_entry-assign;
  find-erase = find_entry-erase_entry;
}
