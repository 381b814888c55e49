-- ===== src/Examples/Kvs.antt =====
-- The store of Lab3/src/kv.cc over an association list.
use cloud_computing.Prelude.{◌≡◌, refl, none, List, [], ◌∷◌, Bytes, codes, bytes_eq, if◌then◌else◌}
use cloud_computing.Phmap.{entries_map, Entries, find_entry, erase_entry}
use cloud_computing.Kv
use cloud_computing.Kv.Spec.{names, distinct, count_present, del_arry_lem}

abbrev table : Entries
table = (codes "a", codes "1") ∷ (codes "b", codes "2") ∷ []

-- a key that is named twice counts once
twice : List Bytes
twice = codes "b" ∷ codes "x" ∷ codes "b" ∷ []

del_arry_lem_example :
    ((Kv.del_arry entries_map table twice).0 ≡ count_present (find_entry table) (distinct twice))
    × ((j : Bytes)
        → find_entry (Kv.del_arry entries_map table twice).1 j
          ≡ (if names twice j then none else find_entry table j))
del_arry_lem_example = del_arry_lem entries_map table twice

del_runs : (Kv.del_arry entries_map table twice).0 ≡ 1
unfolding twice Kv.del_arry find_entry erase_entry bytes_eq
del_runs = refl
