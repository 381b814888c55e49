-- ===== src/Kv.antt =====
-- Lab3/src/kv.cc and Lab3/src/include/kv.hpp: the store of one participant. Its table is phmap's
-- `parallel_flat_hash_map`, a library that the program calls: a parameter (`Phmap`).

pub mod Spec
use cloud_computing.Prelude.{
  ℕ, ◌+◌, ◌≡◌, refl, Option, none, some, List, [], ◌∷◌, Bytes, codes, if◌then◌else◌,
}
use cloud_computing.Codes.{Code, kv_ok, kv_del, is_ok}
use cloud_computing.Phmap.{HashMap, entries_map, find_entry, erase_entry}

module _ (h : HashMap) where
  open h use {Table, find, assign, erase}

  value_or_nil : Option Bytes → Bytes
  value_or_nil none = codes "nil"
  value_or_nil (some v) = v

  unfoldable pub get : Table → Bytes → Bytes
  unfolding value_or_nil
  get kvdb k = value_or_nil (find kvdb k)

  unfoldable pub set : Table → Bytes → Bytes → Code × Table
  set kvdb k v = (kv_ok, assign kvdb k v)

  del_found : Table → Bytes → Option Bytes → Code × Table
  del_found kvdb k none = (kv_del, kvdb)
  del_found kvdb k (some _) = (kv_ok, erase kvdb k)

  unfoldable pub del : Table → Bytes → Code × Table
  unfolding del_found
  del kvdb k = del_found kvdb k (find kvdb k)

  -- the loop of `kvDELArry`, with its counter
  del_loop : List Bytes → ℕ → Table → ℕ × Table
  unfolding del is_ok
  del_loop [] number kvdb = (number, kvdb)
  del_loop (k ∷ ks) number kvdb =
      let (rc, rest) = del kvdb k in del_loop ks (if is_ok rc then number + 1 else number) rest

  unfoldable pub del_arry : Table → List Bytes → ℕ × Table
  unfolding del_loop
  del_arry kvdb ks = del_loop ks 0 kvdb
