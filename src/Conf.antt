-- ===== src/Conf.antt =====
-- `readConf` of Lab3/src/conf.cc, over the lines that `getline` returns up to the end of the file.
pub mod RoundTrip
use cloud_computing.Prelude.{
  ℕ, ◌+◌, ◌%◌, ◌^◌, Bool, true, false, Option, none, some, List, [], ◌∷◌, ◌++◌, Bytes, codes,
  length, ◌==◌, ◌>>=◌, if◌then◌else◌,
}
use cloud_computing.Std.Number.{strtol, to_u64}
use cloud_computing.Std.Text.{find, substr, npos}
use cloud_computing.Participant.{head_char}

pub data Mode : Type 0 where
  mode_invalid mode_c mode_p : Mode

-- `port` is an `unsigned int`
pub record NodeInfo : Type 0 where
  pub add : Bytes
  pub port : ℕ

-- The three results of `readConf`, which it fills as it reads.
pub record Conf : Type 0 where
  pub p : List NodeInfo
  pub c : NodeInfo
  pub m : Mode

unfoldable pub contains : Bytes → Bytes → Bool
contains pat buf = elim (find pat buf) [ none ↦ false | some pos ↦ true ]

unfoldable pub remove_spaces : Bytes → Bytes
remove_spaces [] = []
remove_spaces (x ∷ buf) = let rest = remove_spaces buf in if x == b' ' then rest else x ∷ rest

unfoldable pub mode_of : Bytes → Mode
unfolding contains
mode_of buf =
    if contains (codes "coordinator") buf
    then mode_c
    else if contains (codes "participant") buf
    then mode_p
    else mode_invalid

-- The address and the port around the colon at `pos`.
unfoldable pub node_info : Bytes → ℕ → Option NodeInfo
node_info buf pos = do
  add ← substr buf 0 pos
  port ← substr buf (pos + 1) npos
  some (record { add = add; port = to_u64 (strtol port) % 2 ^ 32 })

-- What the colon of the text leads to, if it has one.
unfoldable pub colon_info : Bytes → Option ℕ → Option (Option NodeInfo)
colon_info buf none = some none
colon_info buf (some colon) = node_info buf colon >>= λ info. some (some info)

unfoldable pub info_in : Bytes → Option (Option NodeInfo)
info_in buf = colon_info buf (find (codes ":") buf)

-- The text behind `key`, which stands at `pos`; `some none` if it has no colon.
unfoldable pub info_behind : Bytes → Bytes → ℕ → Option (Option NodeInfo)
info_behind key buf pos =
    substr buf (pos + length key) npos >>= λ tail. info_in (remove_spaces tail)

abbrev pub set_c : Conf → NodeInfo → Conf
set_c conf info = record conf { c = info }

abbrev pub push_p : Conf → NodeInfo → Conf
push_p conf info = record conf { p = conf.p ++ (info ∷ []) }

-- A line without a colon ends the reading with `false`.
unfoldable pub stored : (Conf → NodeInfo → Conf) → Conf → Option NodeInfo → Bool × Conf
stored store conf none = (false, conf)
stored store conf (some info) = (true, store conf info)

unfoldable pub read_participant : Bytes → Conf → Option (Bool × Conf)
read_participant buf conf = elim (find (codes "participant_info") buf) [
  | none ↦ some (true, conf)
  | some pos ↦ (do
    info ← info_behind (codes "participant_info") buf pos
    some (stored push_p conf info))
]

unfoldable pub read_coordinator : Bytes → Conf → Option (Bool × Conf)
read_coordinator buf conf = elim (find (codes "coordinator_info") buf) [
  | none ↦ read_participant buf conf
  | some pos ↦ (do
    info ← info_behind (codes "coordinator_info") buf pos
    some (stored set_c conf info))
]

unfoldable pub read_line : Bytes → Conf → Option (Bool × Conf)
read_line buf conf =
    if head_char buf == b'!'
    then some (true, conf)
    else if contains (codes "mode") buf
    then some (true, record conf { m = mode_of buf })
    else read_coordinator buf conf

unfoldable pub read_conf : List Bytes → Conf → Option (Bool × Conf)
read_conf [] conf = some (true, conf)
read_conf (buf ∷ bufs) conf = do
  (more, next) ← read_line buf conf
  (if more then read_conf bufs next else some (false, next))
