-- ===== src/Logger.antt =====
-- Lab3/src/logger.cc and Lab3/src/include/logger.hpp: the log of transactions, in memory, and the
-- text form in which a log entry travels between the coordinator and the participants. A failed
-- `assert` and an exception are faults.
pub mod RoundTrip
use cloud_computing.Prelude.{
  ℕ, ◌+◌, ◌-◌, ◌%◌, ◌^◌, ◌≡◌, refl, Option, none, some, ◌++◌, Bytes, codes, ◌>>=◌, ◌>>◌,
}
use cloud_computing.Std.Number.{to_string, strtol, to_u64}
use cloud_computing.Std.Text.{find, substr}
use cloud_computing.Std.Map
use cloud_computing.Std.Map.{Map}
use cloud_computing.Parser.{crlf}

-- Transactions count from `txid_start`; the numbers below it are requests of other kinds.
abbrev pub txid_start : ℕ
txid_start = 5

abbrev pub super_txid : ℕ
super_txid = 0

abbrev pub recovery_txid : ℕ
recovery_txid = 1

abbrev pub ask_data_txid : ℕ
ask_data_txid = 2

-- `enum logState : uint8_t`; a cast from text can give any byte.
abbrev pub log_pre : ℕ
log_pre = 1

abbrev pub log_commit : ℕ
log_commit = 2

pub record Log : Type 0 where
  pub id : ℕ
  pub state : ℕ
  pub event : Bytes

abbrev pub log : ℕ → ℕ → Bytes → Log
log id state event = record { id = id; state = state; event = event }

abbrev pub u64 : ℕ
u64 = 2 ^ 64

-- `_TXID++`
unfoldable pub next_txid : ℕ → ℕ
next_txid txid = (txid + 1) % u64

-- `_TXID - 1`
unfoldable pub last_txid : ℕ → ℕ
last_txid txid = (txid + u64 - 1) % u64

-- `a - b - c` in `size_t`
abbrev pub sub_size : ℕ → ℕ → ℕ → ℕ
sub_size a b c = (a + u64 + u64 - b - c) % u64

-- the text between the first `label` and the first line end, and what stands `skip` bytes behind
-- the line end
unfoldable pub cut_line : Bytes → ℕ → ℕ → Bytes → Option (Bytes × Bytes)
cut_line label width skip str = do
  begin ← find label str
  stop ← find crlf str
  value ← substr str (begin + width) (sub_size stop begin width)
  rest ← substr str (stop + skip) u64
  some (value, rest)

unfoldable pub str_to_log : Bytes → Option Log
str_to_log str = do
  (id, lines) ← cut_line (codes "TXID: ") 6 2 str
  (state, event) ← cut_line (codes "S: ") 3 4 lines
  some (log (to_u64 (strtol id)) (to_u64 (strtol state) % 2 ^ 8) event)

unfoldable pub log_to_str : Log → Bytes
log_to_str l =
    codes "TXID: "
    ++ (to_string l.id
        ++ (crlf ++ (codes "S: " ++ (to_string l.state ++ (crlf ++ (crlf ++ l.event))))))

abbrev pub Logger : Type 0
Logger = Map Log

unfoldable pub write_log : Logger → Log → Logger
write_log lg l = Map.insert l.id l lg

unfoldable pub chage_log_state : Logger → ℕ → ℕ → Option Logger
chage_log_state lg id new_state = do
  l ← Map.get id lg
  some (Map.insert id (record l { state = new_state }) lg)

unfoldable pub get_log_by_txid : Logger → ℕ → Option Log
get_log_by_txid lg id = Map.get id lg

log_test :
    (log_to_str (log 1 log_pre (codes "nihao"))
      ≡ codes "TXID: 1" ++ crlf ++ codes "S: 1" ++ crlf ++ crlf ++ codes "nihao")
    × (str_to_log (log_to_str (log 7 log_commit (codes "S: x")))
        ≡ some (log 7 log_commit (codes "S: x")))
    × (str_to_log (codes "nihao") ≡ none)
unfolding log_to_str str_to_log cut_line to_string strtol to_u64 find substr
log_test = (refl, refl, refl)
