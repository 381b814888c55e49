-- ===== src/Participant/Commands.antt =====
-- What the commands that `eventParser` of Lab3/src/participant.cc executes do to a dictionary, which
-- has no table: the abstract view of the participant's store.
use cloud_computing.Prelude.{
  ◌^◌, ◌<◌, ◌≡◌, refl, Option, none, some, List, [], ◌∷◌, Bytes, codes, length, All, arith, ◌==◌,
  bytes_eq, if◌then◌else◌, ◌>>=◌, ltb, true,
}
use mathlib.Core.Path.{fun_ext}
use cloud_computing.Std.Int.{pos}
use cloud_computing.Phmap.{HashMap}
use cloud_computing.Kv
use cloud_computing.Kv.Spec.{names, distinct, count_present, del_arry_lem}
use cloud_computing.Parser.{
  get_error_message, get_success_message, get_interger_message, get_resp_arry_one, get_resp_arry,
}
use cloud_computing.Parser.RoundTrip.{IsShort, parser_resp_arry-get_resp_arry}
use cloud_computing.Participant.{head_char, run_comds, event_parser}

abbrev pub Dictionary : Type 0
Dictionary = Bytes → Option Bytes

-- What the words of a command ask for.
pub data Command : Type 0 where
  store : Bytes → Bytes → Command
  remove : List Bytes → Command
  lookup : Bytes → Command
  prepare : Command
  refused : Command

abbrev pub store_of : List Bytes → Command
store_of (k ∷ v ∷ []) = store k v
store_of _ = refused

abbrev pub lookup_of : List Bytes → Command
lookup_of (k ∷ []) = lookup k
lookup_of _ = refused

-- The first letter of the first word tells the command.
unfoldable pub command_of : List Bytes → Command
command_of [] = refused
command_of (verb ∷ args) =
    if head_char verb == b'S'
    then store_of args
    else if head_char verb == b'D'
    then remove args
    else if head_char verb == b'G'
    then lookup_of args
    else if head_char verb == b'P'
    then prepare
    else refused

abbrev pub answer_of : Option Bytes → Bytes
answer_of none = get_resp_arry_one (codes "nil")
answer_of (some v) = get_resp_arry_one v

unfoldable pub answer : Command → Dictionary → Bytes
answer (store k v) d = get_success_message
answer (remove ks) d = get_interger_message (pos (count_present d (distinct ks)))
answer (lookup k) d = answer_of (d k)
answer prepare d = codes "PRE"
answer refused d = get_error_message

unfoldable pub change : Command → Dictionary → Dictionary
change (store k v) d j = if bytes_eq k j then some v else d j
change (remove ks) d j = if names ks j then none else d j
change (lookup k) d j = d j
change prepare d j = d j
change refused d j = d j

-- The answers to a sequence of commands, and the dictionary behind them.
unfoldable pub obey : List (List Bytes) → Dictionary → List Bytes × Dictionary
obey [] d = ([], d)
obey (comds ∷ rest) d =
    let (answers, after) = obey rest (change (command_of comds) d) in
    (answer (command_of comds) d ∷ answers, after)

-- A command whose words and whose message have lengths that fit an `int`.
abbrev pub IsCommand : List Bytes → Type 0
IsCommand comds =
    (length comds < 2 ^ 31) × All IsShort comds × (length (get_resp_arry comds) < 2 ^ 31)

module _ (h : HashMap) where
  open h use {Table, find, find-assign}

  -- The messages of the commands, executed one after the other: the replies and the store.
  unfoldable pub execute : List (List Bytes) → Table → Option (List Bytes × Table)
  execute [] kvdb = some ([], kvdb)
  execute (comds ∷ rest) kvdb = do
    (rc, next) ← event_parser h kvdb (get_resp_arry comds)
    (rcs, after) ← execute rest next
    some (rc ∷ rcs, after)

  reply_same :
      (kvdb : Table) (comds : List Bytes)
      → (run_comds h kvdb comds).0 ≡ answer (command_of comds) (find kvdb)
  unfolding run_comds command_of answer Kv.get
  reply_same kvdb [] = refl
  reply_same kvdb (verb ∷ []) = ground (arith, del_arry_lem h kvdb [])
  reply_same kvdb (verb ∷ k ∷ []) = ground (arith, del_arry_lem h kvdb (k ∷ []))
  reply_same kvdb (verb ∷ k ∷ v ∷ []) = ground (arith, del_arry_lem h kvdb (k ∷ v ∷ []))
  reply_same kvdb (verb ∷ k ∷ v ∷ w ∷ rest) = ground (arith, del_arry_lem h kvdb (k ∷ v ∷ w ∷ rest))

  found_same :
      (kvdb : Table) (comds : List Bytes) (j : Bytes)
      → find (run_comds h kvdb comds).1 j ≡ change (command_of comds) (find kvdb) j
  unfolding run_comds command_of change Kv.set
  found_same kvdb [] j = refl
  found_same kvdb (verb ∷ []) j = ground (arith, (del_arry_lem h kvdb []).1 j)
  found_same kvdb (verb ∷ k ∷ []) j = ground (arith, (del_arry_lem h kvdb (k ∷ [])).1 j)
  found_same kvdb (verb ∷ k ∷ v ∷ []) j =
      ground (arith, (del_arry_lem h kvdb (k ∷ v ∷ [])).1 j, find-assign kvdb k v j)
  found_same kvdb (verb ∷ k ∷ v ∷ w ∷ rest) j =
      ground (arith, (del_arry_lem h kvdb (k ∷ v ∷ w ∷ rest)).1 j)

  parsed_event :
      (kvdb : Table) (comds : List Bytes)
      → IsCommand comds
      → event_parser h kvdb (get_resp_arry comds) ≡ some (run_comds h kvdb comds)
  unfolding event_parser
  parsed_event kvdb comds (few, short, fits) =
      let small : ltb (length (get_resp_arry comds)) (2 ^ 31) ≡ true = ground arith in
      rw (parser_resp_arry-get_resp_arry comds (0 ∷ []) few short, small) refl

  -- The messages of any commands, whose lengths fit an `int`, are executed by `eventParser` without a
  -- fault, with the replies that the dictionary gives, and the store stays the table of that
  -- dictionary.
  pub execute-obey :
      (kvdb : Table) (all : List (List Bytes))
      → All IsCommand all
      → (after : Table) × (execute all kvdb ≡ some ((obey all (find kvdb)).0, after))
        × (find after ≡ (obey all (find kvdb)).1)
  unfolding execute obey
  execute-obey kvdb [] fit = (kvdb, refl, refl)
  execute-obey kvdb (comds ∷ rest) (fit, later) =
      let view_after = fun_ext (found_same kvdb comds) in
      let (after, ran, view) = execute-obey (run_comds h kvdb comds).1 rest later in
      (
        after,
        rw (parsed_event kvdb comds fit, ran, view_after, reply_same kvdb comds) refl,
        rw (view, view_after) refl,
      )
