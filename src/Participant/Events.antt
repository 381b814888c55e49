-- ===== src/Participant/Events.antt =====
-- What a command does to the store: `eventParser` of Lab3/src/participant.cc.
use cloud_computing.Prelude.{
  ℕ, ◌≡◌, ◌≢◌, refl, sym, ap, ◌∙◌, Option, none, some, List, [], ◌∷◌, ◌++◌, Bytes, arith,
}
use cloud_computing.Phmap.{HashMap}
use cloud_computing.Parser.{
  get_error_message, get_success_message, get_interger_message, get_resp_arry_one, parser_resp_arry,
}
use cloud_computing.Logger.{Log, super_txid}
use cloud_computing.Participant.{head_char, run_comds, event_parser}

-- The words of a command that writes to no store.
abbrev pub IsRead : List Bytes → Type 0
IsRead [] = Unit {0}
IsRead (verb ∷ args) = (head_char verb ≢ b'D') × (head_char verb ≢ b'S')

-- A request without a number is a command that only reads.
abbrev pub IsSafe : Log → Type 0
IsSafe l =
    l.id ≡ super_txid
    → (comds : List Bytes) (n : ℕ) → parser_resp_arry (l.event ++ (0 ∷ [])) ≡ some (comds, n)
    → IsRead comds

module _ (h : HashMap) where
  open h use {Table}

  run_comds_read :
      (kvdb : Table) (comds : List Bytes) → IsRead comds → (run_comds h kvdb comds).1 ≡ kvdb
  unfolding run_comds
  run_comds_read kvdb [] r = refl
  run_comds_read kvdb (verb ∷ []) r = ground arith
  run_comds_read kvdb (verb ∷ k ∷ []) r = ground arith
  run_comds_read kvdb (verb ∷ k ∷ v ∷ rest) r = ground arith

  -- A command that is answered with an error has not touched the store.
  pub run_comds_error :
      (kvdb : Table) (comds : List Bytes)
      → (run_comds h kvdb comds).0 ≡ get_error_message
      → (run_comds h kvdb comds).1 ≡ kvdb
  unfolding run_comds get_error_message get_interger_message get_success_message
  run_comds_error kvdb [] e = refl
  run_comds_error kvdb (verb ∷ []) e = ground arith
  run_comds_error kvdb (verb ∷ k ∷ []) e = ground arith
  run_comds_error kvdb (verb ∷ k ∷ v ∷ []) e = ground arith
  run_comds_error kvdb (verb ∷ k ∷ v ∷ w ∷ rest) e = ground arith

  ran_comds :
      (kvdb : Table) (event : Bytes) (o : Option (List Bytes × ℕ)) (r : Bytes × Table)
      → parser_resp_arry (event ++ (0 ∷ [])) ≡ o
      → event_parser h kvdb event ≡ some r
      → (comds : List Bytes) × (n : ℕ) × (o ≡ some (comds, n)) × (r ≡ run_comds h kvdb comds)
  unfolding event_parser
  ran_comds kvdb event none r parsed step = let stuck : none ≡ some r = rw parsed at step in cc
  ran_comds kvdb event (some (comds, n)) r parsed step =
      let done : some (run_comds h kvdb comds) ≡ some r = rw parsed at step in (comds, n, refl, cc)

  -- An executed event was a parsed command.
  pub event_parser_comds :
      (kvdb : Table) (event : Bytes) (r : Bytes × Table)
      → event_parser h kvdb event ≡ some r
      → (comds : List Bytes) × (n : ℕ) × (parser_resp_arry (event ++ (0 ∷ [])) ≡ some (comds, n))
        × (r ≡ run_comds h kvdb comds)
  event_parser_comds kvdb event r = ran_comds kvdb event _ r refl

  pub event_parser_read :
      (kvdb : Table) (l : Log) (r : Bytes × Table)
      → IsSafe l
      → l.id ≡ super_txid
      → event_parser h kvdb l.event ≡ some r
      → r.1 ≡ kvdb
  event_parser_read kvdb l r safe e step =
      let (comds, n, parsed, ran) = event_parser_comds kvdb l.event r step in
      ap (λ (x : Bytes × Table). x.1) ran ∙ run_comds_read kvdb comds (safe e comds n parsed)

  pub event_parser_error :
      (kvdb : Table) (event : Bytes) (r : Bytes × Table)
      → event_parser h kvdb event ≡ some r
      → r.0 ≡ get_error_message
      → r.1 ≡ kvdb
  event_parser_error kvdb event r step e =
      let (comds, n, parsed, ran) = event_parser_comds kvdb event r step in
      ap (λ (x : Bytes × Table). x.1) ran
      ∙ run_comds_error kvdb comds (ap (λ (x : Bytes × Table). x.0) (sym ran) ∙ e)

  -- Every reply has a first byte.
  run_comds-ne-nil : (kvdb : Table) (comds : List Bytes) → (run_comds h kvdb comds).0 ≢ []
  unfolding run_comds get_error_message get_interger_message get_success_message get_resp_arry_one
  run_comds-ne-nil kvdb [] e = ground arith
  run_comds-ne-nil kvdb (verb ∷ []) e = ground arith
  run_comds-ne-nil kvdb (verb ∷ k ∷ []) e = ground arith
  run_comds-ne-nil kvdb (verb ∷ k ∷ v ∷ []) e = ground arith
  run_comds-ne-nil kvdb (verb ∷ k ∷ v ∷ x ∷ rest) e = ground arith

  pub event_parser-ne-nil :
      (kvdb : Table) (event : Bytes) (r : Bytes × Table)
      → event_parser h kvdb event ≡ some r
      → r.0 ≢ []
  event_parser-ne-nil kvdb event r step e =
      let (comds, n, parsed, ran) = event_parser_comds kvdb event r step in
      run_comds-ne-nil kvdb comds (ap (λ (x : Bytes × Table). x.0) (sym ran) ∙ e)
