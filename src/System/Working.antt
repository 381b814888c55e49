-- ===== src/System/Working.antt =====
-- `Working` as a whole: what a client's command comes to.
use cloud_computing.Prelude.{
  ℕ, ◌≤◌, ◌<◌, ◌^◌, ◌≡◌, ◌≢◌, refl, subst, true, false, ◌||◌, ◌⊎◌, Option, some, List, [], ◌∷◌,
  Bytes, codes, All, length, arith, Bool-cases, inl, inr, bytes_eq, bytes_eq_iff,
}
use cloud_computing.Phmap.{HashMap}
use cloud_computing.Std.Number.{long_max}
use cloud_computing.Parser.{get_error_message, get_resp_arry}
use cloud_computing.Parser.RoundTrip.{IsShort, parsed_words}
use cloud_computing.Logger.{log, super_txid, log_commit}
use cloud_computing.Participant.Events.{IsRead, IsSafe}
use cloud_computing.Coordinator.{Coordinator}
use cloud_computing.Coordinator.Update.{update_db, request, working, serve_comds, is_state_working}
use cloud_computing.System.{Fault, World, send_and_recv}
use cloud_computing.System.Agreement.{Agrees}
use cloud_computing.System.Update.{Updated, update_db-Updated}
use cloud_computing.System.Request.{Asks, request-Asks}

-- The words of a command that one request can hold.
pub record IsCommand (task : List Bytes) : Type 0 where
  pub few : length task < 2 ^ 31
  pub short : All IsShort task
  pub fits : length (get_resp_arry task) < 2 ^ 63

-- No word, or a first word that no command starts with.
abbrev pub IsUnknown : List Bytes → Type 0
IsUnknown [] = Unit {0}
IsUnknown (verb ∷ args) = (verb ≢ codes "SET") × (verb ≢ codes "DEL") × (verb ≢ codes "GET")

get-IsRead :
    (verb : Bytes) (args : List Bytes) → bytes_eq verb (codes "GET") ≡ true → IsRead (verb ∷ args)
get-IsRead verb args e =
    let same : verb ≡ codes "GET" = (bytes_eq_iff verb (codes "GET")).0 e in
    rw same (omega arith, omega arith)

pub get-IsSafe :
    (verb : Bytes) (args : List Bytes)
    → IsCommand (verb ∷ args)
    → bytes_eq verb (codes "GET") ≡ true
    → IsSafe (log super_txid log_commit (get_resp_arry (verb ∷ args)))
get-IsSafe verb args i e number comds n parsed =
    let same = parsed_words (verb ∷ args) comds (0 ∷ []) n i.few i.short parsed in
    subst IsRead same (get-IsRead verb args e)

module _ (h : HashMap) where
  -- What a command comes to.
  pub data Served (c : Coordinator) (w : World h)
      : (task : List Bytes) (r : Bytes × Coordinator × World h) → Type 0 where
    refused :
        {task : List Bytes}
        → (is_state_working c.cstate ≡ false) ⊎ IsUnknown task
        → Served c w task (get_error_message, c, w)
    updated :
        {verb : Bytes} {args : List Bytes} {r : Bytes × Coordinator × World h}
        → is_state_working c.cstate ≡ true
        → (verb ≡ codes "SET") ⊎ (verb ≡ codes "DEL")
        → Updated h (get_resp_arry (verb ∷ args)) c r
        → Served c w (verb ∷ args) r
    asked :
        {verb : Bytes} {args : List Bytes} {r : Bytes × Coordinator × World h}
        → is_state_working c.cstate ≡ true
        → verb ≡ codes "GET"
        → Asks h (get_resp_arry (verb ∷ args)) c r
        → Served c w (verb ∷ args) r

  pub Served-Agrees :
      {c : Coordinator} {w : World h} {task : List Bytes} {r : Bytes × Coordinator × World h}
      → Agrees h c w
      → Served c w task r
      → Agrees h r.1 r.2
  Served-Agrees a (refused _) = a
  Served-Agrees a (updated _ _ u) = u.agrees
  Served-Agrees a (asked _ _ k) = k.agrees

module _ (h : HashMap) (faults : ℕ → Fault) where
  is_update :
      (verb : Bytes)
      → (bytes_eq verb (codes "SET") || bytes_eq verb (codes "DEL")) ≡ true
      → (verb ≡ codes "SET") ⊎ (verb ≡ codes "DEL")
  is_update verb e = elim (Bool-cases (bytes_eq verb (codes "SET"))) [
    | inl s ↦ inl ((bytes_eq_iff verb (codes "SET")).0 s)
    | inr n ↦ inr ((bytes_eq_iff verb (codes "DEL")).0 (rw n at e))
  ]

  module _ (c : Coordinator) (w : World h) (a : Agrees h c w) (fits : c.txid ≤ long_max) where
    abbrev Answers : List Bytes → Option (Bytes × Coordinator × World h) → Type 0
    Answers task o =
        (r : Bytes × Coordinator × World h) × (o ≡ some r) × Served h c w task r × Agrees h r.1 r.2

    refuses :
        (task : List Bytes)
        → (is_state_working c.cstate ≡ false) ⊎ IsUnknown task
        → Answers task (some (get_error_message, c, w))
    refuses task why = ((get_error_message, c, w), refl, refused why, a)

    updates :
        (verb : Bytes) (args : List Bytes)
        → IsCommand (verb ∷ args)
        → is_state_working c.cstate ≡ true
        → (bytes_eq verb (codes "SET") || bytes_eq verb (codes "DEL")) ≡ true
        → Answers
            (verb ∷ args)
            (update_db (send_and_recv h faults) (get_resp_arry (verb ∷ args)) (c, w))
    updates verb args i on e =
        let (r, done, u) =
          update_db-Updated h faults (get_resp_arry (verb ∷ args)) c w a fits i.fits in
        (r, done, updated on (is_update verb e) u, u.agrees)

    asks :
        (verb : Bytes) (args : List Bytes)
        → IsCommand (verb ∷ args)
        → is_state_working c.cstate ≡ true
        → bytes_eq verb (codes "GET") ≡ true
        → Answers
            (verb ∷ args)
            (some (request (send_and_recv h faults) (get_resp_arry (verb ∷ args)) (c, w)))
    asks verb args i on e =
        let k =
          request-Asks h faults (get_resp_arry (verb ∷ args)) (get-IsSafe verb args i e) i.fits c w
            a in
        (
          request (send_and_recv h faults) (get_resp_arry (verb ∷ args)) (c, w),
          refl,
          asked on ((bytes_eq_iff verb (codes "GET")).0 e) k,
          k.agrees,
        )

    unknown :
        (verb : Bytes) (args : List Bytes)
        → (bytes_eq verb (codes "SET") || bytes_eq verb (codes "DEL")) ≡ false
        → bytes_eq verb (codes "GET") ≡ false
        → IsUnknown (verb ∷ args)
    unknown verb args e n = (
      ground (arith, bytes_eq_iff verb (codes "SET")),
      ground (arith, bytes_eq_iff verb (codes "DEL")),
      ground (arith, bytes_eq_iff verb (codes "GET")),
    )

    serves :
        (task : List Bytes)
        → IsCommand task
        → is_state_working c.cstate ≡ true
        → Answers task (serve_comds (send_and_recv h faults) task (c, w))
    unfolding serve_comds
    serves [] i on = refuses [] (inr tt)
    serves (verb ∷ args) i on =
        elim (Bool-cases (bytes_eq verb (codes "SET") || bytes_eq verb (codes "DEL"))) [
          | inl e ↦ rw e (updates verb args i on e)
          | inr e ↦ elim (Bool-cases (bytes_eq verb (codes "GET"))) [
            | inl g ↦ rw (e, g) (asks verb args i on g)
            | inr n ↦ rw (e, n) (refuses (verb ∷ args) (inr (unknown verb args e n)))
          ]
        ]

  -- The coordinator answers every command. A command that changes data is an update, a `GET` is a
  -- read, and everything else, and every command while the coordinator does not work, is refused and
  -- changes nothing. If the working participants are in step with the coordinator before it, they
  -- are afterwards.
  pub working-Served :
      (c : Coordinator) (w : World h) (task : List Bytes)
      → Agrees h c w
      → c.txid ≤ long_max
      → IsCommand task
      → (r : Bytes × Coordinator × World h) × (working (send_and_recv h faults) task (c, w)
          ≡ some r)
        × Served h c w task r
        × Agrees h r.1 r.2
  unfolding working
  working-Served c w task a fits i = elim (Bool-cases (is_state_working c.cstate)) [
    | inl on ↦ rw on (serves c w a fits task i on)
    | inr off ↦ rw off (refuses c w a fits task (inl off))
  ]
