-- ===== src/Conf/RoundTrip.antt =====
-- A configuration that is written down is read back by `readConf` of Lab3/src/conf.cc.
use cloud_computing.Prelude.{
  ℕ, ◌+◌, ◌%◌, ◌^◌, ◌≤◌, ◌<◌, ◌≡◌, ◌≢◌, refl, sym, ap, ◌∙◌, true, false, none, some, List, [], ◌∷◌,
  ◌++◌, Bytes, codes, length, All, All-append, append_assoc, append-nil, length-append, arith,
}
use cloud_computing.Std.Number.{to_string, strtol, to_u64}
use cloud_computing.Std.Number.RoundTrip.{
  to_string-IsDigit, to_u64-strtol-to_string, length-to_string-le,
}
use cloud_computing.Std.Text.{find, substr, npos, starts_with}
use cloud_computing.Std.Text.Find.{find-append, find_none, substr_middle, substr_rest}
use cloud_computing.Conf.{
  Mode, mode_invalid, mode_c, mode_p, NodeInfo, Conf, contains, remove_spaces, mode_of, node_info,
  colon_info, info_in, info_behind, set_c, push_p, stored, read_participant, read_coordinator,
  read_line, read_conf,
}

-- An address of digits and dots, and a port of 32 bits
pub record IsNode (info : NodeInfo) : Type 0 where
  pub dotted : All (λ x. (b'.' ≤ x) × (x ≤ b'9')) info.add
  pub short : length info.add < 2 ^ 32
  pub port_lt : info.port < 2 ^ 32

abbrev node_text : NodeInfo → Bytes
node_text info = info.add ++ (b':' ∷ to_string info.port)

abbrev pub node_line : Bytes → NodeInfo → Bytes
node_line key info = key ++ (b' ' ∷ node_text info)

abbrev pub mode_line : Mode → Bytes
mode_line mode_c = codes "mode coordinator"
mode_line mode_p = codes "mode participant"
mode_line mode_invalid = codes "mode"

abbrev pub participant_lines : List NodeInfo → List Bytes
participant_lines [] = []
participant_lines (info ∷ infos) =
    node_line (codes "participant_info") info ∷ participant_lines infos

-- The lines of a configuration file
abbrev pub conf_lines : Conf → List Bytes
conf_lines conf =
    mode_line conf.m ∷ node_line (codes "coordinator_info") conf.c ∷ participant_lines conf.p

weaken : {P Q : ℕ → Type 0} → ((x : ℕ) → P x → Q x) → (s : Bytes) → All P s → All Q s
weaken f [] all = all
weaken f (x ∷ s) (h, all) = (f x h, weaken f s all)

abbrev InText : ℕ → Type 0
InText x = (b'.' ≤ x) × (x ≤ b':')

node_text-InText : (info : NodeInfo) → IsNode info → All InText (node_text info)
node_text-InText info h =
    All-append InText info.add (b':' ∷ to_string info.port)
      (weaken (λ x d. (d.0, omega (arith, d.1))) info.add h.dotted)
      (
        (omega arith, omega arith),
        weaken (λ x d. (omega (arith, d.0), omega (arith, d.1))) (to_string info.port)
            (to_string-IsDigit info.port),
      )

remove_spaces-InText : (s : Bytes) → All InText s → remove_spaces s ≡ s
unfolding remove_spaces
remove_spaces-InText [] all = refl
remove_spaces-InText (x ∷ s) (h, all) = ground (arith, remove_spaces-InText s all)

node_info_lem :
    (info : NodeInfo) → IsNode info → node_info (node_text info) (length info.add) ≡ some info
unfolding node_info
node_info_lem info h =
    let digits = to_string info.port in
    let port : to_u64 (strtol digits) % 2 ^ 32 ≡ info.port =
      omega (arith, to_u64-strtol-to_string info.port (omega (arith, h.port_lt)), h.port_lt) in
    let cut : substr ((info.add ++ (b':' ∷ [])) ++ digits) (length info.add + 1) npos
        ≡ some digits =
      substr_rest (info.add ++ (b':' ∷ [])) digits (length info.add + 1) npos
        (omega (arith, length-append info.add (b':' ∷ [])))
        (omega (arith, length-to_string-le info.port, h.port_lt)) in
    rw
      (
        substr_middle [] info.add (b':' ∷ digits) 0 (length info.add) refl refl,
        sym (append_assoc info.add (b':' ∷ []) digits),
        cut,
        port,
      )
      refl

length-node_text : (info : NodeInfo) → IsNode info → length (node_text info) < 2 ^ 34
length-node_text info h = omega (
  arith,
  length-append info.add (b':' ∷ to_string info.port),
  length-to_string-le info.port,
  h.port_lt,
  h.short,
)

info_behind_lem :
    (key : Bytes) (info : NodeInfo)
    → IsNode info
    → info_behind key (node_line key info) 0 ≡ some (some info)
unfolding info_behind
info_behind_lem key info h =
    let text = node_text info in
    let cut : substr (key ++ (b' ' ∷ text)) (0 + length key) npos ≡ some (b' ' ∷ text) =
      substr_rest key (b' ' ∷ text) (0 + length key) npos (omega arith)
        (omega (arith, length-node_text info h)) in
    let trim : remove_spaces (b' ' ∷ text) ≡ text =
      unfold remove_spaces in remove_spaces-InText text (node_text-InText info h) in
    let colon : find (codes ":") text ≡ some (length info.add) =
      find-append b':' [] info.add (to_string info.port)
        (weaken (λ x d e. omega (arith, d.1)) info.add h.dotted) in
    let found : info_in text ≡ some (some info) =
      unfold info_in colon_info in rw (colon, node_info_lem info h) refl in
    rw cut (ap info_in trim ∙ found)

apart : (c : ℕ) → b':' < c → (s : Bytes) → All InText s → All (λ x. x ≢ c) s
apart c lt s all = weaken (λ x d e. omega (arith, d.1)) s all

-- Nothing but digits, dots and a colon stands behind the key, so no word is found there.
no_word :
    (c : ℕ) (pat : Bytes) (info : NodeInfo)
    → b':' < c
    → IsNode info
    → find (c ∷ pat) (node_text info) ≡ none
no_word c pat info lt h =
    find_none c pat (node_text info) (apart c lt (node_text info) (node_text-InText info h))

-- The keys are passed over.
mode-coordinator_info :
    (t : Bytes)
    → find (codes "mode") t ≡ none
    → find (codes "mode") (codes "coordinator_info" ++ (b' ' ∷ t)) ≡ none
unfolding find starts_with
mode-coordinator_info t e = rw e refl

mode-participant_info :
    (t : Bytes)
    → find (codes "mode") t ≡ none
    → find (codes "mode") (codes "participant_info" ++ (b' ' ∷ t)) ≡ none
unfolding find starts_with
mode-participant_info t e = rw e refl

coordinator_info-participant_info :
    (t : Bytes)
    → find (codes "coordinator_info") t ≡ none
    → find (codes "coordinator_info") (codes "participant_info" ++ (b' ' ∷ t)) ≡ none
unfolding find starts_with
coordinator_info-participant_info t e = rw e refl

find-coordinator_info :
    (t : Bytes) → find (codes "coordinator_info") (codes "coordinator_info" ++ t) ≡ some 0
unfolding find starts_with
find-coordinator_info t = refl

find-participant_info :
    (t : Bytes) → find (codes "participant_info") (codes "participant_info" ++ t) ≡ some 0
unfolding find starts_with
find-participant_info t = refl

contains_absent : (pat buf : Bytes) → find pat buf ≡ none → contains pat buf ≡ false
unfolding contains
contains_absent pat buf e = rw (contains, e) refl

read_line-coordinator :
    (conf : Conf) (info : NodeInfo)
    → IsNode info
    → read_line (node_line (codes "coordinator_info") info) conf ≡ some (true, set_c conf info)
unfolding read_line read_coordinator stored
read_line-coordinator conf info h =
    let line = node_line (codes "coordinator_info") info in
    let no_mode =
      contains_absent (codes "mode") line (
        mode-coordinator_info (node_text info) (no_word b'm' (codes "ode") info (omega arith) h)) in
    rw
      (
        no_mode,
        read_coordinator,
        find-coordinator_info (b' ' ∷ node_text info),
        info_behind_lem (codes "coordinator_info") info h,
      )
      refl

read_line-participant :
    (conf : Conf) (info : NodeInfo)
    → IsNode info
    → read_line (node_line (codes "participant_info") info) conf ≡ some (true, push_p conf info)
unfolding read_line read_coordinator read_participant stored
read_line-participant conf info h =
    let line = node_line (codes "participant_info") info in
    let no_mode =
      contains_absent (codes "mode") line (
        mode-participant_info (node_text info) (no_word b'm' (codes "ode") info (omega arith) h)) in
    rw
      (
        no_mode,
        read_coordinator,
        coordinator_info-participant_info (node_text info)
            (no_word b'c' (codes "oordinator_info") info (omega arith) h),
        read_participant,
        find-participant_info (b' ' ∷ node_text info),
        info_behind_lem (codes "participant_info") info h,
      )
      refl

read_participants :
    (conf : Conf) (infos : List NodeInfo)
    → All IsNode infos
    → read_conf (participant_lines infos) conf ≡ some (true, record conf { p = conf.p ++ infos })
unfolding read_conf
read_participants conf [] all =
    ap (λ p. some (true, record conf { p = p })) (sym (append-nil conf.p))
read_participants conf (info ∷ infos) (h, all) = rw (read_line-participant conf info h) (
    read_participants (push_p conf info) infos all
    ∙ ap (λ p. some (true, record conf { p = p })) (append_assoc conf.p (info ∷ []) infos))

abbrev blank : Conf
blank = record { p = []; c = record { add = []; port = 0 }; m = mode_invalid }

read_line-mode :
    (m : Mode) (conf : Conf) → read_line (mode_line m) conf ≡ some (true, record conf { m = m })
unfolding read_line contains mode_of find starts_with
read_line-mode mode_c conf = refl
read_line-mode mode_p conf = refl
read_line-mode mode_invalid conf = refl

-- A configuration whose addresses are digits and dots and whose ports have 32 bits is read back from
-- the lines of its file: the mode, the coordinator and each participant, in their order.
pub read_conf-conf_lines :
    (conf : Conf)
    → IsNode conf.c
    → All IsNode conf.p
    → read_conf
        (conf_lines conf)
        (record { p = []; c = record { add = []; port = 0 }; m = mode_invalid })
      ≡ some (true, conf)
unfolding read_conf
read_conf-conf_lines conf hc hp =
    let with_mode = record blank { m = conf.m } in
    rw (read_line-mode conf.m blank, read_line-coordinator with_mode conf.c hc)
      (read_participants (set_c with_mode conf.c) conf.p hp)
