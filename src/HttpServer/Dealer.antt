-- ===== src/HttpServer/Dealer.antt =====
-- `Dealer` of Lab2/httpserverMy.cc: the requests in one buffer. Texts are shorter than 2 ^ 31, so the
-- `int` positions are numbers. `none` is a fault: a read behind the NUL that ends a text, or an
-- exception.
pub mod Settles
pub mod Requests
use cloud_computing.Prelude.{
  ℕ, zero, suc, ◌+◌, ◌-◌, ◌≡◌, refl, Bool, true, false, not, ◌&&◌, ◌||◌, Option, none, some, List,
  [], ◌∷◌, ◌++◌, Bytes, codes, bytes_eq, length, take, drop, ltb, leb, ◌==◌, get_elem?, ◌>>=◌,
  if◌then◌else◌,
}
use mathlib.Core.Option
use cloud_computing.Std.Int.{ℤ, pos, negsuc}
use cloud_computing.Std.Number.{atoi}
use cloud_computing.Std.Text.{find, substr, npos}
use cloud_computing.HttpServer.Ring.{OutPutTask}
use cloud_computing.HttpServer.Messages.{Files, is_known, error_dealer, get_dealer, post_dealer}

abbrev pub is_found : Option ℕ → Bool
is_found none = false
is_found (some p) = true

-- the condition of the loop
unfoldable pub has_request : Bytes → Bool
has_request s_buf =
    is_found (find (codes "HTTP/1.1") s_buf) || is_found (find (codes "HTTP/1.0") s_buf)

-- The text up to the first `stop`.
unfoldable pub until : ℕ → Bytes → Option Bytes
until stop [] = none
until stop (c ∷ s) = if c == stop then some [] else (do front ← until stop s; some (c ∷ front))

-- `length >= entity_len`, where the `int` is converted to `size_t`
abbrev pub holds_entity : ℕ → ℤ → Bool
holds_entity n (pos entity_len) = leb entity_len n
holds_entity n (negsuc entity_len) = false

abbrev pub to_length : ℤ → ℕ
to_length (pos n) = n
to_length (negsuc n) = 0

-- The whole request behind its head, if it is in the buffer.
unfoldable pub with_entity : Bytes → Bytes → ℕ → Option (Option Bytes)
unfolding until
with_entity s_buf request head_end_pos = do
  num ← until 13 (drop (head_end_pos + 15) request)
  (if holds_entity (length s_buf - length request) (atoi num)
      then (do
        entity ← substr s_buf (length request) (to_length (atoi num))
        some (some (request ++ entity)))
      else some none)

-- The request with the entity that its head announces, and the length of the head.
unfoldable pub whole_request : Bytes → Bytes → Option ℕ → Option (Option (Bytes × ℕ))
unfolding with_entity
whole_request s_buf request none = some (some (request, length request))
whole_request s_buf request (some head_end_pos) = do
  whole ← with_entity s_buf request head_end_pos
  some (Option.map (λ text. (text, length request)) whole)

-- The request whose head ends before `request_end_pos`.
unfoldable pub cut_request : Bytes → ℕ → Option (Option (Bytes × ℕ))
unfolding whole_request
cut_request s_buf request_end_pos = do
  request ← substr s_buf 0 request_end_pos
  whole_request s_buf request (find (codes "Content-Length") request)

-- `s_buf[request_end_pos]`, the NUL at the end
unfoldable pub char_at : Bytes → ℕ → Option Bytes
char_at s_buf position = do c ← get_elem? (s_buf ++ (0 ∷ [])) position; some (c ∷ [])

-- the name and the ID of a form
unfoldable pub form_task : Bytes → ℕ → ℕ → ℕ → Option OutPutTask
form_task entity namepos idpos connfd = do
  name ← substr entity (namepos + 5) (if leb (namepos + 5) idpos then idpos - namepos - 5 else npos)
  id ← substr entity (idpos + 3) npos
  some (post_dealer name id connfd)

unfoldable pub post_task : Bytes → Bytes → ℕ → Option OutPutTask
unfolding form_task
post_task url entity connfd = elim (find (codes "Name") entity) [
  | none ↦ some (error_dealer (codes "POST") url connfd)
  | some namepos ↦ elim (find (codes "ID") entity) [
    | none ↦ some (error_dealer (codes "POST") url connfd)
    | some idpos ↦
        if leb idpos namepos
        then some (error_dealer (codes "POST") url connfd)
        else form_task entity namepos idpos connfd
  ]
]

-- How the loop comes out after some rounds: it has ended, with the messages that were put, it has
-- met a fault, or it still runs.
pub data Dealt : Type 0 where
  ended : List OutPutTask → Dealt
  fault : Dealt
  running : Dealt

abbrev pub behind : List OutPutTask → Dealt → Dealt
behind tasks (ended later) = ended (tasks ++ later)
behind tasks fault = fault
behind tasks running = running

module _ (files : Files) (connfd : ℕ) where
  -- The answer to one request.
  unfoldable pub answer_url : Bytes → Bytes → Bytes → ℕ → Option OutPutTask
  unfolding post_task
  answer_url method url request entity_pos =
      if bytes_eq method (codes "GET")
      then get_dealer files method url connfd
      else if not (bytes_eq url (codes "/Post_show"))
      then some (error_dealer method url connfd)
      else (do
        entity ← substr request entity_pos (length request - entity_pos)
        post_task url entity connfd)

  unfoldable pub answer : Bytes → ℕ → Option OutPutTask
  unfolding answer_url until
  answer request entity_pos = do
    method ← until b' ' request
    (if not (is_known method) then some (error_dealer method [] connfd) else (do
      url ← until b' ' (drop (length method + 1) request)
      answer_url method url request entity_pos))

  -- A request is answered, and one character stays in the buffer.
  unfoldable pub dealt : Bytes → Bytes → ℕ → Option (List OutPutTask × Bytes)
  dealt s_buf request entity_pos = do
    s_buf' ← char_at s_buf (length request)
    task ← answer request entity_pos
    some (task ∷ [], s_buf')

  -- One round of the loop: the messages that are put, and the buffer after it.
  unfoldable pub round : Bytes → Option (List OutPutTask × Bytes)
  round s_buf = elim (find (codes "\r\n\r\n") s_buf) [
    | none ↦ some ([], s_buf)
    | some request_end_pos ↦ (do
      cut ← cut_request s_buf (request_end_pos + 4)
      elim cut [
        | none ↦ some ([], s_buf)
        | some (request, entity_pos) ↦ dealt s_buf request entity_pos
      ])
  ]

  unfoldable pub dealer : ℕ → Bytes → Dealt
  dealer zero s_buf = running
  dealer (suc rounds) s_buf = elim (has_request s_buf) [
    | false ↦ ended []
    | true ↦ elim (round s_buf) [
      | none ↦ fault
      | some (tasks, s_buf') ↦ behind tasks (dealer rounds s_buf')
    ]
  ]
