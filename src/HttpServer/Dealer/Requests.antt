-- ===== src/HttpServer/Dealer/Requests.antt =====
-- The answer to a `GET` request.
use cloud_computing.Prelude.{
  ℕ, suc, ◌+◌, ◌≡◌, ◌≢◌, refl, sym, subst, true, none, some, [], ◌∷◌, ◌++◌, Bytes, codes, bytes_eq,
  All, length, arith, append_assoc, append-nil, length-append, get_elem?-append_middle,
}
use cloud_computing.Std.Text.{find, substr}
use cloud_computing.Std.Text.Find.{find_of_mem, substr_middle}
use cloud_computing.HttpServer.Ring.{OutPutTask}
use cloud_computing.HttpServer.Messages.{Files, get_dealer, path_of, file_answer}
use cloud_computing.HttpServer.Dealer.{
  has_request, until, cut_request, char_at, answer, answer_url, dealt, round, ended, dealer,
}
use cloud_computing.HttpServer.Dealer.Settles.{settled}

pub until-append :
    (stop : ℕ) (front rest : Bytes)
    → All (λ c. c ≢ stop) front
    → until stop (front ++ (stop ∷ rest)) ≡ some front
unfolding until
until-append stop [] rest h = ground arith
until-append stop (c ∷ front) rest (hc, h) = ground (arith, until-append stop front rest h)

-- The request line and the other fields of a `GET` request.
abbrev pub get_head : Bytes → Bytes → Bytes
get_head url fields = codes "GET " ++ (url ++ (codes " HTTP/1.1" ++ fields))

abbrev pub blank : Bytes
blank = codes "\r\n\r\n"

pub record IsGet (url fields rest : Bytes) : Type 0 where
  pub no_space : All (λ c. c ≢ b' ') url
  -- the empty line behind the fields is the first one
  pub first_blank :
      find blank (get_head url fields ++ (blank ++ rest)) ≡ some (length (get_head url fields))
  pub no_entity : find (codes "Content-Length") (get_head url fields ++ blank) ≡ none

-- A request without an entity is cut off behind its head.
cut_request-head :
    (head rest : Bytes)
    → find (codes "Content-Length") (head ++ blank) ≡ none
    → cut_request (head ++ (blank ++ rest)) (length head + 4)
      ≡ some (some (head ++ blank, length (head ++ blank)))
unfolding cut_request
cut_request-head head rest no_entity =
    let front : substr (head ++ (blank ++ rest)) 0 (length head + 4) ≡ some (head ++ blank) =
      rw (sym (append_assoc head blank rest)) (
        substr_middle [] (head ++ blank) rest 0 (length head + 4) refl
          (sym (length-append head blank))) in
    rw (front, no_entity) refl

char_at-end : (text rest : Bytes) → (c : ℕ) × (char_at (text ++ rest) (length text) ≡ some (c ∷ []))
unfolding char_at
char_at-end text [] = (0, rw (append-nil text, get_elem?-append_middle text 0 []) refl)
char_at-end text (c ∷ rest) = (
  c,
  rw (append_assoc text (c ∷ rest) (0 ∷ []), get_elem?-append_middle text c (rest ++ (0 ∷ [])))
      refl,
)

module _ (url fields rest : Bytes) (g : IsGet url fields rest) (files : Files) (connfd : ℕ)
    (path : Bytes) (is_path : path_of url ≡ some path) where
  abbrev text : Bytes
  text = get_head url fields ++ (blank ++ rest)

  abbrev request : Bytes
  request = get_head url fields ++ blank

  abbrev task : OutPutTask
  task = file_answer (codes "GET") url path connfd (files path)

  has : has_request text ≡ true
  unfolding has_request
  has =
      let before : Bytes = codes "GET " ++ (url ++ codes " ") in
      let behind : Bytes = fields ++ (blank ++ rest) in
      let (n, e) = find_of_mem (codes "HTTP/1.1") before behind in
      let same : text ≡ before ++ (codes "HTTP/1.1" ++ behind) = simp append_assoc in
      rw (same, e) refl

  asked : get_dealer files (codes "GET") url connfd ≡ some task
  unfolding get_dealer
  asked = rw is_path refl

  answered : answer files connfd request (length request) ≡ some task
  unfolding answer answer_url bytes_eq until
  answered =
      let behind : Bytes = codes "HTTP/1.1" ++ (fields ++ blank) in
      let shape : url ++ (codes " HTTP/1.1" ++ fields) ++ blank ≡ url ++ (b' ' ∷ behind) =
        simp append_assoc in
      rw (shape, until-append b' ' url behind g.no_space) asked

  once : (c : ℕ) × (round files connfd text ≡ some (task ∷ [], c ∷ []))
  unfolding round dealt
  once =
      let (c, left) = char_at-end request rest in
      let whole : text ≡ request ++ rest = sym (append_assoc (get_head url fields) blank rest) in
      let put : dealt files connfd (request ++ rest) request (length request)
          ≡ some (task ∷ [], c ∷ []) =
        rw (left, answered) refl in
      (
        c,
        rw (g.first_blank, round, cut_request-head (get_head url fields) rest g.no_entity)
            (subst (λ t. dealt files connfd t request (length request) ≡ some (task ∷ [], c ∷ []))
              (sym whole) put),
      )

  -- A `GET` request is answered by exactly one message: the head for the file at the path of its URL,
  -- with the file behind it, or the error message if there is no such file. Two rounds of the loop are
  -- enough, and what stands behind the request in the buffer is not answered.
  pub dealer-get : (rounds : ℕ) → dealer files connfd (suc (suc rounds)) text ≡ ended (task ∷ [])
  dealer-get rounds = let (c, done) = once in settled files connfd text task c has done rounds
