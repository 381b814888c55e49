-- ===== src/Examples/Web.antt =====
-- Requests to the web server.
use cloud_computing.Prelude.{
  ℕ, zero, suc, ◌≡◌, ◌≢◌, refl, none, some, [], ◌∷◌, ◌++◌, Bytes, codes, bytes_eq, All, All-append,
  length, replicate, length-replicate, ltb, if◌then◌else◌, arith,
}
use cloud_computing.Std.Text.{find, substr}
use cloud_computing.Std.Text.Find.{find-append, find_none}
use cloud_computing.Std.Number.{atoi, strtol}
use cloud_computing.HttpServer.Ring.{OutPutTask}
use cloud_computing.HttpServer.Messages.{Files, path_of, file_answer, post_dealer}
use cloud_computing.HttpServer.Dealer.{
  ended, fault, running, dealer, has_request, until, whole_request, cut_request, char_at, answer,
  answer_url, dealt, round, post_task,
}
use cloud_computing.HttpServer.Dealer.Settles.{Settles, dealer-Settles}
use cloud_computing.HttpServer.Dealer.Requests.{get_head, blank, IsGet, dealer-get}
use cloud_computing.HttpServer.Client.{recv_size, empty_buf, received, deal_buffer, output}
use cloud_computing.HttpServer.Client.Buffer.{
  HasText, HasText-empty_buf, over, received-deal_buffer,
}
use cloud_computing.HttpServer.Client.Overflow.{dealer-overflow}

abbrev one_file : Files
one_file path = if bytes_eq path (codes "./src/index.html") then some 443 else none

abbrev url : Bytes
url = codes "/index.html"

abbrev fields : Bytes
fields = codes "\r\nHost: 127.0.0.1"

abbrev second : Bytes
second = codes "GET / HTTP/1.1\r\n\r\n"

url-IsGet : IsGet url fields second
unfolding find
url-IsGet = record { no_space = omega arith; first_blank = refl; no_entity = refl }

dealer-get_example :
    dealer one_file 4 2 (get_head url fields ++ (blank ++ second))
    ≡ ended (
        file_answer
          (codes "GET")
          url
          (codes "./src/index.html")
          4
          (one_file (codes "./src/index.html"))
        ∷ [])
unfolding find path_of
dealer-get_example =
    dealer-get url fields second url-IsGet one_file 4 (codes "./src/index.html") refl 0

dealer-Settles_example :
    Settles one_file 4 (codes "POST /Post_show HTTP/1.1\r\nContent-Length: 14\r\n\r\nName=a")
dealer-Settles_example =
    dealer-Settles one_file 4 (codes "POST /Post_show HTTP/1.1\r\nContent-Length: 14\r\n\r\nName=a")

post_runs :
    dealer one_file 4 2
      (codes "POST /Post_show HTTP/1.1\r\nContent-Length: 14\r\n\r\nName=ann&ID=12")
    ≡ ended (post_dealer (codes "ann&") (codes "12") 4 ∷ [])
unfolding dealer has_request round find substr until whole_request cut_request char_at answer
    answer_url dealt post_task atoi strtol bytes_eq
post_runs = refl

-- a `POST` whose entity comes in a second piece is never answered
partial_runs :
    dealer one_file 4 9 (codes "POST /Post_show HTTP/1.1\r\nContent-Length: 14\r\n\r\nName=a")
    ≡ running
unfolding dealer has_request round find substr until whole_request cut_request char_at answer
    answer_url dealt post_task atoi strtol bytes_eq
partial_runs = refl

received-deal_buffer_example :
    (deal_buffer one_file 4 2 (received second empty_buf) ≡ (
      if ltb (length (over second [])) recv_size
      then dealer one_file 4 2 (over second [])
      else fault))
    × HasText (over second []) (received second empty_buf)
received-deal_buffer_example =
    received-deal_buffer one_file 4 2 second [] empty_buf HasText-empty_buf (omega arith)
      (omega arith)

All-replicate : (P : ℕ → Type 0) (n v : ℕ) → P v → All P (replicate n v)
unfolding replicate
All-replicate P zero v h = tt
All-replicate P (suc n) v h = (h, All-replicate P n v h)

abbrev tail : Bytes
tail = replicate 900 b'a'

abbrev long_url : Bytes
long_url = codes "/." ++ tail

long_url-All : (c : ℕ) → b'/' ≢ c → b'.' ≢ c → b'a' ≢ c → All (λ x. x ≢ c) long_url
long_url-All c slash dot a = (slash, (dot, All-replicate (λ x. x ≢ c) 900 b'a' a))

long_head-All :
    (c : ℕ)
    → All (λ x. x ≢ c) (codes "GET ")
    → All (λ x. x ≢ c) long_url
    → All (λ x. x ≢ c) (codes " HTTP/1.1" ++ [])
    → All (λ x. x ≢ c) (get_head long_url [])
long_head-All c a u b =
    All-append (λ x. x ≢ c) (codes "GET ") (long_url ++ (codes " HTTP/1.1" ++ [])) a
      (All-append (λ x. x ≢ c) long_url (codes " HTTP/1.1" ++ []) u b)

long_url-IsGet : IsGet long_url [] []
long_url-IsGet = record {
  no_space = long_url-All b' ' (omega arith) (omega arith) (omega arith);
  first_blank = find-append 13 (10 ∷ 13 ∷ 10 ∷ []) (get_head long_url []) [] (
      long_head-All 13 (omega arith) (long_url-All 13 (omega arith) (omega arith) (omega arith))
        (omega arith));
  no_entity = find_none b'C' (codes "ontent-Length") (get_head long_url [] ++ blank) (
      All-append (λ x. x ≢ b'C') (get_head long_url []) blank
        (long_head-All b'C' (omega arith)
          (long_url-All b'C' (omega arith) (omega arith) (omega arith)) (omega arith))
        (omega arith));
}

long_path : path_of long_url ≡ some (codes "./src" ++ long_url)
unfolding path_of find
long_path = refl

dealer-overflow_example :
    (task : OutPutTask) × (dealer (λ path. none) 4 2 (get_head long_url [] ++ (blank ++ []))
      ≡ ended (task ∷ []))
    × (output (λ path. none) task ≡ none)
dealer-overflow_example =
    dealer-overflow long_url [] [] (codes "./src" ++ long_url) (λ path. none) 4 0 long_url-IsGet
      long_path refl (long_url-All 0 (omega arith) (omega arith) (omega arith))
      (omega (arith, length-replicate {A = ℕ} 900 b'a'))
