-- ===== src/HttpServer/Client/Overflow.antt =====
-- The error message for a long URL does not fit the send buffer.
use cloud_computing.Prelude.{
  ℕ, suc, ◌+◌, ◌≤◌, ◌≡◌, ◌≢◌, refl, ◌∙◌, ap, none, some, [], ◌∷◌, ◌++◌, Bytes, codes, bytes_eq, All,
  All-append, length, length-append, append_assoc, arith,
}
use cloud_computing.Std.Int.{ℤ, pos, negsuc}
use cloud_computing.Std.Number.{to_string, to_string_int, to_int}
use cloud_computing.Std.Number.RoundTrip.{IsDigit, to_string-IsDigit}
use cloud_computing.HttpServer.Ring.{OutPutTask}
use cloud_computing.HttpServer.Messages.{
  Files, length_string, error_dealer, not_found_entity, with_length, path_of, file_answer,
}
use cloud_computing.HttpServer.Dealer.{ended, dealer}
use cloud_computing.HttpServer.Dealer.Requests.{get_head, blank, IsGet, dealer-get}
use cloud_computing.HttpServer.Client.{c_str, output}
use cloud_computing.HttpServer.Client.Buffer.{NoNul}

c_str-append : (front rest : Bytes) → NoNul front → length front ≤ length (c_str (front ++ rest))
unfolding c_str
c_str-append [] rest h = omega arith
c_str-append (c ∷ front) rest (hc, h) = ground (arith, c_str-append front rest h)

NoNul-digits : (s : Bytes) → All IsDigit s → NoNul s
NoNul-digits [] h = tt
NoNul-digits (c ∷ s) (hc, h) = (omega (arith, hc), NoNul-digits s h)

NoNul-to_string_int : (z : ℤ) → NoNul (to_string_int z)
unfolding to_string_int
NoNul-to_string_int (pos n) = NoNul-digits (to_string n) (to_string-IsDigit n)
NoNul-to_string_int (negsuc n) =
    (omega arith, NoNul-digits (to_string (n + 1)) (to_string-IsDigit (n + 1)))

-- What `sprintf` prints of a head, the length, and an entity up to a place in it.
long_message :
    (head front rest : Bytes)
    → NoNul head
    → NoNul front
    → length head + length front ≤ length (c_str (with_length head (front ++ rest)))
unfolding with_length
long_message head front rest h f =
    let number : Bytes = length_string (length (front ++ rest)) in
    let before : Bytes = head ++ (number ++ (codes "\r\n\r\n" ++ front)) in
    let digits : NoNul number =
      unfold length_string in NoNul-to_string_int (to_int (pos (length (front ++ rest)))) in
    let clean : NoNul before =
      All-append (λ c. c ≢ 0) head (number ++ (codes "\r\n\r\n" ++ front)) h
        (All-append (λ c. c ≢ 0) number (codes "\r\n\r\n" ++ front) digits
          (omega arith, (omega arith, (omega arith, (omega arith, f))))) in
    let shape : before ++ rest ≡ with_length head (front ++ rest) =
      unfold with_length in simp append_assoc in
    let printed : length before ≤ length (c_str (with_length head (front ++ rest))) =
      rw shape at (c_str-append before rest clean) in
    omega (
      arith,
      printed,
      length-append head (number ++ (codes "\r\n\r\n" ++ front)),
      length-append number (codes "\r\n\r\n" ++ front),
    )

abbrev head_404 : Bytes
head_404 = codes "Http/1.1 404 Not Found\r\nContent-type: text/html\r\nContent-Length: "

abbrev before_url : Bytes
before_url =
    codes
      "<html><title>GET 404 Not Found</title><body bgcolor=ffffff>\n Not Found\n<p>Couldn't find this file: "

abbrev after_url : Bytes
after_url = codes "\n<hr><em>HTTP Web Sever</em>\n</body></html>\n"

NoNul-before_url : NoNul before_url
NoNul-before_url = omega arith

NoNul-head_404 : NoNul head_404
NoNul-head_404 = omega arith

get_error_long :
    (url : Bytes) (connfd : ℕ)
    → NoNul url
    → length url + 124 ≤ length (c_str ((error_dealer (codes "GET") url connfd).message))
unfolding error_dealer bytes_eq not_found_entity
get_error_long url connfd no_nul =
    let whole : (before_url ++ url) ++ after_url ≡ not_found_entity (codes "GET") url =
      append_assoc before_url url after_url in
    let printed : length head_404 + length (before_url ++ url)
        ≤ length (c_str (with_length head_404 (not_found_entity (codes "GET") url))) =
      rw whole at (
        long_message head_404 (before_url ++ url) after_url NoNul-head_404
          (All-append (λ c. c ≢ 0) before_url url NoNul-before_url no_nul)) in
    omega (arith, printed, length-append before_url url)

-- A `GET` for a missing file, whose URL has 900 bytes or more, is answered with a message that is
-- longer than the send buffer of the output thread: the thread writes behind the buffer.
pub dealer-overflow :
    (url fields rest path : Bytes) (files : Files) (connfd rounds : ℕ)
    → IsGet url fields rest
    → path_of url ≡ some path
    → files path ≡ none
    → NoNul url
    → 900 ≤ length url
    → (task : OutPutTask) × (dealer files connfd
          (suc (suc rounds))
          (get_head url fields ++ (blank ++ rest))
        ≡ ended (task ∷ []))
      × (output files task ≡ none)
unfolding output
dealer-overflow url fields rest path files connfd rounds g is_path missing no_nul long = (
  error_dealer (codes "GET") url connfd,
  dealer-get url fields rest g files connfd path is_path rounds
      ∙ ap (λ o. ended (file_answer (codes "GET") url path connfd o ∷ [])) missing
      ∙ unfold file_answer in refl,
  ground (arith, get_error_long url connfd no_nul),
)
