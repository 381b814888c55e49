-- ===== src/HttpServer/Messages.antt =====
-- `Error_dealer`, `Get_dealer` and `Post_dealer` of Lab2/httpserverMy.cc: the message that each hands to
-- `putMessage`. What `open` and `fstat` find at a path is a parameter.
use cloud_computing.Prelude.{
  ℕ, Bool, not, ◌||◌, Option, none, some, [], ◌∷◌, ◌++◌, Bytes, codes, bytes_eq, length, ◌==◌,
  ◌>>=◌, if◌then◌else◌,
}
use cloud_computing.Std.Int.{pos}
use cloud_computing.Std.Number.{to_string_int, to_int}
use cloud_computing.Std.Text.{find}
use cloud_computing.HttpServer.Ring.{OutPutTask}

-- the size of the file at a path, if it can be opened
abbrev pub Files : Type 0
Files = Bytes → Option ℕ

-- an `int` that holds a length, printed
unfoldable pub length_string : ℕ → Bytes
length_string n = to_string_int (to_int (pos n))

-- `putMessage(1, "NULL", ...)`
abbrev pub put_text : ℕ → Bytes → OutPutTask
put_text sockfd message = record {
  kind = 1;
  file_path = codes "NULL";
  sockfd = sockfd;
  message = message;
}

unfoldable pub not_implemented_entity : Bytes → Bytes
not_implemented_entity method =
    codes
      "<htmL><title>501 Not Implemented</title><body bgcolor=ffffff>\n Not Implemented\n<p>Does not implement this method: "
    ++ (method ++ codes "\n,<hr><em>HTTP Web Server </em>\n</body></html>\n")

unfoldable pub not_found_entity : Bytes → Bytes → Bytes
not_found_entity method url =
    if bytes_eq method (codes "GET")
    then codes
        "<html><title>GET 404 Not Found</title><body bgcolor=ffffff>\n Not Found\n<p>Couldn't find this file: "
      ++ (url ++ codes "\n<hr><em>HTTP Web Sever</em>\n</body></html>\n")
    else codes
        "<html><title>POST 404 Not Found</title><body bgcolor=ffffff>\n Not Found\n<hr><em>HTTP Web Sever</em>\n</body></html>\n"

-- A head that ends with the length of the entity, and the entity.
unfoldable pub with_length : Bytes → Bytes → Bytes
unfolding length_string
with_length head entity = head ++ (length_string (length entity) ++ (codes "\r\n\r\n" ++ entity))

abbrev pub is_known : Bytes → Bool
is_known method = bytes_eq method (codes "GET") || bytes_eq method (codes "POST")

unfoldable pub error_dealer : Bytes → Bytes → ℕ → OutPutTask
unfolding not_implemented_entity not_found_entity with_length
error_dealer method url sockfd =
    if not (is_known method)
    then put_text sockfd (
        with_length
          (codes "Http/1.1 501 Not Implemented\r\nContent-type: text/html\r\nContent-Length: ")
          (not_implemented_entity method))
    else put_text sockfd (
        with_length (codes "Http/1.1 404 Not Found\r\nContent-type: text/html\r\nContent-Length: ")
          (not_found_entity method url))

-- `s[s.length() - 1]`, a fault in the empty string
unfoldable pub last_char : Bytes → Option ℕ
last_char [] = none
last_char (c ∷ []) = some c
last_char (c ∷ d ∷ s) = last_char (d ∷ s)

-- The path of a file below the folder `src`.
unfoldable pub path_of : Bytes → Option Bytes
unfolding last_char
path_of url = elim (find (codes ".") url) [
  | none ↦ (do
    c ← last_char url
    some (
        codes "./src" ++ (url ++ (if c == b'/' then codes "index.html" else codes "./index.html"))))
  | some dot ↦ some (codes "./src" ++ url)
]

-- The message of a file, which the output thread sends behind it.
unfoldable pub file_task : Bytes → ℕ → ℕ → OutPutTask
unfolding length_string
file_task path st_size sockfd = record {
  kind = 0;
  file_path = path;
  sockfd = sockfd;
  message =
      codes "Http/1.1 200 OK\r\nContent-Length: "
      ++ (length_string st_size ++ codes "\r\nContent-Type: text/html\r\n\r\n");
}

-- The answer for a path where `open` finds a file of some size or fails.
unfoldable pub file_answer : Bytes → Bytes → Bytes → ℕ → Option ℕ → OutPutTask
unfolding file_task error_dealer
file_answer method url path sockfd none = error_dealer method url sockfd
file_answer method url path sockfd (some st_size) = file_task path st_size sockfd

unfoldable pub get_dealer : Files → Bytes → Bytes → ℕ → Option OutPutTask
unfolding path_of file_answer
get_dealer files method url sockfd = do
  path ← path_of url
  some (file_answer method url path sockfd (files path))

unfoldable pub post_entity : Bytes → Bytes → Bytes
post_entity name id =
    codes "<html><title>POST Method</title><body bgcolor=ffffff>\nYour Name: "
    ++ (name
        ++ (codes "\nID: " ++ (id ++ codes "\n<hr><em>Http Web server</em>\n</body></html>\n")))

unfoldable pub post_dealer : Bytes → Bytes → ℕ → OutPutTask
unfolding post_entity with_length
post_dealer name id sockfd = put_text sockfd (
    with_length (codes "HTTP/1.1 200 OK\r\ncontent-type: text/html\r\ncontent-length: ")
      (post_entity name id))
