-- ===== src/HttpServer/Client.antt =====
-- `client_process` and `output_process` of Lab2/httpserverMy.cc: one connection from its first bytes to
-- its end, and one message of the output thread. `none` is a fault.
pub mod Buffer
pub mod Overflow
use cloud_computing.Prelude.{
  ℕ, ◌+◌, Bool, true, false, Option, none, some, List, [], ◌∷◌, ◌++◌, Bytes, length, drop, ltb, leb,
  ◌==◌, replicate, if◌then◌else◌,
}
use cloud_computing.HttpServer.Ring.{OutPutTask}
use cloud_computing.HttpServer.Messages.{Files}
use cloud_computing.HttpServer.Dealer.{Dealt, ended, fault, running, behind, dealer, until}

abbrev pub recv_size : ℕ
recv_size = 3000

-- `char recv_buf[3000] = ""`
unfoldable pub empty_buf : Bytes
empty_buf = replicate recv_size 0

-- `recv` writes at the front and leaves the bytes behind as they are.
unfoldable pub received : Bytes → Bytes → Bytes
received chunk recv_buf = chunk ++ drop (length chunk) recv_buf

-- what follows an ended loop
abbrev pub and_then : Dealt → Dealt → Dealt
and_then (ended tasks) later = behind tasks later
and_then fault later = fault
and_then running later = running

module _ (files : Files) (connfd : ℕ) where
  abbrev deal_text : ℕ → Option Bytes → Dealt
  deal_text rounds none = fault
  deal_text rounds (some s_buf) = dealer files connfd rounds s_buf

  -- `Dealer(recv_buf, connfd)`; without a NUL in the buffer the copy reads behind it
  unfoldable pub deal_buffer : ℕ → Bytes → Dealt
  deal_buffer rounds recv_buf = deal_text rounds (until 0 recv_buf)

  -- What `recv` returns until the client closes, each piece dealt with in at most `rounds` rounds.
  unfoldable pub client_process : ℕ → Bytes → List Bytes → Dealt
  client_process rounds recv_buf [] = ended []
  client_process rounds recv_buf (chunk ∷ chunks) =
      let recv_buf' = received chunk recv_buf in
      and_then (deal_buffer rounds recv_buf') (client_process rounds recv_buf' chunks)

-- What is sent to a client: the text of a message, or a file of some size.
pub data Sent : Type 0 where
  sent_text : Bytes → Sent
  sent_file : Bytes → ℕ → Sent

-- the text before the first NUL, as `%s` prints it
unfoldable pub c_str : Bytes → Bytes
c_str [] = []
c_str (c ∷ s) = let rest = c_str s in if c == 0 then [] else c ∷ rest

unfoldable pub file_behind : Files → OutPutTask → List Sent
file_behind files task =
    if task.kind == 0
    then elim (files task.file_path) [
      | none ↦ []
      | some st_size ↦ sent_file task.file_path st_size ∷ []
    ]
    else []

-- One turn of `output_process`: `sprintf` into `char send_buf[1024]`, which needs room for the NUL.
unfoldable pub output : Files → OutPutTask → Option (List Sent)
unfolding c_str file_behind
output files task =
    if ltb (length (c_str task.message)) 1024
    then some (sent_text (c_str task.message) ∷ file_behind files task)
    else none
