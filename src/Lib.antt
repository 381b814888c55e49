-- ===== src/Lib.antt =====
-- The distributed key-value store of Lab3: clients send commands to a coordinator, which runs a
-- two-phase commit over TCP with its participants; each participant keeps a store and a log of its
-- transactions, and a participant that comes back is brought up to date from the logs. Beside it
-- stand the web server of Lab2, and the Sudoku program of Lab1: its job counter, its checks and its
-- solver.
--
-- Which file models which part:
--   Codes          the return codes of Lab3/src/include/core.hpp
--   Phmap          the hash map of the participants, a parameter with the laws that are relied on
--   Kv             Lab3/src/kv.cc: `get`, `set`, `del`, `del_arry` are `kvGET`, `kvSET`, `kvDEL`,
--                  `kvDELArry`
--   Parser         Lab3/src/parser.cc: the RESP messages, one function for each method
--   Logger         Lab3/src/logger.cc: log entries, their text form, and the map that holds them
--   Participant    Lab3/src/participant.cc: `p_worker`, `event_parser`, and `serve`, which answers
--                  one request after the other
--   Coordinator    Lab3/src/coordinator.cc: the state and the turns of its threads; `Update` is
--                  `UpdateDB`, `Request` and `Working`, and `Recover` is `Recovery` with its helpers
--   Network        Lab3/src/network.cc: `send`, `recv` and `send_and_recv` of one message, and
--                  `recv_command`; the socket of third_party is a parameter. `Connect` has
--                  `initBind`, the loops over `accept` and `connect`, and `keepAlive` of the
--                  participant
--   Util           `numtob`, `btonum` and `split` (`Split`) of Lab3/src/include/util.hpp
--   Client         Lab3/src/main.cc: what the client sends for a line, and the role of a node
--   System         the coordinator with its participants behind an unreliable network
--   Session        `Working` of Lab3/src/participant.cc: `serve_request`, one request over a connection
--   Lock           `cpLock` of Lab3/src/include/lock.hpp as a step relation
--   Conf           `readConf` of Lab3/src/conf.cc over the lines of the file
--   HttpServer     Lab2/httpserverMy.cc: `Ring` with its semaphores (`Pool`), the messages (`Messages`),
--                  `Dealer`, and `client_process` and `output_process` (`Client`); the file system
--                  is a parameter
--   Sudoku         Lab1: `get_job` of Lab1/main.cpp, and `solved` and the neighbours of a cell of
--                  Lab1/neighbor.cpp
--   Dance          Lab1/sudoku_dancing_links.cpp: the links of `Dance` with `cover` and `uncover`; `Build`
--                  is its constructor and `input`, `Solve` is `solve`, `Search` has the matrix that
--                  the links stand for and `Table` the one that is built; a node is the index
--                  it has in `nodes_`
--   Std            what is used of the C and C++ libraries: `to_string`, `strtol`, `atoi`, `find`,
--                  `substr`, `std::map`
--   Prelude        names, tests, lists and loops that all parts share
--   Examples       the theorems at concrete inputs, and runs
--
-- A string is the list of its bytes. A failed `assert`, an exception that nothing catches and a read
-- outside a buffer are `none`, and so is a position in a RESP message that overflows its `int`.
-- Integers are native numbers with the wrap of the source written out: transaction numbers are taken
-- modulo 2 ^ 64, and a number that is read from text goes through `long`, as in the source. A
-- `char *` is the bytes that it points to, the closing NUL included.
--
-- The worker threads of the coordinator hand over one task and one result at a time, so a turn of a
-- thread stands where its task is given; the turns of different participants touch different keys.
-- The parts that recover participants are executable; `recovery_from_p` takes one round for each
-- participant, and one more, since each round takes one out of those that are left to recover.
-- The loops of `Network` take a number of rounds: as many as there are bytes and timeouts are enough.
-- The loops of `Connect` take more rounds than calls fail.
-- The loops over the links of `Dance` end after as many rounds as their ring has nodes, and `solve`
-- waits for at most one call per column: a depth of `max_nodes`, and 5 rounds more, are enough for
-- any board.
-- In `System` each call to a participant is delivered, or loses its request or its reply, as a
-- function of the time says; a participant that faults does not answer any more.
--
-- Not modelled: starting threads, and console output; the libraries under
-- third_party; `main` of Lab1 and Lab2.
mod Examples
pub mod Codes
pub mod Conf
pub mod Coordinator
pub mod Dance
pub mod HttpServer
pub mod Kv
pub mod Lock
pub mod Client
pub mod Logger
pub mod Network
pub mod Parser
pub mod Participant
pub mod Phmap
pub mod Prelude
pub mod Session
pub mod Std
pub mod Util
pub mod Sudoku
pub mod System
