-- ===== src/Examples/Logs.antt =====
-- The text of log entries of Lab3/src/logger.cc.
use cloud_computing.Prelude.{◌≡◌, some, codes, arith}
use cloud_computing.Logger.{log, log_commit, log_to_str, str_to_log}
use cloud_computing.Logger.RoundTrip.{str_to_log-log_to_str}

str_to_log-log_to_str_example :
    str_to_log (log_to_str (log 12 log_commit (codes "TXID: 7")))
    ≡ some (log 12 log_commit (codes "TXID: 7"))
str_to_log-log_to_str_example =
    str_to_log-log_to_str (log 12 log_commit (codes "TXID: 7")) (omega arith) (omega arith)
      (omega arith)
