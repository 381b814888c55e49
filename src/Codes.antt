-- ===== src/Codes.antt =====
-- The codes that calls return: Lab3/src/include/core.hpp, and `RET_SKIP` of
-- Lab3/src/include/coordinator.hpp.
use cloud_computing.Prelude.{Bool, true, false}

pub data Code : Type 0 where
  kv_ok kv_io kv_invalidarg kv_timeout kv_quiesced kv_edu_inval_status : Code
  kv_network kv_network_close kv_set kv_get kv_del kv_bad_commad kv_bad_update : Code
  ret_skip : Code

-- `rc == KV_OK`
unfoldable pub is_ok : Code → Bool
is_ok kv_ok = true
is_ok _ = false

-- `rc == KV_NETWORK_CLOSE`
unfoldable pub is_close : Code → Bool
is_close kv_network_close = true
is_close _ = false
