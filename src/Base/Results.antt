-- ===== src/Base/Results.antt =====
-- `ChiakiErrorCode` of lib/include/chiaki/common.h.
use mathlib.Core.Bool.{Bool, true, false}

pub data ErrorCode : Type 0 where
  success unknown parse_addr thread memory overflow network connection_refused : ErrorCode
  host_down host_unreach disconnected invalid_data buf_too_small mutex_locked canceled : ErrorCode
  timeout invalid_response invalid_mac uninitialized fec_failed version_mismatch : ErrorCode
  http_nonok : ErrorCode

abbrev pub is_success : ErrorCode → Bool
is_success success = true
is_success _ = false

-- What a function that returns an error code and fills an out parameter gives.
pub data Result {ℓ} (A : Type ℓ) : Type ℓ where
  fail : ErrorCode → Result A
  ok : A → Result A
