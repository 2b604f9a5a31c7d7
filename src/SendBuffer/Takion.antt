-- ===== src/SendBuffer/Takion.antt =====
-- The send buffer of lib/src/takionsendbuffer.c: 32 bit numbers, resent after 200 ms.
use vitaki_vitarps.Base.{ℕ, Bool, List, Option, ErrorCode}
use vitaki_vitarps.SeqNum.{seq_num_32_lt}
use vitaki_vitarps.SendBuffer.Buffer
use vitaki_vitarps.SendBuffer.Buffer.{Buffer, Effect, Platform}
use vitaki_vitarps.SendBuffer.Resend
use vitaki_vitarps.SendBuffer.Resend.{Resent}

abbrev pub data_resend_timeout_ms : ℕ
data_resend_timeout_ms = 200

unfoldable pub takion_init : Platform → ℕ → ErrorCode × Option Buffer
takion_init = Buffer.init

unfoldable pub takion_fini : Buffer → List Effect
takion_fini = Buffer.fini

-- `report` is whether the buffer's takion has a stream connection.
unfoldable pub takion_push :
    ErrorCode → Bool → ℕ → Buffer → ℕ → ℕ → ℕ → ErrorCode × Buffer × List Effect
takion_push = Buffer.push

unfoldable pub takion_ack : ErrorCode → Buffer → ℕ → ErrorCode × Buffer × List ℕ × List Effect
takion_ack = Buffer.ack seq_num_32_lt

unfoldable pub takion_resend : ℕ → Bool → Buffer → Resent
takion_resend now = Resend.resend seq_num_32_lt data_resend_timeout_ms now

unfoldable pub takion_wait : Buffer → Option ℕ
takion_wait = Resend.wait_timeout data_resend_timeout_ms

unfoldable pub takion_thread : ℕ → Bool → ErrorCode → Buffer → Option Resent
takion_thread now = Resend.thread_round seq_num_32_lt data_resend_timeout_ms now
