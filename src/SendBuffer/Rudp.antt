-- ===== src/SendBuffer/Rudp.antt =====
-- The send buffer of lib/src/remote/rudpsendbuffer.c: 16 bit numbers, resent after 400 ms.
use vitaki_vitarps.Base.{ℕ, Bool, false, List, Option, ErrorCode}
use vitaki_vitarps.SeqNum.{seq_num_16_lt}
use vitaki_vitarps.SendBuffer.Buffer
use vitaki_vitarps.SendBuffer.Buffer.{Buffer, Effect, Platform}
use vitaki_vitarps.SendBuffer.Resend
use vitaki_vitarps.SendBuffer.Resend.{Resent}

abbrev pub data_resend_timeout_ms : ℕ
data_resend_timeout_ms = 400

unfoldable pub rudp_init : Platform → ℕ → ErrorCode × Option Buffer
rudp_init = Buffer.init

unfoldable pub rudp_fini : Buffer → List Effect
rudp_fini = Buffer.fini

-- An overflow is only logged.
unfoldable pub rudp_push : ErrorCode → ℕ → Buffer → ℕ → ℕ → ℕ → ErrorCode × Buffer × List Effect
rudp_push lock now b seq_num buf buf_size = Buffer.push lock false now b seq_num buf buf_size

unfoldable pub rudp_ack : ErrorCode → Buffer → ℕ → ErrorCode × Buffer × List ℕ × List Effect
rudp_ack = Buffer.ack seq_num_16_lt

unfoldable pub rudp_resend : ℕ → Bool → Buffer → Resent
rudp_resend now = Resend.resend seq_num_16_lt data_resend_timeout_ms now

unfoldable pub rudp_wait : Buffer → Option ℕ
rudp_wait = Resend.wait_timeout data_resend_timeout_ms

unfoldable pub rudp_thread : ℕ → Bool → ErrorCode → Buffer → Option Resent
rudp_thread now = Resend.thread_round seq_num_16_lt data_resend_timeout_ms now
