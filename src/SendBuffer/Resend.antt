-- ===== src/SendBuffer/Resend.antt =====
-- The thread of a send buffer: when it wakes, and what it sends again. Between the two calls of the
-- mutex round `ack` no other thread is let in.
use vitaki_vitarps.Base.{
  is_success, ℕ, zero, suc, ◌+◌, ◌-◌, ◌%◌, ◌/◌, ◌^◌, Bool, true, false, ◌||◌, ◌&&◌, not, List, [],
  ◌∷◌, ◌++◌, Option, none, some, ltb, leb, ◌==◌, if◌then◌else◌, get_or, set, length, ErrorCode,
  success, timeout,
}
use vitaki_vitarps.SendBuffer.Buffer.{Packet, Buffer, Effect, blank, ack, send_raw}

-- What a round of resending leaves: the buffer, the effects, and whether `ack` wrote more than one
-- number to the single variable that it is given for them.
pub record Resent : Type 0 where
  pub buffer : Buffer
  pub effects : List Effect
  pub overrun : Bool

abbrev pub tries_max : ℕ
tries_max = 10

-- `now - packet->last_send_ms > timeout`, in 64 bits.
abbrev pub is_due : ℕ → ℕ → Packet → Bool
is_due resend_timeout now p = ltb resend_timeout ((now + 2 ^ 64 - p.last_send_ms) % 2 ^ 64)

abbrev pub sent_again : ℕ → Packet → Packet
sent_again now p = record p { last_send_ms = now; tries = p.tries + 1 }

-- What a round of the loop does with the packet at its index.
pub data Action : Type 0 where
  ends waits gives_up sends : Action

unfoldable pub action : ℕ → ℕ → ℕ → Buffer → Action
action resend_timeout now i b =
    let p = get_or b.packets i blank in
    if leb b.packets_count i
    then ends
    else if not (is_due resend_timeout now p)
    then waits
    else if leb tries_max p.tries
    then gives_up
    else sends

module _ (lt : ℕ → ℕ → Bool) (resend_timeout now : ℕ) where
  -- The loop from index `i`, on fuel. `i -= 1; continue;` comes back to the same index.
  unfoldable pub resend_from : ℕ → ℕ → Buffer → Resent
  resend_from zero i b = record { buffer = b; effects = []; overrun = false }
  resend_from (suc fuel) i b =
      let p = get_or b.packets i blank in
      let (e, acked_b, acked, freed) = ack lt success b p.seq_num in
      let given_up = resend_from fuel i acked_b in
      let again =
        resend_from fuel (i + 1) (record b { packets = set b.packets i (sent_again now p) }) in
      let later = resend_from fuel (i + 1) b in
      elim (action resend_timeout now i b) [
        | ends ↦ record { buffer = b; effects = []; overrun = false }
        | waits ↦ later
        | gives_up ↦ record {
          buffer = given_up.buffer;
          effects = freed ++ given_up.effects;
          overrun = ltb 1 (length acked) || given_up.overrun;
        }
        | sends ↦ record again { effects = send_raw p.buf p.buf_size ∷ again.effects }
      ]

  -- `connected` is whether there is a connection to send on.
  unfoldable pub resend : Bool → Buffer → Resent
  unfolding resend_from
  resend connected b =
      if connected
      then resend_from b.packets_count 0 b
      else record { buffer = b; effects = []; overrun = false }

-- How the thread waits: with the timeout when there are packets, without one when there are none.
abbrev pub wait_timeout : ℕ → Buffer → Option ℕ
wait_timeout resend_timeout b = if b.packets_count == 0 then none else some (resend_timeout / 2)

-- The predicates that end the two waits.
abbrev pub check_pred_packets : Buffer → Bool
check_pred_packets b = b.should_stop

abbrev pub check_pred_no_packets : Buffer → Bool
check_pred_no_packets b = b.should_stop || not (b.packets_count == 0)

abbrev is_timeout : ErrorCode → Bool
is_timeout timeout = true
is_timeout _ = false

-- One round of the thread after a wait that returned `err`; `none` ends the thread.
unfoldable pub thread_round : (ℕ → ℕ → Bool) → ℕ → ℕ → Bool → ErrorCode → Buffer → Option Resent
thread_round lt resend_timeout now connected err b =
    if not (is_success err) && not (is_timeout err)
    then none
    else if b.should_stop
    then none
    else some (resend lt resend_timeout now connected b)
