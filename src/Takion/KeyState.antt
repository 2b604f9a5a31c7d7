-- ===== src/Takion/KeyState.antt =====
-- `ChiakiKeyState` of lib/src/gkcrypt.c: 64 bit positions in the key stream from their low 32 bits.
use vitaki_vitarps.Base.{
  ℕ, ◌+◌, ◌-◌, ◌*◌, ◌/◌, ◌%◌, ◌^◌, ◌<◌, ◌≡◌, ap, Bool, not, ◌&&◌, ltb, ◌==◌, if◌then◌else◌, arith,
}
use vitaki_vitarps.SeqNum.{seq_num_32_lt, seq_num_32_gt, seq_num_lt, seq_num_gt}

pub record KeyState : Type 0 where
  pub prev : ℕ

unfoldable pub init : KeyState
init = record { prev = 0 }

-- `high` of `chiaki_key_state_request_pos` when it is put before `low`.
unfoldable pub request_high : ℕ → ℕ → ℕ
request_high prev low =
    let prev_low = prev % 2 ^ 32 in
    let high = prev / 2 ^ 32 in
    if seq_num_32_gt low prev_low && ltb low prev_low
    then (high + 1) % 2 ^ 32
    else if seq_num_32_lt low prev_low && ltb prev_low low && not (high == 0)
    then high - 1
    else high

-- The result is the position and the state left.
unfoldable pub request_pos : KeyState → ℕ → Bool → ℕ × KeyState
unfolding request_high
request_pos state low commit =
    let res = request_high state.prev low * 2 ^ 32 + low in
    (res, if commit then record state { prev = res } else state)

unfoldable pub commit : KeyState → ℕ → KeyState
commit state prev = record state { prev = prev }

high_of_near :
    (prev pos : ℕ)
    → pos < 2 ^ 64
    → prev < 2 ^ 64
    → pos < prev + 2 ^ 31
    → prev < pos + 2 ^ 31
    → request_high prev (pos % 2 ^ 32) ≡ pos / 2 ^ 32
unfolding request_high seq_num_lt seq_num_gt
high_of_near prev pos hp hq up down = ground arith

-- A position less than 2 ^ 31 away from the last one, on either side, is recovered from its low 32
-- bits, and is the last position afterwards when it is committed.
pub request_pos_near :
    (state : KeyState) (pos : ℕ) (commit : Bool)
    → pos < 2 ^ 64
    → state.prev < 2 ^ 64
    → pos < state.prev + 2 ^ 31
    → state.prev < pos + 2 ^ 31
    → request_pos state (pos % 2 ^ 32) commit
      ≡ (pos, if commit then record { prev = pos } else state)
unfolding request_pos
request_pos_near state pos commit hp hq up down =
    let same : request_high state.prev (pos % 2 ^ 32) * 2 ^ 32 + pos % 2 ^ 32 ≡ pos =
      omega (arith, high_of_near state.prev pos hp hq up down) in
    ap (λ res. (res, if commit then record { prev = res } else state)) same
