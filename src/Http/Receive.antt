-- ===== src/Http/Receive.antt =====
-- lib/src/http.c: a header is received until its empty line ends it. What each round of the loop
-- sees, a `recv` that `EINTR` stopped left aside, is a list; the bytes are `char`s from 0 to 255.
use vitaki_vitarps.Base.{
  ℕ, Bool, true, false, ◌+◌, ◌-◌, Option, none, some, List, [], ◌∷◌, ◌==◌, if◌then◌else◌, length,
  ErrorCode, Result, fail, ok, disconnected, network,
}

abbrev pub cr : ℕ
cr = 13

abbrev pub lf : ℕ
lf = 10

-- What the bytes read end with.
pub data NlState : Type 0 where
  nothing after_r after_rn after_rnr final : NlState

-- `transitions_r`; the loops are left in the final state.
unfoldable pub transitions_r : NlState → NlState
transitions_r nothing = after_r
transitions_r after_r = after_r
transitions_r after_rn = after_rnr
transitions_r after_rnr = after_r
transitions_r final = final

unfoldable pub transitions_n : NlState → NlState
transitions_n nothing = nothing
transitions_n after_r = after_rn
transitions_n after_rn = nothing
transitions_n after_rnr = final
transitions_n final = final

-- The `switch`.
unfoldable pub transition : ℕ → NlState → NlState
unfolding transitions_r transitions_n
transition c s = if c == cr then transitions_r s else if c == lf then transitions_n s else nothing

-- `nl_state == 4`.
abbrev pub is_final : NlState → Bool
is_final final = true
is_final _ = false

-- The loop over what one `recv` gave: the state, and the number of bytes not looked at.
unfoldable pub scan : NlState → List ℕ → NlState × ℕ
unfolding transition
scan s [] = (s, 0)
scan s (c ∷ cs) =
    let s' = transition c s in
    let rest = scan s' cs in if is_final s' then (s', length cs) else rest

-- What a round of the loop sees: the stop pipe's error, or what `recv` gives.
pub data Round : Type 0 where
  stopped : ErrorCode → Round
  failed : Round
  received : List ℕ → Round

-- The sizes of the header and of all that was received.
pub record Sizes : Type 0 where
  pub header_size : ℕ
  pub received_size : ℕ

-- The loop, with the state and the bytes counted; none while it waits for another round.
unfoldable pub receive_from : NlState → ℕ → List Round → Option (Result Sizes)
unfolding scan
receive_from s size [] = none
receive_from s size (stopped err ∷ rs) = some (fail err)
receive_from s size (failed ∷ rs) = some (fail network)
receive_from s size (received [] ∷ rs) = some (fail disconnected)
receive_from s size (received (c ∷ cs) ∷ rs) =
    let (s', left) = scan s (c ∷ cs) in
    let received_size = size + length (c ∷ cs) in
    let rest = receive_from s' received_size rs in
    if is_final s'
    then some (ok (record { header_size = received_size - left; received_size = received_size }))
    else rest

unfoldable pub recv_http_header : List Round → Option (Result Sizes)
unfolding receive_from
recv_http_header rs = receive_from nothing 0 rs

-- A response over RUDP, which is one message: the error of `chiaki_rudp_send_recv`, or the message's
-- data behind its first two bytes. Those are there, since the call asks for two bytes at least. The
-- size of the header is none when `*header_size` stays as it was.
unfoldable pub send_recv_http_header_psn : Result (List ℕ) → Result (Option ℕ × ℕ)
unfolding scan
send_recv_http_header_psn (fail err) = fail err
send_recv_http_header_psn (ok []) = fail disconnected
send_recv_http_header_psn (ok (c ∷ cs)) =
    let (s, left) = scan nothing (c ∷ cs) in
    let received_size = length (c ∷ cs) in
    ok ((if is_final s then some (received_size - left) else none), received_size)
