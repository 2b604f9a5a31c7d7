-- ===== src/Http/ReceiveLaws.antt =====
-- The header's end is found however its bytes are split over the rounds.
use vitaki_vitarps.Base.{
  ℕ, ◌+◌, ◌-◌, ◌≤◌, ◌≡◌, refl, sym, ap, ◌∙◌, Bool, true, false, ◌&&◌, ◌⊎◌, inl, inr, Option, none,
  some, List, [], ◌∷◌, ◌++◌, ◌==◌, if◌then◌else◌, arith, length, length-append, Bool-cases, ==→eq,
  Result, fail, ok, disconnected, network,
}
use vitaki_vitarps.Http.Receive.{
  NlState, nothing, after_r, after_rn, after_rnr, final, is_final, transition, transitions_r,
  transitions_n, scan, Round, stopped, failed, received, Sizes, receive_from, recv_http_header,
  send_recv_http_header_psn,
}

-- Whether the second list starts with the first.
abbrev starts_with : List ℕ → List ℕ → Bool
starts_with [] cs = true
starts_with (p ∷ ps) [] = false
starts_with (p ∷ ps) (c ∷ cs) = c == p && starts_with ps cs

-- The number of bytes up to the end of the first "\r\n\r\n", those before the list included.
unfoldable pub header_end : ℕ → List ℕ → Option ℕ
header_end before [] = none
header_end before (c ∷ cs) =
    if starts_with (13 ∷ 10 ∷ 13 ∷ 10 ∷ []) (c ∷ cs)
    then some (before + 4)
    else header_end (before + 1) cs

-- What the state stands for.
abbrev seen : NlState → List ℕ
seen nothing = []
seen after_r = 13 ∷ []
seen after_rn = 13 ∷ 10 ∷ []
seen after_rnr = 13 ∷ 10 ∷ 13 ∷ []
seen final = 13 ∷ 10 ∷ 13 ∷ 10 ∷ []

-- What a scan says of the end, `before` bytes behind.
abbrev scanned : ℕ → NlState → List ℕ → Option ℕ
scanned before s cs =
    if is_final (scan s cs).0 then some (before + (length cs - (scan s cs).1)) else none

scan-left : (s : NlState) (cs : List ℕ) → (scan s cs).1 ≤ length cs
unfolding scan
scan-left s [] = omega arith
scan-left s (c ∷ cs) =
    ground (arith, scan-left (transition c s) cs, Bool-cases (is_final (transition c s)))

scanned-final :
    (before : ℕ) (s : NlState) (c : ℕ) (cs : List ℕ)
    → is_final (transition c s) ≡ true
    → scanned before s (c ∷ cs) ≡ some (before + 1)
unfolding scan
scanned-final before s c cs h = rw (h, h) (ap some (omega arith))

scanned-more :
    (before : ℕ) (s : NlState) (c : ℕ) (cs : List ℕ)
    → is_final (transition c s) ≡ false
    → scanned before s (c ∷ cs) ≡ scanned (before + 1) (transition c s) cs
unfolding scan
scanned-more before s c cs h = elim (Bool-cases (is_final (scan (transition c s) cs).0)) [
  | inl found ↦ rw (h, found) (ap some (omega (arith, scan-left (transition c s) cs)))
  | inr not_yet ↦ rw (h, not_yet) refl
]

byte-cases : (c : ℕ) → (c ≡ 13) ⊎ ((c ≡ 10) ⊎ ((c == 13) ≡ false) × ((c == 10) ≡ false))
byte-cases c = elim (Bool-cases (c == 13)) [
  | inl r ↦ inl (==→eq c 13 r)
  | inr not_r ↦ elim (Bool-cases (c == 10)) [
    | inl n ↦ inr (inl (==→eq c 10 n))
    | inr not_n ↦ inr (inr (not_r, not_n))
  ]
]

other_byte :
    (c : ℕ) (s : NlState) → (c == 13) ≡ false → (c == 10) ≡ false → transition c s ≡ nothing
unfolding transition
other_byte c s not_r not_n = rw (not_r, not_n) refl

more :
    (before after : ℕ) (s : NlState) (c : ℕ) (cs : List ℕ)
    → is_final (transition c s) ≡ false
    → after ≡ before + 1
    → scanned after (transition c s) cs ≡ scanned before s (c ∷ cs)
more before after s c cs h e =
    ap (λ m. scanned m (transition c s) cs) e ∙ sym (scanned-more before s c cs h)

more_other :
    (before after : ℕ) (s : NlState) (c : ℕ) (cs : List ℕ)
    → (c == 13) ≡ false
    → (c == 10) ≡ false
    → after ≡ before + 1
    → scanned after nothing cs ≡ scanned before s (c ∷ cs)
more_other before after s c cs not_r not_n e =
    ap (λ t. scanned after t cs) (sym (other_byte c s not_r not_n))
    ∙ more before after s c cs (ap is_final (other_byte c s not_r not_n)) e

-- A scan finds the end of what was seen and what comes.
header_end-scanned :
    (before : ℕ) (s : NlState) (cs : List ℕ)
    → is_final s ≡ false
    → header_end before (seen s ++ cs) ≡ scanned (before + length (seen s)) s cs
unfolding header_end scan transition transitions_r transitions_n
header_end-scanned before nothing [] h = refl
header_end-scanned before after_r [] h = refl
header_end-scanned before after_rn [] h = refl
header_end-scanned before after_rnr [] h = refl
header_end-scanned before nothing (c ∷ cs) h = elim (byte-cases c) [
  | inl r ↦ rw r (
      header_end-scanned before after_r cs refl
      ∙ more (before + 0) _ nothing 13 cs refl (omega arith))
  | inr (inl n) ↦ rw n (
      header_end-scanned (before + 1) nothing cs refl
      ∙ more (before + 0) _ nothing 10 cs refl (omega arith))
  | inr (inr (not_r, not_n)) ↦
      rw not_r (header_end-scanned (before + 1) nothing cs refl)
      ∙ more_other (before + 0) (before + 1 + 0) nothing c cs not_r not_n (omega arith)
]
header_end-scanned before after_r (c ∷ cs) h = elim (byte-cases c) [
  | inl r ↦ rw r (
      header_end-scanned (before + 1) after_r cs refl
      ∙ more (before + 1) _ after_r 13 cs refl (omega arith))
  | inr (inl n) ↦ rw n (
      header_end-scanned before after_rn cs refl
      ∙ more (before + 1) _ after_r 10 cs refl (omega arith))
  | inr (inr (not_r, not_n)) ↦
      rw (not_r, not_n) (header_end-scanned (before + 1 + 1) nothing cs refl)
      ∙ more_other (before + 1) (before + 1 + 1 + 0) after_r c cs not_r not_n (omega arith)
]
header_end-scanned before after_rn (c ∷ cs) h = elim (byte-cases c) [
  | inl r ↦ rw r (
      header_end-scanned before after_rnr cs refl
      ∙ more (before + 2) _ after_rn 13 cs refl (omega arith))
  | inr (inl n) ↦ rw n (
      header_end-scanned (before + 1 + 1 + 1) nothing cs refl
      ∙ more (before + 2) _ after_rn 10 cs refl (omega arith))
  | inr (inr (not_r, not_n)) ↦
      rw not_r (header_end-scanned (before + 1 + 1 + 1) nothing cs refl)
      ∙ more_other (before + 2) (before + 1 + 1 + 1 + 0) after_rn c cs not_r not_n (omega arith)
]
header_end-scanned before after_rnr (c ∷ cs) h = elim (byte-cases c) [
  | inl r ↦ rw r (
      header_end-scanned (before + 1 + 1 + 1) after_r cs refl
      ∙ more (before + 3) _ after_rnr 13 cs refl (omega arith))
  | inr (inl n) ↦
      rw n (ap some (omega arith) ∙ sym (scanned-final (before + 3) after_rnr 10 cs refl))
  | inr (inr (not_r, not_n)) ↦
      rw (not_r, not_n) (header_end-scanned (before + 1 + 1 + 1 + 1) nothing cs refl)
      ∙ more_other (before + 3) (before + 1 + 1 + 1 + 1 + 0) after_rnr c cs not_r not_n
          (omega arith)
]
header_end-scanned before final cs h = absurd (ground (arith, h))

scan-append :
    (s : NlState) (bs cs : List ℕ)
    → is_final (scan s bs).0 ≡ false
    → scan s (bs ++ cs) ≡ scan (scan s bs).0 cs
unfolding scan
scan-append s [] cs h = refl
scan-append s (b ∷ bs) cs h = elim (Bool-cases (is_final (transition b s))) [
  | inl found ↦ absurd (ground (arith, h, found))
  | inr not_yet ↦
      let later : is_final (scan (transition b s) bs).0 ≡ false = ground (arith, h, not_yet) in
      rw not_yet (scan-append (transition b s) bs cs later)
]

abbrev sized : ℕ → ℕ → Option (Result Sizes)
sized n size = some (ok (record { header_size = n; received_size = size }))

-- The result when the header's end is found in what was received so far, else that of the rest.
abbrev ended : Option ℕ → ℕ → Option (Result Sizes) → Option (Result Sizes)
ended (some n) size rest = sized n size
ended none size rest = rest

-- All that was received is looked through again in each round.
abbrev pub recv_reference : List ℕ → List Round → Option (Result Sizes)
recv_reference bytes [] = none
recv_reference bytes (stopped err ∷ rs) = some (fail err)
recv_reference bytes (failed ∷ rs) = some (fail network)
recv_reference bytes (received [] ∷ rs) = some (fail disconnected)
recv_reference bytes (received (c ∷ cs) ∷ rs) =
    let bytes' = bytes ++ c ∷ cs in
    ended (header_end 0 bytes') (length bytes') (recv_reference bytes' rs)

receive_from-recv_reference :
    (bytes : List ℕ) (rs : List Round)
    → is_final (scan nothing bytes).0 ≡ false
    → receive_from (scan nothing bytes).0 (length bytes) rs ≡ recv_reference bytes rs
unfolding receive_from
receive_from-recv_reference bytes [] h = refl
receive_from-recv_reference bytes (stopped err ∷ rs) h = refl
receive_from-recv_reference bytes (failed ∷ rs) h = refl
receive_from-recv_reference bytes (received [] ∷ rs) h = refl
receive_from-recv_reference bytes (received (c ∷ cs) ∷ rs) h =
    let all : scan nothing (bytes ++ c ∷ cs) ≡ scan (scan nothing bytes).0 (c ∷ cs) =
      scan-append nothing bytes (c ∷ cs) h in
    let size : length (bytes ++ c ∷ cs) ≡ length bytes + length (c ∷ cs) =
      length-append bytes (c ∷ cs) in
    let end : header_end 0 (bytes ++ c ∷ cs) ≡ scanned 0 nothing (bytes ++ c ∷ cs) =
      header_end-scanned 0 nothing (bytes ++ c ∷ cs) refl in
    let rest = recv_reference (bytes ++ c ∷ cs) rs in
    rw (sym all, sym size)
      (elim (Bool-cases (is_final (scan nothing (bytes ++ c ∷ cs)).0)) [
        | inl found ↦ rw found (ap (λ n. sized n (length (bytes ++ c ∷ cs))) (omega arith))
        | inr not_yet ↦ rw not_yet (receive_from-recv_reference (bytes ++ c ∷ cs) rs not_yet)
      ])
    ∙ ap (λ e. ended e (length (bytes ++ c ∷ cs)) rest) (sym end)

-- However a header is split over the rounds, what is received ends with the round that completes the
-- first "\r\n\r\n" of all the bytes, its end is the header's, and what one looks for anew in all the
-- bytes after each round is found; a round that fails before gives its error.
pub recv_http_header_lem : (rs : List Round) → recv_http_header rs ≡ recv_reference [] rs
unfolding recv_http_header scan
recv_http_header_lem rs = receive_from-recv_reference [] rs refl

-- A response over RUDP that is not empty is a success, and its header's size is told exactly when the
-- message has a header's end.
send_recv_http_header_psn_lem :
    (c : ℕ) (cs : List ℕ)
    → send_recv_http_header_psn (ok (c ∷ cs)) ≡ ok (header_end 0 (c ∷ cs), length (c ∷ cs))
unfolding send_recv_http_header_psn
send_recv_http_header_psn_lem c cs =
    let end : header_end 0 (c ∷ cs) ≡ scanned 0 nothing (c ∷ cs) =
      header_end-scanned 0 nothing (c ∷ cs) refl in
    let told : send_recv_http_header_psn (ok (c ∷ cs))
        ≡ ok (scanned 0 nothing (c ∷ cs), length (c ∷ cs)) =
      elim (Bool-cases (is_final (scan nothing (c ∷ cs)).0)) [
        | inl found ↦ rw found (ap (λ n. ok (some n, length (c ∷ cs))) (omega arith))
        | inr missing ↦ rw missing refl
      ] in
    told ∙ ap (λ e. ok (e, length (c ∷ cs))) (sym end)
