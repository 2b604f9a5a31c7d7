-- ===== src/Stats/VideoGap.antt =====
-- lib/src/videoreceiver_gap.c: how reports of one gap in the video frames are held back and merged.
use Prim.Native.Nat.{max}
use vitaki_vitarps.Base.{
  ℕ, ◌+◌, ◌%◌, ◌^◌, ◌<◌, ◌≡◌, refl, ap, ◌∙◌, Bool, true, false, not, Option, none, some, List, [],
  ◌∷◌, ◌==◌, if◌then◌else◌, arith, All, ◌↔◌, ◌⊎◌, ◌≢◌, subst, sym,
}
use vitaki_vitarps.SeqNum.{seq_num_16_gt, seq_num_gt, half_16}
use vitaki_vitarps.SeqNum.Window.{distance, distance_lem}

pub record GapState : Type 0 where
  pub pending : Bool
  pub start : ℕ
  pub end : ℕ
  pub deadline_ms : ℕ

pub data Action : Type 0 where
  update_none set_pending flush_previous extend_pending : Action

abbrev opened : ℕ → ℕ → ℕ → ℕ → GapState
opened expected_start gap_end now_ms hold_ms = record {
  pending = true;
  start = expected_start;
  end = gap_end;
  deadline_ms = (now_ms + hold_ms) % 2 ^ 64;
}

-- The result is the action, the state left, and the gap written to `flush_start` and `flush_end`. A
-- NULL state is left out.
unfoldable pub report_update : GapState → ℕ → ℕ → ℕ → ℕ → Action × GapState × Option (ℕ × ℕ)
report_update s expected_start gap_end now_ms hold_ms =
    if not s.pending
    then (set_pending, opened expected_start gap_end now_ms hold_ms, none)
    else if not (s.start == expected_start)
    then (flush_previous, opened expected_start gap_end now_ms hold_ms, some (s.start, s.end))
    else if seq_num_16_gt gap_end s.end
    then (extend_pending, record s { end = gap_end }, none)
    else (update_none, s, none)

-- A report that opens a gap, and those of the same gap that follow, with their times.
unfoldable pub report_all : GapState → ℕ → ℕ → List (ℕ × ℕ) → GapState
report_all s start hold_ms [] = s
report_all s start hold_ms ((gap_end, now_ms) ∷ rest) =
    report_all (report_update s start gap_end now_ms hold_ms).1 start hold_ms rest

-- How far from `start` the farthest of some ends is.
abbrev pub farthest : ℕ → ℕ → List (ℕ × ℕ) → ℕ
farthest start d [] = d
farthest start d ((gap_end, now_ms) ∷ rest) =
    farthest start (max d (distance half_16 start gap_end)) rest

abbrev pub EndsInHalf : ℕ → List (ℕ × ℕ) → Type 0
EndsInHalf start = All (λ r. (r.0 < 2 ^ 16) × (distance half_16 start r.0 < half_16))

report_new :
    (s : GapState) (start gap_end now_ms hold_ms : ℕ)
    → (s.pending ≡ false) ⊎ (s.start ≢ start)
    → (report_update s start gap_end now_ms hold_ms).1 ≡ opened start gap_end now_ms hold_ms
unfolding report_update
report_new s start gap_end now_ms hold_ms new = ground arith

gt-distance :
    (start a b : ℕ)
    → start < 2 ^ 16
    → a < 2 ^ 16
    → b < 2 ^ 16
    → distance half_16 start a < half_16
    → distance half_16 start b < half_16
    → (seq_num_16_gt a b ≡ true) ↔ (distance half_16 start b < distance half_16 start a)
unfolding seq_num_gt
gt-distance start a b hs ha hb da db =
    ground (arith, distance_lem half_16 start a hs ha, distance_lem half_16 start b hs hb)

-- The state of a gap that began at `start`.
record IsGapAt (start : ℕ) (s : GapState) : Type 0 where
  pending : s.pending ≡ true
  at_start : s.start ≡ start
  end_in : s.end < 2 ^ 16
  near : distance half_16 start s.end < half_16

report_one :
    (start gap_end now_ms hold_ms : ℕ) (s : GapState)
    → start < 2 ^ 16
    → IsGapAt start s
    → gap_end < 2 ^ 16
    → distance half_16 start gap_end < half_16
    → let r = (report_update s start gap_end now_ms hold_ms).1 in
      IsGapAt start r
      × (r.deadline_ms ≡ s.deadline_ms)
      × (distance half_16 start r.end
          ≡ max (distance half_16 start s.end) (distance half_16 start gap_end))
unfolding report_update
report_one start gap_end now_ms hold_ms s hs g he d =
    ground (arith, gt-distance start gap_end s.end hs he g.end_in d g.near)

reports :
    (rest : List (ℕ × ℕ)) (start : ℕ) (s : GapState) (hold_ms : ℕ)
    → start < 2 ^ 16
    → IsGapAt start s
    → EndsInHalf start rest
    → let r = report_all s start hold_ms rest in
      IsGapAt start r
      × (r.deadline_ms ≡ s.deadline_ms)
      × (distance half_16 start r.end ≡ farthest start (distance half_16 start s.end) rest)
unfolding report_all
reports [] start s hold_ms hs g h = (g, refl, refl)
reports ((gap_end, now_ms) ∷ rest) start s hold_ms hs g h =
    let (g1, dl, far) = report_one start gap_end now_ms hold_ms s hs g h.0.0 h.0.1 in
    let r = (report_update s start gap_end now_ms hold_ms).1 in
    let (g2, dl2, far2) = reports rest start r hold_ms hs g1 h.1 in
    (g2, dl2 ∙ dl, far2 ∙ ap (λ d. farthest start d rest) far)

-- A report of a new gap, followed by reports that begin at the same place and end in the half of the
-- circle after it, leaves that gap pending: from its start to the farthest end reported, until the
-- deadline of the first report.
pub report_all_lem :
    (rest : List (ℕ × ℕ)) (s : GapState) (start gap_end now_ms hold_ms : ℕ)
    → (s.pending ≡ false) ⊎ (s.start ≢ start)
    → start < 2 ^ 16
    → gap_end < 2 ^ 16
    → distance half_16 start gap_end < half_16
    → EndsInHalf start rest
    → let r = report_all s start hold_ms ((gap_end, now_ms) ∷ rest) in
      (r.pending ≡ true)
      × (r.start ≡ start)
      × (r.deadline_ms ≡ (now_ms + hold_ms) % 2 ^ 64)
      × (distance half_16 start r.end ≡ farthest start (distance half_16 start gap_end) rest)
unfolding report_all
report_all_lem rest s start gap_end now_ms hold_ms new hs he d h =
    let fresh = report_new s start gap_end now_ms hold_ms new in
    let o = opened start gap_end now_ms hold_ms in
    let (g, dl, far) =
      reports rest start o hold_ms hs
        (record { pending = refl; at_start = refl; end_in = he; near = d }) h in
    subst
      (λ t.
        let r = report_all t start hold_ms rest in
        (r.pending ≡ true)
        × (r.start ≡ start)
        × (r.deadline_ms ≡ (now_ms + hold_ms) % 2 ^ 64)
        × (distance half_16 start r.end ≡ farthest start (distance half_16 start gap_end) rest))
      (sym fresh) (g.pending, g.at_start, dl, far)
