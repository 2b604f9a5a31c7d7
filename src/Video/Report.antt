-- ===== src/Video/Report.antt =====
-- What the receiver tells the console: ranges of corrupt frames, and that it needs an IDR frame.
use vitaki_vitarps.Base.{
  ℕ, ◌+◌, ◌-◌, ◌%◌, ◌^◌, Bool, true, false, not, ◌&&◌, List, [], ◌∷◌, ltb, leb, ◌==◌, if◌then◌else◌,
  ErrorCode, is_success,
}
use vitaki_vitarps.Video.State.{VideoReceiver, seq16_inclusive_ge, seq16_span, no_reference_frames}

-- What the receiver calls besides: the sample callback with a header or with a frame, the lost
-- frames and whether the frame was recovered; the stream connection's functions.
pub data Effect : Type 0 where
  sample : List ℕ → ℕ → Bool → Effect
  send_corrupt_frame : ℕ → ℕ → Effect
  request_idr : Effect
  report_fec_fail : Effect
  report_missing_ref : Effect

abbrev pub video_gap_report_hold_ms : ℕ
video_gap_report_hold_ms = 24

abbrev pub video_gap_report_force_span : ℕ
video_gap_report_force_span = 12

abbrev pub video_span_sanity_max : ℕ
video_span_sanity_max = 4096

abbrev pub idr_request_cooldown_ms : ℕ
idr_request_cooldown_ms = 100

abbrev pub idr_request_timeout_ms : ℕ
idr_request_timeout_ms = 1000

-- `a - b` of two `uint64_t`.
abbrev pub elapsed : ℕ → ℕ → ℕ
elapsed a b = (a + 2 ^ 64 - b) % 2 ^ 64

unfoldable pub should_skip_corrupt_report : VideoReceiver → ℕ → ℕ → Bool
unfolding seq16_inclusive_ge
should_skip_corrupt_report v start end =
    if not (v.last_reported_corrupt_start == start)
    then false
    else seq16_inclusive_ge v.last_reported_corrupt_end end

unfoldable pub report_corrupt_frame_range : VideoReceiver → ℕ → ℕ → VideoReceiver × List Effect
unfolding should_skip_corrupt_report
report_corrupt_frame_range v start end =
    if should_skip_corrupt_report v start end then (v, []) else (
      record v { last_reported_corrupt_start = start; last_reported_corrupt_end = end },
      send_corrupt_frame start end ∷ [],
    )

abbrev pub not_pending : VideoReceiver → VideoReceiver
not_pending v = record v { gap_report_pending = false }

unfoldable pub flush_pending_gap_report : VideoReceiver → ℕ → Bool → VideoReceiver × List Effect
unfolding report_corrupt_frame_range seq16_span
flush_pending_gap_report v now_ms force =
    let span = seq16_span v.gap_report_start v.gap_report_end in
    let (v', effects) = report_corrupt_frame_range v v.gap_report_start v.gap_report_end in
    if not v.gap_report_pending
    then (v, [])
    else if ltb video_span_sanity_max span
    then (not_pending v, [])
    else if not force && ltb now_ms v.gap_report_deadline_ms && ltb span video_gap_report_force_span
    then (v, [])
    else (not_pending v', effects)

-- The pending request given up after the timeout.
unfoldable pub expire_idr_request : VideoReceiver → ℕ → VideoReceiver
expire_idr_request v now_ms =
    if v.idr_request_pending && ltb idr_request_timeout_ms (elapsed now_ms v.idr_request_start_ms)
    then record v { idr_request_pending = false; idr_request_start_ms = 0 }
    else v

abbrev pub idr_requested : VideoReceiver → ℕ → VideoReceiver
idr_requested v now_ms = record v {
  idr_request_pending = true;
  idr_request_start_ms = now_ms;
  last_idr_request_ms = now_ms;
}

-- `err` is the result of `chiaki_stream_connection_request_idr`.
unfoldable pub maybe_request_idr : ErrorCode → VideoReceiver → ℕ → VideoReceiver × List Effect
unfolding expire_idr_request
maybe_request_idr err v now_ms =
    let v' = expire_idr_request v now_ms in
    if not v'.idr_request_pending
      && leb idr_request_cooldown_ms (elapsed now_ms v'.last_idr_request_ms)
    then (if is_success err then idr_requested v' now_ms else v', request_idr ∷ [])
    else (v', [])

unfoldable pub apply_cascade_reset : VideoReceiver → VideoReceiver
apply_cascade_reset v = record v {
  reference_frames = no_reference_frames;
  consecutive_missing_ref = 0;
  cascade_reset_attempts = (v.cascade_reset_attempts + 1) % 2 ^ 32;
}
