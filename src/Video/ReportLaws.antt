-- ===== src/Video/ReportLaws.antt =====
-- How often an IDR frame is requested, and which gaps are reported.
use vitaki_vitarps.Base.{
  ℕ, ◌<◌, ◌≤◌, ◌≡◌, ◌≢◌, ◌⊎◌, Bool, true, false, [], ◌∷◌, ErrorCode, success, arith,
}
use vitaki_vitarps.Video.State.{VideoReceiver, seq16_span, seq16_inclusive_ge}
use vitaki_vitarps.Video.Report.{
  request_idr, send_corrupt_frame, elapsed, maybe_request_idr, expire_idr_request,
  flush_pending_gap_report, report_corrupt_frame_range, should_skip_corrupt_report, not_pending,
}

-- After a request that was sent, no other is made for 100 ms, whatever happens to the receiver in
-- between, but that the time of the last request stays.
pub maybe_request_idr_waits :
    (err : ErrorCode) (v v' w : VideoReceiver) (now later : ℕ)
    → maybe_request_idr success v now ≡ (v', request_idr ∷ [])
    → w.last_idr_request_ms ≡ v'.last_idr_request_ms
    → elapsed later now < 100
    → (maybe_request_idr err w later).1 ≡ []
unfolding maybe_request_idr expire_idr_request
maybe_request_idr_waits err v v' w now later e same h = ground (arith, e, same)

-- The gap is held back: before its deadline, when it has less than 12 frames and nothing forces it.
abbrev pub IsHeld : VideoReceiver → ℕ → Bool → Type 0
IsHeld v now_ms force =
    (now_ms < v.gap_report_deadline_ms)
    × (seq16_span v.gap_report_start v.gap_report_end < 12)
    × (force ≡ false)

abbrev pub IsDue : VideoReceiver → ℕ → Bool → Type 0
IsDue v now_ms force =
    (v.gap_report_deadline_ms ≤ now_ms)
    ⊎ (12 ≤ seq16_span v.gap_report_start v.gap_report_end)
    ⊎ (force ≡ true)

-- A report with the same start reached as far.
abbrev pub IsReported : VideoReceiver → Type 0
IsReported v =
    (v.last_reported_corrupt_start ≡ v.gap_report_start)
    × (seq16_inclusive_ge v.last_reported_corrupt_end v.gap_report_end ≡ true)

abbrev pub IsNew : VideoReceiver → Type 0
IsNew v =
    (v.last_reported_corrupt_start ≢ v.gap_report_start)
    ⊎ (seq16_inclusive_ge v.last_reported_corrupt_end v.gap_report_end ≡ false)

abbrev pub reported : VideoReceiver → VideoReceiver
reported v = record v {
  gap_report_pending = false;
  last_reported_corrupt_start = v.gap_report_start;
  last_reported_corrupt_end = v.gap_report_end;
}

-- A flush of a pending gap leaves the receiver as it is while the gap is held back, which is when the
-- gap has less than 12 frames, its deadline has not come, and the flush is not forced; a gap of more
-- than 4096 frames is given up; any other is reported, with its start and its end, but when a report
-- with the same start has reached as far. After each of these the gap is pending no more, and a
-- report is the last one made.
pub flush_pending_gap_report_lem :
    (v : VideoReceiver) (now_ms : ℕ) (force : Bool)
    → v.gap_report_pending ≡ true
    → let r = flush_pending_gap_report v now_ms force in
      let span = seq16_span v.gap_report_start v.gap_report_end in
      (IsHeld v now_ms force × (r ≡ (v, [])))
      ⊎ ((4096 < span) × (r ≡ (not_pending v, [])))
      ⊎ (IsDue v now_ms force × (span ≤ 4096) × IsReported v × (r ≡ (not_pending v, [])))
      ⊎ (IsDue v now_ms force
          × (span ≤ 4096)
          × IsNew v
          × (r ≡ (reported v, send_corrupt_frame v.gap_report_start v.gap_report_end ∷ [])))
unfolding flush_pending_gap_report report_corrupt_frame_range should_skip_corrupt_report
flush_pending_gap_report_lem v now_ms force h = ground arith
