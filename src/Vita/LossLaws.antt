-- ===== src/Vita/LossLaws.antt =====
-- Bounds of the loss detection.
use Prim.Native.Nat.{min}
use vitaki_vitarps.Base.{
  ℕ, ◌+◌, ◌^◌, ◌≤◌, ◌<◌, ◌≡◌, Bool, true, false, arith, ltb, if◌then◌else◌, ◌==◌,
}
use vitaki_vitarps.Vita.LossProfile.{
  LatencyMode, ultra_low, LossDetectionProfile, Metrics, uint32_max, saturating_add_u32_report,
  loss_profile_for_mode, adjust_loss_profile_with_metrics, adjust_ultra_low, adjust_bitrate,
  adjust_fps,
}

-- The addition of 32 bit counters never wraps: the result is the sum, or the greatest number if the
-- sum is greater. A counter's bit is set exactly when it was, or the counter reaches the greatest
-- number by this call.
pub saturating_add_lem :
    (lhs rhs : ℕ) (masked : Bool)
    → lhs ≤ uint32_max
    → rhs ≤ uint32_max
    → let (sum, bit) = saturating_add_u32_report lhs rhs masked in
      (sum ≡ min (lhs + rhs) uint32_max)
      × (bit ≡ (
          if masked
          then true
          else if lhs == uint32_max
          then false
          else if ltb (lhs + rhs) uint32_max
          then false
          else true))
unfolding saturating_add_u32_report
saturating_add_lem lhs rhs masked a b = ground arith

-- The ranges that a profile keeps to.
pub record InRange (p : LossDetectionProfile) : Type 0 where
  pub event_low : 1 ≤ p.event_threshold
  pub event_high : p.event_threshold ≤ 6
  pub frames_low : 2 ≤ p.min_frames
  pub frames_high : p.min_frames ≤ 8
  pub frame_low : 3 ≤ p.frame_threshold
  pub frame_high : p.frame_threshold ≤ 24
  pub burst_low : 3 ≤ p.burst_frame_threshold
  pub burst_high : p.burst_frame_threshold ≤ 16
  pub window_low : 0 < p.window_us
  pub burst_window_low : 0 < p.burst_window_us

pub loss_profile_for_mode-InRange : (mode : LatencyMode) → InRange (loss_profile_for_mode mode)
unfolding loss_profile_for_mode
loss_profile_for_mode-InRange ultra_low = omega arith
loss_profile_for_mode-InRange mode = omega arith

ultra_low-InRange :
    (m : Metrics) (p : LossDetectionProfile) → InRange p → InRange (adjust_ultra_low m p)
unfolding adjust_ultra_low
ultra_low-InRange m p r = ground arith

ultra_low-window :
    (m : Metrics) (p : LossDetectionProfile)
    → p.window_us < 2 ^ 63
    → (adjust_ultra_low m p).window_us < 2 ^ 63
unfolding adjust_ultra_low
ultra_low-window m p w = w

bitrate-InRange :
    (m : Metrics) (p : LossDetectionProfile)
    → p.window_us < 2 ^ 63
    → InRange p
    → InRange (adjust_bitrate m p)
unfolding adjust_bitrate
bitrate-InRange m p w r = ground arith

fps-InRange : (m : Metrics) (p : LossDetectionProfile) → InRange p → InRange (adjust_fps m p)
unfolding adjust_fps
fps-InRange m p r = ground arith

-- The adjustment keeps a profile with a window below 2 ^ 63 in its ranges, whatever the mode, the
-- retries, the bitrate and the frame rates are: thresholds neither fall to zero nor grow without
-- bound, and windows stay open.
pub adjust-InRange :
    (m : Metrics) (p : LossDetectionProfile)
    → p.window_us < 2 ^ 63
    → InRange p
    → InRange (adjust_loss_profile_with_metrics m p)
unfolding adjust_loss_profile_with_metrics
adjust-InRange m p w r =
    fps-InRange m _ (bitrate-InRange m _ (ultra_low-window m p w) (ultra_low-InRange m p r))
