-- ===== src/Vita/LossProfile.antt =====
-- vita/src/host_loss_profile.c: how much packet loss a session takes before it is recovered.
use vitaki_vitarps.Base.{
  ℕ, ◌+◌, ◌-◌, ◌%◌, ◌^◌, Bool, true, false, not, ◌&&◌, ltb, leb, ◌==◌, if◌then◌else◌,
}

pub data LatencyMode : Type 0 where
  ultra_low low balanced high max : LatencyMode

pub record LossDetectionProfile : Type 0 where
  pub window_us : ℕ
  pub min_frames : ℕ
  pub event_threshold : ℕ
  pub frame_threshold : ℕ
  pub burst_window_us : ℕ
  pub burst_frame_threshold : ℕ

abbrev pub uint32_max : ℕ
uint32_max = 2 ^ 32 - 1

unfoldable pub saturating_add_u32 : ℕ → ℕ → ℕ
saturating_add_u32 lhs rhs = if ltb (uint32_max - rhs) lhs then uint32_max else (lhs + rhs) % 2 ^ 32

-- `masked` is whether `loss_counter_saturated_mask` has the counter's bit; the result is the sum and
-- the bit after the call.
unfoldable pub saturating_add_u32_report : ℕ → ℕ → Bool → ℕ × Bool
unfolding saturating_add_u32
saturating_add_u32_report lhs rhs masked =
    let sum = saturating_add_u32 lhs rhs in
    (sum, if sum == uint32_max && (not (lhs == uint32_max) && not masked) then true else masked)

unfoldable pub latency_mode_target_kbps : LatencyMode → ℕ
latency_mode_target_kbps ultra_low = 1200
latency_mode_target_kbps low = 1800
latency_mode_target_kbps balanced = 2600
latency_mode_target_kbps high = 3200
latency_mode_target_kbps max = 3800

unfoldable pub clamp_u32 : ℕ → ℕ → ℕ → ℕ
clamp_u32 value min_value max_value =
    if ltb value min_value then min_value else if ltb max_value value then max_value else value

unfoldable pub loss_profile_for_mode : LatencyMode → LossDetectionProfile
loss_profile_for_mode ultra_low = record {
  window_us = 5_000_000;
  min_frames = 4;
  event_threshold = 2;
  frame_threshold = 6;
  burst_window_us = 220_000;
  burst_frame_threshold = 6;
}
loss_profile_for_mode low = record {
  window_us = 7_000_000;
  min_frames = 4;
  event_threshold = 3;
  frame_threshold = 8;
  burst_window_us = 240_000;
  burst_frame_threshold = 5;
}
loss_profile_for_mode balanced = record {
  window_us = 8_000_000;
  min_frames = 4;
  event_threshold = 3;
  frame_threshold = 9;
  burst_window_us = 220_000;
  burst_frame_threshold = 5;
}
loss_profile_for_mode high = record {
  window_us = 9_000_000;
  min_frames = 5;
  event_threshold = 3;
  frame_threshold = 11;
  burst_window_us = 260_000;
  burst_frame_threshold = 6;
}
loss_profile_for_mode max = record {
  window_us = 10_000_000;
  min_frames = 6;
  event_threshold = 4;
  frame_threshold = 13;
  burst_window_us = 280_000;
  burst_frame_threshold = 7;
}

-- What `context` tells of the stream. The three floating-point comparisons of the measured bitrate
-- (with 0.01, with 0.85 and with 1.2 times the target) are given by their outcomes.
pub record Metrics : Type 0 where
  pub latency_mode : LatencyMode
  pub loss_retry_attempts : ℕ
  pub bitrate_known : Bool
  pub bitrate_low : Bool
  pub bitrate_high : Bool
  pub measured_incoming_fps : ℕ
  pub negotiated_fps : ℕ
  pub target_fps : ℕ

abbrev pub is_ultra_low : LatencyMode → Bool
is_ultra_low ultra_low = true
is_ultra_low _ = false

abbrev pub window_step : ℕ
window_step = 2_000_000

abbrev pub down_if : Bool → ℕ → ℕ → ℕ
down_if test value step = if test then value - step else value

-- "if (context.config.latency_mode == VITA_LATENCY_MODE_ULTRA_LOW && …)"
unfoldable pub adjust_ultra_low : Metrics → LossDetectionProfile → LossDetectionProfile
adjust_ultra_low m p = record p {
  event_threshold =
      down_if
        (is_ultra_low m.latency_mode && (m.loss_retry_attempts == 0 && ltb 1 p.event_threshold))
        p.event_threshold 1;
}

unfoldable pub adjust_bitrate : Metrics → LossDetectionProfile → LossDetectionProfile
unfolding clamp_u32
adjust_bitrate m p =
    if not m.bitrate_known
    then p
    else if m.bitrate_low
    then record p {
      event_threshold = clamp_u32 ((p.event_threshold + 1) % 2 ^ 32) 1 6;
      min_frames = clamp_u32 ((p.min_frames + 1) % 2 ^ 32) 2 8;
      frame_threshold = clamp_u32 ((p.frame_threshold + 2) % 2 ^ 32) 4 24;
      burst_frame_threshold = clamp_u32 ((p.burst_frame_threshold + 1) % 2 ^ 32) 3 16;
      window_us = (p.window_us + window_step) % 2 ^ 64;
    }
    else if m.bitrate_high
    then record p {
      event_threshold = down_if (ltb 1 p.event_threshold) p.event_threshold 1;
      min_frames = down_if (ltb 2 p.min_frames) p.min_frames 1;
      frame_threshold = down_if (ltb 4 p.frame_threshold) p.frame_threshold 2;
      burst_frame_threshold = down_if (ltb 3 p.burst_frame_threshold) p.burst_frame_threshold 1;
      window_us = down_if (ltb window_step p.window_us) p.window_us window_step;
      burst_window_us = down_if (ltb 100_000 p.burst_window_us) p.burst_window_us 50_000;
    }
    else p

unfoldable pub adjust_fps : Metrics → LossDetectionProfile → LossDetectionProfile
unfolding clamp_u32
adjust_fps m p =
    let measured_fps =
      if not (m.measured_incoming_fps == 0) then m.measured_incoming_fps else m.negotiated_fps in
    let clamp_target = if not (m.target_fps == 0) then m.target_fps else m.negotiated_fps in
    if not (measured_fps == 0) && (not (clamp_target == 0) && leb measured_fps clamp_target)
    then record p {
      event_threshold = clamp_u32 ((p.event_threshold + 1) % 2 ^ 32) 1 6;
      frame_threshold = clamp_u32 ((p.frame_threshold + 1) % 2 ^ 32) 4 24;
      burst_frame_threshold = clamp_u32 ((p.burst_frame_threshold + 1) % 2 ^ 32) 3 16;
    }
    else p

unfoldable pub adjust_loss_profile_with_metrics :
    Metrics → LossDetectionProfile → LossDetectionProfile
adjust_loss_profile_with_metrics m p = adjust_fps m (adjust_bitrate m (adjust_ultra_low m p))
