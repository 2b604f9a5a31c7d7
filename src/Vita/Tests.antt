-- ===== src/Vita/Tests.antt =====
-- The loss detection on one profile and one state of the stream.
use vitaki_vitarps.Base.{◌^◌, ◌<◌, true, false, arith}
use vitaki_vitarps.Vita.LossProfile.{
  Metrics, low, loss_profile_for_mode, adjust_loss_profile_with_metrics,
}
use vitaki_vitarps.Vita.LossLaws.{InRange, loss_profile_for_mode-InRange, adjust-InRange}

abbrev metrics : Metrics
metrics = record {
  latency_mode = low;
  loss_retry_attempts = 1;
  bitrate_known = true;
  bitrate_low = false;
  bitrate_high = true;
  measured_incoming_fps = 27;
  negotiated_fps = 30;
  target_fps = 30;
}

low_window : (loss_profile_for_mode low).window_us < 2 ^ 63
unfolding loss_profile_for_mode
low_window = omega arith

adjust-InRange_example :
    InRange (adjust_loss_profile_with_metrics metrics (loss_profile_for_mode low))
adjust-InRange_example =
    adjust-InRange metrics (loss_profile_for_mode low) low_window
      (loss_profile_for_mode-InRange low)
