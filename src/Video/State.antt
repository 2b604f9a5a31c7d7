-- ===== src/Video/State.antt =====
-- `ChiakiVideoReceiver`, its initialisation, and its list of reference frames.
use vitaki_vitarps.Base.{
  ℕ, ◌+◌, ◌-◌, ◌%◌, ◌^◌, Bool, true, false, ◌||◌, List, [], ◌∷◌, length, take, replicate, ltb, ◌==◌,
  if◌then◌else◌, Option, none, some,
}
use vitaki_vitarps.SeqNum.{seq_num_16_gt}
use vitaki_vitarps.Frame.Processor
use vitaki_vitarps.Frame.Processor.{FrameProcessor}

-- `ChiakiBitstream`; `sps` is the number read from the header, of either codec.
pub record Bitstream : Type 0 where
  pub codec : ℕ
  pub sps : ℕ

-- A frame index is -1 as `none`, or 16 bits. `profiles` has the headers. `frames_lost` is an
-- `int32_t` by its 32 bits.
pub record VideoReceiver : Type 0 where
  pub profiles : List (List ℕ)
  pub profile_cur : Option ℕ
  pub frame_index_cur : Option ℕ
  pub frame_index_prev : Option ℕ
  pub frame_index_prev_complete : ℕ
  pub frame_processor : FrameProcessor
  pub frames_lost : ℕ
  pub reference_frames : List (Option ℕ)
  pub bitstream : Bitstream
  pub gap_report_pending : Bool
  pub gap_report_start : ℕ
  pub gap_report_end : ℕ
  pub gap_report_deadline_ms : ℕ
  pub last_reported_corrupt_start : ℕ
  pub last_reported_corrupt_end : ℕ
  pub cur_frame_seen_last_unit : Bool
  pub cur_frame_first_packet_ms : ℕ
  pub stage_window_start_ms : ℕ
  pub stage_assemble_total_ms : ℕ
  pub stage_submit_total_ms : ℕ
  pub stage_window_frames : ℕ
  pub stage_window_drops : ℕ
  pub idr_request_pending : Bool
  pub idr_request_start_ms : ℕ
  pub old_frame_rejects_window : ℕ
  pub last_idr_request_ms : ℕ
  pub consecutive_missing_ref : ℕ
  pub cascade_skip_count : ℕ
  pub cascade_reset_attempts : ℕ
  pub prev_frame_first_packet_ms : ℕ
  pub cadence_min_ms : ℕ
  pub cadence_max_ms : ℕ
  pub cadence_total_ms : ℕ
  pub cadence_count : ℕ
  pub cadence_max_alarm_streak : ℕ

abbrev pub reference_frames_max : ℕ
reference_frames_max = 16

-- memset(reference_frames, -1, sizeof(reference_frames))
abbrev pub no_reference_frames : List (Option ℕ)
no_reference_frames = replicate reference_frames_max none

unfoldable pub init : Bitstream → VideoReceiver
unfolding Processor.init
init bitstream = record {
  profiles = [];
  profile_cur = none;
  frame_index_cur = none;
  frame_index_prev = none;
  frame_index_prev_complete = 0;
  frame_processor = Processor.init;
  frames_lost = 0;
  reference_frames = no_reference_frames;
  bitstream = bitstream;
  gap_report_pending = false;
  gap_report_start = 0;
  gap_report_end = 0;
  gap_report_deadline_ms = 0;
  last_reported_corrupt_start = 0;
  last_reported_corrupt_end = 0;
  cur_frame_seen_last_unit = false;
  cur_frame_first_packet_ms = 0;
  stage_window_start_ms = 0;
  stage_assemble_total_ms = 0;
  stage_submit_total_ms = 0;
  stage_window_frames = 0;
  stage_window_drops = 0;
  idr_request_pending = false;
  idr_request_start_ms = 0;
  old_frame_rejects_window = 0;
  last_idr_request_ms = 0;
  consecutive_missing_ref = 0;
  cascade_skip_count = 0;
  cascade_reset_attempts = 0;
  prev_frame_first_packet_ms = 0;
  cadence_min_ms = 0;
  cadence_max_ms = 0;
  cadence_total_ms = 0;
  cadence_count = 0;
  cadence_max_alarm_streak = 0;
}

-- At most 8 profiles are given.
unfoldable pub stream_info : VideoReceiver → List (List ℕ) → VideoReceiver
stream_info v profiles = if ltb 0 (length v.profiles) then v else record v { profiles = profiles }

abbrev pub same_frame : Option ℕ → Option ℕ → Bool
same_frame none none = true
same_frame none (some _) = false
same_frame (some _) none = false
same_frame (some a) (some b) = a == b

abbrev pub is_free : Option ℕ → Bool
is_free none = true
is_free (some _) = false

-- The last free place is taken, if there is one: the loop from index 15 down.
unfoldable pub fill_last : List (Option ℕ) → Option ℕ → Option (List (Option ℕ))
fill_last [] frame = none
fill_last (x ∷ xs) frame = elim (fill_last xs frame) [
  | some ys ↦ some (x ∷ ys)
  | none ↦ if is_free x then some (frame ∷ xs) else none
]

unfoldable pub add_ref_frame : List (Option ℕ) → Option ℕ → List (Option ℕ)
unfolding fill_last
add_ref_frame [] frame = []
add_ref_frame (some x ∷ xs) frame = frame ∷ take (length xs) (some x ∷ xs)
add_ref_frame (none ∷ xs) frame = elim (fill_last (none ∷ xs) frame) [
  | some ys ↦ ys
  | none ↦ none ∷ xs
]

unfoldable pub have_ref_frame : List (Option ℕ) → ℕ → Bool
have_ref_frame [] frame = false
have_ref_frame (x ∷ xs) frame = same_frame x (some frame) || have_ref_frame xs frame

unfoldable pub seq16_inclusive_ge : ℕ → ℕ → Bool
seq16_inclusive_ge a b = a == b || seq_num_16_gt a b

-- The numbers from `start` to `end`, both counted, round the circle.
unfoldable pub seq16_span : ℕ → ℕ → ℕ
seq16_span start end = (end + 2 ^ 32 - start) % 2 ^ 16 + 1

-- `(ChiakiSeqNum16)frame_index`
abbrev pub as_seq16 : Option ℕ → ℕ
as_seq16 none = 2 ^ 16 - 1
as_seq16 (some index) = index
