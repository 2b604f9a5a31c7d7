-- ===== src/Video/Receive.antt =====
-- chiaki_video_receiver_av_packet.
use vitaki_vitarps.Base.{
  ℕ, ◌+◌, ◌-◌, ◌%◌, ◌^◌, Bool, true, false, not, ◌&&◌, ◌||◌, List, [], ◌∷◌, ◌++◌, length, get_or,
  ltb, leb, ◌==◌, if◌then◌else◌, Option, none, some,
}
use vitaki_vitarps.SeqNum.{seq_num_16_lt, seq_num_16_gt}
use vitaki_vitarps.Frame.Processor.{
  AvPacket, alloc_frame, put_unit, flush_possible, report_packet_stats,
}
use vitaki_vitarps.Stats.PacketStats.{PacketStats}
use vitaki_vitarps.Stats.VideoGap.{report_update, GapState}
use vitaki_vitarps.Takion.AvPacket.{TakionAvPacket}
use vitaki_vitarps.Video.State.{VideoReceiver, same_frame, as_seq16}
use vitaki_vitarps.Video.Report.{
  Effect, sample, report_corrupt_frame_range, flush_pending_gap_report, video_gap_report_hold_ms,
}
use vitaki_vitarps.Video.Flush.{FlushEnv, next_frame_expected, flush_frame}

-- What the frame processor reads of a packet.
abbrev pub unit_of : TakionAvPacket → AvPacket
unit_of packet = record {
  unit_index = packet.unit_index;
  units_in_frame_total = packet.units_in_frame_total;
  units_in_frame_fec = packet.units_in_frame_fec;
  is_video = packet.is_video;
  payload = packet.payload;
}

-- What the platform gives in a call: `now_ms` and `first_packet_ms` of the clock, the allocations,
-- and what it gives to a flush of the frame before and to one of this frame.
pub record ReceiveEnv : Type 0 where
  pub now_ms : ℕ
  pub first_packet_ms : ℕ
  pub slots_ok : Bool
  pub buf_ok : Bool
  pub before : FlushEnv
  pub after : FlushEnv

-- The switch to another profile; `none` is an invalid stream index.
unfoldable pub switch_profile : FlushEnv → VideoReceiver → ℕ → Option (VideoReceiver × List Effect)
switch_profile env v index =
    let header = get_or v.profiles index [] in
    if same_frame v.profile_cur (some index)
    then some (v, [])
    else if leb (length v.profiles) index
    then none
    else some (
      record v { profile_cur = some index; bitstream = (env.ops.header v.bitstream header).1 },
      elim env.sample_cb [ none ↦ [] | some _ ↦ sample header 0 false ∷ [] ],
    )

abbrev pub gap_state : VideoReceiver → GapState
gap_state v = record {
  pending = v.gap_report_pending;
  start = v.gap_report_start;
  end = v.gap_report_end;
  deadline_ms = v.gap_report_deadline_ms;
}

abbrev pub with_gap : VideoReceiver → GapState → VideoReceiver
with_gap v state = record v {
  gap_report_pending = state.pending;
  gap_report_start = state.start;
  gap_report_end = state.end;
  gap_report_deadline_ms = state.deadline_ms;
}

-- The gap that another one follows, reported.
unfoldable pub report_previous : VideoReceiver → Option (ℕ × ℕ) → VideoReceiver × List Effect
unfolding report_corrupt_frame_range
report_previous v none = (v, [])
report_previous v (some (start, end)) = report_corrupt_frame_range v start end

-- The frames from `start` to `gap_end` are missing.
unfoldable pub note_gap : VideoReceiver → ℕ → ℕ → ℕ → VideoReceiver × List Effect
unfolding report_update report_previous flush_pending_gap_report
note_gap v start gap_end now_ms =
    let (_, state, flushed) =
      report_update (gap_state v) start gap_end now_ms video_gap_report_hold_ms in
    let (v1, first) = report_previous v flushed in
    let (v2, second) = flush_pending_gap_report (with_gap v1 state) now_ms false in
    (v2, first ++ second)

-- The gap before a new frame, if there is one; the first frame may have the index 1.
unfoldable pub note_missing : VideoReceiver → ℕ → ℕ → VideoReceiver × List Effect
unfolding note_gap
note_missing v frame_index now_ms =
    let next = next_frame_expected v in
    if seq_num_16_gt frame_index next && not (frame_index == 1 && same_frame v.frame_index_cur none)
    then note_gap v next ((frame_index + 2 ^ 16 - 1) % 2 ^ 16) now_ms
    else (v, [])

-- The time between the first packets of two frames.
unfoldable pub measure_cadence : VideoReceiver → ℕ → VideoReceiver
measure_cadence v first_ms =
    let gap_ms = first_ms - v.prev_frame_first_packet_ms in
    if ltb 0 v.prev_frame_first_packet_ms && leb v.prev_frame_first_packet_ms first_ms
    then record v {
      cadence_min_ms =
          if v.cadence_count == 0 || ltb gap_ms v.cadence_min_ms then gap_ms else v.cadence_min_ms;
      cadence_max_ms = if ltb v.cadence_max_ms gap_ms then gap_ms else v.cadence_max_ms;
      cadence_total_ms = (v.cadence_total_ms + gap_ms) % 2 ^ 64;
      cadence_count = (v.cadence_count + 1) % 2 ^ 32;
      prev_frame_first_packet_ms = first_ms;
    }
    else record v { prev_frame_first_packet_ms = first_ms }

abbrev pub begin_frame : ReceiveEnv → VideoReceiver → TakionAvPacket → VideoReceiver
begin_frame env v packet =
    let v' = measure_cadence v env.first_packet_ms in
    record v' {
      frame_index_cur = some packet.frame_index;
      cur_frame_seen_last_unit = false;
      cur_frame_first_packet_ms = env.first_packet_ms;
      frame_processor = (alloc_frame env.slots_ok env.buf_ok v.frame_processor (unit_of packet)).1;
    }

-- The last frame flushed, if that was not done yet.
unfoldable pub flush_last : FlushEnv → VideoReceiver → VideoReceiver × List Effect
unfolding flush_frame
flush_last env v =
    if same_frame v.frame_index_cur none || same_frame v.frame_index_prev v.frame_index_cur
    then (v, [])
    else ((flush_frame env v).1, (flush_frame env v).2)

-- "next frame?"; the statistics are those of the session.
unfoldable pub next_frame :
    ReceiveEnv → VideoReceiver → TakionAvPacket → VideoReceiver × List Effect
unfolding flush_last note_missing measure_cadence alloc_frame
next_frame env v packet =
    let (v1, flushed) = flush_last env.before v in
    let (v2, missing) = note_missing v1 packet.frame_index env.now_ms in
    if same_frame v.frame_index_cur none
      || seq_num_16_gt packet.frame_index (as_seq16 v.frame_index_cur)
    then (begin_frame env v2 packet, flushed ++ missing)
    else (v, [])

abbrev pub is_last_unit : TakionAvPacket → Bool
is_last_unit packet =
    ltb 0 packet.units_in_frame_total && packet.unit_index == packet.units_in_frame_total - 1

abbrev pub put_packet : VideoReceiver → TakionAvPacket → VideoReceiver
put_packet v packet = record v {
  frame_processor = (put_unit v.frame_processor (unit_of packet)).1;
  cur_frame_seen_last_unit = if is_last_unit packet then true else v.cur_frame_seen_last_unit;
}

-- The unit put into its frame, and the frame flushed when enough units are there.
unfoldable pub take_unit : FlushEnv → VideoReceiver → TakionAvPacket → VideoReceiver × List Effect
unfolding put_unit flush_possible flush_frame
take_unit env v packet =
    let v' = put_packet v packet in
    if not (same_frame v'.frame_index_cur v'.frame_index_prev) && flush_possible v'.frame_processor
    then ((flush_frame env v').1, (flush_frame env v').2)
    else (v', [])

-- A packet of an old frame.
unfoldable pub is_old : VideoReceiver → TakionAvPacket → Bool
is_old v packet =
    not (same_frame v.frame_index_cur none)
    && seq_num_16_lt packet.frame_index (as_seq16 v.frame_index_cur)

-- From the switch of the profile on; `none` is an invalid stream index.
unfoldable pub receive :
    ReceiveEnv
    → VideoReceiver
    → TakionAvPacket
    → Option (VideoReceiver × List Effect)
    → VideoReceiver × List Effect
unfolding next_frame take_unit
receive env v packet none = (v, [])
receive env v packet (some (v2, switched)) =
    let (v3, begun) = next_frame env v2 packet in
    let (v4, taken) = take_unit env.after v3 packet in (v4, switched ++ (begun ++ taken))

abbrev pub reject_old : VideoReceiver → VideoReceiver
reject_old v = record v { old_frame_rejects_window = (v.old_frame_rejects_window + 1) % 2 ^ 32 }

unfoldable pub av_packet : ReceiveEnv → VideoReceiver → TakionAvPacket → VideoReceiver × List Effect
unfolding flush_pending_gap_report is_old switch_profile receive
av_packet env v packet =
    let (v1, pending) = flush_pending_gap_report v env.now_ms false in
    let (v2, effects) =
      receive env v1 packet (switch_profile env.before v1 packet.adaptive_stream_index) in
    if is_old v1 packet then (reject_old v1, pending) else (v2, pending ++ effects)

-- The packet statistics of the session, if there are any: a new frame reports those of the last.
unfoldable pub av_packet_stats :
    VideoReceiver → TakionAvPacket → Option PacketStats → Option PacketStats
unfolding report_packet_stats is_old
av_packet_stats v packet stats =
    let begins =
      same_frame v.frame_index_cur none
      || seq_num_16_gt packet.frame_index (as_seq16 v.frame_index_cur) in
    let known =
      same_frame v.profile_cur (some packet.adaptive_stream_index)
      || ltb packet.adaptive_stream_index (length v.profiles) in
    elim stats [
      | none ↦ none
      | some s ↦
          if not (is_old v packet) && known && begins
          then some (report_packet_stats v.frame_processor s)
          else some s
    ]
