-- ===== src/Video/ReceiveLaws.antt =====
-- What a packet of video does to the receiver.
use vitaki_vitarps.Base.{
  ℕ, ◌+◌, ◌-◌, ◌%◌, ◌^◌, ◌<◌, ◌≡◌, ◌⊎◌, ◌∙◌, inl, inr, Bool, true, false, ◌||◌, List, if◌then◌else◌,
  Option, none, some, arith, refl, ap, subst, length, Bool-cases, Option-cases,
}
use vitaki_vitarps.SeqNum.{seq_num_16_gt}
use vitaki_vitarps.Takion.AvPacket.{TakionAvPacket}
use vitaki_vitarps.Video.State.{VideoReceiver, same_frame, as_seq16}
use vitaki_vitarps.Video.Report.{
  Effect, report_corrupt_frame_range, flush_pending_gap_report, video_gap_report_hold_ms,
}
use vitaki_vitarps.Stats.VideoGap.{report_update}
use vitaki_vitarps.Video.Flush.{FlushEnv, next_frame_expected}
use vitaki_vitarps.Video.FlushLaws.{IsSame, corrupt-IsSame, flush_frame-IsClosed}
use vitaki_vitarps.Video.Receive.{
  ReceiveEnv, switch_profile, gap_state, with_gap, report_previous, note_gap, note_missing,
  measure_cadence, flush_last, next_frame, put_packet, take_unit, is_old, av_packet, receive,
}

pending-IsSame :
    (v : VideoReceiver) (now : ℕ) (force : Bool) → IsSame v (flush_pending_gap_report v now force).0
unfolding flush_pending_gap_report
pending-IsSame v now force =
    let s = corrupt-IsSame v v.gap_report_start v.gap_report_end in
    record { cur = ground (arith, s.cur); refs = ground (arith, s.refs) }

previous-IsSame :
    (v : VideoReceiver) (flushed : Option (ℕ × ℕ)) → IsSame v (report_previous v flushed).0
unfolding report_previous
previous-IsSame v none = record { cur = refl; refs = refl }
previous-IsSame v (some (start, end)) = corrupt-IsSame v start end

note_gap-IsSame :
    (v : VideoReceiver) (start gap_end now : ℕ) → IsSame v (note_gap v start gap_end now).0
unfolding note_gap
note_gap-IsSame v start gap_end now =
    let (_, state, flushed) =
      report_update (gap_state v) start gap_end now video_gap_report_hold_ms in
    let s = previous-IsSame v flushed in
    let t = pending-IsSame (with_gap (report_previous v flushed).0 state) now false in
    record { cur = t.cur ∙ s.cur; refs = t.refs ∙ s.refs }

missing-IsSame :
    (v : VideoReceiver) (frame_index now : ℕ) → IsSame v (note_missing v frame_index now).0
unfolding note_missing
missing-IsSame v frame_index now =
    let s = note_gap-IsSame v (next_frame_expected v) ((frame_index + 2 ^ 16 - 1) % 2 ^ 16) now in
    record { cur = ground (arith, s.cur); refs = ground (arith, s.refs) }

cadence-IsSame : (v : VideoReceiver) (first : ℕ) → IsSame v (measure_cadence v first)
unfolding measure_cadence
cadence-IsSame v first = record { cur = ground arith; refs = ground arith }

switch-IsSame :
    (env : FlushEnv) (v v' : VideoReceiver) (index : ℕ) (effects : List Effect)
    → switch_profile env v index ≡ some (v', effects)
    → IsSame v v'
unfolding switch_profile
switch-IsSame env v v' index effects e = record {
  cur = ground (arith, e);
  refs = ground (arith, e);
}

-- The list of reference frames has its 16 places.
abbrev pub HasRefs : VideoReceiver → Type 0
HasRefs v = length v.reference_frames ≡ 16

flush_last-HasRefs :
    (env : FlushEnv) (v : VideoReceiver)
    → HasRefs v
    → HasRefs (flush_last env v).0 × ((flush_last env v).0.frame_index_cur ≡ v.frame_index_cur)
unfolding flush_last
flush_last-HasRefs env v h =
    let c = flush_frame-IsClosed env v h in (ground (arith, c.refs), ground (arith, c.cur))

take_unit-HasRefs :
    (env : FlushEnv) (v : VideoReceiver) (packet : TakionAvPacket)
    → HasRefs v
    → HasRefs (take_unit env v packet).0
      × ((take_unit env v packet).0.frame_index_cur ≡ v.frame_index_cur)
unfolding take_unit
take_unit-HasRefs env v packet h =
    let c = flush_frame-IsClosed env (put_packet v packet) h in
    (ground (arith, c.refs), ground (arith, c.cur))

-- The packet begins a new frame.
abbrev pub begins : VideoReceiver → TakionAvPacket → Bool
begins v packet =
    same_frame v.frame_index_cur none
    || seq_num_16_gt packet.frame_index (as_seq16 v.frame_index_cur)

-- The current frame is the packet's when the packet begins a frame, and stays otherwise.
pub record IsReceived (v : VideoReceiver) (packet : TakionAvPacket) (v' : VideoReceiver)
    : Type 0 where
  pub refs : HasRefs v'
  pub cur :
      v'.frame_index_cur ≡ (if begins v packet then some packet.frame_index else v.frame_index_cur)

next_frame-IsReceived :
    (env : ReceiveEnv) (v : VideoReceiver) (packet : TakionAvPacket)
    → HasRefs v
    → IsReceived v packet (next_frame env v packet).0
unfolding next_frame
next_frame-IsReceived env v packet h =
    let (refs, cur) = flush_last-HasRefs env.before v h in
    let v1 = (flush_last env.before v).0 in
    let s = missing-IsSame v1 packet.frame_index env.now_ms in
    let t = cadence-IsSame (note_missing v1 packet.frame_index env.now_ms).0 env.first_packet_ms in
    elim (Bool-cases (begins v packet)) [
      | inl e ↦ rw e (record { refs = ap length (t.refs ∙ s.refs) ∙ refs; cur = rw e refl })
      | inr e ↦ rw e (record { refs = h; cur = rw e refl })
    ]

IsReceived-IsSame :
    (u v w : VideoReceiver) (packet : TakionAvPacket)
    → IsSame u v
    → IsReceived v packet w
    → IsReceived u packet w
IsReceived-IsSame u v w packet s r = record {
  refs = r.refs;
  cur =
      subst
        (λ c. w.frame_index_cur ≡ (
          if same_frame c none || seq_num_16_gt packet.frame_index (as_seq16 c)
          then some packet.frame_index
          else c))
        s.cur r.cur;
}

known-IsReceived :
    (env : ReceiveEnv) (v v2 : VideoReceiver) (packet : TakionAvPacket) (switched : List Effect)
    → HasRefs v
    → switch_profile env.before v packet.adaptive_stream_index ≡ some (v2, switched)
    → IsReceived v packet (take_unit env.after (next_frame env v2 packet).0 packet).0
known-IsReceived env v v2 packet switched h e =
    let s = switch-IsSame env.before v v2 packet.adaptive_stream_index switched e in
    let r = next_frame-IsReceived env v2 packet (ap length s.refs ∙ h) in
    let t = take_unit-HasRefs env.after (next_frame env v2 packet).0 packet r.refs in
    IsReceived-IsSame v v2 _ packet s (record { refs = t.0; cur = t.1 ∙ r.cur })

is_old-IsSame :
    (v v1 : VideoReceiver) (packet : TakionAvPacket)
    → IsSame v v1
    → is_old v1 packet ≡ is_old v packet
unfolding is_old
is_old-IsSame v v1 packet s = rw s.cur refl

pending-processor :
    (v : VideoReceiver) (now : ℕ)
    → (flush_pending_gap_report v now false).0.frame_processor ≡ v.frame_processor
unfolding flush_pending_gap_report report_corrupt_frame_range
pending-processor v now = ground arith

pending-profiles :
    (v : VideoReceiver) (now : ℕ)
    → let v1 = (flush_pending_gap_report v now false).0 in
      (v1.profiles ≡ v.profiles) × (v1.profile_cur ≡ v.profile_cur)
unfolding flush_pending_gap_report report_corrupt_frame_range
pending-profiles v now = (ground arith, ground arith)

-- A packet of an old frame changes neither the frame that is built, nor its number, nor the
-- reference frames: only what was pending is reported when it is due.
pub av_packet_old :
    (env : ReceiveEnv) (v : VideoReceiver) (packet : TakionAvPacket)
    → is_old v packet ≡ true
    → let (v', effects) = av_packet env v packet in
      (v'.frame_processor ≡ v.frame_processor)
      × IsSame v v'
      × (effects ≡ (flush_pending_gap_report v env.now_ms false).1)
unfolding av_packet
av_packet_old env v packet old =
    let s = pending-IsSame v env.now_ms false in
    rw (is_old-IsSame v (flush_pending_gap_report v env.now_ms false).0 packet s ∙ old)
      (pending-processor v env.now_ms, record { cur = s.cur; refs = s.refs }, refl)

switch_known :
    (env : FlushEnv) (v : VideoReceiver) (index : ℕ)
    → (same_frame v.profile_cur (some index) ≡ true) ⊎ (index < length v.profiles)
    → (v2 : VideoReceiver) × (effects : List Effect) × (switch_profile env v index
        ≡ some (v2, effects))
unfolding switch_profile
switch_known env v index known = elim (Option-cases (switch_profile env v index)) [
  | inl n ↦ absurd (ground (arith, n, known))
  | inr (r, e) ↦ (r.0, r.1, e)
]

IsReceived-new :
    (env : ReceiveEnv) (v v1 v2 : VideoReceiver) (packet : TakionAvPacket) (switched : List Effect)
    → HasRefs v
    → IsSame v v1
    → switch_profile env.before v1 packet.adaptive_stream_index ≡ some (v2, switched)
    → IsReceived v packet
        (receive env v1 packet (switch_profile env.before v1 packet.adaptive_stream_index)).0
unfolding receive
IsReceived-new env v v1 v2 packet switched h s e = rw e (
    IsReceived-IsSame v v1 _ packet s
      (known-IsReceived env v1 v2 packet switched (ap length s.refs ∙ h) e))

-- A packet whose stream index is that of the current profile or of another known one makes its frame
-- the current one exactly when there is no current frame or its frame is after it; otherwise the
-- current frame stays. The list of reference frames keeps its 16 places. (The packet is not of an
-- old frame.)
pub av_packet-IsReceived :
    (env : ReceiveEnv) (v : VideoReceiver) (packet : TakionAvPacket)
    → HasRefs v
    → is_old v packet ≡ false
    → (same_frame v.profile_cur (some packet.adaptive_stream_index) ≡ true)
      ⊎ (packet.adaptive_stream_index < length v.profiles)
    → IsReceived v packet (av_packet env v packet).0
unfolding av_packet
av_packet-IsReceived env v packet h new known =
    let v1 = (flush_pending_gap_report v env.now_ms false).0 in
    let s = pending-IsSame v env.now_ms false in
    let (ps, pc) = pending-profiles v env.now_ms in
    let (v2, switched, e) = switch_known env.before v1 packet.adaptive_stream_index (elim known [
      | inl k ↦ inl (ap (λ c. same_frame c (some packet.adaptive_stream_index)) pc ∙ k)
      | inr k ↦ inr (omega (arith, ap length ps, k))
    ]) in
    rw (is_old-IsSame v v1 packet s ∙ new) (IsReceived-new env v v1 v2 packet switched h s e)
