-- ===== src/Video/Tests.antt =====
-- The video receiver on small inputs, and the witnesses of its properties.
use vitaki_vitarps.Base.{
  ℕ, ◌≡◌, ◌<◌, ◌≤◌, ◌⊎◌, inr, true, false, refl, some, [], ◌∷◌, arith, length, success, fec_failed,
}
use vitaki_vitarps.SeqNum.{seq_num_gt, seq_num_lt}
use vitaki_vitarps.Takion.AvPacket.{TakionAvPacket}
use vitaki_vitarps.Video.State.{VideoReceiver, init, seq16_span}
use vitaki_vitarps.Video.Report.{
  not_pending, request_idr, send_corrupt_frame, maybe_request_idr, flush_pending_gap_report, sample,
  idr_requested,
}
use vitaki_vitarps.Video.ReportLaws.{
  IsHeld, IsDue, IsReported, IsNew, reported, flush_pending_gap_report_lem,
}
use vitaki_vitarps.Video.Flush.{FlushEnv, BitstreamOps, slice_i, flush_frame}
use vitaki_vitarps.Video.FlushLaws.{IsClosed, flush_frame-IsClosed}
use vitaki_vitarps.Video.Receive.{ReceiveEnv, is_old, av_packet}
use vitaki_vitarps.Video.ReceiveLaws.{IsReceived, av_packet-IsReceived}

abbrev ops : BitstreamOps
ops = record {
  header = λ bitstream header. (true, bitstream);
  slice = λ bitstream frame. some (record { slice_type = slice_i; reference_frame = 0 });
  set_reference_frame = λ bitstream frame i. (true, frame);
}

abbrev flush_env : FlushEnv
flush_env = record {
  ops = ops;
  fec_decode = λ buf size stride source fec erasures. (fec_failed, buf);
  calloc_ok = true;
  idr_err = success;
  sample_cb = some true;
  flush_start_ms = 1000;
  idr_now_ms = 1000;
  submit_start_ms = 1000;
  submit_end_ms = 1001;
  now_ms = 1001;
}

abbrev env : ReceiveEnv
env = record {
  now_ms = 990;
  first_packet_ms = 990;
  slots_ok = true;
  buf_ok = true;
  before = flush_env;
  after = flush_env;
}

-- A receiver with a profile.
abbrev fresh : VideoReceiver
fresh = record (init (record { codec = 0; sps = 0 })) { profiles = (1 ∷ 2 ∷ []) ∷ [] }

-- A frame of one unit.
abbrev packet : ℕ → TakionAvPacket
packet frame_index = record {
  packet_index = 0;
  frame_index = frame_index;
  uses_nalu_info_structs = false;
  is_video = true;
  is_haptics = false;
  unit_index = 0;
  units_in_frame_total = 1;
  units_in_frame_fec = 0;
  codec = 0;
  word_at_0x18 = 0;
  adaptive_stream_index = 0;
  byte_at_0x2c = 0;
  key_pos = 0;
  payload = 0 ∷ 0 ∷ 7 ∷ 8 ∷ [];
  data_size = 4;
}

-- The first frame: the header goes to the callback, and then the bytes of the frame.
first_frame :
    (av_packet env fresh (packet 1)).1
    ≡ sample (1 ∷ 2 ∷ []) 0 false ∷ sample (7 ∷ 8 ∷ []) 0 false ∷ []
unfolding av_packet init flush_frame seq_num_gt
first_frame = refl

abbrev building : VideoReceiver
building = record fresh { frame_index_cur = some 5; cur_frame_first_packet_ms = 980 }

fresh_refs : length fresh.reference_frames ≡ 16
unfolding init
fresh_refs = refl

flush_frame-IsClosed_example : IsClosed building (flush_frame flush_env building).1
flush_frame-IsClosed_example = flush_frame-IsClosed flush_env building fresh_refs

building_old : is_old building (packet 4) ≡ true
unfolding is_old seq_num_lt
building_old = refl

fresh_new : is_old fresh (packet 1) ≡ false
unfolding is_old init
fresh_new = refl

av_packet-IsReceived_example : IsReceived fresh (packet 1) (av_packet env fresh (packet 1)).0
av_packet-IsReceived_example =
    av_packet-IsReceived env fresh (packet 1) fresh_refs fresh_new (inr (omega arith))

requests : maybe_request_idr success fresh 500 ≡ (idr_requested fresh 500, request_idr ∷ [])
unfolding maybe_request_idr init
requests = refl

-- An I slice ended the request meanwhile.
abbrev answered : VideoReceiver
answered = record (idr_requested fresh 500) {
  idr_request_pending = false;
  idr_request_start_ms = 0;
}

abbrev pending : VideoReceiver
pending = record fresh {
  gap_report_pending = true;
  gap_report_start = 3;
  gap_report_end = 4;
  gap_report_deadline_ms = 900;
}

flush_pending_gap_report_example :
    let r = flush_pending_gap_report pending 950 false in
    let span = seq16_span pending.gap_report_start pending.gap_report_end in
    (IsHeld pending 950 false × (r ≡ (pending, [])))
    ⊎ ((4096 < span) × (r ≡ (not_pending pending, [])))
    ⊎ (IsDue pending 950 false
        × (span ≤ 4096)
        × IsReported pending
        × (r ≡ (not_pending pending, [])))
    ⊎ (IsDue pending 950 false
        × (span ≤ 4096)
        × IsNew pending
        × (r ≡ (
          reported pending,
          send_corrupt_frame pending.gap_report_start pending.gap_report_end ∷ [],
        )))
flush_pending_gap_report_example = flush_pending_gap_report_lem pending 950 false refl
