-- ===== src/Video/Flush.antt =====
-- chiaki_video_receiver_flush_frame, one function for each of its stages. The parsing of the
-- bitstream is a parameter.
use vitaki_vitarps.Base.{
  ℕ, zero, suc, ◌+◌, ◌-◌, ◌%◌, ◌^◌, Bool, true, false, not, ◌&&◌, ◌||◌, List, [], ◌∷◌, ◌++◌, ltb,
  leb, ◌==◌, if◌then◌else◌, Option, none, some, ErrorCode, success, unknown,
}
use vitaki_vitarps.Frame.Processor.{memcpy}
use vitaki_vitarps.Frame.Flush
use vitaki_vitarps.Frame.Flush.{FecDecode, FlushResult, flush_failed, flush_fec_failed}
use vitaki_vitarps.Vita.LossProfile.{saturating_add_u32}
use vitaki_vitarps.Video.State.{
  VideoReceiver, Bitstream, add_ref_frame, have_ref_frame, seq16_span, as_seq16,
}
use vitaki_vitarps.Video.Report.{
  Effect, sample, report_fec_fail, report_missing_ref, elapsed, report_corrupt_frame_range,
  maybe_request_idr, apply_cascade_reset,
}

pub data SliceType : Type 0 where
  slice_unknown slice_i slice_p : SliceType

pub record Slice : Type 0 where
  pub slice_type : SliceType
  pub reference_frame : ℕ

-- The functions of lib/src/bitstream.c: `slice` gives none for `false`, `set_reference_frame` the
-- result and the frame after the call.
pub record BitstreamOps : Type 0 where
  pub header : Bitstream → List ℕ → Bool × Bitstream
  pub slice : Bitstream → List ℕ → Option Slice
  pub set_reference_frame : Bitstream → List ℕ → ℕ → Bool × List ℕ

-- What the platform gives in a call: the readings of the clock in their order, the results of the
-- request for an IDR frame, of `calloc` and of the sample callback, if it is set.
pub record FlushEnv : Type 0 where
  pub ops : BitstreamOps
  pub fec_decode : FecDecode
  pub calloc_ok : Bool
  pub idr_err : ErrorCode
  pub sample_cb : Option Bool
  pub flush_start_ms : ℕ
  pub idr_now_ms : ℕ
  pub submit_start_ms : ℕ
  pub submit_end_ms : ℕ
  pub now_ms : ℕ

abbrev pub cascade_skip_threshold : ℕ
cascade_skip_threshold = 3

abbrev pub lose_one : VideoReceiver → VideoReceiver
lose_one v = record v { frames_lost = saturating_add_u32 v.frames_lost 1 }

abbrev pub count_drop : VideoReceiver → VideoReceiver
count_drop v = record v { stage_window_drops = (v.stage_window_drops + 1) % 2 ^ 32 }

-- The bookkeeping at the end of a frame.
abbrev pub advance_frame : VideoReceiver → VideoReceiver
advance_frame v = record v {
  frame_index_prev = v.frame_index_cur;
  cur_frame_first_packet_ms = 0;
  cur_frame_seen_last_unit = false;
}

unfoldable pub cascade_skip : FlushEnv → VideoReceiver → VideoReceiver × List Effect
unfolding maybe_request_idr apply_cascade_reset saturating_add_u32
cascade_skip env v =
    let skipped : VideoReceiver = record (count_drop (lose_one v)) {
      cascade_skip_count = (v.cascade_skip_count + 1) % 2 ^ 32;
    } in
    let (v', effects) =
      maybe_request_idr env.idr_err (apply_cascade_reset skipped) env.idr_now_ms in
    (advance_frame v', effects)

abbrev pub next_frame_expected : VideoReceiver → ℕ
next_frame_expected v = (v.frame_index_prev_complete + 1) % 2 ^ 16

-- The report of a frame that could not be repaired.
unfoldable pub report_fec_failed : FlushEnv → VideoReceiver → VideoReceiver × List Effect
unfolding maybe_request_idr report_corrupt_frame_range seq16_span saturating_add_u32
report_fec_failed env v =
    let (v1, idr) = maybe_request_idr env.idr_err v env.idr_now_ms in
    let next = next_frame_expected v1 in
    let (v2, corrupt) = report_corrupt_frame_range v1 next (as_seq16 v1.frame_index_cur) in
    let lost = seq16_span next (as_seq16 v2.frame_index_cur) in
    (
      if ltb 0 lost && ltb lost 1000
          then record v2 { frames_lost = saturating_add_u32 v2.frames_lost lost }
          else v2,
      idr ++ (report_fec_fail ∷ corrupt),
    )

-- A flush that failed.
unfoldable pub fail_frame : FlushEnv → FlushResult → VideoReceiver → VideoReceiver × List Effect
unfolding report_fec_failed
fail_frame env flush_fec_failed v =
    let (v', effects) = report_fec_failed env (count_drop v) in
    (record v' { frame_index_prev = v'.frame_index_cur }, effects)
fail_frame env _ v = (record (count_drop v) { frame_index_prev = v.frame_index_cur }, [])

-- `(ChiakiSeqNum16)(frame_index_cur - i - 1)`, in `unsigned`.
abbrev pub ref_index : VideoReceiver → ℕ → ℕ
ref_index v i = (as_seq16 v.frame_index_cur + 2 ^ 32 - i - 1) % 2 ^ 16

-- The search for another reference frame from `i` on, with the rounds left.
unfoldable pub find_ref : VideoReceiver → ℕ → ℕ → Option ℕ
unfolding have_ref_frame
find_ref v zero i = none
find_ref v (suc n) i =
    if have_ref_frame v.reference_frames (ref_index v i) then some i else find_ref v n (i + 1)

-- A frame on its way: whether it is good, whether it was recovered, its bytes.
pub record Decoded : Type 0 where
  pub receiver : VideoReceiver
  pub succ : Bool
  pub recovered : Bool
  pub frame : List ℕ
  pub effects : List Effect

abbrev pub missing_ref : VideoReceiver → List ℕ → Decoded
missing_ref v frame = record {
  receiver = record (lose_one v) {
    consecutive_missing_ref = (v.consecutive_missing_ref + 1) % 2 ^ 32;
  };
  succ = false;
  recovered = false;
  frame = frame;
  effects = report_missing_ref ∷ [];
}

-- The frame, which stands at the start of the frame processor's buffer, after it was written to.
abbrev pub rewritten : VideoReceiver → List ℕ → VideoReceiver
rewritten v frame = record v {
  frame_processor = record (v.frame_processor) {
    frame_buf = memcpy v.frame_processor.frame_buf 0 frame;
  };
}

-- A P frame: its reference is there, or another is taken, or the frame is lost.
unfoldable pub recover_ref : BitstreamOps → VideoReceiver → List ℕ → ℕ → Decoded
unfolding have_ref_frame find_ref saturating_add_u32
recover_ref ops v frame ref =
    if ref == 255 || have_ref_frame v.reference_frames (ref_index v ref)
    then record { receiver = v; succ = true; recovered = false; frame = frame; effects = [] }
    else elim (find_ref v (16 - (ref + 1)) (ref + 1)) [
      | none ↦ missing_ref v frame
      | some i ↦
          let (done, frame') = ops.set_reference_frame v.bitstream frame i in
          let v' = rewritten v frame' in
          if done
          then record {
            receiver = record v' { consecutive_missing_ref = 0 };
            succ = true;
            recovered = true;
            frame = frame';
            effects = [];
          }
          else missing_ref v' frame'
    ]

-- An I frame ends a cascade, and answers a request; another frame may repeat it.
unfoldable pub note_slice : FlushEnv → VideoReceiver → SliceType → VideoReceiver × List Effect
unfolding maybe_request_idr
note_slice env v slice_i = (
  record v {
    consecutive_missing_ref = 0;
    cascade_reset_attempts = 0;
    idr_request_pending = false;
    idr_request_start_ms = if v.idr_request_pending then 0 else v.idr_request_start_ms;
  },
  [],
)
note_slice env v _ =
    if v.idr_request_pending then maybe_request_idr env.idr_err v env.idr_now_ms else (v, [])

abbrev good : VideoReceiver → List ℕ → List Effect → Decoded
good v frame effects = record {
  receiver = v;
  succ = true;
  recovered = false;
  frame = frame;
  effects = effects;
}

-- By the type of the slice and its reference frame, after it was noted.
unfoldable pub decode_type :
    FlushEnv → VideoReceiver × List Effect → List ℕ → SliceType → ℕ → Decoded
unfolding recover_ref
decode_type env (v, noted) frame slice_p ref =
    let d = recover_ref env.ops v frame ref in record d { effects = noted ++ d.effects }
decode_type env (v, noted) frame slice_i ref = good v frame noted
decode_type env (v, noted) frame slice_unknown ref = good v frame noted

unfoldable pub decode_slice : FlushEnv → VideoReceiver → List ℕ → Option Slice → Decoded
unfolding note_slice decode_type
decode_slice env v frame none = good v frame []
decode_slice env v frame (some slice) =
    decode_type env (note_slice env v slice.slice_type) frame slice.slice_type slice.reference_frame

unfoldable pub decode : FlushEnv → VideoReceiver → List ℕ → Decoded
unfolding decode_slice
decode env v frame = decode_slice env v frame (env.ops.slice v.bitstream frame)

abbrev pub submit_ms : FlushEnv → VideoReceiver → VideoReceiver
submit_ms env v = record v {
  stage_submit_total_ms =
      if leb env.submit_start_ms env.submit_end_ms
      then (v.stage_submit_total_ms + (env.submit_end_ms - env.submit_start_ms)) % 2 ^ 64
      else v.stage_submit_total_ms;
}

-- The frame handed to the sample callback.
unfoldable pub submit : FlushEnv → Decoded → Decoded
unfolding add_ref_frame
submit env d = elim env.sample_cb [
  | none ↦ d
  | some cb_succ ↦
      let v : VideoReceiver = record (d.receiver) { frames_lost = 0 } in
      let kept : VideoReceiver = record v {
        reference_frames = add_ref_frame v.reference_frames v.frame_index_cur;
        consecutive_missing_ref = 0;
      } in
      if not d.succ then d else record d {
        receiver = submit_ms env (if cb_succ then kept else v);
        succ = cb_succ;
        effects = d.effects ++ (sample d.frame d.receiver.frames_lost d.recovered ∷ []);
      }
]

-- The statistics of a window of a second.
unfoldable pub roll_window : VideoReceiver → ℕ → VideoReceiver
roll_window v now_ms =
    let start = if v.stage_window_start_ms == 0 then now_ms else v.stage_window_start_ms in
    if ltb (elapsed now_ms start) 1000
    then record v { stage_window_start_ms = start }
    else record v {
      cadence_max_alarm_streak =
          if ltb 80 v.cadence_max_ms then (v.cadence_max_alarm_streak + 1) % 2 ^ 32 else 0;
      stage_window_start_ms = now_ms;
      stage_assemble_total_ms = 0;
      stage_submit_total_ms = 0;
      stage_window_frames = 0;
      stage_window_drops = 0;
      old_frame_rejects_window = 0;
      cascade_skip_count = 0;
      cadence_min_ms = 0;
      cadence_max_ms = 0;
      cadence_total_ms = 0;
      cadence_count = 0;
    }

abbrev pub complete_frame : VideoReceiver → ℕ → VideoReceiver
complete_frame v assemble_ms = record v {
  frame_index_prev_complete = as_seq16 v.frame_index_cur;
  stage_window_frames = (v.stage_window_frames + 1) % 2 ^ 32;
  stage_assemble_total_ms = (v.stage_assemble_total_ms + assemble_ms) % 2 ^ 64;
}

-- From the sample callback on.
unfoldable pub finish_frame : FlushEnv → ℕ → Decoded → VideoReceiver × List Effect
unfolding submit roll_window
finish_frame env assemble_ms d =
    let d' = submit env d in
    let v = advance_frame d'.receiver in
    (roll_window (if d'.succ then complete_frame v assemble_ms else v) env.now_ms, d'.effects)

abbrev pub is_failure : FlushResult → Bool
is_failure flush_failed = true
is_failure flush_fec_failed = true
is_failure _ = false

unfoldable pub flush_frame : FlushEnv → VideoReceiver → ErrorCode × VideoReceiver × List Effect
unfolding cascade_skip Flush.flush fail_frame decode finish_frame
flush_frame env v =
    let first = v.cur_frame_first_packet_ms in
    let assemble_ms =
      if ltb 0 first && leb first env.flush_start_ms then env.flush_start_ms - first else 0 in
    let (result, frame, fp) = Flush.flush env.fec_decode env.calloc_ok v.frame_processor in
    let v' : VideoReceiver = record v { frame_processor = fp } in
    let skipped = cascade_skip env v in
    let failed = fail_frame env result v' in
    let finished = finish_frame env assemble_ms (decode env v' frame) in
    if leb cascade_skip_threshold v.consecutive_missing_ref
    then (unknown, skipped.0, skipped.1)
    else if is_failure result
    then (unknown, failed.0, failed.1)
    else (success, finished.0, finished.1)
