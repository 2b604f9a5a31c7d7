-- ===== src/Video/FlushLaws.antt =====
-- What every flush of a frame leaves, whatever the frame, the decoder and the callback do.
use vitaki_vitarps.Base.{
  ℕ, ◌≡◌, ◌∙◌, inl, inr, List, leb, if◌then◌else◌, Option, none, some, ErrorCode, arith, refl, ap,
  length, Bool-cases,
}
use vitaki_vitarps.Frame.Processor.{FrameProcessor}
use vitaki_vitarps.Frame.Flush
use vitaki_vitarps.Frame.Flush.{
  FlushResult, flush_success, flush_fec_success, flush_failed, flush_fec_failed,
}
use vitaki_vitarps.Video.State.{VideoReceiver, as_seq16}
use vitaki_vitarps.Video.RefLaws.{length-add_ref_frame}
use vitaki_vitarps.Video.Report.{
  Effect, maybe_request_idr, expire_idr_request, report_corrupt_frame_range, apply_cascade_reset,
}
use vitaki_vitarps.Video.Flush.{
  FlushEnv, Slice, SliceType, slice_unknown, slice_i, slice_p, Decoded, BitstreamOps, cascade_skip,
  cascade_skip_threshold, report_fec_failed, fail_frame, recover_ref, note_slice, decode_type,
  decode_slice, decode, count_drop, next_frame_expected, submit, roll_window, finish_frame,
  flush_frame, is_failure, complete_frame, advance_frame, complete_frame,
}

-- The frame that is built, and the reference frames, stay.
pub record IsSame (v v' : VideoReceiver) : Type 0 where
  pub cur : v'.frame_index_cur ≡ v.frame_index_cur
  pub refs : v'.reference_frames ≡ v.reference_frames

pub IsSame-trans : (u v w : VideoReceiver) → IsSame u v → IsSame v w → IsSame u w
IsSame-trans u v w s t = record { cur = t.cur ∙ s.cur; refs = t.refs ∙ s.refs }

pub idr-IsSame :
    (err : ErrorCode) (v : VideoReceiver) (now : ℕ) → IsSame v (maybe_request_idr err v now).0
unfolding maybe_request_idr expire_idr_request
idr-IsSame err v now = record { cur = ground arith; refs = ground arith }

pub corrupt-IsSame :
    (v : VideoReceiver) (start end : ℕ) → IsSame v (report_corrupt_frame_range v start end).0
unfolding report_corrupt_frame_range
corrupt-IsSame v start end = record { cur = ground arith; refs = ground arith }

-- The frame is done with, and the list of reference frames has its 16 places.
pub record IsClosed (v v' : VideoReceiver) : Type 0 where
  pub cur : v'.frame_index_cur ≡ v.frame_index_cur
  pub prev : v'.frame_index_prev ≡ v.frame_index_cur
  pub refs : length v'.reference_frames ≡ 16

cascade_skip-IsClosed : (env : FlushEnv) (v : VideoReceiver) → IsClosed v (cascade_skip env v).0
unfolding cascade_skip apply_cascade_reset
cascade_skip-IsClosed env v =
    let s = idr-IsSame env.idr_err _ env.idr_now_ms in
    record { cur = s.cur; prev = s.cur; refs = ap length s.refs }

fec_failed-IsSame : (env : FlushEnv) (v : VideoReceiver) → IsSame v (report_fec_failed env v).0
unfolding report_fec_failed
fec_failed-IsSame env v =
    let v1 = (maybe_request_idr env.idr_err v env.idr_now_ms).0 in
    let s = idr-IsSame env.idr_err v env.idr_now_ms in
    let t = corrupt-IsSame v1 (next_frame_expected v1) (as_seq16 v1.frame_index_cur) in
    record { cur = ground (arith, s.cur, t.cur); refs = ground (arith, s.refs, t.refs) }

fail_frame-IsClosed :
    (env : FlushEnv) (result : FlushResult) (v : VideoReceiver)
    → length v.reference_frames ≡ 16
    → IsClosed v (fail_frame env result v).0
unfolding fail_frame
fail_frame-IsClosed env flush_fec_failed v h =
    let s = fec_failed-IsSame env (count_drop v) in
    record { cur = s.cur; prev = s.cur; refs = ap length s.refs ∙ h }
fail_frame-IsClosed env flush_failed v h = record { cur = refl; prev = refl; refs = h }
fail_frame-IsClosed env flush_success v h = record { cur = refl; prev = refl; refs = h }
fail_frame-IsClosed env flush_fec_success v h = record { cur = refl; prev = refl; refs = h }

note_slice-IsSame :
    (env : FlushEnv) (v : VideoReceiver) (type : SliceType) → IsSame v (note_slice env v type).0
unfolding note_slice
note_slice-IsSame env v slice_i = record { cur = refl; refs = refl }
note_slice-IsSame env v slice_unknown =
    let s = idr-IsSame env.idr_err v env.idr_now_ms in
    record { cur = ground (arith, s.cur); refs = ground (arith, s.refs) }
note_slice-IsSame env v slice_p =
    let s = idr-IsSame env.idr_err v env.idr_now_ms in
    record { cur = ground (arith, s.cur); refs = ground (arith, s.refs) }

recover_ref-IsSame :
    (ops : BitstreamOps) (v : VideoReceiver) (frame : List ℕ) (ref : ℕ)
    → IsSame v (recover_ref ops v frame ref).receiver
unfolding recover_ref
recover_ref-IsSame ops v frame ref = record { cur = ground arith; refs = ground arith }

decode_type-IsSame :
    (env : FlushEnv) (n : VideoReceiver × List Effect) (frame : List ℕ) (type : SliceType) (ref : ℕ)
    → IsSame n.0 (decode_type env n frame type ref).receiver
unfolding decode_type
decode_type-IsSame env (v, noted) frame slice_p ref =
    let s = recover_ref-IsSame env.ops v frame ref in record { cur = s.cur; refs = s.refs }
decode_type-IsSame env (v, noted) frame slice_i ref = record { cur = refl; refs = refl }
decode_type-IsSame env (v, noted) frame slice_unknown ref = record { cur = refl; refs = refl }

decode_slice-IsSame :
    (env : FlushEnv) (v : VideoReceiver) (frame : List ℕ) (slice : Option Slice)
    → IsSame v (decode_slice env v frame slice).receiver
unfolding decode_slice
decode_slice-IsSame env v frame none = record { cur = refl; refs = refl }
decode_slice-IsSame env v frame (some slice) =
    IsSame-trans _ _ _ (note_slice-IsSame env v slice.slice_type) (
      decode_type-IsSame env (note_slice env v slice.slice_type) frame slice.slice_type
        slice.reference_frame)

submit-refs :
    (env : FlushEnv) (d : Decoded)
    → ((submit env d).receiver.frame_index_cur ≡ d.receiver.frame_index_cur)
      × (length (submit env d).receiver.reference_frames ≡ length d.receiver.reference_frames)
unfolding submit
submit-refs env d =
    ground (arith, length-add_ref_frame d.receiver.reference_frames d.receiver.frame_index_cur)

roll_window-keeps :
    (v : VideoReceiver) (now : ℕ)
    → IsSame v (roll_window v now) × ((roll_window v now).frame_index_prev ≡ v.frame_index_prev)
unfolding roll_window
roll_window-keeps v now = (record { cur = ground arith; refs = ground arith }, ground arith)

finish_frame-IsClosed :
    (env : FlushEnv) (assemble_ms : ℕ) (v : VideoReceiver) (d : Decoded)
    → IsSame v d.receiver
    → length v.reference_frames ≡ 16
    → IsClosed v (finish_frame env assemble_ms d).0
unfolding finish_frame
finish_frame-IsClosed env assemble_ms v d s h =
    let (cur, refs) = submit-refs env d in
    let rolled =
      roll_window-keeps
        (if (submit env d).succ
          then complete_frame (advance_frame (submit env d).receiver) assemble_ms
          else advance_frame (submit env d).receiver)
        env.now_ms in
    record {
      cur = rolled.0.cur ∙ ground arith ∙ cur ∙ s.cur;
      prev = rolled.1 ∙ ground arith ∙ cur ∙ s.cur;
      refs = ap length rolled.0.refs ∙ ground arith ∙ refs ∙ ap length s.refs ∙ h;
    }

with_processor :
    (v w : VideoReceiver) (fp : FrameProcessor)
    → IsClosed (record v { frame_processor = fp }) w
    → IsClosed v w
with_processor v w fp c = record { cur = c.cur; prev = c.prev; refs = c.refs }

-- A flush, whatever it comes to, is done with the frame that was built: it is the last frame then,
-- and stays the current one; and the list of reference frames keeps its 16 places.
pub flush_frame-IsClosed :
    (env : FlushEnv) (v : VideoReceiver)
    → length v.reference_frames ≡ 16
    → IsClosed v (flush_frame env v).1
unfolding flush_frame decode
flush_frame-IsClosed env v h =
    let (result, frame, fp) = Flush.flush env.fec_decode env.calloc_ok v.frame_processor in
    let v' : VideoReceiver = record v { frame_processor = fp } in
    elim (Bool-cases (leb cascade_skip_threshold v.consecutive_missing_ref)) [
      | inl e ↦ rw e (cascade_skip-IsClosed env v)
      | inr e ↦ elim (Bool-cases (is_failure result)) [
        | inl f ↦ rw (e, f) (with_processor v _ fp (fail_frame-IsClosed env result v' h))
        | inr f ↦
            rw (e, f)
              (with_processor v _ fp (
                finish_frame-IsClosed env _ v' _
                  (decode_slice-IsSame env v' frame (env.ops.slice v'.bitstream frame)) h))
      ]
    ]
