-- ===== src/Frame/Tests.antt =====
-- A frame of two source units and one FEC unit.
use vitaki_vitarps.Base.{
  ◌-◌, ℕ, ◌+◌, ◌≤◌, ◌<◌, ◌≡◌, refl, true, false, inl, List, [], ◌∷◌, arith, length, get_or, success,
  invalid_data,
}
use vitaki_vitarps.Frame.Processor.{
  AvPacket, FrameProcessor, alloc_frame, put_unit, slice, report_packet_stats,
}
use vitaki_vitarps.Frame.Processor
use vitaki_vitarps.Frame.Flush.{FecDecode, flush, flush_success, erasures}
use vitaki_vitarps.Frame.Ready.{IsAllocated, IsReady}
use vitaki_vitarps.Frame.Alloc.{IsBegun, fec_units, alloc_frame-IsBegun, alloc_frame_refuses}
use vitaki_vitarps.Frame.Put.{put_unit-IsReady}
use vitaki_vitarps.Frame.Compact.{payloads, flush_lem}

abbrev unit : ℕ → ℕ → List ℕ → AvPacket
unit unit_index total payload = record {
  unit_index = unit_index;
  units_in_frame_total = total;
  units_in_frame_fec = 1;
  is_video = true;
  payload = payload;
}

abbrev unit_0 : AvPacket
unit_0 = unit 0 3 (0 ∷ 1 ∷ 10 ∷ 11 ∷ [])

abbrev unit_1 : AvPacket
unit_1 = unit 1 3 (0 ∷ 0 ∷ 20 ∷ 21 ∷ 22 ∷ [])

abbrev fresh : FrameProcessor
fresh = Processor.init

abbrev begun : FrameProcessor
begun = (alloc_frame true true fresh unit_0).1

abbrev half_done : FrameProcessor
half_done = (put_unit begun unit_0).1

abbrev complete : FrameProcessor
complete = (put_unit half_done unit_1).1

-- A decoder that repairs nothing.
abbrev no_fec : FecDecode
no_fec buf unit_size stride k m erasures = (success, buf)

allocated : IsAllocated fresh
unfolding IsAllocated Processor.init
allocated = inl refl

alloc_succeeds : (alloc_frame true true fresh unit_0).0 ≡ success
unfolding alloc_frame Processor.init
alloc_succeeds = refl

begun-IsReady : IsReady begun
begun-IsReady =
    (alloc_frame-IsBegun true true fresh unit_0 allocated (omega arith)
      (omega arith, (omega arith, (omega arith, (omega arith, tt)))) alloc_succeeds).1.ready

half_done-IsReady : IsReady half_done
half_done-IsReady = put_unit-IsReady begun unit_0 begun-IsReady

complete-IsReady : IsReady complete
complete-IsReady = put_unit-IsReady half_done unit_1 half_done-IsReady

fresh_slots : fresh.unit_slots_size ≤ 256
unfolding Processor.init
fresh_slots = omega arith

alloc_frame-IsBegun_example :
    (unit_0.units_in_frame_fec ≤ unit_0.units_in_frame_total)
    × IsBegun (unit_0.units_in_frame_total - unit_0.units_in_frame_fec) (fec_units unit_0) begun
alloc_frame-IsBegun_example =
    alloc_frame-IsBegun true true fresh unit_0 allocated (omega arith)
      (omega arith, (omega arith, (omega arith, (omega arith, tt)))) alloc_succeeds

-- What the steps leave, computed.
begun_state :
    (begun.flushed ≡ false)
    × (0 < begun.unit_slots_size)
    × (length unit_0.payload ≤ begun.buf_size_per_unit)
    × (get_or begun.unit_slots 0 0 ≡ 0)
unfolding alloc_frame Processor.init
begun_state = (refl, omega arith, omega arith, refl)

complete_state :
    (complete.flushed ≡ false)
    × (0 < complete.units_source_expected)
    × (complete.units_source_received ≡ complete.units_source_expected)
unfolding alloc_frame put_unit Processor.init
complete_state = (refl, omega arith, refl)

put_unit-IsReady_example : IsReady half_done
put_unit-IsReady_example = put_unit-IsReady begun unit_0 begun-IsReady

flush_example :
    let (result, frame, _) = flush no_fec true complete in
    (result ≡ flush_success)
    × (frame
        ≡ payloads complete.units_source_expected 0 complete.buf_stride_per_unit complete.unit_slots
            complete.frame_buf)
flush_example =
    flush_lem no_fec true complete complete-IsReady complete_state.0 complete_state.1
      complete_state.2

-- The frame of the two units is their payloads without the first two bytes of each.
frame_of_two : (flush no_fec true complete).1 ≡ 10 ∷ 11 ∷ 20 ∷ 21 ∷ 22 ∷ []
unfolding flush alloc_frame put_unit Processor.init
frame_of_two = refl

alloc_frame_refuses_example :
    let (err, r) = alloc_frame true true fresh (unit 0 300 (0 ∷ 1 ∷ 10 ∷ [])) in
    (err ≡ invalid_data)
    × (r.flushed ≡ false)
    × (r.unit_slots_size < r.units_source_expected + r.units_fec_expected)
alloc_frame_refuses_example =
    alloc_frame_refuses true true fresh (unit 0 300 (0 ∷ 1 ∷ 10 ∷ [])) fresh_slots (omega arith)
      (omega arith) (omega arith) (omega arith) (omega arith, (omega arith, (omega arith, tt)))
