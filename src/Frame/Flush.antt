-- ===== src/Frame/Flush.antt =====
-- lib/src/frameprocessor.c: the end of a frame, with the repair of missing units. The decoding of
-- lib/src/fec.c is jerasure's, and is a parameter.
use vitaki_vitarps.Base.{
  is_success, ℕ, zero, suc, ◌+◌, ◌-◌, ◌*◌, ◌%◌, ◌^◌, Bool, not, List, [], ◌∷◌, length, ltb, leb,
  ◌==◌, ◌||◌, if◌then◌else◌, get_or, set, take, drop, ErrorCode, success, memory, unknown,
  fec_failed,
}
use vitaki_vitarps.Frame.Processor.{FrameProcessor, memcpy, slice, ntohs, stream_stats_frame}

pub data FlushResult : Type 0 where
  flush_success flush_fec_success flush_fec_failed flush_failed : FlushResult

-- `chiaki_fec_decode`: the buffer, the unit size, the stride, the numbers of source and of FEC units,
-- the erasures; the result is the error code and the buffer after the call.
abbrev pub FecDecode : Type 0
FecDecode = List ℕ → ℕ → ℕ → ℕ → ℕ → List ℕ → ErrorCode × List ℕ

-- The indices of the empty slots, the first slot being `i`.
abbrev pub erasures_from : ℕ → List ℕ → List ℕ
erasures_from i [] = []
erasures_from i (size ∷ sizes) =
    if size == 0 then i ∷ erasures_from (i + 1) sizes else erasures_from (i + 1) sizes

-- "restore unit sizes": of `n` slots from `i` on.
unfoldable pub restore_sizes : ℕ → ℕ → FrameProcessor → List ℕ → List ℕ
restore_sizes zero i fp slots = slots
restore_sizes (suc n) i fp slots =
    let padding = ntohs (drop (fp.buf_stride_per_unit * i) fp.frame_buf) in
    restore_sizes n (i + 1) fp (
      if leb fp.buf_size_per_unit padding
      then slots
      else set slots i (fp.buf_size_per_unit - padding))

-- Expected less received units, as `unsigned int`.
unfoldable pub erasures_count : FrameProcessor → ℕ
erasures_count fp =
    let expected = (fp.units_source_expected + fp.units_fec_expected) % 2 ^ 32 in
    let received = (fp.units_source_received + fp.units_fec_received) % 2 ^ 32 in
    (expected + 2 ^ 32 - received) % 2 ^ 32

unfoldable pub erasures : FrameProcessor → List ℕ
erasures fp =
    erasures_from 0 (take (fp.units_source_expected + fp.units_fec_expected) fp.unit_slots)

-- `calloc_ok` is whether the array of erasures is allocated.
unfoldable pub fec : FecDecode → Bool → FrameProcessor → ErrorCode × FrameProcessor
unfolding restore_sizes erasures erasures_count
fec fec_decode calloc_ok fp =
    let (err, buf) =
      fec_decode fp.frame_buf fp.buf_size_per_unit fp.buf_stride_per_unit fp.units_source_expected
        fp.units_fec_expected (erasures fp) in
    let decoded = record fp { frame_buf = buf } in
    if not calloc_ok
    then (memory, fp)
    else if ltb (erasures_count fp) (length (erasures fp))
    then (unknown, fp)
    else if is_success err
    then (
      success,
      record decoded {
        unit_slots = restore_sizes fp.units_source_expected 0 decoded fp.unit_slots;
      },
    )
    else (fec_failed, decoded)

-- The loop that compacts the payloads: `n` units from `i` on, `cur` bytes written. A payload is a
-- unit without its first two bytes.
unfoldable pub compact : ℕ → ℕ → ℕ → List ℕ → List ℕ → ℕ → List ℕ × ℕ
compact zero i stride slots buf cur = (buf, cur)
compact (suc n) i stride slots buf cur =
    let size = get_or slots i 0 in
    let skip = ltb size 2 in
    compact n (i + 1) stride slots
      (if skip then buf else memcpy buf cur (slice buf (i * stride + 2) (size - 2)))
      (if skip then cur else cur + (size - 2))

-- From the loop on. The result has `*frame`, of `*frame_size` bytes.
unfoldable pub finish_flush : FlushResult → FrameProcessor → FlushResult × List ℕ × FrameProcessor
unfolding compact
finish_flush result fp =
    let (buf, cur) =
      compact fp.units_source_expected 0 fp.buf_stride_per_unit fp.unit_slots fp.frame_buf 0 in
    (
      result,
      take cur buf,
      record fp { frame_buf = buf; stream_stats = stream_stats_frame fp.stream_stats cur },
    )

unfoldable pub flush : FecDecode → Bool → FrameProcessor → FlushResult × List ℕ × FrameProcessor
unfolding fec finish_flush
flush fec_decode calloc_ok fp =
    let (err, repaired) = fec fec_decode calloc_ok fp in
    if (fp.units_source_expected == 0) || fp.flushed
    then (flush_failed, [], fp)
    else if ltb fp.units_source_received fp.units_source_expected
    then finish_flush (if is_success err then flush_fec_success else flush_fec_failed) repaired
    else finish_flush flush_success fp
