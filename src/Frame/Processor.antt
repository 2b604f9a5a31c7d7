-- ===== src/Frame/Processor.antt =====
-- lib/src/frameprocessor.c: a frame's buffers and the units put into them. A byte array is a list,
-- NULL is the empty one; `slots_ok` and `buf_ok` are whether the two allocations succeed.
use vitaki_vitarps.Base.{
  ℕ, ◌+◌, ◌-◌, ◌*◌, ◌/◌, ◌%◌, ◌^◌, Bool, true, false, not, ◌&&◌, List, [], ◌∷◌, ◌++◌, ltb, leb,
  ◌==◌, if◌then◌else◌, length, get_or, set, take, drop, replicate, ErrorCode, success, memory,
  overflow, invalid_data, buf_too_small,
}
use vitaki_vitarps.Stats.PacketStats.{PacketStats, push_generation}

-- The fields of `ChiakiTakionAVPacket` that the frame processor reads; `data_size` is the length
-- of `payload`, the bytes at `data`.
pub record AvPacket : Type 0 where
  pub unit_index : ℕ
  pub units_in_frame_total : ℕ
  pub units_in_frame_fec : ℕ
  pub is_video : Bool
  pub payload : List ℕ

pub record StreamStats : Type 0 where
  pub frames : ℕ
  pub bytes : ℕ

unfoldable pub stream_stats_reset : StreamStats
stream_stats_reset = record { frames = 0; bytes = 0 }

unfoldable pub stream_stats_frame : StreamStats → ℕ → StreamStats
stream_stats_frame stats size = record {
  frames = (stats.frames + 1) % 2 ^ 64;
  bytes = (stats.bytes + size) % 2 ^ 64;
}

unfoldable pub stream_stats_bitrate : StreamStats → ℕ → ℕ
stream_stats_bitrate stats framerate =
    if stats.frames == 0 then 0 else (stats.bytes * 8 * framerate) % 2 ^ 64 / stats.frames

abbrev pub unit_slots_max : ℕ
unit_slots_max = 256

abbrev pub video_buffer_padding_size : ℕ
video_buffer_padding_size = 64

abbrev pub size_max : ℕ
size_max = 2 ^ 64 - 1

-- `unit_slots` holds each unit's `data_size`, 0 for a unit that has not come.
pub record FrameProcessor : Type 0 where
  pub frame_buf : List ℕ
  pub frame_buf_size : ℕ
  pub buf_size_per_unit : ℕ
  pub buf_stride_per_unit : ℕ
  pub units_source_expected : ℕ
  pub units_fec_expected : ℕ
  pub units_source_received : ℕ
  pub units_fec_received : ℕ
  pub unit_slots : List ℕ
  pub unit_slots_size : ℕ
  pub flushed : Bool
  pub stream_stats : StreamStats

unfoldable pub init : FrameProcessor
unfolding stream_stats_reset
init = record {
  frame_buf = [];
  frame_buf_size = 0;
  buf_size_per_unit = 0;
  buf_stride_per_unit = 0;
  units_source_expected = 0;
  units_fec_expected = 0;
  units_source_received = 0;
  units_fec_received = 0;
  unit_slots = [];
  unit_slots_size = 0;
  flushed = true;
  stream_stats = stream_stats_reset;
}

-- `ntohs` of the two bytes at the start.
abbrev pub ntohs : List ℕ → ℕ
ntohs buf = get_or buf 0 0 * 256 + get_or buf 1 0

-- memset(frame_buf, 0, n)
abbrev pub zero_buf : ℕ → List ℕ → List ℕ
zero_buf n buf = replicate n 0 ++ drop n buf

-- memcpy(buf + at, bytes, length bytes)
abbrev pub memcpy : List ℕ → ℕ → List ℕ → List ℕ
memcpy buf at bytes = take at buf ++ (bytes ++ drop (at + length bytes) buf)

-- The `n` bytes of `buf` from `at` on.
abbrev pub slice : List ℕ → ℕ → ℕ → List ℕ
slice buf at n = take n (drop at buf)

-- memcmp(xs, ys, n) == 0 for arrays of one length.
abbrev pub same_bytes : List ℕ → List ℕ → Bool
same_bytes [] [] = true
same_bytes [] (_ ∷ _) = false
same_bytes (_ ∷ _) [] = false
same_bytes (x ∷ xs) (y ∷ ys) = (x == y) && same_bytes xs ys

-- chiaki_frame_processor_alloc_frame, from the memset of the slots on.
unfoldable pub alloc_buf : Bool → FrameProcessor → ErrorCode × FrameProcessor
alloc_buf buf_ok fp =
    let cleared = record fp { unit_slots = replicate fp.unit_slots_size 0 } in
    let required = fp.unit_slots_size * fp.buf_stride_per_unit in
    if ltb (size_max / fp.buf_stride_per_unit) fp.unit_slots_size
    then (overflow, cleared)
    else if ltb fp.frame_buf_size required
    then if buf_ok
      then (
        success,
        record cleared {
          frame_buf = replicate (required + video_buffer_padding_size) 0;
          frame_buf_size = required;
        },
      )
      else (memory, record cleared { frame_buf = []; frame_buf_size = 0 })
    else (
      success,
      record cleared { frame_buf = zero_buf (required + video_buffer_padding_size) fp.frame_buf },
    )

-- From the reset of the counts of received units on.
unfoldable pub alloc_slots : Bool → Bool → FrameProcessor → ErrorCode × FrameProcessor
unfolding alloc_buf
alloc_slots slots_ok buf_ok fp =
    let counted = record fp { units_source_received = 0; units_fec_received = 0 } in
    let required = fp.units_source_expected + fp.units_fec_expected in
    if ltb unit_slots_max required
    then (invalid_data, counted)
    else if required == fp.unit_slots_size
    then alloc_buf buf_ok counted
    else if slots_ok
    then alloc_buf buf_ok
        (record counted { unit_slots = replicate required 0; unit_slots_size = required })
    else (memory, record counted { unit_slots = []; unit_slots_size = 0 })

-- From the computation of the stride on.
unfoldable pub alloc_stride : Bool → Bool → FrameProcessor → ErrorCode × FrameProcessor
unfolding alloc_slots
alloc_stride slots_ok buf_ok fp =
    let strided = record fp {
      buf_stride_per_unit = (fp.buf_size_per_unit + 15) % 2 ^ 64 / 16 * 16;
    } in
    if fp.buf_size_per_unit == 0
    then (buf_too_small, strided)
    else alloc_slots slots_ok buf_ok strided

unfoldable pub alloc_frame : Bool → Bool → FrameProcessor → AvPacket → ErrorCode × FrameProcessor
unfolding alloc_stride
alloc_frame slots_ok buf_ok fp packet =
    let source = packet.units_in_frame_total - packet.units_in_frame_fec in
    let started = record fp {
      flushed = false;
      units_source_expected = source;
      units_fec_expected = if ltb packet.units_in_frame_fec 1 then 1 else packet.units_in_frame_fec;
      buf_size_per_unit = length packet.payload;
    } in
    if ltb packet.units_in_frame_total packet.units_in_frame_fec
    then (invalid_data, fp)
    else if packet.is_video && ltb packet.unit_index source
    then if ltb (length packet.payload) 2
      then (buf_too_small, started)
      else alloc_stride slots_ok buf_ok (record started {
        buf_size_per_unit = (length packet.payload + ntohs packet.payload) % 2 ^ 64;
      })
    else alloc_stride slots_ok buf_ok started

-- The end of chiaki_frame_processor_put_unit, for a unit that has not come before.
unfoldable pub store_unit : FrameProcessor → AvPacket → FrameProcessor
store_unit fp packet =
    let source = ltb packet.unit_index fp.units_source_expected in
    record fp {
      unit_slots = set fp.unit_slots packet.unit_index (length packet.payload);
      frame_buf =
          if fp.flushed
          then fp.frame_buf
          else memcpy fp.frame_buf (packet.unit_index * fp.buf_stride_per_unit) packet.payload;
      units_source_received =
          if source then (fp.units_source_received + 1) % 2 ^ 32 else fp.units_source_received;
      units_fec_received =
          if source then fp.units_fec_received else (fp.units_fec_received + 1) % 2 ^ 32;
    }

unfoldable pub put_unit : FrameProcessor → AvPacket → ErrorCode × FrameProcessor
unfolding store_unit
put_unit fp packet =
    let size = length packet.payload in
    let old_size = get_or fp.unit_slots packet.unit_index 0 in
    let existing = slice fp.frame_buf (packet.unit_index * fp.buf_stride_per_unit) size in
    if leb fp.unit_slots_size packet.unit_index
    then (invalid_data, fp)
    else if size == 0
    then (invalid_data, fp)
    else if ltb fp.buf_size_per_unit size
    then (invalid_data, fp)
    else if old_size == 0
    then (success, store_unit fp packet)
    else if not (old_size == size)
    then (invalid_data, fp)
    else if not fp.flushed && not (same_bytes existing packet.payload)
    then (invalid_data, fp)
    else (success, fp)

unfoldable pub report_packet_stats : FrameProcessor → PacketStats → PacketStats
report_packet_stats fp packet_stats =
    let received = (fp.units_source_received + fp.units_fec_received) % 2 ^ 32 in
    let expected = (fp.units_source_expected + fp.units_fec_expected) % 2 ^ 32 in
    push_generation packet_stats received ((expected + 2 ^ 64 - received) % 2 ^ 64)

unfoldable pub flush_possible : FrameProcessor → Bool
flush_possible fp =
    leb fp.units_source_expected ((fp.units_source_received + fp.units_fec_received) % 2 ^ 32)
