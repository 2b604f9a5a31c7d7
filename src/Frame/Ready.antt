-- ===== src/Frame/Ready.antt =====
-- The frame processor between the allocation of a frame and its end.
use vitaki_vitarps.Base.{
  ℕ, ◌+◌, ◌*◌, ◌≤◌, ◌<◌, ◌≡◌, ◌⊎◌, List, ◌++◌, arith, length, get_or, take, drop, replicate,
  length-append, length-replicate, length-take, length-drop,
}
use vitaki_vitarps.Frame.Processor.{
  FrameProcessor, zero_buf, memcpy, unit_slots_max, video_buffer_padding_size,
}
use vitaki_vitarps.Frame.Counts.{filled}

-- The frame buffer is NULL, or has the padding after its size.
unfoldable pub IsAllocated : FrameProcessor → Type 0
IsAllocated fp =
    (fp.frame_buf_size ≡ 0) ⊎ (length fp.frame_buf ≡ fp.frame_buf_size + video_buffer_padding_size)

-- There is a slot for every unit expected and room for it in the buffer, and the counts of received
-- units are those of the slots taken.
pub record IsReady (fp : FrameProcessor) : Type 0 where
  pub slots_len : length fp.unit_slots ≡ fp.unit_slots_size
  pub slots_size : fp.unit_slots_size ≡ fp.units_source_expected + fp.units_fec_expected
  pub slots_few : fp.unit_slots_size ≤ unit_slots_max
  pub sizes_fit : (j : ℕ) → get_or fp.unit_slots j 0 ≤ fp.buf_stride_per_unit
  pub fec_some : 0 < fp.units_fec_expected
  pub unit_fits : fp.buf_size_per_unit ≤ fp.buf_stride_per_unit
  pub buf_fits : fp.unit_slots_size * fp.buf_stride_per_unit ≤ fp.frame_buf_size
  pub buf_len : length fp.frame_buf ≡ fp.frame_buf_size + video_buffer_padding_size
  pub source_counted : fp.units_source_received ≡ filled fp.unit_slots fp.units_source_expected
  pub all_counted :
      fp.units_source_received + fp.units_fec_received ≡ filled fp.unit_slots fp.unit_slots_size

pub length-zero_buf : (n : ℕ) (buf : List ℕ) → n ≤ length buf → length (zero_buf n buf) ≡ length buf
length-zero_buf n buf h = omega (
  arith,
  length-append (replicate n 0) (drop n buf),
  length-replicate {A = ℕ} n 0,
  length-drop n buf,
)

pub length-memcpy :
    (buf bytes : List ℕ) (at : ℕ)
    → at + length bytes ≤ length buf
    → length (memcpy buf at bytes) ≡ length buf
length-memcpy buf bytes at h = omega (
  arith,
  length-append (take at buf) (bytes ++ drop (at + length bytes) buf),
  length-append bytes (drop (at + length bytes) buf),
  length-take at buf,
  length-drop (at + length bytes) buf,
)
