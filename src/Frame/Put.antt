-- ===== src/Frame/Put.antt =====
-- lib/src/frameprocessor.c: what chiaki_frame_processor_put_unit keeps and stores, and the counts
-- that follow from it.
use native.Mathlib.Nat.{mul-le-mul_right}
use vitaki_vitarps.Base.{
  ℕ, ◌+◌, ◌-◌, ◌*◌, ◌≤◌, ◌<◌, ◌≡◌, ◌≢◌, refl, subst, ap, ap₂, ◌∙◌, false, inl, inr, List, ◌++◌,
  arith, ltb, leb, ◌==◌, not, ◌&&◌, length, get_or, set, take, drop, success, length-set,
  Bool-cases, ltb→ge, leb→gt, ==→eq, ==→ne, gt→leb, ge→ltb, ne→==, eq→==, get_or-set_self,
  get_or-set_ne, take-append, drop-append, length-take,
}
use vitaki_vitarps.Frame.Processor.{
  AvPacket, FrameProcessor, put_unit, store_unit, memcpy, slice, same_bytes, report_packet_stats,
}
use vitaki_vitarps.Frame.Counts.{filled, filled_le, filled-set}
use vitaki_vitarps.Frame.Ready.{IsReady, length-memcpy}
use vitaki_vitarps.Stats.PacketStats.{PacketStats, push_generation}

-- A unit that fits is written inside the buffer.
pub unit_in_buf :
    (fp : FrameProcessor) (i n : ℕ)
    → IsReady fp
    → i < fp.unit_slots_size
    → n ≤ fp.buf_stride_per_unit
    → i * fp.buf_stride_per_unit + n ≤ length fp.frame_buf
unit_in_buf fp i n v h k =
    let whole : (i + 1) * fp.buf_stride_per_unit ≤ fp.unit_slots_size * fp.buf_stride_per_unit =
      mul-le-mul_right fp.buf_stride_per_unit (omega arith) in
    omega (arith, whole, v.buf_fits, v.buf_len)

store_unit-IsReady :
    (fp : FrameProcessor) (packet : AvPacket)
    → IsReady fp
    → packet.unit_index < fp.unit_slots_size
    → 0 < length packet.payload
    → length packet.payload ≤ fp.buf_size_per_unit
    → get_or fp.unit_slots packet.unit_index 0 ≡ 0
    → IsReady (store_unit fp packet)
unfolding store_unit
store_unit-IsReady fp packet v h p fits empty =
    let i = packet.unit_index in
    let size = length packet.payload in
    let count = λ (n : ℕ). filled-set fp.unit_slots n i size (omega (arith, v.slots_len)) empty p in
    let in_source = count fp.units_source_expected in
    let in_all = count fp.unit_slots_size in
    let few = filled_le fp.unit_slots fp.unit_slots_size in
    let source_few = filled_le fp.unit_slots fp.units_source_expected in
    record {
      slots_len = length-set fp.unit_slots i size ∙ v.slots_len;
      slots_size = v.slots_size;
      slots_few = v.slots_few;
      sizes_fit = λ j. elim (Bool-cases (i == j)) [
        | inl e ↦
            let here = ==→eq i j e in
            let stored = get_or-set_self fp.unit_slots i size 0 (omega (arith, v.slots_len)) in
            subst (λ k. get_or (set fp.unit_slots i size) k 0 ≤ fp.buf_stride_per_unit) here
              (omega (arith, stored, v.unit_fits))
        | inr e ↦ omega (arith, get_or-set_ne fp.unit_slots i j size 0 (==→ne i j e), v.sizes_fit j)
      ];
      fec_some = v.fec_some;
      unit_fits = v.unit_fits;
      buf_fits = v.buf_fits;
      buf_len = elim (Bool-cases fp.flushed) [
        | inl e ↦ rw e v.buf_len
        | inr e ↦ rw e (
            length-memcpy fp.frame_buf packet.payload (i * fp.buf_stride_per_unit)
              (unit_in_buf fp i size v h (omega (arith, v.unit_fits)))
            ∙ v.buf_len)
      ];
      source_counted =
          ground (arith, in_source, v.source_counted, source_few, v.slots_few, v.slots_size);
      all_counted = ground (arith, in_all, v.all_counted, v.slots_few, v.slots_size, few);
    }

-- Putting a unit keeps the frame processor ready, whatever the packet is and whatever the result.
pub put_unit-IsReady :
    (fp : FrameProcessor) (packet : AvPacket) → IsReady fp → IsReady (put_unit fp packet).1
unfolding put_unit
put_unit-IsReady fp packet v =
    let i = packet.unit_index in
    let size = length packet.payload in
    let old_size = get_or fp.unit_slots i 0 in
    let same = same_bytes (slice fp.frame_buf (i * fp.buf_stride_per_unit) size) packet.payload in
    elim (Bool-cases (leb fp.unit_slots_size i)) [
      | inl e ↦ rw e v
      | inr inside ↦ rw inside (elim (Bool-cases (size == 0)) [
        | inl e ↦ rw e v
        | inr some_bytes ↦ rw some_bytes (elim (Bool-cases (ltb fp.buf_size_per_unit size)) [
          | inl e ↦ rw e v
          | inr fits ↦ rw fits (elim (Bool-cases (old_size == 0)) [
            | inl empty ↦
                let nonzero = ==→ne size 0 some_bytes in
                rw empty (
                  store_unit-IsReady fp packet v (leb→gt fp.unit_slots_size i inside) (omega arith)
                    (ltb→ge fp.buf_size_per_unit size fits) (==→eq old_size 0 empty))
            | inr taken ↦ rw taken (elim (Bool-cases (not (old_size == size))) [
              | inl e ↦ rw e v
              | inr e ↦ rw e (elim (Bool-cases (not fp.flushed && not same)) [
                | inl f ↦ rw f v
                | inr f ↦ rw f v
              ])
            ])
          ])
        ])
      ])
    ]

pub slice-memcpy_self :
    (buf bytes : List ℕ) (at : ℕ)
    → at ≤ length buf
    → slice (memcpy buf at bytes) at (length bytes) ≡ bytes
slice-memcpy_self buf bytes at h =
    ap (take (length bytes)) (
      drop-append (take at buf) (bytes ++ drop (at + length bytes) buf) at 0
        (omega (arith, length-take at buf h)))
    ∙ take-append bytes (drop (at + length bytes) buf) (length bytes) refl

-- A new unit of a ready, open frame, not empty and no larger than the size of a unit, is stored: its
-- slot gets its size, its bytes stand in the buffer at its place, the slots of the other units are as
-- before, and the result is a success.
pub put_unit_stores :
    (fp : FrameProcessor) (packet : AvPacket)
    → IsReady fp
    → fp.flushed ≡ false
    → packet.unit_index < fp.unit_slots_size
    → 0 < length packet.payload
    → length packet.payload ≤ fp.buf_size_per_unit
    → get_or fp.unit_slots packet.unit_index 0 ≡ 0
    → let (err, r) = put_unit fp packet in
      let i = packet.unit_index in
      (err ≡ success)
      × (get_or r.unit_slots i 0 ≡ length packet.payload)
      × (slice r.frame_buf (i * fp.buf_stride_per_unit) (length packet.payload) ≡ packet.payload)
      × ((j : ℕ) → i ≢ j → get_or r.unit_slots j 0 ≡ get_or fp.unit_slots j 0)
unfolding put_unit store_unit
put_unit_stores fp packet v unflushed h p fits empty =
    let i = packet.unit_index in
    let size = length packet.payload in
    let in_slots : i < length fp.unit_slots = omega (arith, v.slots_len, h) in
    let room = unit_in_buf fp i size v h (omega (arith, v.unit_fits)) in
    rw
      (
        gt→leb fp.unit_slots_size i h,
        ne→== size 0 (λ e. absurd (omega arith)),
        ge→ltb fp.buf_size_per_unit size fits,
        eq→== (get_or fp.unit_slots i 0) 0 empty,
        unflushed,
      )
      (
        refl,
        get_or-set_self fp.unit_slots i size 0 in_slots,
        slice-memcpy_self fp.frame_buf packet.payload (i * fp.buf_stride_per_unit)
            (omega (arith, room)),
        λ j ne. get_or-set_ne fp.unit_slots i j size 0 ne,
      )

-- Of a ready frame processor the units counted as received are the slots taken, and those counted as
-- lost are the empty ones: the unsigned subtraction does not wrap.
pub report_packet_stats_lem :
    (fp : FrameProcessor) (stats : PacketStats)
    → IsReady fp
    → report_packet_stats fp stats
      ≡ push_generation stats
          (filled fp.unit_slots fp.unit_slots_size)
          (fp.unit_slots_size - filled fp.unit_slots fp.unit_slots_size)
unfolding report_packet_stats
report_packet_stats_lem fp stats v =
    let few = filled_le fp.unit_slots fp.unit_slots_size in
    ap₂ (push_generation stats) (omega (arith, v.all_counted, v.slots_few, few))
      (omega (arith, v.all_counted, v.slots_few, few, v.slots_size))
