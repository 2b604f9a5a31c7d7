-- ===== src/Frame/Alloc.antt =====
-- What chiaki_frame_processor_alloc_frame leaves: lib/src/frameprocessor.c.
use native.Mathlib.Nat.{mul-pos}
use vitaki_vitarps.Base.{
  ==→eq, ==→ne, ◌&&◌, ℕ, zero, suc, ◌+◌, ◌-◌, ◌*◌, ◌/◌, ◌%◌, ◌^◌, ◌≤◌, ◌<◌, ◌≡◌, refl, sym, ◌∙◌,
  Bool, false, inl, inr, List, [], ◌∷◌, arith, ltb, ◌==◌, if◌then◌else◌, length, get_or, replicate,
  All, success, invalid_data, length-replicate, Bool-cases, ltb→ge, ge→ltb, lt→ltb, ne→==,
}
use vitaki_vitarps.Frame.Processor.{
  AvPacket, FrameProcessor, alloc_frame, alloc_stride, alloc_slots, alloc_buf, size_max, zero_buf,
  ntohs, unit_slots_max, video_buffer_padding_size,
}
use vitaki_vitarps.Frame.Ready.{IsAllocated, IsReady, length-zero_buf}
use vitaki_vitarps.Frame.Counts.{filled-replicate}

get_or-zeros : (n j : ℕ) → get_or {A = ℕ} (replicate n 0) j 0 ≡ 0
get_or-zeros zero j = refl
get_or-zeros (suc n) zero = refl
get_or-zeros (suc n) (suc j) = get_or-zeros n j

-- A frame is begun: ready, with so many source and FEC units expected, and none that has come.
pub record IsBegun (source_units fec_units : ℕ) (fp : FrameProcessor) : Type 0 where
  pub ready : IsReady fp
  pub source_expected : fp.units_source_expected ≡ source_units
  pub fec_expected : fp.units_fec_expected ≡ fec_units
  pub empty : (j : ℕ) → get_or fp.unit_slots j 0 ≡ 0
  pub no_source : fp.units_source_received ≡ 0
  pub no_fec : fp.units_fec_received ≡ 0

cleared-IsBegun :
    (fp : FrameProcessor) (buf : List ℕ) (size : ℕ)
    → fp.unit_slots_size ≡ fp.units_source_expected + fp.units_fec_expected
    → fp.unit_slots_size ≤ unit_slots_max
    → 0 < fp.units_fec_expected
    → fp.buf_size_per_unit ≤ fp.buf_stride_per_unit
    → fp.units_source_received ≡ 0
    → fp.units_fec_received ≡ 0
    → fp.unit_slots_size * fp.buf_stride_per_unit ≤ size
    → length buf ≡ size + video_buffer_padding_size
    → IsBegun fp.units_source_expected fp.units_fec_expected (record fp {
      unit_slots = replicate fp.unit_slots_size 0;
      frame_buf = buf;
      frame_buf_size = size;
    })
cleared-IsBegun fp buf size s few f fits no_source no_fec room len = record {
  ready = record {
    slots_len = length-replicate fp.unit_slots_size 0;
    slots_size = s;
    slots_few = few;
    sizes_fit = λ j. omega (arith, get_or-zeros fp.unit_slots_size j);
    fec_some = f;
    unit_fits = fits;
    buf_fits = room;
    buf_len = len;
    source_counted = no_source ∙ sym (filled-replicate fp.unit_slots_size fp.units_source_expected);
    all_counted =
        omega (arith, no_source, no_fec, filled-replicate fp.unit_slots_size fp.unit_slots_size);
  };
  source_expected = refl;
  fec_expected = refl;
  empty = get_or-zeros fp.unit_slots_size;
  no_source = no_source;
  no_fec = no_fec;
}

allocated-len :
    (fp : FrameProcessor)
    → IsAllocated fp
    → 0 < fp.frame_buf_size
    → length fp.frame_buf ≡ fp.frame_buf_size + video_buffer_padding_size
unfolding IsAllocated
allocated-len fp (inl e) h = absurd (omega arith)
allocated-len fp (inr e) h = e

alloc_buf-IsBegun :
    (buf_ok : Bool) (fp : FrameProcessor)
    → IsAllocated fp
    → fp.unit_slots_size ≡ fp.units_source_expected + fp.units_fec_expected
    → fp.unit_slots_size ≤ unit_slots_max
    → 0 < fp.units_fec_expected
    → 0 < fp.buf_size_per_unit
    → fp.buf_size_per_unit ≤ fp.buf_stride_per_unit
    → fp.units_source_received ≡ 0
    → fp.units_fec_received ≡ 0
    → (alloc_buf buf_ok fp).0 ≡ success
    → IsBegun fp.units_source_expected fp.units_fec_expected (alloc_buf buf_ok fp).1
unfolding alloc_buf IsAllocated
alloc_buf-IsBegun buf_ok fp a s few f p fits no_source no_fec =
    let required = fp.unit_slots_size * fp.buf_stride_per_unit in
    let some_bytes : 0 < required = mul-pos (omega arith) (omega arith) in
    elim (Bool-cases (ltb (size_max / fp.buf_stride_per_unit) fp.unit_slots_size)) [
      | inl over ↦ rw over (λ e. absurd (ground (arith, e)))
      | inr under ↦ rw under (elim (Bool-cases (ltb fp.frame_buf_size required)) [
        | inl small ↦ rw small (elim (Bool-cases buf_ok) [
          | inl got ↦ rw got (λ _.
              cleared-IsBegun fp (replicate (required + video_buffer_padding_size) 0) required s few
                f fits no_source no_fec (omega arith) (length-replicate {A = ℕ} (required + 64) 0))
          | inr failed ↦ rw failed (λ e. absurd (ground (arith, e)))
        ])
        | inr large ↦ rw large (λ _.
            let room = ltb→ge fp.frame_buf_size required large in
            let len = allocated-len fp a (omega (arith, room, some_bytes)) in
            cleared-IsBegun fp (zero_buf (required + video_buffer_padding_size) fp.frame_buf)
              fp.frame_buf_size s few f fits no_source no_fec room
              (length-zero_buf (required + video_buffer_padding_size) fp.frame_buf
                  (omega (arith, len, room))
                ∙ len))
      ])
    ]

-- What holds of the frame processor before the stages of the allocation.
alloc_slots-IsBegun :
    (slots_ok buf_ok : Bool) (fp : FrameProcessor)
    → IsAllocated fp
    → 0 < fp.units_fec_expected
    → 0 < fp.buf_size_per_unit
    → fp.buf_size_per_unit ≤ fp.buf_stride_per_unit
    → (alloc_slots slots_ok buf_ok fp).0 ≡ success
    → IsBegun fp.units_source_expected fp.units_fec_expected (alloc_slots slots_ok buf_ok fp).1
unfolding alloc_slots IsAllocated
alloc_slots-IsBegun slots_ok buf_ok fp a f p fits =
    let required = fp.units_source_expected + fp.units_fec_expected in
    elim (Bool-cases (ltb unit_slots_max required)) [
      | inl many ↦ rw many (λ e. absurd (ground (arith, e)))
      | inr few ↦
          let few_le = ltb→ge unit_slots_max required few in
          rw few (elim (Bool-cases (required == fp.unit_slots_size)) [
            | inl same ↦
                let same_eq = ==→eq required fp.unit_slots_size same in
                rw same (
                  alloc_buf-IsBegun buf_ok
                    (record fp { units_source_received = 0; units_fec_received = 0 }) a
                    (sym same_eq) (omega (arith, few_le, same_eq)) f p fits refl refl)
            | inr other ↦ rw other (elim (Bool-cases slots_ok) [
              | inl got ↦ rw got (
                  alloc_buf-IsBegun buf_ok
                    (record fp {
                      units_source_received = 0;
                      units_fec_received = 0;
                      unit_slots = replicate required 0;
                      unit_slots_size = required;
                    })
                    a refl few_le f p fits refl refl)
              | inr failed ↦ rw failed (λ e. absurd (ground (arith, e)))
            ])
          ])
    ]

alloc_stride-IsBegun :
    (slots_ok buf_ok : Bool) (fp : FrameProcessor)
    → IsAllocated fp
    → 0 < fp.units_fec_expected
    → fp.buf_size_per_unit < 2 ^ 33
    → (alloc_stride slots_ok buf_ok fp).0 ≡ success
    → IsBegun fp.units_source_expected fp.units_fec_expected (alloc_stride slots_ok buf_ok fp).1
unfolding alloc_stride IsAllocated
alloc_stride-IsBegun slots_ok buf_ok fp a f p = elim (Bool-cases (fp.buf_size_per_unit == 0)) [
  | inl empty ↦ rw empty (λ e. absurd (ground (arith, e)))
  | inr some_size ↦
      let nonzero = ==→ne fp.buf_size_per_unit 0 some_size in
      rw some_size (
        alloc_slots-IsBegun slots_ok buf_ok
          (record fp { buf_stride_per_unit = (fp.buf_size_per_unit + 15) % 2 ^ 64 / 16 * 16 }) a f
          (omega arith) (omega arith))
]

ntohs_lt : (bytes : List ℕ) → All (λ b. b < 256) bytes → ntohs bytes < 2 ^ 16
ntohs_lt [] h = omega arith
ntohs_lt (x ∷ []) h = omega (arith, h.0)
ntohs_lt (x ∷ y ∷ zs) h = omega (arith, h.0, h.1.0)

-- The FEC units that a frame expects: one at least.
abbrev pub fec_units : AvPacket → ℕ
fec_units packet = if ltb packet.units_in_frame_fec 1 then 1 else packet.units_in_frame_fec

-- When the allocation of a frame succeeds, for a packet of less than 2 ^ 32 bytes, the packet
-- announces no more FEC units than units, and the frame processor is ready for the FEC units, or for
-- one if there are none, and for as many source units as the others are: each has an empty slot and
-- room in the buffer, and nothing is counted as received. (A frame buffer there was has its padding.)
pub alloc_frame-IsBegun :
    (slots_ok buf_ok : Bool) (fp : FrameProcessor) (packet : AvPacket)
    → IsAllocated fp
    → length packet.payload < 2 ^ 32
    → All (λ b. b < 256) packet.payload
    → (alloc_frame slots_ok buf_ok fp packet).0 ≡ success
    → (packet.units_in_frame_fec ≤ packet.units_in_frame_total)
      × IsBegun
          (packet.units_in_frame_total - packet.units_in_frame_fec)
          (fec_units packet)
          (alloc_frame slots_ok buf_ok fp packet).1
unfolding alloc_frame IsAllocated
alloc_frame-IsBegun slots_ok buf_ok fp packet a short bytes =
    let source = packet.units_in_frame_total - packet.units_in_frame_fec in
    let some_fec : 0 < (if ltb packet.units_in_frame_fec 1 then 1 else packet.units_in_frame_fec) =
      ground arith in
    let fec_le = ltb→ge packet.units_in_frame_total packet.units_in_frame_fec in
    elim (Bool-cases (ltb packet.units_in_frame_total packet.units_in_frame_fec)) [
      | inl bad ↦ rw bad (λ e. absurd (ground (arith, e)))
      | inr good ↦ rw good (elim (Bool-cases (packet.is_video && ltb packet.unit_index source)) [
        | inl video ↦ rw video (elim (Bool-cases (ltb (length packet.payload) 2)) [
          | inl tiny ↦ rw tiny (λ e. absurd (ground (arith, e)))
          | inr read ↦ rw read (λ e. (
            fec_le good,
            alloc_stride-IsBegun slots_ok buf_ok
                (record fp {
                  flushed = false;
                  units_source_expected = source;
                  units_fec_expected =
                      if ltb packet.units_in_frame_fec 1 then 1 else packet.units_in_frame_fec;
                  buf_size_per_unit = (length packet.payload + ntohs packet.payload) % 2 ^ 64;
                })
                a some_fec (omega (arith, ntohs_lt packet.payload bytes)) e,
          ))
        ])
        | inr other ↦ rw other (λ e. (
          fec_le good,
          alloc_stride-IsBegun slots_ok buf_ok
              (record fp {
                flushed = false;
                units_source_expected = source;
                units_fec_expected =
                    if ltb packet.units_in_frame_fec 1 then 1 else packet.units_in_frame_fec;
                buf_size_per_unit = length packet.payload;
              })
              a some_fec (omega arith) e,
        ))
      ])
    ]

-- The stages of the allocation refuse too many units, and keep what the frame expects.
alloc_stride_refuses :
    (slots_ok buf_ok : Bool) (fp : FrameProcessor)
    → 0 < fp.buf_size_per_unit
    → unit_slots_max < fp.units_source_expected + fp.units_fec_expected
    → fp.unit_slots_size ≤ unit_slots_max
    → let (err, r) = alloc_stride slots_ok buf_ok fp in
      (err ≡ invalid_data)
      × (r.flushed ≡ fp.flushed)
      × (r.unit_slots_size < r.units_source_expected + r.units_fec_expected)
unfolding alloc_stride alloc_slots
alloc_stride_refuses slots_ok buf_ok fp p many old =
    rw
      (
        ne→== fp.buf_size_per_unit 0 (λ e. absurd (omega arith)),
        lt→ltb unit_slots_max (fp.units_source_expected + fp.units_fec_expected) many,
      )
      (refl, refl, omega arith)

-- A packet with 2 bytes of payload at least and less than 2 ^ 32, which announces more than 256 units
-- and no more FEC units than units, is refused, but leaves the frame open, with more source and FEC
-- units expected than there are slots, when there were 256 slots at most.
pub alloc_frame_refuses :
    (slots_ok buf_ok : Bool) (fp : FrameProcessor) (packet : AvPacket)
    → fp.unit_slots_size ≤ unit_slots_max
    → packet.units_in_frame_fec ≤ packet.units_in_frame_total
    → unit_slots_max < packet.units_in_frame_total
    → 2 ≤ length packet.payload
    → length packet.payload < 2 ^ 32
    → All (λ b. b < 256) packet.payload
    → let (err, r) = alloc_frame slots_ok buf_ok fp packet in
      (err ≡ invalid_data)
      × (r.flushed ≡ false)
      × (r.unit_slots_size < r.units_source_expected + r.units_fec_expected)
unfolding alloc_frame
alloc_frame_refuses slots_ok buf_ok fp packet old whole many some_bytes short bytes =
    let source = packet.units_in_frame_total - packet.units_in_frame_fec in
    let fec : ℕ = if ltb packet.units_in_frame_fec 1 then 1 else packet.units_in_frame_fec in
    let all_units : unit_slots_max < source + fec = ground arith in
    let started : ℕ → FrameProcessor = λ size. record fp {
      flushed = false;
      units_source_expected = source;
      units_fec_expected = fec;
      buf_size_per_unit = size;
    } in
    rw (ge→ltb packet.units_in_frame_total packet.units_in_frame_fec whole)
      (elim (Bool-cases (packet.is_video && ltb packet.unit_index source)) [
        | inl video ↦
            rw (video, ge→ltb (length packet.payload) 2 some_bytes)
              (alloc_stride_refuses slots_ok buf_ok
                (started ((length packet.payload + ntohs packet.payload) % 2 ^ 64))
                (omega (arith, ntohs_lt packet.payload bytes)) all_units old)
        | inr other ↦ rw other (
            alloc_stride_refuses slots_ok buf_ok (started (length packet.payload)) (omega arith)
              all_units old)
      ])
