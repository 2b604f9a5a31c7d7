-- ===== src/Frame/Compact.antt =====
-- lib/src/frameprocessor.c: the frame that chiaki_frame_processor_flush hands over, and the units
-- that it takes for lost.
use native.Mathlib.Nat.{mul-le-mul_right}
use mathlib.Core.List.{append_assoc, append-nil}
use vitaki_vitarps.Base.{
  ℕ, zero, suc, ◌+◌, ◌-◌, ◌*◌, ◌≤◌, ◌<◌, ◌≡◌, refl, sym, ap, ap₂, ◌∙◌, Bool, true, false, inl, inr,
  List, [], ◌∷◌, ◌++◌, arith, ltb, if◌then◌else◌, length, get_or, take, drop, Bool-cases, ltb→ge,
  take-append, drop-append, length-take, length-append, length-drop, ge→ltb, ne→==,
}
use vitaki_vitarps.Frame.Processor.{FrameProcessor, memcpy, slice}
use vitaki_vitarps.Frame.Flush.{
  flush_success, FecDecode, fec, compact, finish_flush, flush, erasures, erasures_count,
  erasures_from,
}
use vitaki_vitarps.Frame.Counts.{filled, filled_le, length-erasures_from}
use vitaki_vitarps.Frame.Ready.{IsReady, length-memcpy}

-- The payloads of the units with two bytes at least, in the order of the units: `n` units from `i`
-- on, each at its place in `buf`.
abbrev pub payloads : ℕ → ℕ → ℕ → List ℕ → List ℕ → List ℕ
payloads zero i stride slots buf = []
payloads (suc n) i stride slots buf =
    let size = get_or slots i 0 in
    let rest = payloads n (i + 1) stride slots buf in
    if ltb size 2 then rest else slice buf (i * stride + 2) (size - 2) ++ rest

drop-drop : (a b : ℕ) (xs : List ℕ) → drop b (drop a xs) ≡ drop (a + b) xs
drop-drop zero b xs = ap (λ k. drop k xs) (omega arith)
drop-drop (suc a) zero [] = let k : suc a ≡ suc a + 0 = omega arith in ap (λ k. drop k []) k
drop-drop (suc a) (suc b) [] =
    let k : suc (suc (a + b)) ≡ suc a + suc b = omega arith in ap (λ k. drop k []) k
drop-drop (suc a) b (x ∷ xs) =
    let k : suc (a + b) ≡ suc a + b = omega arith in drop-drop a b xs ∙ ap (λ k. drop k (x ∷ xs)) k

drop-later : (a b : ℕ) (xs ys : List ℕ) → a ≤ b → drop a xs ≡ drop a ys → drop b xs ≡ drop b ys
drop-later a b xs ys h e =
    let k : b ≡ a + (b - a) = omega arith in
    ap (λ k. drop k xs) k
    ∙ sym (drop-drop a (b - a) xs)
    ∙ ap (drop (b - a)) e
    ∙ drop-drop a (b - a) ys
    ∙ ap (λ k. drop k ys) (sym k)

-- Two buffers with the same bytes from `at` on have the same payloads there.
payloads-drop :
    (n i stride at : ℕ) (slots xs ys : List ℕ)
    → at ≤ i * stride
    → drop at xs ≡ drop at ys
    → payloads n i stride slots xs ≡ payloads n i stride slots ys
payloads-drop zero i stride at slots xs ys h e = refl
payloads-drop (suc n) i stride at slots xs ys h e =
    let size = get_or slots i 0 in
    ap₂ (λ bytes rest. if ltb size 2 then rest else take (size - 2) bytes ++ rest)
      (drop-later at (i * stride + 2) xs ys (omega arith) e)
      (payloads-drop n (i + 1) stride at slots xs ys (omega arith) e)

-- memcpy of bytes at `at`: what stands before their end, and what stands behind it.
take-memcpy :
    (buf bytes : List ℕ) (at : ℕ)
    → at ≤ length buf
    → take (at + length bytes) (memcpy buf at bytes) ≡ take at buf ++ bytes
take-memcpy buf bytes at h =
    let behind = drop (at + length bytes) buf in
    ap (take (at + length bytes)) (sym (append_assoc (take at buf) bytes behind))
    ∙ take-append (take at buf ++ bytes) behind (at + length bytes)
        (omega (arith, length-append (take at buf) bytes, length-take at buf h))

drop-memcpy :
    (buf bytes : List ℕ) (at : ℕ)
    → at ≤ length buf
    → drop (at + length bytes) (memcpy buf at bytes) ≡ drop (at + length bytes) buf
drop-memcpy buf bytes at h =
    let behind = drop (at + length bytes) buf in
    ap (drop (at + length bytes)) (sym (append_assoc (take at buf) bytes behind))
    ∙ drop-append (take at buf ++ bytes) behind (at + length bytes) 0
        (omega (arith, length-append (take at buf) bytes, length-take at buf h))

length-slice : (buf : List ℕ) (at n : ℕ) → at + n ≤ length buf → length (slice buf at n) ≡ n
length-slice buf at n h = length-take n (drop at buf) (omega (arith, length-drop at buf))

-- A step of the loop and of the description, by the outcome of the test on the unit's size.
compact-step :
    (n i stride : ℕ) (slots buf : List ℕ) (cur : ℕ) (skip : Bool)
    → let size = get_or slots i 0 in
      ltb size 2 ≡ skip
      → compact (suc n) i stride slots buf cur
        ≡ compact n
            (i + 1)
            stride
            slots
            (if skip then buf else memcpy buf cur (slice buf (i * stride + 2) (size - 2)))
            (if skip then cur else cur + (size - 2))
unfolding compact
compact-step n i stride slots buf cur skip e =
    let size = get_or slots i 0 in
    ap
      (λ t.
        compact n (i + 1) stride slots
          (if t then buf else memcpy buf cur (slice buf (i * stride + 2) (size - 2)))
          (if t then cur else cur + (size - 2)))
      e

payloads-step :
    (n i stride : ℕ) (slots buf : List ℕ) (skip : Bool)
    → let size = get_or slots i 0 in
      let rest = payloads n (i + 1) stride slots buf in
      ltb size 2 ≡ skip
      → (if skip then rest else slice buf (i * stride + 2) (size - 2) ++ rest)
        ≡ payloads (suc n) i stride slots buf
payloads-step n i stride slots buf skip e =
    let size = get_or slots i 0 in
    let rest = payloads n (i + 1) stride slots buf in
    ap (λ t. if t then rest else slice buf (i * stride + 2) (size - 2) ++ rest) (sym e)

-- The loop compacts in place without touching a unit it has still to read.
compact_lem :
    (n i stride : ℕ) (slots buf : List ℕ) (cur : ℕ)
    → cur ≤ i * stride
    → (i + n) * stride ≤ length buf
    → ((j : ℕ) → get_or slots j 0 ≤ stride)
    → let (b, c) = compact n i stride slots buf cur in
      take c b ≡ take cur buf ++ payloads n i stride slots buf
unfolding compact
compact_lem zero i stride slots buf cur h room sizes = sym (append-nil (take cur buf))
compact_lem (suc n) i stride slots buf cur h room sizes =
    let size = get_or slots i 0 in
    let fits = sizes i in
    elim (Bool-cases (ltb size 2)) [
      | inl skip ↦
          ap (λ r. take r.1 r.0) (compact-step n i stride slots buf cur true skip)
          ∙ compact_lem n (i + 1) stride slots buf cur (omega arith) (omega (arith, room)) sizes
          ∙ ap (λ bytes. take cur buf ++ bytes) (payloads-step n i stride slots buf true skip)
      | inr keep ↦
          let more = ltb→ge size 2 keep in
          let part = slice buf (i * stride + 2) (size - 2) in
          let next : i + 1 ≤ i + suc n = omega arith in
          let place : (i + 1) * stride ≤ length buf =
            omega (arith, room, mul-le-mul_right stride next) in
          let part_len : length part ≡ size - 2 =
            length-slice buf (i * stride + 2) (size - 2) (omega (arith, place, fits, more)) in
          let in_buf : cur ≤ length buf = omega (arith, place, h) in
          let moved = memcpy buf cur part in
          let at_end : cur + length part ≡ cur + (size - 2) = ap (λ k. cur + k) part_len in
          let moved_len =
            length-memcpy buf part cur (omega (arith, part_len, place, h, fits, more)) in
          ap (λ r. take r.1 r.0) (compact-step n i stride slots buf cur false keep)
          ∙ (compact_lem n (i + 1) stride slots moved (cur + (size - 2))
                (omega (arith, h, fits, more)) (omega (arith, room, moved_len)) sizes
              ∙ ap₂ ◌++◌ (ap (λ k. take k moved) (sym at_end) ∙ take-memcpy buf part cur in_buf) (
                  payloads-drop n (i + 1) stride (cur + length part) slots moved buf
                    (omega (arith, part_len, h, fits, more)) (drop-memcpy buf part cur in_buf))
              ∙ append_assoc (take cur buf) part (payloads n (i + 1) stride slots buf))
          ∙ ap (λ bytes. take cur buf ++ bytes) (payloads-step n i stride slots buf false keep)
    ]

-- When every source unit of a ready, open frame has come, and there is one at least, the frame is
-- the payloads of the source units in order, as they stood in the buffer before it was compacted, and
-- the result is a success.
pub flush_lem :
    (fec_decode : FecDecode) (calloc_ok : Bool) (fp : FrameProcessor)
    → IsReady fp
    → fp.flushed ≡ false
    → 0 < fp.units_source_expected
    → fp.units_source_received ≡ fp.units_source_expected
    → let (result, frame, _) = flush fec_decode calloc_ok fp in
      (result ≡ flush_success)
      × (frame
          ≡ payloads fp.units_source_expected 0 fp.buf_stride_per_unit fp.unit_slots fp.frame_buf)
unfolding flush finish_flush
flush_lem fec_decode calloc_ok fp v unflushed some_units complete =
    let source_room : (0 + fp.units_source_expected) * fp.buf_stride_per_unit
        ≤ fp.unit_slots_size * fp.buf_stride_per_unit =
      mul-le-mul_right fp.buf_stride_per_unit (omega (arith, v.slots_size)) in
    rw
      (
        ne→== fp.units_source_expected 0 (λ e. absurd (omega arith)),
        unflushed,
        ge→ltb fp.units_source_received fp.units_source_expected (omega arith),
      )
      (
        refl,
        compact_lem fp.units_source_expected 0 fp.buf_stride_per_unit fp.unit_slots fp.frame_buf 0
            (omega arith) (omega (arith, source_room, v.buf_fits, v.buf_len)) v.sizes_fit,
      )

take-all : (xs : List ℕ) → take (length xs) xs ≡ xs
take-all [] = refl
take-all (x ∷ xs) = ap (◌∷◌ x) (take-all xs)

-- Of a ready frame processor the erasures are as many as the units counted as missing, so the check
-- of the loop over the slots never fails and the assertion after it holds.
pub erasures_lem : (fp : FrameProcessor) → IsReady fp → length (erasures fp) ≡ erasures_count fp
unfolding erasures erasures_count
erasures_lem fp v =
    let few = filled_le fp.unit_slots fp.unit_slots_size in
    let counted = length-erasures_from fp.unit_slots 0 in
    let found =
      ap (λ xs. length (erasures_from 0 xs))
        (ap (λ k. take k fp.unit_slots) (sym v.slots_size ∙ sym v.slots_len)
          ∙ take-all fp.unit_slots) in
    let in_all = ap (filled fp.unit_slots) v.slots_len in
    omega
      (arith, found, in_all, counted, few, v.slots_len, v.slots_size, v.slots_few, v.all_counted)

-- Whatever the result is, a flush leaves the mark `flushed` as it was: after the flush of an open
-- frame the frame is still open.
pub flush-flushed :
    (fec_decode : FecDecode) (calloc_ok : Bool) (fp : FrameProcessor)
    → (flush fec_decode calloc_ok fp).2.flushed ≡ fp.flushed
unfolding flush fec finish_flush
flush-flushed fec_decode calloc_ok fp = ground arith
