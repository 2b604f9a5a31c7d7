-- ===== src/Audio/ReceiverLaws.antt =====
-- The order of the frames that an audio receiver takes, and the bytes that it reads for them.
use native.Mathlib.Nat.{mul-le-mul_left}
use vitaki_vitarps.Base.{
  ℕ, zero, suc, ◌+◌, ◌*◌, ◌^◌, ◌≤◌, ◌≡◌, refl, sym, ap, subst, Bool, true, false, List, [], ◌∷◌,
  ◌++◌, ltb, ◌==◌, if◌then◌else◌, length, take, drop, Option, none, some, arith, Bool-cases, inl,
  inr, All, length-take, length-drop, ==→eq,
}
use vitaki_vitarps.SeqNum.{seq_num_16_gt}
use vitaki_vitarps.Audio.Receiver.{
  AudioPacket, AudioReceiver, Sinks, Taken, audio_unit_size, audio_source_units_count,
  audio_fec_units_count, receive_frame, receive_unit, receive_units, unit_frame_index, accepts,
  av_packet, av_packets,
}

-- Every index is after the one before it, the first after `prev`, and the last one is `last`.
abbrev pub Ascends : ℕ → List Taken → ℕ → Type 0
Ascends prev [] last = prev ≡ last
Ascends prev (t ∷ ts) last = (seq_num_16_gt t.index prev ≡ true) × Ascends t.index ts last

Ascends-append :
    (xs ys : List Taken) (a b c : ℕ) → Ascends a xs b → Ascends b ys c → Ascends a (xs ++ ys) c
Ascends-append [] ys a b c p q = subst (λ k. Ascends k ys c) (sym p) q
Ascends-append (x ∷ xs) ys a b c p q = (p.0, Ascends-append xs ys x.index b c p.1 q)

frame-Ascends :
    (sinks : Sinks) (r : AudioReceiver) (frame_index : ℕ) (is_haptics : Bool) (buf : List ℕ)
    → let (r', taken) = receive_frame sinks r frame_index is_haptics buf in
      Ascends r.frame_index_prev taken r'.frame_index_prev
unfolding receive_frame
frame-Ascends sinks r frame_index is_haptics buf =
    elim (Bool-cases (seq_num_16_gt frame_index r.frame_index_prev)) [
      | inl e ↦ rw e (e, refl)
      | inr e ↦ rw e refl
    ]

unit-Ascends :
    (sinks : Sinks) (p : AudioPacket) (i : ℕ) (r : AudioReceiver) (index : Option ℕ)
    → let (r', taken) = receive_unit sinks p i r index in
      Ascends r.frame_index_prev taken r'.frame_index_prev
unfolding receive_unit
unit-Ascends sinks p i r none = refl
unit-Ascends sinks p i r (some index) =
    frame-Ascends sinks r index p.is_haptics
      (take (audio_unit_size p) (drop (audio_unit_size p * i) p.payload))

units-Ascends :
    (sinks : Sinks) (p : AudioPacket) (n i : ℕ) (r : AudioReceiver)
    → let (r', taken) = receive_units sinks p n i r in
      Ascends r.frame_index_prev taken r'.frame_index_prev
unfolding receive_units
units-Ascends sinks p zero i r = refl
units-Ascends sinks p (suc n) i r =
    let index = unit_frame_index r.frame_index_startup p i in
    let (r', one) = receive_unit sinks p i r index in
    let (r'', more) = receive_units sinks p n (i + 1) r' in
    Ascends-append one more r.frame_index_prev r'.frame_index_prev r''.frame_index_prev
      (unit-Ascends sinks p i r index) (units-Ascends sinks p n (i + 1) r')

packet-Ascends :
    (sinks : Sinks) (r : AudioReceiver) (p : AudioPacket)
    → let (r', taken) = av_packet sinks r p in Ascends r.frame_index_prev taken r'.frame_index_prev
unfolding av_packet
packet-Ascends sinks r p = elim (Bool-cases (accepts p)) [
  | inl e ↦ rw e (
      units-Ascends sinks p (audio_source_units_count p + audio_fec_units_count p) 0 (record r {
        frame_index_startup = if ltb (2 ^ 15) p.frame_index then false else r.frame_index_startup;
      }))
  | inr e ↦ rw e refl
]

-- Whatever packets come, in whatever order, each frame that is taken is after the one taken before
-- it, in the order of 16 bit sequence numbers, and the first is after the receiver's last one.
pub av_packets-Ascends :
    (sinks : Sinks) (ps : List AudioPacket) (r : AudioReceiver)
    → let (r', taken) = av_packets sinks r ps in
      Ascends r.frame_index_prev taken r'.frame_index_prev
unfolding av_packets
av_packets-Ascends sinks [] r = refl
av_packets-Ascends sinks (p ∷ ps) r =
    let (r', taken) = av_packet sinks r p in
    let (r'', more) = av_packets sinks r' ps in
    Ascends-append taken more r.frame_index_prev r'.frame_index_prev r''.frame_index_prev
      (packet-Ascends sinks r p) (av_packets-Ascends sinks ps r')

accepts-size :
    (p : AudioPacket)
    → accepts p ≡ true
    → audio_unit_size p * (0 + (audio_source_units_count p + audio_fec_units_count p))
      ≤ length p.payload
unfolding accepts
accepts-size p e =
    let n = audio_unit_size p in
    let total = p.units_in_frame_total in
    let counts : audio_fec_units_count p + audio_source_units_count p ≡ total = ground (arith, e) in
    let bytes : (length p.payload == n * total) ≡ true = ground (arith, e) in
    let sum : 0 + (audio_source_units_count p + audio_fec_units_count p) ≡ total =
      omega (arith, counts) in
    omega (arith, ap (λ k. n * k) sum, ==→eq (length p.payload) (n * total) bytes)

-- The frame has the bytes of one unit.
abbrev pub HasSize : ℕ → List Taken → Type 0
HasSize n = All (λ t. length t.buf ≡ n)

HasSize-append : (n : ℕ) (xs ys : List Taken) → HasSize n xs → HasSize n ys → HasSize n (xs ++ ys)
HasSize-append n [] ys p q = q
HasSize-append n (x ∷ xs) ys p q = (p.0, HasSize-append n xs ys p.1 q)

unit-HasSize :
    (sinks : Sinks) (p : AudioPacket) (i : ℕ) (r : AudioReceiver) (index : Option ℕ)
    → audio_unit_size p * (i + 1) ≤ length p.payload
    → HasSize (audio_unit_size p) (receive_unit sinks p i r index).1
unfolding receive_unit receive_frame
unit-HasSize sinks p i r none h = tt
unit-HasSize sinks p i r (some index) h =
    let n = audio_unit_size p in
    let left : n ≤ length (drop (n * i) p.payload) = omega (arith, length-drop (n * i) p.payload) in
    elim (Bool-cases (seq_num_16_gt index r.frame_index_prev)) [
      | inl e ↦ rw e (length-take n (drop (n * i) p.payload) left, tt)
      | inr e ↦ rw e tt
    ]

units-HasSize :
    (sinks : Sinks) (p : AudioPacket) (n i : ℕ) (r : AudioReceiver)
    → audio_unit_size p * (i + n) ≤ length p.payload
    → HasSize (audio_unit_size p) (receive_units sinks p n i r).1
unfolding receive_units
units-HasSize sinks p zero i r h = tt
units-HasSize sinks p (suc n) i r h =
    let index = unit_frame_index r.frame_index_startup p i in
    let (r', one) = receive_unit sinks p i r index in
    let next : i + 1 ≤ i + suc n = omega arith in
    HasSize-append (audio_unit_size p) one (receive_units sinks p n (i + 1) r').1
      (unit-HasSize sinks p i r index (omega (arith, h, mul-le-mul_left (audio_unit_size p) next)))
      (units-HasSize sinks p n (i + 1) r' (omega (arith, h)))

-- Every frame taken from a packet has the whole size of a unit: no unit is read beyond the packet's
-- bytes, however the packet's counts are chosen.
pub av_packet-HasSize :
    (sinks : Sinks) (r : AudioReceiver) (p : AudioPacket)
    → HasSize (audio_unit_size p) (av_packet sinks r p).1
unfolding av_packet accepts
av_packet-HasSize sinks r p =
    let total = audio_source_units_count p + audio_fec_units_count p in
    elim (Bool-cases (accepts p)) [
      | inl e ↦ rw e (
          units-HasSize sinks p total 0
            (record r {
              frame_index_startup =
                  if ltb (2 ^ 15) p.frame_index then false else r.frame_index_startup;
            })
            (accepts-size p e))
      | inr e ↦ rw e tt
    ]
