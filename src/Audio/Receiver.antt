-- ===== src/Audio/Receiver.antt =====
-- lib/src/audioreceiver.c: which units of a packet are handed to the session's sinks. Each function
-- runs under the receiver's mutex where the code takes it; the Opus decoder's option is not modelled.
use vitaki_vitarps.Base.{
  ℕ, zero, suc, ◌+◌, ◌-◌, ◌*◌, ◌/◌, ◌%◌, ◌^◌, Bool, true, false, not, ◌&&◌, List, [], ◌∷◌, ◌++◌,
  ltb, ◌==◌, if◌then◌else◌, length, take, drop, Option, none, some, ErrorCode,
}
use vitaki_vitarps.SeqNum.{seq_num_16_gt}
use vitaki_vitarps.Stats.PacketStats.{PacketStats, push_seq}

-- The fields of `ChiakiTakionAVPacket` that the receiver reads; `payload` has the `data_size` bytes at
-- `data`.
pub record AudioPacket : Type 0 where
  pub codec : ℕ
  pub frame_index : ℕ
  pub is_haptics : Bool
  pub units_in_frame_total : ℕ
  pub units_in_frame_fec : ℕ
  pub payload : List ℕ

abbrev pub audio_unit_size : AudioPacket → ℕ
audio_unit_size p = p.units_in_frame_fec / 2 ^ 8

abbrev pub audio_source_units_count : AudioPacket → ℕ
audio_source_units_count p = p.units_in_frame_fec % 16

abbrev pub audio_fec_units_count : AudioPacket → ℕ
audio_fec_units_count p = p.units_in_frame_fec / 16 % 16

-- Whether the session's callbacks are set.
pub record Sinks : Type 0 where
  pub header_cb : Bool
  pub audio_frame_cb : Bool
  pub haptics_frame_cb : Bool

pub data Sink : Type 0 where
  audio_sink haptics_sink : Sink

-- A frame that was taken: its index, the sink whose callback got it if one is set, and its bytes.
pub record Taken : Type 0 where
  pub index : ℕ
  pub sink : Option Sink
  pub buf : List ℕ

pub record AudioReceiver : Type 0 where
  pub frame_index_prev : ℕ
  pub frame_index_startup : Bool
  pub packet_stats : Option PacketStats

-- The error code is that of `chiaki_mutex_init`.
unfoldable pub init : ErrorCode → Option PacketStats → ErrorCode × AudioReceiver
init mutex_init packet_stats = (
  mutex_init,
  record { frame_index_prev = 0; frame_index_startup = true; packet_stats = packet_stats },
)

-- Whether `header_cb` is called.
unfoldable pub stream_info : Sinks → Bool
stream_info sinks = sinks.header_cb

unfoldable pub receive_frame :
    Sinks → AudioReceiver → ℕ → Bool → List ℕ → AudioReceiver × List Taken
receive_frame sinks r frame_index is_haptics buf =
    if not (seq_num_16_gt frame_index r.frame_index_prev) then (r, []) else (
      record r { frame_index_prev = frame_index },
      record {
        index = frame_index;
        sink =
            if is_haptics && sinks.haptics_frame_cb
            then some haptics_sink
            else if not is_haptics && sinks.audio_frame_cb
            then some audio_sink
            else none;
        buf = buf;
      }
          ∷ [],
    )

-- The frame index of unit `i`, `none` for a unit that is passed over. The differences are cut to 16
-- bits.
unfoldable pub unit_frame_index : Bool → AudioPacket → ℕ → Option ℕ
unit_frame_index startup p i =
    let fec_index = i - audio_source_units_count p in
    let fec = audio_fec_units_count p in
    if ltb i (audio_source_units_count p)
    then some ((p.frame_index + i) % 2 ^ 16)
    else if startup && ltb (p.frame_index + fec_index) (fec + 1)
    then none
    else some ((p.frame_index + 2 ^ 16 - fec + fec_index) % 2 ^ 16)

-- A round of the loop over the units, by the unit's frame index.
unfoldable pub receive_unit :
    Sinks → AudioPacket → ℕ → AudioReceiver → Option ℕ → AudioReceiver × List Taken
unfolding receive_frame
receive_unit sinks p i r none = (r, [])
receive_unit sinks p i r (some frame_index) =
    receive_frame sinks r frame_index p.is_haptics
      (take (audio_unit_size p) (drop (audio_unit_size p * i) p.payload))

-- `n` units from `i` on.
unfoldable pub receive_units :
    Sinks → AudioPacket → ℕ → ℕ → AudioReceiver → AudioReceiver × List Taken
unfolding receive_unit
receive_units sinks p zero i r = (r, [])
receive_units sinks p (suc n) i r =
    let (r', one) = receive_unit sinks p i r (unit_frame_index r.frame_index_startup p i) in
    let (r'', more) = receive_units sinks p n (i + 1) r' in (r'', one ++ more)

-- The conditions on which a packet is read.
unfoldable pub accepts : AudioPacket → Bool
accepts p =
    let total = p.units_in_frame_total in
    (p.codec == 5)
    && (not (length p.payload == 0)
        && ((audio_fec_units_count p + audio_source_units_count p == total)
            && (length p.payload == audio_unit_size p * total)))

unfoldable pub av_packet : Sinks → AudioReceiver → AudioPacket → AudioReceiver × List Taken
unfolding receive_units accepts
av_packet sinks r p =
    let started = record r {
      frame_index_startup = if ltb (2 ^ 15) p.frame_index then false else r.frame_index_startup;
    } in
    let (r', taken) =
      receive_units sinks p (audio_source_units_count p + audio_fec_units_count p) 0 started in
    if not (accepts p) then (r, []) else (
      record r' {
        packet_stats = elim r'.packet_stats [
          | none ↦ none
          | some stats ↦ some (push_seq stats p.frame_index)
        ];
      },
      taken,
    )

-- The frames taken from packets one after another.
unfoldable pub av_packets : Sinks → AudioReceiver → List AudioPacket → AudioReceiver × List Taken
av_packets sinks r [] = (r, [])
av_packets sinks r (p ∷ ps) =
    let (r', taken) = av_packet sinks r p in
    let (r'', more) = av_packets sinks r' ps in (r'', taken ++ more)
