-- ===== src/Takion/Handle.antt =====
-- takion_handle_packet: from a datagram to what is done with it.
use vitaki_vitarps.Base.{
  ℕ, true, false, Bool, Option, none, some, leb, ◌==◌, if◌then◌else◌, List, [], ◌∷◌, ◌++◌, length,
  ◌||◌, ◌&&◌, ErrorCode, is_success, Result, fail, ok, drop,
}
use vitaki_vitarps.SendBuffer.Buffer.{Buffer}
use vitaki_vitarps.Takion.KeyState.{KeyState}
use vitaki_vitarps.Takion.Message.{
  TakionMessage, parse_message, packet_type_control, packet_type_video, packet_type_audio,
  chunk_type_data, chunk_type_data_ack,
}
use vitaki_vitarps.Takion.Packet.{GkCrypt, base_type, handle_packet_mac}
use vitaki_vitarps.Takion.AvPacket.{TakionAvPacket}
use vitaki_vitarps.Takion.DataQueue.{
  Takion, Effect, free_buf, event_av, handle_packet_message_data, handle_packet_message_data_ack,
}

-- `ChiakiTakion` with the members of the data channel in `channel`. `postponed_packets` is `none`
-- for NULL, and has the packets counted.
pub record Connection : Type 0 where
  pub channel : Takion
  pub send_buffer : Buffer
  pub tag_local : ℕ
  pub key_state : KeyState
  pub enable_crypt : Bool
  pub gkcrypt_remote : Option GkCrypt
  pub postponed_packets : Option (List (List ℕ))
  pub parse_av : KeyState → List ℕ → Result TakionAvPacket × KeyState

-- What the platform gives: whether `malloc` and `calloc` succeed, the result of the send buffer's
-- mutex, the times of arrival and of a drop, the clock in the flush of the data queue and after it.
pub record Platform : Type 0 where
  pub malloc_ok : Bool
  pub lock : ErrorCode
  pub now_us : ℕ
  pub drop_ms : ℕ
  pub clock : ℕ → ℕ × ℕ
  pub end_ms : ℕ

abbrev pub postpone_packets_size : ℕ
postpone_packets_size = 32

-- A packet that finds no room is not freed.
unfoldable pub postpone_packet : Bool → Option (List (List ℕ)) → List ℕ → Option (List (List ℕ))
postpone_packet calloc_ok none buf = if calloc_ok then some (buf ∷ []) else none
postpone_packet calloc_ok (some packets) buf =
    if leb postpone_packets_size (length packets)
    then some packets
    else some (packets ++ (buf ∷ []))

unfoldable pub handle_packet_av : Connection → List ℕ → Connection × List Effect
handle_packet_av c buf = elim (c.parse_av c.key_state buf).0 [
  | fail _ ↦ (record c { key_state = (c.parse_av c.key_state buf).1 }, [])
  | ok packet ↦ (
    record c { key_state = (c.parse_av c.key_state buf).1 },
    if c.channel.cb then event_av packet ∷ [] else [],
  )
]

-- The switch on the type of the chunk.
unfoldable pub handle_chunk :
    Platform → Connection → List ℕ → TakionMessage → Option (Connection × List Effect)
handle_chunk p c buf msg =
    if msg.chunk_type == chunk_type_data
    then elim (handle_packet_message_data p.malloc_ok p.now_us p.drop_ms p.clock p.end_ms c.channel
        buf msg.chunk_flags msg.payload) [
          | none ↦ none
          | some (channel, effects) ↦ some (record c { channel = channel }, effects)
        ]
    else if msg.chunk_type == chunk_type_data_ack
    then some (
      record c {
        send_buffer = (handle_packet_message_data_ack p.lock c.send_buffer msg.payload).0;
      },
      (handle_packet_message_data_ack p.lock c.send_buffer msg.payload).1 ++ (free_buf ∷ []),
    )
    else some (c, free_buf ∷ [])

unfoldable pub handle_packet_message :
    Platform → Connection → List ℕ → Option (Connection × List Effect)
unfolding handle_chunk
handle_packet_message p c buf =
    let c' : Connection = record c {
      key_state = (parse_message c.tag_local c.key_state (drop 1 buf)).1;
    } in
    elim (parse_message c.tag_local c.key_state (drop 1 buf)).0 [
      | fail _ ↦ some (c', free_buf ∷ [])
      | ok msg ↦ handle_chunk p c' buf msg
    ]

-- `takion->enable_crypt && !takion->gkcrypt_remote`
unfoldable pub waits_for_key : Connection → Bool
waits_for_key c = c.enable_crypt && elim c.gkcrypt_remote [ none ↦ true | some _ ↦ false ]

-- After the MAC: the switch on the base type.
unfoldable pub handle_checked : Platform → Connection → List ℕ → Option (Connection × List Effect)
unfolding handle_packet_message handle_packet_av postpone_packet waits_for_key
handle_checked p c buf =
    if base_type buf == packet_type_control
    then handle_packet_message p c buf
    else if base_type buf == packet_type_video || base_type buf == packet_type_audio
    then if waits_for_key c
      then some
          (record c { postponed_packets = postpone_packet p.malloc_ok c.postponed_packets buf }, [])
      else some ((handle_packet_av c buf).0, (handle_packet_av c buf).1 ++ (free_buf ∷ []))
    else some (c, free_buf ∷ [])

-- `none` is a failed assertion.
unfoldable pub handle_packet : Platform → Connection → List ℕ → Option (Connection × List Effect)
unfolding handle_checked
handle_packet p c buf =
    let r = handle_packet_mac c.gkcrypt_remote c.key_state buf in
    if length buf == 0
    then none
    else if is_success r.0
    then handle_checked p (record c { key_state = r.1 }) r.2
    else some (record c { key_state = r.1 }, free_buf ∷ [])

-- The postponed packets handled once there is a key, in the order in which they came.
unfoldable pub handle_all :
    Platform → Connection → List (List ℕ) → Option (Connection × List Effect)
handle_all p c [] = some (c, [])
handle_all p c (buf ∷ bufs) = elim (handle_packet p c buf) [
  | none ↦ none
  | some (c', effects) ↦ elim (handle_all p c' bufs) [
    | none ↦ none
    | some (c'', more) ↦ some (c'', effects ++ more)
  ]
]

unfoldable pub flush_postponed : Platform → Connection → Option (Connection × List Effect)
unfolding handle_all
flush_postponed p c = elim c.postponed_packets [
  | none ↦ some (c, [])
  | some packets ↦ elim c.gkcrypt_remote [
    | none ↦ some (c, [])
    | some _ ↦ elim (handle_all p c packets) [
      | none ↦ none
      | some (c', effects) ↦ some (record c' { postponed_packets = none }, effects)
    ]
  ]
]
