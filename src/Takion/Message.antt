-- ===== src/Takion/Message.antt =====
-- The messages of the control packets: their header, and what is sent and received with it.
use vitaki_vitarps.Base.{
  ℕ, ◌+◌, ◌-◌, ◌%◌, ◌^◌, true, not, List, [], ◌∷◌, ◌++◌, length, get_or, drop, take, ltb, ◌==◌,
  if◌then◌else◌, invalid_data, Result, fail, ok,
}
use vitaki_vitarps.Frame.Processor.{ntohs}
use vitaki_vitarps.Takion.Bytes.{htons, htonl, ntohl}
use vitaki_vitarps.Takion.KeyState.{KeyState, request_pos}

abbrev pub packet_type_control : ℕ
packet_type_control = 0

abbrev pub packet_type_video : ℕ
packet_type_video = 2

abbrev pub packet_type_audio : ℕ
packet_type_audio = 3

abbrev pub packet_type_congestion : ℕ
packet_type_congestion = 5

abbrev pub chunk_type_data : ℕ
chunk_type_data = 0

abbrev pub chunk_type_init : ℕ
chunk_type_init = 1

abbrev pub chunk_type_init_ack : ℕ
chunk_type_init_ack = 2

abbrev pub chunk_type_data_ack : ℕ
chunk_type_data_ack = 3

abbrev pub chunk_type_cookie : ℕ
chunk_type_cookie = 10

abbrev pub chunk_type_cookie_ack : ℕ
chunk_type_cookie_ack = 11

abbrev pub message_header_size : ℕ
message_header_size = 16

-- CHIAKI_GKCRYPT_GMAC_SIZE
abbrev pub gmac_size : ℕ
gmac_size = 4

-- `memset(buf, 0, CHIAKI_GKCRYPT_GMAC_SIZE)`; also the four bytes of a zero.
abbrev pub zeros : List ℕ
zeros = 0 ∷ 0 ∷ 0 ∷ 0 ∷ []

-- `payload` holds the bytes from the pointer on, and is empty for NULL.
pub record TakionMessage : Type 0 where
  pub tag : ℕ
  pub key_pos : ℕ
  pub chunk_type : ℕ
  pub chunk_flags : ℕ
  pub payload_size : ℕ
  pub payload : List ℕ

-- The 16 bytes that `takion_write_message_header` writes.
unfoldable pub write_message_header : ℕ → ℕ → ℕ → ℕ → ℕ → List ℕ
write_message_header tag key_pos chunk_type chunk_flags payload_data_size =
    htonl tag
    ++ (zeros
        ++ (htonl (key_pos % 2 ^ 32)
            ++ (chunk_type ∷ chunk_flags ∷ htons ((payload_data_size + 4) % 2 ^ 16))))

abbrev fields : ℕ → List ℕ → TakionMessage
fields key_pos buf =
    let size = (ntohs (drop 14 buf) + 2 ^ 16 - 4) % 2 ^ 16 in
    record {
      tag = ntohl buf;
      key_pos = key_pos;
      chunk_type = get_or buf 12 0;
      chunk_flags = get_or buf 13 0;
      payload_size = size;
      payload = if ltb 0 size then drop 16 buf else [];
    }

-- The position is requested and committed before the tag and the size are checked.
unfoldable pub parse_message : ℕ → KeyState → List ℕ → Result TakionMessage × KeyState
parse_message tag_local state buf =
    let (key_pos, state') = request_pos state (ntohl (drop 8 buf)) true in
    if ltb (length buf) message_header_size
    then (fail invalid_data, state)
    else if not (ntohl buf == tag_local)
    then (fail invalid_data, state')
    else if not (length buf == ntohs (drop 14 buf) + 12)
    then (fail invalid_data, state')
    else (ok (fields key_pos buf), state')

-- `ChiakiTakionCongestionPacket`.
pub record CongestionPacket : Type 0 where
  pub word_0 : ℕ
  pub received : ℕ
  pub lost : ℕ

-- The 15 bytes that `chiaki_takion_format_congestion` writes.
unfoldable pub format_congestion : CongestionPacket → ℕ → List ℕ
format_congestion packet key_pos =
    packet_type_congestion
    ∷ (htons packet.word_0
        ++ (htons packet.received ++ (htons packet.lost ++ (zeros ++ htonl (key_pos % 2 ^ 32)))))

-- `TakionMessagePayloadInit`, and without the cookie `TakionMessagePayloadInitAck`.
pub record PayloadInit : Type 0 where
  pub tag : ℕ
  pub a_rwnd : ℕ
  pub outbound_streams : ℕ
  pub inbound_streams : ℕ
  pub initial_seq_num : ℕ

-- The payload of an init message.
abbrev pub init_payload : PayloadInit → List ℕ
init_payload payload =
    htonl payload.tag
    ++ (htonl payload.a_rwnd
        ++ (htons payload.outbound_streams
            ++ (htons payload.inbound_streams ++ htonl payload.initial_seq_num)))

-- What `takion_send_message_init` hands to `chiaki_takion_send_raw`.
unfoldable pub send_message_init : ℕ → PayloadInit → List ℕ
send_message_init tag_remote payload =
    packet_type_control
    ∷ (write_message_header tag_remote 0 chunk_type_init 0 16 ++ init_payload payload)

abbrev pub cookie_size : ℕ
cookie_size = 32

-- What `takion_send_message_cookie` hands to `chiaki_takion_send_raw`; `cookie` has 32 bytes.
unfoldable pub send_message_cookie : ℕ → List ℕ → List ℕ
send_message_cookie tag_remote cookie =
    packet_type_control
    ∷ (write_message_header tag_remote 0 chunk_type_cookie 0 cookie_size ++ take cookie_size cookie)

-- The datagram of `chiaki_takion_send_message_data_ack` before its MAC is set.
unfoldable pub message_data_ack : ℕ → ℕ → ℕ → ℕ → List ℕ
message_data_ack tag_remote a_rwnd key_pos seq_num =
    packet_type_control
    ∷ (write_message_header tag_remote key_pos chunk_type_data_ack 0 12
        ++ (htonl seq_num ++ (htonl a_rwnd ++ (htons 0 ++ htons 0))))

-- The datagram of `chiaki_takion_send_message_data` before its MAC is set.
unfoldable pub message_data : ℕ → ℕ → ℕ → ℕ → ℕ → List ℕ → List ℕ
message_data tag_remote key_pos chunk_flags seq_num channel buf =
    packet_type_control
    ∷ (write_message_header tag_remote key_pos chunk_type_data chunk_flags (9 + length buf)
        ++ (htonl seq_num ++ (htons channel ++ (htons 0 ++ (0 ∷ buf)))))
