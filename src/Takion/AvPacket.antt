-- ===== src/Takion/AvPacket.antt =====
-- Packets of video and audio: the header of protocol versions 7, 9 and 12.
use vitaki_vitarps.Base.{
  ℕ, ◌+◌, ◌-◌, ◌*◌, ◌/◌, ◌%◌, ◌^◌, Bool, true, false, not, ◌&&◌, ◌||◌, List, [], ◌∷◌, ◌++◌, length,
  get_or, drop, ltb, ◌==◌, if◌then◌else◌, ErrorCode, success, invalid_data, buf_too_small, Result,
  fail, ok,
}
use vitaki_vitarps.Frame.Processor.{ntohs, memcpy}
use vitaki_vitarps.Takion.Bytes.{htons, htonl, ntohl}
use vitaki_vitarps.Takion.KeyState.{KeyState, request_pos}
use vitaki_vitarps.Takion.Message.{packet_type_video, packet_type_audio, zeros}
use vitaki_vitarps.Takion.Packet.{base_type}

-- `payload` has the bytes from the pointer on to the end of the datagram.
pub record TakionAvPacket : Type 0 where
  pub packet_index : ℕ
  pub frame_index : ℕ
  pub uses_nalu_info_structs : Bool
  pub is_video : Bool
  pub is_haptics : Bool
  pub unit_index : ℕ
  pub units_in_frame_total : ℕ
  pub units_in_frame_fec : ℕ
  pub codec : ℕ
  pub word_at_0x18 : ℕ
  pub adaptive_stream_index : ℕ
  pub byte_at_0x2c : ℕ
  pub key_pos : ℕ
  pub payload : List ℕ
  pub data_size : ℕ

-- `((buf[0] >> 4) & 1) != 0`
abbrev pub nalu_bit : List ℕ → Bool
nalu_bit buf = not (get_or buf 0 0 / 2 ^ 4 % 2 == 0)

abbrev pub is_av : List ℕ → Bool
is_av buf = base_type buf == packet_type_video || base_type buf == packet_type_audio

abbrev pub av_header_size : Bool → Bool → ℕ
av_header_size v12 is_video = if is_video then 23 else if v12 then 19 else 18

-- How far `av` moves.
abbrev pub av_consumed : Bool → Bool → Bool → ℕ
av_consumed v12 is_video nalu =
    17
    + (if is_video then 3 else 1)
    + (if nalu then 3 else 0)
    + (if v12 && not is_video then 1 else 0)

abbrev av_fields : Bool → Bool → Bool → ℕ → List ℕ → TakionAvPacket
av_fields v12 is_video nalu key_pos av =
    let dword_2 = ntohl (drop 4 av) in
    let consumed = av_consumed v12 is_video nalu in
    record {
      packet_index = ntohs av;
      frame_index = ntohs (drop 2 av);
      uses_nalu_info_structs = nalu;
      is_video = is_video;
      is_haptics = v12 && not is_video && (get_or av (consumed - 1) 0 == 2);
      unit_index = if is_video then dword_2 / 2 ^ 21 % 2 ^ 11 else dword_2 / 2 ^ 24 % 2 ^ 8;
      units_in_frame_total =
          if is_video then dword_2 / 2 ^ 10 % 2 ^ 11 + 1 else dword_2 / 2 ^ 16 % 2 ^ 8 + 1;
      units_in_frame_fec = if is_video then dword_2 % 2 ^ 10 else dword_2 % 2 ^ 16;
      codec = get_or av 8 0;
      word_at_0x18 = if is_video then ntohs (drop 17 av) else 0;
      adaptive_stream_index = if is_video then get_or av 19 0 / 2 ^ 5 else 0;
      byte_at_0x2c = if is_video then get_or av 20 0 else 0;
      key_pos = key_pos;
      payload = drop consumed av;
      data_size = (length av + 2 ^ 64 - consumed) % 2 ^ 64;
    }

unfoldable pub av_packet_parse : Bool → KeyState → List ℕ → Result TakionAvPacket × KeyState
av_packet_parse v12 state buf =
    let is_video = base_type buf == packet_type_video in
    let av = drop 1 buf in
    let (key_pos, state') = request_pos state (ntohl (drop 13 av)) true in
    if ltb (length buf) 1
    then (fail buf_too_small, state)
    else if not (is_av buf)
    then (fail invalid_data, state)
    else if ltb (length av) (av_header_size v12 is_video + 1)
    then (fail buf_too_small, state)
    else (ok (av_fields v12 is_video (nalu_bit buf) key_pos av), state')

unfoldable pub v9_av_packet_parse : KeyState → List ℕ → Result TakionAvPacket × KeyState
unfolding av_packet_parse
v9_av_packet_parse = av_packet_parse false

unfoldable pub v12_av_packet_parse : KeyState → List ℕ → Result TakionAvPacket × KeyState
unfolding av_packet_parse
v12_av_packet_parse = av_packet_parse true

abbrev pub v7_header_size : Bool → Bool → ℕ
v7_header_size is_video nalu = 18 + (if is_video then 3 else 0) + (if nalu then 3 else 0)

-- A number of 32 bits as a little-endian machine stores it.
abbrev pub stored : ℕ → List ℕ
stored x = x % 2 ^ 8 ∷ x / 2 ^ 8 % 2 ^ 8 ∷ x / 2 ^ 16 % 2 ^ 8 ∷ x / 2 ^ 24 % 2 ^ 8 ∷ []

-- The disjoint bits are added; `units_in_frame_total - 1` is -1 for 0.
abbrev pub dword_2_of : TakionAvPacket → ℕ
dword_2_of packet =
    packet.units_in_frame_fec % 2 ^ 10
    + (packet.units_in_frame_total + 2 ^ 11 - 1) % 2 ^ 11 * 2 ^ 10
    + packet.unit_index * 2 ^ 21 % 2 ^ 32

-- The bytes written, one after the other.
abbrev pub v7_header : TakionAvPacket → List ℕ
v7_header packet =
    ((if packet.is_video then packet_type_video else packet_type_audio)
      + (if packet.uses_nalu_info_structs then 16 else 0))
    ∷ (htons packet.packet_index
        ++ (htons packet.frame_index
            ++ (htonl (dword_2_of packet)
                ++ (packet.codec % 2 ^ 8
                    ∷ (zeros
                        ++ (stored (packet.key_pos % 2 ^ 32)
                            ++ ((if packet.is_video
                                  then htons packet.word_at_0x18
                                    ++ (packet.adaptive_stream_index * 2 ^ 5 % 2 ^ 8 ∷ [])
                                  else [])
                                ++ (if packet.uses_nalu_info_structs
                                    then 0 ∷ 0 ∷ 0 ∷ []
                                    else []))))))))

-- The result is the error code, `*header_size_out` and the buffer after the call.
unfoldable pub v7_av_packet_format_header : List ℕ → TakionAvPacket → ErrorCode × ℕ × List ℕ
v7_av_packet_format_header buf packet =
    let header_size = v7_header_size packet.is_video packet.uses_nalu_info_structs in
    if ltb (length buf) header_size
    then (buf_too_small, header_size, buf)
    else (success, header_size, memcpy buf 0 (v7_header packet))

-- `key_state` is not used.
unfoldable pub v7_av_packet_parse : List ℕ → Result TakionAvPacket
v7_av_packet_parse buf =
    let is_video = base_type buf == packet_type_video in
    let nalu = nalu_bit buf in
    let header_size = v7_header_size is_video nalu in
    let dword_2 = ntohl (drop 5 buf) in
    if ltb (length buf) 1
    then fail buf_too_small
    else if not (is_av buf)
    then fail invalid_data
    else if ltb (length buf) header_size
    then fail buf_too_small
    else ok (record {
      packet_index = ntohs (drop 1 buf);
      frame_index = ntohs (drop 3 buf);
      uses_nalu_info_structs = nalu;
      is_video = is_video;
      is_haptics = false;
      unit_index = dword_2 / 2 ^ 21 % 2 ^ 11;
      units_in_frame_total = dword_2 / 2 ^ 10 % 2 ^ 11 + 1;
      units_in_frame_fec = dword_2 % 2 ^ 10;
      codec = get_or buf 9 0;
      word_at_0x18 = if is_video then ntohs (drop 18 buf) else 0;
      adaptive_stream_index = if is_video then get_or buf 20 0 / 2 ^ 5 else 0;
      byte_at_0x2c = 0;
      key_pos = ntohl (drop 14 buf);
      payload = drop header_size buf;
      data_size = length buf - header_size;
    })
