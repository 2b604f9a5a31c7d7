-- ===== src/Takion/AvPacketLaws.antt =====
-- The headers of video and audio packets read back, and the sizes of what they announce.
use vitaki_vitarps.Base.{
  ℕ, ◌+◌, ◌*◌, ◌/◌, ◌%◌, ◌^◌, ◌<◌, ◌≤◌, ◌≡◌, ◌⊎◌, ◌∙◌, refl, sym, ap, true, false, Bool, List, [],
  ◌++◌, length, drop, if◌then◌else◌, ok, arith, ge→ltb, length-append, length-drop, success,
}
use vitaki_vitarps.Takion.Bytes.{ntohl, ntohl-htonl, ntohs-htons, memcpy-segment}
use vitaki_vitarps.Takion.KeyState.{KeyState}
use vitaki_vitarps.Takion.AvPacket.{
  TakionAvPacket, av_consumed, v7_header, av_packet_parse, v7_av_packet_format_header,
  v7_av_packet_parse, dword_2_of, stored, v7_header_size,
}

-- The fields of a packet fit into those of the header.
pub record IsWire (packet : TakionAvPacket) : Type 0 where
  pub packet_index : packet.packet_index < 2 ^ 16
  pub frame_index : packet.frame_index < 2 ^ 16
  pub unit_index : packet.unit_index < 2 ^ 11
  pub total_lo : 1 ≤ packet.units_in_frame_total
  pub total_hi : packet.units_in_frame_total ≤ 2 ^ 11
  pub fec_small : packet.units_in_frame_fec < 2 ^ 10
  pub codec : packet.codec < 2 ^ 8
  pub word : packet.word_at_0x18 < 2 ^ 16
  pub stream : packet.adaptive_stream_index < 2 ^ 3

abbrev pub swap32 : ℕ → ℕ
swap32 x = ntohl (stored x)

-- What is read of a packet.
abbrev pub read_back : TakionAvPacket → List ℕ → TakionAvPacket
read_back packet payload = record packet {
  is_haptics = false;
  word_at_0x18 = if packet.is_video then packet.word_at_0x18 else 0;
  adaptive_stream_index = if packet.is_video then packet.adaptive_stream_index else 0;
  byte_at_0x2c = 0;
  key_pos = swap32 (packet.key_pos % 2 ^ 32);
  payload = payload;
  data_size = length payload;
}

units :
    (packet : TakionAvPacket)
    → IsWire packet
    → let d = dword_2_of packet in
      (d < 2 ^ 32)
      × (d / 2 ^ 21 % 2 ^ 11 ≡ packet.unit_index)
      × (d / 2 ^ 10 % 2 ^ 11 + 1 ≡ packet.units_in_frame_total)
      × (d % 2 ^ 10 ≡ packet.units_in_frame_fec)
units packet w = (
  omega (arith, w.unit_index, w.fec_small),
  omega (arith, w.unit_index, w.fec_small, w.total_hi),
  omega (arith, w.unit_index, w.total_hi, w.total_lo),
  omega (arith, w.unit_index, w.fec_small),
)

abbrev of_kind : TakionAvPacket → Bool → Bool → TakionAvPacket
of_kind packet is_video nalu = record packet { is_video = is_video; uses_nalu_info_structs = nalu }

length-v7_header :
    (packet : TakionAvPacket) (is_video nalu : Bool)
    → length (v7_header (of_kind packet is_video nalu)) ≡ v7_header_size is_video nalu
length-v7_header packet true true = refl
length-v7_header packet true false = refl
length-v7_header packet false true = refl
length-v7_header packet false false = refl

stream_field : (x : ℕ) → x < 2 ^ 3 → x * 2 ^ 5 % 2 ^ 8 / 2 ^ 5 ≡ x
stream_field x h = omega arith

codec_field : (x : ℕ) → x < 2 ^ 8 → x % 2 ^ 8 ≡ x
codec_field x h = omega arith

parse-header :
    (packet : TakionAvPacket) (is_video nalu : Bool) (payload : List ℕ)
    → IsWire packet
    → v7_av_packet_parse (v7_header (of_kind packet is_video nalu) ++ payload)
      ≡ ok (read_back (of_kind packet is_video nalu) payload)
unfolding v7_av_packet_parse
parse-header packet true nalu payload w =
    let (d, u, t, f) = units packet w in
    rw
      (
        ntohl-htonl (dword_2_of packet) [] d,
        ntohs-htons packet.packet_index [] w.packet_index,
        ntohs-htons packet.frame_index [] w.frame_index,
        ntohs-htons packet.word_at_0x18 [] w.word,
        u,
        t,
        f,
        codec_field packet.codec w.codec,
        stream_field packet.adaptive_stream_index w.stream,
      )
      elim nalu [ true ↦ ground arith | false ↦ ground arith ]
parse-header packet false nalu payload w =
    let (d, u, t, f) = units packet w in
    rw
      (
        ntohl-htonl (dword_2_of packet) [] d,
        ntohs-htons packet.packet_index [] w.packet_index,
        ntohs-htons packet.frame_index [] w.frame_index,
        u,
        t,
        f,
        codec_field packet.codec w.codec,
      )
      elim nalu [ true ↦ ground arith | false ↦ ground arith ]

-- A packet whose fields fit those of the header, written over the start of a buffer, is read back
-- with what was behind as its data, but for its position: the position is written in the machine's
-- order and read in the network's, so its four bytes come back swapped. `is_haptics` and
-- `byte_at_0x2c` are not sent, and audio has no `word_at_0x18` and no stream index.
pub v7_parse-format :
    (packet : TakionAvPacket) (old payload : List ℕ)
    → IsWire packet
    → length old ≡ v7_header_size packet.is_video packet.uses_nalu_info_structs
    → let (err, header_size, buf) = v7_av_packet_format_header (old ++ payload) packet in
      (err ≡ success)
      × (header_size ≡ length old)
      × (v7_av_packet_parse buf ≡ ok (read_back packet payload))
unfolding v7_av_packet_format_header
v7_parse-format packet old payload w h =
    let header = length-v7_header packet packet.is_video packet.uses_nalu_info_structs in
    rw
      (ge→ltb (length (old ++ payload))
        (v7_header_size packet.is_video packet.uses_nalu_info_structs)
        (omega (arith, h, length-append old payload)))
      (
        refl,
        sym h,
        ap v7_av_packet_parse
              (memcpy-segment [] old payload (v7_header packet) 0 refl (header ∙ sym h))
            ∙ parse-header packet packet.is_video packet.uses_nalu_info_structs payload w,
      )

-- `av_packet_parse` of a packet of video, or of one of audio that does not announce NALU infos:
-- the data is at least one byte, and `data_size` is its length.
pub av_packet_parse_fits :
    (v12 : Bool) (state state' : KeyState) (buf : List ℕ) (packet : TakionAvPacket)
    → length buf < 2 ^ 16
    → av_packet_parse v12 state buf ≡ (ok packet, state')
    → (packet.is_video ≡ true) ⊎ (packet.uses_nalu_info_structs ≡ false)
    → (packet.data_size ≡ length packet.payload) × (1 ≤ packet.data_size)
unfolding av_packet_parse
av_packet_parse_fits v12 state state' buf packet hn e kind = ground (
  arith,
  e,
  length-drop 1 buf,
  length-drop (av_consumed v12 packet.is_video packet.uses_nalu_info_structs) (drop 1 buf),
)
