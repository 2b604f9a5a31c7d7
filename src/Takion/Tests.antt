-- ===== src/Takion/Tests.antt =====
-- Takion on small inputs, and the witnesses of its properties.
use vitaki_vitarps.Base.{
  ℕ, fail, ◌-◌, ◌+◌, ◌%◌, ◌^◌, ◌≡◌, true, false, refl, some, List, [], ◌∷◌, ◌++◌, arith, length,
  success, replicate, ok,
}
use vitaki_vitarps.SeqNum.{seq_num_gt, seq_num_lt}
use vitaki_vitarps.Takion.Bytes.{htonl}
use vitaki_vitarps.Takion.KeyState.{KeyState, request_pos, request_pos_near}
use vitaki_vitarps.Takion.Message.{TakionMessage, write_message_header, parse_message, zeros}
use vitaki_vitarps.Takion.MessageLaws.{parse_message-write, parse_message_fits}
use vitaki_vitarps.Takion.Packet.{GkCrypt, packet_type_mac_offset, packet_mac, handle_packet_mac}
use vitaki_vitarps.Takion.PacketLaws.{
  Datagram, bytes_of, IsLaidOut, IsNear, handle_packet_mac-packet_mac,
}
use vitaki_vitarps.Takion.AvPacket.{
  TakionAvPacket, av_packet_parse, v7_av_packet_format_header, v7_av_packet_parse,
  v9_av_packet_parse,
}
use vitaki_vitarps.Takion.AvPacketLaws.{IsWire, read_back, v7_parse-format}
use vitaki_vitarps.Takion.Jitter.{JitterStats}

abbrev at_100 : KeyState
at_100 = record { prev = 100 }

request_pos_near_example :
    request_pos (record { prev = 2 ^ 32 - 1 }) ((2 ^ 32 + 5) % 2 ^ 32) true
    ≡ (2 ^ 32 + 5, record { prev = 2 ^ 32 + 5 })
request_pos_near_example =
    request_pos_near (record { prev = 2 ^ 32 - 1 }) (2 ^ 32 + 5) true (omega arith) (omega arith)
      (omega arith) (omega arith)

abbrev nine : List ℕ
nine = 0 ∷ 0 ∷ 0 ∷ 7 ∷ 0 ∷ 1 ∷ 0 ∷ 0 ∷ 0 ∷ []

parse_message-write_example :
    parse_message 5 at_100 (write_message_header 5 117 0 1 (length nine) ++ nine) ≡ (
      ok (record {
        tag = 5;
        key_pos = 117;
        chunk_type = 0;
        chunk_flags = 1;
        payload_size = length nine;
        payload = nine;
      }),
      record { prev = 117 },
    )
parse_message-write_example =
    parse_message-write 5 117 0 1 nine at_100 (omega arith) (omega arith) (omega arith)
      (omega arith) (omega arith) (omega arith)

abbrev short_buf : List ℕ
short_buf = 0 ∷ 0 ∷ 0 ∷ 7 ∷ 0 ∷ 0 ∷ 0 ∷ 0 ∷ 0 ∷ 0 ∷ 0 ∷ 100 ∷ 3 ∷ 1 ∷ 0 ∷ 6 ∷ 50 ∷ 60 ∷ []

abbrev short_message : TakionMessage
short_message = record {
  tag = 7;
  key_pos = 100;
  chunk_type = 3;
  chunk_flags = 1;
  payload_size = 2;
  payload = 50 ∷ 60 ∷ [];
}

short_parsed : parse_message 7 at_100 short_buf ≡ (ok short_message, at_100)
unfolding parse_message request_pos seq_num_gt seq_num_lt
short_parsed = refl

parse_message_fits_example :
    (short_message.tag ≡ 7)
    × (length short_buf ≡ 16 + short_message.payload_size)
    × (length short_message.payload ≡ short_message.payload_size)
parse_message_fits_example =
    parse_message_fits 7 at_100 at_100 short_buf short_message (omega arith) short_parsed

abbrev gmac : GkCrypt
gmac key_pos buf = key_pos % 2 ^ 8 ∷ length buf % 2 ^ 8 ∷ 1 ∷ 2 ∷ []

-- A control packet without a code yet.
abbrev control : Datagram
control = record {
  type = 0;
  front = 0 ∷ 0 ∷ 0 ∷ 7 ∷ [];
  code = zeros;
  pos = htonl (117 % 2 ^ 32);
  rest = 9 ∷ 8 ∷ [];
}

control-IsLaidOut : IsLaidOut control
unfolding packet_type_mac_offset
control-IsLaidOut = record { at = refl; code = refl; pos = refl }

IsNear-100 : IsNear at_100 117
IsNear-100 = record {
  pos_in = omega arith;
  prev_in = omega arith;
  up = omega arith;
  down = omega arith;
}

handle_packet_mac-packet_mac_example :
    (sent : List ℕ) × (code : List ℕ) × (packet_mac (some gmac) (bytes_of control) 117
      ≡ ok (sent, code, control.code))
    × (handle_packet_mac (some gmac) at_100 sent ≡ (success, record { prev = 117 }, sent))
handle_packet_mac-packet_mac_example =
    handle_packet_mac-packet_mac gmac at_100 control 117 control-IsLaidOut refl IsNear-100
      (λ p buf. refl)

abbrev video : TakionAvPacket
video = record {
  packet_index = 300;
  frame_index = 2;
  uses_nalu_info_structs = true;
  is_video = true;
  is_haptics = true;
  unit_index = 3;
  units_in_frame_total = 9;
  units_in_frame_fec = 2;
  codec = 6;
  word_at_0x18 = 513;
  adaptive_stream_index = 5;
  byte_at_0x2c = 1;
  key_pos = 258;
  payload = [];
  data_size = 0;
}

video-IsWire : IsWire video
video-IsWire = record {
  packet_index = omega arith;
  frame_index = omega arith;
  unit_index = omega arith;
  total_lo = omega arith;
  total_hi = omega arith;
  fec_small = omega arith;
  codec = omega arith;
  word = omega arith;
  stream = omega arith;
}

v7_parse-format_example :
    let (err, header_size, buf) =
      v7_av_packet_format_header (replicate 24 0 ++ (1 ∷ 2 ∷ [])) video in
    (err ≡ success)
    × (header_size ≡ length (replicate {A = ℕ} 24 0))
    × (v7_av_packet_parse buf ≡ ok (read_back video (1 ∷ 2 ∷ [])))
v7_parse-format_example = v7_parse-format video (replicate 24 0) (1 ∷ 2 ∷ []) video-IsWire refl

abbrev plain : TakionAvPacket
plain = record {
  packet_index = 0;
  frame_index = 0;
  uses_nalu_info_structs = false;
  is_video = true;
  is_haptics = false;
  unit_index = 0;
  units_in_frame_total = 1;
  units_in_frame_fec = 0;
  codec = 0;
  word_at_0x18 = 0;
  adaptive_stream_index = 0;
  byte_at_0x2c = 0;
  key_pos = 0;
  payload = 0 ∷ 0 ∷ 0 ∷ 0 ∷ 0 ∷ [];
  data_size = 5;
}

abbrev start : KeyState
start = record { prev = 0 }

plain_parsed : av_packet_parse false start (2 ∷ replicate 25 0) ≡ (ok plain, start)
unfolding av_packet_parse request_pos seq_num_gt seq_num_lt
plain_parsed = refl

-- A packet of audio that announces NALU infos may be one byte too short for them: `data_size` wraps.
audio_wraps :
    elim (v9_av_packet_parse start (19 ∷ replicate 19 0)).0 [
      | fail _ ↦ 0
      | ok packet ↦ packet.data_size
    ]
    ≡ 2 ^ 64 - 2
unfolding v9_av_packet_parse
audio_wraps = refl

abbrev calm : JitterStats
calm = record {
  jitter_us = 40;
  cadence_jitter_us = 0;
  last_packet_arrival_us = 1000;
  last_inter_arrival_us = 90;
  last_log_ms = 0;
  gaps_skipped = 0;
  last_skipped_seq_num = 0;
  last_head_gap_age_us = 0;
  last_first_set_offset = 0;
  queue_highwater = 0;
  drain_max_count = 0;
  drain_total_count = 0;
  drain_cycles = 0;
}
