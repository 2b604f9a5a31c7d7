-- ===== src/Audio/Tests.antt =====
-- Two audio packets of one source and one FEC unit of two bytes each.
use vitaki_vitarps.Base.{ℕ, ◌+◌, ◌*◌, ◌≡◌, refl, true, false, none, List, [], ◌∷◌, map}
use vitaki_vitarps.Audio.Receiver.{
  AudioPacket, AudioReceiver, Sinks, av_packet, av_packets, receive_units, receive_unit,
  receive_frame, unit_frame_index, accepts,
}
use vitaki_vitarps.Audio.ReceiverLaws.{Ascends, av_packets-Ascends}
use vitaki_vitarps.SeqNum.{seq_num_gt}

abbrev packet : ℕ → List ℕ → AudioPacket
packet frame_index payload = record {
  codec = 5;
  frame_index = frame_index;
  is_haptics = false;
  units_in_frame_total = 2;
  units_in_frame_fec = 2 * 256 + 16 + 1;
  payload = payload;
}

abbrev sinks : Sinks
sinks = record { header_cb = true; audio_frame_cb = true; haptics_frame_cb = false }

abbrev receiver : AudioReceiver
receiver = record { frame_index_prev = 4; frame_index_startup = false; packet_stats = none }

-- Frame 5 is lost, and comes as the FEC unit of frame 6, too late to be taken.
abbrev packets : List AudioPacket
packets = packet 6 (60 ∷ 61 ∷ 50 ∷ 51 ∷ []) ∷ packet 7 (70 ∷ 71 ∷ 60 ∷ 61 ∷ []) ∷ []

taken_of_packets :
    map {B = ℕ × List ℕ} (λ t. (t.index, t.buf)) (av_packets sinks receiver packets).1
    ≡ (6, 60 ∷ 61 ∷ []) ∷ (7, 70 ∷ 71 ∷ []) ∷ []
unfolding av_packets av_packet accepts receive_units receive_unit receive_frame unit_frame_index
    seq_num_gt
taken_of_packets = refl

av_packets-Ascends_example :
    let (r', taken) = av_packets sinks receiver packets in
    Ascends receiver.frame_index_prev taken r'.frame_index_prev
av_packets-Ascends_example = av_packets-Ascends sinks packets receiver
