-- ===== src/Takion/StreamTests.antt =====
-- The data channel and the handshake of Takion on small inputs, and the witnesses of their
-- properties.
use vitaki_vitarps.Base.{
  ◌⊎◌, ◌++◌, ℕ, fail, ◌-◌, ◌%◌, ◌^◌, ◌≡◌, ◌≢◌, ◌≤◌, inl, true, false, refl, sym, subst, none, some,
  Option, List, [], ◌∷◌, arith, length, success, replicate, ok, canceled,
}
use vitaki_vitarps.SeqNum.{seq_num_lt}
use vitaki_vitarps.ReorderQueue.Queue.{Queue, blank, drop_end}
use vitaki_vitarps.ReorderQueue.Push.{push, push_inside}
use vitaki_vitarps.ReorderQueue.Ops.{pull}
use vitaki_vitarps.ReorderQueue.Positions.{Fits-pow}
use vitaki_vitarps.ReorderQueue.Valid.{slot}
use vitaki_vitarps.ReorderQueue.FirstSet.{IsLive}
use vitaki_vitarps.SendBuffer.Buffer
use vitaki_vitarps.SendBuffer.Buffer.{Buffer}
use vitaki_vitarps.SendBuffer.Ack
use vitaki_vitarps.Takion.Bytes.{htonl}
use vitaki_vitarps.Takion.KeyState.{KeyState}
use vitaki_vitarps.Takion.Message.{
  PayloadInit, write_message_header, send_message_init, send_message_cookie, zeros,
}
use vitaki_vitarps.Takion.Packet.{GkCrypt, packet_type_mac_offset}
use vitaki_vitarps.Takion.PacketLaws.{Datagram, bytes_of, IsLaidOut}
use vitaki_vitarps.Takion.AvPacket.{v9_av_packet_parse}
use vitaki_vitarps.Takion.Jitter.{JitterStats, log_jitter_summary}
use vitaki_vitarps.Takion.DataQueue.{
  Takion, Effect, event_data, free_entry, send_data_ack, free_buf, flush_data_queue,
  handle_packet_message_data, handle_packet_message_data_ack,
}
use vitaki_vitarps.Takion.FlushLaws.{IsSettled, flush_data_queue_ends}
use vitaki_vitarps.Takion.DataLaws.{
  handle_packet_message_data_ends, handle_packet_message_data_ack_fits, send_buffer_size,
}
use vitaki_vitarps.Takion.Handle.{Connection, Platform, handle_packet}
use vitaki_vitarps.Takion.HandleLaws.{
  handle_packet_refuses, handle_packet_postpones, postponed, HasRoom, IsFull,
}
use vitaki_vitarps.Takion.Handshake.{
  Network, init_of, recv_message_init_ack, check_cookie_message, handshake,
}
use vitaki_vitarps.Takion.HandshakeLaws.{
  IsWireInit, init_ack_message, cookie_ack_message, handshake_completes, recv_acks_assert,
}

-- Two places in use, of which the first is missing.
abbrev waiting : Queue
waiting = record {
  size_exp = 2;
  queue = blank ∷ record { user = 1; is_set = true } ∷ blank ∷ blank ∷ [];
  begin = 0;
  count = 2;
  drop_strategy = drop_end;
  drop_cb = true;
  drop_cb_user = 7;
  first_set_hint_index = 2 ^ 64 - 1;
}

second_there : slot waiting 1 ≡ some 1
unfolding slot
second_there = refl

waiting-IsLive : IsLive waiting
waiting-IsLive = record {
  valid = record {
    fits = Fits-pow 2 (omega arith) (omega arith);
    array = refl;
    begin_in = omega arith;
    count_in = omega arith;
  };
  strategy = refl;
  last = λ n h e.
      let one : 1 ≡ n = omega (arith, h) in
      let gone : slot waiting 1 ≡ none = subst (λ k. slot waiting k ≡ none) (sym one) e in
      absurd (ground (arith, gone, second_there));
}

abbrev calm : JitterStats
calm = record {
  jitter_us = 40;
  cadence_jitter_us = 0;
  last_packet_arrival_us = 1000;
  last_inter_arrival_us = 90;
  last_log_ms = 0;
  gaps_skipped = 0;
  last_skipped_seq_num = 0;
  last_head_gap_age_us = 0;
  last_first_set_offset = 0;
  queue_highwater = 0;
  drain_max_count = 0;
  drain_total_count = 0;
  drain_cycles = 0;
}

-- Number 1, of the type 0.
abbrev number_one : List ℕ
number_one = 0 ∷ 0 ∷ 0 ∷ 1 ∷ 0 ∷ 1 ∷ 0 ∷ 0 ∷ 0 ∷ 55 ∷ []

abbrev number_zero : List ℕ
number_zero = 0 ∷ 0 ∷ 0 ∷ 0 ∷ 0 ∷ 1 ∷ 0 ∷ 0 ∷ 0 ∷ 44 ∷ []

abbrev takion : Takion
takion = record {
  data_queue = waiting;
  entries =
      record {
        packet_buf = [];
        type_b = 1;
        payload = number_one;
        channel = 1;
        arrival_time_us = 1000;
      }
      ∷ [];
  jitter_stats = calm;
  recv_drop_stats = record { drops_since_log = 0; last_log_ms = 0; last_seq_num = 0 };
  cb = true;
  stream_connection = true;
}

-- A clock that stands still.
abbrev clock : ℕ → ℕ × ℕ
clock _ = (1200, 1)

-- The missing packet comes: both are handed out, and the second is acknowledged.
both_delivered :
    elim (handle_packet_message_data true 1100 1 clock 1 takion [] 1 number_zero) [
      | none ↦ []
      | some r ↦ r.1
    ]
    ≡ event_data 0 (44 ∷ [])
      ∷ free_entry 2
      ∷ event_data 0 (55 ∷ [])
      ∷ free_entry 1
      ∷ send_data_ack 1
      ∷ []
unfolding handle_packet_message_data seq_num_lt pull push_inside push
both_delivered = refl

flush_data_queue_ends_example :
    (t' : Takion) × (effects : List Effect) × (flush_data_queue clock 1 takion
      ≡ some (record t' { jitter_stats = log_jitter_summary t'.jitter_stats 1 false }, effects))
    × IsSettled clock takion t'
flush_data_queue_ends_example = flush_data_queue_ends clock 1 takion waiting-IsLive

handle_packet_message_data_ends_example :
    (t' : Takion) × (effects : List Effect) × (handle_packet_message_data true 1100 1 clock 1 takion
        [] 1 number_zero
      ≡ some (t', effects))
    × IsLive t'.data_queue
handle_packet_message_data_ends_example =
    handle_packet_message_data_ends 1100 1 clock 1 takion [] 1 number_zero waiting-IsLive
      (omega arith) (omega arith) (inl (omega arith))

-- One packet waits for its acknowledgement.
abbrev buffer : Buffer
buffer = record {
  packets =
      record { seq_num = 5; tries = 0; last_send_ms = 0; buf = 1; buf_size = 30 }
      ∷ replicate 15 Buffer.blank;
  packets_size = 16;
  packets_count = 1;
  should_stop = false;
}

buffer-IsValid : Ack.IsValid buffer
buffer-IsValid = record { array = refl; count_in = omega arith; size_small = omega arith }

-- An acknowledgement of number 5.
abbrev ack_5 : List ℕ
ack_5 = 0 ∷ 0 ∷ 0 ∷ 5 ∷ 0 ∷ 0 ∷ 0 ∷ 0 ∷ 0 ∷ 0 ∷ 0 ∷ 0 ∷ []

handle_packet_message_data_ack_fits_example :
    let (buffer', effects) = handle_packet_message_data_ack success buffer ack_5 in
    (length effects ≤ send_buffer_size)
    × Ack.IsValid buffer'
    × (buffer'.packets_size ≡ send_buffer_size)
handle_packet_message_data_ack_fits_example =
    handle_packet_message_data_ack_fits buffer ack_5 buffer-IsValid refl

abbrev gmac : GkCrypt
gmac key_pos buf = key_pos % 2 ^ 8 ∷ length buf % 2 ^ 8 ∷ 1 ∷ 2 ∷ []

abbrev connection : Option GkCrypt → Connection
connection key = record {
  channel = takion;
  send_buffer = buffer;
  tag_local = 7;
  key_state = record { prev = 100 };
  enable_crypt = true;
  gkcrypt_remote = key;
  postponed_packets = none;
  parse_av = v9_av_packet_parse;
}

abbrev platform : Platform
platform = record {
  malloc_ok = true;
  lock = success;
  now_us = 1100;
  drop_ms = 1;
  clock = clock;
  end_ms = 1;
}

-- A control packet with a wrong code.
abbrev control : Datagram
control = record {
  type = 0;
  front = 0 ∷ 0 ∷ 0 ∷ 7 ∷ [];
  code = zeros;
  pos = htonl (117 % 2 ^ 32);
  rest = 9 ∷ 8 ∷ [];
}

control-IsLaidOut : IsLaidOut control
unfolding packet_type_mac_offset
control-IsLaidOut = record { at = refl; code = refl; pos = refl }

handle_packet_refuses_example :
    handle_packet platform (connection (some gmac)) (bytes_of control)
    ≡ some (connection (some gmac), free_buf ∷ [])
handle_packet_refuses_example =
    handle_packet_refuses platform (connection (some gmac)) gmac control refl control-IsLaidOut
      (λ k buf. refl) (λ e. ground (arith, e))

handle_packet_postpones_example :
    (packets : Option (List (List ℕ))) × (handle_packet platform (connection none) (2 ∷ 9 ∷ [])
      ≡ some (record (connection none) { postponed_packets = packets }, []))
    × ((HasRoom platform.malloc_ok none × (packets ≡ some (postponed none ++ ((2 ∷ 9 ∷ []) ∷ []))))
        ⊎ (IsFull platform.malloc_ok none × (packets ≡ none)))
    × (length (postponed packets) ≤ 32)
handle_packet_postpones_example =
    handle_packet_postpones platform (connection none) (2 ∷ 9 ∷ []) (omega arith) refl refl
      (inl refl) (omega arith)

abbrev console : PayloadInit
console = record {
  tag = 9;
  a_rwnd = 1000;
  outbound_streams = 100;
  inbound_streams = 100;
  initial_seq_num = 9;
}

console-IsWireInit : IsWireInit console
console-IsWireInit = record {
  tag = omega arith;
  a_rwnd = omega arith;
  outbound_streams = omega arith;
  inbound_streams = omega arith;
  initial_seq_num = omega arith;
}

abbrev start : KeyState
start = record { prev = 0 }

abbrev network : Network
network = record {
  send_init = success;
  init_ack = ok (init_ack_message 7 console (replicate 32 3));
  send_cookie = success;
  stack = [];
  cookie_ack = ok (cookie_ack_message 7);
  cookie_ack_2 = λ _. fail canceled;
}

handshake_completes_example :
    handshake 7 1 524288 start network
    ≡ some (record {
      err = success;
      tag_remote = some 9;
      key_state = record { prev = 0 };
      sent = send_message_init 0 (init_of 7 1 524288) ∷ send_message_cookie 9 (replicate 32 3) ∷ [];
    })
handshake_completes_example =
    handshake_completes 7 1 524288 start network console (replicate 32 3) (omega arith)
      (omega arith) console-IsWireInit refl (omega arith) refl refl refl refl refl

recv_acks_assert_example :
    (recv_message_init_ack 7 start (ok (init_ack_message 7 console (replicate 32 3))) ≢ none)
    × (check_cookie_message 7 start (replicate 17 0) ≢ none)
unfolding write_message_header
recv_acks_assert_example =
    recv_acks_assert 7 start (init_ack_message 7 console (replicate 32 3)) (replicate 17 0)
      (omega arith) (omega arith)
