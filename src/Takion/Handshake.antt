-- ===== src/Takion/Handshake.antt =====
-- takion_handshake: what is sent and what is expected before the stream. What `takion_recv` gives is
-- an argument: an error, or the datagram, cut to the size of the buffer.
use vitaki_vitarps.Base.{
  ℕ, ◌+◌, Bool, not, ◌||◌, List, [], ◌∷◌, ◌++◌, length, get_or, drop, take, ltb, ◌==◌,
  if◌then◌else◌, Option, none, some, ErrorCode, success, invalid_response, is_success, Result, fail,
  ok,
}
use vitaki_vitarps.Frame.Processor.{ntohs, memcpy}
use vitaki_vitarps.Takion.Bytes.{ntohl}
use vitaki_vitarps.Takion.KeyState.{KeyState}
use vitaki_vitarps.Takion.Message.{
  TakionMessage, PayloadInit, parse_message, packet_type_control, chunk_type_init_ack,
  chunk_type_cookie_ack, cookie_size, send_message_init, send_message_cookie,
}

-- `TakionMessagePayloadInitAck`.
pub record PayloadInitAck : Type 0 where
  pub base : PayloadInit
  pub cookie : List ℕ

abbrev pub init_ack_of : List ℕ → PayloadInitAck
init_ack_of pl = record {
  base = record {
    tag = ntohl pl;
    a_rwnd = ntohl (drop 4 pl);
    outbound_streams = ntohs (drop 8 pl);
    inbound_streams = ntohs (drop 10 pl);
    initial_seq_num = ntohl (drop 12 pl);
  };
  cookie = take cookie_size (drop 16 pl);
}

-- From the check of the parsed message on; `none` is a failed assertion.
unfoldable pub check_init_ack : TakionMessage → Option (Result PayloadInitAck)
check_init_ack msg =
    if not (msg.chunk_type == chunk_type_init_ack) || not (msg.chunk_flags == 0)
    then some (fail invalid_response)
    else if msg.payload_size == 16 + cookie_size
    then some (ok (init_ack_of msg.payload))
    else none

-- The buffer has 65 bytes.
unfoldable pub recv_message_init_ack :
    ℕ → KeyState → Result (List ℕ) → Option (Result PayloadInitAck × KeyState)
unfolding check_init_ack
recv_message_init_ack tag_local state (fail err) = some (fail err, state)
recv_message_init_ack tag_local state (ok message) =
    let r = parse_message tag_local state (drop 1 message) in
    if ltb (length message) 65
    then some (fail invalid_response, state)
    else if not (get_or message 0 0 == packet_type_control)
    then some (fail invalid_response, state)
    else elim r.0 [
      | fail _ ↦ some (fail invalid_response, r.1)
      | ok msg ↦ elim (check_init_ack msg) [ none ↦ none | some payload ↦ some (payload, r.1) ]
    ]

-- From the check of the parsed message on; `none` is a failed assertion.
unfoldable pub check_cookie_ack : TakionMessage → Option ErrorCode
check_cookie_ack msg =
    if not (msg.chunk_type == chunk_type_cookie_ack) || not (msg.chunk_flags == 0)
    then some invalid_response
    else if msg.payload_size == 0
    then some success
    else none

-- From the check of the size received on.
unfoldable pub check_cookie_message : ℕ → KeyState → List ℕ → Option (ErrorCode × KeyState)
unfolding check_cookie_ack
check_cookie_message tag_local state message =
    let r = parse_message tag_local state (drop 1 message) in
    if ltb (length message) 17
    then some (invalid_response, state)
    else if not (get_or message 0 0 == packet_type_control)
    then some (invalid_response, state)
    else elim r.0 [
      | fail _ ↦ some (invalid_response, r.1)
      | ok msg ↦ elim (check_cookie_ack msg) [ none ↦ none | some err ↦ some (err, r.1) ]
    ]

-- The buffer has 17 bytes, `stack` before the call; the second datagram is read after a repeated
-- init ack, cut to the size of the first one. The type is read before the size is checked.
unfoldable pub recv_message_cookie_ack :
    ℕ → KeyState → List ℕ → Result (List ℕ) → (ℕ → Result (List ℕ)) → Option (ErrorCode × KeyState)
unfolding check_cookie_message
recv_message_cookie_ack tag_local state stack (fail err) second = some (err, state)
recv_message_cookie_ack tag_local state stack (ok message) second =
    if get_or (memcpy stack 0 message) 13 0 == chunk_type_init_ack
    then elim (second (length message)) [
      | fail err ↦ some (err, state)
      | ok message' ↦ check_cookie_message tag_local state message'
    ]
    else check_cookie_message tag_local state message

-- What the network and the platform do during a handshake: the results of the two sends, the
-- datagrams received, the bytes of the last buffer before it is written.
pub record Network : Type 0 where
  pub send_init : ErrorCode
  pub init_ack : Result (List ℕ)
  pub send_cookie : ErrorCode
  pub stack : List ℕ
  pub cookie_ack : Result (List ℕ)
  pub cookie_ack_2 : ℕ → Result (List ℕ)

abbrev pub streams : ℕ
streams = 100

abbrev pub init_of : ℕ → ℕ → ℕ → PayloadInit
init_of tag_local seq_num_local a_rwnd = record {
  tag = tag_local;
  a_rwnd = a_rwnd;
  outbound_streams = streams;
  inbound_streams = streams;
  initial_seq_num = seq_num_local;
}

-- The check of the streams that the console offers fails.
abbrev pub streams_differ : PayloadInit → Bool
streams_differ p =
    p.outbound_streams == 0
    || p.inbound_streams == 0
    || ltb streams p.outbound_streams
    || ltb p.inbound_streams streams

-- What a handshake gives: the error code, `tag_remote` if it was set, the key state, and the
-- datagrams handed to the socket.
pub record Handshake : Type 0 where
  pub err : ErrorCode
  pub tag_remote : Option ℕ
  pub key_state : KeyState
  pub sent : List (List ℕ)

-- From the init ack on.
unfoldable pub answer_init_ack :
    ℕ → KeyState → Network → List (List ℕ) → PayloadInitAck → Option Handshake
unfolding recv_message_cookie_ack
answer_init_ack tag_local state net sent p =
    let tag = p.base.tag in
    let sent' = sent ++ (send_message_cookie tag p.cookie ∷ []) in
    if tag == 0
    then some (record { err = invalid_response; tag_remote = none; key_state = state; sent = sent })
    else if streams_differ p.base
    then some
        (record { err = invalid_response; tag_remote = some tag; key_state = state; sent = sent })
    else if not (is_success net.send_cookie)
    then some
        (record { err = net.send_cookie; tag_remote = some tag; key_state = state; sent = sent' })
    else elim (recv_message_cookie_ack tag_local state net.stack net.cookie_ack net.cookie_ack_2) [
      | none ↦ none
      | some (err, state') ↦
          some (record { err = err; tag_remote = some tag; key_state = state'; sent = sent' })
    ]

-- On success `*seq_num_remote_initial` is the remote tag.
unfoldable pub handshake : ℕ → ℕ → ℕ → KeyState → Network → Option Handshake
unfolding recv_message_init_ack answer_init_ack
handshake tag_local seq_num_local a_rwnd state net =
    let sent = send_message_init 0 (init_of tag_local seq_num_local a_rwnd) ∷ [] in
    if not (is_success net.send_init)
    then some (record { err = net.send_init; tag_remote = none; key_state = state; sent = sent })
    else elim (recv_message_init_ack tag_local state net.init_ack) [
      | none ↦ none
      | some (fail err, state') ↦
          some (record { err = err; tag_remote = none; key_state = state'; sent = sent })
      | some (ok payload, state') ↦ answer_init_ack tag_local state' net sent payload
    ]
