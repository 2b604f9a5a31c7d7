-- ===== src/Takion/HandshakeLaws.antt =====
-- The handshake with a console that answers, and the assertions of the two receiving functions.
use vitaki_vitarps.Base.{
  ℕ, zero, suc, ◌+◌, ◌^◌, ◌<◌, ◌≤◌, ◌≡◌, ◌≢◌, refl, sym, ap, false, List, [], ◌∷◌, ◌++◌, length,
  take, none, some, success, Result, ok, arith, length-drop, eq→==, ge→ltb, ne→==,
}
use vitaki_vitarps.Takion.Bytes.{ntohl-htonl, ntohs-htons}
use vitaki_vitarps.Takion.KeyState.{KeyState}
use vitaki_vitarps.Takion.Message.{
  PayloadInit, init_payload, parse_message, write_message_header, packet_type_control,
  chunk_type_init_ack, chunk_type_cookie_ack, cookie_size, send_message_init, send_message_cookie,
}
use vitaki_vitarps.Takion.MessageLaws.{parse_message-write}
use vitaki_vitarps.Takion.Handshake.{
  PayloadInitAck, init_ack_of, check_init_ack, check_cookie_ack, check_cookie_message,
  recv_message_init_ack, recv_message_cookie_ack, Network, init_of, streams_differ, answer_init_ack,
  handshake,
}

take_all : (xs : List ℕ) (n : ℕ) → n ≡ length xs → take n xs ≡ xs
take_all [] zero h = refl
take_all [] (suc n) h = refl
take_all (x ∷ xs) zero h = absurd (omega arith)
take_all (x ∷ xs) (suc n) h = ap (◌∷◌ x) (take_all xs n (omega arith))

-- The fields of an init payload fit those of the message.
pub record IsWireInit (p : PayloadInit) : Type 0 where
  pub tag : p.tag < 2 ^ 32
  pub a_rwnd : p.a_rwnd < 2 ^ 32
  pub outbound_streams : p.outbound_streams < 2 ^ 16
  pub inbound_streams : p.inbound_streams < 2 ^ 16
  pub initial_seq_num : p.initial_seq_num < 2 ^ 32

init_ack_of-payload :
    (p : PayloadInit) (cookie : List ℕ)
    → IsWireInit p
    → length cookie ≡ cookie_size
    → init_ack_of (init_payload p ++ cookie) ≡ record { base = p; cookie = cookie }
init_ack_of-payload p cookie w h =
    rw
      (
        ntohl-htonl p.tag [] w.tag,
        ntohl-htonl p.a_rwnd [] w.a_rwnd,
        ntohs-htons p.outbound_streams [] w.outbound_streams,
        ntohs-htons p.inbound_streams [] w.inbound_streams,
        ntohl-htonl p.initial_seq_num [] w.initial_seq_num,
        take_all cookie 32 (sym h),
      )
      refl

-- The datagrams of a console that answers.
abbrev pub init_ack_message : ℕ → PayloadInit → List ℕ → List ℕ
init_ack_message tag p cookie =
    let payload = init_payload p ++ cookie in
    packet_type_control
    ∷ (write_message_header tag 0 chunk_type_init_ack 0 (length payload) ++ payload)

abbrev pub cookie_ack_message : ℕ → List ℕ
cookie_ack_message tag =
    packet_type_control
    ∷ (write_message_header tag 0 chunk_type_cookie_ack 0 (length {A = ℕ} []) ++ [])

checked-init_ack :
    (tag : ℕ) (p : PayloadInit) (cookie : List ℕ)
    → IsWireInit p
    → length cookie ≡ cookie_size
    → check_init_ack (record {
      tag = tag;
      key_pos = 0;
      chunk_type = chunk_type_init_ack;
      chunk_flags = 0;
      payload_size = length (init_payload p ++ cookie);
      payload = init_payload p ++ cookie;
    })
      ≡ some (ok (record { base = p; cookie = cookie }))
unfolding check_init_ack
checked-init_ack tag p cookie w h =
    rw (eq→== (length (init_payload p ++ cookie)) 48 (omega (arith, h)))
      (ap (λ a. some (ok a)) (init_ack_of-payload p cookie w h))

length_message :
    (tag chunk_type : ℕ) (payload : List ℕ)
    → length (write_message_header tag 0 chunk_type 0 (length payload) ++ payload)
      ≡ 16 + length payload
unfolding write_message_header
length_message tag chunk_type payload = omega arith

recv-init_ack :
    (tag : ℕ) (state : KeyState) (p : PayloadInit) (cookie : List ℕ)
    → tag < 2 ^ 32
    → state.prev < 2 ^ 31
    → IsWireInit p
    → length cookie ≡ cookie_size
    → recv_message_init_ack tag state (ok (init_ack_message tag p cookie))
      ≡ some (ok (record { base = p; cookie = cookie }), record { prev = 0 })
unfolding recv_message_init_ack
recv-init_ack tag state p cookie ht hs w h =
    let payload = init_payload p ++ cookie in
    let parsed =
      parse_message-write tag 0 chunk_type_init_ack 0 payload state ht (omega (arith, h))
        (omega arith) (omega arith) (omega arith) (omega arith) in
    rw
      (
        ge→ltb (length (init_ack_message tag p cookie)) 65
            (omega (arith, h, length_message tag chunk_type_init_ack payload)),
        parsed,
        checked-init_ack tag p cookie w h,
        parsed,
      )
      refl

checked-cookie_ack :
    (tag : ℕ) (state : KeyState)
    → tag < 2 ^ 32
    → state.prev < 2 ^ 31
    → check_cookie_message tag state (cookie_ack_message tag) ≡ some (success, record { prev = 0 })
unfolding check_cookie_message check_cookie_ack
checked-cookie_ack tag state ht hs =
    let parsed =
      parse_message-write tag 0 chunk_type_cookie_ack 0 [] state ht (omega arith) (omega arith)
        (omega arith) (omega arith) (omega arith) in
    rw
      (
        ge→ltb (length (cookie_ack_message tag)) 17
            (omega (arith, length_message tag chunk_type_cookie_ack [])),
        parsed,
        parsed,
      )
      refl

recv-cookie_ack :
    (tag : ℕ) (state : KeyState) (stack : List ℕ) (second : ℕ → Result (List ℕ))
    → recv_message_cookie_ack tag state stack (ok (cookie_ack_message tag)) second
      ≡ check_cookie_message tag state (cookie_ack_message tag)
unfolding recv_message_cookie_ack write_message_header
recv-cookie_ack tag state stack second = refl

answered :
    (tag : ℕ) (state : KeyState) (net : Network) (sent : List (List ℕ)) (p : PayloadInitAck)
    → tag < 2 ^ 32
    → state.prev < 2 ^ 31
    → p.base.tag ≢ 0
    → streams_differ p.base ≡ false
    → net.send_cookie ≡ success
    → net.cookie_ack ≡ ok (cookie_ack_message tag)
    → answer_init_ack tag state net sent p
      ≡ some (record {
        err = success;
        tag_remote = some p.base.tag;
        key_state = record { prev = 0 };
        sent = sent ++ (send_message_cookie p.base.tag p.cookie ∷ []);
      })
unfolding answer_init_ack
answered tag state net sent p ht hs h0 hd hc ha =
    rw
      (
        ne→== p.base.tag 0 h0,
        hd,
        hc,
        ha,
        recv-cookie_ack tag state net.stack net.cookie_ack_2,
        checked-cookie_ack tag state ht hs,
      )
      refl

-- A handshake with a console that answers the init with its own tag, streams within the limits and
-- a cookie, and the cookie with an acknowledgement, succeeds when both sends do: the console's tag
-- is the remote tag, and what is sent is the init and then the cookie under that tag.
pub handshake_completes :
    (tag seq_num a_rwnd : ℕ) (state : KeyState) (net : Network) (p : PayloadInit) (cookie : List ℕ)
    → tag < 2 ^ 32
    → state.prev < 2 ^ 31
    → IsWireInit p
    → length cookie ≡ cookie_size
    → p.tag ≢ 0
    → streams_differ p ≡ false
    → net.send_init ≡ success
    → net.init_ack ≡ ok (init_ack_message tag p cookie)
    → net.send_cookie ≡ success
    → net.cookie_ack ≡ ok (cookie_ack_message tag)
    → handshake tag seq_num a_rwnd state net
      ≡ some (record {
        err = success;
        tag_remote = some p.tag;
        key_state = record { prev = 0 };
        sent =
            send_message_init 0 (init_of tag seq_num a_rwnd)
            ∷ send_message_cookie p.tag cookie
            ∷ [];
      })
unfolding handshake
handshake_completes tag seq_num a_rwnd state net p cookie ht hs w h h0 hd hi hm hc ha =
    rw (hi, hm, recv-init_ack tag state p cookie ht hs w h, handshake)
      (answered tag (record { prev = 0 }) net
        (send_message_init 0 (init_of tag seq_num a_rwnd) ∷ [])
        (record { base = p; cookie = cookie }) ht (omega arith) h0 hd hc ha)

-- The assertions on the sizes of the two acks never fail: a datagram has at most the bytes of the
-- buffer, 65 for the init ack and 17 for the cookie ack.
pub recv_acks_assert :
    (tag : ℕ) (state : KeyState) (init_ack cookie_ack : List ℕ)
    → length init_ack ≤ 65
    → length cookie_ack ≤ 17
    → (recv_message_init_ack tag state (ok init_ack) ≢ none)
      × (check_cookie_message tag state cookie_ack ≢ none)
unfolding recv_message_init_ack check_init_ack parse_message check_cookie_message check_cookie_ack
recv_acks_assert tag state init_ack cookie_ack hi hc = (
  λ e. ground (arith, e, length-drop 1 init_ack),
  λ e. ground (arith, e, length-drop 1 cookie_ack),
)
