-- ===== src/Takion/MessageLaws.antt =====
-- Messages parsed from the bytes that were written.
use vitaki_vitarps.Base.{
  ℕ, ◌+◌, ◌%◌, ◌^◌, ◌<◌, ◌≡◌, refl, true, List, [], ◌∷◌, ◌++◌, length, ltb, if◌then◌else◌, ok,
  arith, length-drop,
}
use vitaki_vitarps.Frame.Processor.{ntohs}
use vitaki_vitarps.Takion.Bytes.{htons, htonl, ntohl, ntohl-htonl}
use vitaki_vitarps.Takion.KeyState.{KeyState, request_pos_near}
use vitaki_vitarps.Takion.Message.{TakionMessage, write_message_header, parse_message}

key_pos_low :
    (key_pos : ℕ) (rest : List ℕ) → ntohl (htonl (key_pos % 2 ^ 32) ++ rest) ≡ key_pos % 2 ^ 32
key_pos_low key_pos rest = ntohl-htonl (key_pos % 2 ^ 32) rest (omega arith)

size_field :
    (n : ℕ) (rest : List ℕ) → n + 4 < 2 ^ 16 → ntohs (htons ((n + 4) % 2 ^ 16) ++ rest) ≡ n + 4
size_field n rest h = omega arith

whole_payload : (xs : List ℕ) → (if ltb 0 (length xs) then xs else []) ≡ xs
whole_payload [] = refl
whole_payload (x ∷ xs) = ground arith

-- A message of less than 2 ^ 16 - 4 bytes of payload is parsed as it was written, when it carries
-- the local tag and its position is less than 2 ^ 31 away from the last one; the position is then
-- the last one.
pub parse_message-write :
    (tag key_pos chunk_type chunk_flags : ℕ) (payload : List ℕ) (state : KeyState)
    → tag < 2 ^ 32
    → length payload + 4 < 2 ^ 16
    → key_pos < 2 ^ 64
    → state.prev < 2 ^ 64
    → key_pos < state.prev + 2 ^ 31
    → state.prev < key_pos + 2 ^ 31
    → parse_message tag state
        (write_message_header tag key_pos chunk_type chunk_flags (length payload) ++ payload)
      ≡ (
        ok (record {
          tag = tag;
          key_pos = key_pos;
          chunk_type = chunk_type;
          chunk_flags = chunk_flags;
          payload_size = length payload;
          payload = payload;
        }),
        record { prev = key_pos },
      )
unfolding parse_message write_message_header
parse_message-write tag key_pos chunk_type chunk_flags payload state ht hn hk hp up down =
    rw
      (
        key_pos_low key_pos [],
        request_pos_near state key_pos true hk hp up down,
        ntohl-htonl tag [] ht,
        size_field (length payload) payload hn,
      )
      ground (arith, whole_payload payload)

-- Of a datagram of less than 2 ^ 16 bytes, a message is parsed only when it carries the local tag,
-- and its payload is then all that follows the header: `payload_size` bytes, which the subtraction
-- of 4 does not wrap.
pub parse_message_fits :
    (tag_local : ℕ) (state state' : KeyState) (buf : List ℕ) (msg : TakionMessage)
    → length buf < 2 ^ 16
    → parse_message tag_local state buf ≡ (ok msg, state')
    → (msg.tag ≡ tag_local)
      × (length buf ≡ 16 + msg.payload_size)
      × (length msg.payload ≡ msg.payload_size)
unfolding parse_message
parse_message_fits tag_local state state' buf msg hn e = ground (arith, e, length-drop 16 buf)
