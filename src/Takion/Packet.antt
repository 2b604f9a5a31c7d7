-- ===== src/Takion/Packet.antt =====
-- The message authentication codes of datagrams. What `chiaki_gkcrypt_gmac` writes is a parameter.
use vitaki_vitarps.Base.{
  ℕ, ◌+◌, ◌-◌, ◌%◌, ◌^◌, Bool, false, not, ◌||◌, List, length, get_or, drop, ltb, ◌==◌,
  if◌then◌else◌, Option, none, some, ErrorCode, success, invalid_data, invalid_mac, buf_too_small,
  overflow, Result, fail, ok,
}
use vitaki_vitarps.Frame.Processor.{memcpy, slice, same_bytes, size_max}
use vitaki_vitarps.Takion.Bytes.{ntohl}
use vitaki_vitarps.Takion.KeyState.{KeyState, request_pos, commit}
use vitaki_vitarps.Takion.Message.{
  packet_type_control, packet_type_video, packet_type_audio, packet_type_congestion, gmac_size,
  zeros,
}

-- A `ChiakiGKCrypt`, by what it writes at `gmac_out` for a position and a buffer.
abbrev pub GkCrypt : Type 0
GkCrypt = ℕ → List ℕ → List ℕ

-- `buf[0] & TAKION_PACKET_BASE_TYPE_MASK`
abbrev pub base_type : List ℕ → ℕ
base_type buf = get_or buf 0 0 % 2 ^ 4

-- `none` is -1.
unfoldable pub packet_type_mac_offset : ℕ → Option ℕ
packet_type_mac_offset type =
    if type == packet_type_control
    then some 5
    else if type == packet_type_video || type == packet_type_audio
    then some 10
    else if type == packet_type_congestion
    then some 7
    else none

unfoldable pub packet_type_key_pos_offset : ℕ → Option ℕ
packet_type_key_pos_offset type =
    if type == packet_type_control
    then some 9
    else if type == packet_type_video || type == packet_type_audio
    then some 14
    else if type == packet_type_congestion
    then some 11
    else none

unfoldable pub packet_read_key_pos : KeyState → List ℕ → Result ℕ
unfolding packet_type_key_pos_offset
packet_read_key_pos state buf =
    if ltb (length buf) 1
    then fail buf_too_small
    else elim (packet_type_key_pos_offset (base_type buf)) [
      | none ↦ fail invalid_data
      | some key_pos_offset ↦
          if ltb (length buf) (key_pos_offset + 4)
          then fail buf_too_small
          else ok (request_pos state (ntohl (drop key_pos_offset buf)) false).0
    ]

-- The positions are blank in control and congestion packets while the code is computed.
abbrev pub is_blanked : ℕ → Bool
is_blanked type = type == packet_type_control || type == packet_type_congestion

-- From the memset of the code on: the buffer with the new code.
unfoldable pub stamp : Option GkCrypt → List ℕ → ℕ → ℕ → ℕ → List ℕ
stamp none buf key_pos mac_offset key_pos_offset = memcpy buf mac_offset zeros
stamp (some gmac) buf key_pos mac_offset key_pos_offset =
    let cleared = memcpy buf mac_offset zeros in
    let key_pos_tmp = slice cleared key_pos_offset 4 in
    let blanked = is_blanked (base_type buf) in
    let input = if blanked then memcpy cleared key_pos_offset zeros else cleared in
    let stamped = memcpy input mac_offset (gmac key_pos input) in
    if blanked then memcpy stamped key_pos_offset key_pos_tmp else stamped

-- The result is the buffer after the call, `mac_out` and `mac_old_out`.
unfoldable pub packet_mac : Option GkCrypt → List ℕ → ℕ → Result (List ℕ × List ℕ × List ℕ)
unfolding packet_type_mac_offset packet_type_key_pos_offset stamp
packet_mac crypt buf key_pos =
    if ltb (length buf) 1
    then fail buf_too_small
    else elim (packet_type_mac_offset (base_type buf)) [
      | none ↦ fail invalid_data
      | some mac_offset ↦ elim (packet_type_key_pos_offset (base_type buf)) [
        | none ↦ fail invalid_data
        | some key_pos_offset ↦
            let buf' = stamp crypt buf key_pos mac_offset key_pos_offset in
            if ltb (length buf) (mac_offset + gmac_size) || ltb (length buf) (key_pos_offset + 4)
            then fail buf_too_small
            else ok (buf', slice buf' mac_offset gmac_size, slice buf mac_offset gmac_size)
      ]
    ]

-- The result is the error code, the key state and the buffer left.
unfoldable pub handle_packet_mac :
    Option GkCrypt → KeyState → List ℕ → ErrorCode × KeyState × List ℕ
unfolding packet_read_key_pos packet_mac commit
handle_packet_mac none state buf = (success, state, buf)
handle_packet_mac (some gmac) state buf = elim (packet_read_key_pos state buf) [
  | fail err ↦ (err, state, buf)
  | ok key_pos ↦ elim (packet_mac (some gmac) buf key_pos) [
    | fail err ↦ (err, state, buf)
    | ok (buf', mac_expected, mac) ↦
        if same_bytes mac_expected mac
        then (success, commit state key_pos, buf')
        else (invalid_mac, state, buf')
  ]
]

-- `chiaki_takion_crypt_advance_key_pos`: whether there is a `gkcrypt_local`, `key_pos_local` and the
-- size; the result is the position got and `key_pos_local` afterwards.
unfoldable pub crypt_advance_key_pos : Bool → ℕ → ℕ → Result ℕ × ℕ
crypt_advance_key_pos crypt cur data_size =
    let size = (data_size + data_size % 16) % 2 ^ 64 in
    if not crypt
    then (ok 0, cur)
    else if ltb (size_max - cur) size
    then (fail overflow, cur)
    else (ok cur, cur + size)
