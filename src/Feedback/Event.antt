-- ===== src/Feedback/Event.antt =====
-- The events of lib/src/feedback.c, and the button codes of lib/include/chiaki/controller.h.
use vitaki_vitarps.Base.{
  ℕ, ◌+◌, ◌*◌, ◌/◌, ◌%◌, ◌^◌, Bool, List, [], ◌∷◌, ◌==◌, if◌then◌else◌, ErrorCode, success,
  invalid_data, Option, none, some,
}

-- `buf` holds the `len` bytes that are set.
pub record Event : Type 0 where
  pub buf : List ℕ
  pub len : ℕ

-- The bits of ChiakiControllerButton and ChiakiControllerAnalogButton, by their number.
pub data Button : Type 0 where
  cross moon box pyramid dpad_left dpad_right dpad_up dpad_down : Button
  l1 r1 l3 r3 options share touchpad ps analog_l2 analog_r2 : Button

abbrev pub mask : Button → ℕ
mask cross = 2 ^ 0
mask moon = 2 ^ 1
mask box = 2 ^ 2
mask pyramid = 2 ^ 3
mask dpad_left = 2 ^ 4
mask dpad_right = 2 ^ 5
mask dpad_up = 2 ^ 6
mask dpad_down = 2 ^ 7
mask l1 = 2 ^ 8
mask r1 = 2 ^ 9
mask l3 = 2 ^ 10
mask r3 = 2 ^ 11
mask options = 2 ^ 12
mask share = 2 ^ 13
mask touchpad = 2 ^ 14
mask ps = 2 ^ 15
mask analog_l2 = 2 ^ 16
mask analog_r2 = 2 ^ 17

-- What the `switch` does with a button: a code followed by a byte for the state, or a code that
-- depends on whether the state is zero.
pub data Code : Type 0 where
  with_state : ℕ → Code
  up_down : ℕ → ℕ → Code

-- The cases of the `switch`, in its order; `none` is its default.
unfoldable pub button_code : ℕ → Option Code
button_code b =
    if b == mask cross
    then some (with_state 0x88)
    else if b == mask moon
    then some (with_state 0x89)
    else if b == mask box
    then some (with_state 0x8a)
    else if b == mask pyramid
    then some (with_state 0x8b)
    else if b == mask dpad_left
    then some (with_state 0x82)
    else if b == mask dpad_right
    then some (with_state 0x83)
    else if b == mask dpad_up
    then some (with_state 0x80)
    else if b == mask dpad_down
    then some (with_state 0x81)
    else if b == mask l1
    then some (with_state 0x84)
    else if b == mask r1
    then some (with_state 0x85)
    else if b == mask analog_l2
    then some (with_state 0x86)
    else if b == mask analog_r2
    then some (with_state 0x87)
    else if b == mask l3
    then some (up_down 0x8f 0xaf)
    else if b == mask r3
    then some (up_down 0x90 0xb0)
    else if b == mask options
    then some (up_down 0x8c 0xac)
    else if b == mask share
    then some (up_down 0x8d 0xad)
    else if b == mask touchpad
    then some (up_down 0x91 0xb1)
    else if b == mask ps
    then some (up_down 0x8e 0xae)
    else none

-- On the default the event has its first byte and the length 2.
unfoldable pub set_button : ℕ → ℕ → ErrorCode × Event
unfolding button_code
set_button button state = elim (button_code button) [
  | none ↦ (invalid_data, record { buf = 0x80 ∷ []; len = 2 })
  | some (with_state code) ↦ (success, record { buf = 0x80 ∷ code ∷ state ∷ []; len = 3 })
  | some (up_down up down) ↦
      (success, record { buf = 0x80 ∷ (if state == 0 then up else down) ∷ []; len = 2 })
]

-- `uint8_t` shifts and masks; the two halves of byte 3 have no bit in common.
unfoldable pub set_touchpad : Bool → ℕ → ℕ → ℕ → Event
set_touchpad down pointer_id x y = record {
  buf =
      (if down then 0xd0 else 0xc0)
      ∷ (pointer_id % 128)
      ∷ (x / 2 ^ 4 % 256)
      ∷ ((x % 16 * 2 ^ 4 + y / 2 ^ 8 % 256) % 256)
      ∷ (y % 256)
      ∷ [];
  len = 5;
}
