-- ===== src/Feedback/EventLaws.antt =====
-- What the console can read back from an event.
use vitaki_vitarps.Base.{
  ℕ, ◌+◌, ◌*◌, ◌/◌, ◌%◌, ◌^◌, ◌<◌, ◌≡◌, refl, Bool, List, ◌==◌, if◌then◌else◌, success, Option,
  none, some, arith, get_or, length, ◌||◌,
}
use vitaki_vitarps.Feedback.Event.{
  Button, mask, set_button, set_touchpad, cross, moon, box, pyramid, dpad_left, dpad_right, dpad_up,
  dpad_down, l1, r1, l3, r3, options, share, touchpad, ps, analog_l2, analog_r2,
}

-- The fields of a touch event, as its bytes show them.
abbrev pub touch_x : List ℕ → ℕ
touch_x buf = get_or buf 2 0 * 16 + get_or buf 3 0 / 16

abbrev pub touch_y : List ℕ → ℕ
touch_y buf = get_or buf 3 0 % 16 * 256 + get_or buf 4 0

-- From the bytes of a touch event the identifier (7 bits) and both coordinates (12 bits) come back,
-- and whether it is a touch down; the byte that the coordinates share is below 256.
pub set_touchpad_lem :
    (down : Bool) (pointer_id x y : ℕ)
    → x < 2 ^ 12
    → y < 2 ^ 12
    → let buf = (set_touchpad down pointer_id x y).buf in
      (touch_x buf ≡ x)
      × (touch_y buf ≡ y)
      × (get_or buf 1 0 ≡ pointer_id % 128)
      × (get_or buf 0 0 ≡ (if down then 0xd0 else 0xc0))
      × (get_or buf 3 0 < 256)
unfolding set_touchpad
set_touchpad_lem down pointer_id x y hx hy = ground arith

-- The button that the second byte of an event names.
unfoldable pub button_of : ℕ → Option Button
button_of c =
    if c == 0x80
    then some dpad_up
    else if c == 0x81
    then some dpad_down
    else if c == 0x82
    then some dpad_left
    else if c == 0x83
    then some dpad_right
    else if c == 0x84
    then some l1
    else if c == 0x85
    then some r1
    else if c == 0x86
    then some analog_l2
    else if c == 0x87
    then some analog_r2
    else if c == 0x88
    then some cross
    else if c == 0x89
    then some moon
    else if c == 0x8a
    then some box
    else if c == 0x8b
    then some pyramid
    else if c == 0x8c || c == 0xac
    then some options
    else if c == 0x8d || c == 0xad
    then some share
    else if c == 0x8e || c == 0xae
    then some ps
    else if c == 0x8f || c == 0xaf
    then some l3
    else if c == 0x90 || c == 0xb0
    then some r3
    else if c == 0x91 || c == 0xb1
    then some touchpad
    else none

-- An event is made for every button and every state, and its second byte names that button and no
-- other; the length is that of the bytes written.
pub set_button_lem :
    (b : Button) (state : ℕ)
    → let (e, event) = set_button (mask b) state in
      (e ≡ success) × (button_of (get_or event.buf 1 0) ≡ some b) × (length event.buf ≡ event.len)
unfolding set_button button_of
set_button_lem cross state = (refl, refl, refl)
set_button_lem l3 state = ground arith
set_button_lem b state = ground arith
