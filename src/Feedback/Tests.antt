-- ===== src/Feedback/Tests.antt =====
-- Controller events on small inputs: a ring of two events, and a buffer of six bytes.
use vitaki_vitarps.Base.{none, ℕ, ◌≡◌, refl, some, [], ◌∷◌, ◌++◌, arith, take}
use mathlib.Core.List.{reverse}
use vitaki_vitarps.Feedback.Event.{Event}
use vitaki_vitarps.Feedback.Touch.{Touches}
use vitaki_vitarps.Feedback.History.{History, blank}
use vitaki_vitarps.Feedback.HistoryLaws.{IsValid, contents, push_all, contents-push_all}

abbrev pressed : ℕ → Event
pressed code = record { buf = 0x80 ∷ code ∷ 255 ∷ []; len = 3 }

abbrev ring : History
ring = record { events = blank ∷ pressed 0x88 ∷ []; size = 2; begin = 1; len = 1 }

ring-IsValid : IsValid ring
ring-IsValid = record {
  array = refl;
  some_room = omega arith;
  begin_in = omega arith;
  len_in = omega arith;
}

contents-push_all_example :
    contents (push_all ring (pressed 0x89 ∷ pressed 0x8a ∷ []))
    ≡ take ring.size (reverse (pressed 0x89 ∷ pressed 0x8a ∷ []) ++ contents ring)
contents-push_all_example = contents-push_all (pressed 0x89 ∷ pressed 0x8a ∷ []) ring ring-IsValid

-- One of the two touches is held, under the identifier 3.
abbrev one_held : Touches
one_held = record {
  touch_id_next = 4;
  touches = record { x = 10; y = 20; id = some 3 } ∷ record { x = 0; y = 0; id = none } ∷ [];
}
