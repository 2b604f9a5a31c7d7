-- ===== src/Feedback/Touch.antt =====
-- The touches of ChiakiControllerState: lib/src/controller.c. The rest of the state is left out.
use vitaki_vitarps.Base.{
  ℕ, ◌+◌, ◌%◌, ◌≡◌, refl, ap, Bool, true, false, List, [], ◌∷◌, map, ◌==◌, if◌then◌else◌, Option,
  none, some, eq→==, Bool-cases, inl, inr,
}

-- `id` is `none` for -1, a touch that is up. The others are below 128, so an `int8_t` holds them.
pub record Touch : Type 0 where
  pub x : ℕ
  pub y : ℕ
  pub id : Option ℕ

pub record Touches : Type 0 where
  pub touch_id_next : ℕ
  pub touches : List Touch

abbrev pub has_id : ℕ → Touch → Bool
has_id id t = elim t.id [ none ↦ false | some k ↦ k == id ]

abbrev pub is_up : Touch → Bool
is_up t = elim t.id [ none ↦ true | some k ↦ false ]

unfoldable pub set_idle : Touches
set_idle =
    let up : Touch = record { x = 0; y = 0; id = none } in
    record { touch_id_next = 0; touches = up ∷ up ∷ [] }

-- The loop of start_touch: whether a touch was free, and the touches left.
unfoldable pub start_in : ℕ → ℕ → ℕ → List Touch → Bool × List Touch
start_in id x y [] = (false, [])
start_in id x y (t ∷ ts) =
    let (found, rest) = start_in id x y ts in
    if is_up t then (true, record { x = x; y = y; id = some id } ∷ ts) else (found, t ∷ rest)

-- The result is the identifier, `none` for -1.
unfoldable pub start_touch : Touches → ℕ → ℕ → Option ℕ × Touches
unfolding start_in
start_touch s x y =
    let (found, touches) = start_in s.touch_id_next x y s.touches in
    if found
    then (
      some s.touch_id_next,
      record { touch_id_next = (s.touch_id_next + 1) % 128; touches = touches },
    )
    else (none, s)

unfoldable pub stop_in : ℕ → List Touch → List Touch
stop_in id [] = []
stop_in id (t ∷ ts) =
    let rest = stop_in id ts in if has_id id t then record t { id = none } ∷ ts else t ∷ rest

unfoldable pub stop_touch : Touches → ℕ → Touches
unfolding stop_in
stop_touch s id = record s { touches = stop_in id s.touches }

unfoldable pub set_pos_in : ℕ → ℕ → ℕ → List Touch → List Touch
set_pos_in id x y [] = []
set_pos_in id x y (t ∷ ts) =
    let rest = set_pos_in id x y ts in
    if has_id id t then record t { x = x; y = y } ∷ ts else t ∷ rest

unfoldable pub set_touch_pos : Touches → ℕ → ℕ → ℕ → Touches
unfolding set_pos_in
set_touch_pos s id x y = record s { touches = set_pos_in (id % 128) x y s.touches }

abbrev pub ids : List Touch → List (Option ℕ)
ids ts = map (λ t. t.id) ts

-- No touch has the identifier.
abbrev pub Unused : ℕ → List Touch → Type 0
Unused id [] = Unit {0}
Unused id (t ∷ ts) = (has_id id t ≡ false) × Unused id ts

stop-Unused : (id : ℕ) (ts : List Touch) → Unused id ts → ids (stop_in id ts) ≡ ids ts
unfolding stop_in
stop-Unused id [] u = refl
stop-Unused id (t ∷ ts) u = rw u.0 (ap (◌∷◌ t.id) (stop-Unused id ts u.1))

-- One touch of the loop, by whether it is up.
stop-start_here :
    (id x y : ℕ) (tx ty : ℕ) (held : Option ℕ) (ts : List Touch)
    → let t : Touch = record { x = tx; y = ty; id = held } in
      has_id id t ≡ false
      → ids (stop_in id (start_in id x y ts).1) ≡ ids ts
      → ids (stop_in id (start_in id x y (t ∷ ts)).1) ≡ ids (t ∷ ts)
unfolding stop_in start_in
stop-start_here id x y tx ty none ts u ih = rw (eq→== id id refl) refl
stop-start_here id x y tx ty (some k) ts u ih = rw u (ap (◌∷◌ (some k)) ih)

stop-start_in :
    (id x y : ℕ) (ts : List Touch) → Unused id ts → ids (stop_in id (start_in id x y ts).1) ≡ ids ts
unfolding stop_in start_in
stop-start_in id x y [] u = refl
stop-start_in id x y (t ∷ ts) u =
    stop-start_here id x y t.x t.y t.id ts u.0 (stop-start_in id x y ts u.1)

-- A touch that is started under an identifier that no touch has, and then stopped, leaves the
-- identifiers as they were, also when no touch was free.
pub stop-start_touch :
    (s : Touches) (x y : ℕ)
    → Unused s.touch_id_next s.touches
    → ids (stop_touch (start_touch s x y).1 s.touch_id_next).touches ≡ ids s.touches
unfolding stop_touch start_touch
stop-start_touch s x y u = elim (Bool-cases (start_in s.touch_id_next x y s.touches).0) [
  | inl e ↦ rw e (stop-start_in s.touch_id_next x y s.touches u)
  | inr e ↦ rw e (stop-Unused s.touch_id_next s.touches u)
]
