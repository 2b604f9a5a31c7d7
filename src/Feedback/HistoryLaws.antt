-- ===== src/Feedback/HistoryLaws.antt =====
-- The ring of events as a list, newest first.
use Prim.Native.Nat.{min}
use mathlib.Core.List.{append-nil, append_assoc, reverse, reverse-cons}
use native.Mathlib.Nat.{mod-eq_of_lt, mod-add-mod, mod-lt, add-zero, add-mod_right}
use vitaki_vitarps.Base.{
  ℕ, zero, suc, ◌+◌, ◌-◌, ◌%◌, ◌≤◌, ◌<◌, ◌≡◌, ◌≢◌, refl, sym, ap, ap₂, ◌∙◌, Bool, List, [], ◌∷◌,
  ◌++◌, none, some, ltb, leb, if◌then◌else◌, arith, length, get_or, set, take, length-set,
  get_or-set_self, get_or-set_ne, Bool-cases, inl, inr, success, buf_too_small, ltb→ge,
}
use vitaki_vitarps.ReorderQueue.Positions.{index_injective}
use vitaki_vitarps.Feedback.Event.{Event}
use vitaki_vitarps.Feedback.History.{History, blank, push, format, format_from}

pub record IsValid (h : History) : Type 0 where
  pub array : length h.events ≡ h.size
  pub some_room : 0 < h.size
  pub begin_in : h.begin < h.size
  pub len_in : h.len ≤ h.size

-- The `n` events from the `i`-th on.
abbrev pub window : History → ℕ → ℕ → List Event
window h i zero = []
window h i (suc n) = get_or h.events ((h.begin + i) % h.size) blank ∷ window h (i + 1) n

abbrev pub contents : History → List Event
contents h = window h 0 h.len

-- The slot before `begin`, and the `i + 1`-th from there on.
back_step : (b n i : ℕ) → b < n → i < n → ((b + n - 1) % n + (i + 1)) % n ≡ (b + i) % n
back_step b n i hb hi =
    mod-add-mod (b + n - 1) n (i + 1) ∙ ap (λ k. k % n) (omega arith) ∙ add-mod_right (b + i) n

index_ne : (b n i : ℕ) → b < n → i + 1 < n → b ≢ (b + (i + 1)) % n
index_ne b n i hb hi e =
    let same : (b + 0) % n ≡ (b + (i + 1)) % n =
      ap (λ k. k % n) (add-zero b) ∙ mod-eq_of_lt hb ∙ e in
    absurd (omega (arith, index_injective n b 0 (i + 1) (omega arith) hi same))

at-push :
    (h : History) (e : Event) (i : ℕ)
    → IsValid h
    → i + 1 < h.size
    → get_or (push h e).events (((push h e).begin + (i + 1)) % h.size) blank
      ≡ get_or h.events ((h.begin + i) % h.size) blank
unfolding push
at-push h e i v hi =
    let b = (h.begin + h.size - 1) % h.size in
    get_or-set_ne h.events b ((b + (i + 1)) % h.size) e blank
      (index_ne b h.size i (mod-lt (h.begin + h.size - 1) v.some_room) hi)
    ∙ ap (λ k. get_or h.events k blank) (back_step h.begin h.size i v.begin_in (omega arith))

pub push-IsValid : (h : History) (e : Event) → IsValid h → IsValid (push h e)
unfolding push
push-IsValid h e v = record {
  array = length-set h.events _ e ∙ v.array;
  some_room = v.some_room;
  begin_in = mod-lt (h.begin + h.size - 1) v.some_room;
  len_in = ground (arith, v.len_in);
}

window-push :
    (n i : ℕ) (h : History) (e : Event)
    → IsValid h
    → i + n < h.size
    → window (push h e) (i + 1) n ≡ window h i n
unfolding push
window-push zero i h e v k = refl
window-push (suc n) i h e v k =
    ap₂ ◌∷◌ (at-push h e i v (omega arith)) (window-push n (i + 1) h e v (omega arith))

push-first :
    (h : History) (e : Event)
    → IsValid h
    → get_or (push h e).events (((push h e).begin + 0) % h.size) blank ≡ e
unfolding push
push-first h e v =
    let b = (h.begin + h.size - 1) % h.size in
    let inside = mod-lt (h.begin + h.size - 1) v.some_room in
    ap (λ k. get_or (set h.events b e) k blank)
      (ap (λ k. k % h.size) (add-zero b) ∙ mod-eq_of_lt inside)
    ∙ get_or-set_self h.events b e blank (omega (arith, v.array, inside))

take-window : (m n i : ℕ) (h : History) → take m (window h i n) ≡ window h i (min m n)
take-window zero n i h = let none_left : 0 ≡ min 0 n = omega arith in ap (window h i) none_left
take-window (suc m) zero i h =
    let none_left : 0 ≡ min (suc m) 0 = omega arith in ap (window h i) none_left
take-window (suc m) (suc n) i h =
    let both : suc (min m n) ≡ min (suc m) (suc n) = omega arith in
    ap (◌∷◌ (get_or h.events ((h.begin + i) % h.size) blank)) (take-window m n (i + 1) h)
    ∙ ap (window h i) both

len-push : (h : History) (e : Event) → IsValid h → (push h e).len ≡ suc (min (h.size - 1) h.len)
unfolding push
len-push h e v = ground (arith, v.len_in, v.some_room)

take-cons_size :
    (n : ℕ) (e : Event) (es : List Event) → 0 < n → take n (e ∷ es) ≡ e ∷ take (n - 1) es
take-cons_size zero e es h = absurd (omega arith)
take-cons_size (suc n) e es h = ap (λ k. e ∷ take k es) (omega arith)

-- Pushing puts the event first; of a full ring the last event falls out.
pub contents-push :
    (h : History) (e : Event) → IsValid h → contents (push h e) ≡ take h.size (e ∷ contents h)
unfolding push
contents-push h e v =
    ap (window (push h e) 0) (len-push h e v)
    ∙ ap₂ ◌∷◌ (push-first h e v) (
        window-push (min (h.size - 1) h.len) 0 h e v (omega (arith, v.some_room))
        ∙ sym (take-window (h.size - 1) h.len 0 h))
    ∙ sym (take-cons_size h.size e (contents h) v.some_room)

abbrev pub bytes : Event → List ℕ
bytes e = take e.len e.buf

-- The bytes of events one after another, and the sum of their lengths.
abbrev pub all_bytes : List Event → List ℕ
all_bytes [] = []
all_bytes (e ∷ es) = bytes e ++ all_bytes es

abbrev pub total : List Event → ℕ
total [] = 0
total (e ∷ es) = e.len + total es

format_from_lem :
    (h : History) (size_max n i written : ℕ) (out : List ℕ)
    → written ≤ size_max
    → format_from h size_max n i written out ≡ (
        if leb (written + total (window h i n)) size_max
        then some (out ++ all_bytes (window h i n))
        else none)
unfolding format_from
format_from_lem h size_max zero i written out fits = ground (arith, append-nil out)
format_from_lem h size_max (suc n) i written out fits =
    let e = get_or h.events ((h.begin + i) % h.size) blank in
    let ih = format_from_lem h size_max n (i + 1) (written + e.len) (out ++ bytes e) in
    elim (Bool-cases (ltb size_max (written + e.len))) [
      | inl over ↦ rw over (ground arith)
      | inr fits' ↦ rw fits' (
          ih (ltb→ge _ _ fits')
          ∙ ap₂ (λ (b : Bool) (l : List ℕ). if b then some l else none)
              (ap (λ k. leb k size_max) (omega arith))
              (append_assoc out (bytes e) (all_bytes (window h (i + 1) n))))
    ]

-- Formatting writes the bytes of all events, newest first, exactly when they fit the buffer.
pub format_lem :
    (h : History) (buf_size : ℕ)
    → format h buf_size ≡ (
        if leb (total (contents h)) buf_size
        then (success, all_bytes (contents h))
        else (buf_too_small, []))
unfolding format
format_lem h buf_size = ground (arith, format_from_lem h buf_size h.len 0 0 [])

unfoldable pub push_all : History → List Event → History
push_all h [] = h
push_all h (e ∷ es) = push_all (push h e) es

take-length_le : (n : ℕ) (ys : List Event) → length ys ≤ n → take n ys ≡ ys
take-length_le zero [] h = refl
take-length_le zero (y ∷ ys) h = absurd (omega arith)
take-length_le (suc n) [] h = refl
take-length_le (suc n) (y ∷ ys) h = ap (◌∷◌ y) (take-length_le n ys (omega arith))

length-window : (h : History) (i n : ℕ) → length (window h i n) ≡ n
length-window h i zero = refl
length-window h i (suc n) = ap suc (length-window h (i + 1) n)

take_inner : (n m : ℕ) (xs ys : List Event) → n ≤ m → take n (xs ++ take m ys) ≡ take n (xs ++ ys)
take_inner zero m xs ys h = refl
take_inner (suc n) zero xs ys h = absurd (omega arith)
take_inner (suc n) (suc m) [] [] h = refl
take_inner (suc n) (suc m) [] (y ∷ ys) h = ap (◌∷◌ y) (take_inner n m [] ys (omega arith))
take_inner (suc n) (suc m) (x ∷ xs) ys h = ap (◌∷◌ x) (take_inner n (suc m) xs ys (omega arith))

-- After any number of pushes the ring holds the latest events, newest first, as many as it has room
-- for.
pub contents-push_all :
    (es : List Event) (h : History)
    → IsValid h
    → contents (push_all h es) ≡ take h.size (reverse es ++ contents h)
unfolding push_all push
contents-push_all [] h v =
    sym (take-length_le h.size (contents h) (omega (arith, length-window h 0 h.len, v.len_in)))
contents-push_all (e ∷ es) h v =
    contents-push_all es (push h e) (push-IsValid h e v)
    ∙ ap (λ c. take h.size (reverse es ++ c)) (contents-push h e v)
    ∙ take_inner h.size h.size (reverse es) (e ∷ contents h) (omega arith)
    ∙ ap (take h.size) (
        sym (append_assoc (reverse es) (e ∷ []) (contents h))
        ∙ ap (λ r. r ++ contents h) (sym (reverse-cons e es)))
