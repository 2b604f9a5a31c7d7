-- ===== src/ReorderQueue/Tests.antt =====
-- The queue of 32 bit numbers on small inputs: four places, from the number 2 ^ 32 - 1 on.
use vitaki_vitarps.Base.{
  ℕ, ◌-◌, ◌%◌, ◌^◌, ◌≡◌, ◌≢◌, inl, refl, true, none, some, List, [], ◌∷◌, arith, length, map,
  replicate, ◌++◌,
}
use vitaki_vitarps.SeqNum.{seq_num_gt, seq_num_lt}
use vitaki_vitarps.ReorderQueue.Queue.{Queue, Entry, ops_32, drop_end, call_drop, blank}
use vitaki_vitarps.ReorderQueue.Positions.{add, Fits-pow}
use vitaki_vitarps.ReorderQueue.Valid.{IsValid, slot}
use vitaki_vitarps.ReorderQueue.Push.{push, push_beyond, append, extend, store, push_inside}
use vitaki_vitarps.ReorderQueue.Ops.{pull}
use vitaki_vitarps.ReorderQueue.PushLaws.{IsPushed, push_stores, push_drops}
use vitaki_vitarps.ReorderQueue.Delivery.{push_events, occurs, all_delivered}
use vitaki_vitarps.ReorderQueue.Order.{
  Event, pushes, pulls, step, run, numbers, Each, pull_in_order,
}

abbrev first : ℕ
first = 2 ^ 32 - 1

abbrev held : ℕ → Entry
held user = record { user = user; is_set = true }

-- Three numbers wide; the second of them is missing.
abbrev window : Entry → Queue
window head = record {
  size_exp = 2;
  queue = blank ∷ held 12 ∷ blank ∷ head ∷ [];
  begin = first;
  count = 3;
  drop_strategy = drop_end;
  drop_cb = true;
  drop_cb_user = 7;
  first_set_hint_index = 0;
}

abbrev empty : Queue
empty = record {
  size_exp = 2;
  queue = blank ∷ blank ∷ blank ∷ blank ∷ [];
  begin = first;
  count = 0;
  drop_strategy = drop_end;
  drop_cb = true;
  drop_cb_user = 7;
  first_set_hint_index = 2 ^ 64 - 1;
}

window-IsValid : (head : Entry) → IsValid (window head)
window-IsValid head = record {
  fits = Fits-pow 2 (omega arith) (omega arith);
  array = refl;
  begin_in = omega arith;
  count_in = omega arith;
}

empty-IsValid : IsValid empty
empty-IsValid = record {
  fits = Fits-pow 2 (omega arith) (omega arith);
  array = refl;
  begin_in = omega arith;
  count_in = omega arith;
}

second_missing : slot (window (held 10)) 1 ≡ none
unfolding slot
second_missing = refl

third_set : slot (window (held 10)) 2 ≢ none
unfolding slot
third_set e = absurd (ground (arith, e))

nothing_held : (i u : ℕ) → slot empty i ≡ some u → add empty.begin i % 100 ≡ u
unfolding slot
nothing_held i u h = absurd (ground (arith, h))

-- Packets out of order, one twice, one too far.
abbrev history : List Event
history =
    pushes 1 1
    ∷ pulls
    ∷ pushes first 95
    ∷ pulls
    ∷ pulls
    ∷ pushes 1 1
    ∷ pushes 77 77
    ∷ pushes 0 0
    ∷ pulls
    ∷ pulls
    ∷ pulls
    ∷ []

run-history : run empty history ≡ (first, 95) ∷ (0, 0) ∷ (1, 1) ∷ []
unfolding run step push seq_num_gt seq_num_lt push_beyond append extend pull store push_inside
run-history = refl

pull_in_order_example :
    (map (λ p. p.0) (run empty history) ≡ numbers first (length (run empty history)))
    × Each (λ s u. s % 100 ≡ u) (run empty history)
pull_in_order_example =
    pull_in_order (λ s u. s % 100 ≡ u) history empty empty-IsValid refl nothing_held
      (
        omega arith,
        refl,
        (omega arith, refl, (omega arith, refl, (omega arith, refl, (omega arith, refl, tt)))),
      )

push_stores_example :
    (r : Queue) × (push ops_32 (window (held 10)) (add first 1) 11 ≡ some (r, []))
    × IsPushed (window (held 10)) 1 11 r
push_stores_example =
    push_stores (window (held 10)) 1 11 (window-IsValid (held 10)) (omega arith) second_missing

push_drops_example :
    push ops_32 (window (held 10)) (add first 2) 13
    ≡ some (window (held 10), call_drop (window (held 10)) (add first 2) 13)
push_drops_example =
    push_drops (window (held 10)) 2 13 (window-IsValid (held 10)) (omega arith) refl (inl third_set)

-- The second number comes first, and once more after the first.
all_delivered_example :
    length
      (run empty (push_events empty.begin ((1, 21) ∷ (0, 20) ∷ (1, 22) ∷ []) ++ replicate 2 pulls))
    ≡ 2
unfolding occurs
all_delivered_example =
    all_delivered empty ((1, 21) ∷ (0, 20) ∷ (1, 22) ∷ []) 2 empty-IsValid refl
      ((omega arith, omega arith), ((omega arith, omega arith), ((omega arith, omega arith), tt)))
      (λ i h. ground arith)
