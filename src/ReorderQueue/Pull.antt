-- ===== src/ReorderQueue/Pull.antt =====
-- chiaki_reorder_queue_pull and chiaki_reorder_queue_skip_gap, against the window.
use vitaki_vitarps.Base.{
  ℕ, ◌+◌, ◌^◌, ◌≡◌, ◌≢◌, refl, ap, true, false, none, some, arith, ◌∙◌, subst, Bool-cases, ne→==,
  ◌⊎◌, inl, inr,
}
use vitaki_vitarps.ReorderQueue.Queue.{Queue, ops_32, entry, call_drop}
use vitaki_vitarps.ReorderQueue.Positions.{add, cell-advance, add-zero_place}
use vitaki_vitarps.ReorderQueue.Valid.{IsValid, slot, entry-begin}
use vitaki_vitarps.ReorderQueue.Slots.{put-IsValid, slot-put}
use vitaki_vitarps.ReorderQueue.Ops.{advance, pull, skip_gap, clear}

-- `r` is the queue without its first place.
pub record IsTail (q r : Queue) : Type 0 where
  pub valid : IsValid r
  pub begin : r.begin ≡ add q.begin 1
  pub count : r.count + 1 ≡ q.count
  pub size_exp : r.size_exp ≡ q.size_exp
  pub drop_strategy : r.drop_strategy ≡ q.drop_strategy
  pub slots : (i : ℕ) → slot r i ≡ slot q (i + 1)

advance-IsTail : (q : Queue) → IsValid q → q.count ≢ 0 → IsTail q (advance ops_32 q)
unfolding slot
advance-IsTail q v h = record {
  valid = record {
    fits = v.fits;
    array = v.array;
    begin_in = omega arith;
    count_in = ground arith;
  };
  begin = refl;
  count = omega arith;
  size_exp = refl;
  drop_strategy = refl;
  slots = λ i. ground (arith, cell-advance q.queue (2 ^ q.size_exp) q.begin i v.fits.divides);
}

-- When the first place holds an entry, `pull` returns it under the number `begin` and leaves the
-- rest of the window.
pub pull_delivers :
    (q : Queue) (u : ℕ)
    → IsValid q
    → slot q 0 ≡ some u
    → (r : Queue) × (pull ops_32 q ≡ some (r, some (q.begin, u))) × IsTail q r
unfolding pull slot
pull_delivers q u v h = (
  advance ops_32 q,
  ground (arith, entry-begin q v, v.count_in),
  advance-IsTail q v (ground arith),
)

-- When it holds none, `pull` returns `false` and changes nothing.
pub pull_waits : (q : Queue) → IsValid q → slot q 0 ≡ none → pull ops_32 q ≡ some (q, none)
unfolding pull slot
pull_waits q v h = ground (arith, entry-begin q v, v.count_in)

clear-IsTail :
    (q r : Queue)
    → IsValid r
    → r.begin ≡ q.begin
    → r.count ≡ q.count
    → r.size_exp ≡ q.size_exp
    → r.drop_strategy ≡ q.drop_strategy
    → q.count ≢ 0
    → ((i : ℕ) → slot r (i + 1) ≡ slot q (i + 1))
    → IsTail q (advance ops_32 r)
clear-IsTail q r v b c s ds h same =
    let t = advance-IsTail r v (omega arith) in
    record {
      valid = t.valid;
      begin = t.begin ∙ ap (λ k. add k 1) b;
      count = t.count ∙ c;
      size_exp = s;
      drop_strategy = ds;
      slots = λ i. t.slots i ∙ same i;
    }

cleared : (q : Queue) → IsValid q → q.count ≢ 0 → IsTail q (advance ops_32 (clear q q.begin))
cleared q v h =
    clear-IsTail q (clear q q.begin) (subst (λ k. IsValid (clear q k)) first (put-IsValid q v 0 _))
      refl refl refl refl h
      λ i.
        subst (λ k. slot (clear q k) (i + 1) ≡ slot q (i + 1)) first
          (slot-put q v 0 _ (i + 1) (omega arith) ∙ ground arith)
  where
    first : add q.begin 0 ≡ q.begin
    first = add-zero_place q.begin v.begin_in

skip_gap_cases :
    (q : Queue)
    → q.count ≢ 0
    → (((entry q q.begin).is_set ≡ true)
        × (skip_gap ops_32 q
            ≡ (advance ops_32 (clear q q.begin), call_drop q q.begin (entry q q.begin).user)))
      ⊎ (((entry q q.begin).is_set ≡ false)
          × (skip_gap ops_32 q ≡ (advance ops_32 q, call_drop q q.begin 0)))
unfolding skip_gap
skip_gap_cases q h = elim (Bool-cases (entry q q.begin).is_set) [
  | inl e ↦ inl (e, rw (e, ne→== _ _ h))
  | inr e ↦ inr (e, rw (e, ne→== _ _ h))
]

-- `skip_gap` gives the number `begin` to the callback, with the user pointer of its entry or NULL,
-- and leaves the rest of the window, whether its first place holds an entry or not.
pub skip_gap_lem :
    (q : Queue)
    → IsValid q
    → q.count ≢ 0
    → IsTail q (skip_gap ops_32 q).0
      × ((skip_gap ops_32 q).1 ≡ call_drop q q.begin (elim (slot q 0) [ none ↦ 0 | some u ↦ u ]))
unfolding slot
skip_gap_lem q v h = elim (skip_gap_cases q h) [
  | inl (e, eq) ↦ rw eq (cleared q v h, ground (arith, entry-begin q v))
  | inr (e, eq) ↦ rw eq (advance-IsTail q v h, ground (arith, entry-begin q v))
]
