-- ===== src/ReorderQueue/PushBranches.antt =====
-- Which branch of chiaki_reorder_queue_push a number takes, by the place of the window that it is.
use vitaki_vitarps.Base.{
  ℕ, ◌^◌, ◌≤◌, ◌<◌, ◌≡◌, ◌≢◌, ◌⊎◌, sym, ap, ◌∙◌, none, some, arith, ◌==◌, ◌||◌,
}
use vitaki_vitarps.SeqNum.{seq_num_lt, half_32}
use vitaki_vitarps.ReorderQueue.Queue.{Queue, ops_32, call_drop, ge}
use vitaki_vitarps.ReorderQueue.Positions.{add, lt, lt-add, ge-add, add-zero_place}
use vitaki_vitarps.ReorderQueue.Valid.{IsValid}
use vitaki_vitarps.ReorderQueue.Push.{push, push_inside, push_beyond}

module _ (q : Queue) (v : IsValid q) (d : ℕ) (hd : d < 2 ^ 32) where
  first : add q.begin 0 ≡ q.begin
  first = add-zero_place q.begin v.begin_in

  ge_begin : ge ops_32 (add q.begin d) q.begin ≡ (d == 0 || seq_num_lt half_32 0 d)
  ge_begin = ap (ge ops_32 (add q.begin d)) (sym first) ∙ ge-add q.begin d 0 hd (omega arith)

  lt_begin : lt (add q.begin d) q.begin ≡ seq_num_lt half_32 d 0
  lt_begin = ap (lt (add q.begin d)) (sym first) ∙ lt-add q.begin d 0 hd (omega arith)

  count_small : q.count < half_32
  count_small = omega (arith, v.fits.below_half, v.count_in)

  lt_end : lt (add q.begin d) (add q.begin q.count) ≡ seq_num_lt half_32 d q.count
  lt_end = lt-add q.begin d q.count hd (omega (arith, count_small))

  ge_end :
      ge ops_32 (add q.begin d) (add q.begin q.count)
      ≡ (d == q.count || seq_num_lt half_32 q.count d)
  ge_end = ge-add q.begin d q.count hd (omega (arith, count_small))

  module _ (user : ℕ) where
    pub push-behind :
        half_32 < d
        → push ops_32 q (add q.begin d) user ≡ some (q, call_drop q (add q.begin d) user)
    unfolding push seq_num_lt
    push-behind h = rw (ge_begin, lt_begin, lt_end, push) (ground (arith, count_small, v.count_in))

    pub push-inside :
        d < q.count
        → push ops_32 q (add q.begin d) user ≡ some (push_inside ops_32 q (add q.begin d) user)
    unfolding push seq_num_lt
    push-inside h = rw (ge_begin, lt_end, push) (ground (arith, count_small, v.count_in))

    pub push-fails : d ≡ half_32 → q.count ≡ 0 → push ops_32 q (add q.begin d) user ≡ none
    unfolding push seq_num_lt
    push-fails h k =
        rw (ge_begin, lt_begin, lt_end, ge_end, push) (ground (arith, count_small, v.count_in))

    pub push-beyond :
        q.count ≤ d
        → d ≤ half_32
        → (d ≢ half_32) ⊎ (q.count ≢ 0)
        → push ops_32 q (add q.begin d) user
          ≡ push_beyond ops_32 q (add q.begin d) user (add q.begin q.count)
    unfolding push seq_num_lt
    push-beyond lo hi apart =
        rw (ge_begin, lt_begin, lt_end, ge_end, push) (ground (arith, count_small, v.count_in))
