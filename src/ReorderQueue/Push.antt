-- ===== src/ReorderQueue/Push.antt =====
-- chiaki_reorder_queue_push.
use vitaki_vitarps.Base.{
  ℕ, zero, suc, ◌+◌, ◌-◌, true, false, ◌&&◌, List, [], ◌++◌, Option, none, some, ltb, leb, ◌==◌,
  if◌then◌else◌,
}
use vitaki_vitarps.ReorderQueue.Queue.{
  Queue, drop_begin, drop_end, SeqOps, Dropped, first_set_hint_invalid, queue_size, entry, put,
  call_drop, ge, offset_for_seq,
}

module _ (ops : SeqOps) where
  open ops use {lt, add}

  -- The update of the hint after an entry is set.
  unfoldable pub hint_after : Queue → ℕ → ℕ
  hint_after q seq_num =
      if q.first_set_hint_index == first_set_hint_invalid
      then offset_for_seq ops q seq_num
      else if lt seq_num (add q.begin q.first_set_hint_index)
      then offset_for_seq ops q seq_num
      else q.first_set_hint_index

  unfoldable pub store : Queue → ℕ → ℕ → Queue
  unfolding hint_after
  store q seq_num user =
      let q' = put q seq_num (record { user = user; is_set = true }) in
      record q' { first_set_hint_index = hint_after q' seq_num }

  unfoldable pub push_inside : Queue → ℕ → ℕ → Queue × List Dropped
  unfolding store
  push_inside q seq_num user =
      if (entry q seq_num).is_set then (q, call_drop q seq_num user) else (store q seq_num user, [])

  -- `while(queue->count > 0 && lt(total_end, new_end))`, on fuel: `count` rounds empty the queue.
  unfoldable pub drop_first : ℕ → Queue → ℕ → ℕ → ℕ → Queue × List Dropped
  drop_first zero q end total_end new_end = (q, [])
  drop_first (suc fuel) q end total_end new_end = elim (ltb 0 q.count && lt total_end new_end) [
    | false ↦ (q, [])
    | true ↦
        let head = entry q q.begin in
        let q' : Queue = record q { begin = add q.begin 1; count = q.count - 1 } in
        let rest = drop_first fuel q' end (add end (queue_size q - q'.count)) new_end in
        (rest.0, (if head.is_set then call_drop q q.begin head.user else []) ++ rest.1)
  ]

  -- `while(lt(end, new_end))`: the assertion in the loop fails before `size + 1` rounds are over.
  unfoldable pub extend : ℕ → Queue → ℕ → Option Queue
  extend zero q new_end = none
  extend (suc fuel) q new_end =
      let end = add q.begin q.count in
      let q' : Queue =
        put (record q { count = q.count + 1 }) end (record (entry q end) { is_set = false }) in
      elim (lt end new_end) [
        | false ↦ some q
        | true ↦ elim (leb (q.count + 1) (queue_size q)) [
          | true ↦ extend fuel q' new_end
          | false ↦ none
        ]
      ]

  unfoldable pub append : Queue → ℕ → ℕ → List Dropped → Option (Queue × List Dropped)
  append q seq_num user calls = elim (extend (queue_size q + 1) q (add seq_num 1)) [
    | none ↦ none
    | some q' ↦ some (store q' seq_num user, calls)
  ]

  -- "drop first until empty or enough space"
  unfoldable pub make_room : Queue → ℕ → ℕ → ℕ → Queue × List Dropped
  unfolding drop_first
  make_room q seq_num end total_end =
      let r = drop_first q.count q end total_end (add seq_num 1) in
      (if r.0.count == 0 then record (r.0) { begin = seq_num } else r.0, r.1)

  unfoldable pub push_beyond : Queue → ℕ → ℕ → ℕ → Option (Queue × List Dropped)
  push_beyond q seq_num user end =
      let total_end = add end (queue_size q - q.count) in
      if lt total_end (add seq_num 1)
      then elim q.drop_strategy [
        | drop_end ↦ some (q, call_drop q seq_num user)
        | drop_begin ↦ let r = make_room q seq_num end total_end in append r.0 seq_num user r.1
      ]
      else append q seq_num user []

  unfoldable pub push : Queue → ℕ → ℕ → Option (Queue × List Dropped)
  unfolding ge
  push q seq_num user =
      let end = add q.begin q.count in
      if leb q.count (queue_size q)
      then if ge ops seq_num q.begin && lt seq_num end
        then some (push_inside q seq_num user)
        else if lt seq_num q.begin
        then some (q, call_drop q seq_num user)
        else if ge ops seq_num end
        then push_beyond q seq_num user end
        else none
      else none
