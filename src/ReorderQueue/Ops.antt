-- ===== src/ReorderQueue/Ops.antt =====
-- The operations of reorderqueue.c other than push.
use vitaki_vitarps.Base.{
  ℕ, zero, suc, ◌+◌, ◌-◌, true, false, ◌&&◌, not, List, [], Option, none, some, ltb, leb, ◌==◌,
  if◌then◌else◌,
}
use vitaki_vitarps.ReorderQueue.Queue.{
  Queue, SeqOps, Dropped, first_set_hint_invalid, queue_size, entry, put, call_drop,
}

-- What remains of the hint when `begin` moves on by one and `count` is what is left.
abbrev pub hint_after_shift : ℕ → ℕ → ℕ
hint_after_shift count hint =
    if count == 0
    then first_set_hint_invalid
    else if hint == first_set_hint_invalid
    then hint
    else if hint == 0
    then first_set_hint_invalid
    else hint - 1

-- `entry->set = false; entry->user = NULL;`
abbrev pub clear : Queue → ℕ → Queue
clear q seq_num = put q seq_num (record { user = 0; is_set = false })

module _ (ops : SeqOps) where
  open ops use {add}

  abbrev pub advance : Queue → Queue
  advance q = record q {
    begin = add q.begin 1;
    count = q.count - 1;
    first_set_hint_index = hint_after_shift (q.count - 1) q.first_set_hint_index;
  }

  -- The result is the sequence number and user pointer pulled, `none` for `false`.
  unfoldable pub pull : Queue → Option (Queue × Option (ℕ × ℕ))
  pull q =
      let head = entry q q.begin in
      if leb q.count (queue_size q)
      then if q.count == 0
        then some (q, none)
        else if head.is_set
        then some (advance q, some (q.begin, head.user))
        else some (q, none)
      else none

  unfoldable pub peek : Queue → ℕ → Option (ℕ × ℕ)
  peek q index =
      let seq_num = add q.begin index in
      let e = entry q seq_num in
      if leb q.count index then none else if e.is_set then some (seq_num, e.user) else none

  -- The index of the first set entry from `i` on, with the rounds left.
  unfoldable pub scan : Queue → ℕ → ℕ → Option ℕ
  scan q zero i = none
  scan q (suc n) i = if (entry q (add q.begin i)).is_set then some i else scan q n (i + 1)

  abbrev pub start_index : Queue → ℕ
  start_index q =
      if not (q.first_set_hint_index == first_set_hint_invalid)
        && ltb q.first_set_hint_index q.count
      then q.first_set_hint_index
      else 0

  -- The result is the index, sequence number and user pointer found.
  unfoldable pub find_first_set : Queue → Queue × Option (ℕ × ℕ × ℕ)
  find_first_set q = elim (scan q (q.count - start_index q) (start_index q)) [
    | none ↦ (q, none)
    | some i ↦
        let seq_num = add q.begin i in
        (record q { first_set_hint_index = i }, some (i, seq_num, (entry q seq_num).user))
  ]

  -- "reduce count if necessary", on fuel: `count` rounds empty the queue.
  unfoldable pub reduce_count : ℕ → Queue → ℕ → Queue
  reduce_count zero q seq_num = q
  reduce_count (suc fuel) q seq_num =
      let q' : Queue = record q { count = q.count - 1 } in
      elim (entry q seq_num).is_set [
        | true ↦ q
        | false ↦ elim (q'.count == 0) [
          | true ↦ q'
          | false ↦ reduce_count fuel q' (add q'.begin (q'.count - 1))
        ]
      ]

  abbrev pub hint_after_drop : Queue → ℕ → ℕ
  hint_after_drop q index =
      if q.count == 0
      then first_set_hint_invalid
      else if not (q.first_set_hint_index == first_set_hint_invalid)
          && q.first_set_hint_index == index
      then elim (scan q (q.count - index) index) [ none ↦ first_set_hint_invalid | some i ↦ i ]
      else q.first_set_hint_index

  unfoldable pub drop : Queue → ℕ → Queue × List Dropped
  unfolding reduce_count
  drop q index =
      let seq_num = add q.begin index in
      let e = entry q seq_num in
      let q' : Queue = clear q seq_num in
      let r : Queue = if index == q'.count - 1 then reduce_count q'.count q' seq_num else q' in
      if leb q.count index
      then (q, [])
      else if e.is_set
      then (record r { first_set_hint_index = hint_after_drop r index }, call_drop q seq_num e.user)
      else (q, [])

  unfoldable pub skip_gap : Queue → Queue × List Dropped
  skip_gap q =
      let e = entry q q.begin in
      if q.count == 0 then (q, []) else (
        advance (if e.is_set then clear q q.begin else q),
        call_drop q q.begin (if e.is_set then e.user else 0),
      )
