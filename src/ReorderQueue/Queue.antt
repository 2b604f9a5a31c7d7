-- ===== src/ReorderQueue/Queue.antt =====
-- `ChiakiReorderQueue`, its initialisation, and what the operations share.
use vitaki_vitarps.Base.{
  ℕ, zero, suc, ◌+◌, ◌-◌, ◌%◌, ◌^◌, Bool, false, ◌||◌, List, [], ◌∷◌, ◌++◌, ◌==◌, if◌then◌else◌,
  get_or, set, replicate, ErrorCode, success, memory,
}
use vitaki_vitarps.SeqNum.{seq_num_16_lt, seq_num_16_gt, seq_num_32_lt, seq_num_32_gt}

pub data DropStrategy : Type 0 where
  drop_begin drop_end : DropStrategy

-- `user` is a pointer; NULL is 0.
pub record Entry : Type 0 where
  pub user : ℕ
  pub is_set : Bool

pub record SeqOps : Type 0 where
  pub gt : ℕ → ℕ → Bool
  pub lt : ℕ → ℕ → Bool
  pub add : ℕ → ℕ → ℕ

-- `(uint64_t)((uint16_t)a + (uint16_t)b)` adds in `int`, and nothing cuts the sum to 16 bits.
abbrev pub ops_16 : SeqOps
ops_16 = record {
  gt = λ a b. seq_num_16_gt (a % 2 ^ 16) (b % 2 ^ 16);
  lt = λ a b. seq_num_16_lt (a % 2 ^ 16) (b % 2 ^ 16);
  add = λ a b. a % 2 ^ 16 + b % 2 ^ 16;
}

abbrev pub ops_32 : SeqOps
ops_32 = record {
  gt = λ a b. seq_num_32_gt (a % 2 ^ 32) (b % 2 ^ 32);
  lt = λ a b. seq_num_32_lt (a % 2 ^ 32) (b % 2 ^ 32);
  add = λ a b. (a % 2 ^ 32 + b % 2 ^ 32) % 2 ^ 32;
}

pub record Queue : Type 0 where
  pub size_exp : ℕ
  pub queue : List Entry
  pub begin : ℕ
  pub count : ℕ
  pub drop_strategy : DropStrategy
  -- whether `drop_cb` is set, and its argument
  pub drop_cb : Bool
  pub drop_cb_user : ℕ
  pub first_set_hint_index : ℕ

-- A call of `drop_cb`: sequence number, user pointer of the element, `drop_cb_user`.
pub record Dropped : Type 0 where
  pub seq_num : ℕ
  pub elem_user : ℕ
  pub cb_user : ℕ

-- UINT64_MAX
abbrev pub first_set_hint_invalid : ℕ
first_set_hint_invalid = 2 ^ 64 - 1

abbrev pub blank : Entry
blank = record { user = 0; is_set = false }

abbrev pub queue_size : Queue → ℕ
queue_size q = 2 ^ q.size_exp

-- `seq_num & IDX_MASK`
abbrev pub idx : Queue → ℕ → ℕ
idx q seq_num = seq_num % 2 ^ q.size_exp

abbrev pub entry : Queue → ℕ → Entry
entry q seq_num = get_or q.queue (idx q seq_num) blank

abbrev pub put : Queue → ℕ → Entry → Queue
put q seq_num e = record q { queue = set q.queue (idx q seq_num) e }

-- `if(queue->drop_cb) queue->drop_cb(seq_num, user, queue->drop_cb_user)`
abbrev pub call_drop : Queue → ℕ → ℕ → List Dropped
call_drop q seq_num user =
    if q.drop_cb
    then record { seq_num = seq_num; elem_user = user; cb_user = q.drop_cb_user } ∷ []
    else []

-- `ok` is whether `calloc` finds the memory.
unfoldable pub init : Bool → ℕ → ℕ → ErrorCode × Queue
init ok size_exp seq_num_start =
    if ok
    then (success, record fresh { queue = replicate (2 ^ size_exp) blank })
    else (memory, fresh)
  where
    fresh : Queue
    fresh = record {
      size_exp = size_exp;
      queue = [];
      begin = seq_num_start;
      count = 0;
      drop_strategy = drop_end;
      drop_cb = false;
      drop_cb_user = 0;
      first_set_hint_index = first_set_hint_invalid;
    }

unfoldable pub set_drop_strategy : Queue → DropStrategy → Queue
set_drop_strategy q drop_strategy = record q { drop_strategy = drop_strategy }

unfoldable pub set_drop_cb : Queue → Bool → ℕ → Queue
set_drop_cb q cb user = record q { drop_cb = cb; drop_cb_user = user }

module _ (ops : SeqOps) where
  unfoldable pub ge : ℕ → ℕ → Bool
  ge a b = a == b || ops.gt a b

  -- The loop of `reorder_queue_offset_for_seq`, with the rounds left.
  unfoldable pub offset_from : ℕ → ℕ → ℕ → ℕ → ℕ
  offset_from zero i cur seq_num = first_set_hint_invalid
  offset_from (suc n) i cur seq_num =
      if cur == seq_num then i else offset_from n (i + 1) (ops.add cur 1) seq_num

  unfoldable pub offset_for_seq : Queue → ℕ → ℕ
  unfolding offset_from
  offset_for_seq q seq_num = offset_from q.count 0 q.begin seq_num

  -- The loop of `chiaki_reorder_queue_fini` from index `i`, with the rounds left.
  unfoldable pub fini_from : Queue → ℕ → ℕ → List Dropped
  fini_from q zero i = []
  fini_from q (suc n) i =
      let seq_num = ops.add q.begin i in
      (if (entry q seq_num).is_set then call_drop q seq_num (entry q seq_num).user else [])
      ++ fini_from q n (i + 1)

  -- What `chiaki_reorder_queue_fini` hands to the callback.
  unfoldable pub fini : Queue → List Dropped
  unfolding fini_from
  fini q = if q.drop_cb then fini_from q q.count 0 else []
