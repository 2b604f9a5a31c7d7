-- ===== src/ReorderQueue/PushLaws.antt =====
-- chiaki_reorder_queue_push against the window, by the place `d` that the number has in it.
use vitaki_vitarps.Base.{
  ℕ, ◌+◌, ◌-◌, ◌^◌, ◌≤◌, ◌<◌, ◌≡◌, ◌≢◌, ◌⊎◌, ◌↔◌, inl, inr, ap, ap₂, ◌∙◌, none, some, arith, List,
  [], if◌then◌else◌, ltb, ltb→lt, ltb→ge, ◌==◌, Bool-cases, Option-cases, ◌&&◌, subst,
}
use vitaki_vitarps.SeqNum.{seq_num_lt, half_32}
use vitaki_vitarps.SeqNum.Window.{distance}
use vitaki_vitarps.ReorderQueue.Queue.{Queue, Dropped, ops_32, queue_size, drop_end, call_drop}
use vitaki_vitarps.ReorderQueue.Positions.{add, lt, lt-add, add-add, add-distance, distance-lt}
use vitaki_vitarps.ReorderQueue.Valid.{IsValid, slot}
use vitaki_vitarps.ReorderQueue.Slots.{entry-slot}
use vitaki_vitarps.ReorderQueue.Extend.{IsSameQueue, extend-IsGrown, store-IsStored, IsStored}
use vitaki_vitarps.ReorderQueue.Push.{push, push_inside, push_beyond, extend, store, append}
use vitaki_vitarps.ReorderQueue.PushBranches.{push-inside, push-behind, push-beyond, push-fails}

-- `r` is `q` with an entry stored at place `d`, and the window grown to reach it.
pub record IsPushed (q : Queue) (d user : ℕ) (r : Queue) : Type 0 where
  pub valid : IsValid r
  pub begin : r.begin ≡ q.begin
  pub count : r.count ≡ (if ltb d q.count then q.count else d + 1)
  pub same : IsSameQueue q r
  pub slots : (j : ℕ) → slot r j ≡ (if j == d then some user else slot q j)

pub append_lem :
    (q : Queue) (d user : ℕ) (calls : List Dropped)
    → IsValid q
    → q.count ≤ d
    → d < 2 ^ q.size_exp
    → (r : Queue) × (append ops_32 q (add q.begin d) user calls ≡ some (r, calls))
      × IsPushed q d user r
unfolding append
append_lem q d user calls v lo hi =
    let (g, eq, grown) =
      extend-IsGrown (2 ^ q.size_exp + 1) q (d + 1) v (omega arith) (omega arith) (omega arith) in
    let eq' : extend ops_32 (queue_size q + 1) q (add (add q.begin d) 1) ≡ some g =
      ap (extend ops_32 (queue_size q + 1) q) (add-add q.begin d 1) ∙ eq in
    let st =
      subst (λ k. IsStored g d user (store ops_32 g (add k d) user)) grown.begin
        (store-IsStored g d user grown.valid (omega (arith, grown.count))) in
    (
      store ops_32 g (add q.begin d) user,
      rw (eq', append),
      record {
        valid = st.valid;
        begin = st.begin ∙ grown.begin;
        count = st.count ∙ grown.count ∙ ground arith;
        same = record {
          size_exp = st.same.size_exp ∙ grown.same.size_exp;
          drop_strategy = st.same.drop_strategy ∙ grown.same.drop_strategy;
          drop_cb = st.same.drop_cb ∙ grown.same.drop_cb;
          drop_cb_user = st.same.drop_cb_user ∙ grown.same.drop_cb_user;
        };
        slots = λ j. st.slots j ∙ ap (λ s. if j == d then some user else s) (grown.slots j);
      },
    )

push_inside_lem :
    (q : Queue) (d user : ℕ)
    → IsValid q
    → d < q.count
    → slot q d ≡ none
    → (r : Queue) × (push_inside ops_32 q (add q.begin d) user ≡ (r, [])) × IsPushed q d user r
unfolding push_inside
push_inside_lem q d user v h free =
    let st = store-IsStored q d user v h in
    (
      store ops_32 q (add q.begin d) user,
      ground (arith, entry-slot q v d h),
      record {
        valid = st.valid;
        begin = st.begin;
        count = st.count ∙ ground arith;
        same = st.same;
        slots = st.slots;
      },
    )

room_test :
    (q : Queue) (d : ℕ)
    → IsValid q
    → d ≤ half_32
    → lt (add (add q.begin q.count) (2 ^ q.size_exp - q.count)) (add (add q.begin d) 1)
      ≡ ltb (2 ^ q.size_exp) (d + 1)
unfolding seq_num_lt
room_test q d v hi =
    ap₂ lt
      (add-add q.begin q.count (2 ^ q.size_exp - q.count)
        ∙ ap (add q.begin) (omega (arith, v.count_in)))
      (add-add q.begin d 1)
    ∙ lt-add q.begin (2 ^ q.size_exp) (d + 1) (omega (arith, v.fits.below_half)) (omega arith)
    ∙ ground (arith, v.fits.below_half, v.fits.two_le)

push_beyond_room :
    (q : Queue) (d user : ℕ)
    → IsValid q
    → q.count ≤ d
    → d < 2 ^ q.size_exp
    → push_beyond ops_32 q (add q.begin d) user (add q.begin q.count)
      ≡ append ops_32 q (add q.begin d) user []
unfolding push_beyond
push_beyond_room q d user v lo hi =
    rw (room_test q d v (omega (arith, v.fits.below_half)), push_beyond) (ground arith)

push_beyond_full :
    (q : Queue) (d user : ℕ)
    → IsValid q
    → 2 ^ q.size_exp ≤ d
    → d ≤ half_32
    → q.drop_strategy ≡ drop_end
    → push_beyond ops_32 q (add q.begin d) user (add q.begin q.count)
      ≡ some (q, call_drop q (add q.begin d) user)
unfolding push_beyond
push_beyond_full q d user v lo hi e = rw (room_test q d v hi, push_beyond) (ground arith)

-- A number of the next `size` ones whose place is free is stored there: the window reaches at least
-- to it, begins where it did, and keeps its other places; the callback is not called.
pub push_stores :
    (q : Queue) (d user : ℕ)
    → IsValid q
    → d < 2 ^ q.size_exp
    → slot q d ≡ none
    → (r : Queue) × (push ops_32 q (add q.begin d) user ≡ some (r, [])) × IsPushed q d user r
push_stores q d user v hi free = elim (Bool-cases (ltb d q.count)) [
  | inl e ↦
      let (r, eq, p) = push_inside_lem q d user v (ltb→lt _ _ e) free in
      (r, push-inside q v d (omega (arith, v.fits.below_half)) user (ltb→lt _ _ e) ∙ ap some eq, p)
  | inr e ↦
      let lo : q.count ≤ d = ltb→ge _ _ e in
      let (r, eq, p) = append_lem q d user [] v lo hi in
      (
        r,
        push-beyond q v d (omega (arith, v.fits.below_half)) user lo
              (omega (arith, v.fits.below_half)) (inl (omega (arith, v.fits.below_half)))
            ∙ push_beyond_room q d user v lo hi
            ∙ eq,
        p,
      )
]

push_inside_old :
    (q : Queue) (d user : ℕ)
    → IsValid q
    → d < q.count
    → slot q d ≢ none
    → push_inside ops_32 q (add q.begin d) user ≡ (q, call_drop q (add q.begin d) user)
unfolding push_inside
push_inside_old q d user v h old = ground (arith, entry-slot q v d h)

slot_in : (q : Queue) (d : ℕ) → slot q d ≢ none → d < q.count
unfolding slot
slot_in q d old = ground arith

-- Under the strategy END a number that was received before, that lies before the window, or that
-- lies beyond the next `size` ones is given to the callback, and the queue stays as it is. (The
-- number half the circle away from an empty window is left out.)
pub push_drops :
    (q : Queue) (d user : ℕ)
    → IsValid q
    → d < 2 ^ 32
    → q.drop_strategy ≡ drop_end
    → (slot q d ≢ none) ⊎ ((2 ^ q.size_exp ≤ d) × ((d ≢ half_32) ⊎ (q.count ≢ 0)))
    → push ops_32 q (add q.begin d) user ≡ some (q, call_drop q (add q.begin d) user)
push_drops q d user v hd e (inl old) =
    push-inside q v d hd user (slot_in q d old)
    ∙ ap some (push_inside_old q d user v (slot_in q d old) old)
push_drops q d user v hd e (inr (far, apart)) = elim (Bool-cases (ltb half_32 d)) [
  | inl h ↦ push-behind q v d hd user (ltb→lt _ _ h)
  | inr h ↦
      push-beyond q v d hd user (omega (arith, v.count_in)) (ltb→ge _ _ h) apart
      ∙ push_beyond_full q d user v far (ltb→ge _ _ h) e
]

push_some :
    (q : Queue) (d user : ℕ)
    → IsValid q
    → d < 2 ^ 32
    → q.drop_strategy ≡ drop_end
    → (d ≢ half_32) ⊎ (q.count ≢ 0)
    → push ops_32 q (add q.begin d) user ≢ none
push_some q d user v hd e apart = elim (Bool-cases (ltb d (2 ^ q.size_exp))) [
  | inl near ↦ elim (Option-cases (slot q d)) [
    | inl free ↦ let (r, eq, p) = push_stores q d user v (ltb→lt _ _ near) free in λ fails. cc
    | inr (u, old) ↦ let eq = push_drops q d user v hd e (inl (λ n. cc)) in λ fails. cc
  ]
  | inr far ↦ let eq = push_drops q d user v hd e (inr (ltb→ge _ _ far, apart)) in λ fails. cc
]

push_asserts_at :
    (q : Queue) (d user : ℕ)
    → IsValid q
    → d < 2 ^ 32
    → q.drop_strategy ≡ drop_end
    → (push ops_32 q (add q.begin d) user ≡ none) ↔ ((q.count ≡ 0) × (d ≡ half_32))
push_asserts_at q d user v hd e = (
  λ fails. elim (Bool-cases (d == half_32 && q.count == 0)) [
    | inl both ↦ ground arith
    | inr other ↦ absurd (push_some q d user v hd e (ground arith) fails)
  ],
  λ (k, h). push-fails q v d hd user h k,
)

-- Under the strategy END an assertion of `push` fails for one number only: the one half the circle
-- away from `begin`, on an empty window.
pub push_asserts :
    (q : Queue) (seq_num user : ℕ)
    → IsValid q
    → seq_num < 2 ^ 32
    → q.drop_strategy ≡ drop_end
    → (push ops_32 q seq_num user ≡ none)
      ↔ ((q.count ≡ 0) × (distance half_32 q.begin seq_num ≡ half_32))
push_asserts q seq_num user v h e =
    subst
      (λ s.
        (push ops_32 q s user ≡ none)
        ↔ ((q.count ≡ 0) × (distance half_32 q.begin seq_num ≡ half_32)))
      (add-distance q.begin seq_num v.begin_in h)
      (push_asserts_at q (distance half_32 q.begin seq_num) user v (distance-lt q.begin seq_num) e)
