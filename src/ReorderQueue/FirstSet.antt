-- ===== src/ReorderQueue/FirstSet.antt =====
-- Windows that end with an entry, and what chiaki_reorder_queue_find_first_set finds in them.
use vitaki_vitarps.Base.{
  ℕ, zero, suc, ◌+◌, ◌-◌, ◌^◌, ◌≤◌, ◌<◌, ◌≡◌, ◌≢◌, ◌⊎◌, inl, inr, refl, sym, ◌∙◌, true, false, none,
  some, arith, ltb, ◌==◌, Bool-cases, Option-cases, subst, ltb→lt, ltb→ge, List,
}
use vitaki_vitarps.SeqNum.{half_32}
use vitaki_vitarps.SeqNum.Window.{distance}
use vitaki_vitarps.ReorderQueue.Queue.{Queue, Dropped, drop_end, ops_32, entry}
use vitaki_vitarps.ReorderQueue.Positions.{add, add-distance, distance-lt}
use vitaki_vitarps.ReorderQueue.Valid.{IsValid, slot}
use vitaki_vitarps.ReorderQueue.Slots.{entry-slot}
use vitaki_vitarps.ReorderQueue.Push.{push}
use vitaki_vitarps.ReorderQueue.PushLaws.{IsPushed, push_stores, push_drops}
use vitaki_vitarps.ReorderQueue.Pull.{IsTail}
use vitaki_vitarps.ReorderQueue.Ops.{scan, start_index, find_first_set}

-- A valid queue under the strategy END whose window is empty or ends with an entry, as those of a
-- caller that only pushes, pulls and skips.
pub record IsLive (q : Queue) : Type 0 where
  pub valid : IsValid q
  pub strategy : q.drop_strategy ≡ drop_end
  pub last : (n : ℕ) → q.count ≡ suc n → slot q n ≢ none

pub IsTail-IsLive : (q r : Queue) → IsLive q → IsTail q r → IsLive r
IsTail-IsLive q r v t = record {
  valid = t.valid;
  strategy = t.drop_strategy ∙ v.strategy;
  last = λ n h e. v.last (n + 1) (omega (arith, t.count)) (sym (t.slots n) ∙ e);
}

pub IsPushed-IsLive : (q r : Queue) (d user : ℕ) → IsLive q → IsPushed q d user r → IsLive r
IsPushed-IsLive q r d user v p = record {
  valid = p.valid;
  strategy = p.same.drop_strategy ∙ v.strategy;
  last = λ n h e. ground (arith, p.count, p.slots n, v.last n);
}

slot-set :
    (q : Queue) (i : ℕ)
    → IsValid q
    → i < q.count
    → (((entry q (add q.begin i)).is_set ≡ false) × (slot q i ≡ none))
      ⊎ (((entry q (add q.begin i)).is_set ≡ true)
          × (slot q i ≡ some ((entry q (add q.begin i)).user)))
slot-set q i v h =
    let e = entry-slot q v i h in
    elim (Bool-cases (entry q (add q.begin i)).is_set) [
      | inl s ↦ inr (s, ground (arith, e))
      | inr s ↦ inl (s, ground (arith, e))
    ]

scan-finds :
    (q : Queue) (n i last : ℕ)
    → IsValid q
    → i + n ≡ q.count
    → i ≤ last
    → last < q.count
    → slot q last ≢ none
    → (j : ℕ) × (scan ops_32 q n i ≡ some j)
      × (j < q.count)
      × (slot q j ≡ some ((entry q (add q.begin j)).user))
unfolding scan
scan-finds q zero i last v hn hi hl set = absurd (omega arith)
scan-finds q (suc n) i last v hn hi hl set = elim (slot-set q i v (omega arith)) [
  | inr (s, at) ↦ (i, rw s refl, omega arith, at)
  | inl (s, at) ↦ elim (Bool-cases (i == last)) [
    | inl e ↦ absurd (set (ground arith))
    | inr e ↦ rw s (scan-finds q n (i + 1) last v (omega arith) (ground arith) hl set)
  ]
]

find-at :
    (q : Queue) (j : ℕ)
    → scan ops_32 q (q.count - start_index ops_32 q) (start_index ops_32 q) ≡ some j
    → find_first_set ops_32 q ≡ (
      record q { first_set_hint_index = j },
      some (j, add q.begin j, (entry q (add q.begin j)).user),
    )
unfolding find_first_set
find-at q j h = rw (h, find_first_set) refl

-- In a window that is not empty and ends with an entry, `find_first_set` finds one, whatever the
-- hint is.
pub find_first_set-finds :
    (q : Queue)
    → IsLive q
    → q.count ≢ 0
    → (j user : ℕ) × (find_first_set ops_32 q
        ≡ (record q { first_set_hint_index = j }, some (j, add q.begin j, user)))
      × (slot q j ≡ some user)
find_first_set-finds q v h =
    let (j, found, hj, at) =
      scan-finds q (q.count - start_index ops_32 q) (start_index ops_32 q) (q.count - 1) v.valid
        (ground arith) (ground arith) (omega arith) (v.last (q.count - 1) (omega arith)) in
    (j, (entry q (add q.begin j)).user, find-at q j found, at)

pub hint-IsLive : (q : Queue) (j : ℕ) → IsLive q → IsLive (record q { first_set_hint_index = j })
unfolding slot
hint-IsLive q j v = record {
  valid = record {
    fits = v.valid.fits;
    array = v.valid.array;
    begin_in = v.valid.begin_in;
    count_in = v.valid.count_in;
  };
  strategy = v.strategy;
  last = v.last;
}

-- What a push does to a live queue: a failed assertion, or a live queue.
pub push-IsLive :
    (q : Queue) (seq_num user : ℕ)
    → IsLive q
    → seq_num < 2 ^ 32
    → (q.count ≢ 0) ⊎ (distance half_32 q.begin seq_num ≢ half_32)
    → (r : Queue) × (calls : List Dropped) × (push ops_32 q seq_num user ≡ some (r, calls))
      × IsLive r
push-IsLive q seq_num user v hs apart =
    subst
      (λ s.
        (r : Queue) × (calls : List Dropped) × (push ops_32 q s user ≡ some (r, calls)) × IsLive r)
      (add-distance q.begin seq_num v.valid.begin_in hs)
      (at (distance half_32 q.begin seq_num) (distance-lt q.begin seq_num) apart)
  where
    at :
        (d : ℕ)
        → d < 2 ^ 32
        → (q.count ≢ 0) ⊎ (d ≢ half_32)
        → (r : Queue) × (calls : List Dropped) × (push ops_32 q (add q.begin d) user
            ≡ some (r, calls))
          × IsLive r
    at d hd apart = elim (Bool-cases (ltb d (2 ^ q.size_exp))) [
      | inl near ↦ elim (Option-cases (slot q d)) [
        | inl free ↦
            let (r, eq, w) = push_stores q d user v.valid (ltb→lt _ _ near) free in
            (r, _, eq, IsPushed-IsLive q r d user v w)
        | inr (u, old) ↦ (q, _, push_drops q d user v.valid hd v.strategy (inl (λ n. cc)), v)
      ]
      | inr far ↦ (
        q,
        _,
        push_drops q d user v.valid hd v.strategy
            (inr (ltb→ge _ _ far, elim apart [ inl a ↦ inr a | inr a ↦ inl a ])),
        v,
      )
    ]
