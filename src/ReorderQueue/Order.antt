-- ===== src/ReorderQueue/Order.antt =====
-- Histories of pushes and pulls: what the caller of chiaki_reorder_queue_pull gets, and in what
-- order.
use vitaki_vitarps.Base.{
  ℕ, zero, suc, ◌+◌, ◌^◌, ◌<◌, ◌≡◌, ◌⊎◌, inl, inr, refl, sym, ap, ◌∙◌, Option, none, some, arith,
  List, [], ◌∷◌, ltb, ◌==◌, ltb→lt, ltb→ge, ==→eq, ◌&&◌, Bool-cases, Option-cases, subst, map,
  length,
}
use native.Mathlib.Nat.{add_comm}
use vitaki_vitarps.SeqNum.{half_32}
use vitaki_vitarps.ReorderQueue.PushBranches.{push-fails}
use vitaki_vitarps.SeqNum.Window.{distance}
use vitaki_vitarps.ReorderQueue.Queue.{Queue, Dropped, ops_32, drop_end}
use vitaki_vitarps.ReorderQueue.Positions.{add, add-distance, distance-lt, add-zero_place, add-add}
use vitaki_vitarps.ReorderQueue.Valid.{IsValid, slot}
use vitaki_vitarps.ReorderQueue.Push.{push}
use vitaki_vitarps.ReorderQueue.Ops.{pull}
use vitaki_vitarps.ReorderQueue.PushLaws.{IsPushed, push_stores, push_drops}
use vitaki_vitarps.ReorderQueue.Pull.{pull_delivers, pull_waits}

-- A call of the queue by the receiver.
pub data Event : Type 0 where
  pushes : ℕ → ℕ → Event
  pulls : Event

-- One call, and the packet that it hands out; `none` is a failed assertion.
unfoldable pub step : Queue → Event → Option (Queue × Option (ℕ × ℕ))
step q (pushes seq_num user) = elim (push ops_32 q seq_num user) [
  | none ↦ none
  | some (r, calls) ↦ some (r, none)
]
step q pulls = pull ops_32 q

-- The packets handed out by a history of calls, up to a failed assertion if there is one.
unfoldable pub run : Queue → List Event → List (ℕ × ℕ)
run q [] = []
run q (e ∷ es) = elim (step q e) [
  | none ↦ []
  | some (r, none) ↦ run r es
  | some (r, some packet) ↦ packet ∷ run r es
]

run_stop : (q : Queue) (e : Event) (es : List Event) → step q e ≡ none → run q (e ∷ es) ≡ []
unfolding run
run_stop q e es h = rw (h, run)

pub run_silent :
    (q r : Queue) (e : Event) (es : List Event)
    → step q e ≡ some (r, none)
    → run q (e ∷ es) ≡ run r es
unfolding run
run_silent q r e es h = rw (h, run)

pub run_packet :
    (q r : Queue) (e : Event) (es : List Event) (p : ℕ × ℕ)
    → step q e ≡ some (r, some p)
    → run q (e ∷ es) ≡ p ∷ run r es
unfolding run
run_packet q r e es p h = rw (h, run)

step_stop : (q : Queue) (s u : ℕ) → push ops_32 q s u ≡ none → step q (pushes s u) ≡ none
unfolding step
step_stop q s u h = rw (h, step)

pub step-push :
    (q r : Queue) (s u : ℕ) (calls : List Dropped)
    → push ops_32 q s u ≡ some (r, calls)
    → step q (pushes s u) ≡ some (r, none)
unfolding step
step-push q r s u calls h = rw (h, step)

-- `n` sequence numbers in order from `b`.
abbrev pub numbers : ℕ → ℕ → List ℕ
numbers b zero = []
numbers b (suc n) = b ∷ numbers (add b 1) n

module _ (P : ℕ → ℕ → Type 0) where
  -- `P` holds of what the events push, under 32 bit numbers.
  abbrev pub Pushes : List Event → Type 0
  Pushes [] = Unit {0}
  Pushes (pushes seq_num user ∷ es) = (seq_num < 2 ^ 32) × P seq_num user × Pushes es
  Pushes (pulls ∷ es) = Pushes es

  -- `P` holds of each packet of the window.
  abbrev pub Holds : Queue → Type 0
  Holds q = (i u : ℕ) → slot q i ≡ some u → P (add q.begin i) u

  abbrev pub Each : List (ℕ × ℕ) → Type 0
  Each [] = Unit {0}
  Each ((seq_num, user) ∷ packets) = P seq_num user × Each packets

  record Inv (q : Queue) : Type 0 where
    valid : IsValid q
    strategy : q.drop_strategy ≡ drop_end
    holds : Holds q

  IsPushed-Inv :
      (q r : Queue) (d user : ℕ) → Inv q → P (add q.begin d) user → IsPushed q d user r → Inv r
  IsPushed-Inv q r d user v p w = record {
    valid = w.valid;
    strategy = w.same.drop_strategy ∙ v.strategy;
    holds = λ i u h. elim (Bool-cases (i == d)) [
      | inl e ↦
          let at : i ≡ d = ==→eq i d e in
          let its : user ≡ u = ground (arith, w.slots i) in
          subst (λ b. P (add b i) u) (sym w.begin)
            (subst (λ k. P (add q.begin k) u) (sym at) (subst (P (add q.begin d)) its p))
      | inr e ↦ subst (λ b. P (add b i) u) (sym w.begin) (v.holds i u (ground (arith, w.slots i)))
    ];
  }

  -- What a push of `seq_num` may do.
  abbrev Keeps : Queue → ℕ → ℕ → Type 0
  Keeps q seq_num user =
      (push ops_32 q seq_num user ≡ none)
      ⊎ ((r : Queue) × (calls : List Dropped) × (push ops_32 q seq_num user ≡ some (r, calls))
          × Inv r
          × (r.begin ≡ q.begin))

  push-Inv :
      (q : Queue) (d user : ℕ)
      → Inv q
      → d < 2 ^ 32
      → P (add q.begin d) user
      → Keeps q (add q.begin d) user
  push-Inv q d user v hd p = elim (Bool-cases (d == half_32 && q.count == 0)) [
    | inl both ↦ inl (push-fails q v.valid d hd user (ground arith) (ground arith))
    | inr apart ↦ elim (Bool-cases (ltb d (2 ^ q.size_exp))) [
      | inl near ↦ elim (Option-cases (slot q d)) [
        | inl free ↦
            let (r, eq, w) = push_stores q d user v.valid (ltb→lt _ _ near) free in
            inr (r, [], eq, IsPushed-Inv q r d user v p w, w.begin)
        | inr (u, old) ↦
            inr (q, _, push_drops q d user v.valid hd v.strategy (inl (λ n. cc)), v, refl)
      ]
      | inr far ↦ inr (
        q,
        _,
        push_drops q d user v.valid hd v.strategy (inr (ltb→ge _ _ far, ground arith)),
        v,
        refl,
      )
    ]
  ]

  push-any :
      (q : Queue) (seq_num user : ℕ)
      → Inv q
      → seq_num < 2 ^ 32
      → P seq_num user
      → Keeps q seq_num user
  push-any q seq_num user v hs p =
      let d = distance half_32 q.begin seq_num in
      let place = add-distance q.begin seq_num v.valid.begin_in hs in
      subst (λ s. Keeps q s user) place
        (push-Inv q d user v (distance-lt q.begin seq_num) (subst (λ s. P s user) (sym place) p))

  pull-Inv :
      (q : Queue)
      → Inv q
      → (pull ops_32 q ≡ some (q, none))
        ⊎ ((r : Queue) × (u : ℕ) × (pull ops_32 q ≡ some (r, some (q.begin, u)))
            × P q.begin u
            × Inv r
            × (r.begin ≡ add q.begin 1))
  pull-Inv q v = elim (Option-cases (slot q 0)) [
    | inl e ↦ inl (pull_waits q v.valid e)
    | inr (u, e) ↦
        let (r, eq, t) = pull_delivers q u v.valid e in
        inr (
          r,
          u,
          eq,
          subst (λ b. P b u) (add-zero_place q.begin v.valid.begin_in) (v.holds 0 u e),
          record {
            valid = t.valid;
            strategy = t.drop_strategy ∙ v.strategy;
            holds = λ i w h.
                subst (λ b. P b w)
                  (sym (
                    ap (λ b. add b i) t.begin
                    ∙ add-add q.begin 1 i
                    ∙ ap (add q.begin) (add_comm 1 i)))
                  (v.holds (i + 1) w (sym (t.slots i) ∙ h));
          },
          t.begin,
        )
  ]

  abbrev InOrder : ℕ → List (ℕ × ℕ) → Type 0
  InOrder b out = (map (λ p. p.0) out ≡ numbers b (length out)) × Each out

  run-InOrder : (es : List Event) (q : Queue) → Inv q → Pushes es → InOrder q.begin (run q es)
  unfolding step run
  run-InOrder [] q v p = (refl, tt)
  run-InOrder (pulls ∷ es) q v p = elim (pull-Inv q v) [
    | inl e ↦ subst (InOrder q.begin) (sym (run_silent q q pulls es e)) (run-InOrder es q v p)
    | inr (r, u, e, pu, w, b) ↦
        let ih = run-InOrder es r w p in
        subst (InOrder q.begin) (sym (run_packet q r pulls es (q.begin, u) e))
          (ap (◌∷◌ q.begin) (ih.0 ∙ ap (λ k. numbers k (length (run r es))) b), (pu, ih.1))
  ]
  run-InOrder (pushes seq_num user ∷ es) q v (hs, pu, p) = elim (push-any q seq_num user v hs pu) [
    | inl e ↦
        subst (InOrder q.begin)
          (sym (run_stop q (pushes seq_num user) es (step_stop q seq_num user e))) (refl, tt)
    | inr (r, calls, e, w, b) ↦
        subst (InOrder q.begin)
          (sym (run_silent q r (pushes seq_num user) es (step-push q r seq_num user calls e)))
          (subst (λ k. InOrder k (run r es)) b (run-InOrder es r w p))
  ]

-- Under the strategy END, whatever is pushed under 32 bit numbers and in whatever order, the packets
-- that `pull` hands out carry the sequence numbers from `begin` on, one after the other; and each
-- has a property `P` that all packets pushed have, and all in the window at the start. (A failed
-- assertion ends the history.)
pub pull_in_order :
    (P : ℕ → ℕ → Type 0) (es : List Event) (q : Queue)
    → IsValid q
    → q.drop_strategy ≡ drop_end
    → Holds P q
    → Pushes P es
    → (map (λ p. p.0) (run q es) ≡ numbers q.begin (length (run q es))) × Each P (run q es)
pull_in_order P es q v e h p = run-InOrder P es q (record { valid = v; strategy = e; holds = h }) p
