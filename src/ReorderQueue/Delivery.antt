-- ===== src/ReorderQueue/Delivery.antt =====
-- Packets that come in any order, and more than once, are all handed out.
use vitaki_vitarps.Base.{
  ℕ, zero, suc, ◌+◌, ◌^◌, ◌<◌, ◌≡◌, ◌≢◌, ◌⊎◌, inl, inr, refl, sym, ap, ◌∙◌, Bool, true, false, none,
  some, arith, List, [], ◌∷◌, ◌++◌, ◌==◌, ==→eq, ◌||◌, Bool-cases, Option-cases, subst, length, All,
  replicate,
}
use vitaki_vitarps.ReorderQueue.Queue.{Queue, Dropped, ops_32, drop_end}
use vitaki_vitarps.ReorderQueue.Positions.{add}
use vitaki_vitarps.ReorderQueue.Valid.{IsValid, slot}
use vitaki_vitarps.ReorderQueue.Push.{push}
use vitaki_vitarps.ReorderQueue.PushLaws.{push_stores, push_drops}
use vitaki_vitarps.ReorderQueue.Pull.{pull_delivers}
use vitaki_vitarps.ReorderQueue.Order.{
  Event, pushes, pulls, step, run, run_silent, run_packet, step-push,
}

-- Pushes of the numbers at some places after `begin`, with their packets.
abbrev pub push_events : ℕ → List (ℕ × ℕ) → List Event
push_events begin [] = []
push_events begin ((d, user) ∷ ds) = pushes (add begin d) user ∷ push_events begin ds

-- Place `i` is among those pushed.
unfoldable pub occurs : ℕ → List (ℕ × ℕ) → Bool
occurs i [] = false
occurs i ((d, _) ∷ ds) = i == d || occurs i ds

-- The queue after one push near `begin`.
record IsAfter (q : Queue) (d : ℕ) (r : Queue) : Type 0 where
  valid : IsValid r
  strategy : r.drop_strategy ≡ drop_end
  begin : r.begin ≡ q.begin
  size : r.size_exp ≡ q.size_exp
  here : slot r d ≢ none
  kept : (i : ℕ) → slot q i ≢ none → slot r i ≢ none

push-IsAfter :
    (q : Queue) (d user : ℕ)
    → IsValid q
    → q.drop_strategy ≡ drop_end
    → d < 2 ^ q.size_exp
    → d < 2 ^ 32
    → (r : Queue) × (calls : List Dropped) × (push ops_32 q (add q.begin d) user ≡ some (r, calls))
      × IsAfter q d r
push-IsAfter q d user v s h h32 = elim (Option-cases (slot q d)) [
  | inl free ↦
      let (r, e, w) = push_stores q d user v h free in
      (
        r,
        [],
        e,
        record {
          valid = w.valid;
          strategy = w.same.drop_strategy ∙ s;
          begin = w.begin;
          size = w.same.size_exp;
          here = λ n. ground (arith, w.slots d, n);
          kept = λ i k n. ground (arith, w.slots i, n, k);
        },
      )
  | inr (u, old) ↦
      let full : slot q d ≢ none = λ n. cc in
      (
        q,
        _,
        push_drops q d user v h32 s (inl full),
        record { valid = v; strategy = s; begin = refl; size = refl; here = full; kept = λ i k. k },
      )
]

abbrev Near : ℕ → List (ℕ × ℕ) → Type 0
Near size = All (λ d. (d.0 < size) × (d.0 < 2 ^ 32))

-- The queue after many.
record IsFilled (q : Queue) (ds : List (ℕ × ℕ)) (r : Queue) : Type 0 where
  valid : IsValid r
  begin : r.begin ≡ q.begin
  filled : (i : ℕ) → (slot q i ≢ none) ⊎ (occurs i ds ≡ true) → slot r i ≢ none

run_pushes :
    (ds : List (ℕ × ℕ)) (es : List Event) (q : Queue)
    → IsValid q
    → q.drop_strategy ≡ drop_end
    → Near (2 ^ q.size_exp) ds
    → (r : Queue) × (run q (push_events q.begin ds ++ es) ≡ run r es) × IsFilled q ds r
unfolding occurs
run_pushes [] es q v s near = (
  q,
  refl,
  record {
    valid = v;
    begin = refl;
    filled = λ i h. elim h [ inl k ↦ k | inr o ↦ absurd (ground (arith, o)) ];
  },
)
run_pushes ((d, user) ∷ ds) es q v s (h, near) =
    let (r, calls, e, w) = push-IsAfter q d user v s h.0 h.1 in
    let (t, eq, f) =
      run_pushes ds es r w.valid w.strategy (subst (λ k. Near (2 ^ k) ds) (sym w.size) near) in
    (
      t,
      run_silent q r (pushes (add q.begin d) user) _ (step-push q r _ user calls e)
          ∙ ap (λ b. run r (push_events b ds ++ es)) (sym w.begin)
          ∙ eq,
      record {
        valid = f.valid;
        begin = f.begin ∙ w.begin;
        filled = λ i k. elim k [
          | inl old ↦ f.filled i (inl (w.kept i old))
          | inr o ↦ elim (Bool-cases (i == d)) [
            | inl same ↦
                f.filled i (inl (subst (λ j. slot r j ≢ none) (sym (==→eq i d same)) w.here))
            | inr other ↦ f.filled i (inr (ground (arith, o, other)))
          ]
        ];
      },
    )

run_pulls :
    (n : ℕ) (q : Queue)
    → IsValid q
    → ((i : ℕ) → i < n → slot q i ≢ none)
    → length (run q (replicate n pulls)) ≡ n
unfolding run step
run_pulls zero q v h = refl
run_pulls (suc n) q v h = elim (Option-cases (slot q 0)) [
  | inl e ↦ absurd (h 0 (omega arith) e)
  | inr (u, e) ↦
      let (r, eq, t) = pull_delivers q u v e in
      ap length (run_packet q r pulls (replicate n pulls) (q.begin, u) eq)
      ∙ ap suc (run_pulls n r t.valid (λ i k m. h (i + 1) (omega arith) (sym (t.slots i) ∙ m)))
]

-- Under the strategy END, when the `n` numbers from `begin` on are pushed in any order, each at
-- least once, among others of the next 2 ^ size_exp ones, then `n` calls of `pull` hand out `n`
-- packets.
pub all_delivered :
    (q : Queue) (ds : List (ℕ × ℕ)) (n : ℕ)
    → IsValid q
    → q.drop_strategy ≡ drop_end
    → Near (2 ^ q.size_exp) ds
    → ((i : ℕ) → i < n → occurs i ds ≡ true)
    → length (run q (push_events q.begin ds ++ replicate n pulls)) ≡ n
all_delivered q ds n v s near covers =
    let (r, eq, f) = run_pushes ds (replicate n pulls) q v s near in
    ap length eq ∙ run_pulls n r f.valid (λ i h. f.filled i (inr (covers i h)))
