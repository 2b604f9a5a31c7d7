-- ===== src/ReorderQueue/Extend.antt =====
-- The loop of chiaki_reorder_queue_push that moves the end of the window, and the storing of an
-- entry.
use vitaki_vitarps.Base.{
  ℕ, zero, suc, ◌+◌, ◌^◌, ◌≤◌, ◌<◌, ◌≡◌, ◌≢◌, inl, inr, refl, ◌∙◌, true, false, none, some, arith,
  if◌then◌else◌, ltb, le→leb, ◌==◌, Bool-cases,
}
use vitaki_vitarps.SeqNum.{seq_num_lt}
use vitaki_vitarps.ReorderQueue.Queue.{Queue, ops_32, put, entry}
use vitaki_vitarps.ReorderQueue.Positions.{add, lt, lt-add}
use vitaki_vitarps.ReorderQueue.Valid.{IsValid, slot}
use vitaki_vitarps.ReorderQueue.Slots.{put-IsValid, slot-put}
use vitaki_vitarps.ReorderQueue.Push.{extend, store}

-- What no push changes.
pub record IsSameQueue (q r : Queue) : Type 0 where
  pub size_exp : r.size_exp ≡ q.size_exp
  pub drop_strategy : r.drop_strategy ≡ q.drop_strategy
  pub drop_cb : r.drop_cb ≡ q.drop_cb
  pub drop_cb_user : r.drop_cb_user ≡ q.drop_cb_user

-- `r` is `q` with its window grown to `n` places, the new ones empty.
pub record IsGrown (q : Queue) (n : ℕ) (r : Queue) : Type 0 where
  pub valid : IsValid r
  pub begin : r.begin ≡ q.begin
  pub count : r.count ≡ n
  pub same : IsSameQueue q r
  pub slots : (j : ℕ) → slot r j ≡ slot q j

abbrev longer : Queue → Queue
longer q = record q { count = q.count + 1 }

abbrev grow : Queue → Queue
grow q =
    let end = add q.begin q.count in put (longer q) end (record (entry q end) { is_set = false })

module _ (q : Queue) (v : IsValid q) (h : q.count < 2 ^ q.size_exp) where
  longer-IsValid : IsValid (longer q)
  longer-IsValid = record {
    fits = v.fits;
    array = v.array;
    begin_in = v.begin_in;
    count_in = omega arith;
  }

  grow-IsValid : IsValid (grow q)
  grow-IsValid = put-IsValid (longer q) longer-IsValid q.count _

  slot-longer : (j : ℕ) → j ≢ q.count → slot (longer q) j ≡ slot q j
  unfolding slot
  slot-longer j h = ground arith

  slot-end : slot q q.count ≡ none
  unfolding slot
  slot-end = ground arith

  slot-grow : (j : ℕ) → slot (grow q) j ≡ slot q j
  slot-grow j =
      slot-put (longer q) longer-IsValid q.count _ j h ∙ elim (Bool-cases (j == q.count)) [
        | inl e ↦ ground (arith, slot-end)
        | inr e ↦ ground (arith, slot-longer j)
      ]

lt_end :
    (q : Queue) (n : ℕ)
    → IsValid q
    → q.count ≤ n
    → n ≤ 2 ^ q.size_exp
    → lt (add q.begin q.count) (add q.begin n) ≡ ltb q.count n
unfolding seq_num_lt
lt_end q n v lo hi =
    lt-add q.begin q.count n (omega (arith, v.fits.below_half)) (omega (arith, v.fits.below_half))
    ∙ ground (arith, v.fits.below_half)

extend_step :
    (fuel : ℕ) (q : Queue) (n : ℕ)
    → lt (add q.begin q.count) n ≡ true
    → q.count < 2 ^ q.size_exp
    → extend ops_32 (suc fuel) q n ≡ extend ops_32 fuel (grow q) n
unfolding extend
extend_step fuel q n e h = rw (e, extend, le→leb (q.count + 1) (2 ^ q.size_exp) (omega arith))

extend_stop :
    (fuel : ℕ) (q : Queue) (n : ℕ)
    → lt (add q.begin q.count) n ≡ false
    → extend ops_32 (suc fuel) q n ≡ some q
unfolding extend
extend_stop fuel q n e = rw (e, extend)

-- Fuel for one more round than there are places to add is enough.
pub extend-IsGrown :
    (fuel : ℕ) (q : Queue) (n : ℕ)
    → IsValid q
    → q.count ≤ n
    → n ≤ 2 ^ q.size_exp
    → n < fuel + q.count
    → (r : Queue) × (extend ops_32 fuel q (add q.begin n) ≡ some r) × IsGrown q n r
extend-IsGrown zero q n v lo hi enough = absurd (omega arith)
extend-IsGrown (suc fuel) q n v lo hi enough = elim (Bool-cases (ltb q.count n)) [
  | inr e ↦ (
    q,
    extend_stop fuel q (add q.begin n) (lt_end q n v lo hi ∙ e),
    record {
      valid = v;
      begin = refl;
      count = ground arith;
      same = record { size_exp = refl; drop_strategy = refl; drop_cb = refl; drop_cb_user = refl };
      slots = λ j. refl;
    },
  )
  | inl e ↦
      let more : q.count < 2 ^ q.size_exp = ground arith in
      let (r, eq, g) =
        extend-IsGrown fuel (grow q) n (grow-IsValid q v more) (ground arith) hi (omega arith) in
      (
        r,
        extend_step fuel q (add q.begin n) (lt_end q n v lo hi ∙ e) more ∙ eq,
        record {
          valid = g.valid;
          begin = g.begin;
          count = g.count;
          same = record {
            size_exp = g.same.size_exp;
            drop_strategy = g.same.drop_strategy;
            drop_cb = g.same.drop_cb;
            drop_cb_user = g.same.drop_cb_user;
          };
          slots = λ j. g.slots j ∙ slot-grow q v more j;
        },
      )
]

-- Storing an entry under the number of place `d`.
pub record IsStored (q : Queue) (d user : ℕ) (r : Queue) : Type 0 where
  pub valid : IsValid r
  pub begin : r.begin ≡ q.begin
  pub count : r.count ≡ q.count
  pub same : IsSameQueue q r
  pub slots : (j : ℕ) → slot r j ≡ (if j == d then some user else slot q j)

slot-hint : (q : Queue) (hint j : ℕ) → slot (record q { first_set_hint_index = hint }) j ≡ slot q j
unfolding slot
slot-hint q hint j = refl

pub store-IsStored :
    (q : Queue) (d user : ℕ)
    → IsValid q
    → d < q.count
    → IsStored q d user (store ops_32 q (add q.begin d) user)
unfolding store
store-IsStored q d user v h =
    let w = put-IsValid q v d _ in
    record {
      valid = record {
        fits = w.fits;
        array = w.array;
        begin_in = w.begin_in;
        count_in = w.count_in;
      };
      begin = refl;
      count = refl;
      same = record { size_exp = refl; drop_strategy = refl; drop_cb = refl; drop_cb_user = refl };
      slots = λ j. slot-hint _ _ j ∙ slot-put q v d _ j (omega arith) ∙ ground arith;
    }
