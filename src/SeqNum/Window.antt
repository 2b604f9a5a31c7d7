-- ===== src/SeqNum/Window.antt =====
-- What the comparisons say of two numbers on the circle of `half + half` sequence numbers.
use native.Mathlib.Nat.{mod-eq_of_lt, mod-eq-sub-mod}
use vitaki_vitarps.Base.{
  ℕ, ◌+◌, ◌-◌, ◌%◌, ◌≤◌, ◌<◌, ◌≡◌, ◌⊎◌, ◌↔◌, ◌∙◌, true, false, arith, leb, if◌then◌else◌,
}
use vitaki_vitarps.SeqNum.{seq_num_lt, seq_num_gt}

-- The steps forward from `a` to `b`.
unfoldable pub distance : ℕ → ℕ → ℕ → ℕ
distance half a b = (b + (half + half) - a) % (half + half)

distance_ahead : (half a b : ℕ) → a ≤ b → b < half + half → distance half a b ≡ b - a
unfolding distance
distance_ahead half a b h hb =
    mod-eq-sub-mod (omega arith) ∙ mod-eq_of_lt (omega arith) ∙ omega arith

distance_behind :
    (half a b : ℕ) → b < a → a < half + half → distance half a b ≡ b + (half + half) - a
unfolding distance
distance_behind half a b h ha = mod-eq_of_lt (omega arith)

pub distance_lem :
    (half a b : ℕ)
    → a < half + half
    → b < half + half
    → distance half a b ≡ (if leb a b then b - a else b + (half + half) - a)
distance_lem half a b ha hb = ground (arith, distance_ahead half a b, distance_behind half a b)

-- Of two numbers in range, `a` is before `b` exactly when 1 to `half - 1` steps lead from `a` to
-- `b`.
pub seq_num_lt_iff :
    (half a b : ℕ)
    → a < half + half
    → b < half + half
    → (seq_num_lt half a b ≡ true) ↔ ((0 < distance half a b) × (distance half a b < half))
unfolding seq_num_lt
seq_num_lt_iff half a b ha hb = ground (arith, distance_lem half a b ha hb)

-- `gt` is `lt` with its arguments swapped, for all numbers.
pub seq_num_gt-swap : (half a b : ℕ) → seq_num_gt half a b ≡ seq_num_lt half b a
unfolding seq_num_lt seq_num_gt
seq_num_gt-swap half a b = ground arith

-- Two numbers in range are equal, or ordered one way and not the other, or just `half` apart, and
-- then neither is before the other.
pub seq_num_trichotomy :
    (half a b : ℕ)
    → a < half + half
    → b < half + half
    → (a ≡ b)
      ⊎ ((seq_num_lt half a b ≡ true) × (seq_num_lt half b a ≡ false))
      ⊎ ((seq_num_lt half a b ≡ false) × (seq_num_lt half b a ≡ true))
      ⊎ ((distance half a b ≡ half) × (seq_num_lt half a b ≡ false) × (seq_num_lt half b a ≡ false))
unfolding seq_num_lt
seq_num_trichotomy half a b ha hb = ground (arith, distance_lem half a b ha hb)
