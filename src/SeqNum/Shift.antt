-- ===== src/SeqNum/Shift.antt =====
-- The comparisons do not change when both numbers move on by as many steps.
use native.Mathlib.Nat.{mod-eq_of_lt, mod-eq-sub-mod}
use vitaki_vitarps.Base.{ℕ, ◌+◌, ◌-◌, ◌%◌, ◌<◌, ◌≡◌, arith, ltb, if◌then◌else◌}
use vitaki_vitarps.SeqNum.{seq_num_lt}

add_mod_cases :
    (m a k : ℕ) → a < m → k < m → (a + k) % m ≡ (if ltb (a + k) m then a + k else a + k - m)
add_mod_cases m a k ha hk = ground (
  arith,
  mod-eq_of_lt {n = a + k} {m = m},
  mod-eq-sub-mod {n = a + k} {m = m},
  mod-eq_of_lt {n = a + k - m} {m = m},
)

-- For numbers in range, `lt` is the same after both move on by `k` steps round the circle.
pub seq_num_lt-shift :
    (half a b k : ℕ)
    → a < half + half
    → b < half + half
    → k < half + half
    → seq_num_lt half ((k + a) % (half + half)) ((k + b) % (half + half)) ≡ seq_num_lt half a b
unfolding seq_num_lt
seq_num_lt-shift half a b k ha hb hk =
    ground (arith, add_mod_cases (half + half) k a, add_mod_cases (half + half) k b)
