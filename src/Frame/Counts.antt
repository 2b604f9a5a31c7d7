-- ===== src/Frame/Counts.antt =====
-- Counts of the units that have come, and the indices of those that have not.
use vitaki_vitarps.Base.{
  ℕ, zero, suc, ◌+◌, ◌≤◌, ◌<◌, ◌≡◌, refl, List, [], ◌∷◌, arith, ltb, ◌==◌, if◌then◌else◌, length,
  get_or, set, replicate,
}
use vitaki_vitarps.Frame.Flush.{erasures_from}

-- The number of units among the first `n` slots.
unfoldable pub filled : List ℕ → ℕ → ℕ
filled [] n = 0
filled (x ∷ xs) zero = 0
filled (x ∷ xs) (suc n) = (if x == 0 then 0 else 1) + filled xs n

pub filled_le : (xs : List ℕ) (n : ℕ) → filled xs n ≤ n
unfolding filled
filled_le [] n = omega arith
filled_le (x ∷ xs) zero = omega arith
filled_le (x ∷ xs) (suc n) = ground (arith, filled_le xs n)

pub filled_mono : (xs : List ℕ) (m n : ℕ) → m ≤ n → filled xs m ≤ filled xs n
unfolding filled
filled_mono [] m n h = omega arith
filled_mono (x ∷ xs) zero n h = omega arith
filled_mono (x ∷ xs) (suc m) zero h = absurd (omega arith)
filled_mono (x ∷ xs) (suc m) (suc n) h = ground (arith, filled_mono xs m n)

pub filled-replicate : (k n : ℕ) → filled (replicate k 0) n ≡ 0
unfolding filled
filled-replicate zero n = refl
filled-replicate (suc k) zero = refl
filled-replicate (suc k) (suc n) = ground (arith, filled-replicate k n)

pub filled-set :
    (xs : List ℕ) (n i v : ℕ)
    → i < length xs
    → get_or xs i 0 ≡ 0
    → 0 < v
    → filled (set xs i v) n ≡ filled xs n + (if ltb i n then 1 else 0)
unfolding filled
filled-set [] n i v h e p = absurd (omega arith)
filled-set (x ∷ xs) zero zero v h e p = refl
filled-set (x ∷ xs) (suc n) zero v h e p = ground arith
filled-set (x ∷ xs) zero (suc i) v h e p = ground arith
filled-set (x ∷ xs) (suc n) (suc i) v h e p = ground (arith, filled-set xs n i v (omega arith) e p)

-- Every slot is either counted or an erasure.
pub length-erasures_from :
    (xs : List ℕ) (i : ℕ) → length (erasures_from i xs) + filled xs (length xs) ≡ length xs
unfolding filled
length-erasures_from [] i = refl
length-erasures_from (x ∷ xs) i = ground (arith, length-erasures_from xs (i + 1))
