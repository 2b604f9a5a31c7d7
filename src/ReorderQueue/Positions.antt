-- ===== src/ReorderQueue/Positions.antt =====
-- Where a sequence number lies in the window, and in the array: `add begin i` is the `i`-th.
use native.Mathlib.Nat.{mod-mod_of_dvd, add-mod, mod-eq_of_lt, mod-eq-sub-mod, mod-add-mod, mod-lt}
use native.Mathlib.Nat.{dvd_of_mod-eq-zero}
use native.Mathlib.Numerals.{add-one}
use vitaki_vitarps.Base.{
  ℕ, zero, suc, ◌+◌, ◌-◌, ◌%◌, ◌^◌, ◌≤◌, ◌<◌, ◌∣◌, ◌≡◌, ◌∙◌, sym, ap, ap₂, Bool, true, ◌&&◌, List,
  arith, ltb, ◌==◌, if◌then◌else◌, length, get_or, set, get_or-set_self, get_or-set_ne, refl,
  Bool-cases, inl, inr, ◌||◌, passes, passes_each,
}
use vitaki_vitarps.SeqNum.{seq_num_lt, half_32}
use vitaki_vitarps.SeqNum.Window.{seq_num_gt-swap, distance}
use vitaki_vitarps.SeqNum.Shift.{seq_num_lt-shift}
use vitaki_vitarps.ReorderQueue.Queue.{Entry, blank, ops_32, ge}

abbrev pub add : ℕ → ℕ → ℕ
add = ops_32.add

abbrev pub lt : ℕ → ℕ → Bool
lt = ops_32.lt

-- The sizes that fit the 32 bit sequence numbers.
pub record Fits (size : ℕ) : Type 0 where
  pub divides : size ∣ 2 ^ 32
  pub below_half : size < half_32
  pub two_le : 2 ≤ size

abbrev size_ok : ℕ → Bool
size_ok e = (2 ^ 32 % (2 ^ (e + 1)) == 0) && (ltb (2 ^ (e + 1)) half_32 && ltb 1 (2 ^ (e + 1)))

sizes_table : passes size_ok 29 ≡ true
unfolding passes
sizes_table = refl

size_ok-Fits :
    (size : ℕ) → ((2 ^ 32 % size == 0) && (ltb size half_32 && ltb 1 size)) ≡ true → Fits size
size_ok-Fits size h = record {
  divides = dvd_of_mod-eq-zero size (ground arith);
  below_half = ground arith;
  two_le = ground arith;
}

pub Fits-pow : (e : ℕ) → 1 ≤ e → e < 30 → Fits (2 ^ e)
Fits-pow zero p q = absurd (omega arith)
Fits-pow (suc e) p q =
    rw (add-one e) at
      (size_ok-Fits (2 ^ (e + 1)) (passes_each size_ok 29 e (omega arith) sizes_table))

-- The index in the array of the `i`-th number from `b`.
pub add-mod_size : (size b i : ℕ) → size ∣ 2 ^ 32 → add b i % size ≡ (b + i) % size
add-mod_size size b i d =
    mod-mod_of_dvd size (b % 2 ^ 32 + i % 2 ^ 32) d
    ∙ add-mod (b % 2 ^ 32) (i % 2 ^ 32) size
    ∙ rw (mod-mod_of_dvd size b d, mod-mod_of_dvd size i d) (sym (add-mod b i size))

add_mod_cases :
    (m a k : ℕ) → a < m → k < m → (a + k) % m ≡ (if ltb (a + k) m then a + k else a + k - m)
add_mod_cases m a k ha hk = ground (
  arith,
  mod-eq_of_lt {n = a + k} {m = m},
  mod-eq-sub-mod {n = a + k} {m = m},
  mod-eq_of_lt {n = a + k - m} {m = m},
)

-- Two places of the window have different indices.
pub index_injective :
    (size b i j : ℕ) → i < size → j < size → (b + i) % size ≡ (b + j) % size → i ≡ j
index_injective size b i j hi hj e = ground (
  arith,
  e,
  mod-add-mod b size i,
  mod-add-mod b size j,
  mod-lt b {m = size},
  add_mod_cases size (b % size) i,
  add_mod_cases size (b % size) j,
)

-- The entry of the `i`-th place of the window that begins at `b`.
abbrev pub cell : List Entry → ℕ → ℕ → ℕ → Entry
cell buf size b i = get_or buf ((b + i) % size) blank

pub entry-cell :
    (buf : List Entry) (size b i : ℕ)
    → size ∣ 2 ^ 32
    → get_or buf (add b i % size) blank ≡ cell buf size b i
entry-cell buf size b i d = ap (λ k. get_or buf k blank) (add-mod_size size b i d)

-- A write to one place leaves the others.
pub cell-set :
    (buf : List Entry) (size b i j : ℕ) (e : Entry)
    → length buf ≡ size
    → i < size
    → j < size
    → cell (set buf ((b + i) % size) e) size b j ≡ (if j == i then e else cell buf size b j)
cell-set buf size b i j e hl hi hj = elim (Bool-cases (j == i)) [
  | inl same ↦
      ground (arith, get_or-set_self buf ((b + i) % size) e blank, mod-lt (b + i) {m = size})
  | inr other ↦ ground (
    arith,
    get_or-set_ne buf ((b + i) % size) ((b + j) % size) e blank,
    index_injective size b i j hi hj,
  )
]

-- A step of `begin` moves every entry forward by one place.
pub cell-advance :
    (buf : List Entry) (size b i : ℕ)
    → size ∣ 2 ^ 32
    → cell buf size (add b 1) i ≡ cell buf size b (i + 1)
cell-advance buf size b i d =
    ap (λ k. get_or buf k blank)
      (sym (mod-add-mod (add b 1) size i)
        ∙ ap (λ k. (k + i) % size) (add-mod_size size b 1 d)
        ∙ mod-add-mod (b + 1) size i
        ∙ ap (λ k. k % size) (omega arith))

-- The comparisons and the steps, at places of the window that begins at `b`.
pub lt-add : (b i j : ℕ) → i < 2 ^ 32 → j < 2 ^ 32 → lt (add b i) (add b j) ≡ seq_num_lt half_32 i j
lt-add b i j hi hj =
    ap₂ (seq_num_lt half_32) (omega arith) (omega arith)
    ∙ seq_num_lt-shift half_32 i j (b % 2 ^ 32) hi hj (omega arith)

pub add-add : (b i j : ℕ) → add (add b i) j ≡ add b (i + j)
add-add b i j = omega arith

pub add-zero_place : (b : ℕ) → b < 2 ^ 32 → add b 0 ≡ b
add-zero_place b h = omega arith

pub add_injective : (b i j : ℕ) → i < 2 ^ 32 → j < 2 ^ 32 → add b i ≡ add b j → i ≡ j
add_injective b i j hi hj e = omega arith

pub ge-add :
    (b i j : ℕ)
    → i < 2 ^ 32
    → j < 2 ^ 32
    → ge ops_32 (add b i) (add b j) ≡ (i == j || seq_num_lt half_32 j i)
unfolding ge
ge-add b i j hi hj = ap₂ ◌||◌ (ground arith) (seq_num_gt-swap half_32 _ _ ∙ lt-add b j i hj hi)

-- Every sequence number is a place of the window.
pub add-distance : (b s : ℕ) → b < 2 ^ 32 → s < 2 ^ 32 → add b (distance half_32 b s) ≡ s
unfolding distance
add-distance b s hb hs = omega arith

pub distance-lt : (b s : ℕ) → distance half_32 b s < 2 ^ 32
unfolding distance
distance-lt b s = omega arith
