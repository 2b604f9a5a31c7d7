-- ===== src/SeqNum.antt =====
-- lib/include/chiaki/seqnum.h: RFC 1982 comparison of 16 and 32 bit sequence numbers.
-- The macro CHIAKI_DEFINE_SEQNUM is a function of `half`, which is `1 << (bits - 1)`.
pub mod Window
pub mod Shift
mod Tests
use vitaki_vitarps.Base.{ℕ, ◌-◌, ◌^◌, Bool, false, ◌&&◌, ◌||◌, ltb, ◌==◌, if◌then◌else◌}

-- `d` is `b - a` in a wider signed type: `d < half` at `a < b`, and `-d` is `a - b` at `a > b`.
unfoldable pub seq_num_lt : ℕ → ℕ → ℕ → Bool
seq_num_lt half a b =
    if a == b then false else (ltb a b && ltb (b - a) half) || (ltb b a && ltb half (a - b))

unfoldable pub seq_num_gt : ℕ → ℕ → ℕ → Bool
seq_num_gt half a b =
    if a == b then false else (ltb a b && ltb half (b - a)) || (ltb b a && ltb (a - b) half)

abbrev pub half_16 : ℕ
half_16 = 2 ^ 15

abbrev pub half_32 : ℕ
half_32 = 2 ^ 31

abbrev pub seq_num_16_lt : ℕ → ℕ → Bool
seq_num_16_lt = seq_num_lt half_16

abbrev pub seq_num_16_gt : ℕ → ℕ → Bool
seq_num_16_gt = seq_num_gt half_16

abbrev pub seq_num_32_lt : ℕ → ℕ → Bool
seq_num_32_lt = seq_num_lt half_32

abbrev pub seq_num_32_gt : ℕ → ℕ → Bool
seq_num_32_gt = seq_num_gt half_32
