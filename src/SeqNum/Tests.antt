-- ===== src/SeqNum/Tests.antt =====
-- Comparison of 16 bit sequence numbers near the wrap.
use vitaki_vitarps.Base.{ℕ, ◌≡◌, true, false, refl}
use vitaki_vitarps.SeqNum.{seq_num_lt, half_16}

abbrev newest : ℕ
newest = 0xffff

wraps : seq_num_lt half_16 0xffff 1 ≡ true
unfolding seq_num_lt
wraps = refl

opposite : seq_num_lt half_16 0 0x8000 ≡ false
unfolding seq_num_lt
opposite = refl
