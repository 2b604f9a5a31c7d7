-- ===== src/Stats/PacketStats.antt =====
-- lib/src/packetstats.c: what was received and lost since the last reset. The mutex is not modelled.
use vitaki_vitarps.Base.{
  ℕ, ◌+◌, ◌-◌, ◌%◌, ◌^◌, Bool, Option, none, some, List, [], ◌∷◌, ltb, if◌then◌else◌,
}
use vitaki_vitarps.SeqNum.{seq_num_16_gt}

pub record PacketStats : Type 0 where
  pub gen_received : ℕ
  pub gen_lost : ℕ
  pub seq_min : ℕ
  pub seq_max : ℕ
  pub seq_received : ℕ

abbrev pub u64 : ℕ
u64 = 2 ^ 64

unfoldable pub init : PacketStats
init = record { gen_received = 0; gen_lost = 0; seq_min = 0; seq_max = 0; seq_received = 0 }

unfoldable pub reset_stats : PacketStats → PacketStats
reset_stats s = record s { gen_received = 0; gen_lost = 0; seq_min = s.seq_max; seq_received = 0 }

unfoldable pub push_generation : PacketStats → ℕ → ℕ → PacketStats
push_generation s received lost = record s {
  gen_received = (s.gen_received + received) % u64;
  gen_lost = (s.gen_lost + lost) % u64;
}

unfoldable pub push_seq : PacketStats → ℕ → PacketStats
push_seq s seq_num = record s {
  seq_received = (s.seq_received + 1) % u64;
  seq_max = if seq_num_16_gt seq_num s.seq_max then seq_num else s.seq_max;
}

-- `stats->seq_max - stats->seq_min`: the 16 bit numbers are subtracted as `int`, and a negative
-- result is made a `uint64_t`.
unfoldable pub seq_diff : PacketStats → ℕ
seq_diff s = (s.seq_max + u64 - s.seq_min) % u64

unfoldable pub seq_lost : PacketStats → ℕ
unfolding seq_diff
seq_lost s = if ltb (seq_diff s) s.seq_received then seq_diff s else seq_diff s - s.seq_received

-- The result is `*received`, `*lost` and the stats left; a NULL `stats` gives zeros.
unfoldable pub get : Option PacketStats → Bool → ℕ × ℕ × Option PacketStats
unfolding seq_lost reset_stats
get none reset = (0, 0, none)
get (some s) reset = (
  (s.gen_received + s.seq_received) % u64,
  (s.gen_lost + seq_lost s) % u64,
  some (if reset then reset_stats s else s),
)

unfoldable pub push_seqs : PacketStats → List ℕ → PacketStats
push_seqs s [] = s
push_seqs s (x ∷ xs) = push_seqs (push_seq s x) xs
