-- ===== src/Takion/Jitter.antt =====
-- The jitter estimate of the data channel, and how long a gap is waited for.
use vitaki_vitarps.Base.{
  ℕ, ◌+◌, ◌-◌, ◌*◌, ◌/◌, ◌%◌, ◌^◌, ◌<◌, ◌≤◌, Bool, not, ◌&&◌, ltb, ◌==◌, if◌then◌else◌, arith,
}

-- The member `jitter_stats` of `ChiakiTakion`.
pub record JitterStats : Type 0 where
  pub jitter_us : ℕ
  pub cadence_jitter_us : ℕ
  pub last_packet_arrival_us : ℕ
  pub last_inter_arrival_us : ℕ
  pub last_log_ms : ℕ
  pub gaps_skipped : ℕ
  pub last_skipped_seq_num : ℕ
  pub last_head_gap_age_us : ℕ
  pub last_first_set_offset : ℕ
  pub queue_highwater : ℕ
  pub drain_max_count : ℕ
  pub drain_total_count : ℕ
  pub drain_cycles : ℕ

abbrev pub jitter_min_threshold_us : ℕ
jitter_min_threshold_us = 2000

-- On the Vita; elsewhere it is 20000.
abbrev pub jitter_max_threshold_us : ℕ
jitter_max_threshold_us = 100000

abbrev pub jitter_log_interval_ms : ℕ
jitter_log_interval_ms = 5000

-- `a - b` of two `uint64_t`.
abbrev pub sub_u64 : ℕ → ℕ → ℕ
sub_u64 a b = (a + 2 ^ 64 - b) % 2 ^ 64

-- How long a gap is waited for, by the jitter.
unfoldable pub threshold_us : ℕ → ℕ
threshold_us jitter =
    let scaled = jitter * 5 % 2 ^ 64 / 2 in
    let low = if ltb scaled jitter_min_threshold_us then jitter_min_threshold_us else scaled in
    if ltb jitter_max_threshold_us low then jitter_max_threshold_us else low

abbrev pub ewma : ℕ → ℕ → ℕ
ewma jitter deviation = (7 * jitter + deviation) % 2 ^ 64 / 8

abbrev pub abs_diff : ℕ → ℕ → ℕ
abs_diff a b = if ltb b a then a - b else b - a

-- 1000000 / 30
abbrev pub cadence_target_us : ℕ
cadence_target_us = 33333

-- The update on a packet that arrives at `now_us`.
unfoldable pub arrive : JitterStats → ℕ → JitterStats
arrive s now_us =
    let inter_arrival_us = sub_u64 now_us s.last_packet_arrival_us in
    let previous = s.last_inter_arrival_us in
    if s.last_packet_arrival_us == 0
    then record s { last_inter_arrival_us = 0; last_packet_arrival_us = now_us }
    else record s {
      jitter_us =
          if previous == 0
          then s.jitter_us
          else ewma s.jitter_us (abs_diff inter_arrival_us previous);
      cadence_jitter_us = ewma s.cadence_jitter_us (abs_diff inter_arrival_us cadence_target_us);
      last_inter_arrival_us = inter_arrival_us;
      last_packet_arrival_us = now_us;
    }

unfoldable pub log_jitter_summary : JitterStats → ℕ → Bool → JitterStats
log_jitter_summary s now_ms force =
    let interval_ms = if s.last_log_ms == 0 then 0 else sub_u64 now_ms s.last_log_ms in
    if not force && ltb interval_ms jitter_log_interval_ms then s else record s {
      gaps_skipped = 0;
      last_head_gap_age_us = 0;
      last_first_set_offset = 0;
      queue_highwater = 0;
      drain_max_count = 0;
      drain_total_count = 0;
      drain_cycles = 0;
      last_log_ms = now_ms;
    }

-- A gap is waited for at least 2 ms and at most the platform's maximum, whatever the jitter.
pub threshold_us_range :
    (jitter : ℕ)
    → (jitter_min_threshold_us ≤ threshold_us jitter)
      × (threshold_us jitter ≤ jitter_max_threshold_us)
unfolding threshold_us
threshold_us_range jitter = ground arith

-- A bound on the jitter and on the change between two times between packets bounds the jitter
-- after the next packet: the average never leaves the range of what it averages.
pub arrive_bound :
    (s : JitterStats) (now_us bound : ℕ)
    → bound < 2 ^ 60
    → s.jitter_us ≤ bound
    → abs_diff (sub_u64 now_us s.last_packet_arrival_us) s.last_inter_arrival_us ≤ bound
    → (arrive s now_us).jitter_us ≤ bound
unfolding arrive
arrive_bound s now_us bound hb hj hd = ground arith
