-- ===== src/Stats/PacketLaws.antt =====
-- What chiaki_packet_stats_get reports of a run of sequence numbers.
use Prim.Native.Nat.{max}
use vitaki_vitarps.Base.{
  ℕ, ◌+◌, ◌-◌, ◌%◌, ◌^◌, ◌≤◌, ◌<◌, ◌≡◌, refl, ap, ◌∙◌, Bool, some, List, [], ◌∷◌, arith, ltb,
  if◌then◌else◌, length, All,
}
use vitaki_vitarps.SeqNum.{seq_num_gt, half_16}
use vitaki_vitarps.Stats.PacketStats.{
  PacketStats, u64, push_seq, push_seqs, seq_diff, seq_lost, get,
}

-- The greatest of `m` and the numbers of a list.
abbrev pub greatest : ℕ → List ℕ → ℕ
greatest m [] = m
greatest m (x ∷ xs) = greatest (max m x) xs

-- The numbers lie in the half of the circle that follows `m`, and do not pass its end.
abbrev pub InHalf : ℕ → List ℕ → Type 0
InHalf m = All (λ x. (m ≤ x) × (x < m + half_16))

push_seq_max :
    (s : PacketStats) (m x : ℕ)
    → m ≤ s.seq_max
    → s.seq_max < m + half_16
    → m ≤ x
    → x < m + half_16
    → (push_seq s x).seq_max ≡ max s.seq_max x
unfolding push_seq seq_num_gt
push_seq_max s m x a b c d = ground arith

push_seq_rest :
    (s : PacketStats) (x : ℕ)
    → s.seq_received + 1 < u64
    → let r = push_seq s x in
      (r.seq_received ≡ s.seq_received + 1)
      × (r.seq_min ≡ s.seq_min)
      × (r.gen_received ≡ s.gen_received)
      × (r.gen_lost ≡ s.gen_lost)
unfolding push_seq
push_seq_rest s x h = (omega arith, refl, refl, refl)

greatest_le : (xs : List ℕ) (m : ℕ) → m ≤ greatest m xs
greatest_le [] m = omega arith
greatest_le (x ∷ xs) m = omega (arith, greatest_le xs (max m x))

push_seqs_lem :
    (xs : List ℕ) (s : PacketStats) (m : ℕ)
    → m ≤ s.seq_max
    → s.seq_max < m + half_16
    → InHalf m xs
    → s.seq_received + length xs < u64
    → let r = push_seqs s xs in
      (r.seq_max ≡ greatest s.seq_max xs)
      × (r.seq_received ≡ s.seq_received + length xs)
      × (r.seq_min ≡ s.seq_min)
      × (r.gen_received ≡ s.gen_received)
      × (r.gen_lost ≡ s.gen_lost)
unfolding push_seqs
push_seqs_lem [] s m a b h k = (refl, omega arith, refl, refl, refl)
push_seqs_lem (x ∷ xs) s m a b h k =
    let top = push_seq_max s m x a b h.0.0 h.0.1 in
    let one = push_seq_rest s x (omega arith) in
    let (r0, r1, r2, r3, r4) =
      push_seqs_lem xs (push_seq s x) m (omega (arith, top, h.0)) (omega (arith, top, h.0)) h.1
        (omega (arith, one.0)) in
    (
      r0 ∙ ap (λ t. greatest t xs) top,
      r1 ∙ omega (arith, one.0),
      r2 ∙ one.1,
      r3 ∙ one.2,
      r4 ∙ one.3,
    )

-- After a reset at `seq_min`, when packets are pushed whose numbers all lie in the half of the circle
-- after `seq_min`, in any order and with any repeats: `received` grows by their number, and `lost` by
-- the distance from `seq_min` to the greatest of them less their number, or, if there are more
-- packets than that distance, by the distance itself.
pub get-push_seqs :
    (s : PacketStats) (xs : List ℕ) (reset : Bool)
    → s.seq_max ≡ s.seq_min
    → s.seq_received ≡ 0
    → length xs < u64
    → greatest s.seq_min xs < 2 ^ 16
    → InHalf s.seq_min xs
    → let (received, lost, left) = get (some (push_seqs s xs)) reset in
      let d = greatest s.seq_min xs - s.seq_min in
      (received ≡ (s.gen_received + length xs) % u64)
      × (lost ≡ (s.gen_lost + (if ltb d (length xs) then d else d - length xs)) % u64)
unfolding get seq_lost seq_diff
get-push_seqs s xs reset start zero_received few small h =
    let (r0, r1, r2, r3, r4) =
      push_seqs_lem xs s s.seq_min (omega (arith, start)) (omega (arith, start)) h
        (omega (arith, zero_received)) in
    let up = greatest_le xs s.seq_min in
    let top = r0 ∙ ap (λ m. greatest m xs) start in
    ground (arith, r1, r2, r3, r4, top, up, zero_received)

-- When the greatest number has gone round the circle and is less than `seq_min`, the packets counted
-- as lost are at least 2 ^ 63, however few were received.
pub seq_lost_wraps :
    (s : PacketStats)
    → s.seq_max < s.seq_min
    → s.seq_min < 2 ^ 16
    → s.seq_received < 2 ^ 62
    → 2 ^ 63 ≤ seq_lost s
unfolding seq_lost seq_diff
seq_lost_wraps s h k r = ground arith
