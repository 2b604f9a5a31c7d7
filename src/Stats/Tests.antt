-- ===== src/Stats/Tests.antt =====
-- Packet statistics and gap reports on small inputs.
use vitaki_vitarps.Base.{
  ℕ, ◌+◌, ◌-◌, ◌%◌, ◌^◌, ◌≤◌, ◌≡◌, refl, true, false, some, List, [], ◌∷◌, arith, ltb,
  if◌then◌else◌, length,
}
use vitaki_vitarps.Stats.PacketStats.{PacketStats, get, push_seqs, seq_lost, u64}
use vitaki_vitarps.Stats.PacketLaws.{greatest, get-push_seqs, seq_lost_wraps}
use vitaki_vitarps.Stats.VideoGap.{GapState}

abbrev stats : ℕ → ℕ → ℕ → PacketStats
stats seq_min seq_max seq_received = record {
  gen_received = 20;
  gen_lost = 3;
  seq_min = seq_min;
  seq_max = seq_max;
  seq_received = seq_received;
}

abbrev arrived : List ℕ
arrived = 101 ∷ 104 ∷ 102 ∷ 105 ∷ []

-- Of the numbers 101 to 105, 103 is lost and 102 comes late.
get-push_seqs_example :
    let (received, lost, left) = get (some (push_seqs (stats 100 100 0) arrived)) true in
    let d = greatest 100 arrived - 100 in
    (received ≡ (20 + length arrived) % u64)
    × (lost ≡ (3 + (if ltb d (length arrived) then d else d - length arrived)) % u64)
get-push_seqs_example =
    get-push_seqs (stats 100 100 0) arrived true refl refl (omega arith) (omega arith) (
      (omega arith, omega arith),
      ((omega arith, omega arith), ((omega arith, omega arith), ((omega arith, omega arith), tt))),
    )

seq_lost_wraps_example : 2 ^ 63 ≤ seq_lost (stats 0xfff0 5 21)
seq_lost_wraps_example =
    seq_lost_wraps (stats 0xfff0 5 21) (omega arith) (omega arith) (omega arith)

abbrev no_gap : GapState
no_gap = record { pending = false; start = 0; end = 0; deadline_ms = 0 }
