-- ===== src/SendBuffer/Tests.antt =====
-- A send buffer of four packets, two in use: its numbers lie on both sides of the wrap.
use vitaki_vitarps.Base.{
  List, ℕ, ◌+◌, ◌-◌, ◌^◌, ◌≤◌, ◌≡◌, refl, true, false, [], ◌∷◌, arith, map, success, All,
}
use vitaki_vitarps.SeqNum.{seq_num_32_lt, seq_num_lt}
use vitaki_vitarps.SendBuffer.Buffer.{Effect, Packet, Buffer, free, blank, in_use, ack}
use vitaki_vitarps.SendBuffer.Ack.{IsValid, ack_lem, taken, kept}
use vitaki_vitarps.SendBuffer.Resend.{resend, resend_from, tries_max}
use vitaki_vitarps.SendBuffer.ResendLaws.{resend_lem, resend_overruns}

abbrev waiting : ℕ → ℕ → ℕ → ℕ → Packet
waiting seq_num tries last_send_ms buf = record {
  seq_num = seq_num;
  tries = tries;
  last_send_ms = last_send_ms;
  buf = buf;
  buf_size = 8;
}

abbrev top : ℕ
top = 2 ^ 32 - 1

-- The first packet was sent lately, the second has had its ten tries.
abbrev young : Packet
young = waiting top 1 900 50

abbrev worn : Packet
worn = waiting 0 10 100 51

abbrev two : Buffer
two = record {
  packets = young ∷ worn ∷ blank ∷ blank ∷ [];
  packets_size = 4;
  packets_count = 2;
  should_stop = false;
}

abbrev full : Buffer
full = record {
  packets = young ∷ worn ∷ [];
  packets_size = 2;
  packets_count = 2;
  should_stop = false;
}

two-IsValid : IsValid two
two-IsValid = record { array = refl; count_in = omega arith; size_small = omega arith }

young_before : seq_num_32_lt top 0 ≡ true
unfolding seq_num_lt
young_before = refl

ack_example :
    let (e, r, acked, effects) = ack seq_num_32_lt success two top in
    (e ≡ success)
    × (in_use r ≡ kept seq_num_32_lt top (in_use two))
    × (acked ≡ map (λ p. p.seq_num) (taken seq_num_32_lt top (in_use two)))
    × (effects ≡ map free (map (λ p. p.buf) (taken seq_num_32_lt top (in_use two))))
    × IsValid r
    × (r.packets_size ≡ two.packets_size)
ack_example = ack_lem seq_num_32_lt two top two-IsValid

resend_example :
    let r = resend seq_num_32_lt 200 1000 true two in
    IsValid r.buffer
    × All (λ p. p.tries ≤ tries_max) (in_use r.buffer)
    × (resend_from seq_num_32_lt 200 1000 (two.packets_count + 5) 0 two ≡ r)
resend_example =
    resend_lem seq_num_32_lt 200 1000 two 5 two-IsValid (omega arith, (omega arith, tt))

resend_overruns_example :
    let r = resend seq_num_32_lt 200 1000 true two in
    let (_, left, acked, _) = ack seq_num_32_lt success two worn.seq_num in
    (r.overrun ≡ true)
    × ((more : List Effect) × (r.effects ≡ free young.buf ∷ free worn.buf ∷ more))
    × ((numbers : List ℕ) × (acked ≡ young.seq_num ∷ worn.seq_num ∷ numbers))
    × (in_use left ≡ kept seq_num_32_lt worn.seq_num [])
resend_overruns_example =
    resend_overruns seq_num_32_lt 200 1000 two young worn [] two-IsValid refl refl refl
      (omega arith) young_before
