-- ===== src/Takion/FlushLaws.antt =====
-- takion_flush_data_queue ends, and what it leaves in the queue.
use vitaki_vitarps.Base.{
  ℕ, zero, suc, ◌+◌, ◌≤◌, ◌≡◌, ◌⊎◌, inl, inr, refl, false, Option, none, some, arith, List, [],
  ◌++◌, subst,
}
use vitaki_vitarps.ReorderQueue.FirstSet.{IsLive, IsTail-IsLive}
use vitaki_vitarps.Takion.Jitter.{log_jitter_summary}
use vitaki_vitarps.Takion.DataQueue.{
  Takion, Effect, pulled, skipped, stopped, flush_round, flush_from, flush_data_queue, ack_effects,
}
use vitaki_vitarps.Takion.Rounds.{IsWaiting, round-Goes}

-- The loop ended, and left: a live queue that is no longer than before, and is empty or waits, by
-- what the clock gave with as many rounds left as the queue has places in use now. Each round before
-- took one of its places.
pub record IsSettled (clock : ℕ → ℕ × ℕ) (t t' : Takion) : Type 0 where
  pub live : IsLive t'.data_queue
  pub count : t'.data_queue.count ≤ t.data_queue.count
  pub rest : (t'.data_queue.count ≡ 0) ⊎ IsWaiting ((clock t'.data_queue.count).0) t'

flush-pulled :
    (clock : ℕ → ℕ × ℕ) (n : ℕ) (t t' t'' : Takion) (ack ack' : Option ℕ) (seq_num : ℕ)
    (effects more : List Effect)
    → flush_round (clock n).0 (clock n).1 t ≡ some (t', pulled seq_num, effects)
    → flush_from clock n t' (some seq_num) ≡ some (t'', ack', more)
    → flush_from clock (suc n) t ack ≡ some (t'', ack', effects ++ more)
unfolding flush_from
flush-pulled clock n t t' t'' ack ack' seq_num effects more e r = rw (e, r, flush_from) refl

flush-skipped :
    (clock : ℕ → ℕ × ℕ) (n : ℕ) (t t' t'' : Takion) (ack ack' : Option ℕ)
    (effects more : List Effect)
    → flush_round (clock n).0 (clock n).1 t ≡ some (t', skipped, effects)
    → flush_from clock n t' ack ≡ some (t'', ack', more)
    → flush_from clock (suc n) t ack ≡ some (t'', ack', effects ++ more)
unfolding flush_from
flush-skipped clock n t t' t'' ack ack' effects more e r = rw (e, r, flush_from) refl

flush-stopped :
    (clock : ℕ → ℕ × ℕ) (n : ℕ) (t t' : Takion) (ack : Option ℕ) (effects : List Effect)
    → flush_round (clock n).0 (clock n).1 t ≡ some (t', stopped, effects)
    → flush_from clock (suc n) t ack ≡ some (t', ack, effects)
unfolding flush_from
flush-stopped clock n t t' ack effects e = rw (e, flush_from) refl

abbrev Ends : (ℕ → ℕ × ℕ) → ℕ → Takion → Option ℕ → Type 0
Ends clock n t ack =
    (t' : Takion) × (ack' : Option ℕ) × (effects : List Effect) × (flush_from clock n t ack
      ≡ some (t', ack', effects))
    × IsSettled clock t t'

flush_from-Ends :
    (clock : ℕ → ℕ × ℕ) (n : ℕ) (t : Takion) (ack : Option ℕ)
    → IsLive t.data_queue
    → t.data_queue.count + 1 ≡ n
    → Ends clock n t ack
flush_from-Ends clock zero t ack v h = absurd (omega (arith, h))
flush_from-Ends clock (suc n) t ack v h = elim (round-Goes (clock n).0 (clock n).1 t v) [
  | inl (t', seq_num, effects, e, s) ↦
      let (t'', ack', more, r, w) =
        flush_from-Ends clock n t' (some seq_num) (IsTail-IsLive _ _ v s.tail)
          (omega (arith, h, s.tail.count)) in
      (
        t'',
        ack',
        effects ++ more,
        flush-pulled clock n t t' t'' ack ack' seq_num effects more e r,
        record { live = w.live; count = omega (arith, w.count, s.tail.count); rest = w.rest },
      )
  | inr (inl (t', effects, e, s)) ↦
      let (t'', ack', more, r, w) =
        flush_from-Ends clock n t' ack (IsTail-IsLive _ _ v s.tail)
          (omega (arith, h, s.tail.count)) in
      (
        t'',
        ack',
        effects ++ more,
        flush-skipped clock n t t' t'' ack ack' effects more e r,
        record { live = w.live; count = omega (arith, w.count, s.tail.count); rest = w.rest },
      )
  | inr (inr (t', e, live, count, rest)) ↦ (
    t',
    ack,
    [],
    flush-stopped clock n t t' ack [] e,
    record {
      live = live;
      count = omega (arith, count);
      rest =
          subst (λ k. (t'.data_queue.count ≡ 0) ⊎ IsWaiting ((clock k).0) t')
            (omega (arith, count, h)) rest;
    },
  )
]

-- From a live queue the loop ends within one round more than the window has places in use. The
-- queue is live then and no longer than before; it is empty, or its first packet is missing and one
-- behind it came no longer ago than the threshold that its jitter sets, by the clock's last reading:
-- the clock is read once in each round, and every round but the last takes one place off the queue,
-- so this is the reading with as many rounds left as places are in use at the end.
pub flush_data_queue_ends :
    (clock : ℕ → ℕ × ℕ) (end_ms : ℕ) (t : Takion)
    → IsLive t.data_queue
    → (t' : Takion) × (effects : List Effect) × (flush_data_queue clock end_ms t
        ≡ some
            (record t' { jitter_stats = log_jitter_summary t'.jitter_stats end_ms false }, effects))
      × IsSettled clock t t'
unfolding flush_data_queue
flush_data_queue_ends clock end_ms t v =
    let (t', ack, effects, e, w) =
      flush_from-Ends clock (suc t.data_queue.count) t none v (omega arith) in
    (t', effects ++ ack_effects ack, rw (e, flush_data_queue) refl, w)
