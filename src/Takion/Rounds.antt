-- ===== src/Takion/Rounds.antt =====
-- A round of the loop of takion_flush_data_queue, by what the queue holds.
use vitaki_vitarps.Base.{
  ℕ, ◌≤◌, ◌≡◌, ◌≢◌, ◌⊎◌, inl, inr, refl, sym, ap, ◌∙◌, false, none, some, ltb, ◌==◌, if◌then◌else◌,
  Bool-cases, Option-cases, subst, ltb→ge, List, [], ◌∷◌, ==→eq, ==→ne,
}
use vitaki_vitarps.ReorderQueue.Queue.{Queue, Dropped, ops_32}
use vitaki_vitarps.ReorderQueue.Valid.{slot}
use vitaki_vitarps.ReorderQueue.Ops.{find_first_set, skip_gap}
use vitaki_vitarps.ReorderQueue.Pull.{IsTail, pull_delivers, pull_waits, skip_gap_lem}
use vitaki_vitarps.ReorderQueue.FirstSet.{IsLive, find_first_set-finds, hint-IsLive}
use vitaki_vitarps.Takion.Jitter.{threshold_us, sub_u64}
use vitaki_vitarps.Takion.DataQueue.{
  Takion, Effect, pulled, skipped, stopped, entry_at, data_drop, data_drops, deliver, skip_head,
  at_gap, behind_gap, flush_round,
}

-- What the drop callback leaves alone.
pub data_drops-queue :
    (now_ms : ℕ) (t : Takion) (ds : List Dropped)
    → ((data_drops now_ms t ds).0.data_queue ≡ t.data_queue)
      × ((data_drops now_ms t ds).0.entries ≡ t.entries)
unfolding data_drops data_drop
data_drops-queue now_ms t [] = (refl, refl)
data_drops-queue now_ms t (d ∷ ds) = data_drops-queue now_ms (data_drop now_ms t d).0 ds

-- The packet at place `j` waits behind a gap, and came no longer ago than the threshold.
pub record IsWaiting (now_us : ℕ) (t : Takion) : Type 0 where
  pub head : slot t.data_queue 0 ≡ none
  pub index : ℕ
  pub user : ℕ
  pub next : slot t.data_queue index ≡ some user
  pub young :
      sub_u64 now_us (entry_at t user).arrival_time_us ≤ threshold_us t.jitter_stats.jitter_us

-- A round that goes on leaves the queue without its first place.
pub record IsStep (t t' : Takion) : Type 0 where
  pub tail : IsTail t.data_queue t'.data_queue
  pub entries : t'.entries ≡ t.entries

abbrev pub Goes : ℕ → ℕ → Takion → Type 0
Goes now_us now_ms t =
    ((t' : Takion) × (seq_num : ℕ) × (effects : List Effect) × (flush_round now_us now_ms t
        ≡ some (t', pulled seq_num, effects))
      × IsStep t t')
    ⊎ ((t' : Takion) × (effects : List Effect) × (flush_round now_us now_ms t
          ≡ some (t', skipped, effects))
        × IsStep t t')
    ⊎ ((t' : Takion) × (flush_round now_us now_ms t ≡ some (t', stopped, []))
        × IsLive t'.data_queue
        × (t'.data_queue.count ≡ t.data_queue.count)
        × ((t'.data_queue.count ≡ 0) ⊎ IsWaiting now_us t'))

round-pull :
    (now_us now_ms : ℕ) (t : Takion) (u : ℕ)
    → IsLive t.data_queue
    → slot t.data_queue 0 ≡ some u
    → Goes now_us now_ms t
unfolding flush_round
round-pull now_us now_ms t u v h =
    let (r, eq, tail) = pull_delivers t.data_queue u v.valid h in
    inl (
      record t { data_queue = r },
      t.data_queue.begin,
      deliver t u,
      rw (eq, flush_round) refl,
      record { tail = tail; entries = refl },
    )

round-gap :
    (now_us now_ms : ℕ) (t : Takion)
    → IsLive t.data_queue
    → slot t.data_queue 0 ≡ none
    → flush_round now_us now_ms t ≡ some (at_gap now_us now_ms t)
unfolding flush_round
round-gap now_us now_ms t v h = rw (pull_waits t.data_queue v.valid h, flush_round) refl

abbrev peeked : Takion → ℕ → ℕ → Takion
peeked t j age = record t {
  data_queue = record (t.data_queue) { first_set_hint_index = j };
  jitter_stats = record (t.jitter_stats) { last_first_set_offset = j; last_head_gap_age_us = age };
}

gap-found :
    (now_us now_ms : ℕ) (t : Takion) (j s u : ℕ)
    → (t.data_queue.count == 0) ≡ false
    → find_first_set ops_32 t.data_queue
      ≡ (record (t.data_queue) { first_set_hint_index = j }, some (j, s, u))
    → let age = sub_u64 now_us (entry_at t u).arrival_time_us in
      at_gap now_us now_ms t ≡ (
        if ltb (threshold_us t.jitter_stats.jitter_us) age
        then skip_head now_ms (peeked t j age) t.data_queue.begin
        else (peeked t j age, stopped, []))
unfolding at_gap behind_gap
gap-found now_us now_ms t j s u e found = rw (e, found) refl

hint-IsTail : (q r : Queue) (j : ℕ) → IsTail (record q { first_set_hint_index = j }) r → IsTail q r
unfolding slot
hint-IsTail q r j t = record {
  valid = t.valid;
  begin = t.begin;
  count = t.count;
  size_exp = t.size_exp;
  drop_strategy = t.drop_strategy;
  slots = t.slots;
}

skip_head-IsStep :
    (now_ms j age : ℕ) (t : Takion)
    → IsLive t.data_queue
    → t.data_queue.count ≢ 0
    → IsStep t (skip_head now_ms (peeked t j age) t.data_queue.begin).0
skip_head-IsStep now_ms j age t v h =
    let q = t.data_queue in
    let q' : Queue = record q { first_set_hint_index = j } in
    let same = data_drops-queue now_ms _ (skip_gap ops_32 q').1 in
    record {
      tail =
          subst (IsTail q) (sym same.0)
            (hint-IsTail q _ j (skip_gap_lem q' (hint-IsLive q j v).valid h).0);
      entries = same.1;
    }

round_at_gap :
    (now_us now_ms : ℕ) (t : Takion)
    → IsLive t.data_queue
    → slot t.data_queue 0 ≡ none
    → Goes now_us now_ms t
unfolding at_gap slot
round_at_gap now_us now_ms t v h = elim (Bool-cases (t.data_queue.count == 0)) [
  | inl e ↦ inr (
      inr (
        t,
        round-gap now_us now_ms t v h ∙ ap some (rw (e, at_gap) refl),
        v,
        refl,
        inl (==→eq _ _ e),
      ))
  | inr e ↦
      let (j, u, found, at) = find_first_set-finds t.data_queue v (==→ne _ _ e) in
      let age = sub_u64 now_us (entry_at t u).arrival_time_us in
      let now = round-gap now_us now_ms t v h ∙ ap some (gap-found now_us now_ms t j _ u e found) in
      elim (Bool-cases (ltb (threshold_us t.jitter_stats.jitter_us) age)) [
        | inl old ↦ inr (
            inl (
              _,
              _,
              now
                  ∙ ap
                      (λ b. some (
                        if b
                        then skip_head now_ms (peeked t j age) t.data_queue.begin
                        else (peeked t j age, stopped, [])))
                      old,
              skip_head-IsStep now_ms j age t v (==→ne _ _ e),
            ))
        | inr young ↦ inr (
            inr (
              peeked t j age,
              now
                  ∙ ap
                      (λ b. some (
                        if b
                        then skip_head now_ms (peeked t j age) t.data_queue.begin
                        else (peeked t j age, stopped, [])))
                      young,
              hint-IsLive t.data_queue j v,
              refl,
              inr (record { head = h; index = j; user = u; next = at; young = ltb→ge _ _ young }),
            ))
      ]
]

pub round-Goes : (now_us now_ms : ℕ) (t : Takion) → IsLive t.data_queue → Goes now_us now_ms t
round-Goes now_us now_ms t v = elim (Option-cases (slot t.data_queue 0)) [
  | inl e ↦ round_at_gap now_us now_ms t v e
  | inr (u, e) ↦ round-pull now_us now_ms t u v e
]
