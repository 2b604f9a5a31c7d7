-- ===== src/SendBuffer/ResendLaws.antt =====
-- Resending ends, keeps the invariant, and can write past the variable that it gives to `ack`.
use vitaki_vitarps.Base.{
  ℕ, zero, suc, ◌+◌, ◌≤◌, ◌<◌, ◌≡◌, ◌⊎◌, inl, inr, refl, sym, ap, ◌∙◌, subst, Bool, true, false,
  not, ◌||◌, List, [], ◌∷◌, ◌++◌, map, arith, length, set, get_or, keep_if, length-set, get_or-take,
  take-set, length-keep_if_lt, All, All-keep_if, All-set, ltb, leb, success, le→leb, gt→leb,
  length-take, eq→==,
}
use vitaki_vitarps.SendBuffer.Buffer.{
  free, Effect, Packet, Buffer, blank, ack, send_raw, in_use, acks,
}
use vitaki_vitarps.SendBuffer.Ack.{IsValid, ack_lem, taken, kept}
use vitaki_vitarps.SendBuffer.Resend.{
  Resent, ends, waits, gives_up, sends, action, resend_from, resend, is_due, sent_again, tries_max,
}

abbrev packet_at : Buffer → ℕ → Packet
packet_at b i = get_or b.packets i blank

abbrev resent_at : ℕ → Buffer → ℕ → Buffer
resent_at now b i = record b { packets = set b.packets i (sent_again now (packet_at b i)) }

length-in_use : (b : Buffer) → IsValid b → length (in_use b) ≡ b.packets_count
length-in_use b v = length-take b.packets_count b.packets (omega (arith, v.array, v.count_in))

acks_itself : (lt : ℕ → ℕ → Bool) (p : Packet) → not (acks lt p.seq_num p) ≡ false
acks_itself lt p = rw (eq→== p.seq_num p.seq_num refl)

or_two : (n : ℕ) (b : Bool) → ltb 1 (suc (suc n)) || b ≡ true
or_two n b = ground arith

module _ (lt : ℕ → ℕ → Bool) (t now : ℕ) where
  abbrev without : Buffer → ℕ → Buffer
  without b i = (ack lt success b (packet_at b i).seq_num).1

  abbrev run : ℕ → ℕ → Buffer → Resent
  run = resend_from lt t now

  abbrev drop_then : ℕ → Buffer → Resent → Resent
  drop_then i b r =
      let a = ack lt success b (packet_at b i).seq_num in
      record {
        buffer = r.buffer;
        effects = a.3 ++ r.effects;
        overrun = ltb 1 (length a.2) || r.overrun;
      }

  abbrev send_then : ℕ → Buffer → Resent → Resent
  send_then i b r = record r {
    effects = send_raw (packet_at b i).buf (packet_at b i).buf_size ∷ r.effects;
  }

  abbrev given_up : ℕ → ℕ → Buffer → Resent
  given_up f i b = drop_then i b (run f i (without b i))

  abbrev sent : ℕ → ℕ → Buffer → Resent
  sent f i b = send_then i b (run f (i + 1) (resent_at now b i))

  -- The four things that a round may do.
  data Round (f i : ℕ) (b : Buffer) : Type 0 where
    at_end :
        b.packets_count ≤ i
        → run (suc f) i b ≡ record { buffer = b; effects = []; overrun = false }
        → Round f i b
    skips : i < b.packets_count → run (suc f) i b ≡ run f (i + 1) b → Round f i b
    drops : i < b.packets_count → run (suc f) i b ≡ given_up f i b → Round f i b
    repeats :
        i < b.packets_count
        → (packet_at b i).tries < tries_max
        → run (suc f) i b ≡ sent f i b
        → Round f i b

  Action-cases :
      (i : ℕ) (b : Buffer)
      → ((action t now i b ≡ ends) × (b.packets_count ≤ i))
        ⊎ ((action t now i b ≡ waits) × (i < b.packets_count))
        ⊎ ((action t now i b ≡ gives_up) × (i < b.packets_count))
        ⊎ ((action t now i b ≡ sends) × (i < b.packets_count) × ((packet_at b i).tries < tries_max))
  unfolding action
  Action-cases i b = ground arith

  module _ (f i : ℕ) (b : Buffer) where
    run_ends :
        action t now i b ≡ ends
        → run (suc f) i b ≡ record { buffer = b; effects = []; overrun = false }
    unfolding resend_from
    run_ends e = rw (e, resend_from)

    run-waits : action t now i b ≡ waits → run (suc f) i b ≡ run f (i + 1) b
    unfolding resend_from
    run-waits e = rw (e, resend_from)

    run_gives_up : action t now i b ≡ gives_up → run (suc f) i b ≡ given_up f i b
    unfolding resend_from
    run_gives_up e = rw (e, resend_from)

    run_sends : action t now i b ≡ sends → run (suc f) i b ≡ sent f i b
    unfolding resend_from
    run_sends e = rw (e, resend_from)

  resend-Round : (f i : ℕ) (b : Buffer) → Round f i b
  resend-Round f i b = elim (Action-cases i b) [
    | inl (e, h) ↦ at_end h (run_ends f i b e)
    | inr (inl (e, h)) ↦ skips h (run-waits f i b e)
    | inr (inr (inl (e, h))) ↦ drops h (run_gives_up f i b e)
    | inr (inr (inr (e, h, k))) ↦ repeats h k (run_sends f i b e)
  ]

  -- What a round needs: validity, and at most `tries_max` tries.
  record Inv (b : Buffer) : Type 0 where
    valid : IsValid b
    tries : All (λ p. p.tries ≤ tries_max) (in_use b)

  without-Inv :
      (b : Buffer) (i : ℕ)
      → Inv b
      → i < b.packets_count
      → Inv (without b i) × ((without b i).packets_count < b.packets_count)
  without-Inv b i v h =
      let (e, left, acked, effects, valid, size) = ack_lem lt b (packet_at b i).seq_num v.valid in
      (
        record {
          valid = valid;
          tries =
              subst (All (λ p. p.tries ≤ tries_max)) (sym left)
                (All-keep_if _ _ (in_use b) v.tries);
        },
        omega (
          arith,
          length-in_use (without b i) valid,
          length-in_use b v.valid,
          ap length left,
          length-keep_if_lt (λ p. not (acks lt (packet_at b i).seq_num p)) (in_use b) i blank
              (omega (arith, length-in_use b v.valid))
              (ap (λ p. not (acks lt (packet_at b i).seq_num p))
                  (get_or-take b.packets_count b.packets i blank h)
                ∙ acks_itself lt (packet_at b i)),
        ),
      )

  resent_at-Inv :
      (b : Buffer) (i : ℕ) → Inv b → (packet_at b i).tries < tries_max → Inv (resent_at now b i)
  resent_at-Inv b i v h = record {
    valid = record {
      array = length-set b.packets i _ ∙ v.valid.array;
      count_in = v.valid.count_in;
      size_small = v.valid.size_small;
    };
    tries =
        subst (All (λ p. p.tries ≤ tries_max)) (sym (take-set b.packets_count b.packets i _))
          (All-set _ (in_use b) i (sent_again now (packet_at b i)) v.tries (omega arith));
  }

  out_of_fuel : (f i : ℕ) (b : Buffer) → b.packets_count ≤ i → run 0 i b ≡ run f i b
  unfolding resend_from
  out_of_fuel zero i b h = refl
  out_of_fuel (suc f) i b h = elim (resend-Round f i b) [
    | at_end g e ↦ sym e
    | skips g e ↦ absurd (omega arith)
    | drops g e ↦ absurd (omega arith)
    | repeats g k e ↦ absurd (omega arith)
  ]

  -- A longer fuel makes no difference once it covers the packets that are left.
  resend_from-fuel :
      (f f' i : ℕ) (b : Buffer)
      → Inv b
      → b.packets_count ≤ f + i
      → b.packets_count ≤ f' + i
      → run f i b ≡ run f' i b
  resend_from-fuel zero f' i b v h h' = out_of_fuel f' i b (omega arith)
  resend_from-fuel (suc f) zero i b v h h' = sym (out_of_fuel (suc f) i b (omega arith))
  resend_from-fuel (suc f) (suc f') i b v h h' = elim (Action-cases i b) [
    | inl (e, k) ↦ run_ends f i b e ∙ sym (run_ends f' i b e)
    | inr (inl (e, k)) ↦
        run-waits f i b e
        ∙ resend_from-fuel f f' (i + 1) b v (omega arith) (omega arith)
        ∙ sym (run-waits f' i b e)
    | inr (inr (inl (e, k))) ↦
        let (w, less) = without-Inv b i v k in
        run_gives_up f i b e
        ∙ ap (drop_then i b)
            (resend_from-fuel f f' i (without b i) w (omega (arith, less)) (omega (arith, less)))
        ∙ sym (run_gives_up f' i b e)
    | inr (inr (inr (e, k, m))) ↦
        run_sends f i b e
        ∙ ap (send_then i b) (
            resend_from-fuel f f' (i + 1) (resent_at now b i) (resent_at-Inv b i v m) (omega arith)
              (omega arith))
        ∙ sym (run_sends f' i b e)
  ]

  resend_from-Inv : (f i : ℕ) (b : Buffer) → Inv b → Inv (run f i b).buffer
  unfolding resend_from
  resend_from-Inv zero i b v = v
  resend_from-Inv (suc f) i b v = elim (resend-Round f i b) [
    | at_end h e ↦ subst (λ r. Inv r.buffer) (sym e) v
    | skips h e ↦ subst (λ r. Inv r.buffer) (sym e) (resend_from-Inv f (i + 1) b v)
    | drops h e ↦
        subst (λ r. Inv r.buffer) (sym e)
          (resend_from-Inv f i (without b i) (without-Inv b i v h).0)
    | repeats h k e ↦
        subst (λ r. Inv r.buffer) (sym e)
          (resend_from-Inv f (i + 1) (resent_at now b i) (resent_at-Inv b i v k))
  ]

  -- Resending keeps a buffer valid and every packet within ten tries; and the count of packets is
  -- fuel enough: more rounds change nothing.
  pub resend_lem :
      (b : Buffer) (more : ℕ)
      → IsValid b
      → All (λ p. p.tries ≤ tries_max) (in_use b)
      → let r = resend lt t now true b in
        IsValid r.buffer
        × All (λ p. p.tries ≤ tries_max) (in_use r.buffer)
        × (resend_from lt t now (b.packets_count + more) 0 b ≡ r)
  unfolding resend
  resend_lem b more v a =
      let i : Inv b = record { valid = v; tries = a } in
      let r = resend_from-Inv b.packets_count 0 b i in
      (
        r.valid,
        r.tries,
        resend_from-fuel (b.packets_count + more) b.packets_count 0 b i (omega arith) (omega arith),
      )

  waits_at :
      (b : Buffer) (i : ℕ) (p : Packet)
      → i < b.packets_count
      → packet_at b i ≡ p
      → is_due t now p ≡ false
      → action t now i b ≡ waits
  unfolding action
  waits_at b i p h e d = rw (gt→leb b.packets_count i h, ap (is_due t now) e ∙ d)

  gives_up_at :
      (b : Buffer) (i : ℕ) (p : Packet)
      → i < b.packets_count
      → packet_at b i ≡ p
      → is_due t now p ≡ true
      → tries_max ≤ p.tries
      → action t now i b ≡ gives_up
  unfolding action
  gives_up_at b i p h e d m =
      rw (gt→leb b.packets_count i h, ap (is_due t now) e ∙ d)
        (rw (ap (λ q. leb tries_max q.tries) e ∙ le→leb tries_max p.tries m))

  -- The numbers that `ack` writes when the first two packets go.

  -- Giving up on `y` behind `x`: what `ack` leaves, writes and frees.
  acked_two :
      (b : Buffer) (x y : Packet) (rest : List Packet)
      → IsValid b
      → in_use b ≡ x ∷ y ∷ rest
      → lt x.seq_num y.seq_num ≡ true
      → let (_, r, acked, freed) = ack lt success b y.seq_num in
        (in_use r ≡ kept lt y.seq_num rest)
        × (acked ≡ x.seq_num ∷ y.seq_num ∷ map (λ p. p.seq_num) (taken lt y.seq_num rest))
        × (freed ≡ free x.buf ∷ free y.buf ∷ map free (map (λ p. p.buf) (taken lt y.seq_num rest)))
  unfolding keep_if
  acked_two b x y rest v e l =
      let (_, used, acked, freed, _, _) = ack_lem lt b y.seq_num v in
      (
        used ∙ ap (kept lt y.seq_num) e ∙ ground (arith, l),
        acked
            ∙ ap (λ ps. map (λ (p : Packet). p.seq_num) (taken lt y.seq_num ps)) e
            ∙ ground (arith, l),
        freed
            ∙ ap (λ ps. map free (map (λ (p : Packet). p.buf) (taken lt y.seq_num ps))) e
            ∙ ground (arith, l),
      )

  -- When the second packet of a valid buffer is due and has had its ten tries, and the first one is
  -- not due, but its number comes before: giving up on the second takes the first too. The call of
  -- `ack` for it writes two numbers at least, where the caller has room for one, and leaves neither
  -- packet in the buffer; resending frees the bytes of both, and reports the overrun.
  pub resend_overruns :
      (b : Buffer) (x y : Packet) (rest : List Packet)
      → IsValid b
      → in_use b ≡ x ∷ y ∷ rest
      → is_due t now x ≡ false
      → is_due t now y ≡ true
      → tries_max ≤ y.tries
      → lt x.seq_num y.seq_num ≡ true
      → let r = resend lt t now true b in
        let (_, left, acked, _) = ack lt success b y.seq_num in
        (r.overrun ≡ true)
        × ((more : List Effect) × (r.effects ≡ free x.buf ∷ free y.buf ∷ more))
        × ((numbers : List ℕ) × (acked ≡ x.seq_num ∷ y.seq_num ∷ numbers))
        × (in_use left ≡ kept lt y.seq_num rest)
  unfolding resend
  resend_overruns b x y rest v e dx dy my l =
      let two : b.packets_count ≡ suc (suc (length rest)) = sym (length-in_use b v) ∙ ap length e in
      let first : packet_at b 0 ≡ x =
        sym (get_or-take b.packets_count b.packets 0 blank (omega arith))
        ∙ ap (λ l. get_or l 0 blank) e in
      let second : packet_at b 1 ≡ y =
        sym (get_or-take b.packets_count b.packets 1 blank (omega arith))
        ∙ ap (λ l. get_or l 1 blank) e in
      let (left, acked, freed) = acked_two b x y rest v e l in
      let later = run (length rest) 1 (without b 1) in
      let whole : run b.packets_count 0 b ≡ given_up (length rest) 1 b =
        ap (λ n. run n 0 b) two
        ∙ run-waits (suc (length rest)) 0 b (waits_at b 0 x (omega arith) first dx)
        ∙ run_gives_up (length rest) 1 b (gives_up_at b 1 y (omega arith) second dy my) in
      let at_y : ack lt success b (packet_at b 1).seq_num ≡ ack lt success b y.seq_num =
        ap (λ p. ack lt success b p.seq_num) second in
      (
        ap (λ r. r.overrun) whole
            ∙ ap (λ n. ltb 1 n || later.overrun) (ap (λ a. length a.2) at_y ∙ ap length acked)
            ∙ or_two (length (map (λ (p : Packet). p.seq_num) (taken lt y.seq_num rest))) _,
        (
          _,
          ap (λ r. r.effects) whole
              ∙ ap (λ a. a.3 ++ later.effects) at_y
              ∙ ap (λ f. f ++ later.effects) freed,
        ),
        (_, acked),
        left,
      )
