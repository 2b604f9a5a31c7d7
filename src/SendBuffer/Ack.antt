-- ===== src/SendBuffer/Ack.antt =====
-- The gap-closing loop of `ack` against the filter that it stands for.
use mathlib.Core.List.{append-nil, append_assoc}
use vitaki_vitarps.Base.{
  ℕ, ◌+◌, ◌≤◌, ◌<◌, ◌≡◌, inl, inr, refl, sym, ap, ◌∙◌, subst, Bool, true, false, not, List, [], ◌∷◌,
  ◌++◌, map, arith, length, take, drop, get_or, keep_if, length-keep_if, take-drop, length-take,
  length-append, take-append, get_or-append, Bool-cases, if◌then◌else◌, success, eq→==,
}
use vitaki_vitarps.SendBuffer.Buffer.{
  Packet, Buffer, Gap, blank, size_max, ack_packet, close_gap, acks, ack_from, ack, in_use, free,
}
use vitaki_vitarps.SendBuffer.Gap.{
  IsClosed, IsGap, moved, length_moved, widened, shifted, opened, ack_open, ack_widen, ack_shift,
  note_first, skip-IsGap, widen-IsGap, behind, shift-IsGap, recast, close_none, read,
}

module _ (lt : ℕ → ℕ → Bool) (seq_num : ℕ) where
  -- The packets that an acknowledgement of `seq_num` takes, and those that it leaves.
  abbrev pub taken : List Packet → List Packet
  taken = keep_if (acks lt seq_num)

  abbrev pub kept : List Packet → List Packet
  kept = keep_if (λ p. not (acks lt seq_num p))

  abbrev loop : List Packet → ℕ → Gap → Gap
  loop U i g = ack_from lt seq_num (length U) i g

  loop_skip :
      (u : Packet) (U : List Packet) (i : ℕ) (g : Gap)
      → get_or g.packets i blank ≡ u
      → acks lt seq_num u ≡ false
      → loop (u ∷ U) i g ≡ loop U (i + 1) g
  unfolding ack_from
  loop_skip u U i g at e =
      ap (λ b. loop U (i + 1) (if b then ack_packet i g else g)) (ap (acks lt seq_num) at ∙ e)

  loop_take :
      (u : Packet) (U : List Packet) (i : ℕ) (g : Gap)
      → get_or g.packets i blank ≡ u
      → acks lt seq_num u ≡ true
      → loop (u ∷ U) i g ≡ loop U (i + 1) (ack_packet i g)
  unfolding ack_from
  loop_take u U i g at e =
      ap (λ b. loop U (i + 1) (if b then ack_packet i g else g)) (ap (acks lt seq_num) at ∙ e)

  kept_stays :
      (u : Packet) (U : List Packet) → acks lt seq_num u ≡ false → kept (u ∷ U) ≡ u ∷ kept U
  unfolding keep_if
  kept_stays u U e = rw e

  taken_stays : (u : Packet) (U : List Packet) → acks lt seq_num u ≡ false → taken (u ∷ U) ≡ taken U
  unfolding keep_if
  taken_stays u U e = rw e

  kept_goes : (u : Packet) (U : List Packet) → acks lt seq_num u ≡ true → kept (u ∷ U) ≡ kept U
  unfolding keep_if
  kept_goes u U e = rw e

  taken_goes :
      (u : Packet) (U : List Packet) → acks lt seq_num u ≡ true → taken (u ∷ U) ≡ u ∷ taken U
  unfolding keep_if
  taken_goes u U e = rw e

  loop_gap :
      (U K J M T : List Packet) (i count : ℕ) (g : Gap)
      → IsGap K J M (U ++ T) i g
      → count ≡ i + length U
      → count < size_max
      → IsClosed (K ++ (M ++ kept U)) (taken U) count g (loop U i g)
  unfolding ack_from keep_if
  loop_gap [] K J M T i count g s e h =
      let same : i ≡ count = omega arith in
      subst (λ c. IsClosed (K ++ (M ++ [])) [] c g g) same (close_none K J M T i g s)
  loop_gap (u ∷ U) K J [] T i count g s e h = elim (Bool-cases (acks lt seq_num u)) [
    | inr stays ↦
        recast count g (ap (◌++◌ K) (sym (kept_stays u U stays))) (sym (taken_stays u U stays))
          (sym (loop_skip u U i g (read u K J [] (U ++ T) i g s) stays))
          (loop_gap U K J (u ∷ []) T (i + 1) count g
            (skip-IsGap u K J [] (U ++ T) i g (omega arith) s) (omega arith) h)
    | inl goes ↦
        let at = read u K J [] (U ++ T) i g s in
        recast count g (ap (◌++◌ K) (sym (kept_goes u U goes))) (sym (taken_goes u U goes))
          (sym (
            loop_take u U i g at goes
            ∙ ap (loop U (i + 1)) (
                ack_widen i g (omega (arith, s.start, s.index, s.small))
                  (omega (arith, s.start, s.index, s.width))
                ∙ ap (λ p. widened p g) at)))
          (note_first u _ _ count g (widened u g) _ refl refl refl (
            loop_gap U K (J ++ u ∷ []) [] T (i + 1) count (widened u g)
              (widen-IsGap u K J (U ++ T) i g (omega arith) s) (omega arith) h))
  ]
  loop_gap (u ∷ U) K J (m ∷ M) T i count g s e h = elim (Bool-cases (acks lt seq_num u)) [
    | inr stays ↦
        recast count g
          (ap (◌++◌ K) (
            append_assoc (m ∷ M) (u ∷ []) (kept U)
            ∙ ap (◌++◌ (m ∷ M)) (sym (kept_stays u U stays))))
          (sym (taken_stays u U stays))
          (sym (loop_skip u U i g (read u K J (m ∷ M) (U ++ T) i g s) stays))
          (loop_gap U K J (m ∷ M ++ u ∷ []) T (i + 1) count g
            (skip-IsGap u K J (m ∷ M) (U ++ T) i g (omega arith) s) (omega arith) h)
    | inl goes ↦
        let at = read u K J (m ∷ M) (U ++ T) i g s in
        recast count g
          (append_assoc K (m ∷ M) (kept U) ∙ ap (λ k. K ++ m ∷ (M ++ k)) (sym (kept_goes u U goes)))
          (sym (taken_goes u U goes))
          (sym (
            loop_take u U i g at goes
            ∙ ap (loop U (i + 1)) (
                ack_shift i g (omega (arith, s.start, s.index, s.small))
                  (omega (arith, s.start, s.index, s.width))
                ∙ ap (λ p. shifted p i g) at)))
          (note_first u _ _ count g (shifted u i g) _ refl refl
            (ap length (moved K J (m ∷ M) (u ∷ (U ++ T)) i g s)
              ∙ length_moved K J (m ∷ M) (u ∷ (U ++ T)) i g s)
            (loop_gap U (K ++ m ∷ M) (behind J (m ∷ M) i g u) [] T (i + 1) count (shifted u i g)
              (shift-IsGap u K J (m ∷ M) (U ++ T) i g (omega arith) s) (omega arith) h))
  ]

  opened-IsGap :
      (u : Packet) (K R : List Packet) (i : ℕ) (g : Gap)
      → i + 1 < size_max
      → i ≡ length K
      → g.packets ≡ K ++ u ∷ R
      → IsGap K (u ∷ []) [] R (i + 1) (opened u i g)
  opened-IsGap u K R i g h at arr = record {
    array = arr;
    start = at;
    width = refl;
    open_gap = omega arith;
    index = omega arith;
    small = h;
  }

  -- The loop before the first packet that is acknowledged.
  loop_start :
      (U K T : List Packet) (i count : ℕ) (g : Gap)
      → g.packets ≡ K ++ (U ++ T)
      → g.shift_start ≡ size_max
      → i ≡ length K
      → count ≡ i + length U
      → count < size_max
      → IsClosed (K ++ kept U) (taken U) count g (loop U i g)
  unfolding ack_from keep_if
  loop_start [] K T i count g arr none_yet at e h =
      let done : close_gap count g ≡ (g.packets, count) =
        rw (eq→== g.shift_start size_max none_yet) in
      record {
        in_use_is =
            ap (λ r. take r.1 r.0) done
            ∙ ap (take count) arr
            ∙ take-append K T count (omega arith)
            ∙ sym (append-nil K);
        count_is = ap (λ r. r.1) done ∙ omega (arith, length-append K []);
        size_is = ap (λ r. length r.0) done;
        acked_is = sym (append-nil g.acked);
        freed_is = sym (append-nil g.freed);
      }
  loop_start (u ∷ U) K T i count g arr none_yet at e h =
      let found : get_or g.packets i blank ≡ u =
        ap (λ a. get_or a i blank) arr ∙ get_or-append K (U ++ T) u blank i at in
      elim (Bool-cases (acks lt seq_num u)) [
        | inr stays ↦
            recast count g
              (append_assoc K (u ∷ []) (kept U) ∙ ap (◌++◌ K) (sym (kept_stays u U stays)))
              (sym (taken_stays u U stays)) (sym (loop_skip u U i g found stays))
              (loop_start U (K ++ u ∷ []) T (i + 1) count g (arr ∙ simp append_assoc) none_yet
                (omega (arith, length-append K (u ∷ []))) (omega arith) h)
        | inl goes ↦
            recast count g (ap (◌++◌ K) (sym (kept_goes u U goes))) (sym (taken_goes u U goes))
              (sym (
                loop_take u U i g found goes
                ∙ ap (loop U (i + 1)) (ack_open i g none_yet ∙ ap (λ p. opened p i g) found)))
              (note_first u _ _ count g (opened u i g) _ refl refl refl (
                loop_gap U K (u ∷ []) [] T (i + 1) count (opened u i g)
                  (opened-IsGap u K (U ++ T) i g (omega arith) at arr) (omega arith) h))
      ]

-- What holds of every buffer: the array has its size, and the count is within it.
pub record IsValid (b : Buffer) : Type 0 where
  pub array : length b.packets ≡ b.packets_size
  pub count_in : b.packets_count ≤ b.packets_size
  pub size_small : b.packets_size < size_max

-- An acknowledgement of `seq_num` takes from the packets in use those that have this number or one
-- before it, and leaves the others in their order; it writes the numbers of those taken, frees their
-- bytes, and keeps the buffer valid.
pub ack_lem :
    (lt : ℕ → ℕ → Bool) (b : Buffer) (seq_num : ℕ)
    → IsValid b
    → let (e, r, acked, effects) = ack lt success b seq_num in
      (e ≡ success)
      × (in_use r ≡ kept lt seq_num (in_use b))
      × (acked ≡ map (λ p. p.seq_num) (taken lt seq_num (in_use b)))
      × (effects ≡ map free (map (λ p. p.buf) (taken lt seq_num (in_use b))))
      × IsValid r
      × (r.packets_size ≡ b.packets_size)
unfolding ack
ack_lem lt b seq_num v =
    let g : Gap = record {
      packets = b.packets;
      shift = 0;
      shift_start = size_max;
      acked = [];
      freed = [];
    } in
    let used : length (in_use b) ≡ b.packets_count =
      length-take b.packets_count b.packets (omega (arith, v.array, v.count_in)) in
    let c =
      subst
        (λ n.
          IsClosed (kept lt seq_num (in_use b)) (taken lt seq_num (in_use b)) b.packets_count g
            (ack_from lt seq_num n 0 g))
        used
        (loop_start lt seq_num (in_use b) [] (drop b.packets_count b.packets) 0 b.packets_count g
          (sym (take-drop b.packets_count b.packets)) refl refl (omega (arith, used))
          (omega (arith, v.count_in, v.size_small))) in
    (
      refl,
      c.in_use_is,
      c.acked_is,
      ap (map free) c.freed_is,
      record {
        array = c.size_is ∙ v.array;
        count_in = omega (
          arith,
          c.count_is,
          length-keep_if (λ p. not (acks lt seq_num p)) (in_use b),
          used,
          v.count_in,
        );
        size_small = v.size_small;
      },
      refl,
    )
