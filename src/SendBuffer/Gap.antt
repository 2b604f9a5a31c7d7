-- ===== src/SendBuffer/Gap.antt =====
-- The gap that the loop of `ack` keeps in the array, and what one round does to it.
use mathlib.Core.Path.{transport}
use mathlib.Core.List.{append-nil, append_assoc}
use vitaki_vitarps.Base.{
  ℕ, ◌+◌, ◌-◌, ◌≤◌, ◌<◌, ◌≡◌, ◌≢◌, refl, sym, ap, ap₂, ◌∙◌, List, [], ◌∷◌, ◌++◌, map, arith, length,
  take, drop, get_or, length-append, take-append, get_or-append, move_down, length_move_down, ne→==,
  eq→==, length-drop, ge→ltb, lt→ltb,
}
use vitaki_vitarps.SendBuffer.Buffer.{Packet, Gap, blank, size_max, memmove, ack_packet, close_gap}

-- What the loop and the final shift have done, from the gap `g`: `left` stays in use, `gone` was
-- acknowledged.
pub record IsClosed (left gone : List Packet) (count : ℕ) (g g' : Gap) : Type 0 where
  pub in_use_is : take (close_gap count g').1 (close_gap count g').0 ≡ left
  pub count_is : (close_gap count g').1 ≡ length left
  pub size_is : length (close_gap count g').0 ≡ length g.packets
  pub acked_is : g'.acked ≡ g.acked ++ map (λ p. p.seq_num) gone
  pub freed_is : g'.freed ≡ g.freed ++ map (λ p. p.buf) gone

-- The gap `J` between the entries `K` in place and the entries `M` still to be moved.
pub record IsGap (K J M R : List Packet) (i : ℕ) (g : Gap) : Type 0 where
  pub array : g.packets ≡ K ++ (J ++ (M ++ R))
  pub start : g.shift_start ≡ length K
  pub width : g.shift ≡ length J
  pub open_gap : 0 < length J
  pub index : i ≡ length K + length J + length M
  pub small : i < size_max

pub moved :
    (K J M R : List Packet) (i : ℕ) (g : Gap)
    → IsGap K J M R i g
    → memmove g.packets g.shift_start (g.shift_start + g.shift) (i - (g.shift_start + g.shift))
      ≡ K ++ (M ++ (drop (i - (g.shift_start + g.shift)) (J ++ M) ++ R))
moved K J M R i g s =
    ap (λ a. memmove a g.shift_start (g.shift_start + g.shift) (i - (g.shift_start + g.shift)))
      s.array
    ∙ move_down K J M R g.shift_start g.shift (i - (g.shift_start + g.shift)) s.start s.width
        (omega (arith, s.index, s.start, s.width))

pub length_moved :
    (K J M R : List Packet) (i : ℕ) (g : Gap)
    → IsGap K J M R i g
    → length (K ++ (M ++ (drop (i - (g.shift_start + g.shift)) (J ++ M) ++ R))) ≡ length g.packets
length_moved K J M R i g s =
    length_move_down K J M R (i - (g.shift_start + g.shift))
      (omega (arith, s.index, s.start, s.width))
    ∙ ap length (sym s.array)

pub close_here :
    (i : ℕ) (g : Gap)
    → g.shift_start < size_max
    → i ≤ g.shift_start + g.shift
    → close_gap i g ≡ (g.packets, i - g.shift)
close_here i g a b =
    rw (ne→== g.shift_start size_max (omega arith), ge→ltb (g.shift_start + g.shift) i b)

pub close_moved :
    (i : ℕ) (g : Gap)
    → g.shift_start < size_max
    → g.shift_start + g.shift < i
    → close_gap i g ≡ (
      memmove g.packets g.shift_start (g.shift_start + g.shift) (i - (g.shift_start + g.shift)),
      i - g.shift,
    )
close_moved i g a b =
    rw (ne→== g.shift_start size_max (omega arith), lt→ltb (g.shift_start + g.shift) i b)

-- The final shift leaves the array as some `K M X`, and counts `K M`.
pub close_end :
    (K J M T : List Packet) (i : ℕ) (g : Gap)
    → IsGap K J M T i g
    → (X : List Packet) × ((close_gap i g).0 ≡ (K ++ M) ++ X)
      × ((close_gap i g).1 ≡ length (K ++ M))
      × (length (close_gap i g).0 ≡ length g.packets)
close_end K J [] T i g s =
    let e =
      close_here i g (omega (arith, s.start, s.index, s.small))
        (omega (arith, s.start, s.index, s.width)) in
    (
      J ++ T,
      ap (λ r. r.0) e ∙ s.array ∙ ap (λ k. k ++ (J ++ T)) (sym (append-nil K)),
      ap (λ r. r.1) e ∙ omega (arith, s.index, s.width, length-append K []),
      ap (λ r. length r.0) e,
    )
close_end K J (m ∷ M) T i g s =
    let e =
      close_moved i g (omega (arith, s.start, s.index, s.small))
        (omega (arith, s.start, s.index, s.width)) in
    (
      drop (i - (g.shift_start + g.shift)) (J ++ m ∷ M) ++ T,
      ap (λ r. r.0) e ∙ moved K J (m ∷ M) T i g s ∙ sym (append_assoc K (m ∷ M) _),
      ap (λ r. r.1) e ∙ omega (arith, s.index, s.width, length-append K (m ∷ M)),
      ap (λ r. length r.0) e
          ∙ ap length (moved K J (m ∷ M) T i g s)
          ∙ length_moved K J (m ∷ M) T i g s,
    )

abbrev pub noted : Packet → Gap → Gap
noted u g = record g { acked = g.acked ++ (u.seq_num ∷ []); freed = g.freed ++ (u.buf ∷ []) }

-- The gap after `u`, which follows it at once; and after a `u` beyond entries that move down.
abbrev pub widened : Packet → Gap → Gap
widened u g = record (noted u g) { shift = g.shift + 1 }

abbrev pub shifted : Packet → ℕ → Gap → Gap
shifted u i g = record (noted u g) {
  packets =
      memmove g.packets g.shift_start (g.shift_start + g.shift) (i - (g.shift_start + g.shift));
  shift_start = i - g.shift;
  shift = g.shift + 1;
}

abbrev pub opened : Packet → ℕ → Gap → Gap
opened u i g = record (noted u g) { shift_start = i; shift = 1 }

pub ack_open :
    (i : ℕ) (g : Gap)
    → g.shift_start ≡ size_max
    → ack_packet i g ≡ opened (get_or g.packets i blank) i g
ack_open i g a = rw (eq→== g.shift_start size_max a)

pub ack_widen :
    (i : ℕ) (g : Gap)
    → g.shift_start < size_max
    → g.shift_start + g.shift ≡ i
    → ack_packet i g ≡ widened (get_or g.packets i blank) g
ack_widen i g a b =
    rw (ne→== g.shift_start size_max (omega arith), eq→== (g.shift_start + g.shift) i b)

pub ack_shift :
    (i : ℕ) (g : Gap)
    → g.shift_start < size_max
    → g.shift_start + g.shift ≢ i
    → ack_packet i g ≡ shifted (get_or g.packets i blank) i g
ack_shift i g a b =
    rw (ne→== g.shift_start size_max (omega arith), ne→== (g.shift_start + g.shift) i b)

pub read :
    (u : Packet) (K J M R : List Packet) (i : ℕ) (g : Gap)
    → IsGap K J M (u ∷ R) i g
    → get_or g.packets i blank ≡ u
read u K J M R i g s =
    ap (λ a. get_or a i blank) (s.array ∙ simp append_assoc)
    ∙ get_or-append ((K ++ J) ++ M) R u blank i
        (omega (arith, s.index, length-append (K ++ J) M, length-append K J))

-- What was done from `g` on, if `u` was noted first.
pub note_first :
    (u : Packet) (left gone : List Packet) (count : ℕ) (g g1 g2 : Gap)
    → g1.acked ≡ g.acked ++ (u.seq_num ∷ [])
    → g1.freed ≡ g.freed ++ (u.buf ∷ [])
    → length g1.packets ≡ length g.packets
    → IsClosed left gone count g1 g2
    → IsClosed left (u ∷ gone) count g g2
note_first u left gone count g g1 g2 a f l c = record {
  in_use_is = c.in_use_is;
  count_is = c.count_is;
  size_is = c.size_is ∙ l;
  acked_is = c.acked_is ∙ rw a (append_assoc g.acked (u.seq_num ∷ []) _);
  freed_is = c.freed_is ∙ rw f (append_assoc g.freed (u.buf ∷ []) _);
}

pub skip-IsGap :
    (u : Packet) (K J M R : List Packet) (i : ℕ) (g : Gap)
    → i + 1 < size_max
    → IsGap K J M (u ∷ R) i g
    → IsGap K J (M ++ u ∷ []) R (i + 1) g
skip-IsGap u K J M R i g h s = record {
  array = s.array ∙ simp append_assoc;
  start = s.start;
  width = s.width;
  open_gap = s.open_gap;
  index = omega (arith, s.index, length-append M (u ∷ []));
  small = h;
}

pub widen-IsGap :
    (u : Packet) (K J R : List Packet) (i : ℕ) (g : Gap)
    → i + 1 < size_max
    → IsGap K J [] (u ∷ R) i g
    → IsGap K (J ++ u ∷ []) [] R (i + 1) (widened u g)
widen-IsGap u K J R i g h s = record {
  array = s.array ∙ simp append_assoc;
  start = s.start;
  width = omega (arith, s.width, length-append J (u ∷ []));
  open_gap = omega (arith, length-append J (u ∷ []));
  index = omega (arith, s.index, length-append J (u ∷ []));
  small = h;
}

-- What was behind the entries that moved down, and is the new gap.
abbrev pub behind : List Packet → List Packet → ℕ → Gap → Packet → List Packet
behind J M i g u = drop (i - (g.shift_start + g.shift)) (J ++ M) ++ u ∷ []

pub shift-IsGap :
    (u : Packet) (K J M R : List Packet) (i : ℕ) (g : Gap)
    → i + 1 < size_max
    → IsGap K J M (u ∷ R) i g
    → IsGap (K ++ M) (behind J M i g u) [] R (i + 1) (shifted u i g)
shift-IsGap u K J M R i g h s =
    let width : length (behind J M i g u) ≡ length J + 1 = omega (
      arith,
      s.index,
      s.start,
      s.width,
      length-append (drop (i - (g.shift_start + g.shift)) (J ++ M)) (u ∷ []),
      length-drop (i - (g.shift_start + g.shift)) (J ++ M),
      length-append J M,
    ) in
    record {
      array = moved K J M (u ∷ R) i g s ∙ simp append_assoc;
      start = omega (arith, s.index, s.width, length-append K M);
      width = omega (arith, s.width, width);
      open_gap = omega (arith, width);
      index = omega (arith, s.index, width, length-append K M);
      small = h;
    }

pub recast :
    (count : ℕ) (g : Gap) {left left' gone gone' : List Packet} {r r' : Gap}
    → left ≡ left'
    → gone ≡ gone'
    → r ≡ r'
    → IsClosed left gone count g r
    → IsClosed left' gone' count g r'
recast count g a b c h = transport (λ i. IsClosed (a i) (b i) count g (c i)) h

pub close_none :
    (K J M T : List Packet) (i : ℕ) (g : Gap)
    → IsGap K J M T i g
    → IsClosed (K ++ (M ++ [])) [] i g g
close_none K J M T i g s =
    let (X, arr, cnt, len) = close_end K J M T i g s in
    record {
      in_use_is =
          ap₂ take cnt arr ∙ take-append (K ++ M) X _ refl ∙ ap (◌++◌ K) (sym (append-nil M));
      count_is = cnt ∙ ap (λ m. length (K ++ m)) (sym (append-nil M));
      size_is = len;
      acked_is = sym (append-nil g.acked);
      freed_is = sym (append-nil g.freed);
    }
