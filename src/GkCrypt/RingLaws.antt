-- ===== src/GkCrypt/RingLaws.antt =====
-- What is in the ring is the key stream, whatever the thread is doing.
use native.Mathlib.Nat.{mod-eq_of_lt, mod-eq-sub-mod, mod-add-mod, mod_self, mod-lt}
use vitaki_vitarps.Base.{
  ℕ, ◌+◌, ◌-◌, ◌*◌, ◌/◌, ◌%◌, ◌^◌, ◌≤◌, ◌<◌, ◌≡◌, ◌⊎◌, refl, sym, ap, ap₂, ◌∙◌, List, ◌++◌, true,
  false, ◌||◌, some, arith, length, Bool-cases, ltb→lt, ltb→ge, ==→eq, ==→ne, inl, inr, ok, ltb,
  leb, ◌==◌,
}
use vitaki_vitarps.Frame.Processor.{slice}
use vitaki_vitarps.GkCrypt.Stream.{Aes, GkCrypt, gen_key_stream, blocks}
use vitaki_vitarps.GkCrypt.Ring.{
  chunk_size, requested, copy_out, get_key_stream, key_buf_mutex_pred, make_room, end_pos,
  should_generate,
}
use vitaki_vitarps.GkCrypt.Windows.{
  window, window-ext, window-append, at, slice-window, key_byte, MakesBlocks, blocks-window,
}

pub record IsFilled (aes : Aes) (g : GkCrypt) (buf : List ℕ) : Type 0 where
  pub is_buf : g.key_buf ≡ some buf
  pub array : length buf ≡ g.key_buf_size
  pub chunks : g.key_buf_size % 2 ^ 12 ≡ 0
  pub some_room : 0 < g.key_buf_size
  pub start_inside : g.key_buf_start_offset < g.key_buf_size
  pub start_chunks : g.key_buf_start_offset % 2 ^ 12 ≡ 0
  pub populated_in : g.key_buf_populated ≤ g.key_buf_size
  pub populated_chunks : g.key_buf_populated % 2 ^ 12 ≡ 0
  pub min_chunks : g.key_buf_key_pos_min % 2 ^ 12 ≡ 0
  pub min_near : g.key_buf_key_pos_min ≤ g.last_key_pos + 2 ^ 12
  pub last_small : g.last_key_pos < 2 ^ 62
  pub size_small : g.key_buf_size < 2 ^ 62
  pub filled :
      (i : ℕ)
      → i < g.key_buf_populated
      → at buf ((g.key_buf_start_offset + i) % g.key_buf_size)
        ≡ key_byte aes g.key_base g.iv (g.key_buf_key_pos_min + i)

-- A place in the ring, which comes round at most once.
pub wrap_cases :
    (s x size : ℕ)
    → s < size
    → x ≤ size
    → ((s + x < size) × ((s + x) % size ≡ s + x))
      ⊎ ((size ≤ s + x) × ((s + x) % size ≡ s + x - size))
wrap_cases s x size hs hx = elim (Bool-cases (ltb (s + x) size)) [
  | inl below ↦ inl (ground arith, mod-eq_of_lt (ground arith))
  | inr above ↦
      inr (ground arith, mod-eq-sub-mod (ground arith) ∙ mod-eq_of_lt (ground (arith, hs, hx)))
]

module _ (aes : Aes) (g : GkCrypt) (buf : List ℕ) (v : IsFilled aes g buf) where
  -- A run of places that does not come round.
  run-window :
      (d off n : ℕ)
      → (g.key_buf_start_offset + d) % g.key_buf_size ≡ off
      → off + n ≤ g.key_buf_size
      → d + n ≤ g.key_buf_populated
      → slice buf off n ≡ window (key_byte aes g.key_base g.iv) (g.key_buf_key_pos_min + d) n
  run-window d off n e h k =
      slice-window buf off n (omega (arith, v.array, h))
      ∙ window-ext (at buf) (key_byte aes g.key_base g.iv) off (g.key_buf_key_pos_min + d) n
          (λ i hi.
            ap (at buf) (
              sym (mod-eq_of_lt (omega (arith, h, hi)))
              ∙ ap (λ q. (q + i) % g.key_buf_size) (sym e)
              ∙ mod-add-mod (g.key_buf_start_offset + d) g.key_buf_size i
              ∙ ap (λ q. q % g.key_buf_size) (omega arith))
            ∙ v.filled (d + i) (omega (arith, k, hi))
            ∙ ap (key_byte aes g.key_base g.iv) (omega arith))

  -- A copy out of the ring of what is in it.
  copy_out-window :
      (key_pos n : ℕ)
      → g.key_buf_key_pos_min ≤ key_pos
      → key_pos + n < g.key_buf_key_pos_min + g.key_buf_populated
      → copy_out g buf key_pos n ≡ window (key_byte aes g.key_base g.iv) key_pos n
  unfolding copy_out
  copy_out-window key_pos n lo hi =
      let f = key_byte aes g.key_base g.iv in
      let d = key_pos - g.key_buf_key_pos_min in
      let size = g.key_buf_size in
      let off = (d + g.key_buf_start_offset) % size in
      let pos_eq : g.key_buf_key_pos_min + d ≡ key_pos = omega arith in
      let off_eq : (g.key_buf_start_offset + d) % size ≡ off = ap (λ q. q % size) (omega arith) in
      let d_in : d ≤ size = omega (arith, v.populated_in) in
      let off_in : off < size = mod-lt (d + g.key_buf_start_offset) v.some_room in
      elim (Bool-cases (ltb size (off + n))) [
        | inr fits ↦ rw fits (
            run-window d off n off_eq (ltb→ge size (off + n) fits) (omega arith)
            ∙ ap (λ p. window f p n) pos_eq)
        | inl over ↦ rw over (
            let past : size < off + n = ltb→lt size (off + n) over in
            let first = n - (off + n - size) in
            let second = off + n - size in
            let first_eq : off + first ≡ size = omega (arith, past, off_in) in
            let round : (g.key_buf_start_offset + (d + first)) % size ≡ 0 =
              ap (λ q. q % size) (omega arith)
              ∙ sym (mod-add-mod (g.key_buf_start_offset + d) size first)
              ∙ ap (λ q. (q + first) % size) off_eq
              ∙ ap (λ q. q % size) first_eq
              ∙ mod_self size in
            ap₂ ◌++◌
              (run-window d off first off_eq (omega (arith, first_eq)) (omega (arith, past, off_in))
                ∙ ap (λ p. window f p first) pos_eq)
              (run-window (d + first) 0 second round (omega (arith, v.populated_in, past, off_in))
                  (omega (arith, past, off_in))
                ∙ ap (λ p. window f p second) (omega (arith, pos_eq)))
            ∙ window-append f key_pos first second
            ∙ ap (window f key_pos) (omega (arith, past, off_in)))
      ]

  -- A request for whole blocks gets the key stream, from the ring or made for it, when the cipher
  -- works: the result is that of gen_key_stream.
  pub get_key_stream-gen_key_stream :
      (key_pos n : ℕ)
      → MakesBlocks aes
      → aes.works ≡ true
      → key_pos % 16 ≡ 0
      → n % 16 ≡ 0
      → key_pos + n < 2 ^ 62
      → (get_key_stream aes g key_pos n).0 ≡ gen_key_stream aes g key_pos n
  unfolding get_key_stream gen_key_stream
  get_key_stream-gen_key_stream key_pos n sized works hp hn small =
      let made : blocks aes g.key_base g.iv (n / 16) (key_pos / 16 % 2 ^ 32)
          ≡ window (key_byte aes g.key_base g.iv) key_pos n =
        blocks-window aes g.key_base g.iv sized (n / 16) (key_pos / 16)
        ∙ ap₂ (window (key_byte aes g.key_base g.iv)) (omega (arith, hp)) (omega (arith, hn)) in
      rw (v.is_buf, get_key_stream)
        (elim (Bool-cases
          (ltb key_pos g.key_buf_key_pos_min || leb (end_pos g) ((key_pos + n) % 2 ^ 64))) [
            | inl outside ↦ rw outside refl
            | inr inside ↦ rw inside (
                ap (λ bytes. some (ok bytes))
                  (copy_out-window key_pos n (ground (arith, inside)) (
                      ground
                        (arith, inside, v.min_near, v.last_small, v.populated_in, v.size_small))
                    ∙ sym made)
                ∙ sym (ground (arith, hp, hn, works)))
          ])

  pub requested-IsFilled : (end : ℕ) → end < 2 ^ 62 → IsFilled aes (requested g end) buf
  requested-IsFilled end h = record {
    is_buf = v.is_buf;
    array = v.array;
    chunks = v.chunks;
    some_room = v.some_room;
    start_inside = v.start_inside;
    start_chunks = v.start_chunks;
    populated_in = v.populated_in;
    populated_chunks = v.populated_chunks;
    min_chunks = v.min_chunks;
    min_near = ground (arith, v.min_near);
    last_small = ground (arith, v.last_small);
    size_small = v.size_small;
    filled = v.filled;
  }

  skip_ahead-IsFilled :
      IsFilled aes
        (record g {
          key_buf_key_pos_min = g.last_key_pos / chunk_size * chunk_size;
          key_buf_start_offset = 0;
          key_buf_populated = 0;
        })
        buf
  skip_ahead-IsFilled = record {
    is_buf = v.is_buf;
    array = v.array;
    chunks = v.chunks;
    some_room = v.some_room;
    start_inside = v.some_room;
    start_chunks = omega arith;
    populated_in = omega arith;
    populated_chunks = omega arith;
    min_chunks = omega arith;
    min_near = omega arith;
    last_small = v.last_small;
    size_small = v.size_small;
    filled = λ i h. absurd (omega (arith, h));
  }

  slide-IsFilled :
      g.key_buf_populated ≡ g.key_buf_size
      → g.key_buf_key_pos_min < g.last_key_pos
      → IsFilled aes
          (record g {
            key_buf_start_offset = (g.key_buf_start_offset + chunk_size) % g.key_buf_size;
            key_buf_key_pos_min = (g.key_buf_key_pos_min + chunk_size) % 2 ^ 64;
            key_buf_populated = g.key_buf_populated - chunk_size;
          })
          buf
  slide-IsFilled full behind =
      let room : 2 ^ 12 ≤ g.key_buf_size = omega (arith, v.some_room, v.chunks) in
      let next : (g.key_buf_key_pos_min + chunk_size) % 2 ^ 64
          ≡ g.key_buf_key_pos_min + chunk_size =
        omega (arith, behind, v.last_small) in
      record {
        is_buf = v.is_buf;
        array = v.array;
        chunks = v.chunks;
        some_room = v.some_room;
        start_inside = mod-lt (g.key_buf_start_offset + chunk_size) v.some_room;
        start_chunks =
            elim (wrap_cases g.key_buf_start_offset chunk_size g.key_buf_size v.start_inside room) [
              | inl (_, e) ↦ rw e (omega (arith, v.start_chunks))
              | inr (past, e) ↦ rw e (omega (arith, v.start_chunks, v.chunks, past))
            ];
        populated_in = omega (arith, v.populated_in);
        populated_chunks = omega (arith, full, v.chunks, room);
        min_chunks = rw next (omega (arith, v.min_chunks));
        min_near = rw next (omega (arith, behind));
        last_small = v.last_small;
        size_small = v.size_small;
        filled = λ i h.
            ap (at buf) (
              mod-add-mod (g.key_buf_start_offset + chunk_size) g.key_buf_size i
              ∙ ap (λ q. q % g.key_buf_size) (omega arith))
            ∙ v.filled (chunk_size + i) (omega (arith, h))
            ∙ ap (key_byte aes g.key_base g.iv) (omega (arith, next));
      }

  -- What the thread does before a chunk keeps the ring, and makes room for the chunk.
  pub make_room-IsFilled :
      key_buf_mutex_pred g ≡ true
      → g.key_buf_thread_stop ≡ false
      → IsFilled aes (make_room g) buf × ((make_room g).key_buf_populated + 2 ^ 12 ≤ g.key_buf_size)
  unfolding make_room key_buf_mutex_pred should_generate
  make_room-IsFilled woken running =
      let room : 2 ^ 12 ≤ g.key_buf_size = omega (arith, v.some_room, v.chunks) in
      elim (Bool-cases (ltb (end_pos g) g.last_key_pos)) [
        | inl late ↦ rw late (skip_ahead-IsFilled, omega (arith, room))
        | inr near ↦ rw near (elim (Bool-cases (g.key_buf_populated == g.key_buf_size)) [
          | inl full ↦ rw full (
            slide-IsFilled (==→eq _ _ full)
                (ground (arith, woken, running, full, v.min_near, v.last_small, v.size_small)),
            omega (arith, ==→eq _ _ full, room),
          )
          | inr free ↦
              rw free
                (v, omega (arith, ==→ne _ _ free, v.populated_in, v.populated_chunks, v.chunks))
        ])
      ]
