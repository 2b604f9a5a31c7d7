-- ===== src/GkCrypt/ThreadLaws.antt =====
-- Requests get the key stream, however they and the thread take turns.
use native.Mathlib.Nat.{mod-add-mod, mod-eq_of_lt}
use vitaki_vitarps.Base.{
  ℕ, ◌+◌, ◌-◌, ◌%◌, ◌^◌, ◌≤◌, ◌<◌, ◌≡◌, ◌⊎◌, inl, inr, refl, sym, ap, ◌∙◌, List, arith, length,
  Bool-cases, ltb, ltb→lt, ltb→ge,
}
use vitaki_vitarps.Frame.Processor.{memcpy}
use vitaki_vitarps.Frame.Ready.{length-memcpy}
use vitaki_vitarps.GkCrypt.Stream.{Aes, GkCrypt}
use vitaki_vitarps.GkCrypt.Ring.{chunk_offset, write_chunk, finish_chunk, end_pos}
use vitaki_vitarps.GkCrypt.Windows.{
  window, get_or-window, at, key_byte, at-memcpy_outside, at-memcpy_inside,
}
use vitaki_vitarps.GkCrypt.RingLaws.{IsFilled, wrap_cases}

module _ (aes : Aes) (g : GkCrypt) (buf bytes : List ℕ) (v : IsFilled aes g buf)
    (room : g.key_buf_populated + 2 ^ 12 ≤ g.key_buf_size) (sized : length bytes ≡ 2 ^ 12) where
  abbrev pub off : ℕ
  off = chunk_offset g

  off_fits : off + 2 ^ 12 ≤ g.key_buf_size
  off_fits =
      elim (wrap_cases g.key_buf_start_offset g.key_buf_populated g.key_buf_size v.start_inside
        v.populated_in) [
          | inl (below, e) ↦
              rw e (omega (arith, v.start_chunks, v.populated_chunks, v.chunks, below))
          | inr (past, e) ↦ rw e (omega (arith, v.start_inside, room, past))
        ]

  -- The places in use are not those of the next chunk.
  in_use_outside :
      (i : ℕ)
      → i < g.key_buf_populated
      → ((g.key_buf_start_offset + i) % g.key_buf_size < off)
        ⊎ (off + 2 ^ 12 ≤ (g.key_buf_start_offset + i) % g.key_buf_size)
  in_use_outside i h =
      let s = g.key_buf_start_offset in
      let size = g.key_buf_size in
      elim (wrap_cases s i size v.start_inside (omega (arith, v.populated_in))) [
        | inl (below, e) ↦
            elim (wrap_cases s g.key_buf_populated size v.start_inside v.populated_in) [
              | inl (_, f) ↦ inl (rw (e, f) (omega (arith, h)))
              | inr (past, f) ↦ inr (rw (e, f) (omega (arith, room, past)))
            ]
        | inr (past, e) ↦
            elim (wrap_cases s g.key_buf_populated size v.start_inside v.populated_in) [
              | inl (below, f) ↦ absurd (omega (arith, h, past, below))
              | inr (_, f) ↦ inl (rw (e, f) (omega (arith, h, past)))
            ]
      ]

  -- Bytes written there, whatever they are, leave what is in the ring.
  pub written-IsFilled : IsFilled aes (write_chunk g off bytes) (memcpy buf off bytes)
  unfolding write_chunk
  written-IsFilled =
      rw (v.is_buf, write_chunk)
        (record {
          is_buf = refl;
          array = length-memcpy buf bytes off (omega (arith, off_fits, sized, v.array)) ∙ v.array;
          chunks = v.chunks;
          some_room = v.some_room;
          start_inside = v.start_inside;
          start_chunks = v.start_chunks;
          populated_in = v.populated_in;
          populated_chunks = v.populated_chunks;
          min_chunks = v.min_chunks;
          min_near = v.min_near;
          last_small = v.last_small;
          size_small = v.size_small;
          filled = λ i h.
              at-memcpy_outside buf bytes off ((g.key_buf_start_offset + i) % g.key_buf_size)
                (omega (arith, off_fits, sized, v.array)) (rw sized (in_use_outside i h))
              ∙ v.filled i h;
        })

  -- The chunk's own bytes come to be in use.
  pub finished-IsFilled :
      bytes ≡ window (key_byte aes g.key_base g.iv) (end_pos g) (2 ^ 12)
      → IsFilled aes (finish_chunk (write_chunk g off bytes)) (memcpy buf off bytes)
  unfolding write_chunk finish_chunk
  finished-IsFilled made =
      let w = rw (v.is_buf, write_chunk) at written-IsFilled in
      let p = g.key_buf_populated in
      let s = g.key_buf_start_offset in
      let size = g.key_buf_size in
      rw (v.is_buf, write_chunk)
        (record {
          is_buf = refl;
          array = w.array;
          chunks = v.chunks;
          some_room = v.some_room;
          start_inside = v.start_inside;
          start_chunks = v.start_chunks;
          populated_in = room;
          populated_chunks = omega (arith, v.populated_chunks);
          min_chunks = v.min_chunks;
          min_near = v.min_near;
          last_small = v.last_small;
          size_small = v.size_small;
          filled = λ i h. elim (Bool-cases (ltb i p)) [
            | inl old ↦ w.filled i (ltb→lt i p old)
            | inr new ↦
                let at_least = ltb→ge i p new in
                let j = i - p in
                let j_in : j < 2 ^ 12 = omega (arith, h, at_least) in
                ap (at (memcpy buf off bytes)) (
                  ap (λ q. q % size) (omega (arith, at_least))
                  ∙ sym (mod-add-mod (s + p) size j)
                  ∙ mod-eq_of_lt (omega (arith, off_fits, j_in)))
                ∙ at-memcpy_inside buf bytes off j (omega (arith, off_fits, v.array))
                    (omega (arith, sized, j_in))
                ∙ ap (λ b. at b j) made
                ∙ get_or-window (key_byte aes g.key_base g.iv) (end_pos g) (2 ^ 12) j j_in
                ∙ ap (key_byte aes g.key_base g.iv)
                    (omega (arith, at_least, v.min_near, v.last_small, v.size_small, room))
          ];
        })
