-- ===== src/GkCrypt/Steps.antt =====
-- Each thing that happens, but the end of a chunk, keeps the ring and the place of the chunk in the
-- making.
use vitaki_vitarps.Base.{
  ℕ, ◌+◌, ◌/◌, ◌%◌, ◌^◌, ◌≤◌, ◌<◌, ◌≡◌, refl, sym, ap, ap₂, ◌∙◌, true, false, not, ◌||◌, Option,
  none, some, List, arith, length, Bool-cases, subst, inl, inr, ==→eq, ◌==◌, ok, fail, unknown,
  ◌&&◌, if◌then◌else◌,
}
use vitaki_vitarps.Frame.Processor.{memcpy}
use vitaki_vitarps.GkCrypt.Stream.{Aes, GkCrypt, gen_key_stream, blocks}
use vitaki_vitarps.GkCrypt.Ring.{
  chunk_size, get_key_stream, key_buf_mutex_pred, make_room, chunk_offset, write_chunk, start_chunk,
  end_pos, requested,
}
use vitaki_vitarps.GkCrypt.Windows.{MakesBlocks}
use vitaki_vitarps.GkCrypt.RingLaws.{
  get_key_stream-gen_key_stream, IsFilled, requested-IsFilled, make_room-IsFilled,
}
use vitaki_vitarps.GkCrypt.ThreadLaws.{written-IsFilled}
use vitaki_vitarps.GkCrypt.Threads.{Worker, Event, request, wake, scribble, wake_up, step_in}

abbrev pub IsPlace : Option (ℕ × ℕ) → GkCrypt → Type 0
IsPlace none g = Unit
IsPlace (some (offset, key_pos)) g =
    (offset ≡ chunk_offset g)
    × (key_pos ≡ end_pos g)
    × (g.key_buf_populated + 2 ^ 12 ≤ g.key_buf_size)

pub record IsGood (aes : Aes) (key iv : List ℕ) (w : Worker) : Type 0 where
  pub buf : List ℕ
  pub filled : IsFilled aes w.ring buf
  pub key_is : w.ring.key_base ≡ key
  pub iv_is : w.ring.iv ≡ iv
  pub place : IsPlace w.making w.ring

-- A request is for whole blocks, and ends below 2 ^ 62.
abbrev pub IsNearby : Event → Type 0
IsNearby (request key_pos n) = (key_pos % 16 ≡ 0) × (n % 16 ≡ 0) × (key_pos + n < 2 ^ 62)
IsNearby _ = Unit

wake_up_asleep :
    (w : Worker) → (w.ended || not (key_buf_mutex_pred w.ring)) ≡ true → wake_up w ≡ some w
unfolding wake_up
wake_up_asleep w h = rw h refl

wake_up_stopped :
    (w : Worker)
    → (w.ended || not (key_buf_mutex_pred w.ring)) ≡ false
    → w.ring.key_buf_thread_stop ≡ true
    → wake_up w ≡ some (record w { ended = true })
unfolding wake_up
wake_up_stopped w h k = rw (h, k) refl

start_chunk_lem :
    (g : GkCrypt)
    → g.key_buf_populated + 2 ^ 12 ≤ g.key_buf_size
    → start_chunk g ≡ some (chunk_offset g, end_pos g)
unfolding start_chunk
start_chunk_lem g h = ground (arith, h)

pub write_chunk-same :
    (g : GkCrypt) (offset : ℕ) (bytes : List ℕ)
    → ((write_chunk g offset bytes).key_base ≡ g.key_base)
      × ((write_chunk g offset bytes).iv ≡ g.iv)
unfolding write_chunk
write_chunk-same g offset bytes = ground arith

IsPlace-write_chunk :
    (g : GkCrypt) (offset key_pos : ℕ) (bytes : List ℕ)
    → IsPlace (some (offset, key_pos)) g
    → IsPlace (some (offset, key_pos)) (write_chunk g offset bytes)
unfolding write_chunk
IsPlace-write_chunk g offset key_pos bytes h = ground (arith, h)

-- Only the key and the iv matter.
pub gen_key_stream-same :
    (aes : Aes) (g g' : GkCrypt) (key_pos n : ℕ)
    → g.key_base ≡ g'.key_base
    → g.iv ≡ g'.iv
    → gen_key_stream aes g key_pos n ≡ gen_key_stream aes g' key_pos n
unfolding gen_key_stream
gen_key_stream-same aes g g' key_pos n k i =
    ap₂
      (λ key iv.
        if key_pos % 16 == 0 && n % 16 == 0
        then some (
            if aes.works
            then ok (blocks aes key iv (n / 16) (key_pos / 16 % 2 ^ 32))
            else fail unknown)
        else none)
      k i

module _ (aes : Aes) (key iv : List ℕ) (sized : MakesBlocks aes) (works : aes.works ≡ true) where
  abbrev pub Steps : Worker → Option (ℕ × ℕ) → Event → Type 0
  Steps w making e = (w' : Worker) × (step_in aes making w e ≡ some w') × IsGood aes key iv w'

  IsPlace-requested :
      (making : Option (ℕ × ℕ)) (g : GkCrypt) (end : ℕ)
      → IsPlace making g
      → IsPlace making (requested g end)
  IsPlace-requested none g end h = h
  IsPlace-requested (some (offset, key_pos)) g end h = h

  request-requested :
      (g : GkCrypt) (buf : List ℕ) (key_pos n : ℕ)
      → g.key_buf ≡ some buf
      → (get_key_stream aes g key_pos n).1 ≡ requested g ((key_pos + n) % 2 ^ 64)
  unfolding get_key_stream
  request-requested g buf key_pos n e = ground arith

  -- A request for whole blocks fails no assertion.
  request_given :
      (g : GkCrypt) (buf : List ℕ) (key_pos n : ℕ)
      → IsFilled aes g buf
      → IsNearby (request key_pos n)
      → (bytes : List ℕ) × ((get_key_stream aes g key_pos n).0 ≡ some (ok bytes))
  unfolding gen_key_stream
  request_given g buf key_pos n v (whole_pos, whole_n, small) = (
    blocks aes g.key_base g.iv (n / 16) (key_pos / 16 % 2 ^ 32),
    get_key_stream-gen_key_stream aes g buf v key_pos n sized works whole_pos whole_n small
        ∙ rw (whole_pos, whole_n, works) refl,
  )

  request_step :
      (w : Worker) (making : Option (ℕ × ℕ)) (key_pos n : ℕ) (bytes : List ℕ)
      → (get_key_stream aes w.ring key_pos n).0 ≡ some (ok bytes)
      → step_in aes making w (request key_pos n)
        ≡ some (record w { ring = (get_key_stream aes w.ring key_pos n).1 })
  unfolding step_in
  request_step w making key_pos n bytes e = rw (e, step_in) refl

  pub request-Steps :
      (w : Worker) (key_pos n : ℕ)
      → IsGood aes key iv w
      → IsNearby (request key_pos n)
      → Steps w w.making (request key_pos n)
  request-Steps w key_pos n v near =
      let small : key_pos + n < 2 ^ 62 = near.2 in
      let end : (key_pos + n) % 2 ^ 64 ≡ key_pos + n = omega (arith, small) in
      let (bytes, given) = request_given w.ring v.buf key_pos n v.filled near in
      (
        record w { ring = requested w.ring (key_pos + n) },
        request_step w w.making key_pos n bytes given
            ∙ ap (λ g. some (record w { ring = g }))
                (request-requested w.ring v.buf key_pos n v.filled.is_buf
                  ∙ ap (requested w.ring) end),
        record {
          buf = v.buf;
          filled = requested-IsFilled aes w.ring v.buf v.filled (key_pos + n) small;
          key_is = v.key_is;
          iv_is = v.iv_is;
          place = IsPlace-requested w.making w.ring (key_pos + n) v.place;
        },
      )

  make_room-same :
      (g : GkCrypt)
      → ((make_room g).key_base ≡ g.key_base)
        × ((make_room g).iv ≡ g.iv)
        × ((make_room g).key_buf_size ≡ g.key_buf_size)
  unfolding make_room
  make_room-same g = ground arith

  -- The thread takes a place: the assertion holds.
  woken-Steps :
      (w : Worker)
      → IsGood aes key iv w
      → key_buf_mutex_pred w.ring ≡ true
      → w.ring.key_buf_thread_stop ≡ false
      → w.ended ≡ false
      → (w' : Worker) × (wake_up w ≡ some w') × IsGood aes key iv w'
  unfolding wake_up
  woken-Steps w v woken running going =
      let (filled, room) = make_room-IsFilled aes w.ring v.buf v.filled woken running in
      let (key_same, iv_same, size_same) = make_room-same w.ring in
      let g = make_room w.ring in
      let started : start_chunk g ≡ some (chunk_offset g, end_pos g) =
        start_chunk_lem g (omega (arith, room, size_same)) in
      (
        record w { ring = g; making = some (chunk_offset g, end_pos g) },
        ground (arith, started),
        record {
          buf = v.buf;
          filled = filled;
          key_is = key_same ∙ v.key_is;
          iv_is = iv_same ∙ v.iv_is;
          place = (refl, refl, omega (arith, room, size_same));
        },
      )

  pub wake-Steps : (w : Worker) → IsGood aes key iv w → w.making ≡ none → Steps w none wake
  unfolding step_in
  wake-Steps w v idle = elim (Bool-cases (w.ended || not (key_buf_mutex_pred w.ring))) [
    | inl asleep ↦ (w, wake_up_asleep w asleep, v)
    | inr woken ↦ elim (Bool-cases w.ring.key_buf_thread_stop) [
      | inl stopped ↦ (
        record w { ended = true },
        wake_up_stopped w woken stopped,
        record {
          buf = v.buf;
          filled = v.filled;
          key_is = v.key_is;
          iv_is = v.iv_is;
          place = v.place;
        },
      )
      | inr running ↦ woken-Steps w v (ground (arith, woken)) running (ground (arith, woken))
    ]
  ]

  pub scribble-Steps :
      (w : Worker) (offset key_pos : ℕ) (bytes : List ℕ)
      → IsGood aes key iv w
      → w.making ≡ some (offset, key_pos)
      → Steps w (some (offset, key_pos)) (scribble bytes)
  unfolding step_in
  scribble-Steps w offset key_pos bytes v busy =
      let place : IsPlace (some (offset, key_pos)) w.ring =
        subst (λ m. IsPlace m w.ring) busy v.place in
      elim (Bool-cases (length bytes == chunk_size)) [
        | inr other ↦ rw other (w, refl, v)
        | inl whole ↦ rw whole (
            let sized_bytes = ==→eq (length bytes) chunk_size whole in
            let same = write_chunk-same w.ring offset bytes in
            (
              record w { ring = write_chunk w.ring offset bytes },
              refl,
              record {
                buf = memcpy v.buf (chunk_offset w.ring) bytes;
                filled =
                    subst
                      (λ o.
                        IsFilled aes (write_chunk w.ring o bytes)
                          (memcpy v.buf (chunk_offset w.ring) bytes))
                      (sym place.0)
                      (written-IsFilled aes w.ring v.buf bytes v.filled place.2 sized_bytes);
                key_is = same.0 ∙ v.key_is;
                iv_is = same.1 ∙ v.iv_is;
                place =
                    subst (λ m. IsPlace m (write_chunk w.ring offset bytes)) (sym busy)
                      (IsPlace-write_chunk w.ring offset key_pos bytes place);
              },
            ))
      ]
