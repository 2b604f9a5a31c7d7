-- ===== src/GkCrypt/Histories.antt =====
-- Requests get the key stream, in whatever order they, the thread's rounds and its writes come.
use vitaki_vitarps.Base.{
  ℕ, ◌+◌, ◌*◌, ◌/◌, ◌%◌, ◌^◌, ◌<◌, ◌≡◌, refl, sym, ap, ◌∙◌, true, false, Option, none, some, List,
  [], ◌∷◌, arith, length, All, subst,
}
use vitaki_vitarps.Frame.Processor.{memcpy}
use vitaki_vitarps.GkCrypt.Stream.{Aes, GkCrypt, gen_key_stream, blocks}
use vitaki_vitarps.GkCrypt.Ring.{
  init, get_key_stream, chunk_offset, write_chunk, finish_chunk, end_pos,
}
use vitaki_vitarps.GkCrypt.Windows.{window, length-window, key_byte, MakesBlocks, blocks-window}
use vitaki_vitarps.GkCrypt.RingLaws.{IsFilled, get_key_stream-gen_key_stream}
use vitaki_vitarps.GkCrypt.ThreadLaws.{finished-IsFilled}
use vitaki_vitarps.GkCrypt.Threads.{
  Worker, Event, request, wake, scribble, done, chunk_made, step_in, run,
}
use vitaki_vitarps.GkCrypt.Steps.{
  IsPlace, IsGood, IsNearby, write_chunk-same, gen_key_stream-same, Steps, request-Steps,
  wake-Steps, scribble-Steps,
}

module _ (aes : Aes) (key iv : List ℕ) (sized : MakesBlocks aes) (works : aes.works ≡ true) where
  chunk_made_lem :
      (w : Worker) (offset key_pos : ℕ)
      → key_pos % 16 ≡ 0
      → chunk_made aes w offset key_pos
        ≡ some (record w {
          ring = finish_chunk (
              write_chunk w.ring offset
                (blocks aes w.ring.key_base w.ring.iv (2 ^ 12 / 16) (key_pos / 16 % 2 ^ 32)));
          making = none;
        })
  unfolding chunk_made gen_key_stream
  chunk_made_lem w offset key_pos h = ground (arith, works)

  finished_key : (g : GkCrypt) → (finish_chunk g).key_base ≡ g.key_base
  unfolding finish_chunk
  finished_key g = refl

  finished_iv : (g : GkCrypt) → (finish_chunk g).iv ≡ g.iv
  unfolding finish_chunk
  finished_iv g = refl

  done-Steps :
      (w : Worker) (offset key_pos : ℕ)
      → IsGood aes key iv w
      → w.making ≡ some (offset, key_pos)
      → Steps aes key iv sized works w (some (offset, key_pos)) done
  unfolding step_in
  done-Steps w offset key_pos v busy =
      let g = w.ring in
      let place : IsPlace (some (offset, key_pos)) g = subst (λ m. IsPlace m g) busy v.place in
      let f = key_byte aes g.key_base g.iv in
      let bytes = blocks aes g.key_base g.iv (2 ^ 12 / 16) (key_pos / 16 % 2 ^ 32) in
      let aligned : key_pos % 16 ≡ 0 =
        omega (arith, place.1, v.filled.min_chunks, v.filled.populated_chunks) in
      let made : bytes ≡ window f (end_pos g) (2 ^ 12) =
        blocks-window aes g.key_base g.iv sized (2 ^ 12 / 16) (key_pos / 16)
        ∙ ap (λ p. window f p (2 ^ 12)) (omega (arith, aligned, place.1)) in
      let sized_bytes : length bytes ≡ 2 ^ 12 =
        ap length made ∙ length-window f (end_pos g) (2 ^ 12) in
      let same = write_chunk-same g offset bytes in
      (
        record w { ring = finish_chunk (write_chunk g offset bytes); making = none },
        chunk_made_lem w offset key_pos aligned,
        record {
          buf = memcpy v.buf (chunk_offset g) bytes;
          filled =
              subst
                (λ o.
                  IsFilled aes (finish_chunk (write_chunk g o bytes))
                    (memcpy v.buf (chunk_offset g) bytes))
                (sym place.0)
                (finished-IsFilled aes g v.buf bytes v.filled place.2 sized_bytes made);
          key_is = finished_key (write_chunk g offset bytes) ∙ same.0 ∙ v.key_is;
          iv_is = finished_iv (write_chunk g offset bytes) ∙ same.1 ∙ v.iv_is;
          place = tt;
        },
      )

  steps :
      (w : Worker) (making : Option (ℕ × ℕ)) (e : Event)
      → w.making ≡ making
      → IsGood aes key iv w
      → IsNearby e
      → Steps aes key iv sized works w making e
  unfolding step_in
  steps w making (request key_pos n) m v h =
      subst (λ k. Steps aes key iv sized works w k (request key_pos n)) m
        (request-Steps aes key iv sized works w key_pos n v h)
  steps w none wake m v h = wake-Steps aes key iv sized works w v m
  steps w none (scribble bytes) m v h = (w, refl, v)
  steps w none done m v h = (w, refl, v)
  steps w (some place) wake m v h = (w, refl, v)
  steps w (some (offset, key_pos)) (scribble bytes) m v h =
      scribble-Steps aes key iv sized works w offset key_pos bytes v m
  steps w (some (offset, key_pos)) done m v h = done-Steps w offset key_pos v m

  run-IsGood :
      (w : Worker) (es : List Event)
      → IsGood aes key iv w
      → All IsNearby es
      → (w' : Worker) × (run aes w es ≡ some w') × IsGood aes key iv w'
  unfolding run
  run-IsGood w [] v h = (w, refl, v)
  run-IsGood w (e ∷ es) v h =
      let (w1, stepped, v1) = steps w w.making e refl v h.0 in
      let (w2, ran, v2) = run-IsGood w1 es v1 h.1 in (w2, rw (stepped, run) ran, v2)

  init-IsGood :
      (chunks : ℕ) (memory : List ℕ)
      → 0 < chunks
      → chunks * 2 ^ 12 < 2 ^ 62
      → length memory ≡ chunks * 2 ^ 12
      → IsGood aes key iv
          (record { ring = init chunks memory key iv; making = none; ended = false })
  unfolding init
  init-IsGood chunks memory some_chunks small allocated = record {
    buf = memory;
    filled = record {
      is_buf = ground (arith, some_chunks);
      array = allocated;
      chunks = omega arith;
      some_room = omega (arith, some_chunks);
      start_inside = omega (arith, some_chunks);
      start_chunks = omega arith;
      populated_in = omega arith;
      populated_chunks = omega arith;
      min_chunks = omega arith;
      min_near = omega arith;
      last_small = omega arith;
      size_small = omega (arith, small);
      filled = λ i h. absurd (omega (arith, h));
    };
    key_is = refl;
    iv_is = refl;
    place = tt;
  }

-- From a new ring of at least one chunk, whatever requests for whole blocks come, however often the
-- thread is woken, and whatever it has written of a chunk when a request comes: no assertion fails,
-- and the next request for whole blocks gets the bytes that gen_key_stream makes for its position
-- without a ring. (The cipher works and makes blocks of 16 bytes; positions stay below 2 ^ 62.)
pub run-get_key_stream :
    (aes : Aes) (key iv : List ℕ) (chunks : ℕ) (memory : List ℕ) (es : List Event) (key_pos n : ℕ)
    → MakesBlocks aes
    → aes.works ≡ true
    → 0 < chunks
    → chunks * 2 ^ 12 < 2 ^ 62
    → length memory ≡ chunks * 2 ^ 12
    → All IsNearby es
    → key_pos % 16 ≡ 0
    → n % 16 ≡ 0
    → key_pos + n < 2 ^ 62
    → let ring = init chunks memory key iv in
      (w : Worker) × (run aes (record { ring = ring; making = none; ended = false }) es ≡ some w)
      × ((get_key_stream aes w.ring key_pos n).0 ≡ gen_key_stream aes ring key_pos n)
unfolding gen_key_stream init
run-get_key_stream aes key iv chunks memory es key_pos n sized works hc small allocated h hp hn hi =
    let (w, ran, v) =
      run-IsGood aes key iv sized works
        (record { ring = init chunks memory key iv; making = none; ended = false }) es
        (init-IsGood aes key iv sized works chunks memory hc small allocated) h in
    (
      w,
      ran,
      get_key_stream-gen_key_stream aes w.ring v.buf v.filled key_pos n sized works hp hn hi
          ∙ gen_key_stream-same aes w.ring (init chunks memory key iv) key_pos n v.key_is v.iv_is,
    )
