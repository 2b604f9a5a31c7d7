-- ===== src/GkCrypt/Threads.antt =====
-- lib/src/gkcrypt.c: requests for key stream while the thread makes the next chunk with the mutex
-- released.
use vitaki_vitarps.Base.{
  ℕ, Bool, true, not, ◌||◌, Option, none, some, List, [], ◌∷◌, ◌==◌, if◌then◌else◌, length, fail,
  ok,
}
use vitaki_vitarps.GkCrypt.Stream.{Aes, GkCrypt, gen_key_stream}
use vitaki_vitarps.GkCrypt.Ring.{
  chunk_size, get_key_stream, key_buf_mutex_pred, make_room, write_chunk, start_chunk, finish_chunk,
}

-- The ring, the offset and the position of the chunk that the thread is making, and whether the
-- thread's loop has ended.
pub record Worker : Type 0 where
  pub ring : GkCrypt
  pub making : Option (ℕ × ℕ)
  pub ended : Bool

-- What happens, in the order of the mutex: a request; the thread, woken, takes a place for a chunk;
-- it writes some bytes there, which are not yet the chunk's; it has made the chunk and locks again.
pub data Event : Type 0 where
  request : ℕ → ℕ → Event
  wake : Event
  scribble : List ℕ → Event
  done : Event

unfoldable pub wake_up : Worker → Option Worker
wake_up w =
    if w.ended || not (key_buf_mutex_pred w.ring)
    then some w
    else if w.ring.key_buf_thread_stop
    then some (record w { ended = true })
    else elim (start_chunk (make_room w.ring)) [
      | none ↦ none
      | some place ↦ some (record w { ring = make_room w.ring; making = some place })
    ]

unfoldable pub chunk_made : Aes → Worker → ℕ → ℕ → Option Worker
chunk_made aes w offset key_pos = elim (gen_key_stream aes w.ring key_pos chunk_size) [
  | none ↦ none
  | some (fail err) ↦ some (record w { making = none; ended = true })
  | some (ok bytes) ↦
      some (record w { ring = finish_chunk (write_chunk w.ring offset bytes); making = none })
]

-- An event that cannot happen as the thread is changes nothing; `none` is a failed assertion.
unfoldable pub step_in : Aes → Option (ℕ × ℕ) → Worker → Event → Option Worker
unfolding get_key_stream wake_up chunk_made write_chunk
step_in aes making w (request key_pos n) = elim (get_key_stream aes w.ring key_pos n).0 [
  | none ↦ none
  | some _ ↦ some (record w { ring = (get_key_stream aes w.ring key_pos n).1 })
]
step_in aes none w wake = wake_up w
step_in aes none w (scribble bytes) = some w
step_in aes none w done = some w
step_in aes (some _) w wake = some w
step_in aes (some (offset, _)) w (scribble bytes) =
    some (
      if length bytes == chunk_size then record w { ring = write_chunk w.ring offset bytes } else w)
step_in aes (some (offset, key_pos)) w done = chunk_made aes w offset key_pos

unfoldable pub run : Aes → Worker → List Event → Option Worker
unfolding step_in
run aes w [] = some w
run aes w (e ∷ es) = elim (step_in aes w.making w e) [ none ↦ none | some w' ↦ run aes w' es ]
