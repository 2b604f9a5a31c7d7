-- ===== src/GkCrypt/Ring.antt =====
-- lib/src/gkcrypt.c: the ring buffer of the key stream, which a thread fills and requests read.
use vitaki_vitarps.Base.{
  ℕ, ◌+◌, ◌-◌, ◌*◌, ◌/◌, ◌%◌, ◌^◌, Bool, false, ◌||◌, Option, none, some, List, ◌++◌, ltb, leb,
  ◌==◌, if◌then◌else◌, Result, ok,
}
use vitaki_vitarps.Frame.Processor.{memcpy, slice}
use vitaki_vitarps.GkCrypt.Stream.{Aes, GkCrypt, gen_key_stream}

abbrev pub chunk_size : ℕ
chunk_size = 2 ^ 12

-- `chiaki_gkcrypt_init` for some chunks, once the key and the iv are made; `memory` is what the
-- allocation gives.
unfoldable pub init : ℕ → List ℕ → List ℕ → List ℕ → GkCrypt
init key_buf_chunks memory key_base iv = record {
  key_buf = if key_buf_chunks == 0 then none else some memory;
  key_buf_size = key_buf_chunks * chunk_size;
  key_buf_populated = 0;
  key_buf_key_pos_min = 0;
  key_buf_start_offset = 0;
  last_key_pos = 0;
  key_buf_thread_stop = false;
  iv = iv;
  key_base = key_base;
}

-- The end of what is in the ring, as a position.
abbrev pub end_pos : GkCrypt → ℕ
end_pos g = (g.key_buf_key_pos_min + g.key_buf_populated) % 2 ^ 64

unfoldable pub should_generate : GkCrypt → Bool
should_generate g = ltb ((g.key_buf_key_pos_min + g.key_buf_populated / 2) % 2 ^ 64) g.last_key_pos

abbrev pub requested : GkCrypt → ℕ → GkCrypt
requested g end = record g { last_key_pos = if ltb g.last_key_pos end then end else g.last_key_pos }

-- A copy out of the ring, in two parts where it passes the end of the array.
unfoldable pub copy_out : GkCrypt → List ℕ → ℕ → ℕ → List ℕ
copy_out g buf key_pos buf_size =
    let offset_in_buf =
      (key_pos - g.key_buf_key_pos_min + g.key_buf_start_offset) % g.key_buf_size in
    let end = offset_in_buf + buf_size in
    let excess = end - g.key_buf_size in
    if ltb g.key_buf_size end
    then slice buf offset_in_buf (buf_size - excess) ++ slice buf 0 excess
    else slice buf offset_in_buf buf_size

-- The bytes, the state left, and whether the thread is woken; `none` is a failed assertion.
unfoldable pub get_key_stream : Aes → GkCrypt → ℕ → ℕ → Option (Result (List ℕ)) × GkCrypt × Bool
unfolding should_generate copy_out
get_key_stream aes g key_pos buf_size = elim g.key_buf [
  | none ↦ (gen_key_stream aes g key_pos buf_size, g, false)
  | some buf ↦
      let end = (key_pos + buf_size) % 2 ^ 64 in
      let g' = requested g end in
      (
        (if ltb key_pos g.key_buf_key_pos_min || leb (end_pos g) end
            then gen_key_stream aes g' key_pos buf_size
            else some (ok (copy_out g buf key_pos buf_size))),
        g',
        should_generate g',
      )
]

unfoldable pub key_buf_mutex_pred : GkCrypt → Bool
unfolding should_generate
key_buf_mutex_pred g =
    g.key_buf_thread_stop || ltb g.key_buf_populated g.key_buf_size || should_generate g

-- What the thread does before it makes a chunk: it skips ahead, or lets go of the oldest chunk.
unfoldable pub make_room : GkCrypt → GkCrypt
make_room g =
    if ltb (end_pos g) g.last_key_pos
    then record g {
      key_buf_key_pos_min = g.last_key_pos / chunk_size * chunk_size;
      key_buf_start_offset = 0;
      key_buf_populated = 0;
    }
    else if g.key_buf_populated == g.key_buf_size
    then record g {
      key_buf_start_offset = (g.key_buf_start_offset + chunk_size) % g.key_buf_size;
      key_buf_key_pos_min = (g.key_buf_key_pos_min + chunk_size) % 2 ^ 64;
      key_buf_populated = g.key_buf_populated - chunk_size;
    }
    else g

-- `buf_offset` and `key_pos` of the next chunk.
abbrev pub chunk_offset : GkCrypt → ℕ
chunk_offset g = (g.key_buf_start_offset + g.key_buf_populated) % g.key_buf_size

-- Bytes written where the next chunk goes, with the mutex released.
unfoldable pub write_chunk : GkCrypt → ℕ → List ℕ → GkCrypt
write_chunk g offset bytes = elim g.key_buf [
  | none ↦ g
  | some buf ↦ record g { key_buf = some (memcpy buf offset bytes) }
]

-- `gkcrypt_generate_next_chunk` up to the mutex's release: the offset and the position of the chunk;
-- `none` is a failed assertion.
unfoldable pub start_chunk : GkCrypt → Option (ℕ × ℕ)
start_chunk g =
    if leb (g.key_buf_populated + chunk_size) g.key_buf_size
    then some (chunk_offset g, end_pos g)
    else none

-- The rest of it, from the lock on, when the chunk was made.
unfoldable pub finish_chunk : GkCrypt → GkCrypt
finish_chunk g = record g { key_buf_populated = g.key_buf_populated + chunk_size }
