-- ===== src/GkCrypt/Stream.antt =====
-- lib/src/gkcrypt.c: the stream of key bytes. The block cipher of OpenSSL or Mbed TLS is a parameter.
use vitaki_vitarps.Base.{
  ℕ, zero, suc, ◌+◌, ◌-◌, ◌/◌, ◌%◌, ◌^◌, Bool, ◌&&◌, Option, none, some, List, [], ◌++◌, ltb, ◌==◌,
  if◌then◌else◌, Result, fail, ok, unknown,
}
use vitaki_vitarps.GkCrypt.Counter.{counter_add}

-- AES-128-ECB on one block, by the key; whether the library's calls succeed.
pub record Aes : Type 0 where
  pub encrypt : List ℕ → List ℕ → List ℕ
  pub works : Bool

abbrev pub block_size : ℕ
block_size = 16

-- `key_buf` is what it points to, or NULL; `key_buf_size` is its length in a valid state.
pub record GkCrypt : Type 0 where
  pub key_buf : Option (List ℕ)
  pub key_buf_size : ℕ
  pub key_buf_populated : ℕ
  pub key_buf_key_pos_min : ℕ
  pub key_buf_start_offset : ℕ
  pub last_key_pos : ℕ
  pub key_buf_thread_stop : Bool
  pub iv : List ℕ
  pub key_base : List ℕ

-- An `int` made a `uint64_t`.
abbrev pub sign_extend : ℕ → ℕ
sign_extend x = if ltb x (2 ^ 31) then x else x + (2 ^ 64 - 2 ^ 32)

-- The block for a value of `counter_offset`, as the pattern of its 32 bits.
unfoldable pub block : Aes → List ℕ → List ℕ → ℕ → List ℕ
block aes key iv counter = aes.encrypt key (counter_add iv (sign_extend counter))

-- `n` blocks; `counter_offset++` is taken to wrap.
unfoldable pub blocks : Aes → List ℕ → List ℕ → ℕ → ℕ → List ℕ
unfolding block
blocks aes key iv zero counter = []
blocks aes key iv (suc n) counter =
    block aes key iv counter ++ blocks aes key iv n ((counter + 1) % 2 ^ 32)

-- `none` is a failed assertion.
unfoldable pub gen_key_stream : Aes → GkCrypt → ℕ → ℕ → Option (Result (List ℕ))
unfolding blocks
gen_key_stream aes gkcrypt key_pos buf_size =
    if key_pos % block_size == 0 && buf_size % block_size == 0
    then some (
        if aes.works
        then ok (
            blocks aes gkcrypt.key_base gkcrypt.iv (buf_size / block_size)
              (key_pos / block_size % 2 ^ 32))
        else fail unknown)
    else none
