-- ===== src/GkCrypt/Cipher.antt =====
-- lib/src/gkcrypt.c: chiaki_gkcrypt_decrypt, which also encrypts; lib/src/utils.h: xor_bytes.
use Prim.Native.Nat.{bit_xor}
use vitaki_vitarps.Base.{
  ℕ, zero, suc, ◌+◌, ◌-◌, ◌*◌, ◌/◌, ◌%◌, ◌^◌, ◌<◌, ◌≡◌, refl, sym, ap, ap₂, ◌∙◌, Bool, true, not,
  Option, none, some, List, [], ◌∷◌, ◌++◌, arith, length, drop, All, passes, passes_each, ◌==◌,
  ==→eq, if◌then◌else◌, Result, fail, ok, memory,
}
use vitaki_vitarps.GkCrypt.Counter.{IsByte}
use vitaki_vitarps.GkCrypt.Stream.{Aes, GkCrypt, gen_key_stream, block, blocks}
use vitaki_vitarps.GkCrypt.Ring.{get_key_stream}
use vitaki_vitarps.GkCrypt.Windows.{MakesBlocks}
use vitaki_vitarps.GkCrypt.RingLaws.{IsFilled, get_key_stream-gen_key_stream}

-- As far as there are bytes of the second array.
unfoldable pub xor_bytes : List ℕ → List ℕ → List ℕ
xor_bytes [] src = []
xor_bytes (x ∷ dst) [] = x ∷ dst
xor_bytes (x ∷ dst) (y ∷ src) = bit_xor x y ∷ xor_bytes dst src

-- The bytes and the state left; `malloc_ok` tells whether the key stream's bytes are allocated, and
-- `none` is a failed assertion.
unfoldable pub decrypt : Aes → Bool → GkCrypt → ℕ → List ℕ → Option (Result (List ℕ)) × GkCrypt
unfolding get_key_stream
decrypt aes malloc_ok g key_pos buf =
    let padding_pre = key_pos % 16 in
    let full_size = (padding_pre + length buf + 16 - 1) / 16 * 16 in
    let (stream, g', _) = get_key_stream aes g (key_pos - padding_pre) full_size in
    if not malloc_ok then (some (fail memory), g) else (
      elim stream [
        | none ↦ none
        | some (fail err) ↦ some (fail err)
        | some (ok key_stream) ↦ some (ok (xor_bytes buf (drop padding_pre key_stream)))
      ],
      g',
    )

xor_table : passes (λ a. passes (λ b. bit_xor (bit_xor a b) b == a) 256) 256 ≡ true
unfolding passes
xor_table = refl

xor_twice : (a b : ℕ) → IsByte a → IsByte b → bit_xor (bit_xor a b) b ≡ a
xor_twice a b ha hb = ==→eq _ _ (
    passes_each (λ b. bit_xor (bit_xor a b) b == a) 256 b hb
      (passes_each (λ a. passes (λ b. bit_xor (bit_xor a b) b == a) 256) 256 a ha xor_table))

length-xor_bytes : (dst src : List ℕ) → length (xor_bytes dst src) ≡ length dst
unfolding xor_bytes
length-xor_bytes [] src = refl
length-xor_bytes (x ∷ dst) [] = refl
length-xor_bytes (x ∷ dst) (y ∷ src) = ap suc (length-xor_bytes dst src)

xor_bytes_twice :
    (dst src : List ℕ) → All IsByte dst → All IsByte src → xor_bytes (xor_bytes dst src) src ≡ dst
unfolding xor_bytes
xor_bytes_twice [] src h k = refl
xor_bytes_twice (x ∷ dst) [] h k = refl
xor_bytes_twice (x ∷ dst) (y ∷ src) h k =
    ap₂ ◌∷◌ (xor_twice x y h.0 k.0) (xor_bytes_twice dst src h.1 k.1)

-- Every byte of a block encrypted is one.
abbrev pub MakesBytes : Aes → Type 0
MakesBytes aes = (key input : List ℕ) → All IsByte (aes.encrypt key input)

All-drop : (n : ℕ) (xs : List ℕ) → All IsByte xs → All IsByte (drop n xs)
All-drop zero xs h = h
All-drop (suc n) [] h = tt
All-drop (suc n) (x ∷ xs) h = All-drop n xs h.1

All-append : (xs ys : List ℕ) → All IsByte xs → All IsByte ys → All IsByte (xs ++ ys)
All-append [] ys h k = k
All-append (x ∷ xs) ys h k = (h.0, All-append xs ys h.1 k)

All-blocks :
    (aes : Aes) (key iv : List ℕ) (n counter : ℕ)
    → MakesBytes aes
    → All IsByte (blocks aes key iv n counter)
unfolding blocks block
All-blocks aes key iv zero counter h = tt
All-blocks aes key iv (suc n) counter h =
    All-append (block aes key iv counter) (blocks aes key iv n ((counter + 1) % 2 ^ 32)) (h key _)
      (All-blocks aes key iv n ((counter + 1) % 2 ^ 32) h)

-- The bytes that a message of some length is combined with.
abbrev pad : Aes → List ℕ → List ℕ → ℕ → ℕ → List ℕ
pad aes key iv key_pos n = drop (key_pos % 16) (
    blocks aes key iv ((key_pos % 16 + n + 16 - 1) / 16 * 16 / 16)
      ((key_pos - key_pos % 16) / 16 % 2 ^ 32))

gen_key_stream_lem :
    (aes : Aes) (g : GkCrypt) (key_pos n : ℕ)
    → aes.works ≡ true
    → key_pos % 16 ≡ 0
    → n % 16 ≡ 0
    → gen_key_stream aes g key_pos n
      ≡ some (ok (blocks aes g.key_base g.iv (n / 16) (key_pos / 16 % 2 ^ 32)))
unfolding gen_key_stream
gen_key_stream_lem aes g key_pos n w h k = ground (arith, w)

decrypt-stream :
    (aes : Aes) (g : GkCrypt) (key_pos : ℕ) (buf key_stream : List ℕ)
    → (get_key_stream aes g
        (key_pos - key_pos % 16)
        ((key_pos % 16 + length buf + 16 - 1) / 16 * 16)).0
      ≡ some (ok key_stream)
    → (decrypt aes true g key_pos buf).0
      ≡ some (ok (xor_bytes buf (drop (key_pos % 16) key_stream)))
unfolding decrypt
decrypt-stream aes g key_pos buf key_stream e = rw e refl

decrypt_lem :
    (aes : Aes) (g : GkCrypt) (ring : List ℕ) (key_pos : ℕ) (buf : List ℕ)
    → IsFilled aes g ring
    → MakesBlocks aes
    → aes.works ≡ true
    → key_pos + length buf + 16 < 2 ^ 62
    → (decrypt aes true g key_pos buf).0
      ≡ some (ok (xor_bytes buf (pad aes g.key_base g.iv key_pos (length buf))))
decrypt_lem aes g ring key_pos buf v sized works small =
    let start = key_pos - key_pos % 16 in
    let full_size = (key_pos % 16 + length buf + 16 - 1) / 16 * 16 in
    let aligned : start % 16 ≡ 0 = omega arith in
    let whole : full_size % 16 ≡ 0 = omega arith in
    decrypt-stream aes g key_pos buf
      (blocks aes g.key_base g.iv (full_size / 16) (start / 16 % 2 ^ 32))
      (get_key_stream-gen_key_stream aes g ring v start full_size sized works aligned whole
          (omega (arith, small))
        ∙ gen_key_stream_lem aes g start full_size works aligned whole)

-- What one side encrypts at a position, the other decrypts there to the same bytes, when both have
-- the same key and iv, whatever their rings hold of the key stream. (Memory is there, the cipher
-- works and makes blocks of 16 bytes.)
pub decrypt-decrypt :
    (aes : Aes) (g g' : GkCrypt) (ring ring' : List ℕ) (key_pos : ℕ) (buf : List ℕ)
    → IsFilled aes g ring
    → IsFilled aes g' ring'
    → g.key_base ≡ g'.key_base
    → g.iv ≡ g'.iv
    → MakesBlocks aes
    → MakesBytes aes
    → aes.works ≡ true
    → All IsByte buf
    → key_pos + length buf + 16 < 2 ^ 62
    → (encrypted : List ℕ) × ((decrypt aes true g key_pos buf).0 ≡ some (ok encrypted))
      × ((decrypt aes true g' key_pos encrypted).0 ≡ some (ok buf))
decrypt-decrypt aes g g' ring ring' key_pos buf v v' same_key same_iv sized bytes works plain
      small =
    let mask = pad aes g.key_base g.iv key_pos (length buf) in
    let encrypted = xor_bytes buf mask in
    let same_length : length encrypted ≡ length buf = length-xor_bytes buf mask in
    let masked : All IsByte mask =
      All-drop (key_pos % 16) _ (All-blocks aes g.key_base g.iv _ _ bytes) in
    let same_mask : pad aes g'.key_base g'.iv key_pos (length encrypted) ≡ mask =
      ap₂ (λ key iv. pad aes key iv key_pos (length encrypted)) (sym same_key) (sym same_iv)
      ∙ ap (pad aes g.key_base g.iv key_pos) same_length in
    (
      encrypted,
      decrypt_lem aes g ring key_pos buf v sized works small,
      decrypt_lem aes g' ring' key_pos encrypted v' sized works (omega (arith, small, same_length))
          ∙ ap (λ m. some (ok m))
              (ap (xor_bytes encrypted) same_mask ∙ xor_bytes_twice buf mask plain masked),
    )
