-- ===== src/Takion/Bytes.antt =====
-- Numbers in network byte order, and writes into a buffer cut into segments.
use vitaki_vitarps.Base.{
  refl, ℕ, ◌+◌, ◌*◌, ◌/◌, ◌%◌, ◌^◌, ◌<◌, ◌≡◌, ap, ap₂, ◌∙◌, List, [], ◌∷◌, ◌++◌, length, get_or,
  take, arith, take-append, drop-append,
}
use vitaki_vitarps.Frame.Processor.{ntohs, memcpy, slice}

-- The bytes of `htons(x)` in memory.
abbrev pub htons : ℕ → List ℕ
htons x = x / 2 ^ 8 % 2 ^ 8 ∷ x % 2 ^ 8 ∷ []

-- The bytes of `htonl(x)` in memory.
abbrev pub htonl : ℕ → List ℕ
htonl x = x / 2 ^ 24 % 2 ^ 8 ∷ x / 2 ^ 16 % 2 ^ 8 ∷ x / 2 ^ 8 % 2 ^ 8 ∷ x % 2 ^ 8 ∷ []

-- `ntohl` of the four bytes at the start.
abbrev pub ntohl : List ℕ → ℕ
ntohl buf =
    get_or buf 0 0 * 2 ^ 24 + get_or buf 1 0 * 2 ^ 16 + get_or buf 2 0 * 2 ^ 8 + get_or buf 3 0

pub ntohs-htons : (x : ℕ) (rest : List ℕ) → x < 2 ^ 16 → ntohs (htons x ++ rest) ≡ x
ntohs-htons x rest h = omega arith

pub ntohl-htonl : (x : ℕ) (rest : List ℕ) → x < 2 ^ 32 → ntohl (htonl x ++ rest) ≡ x
ntohl-htonl x rest h = omega arith

pub ntohl-append : (pos rest : List ℕ) → length pos ≡ 4 → ntohl (pos ++ rest) ≡ ntohl pos
ntohl-append [] rest h = absurd (omega (arith, h))
ntohl-append (a ∷ []) rest h = absurd (omega (arith, h))
ntohl-append (a ∷ b ∷ []) rest h = absurd (omega (arith, h))
ntohl-append (a ∷ b ∷ c ∷ []) rest h = absurd (omega (arith, h))
ntohl-append (a ∷ b ∷ c ∷ d ∷ pos) rest h = refl

-- The segment `M` of `A ++ M ++ R` overwritten by one of its length.
pub memcpy-segment :
    (A M R bytes : List ℕ) (n : ℕ)
    → n ≡ length A
    → length bytes ≡ length M
    → memcpy (A ++ (M ++ R)) n bytes ≡ A ++ (bytes ++ R)
memcpy-segment A M R bytes n hn hm = ap₂ ◌++◌ (take-append A (M ++ R) n hn) (
    ap (◌++◌ bytes) (
      drop-append A (M ++ R) (n + length bytes) (length bytes) (omega arith)
      ∙ drop-append M R (length bytes) 0 (omega arith)))

pub slice-segment :
    (A M R : List ℕ) (n m : ℕ) → n ≡ length A → m ≡ length M → slice (A ++ (M ++ R)) n m ≡ M
slice-segment A M R n m hn hm =
    ap (take m) (drop-append A (M ++ R) n 0 (omega arith)) ∙ take-append M R m hm
