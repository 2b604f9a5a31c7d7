-- ===== src/Base64/Codec.antt =====
-- chiaki_base64_encode and chiaki_base64_decode.
use vitaki_vitarps.Base.{
  ℕ, ◌+◌, ◌*◌, ◌/◌, ◌%◌, ◌^◌, List, [], ◌∷◌, ◌++◌, length, get_or, ltb, leb, ◌==◌, if◌then◌else◌,
  Option, none, some, buf_too_small, invalid_data, Result, fail, ok,
}

abbrev pub base64chars : List ℕ
base64chars =
    65 ∷ 66 ∷ 67 ∷ 68 ∷ 69 ∷ 70 ∷ 71 ∷ 72 ∷ 73 ∷ 74 ∷ 75 ∷ 76 ∷ 77 ∷ 78 ∷ 79 ∷ 80 ∷ 81 ∷ 82 ∷ 83
    ∷ 84 ∷ 85 ∷ 86 ∷ 87 ∷ 88 ∷ 89 ∷ 90 ∷ 97 ∷ 98 ∷ 99 ∷ 100 ∷ 101 ∷ 102 ∷ 103 ∷ 104 ∷ 105 ∷ 106
    ∷ 107 ∷ 108 ∷ 109 ∷ 110 ∷ 111 ∷ 112 ∷ 113 ∷ 114 ∷ 115 ∷ 116 ∷ 117 ∷ 118 ∷ 119 ∷ 120 ∷ 121 ∷ 122
    ∷ 48 ∷ 49 ∷ 50 ∷ 51 ∷ 52 ∷ 53 ∷ 54 ∷ 55 ∷ 56 ∷ 57 ∷ 43 ∷ 47 ∷ []

-- The table `d`.
abbrev pub d : List ℕ
d =
    66 ∷ 66 ∷ 66 ∷ 66 ∷ 66 ∷ 66 ∷ 66 ∷ 66 ∷ 66 ∷ 66 ∷ 64 ∷ 66 ∷ 66 ∷ 66 ∷ 66 ∷ 66 ∷ 66 ∷ 66 ∷ 66
    ∷ 66 ∷ 66 ∷ 66 ∷ 66 ∷ 66 ∷ 66 ∷ 66 ∷ 66 ∷ 66 ∷ 66 ∷ 66 ∷ 66 ∷ 66 ∷ 66 ∷ 66 ∷ 66 ∷ 66 ∷ 66 ∷ 66
    ∷ 66 ∷ 66 ∷ 66 ∷ 66 ∷ 66 ∷ 62 ∷ 66 ∷ 66 ∷ 66 ∷ 63 ∷ 52 ∷ 53 ∷ 54 ∷ 55 ∷ 56 ∷ 57 ∷ 58 ∷ 59 ∷ 60
    ∷ 61 ∷ 66 ∷ 66 ∷ 66 ∷ 65 ∷ 66 ∷ 66 ∷ 66 ∷ 0 ∷ 1 ∷ 2 ∷ 3 ∷ 4 ∷ 5 ∷ 6 ∷ 7 ∷ 8 ∷ 9 ∷ 10 ∷ 11 ∷ 12
    ∷ 13 ∷ 14 ∷ 15 ∷ 16 ∷ 17 ∷ 18 ∷ 19 ∷ 20 ∷ 21 ∷ 22 ∷ 23 ∷ 24 ∷ 25 ∷ 66 ∷ 66 ∷ 66 ∷ 66 ∷ 66 ∷ 66
    ∷ 26 ∷ 27 ∷ 28 ∷ 29 ∷ 30 ∷ 31 ∷ 32 ∷ 33 ∷ 34 ∷ 35 ∷ 36 ∷ 37 ∷ 38 ∷ 39 ∷ 40 ∷ 41 ∷ 42 ∷ 43 ∷ 44
    ∷ 45 ∷ 46 ∷ 47 ∷ 48 ∷ 49 ∷ 50 ∷ 51 ∷ 66 ∷ 66 ∷ 66 ∷ 66 ∷ 66 ∷ 66 ∷ 66 ∷ 66 ∷ 66 ∷ 66 ∷ 66 ∷ 66
    ∷ 66 ∷ 66 ∷ 66 ∷ 66 ∷ 66 ∷ 66 ∷ 66 ∷ 66 ∷ 66 ∷ 66 ∷ 66 ∷ 66 ∷ 66 ∷ 66 ∷ 66 ∷ 66 ∷ 66 ∷ 66 ∷ 66
    ∷ 66 ∷ 66 ∷ 66 ∷ 66 ∷ 66 ∷ 66 ∷ 66 ∷ 66 ∷ 66 ∷ 66 ∷ 66 ∷ 66 ∷ 66 ∷ 66 ∷ 66 ∷ 66 ∷ 66 ∷ 66 ∷ 66
    ∷ 66 ∷ 66 ∷ 66 ∷ 66 ∷ 66 ∷ 66 ∷ 66 ∷ 66 ∷ 66 ∷ 66 ∷ 66 ∷ 66 ∷ 66 ∷ 66 ∷ 66 ∷ 66 ∷ 66 ∷ 66 ∷ 66
    ∷ 66 ∷ 66 ∷ 66 ∷ 66 ∷ 66 ∷ 66 ∷ 66 ∷ 66 ∷ 66 ∷ 66 ∷ 66 ∷ 66 ∷ 66 ∷ 66 ∷ 66 ∷ 66 ∷ 66 ∷ 66 ∷ 66
    ∷ 66 ∷ 66 ∷ 66 ∷ 66 ∷ 66 ∷ 66 ∷ 66 ∷ 66 ∷ 66 ∷ 66 ∷ 66 ∷ 66 ∷ 66 ∷ 66 ∷ 66 ∷ 66 ∷ 66 ∷ 66 ∷ 66
    ∷ 66 ∷ 66 ∷ 66 ∷ 66 ∷ 66 ∷ 66 ∷ 66 ∷ 66 ∷ 66 ∷ 66 ∷ 66 ∷ 66 ∷ 66 ∷ 66 ∷ 66 ∷ 66 ∷ 66 ∷ 66 ∷ 66
    ∷ 66 ∷ 66 ∷ 66 ∷ 66 ∷ 66 ∷ 66 ∷ 66 ∷ []

abbrev pub char_at : ℕ → ℕ
char_at n = get_or base64chars n 0

abbrev pub code_of : ℕ → ℕ
code_of c = get_or d c 66

-- `(uint8_t)(n >> shift) & 63`, for the shift as a power of 2.
abbrev pub digit : ℕ → ℕ → ℕ
digit n power = n / power % 2 ^ 8 % 64

-- `out[result_index++] = c` for some characters, each after the test of the size.
unfoldable pub put_all : ℕ → List ℕ → List ℕ → Option (List ℕ)
put_all out_size out [] = some out
put_all out_size out (c ∷ cs) =
    let rest = put_all out_size (out ++ (c ∷ [])) cs in
    if leb out_size (length out) then none else rest

abbrev pub chars_of : ℕ → List ℕ
chars_of n =
    char_at (digit n (2 ^ 18))
    ∷ char_at (digit n (2 ^ 12))
    ∷ char_at (digit n (2 ^ 6))
    ∷ char_at (digit n 1)
    ∷ []

-- The loop over three bytes at a time.
unfoldable pub encode_from : ℕ → List ℕ → List ℕ → Option (List ℕ)
unfolding put_all
encode_from out_size out [] = some out
encode_from out_size out (a ∷ []) =
    let n = a * 2 ^ 16 in
    put_all out_size out (char_at (digit n (2 ^ 18)) ∷ char_at (digit n (2 ^ 12)) ∷ [])
encode_from out_size out (a ∷ b ∷ []) =
    let n = a * 2 ^ 16 + b * 2 ^ 8 in
    put_all out_size out
      (char_at (digit n (2 ^ 18)) ∷ char_at (digit n (2 ^ 12)) ∷ char_at (digit n (2 ^ 6)) ∷ [])
encode_from out_size out (a ∷ b ∷ c ∷ rest) =
    elim (put_all out_size out (chars_of (a * 2 ^ 16 + b * 2 ^ 8 + c))) [
      | none ↦ none
      | some out' ↦ encode_from out_size out' rest
    ]

-- The code of '='.
abbrev pub pad_char : ℕ
pad_char = 61

-- The padding, for `in_size % 3`.
abbrev pub padding : ℕ → List ℕ
padding r = if r == 1 then pad_char ∷ pad_char ∷ [] else if r == 2 then pad_char ∷ [] else []

-- The result is what is written, with the 0 at the end; a call that fails leaves some of it.
unfoldable pub encode : List ℕ → ℕ → Result (List ℕ)
unfolding encode_from
encode bytes out_size = elim (encode_from out_size [] bytes) [
  | none ↦ fail buf_too_small
  | some out ↦ elim (put_all out_size out (padding (length bytes % 3))) [
    | none ↦ fail buf_too_small
    | some out' ↦ elim (put_all out_size out' (0 ∷ [])) [
      | none ↦ fail buf_too_small
      | some out'' ↦ ok out''
    ]
  ]
]

abbrev pub whitespace : ℕ
whitespace = 64

abbrev pub equals : ℕ
equals = 65

abbrev pub invalid : ℕ
invalid = 66

-- After the last character: what is left in `buf` of `iter` characters.
unfoldable pub decode_end : ℕ → ℕ → ℕ → List ℕ → Result (List ℕ)
decode_end out_size iter buf out =
    if iter == 3
    then if ltb out_size (length out + 2)
      then fail buf_too_small
      else ok (out ++ (buf / 2 ^ 10 % 2 ^ 8 ∷ buf / 2 ^ 2 % 2 ^ 8 ∷ []))
    else if iter == 2
    then if ltb out_size (length out + 1)
      then fail buf_too_small
      else ok (out ++ (buf / 2 ^ 4 % 2 ^ 8 ∷ []))
    else ok out

abbrev pub full_bytes : ℕ → List ℕ
full_bytes buf = buf / 2 ^ 16 % 2 ^ 8 ∷ buf / 2 ^ 8 % 2 ^ 8 ∷ buf % 2 ^ 8 ∷ []

-- What a character does: the loop goes on with `iter`, `buf` and the bytes written, or it ends.
pub data Step : Type 0 where
  goes : ℕ → ℕ → List ℕ → Step
  ends : Result (List ℕ) → Step

-- The switch, by the code of a character.
unfoldable pub decode_code : ℕ → ℕ → ℕ → List ℕ → ℕ → Step
unfolding decode_end
decode_code out_size iter buf out c =
    let buf' = (buf * 2 ^ 6 + c) % 2 ^ 32 in
    if c == whitespace
    then goes iter buf out
    else if c == invalid
    then ends (fail invalid_data)
    else if c == equals
    then ends (decode_end out_size iter buf out)
    else if iter + 1 == 4
    then if ltb out_size (length out + 3)
      then ends (fail buf_too_small)
      else goes 0 0 (out ++ full_bytes buf')
    else goes (iter + 1) buf' out

unfoldable pub decode_from : ℕ → ℕ → ℕ → List ℕ → List ℕ → Result (List ℕ)
unfolding decode_code
decode_from out_size iter buf out [] = decode_end out_size iter buf out
decode_from out_size iter buf out (ch ∷ chs) =
    elim (decode_code out_size iter buf out (code_of ch)) [
      | ends result ↦ result
      | goes iter' buf' out' ↦ decode_from out_size iter' buf' out' chs
    ]

-- The result is the bytes written, whose number is `*out_size`.
unfoldable pub decode : List ℕ → ℕ → Result (List ℕ)
unfolding decode_from
decode text out_size = decode_from out_size 0 0 [] text
