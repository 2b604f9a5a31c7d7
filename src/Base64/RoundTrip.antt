-- ===== src/Base64/RoundTrip.antt =====
-- What was encoded is decoded.
use mathlib.Core.List.{append_assoc, append-nil}
use vitaki_vitarps.Base.{
  ℕ, ◌+◌, ◌*◌, ◌/◌, ◌%◌, ◌^◌, ◌<◌, ◌≤◌, ◌≡◌, ◌∙◌, refl, sym, ap, ap₂, true, List, [], ◌∷◌, ◌++◌,
  length, ◌==◌, some, ok, arith, All, passes, passes_each, length-append, ==→eq, ge→ltb, gt→leb,
  ne→==,
}
use vitaki_vitarps.Base64.Codec.{
  char_at, code_of, digit, put_all, chars_of, encode_from, pad_char, padding, encode, decode_end,
  full_bytes, goes, decode_code, decode_from, decode,
}

codes_table : passes (λ x. code_of (char_at x) == x) 64 ≡ true
unfolding passes
codes_table = refl

-- The table of the decoder inverts the alphabet of the encoder.
code_of-char_at : (x : ℕ) → x < 64 → code_of (char_at x) ≡ x
code_of-char_at x h = ==→eq _ _ (passes_each (λ x. code_of (char_at x) == x) 64 x h codes_table)

put_all_lem :
    (out_size : ℕ) (out cs : List ℕ)
    → length out + length cs ≤ out_size
    → put_all out_size out cs ≡ some (out ++ cs)
unfolding put_all
put_all_lem out_size out [] h = ap some (sym (append-nil out))
put_all_lem out_size out (c ∷ cs) h =
    rw (gt→leb out_size (length out) (omega arith), put_all)
      (put_all_lem out_size (out ++ (c ∷ [])) cs (omega (arith, length-append out (c ∷ [])))
        ∙ ap some (append_assoc out (c ∷ []) cs))

-- The text of some bytes, without the padding.
abbrev pub digits_of : List ℕ → List ℕ
digits_of [] = []
digits_of (a ∷ []) =
    char_at (digit (a * 2 ^ 16) (2 ^ 18)) ∷ char_at (digit (a * 2 ^ 16) (2 ^ 12)) ∷ []
digits_of (a ∷ b ∷ []) =
    let n = a * 2 ^ 16 + b * 2 ^ 8 in
    char_at (digit n (2 ^ 18)) ∷ char_at (digit n (2 ^ 12)) ∷ char_at (digit n (2 ^ 6)) ∷ []
digits_of (a ∷ b ∷ c ∷ rest) = chars_of (a * 2 ^ 16 + b * 2 ^ 8 + c) ++ digits_of rest

encode_from_lem :
    (out_size : ℕ) (out bytes : List ℕ)
    → length out + length (digits_of bytes) ≤ out_size
    → encode_from out_size out bytes ≡ some (out ++ digits_of bytes)
unfolding encode_from
encode_from_lem out_size out [] h = ap some (sym (append-nil out))
encode_from_lem out_size out (a ∷ []) h = put_all_lem out_size out _ h
encode_from_lem out_size out (a ∷ b ∷ []) h = put_all_lem out_size out _ h
encode_from_lem out_size out (a ∷ b ∷ c ∷ rest) h =
    let cs = chars_of (a * 2 ^ 16 + b * 2 ^ 8 + c) in
    rw (put_all_lem out_size out cs (omega arith), encode_from)
      (encode_from_lem out_size (out ++ cs) rest (omega (arith, length-append out cs))
        ∙ ap some (append_assoc out cs (digits_of rest)))

-- The text of some bytes.
abbrev pub text_of : List ℕ → List ℕ
text_of bytes = digits_of bytes ++ padding (length bytes % 3)

pub encode_lem :
    (bytes : List ℕ) (out_size : ℕ)
    → length (text_of bytes) < out_size
    → encode bytes out_size ≡ ok (text_of bytes ++ (0 ∷ []))
unfolding encode
encode_lem bytes out_size h =
    rw
      (
        encode_from_lem out_size [] bytes
            (omega (arith, length-append (digits_of bytes) (padding (length bytes % 3)))),
        put_all_lem out_size (digits_of bytes) (padding (length bytes % 3))
            (omega (arith, length-append (digits_of bytes) (padding (length bytes % 3)))),
        put_all_lem out_size (text_of bytes) (0 ∷ []) (omega arith),
        encode,
      )
      refl

code-more :
    (out_size iter buf x : ℕ) (out : List ℕ)
    → x < 64
    → iter < 3
    → decode_code out_size iter buf out x ≡ goes (iter + 1) ((buf * 2 ^ 6 + x) % 2 ^ 32) out
unfolding decode_code
code-more out_size iter buf x out hx hi =
    rw
      (
        ne→== x 64 (omega arith),
        ne→== x 66 (omega arith),
        ne→== x 65 (omega arith),
        ne→== (iter + 1) 4 (omega arith),
      )
      refl

code-full :
    (out_size buf x : ℕ) (out : List ℕ)
    → x < 64
    → length out + 3 ≤ out_size
    → decode_code out_size 3 buf out x ≡ goes 0 0 (out ++ full_bytes ((buf * 2 ^ 6 + x) % 2 ^ 32))
unfolding decode_code
code-full out_size buf x out hx ho =
    rw
      (
        ne→== x 64 (omega arith),
        ne→== x 66 (omega arith),
        ne→== x 65 (omega arith),
        ge→ltb out_size (length out + 3) ho,
      )
      refl

read-more :
    (out_size iter buf x : ℕ) (out chs : List ℕ)
    → x < 64
    → iter < 3
    → decode_from out_size iter buf out (char_at x ∷ chs)
      ≡ decode_from out_size (iter + 1) ((buf * 2 ^ 6 + x) % 2 ^ 32) out chs
unfolding decode_from
read-more out_size iter buf x out chs hx hi =
    rw (code_of-char_at x hx, code-more out_size iter buf x out hx hi, decode_from) refl

read-full :
    (out_size buf x : ℕ) (out chs : List ℕ)
    → x < 64
    → length out + 3 ≤ out_size
    → decode_from out_size 3 buf out (char_at x ∷ chs)
      ≡ decode_from out_size 0 0 (out ++ full_bytes ((buf * 2 ^ 6 + x) % 2 ^ 32)) chs
unfolding decode_from
read-full out_size buf x out chs hx ho =
    rw (code_of-char_at x hx, code-full out_size buf x out hx ho, decode_from) refl

-- A character of padding ends the loop.
read-pad :
    (out_size iter buf : ℕ) (out chs : List ℕ)
    → decode_from out_size iter buf out (pad_char ∷ chs) ≡ decode_end out_size iter buf out
unfolding decode_from decode_code
read-pad out_size iter buf out chs = refl

abbrev push6 : ℕ → ℕ → ℕ
push6 buf x = (buf * 2 ^ 6 + x) % 2 ^ 32

push6-small : (buf x : ℕ) → buf < 2 ^ 20 → x < 64 → push6 buf x ≡ buf * 2 ^ 6 + x
push6-small buf x hb hx = omega arith

digit-range : (n power : ℕ) → digit n power < 64
digit-range n power = omega arith

-- The digits of three bytes, put together again.
joined2 : (n : ℕ) → n < 2 ^ 24 → push6 (push6 0 (digit n (2 ^ 18))) (digit n (2 ^ 12)) ≡ n / 2 ^ 12
joined2 n h = omega arith

joined3 :
    (n : ℕ)
    → n < 2 ^ 24
    → push6 (push6 (push6 0 (digit n (2 ^ 18))) (digit n (2 ^ 12))) (digit n (2 ^ 6)) ≡ n / 2 ^ 6
joined3 n h = rw (joined2 n h) (omega arith)

joined4 :
    (n : ℕ)
    → n < 2 ^ 24
    → push6
        (push6 (push6 (push6 0 (digit n (2 ^ 18))) (digit n (2 ^ 12))) (digit n (2 ^ 6)))
        (digit n 1)
      ≡ n
joined4 n h = rw (joined3 n h) (omega arith)

three_bytes :
    (a b c : ℕ)
    → a < 2 ^ 8
    → b < 2 ^ 8
    → c < 2 ^ 8
    → full_bytes (a * 2 ^ 16 + b * 2 ^ 8 + c) ≡ a ∷ b ∷ c ∷ []
three_bytes a b c ha hb hc = ground (arith, ha, hb, hc)

read-two :
    (out_size n : ℕ) (out chs : List ℕ)
    → n < 2 ^ 24
    → decode_from out_size 0 0 out (char_at (digit n (2 ^ 18)) ∷ char_at (digit n (2 ^ 12)) ∷ chs)
      ≡ decode_from out_size 2 (n / 2 ^ 12) out chs
read-two out_size n out chs h =
    read-more out_size 0 0 (digit n (2 ^ 18)) out _ (digit-range n _) (omega arith)
    ∙ read-more out_size 1 (push6 0 (digit n (2 ^ 18))) (digit n (2 ^ 12)) out chs (digit-range n _)
        (omega arith)
    ∙ ap (λ buf. decode_from out_size 2 buf out chs) (joined2 n h)

read-three :
    (out_size n : ℕ) (out chs : List ℕ)
    → n < 2 ^ 24
    → decode_from out_size 0 0 out
        (char_at (digit n (2 ^ 18)) ∷ char_at (digit n (2 ^ 12)) ∷ char_at (digit n (2 ^ 6)) ∷ chs)
      ≡ decode_from out_size 3 (n / 2 ^ 6) out chs
read-three out_size n out chs h =
    read-two out_size n out (char_at (digit n (2 ^ 6)) ∷ chs) h
    ∙ read-more out_size 2 (n / 2 ^ 12) (digit n (2 ^ 6)) out chs (digit-range n _) (omega arith)
    ∙ ap (λ buf. decode_from out_size 3 buf out chs) (omega arith)

read-four :
    (out_size n : ℕ) (out chs : List ℕ)
    → n < 2 ^ 24
    → length out + 3 ≤ out_size
    → decode_from out_size 0 0 out (chars_of n ++ chs)
      ≡ decode_from out_size 0 0 (out ++ full_bytes n) chs
read-four out_size n out chs h ho =
    read-three out_size n out (char_at (digit n 1) ∷ chs) h
    ∙ read-full out_size (n / 2 ^ 6) (digit n 1) out chs (digit-range n _) ho
    ∙ ap (λ buf. decode_from out_size 0 0 (out ++ full_bytes buf) chs) (omega arith)

decode_from-text :
    (out_size : ℕ) (out bytes : List ℕ)
    → All (λ b. b < 2 ^ 8) bytes
    → length out + length bytes ≤ out_size
    → decode_from out_size 0 0 out (text_of bytes) ≡ ok (out ++ bytes)
unfolding decode_from decode_end
decode_from-text out_size out [] hb h = ap ok (sym (append-nil out))
decode_from-text out_size out (a ∷ []) (ha, _) h =
    read-two out_size (a * 2 ^ 16) out (pad_char ∷ pad_char ∷ []) (omega arith)
    ∙ read-pad out_size 2 (a * 2 ^ 16 / 2 ^ 12) out (pad_char ∷ [])
    ∙ rw (ge→ltb out_size (length out + 1) (omega arith))
        (ap (λ x. ok (out ++ (x ∷ []))) (omega arith))
decode_from-text out_size out (a ∷ b ∷ []) (ha, (hb, _)) h =
    let n = a * 2 ^ 16 + b * 2 ^ 8 in
    read-three out_size n out (pad_char ∷ []) (omega arith)
    ∙ read-pad out_size 3 (n / 2 ^ 6) out []
    ∙ rw (ge→ltb out_size (length out + 2) (omega arith))
        (ap₂ (λ x y. ok (out ++ (x ∷ y ∷ []))) (omega arith) (omega arith))
decode_from-text out_size out (a ∷ b ∷ c ∷ rest) (ha, (hb, (hc, hr))) h =
    let n = a * 2 ^ 16 + b * 2 ^ 8 + c in
    let same : length (a ∷ b ∷ c ∷ rest) % 3 ≡ length rest % 3 = omega arith in
    ap (λ r. decode_from out_size 0 0 out (chars_of n ++ (digits_of rest ++ padding r))) same
    ∙ read-four out_size n out (text_of rest) (omega arith) (omega arith)
    ∙ ap (λ bs. decode_from out_size 0 0 (out ++ bs) (text_of rest)) (three_bytes a b c ha hb hc)
    ∙ decode_from-text out_size (out ++ (a ∷ b ∷ c ∷ [])) rest hr
        (omega (arith, length-append out (a ∷ b ∷ c ∷ [])))
    ∙ ap ok (append_assoc out (a ∷ b ∷ c ∷ []) rest)

-- Bytes for whose text, and the 0 behind it, there is room are encoded, and the text, without the
-- 0, is decoded to the same bytes when there is room for them.
pub decode-encode :
    (bytes : List ℕ) (text_size out_size : ℕ)
    → All (λ b. b < 2 ^ 8) bytes
    → length (text_of bytes) < text_size
    → length bytes ≤ out_size
    → (text : List ℕ) × (encode bytes text_size ≡ ok (text ++ (0 ∷ [])))
      × (decode text out_size ≡ ok bytes)
unfolding decode
decode-encode bytes text_size out_size hb ht ho = (
  text_of bytes,
  encode_lem bytes text_size ht,
  decode_from-text out_size [] bytes hb (omega arith),
)
