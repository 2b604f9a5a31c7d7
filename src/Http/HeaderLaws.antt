-- ===== src/Http/HeaderLaws.antt =====
-- Headers that are printed are parsed.
use mathlib.Core.List.{append_assoc, append-nil, reverse, reverse_aux}
use vitaki_vitarps.Base.{
  ◌+◌, Bool, true, if◌then◌else◌, Result, zero, suc, ◌&&◌, inl, inr, Bool-cases, fail, memory, ℕ,
  ◌≡◌, ◌≢◌, ◌<◌, refl, sym, ap, ◌∙◌, List, [], ◌∷◌, ◌++◌, arith, length, All, ok, ne→==,
}
use vitaki_vitarps.Http.Headers.{
  HttpHeader, in_key, behind_space, in_value, c_string, header_parse_from, header_parse,
}

-- A byte that neither ends a line nor the buffer.
abbrev pub IsPlain : ℕ → Type 0
IsPlain c = (c ≢ 0) × (c ≢ 13) × (c ≢ 10)

abbrev pub IsKeyByte : ℕ → Type 0
IsKeyByte c = IsPlain c × (c ≢ 58)

-- The first byte of a value may be the end of a line.
abbrev pub IsValue : List ℕ → Type 0
IsValue [] = ⊥
IsValue (b ∷ bs) = (b ≢ 0) × All IsPlain bs

pub record IsHeader (h : HttpHeader) : Type 0 where
  pub some_key : 0 < length h.key
  pub key_bytes : All IsKeyByte h.key
  pub is_value : IsValue h.value

abbrev pub print_header : HttpHeader → List ℕ → List ℕ
print_header h rest = h.key ++ (58 ∷ 32 ∷ (h.value ++ (13 ∷ 10 ∷ rest)))

-- The lines of a header and the empty line.
abbrev pub print_headers : List HttpHeader → List ℕ
print_headers [] = 13 ∷ 10 ∷ []
print_headers (h ∷ hs) = print_header h (print_headers hs)

-- Whether the memory for so many headers is there, behind `first` others.
abbrev pub all_ok : (ℕ → Bool) → ℕ → ℕ → Bool
all_ok malloc_ok first zero = true
all_ok malloc_ok first (suc n) = malloc_ok first && all_ok malloc_ok (first + 1) n

module _ (malloc_ok : ℕ → Bool) (headers : List HttpHeader) where
  key_bytes_lem :
      (bs key cs : List ℕ)
      → All IsKeyByte bs
      → header_parse_from malloc_ok (bs ++ cs) (in_key key) headers
        ≡ header_parse_from malloc_ok cs (in_key (key ++ bs)) headers
  unfolding header_parse_from
  key_bytes_lem [] key cs plain =
      ap (λ k. header_parse_from malloc_ok cs (in_key k) headers) (sym (append-nil key))
  key_bytes_lem (b ∷ bs) key cs (((not_end, not_r, not_n), not_colon), plain) =
      rw (ne→== b 0 not_end, ne→== b 58 not_colon, ne→== b 13 not_r, ne→== b 10 not_n)
        (key_bytes_lem bs (key ++ b ∷ []) cs plain
          ∙ ap (λ k. header_parse_from malloc_ok cs (in_key k) headers)
              (append_assoc key (b ∷ []) bs))

  value_bytes_lem :
      (bs key value cs : List ℕ)
      → All IsPlain bs
      → header_parse_from malloc_ok (bs ++ cs) (in_value key value) headers
        ≡ header_parse_from malloc_ok cs (in_value key (value ++ bs)) headers
  unfolding header_parse_from
  value_bytes_lem [] key value cs plain =
      ap (λ v. header_parse_from malloc_ok cs (in_value key v) headers) (sym (append-nil value))
  value_bytes_lem (b ∷ bs) key value cs ((not_end, not_r, not_n), plain) =
      rw (ne→== b 0 not_end, ne→== b 13 not_r, ne→== b 10 not_n)
        (value_bytes_lem bs key (value ++ b ∷ []) cs plain
          ∙ ap (λ v. header_parse_from malloc_ok cs (in_value key v) headers)
              (append_assoc value (b ∷ []) bs))

  colon_lem :
      (key cs : List ℕ)
      → 0 < length key
      → header_parse_from malloc_ok (58 ∷ 32 ∷ cs) (in_key key) headers
        ≡ header_parse_from malloc_ok cs (behind_space key) headers
  unfolding header_parse_from
  colon_lem key cs h = rw (ne→== (length key) 0 (omega (arith, h))) refl

  line_end_lem :
      (key value cs : List ℕ)
      → 0 < length value
      → header_parse_from malloc_ok (13 ∷ 10 ∷ cs) (in_value key value) headers ≡ (
          if malloc_ok (length headers)
          then header_parse_from malloc_ok cs
              (in_key [])
              (record { key = key; value = c_string value } ∷ headers)
          else fail memory)
  unfolding header_parse_from
  line_end_lem key value cs h = rw (ne→== (length value) 0 (omega (arith, h))) refl

c_string-same : (bs : List ℕ) → All IsPlain bs → c_string bs ≡ bs
c_string-same [] plain = refl
c_string-same (b ∷ bs) ((not_end, _, _), plain) =
    rw (ne→== b 0 not_end) (ap (λ cs. b ∷ cs) (c_string-same bs plain))

c_string-IsValue : (bs : List ℕ) → IsValue bs → c_string bs ≡ bs
c_string-IsValue [] v = absurd v
c_string-IsValue (b ∷ bs) (not_end, plain) =
    rw (ne→== b 0 not_end) (ap (λ cs. b ∷ cs) (c_string-same bs plain))

module _ (malloc_ok : ℕ → Bool) where
  -- What a line comes to once it is read.
  abbrev and_then : List HttpHeader → HttpHeader → List ℕ → Result (List HttpHeader)
  and_then headers h rest =
      if malloc_ok (length headers)
      then header_parse_from malloc_ok rest (in_key []) (h ∷ headers)
      else fail memory

  -- The value's line, from the value's first byte on, which is passed over.
  value_line_lem :
      (key value cs : List ℕ) (headers : List HttpHeader)
      → IsValue value
      → header_parse_from malloc_ok (value ++ (13 ∷ 10 ∷ cs)) (behind_space key) headers
        ≡ and_then headers (record { key = key; value = c_string value }) cs
  unfolding header_parse_from
  value_line_lem key [] cs headers v = absurd v
  value_line_lem key (b ∷ bs) cs headers v =
      value_bytes_lem malloc_ok headers bs key (b ∷ []) (13 ∷ 10 ∷ cs) v.1
      ∙ line_end_lem malloc_ok headers key (b ∷ bs) cs (omega arith)

  print_header-parse :
      (h : HttpHeader) (rest : List ℕ) (headers : List HttpHeader)
      → IsHeader h
      → header_parse_from malloc_ok (print_header h rest) (in_key []) headers
        ≡ and_then headers h rest
  print_header-parse h rest headers v =
      key_bytes_lem malloc_ok headers h.key [] (58 ∷ 32 ∷ (h.value ++ (13 ∷ 10 ∷ rest))) v.key_bytes
      ∙ colon_lem malloc_ok headers h.key (h.value ++ (13 ∷ 10 ∷ rest)) v.some_key
      ∙ value_line_lem h.key h.value rest headers v.is_value
      ∙ ap (λ value. and_then headers (record { key = h.key; value = value }) rest)
          (c_string-IsValue h.value v.is_value)

  -- By whether the memory for all the headers is there, behind `first` others.
  abbrev outcome : ℕ → List HttpHeader → List HttpHeader → Result (List HttpHeader)
  outcome first hs headers =
      if all_ok malloc_ok first (length hs) then ok (reverse_aux hs headers) else fail memory

  print_headers-parse :
      (hs headers : List HttpHeader)
      → All IsHeader hs
      → header_parse_from malloc_ok (print_headers hs) (in_key []) headers
        ≡ outcome (length headers) hs headers
  unfolding header_parse_from
  print_headers-parse [] headers v = refl
  print_headers-parse (h ∷ hs) headers v =
      print_header-parse h (print_headers hs) headers v.0
      ∙ elim (Bool-cases (malloc_ok (length headers))) [
        | inl got ↦ rw got (
            print_headers-parse hs (h ∷ headers) v.1
            ∙ ap (λ n. outcome n hs (h ∷ headers)) (omega arith))
        | inr failed ↦ rw failed refl
      ]

-- Headers whose keys are not empty and have no 0, end of a line or colon, and whose values are not
-- empty and have no 0 and, behind their first byte, no end of a line, are parsed from their lines as
-- they are, the last one first, when there is memory for every one of them; when there is not, the
-- result is the error of missing memory.
pub header_parse-print_headers :
    (malloc_ok : ℕ → Bool) (hs : List HttpHeader)
    → All IsHeader hs
    → header_parse malloc_ok (print_headers hs)
      ≡ (if all_ok malloc_ok 0 (length hs) then ok (reverse hs) else fail memory)
unfolding header_parse
header_parse-print_headers malloc_ok hs v = print_headers-parse malloc_ok hs [] v
