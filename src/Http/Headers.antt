-- ===== src/Http/Headers.antt =====
-- lib/src/http.c: the lines of a header, in a buffer that holds nothing after them. A string of the
-- result is the bytes that stand from its pointer to the first 0.
use vitaki_vitarps.Base.{
  memory, ℕ, ltb, Bool, ◌||◌, List, [], ◌∷◌, ◌++◌, ◌==◌, if◌then◌else◌, length, Result, fail, ok,
  invalid_data,
}
use vitaki_vitarps.Http.Receive.{cr, lf}

pub record HttpHeader : Type 0 where
  pub key : List ℕ
  pub value : List ℕ

-- Where the loop is: in a key, of which the bytes since `key_ptr` are given; behind a colon; behind
-- the space after it; in a value, of which the bytes since `value_ptr` are given.
pub data Reading : Type 0 where
  in_key : List ℕ → Reading
  behind_colon : List ℕ → Reading
  behind_space : List ℕ → Reading
  in_value : List ℕ → List ℕ → Reading

abbrev pub is_newline : ℕ → Bool
is_newline c = c == cr || c == lf

-- The string at a pointer: the bytes before the first 0.
abbrev pub c_string : List ℕ → List ℕ
c_string [] = []
c_string (b ∷ bs) = if b == 0 then [] else b ∷ c_string bs

-- `malloc_ok n` is whether the memory for a header behind `n` others is there. What follows are the
-- bytes that are left, where the loop is, and the headers, the last one first. The byte at
-- `value_ptr` is passed over by the loop's `buf++`, whatever it is.
unfoldable pub header_parse_from :
    (ℕ → Bool) → List ℕ → Reading → List HttpHeader → Result (List HttpHeader)
header_parse_from malloc_ok [] (in_key key) headers = ok headers
header_parse_from malloc_ok [] (behind_colon key) headers = fail invalid_data
header_parse_from malloc_ok [] (behind_space key) headers = fail invalid_data
header_parse_from malloc_ok [] (in_value key value) headers = ok headers
header_parse_from malloc_ok (c ∷ cs) (in_key key) headers =
    let colon = header_parse_from malloc_ok cs (behind_colon key) headers in
    let next_line = header_parse_from malloc_ok cs (in_key []) headers in
    let more = header_parse_from malloc_ok cs (in_key (key ++ c ∷ [])) headers in
    if c == 0
    then ok headers
    else if c == 58
    then if length key == 0 then fail invalid_data else colon
    else if is_newline c
    then if ltb 1 (length key) then fail invalid_data else next_line
    else more
header_parse_from malloc_ok (c ∷ cs) (behind_colon key) headers =
    let space = header_parse_from malloc_ok cs (behind_space key) headers in
    let value = header_parse_from malloc_ok cs (in_value key (c ∷ [])) headers in
    if c == 32 then space else value
header_parse_from malloc_ok (c ∷ cs) (behind_space key) headers =
    header_parse_from malloc_ok cs (in_value key (c ∷ [])) headers
header_parse_from malloc_ok (c ∷ cs) (in_value key value) headers =
    let entry : HttpHeader = record { key = key; value = c_string value } in
    let next_line = header_parse_from malloc_ok cs (in_key []) (entry ∷ headers) in
    let more = header_parse_from malloc_ok cs (in_value key (value ++ c ∷ [])) headers in
    if c == 0
    then ok headers
    else if is_newline c
    then if length value == 0
      then fail invalid_data
      else if malloc_ok (length headers)
      then next_line
      else fail memory
    else more

unfoldable pub header_parse : (ℕ → Bool) → List ℕ → Result (List HttpHeader)
unfolding header_parse_from
header_parse malloc_ok buf = header_parse_from malloc_ok buf (in_key []) []
