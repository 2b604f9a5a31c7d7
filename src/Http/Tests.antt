-- ===== src/Http/Tests.antt =====
-- Headers on small inputs, and the witnesses of their properties.
use mathlib.Core.List.{reverse}
use vitaki_vitarps.Base.{
  ℕ, Bool, ◌==◌, if◌then◌else◌, length, memory, fail, ◌≡◌, refl, some, List, [], ◌∷◌, arith, ok,
}
use vitaki_vitarps.Http.Receive.{Round, received, recv_http_header}
use vitaki_vitarps.Http.ReceiveLaws.{recv_reference, recv_http_header_lem}
use vitaki_vitarps.Http.Headers.{HttpHeader, header_parse}
use vitaki_vitarps.Http.HeaderLaws.{all_ok, print_headers, header_parse-print_headers}

-- An end in three pieces, behind an end of a line that is none.
abbrev rounds : List Round
rounds =
    received (65 ∷ 13 ∷ 10 ∷ 66 ∷ 13 ∷ []) ∷ received (10 ∷ 13 ∷ []) ∷ received (10 ∷ 67 ∷ []) ∷ []

finds_end : recv_http_header rounds ≡ some (ok (record { header_size = 8; received_size = 9 }))
unfolding recv_http_header
finds_end = refl

recv_http_header_example : recv_http_header rounds ≡ recv_reference [] rounds
recv_http_header_example = recv_http_header_lem rounds

abbrev headers : List HttpHeader
headers =
    record { key = 75 ∷ []; value = 118 ∷ [] }
    ∷ record { key = 76 ∷ 76 ∷ []; value = 32 ∷ 58 ∷ [] }
    ∷ []

-- There is memory for one header only.
abbrev one : ℕ → Bool
one n = n == 0

header_parse-print_headers_example :
    header_parse one (print_headers headers)
    ≡ (if all_ok one 0 (length headers) then ok (reverse headers) else fail memory)
header_parse-print_headers_example = header_parse-print_headers one headers (
  record {
    some_key = omega arith;
    key_bytes = (((omega arith, omega arith, omega arith), omega arith), tt);
    is_value = (omega arith, tt);
  },
  (
    record {
      some_key = omega arith;
      key_bytes = (
        ((omega arith, omega arith, omega arith), omega arith),
        (((omega arith, omega arith, omega arith), omega arith), tt),
      );
      is_value = (omega arith, ((omega arith, omega arith, omega arith), tt));
    },
    tt,
  ),
)

-- The end of a line passes for a value's first byte.
empty_value :
    header_parse one (75 ∷ 58 ∷ 32 ∷ 13 ∷ 10 ∷ [])
    ≡ ok (record { key = 75 ∷ []; value = 13 ∷ [] } ∷ [])
unfolding header_parse
empty_value = refl
