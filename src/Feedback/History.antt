-- ===== src/Feedback/History.antt =====
-- ChiakiFeedbackHistoryBuffer of lib/src/feedback.c: a ring of which the newest event comes first.
use vitaki_vitarps.Base.{
  ℕ, zero, suc, ◌+◌, ◌-◌, ◌%◌, Bool, List, [], ◌++◌, Option, none, some, ltb, leb, if◌then◌else◌,
  ErrorCode, success, memory, buf_too_small, get_or, set, take, replicate,
}
use vitaki_vitarps.Feedback.Event.{Event}

pub record History : Type 0 where
  pub events : List Event
  pub size : ℕ
  pub begin : ℕ
  pub len : ℕ

abbrev pub blank : Event
blank = record { buf = []; len = 0 }

unfoldable pub init : Bool → ℕ → ErrorCode × Option History
init calloc_ok size =
    if calloc_ok
    then (success, some (record { events = replicate size blank; size = size; begin = 0; len = 0 }))
    else (memory, none)

unfoldable pub push : History → Event → History
push h e =
    let begin = (h.begin + h.size - 1) % h.size in
    record h {
      begin = begin;
      len = if leb h.size (h.len + 1) then h.size else h.len + 1;
      events = set h.events begin e;
    }

-- The loop from index `i`, with the rounds left and the bytes written so far; `none` is a buffer of
-- `size_max` bytes that is too small.
unfoldable pub format_from : History → ℕ → ℕ → ℕ → ℕ → List ℕ → Option (List ℕ)
format_from h size_max zero i written out = some out
format_from h size_max (suc n) i written out =
    let e = get_or h.events ((h.begin + i) % h.size) blank in
    let rest = format_from h size_max n (i + 1) (written + e.len) (out ++ take e.len e.buf) in
    if ltb size_max (written + e.len) then none else rest

-- The result is the bytes, whose number is the new `*buf_size`.
unfoldable pub format : History → ℕ → ErrorCode × List ℕ
unfolding format_from
format h buf_size = elim (format_from h buf_size h.len 0 0 []) [
  | none ↦ (buf_too_small, [])
  | some out ↦ (success, out)
]
