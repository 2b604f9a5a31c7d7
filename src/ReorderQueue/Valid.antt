-- ===== src/ReorderQueue/Valid.antt =====
-- The invariant of a queue over 32 bit sequence numbers, and the window as its callers see it.
use vitaki_vitarps.Base.{
  ℕ, ◌^◌, ◌≤◌, ◌<◌, ◌≡◌, refl, sym, ◌∙◌, ap, true, Option, none, some, arith, ltb, if◌then◌else◌,
  length, length-replicate, success,
}
use vitaki_vitarps.ReorderQueue.Queue.{Queue, Entry, entry, init}
use vitaki_vitarps.ReorderQueue.Positions.{Fits, Fits-pow, cell, entry-cell, add-zero_place}

pub record IsValid (q : Queue) : Type 0 where
  pub fits : Fits (2 ^ q.size_exp)
  pub array : length q.queue ≡ 2 ^ q.size_exp
  pub begin_in : q.begin < 2 ^ 32
  pub count_in : q.count ≤ 2 ^ q.size_exp

-- The user pointer that an entry holds.
abbrev pub content : Entry → Option ℕ
content e = if e.is_set then some e.user else none

-- The `i`-th place of the window.
unfoldable pub slot : Queue → ℕ → Option ℕ
slot q i = if ltb i q.count then content (cell q.queue (2 ^ q.size_exp) q.begin i) else none

pub entry-begin :
    (q : Queue) → IsValid q → entry q q.begin ≡ cell q.queue (2 ^ q.size_exp) q.begin 0
entry-begin q v =
    ap (entry q) (sym (add-zero_place q.begin v.begin_in))
    ∙ entry-cell q.queue (2 ^ q.size_exp) q.begin 0 v.fits.divides

-- A new queue is valid, empty, and begins at the given number.
pub init-IsValid :
    (size_exp seq_num_start : ℕ)
    → 1 ≤ size_exp
    → size_exp < 30
    → seq_num_start < 2 ^ 32
    → let (e, q) = init true size_exp seq_num_start in
      (e ≡ success) × IsValid q × (q.count ≡ 0) × (q.begin ≡ seq_num_start)
unfolding init
init-IsValid size_exp seq_num_start lo hi s = (
  refl,
  record {
    fits = Fits-pow size_exp lo hi;
    array = length-replicate (2 ^ size_exp) _;
    begin_in = s;
    count_in = omega arith;
  },
  refl,
  refl,
)
