-- ===== src/ReorderQueue/Slots.antt =====
-- What one write to the array does to the window.
use vitaki_vitarps.Base.{
  ℕ, ◌+◌, ◌%◌, ◌^◌, ◌<◌, ◌≡◌, ap, ◌∙◌, arith, if◌then◌else◌, ltb, ◌==◌, length-set, set, ◌&&◌,
}
use vitaki_vitarps.ReorderQueue.Queue.{Queue, Entry, put, entry}
use vitaki_vitarps.ReorderQueue.Positions.{add, cell-set, entry-cell, add-mod_size}
use vitaki_vitarps.ReorderQueue.Valid.{IsValid, slot, content}

module _ (q : Queue) (v : IsValid q) (i : ℕ) where
  pub put-index :
      (e : Entry)
      → put q (add q.begin i) e
        ≡ record q { queue = set q.queue ((q.begin + i) % 2 ^ q.size_exp) e }
  put-index e =
      ap (λ k. record q { queue = set q.queue k e })
        (add-mod_size (2 ^ q.size_exp) q.begin i v.fits.divides)

  pub put-IsValid : (e : Entry) → IsValid (put q (add q.begin i) e)
  put-IsValid e = record {
    fits = v.fits;
    array = length-set q.queue _ e ∙ v.array;
    begin_in = v.begin_in;
    count_in = v.count_in;
  }

  pub entry-slot : i < q.count → content (entry q (add q.begin i)) ≡ slot q i
  unfolding slot
  entry-slot h = ground (arith, entry-cell q.queue (2 ^ q.size_exp) q.begin i v.fits.divides)

  slot-write :
      (e : Entry) (j : ℕ)
      → i < 2 ^ q.size_exp
      → slot (record q { queue = set q.queue ((q.begin + i) % 2 ^ q.size_exp) e }) j
        ≡ (if ltb j q.count && (j == i) then content e else slot q j)
  unfolding slot
  slot-write e j h =
      ground (arith, cell-set q.queue (2 ^ q.size_exp) q.begin i j e v.array h, v.count_in)

  -- A write to place `i` of the array shows at place `i` of the window, if that is in the window.
  pub slot-put :
      (e : Entry) (j : ℕ)
      → i < 2 ^ q.size_exp
      → slot (put q (add q.begin i) e) j
        ≡ (if ltb j q.count && (j == i) then content e else slot q j)
  slot-put e j h = ap (λ r. slot r j) (put-index e) ∙ slot-write e j h
