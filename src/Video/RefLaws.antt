-- ===== src/Video/RefLaws.antt =====
-- The list of reference frames, and that the receiver keeps its size.
use vitaki_vitarps.Base.{
  ℕ, suc, ◌≤◌, ◌≡◌, ◌∙◌, inl, inr, true, List, [], ◌∷◌, Option, none, some, arith, refl, ap, length,
  length-take, eq→==, Option-cases,
}
use vitaki_vitarps.Video.State.{fill_last, add_ref_frame, have_ref_frame}

fill_last-length :
    (xs ys : List (Option ℕ)) (frame : Option ℕ)
    → fill_last xs frame ≡ some ys
    → length ys ≡ length xs
unfolding fill_last
fill_last-length [] ys frame e = absurd (ground (arith, e))
fill_last-length (x ∷ xs) ys frame e = elim (Option-cases (fill_last xs frame)) [
  | inl n ↦ ground (arith, e, n)
  | inr (zs, s) ↦ ground (arith, e, s, fill_last-length xs zs frame s)
]

-- The last free place, which is filled, holds the frame.
fill_last-have :
    (xs ys : List (Option ℕ)) (frame : ℕ)
    → fill_last xs (some frame) ≡ some ys
    → have_ref_frame ys frame ≡ true
unfolding fill_last have_ref_frame
fill_last-have [] ys frame e = absurd (ground (arith, e))
fill_last-have (x ∷ xs) ys frame e = elim (Option-cases (fill_last xs (some frame))) [
  | inl n ↦ ground (arith, e, n)
  | inr (zs, s) ↦ ground (arith, e, s, fill_last-have xs zs frame s)
]

fill_last-free :
    (xs : List (Option ℕ)) (frame : Option ℕ)
    → (ys : List (Option ℕ)) × (fill_last (none ∷ xs) frame ≡ some ys)
unfolding fill_last
fill_last-free xs frame = elim (Option-cases (fill_last xs frame)) [
  | inl n ↦ (frame ∷ xs, rw (n, fill_last) refl)
  | inr (zs, s) ↦ (none ∷ zs, rw (s, fill_last) refl)
]

add-free :
    (xs ys : List (Option ℕ)) (frame : Option ℕ)
    → fill_last (none ∷ xs) frame ≡ some ys
    → add_ref_frame (none ∷ xs) frame ≡ ys
unfolding add_ref_frame
add-free xs ys frame e = rw (e, add_ref_frame) refl

pub length-add_ref_frame :
    (frames : List (Option ℕ)) (frame : Option ℕ)
    → length (add_ref_frame frames frame) ≡ length frames
unfolding add_ref_frame
length-add_ref_frame [] frame = refl
length-add_ref_frame (some x ∷ xs) frame =
    ap suc (length-take (length xs) (some x ∷ xs) (omega arith))
length-add_ref_frame (none ∷ xs) frame =
    let (ys, e) = fill_last-free xs frame in
    ap length (add-free xs ys frame e) ∙ fill_last-length (none ∷ xs) ys frame e

-- A frame that is added to a list of at least one place is in the list then, and the list keeps its
-- length.
pub have_ref_frame-add_ref_frame :
    (frames : List (Option ℕ)) (frame : ℕ)
    → 1 ≤ length frames
    → (have_ref_frame (add_ref_frame frames (some frame)) frame ≡ true)
      × (length (add_ref_frame frames (some frame)) ≡ length frames)
unfolding add_ref_frame have_ref_frame
have_ref_frame-add_ref_frame [] frame h = absurd (omega arith)
have_ref_frame-add_ref_frame (some x ∷ xs) frame h =
    (rw (eq→== frame frame refl) refl, length-add_ref_frame (some x ∷ xs) (some frame))
have_ref_frame-add_ref_frame (none ∷ xs) frame h =
    let (ys, e) = fill_last-free xs (some frame) in
    (
      ap (λ l. have_ref_frame l frame) (add-free xs ys (some frame) e)
          ∙ fill_last-have (none ∷ xs) ys frame e,
      length-add_ref_frame (none ∷ xs) (some frame),
    )
