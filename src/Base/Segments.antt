-- ===== src/Base/Segments.antt =====
-- Arrays cut into segments: reads, prefixes and moves by the lengths of the segments.
use mathlib.Core.Path.{◌≡◌, refl, ap, ap₂, sym, ◌∙◌}
use mathlib.Core.List.{List, [], ◌∷◌, ◌++◌, append_assoc}
use Prim.Native.Nat.{ℕ, zero, suc, ◌+◌, ◌-◌, ◌≤◌, ◌<◌}
use native.Mathlib.Omega.{arith}
use vitaki_vitarps.Base.Lists.{
  length, get_or, take, drop, set, length-append, keep_if, length-keep_if,
}
use vitaki_vitarps.Base.Tests.{Bool-cases}
use mathlib.Core.Bool.{Bool, false}
use mathlib.Core.Logic.{inl, inr}

module _ {ℓ} {A : Type ℓ} where
  pub take-append : (xs ys : List A) (n : ℕ) → n ≡ length xs → take n (xs ++ ys) ≡ xs
  take-append [] ys zero h = refl
  take-append [] ys (suc n) h = absurd (omega arith)
  take-append (x ∷ xs) ys zero h = absurd (omega arith)
  take-append (x ∷ xs) ys (suc n) h = ap (◌∷◌ x) (take-append xs ys n (omega arith))

  pub drop-append : (xs ys : List A) (n m : ℕ) → n ≡ length xs + m → drop n (xs ++ ys) ≡ drop m ys
  drop-append [] ys n m h = ap (λ k. drop k ys) (omega arith)
  drop-append (x ∷ xs) ys zero m h = absurd (omega arith)
  drop-append (x ∷ xs) ys (suc n) m h = drop-append xs ys n m (omega arith)

  pub drop-append_le :
      (xs ys : List A) (n : ℕ) → n ≤ length xs → drop n (xs ++ ys) ≡ drop n xs ++ ys
  drop-append_le xs ys zero h = refl
  drop-append_le [] ys (suc n) h = absurd (omega arith)
  drop-append_le (x ∷ xs) ys (suc n) h = drop-append_le xs ys n (omega arith)

  pub length-drop : (n : ℕ) (xs : List A) → length (drop n xs) ≡ length xs - n
  length-drop zero xs = omega arith
  length-drop (suc n) [] = omega arith
  length-drop (suc n) (x ∷ xs) = omega (arith, length-drop n xs)

  pub length-take : (n : ℕ) (xs : List A) → n ≤ length xs → length (take n xs) ≡ n
  length-take zero xs h = refl
  length-take (suc n) [] h = absurd (omega arith)
  length-take (suc n) (x ∷ xs) h = ap suc (length-take n xs (omega arith))

  pub take_all : (xs : List A) (n : ℕ) → length xs ≡ n → take n xs ≡ xs
  take_all [] zero h = refl
  take_all (x ∷ xs) zero h = absurd (omega arith)
  take_all [] (suc n) h = refl
  take_all (x ∷ xs) (suc n) h = ap (◌∷◌ x) (take_all xs n (omega arith))

  pub take-drop : (n : ℕ) (xs : List A) → take n xs ++ drop n xs ≡ xs
  take-drop zero xs = refl
  take-drop (suc n) [] = refl
  take-drop (suc n) (x ∷ xs) = ap (◌∷◌ x) (take-drop n xs)

  pub get_or-append :
      (xs ys : List A) (y d : A) (n : ℕ) → n ≡ length xs → get_or (xs ++ y ∷ ys) n d ≡ y
  get_or-append [] ys y d zero h = refl
  get_or-append [] ys y d (suc n) h = absurd (omega arith)
  get_or-append (x ∷ xs) ys y d zero h = absurd (omega arith)
  get_or-append (x ∷ xs) ys y d (suc n) h = get_or-append xs ys y d n (omega arith)

  -- A segment moved down over the one before it: `K J M R` becomes `K M` and what was behind.
  pub move_down :
      (K J M R : List A) (k j m : ℕ)
      → k ≡ length K
      → j ≡ length J
      → m ≡ length M
      → take k (K ++ (J ++ (M ++ R)))
          ++ (take m (drop (k + j) (K ++ (J ++ (M ++ R)))) ++ drop (k + m) (K ++ (J ++ (M ++ R))))
        ≡ K ++ (M ++ (drop m (J ++ M) ++ R))
  move_down K J M R k j m hk hj hm = ap₂ ◌++◌ (take-append K (J ++ (M ++ R)) k hk) (
      ap₂ ◌++◌
        (ap (take m) (
            drop-append K (J ++ (M ++ R)) (k + j) j (omega arith)
            ∙ drop-append J (M ++ R) j 0 (omega arith))
          ∙ take-append M R m hm)
        (drop-append K (J ++ (M ++ R)) (k + m) m (omega arith)
          ∙ ap (drop m) (sym (append_assoc J M R))
          ∙ drop-append_le (J ++ M) R m (omega (arith, length-append J M))))

  pub length_move_down :
      (K J M R : List A) (m : ℕ)
      → m ≡ length M
      → length (K ++ (M ++ (drop m (J ++ M) ++ R))) ≡ length (K ++ (J ++ (M ++ R)))
  length_move_down K J M R m hm = omega (
    arith,
    length-append K (M ++ (drop m (J ++ M) ++ R)),
    length-append M (drop m (J ++ M) ++ R),
    length-append (drop m (J ++ M)) R,
    length-drop m (J ++ M),
    length-append J M,
    length-append K (J ++ (M ++ R)),
    length-append J (M ++ R),
    length-append M R,
  )

  pub get_or-take :
      (n : ℕ) (xs : List A) (i : ℕ) (d : A) → i < n → get_or (take n xs) i d ≡ get_or xs i d
  get_or-take zero xs i d h = absurd (omega arith)
  get_or-take (suc n) [] i d h = refl
  get_or-take (suc n) (x ∷ xs) zero d h = refl
  get_or-take (suc n) (x ∷ xs) (suc i) d h = get_or-take n xs i d (omega arith)

  pub take-set : (n : ℕ) (xs : List A) (i : ℕ) (v : A) → take n (set xs i v) ≡ set (take n xs) i v
  take-set zero xs i v = refl
  take-set (suc n) [] i v = refl
  take-set (suc n) (x ∷ xs) zero v = refl
  take-set (suc n) (x ∷ xs) (suc i) v = ap (◌∷◌ x) (take-set n xs i v)

  -- A filter that drops the entry at some index shortens the list.
  pub length-keep_if_lt :
      (p : A → Bool) (xs : List A) (i : ℕ) (d : A)
      → i < length xs
      → p (get_or xs i d) ≡ false
      → length (keep_if p xs) < length xs
  unfolding keep_if
  length-keep_if_lt p [] i d h e = absurd (omega arith)
  length-keep_if_lt p (x ∷ xs) zero d h e = rw e (omega (arith, length-keep_if p xs))
  length-keep_if_lt p (x ∷ xs) (suc i) d h e =
      ground (arith, length-keep_if_lt p xs i d, length-keep_if p xs)

module _ {ℓ κ} {A : Type ℓ} (P : A → Type κ) where
  abbrev pub All : List A → Type κ
  All [] = Unit
  All (x ∷ xs) = P x × All xs

  pub All-keep_if : (p : A → Bool) (xs : List A) → All xs → All (keep_if p xs)
  unfolding keep_if
  All-keep_if p [] h = tt
  All-keep_if p (x ∷ xs) h = elim (Bool-cases (p x)) [
    | inl e ↦ rw e (h.0, All-keep_if p xs h.1)
    | inr e ↦ rw e (All-keep_if p xs h.1)
  ]

  pub All-set : (xs : List A) (i : ℕ) (v : A) → All xs → P v → All (set xs i v)
  All-set [] i v h k = tt
  All-set (x ∷ xs) zero v h k = (k, h.1)
  All-set (x ∷ xs) (suc i) v h k = (h.0, All-set xs i v h.1 k)
