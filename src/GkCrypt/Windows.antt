-- ===== src/GkCrypt/Windows.antt =====
-- Arrays and streams read over a range of positions.
use vitaki_vitarps.Base.{
  ℕ, zero, suc, ◌+◌, ◌-◌, ◌*◌, ◌/◌, ◌%◌, ◌^◌, ◌≤◌, ◌<◌, ◌≡◌, ◌⊎◌, inl, inr, refl, sym, ap, ap₂, ◌∙◌,
  List, [], ◌∷◌, ◌++◌, arith, length, get_or, take, drop, length-drop, length-take, get_or-take,
  take_all,
}
use vitaki_vitarps.Frame.Processor.{memcpy}
use vitaki_vitarps.GkCrypt.Stream.{Aes, block, blocks}

-- The values at the `n` positions from `p` on.
unfoldable pub window : (ℕ → ℕ) → ℕ → ℕ → List ℕ
window f p zero = []
window f p (suc n) = f p ∷ window f (p + 1) n

pub window-ext :
    (f g : ℕ → ℕ) (p q n : ℕ)
    → ((i : ℕ) → i < n → f (p + i) ≡ g (q + i))
    → window f p n ≡ window g q n
unfolding window
window-ext f g p q zero h = refl
window-ext f g p q (suc n) h =
    ap₂ ◌∷◌ (ap f (omega arith) ∙ h 0 (omega arith) ∙ ap g (omega arith)) (
      window-ext f g (p + 1) (q + 1) n
        (λ i k. ap f (omega arith) ∙ h (suc i) (omega arith) ∙ ap g (omega arith)))

pub window-append :
    (f : ℕ → ℕ) (p m n : ℕ) → window f p m ++ window f (p + m) n ≡ window f p (m + n)
unfolding window
window-append f p zero n = ap₂ (λ q k. window f q k) (omega arith) (omega arith)
window-append f p (suc m) n =
    ap (◌∷◌ (f p))
      (ap (λ q. window f (p + 1) m ++ window f q n) (omega arith) ∙ window-append f (p + 1) m n)
    ∙ ap (λ k. window f p k) {x = suc (m + n)} (omega arith)

pub length-window : (f : ℕ → ℕ) (p n : ℕ) → length (window f p n) ≡ n
unfolding window
length-window f p zero = refl
length-window f p (suc n) = ap suc (length-window f (p + 1) n)

pub get_or-window : (f : ℕ → ℕ) (p n i : ℕ) → i < n → get_or (window f p n) i 0 ≡ f (p + i)
unfolding window
get_or-window f p zero i h = absurd (omega arith)
get_or-window f p (suc n) zero h = ap f (omega arith)
get_or-window f p (suc n) (suc i) h = get_or-window f (p + 1) n i (omega arith) ∙ ap f (omega arith)

abbrev pub at : List ℕ → ℕ → ℕ
at xs i = get_or xs i 0

pub at-drop : (xs : List ℕ) (n i : ℕ) → at (drop n xs) i ≡ at xs (n + i)
at-drop xs zero i = ap (at xs) (omega arith)
at-drop [] (suc n) i = refl
at-drop (x ∷ xs) (suc n) i = at-drop xs n i ∙ ap (at (x ∷ xs)) {x = suc (n + i)} (omega arith)

pub take-window : (xs : List ℕ) (n : ℕ) → n ≤ length xs → take n xs ≡ window (at xs) 0 n
unfolding window
take-window xs zero h = refl
take-window [] (suc n) h = absurd (omega arith)
take-window (x ∷ xs) (suc n) h = ap (◌∷◌ x) (
    take-window xs n (omega arith)
    ∙ window-ext (at xs) (at (x ∷ xs)) 0 (0 + 1) n
        (λ i k. sym (ap (at (x ∷ xs)) {y = suc (0 + i)} (omega arith))))

pub slice-window :
    (xs : List ℕ) (p n : ℕ) → p + n ≤ length xs → take n (drop p xs) ≡ window (at xs) p n
slice-window xs p n h =
    take-window (drop p xs) n (omega (arith, length-drop p xs))
    ∙ window-ext (at (drop p xs)) (at xs) 0 p n
        (λ i k. at-drop xs p (0 + i) ∙ ap (at xs) (omega arith))

whole-window : (xs : List ℕ) (n : ℕ) → length xs ≡ n → xs ≡ window (at xs) 0 n
whole-window xs n h = sym (take_all xs n h) ∙ take-window xs n (omega arith)

-- The byte of the stream at a position, for each key and iv.
unfoldable pub key_byte : Aes → List ℕ → List ℕ → ℕ → ℕ
key_byte aes key iv p = at (block aes key iv (p / 16 % 2 ^ 32)) (p % 16)

-- Every block encrypted has 16 bytes.
abbrev pub MakesBlocks : Aes → Type 0
MakesBlocks aes = (key input : List ℕ) → length (aes.encrypt key input) ≡ 16

module _ (aes : Aes) (key iv : List ℕ) (sized : MakesBlocks aes) where
  block-window : (k : ℕ) → block aes key iv (k % 2 ^ 32) ≡ window (key_byte aes key iv) (16 * k) 16
  unfolding block key_byte
  block-window k =
      whole-window (block aes key iv (k % 2 ^ 32)) 16 (sized key _)
      ∙ window-ext (at (block aes key iv (k % 2 ^ 32))) (key_byte aes key iv) 0 (16 * k) 16
          (λ i h. ap₂ (λ c j. at (block aes key iv (c % 2 ^ 32)) j) (omega arith) (omega arith))

  pub blocks-window :
      (n k : ℕ) → blocks aes key iv n (k % 2 ^ 32) ≡ window (key_byte aes key iv) (16 * k) (16 * n)
  unfolding blocks window
  blocks-window zero k = refl
  blocks-window (suc n) k =
      ap₂ ◌++◌ (block-window k) (
        ap (blocks aes key iv n) (omega arith)
        ∙ blocks-window n (k + 1)
        ∙ ap (λ p. window (key_byte aes key iv) p (16 * n)) (omega arith))
      ∙ window-append (key_byte aes key iv) (16 * k) 16 (16 * n)
      ∙ ap (window (key_byte aes key iv) (16 * k)) (omega arith)

at-append_left : (xs ys : List ℕ) (i : ℕ) → i < length xs → at (xs ++ ys) i ≡ at xs i
at-append_left [] ys i h = absurd (omega arith)
at-append_left (x ∷ xs) ys zero h = refl
at-append_left (x ∷ xs) ys (suc i) h = at-append_left xs ys i (omega arith)

at-append_right : (xs ys : List ℕ) (i : ℕ) → length xs ≤ i → at (xs ++ ys) i ≡ at ys (i - length xs)
at-append_right [] ys i h = ap (at ys) (omega arith)
at-append_right (x ∷ xs) ys zero h = absurd (omega arith)
at-append_right (x ∷ xs) ys (suc i) h =
    at-append_right xs ys i (omega arith) ∙ ap (at ys) {y = suc i - suc (length xs)} (omega arith)

-- A write leaves the places before and behind it.
pub at-memcpy_outside :
    (buf bytes : List ℕ) (off j : ℕ)
    → off + length bytes ≤ length buf
    → (j < off) ⊎ (off + length bytes ≤ j)
    → at (memcpy buf off bytes) j ≡ at buf j
at-memcpy_outside buf bytes off j h (inl before) =
    let taken = length-take off buf (omega (arith, h)) in
    at-append_left (take off buf) (bytes ++ drop (off + length bytes) buf) j (omega (arith, taken))
    ∙ get_or-take off buf j 0 before
at-memcpy_outside buf bytes off j h (inr behind) =
    let taken = length-take off buf (omega (arith, h)) in
    let rest = drop (off + length bytes) buf in
    at-append_right (take off buf) (bytes ++ rest) j (omega (arith, taken))
    ∙ at-append_right bytes rest (j - length (take off buf)) (omega (arith, taken))
    ∙ at-drop buf (off + length bytes) (j - length (take off buf) - length bytes)
    ∙ ap (at buf) (omega (arith, taken))

pub at-memcpy_inside :
    (buf bytes : List ℕ) (off j : ℕ)
    → off ≤ length buf
    → j < length bytes
    → at (memcpy buf off bytes) (off + j) ≡ at bytes j
at-memcpy_inside buf bytes off j h k =
    let taken = length-take off buf h in
    let rest = drop (off + length bytes) buf in
    at-append_right (take off buf) (bytes ++ rest) (off + j) (omega (arith, taken))
    ∙ ap (at (bytes ++ rest)) {y = j} (omega (arith, taken))
    ∙ at-append_left bytes rest j k
