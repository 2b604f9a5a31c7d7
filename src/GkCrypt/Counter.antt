-- ===== src/GkCrypt/Counter.antt =====
-- lib/src/gkcrypt.c: counter_add, which adds to the 128 bit counter of a block.
use native.Mathlib.Nat.{add-mul-mod_self_left, mod-eq_of_lt, mod-add-div, mod-lt}
use vitaki_vitarps.Base.{
  ℕ, zero, suc, ◌+◌, ◌-◌, ◌*◌, ◌/◌, ◌%◌, ◌^◌, ◌<◌, ◌≡◌, refl, sym, ap, ◌∙◌, List, [], ◌∷◌, ◌==◌,
  if◌then◌else◌, arith, length, All, Bool-cases, inl, inr, ==→eq,
}

-- The loop from the byte `b` on; the bytes behind the last carry are copied.
unfoldable pub counter_add : List ℕ → ℕ → List ℕ
counter_add [] v = []
counter_add (b ∷ base) v =
    let r = (b + v) % 2 ^ 64 in
    let rest = counter_add base (r / 2 ^ 8) in r % 2 ^ 8 ∷ (if r / 2 ^ 8 == 0 then base else rest)

abbrev pub IsByte : ℕ → Type 0
IsByte b = b < 2 ^ 8

-- The number that bytes stand for, the lowest first.
abbrev pub value : List ℕ → ℕ
value [] = 0
value (b ∷ bs) = b + 256 * value bs

abbrev pub modulus : ℕ → ℕ
modulus zero = 1
modulus (suc n) = 256 * modulus n

pub length-counter_add : (base : List ℕ) (v : ℕ) → length (counter_add base v) ≡ length base
unfolding counter_add
length-counter_add [] v = refl
length-counter_add (b ∷ base) v = ground (arith, length-counter_add base ((b + v) % 2 ^ 64 / 2 ^ 8))

modulus-pos : (n : ℕ) → 0 < modulus n
modulus-pos zero = omega arith
modulus-pos (suc n) = omega (arith, modulus-pos n)

value-lt : (bs : List ℕ) → All IsByte bs → value bs < modulus (length bs)
value-lt [] h = omega arith
value-lt (b ∷ bs) h = omega (arith, h.0, value-lt bs h.1)

-- A digit and what is above it.
low_digit : (m r q : ℕ) → 0 < m → r < 256 → (r + 256 * q) % (256 * m) ≡ r + 256 * (q % m)
low_digit m r q hm hr =
    let small : r + 256 * (q % m) < 256 * m = omega (arith, mod-lt q hm) in
    ap (λ k. (r + 256 * k) % (256 * m)) (sym (mod-add-div q m))
    ∙ ap (λ k. k % (256 * m)) (grind arith)
    ∙ add-mul-mod_self_left (r + 256 * (q % m)) (256 * m) (q / m)
    ∙ mod-eq_of_lt small

-- The bytes are those of the sum, as far as there are bytes for it; a number near 2 ^ 64 would wrap
-- in the first addition.
pub value-counter_add :
    (base : List ℕ) (v : ℕ)
    → All IsByte base
    → v < 2 ^ 64 - 2 ^ 8
    → value (counter_add base v) ≡ (value base + v) % modulus (length base)
unfolding counter_add
value-counter_add [] v h k = omega arith
value-counter_add (b ∷ base) v h k =
    let m = modulus (length base) in
    let carry = (b + v) / 2 ^ 8 in
    let whole : (b + v) % 2 ^ 64 ≡ b + v = omega (arith, h.0) in
    let split : (b + v) % 256 + 256 * (value base + carry) ≡ b + 256 * value base + v =
      omega arith in
    let ih : value (counter_add base carry) ≡ (value base + carry) % m =
      value-counter_add base carry h.1 (omega (arith, h.0)) in
    let goal : (b + v) % 256 + 256 * ((value base + carry) % m)
        ≡ (b + 256 * value base + v) % (256 * m) =
      sym
        (low_digit m ((b + v) % 256) (value base + carry) (modulus-pos (length base)) (omega arith))
      ∙ ap (λ k. k % (256 * m)) split in
    rw whole (elim (Bool-cases (carry == 0)) [
      | inl none_left ↦ rw none_left (
          let zero_carry : carry ≡ 0 = ==→eq carry 0 none_left in
          let kept : (value base + carry) % m ≡ value base =
            ap (λ c. (value base + c) % m) zero_carry
            ∙ ap (λ c. c % m) (omega arith)
            ∙ mod-eq_of_lt (value-lt base h.1) in
          rw kept at goal)
      | inr more ↦ rw more (rw (sym ih) at goal)
    ])
