-- ===== src/Arm64/Bits.antt =====
-- The bitwise or of words with disjoint fields, with which src/templategenerator.cpp puts an
-- instruction together.
use Prim.Native.Nat.{bit_or, bit_or-bitwise, digits, max}
use native.Mathlib.Nat.{pow-suc}
use core_vm.Base.{ℕ, zero, suc, ◌+◌, ◌*◌, ◌/◌, ◌%◌, ◌^◌, ◌<◌, ◌≤◌, ◌≡◌, refl, ◌∙◌, ap, arith}

-- the digits of the or, on a count of them
abbrev counted : ℕ → ℕ → ℕ → ℕ
counted = digits (λ b. b) max

-- Any count that is no less than the first number gives the same digits.
counted_enough : (m n a b : ℕ) → a ≤ m → a ≤ n → counted m a b ≡ counted n a b
counted_enough zero zero a b h k = refl
counted_enough (suc m) zero zero b h k = refl
counted_enough (suc m) zero (suc a) b h k = absurd (omega arith)
counted_enough zero (suc n) zero b h k = refl
counted_enough zero (suc n) (suc a) b h k = absurd (omega arith)
counted_enough (suc m) (suc n) zero b h k = refl
counted_enough (suc m) (suc n) (suc a) b h k =
    omega (arith, counted_enough m n (suc a / 2) (b / 2) (omega arith) (omega arith))

pub zero_or : (b : ℕ) → bit_or 0 b ≡ b
zero_or b = bit_or-bitwise 0 b

-- the or by its lowest digit
or_step : (a b : ℕ) → bit_or a b ≡ bit_or (a / 2) (b / 2) * 2 + max (a % 2) (b % 2)
or_step zero b = omega (arith, zero_or b, zero_or (b / 2))
or_step (suc a) b = omega (
  arith,
  counted_enough a (suc a / 2) (suc a / 2) (b / 2) (omega arith) (omega arith),
  bit_or-bitwise (suc a) b,
  bit_or-bitwise (suc a / 2) (b / 2),
)

or_zero_below : (n a : ℕ) → a ≤ n → bit_or a 0 ≡ a
or_zero_below n zero h = zero_or 0
or_zero_below zero (suc a) h = absurd (omega arith)
or_zero_below (suc n) (suc a) h =
    omega (arith, or_zero_below n (suc a / 2) (omega arith), or_step (suc a) 0)

pub or_zero : (a : ℕ) → bit_or a 0 ≡ a
or_zero a = or_zero_below a a (omega arith)

doubled : (k p : ℕ) → p * 2 ^ suc k ≡ p * 2 ^ k * 2
doubled k p = omega (arith, ap (λ n. p * n) (pow-suc 2 k))

-- The or of two numbers by their high and their low digits.
pub or_blocks :
    (k p q r s : ℕ)
    → r < 2 ^ k
    → s < 2 ^ k
    → bit_or (p * 2 ^ k + r) (q * 2 ^ k + s) ≡ bit_or p q * 2 ^ k + bit_or r s
or_blocks zero p q r s hr hs =
    let r0 : r ≡ 0 = omega arith in
    let s0 : s ≡ 0 = omega arith in
    let p1 : p * 2 ^ 0 + 0 ≡ p = omega arith in
    let q1 : q * 2 ^ 0 + 0 ≡ q = omega arith in rw (r0, s0, p1, q1) (omega (arith, zero_or 0))
or_blocks (suc k) p q r s hr hs =
    let high_p : (p * 2 ^ suc k + r) / 2 ≡ p * 2 ^ k + r / 2 = omega (arith, doubled k p) in
    let high_q : (q * 2 ^ suc k + s) / 2 ≡ q * 2 ^ k + s / 2 = omega (arith, doubled k q) in
    let low_p : (p * 2 ^ suc k + r) % 2 ≡ r % 2 = omega (arith, doubled k p) in
    let low_q : (q * 2 ^ suc k + s) % 2 ≡ s % 2 = omega (arith, doubled k q) in
    let step = or_step (p * 2 ^ suc k + r) (q * 2 ^ suc k + s) in
    let small : r / 2 < 2 ^ k = omega (arith, pow-suc 2 k) in
    let small' : s / 2 < 2 ^ k = omega (arith, pow-suc 2 k) in
    let below = or_blocks k p q (r / 2) (s / 2) small small' in
    rw (step, high_p, high_q, low_p, low_q, below)
      (omega (arith, or_step r s, doubled k (bit_or p q)))

-- A field above the digits of another number is added to it.
pub or_above : (k p r : ℕ) → r < 2 ^ k → bit_or (p * 2 ^ k) r ≡ p * 2 ^ k + r
or_above k p r h =
    let left : p * 2 ^ k ≡ p * 2 ^ k + 0 = omega arith in
    let right : r ≡ 0 * 2 ^ k + r = omega arith in
    ap (λ n. bit_or n r) left
    ∙ ap (λ n. bit_or (p * 2 ^ k + 0) n) right
    ∙ or_blocks k p 0 0 r (omega arith) h
    ∙ rw (or_zero p, zero_or r)

-- A field of `k` bits on, between the digits of another number.
pub or_between :
    (j k b r f : ℕ)
    → r < 2 ^ k
    → f < 2 ^ j
    → bit_or (b * 2 ^ j * 2 ^ k + r) (f * 2 ^ k) ≡ (b * 2 ^ j + f) * 2 ^ k + r
or_between j k b r f hr hf =
    let right : f * 2 ^ k ≡ f * 2 ^ k + 0 = omega arith in
    ap (λ n. bit_or (b * 2 ^ j * 2 ^ k + r) n) right
    ∙ or_blocks k (b * 2 ^ j) f r 0 hr (omega arith)
    ∙ rw (or_above j b f hf, or_zero r)
