-- ===== src/Word/Divided.antt =====
-- Division and remainder of Word, as the language defines them on the integers.
use core_vm.Base.{
  ℕ, suc, ◌+◌, ◌-◌, ◌*◌, ◌/◌, ◌%◌, ◌^◌, ◌≤◌, ◌<◌, ◌≡◌, ap, sym, ◌∙◌, arith, Bool, true, false,
  if◌then◌else◌, Bool-cases, inl, inr, ◌⊎◌,
}
use native.Mathlib.Nat.{div-add-mod', div-mul-le_self, mul-le-mul_left, mod-lt, div-le_self}
use core_vm.Base.Int.{
  ℤ, pos, negsuc, pos_part, neg_part, abs, sub_ℕ, ◌+ℤ◌, ◌*ℤ◌, +ℤ_parts, *ℤ_parts, eq_of_parts,
}
use core_vm.Base.Outcome.{ok, trapped}
use core_vm.Word.{div32, mod32, has_no_quotient, is_negative, magnitude, signed_bits, differ}
use core_vm.Word.Signed.{value}

-- a magnitude with a sign
abbrev signed : Bool → ℕ → ℤ
signed true m = sub_ℕ 0 m
signed false m = pos m

value-signed_bits :
    (s : Bool) (m : ℕ) → (if s then m else suc m) ≤ 2 ^ 31 → value (signed_bits s m) ≡ signed s m
unfolding value
value-signed_bits true m h = ground arith
value-signed_bits false m h = ground arith

value-signed : (a : ℕ) → a < 2 ^ 32 → value a ≡ signed (is_negative a) (magnitude a)
unfolding value
value-signed a h = ground arith

magnitude_lem :
    (a : ℕ) → a < 2 ^ 32 → (if is_negative a then magnitude a else suc (magnitude a)) ≤ 2 ^ 31
magnitude_lem a h = ground arith

below_parts : (m : ℕ) → (pos_part (sub_ℕ 0 m) ≡ 0) × (neg_part (sub_ℕ 0 m) ≡ m)
below_parts m = ground arith

-- an equation of integers from that of their parts
from_parts :
    (x y q r : ℤ)
    → pos_part x + (pos_part y * neg_part q + neg_part y * pos_part q) + neg_part r
      ≡ neg_part x + (pos_part y * pos_part q + neg_part y * neg_part q) + pos_part r
    → x ≡ y *ℤ q +ℤ r
from_parts x y q r h = eq_of_parts _ _ (omega (arith, h, *ℤ_parts y q, +ℤ_parts (y *ℤ q) r))

-- a dividend from its divisor, the quotient and the remainder, with the signs of C
signed_sum :
    (s t : Bool) (n q r : ℕ)
    → signed s (q * n + r) ≡ signed t n *ℤ signed (differ s t) q +ℤ signed s r
signed_sum true true n q r =
    let (x, x') = below_parts (q * n + r) in
    let (y, y') = below_parts (n) in
    let (w, w') = below_parts (r) in from_parts _ _ _ _ (rw (x, x', y, y', w, w') (grind arith))
signed_sum true false n q r =
    let (x, x') = below_parts (q * n + r) in
    let (z, z') = below_parts (q) in
    let (w, w') = below_parts (r) in from_parts _ _ _ _ (rw (x, x', z, z', w, w') (grind arith))
signed_sum false true n q r =
    let (y, y') = below_parts (n) in
    let (z, z') = below_parts (q) in from_parts _ _ _ _ (rw (y, y', z, z') (grind arith))
signed_sum false false n q r = from_parts _ _ _ _ (grind arith)

-- Truncating division: the remainder is nearer to zero than the divisor, and has the sign of the dividend
-- or is zero.
pub record Divides (x y q r : ℤ) : Type 0 where
  pub whole : x ≡ y *ℤ q +ℤ r
  pub small : abs r < abs y
  pub negative : pos_part x ≡ 0 → pos_part r ≡ 0
  pub positive : neg_part x ≡ 0 → neg_part r ≡ 0

-- a division by zero, and that of the least `int` by -1
abbrev pub HasNoQuotient : ℤ → ℤ → Type 0
HasNoQuotient x y = (y ≡ pos 0) ⊎ ((x ≡ negsuc (2 ^ 31 - 1)) × (y ≡ negsuc 0))

has_no_quotient_lem :
    (a b : ℕ)
    → a < 2 ^ 32
    → b < 2 ^ 32
    → has_no_quotient a b ≡ true
    → HasNoQuotient (value a) (value b)
unfolding has_no_quotient value
has_no_quotient_lem a b ha hb h = ground arith

abs-signed : (s : Bool) (m : ℕ) → abs (signed s m) ≡ m
abs-signed true m = ground arith
abs-signed false m = ground arith

same_sign :
    (s : Bool) (m r : ℕ)
    → r ≤ m
    → (pos_part (signed s m) ≡ 0 → pos_part (signed s r) ≡ 0)
      × (neg_part (signed s m) ≡ 0 → neg_part (signed s r) ≡ 0)
same_sign true m r h = ground arith
same_sign false m r h = ground arith

half_bound : (m n : ℕ) → 2 ≤ n → m / n * 2 ≤ m
half_bound m n h = omega (arith, div-mul-le_self m n, mul-le-mul_left (m / n) h)

le-cases : (n : ℕ) → (n ≤ 1) ⊎ (2 ≤ n)
le-cases n = omega arith

quotient_bound :
    (a b : ℕ)
    → a < 2 ^ 32
    → b < 2 ^ 32
    → has_no_quotient a b ≡ false
    → let q = magnitude a / magnitude b in
      (if differ (is_negative a) (is_negative b) then q else suc q) ≤ 2 ^ 31
unfolding has_no_quotient
quotient_bound a b ha hb h = elim (le-cases (magnitude b)) [
  | inl one ↦ grind (arith, div-le_self (magnitude a) (magnitude b))
  | inr more ↦ grind (arith, half_bound (magnitude a) (magnitude b) more)
]

remainder_bound :
    (a b : ℕ)
    → a < 2 ^ 32
    → b < 2 ^ 32
    → has_no_quotient a b ≡ false
    → (magnitude a % magnitude b < magnitude b)
      × (magnitude a % magnitude b ≤ magnitude a)
      × ((if is_negative a then magnitude a % magnitude b else suc (magnitude a % magnitude b))
          ≤ 2 ^ 31)
unfolding has_no_quotient
remainder_bound a b ha hb h =
    let some : 0 < magnitude b = ground arith in
    let small : magnitude a % magnitude b < magnitude b = mod-lt (magnitude a) some in
    let of_half : magnitude b ≤ 2 ^ 31 = ground arith in
    (small, omega (arith, div-add-mod' (magnitude a) (magnitude b)), ground arith)

divided :
    (a b : ℕ)
    → a < 2 ^ 32
    → b < 2 ^ 32
    → has_no_quotient a b ≡ false
    → Divides
        (value a)
        (value b)
        (value (signed_bits (differ (is_negative a) (is_negative b)) (magnitude a / magnitude b)))
        (value (signed_bits (is_negative a) (magnitude a % magnitude b)))
divided a b ha hb h =
    let s = is_negative a in
    let t = is_negative b in
    let m = magnitude a in
    let n = magnitude b in
    let (small, inside, room) = remainder_bound a b ha hb h in
    let signs = same_sign s m (m % n) inside in
    let sum = signed_sum s t n (m / n) (m % n) in
    let whole = ap (λ k. signed s k) (div-add-mod' m n) in
    rw
      (
        value-signed a ha,
        value-signed b hb,
        value-signed_bits (differ s t) (m / n) (quotient_bound a b ha hb h),
        value-signed_bits s (m % n) room,
      )
      (record {
        whole = sym whole ∙ sum;
        small = omega (arith, abs-signed s (m % n), abs-signed t n, small);
        negative = signs.0;
        positive = signs.1;
      })

-- Two ints either have no quotient that is an int, when division and remainder both raise a signal;
-- or the two give the bits of the quotient that is rounded towards zero and of its remainder.
pub div32-mod32 :
    (a b : ℕ)
    → a < 2 ^ 32
    → b < 2 ^ 32
    → (HasNoQuotient (value a) (value b) × (div32 a b ≡ trapped) × (mod32 a b ≡ trapped))
      ⊎ ((q : ℕ) × (r : ℕ) × (div32 a b ≡ ok q)
          × (mod32 a b ≡ ok r)
          × Divides (value a) (value b) (value q) (value r))
unfolding div32 mod32
div32-mod32 a b ha hb = elim (Bool-cases (has_no_quotient a b)) [
  | inl e ↦ inl (has_no_quotient_lem a b ha hb e, rw e, rw e)
  | inr e ↦ inr (_, _, rw e, rw e, divided a b ha hb e)
]
