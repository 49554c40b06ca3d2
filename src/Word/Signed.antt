-- ===== src/Word/Signed.antt =====
-- The signed integers that the bits of an `int` stand for, and the arithmetic of Word on them.
use core_vm.Base.{ℕ, ◌+◌, ◌-◌, ◌*◌, ◌/◌, ◌%◌, ◌^◌, ◌≤◌, ◌<◌, ◌≡◌, ap, arith, ltb, if◌then◌else◌}
use core_vm.Base.Int.{
  ℤ, pos, negsuc, pos_part, neg_part, ◌+ℤ◌, ◌-ℤ◌, ◌*ℤ◌, +ℤ_parts, -ℤ_parts, *ℤ_parts, eq_of_parts,
}
use core_vm.Word.{add32, sub32, mul32}

-- the value of an `int`, by two's complement
unfoldable pub value : ℕ → ℤ
value a = if ltb a (2 ^ 31) then pos a else negsuc (2 ^ 32 - 1 - a)

-- the values of an `int`
abbrev pub IsInt : ℤ → Type 0
IsInt x = (pos_part x < 2 ^ 31) × (neg_part x ≤ 2 ^ 31)

-- The bits and an integer agree up to multiples of 2^32.
pub record Congruent (c : ℕ) (x : ℤ) : Type 0 where
  pub above : ℕ
  pub below : ℕ
  pub agree : c + 2 ^ 32 * above + neg_part x ≡ pos_part x + 2 ^ 32 * below

value_of_Congruent : (c : ℕ) (x : ℤ) → c < 2 ^ 32 → IsInt x → Congruent c x → value c ≡ x
unfolding value
value_of_Congruent c x h (top, bottom) r = eq_of_parts (value c) x (let e = r.agree in ground arith)

value-Congruent : (a : ℕ) → a < 2 ^ 32 → Congruent a (value a)
unfolding value
value-Congruent a h = record {
  above = 0;
  below = if ltb a (2 ^ 31) then 0 else 1;
  agree = ground arith;
}

mod-Congruent : (c : ℕ) (x : ℤ) → Congruent c x → Congruent (c % 2 ^ 32) x
mod-Congruent c x r = record {
  above = r.above + c / 2 ^ 32;
  below = r.below;
  agree = omega (arith, r.agree);
}

module _ (c d : ℕ) (x y : ℤ) (r : Congruent c x) (s : Congruent d y) where
  add-Congruent : Congruent (c + d) (x +ℤ y)
  add-Congruent = record {
    above = r.above + s.above;
    below = r.below + s.below;
    agree = omega (arith, r.agree, s.agree, +ℤ_parts x y);
  }

  sub-Congruent : d ≤ 2 ^ 32 → Congruent (c + 2 ^ 32 - d) (x -ℤ y)
  sub-Congruent h = record {
    above = r.above + s.below;
    below = r.below + s.above + 1;
    agree = omega (arith, r.agree, s.agree, -ℤ_parts x y, h);
  }

  mul-Congruent : Congruent (c * d) (x *ℤ y)
  mul-Congruent =
      let by_d = ap (λ n. n * d) r.agree in
      let by_neg = ap (λ n. neg_part x * n) s.agree in
      let by_pos = ap (λ n. pos_part x * n) s.agree in
      record {
        above = r.above * d + s.below * neg_part x + s.above * pos_part x;
        below = r.below * d + s.below * pos_part x + s.above * neg_part x;
        agree = grind (arith, by_d, by_neg, by_pos, *ℤ_parts x y);
      }

-- the operations on integers that wrap around
pub data Wrapping : Type 0 where
  add sub mul : Wrapping

abbrev pub bits : Wrapping → ℕ → ℕ → ℕ
bits add = add32
bits sub = sub32
bits mul = mul32

abbrev pub exact : Wrapping → ℤ → ℤ → ℤ
exact add x y = x +ℤ y
exact sub x y = x -ℤ y
exact mul x y = x *ℤ y

bits-Congruent :
    (o : Wrapping) (a b : ℕ)
    → a < 2 ^ 32
    → b < 2 ^ 32
    → Congruent (bits o a b) (exact o (value a) (value b))
unfolding add32 sub32 mul32
bits-Congruent o a b ha hb =
    let r = value-Congruent a ha in
    let s = value-Congruent b hb in
    elim o as (λ o. Congruent (bits o a b) (exact o (value a) (value b))) [
      | add ↦ mod-Congruent _ _ (add-Congruent a b _ _ r s)
      | sub ↦ mod-Congruent _ _ (sub-Congruent a b _ _ r s (omega arith))
      | mul ↦ mod-Congruent _ _ (mul-Congruent a b _ _ r s)
    ]

bits-lt : (o : Wrapping) (a b : ℕ) → bits o a b < 2 ^ 32
unfolding add32 sub32 mul32
bits-lt add a b = omega arith
bits-lt sub a b = omega arith
bits-lt mul a b = omega arith

-- For two ints whose exact sum, difference or product is an int, the addition, subtraction or
-- multiplication of the interpreter gives the bits of just that integer.
pub value-bits :
    (o : Wrapping) (a b : ℕ)
    → a < 2 ^ 32
    → b < 2 ^ 32
    → IsInt (exact o (value a) (value b))
    → value (bits o a b) ≡ exact o (value a) (value b)
value-bits o a b ha hb inside =
    value_of_Congruent (bits o a b) (exact o (value a) (value b)) (bits-lt o a b) inside
      (bits-Congruent o a b ha hb)
