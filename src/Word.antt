-- ===== src/Word.antt =====
-- `int` as its 32 bits: the arithmetic that src/bytecodeinterpreter.cpp does on it. Addition,
-- subtraction and multiplication wrap around; a division with no result raises a signal.
pub mod Signed
pub mod Divided
use core_vm.Base.{
  ℕ, ◌+◌, ◌-◌, ◌*◌, ◌/◌, ◌%◌, ◌^◌, Bool, true, false, ◌&&◌, ◌||◌, leb, ◌==◌, if◌then◌else◌,
}
use core_vm.Base.Outcome.{Outcome, ok, trapped}

unfoldable pub add32 : ℕ → ℕ → ℕ
add32 a b = (a + b) % 2 ^ 32

unfoldable pub sub32 : ℕ → ℕ → ℕ
sub32 a b = (a + 2 ^ 32 - b) % 2 ^ 32

unfoldable pub mul32 : ℕ → ℕ → ℕ
mul32 a b = a * b % 2 ^ 32

abbrev pub is_negative : ℕ → Bool
is_negative a = leb (2 ^ 31) a

abbrev pub magnitude : ℕ → ℕ
magnitude a = if is_negative a then 2 ^ 32 - a else a

-- the bits of a magnitude with a sign
abbrev pub signed_bits : Bool → ℕ → ℕ
signed_bits true m = (2 ^ 32 - m) % 2 ^ 32
signed_bits false m = m

-- a division by zero, and the one whose quotient is no `int`
unfoldable pub has_no_quotient : ℕ → ℕ → Bool
has_no_quotient a b = b == 0 || (a == 2 ^ 31 && b == 2 ^ 32 - 1)

abbrev pub differ : Bool → Bool → Bool
differ true true = false
differ false false = false
differ _ _ = true

unfoldable pub div32 : ℕ → ℕ → Outcome ℕ
unfolding has_no_quotient
div32 a b =
    if has_no_quotient a b
    then trapped
    else ok (signed_bits (differ (is_negative a) (is_negative b)) (magnitude a / magnitude b))

unfoldable pub mod32 : ℕ → ℕ → Outcome ℕ
unfolding has_no_quotient
mod32 a b =
    if has_no_quotient a b
    then trapped
    else ok (signed_bits (is_negative a) (magnitude a % magnitude b))
