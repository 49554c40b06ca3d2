-- ===== src/Tests/Words.antt =====
-- The arithmetic on `int` of src/bytecodeinterpreter.cpp, at concrete inputs.
use core_vm.Base.{ℕ, ◌≡◌, refl, arith, ◌-◌, ◌^◌, ◌⊎◌}
use core_vm.Base.Outcome.{ok, trapped}
use core_vm.Word.{mul32, div32, mod32}
use core_vm.Word.Signed.{value, Wrapping, exact, value-bits}
use core_vm.Word.Divided.{Divides, HasNoQuotient, div32-mod32}

abbrev minus_seven : ℕ
minus_seven = 2 ^ 32 - 7

-- -7 * 3 is -21
value-bits_example : value (mul32 minus_seven 3) ≡ exact Wrapping.mul (value minus_seven) (value 3)
unfolding core_vm.Base.Int.◌*ℤ◌ value
value-bits_example =
    value-bits Wrapping.mul minus_seven 3 (omega arith) (omega arith) (omega arith, omega arith)

-- -7 / 2 is -3, and -1 is left
rounds_to_zero : (div32 minus_seven 2 ≡ ok (2 ^ 32 - 3)) × (mod32 minus_seven 2 ≡ ok (2 ^ 32 - 1))
unfolding div32 mod32
rounds_to_zero = (refl, refl)

-- the least `int` by -1
traps : div32 (2 ^ 31) (2 ^ 32 - 1) ≡ trapped
unfolding div32
traps = refl

div32-mod32_example :
    (HasNoQuotient (value minus_seven) (value 2)
      × (div32 minus_seven 2 ≡ trapped)
      × (mod32 minus_seven 2 ≡ trapped))
    ⊎ ((q : ℕ) × (r : ℕ) × (div32 minus_seven 2 ≡ ok q)
        × (mod32 minus_seven 2 ≡ ok r)
        × Divides (value minus_seven) (value 2) (value q) (value r))
div32-mod32_example = div32-mod32 minus_seven 2 (omega arith) (omega arith)
