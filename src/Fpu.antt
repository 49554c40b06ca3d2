-- ===== src/Fpu.antt =====
-- The floating-point unit and the C library's conversion of text: what the program calls on values of
-- `float` and `double`. A `double` is its 64 bits and a `float` its 32 bits.
use core_vm.Base.{ℕ, List}

pub record Fpu : Type 0 where
  pub d_add : ℕ → ℕ → ℕ
  pub d_sub : ℕ → ℕ → ℕ
  pub d_mul : ℕ → ℕ → ℕ
  pub d_div : ℕ → ℕ → ℕ
  pub f_add : ℕ → ℕ → ℕ
  pub f_sub : ℕ → ℕ → ℕ
  pub f_mul : ℕ → ℕ → ℕ
  pub f_div : ℕ → ℕ → ℕ
  pub int_to_double : ℕ → ℕ
  pub int_to_float : ℕ → ℕ
  pub long_to_double : ℕ → ℕ
  pub long_to_float : ℕ → ℕ
  pub float_to_int : ℕ → ℕ
  pub float_to_long : ℕ → ℕ
  pub float_to_double : ℕ → ℕ
  pub double_to_int : ℕ → ℕ
  pub double_to_long : ℕ → ℕ
  pub double_to_float : ℕ → ℕ
  pub atof : List ℕ → ℕ
