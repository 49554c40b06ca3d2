-- ===== src/OpCode.antt =====
-- src/include/opcode.h: the operation codes, and the numbers that the enumeration gives them.
use core_vm.Base.{ℕ, ◌<◌, ◌≡◌, refl, Option, some, List, [], ◌∷◌, get_elem?, arith}

pub data OpCode : Type 0 where
  i_add i_sub i_mul i_div i_mod : OpCode
  d_add d_sub d_mul d_div : OpCode
  f_add f_sub f_mul f_div : OpCode
  l_add l_sub l_mul l_div l_mod : OpCode
  i_const l_const f_const d_const : OpCode
  load_i load_d load_f load_l : OpCode
  store_i store_d store_f store_l : OpCode
  i_cast_l i_cast_d i_cast_f : OpCode
  l_cast_i l_cast_d l_cast_f : OpCode
  f_cast_i f_cast_d f_cast_l : OpCode
  d_cast_i d_cast_f d_cast_l : OpCode
  print_i print_l print_d print_f : OpCode
  nop program stmt def done : OpCode

-- the enumerators in the order of the header, from 0
abbrev opcodes : List OpCode
opcodes =
    i_add ∷ i_sub ∷ i_mul ∷ i_div ∷ i_mod ∷ d_add ∷ d_sub ∷ d_mul ∷ d_div ∷ f_add ∷ f_sub ∷ f_mul
    ∷ f_div ∷ l_add ∷ l_sub ∷ l_mul ∷ l_div ∷ l_mod ∷ i_const ∷ l_const ∷ f_const ∷ d_const ∷ load_i
    ∷ load_d ∷ load_f ∷ load_l ∷ store_i ∷ store_d ∷ store_f ∷ store_l ∷ i_cast_l ∷ i_cast_d
    ∷ i_cast_f ∷ l_cast_i ∷ l_cast_d ∷ l_cast_f ∷ f_cast_i ∷ f_cast_d ∷ f_cast_l ∷ d_cast_i
    ∷ d_cast_f ∷ d_cast_l ∷ print_i ∷ print_l ∷ print_d ∷ print_f ∷ nop ∷ program ∷ stmt ∷ def
    ∷ done ∷ []

-- `static_cast<OpCode>(n)`; `none` for a number that is no enumerator
unfoldable pub of_code : ℕ → Option OpCode
of_code n = get_elem? opcodes n

-- `static_cast<u2>(op)`
unfoldable pub code : OpCode → ℕ
code i_add = 0
code i_sub = 1
code i_mul = 2
code i_div = 3
code i_mod = 4
code d_add = 5
code d_sub = 6
code d_mul = 7
code d_div = 8
code f_add = 9
code f_sub = 10
code f_mul = 11
code f_div = 12
code l_add = 13
code l_sub = 14
code l_mul = 15
code l_div = 16
code l_mod = 17
code i_const = 18
code l_const = 19
code f_const = 20
code d_const = 21
code load_i = 22
code load_d = 23
code load_f = 24
code load_l = 25
code store_i = 26
code store_d = 27
code store_f = 28
code store_l = 29
code i_cast_l = 30
code i_cast_d = 31
code i_cast_f = 32
code l_cast_i = 33
code l_cast_d = 34
code l_cast_f = 35
code f_cast_i = 36
code f_cast_d = 37
code f_cast_l = 38
code d_cast_i = 39
code d_cast_f = 40
code d_cast_l = 41
code print_i = 42
code print_l = 43
code print_d = 44
code print_f = 45
code nop = 46
code program = 47
code stmt = 48
code def = 49
code done = 50

-- Casting an operation code to a number and back gives the operation code.
pub of_code-code : (op : OpCode) → of_code (code op) ≡ some op
unfolding of_code code
of_code-code i_add = refl
of_code-code _ = refl

pub code-lt : (op : OpCode) → code op < 51
unfolding code
code-lt i_add = omega arith
code-lt _ = omega arith
