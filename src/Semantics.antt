-- ===== src/Semantics.antt =====
-- What a program means: an evaluator over the tree, which the code of src/ir.cpp run by
-- src/bytecodeinterpreter.cpp is held against. It has no stack, no code and no program counter.
pub mod Supported
use core_vm.Base.{ℕ, ◌+◌, ◌%◌, ◌^◌, List, [], ◌∷◌, ◌++◌, Option, none, some, get_elem?, set}
use core_vm.Base.Outcome.{Outcome, ok, undefined, trapped, ◌>>=◌, defined}
use core_vm.OpCode
use core_vm.OpCode.{OpCode}
use core_vm.Types.{CvmType, int, float, double, long, void}
use core_vm.Adt.{Adt, sign_extend, get_int_adt, get_float_adt, get_long_adt, get_double_adt}
use core_vm.Ir.{
  Ir, binary, variable, constant, cast, Stmt, StoreIr, assign, definition, no_op, function_call,
  Program, get_res_type,
}
use core_vm.Fpu.{Fpu}
use core_vm.Word.{add32, sub32, mul32, div32}
use core_vm.Interpreter.{Width, w4, w8, load_cell, store_cell, Output}
use core_vm.Interpreter

-- the size of a value of a type
abbrev pub width : CvmType → Width
width int = w4
width float = w4
width double = w8
width long = w8
width void = w8

-- how a value of a type is shown
abbrev pub shown : CvmType → ℕ → Output
shown int = Output.int
shown float = Output.float
shown double = Output.double
shown _ = Output.long

-- the bits of a literal
abbrev pub literal : OpCode → Adt → ℕ
literal OpCode.i_const v = get_int_adt v
literal OpCode.f_const v = get_float_adt v
literal OpCode.d_const v = get_double_adt v
literal _ v = get_long_adt v

-- the variables and what has been printed
pub record State : Type 0 where
  pub vars : List ℕ
  pub out : List Output

module _ (fpu : Fpu) where
  -- arithmetic, on the operations that have a meaning
  abbrev pub arithmetic : OpCode → ℕ → ℕ → Outcome ℕ
  arithmetic OpCode.i_add a b = ok (add32 a b)
  arithmetic OpCode.i_sub a b = ok (sub32 a b)
  arithmetic OpCode.i_mul a b = ok (mul32 a b)
  arithmetic OpCode.i_div a b = div32 a b
  arithmetic OpCode.d_add a b = ok (fpu.d_add a b)
  arithmetic OpCode.d_sub a b = ok (fpu.d_sub a b)
  arithmetic OpCode.d_mul a b = ok (fpu.d_mul a b)
  arithmetic OpCode.d_div a b = ok (fpu.d_div a b)
  arithmetic OpCode.f_add a b = ok (fpu.f_add a b)
  arithmetic OpCode.f_sub a b = ok (fpu.f_sub a b)
  arithmetic OpCode.f_mul a b = ok (fpu.f_mul a b)
  arithmetic OpCode.f_div a b = ok (fpu.f_div a b)
  arithmetic _ a b = undefined

  -- conversions; one to the same type changes nothing
  abbrev pub convert : OpCode → ℕ → ℕ
  convert OpCode.i_cast_d v = fpu.int_to_double v
  convert OpCode.i_cast_f v = fpu.int_to_float v
  convert OpCode.i_cast_l v = sign_extend v
  convert OpCode.l_cast_d v = fpu.long_to_double v
  convert OpCode.l_cast_f v = fpu.long_to_float v
  convert OpCode.l_cast_i v = v % 2 ^ 32
  convert OpCode.f_cast_i v = fpu.float_to_int v
  convert OpCode.f_cast_l v = fpu.float_to_long v
  convert OpCode.f_cast_d v = fpu.float_to_double v
  convert OpCode.d_cast_i v = fpu.double_to_int v
  convert OpCode.d_cast_f v = fpu.double_to_float v
  convert OpCode.d_cast_l v = fpu.double_to_long v
  convert _ v = v

  -- the value of an expression in a table of variables, right side first
  unfoldable pub eval : List ℕ → Ir → Outcome ℕ
  eval vars (binary op t lhs rhs) = do
    b ← eval vars rhs
    a ← eval vars lhs
    v ← arithmetic op a b
    ok (load_cell (width t) v)
  eval vars (variable n ix op t) = do c ← defined (get_elem? vars ix); ok (load_cell (width t) c)
  eval vars (constant v op t) = ok (load_cell (width t) (literal op v))
  eval vars (cast op t e) = do v ← eval vars e; ok (load_cell (width t) (convert op v))

  unfoldable pub eval_stmt : State → Stmt → Outcome State
  unfolding eval
  eval_stmt s (assign lhs rhs t) = do
    v ← eval s.vars rhs
    old ← defined (get_elem? s.vars lhs.ix)
    ok (record s { vars = set s.vars lhs.ix (store_cell (width lhs.res_type) old v) })
  eval_stmt s (definition n ix t) = ok s
  eval_stmt s no_op = ok s
  eval_stmt s (function_call name [] t) = undefined
  eval_stmt s (function_call name (arg ∷ args) t) = do
    v ← eval s.vars arg
    ok (record s { out = s.out ++ shown (get_res_type arg) v ∷ [] })

  unfoldable pub eval_program : State → Program → Outcome State
  unfolding eval_stmt
  eval_program s [] = ok s
  eval_program s (c ∷ p) = do s ← eval_stmt s c; eval_program s p
