-- ===== src/Ir.antt =====
-- src/include/ir.h: the intermediate representation. The class IR and its children are data types
-- with a constructor for each class, which carries what the base class keeps: the operation code
-- and the result type, where the constructor of the class does not fix them.
pub mod Code
pub mod ProgramCode
pub mod Dump
pub mod Dumped
pub mod Emit
pub mod Verify
pub mod Verified
pub mod Typing
use core_vm.Base.{ℕ, Bool, true, false, List, ◌==◌, if◌then◌else◌}
use core_vm.Base.Outcome.{
  Outcome, ok, panicked, ◌>>=◌, ◌>>◌, require, lhs_and_rhs_mismatch, unimplemented_binary_op,
}
use core_vm.OpCode.{
  OpCode, i_add, i_sub, i_mul, i_div, d_add, d_sub, d_mul, d_div, f_add, f_sub, f_mul, f_div, l_add,
  l_sub, l_mul, l_div,
}
use core_vm.Types.{Name, CvmType, int, float, double, long, void, type_eq}
use core_vm.Adt.{Adt}

-- BinaryIR, VariableIR, Constant and CastIR: the nodes that an expression is made of
pub data Ir : Type 0 where
  binary : OpCode → CvmType → Ir → Ir → Ir
  variable : Name → ℕ → OpCode → CvmType → Ir
  constant : Adt → OpCode → CvmType → Ir
  cast : OpCode → CvmType → Ir → Ir

pub record StoreIr : Type 0 where
  pub name : Name
  pub ix : ℕ
  pub res_type : CvmType
  pub opcode : OpCode

-- AssignStmtIR, DefinitionIR, NopIR and FunctionCallIR
pub data Stmt : Type 0 where
  assign : StoreIr → Ir → CvmType → Stmt
  definition : Name → ℕ → CvmType → Stmt
  no_op : Stmt
  function_call : Name → List Ir → CvmType → Stmt

-- ProgramIR
abbrev pub Program : Type 0
Program = List Stmt

-- `GetResType`
abbrev pub get_res_type : Ir → CvmType
get_res_type (binary op t l r) = t
get_res_type (variable n ix op t) = t
get_res_type (constant v op t) = t
get_res_type (cast op t e) = t

-- `IsIntRes`, `IsLongRes`, `IsFloatRes`, or else double
abbrev pub by_type : CvmType → OpCode → OpCode → OpCode → OpCode → OpCode
by_type int i l f d = i
by_type long i l f d = l
by_type float i l f d = f
by_type _ i l f d = d

-- the `switch (_c)` of the constructor of BinaryIR
unfoldable pub binary_opcode : ℕ → CvmType → Outcome OpCode
binary_opcode c t =
    if c == b'+'
    then ok (by_type t i_add l_add f_add d_add)
    else if c == b'-'
    then ok (by_type t i_sub l_sub f_sub d_sub)
    else if c == b'*'
    then ok (by_type t i_mul l_mul f_mul d_mul)
    else if c == b'/'
    then ok (by_type t i_div l_div f_div d_div)
    else panicked unimplemented_binary_op

-- the constructor of BinaryIR
unfoldable pub make_binary : Ir → Ir → ℕ → Outcome Ir
unfolding binary_opcode
make_binary lhs rhs c = do
  require (type_eq (get_res_type lhs) (get_res_type rhs)) lhs_and_rhs_mismatch
  op ← binary_opcode c (get_res_type lhs)
  ok (binary op (get_res_type lhs) lhs rhs)
