-- ===== src/Ir/Verify.antt =====
-- The `Verify` members of src/ir.cpp. The cases of the float and long operations have no `break`, and
-- run on into the cases below them.
use core_vm.Base.{[], ◌∷◌}
use core_vm.Base.Outcome.{
  Outcome, ok, panicked, ◌>>◌, require, binary_op_type_mismatch, int_is_required,
  double_is_required, float_is_required, long_is_required, unimplemented_binary_op,
  assign_type_mismatch, function_call_args_size_error,
}
use core_vm.OpCode.{
  OpCode, i_add, i_sub, i_mul, i_div, i_mod, d_add, d_sub, d_mul, d_div, f_add, f_sub, f_mul, f_div,
  l_add, l_sub, l_mul, l_div, l_mod,
}
use core_vm.Types.{CvmType, int, float, double, long, type_eq}
use core_vm.Ir.{
  Ir, binary, variable, constant, cast, Stmt, assign, definition, no_op, function_call, Program,
  get_res_type,
}

-- `default:` and the cases above it, from which control falls into it
unfoldable pub verify_default : Outcome (Unit {0})
verify_default = panicked unimplemented_binary_op

unfoldable pub verify_long : CvmType → Outcome (Unit {0})
unfolding verify_default
verify_long t = do require (type_eq t long) long_is_required; verify_default

unfoldable pub verify_float : CvmType → Outcome (Unit {0})
unfolding verify_long
verify_float t = do require (type_eq t float) float_is_required; verify_long t

-- the `switch (GetOpCode())` of `BinaryIR::Verify`, for the type of the left side
unfoldable pub verify_operands : OpCode → CvmType → Outcome (Unit {0})
unfolding verify_float verify_long verify_default
verify_operands i_add t = require (type_eq t int) int_is_required
verify_operands i_sub t = require (type_eq t int) int_is_required
verify_operands i_mul t = require (type_eq t int) int_is_required
verify_operands i_div t = require (type_eq t int) int_is_required
verify_operands i_mod t = require (type_eq t int) int_is_required
verify_operands d_add t = require (type_eq t double) double_is_required
verify_operands d_sub t = require (type_eq t double) double_is_required
verify_operands d_mul t = require (type_eq t double) double_is_required
verify_operands d_div t = require (type_eq t double) double_is_required
verify_operands f_add t = verify_float t
verify_operands f_sub t = verify_float t
verify_operands f_mul t = verify_float t
verify_operands f_div t = verify_float t
verify_operands l_add t = verify_long t
verify_operands l_sub t = verify_long t
verify_operands l_mul t = verify_long t
verify_operands l_div t = verify_long t
verify_operands l_mod t = verify_long t
verify_operands _ t = verify_default

unfoldable pub verify : Ir → Outcome (Unit {0})
unfolding verify_operands
verify (binary op t lhs rhs) = do
  verify lhs
  verify rhs
  require (type_eq (get_res_type lhs) (get_res_type rhs)) binary_op_type_mismatch
  verify_operands op (get_res_type lhs)
verify (variable n ix op t) = ok tt
verify (constant v op t) = ok tt
verify (cast op t e) = verify e

unfoldable pub verify_stmt : Stmt → Outcome (Unit {0})
unfolding verify
verify_stmt (assign lhs rhs t) = do
  verify rhs
  require (type_eq lhs.res_type (get_res_type rhs)) assign_type_mismatch
verify_stmt (definition n ix t) = ok tt
verify_stmt no_op = ok tt
verify_stmt (function_call name [] t) = panicked function_call_args_size_error
verify_stmt (function_call name (arg ∷ []) t) = verify arg
verify_stmt (function_call name (arg ∷ arg' ∷ args) t) = panicked function_call_args_size_error

unfoldable pub verify_program : Program → Outcome (Unit {0})
unfolding verify_stmt
verify_program [] = ok tt
verify_program (s ∷ p) = do verify_stmt s; verify_program p
