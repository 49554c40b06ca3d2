-- ===== src/Ir/Emit.antt =====
-- The `Emit` members of src/ir.cpp: the code of each node, written to the assembler.
use core_vm.Base.{ℕ, ◌%◌, ◌^◌, List, [], ◌∷◌}
use core_vm.Base.Outcome.{
  Outcome, ok, panicked, ◌>>=◌, ◌>>◌, require, unimplemented_type, only_print_can_be_used,
  print_only_support_one_argument,
}
use core_vm.OpCode.{
  OpCode, code, i_const, l_const, f_const, d_const, load_i, load_d, load_f, load_l, store_i,
  store_d, store_f, store_l, print_i, print_l, print_d, print_f, done,
}
use core_vm.Types.{Name, codes, name_eq, CvmType, int, float, double, long, void}
use core_vm.Adt.{Adt, get_int_adt, get_float_adt, get_long_adt, get_double_adt}
use core_vm.Ir.{
  Ir, binary, variable, constant, cast, StoreIr, Stmt, assign, definition, no_op, function_call,
  Program, get_res_type,
}
use core_vm.Assembler.{CvmAssembler, write_stream}

-- `VariableIR::Emit`, the operation code
unfoldable pub load_by_type : CvmType → Outcome OpCode
load_by_type int = ok load_i
load_by_type float = ok load_f
load_by_type double = ok load_d
load_by_type long = ok load_l
load_by_type void = panicked unimplemented_type

-- `StoreIR::Emit`, the operation code
unfoldable pub store_by_type : CvmType → Outcome OpCode
store_by_type int = ok store_i
store_by_type float = ok store_f
store_by_type double = ok store_d
store_by_type long = ok store_l
store_by_type void = panicked unimplemented_type

-- `Constant::Emit`
unfoldable pub emit_constant : Adt → OpCode → CvmAssembler → Outcome CvmAssembler
emit_constant v i_const a = do a ← write_stream 2 (code i_const) a; write_stream 4 (get_int_adt v) a
emit_constant v f_const a = do
  a ← write_stream 2 (code f_const) a
  write_stream 4 (get_float_adt v) a
emit_constant v d_const a = do
  a ← write_stream 2 (code d_const) a
  write_stream 8 (get_double_adt v) a
emit_constant v l_const a = do
  a ← write_stream 2 (code l_const) a
  write_stream 8 (get_long_adt v) a
emit_constant v _ a = panicked unimplemented_type

-- an operation code and `static_cast<u2>` of an index
unfoldable pub emit_indexed : OpCode → ℕ → CvmAssembler → Outcome CvmAssembler
emit_indexed op ix a = do a ← write_stream 2 (code op) a; write_stream 2 (ix % 2 ^ 16) a

unfoldable pub emit : Ir → CvmAssembler → Outcome CvmAssembler
unfolding load_by_type emit_constant emit_indexed
emit (binary op t lhs rhs) a = do a ← emit rhs a; a ← emit lhs a; write_stream 2 (code op) a
emit (variable n ix op t) a = do op ← load_by_type t; emit_indexed op ix a
emit (constant v op t) a = emit_constant v op a
emit (cast op t e) a = do a ← emit e a; write_stream 2 (code op) a

unfoldable pub emit_store : StoreIr → CvmAssembler → Outcome CvmAssembler
unfolding store_by_type emit_indexed
emit_store s a = do op ← store_by_type s.res_type; emit_indexed op s.ix a

-- the print instruction for the type of the argument; none for a type that is not printed
unfoldable pub emit_print : CvmType → CvmAssembler → Outcome CvmAssembler
emit_print double a = write_stream 2 (code print_d) a
emit_print float a = write_stream 2 (code print_f) a
emit_print int a = write_stream 2 (code print_i) a
emit_print long a = write_stream 2 (code print_l) a
emit_print void a = ok a

-- `FunctionCallIR::Emit`
unfoldable pub emit_call : Name → List Ir → CvmAssembler → Outcome CvmAssembler
unfolding name_eq emit emit_print
emit_call name [] a = do
  require (name_eq name (codes "print")) only_print_can_be_used
  panicked print_only_support_one_argument
emit_call name (arg ∷ []) a = do
  require (name_eq name (codes "print")) only_print_can_be_used
  a ← emit arg a
  a ← emit_print (get_res_type arg) a
  write_stream 2 1 a
emit_call name (arg ∷ arg' ∷ args) a = do
  require (name_eq name (codes "print")) only_print_can_be_used
  panicked print_only_support_one_argument

unfoldable pub emit_stmt : Stmt → CvmAssembler → Outcome CvmAssembler
unfolding emit emit_store emit_call
emit_stmt (assign lhs rhs t) a = do a ← emit rhs a; emit_store lhs a
emit_stmt (definition n ix t) a = ok a
emit_stmt no_op a = ok a
emit_stmt (function_call name args t) a = emit_call name args a

-- `ProgramIR::Emit`
unfoldable pub emit_program : Program → CvmAssembler → Outcome CvmAssembler
unfolding emit_stmt
emit_program [] a = write_stream 2 (code done) a
emit_program (s ∷ p) a = do a ← emit_stmt s a; emit_program p a
