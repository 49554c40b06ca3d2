-- ===== src/Ir/Dump.antt =====
-- The `Dump` members of src/ir.cpp: the text that `GetByteCode` returns. What an output stream makes
-- of a `float` and a `double` is a parameter.
use core_vm.Base.{ℕ, zero, suc, ◌+◌, ◌-◌, ◌/◌, ◌%◌, [], ◌∷◌, ◌++◌, ltb, if◌then◌else◌, length, ◌^◌}
use core_vm.Base.Outcome.{
  Outcome, ok, panicked, undefined, ◌>>=◌, ◌>>◌, assert, unimplemented_binary_op,
  unimplemented_load_op, unknown_type, unimplemented_store_op, unimplemented_cast_op,
  unimplemented_print_type,
}
use core_vm.OpCode.{OpCode}
use core_vm.Types.{Name, codes, name_eq, CvmType, int, float, double, long, void}
use core_vm.Adt.{Adt, get_int_adt, get_float_adt, get_double_adt, get_long_adt}
use core_vm.Ir.{
  Ir, binary, variable, constant, cast, StoreIr, Stmt, assign, definition, no_op, function_call,
  Program, get_res_type,
}

-- the text that an `std::ostringstream` holds
abbrev pub Text : Type 0
Text = Name

-- the digits of a number in base 10, on fuel, before `acc`
abbrev pub digits : ℕ → ℕ → Text → Text
digits zero n acc = acc
digits (suc f) n acc =
    let shown = (b'0' + n % 10) ∷ acc in
    let rest = digits f (n / 10) shown in if ltb n 10 then shown else rest

-- `<<` of a number; twenty digits are enough for 64 bits
unfoldable pub show_nat : ℕ → Text
show_nat n = digits 20 n []

-- `<<` of a signed number of `w` bits
unfoldable pub show_signed : ℕ → ℕ → Text
show_signed w n = if ltb n (2 ^ (w - 1)) then show_nat n else b'-' ∷ show_nat (2 ^ w - n)

abbrev pub spaces : ℕ → Text
spaces zero = []
spaces (suc n) = b' ' ∷ spaces n

-- `LJUST(w) << text`
abbrev pub ljust : ℕ → Text → Text
ljust w text = text ++ spaces (w - length text)

-- `IR::_ljust` and `VAR_NAME_W`
abbrev pub op_name_w : ℕ
op_name_w = 10

abbrev pub var_name_w : ℕ
var_name_w = 3

-- what follows the name of a load or a store
abbrev pub dump_indexed : Text → Name → ℕ → Text → Text
dump_indexed op name ix os =
    os ++ ljust op_name_w op ++ ljust var_name_w (show_nat ix) ++ codes "(" ++ name ++ codes ")"

-- the `switch` of `BinaryIR::Dump`; `FSub`, `FMul` and `FDiv` have no case
unfoldable pub dump_binary_op : OpCode → Outcome Text
dump_binary_op OpCode.i_add = ok (codes "IAdd")
dump_binary_op OpCode.i_sub = ok (codes "ISub")
dump_binary_op OpCode.i_mul = ok (codes "IMul")
dump_binary_op OpCode.i_div = ok (codes "IDiv")
dump_binary_op OpCode.i_mod = ok (codes "IMod")
dump_binary_op OpCode.d_add = ok (codes "DAdd")
dump_binary_op OpCode.d_sub = ok (codes "DSub")
dump_binary_op OpCode.d_mul = ok (codes "DMul")
dump_binary_op OpCode.d_div = ok (codes "DDiv")
dump_binary_op OpCode.f_add = ok (codes "FAdd")
dump_binary_op OpCode.l_add = ok (codes "LAdd")
dump_binary_op OpCode.l_sub = ok (codes "LSub")
dump_binary_op OpCode.l_mul = ok (codes "LMul")
dump_binary_op OpCode.l_div = ok (codes "LDiv")
dump_binary_op OpCode.l_mod = ok (codes "LMod")
dump_binary_op _ = panicked unimplemented_binary_op

-- `VariableIR::Dump`
unfoldable pub dump_variable : Name → ℕ → OpCode → Text → Outcome Text
dump_variable name ix OpCode.load_i os = ok (dump_indexed (codes "LoadI") name ix os)
dump_variable name ix OpCode.load_f os = ok (dump_indexed (codes "LoadF") name ix os)
dump_variable name ix OpCode.load_d os = ok (dump_indexed (codes "LoadD") name ix os)
dump_variable name ix OpCode.load_l os = ok (dump_indexed (codes "LoadL") name ix os)
dump_variable name ix _ os = panicked unimplemented_load_op

-- the `switch` of `StoreIR::Dump`
unfoldable pub dump_store_op : OpCode → Name → ℕ → Text → Outcome Text
dump_store_op OpCode.store_i name ix os = ok (dump_indexed (codes "StoreI") name ix os)
dump_store_op OpCode.store_f name ix os = ok (dump_indexed (codes "StoreF") name ix os)
dump_store_op OpCode.store_d name ix os = ok (dump_indexed (codes "StoreD") name ix os)
dump_store_op OpCode.store_l name ix os = ok (dump_indexed (codes "StoreL") name ix os)
dump_store_op _ name ix os = panicked unimplemented_store_op

abbrev pub dump_store : StoreIr → Text → Outcome Text
dump_store s os = dump_store_op s.opcode s.name s.ix os

-- the `switch` of `CastIR::Dump`; a conversion to the same type has no case
unfoldable pub dump_cast_op : OpCode → Outcome Text
dump_cast_op OpCode.i_cast_d = ok (codes "ICastD")
dump_cast_op OpCode.i_cast_f = ok (codes "ICastF")
dump_cast_op OpCode.i_cast_l = ok (codes "ICastL")
dump_cast_op OpCode.l_cast_d = ok (codes "LCastD")
dump_cast_op OpCode.l_cast_f = ok (codes "LCastF")
dump_cast_op OpCode.l_cast_i = ok (codes "LCastI")
dump_cast_op OpCode.f_cast_d = ok (codes "FCastD")
dump_cast_op OpCode.f_cast_i = ok (codes "FCastI")
dump_cast_op OpCode.f_cast_l = ok (codes "FCastL")
dump_cast_op OpCode.d_cast_i = ok (codes "DCastI")
dump_cast_op OpCode.d_cast_l = ok (codes "DCastL")
dump_cast_op OpCode.d_cast_f = ok (codes "DCastF")
dump_cast_op _ = panicked unimplemented_cast_op

-- the name behind the argument of a call, by its type
unfoldable pub dump_print : CvmType → Outcome Text
dump_print double = ok (codes "PrintD")
dump_print float = ok (codes "PrintF")
dump_print int = ok (codes "PrintI")
dump_print long = ok (codes "PrintL")
dump_print void = panicked unimplemented_print_type

module _ (show_float show_double : ℕ → Text) where
  -- `Constant::Dump`
  unfoldable pub dump_constant : Adt → OpCode → Text → Outcome Text
  dump_constant v OpCode.i_const os =
      ok (os ++ ljust op_name_w (codes "IConst") ++ show_signed 32 (get_int_adt v))
  dump_constant v OpCode.f_const os =
      ok (os ++ ljust op_name_w (codes "FConst") ++ show_float (get_float_adt v))
  dump_constant v OpCode.d_const os =
      ok (os ++ ljust op_name_w (codes "DConst") ++ show_double (get_double_adt v))
  dump_constant v OpCode.l_const os =
      ok (os ++ ljust op_name_w (codes "LConst") ++ show_signed 64 (get_long_adt v))
  dump_constant v _ os = panicked unknown_type

  unfoldable pub dump : Ir → Text → Outcome Text
  dump (binary op t lhs rhs) os = do
    os ← dump rhs os
    os ← dump lhs (os ++ 10 ∷ [])
    name ← dump_binary_op op
    ok (os ++ 10 ∷ name)
  dump (variable n ix op t) os = dump_variable n ix op os
  dump (constant v op t) os = dump_constant v op os
  dump (cast op t e) os = do os ← dump e os; name ← dump_cast_op op; ok (os ++ 10 ∷ name)

  -- the `Dump` of a statement; a call reads its first argument before anything else
  unfoldable pub dump_stmt : Stmt → Text → Outcome Text
  dump_stmt (assign lhs rhs t) os = do os ← dump rhs os; dump_store lhs (os ++ 10 ∷ [])
  dump_stmt (definition n ix t) os = ok os
  dump_stmt no_op os = ok os
  dump_stmt (function_call name [] t) os = undefined
  dump_stmt (function_call name (arg ∷ args) t) os = do
    os ← dump arg os
    assert (name_eq name (codes "print"))
    shown ← dump_print (get_res_type arg)
    ok (os ++ 10 ∷ shown)

  -- the loop of `ProgramIR::Dump`
  unfoldable pub dump_all : Program → Text → Outcome Text
  dump_all [] os = ok os
  dump_all (s ∷ p) os = do os ← dump_stmt s os; dump_all p (os ++ 10 ∷ [])

  -- `ProgramIR::Dump`, into an empty stream
  unfoldable pub dump_program : Program → Outcome Text
  dump_program p =
      dump_all p (ljust op_name_w (codes "OpName") ++ ljust var_name_w (codes "OpArg(VarName)\n"))
