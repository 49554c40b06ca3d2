-- ===== src/Ir/Typing.antt =====
-- What a well-typed tree of the nodes of src/include/ir.h is.
use core_vm.Base.{ℕ, ◌<◌, ◌≡◌, List, [], ◌∷◌, Option, none, some}
use core_vm.Base.Outcome.{ok}
use core_vm.OpCode.{
  OpCode, i_const, l_const, f_const, d_const, nop, i_cast_l, i_cast_f, i_cast_d, l_cast_i, l_cast_f,
  l_cast_d, f_cast_i, f_cast_l, f_cast_d, d_cast_i, d_cast_l, d_cast_f, i_add, i_sub, i_mul, i_div,
  l_add, l_sub, l_mul, l_div, f_add, f_sub, f_mul, f_div, d_add, d_sub, d_mul, d_div,
}
use core_vm.Types.{CvmType, int, float, double, long}
use core_vm.Util.{get_load_opcode_by_type}
use core_vm.Ir.{Ir, binary, variable, constant, cast, get_res_type}

-- the type of the literals that an operation code pushes
abbrev pub constant_type : OpCode → Option CvmType
constant_type i_const = some int
constant_type l_const = some long
constant_type f_const = some float
constant_type d_const = some double
constant_type _ = none

-- the type of the operands and the result of an arithmetic operation that the parser makes
abbrev pub arithmetic_type : OpCode → Option CvmType
arithmetic_type i_add = some int
arithmetic_type i_sub = some int
arithmetic_type i_mul = some int
arithmetic_type i_div = some int
arithmetic_type l_add = some long
arithmetic_type l_sub = some long
arithmetic_type l_mul = some long
arithmetic_type l_div = some long
arithmetic_type f_add = some float
arithmetic_type f_sub = some float
arithmetic_type f_mul = some float
arithmetic_type f_div = some float
arithmetic_type d_add = some double
arithmetic_type d_sub = some double
arithmetic_type d_mul = some double
arithmetic_type d_div = some double
arithmetic_type _ = none

-- the source and the target of a conversion
abbrev pub cast_types : OpCode → Option (CvmType × CvmType)
cast_types i_cast_l = some (int, long)
cast_types i_cast_f = some (int, float)
cast_types i_cast_d = some (int, double)
cast_types l_cast_i = some (long, int)
cast_types l_cast_f = some (long, float)
cast_types l_cast_d = some (long, double)
cast_types f_cast_i = some (float, int)
cast_types f_cast_l = some (float, long)
cast_types f_cast_d = some (float, double)
cast_types d_cast_i = some (double, int)
cast_types d_cast_l = some (double, long)
cast_types d_cast_f = some (double, float)
cast_types _ = none

-- a conversion between these types, where one to the same type is `nop`
abbrev pub Casts : OpCode → CvmType → CvmType → Type 0
Casts nop s t = s ≡ t
Casts op s t = cast_types op ≡ some (s, t)

-- Each node's operation code fits the types of its operands and its own type, and a variable lies in
-- the table of `n` variables.
abbrev pub WellTyped : ℕ → Ir → Type 0
WellTyped n (binary op t lhs rhs) =
    WellTyped n lhs
    × WellTyped n rhs
    × (arithmetic_type op ≡ some t)
    × (get_res_type lhs ≡ t)
    × (get_res_type rhs ≡ t)
WellTyped n (variable x ix op t) = (ix < n) × (get_load_opcode_by_type t ≡ ok op)
WellTyped n (constant v op t) = constant_type op ≡ some t
WellTyped n (cast op t e) = WellTyped n e × Casts op (get_res_type e) t

abbrev pub AllWellTyped : ℕ → List Ir → Type 0
AllWellTyped n [] = Unit
AllWellTyped n (e ∷ es) = WellTyped n e × AllWellTyped n es
