-- ===== src/Semantics/Supported.antt =====
-- The part of the language that the interpreter implements, and the stack that an expression needs.
use Prim.Native.Nat.{max}
use core_vm.Base.{ℕ, ◌+◌, ◌<◌, ◌≡◌, true, [], ◌∷◌, arith}
use core_vm.OpCode.{OpCode}
use core_vm.Types.{codes, name_eq}
use core_vm.Util.{get_store_opcode_by_type}
use core_vm.Base.Outcome.{ok}
use core_vm.Ir.{
  Ir, binary, variable, constant, cast, Stmt, assign, definition, no_op, function_call, Program,
  get_res_type,
}
use core_vm.Ir.Typing.{WellTyped}

-- the arithmetic whose case in `Run` does what its name says
abbrev pub Implemented : OpCode → Type 0
Implemented OpCode.f_mul = ⊥
Implemented OpCode.l_add = ⊥
Implemented OpCode.l_sub = ⊥
Implemented OpCode.l_mul = ⊥
Implemented OpCode.l_div = ⊥
Implemented OpCode.nop = ⊥
Implemented _ = Unit

-- no multiplication of floats, no arithmetic on longs, no conversion to the same type
abbrev pub Supported : Ir → Type 0
Supported (binary op t lhs rhs) = Supported lhs × Supported rhs × Implemented op
Supported (variable n ix op t) = Unit
Supported (constant v op t) = Unit
Supported (cast op t e) = Supported e × Implemented op

-- the cells of the operand stack that the code of an expression needs
abbrev pub depth : Ir → ℕ
depth (binary op t lhs rhs) = max (depth rhs) (depth lhs + 1)
depth (variable n ix op t) = 1
depth (constant v op t) = 1
depth (cast op t e) = depth e

pub depth_pos : (e : Ir) → 0 < depth e
depth_pos (binary op t lhs rhs) = omega (arith, depth_pos lhs)
depth_pos (variable n ix op t) = omega arith
depth_pos (constant v op t) = omega arith
depth_pos (cast op t e) = depth_pos e

-- A statement over a table of `n` variables that the parser can make and the interpreter runs, on a
-- stack of `k` cells.
abbrev pub Runnable : ℕ → ℕ → Stmt → Type 0
Runnable n k (assign lhs rhs t) =
    WellTyped n rhs
    × Supported rhs
    × (depth rhs < k + 1)
    × (lhs.ix < n)
    × (get_res_type rhs ≡ lhs.res_type)
    × (get_store_opcode_by_type lhs.res_type ≡ ok lhs.opcode)
Runnable n k (definition x ix t) = Unit
Runnable n k no_op = Unit
Runnable n k (function_call name (arg ∷ []) t) =
    (name_eq name (codes "print") ≡ true) × WellTyped n arg × Supported arg × (depth arg < k + 1)
Runnable n k (function_call name args t) = ⊥

abbrev pub AllRunnable : ℕ → ℕ → Program → Type 0
AllRunnable n k [] = Unit
AllRunnable n k (s ∷ p) = Runnable n k s × AllRunnable n k p
