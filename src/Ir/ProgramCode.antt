-- ===== src/Ir/ProgramCode.antt =====
-- The bytes that src/ir.cpp writes for statements and programs.
use core_vm.Base.{
  ℕ, ◌+◌, ◌^◌, ◌<◌, ◌≤◌, ◌≡◌, refl, List, [], ◌∷◌, ◌++◌, append-nil, arith, length, length-append,
  le_bytes, length-le_bytes, some, subst, sym,
}
use core_vm.Base.Outcome.{◌>>=◌}
use core_vm.OpCode.{OpCode, code, done, print_i, print_l, print_d, print_f}
use core_vm.Types.{CvmType, int, float, double, long, void}
use core_vm.Util.{get_load_opcode_by_type}
use core_vm.Assembler.{CvmAssembler, write_stream}
use core_vm.Assembler.Bounds.{IsValid}
use core_vm.Ir.{
  Ir, binary, variable, constant, cast, Stmt, assign, definition, no_op, function_call, Program,
  get_res_type,
}
use core_vm.Ir.Typing.{WellTyped, arithmetic_type, Casts}
use core_vm.Ir.Emit.{emit_print, emit_stmt, emit_program}
use core_vm.Ir.Code.{
  op_bytes, code_of, Appends, Appends-bind, write-Appends, write_two-Appends, emit_indexed-Appends,
  store_by_type_lem, emit-code_of,
}
use core_vm.Semantics.Supported.{Runnable, AllRunnable}

abbrev pub print_opcode : CvmType → OpCode
print_opcode int = print_i
print_opcode float = print_f
print_opcode double = print_d
print_opcode _ = print_l

abbrev pub code_of_stmt : Stmt → List ℕ
code_of_stmt (assign lhs rhs t) = code_of rhs ++ (op_bytes lhs.opcode ++ le_bytes 2 lhs.ix)
code_of_stmt (definition n ix t) = []
code_of_stmt no_op = []
code_of_stmt (function_call name [] t) = []
code_of_stmt (function_call name (arg ∷ args) t) =
    code_of arg ++ (op_bytes (print_opcode (get_res_type arg)) ++ le_bytes 2 1)

abbrev pub code_of_program : Program → List ℕ
code_of_program [] = op_bytes done
code_of_program (s ∷ p) = code_of_stmt s ++ code_of_program p

-- a type that values have
abbrev pub IsValueType : CvmType → Type 0
IsValueType void = ⊥
IsValueType _ = Unit

arithmetic_type-IsValueType :
    (op : OpCode) (t : CvmType) → arithmetic_type op ≡ some t → IsValueType t
arithmetic_type-IsValueType op t h = ground arith

Casts-IsValueType : (op : OpCode) (s t : CvmType) → Casts op s t → IsValueType s → IsValueType t
Casts-IsValueType OpCode.nop s t h is_value = subst IsValueType h is_value
Casts-IsValueType _ s t h is_value = ground arith

pub WellTyped-IsValueType : (n : ℕ) (e : Ir) → WellTyped n e → IsValueType (get_res_type e)
unfolding get_load_opcode_by_type
WellTyped-IsValueType n (binary op t lhs rhs) h = arithmetic_type-IsValueType op t h.2
WellTyped-IsValueType n (variable x ix op t) h = ground arith
WellTyped-IsValueType n (constant v op t) h = ground arith
WellTyped-IsValueType n (cast op t e) h =
    Casts-IsValueType op (get_res_type e) t h.1 (WellTyped-IsValueType n e h.0)

emit_print-Appends :
    (t : CvmType) (a : CvmAssembler)
    → IsValueType t
    → IsValid a
    → a.pos + length (op_bytes (print_opcode t) ++ le_bytes 2 1) < 2 ^ 30
    → Appends a (op_bytes (print_opcode t) ++ le_bytes 2 1) (emit_print t a >>= write_stream 2 1)
unfolding emit_print
emit_print-Appends int a is_value valid room =
    write_two-Appends 2 (code print_i) 2 1 a (omega arith) (omega arith) valid room
emit_print-Appends float a is_value valid room =
    write_two-Appends 2 (code print_f) 2 1 a (omega arith) (omega arith) valid room
emit_print-Appends double a is_value valid room =
    write_two-Appends 2 (code print_d) 2 1 a (omega arith) (omega arith) valid room
emit_print-Appends long a is_value valid room =
    write_two-Appends 2 (code print_l) 2 1 a (omega arith) (omega arith) valid room
emit_print-Appends void a is_value valid room = absurd is_value

module _ (n k : ℕ) (few : n ≤ 2 ^ 16) where
  emit_stmt-code_of :
      (s : Stmt) (a : CvmAssembler)
      → Runnable n k s
      → IsValid a
      → a.pos + length (code_of_stmt s) < 2 ^ 30
      → Appends a (code_of_stmt s) (emit_stmt s a)
  unfolding emit_stmt
  emit_stmt-code_of (assign lhs rhs t) a (typed, _, _, bound, _, stores) valid room =
      let sizes = length-append (code_of rhs) (op_bytes lhs.opcode ++ le_bytes 2 lhs.ix) in
      Appends-bind a _ _ _ _ (emit-code_of n rhs a few typed valid (omega arith))
        (λ b valid_b at.
          rw (store_by_type_lem lhs.res_type lhs.opcode stores)
            (emit_indexed-Appends lhs.opcode lhs.ix b (omega arith) valid_b (omega arith)))
        valid
  emit_stmt-code_of (definition x ix t) a h valid room = (a, refl, sym (append-nil a.code), valid)
  emit_stmt-code_of no_op a h valid room = (a, refl, sym (append-nil a.code), valid)
  emit_stmt-code_of (function_call name [] t) a h valid room = absurd h
  emit_stmt-code_of (function_call name (arg ∷ arg' ∷ args) t) a h valid room = absurd h
  emit_stmt-code_of (function_call name (arg ∷ []) t) a (is_print, typed, _, _) valid room =
      let sizes =
        length-append (code_of arg) (op_bytes (print_opcode (get_res_type arg)) ++ le_bytes 2 1) in
      rw is_print (
        Appends-bind a _ _ _ _ (emit-code_of n arg a few typed valid (omega arith))
          (λ b valid_b at.
            emit_print-Appends (get_res_type arg) b (WellTyped-IsValueType n arg typed) valid_b
              (omega arith))
          valid)

  -- Emit of a program of runnable statements over at most 2 ^ 16 variables, into a valid buffer
  -- that stays below 2 ^ 30 bytes, does not panic and fails no assertion: it appends the code of
  -- each statement in order, and the code that ends the program.
  pub emit_program-code_of :
      (p : Program) (a : CvmAssembler)
      → AllRunnable n k p
      → IsValid a
      → a.pos + length (code_of_program p) < 2 ^ 30
      → Appends a (code_of_program p) (emit_program p a)
  unfolding emit_program
  emit_program-code_of [] a h valid room =
      write-Appends 2 (code done) a (omega arith) valid
        (omega (arith, length-le_bytes 2 (code done)))
  emit_program-code_of (s ∷ p) a (h, hs) valid room =
      let sizes = length-append (code_of_stmt s) (code_of_program p) in
      Appends-bind a _ _ _ _ (emit_stmt-code_of s a h valid (omega arith))
        (λ b valid_b at. emit_program-code_of p b hs valid_b (omega arith)) valid
