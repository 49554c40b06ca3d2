-- ===== src/Correct/Instructions.antt =====
-- Which instruction of src/bytecodeinterpreter.cpp each node of src/ir.cpp is compiled to.
use core_vm.Base.{
  ℕ, ◌/◌, ◌^◌, ◌<◌, ◌≡◌, refl, ◌∙◌, true, List, ◌++◌, none, some, arith, ◌⊎◌, inl, inr, Bool-cases,
  le_bytes,
}
use core_vm.Base.Outcome.{Outcome, ok, trapped, ◌>>=◌}
use core_vm.OpCode.{OpCode, code}
use core_vm.Types.{CvmType, int}
use core_vm.Util.{get_load_opcode_by_type}
use core_vm.Adt.{Adt, get_int_adt, get_float_adt, get_long_adt, get_double_adt}
use core_vm.Ir.Typing.{arithmetic_type, constant_type, Casts}
use core_vm.Ir.Code.{op_bytes, literal_bytes}
use core_vm.Fpu.{Fpu}
use core_vm.Word.{div32, has_no_quotient, signed_bits, differ, is_negative, magnitude}
use core_vm.Interpreter.{Machine, binary_op, cast_op, const_op, load_op, instruction, exec}
use core_vm.Semantics.{width, literal, arithmetic, convert}
use core_vm.Semantics.Supported.{Implemented}
use core_vm.Correct.Fetch.{Ahead, pc-lt_of_Ahead, turn-exec, Steps, here, next}

module _ (fpu : Fpu) where
  instruction-done : instruction fpu OpCode.done ≡ none
  unfolding instruction
  instruction-done = refl

  pub exec-instruction :
      (n : ℕ) (op : OpCode) (m : Machine) (f : Machine → Outcome Machine)
      → instruction fpu op ≡ some f
      → exec fpu n op m ≡ (f m >>= λ m'. ok (m', true))
  unfolding exec
  exec-instruction n OpCode.done m f h = cc instruction-done
  exec-instruction n _ m f h = rw h

  -- An instruction that is ahead and succeeds is one round of the loop.
  pub Steps-instruction :
      (m m' : Machine) (op : OpCode) (rest : List ℕ) (f : Machine → Outcome Machine)
      → Ahead m (op_bytes op ++ rest)
      → instruction fpu op ≡ some f
      → f m ≡ ok m'
      → Steps fpu m m'
  Steps-instruction m m' op rest f ahead is_f runs =
      next (pc-lt_of_Ahead m op rest ahead)
        (turn-exec fpu m op rest ahead ∙ exec-instruction (code op) op m f is_f ∙ rw runs) here

  pub instruction-arithmetic :
      (op : OpCode) (t : CvmType)
      → arithmetic_type op ≡ some t
      → Implemented op
      → instruction fpu op ≡ some (binary_op (width t) (arithmetic fpu op))
  unfolding instruction
  instruction-arithmetic OpCode.i_add t typed there = cc
  instruction-arithmetic OpCode.f_mul t typed there = absurd there
  instruction-arithmetic OpCode.l_add t typed there = absurd there
  instruction-arithmetic OpCode.l_sub t typed there = absurd there
  instruction-arithmetic OpCode.l_mul t typed there = absurd there
  instruction-arithmetic OpCode.l_div t typed there = absurd there
  instruction-arithmetic _ t typed there = cc

  pub instruction-convert :
      (op : OpCode) (s t : CvmType)
      → Casts op s t
      → Implemented op
      → instruction fpu op ≡ some (cast_op (width s) (width t) (convert fpu op))
  unfolding instruction
  instruction-convert OpCode.nop s t typed there = absurd there
  instruction-convert _ s t typed there = cc

  pub instruction-constant :
      (op : OpCode) (t : CvmType) (v : Adt)
      → constant_type op ≡ some t
      → (n : ℕ) × (instruction fpu op ≡ some (const_op n (width t)))
        × (literal_bytes op v ≡ le_bytes n (literal op v))
        × (literal op v < 256 ^ n)
  unfolding instruction get_int_adt get_float_adt get_long_adt get_double_adt
  instruction-constant OpCode.i_const t v typed = (4, cc, refl, omega arith)
  instruction-constant OpCode.f_const t v typed = (4, cc, refl, omega arith)
  instruction-constant OpCode.l_const t v typed = (8, cc, refl, omega arith)
  instruction-constant OpCode.d_const t v typed = (8, cc, refl, omega arith)
  instruction-constant _ t v typed = cc

  pub instruction-load :
      (op : OpCode) (t : CvmType)
      → get_load_opcode_by_type t ≡ ok op
      → instruction fpu op ≡ some (load_op (width t))
  unfolding instruction get_load_opcode_by_type
  instruction-load op int h = cc
  instruction-load op _ h = cc

  pub arithmetic_result :
      (op : OpCode) (t : CvmType) (a b : ℕ)
      → arithmetic_type op ≡ some t
      → Implemented op
      → ((v : ℕ) × (arithmetic fpu op a b ≡ ok v)) ⊎ (arithmetic fpu op a b ≡ trapped)
  unfolding div32
  arithmetic_result OpCode.i_div t a b typed there = elim (Bool-cases (has_no_quotient a b)) [
    | inl e ↦ inr (rw e)
    | inr e ↦
        inl (signed_bits (differ (is_negative a) (is_negative b)) (magnitude a / magnitude b), rw e)
  ]
  arithmetic_result OpCode.i_add t a b typed there = inl (_, refl)
  arithmetic_result OpCode.i_sub t a b typed there = inl (_, refl)
  arithmetic_result OpCode.i_mul t a b typed there = inl (_, refl)
  arithmetic_result OpCode.d_add t a b typed there = inl (_, refl)
  arithmetic_result OpCode.d_sub t a b typed there = inl (_, refl)
  arithmetic_result OpCode.d_mul t a b typed there = inl (_, refl)
  arithmetic_result OpCode.d_div t a b typed there = inl (_, refl)
  arithmetic_result OpCode.f_add t a b typed there = inl (_, refl)
  arithmetic_result OpCode.f_sub t a b typed there = inl (_, refl)
  arithmetic_result OpCode.f_mul t a b typed there = inl (_, refl)
  arithmetic_result OpCode.f_div t a b typed there = inl (_, refl)
  arithmetic_result OpCode.l_add t a b typed there = absurd there
  arithmetic_result OpCode.l_sub t a b typed there = absurd there
  arithmetic_result OpCode.l_mul t a b typed there = absurd there
  arithmetic_result OpCode.l_div t a b typed there = absurd there
  arithmetic_result _ t a b typed there = cc
