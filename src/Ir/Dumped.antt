-- ===== src/Ir/Dumped.antt =====
-- What the `Dump` members of src/ir.cpp have a text for, among the trees that the parser makes.
use core_vm.Base.{ℕ, ◌≡◌, Bool, true, false, ◌&&◌, [], ◌∷◌, ◌++◌, some, arith}
use core_vm.Base.Outcome.{Outcome, ok, panicked, ◌>>=◌}
use core_vm.OpCode.{OpCode}
use core_vm.Types.{Name, CvmType}
use core_vm.Util.{get_load_opcode_by_type}
use core_vm.Adt.{Adt}
use core_vm.Ir.{Ir, binary, variable, constant, cast}
use core_vm.Ir.Typing.{WellTyped, arithmetic_type, constant_type, Casts}
use core_vm.Ir.Dump.{Text, dump_binary_op, dump_variable, dump_constant, dump_cast_op, dump}

-- the operations of the parser that have a name
abbrev pub is_named : OpCode → Bool
is_named OpCode.f_sub = false
is_named OpCode.f_mul = false
is_named OpCode.f_div = false
is_named OpCode.nop = false
is_named _ = true

-- whether every operation of the expression has a name
abbrev pub is_all_named : Ir → Bool
is_all_named (binary op t lhs rhs) = is_all_named rhs && (is_all_named lhs && is_named op)
is_all_named (variable n ix op t) = true
is_all_named (constant v op t) = true
is_all_named (cast op t e) = is_all_named e && is_named op

-- A text where the test holds, and a panic where it does not.
abbrev pub Writes : Bool → Outcome Text → Type 0
Writes true (ok _) = Unit
Writes false (panicked _) = Unit
Writes _ _ = ⊥

pub Writes-bind :
    (b c : Bool) (r : Outcome Text) (k : Text → Outcome Text)
    → Writes b r
    → ((os : Text) → Writes c (k os))
    → Writes (b && c) (r >>= k)
Writes-bind true c (ok os) k h h' = h' os
Writes-bind false c (panicked _) k h h' = tt
Writes-bind true c (panicked _) k h h' = absurd h
Writes-bind true c _ k h h' = absurd h
Writes-bind false c _ k h h' = absurd h

pub Writes-end :
    (b : Bool) (r : Outcome Text) (f : Text → Text)
    → Writes b r
    → Writes b (r >>= λ name. ok (f name))
Writes-end true (ok os) f h = tt
Writes-end false (panicked _) f h = tt
Writes-end true (panicked _) f h = h
Writes-end true _ f h = absurd h
Writes-end false _ f h = absurd h

dump_binary_op-Writes :
    (op : OpCode) (t : CvmType)
    → arithmetic_type op ≡ some t
    → Writes (is_named op) (dump_binary_op op)
unfolding dump_binary_op
dump_binary_op-Writes op t h = ground arith

dump_variable-Writes :
    (name : Name) (ix : ℕ) (op : OpCode) (t : CvmType) (os : Text)
    → get_load_opcode_by_type t ≡ ok op
    → Writes true (dump_variable name ix op os)
unfolding dump_variable get_load_opcode_by_type
dump_variable-Writes name ix op t os h = ground arith

dump_cast_op-Writes :
    (op : OpCode) (s t : CvmType) → Casts op s t → Writes (is_named op) (dump_cast_op op)
unfolding dump_cast_op
dump_cast_op-Writes op s t h = ground arith

module _ (show_float show_double : ℕ → Text) where
  dump_constant-Writes :
      (v : Adt) (op : OpCode) (t : CvmType) (os : Text)
      → constant_type op ≡ some t
      → Writes true (dump_constant show_float show_double v op os)
  unfolding dump_constant
  dump_constant-Writes v op t os h = ground arith

  -- Dump of a well-typed expression gives a text where all its operations have a name, and panics
  -- otherwise: on the subtraction, multiplication and division of floats, and on a conversion to
  -- the same type.
  pub dump-Writes :
      (n : ℕ) (e : Ir) (os : Text)
      → WellTyped n e
      → Writes (is_all_named e) (dump show_float show_double e os)
  unfolding dump
  dump-Writes n (binary op t lhs rhs) os (typed_l, typed_r, fits, _, _) =
      Writes-bind (is_all_named rhs) _ (dump show_float show_double rhs os) _
        (dump-Writes n rhs os typed_r)
        (λ os'.
          Writes-bind (is_all_named lhs) _ (dump show_float show_double lhs (os' ++ 10 ∷ [])) _
            (dump-Writes n lhs (os' ++ 10 ∷ []) typed_l)
            (λ os''.
              Writes-end (is_named op) (dump_binary_op op) _ (dump_binary_op-Writes op t fits)))
  dump-Writes n (variable x ix op t) os (_, loads) = dump_variable-Writes x ix op t os loads
  dump-Writes n (constant v op t) os typed = dump_constant-Writes v op t os typed
  dump-Writes n (cast op t e) os (typed, casts) =
      Writes-bind (is_all_named e) _ (dump show_float show_double e os) _ (dump-Writes n e os typed)
        (λ os'. Writes-end (is_named op) (dump_cast_op op) _ (dump_cast_op-Writes op _ t casts))
