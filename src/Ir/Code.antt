-- ===== src/Ir/Code.antt =====
-- The bytes that the `Emit` members of src/ir.cpp write, as a function of the tree alone.
use core_vm.Base.{
  ℕ, ◌+◌, ◌%◌, ◌^◌, ◌<◌, ◌≤◌, ◌≡◌, List, ◌++◌, append_assoc, arith, length, length-append, le_bytes,
  length-le_bytes, ap, ◌∙◌, some,
}
use core_vm.Base.Outcome.{Outcome, ok, ◌>>=◌}
use core_vm.OpCode.{OpCode, code, i_const, f_const, d_const, l_const}
use core_vm.Types.{CvmType}
use core_vm.Adt.{Adt, get_int_adt, get_float_adt, get_long_adt, get_double_adt}
use core_vm.Util.{get_load_opcode_by_type, get_store_opcode_by_type}
use core_vm.Assembler.{CvmAssembler, write_stream}
use core_vm.Assembler.Bounds.{IsValid, write_stream_lem}
use core_vm.Ir.{Ir, binary, variable, constant, cast}
use core_vm.Ir.Typing.{WellTyped, constant_type}
use core_vm.Ir.Emit.{load_by_type, store_by_type, emit_constant, emit_indexed, emit}

abbrev pub op_bytes : OpCode → List ℕ
op_bytes op = le_bytes 2 (code op)

abbrev pub literal_bytes : OpCode → Adt → List ℕ
literal_bytes i_const v = le_bytes 4 (get_int_adt v)
literal_bytes f_const v = le_bytes 4 (get_float_adt v)
literal_bytes d_const v = le_bytes 8 (get_double_adt v)
literal_bytes _ v = le_bytes 8 (get_long_adt v)

-- operands first, the right one before the left one, then the operation
abbrev pub code_of : Ir → List ℕ
code_of (binary op t lhs rhs) = code_of rhs ++ (code_of lhs ++ op_bytes op)
code_of (variable n ix op t) = op_bytes op ++ le_bytes 2 ix
code_of (constant v op t) = op_bytes op ++ literal_bytes op v
code_of (cast op t e) = code_of e ++ op_bytes op

-- `r` appends `bytes` to the valid buffer `a`, and leaves a valid one.
abbrev pub Appends : CvmAssembler → List ℕ → Outcome CvmAssembler → Type 0
Appends a bytes r = (b : CvmAssembler) × (r ≡ ok b) × (b.code ≡ a.code ++ bytes) × IsValid b

pub write-Appends :
    (n v : ℕ) (a : CvmAssembler)
    → n ≤ 8
    → IsValid a
    → a.pos + n < 2 ^ 30
    → Appends a (le_bytes n v) (write_stream n v a)
write-Appends n v a small valid room =
    let (b, runs, grows, valid', _) = write_stream_lem n v a valid small room in
    (b, runs, grows, valid')

pub Appends-bind :
    (a : CvmAssembler) (xs ys : List ℕ) (r : Outcome CvmAssembler)
    (k : CvmAssembler → Outcome CvmAssembler)
    → Appends a xs r
    → ((b : CvmAssembler) → IsValid b → b.pos ≡ a.pos + length xs → Appends b ys (k b))
    → IsValid a
    → Appends a (xs ++ ys) (r >>= k)
Appends-bind a xs ys r k (b, runs, grows, valid) next valid_a =
    let (c, runs', grows', valid') =
      next b valid
        (omega (arith, valid.written, valid_a.written, ap length grows, length-append a.code xs)) in
    (c, rw runs runs', grows' ∙ rw grows (append_assoc a.code xs ys), valid')

-- two values, one behind the other
pub write_two-Appends :
    (n u m v : ℕ) (a : CvmAssembler)
    → n ≤ 8
    → m ≤ 8
    → IsValid a
    → a.pos + length (le_bytes n u ++ le_bytes m v) < 2 ^ 30
    → Appends a (le_bytes n u ++ le_bytes m v) (write_stream n u a >>= write_stream m v)
write_two-Appends n u m v a hn hm valid room =
    let both : length (le_bytes n u ++ le_bytes m v) ≡ n + m = omega (
      arith,
      length-append (le_bytes n u) (le_bytes m v),
      length-le_bytes n u,
      length-le_bytes m v,
    ) in
    Appends-bind a _ _ _ (write_stream m v) (write-Appends n u a hn valid (omega arith))
      (λ b valid_b at. write-Appends m v b hm valid_b (omega (arith, at, length-le_bytes n u)))
      valid

pub emit_indexed-Appends :
    (op : OpCode) (ix : ℕ) (a : CvmAssembler)
    → ix < 2 ^ 16
    → IsValid a
    → a.pos + length (op_bytes op ++ le_bytes 2 ix) < 2 ^ 30
    → Appends a (op_bytes op ++ le_bytes 2 ix) (emit_indexed op ix a)
unfolding emit_indexed
emit_indexed-Appends op ix a small valid room =
    let same : ix % 2 ^ 16 ≡ ix = omega arith in
    rw same (write_two-Appends 2 (code op) 2 ix a (omega arith) (omega arith) valid room)

emit_constant-Appends :
    (v : Adt) (op : OpCode) (t : CvmType) (a : CvmAssembler)
    → constant_type op ≡ some t
    → IsValid a
    → a.pos + length (op_bytes op ++ literal_bytes op v) < 2 ^ 30
    → Appends a (op_bytes op ++ literal_bytes op v) (emit_constant v op a)
unfolding emit_constant
emit_constant-Appends v i_const t a typed valid room =
    write_two-Appends 2 _ 4 _ a (omega arith) (omega arith) valid room
emit_constant-Appends v f_const t a typed valid room =
    write_two-Appends 2 _ 4 _ a (omega arith) (omega arith) valid room
emit_constant-Appends v d_const t a typed valid room =
    write_two-Appends 2 _ 8 _ a (omega arith) (omega arith) valid room
emit_constant-Appends v l_const t a typed valid room =
    write_two-Appends 2 _ 8 _ a (omega arith) (omega arith) valid room
emit_constant-Appends v _ t a typed valid room = cc

load_by_type_lem :
    (t : CvmType) (op : OpCode) → get_load_opcode_by_type t ≡ ok op → load_by_type t ≡ ok op
unfolding load_by_type get_load_opcode_by_type
load_by_type_lem t op h = ground arith

pub store_by_type_lem :
    (t : CvmType) (op : OpCode) → get_store_opcode_by_type t ≡ ok op → store_by_type t ≡ ok op
unfolding store_by_type get_store_opcode_by_type
store_by_type_lem t op h = ground arith

-- Emit of a well-typed expression over at most 2 ^ 16 variables, into a valid buffer that stays
-- below 2 ^ 30 bytes, does not panic and fails no assertion: it appends `code_of` the expression.
pub emit-code_of :
    (n : ℕ) (e : Ir) (a : CvmAssembler)
    → n ≤ 2 ^ 16
    → WellTyped n e
    → IsValid a
    → a.pos + length (code_of e) < 2 ^ 30
    → Appends a (code_of e) (emit e a)
unfolding emit
emit-code_of n (binary op t lhs rhs) a few (typed_l, typed_r, _, _, _) valid room =
    let sizes : length (code_of rhs ++ (code_of lhs ++ op_bytes op))
        ≡ length (code_of rhs) + (length (code_of lhs) + 2) =
      omega (
        arith,
        length-append (code_of rhs) (code_of lhs ++ op_bytes op),
        length-append (code_of lhs) (op_bytes op),
        length-le_bytes 2 (code op),
      ) in
    Appends-bind a _ _ _ _ (emit-code_of n rhs a few typed_r valid (omega arith))
      (λ b valid_b at_b.
        Appends-bind b _ _ _ _ (emit-code_of n lhs b few typed_l valid_b (omega arith))
          (λ c valid_c at_c. write-Appends 2 (code op) c (omega arith) valid_c (omega arith))
          valid_b)
      valid
emit-code_of n (variable x ix op t) a few (known, loads) valid room =
    rw (load_by_type_lem t op loads) (emit_indexed-Appends op ix a (omega arith) valid room)
emit-code_of n (constant v op t) a few typed valid room =
    emit_constant-Appends v op t a typed valid room
emit-code_of n (cast op t e) a few (typed, _) valid room =
    let sizes : length (code_of e ++ op_bytes op) ≡ length (code_of e) + 2 =
      omega (arith, length-append (code_of e) (op_bytes op), length-le_bytes 2 (code op)) in
    Appends-bind a _ _ _ _ (emit-code_of n e a few typed valid (omega arith))
      (λ b valid_b at. write-Appends 2 (code op) b (omega arith) valid_b (omega arith)) valid
