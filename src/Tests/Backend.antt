-- ===== src/Tests/Backend.antt =====
-- The theorems on src/ir.cpp, src/include/assembler.h, src/compiler.cpp and src/bytecodeinterpreter.cpp, at concrete
-- inputs.
use core_vm.Base.{ℕ, ◌*◌, ◌<◌, ◌≤◌, ◌≡◌, ◌≢◌, refl, ◌^◌, List, [], ◌∷◌, ◌++◌, ◌⊎◌, arith, le_bytes}
use core_vm.Base.Outcome.{ok, out_of_fuel}
use core_vm.Assembler.{CvmAssembler, write_stream, round_up}
use core_vm.Assembler.Bounds.{IsValid, write_stream_lem}
use core_vm.Assembler.RoundUp.{round_up_lem}
use core_vm.Util.{get_load_opcode_by_type, get_store_opcode_by_type}
use core_vm.Types.{name_eq, int}
use core_vm.Ir.{assign}
use core_vm.Ir.Emit.{emit, emit_program}
use core_vm.Ir.Typing.{WellTyped}
use core_vm.Ir.Code.{code_of, Appends, emit-code_of}
use core_vm.Ir.ProgramCode.{code_of_program, code_of_stmt, emit_program-code_of}
use core_vm.Interpreter.{Machine, allocate, run, w4, int}
use core_vm.Interpreter.Run.{run-ne-out_of_fuel}
use core_vm.Semantics.{eval, eval_stmt, eval_program}
use core_vm.Semantics.Supported.{AllRunnable}
use core_vm.Compiler.{Compiled, compile, run_file, emit_code, interpret}
use core_vm.Correct.Expression.{Computes, eval-Computes}
use core_vm.Correct.Statement.{Represents, Performs, eval_stmt-Performs}
use core_vm.Correct.Program.{EndsAs, interpret-emit_code}
use core_vm.Correct.Source.{run_file-EndsAs}
use core_vm.Tests.{
  test_fpu, source, source_tokens, difference, tree, table_x, store_x, lexed, built,
  tree-AllExecutable,
}

run_file-EndsAs_example :
    (c : Compiled) × (compile test_fpu (λ n. []) (λ n. []) 20 source ≡ ok c)
    × (c.sym_size ≡ 1)
    × EndsAs
        (eval_program test_fpu (record { vars = allocate (λ n. n) 1; out = [] }) tree)
        (run_file test_fpu (λ n. []) (λ n. []) (λ n. n) (λ n. n) 20 source)
unfolding le_bytes
run_file-EndsAs_example =
    run_file-EndsAs test_fpu (λ n. []) (λ n. []) 20 source source_tokens tree table_x (λ n. n)
      (λ n. n) lexed built (omega arith) (omega arith) tree-AllExecutable (omega arith)

difference-WellTyped : WellTyped 1 difference
difference-WellTyped = (refl, refl, refl, refl, refl)

tree-AllRunnable : AllRunnable 1 128 tree
unfolding name_eq get_load_opcode_by_type get_store_opcode_by_type
tree-AllRunnable = (
  (difference-WellTyped, (tt, tt, tt), omega arith, omega arith, refl, refl),
  (tt, ((refl, (omega arith, refl), tt, omega arith), (tt, tt))),
)

interpret-emit_code_example :
    (code : List ℕ) × (emit_code tree ≡ ok code)
    × EndsAs
        (eval_program test_fpu (record { vars = allocate (λ n. n) 1; out = [] }) tree)
        (interpret test_fpu (λ n. n) (λ n. n) code 1)
unfolding le_bytes
interpret-emit_code_example =
    interpret-emit_code test_fpu 1 tree (λ n. n) (λ n. n) (omega arith) (omega arith)
      tree-AllRunnable (omega arith)

abbrev machine : Machine
machine = record {
  code_buf = code_of_program tree;
  stack = allocate (λ n. n) 128;
  local_var_table = 0 ∷ [];
  pc = 0;
  top = 0;
  out = [];
}

abbrev expression_machine : Machine
expression_machine = record machine { code_buf = code_of difference ++ [] }

abbrev statement_machine : Machine
statement_machine = record machine { code_buf = code_of_stmt (assign store_x difference int) ++ [] }

eval-Computes_example :
    Computes test_fpu expression_machine expression_machine 0 [] w4
      (eval test_fpu (0 ∷ []) difference)
unfolding allocate
eval-Computes_example =
    eval-Computes test_fpu 1 difference expression_machine [] (omega arith) (omega arith)
      difference-WellTyped (tt, tt, tt) (omega arith) refl

machine-Represents : Represents statement_machine (record { vars = 0 ∷ []; out = [] }) 128
unfolding allocate
machine-Represents = record {
  same_vars = refl;
  same_out = refl;
  empty_stack = refl;
  stack_size = refl;
}

eval_stmt-Performs_example :
    Performs test_fpu statement_machine [] 128
      (eval_stmt test_fpu (record { vars = 0 ∷ []; out = [] }) (assign store_x difference int))
unfolding name_eq get_load_opcode_by_type get_store_opcode_by_type
eval_stmt-Performs_example =
    eval_stmt-Performs test_fpu 1 128 (assign store_x difference int)
      (record { vars = 0 ∷ []; out = [] }) statement_machine [] (omega arith) (omega arith)
      (difference-WellTyped, (tt, tt, tt), omega arith, omega arith, refl, refl) machine-Represents
      refl

run-ne-out_of_fuel_example : run test_fpu 29 machine ≢ out_of_fuel
unfolding le_bytes
run-ne-out_of_fuel_example = run-ne-out_of_fuel test_fpu 28 machine (omega arith)

abbrev small : CvmAssembler
small = record { code = 1 ∷ 2 ∷ []; pos = 2; capacity = 16 }

small-IsValid : IsValid small
small-IsValid = record { written = refl; inside = omega arith; roomy = omega arith }

emit-code_of_example : Appends small (code_of difference) (emit difference small)
unfolding le_bytes
emit-code_of_example =
    emit-code_of 1 difference small (omega arith) difference-WellTyped small-IsValid (omega arith)

emit_program-code_of_example : Appends small (code_of_program tree) (emit_program tree small)
unfolding le_bytes
emit_program-code_of_example =
    emit_program-code_of 1 128 (omega arith) tree small tree-AllRunnable small-IsValid (omega arith)

write_stream_lem_example :
    (b : CvmAssembler) × (write_stream 8 5 small ≡ ok b)
    × (b.code ≡ small.code ++ le_bytes 8 5)
    × IsValid b
    × (b.capacity ≤ small.capacity * 2)
write_stream_lem_example = write_stream_lem 8 5 small small-IsValid (omega arith) (omega arith)

round_up_lem_example :
    (j : ℕ) × (round_up 1000 ≡ ok (2 ^ j)) × (1000 ≤ 2 ^ j) × ((2 ^ j < 2 * 1000) ⊎ (j ≡ 0))
round_up_lem_example = round_up_lem 1000 (omega arith) (omega arith)
