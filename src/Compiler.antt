-- ===== src/Compiler.antt =====
-- `Compiler::Compile` of src/compiler.cpp, and `main` in main.cpp behind it: the tree is emitted into an
-- assembler of 1 KB, and the code is run on a stack of 1 KB.
use core_vm.Base.{ℕ, suc, List, length}
use core_vm.Base.Outcome.{Outcome, ok, ◌>>=◌}
use core_vm.Assembler.{new_assembler}
use core_vm.Ir.{Program}
use core_vm.Ir.Emit.{emit_program}
use core_vm.Fpu.{Fpu}
use core_vm.Lexer.{lex}
use core_vm.Parser.{build}
use core_vm.Ir.Dump.{Text, dump_program}
use core_vm.Interpreter.{Machine, new_interpreter, run}

abbrev pub kb : ℕ
kb = 1024

-- the code of a tree
unfoldable pub emit_code : Program → Outcome (List ℕ)
emit_code ir = do a ← new_assembler kb; a ← emit_program ir a; ok a.code

-- The interpreter is made for the code and run; the blocks that it allocates hold arbitrary values.
-- The fuel is one round for each byte of code and one more.
unfoldable pub interpret : Fpu → (ℕ → ℕ) → (ℕ → ℕ) → List ℕ → ℕ → Outcome Machine
interpret fpu junk junk' code var_size = do
  m ← new_interpreter junk junk' code kb var_size
  run fpu (suc (length code)) m

-- what Compile leaves in the compiler
pub record Compiled : Type 0 where
  pub bytecode : Text
  pub code : List ℕ
  pub sym_size : ℕ

module _ (fpu : Fpu) (show_float show_double : ℕ → Text) where
  -- `Compile`, on the bytes of the file; the fuel is that of the lexer
  unfoldable pub compile : ℕ → List ℕ → Outcome Compiled
  compile fuel bytes = do
    tokens ← lex fpu fuel bytes
    (ir, table) ← build tokens
    os ← dump_program show_float show_double ir
    code ← emit_code ir
    ok (record { bytecode = os; code = code; sym_size = length table })

  -- `main`, without the dumps: the file is compiled and the code is interpreted
  unfoldable pub run_file : (ℕ → ℕ) → (ℕ → ℕ) → ℕ → List ℕ → Outcome Machine
  unfolding compile
  run_file junk junk' fuel bytes = do
    c ← compile fuel bytes
    interpret fpu junk junk' c.code c.sym_size
