-- ===== src/Correct/Source.antt =====
-- From the bytes of a source file to what its program prints: `Compile` of src/compiler.cpp and the
-- interpreter behind it, for the programs whose operations all of its parts implement.
use core_vm.Base.{ℕ, ◌+◌, ◌<◌, ◌≤◌, ◌≡◌, refl, sym, ◌^◌, true, List, [], ◌∷◌, ◌++◌, arith, length}
use core_vm.Base.Outcome.{Outcome, ok, panicked}
use core_vm.Types.{codes, name_eq, CvmType}
use core_vm.Adt.{Adt}
use core_vm.Util.{get_store_opcode_by_type}
use core_vm.Ir.{Ir, Stmt, StoreIr, assign, definition, no_op, function_call, Program, get_res_type}
use core_vm.Ir.Dump.{Text, dump, dump_stmt, dump_all, dump_program, dump_print, dump_store_op}
use core_vm.Ir.Dumped.{is_all_named, Writes, Writes-bind, Writes-end, dump-Writes}
use core_vm.Ir.ProgramCode.{code_of_program, IsValueType, WellTyped-IsValueType}
use core_vm.Fpu.{Fpu}
use core_vm.Semantics.{eval_program}
use core_vm.Semantics.Supported.{Supported, depth, Runnable, AllRunnable}
use core_vm.Interpreter.{allocate}
use core_vm.Lexer.{lex}
use core_vm.Parser.{SymbolTable, build}
use core_vm.Parser.Statements.{StmtTyped, AllStmtTyped}
use core_vm.Parser.Programs.{build-Programming}
use core_vm.Compiler.{Compiled, compile, run_file}
use core_vm.Correct.Program.{EndsAs, interpret-emit_code}

-- An expression that Dump has the names for, that Run implements, and that fits into the stack.
abbrev Usable : ℕ → Ir → Type 0
Usable k e = Supported e × (is_all_named e ≡ true) × (depth e < k + 1)

-- The stores of a statement go to one of `n` cells, its expressions are usable on `k` cells of stack,
-- and its calls are those of `print` on one argument.
abbrev pub Executable : ℕ → ℕ → Stmt → Type 0
Executable n k (assign lhs rhs t) = Usable k rhs × (lhs.ix < n)
Executable n k (definition x ix t) = Unit
Executable n k no_op = Unit
Executable n k (function_call name (arg ∷ []) t) =
    (name_eq name (codes "print") ≡ true) × Usable k arg
Executable n k (function_call name args t) = ⊥

abbrev pub AllExecutable : ℕ → ℕ → Program → Type 0
AllExecutable n k [] = Unit
AllExecutable n k (s ∷ p) = Executable n k s × AllExecutable n k p

Executable-Runnable : (n k : ℕ) (s : Stmt) → StmtTyped n s → Executable n k s → Runnable n k s
Executable-Runnable n k (assign lhs rhs t) (typed, same, stores, _) ((sup, _, room), known) =
    (typed, sup, room, known, same, stores)
Executable-Runnable n k (definition x ix t) typed h = tt
Executable-Runnable n k no_op typed h = tt
Executable-Runnable n k (function_call name [] t) typed h = h
Executable-Runnable n k (function_call name (arg ∷ []) t) (typed, _) (is_print, (sup, _, room)) =
    (is_print, typed, sup, room)
Executable-Runnable n k (function_call name (arg ∷ arg' ∷ args) t) typed h = h

AllExecutable-AllRunnable :
    (n k : ℕ) (p : Program) → AllStmtTyped n p → AllExecutable n k p → AllRunnable n k p
AllExecutable-AllRunnable n k [] typed h = tt
AllExecutable-AllRunnable n k (s ∷ p) (typed, typed') (h, h') =
    (Executable-Runnable n k s typed h, AllExecutable-AllRunnable n k p typed' h')

dump_store_op-Writes :
    (lhs : StoreIr) (os : Text)
    → get_store_opcode_by_type lhs.res_type ≡ ok lhs.opcode
    → Writes true (dump_store_op lhs.opcode lhs.name lhs.ix os)
unfolding dump_store_op get_store_opcode_by_type
dump_store_op-Writes lhs os h = ground arith

dump_print-Writes : (t : CvmType) → IsValueType t → Writes true (dump_print t)
unfolding dump_print
dump_print-Writes t h = ground arith

module _ (fpu : Fpu) (show_float show_double : ℕ → Text) where
  dump_stmt-Writes :
      (n k : ℕ) (s : Stmt) (os : Text)
      → StmtTyped n s
      → Executable n k s
      → Writes true (dump_stmt show_float show_double s os)
  unfolding dump_stmt
  dump_stmt-Writes n k (assign lhs rhs t) os (typed, _, stores, _) ((_, named, _), _) =
      Writes-bind true true (dump show_float show_double rhs os) _
        (rw (sym named) (dump-Writes show_float show_double n rhs os typed))
        (λ os'. dump_store_op-Writes lhs (os' ++ 10 ∷ []) stores)
  dump_stmt-Writes n k (definition x ix t) os typed h = tt
  dump_stmt-Writes n k no_op os typed h = tt
  dump_stmt-Writes n k (function_call name [] t) os typed h = absurd h
  dump_stmt-Writes n k (function_call name (arg ∷ arg' ∷ args) t) os typed h = absurd h
  dump_stmt-Writes n k (function_call name (arg ∷ []) t) os (typed, _) (is_print, (_, named, _)) =
      rw is_print (
        Writes-bind true true (dump show_float show_double arg os) _
          (rw (sym named) (dump-Writes show_float show_double n arg os typed))
          (λ os'.
            Writes-end true (dump_print (get_res_type arg)) _
              (dump_print-Writes (get_res_type arg) (WellTyped-IsValueType n arg typed))))

  dump_all-Writes :
      (n k : ℕ) (p : Program) (os : Text)
      → AllStmtTyped n p
      → AllExecutable n k p
      → Writes true (dump_all show_float show_double p os)
  unfolding dump_all
  dump_all-Writes n k [] os typed h = tt
  dump_all-Writes n k (s ∷ p) os (typed, typed') (h, h') =
      Writes-bind true true (dump_stmt show_float show_double s os) _
        (dump_stmt-Writes n k s os typed h)
        (λ os'. dump_all-Writes n k p (os' ++ 10 ∷ []) typed' h')

  dump_program-ok :
      (n k : ℕ) (p : Program)
      → AllStmtTyped n p
      → AllExecutable n k p
      → (os : Text) × (dump_program show_float show_double p ≡ ok os)
  unfolding dump_program
  dump_program-ok n k p typed h = written _ (dump_all-Writes n k p _ typed h)
    where
      written : (r : Outcome Text) → Writes true r → (os : Text) × (r ≡ ok os)
      written (ok os) h' = (os, refl)
      written (panicked _) h' = absurd h'
      written _ h' = absurd h'

  -- A source file whose bytes the lexer makes tokens of, and whose tokens the parser makes a
  -- program of, over at least one and at most 2 ^ 16 variables, which is executable on the 128
  -- cells of the operand stack and whose code is shorter than 2 ^ 30 bytes: Compile returns, with
  -- the size of the table of symbols, and `main` ends as the evaluator does on the program,
  -- whatever the memory that the interpreter allocates held.
  pub run_file-EndsAs :
      (f : ℕ) (bytes : List ℕ) (tokens : List Adt) (p : Program) (table : SymbolTable)
      (junk junk' : ℕ → ℕ)
      → lex fpu f bytes ≡ ok tokens
      → build tokens ≡ ok (p, table)
      → 0 < length table
      → length table ≤ 2 ^ 16
      → AllExecutable (length table) 128 p
      → length (code_of_program p) < 2 ^ 30
      → (c : Compiled) × (compile fpu show_float show_double f bytes ≡ ok c)
        × (c.sym_size ≡ length table)
        × EndsAs
            (eval_program fpu (record { vars = allocate junk' (length table); out = [] }) p)
            (run_file fpu show_float show_double junk junk' f bytes)
  unfolding compile run_file
  run_file-EndsAs f bytes tokens p table junk junk' lexed built some_vars few exec short =
      let (typed, _, _) = rw built at (build-Programming tokens) in
      let (os, dumped) = dump_program-ok (length table) 128 p typed exec in
      let (code, emitted, ends) =
        interpret-emit_code fpu (length table) p junk junk' some_vars few
          (AllExecutable-AllRunnable (length table) 128 p typed exec) short in
      let c : Compiled = record { bytecode = os; code = code; sym_size = length table } in
      (c, rw (lexed, built, dumped, emitted), refl, rw (lexed, built, dumped, emitted) ends)
