-- ===== src/Correct/Written.antt =====
-- From the statements of a program to what it prints: the text of their tokens goes through the lexer,
-- the parser, `Compile` and the interpreter.
use core_vm.Base.{ℕ, suc, ◌<◌, ◌≤◌, ◌≡◌, ◌∙◌, ◌^◌, List, [], ◌∷◌, length}
use core_vm.Base.Outcome.{ok}
use core_vm.Fpu.{Fpu}
use core_vm.Ir.{Program}
use core_vm.Ir.Dump.{Text}
use core_vm.Ir.ProgramCode.{code_of_program}
use core_vm.Interpreter.{allocate}
use core_vm.Semantics.{eval_program}
use core_vm.Parser.{SymbolTable}
use core_vm.Parser.Sentences.{Sentence, program_tokens, program_tree, AllSentences}
use core_vm.Parser.Reads.{build-program_tree}
use core_vm.Lexer.Lexemes.{Lexeme, AllLexemes, tokens_of, write_spaced}
use core_vm.Lexer.RoundTrip.{lex-write_spaced}
use core_vm.Compiler.{run_file}
use core_vm.Correct.Program.{EndsAs}
use core_vm.Correct.Source.{AllExecutable, run_file-EndsAs}

-- Statements whose tokens are words, numbers below 2 ^ 31 and signs, and which mean a tree over at
-- least one and at most 2 ^ 16 variables that is executable on the 128 cells of the operand stack
-- and has code shorter than 2 ^ 30 bytes: Serialize writes their tokens, and on the text of these,
-- with a space behind each, lexer, parser, Compile and interpreter end as the evaluator does on the
-- tree, in which operators associate to the left and `*` and `/` bind closer; whatever the memory
-- that the interpreter allocates held.
pub written-EndsAs :
    (fpu : Fpu) (show_float show_double : ℕ → Text) (s : Sentence) (p : List Sentence)
    (ls : List Lexeme) (tree : Program) (table : SymbolTable) (junk junk' : ℕ → ℕ)
    → AllSentences (s ∷ p)
    → AllLexemes ls
    → tokens_of ls ≡ program_tokens (s ∷ p)
    → program_tree [] (s ∷ p) ≡ ok (tree, table)
    → 0 < length table
    → length table ≤ 2 ^ 16
    → AllExecutable (length table) 128 tree
    → length (code_of_program tree) < 2 ^ 30
    → (text : Text) × (write_spaced show_double (program_tokens (s ∷ p)) ≡ ok text)
      × EndsAs
          (eval_program fpu (record { vars = allocate junk' (length table); out = [] }) tree)
          (run_file fpu show_float show_double junk junk' (suc (length text)) text)
written-EndsAs fpu show_float show_double s p ls tree table junk junk' hs hl same meaning some_vars
      few exec short =
    let (text, written, lexed) = rw same at (lex-write_spaced fpu show_double ls hl) in
    let (_, _, _, ends) =
      run_file-EndsAs fpu show_float show_double (suc (length text)) text (program_tokens (s ∷ p))
        tree table junk junk' lexed (build-program_tree s p hs ∙ meaning) some_vars few exec
        short in
    (text, written, ends)
