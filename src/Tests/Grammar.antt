-- ===== src/Tests/Grammar.antt =====
-- The theorems on the grammar of src/parser.cpp, at concrete inputs.
use core_vm.Base.{ℕ, suc, ◌≡◌, refl, List, [], ◌∷◌, length, arith, le_bytes}
use core_vm.Base.Outcome.{ok, panicked, ◌>>=◌, require_rparentheses}
use core_vm.Types.{codes, int, double, name_eq, find_type, get_name}
use core_vm.Util.{get_store_opcode_by_type, get_load_opcode_by_type}
use core_vm.Adt.{SymbolType, int_adt}
use core_vm.Ir.{make_binary, binary_opcode}
use core_vm.Ir.Dump.{Text}
use core_vm.Interpreter.{allocate}
use core_vm.Semantics.{eval_program}
use core_vm.Parser.{find, add_symbol, whole_expression, build}
use core_vm.Parser.Grammar.{
  Sum, only, add, Product, one, multiply, literal, name, convert, group, times, plus, minus,
  sum_tokens, sum_tree, IsSum, literal_tree, name_tree, primary_tokens, primary_tree, open_token,
  close_token, IsPrimary,
}
use core_vm.Parser.Expressions.{whole_expression_lem, whole_expression_closed}
use core_vm.Parser.Sentences.{
  Sentence, initialise, call, empty, semicolon_token, sentence_tree, program_tree, program_tokens,
  AllSentences,
}
use core_vm.Parser.Reads.{build-program_tree}
use core_vm.Lexer.Lexemes.{
  Lexeme, word, number, sign, eq, minus, lparentheses, rparentheses, semicolon, tokens_of,
  write_spaced, AllLexemes,
}
use core_vm.Compiler.{run_file}
use core_vm.Correct.Program.{EndsAs}
use core_vm.Correct.Written.{written-EndsAs}
use core_vm.Tests.{test_fpu, name_x, tree, table_x, tree-AllExecutable}

abbrev literal_of : ℕ → Product
literal_of n = one (literal (int_adt n SymbolType.int))

-- `7 - 2`
abbrev seven_minus_two : Sum
seven_minus_two = add (only (literal_of 7)) minus (literal_of 2)

seven_minus_two-IsSum : IsSum seven_minus_two
unfolding IsPrimary int_adt
seven_minus_two-IsSum = (refl, refl)

-- `(double) x * (7 - 2; + 3`
abbrev mixed : Sum
mixed =
    add
      (only (
        multiply (one (convert double (name name_x))) times
          (group seven_minus_two semicolon_token)))
      plus (literal_of 3)

mixed-IsSum : IsSum mixed
unfolding IsPrimary int_adt
mixed-IsSum = ((tt, ((refl, refl), (refl, refl), refl)), refl)

whole_expression_lem_example :
    whole_expression table_x (sum_tokens mixed (semicolon_token ∷ []))
    ≡ sum_tree table_x mixed >>= λ ir. ok (ir, semicolon_token ∷ [])
unfolding int_adt
whole_expression_lem_example =
    whole_expression_lem table_x mixed (semicolon_token ∷ []) mixed-IsSum refl refl

whole_expression_closed_example :
    whole_expression table_x (open_token ∷ sum_tokens seven_minus_two (close_token ∷ []))
    ≡ sum_tree table_x seven_minus_two >>= λ ir. panicked require_rparentheses
whole_expression_closed_example =
    whole_expression_closed table_x seven_minus_two [] seven_minus_two-IsSum (λ n e. cc)

-- `int x = 7 - 2; print(x);`
abbrev statements : List Sentence
statements = empty ∷ call (codes "print") (only (one (name name_x)) ∷ []) ∷ empty ∷ []

abbrev first_statement : Sentence
first_statement = initialise int name_x seven_minus_two

statements-AllSentences : AllSentences (first_statement ∷ statements)
unfolding IsPrimary
statements-AllSentences = (seven_minus_two-IsSum, (tt, ((tt, tt), (tt, tt))))

build-program_tree_example :
    build (program_tokens (first_statement ∷ statements))
    ≡ program_tree [] (first_statement ∷ statements)
build-program_tree_example = build-program_tree first_statement statements statements-AllSentences

abbrev lexemes : List Lexeme
lexemes =
    word (codes "int")
    ∷ word name_x
    ∷ sign eq
    ∷ number 7
    ∷ sign minus
    ∷ number 2
    ∷ sign semicolon
    ∷ word (codes "print")
    ∷ sign lparentheses
    ∷ word name_x
    ∷ sign rparentheses
    ∷ sign semicolon
    ∷ []

lexemes-AllLexemes : AllLexemes lexemes
lexemes-AllLexemes = (
  (refl, (refl, (refl, tt))),
  (
    (refl, tt),
    (
      tt,
      (
        omega arith,
        (
          tt,
          (
            omega arith,
            (tt, ((refl, (refl, (refl, (refl, (refl, tt))))), (tt, ((refl, tt), (tt, (tt, tt)))))),
          ),
        ),
      ),
    ),
  ),
)

same_tokens : tokens_of lexemes ≡ program_tokens (first_statement ∷ statements)
unfolding primary_tokens get_name
same_tokens = refl

meaning : program_tree [] (first_statement ∷ statements) ≡ ok (tree, table_x)
unfolding program_tree sentence_tree primary_tree literal_tree name_tree add_symbol find name_eq
    find_type get_store_opcode_by_type get_load_opcode_by_type make_binary binary_opcode int_adt
meaning = refl

written-EndsAs_example :
    (text : Text) × (write_spaced (λ n. []) (program_tokens (first_statement ∷ statements))
      ≡ ok text)
    × EndsAs
        (eval_program test_fpu (record { vars = allocate (λ n. n) 1; out = [] }) tree)
        (run_file test_fpu (λ n. []) (λ n. []) (λ n. n) (λ n. n) (suc (length text)) text)
unfolding le_bytes
written-EndsAs_example =
    written-EndsAs test_fpu (λ n. []) (λ n. []) first_statement statements lexemes tree table_x
      (λ n. n) (λ n. n) statements-AllSentences lexemes-AllLexemes same_tokens meaning (omega arith)
      (omega arith) tree-AllExecutable (omega arith)
