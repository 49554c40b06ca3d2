-- ===== src/Tests/Text.antt =====
-- The theorems on main.cpp and on the texts of src/lexer.cpp, at concrete inputs.
use core_vm.Base.{
  ℕ, suc, ◌≡◌, true, false, List, [], ◌∷◌, ◌++◌, Option, some, length, arith, if◌then◌else◌, ◌==◌,
  refl, ◌&&◌, ◌||◌,
}
use core_vm.Base.Outcome.{ok, panicked, ◌>>=◌, please_specify_a_cvm_file, invalid_symbol_type}
use core_vm.Types.{Name, codes, name_eq}
use core_vm.Ir.Dump.{Text}
use core_vm.Main.{new_config, initial_config, first, main}
use core_vm.Main.Options.{has, last_source, described, new_config_lem}
use core_vm.Main.Runs.{left_of, run_named, main-run_file}
use core_vm.Lexer.{lex}
use core_vm.Lexer.Serialize.{serialize_lexer}
use core_vm.Lexer.Serialized.{all_shown, lines, serialize_lexer_lem}
use core_vm.Lexer.Lexemes.{
  Lexeme, word, number, sign, eq, plus, lparentheses, rparentheses, semicolon, tokens_of,
  write_spaced,
}
use core_vm.Lexer.RoundTrip.{lex-write_spaced}
use core_vm.Tests.{test_fpu, source, source_tokens, name_eq}

abbrev arguments_given : List Name
arguments_given = codes "prog.cvm" ∷ codes "-d" ∷ []

new_config_lem_example : new_config false arguments_given ≡ (
    if length (last_source [] arguments_given) == 0
    then panicked please_specify_a_cvm_file
    else ok (some (described (initial_config false) arguments_given)))
unfolding name_eq
new_config_lem_example = new_config_lem false arguments_given (refl, refl, (refl, refl, tt))

-- what the only file holds
abbrev files : Name → Option (List ℕ)
files name = some source

-- `-f` on a build for Arm64, with an interpreter that leaves the code as it is
abbrev assembler_arguments : List Name
assembler_arguments = codes "prog.cvm" ∷ codes "-f" ∷ []

main-run_file_example :
    (main test_fpu
        (λ n. [])
        (λ n. [])
        files
        true
        (List ℕ)
        (λ code s n. ok code)
        false
        (λ i. 0)
        (λ i. 0)
        20
        assembler_arguments
      >>= λ o. ok (left_of o))
    ≡ (if length (last_source [] assembler_arguments) == 0
        then panicked please_specify_a_cvm_file
        else run_named test_fpu
            (λ n. [])
            (λ n. [])
            files
            true
            (List ℕ)
            (λ code s n. ok code)
            (λ i. 0)
            (λ i. 0)
            20
            (true && (false || has (codes "-f") assembler_arguments))
            (first assembler_arguments)
          >>= λ left. ok (some left))
unfolding name_eq
main-run_file_example =
    main-run_file test_fpu (λ n. []) (λ n. []) files true (List ℕ) (λ code s n. ok code) false
      (λ i. 0) (λ i. 0) 20 assembler_arguments (refl, refl, (refl, refl, tt))

serialize_lexer_lem_example : serialize_lexer (λ n. []) source_tokens [] ≡ (
    if all_shown source_tokens
    then ok (codes "Tokens:" ++ (10 ∷ lines (λ n. []) 1 source_tokens))
    else panicked invalid_symbol_type)
serialize_lexer_lem_example = serialize_lexer_lem (λ n. []) source_tokens []

-- `_x1 = ( 42 + y ) ;`
abbrev lexemes : List Lexeme
lexemes =
    word (codes "_x1")
    ∷ sign eq
    ∷ sign lparentheses
    ∷ number 42
    ∷ sign plus
    ∷ word (codes "y")
    ∷ sign rparentheses
    ∷ sign semicolon
    ∷ []

lex-write_spaced_example :
    (text : Text) × (write_spaced (λ n. []) (tokens_of lexemes) ≡ ok text)
    × (lex test_fpu (suc (length text)) text ≡ ok (tokens_of lexemes))
lex-write_spaced_example =
    lex-write_spaced test_fpu (λ n. []) lexemes
      ((refl, (refl, (refl, tt))), (tt, (tt, (omega arith, (tt, ((refl, tt), (tt, (tt, tt))))))))
