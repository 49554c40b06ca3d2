-- ===== src/Tests.antt =====
-- A small program, as its bytes, its tokens, its tree and what it prints.
pub mod Frontend
pub mod Backend
pub mod Arm
pub mod Text
pub mod Grammar
pub mod Ownership
pub mod Memory
pub mod Snippets
pub mod Words
use core_vm.Base.{
  ℕ, zero, suc, ◌+◌, ◌<◌, ◌≤◌, ◌≡◌, ◌≢◌, refl, ◌^◌, Bool, true, false, List, [], ◌∷◌, ◌++◌, Option,
  none, some, arith, length, ◌%◌, ◌-◌, ◌*◌,
}
use core_vm.Base.Outcome.{Outcome, ok, panicked, trapped, out_of_fuel, Within, Settles}
use core_vm.OpCode
use core_vm.OpCode.{OpCode}
use core_vm.Types.{
  Name, codes, name_eq, CvmType, int, float, double, long, void, find_type, contain_type,
}
use core_vm.Util.{get_store_opcode_by_type, get_load_opcode_by_type}
use core_vm.Adt.{SymbolType, Adt, int_adt, wide_adt, string_adt, sign_extend}
use core_vm.Fpu.{Fpu}
use core_vm.Loader.{open_stream, has_next, next, back, skip, current_char}
use core_vm.Lexer.{
  atol, atoi, digits_loop, word_loop, string_loop, number_token, lex_number, lex_word, lex_string,
  lex_symbol, lex_char, do_parse, lex,
}
use core_vm.Ir.{
  Ir, binary, variable, constant, cast, StoreIr, Stmt, assign, definition, no_op, function_call,
  Program, binary_opcode, make_binary,
}
use core_vm.Adt.{get_int_adt, get_char_ptr_adt}
use core_vm.Word.{sub32}
use core_vm.Interpreter.{Output, allocate, Machine}
use core_vm.Semantics.{State, eval, eval_stmt, eval_program}
use core_vm.Parser.{
  SymbolTable, find, add_symbol, get_cast_code, cast_type, close, parenthesised, load_variable,
  primary_token, primary, term, term_loop, expression, expression_loop, whole_expression,
  extract_assign_ir, declaration, skip_comma, call_args, end_call, assignment, use_of, declared,
  statement_token, statement, program_loop, build,
}
use core_vm.Compiler.{Compiled, compile, run_file, emit_code, interpret}
use core_vm.Correct.Source.{AllExecutable, run_file-EndsAs}
use core_vm.Correct.Program.{EndsAs, interpret-emit_code}

-- an arithmetic to run the examples with
abbrev pub test_fpu : Fpu
test_fpu = record {
  d_add = λ a b. (a + b) % 2 ^ 64;
  d_sub = λ a b. (a + 2 ^ 64 - b) % 2 ^ 64;
  d_mul = λ a b. a * b % 2 ^ 64;
  d_div = λ a b. a;
  f_add = λ a b. (a + b) % 2 ^ 32;
  f_sub = λ a b. (a + 2 ^ 32 - b) % 2 ^ 32;
  f_mul = λ a b. a * b % 2 ^ 32;
  f_div = λ a b. a;
  int_to_double = λ a. a;
  int_to_float = λ a. a;
  long_to_double = λ a. a;
  long_to_float = λ a. a % 2 ^ 32;
  float_to_int = λ a. a;
  float_to_long = λ a. a;
  float_to_double = λ a. a;
  double_to_int = λ a. a % 2 ^ 32;
  double_to_long = λ a. a;
  double_to_float = λ a. a % 2 ^ 32;
  atof = length;
}

abbrev pub source : List ℕ
source = codes "int x=7-2;print(x);"

abbrev pub name_x : Name
name_x = codes "x"

abbrev pub source_tokens : List Adt
source_tokens =
    string_adt (codes "int") SymbolType.string
    ∷ string_adt name_x SymbolType.string
    ∷ int_adt b'=' SymbolType.eq
    ∷ int_adt 7 SymbolType.int
    ∷ int_adt b'-' SymbolType.minus
    ∷ int_adt 2 SymbolType.int
    ∷ int_adt b';' SymbolType.semicolon
    ∷ string_adt (codes "print") SymbolType.string
    ∷ int_adt b'(' SymbolType.lparentheses
    ∷ string_adt name_x SymbolType.string
    ∷ int_adt b')' SymbolType.rparentheses
    ∷ int_adt b';' SymbolType.semicolon
    ∷ []

pub lexed : lex test_fpu 20 source ≡ ok source_tokens
unfolding atol atoi digits_loop word_loop string_loop number_token lex_number lex_word lex_string
    lex_symbol lex_char do_parse lex open_stream has_next next back skip current_char int_adt
    wide_adt string_adt
lexed = refl

-- `7-2;`
abbrev pub expression_tokens : List Adt
expression_tokens =
    int_adt 7 SymbolType.int
    ∷ int_adt b'-' SymbolType.minus
    ∷ int_adt 2 SymbolType.int
    ∷ int_adt b';' SymbolType.semicolon
    ∷ []

abbrev pub seven : Ir
seven = constant (int_adt 7 SymbolType.int) OpCode.i_const int

abbrev pub two : Ir
two = constant (int_adt 2 SymbolType.int) OpCode.i_const int

abbrev pub difference : Ir
difference = binary OpCode.i_sub int seven two

abbrev pub load_x : Ir
load_x = variable name_x 0 OpCode.load_i int

abbrev pub store_x : StoreIr
store_x = record { name = name_x; ix = 0; res_type = int; opcode = OpCode.store_i }

abbrev pub tree : Program
tree =
    assign store_x difference int
    ∷ no_op
    ∷ function_call (codes "print") (load_x ∷ []) void
    ∷ no_op
    ∷ []

abbrev pub table_x : SymbolTable
table_x = (name_x, 0, int) ∷ []

pub built : build source_tokens ≡ ok (tree, table_x)
unfolding find add_symbol get_cast_code cast_type close parenthesised load_variable primary_token
    primary term term_loop expression expression_loop whole_expression extract_assign_ir declaration
    skip_comma call_args end_call assignment use_of declared statement_token statement program_loop
    build name_eq find_type contain_type get_store_opcode_by_type get_load_opcode_by_type
    make_binary binary_opcode int_adt string_adt get_char_ptr_adt
built = refl

-- the program prints 5
printed :
    eval_program test_fpu (record { vars = 0 ∷ []; out = [] }) tree
    ≡ ok (record { vars = 5 ∷ []; out = Output.int 5 ∷ [] })
unfolding eval_program eval_stmt eval get_int_adt int_adt sub32
printed = refl

pub tree-AllExecutable : AllExecutable 1 128 tree
unfolding name_eq
tree-AllExecutable = (
  (((tt, tt, tt), refl, omega arith), omega arith),
  (tt, ((refl, (tt, refl, omega arith)), (tt, tt))),
)
