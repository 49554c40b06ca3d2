-- ===== src/Parser.antt =====
-- src/parser.cpp and src/include/parser.h: recursive descent over the tokens. The vector of tokens and
-- `_pos` are kept as the list of the tokens from `_pos` on; `Next` behind the last token reads
-- outside of the vector, which is undefined. The recursion takes fuel, which Parser.Typed is about.
pub mod Typed
pub mod Statements
pub mod Symbols
pub mod Programs
pub mod Grammar
pub mod Fuel
pub mod Binds
pub mod Steps
pub mod Expressions
pub mod Sentences
pub mod Calls
pub mod Reads
use core_vm.Base.{
  ℕ, zero, suc, ◌+◌, ◌*◌, Bool, true, false, ◌&&◌, List, [], ◌∷◌, Option, none, some, ltb,
  if◌then◌else◌, length,
}
use core_vm.Base.Outcome.{
  Outcome, ok, panicked, undefined, out_of_fuel, ◌>>=◌, ◌>>◌, require, assert, empty_tokens,
  no_next_token, sym_is_not_found, sym_conflicts_with_builtin_types, type_mismatch,
  illegal_statement, expected_a_semicolon_or_expression, expected_a_eq,
  unexpected_token_in_statement, primary_require_a_token, unknown_variable, require_rparentheses,
  primary_require_a_number_or_string, unsupported_cast,
}
use core_vm.OpCode
use core_vm.OpCode.{OpCode}
use core_vm.Types.{
  Name, name_eq, CvmType, int, float, double, long, void, type_eq, find_type, contain_type,
}
use core_vm.Util.{get_store_opcode_by_type, get_load_opcode_by_type}
use core_vm.Adt.{
  SymbolType, Adt, is_string, is_semicolon, is_lparentheses, is_rparentheses, is_comma, is_eq,
}
use core_vm.Ir.{
  Ir, variable, constant, cast, Stmt, assign, definition, no_op, function_call, Program,
  get_res_type, make_binary,
}

-- `_symbol_table`
abbrev pub SymbolTable : Type 0
SymbolTable = List (Name × ℕ × CvmType)

unfoldable pub find : Name → SymbolTable → Option (ℕ × CvmType)
find n [] = none
find n ((k, ix, t) ∷ table) = if name_eq n k then some (ix, t) else find n table

-- AddSymbol: `insert` leaves an entry that is there, and the size before it is returned all the same.
unfoldable pub add_symbol : Name → CvmType → SymbolTable → ℕ × SymbolTable
add_symbol symbol t table = elim (find symbol table) [
  | none ↦ (length table, (symbol, length table, t) ∷ table)
  | some _ ↦ (length table, table)
]

-- GetCastCode
unfoldable pub get_cast_code : CvmType → CvmType → Outcome OpCode
get_cast_code int long = ok OpCode.i_cast_l
get_cast_code int float = ok OpCode.i_cast_f
get_cast_code int double = ok OpCode.i_cast_d
get_cast_code float int = ok OpCode.f_cast_i
get_cast_code float double = ok OpCode.f_cast_d
get_cast_code float long = ok OpCode.f_cast_l
get_cast_code long int = ok OpCode.l_cast_i
get_cast_code long float = ok OpCode.l_cast_f
get_cast_code long double = ok OpCode.l_cast_d
get_cast_code double int = ok OpCode.d_cast_i
get_cast_code double float = ok OpCode.d_cast_f
get_cast_code double long = ok OpCode.d_cast_l
get_cast_code from to = if type_eq from to then ok OpCode.nop else panicked unsupported_cast

abbrev pub Parsed : Type 0
Parsed = Ir × List Adt

-- the operators that the loop of Term and that of Expression take
abbrev pub term_operator : SymbolType → Option ℕ
term_operator SymbolType.mul = some b'*'
term_operator SymbolType.div = some b'/'
term_operator _ = none

abbrev pub expression_operator : SymbolType → Option ℕ
expression_operator SymbolType.plus = some b'+'
expression_operator SymbolType.minus = some b'-'
expression_operator _ = none

-- the type in `(type)`, behind the opening parenthesis, and the tokens behind it
unfoldable pub cast_type : Adt → List Adt → Option (CvmType × List Adt)
cast_type token [] = none
cast_type token (next ∷ rest) =
    if is_string token.tag && is_rparentheses next.tag
    then elim (find_type token.sval) [ none ↦ none | some t ↦ some (t, rest) ]
    else none

-- what Primary does behind an expression in parentheses: it panics at a closing parenthesis, and
-- takes any other token for one
unfoldable pub close : Ir → List Adt → Outcome Parsed
close res [] = undefined
close res (token ∷ rest) =
    if is_rparentheses token.tag then panicked require_rparentheses else ok (res, rest)

-- Primary behind an opening parenthesis, with its calls of Primary and Expression
unfoldable pub parenthesised :
    (List Adt → Outcome Parsed) → (List Adt → Outcome Parsed) → List Adt → Outcome Parsed
parenthesised primary expression [] = undefined
parenthesised primary expression (token ∷ rest) = elim (cast_type token rest) [
  | some (t, rest') ↦ primary rest' >>= λ (ir, rest'').
      get_cast_code (get_res_type ir) t >>= λ op. ok (cast op t ir, rest'')
  | none ↦ expression (token ∷ rest) >>= λ (res, rest'). close res rest'
]

-- a variable that Primary loads
unfoldable pub load_variable : Name → List Adt → Option (ℕ × CvmType) → Outcome Parsed
load_variable name rest none = panicked unknown_variable
load_variable name rest (some (ix, t)) = do
  op ← get_load_opcode_by_type t
  ok (variable name ix op t, rest)

-- the `switch` of Primary
unfoldable pub primary_token :
    (List Adt → Outcome Parsed)
    → (List Adt → Outcome Parsed)
    → SymbolTable
    → SymbolType
    → Adt
    → List Adt
    → Outcome Parsed
primary_token primary expression table SymbolType.int token rest =
    ok (constant token OpCode.i_const int, rest)
primary_token primary expression table SymbolType.float token rest =
    ok (constant token OpCode.f_const float, rest)
primary_token primary expression table SymbolType.long token rest =
    ok (constant token OpCode.l_const long, rest)
primary_token primary expression table SymbolType.double token rest =
    ok (constant token OpCode.d_const double, rest)
primary_token primary expression table SymbolType.string token rest =
    load_variable token.sval rest (find token.sval table)
primary_token primary expression table SymbolType.lparentheses token rest =
    parenthesised primary expression rest
primary_token primary expression table _ token rest = panicked primary_require_a_number_or_string

unfoldable mutual
  pub primary : ℕ → SymbolTable → List Adt → Outcome Parsed
  primary zero table tokens = out_of_fuel
  primary (suc f) table [] = panicked primary_require_a_token
  primary (suc f) table (token ∷ rest) =
      primary_token (λ ts. primary f table ts) (λ ts. expression f table ts) table token.tag token
        rest

  pub term : ℕ → SymbolTable → List Adt → Outcome Parsed
  term zero table tokens = out_of_fuel
  term (suc f) table tokens = primary f table tokens >>= λ (res, rest). term_loop f table res rest

  pub term_loop : ℕ → SymbolTable → Ir → List Adt → Outcome Parsed
  term_loop zero table res tokens = out_of_fuel
  term_loop (suc f) table res [] = ok (res, [])
  term_loop (suc f) table res (token ∷ rest) = elim (term_operator token.tag) [
    | none ↦ ok (res, token ∷ rest)
    | some c ↦ primary f table rest >>= λ (rhs, rest').
        make_binary res rhs c >>= λ res'. term_loop f table res' rest'
  ]

  pub expression : ℕ → SymbolTable → List Adt → Outcome Parsed
  expression zero table tokens = out_of_fuel
  expression (suc f) table tokens =
      term f table tokens >>= λ (res, rest). expression_loop f table res rest

  pub expression_loop : ℕ → SymbolTable → Ir → List Adt → Outcome Parsed
  expression_loop zero table res tokens = out_of_fuel
  expression_loop (suc f) table res [] = ok (res, [])
  expression_loop (suc f) table res (token ∷ rest) = elim (expression_operator token.tag) [
    | none ↦ ok (res, token ∷ rest)
    | some c ↦ term f table rest >>= λ (rhs, rest').
        make_binary res rhs c >>= λ res'. expression_loop f table res' rest'
  ]

-- Expression, with enough fuel for the tokens that are left
unfoldable pub whole_expression : SymbolTable → List Adt → Outcome Parsed
whole_expression table tokens = expression (4 * length tokens + 3) table tokens

-- what Statement returns, with the table and the tokens after it
abbrev pub Stated : Type 0
Stated = Stmt × SymbolTable × List Adt

-- ExtractAssignIR
unfoldable pub extract_assign_ir : CvmType → Name → ℕ → SymbolTable → List Adt → Outcome Stated
extract_assign_ir t symbol loc table tokens = do
  (expr, rest) ← whole_expression table tokens
  opcode ← get_store_opcode_by_type t
  if type_eq (get_res_type expr) t
      then ok (
        assign (record { name = symbol; ix = loc; res_type = t; opcode = opcode }) expr
            (get_res_type expr),
        table,
        rest,
      )
      else (assert (ltb (length symbol) 64) >> panicked type_mismatch)

-- a declaration, behind its type and its name
unfoldable pub declaration : CvmType → Name → SymbolTable → List Adt → Outcome Stated
declaration t symbol table [] = panicked expected_a_semicolon_or_expression
declaration t symbol table (token ∷ rest) =
    let (loc, table') = add_symbol symbol t table in
    if is_semicolon token.tag
    then ok (definition symbol loc t, table', rest)
    else if is_eq token.tag
    then extract_assign_ir t symbol loc table' rest
    else panicked illegal_statement

-- the comma behind an argument
unfoldable pub skip_comma : List Adt → Outcome (List Adt)
skip_comma [] = panicked no_next_token
skip_comma (token ∷ rest) = if is_comma token.tag then ok rest else ok (token ∷ rest)

-- the loop over the arguments of a call
unfoldable pub call_args : ℕ → SymbolTable → List Adt → Outcome (List Ir × List Adt)
call_args zero table tokens = out_of_fuel
call_args (suc f) table [] = ok ([], [])
call_args (suc f) table (token ∷ rest) = elim (is_rparentheses token.tag) [
  | true ↦ ok ([], token ∷ rest)
  | false ↦ whole_expression table (token ∷ rest) >>= λ (arg, rest'). skip_comma rest' >>= λ rest''.
      call_args f table rest'' >>= λ (args, rest₃). ok (arg ∷ args, rest₃)
]

-- the end of a call, at its closing parenthesis
unfoldable pub end_call : Name → List Ir → SymbolTable → List Adt → Outcome Stated
end_call name args table [] = undefined
end_call name args table (token ∷ rest) = ok (function_call name args void, table, rest)

-- an assignment, behind the name and the `=`
unfoldable pub assignment : Name → SymbolTable → List Adt → Option (ℕ × CvmType) → Outcome Stated
assignment name table tokens none = panicked sym_is_not_found
assignment name table tokens (some (ix, t)) =
    if contain_type name
    then panicked sym_conflicts_with_builtin_types
    else extract_assign_ir t name ix table tokens

-- an assignment or a call, behind the name
unfoldable pub use_of : Name → SymbolTable → List Adt → Outcome Stated
use_of name table [] = panicked expected_a_eq
use_of name table (token ∷ rest) =
    if is_eq token.tag
    then assignment name table rest (find name table)
    else if is_lparentheses token.tag
    then (call_args (suc (length rest)) table rest >>= λ (args, rest').
        end_call name args table rest')
    else panicked expected_a_eq

-- the type and the name with which a declaration begins, and the tokens behind them
unfoldable pub declared : Name → List Adt → Option (CvmType × Name × List Adt)
declared name [] = none
declared name (token ∷ rest) =
    if is_string token.tag
    then elim (find_type name) [ none ↦ none | some t ↦ some (t, token.sval, rest) ]
    else none

-- the `switch` of Statement
unfoldable pub statement_token : SymbolType → Name → SymbolTable → List Adt → Outcome Stated
statement_token SymbolType.string name table rest = elim (declared name rest) [
  | some (t, symbol, rest') ↦ declaration t symbol table rest'
  | none ↦ use_of name table rest
]
statement_token SymbolType.semicolon name table rest = ok (no_op, table, rest)
statement_token _ name table rest = panicked unexpected_token_in_statement

unfoldable pub statement : SymbolTable → Adt → List Adt → Outcome Stated
statement table token rest = statement_token token.tag token.sval table rest

-- the loop of Program
unfoldable pub program_loop : ℕ → SymbolTable → List Adt → Outcome (Program × SymbolTable)
program_loop zero table tokens = out_of_fuel
program_loop (suc f) table [] = ok ([], table)
program_loop (suc f) table (token ∷ rest) = statement table token rest >>= λ (s, table', rest').
    program_loop f table' rest' >>= λ (p, table''). ok (s ∷ p, table'')

-- the constructor, and Build; the size of the table is SymTableSize
unfoldable pub build : List Adt → Outcome (Program × SymbolTable)
build [] = panicked empty_tokens
build (token ∷ rest) = program_loop (suc (length (token ∷ rest))) [] (token ∷ rest)
