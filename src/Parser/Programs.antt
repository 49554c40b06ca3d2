-- ===== src/Parser/Programs.antt =====
-- The programs that src/parser.cpp returns, and the fuel of its loops.
use core_vm.Base.{
  ℕ, zero, suc, ◌<◌, ◌≤◌, Bool, true, false, List, [], ◌∷◌, Option, none, some, arith, length, inl,
  inr, Bool-cases,
}
use core_vm.Base.Outcome.{
  Outcome, ok, ◌>>=◌, Within, Within-bind, Settles, Settles-bind, Within-Settles-bind,
}
use core_vm.Types.{Name, CvmType, contain_type}
use core_vm.Adt.{SymbolType, Adt, is_rparentheses, is_eq, is_lparentheses}
use core_vm.Ir.{Ir, Program}
use core_vm.Ir.Typing.{AllWellTyped}
use core_vm.Parser.{
  SymbolTable, find, whole_expression, declaration, skip_comma, call_args, end_call, assignment,
  use_of, declared, statement_token, statement, program_loop, build,
}
use core_vm.Parser.Typed.{FoundBelow, find-FoundBelow, whole_expression-Typed}
use core_vm.Parser.Statements.{
  AllStmtTyped, StmtTyped-mono, TableValid, Stating, extract_assign_ir-Stating, declaration-Stating,
  skip_comma-Within,
}

abbrev Args : Type 0
Args = List Ir × List Adt

abbrev ArgsTyped : ℕ → ℕ → Outcome Args → Type 0
ArgsTyped n b = Within (λ (args, rest). AllWellTyped n args × (length rest ≤ b))

-- a round of the loop over the arguments, with the rounds that follow
argument-ArgsTyped :
    (table : SymbolTable) (token : Adt) (rest : List Adt) (test : Bool)
    (go : List Adt → Outcome Args)
    → TableValid table
    → ((tokens : List Adt)
        → length tokens ≤ length rest
        → ArgsTyped (length table) (length tokens) (go tokens))
    → ArgsTyped (length table) (suc (length rest)) (elim test [
      | true ↦ ok ([], token ∷ rest)
      | false ↦ whole_expression table (token ∷ rest) >>= λ (arg, rest').
          skip_comma rest' >>= λ rest''. go rest'' >>= λ (args, rest₃). ok (arg ∷ args, rest₃)
    ])
argument-ArgsTyped table token rest true go valid again = (tt, omega arith)
argument-ArgsTyped table token rest false go valid again =
    Within-bind _ _ (whole_expression table (token ∷ rest)) _
      (whole_expression-Typed (length table) table valid (token ∷ rest))
      (λ (arg, rest') h.
        Within-bind _ _ (skip_comma rest') _ (skip_comma-Within rest') (λ rest'' le.
          Within-bind _ _ (go rest'') _ (again rest'' (omega arith))
            (λ (args, rest₃) hs. ((h.0.0, hs.0), omega arith))))

-- The loop over the arguments ends: each of them takes a token.
call_args-ArgsTyped :
    (table : SymbolTable) (f : ℕ) (tokens : List Adt)
    → TableValid table
    → length tokens < f
    → ArgsTyped (length table) (length tokens) (call_args f table tokens)
unfolding call_args
call_args-ArgsTyped table zero tokens valid h = absurd (omega arith)
call_args-ArgsTyped table (suc f) [] valid h = (tt, omega arith)
call_args-ArgsTyped table (suc f) (token ∷ rest) valid h =
    argument-ArgsTyped table token rest (is_rparentheses token.tag) (λ ts. call_args f table ts)
      valid (λ ts le. call_args-ArgsTyped table f ts valid (omega arith))

assignment-Stating :
    (name : Name) (table : SymbolTable) (tokens : List Adt) (entry : Option (ℕ × CvmType)) (b : ℕ)
    → TableValid table
    → FoundBelow (length table) entry
    → length tokens < b
    → Stating (length table) b (assignment name table tokens entry)
unfolding assignment
assignment-Stating name table tokens none b valid found lt = tt
assignment-Stating name table tokens (some (ix, t)) b valid found lt =
    elim (Bool-cases (contain_type name)) [
      | inl e ↦ rw e tt
      | inr e ↦ rw e (
          extract_assign_ir-Stating t name ix table tokens (length table) b valid (omega arith)
            (omega arith) lt)
    ]

end_call-Stating :
    (name : Name) (args : List Ir) (table : SymbolTable) (tokens : List Adt) (b : ℕ)
    → TableValid table
    → AllWellTyped (length table) args
    → length tokens < b
    → Stating (length table) b (end_call name args table tokens)
unfolding end_call
end_call-Stating name args table [] b valid typed lt = tt
end_call-Stating name args table (token ∷ rest) b valid typed lt =
    (typed, valid, omega arith, omega arith)

use_of-Stating :
    (name : Name) (table : SymbolTable) (tokens : List Adt)
    → TableValid table
    → Stating (length table) (suc (length tokens)) (use_of name table tokens)
unfolding use_of
use_of-Stating name table [] valid = tt
use_of-Stating name table (token ∷ rest) valid = elim (Bool-cases (is_eq token.tag)) [
  | inl e ↦ rw e (
      assignment-Stating name table rest (find name table) _ valid
        (find-FoundBelow (length table) name table valid) (omega arith))
  | inr e ↦ elim (Bool-cases (is_lparentheses token.tag)) [
    | inl e' ↦
        rw (e, e')
          (Within-Settles-bind _ _ (call_args (suc (length rest)) table rest) _
            (call_args-ArgsTyped table (suc (length rest)) rest valid (omega arith))
            (λ (args, rest') h. end_call-Stating name args table rest' _ valid h.0 (omega arith)))
    | inr e' ↦ rw (e, e') tt
  ]
]

-- what `declared` leaves is shorter
abbrev DeclaredBehind : ℕ → Option (CvmType × Name × List Adt) → Type 0
DeclaredBehind b none = Unit
DeclaredBehind b (some (t, name, rest)) = length rest < b

declared-Behind :
    (name : Name) (tokens : List Adt) → DeclaredBehind (length tokens) (declared name tokens)
unfolding declared
declared-Behind name [] = tt
declared-Behind name (token ∷ rest) = ground arith

statement_token-Stating :
    (tag : SymbolType) (name : Name) (table : SymbolTable) (rest : List Adt)
    → TableValid table
    → Stating (length table) (suc (length rest)) (statement_token tag name table rest)
unfolding statement_token
statement_token-Stating SymbolType.semicolon name table rest valid =
    (tt, valid, omega arith, omega arith)
statement_token-Stating SymbolType.string name table rest valid =
    by_declared (declared name rest) (declared-Behind name rest)
  where
    by_declared :
        (o : Option (CvmType × Name × List Adt))
        → DeclaredBehind (length rest) o
        → Stating (length table) (suc (length rest)) (elim o [
          | some (t, symbol, rest') ↦ declaration t symbol table rest'
          | none ↦ use_of name table rest
        ])
    by_declared (some (t, symbol, rest')) behind =
        declaration-Stating t symbol table rest' _ valid (omega arith)
    by_declared none behind = use_of-Stating name table rest valid
statement_token-Stating _ name table rest valid = tt

-- Statements and the table after them, typed over the size of the table.
abbrev pub Programming : ℕ → Outcome (Program × SymbolTable) → Type 0
Programming n =
    Settles (λ (p, table). AllStmtTyped (length table) p × TableValid table × (n ≤ length table))

program_loop-Programming :
    (f : ℕ) (table : SymbolTable) (tokens : List Adt)
    → TableValid table
    → length tokens < f
    → Programming (length table) (program_loop f table tokens)
unfolding program_loop statement
program_loop-Programming zero table tokens valid h = absurd (omega arith)
program_loop-Programming (suc f) table [] valid h = (tt, valid, omega arith)
program_loop-Programming (suc f) table (token ∷ rest) valid h =
    Settles-bind _ _ (statement_token token.tag token.sval table rest) _
      (statement_token-Stating token.tag token.sval table rest valid)
      (λ (s, table', rest') r.
        Settles-bind _ _ (program_loop f table' rest') _
          (program_loop-Programming f table' rest' r.1 (omega arith))
          (λ (p, table'') q.
            ((StmtTyped-mono (length table') (length table'') s q.2 r.0, q.0), q.1, omega arith)))

pub build-Programming : (tokens : List Adt) → Programming 0 (build tokens)
unfolding build
build-Programming [] = tt
build-Programming (token ∷ rest) =
    program_loop-Programming (suc (length (token ∷ rest))) [] (token ∷ rest) tt (omega arith)
