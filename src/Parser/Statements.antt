-- ===== src/Parser/Statements.antt =====
-- The statements and programs that src/parser.cpp returns.
use core_vm.Base.{
  ℕ, suc, ◌<◌, ◌≤◌, ◌≡◌, refl, Bool, true, false, List, [], ◌∷◌, Option, none, some, arith, length,
  inl, inr, Bool-cases, ltb,
}
use core_vm.Base.Outcome.{
  Outcome, ok, panicked, ◌>>◌, assert, Within, Settles, Within-Settles-bind, type_mismatch,
}
use core_vm.Types.{Name, CvmType, int, void, type_eq, type_eq→eq}
use core_vm.Util.{get_store_opcode_by_type}
use core_vm.Adt.{Adt, is_semicolon, is_eq}
use core_vm.Ir.{
  Ir, binary, variable, constant, cast, Stmt, assign, definition, no_op, function_call, Program,
  get_res_type,
}
use core_vm.Ir.Typing.{WellTyped, AllWellTyped}
use core_vm.Parser.{
  SymbolTable, find, add_symbol, whole_expression, Stated, extract_assign_ir, declaration,
  skip_comma,
}
use core_vm.Parser.Typed.{TableBelow, whole_expression-Typed}

-- A statement over `n` variables: its expressions are well typed, a store fits the type of its value,
-- and the cell that it writes is one of the `n` or the one behind them.
abbrev pub StmtTyped : ℕ → Stmt → Type 0
StmtTyped n (assign lhs rhs t) =
    WellTyped n rhs
    × (get_res_type rhs ≡ lhs.res_type)
    × (get_store_opcode_by_type lhs.res_type ≡ ok lhs.opcode)
    × (lhs.ix ≤ n)
StmtTyped n (definition x ix t) = ix ≤ n
StmtTyped n no_op = Unit
StmtTyped n (function_call name args t) = AllWellTyped n args

abbrev pub AllStmtTyped : ℕ → Program → Type 0
AllStmtTyped n [] = Unit
AllStmtTyped n (s ∷ p) = StmtTyped n s × AllStmtTyped n p

pub WellTyped-mono : (m n : ℕ) (e : Ir) → m ≤ n → WellTyped m e → WellTyped n e
WellTyped-mono m n (binary op t lhs rhs) le h =
    (WellTyped-mono m n lhs le h.0, WellTyped-mono m n rhs le h.1, h.2, h.3, h.4)
WellTyped-mono m n (variable x ix op t) le h = (omega arith, h.1)
WellTyped-mono m n (constant v op t) le h = h
WellTyped-mono m n (cast op t e) le h = (WellTyped-mono m n e le h.0, h.1)

AllWellTyped-mono : (m n : ℕ) (es : List Ir) → m ≤ n → AllWellTyped m es → AllWellTyped n es
AllWellTyped-mono m n [] le h = tt
AllWellTyped-mono m n (e ∷ es) le h = (WellTyped-mono m n e le h.0, AllWellTyped-mono m n es le h.1)

pub StmtTyped-mono : (m n : ℕ) (s : Stmt) → m ≤ n → StmtTyped m s → StmtTyped n s
StmtTyped-mono m n (assign lhs rhs t) le h = (WellTyped-mono m n rhs le h.0, h.1, h.2, omega arith)
StmtTyped-mono m n (definition x ix t) le h = omega arith
StmtTyped-mono m n no_op le h = tt
StmtTyped-mono m n (function_call name args t) le h = AllWellTyped-mono m n args le h

TableBelow-mono : (m n : ℕ) (table : SymbolTable) → m ≤ n → TableBelow m table → TableBelow n table
TableBelow-mono m n [] le h = tt
TableBelow-mono m n ((k, ix, t) ∷ table) le h = (omega arith, TableBelow-mono m n table le h.1)

-- the table gives every variable a cell below its size
abbrev pub TableValid : SymbolTable → Type 0
TableValid table = TableBelow (length table) table

-- AddSymbol keeps the table valid, and returns a cell that is at most its size.
pub add_symbol-TableValid :
    (name : Name) (t : CvmType) (table : SymbolTable)
    → TableValid table
    → TableValid (add_symbol name t table).1
      × ((add_symbol name t table).0 ≤ length (add_symbol name t table).1)
      × (length table ≤ length (add_symbol name t table).1)
unfolding add_symbol
add_symbol-TableValid name t table valid = by_entry (find name table)
  where
    by_entry :
        (o : Option (ℕ × CvmType))
        → let added : ℕ × SymbolTable = elim o [
          | none ↦ (length table, (name, length table, t) ∷ table)
          | some _ ↦ (length table, table)
        ] in
          TableValid added.1 × (added.0 ≤ length added.1) × (length table ≤ length added.1)
    by_entry none = (
      (omega arith, TableBelow-mono (length table) (suc (length table)) table (omega arith) valid),
      omega arith,
      omega arith,
    )
    by_entry (some _) = (valid, omega arith, omega arith)

-- A statement, the table after it and what is left: typed over the size of the table, which is valid
-- and not smaller than `n`, and fewer than `b` tokens.
abbrev pub Stating : ℕ → ℕ → Outcome Stated → Type 0
Stating n b = Settles (λ (s, table, rest).
    StmtTyped (length table) s × TableValid table × (n ≤ length table) × (length rest < b))

get_store_opcode-Within :
    (t : CvmType) → Within (λ op. get_store_opcode_by_type t ≡ ok op) (get_store_opcode_by_type t)
unfolding get_store_opcode_by_type
get_store_opcode-Within int = refl
get_store_opcode-Within void = tt
get_store_opcode-Within _ = refl

mismatch-Settles : (P : Stated → Type 0) (b : Bool) → Settles P (assert b >> panicked type_mismatch)
mismatch-Settles P true = tt
mismatch-Settles P false = tt

pub extract_assign_ir-Stating :
    (t : CvmType) (name : Name) (loc : ℕ) (table : SymbolTable) (tokens : List Adt) (n b : ℕ)
    → TableValid table
    → loc ≤ length table
    → n ≤ length table
    → length tokens < b
    → Stating n b (extract_assign_ir t name loc table tokens)
unfolding extract_assign_ir
extract_assign_ir-Stating t name loc table tokens n b valid at le lt =
    Within-Settles-bind _ _ (whole_expression table tokens) _
      (whole_expression-Typed (length table) table valid tokens)
      (λ (e, rest) h.
        Within-Settles-bind _ _ (get_store_opcode_by_type t) _ (get_store_opcode-Within t)
          (λ op stores. elim (Bool-cases (type_eq (get_res_type e) t)) [
            | inl same ↦ rw same ((h.0.0, type_eq→eq _ _ same, stores, at), valid, le, omega arith)
            | inr differs ↦ rw differs (mismatch-Settles _ (ltb (length name) 64))
          ]))

pub declaration-Stating :
    (t : CvmType) (name : Name) (table : SymbolTable) (tokens : List Adt) (b : ℕ)
    → TableValid table
    → length tokens < b
    → Stating (length table) b (declaration t name table tokens)
unfolding declaration
declaration-Stating t name table [] b valid lt = tt
declaration-Stating t name table (token ∷ rest) b valid lt =
    let (valid', at, le) = add_symbol-TableValid name t table valid in
    elim (Bool-cases (is_semicolon token.tag)) [
      | inl e ↦ rw e (at, valid', le, omega arith)
      | inr e ↦ elim (Bool-cases (is_eq token.tag)) [
        | inl e' ↦
            rw (e, e')
              (extract_assign_ir-Stating t name (add_symbol name t table).0
                (add_symbol name t table).1 rest (length table) b valid' at le (omega arith))
        | inr e' ↦ rw (e, e') tt
      ]
    ]

pub skip_comma-Within :
    (tokens : List Adt) → Within (λ rest. length rest ≤ length tokens) (skip_comma tokens)
unfolding skip_comma
skip_comma-Within [] = tt
skip_comma-Within (token ∷ rest) = ground arith
