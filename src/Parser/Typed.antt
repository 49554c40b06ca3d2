-- ===== src/Parser/Typed.antt =====
-- The expressions that src/parser.cpp returns, and the fuel of its recursion.
use core_vm.Base.{
  ℕ, zero, suc, ◌+◌, ◌*◌, ◌<◌, ◌≤◌, ◌≡◌, refl, sym, List, [], ◌∷◌, Option, none, some, arith,
  length, inl, inr, Bool-cases,
}
use core_vm.Base.Outcome.{Outcome, ok, ◌>>=◌, Within, Within-bind}
use core_vm.Types.{Name, name_eq, CvmType, int, float, double, long, void, type_eq, type_eq→eq}
use core_vm.Util.{get_load_opcode_by_type}
use core_vm.Adt.{SymbolType, Adt, is_rparentheses}
use core_vm.Ir.{Ir, cast, get_res_type, binary_opcode, make_binary, binary, variable, constant}
use core_vm.Ir.Typing.{WellTyped, arithmetic_type, Casts}
use core_vm.Ir.ProgramCode.{IsValueType, WellTyped-IsValueType}
use core_vm.Parser.{
  SymbolTable, find, Parsed, get_cast_code, term_operator, expression_operator, cast_type, close,
  parenthesised, load_variable, primary_token, primary, term, term_loop, expression,
  expression_loop, whole_expression,
}

-- the entries of the table lie below `n`
abbrev pub TableBelow : ℕ → SymbolTable → Type 0
TableBelow n [] = Unit
TableBelow n ((k, ix, t) ∷ table) = (ix < n) × TableBelow n table

abbrev pub FoundBelow : ℕ → Option (ℕ × CvmType) → Type 0
FoundBelow n none = Unit
FoundBelow n (some (ix, t)) = ix < n

pub find-FoundBelow :
    (n : ℕ) (name : Name) (table : SymbolTable)
    → TableBelow n table
    → FoundBelow n (find name table)
unfolding find
find-FoundBelow n name [] h = tt
find-FoundBelow n name ((k, ix, t) ∷ table) h = elim (Bool-cases (name_eq name k)) [
  | inl e ↦ rw e (h.0)
  | inr e ↦ rw e (find-FoundBelow n name table h.1)
]

-- Each variable of a tree is an entry of the table: the cell and the type that the table has for its name.
abbrev pub Drawn : SymbolTable → Ir → Type 0
Drawn table (binary op t lhs rhs) = Drawn table lhs × Drawn table rhs
Drawn table (variable x ix op t) = find x table ≡ some (ix, t)
Drawn table (constant v op t) = Unit
Drawn table (cast op t e) = Drawn table e

-- A tree is well typed over `n` variables, and its variables are those of the table.
abbrev pub Formed : ℕ → SymbolTable → Ir → Type 0
Formed n table e = WellTyped n e × Drawn table e

-- the same of a tree that is returned, behind which fewer than `b` tokens are left
abbrev pub Typed : ℕ → SymbolTable → ℕ → Outcome Parsed → Type 0
Typed n table b = Within (λ (e, rest). Formed n table e × (length rest < b))

get_cast_code-Casts : (s t : CvmType) → Within (λ op. Casts op s t) (get_cast_code s t)
unfolding get_cast_code
get_cast_code-Casts s t = ground arith

binary_opcode-arithmetic :
    (c : ℕ) (t : CvmType)
    → IsValueType t
    → Within (λ op. arithmetic_type op ≡ some t) (binary_opcode c t)
unfolding binary_opcode
binary_opcode-arithmetic c t h = ground arith

-- BinaryIR of such sides is such a tree, or the constructor panics.
pub make_binary-Formed :
    (n : ℕ) (table : SymbolTable) (lhs rhs : Ir) (c : ℕ)
    → Formed n table lhs
    → Formed n table rhs
    → Within (Formed n table) (make_binary lhs rhs c)
unfolding make_binary
make_binary-Formed n table lhs rhs c hl hr =
    elim (Bool-cases (type_eq (get_res_type lhs) (get_res_type rhs))) [
      | inl e ↦ rw e (
          Within-bind _ (Formed n table) (binary_opcode c (get_res_type lhs)) _
            (binary_opcode-arithmetic c (get_res_type lhs) (WellTyped-IsValueType n lhs hl.0))
            (λ op typed. ((hl.0, hr.0, typed, refl, sym (type_eq→eq _ _ e)), (hl.1, hr.1))))
      | inr e ↦ rw e tt
    ]

load_variable-Typed :
    (n : ℕ) (table : SymbolTable) (name : Name) (rest : List Adt) (entry : Option (ℕ × CvmType))
    → find name table ≡ entry
    → FoundBelow n entry
    → Typed n table (suc (length rest)) (load_variable name rest entry)
unfolding load_variable get_load_opcode_by_type
load_variable-Typed n table name rest none at h = tt
load_variable-Typed n table name rest (some (ix, int)) at h = (((h, refl), at), omega arith)
load_variable-Typed n table name rest (some (ix, float)) at h = (((h, refl), at), omega arith)
load_variable-Typed n table name rest (some (ix, double)) at h = (((h, refl), at), omega arith)
load_variable-Typed n table name rest (some (ix, long)) at h = (((h, refl), at), omega arith)
load_variable-Typed n table name rest (some (ix, void)) at h = tt

close-Typed :
    (n : ℕ) (table : SymbolTable) (e : Ir) (rest : List Adt) (b : ℕ)
    → Formed n table e
    → length rest < b
    → Typed n table b (close e rest)
unfolding close
close-Typed n table e [] b h lt = tt
close-Typed n table e (token ∷ rest) b h lt = elim (Bool-cases (is_rparentheses token.tag)) [
  | inl closing ↦ rw closing tt
  | inr other ↦ rw other (h, omega arith)
]

-- the tokens behind a cast are fewer
abbrev Behind : ℕ → Option (CvmType × List Adt) → Type 0
Behind b none = Unit
Behind b (some (t, rest)) = length rest < b

cast_type-Behind :
    (token : Adt) (rest : List Adt) → Behind (suc (length rest)) (cast_type token rest)
unfolding cast_type
cast_type-Behind token [] = tt
cast_type-Behind token (next ∷ rest) = ground arith

-- what the calls of Primary and Expression are assumed to return on at most `b` tokens
abbrev Calls : ℕ → SymbolTable → ℕ → (List Adt → Outcome Parsed) → Type 0
Calls n table b call =
    (tokens : List Adt) → length tokens ≤ b → Typed n table (length tokens) (call tokens)

module _ (n : ℕ) (table : SymbolTable) (p e : List Adt → Outcome Parsed) where
  parenthesised-Typed :
      (rest : List Adt)
      → Calls n table (length rest) p
      → Calls n table (length rest) e
      → Typed n table (suc (length rest)) (parenthesised p e rest)
  unfolding parenthesised
  parenthesised-Typed [] hp he = tt
  parenthesised-Typed (token ∷ rest) hp he =
      by_cast (cast_type token rest) (cast_type-Behind token rest)
    where
      bound : ℕ
      bound = suc (suc (length rest))

      by_cast :
          (c : Option (CvmType × List Adt))
          → Behind (suc (length rest)) c
          → Typed n table bound (elim c [
            | some (t, rest') ↦ p rest' >>= λ (ir, rest'').
                get_cast_code (get_res_type ir) t >>= λ op. ok (cast op t ir, rest'')
            | none ↦ e (token ∷ rest) >>= λ (res, rest'). close res rest'
          ])
      by_cast (some (t, rest')) shorter =
          Within-bind _ _ (p rest') _ (hp rest' (omega arith)) (λ (ir, rest'') h.
            Within-bind _ _ (get_cast_code (get_res_type ir) t) _
              (get_cast_code-Casts (get_res_type ir) t)
              (λ op casts. (((h.0.0, casts), h.0.1), omega arith)))
      by_cast none shorter =
          Within-bind _ _ (e (token ∷ rest)) _ (he (token ∷ rest) (omega arith))
            (λ (res, rest') h. close-Typed n table res rest' bound h.0 (omega arith))

  primary_token-Typed :
      (tag : SymbolType) (token : Adt) (rest : List Adt)
      → TableBelow n table
      → Calls n table (length rest) p
      → Calls n table (length rest) e
      → Typed n table (suc (length rest)) (primary_token p e table tag token rest)
  unfolding primary_token
  primary_token-Typed SymbolType.int token rest below hp he = ((refl, tt), omega arith)
  primary_token-Typed SymbolType.float token rest below hp he = ((refl, tt), omega arith)
  primary_token-Typed SymbolType.long token rest below hp he = ((refl, tt), omega arith)
  primary_token-Typed SymbolType.double token rest below hp he = ((refl, tt), omega arith)
  primary_token-Typed SymbolType.string token rest below hp he =
      load_variable-Typed n table token.sval rest (find token.sval table) refl
        (find-FoundBelow n token.sval table below)
  primary_token-Typed SymbolType.lparentheses token rest below hp he =
      parenthesised-Typed rest hp he
  primary_token-Typed _ token rest below hp he = tt

-- a round of the loop of Term or of Expression, with its operand and the rounds that follow
loop-Typed :
    (n : ℕ) (table : SymbolTable) (b : ℕ) (operator : Option ℕ) (e : Ir) (token : Adt)
    (rest : List Adt) (operand : Outcome Parsed) (loop : Ir → List Adt → Outcome Parsed)
    → Formed n table e
    → length (token ∷ rest) < b
    → Typed n table (length rest) operand
    → ((e' : Ir) (rest' : List Adt)
        → Formed n table e'
        → length rest' < length rest
        → Typed n table b (loop e' rest'))
    → Typed n table b (elim operator [
      | none ↦ ok (e, token ∷ rest)
      | some c ↦ operand >>= λ (rhs, rest'). make_binary e rhs c >>= λ e'. loop e' rest'
    ])
loop-Typed n table b none e token rest operand loop typed lt h go_on = (typed, lt)
loop-Typed n table b (some c) e token rest operand loop typed lt h go_on =
    Within-bind _ _ operand _ h (λ (rhs, rest') r.
      Within-bind (Formed n table) _ (make_binary e rhs c) _
        (make_binary-Formed n table e rhs c typed r.0) (λ e' typed'. go_on e' rest' typed' r.1))

module _ (n : ℕ) (table : SymbolTable) (below : TableBelow n table) where
  mutual
    unfolding primary

    primary-Typed :
        (f : ℕ) (tokens : List Adt)
        → 4 * length tokens + 1 ≤ f
        → Typed n table (length tokens) (primary f table tokens)
    primary-Typed zero tokens h = absurd (omega arith)
    primary-Typed (suc f) [] h = tt
    primary-Typed (suc f) (token ∷ rest) h =
        primary_token-Typed n table (λ ts. primary f table ts) (λ ts. expression f table ts)
          token.tag token rest below (λ ts shorter. primary-Typed f ts (omega arith))
          (λ ts shorter. expression-Typed f ts (omega arith))

    term-Typed :
        (f : ℕ) (tokens : List Adt)
        → 4 * length tokens + 2 ≤ f
        → Typed n table (length tokens) (term f table tokens)
    term-Typed zero tokens h = absurd (omega arith)
    term-Typed (suc f) tokens h =
        Within-bind _ _ (primary f table tokens) _ (primary-Typed f tokens (omega arith))
          (λ (e, rest) r. term_loop-Typed f e rest (length tokens) r.0 (omega arith) r.1)

    term_loop-Typed :
        (f : ℕ) (e : Ir) (tokens : List Adt) (b : ℕ)
        → Formed n table e
        → 4 * length tokens + 1 ≤ f
        → length tokens < b
        → Typed n table b (term_loop f table e tokens)
    term_loop-Typed zero e tokens b typed h lt = absurd (omega arith)
    term_loop-Typed (suc f) e [] b typed h lt = (typed, lt)
    term_loop-Typed (suc f) e (token ∷ rest) b typed h lt =
        loop-Typed n table b (term_operator token.tag) e token rest (primary f table rest)
          (λ e' rest'. term_loop f table e' rest') typed lt (primary-Typed f rest (omega arith))
          (λ e' rest' typed' shorter.
            term_loop-Typed f e' rest' b typed' (omega arith) (omega arith))

    expression-Typed :
        (f : ℕ) (tokens : List Adt)
        → 4 * length tokens + 3 ≤ f
        → Typed n table (length tokens) (expression f table tokens)
    expression-Typed zero tokens h = absurd (omega arith)
    expression-Typed (suc f) tokens h =
        Within-bind _ _ (term f table tokens) _ (term-Typed f tokens (omega arith))
          (λ (e, rest) r. expression_loop-Typed f e rest (length tokens) r.0 (omega arith) r.1)

    expression_loop-Typed :
        (f : ℕ) (e : Ir) (tokens : List Adt) (b : ℕ)
        → Formed n table e
        → 4 * length tokens + 1 ≤ f
        → length tokens < b
        → Typed n table b (expression_loop f table e tokens)
    expression_loop-Typed zero e tokens b typed h lt = absurd (omega arith)
    expression_loop-Typed (suc f) e [] b typed h lt = (typed, lt)
    expression_loop-Typed (suc f) e (token ∷ rest) b typed h lt =
        loop-Typed n table b (expression_operator token.tag) e token rest (term f table rest)
          (λ e' rest'. expression_loop f table e' rest') typed lt (term-Typed f rest (omega arith))
          (λ e' rest' typed' shorter.
            expression_loop-Typed f e' rest' b typed' (omega arith) (omega arith))

  pub whole_expression-Typed :
      (tokens : List Adt) → Typed n table (length tokens) (whole_expression table tokens)
  unfolding whole_expression
  whole_expression-Typed tokens = expression-Typed (4 * length tokens + 3) tokens (omega arith)
