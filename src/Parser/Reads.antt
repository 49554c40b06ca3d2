-- ===== src/Parser/Reads.antt =====
-- Statements and programs of src/parser.cpp against their grammar.
use core_vm.Base.{
  ℕ, zero, suc, ◌+◌, ◌<◌, ◌≤◌, ◌≡◌, refl, ap, ◌∙◌, sym, Bool, true, false, List, [], ◌∷◌, Option,
  none, some, length, arith, inl, inr, Bool-cases, ltb, ◌≢◌,
}
use core_vm.Base.Outcome.{Outcome, ok, panicked, ◌>>=◌, ◌>>◌, assert, bind_assoc}
use core_vm.Types.{Name, CvmType, get_name, find_type-get_name, contain_type, type_eq}
use core_vm.Util.{get_store_opcode_by_type}
use core_vm.Adt.{SymbolType, Adt, int_adt, string_adt}
use core_vm.Types.{void}
use core_vm.Ir.{function_call, Stmt, Program, get_res_type}
use core_vm.Parser.{
  SymbolTable, find, add_symbol, Stated, extract_assign_ir, declaration, end_call, assignment,
  use_of, declared, statement_token, statement, program_loop, build,
}
use core_vm.Base.{if◌then◌else◌, ltb}
use core_vm.Base.Outcome.{type_mismatch}
use core_vm.Parser.Fuel.{sum_fuel-bound}
use core_vm.Parser.Sentences.{comma_token}
use core_vm.Parser.Grammar.{Sum, IsSum, sum_tokens, sum_tree, type_token, close_token, open_token}
use core_vm.Parser.Binds.{before, bind_cong}
use core_vm.Parser.Steps.{Begins, NoFactor, NoAddend}
use core_vm.Parser.Expressions.{whole_expression_lem}
use core_vm.Parser.Sentences.{
  Sentence, declare, initialise, store, call, empty, name_token, eq_token, semicolon_token,
  args_tokens, sentence_tokens, program_tokens, store_tree, stored, args_tree, sentence_tree,
  program_tree, AllSums, IsSentence, AllSentences,
}
use core_vm.Parser.Calls.{call_args_lem}

-- a statement, with the table and the tokens behind it
abbrev stated : SymbolTable → List Adt → Stmt → Outcome Stated
stated table rest st = ok (st, table, rest)

-- the test of a store, with what is kept behind it
stores :
    (same short : Bool) (st : Stmt) (table : SymbolTable) (rest : List Adt)
    → (if same then stated table rest st else (assert short >> panicked type_mismatch))
      ≡ (if same then ok st else (assert short >> panicked type_mismatch)) >>= stated table rest
stores true short st table rest = refl
stores false true st table rest = refl
stores false false st table rest = refl

extract_lem :
    (t : CvmType) (x : Name) (loc : ℕ) (table : SymbolTable) (s : Sum) (rest : List Adt)
    → IsSum s
    → Begins NoFactor rest
    → Begins NoAddend rest
    → extract_assign_ir t x loc table (sum_tokens s rest)
      ≡ store_tree t x loc (sum_tree table s) >>= stated table rest
unfolding extract_assign_ir
extract_lem t x loc table s rest h factors addends =
    rw (whole_expression_lem table s rest h factors addends) (
      bind_assoc (sum_tree table s) (before rest) _
      ∙ bind_cong (sum_tree table s) (λ expr.
        bind_cong (get_store_opcode_by_type t)
          (λ opcode. stores (type_eq (get_res_type expr) t) (ltb (length x) 64) _ table rest)
        ∙ sym (bind_assoc (get_store_opcode_by_type t) _ (stated table rest)))
      ∙ sym (bind_assoc (sum_tree table s) _ (stated table rest)))

-- The tokens behind a statement begin with a name or a semicolon, or are none.
program-Begins :
    (p : List Sentence) → Begins NoFactor (program_tokens p) × Begins NoAddend (program_tokens p)
unfolding int_adt string_adt
program-Begins [] = (tt, tt)
program-Begins (declare t x ∷ p) = (refl, refl)
program-Begins (initialise t x s ∷ p) = (refl, refl)
program-Begins (store x s ∷ p) = (refl, refl)
program-Begins (call f ss ∷ p) = (refl, refl)
program-Begins (empty ∷ p) = (refl, refl)

-- what the loop over the statements goes on with
abbrev go_on : ℕ → Stated → Outcome (Program × SymbolTable)
go_on f (st, table, rest) = program_loop f table rest >>= λ (p, table'). ok (st ∷ p, table')

abbrev with_rest : List Adt → Stmt × SymbolTable → Outcome Stated
with_rest rest (st, table) = ok (st, table, rest)

-- A type and a name begin a declaration; a name before `=` or `(` does not.
declared-type_token :
    (t : CvmType) (x : Name) (rest : List Adt)
    → declared (get_name t) (name_token x ∷ rest) ≡ some (t, x, rest)
unfolding declared string_adt
declared-type_token t x rest = rw (find_type-get_name t)

statement_declares :
    (name x : Name) (t : CvmType) (table : SymbolTable) (rest rest' : List Adt)
    → declared name rest ≡ some (t, x, rest')
    → statement_token SymbolType.string name table rest ≡ declaration t x table rest'
unfolding statement_token
statement_declares name x t table rest rest' h = rw (h, statement_token)

args_tokens_longer : (ss : List Sum) (rest : List Adt) → length ss ≤ length (args_tokens ss rest)
args_tokens_longer [] rest = omega arith
args_tokens_longer (s ∷ []) rest = omega (arith, sum_fuel-bound s (close_token ∷ rest))
args_tokens_longer (s ∷ s' ∷ ss) rest = omega (
  arith,
  sum_fuel-bound s (comma_token ∷ args_tokens (s' ∷ ss) rest),
  args_tokens_longer (s' ∷ ss) rest,
)

args_longer : (ss : List Sum) (rest : List Adt) → 1 + length rest ≤ length (args_tokens ss rest)
args_longer [] rest = omega arith
args_longer (s ∷ []) rest = omega (arith, sum_fuel-bound s (close_token ∷ rest))
args_longer (s ∷ s' ∷ ss) rest =
    omega (
      arith,
      sum_fuel-bound s (comma_token ∷ args_tokens (s' ∷ ss) rest),
      args_longer (s' ∷ ss) rest,
    )

module _ (table : SymbolTable) (rest : List Adt) where
  declare_lem :
      (t : CvmType) (x : Name)
      → statement table (type_token t) (name_token x ∷ semicolon_token ∷ rest)
        ≡ sentence_tree table (declare t x) >>= with_rest rest
  unfolding statement sentence_tree declaration string_adt int_adt
  declare_lem t x =
      statement_declares (get_name t) x t table (name_token x ∷ semicolon_token ∷ rest)
        (semicolon_token ∷ rest) (declared-type_token t x (semicolon_token ∷ rest))

  module _ (factors : Begins NoFactor rest) (addends : Begins NoAddend rest) where
    initialise_lem :
        (t : CvmType) (x : Name) (s : Sum)
        → IsSum s
        → statement table (type_token t) (name_token x ∷ eq_token ∷ sum_tokens s rest)
          ≡ sentence_tree table (initialise t x s) >>= with_rest rest
    unfolding statement sentence_tree declaration string_adt int_adt
    initialise_lem t x s h =
        let added : ℕ × SymbolTable = add_symbol x t table in
        statement_declares (get_name t) x t table (name_token x ∷ eq_token ∷ sum_tokens s rest)
          (eq_token ∷ sum_tokens s rest) (declared-type_token t x (eq_token ∷ sum_tokens s rest))
        ∙ extract_lem t x added.0 added.1 s rest h factors addends
        ∙ sym (
            bind_assoc (store_tree t x added.0 (sum_tree added.1 s)) (λ st. ok (st, added.1))
              (with_rest rest))

    store_lem :
        (x : Name) (s : Sum)
        → IsSum s
        → statement table (name_token x) (eq_token ∷ sum_tokens s rest)
          ≡ sentence_tree table (store x s) >>= with_rest rest
    unfolding statement statement_token sentence_tree declared use_of assignment string_adt int_adt
    store_lem x s h = by_entry (find x table)
      where
        by_entry :
            (entry : Option (ℕ × CvmType))
            → assignment x table (sum_tokens s rest) entry
              ≡ (stored x (sum_tree table s) entry >>= λ st. ok (st, table)) >>= with_rest rest
        by_entry none = refl
        by_entry (some (ix, t)) = elim (Bool-cases (contain_type x)) [
          | inl e ↦ rw (assignment, e)
          | inr e ↦
              rw (assignment, e)
                (extract_lem t x ix table s rest h factors addends
                  ∙ sym (
                      bind_assoc (store_tree t x ix (sum_tree table s)) (λ st. ok (st, table))
                        (with_rest rest)))
        ]

  empty_lem : statement table semicolon_token rest ≡ sentence_tree table empty >>= with_rest rest
  unfolding statement statement_token sentence_tree int_adt
  empty_lem = refl

  call_lem :
      (g : Name) (ss : List Sum)
      → AllSums ss
      → statement table (name_token g) (open_token ∷ args_tokens ss rest)
        ≡ sentence_tree table (call g ss) >>= with_rest rest
  unfolding statement statement_token sentence_tree declared use_of end_call string_adt int_adt
  call_lem g ss h =
      rw
        (call_args_lem table ss (suc (length (args_tokens ss rest))) rest h
          (omega (arith, args_tokens_longer ss rest)))
        (bind_assoc (args_tree table ss) (λ args. ok (args, close_token ∷ rest))
            (λ (args, rest'). end_call g args table rest')
          ∙ sym (
              bind_assoc (args_tree table ss) (λ args. ok (function_call g args void, table))
                (with_rest rest)))

-- one round of the loop over the statements
program_loop_round :
    (f : ℕ) (table : SymbolTable) (s : Sentence) (rest : List Adt)
    → IsSentence s
    → Begins NoFactor rest
    → Begins NoAddend rest
    → program_loop (suc f) table (sentence_tokens s rest)
      ≡ (sentence_tree table s >>= with_rest rest) >>= go_on f
unfolding program_loop
program_loop_round f table (declare t x) rest h factors addends =
    ap (λ (r : Outcome Stated). r >>= go_on f) (declare_lem table rest t x)
program_loop_round f table (initialise t x s) rest h factors addends =
    ap (λ (r : Outcome Stated). r >>= go_on f) (initialise_lem table rest factors addends t x s h)
program_loop_round f table (store x s) rest h factors addends =
    ap (λ (r : Outcome Stated). r >>= go_on f) (store_lem table rest factors addends x s h)
program_loop_round f table (call g ss) rest h factors addends =
    ap (λ (r : Outcome Stated). r >>= go_on f) (call_lem table rest g ss h)
program_loop_round f table empty rest h factors addends =
    ap (λ (r : Outcome Stated). r >>= go_on f) (empty_lem table rest)

program_loop_lem :
    (p : List Sentence) (f : ℕ) (table : SymbolTable)
    → AllSentences p
    → length p < f
    → program_loop f table (program_tokens p) ≡ program_tree table p
unfolding program_loop program_tree
program_loop_lem p zero table h fuel = absurd (omega arith)
program_loop_lem [] (suc f) table h fuel = refl
program_loop_lem (s ∷ p) (suc f) table (h, hs) fuel =
    let (factors, addends) = program-Begins p in
    program_loop_round f table s (program_tokens p) h factors addends
    ∙ bind_assoc (sentence_tree table s) (with_rest (program_tokens p)) (go_on f)
    ∙ bind_cong (sentence_tree table s) (λ r. rw (program_loop_lem p f r.1 hs (omega arith)))

sentence_longer :
    (s : Sentence) (rest : List Adt) → 1 + length rest ≤ length (sentence_tokens s rest)
sentence_longer (declare t x) rest = omega arith
sentence_longer (initialise t x s) rest = omega (arith, sum_fuel-bound s rest)
sentence_longer (store x s) rest = omega (arith, sum_fuel-bound s rest)
sentence_longer (call f ss) rest = omega (arith, args_longer ss rest)
sentence_longer empty rest = omega arith

program_longer : (p : List Sentence) → length p ≤ length (program_tokens p)
program_longer [] = omega arith
program_longer (s ∷ p) = omega (arith, program_longer p, sentence_longer s (program_tokens p))

build-by_loop :
    (tokens : List Adt) → tokens ≢ [] → build tokens ≡ program_loop (suc (length tokens)) [] tokens
unfolding build
build-by_loop [] h = absurd (h refl)
build-by_loop (token ∷ rest) h = refl

-- Build on the tokens of statements, one at least, ends as their meaning over the empty table does:
-- it returns the nodes and the table, or panics as the first statement does that has none.
pub build-program_tree :
    (s : Sentence) (p : List Sentence)
    → AllSentences (s ∷ p)
    → build (program_tokens (s ∷ p)) ≡ program_tree [] (s ∷ p)
build-program_tree s p h =
    let full : program_tokens (s ∷ p) ≢ [] =
      λ e. absurd (omega (arith, ap length e, sentence_longer s (program_tokens p))) in
    build-by_loop (program_tokens (s ∷ p)) full
    ∙ program_loop_lem (s ∷ p) (suc (length (program_tokens (s ∷ p)))) [] h
        (omega (arith, program_longer (s ∷ p)))
