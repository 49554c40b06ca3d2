-- ===== src/Parser/Sentences.antt =====
-- The statements that src/parser.cpp reads, with their tokens and what they mean: the node, and the
-- table of symbols behind them.
use core_vm.Base.{ℕ, List, [], ◌∷◌, Option, none, some, ltb, if◌then◌else◌, length}
use core_vm.Base.Outcome.{
  Outcome, ok, panicked, ◌>>=◌, ◌>>◌, assert, type_mismatch, sym_is_not_found,
  sym_conflicts_with_builtin_types,
}
use core_vm.Types.{Name, CvmType, void, type_eq, contain_type}
use core_vm.Util.{get_store_opcode_by_type}
use core_vm.Adt.{SymbolType, Adt, int_adt, string_adt}
use core_vm.Ir.{Ir, Stmt, assign, definition, no_op, function_call, Program, get_res_type}
use core_vm.Parser.{SymbolTable, find, add_symbol}
use core_vm.Parser.Grammar.{Sum, sum_tokens, sum_tree, IsSum, open_token, close_token, type_token}

-- `t x;`, `t x = s`, `x = s`, `f(s, ..., s)` and `;`
pub data Sentence : Type 0 where
  declare : CvmType → Name → Sentence
  initialise : CvmType → Name → Sum → Sentence
  store : Name → Sum → Sentence
  call : Name → List Sum → Sentence
  empty : Sentence

abbrev pub name_token : Name → Adt
name_token x = string_adt x SymbolType.string

abbrev pub eq_token : Adt
eq_token = int_adt b'=' SymbolType.eq

abbrev pub comma_token : Adt
comma_token = int_adt b',' SymbolType.comma

abbrev pub semicolon_token : Adt
semicolon_token = int_adt b';' SymbolType.semicolon

-- the arguments of a call and its closing parenthesis
abbrev pub args_tokens : List Sum → List Adt → List Adt
args_tokens [] rest = close_token ∷ rest
args_tokens (s ∷ []) rest = sum_tokens s (close_token ∷ rest)
args_tokens (s ∷ s' ∷ ss) rest = sum_tokens s (comma_token ∷ args_tokens (s' ∷ ss) rest)

-- the tokens of a statement, before those that follow
abbrev pub sentence_tokens : Sentence → List Adt → List Adt
sentence_tokens (declare t x) rest = type_token t ∷ name_token x ∷ semicolon_token ∷ rest
sentence_tokens (initialise t x s) rest = type_token t ∷ name_token x ∷ eq_token ∷ sum_tokens s rest
sentence_tokens (store x s) rest = name_token x ∷ eq_token ∷ sum_tokens s rest
sentence_tokens (call f ss) rest = name_token f ∷ open_token ∷ args_tokens ss rest
sentence_tokens empty rest = semicolon_token ∷ rest

abbrev pub program_tokens : List Sentence → List Adt
program_tokens [] = []
program_tokens (s ∷ p) = sentence_tokens s (program_tokens p)

-- the store of a value into a variable of its type; the name is copied for the message
abbrev pub store_tree : CvmType → Name → ℕ → Outcome Ir → Outcome Stmt
store_tree t x loc r = do
  expr ← r
  opcode ← get_store_opcode_by_type t
  if type_eq (get_res_type expr) t
      then ok (
          assign (record { name = x; ix = loc; res_type = t; opcode = opcode }) expr
            (get_res_type expr))
      else (assert (ltb (length x) 64) >> panicked type_mismatch)

-- a store into a variable that is in the table, or not
abbrev pub stored : Name → Outcome Ir → Option (ℕ × CvmType) → Outcome Stmt
stored x r none = panicked sym_is_not_found
stored x r (some (ix, t)) =
    if contain_type x then panicked sym_conflicts_with_builtin_types else store_tree t x ix r

abbrev pub args_tree : SymbolTable → List Sum → Outcome (List Ir)
args_tree table [] = ok []
args_tree table (s ∷ ss) = do arg ← sum_tree table s; args ← args_tree table ss; ok (arg ∷ args)

-- a declaration's cell is found before its value is read, in the table that has it
unfoldable pub sentence_tree : SymbolTable → Sentence → Outcome (Stmt × SymbolTable)
sentence_tree table (declare t x) =
    let (loc, table') = add_symbol x t table in ok (definition x loc t, table')
sentence_tree table (initialise t x s) =
    let (loc, table') = add_symbol x t table in
    store_tree t x loc (sum_tree table' s) >>= λ st. ok (st, table')
sentence_tree table (store x s) =
    stored x (sum_tree table s) (find x table) >>= λ st. ok (st, table)
sentence_tree table (call f ss) =
    args_tree table ss >>= λ args. ok (function_call f args void, table)
sentence_tree table empty = ok (no_op, table)

unfoldable pub program_tree : SymbolTable → List Sentence → Outcome (Program × SymbolTable)
unfolding sentence_tree
program_tree table [] = ok ([], table)
program_tree table (s ∷ p) = sentence_tree table s >>= λ (st, table').
    program_tree table' p >>= λ (sts, table''). ok (st ∷ sts, table'')

abbrev pub AllSums : List Sum → Type 0
AllSums [] = Unit
AllSums (s ∷ ss) = IsSum s × AllSums ss

-- The sums of a statement are sentences.
abbrev pub IsSentence : Sentence → Type 0
IsSentence (declare t x) = Unit
IsSentence (initialise t x s) = IsSum s
IsSentence (store x s) = IsSum s
IsSentence (call f ss) = AllSums ss
IsSentence empty = Unit

abbrev pub AllSentences : List Sentence → Type 0
AllSentences [] = Unit
AllSentences (s ∷ p) = IsSentence s × AllSentences p
