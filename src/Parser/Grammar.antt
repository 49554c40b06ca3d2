-- ===== src/Parser/Grammar.antt =====
-- The grammar that src/parser.cpp reads expressions by, with what a sentence means: its tokens, and
-- its tree, in which the operators of a row associate to the left and `*` and `/` bind closer.
use core_vm.Base.{ℕ, ◌≡◌, Bool, true, false, List, ◌∷◌, Option, none, some}
use core_vm.Base.Outcome.{
  Outcome, ok, panicked, ◌>>=◌, unknown_variable, primary_require_a_number_or_string,
}
use core_vm.OpCode.{OpCode}
use core_vm.Types.{Name, CvmType, int, float, double, long, get_name}
use core_vm.Util.{get_load_opcode_by_type}
use core_vm.Adt.{SymbolType, Adt, int_adt, string_adt, is_rparentheses}
use core_vm.Ir.{Ir, variable, constant, cast, get_res_type, make_binary}
use core_vm.Parser.{SymbolTable, find, get_cast_code, term_operator, expression_operator}

pub data Factor : Type 0 where
  times over : Factor

pub data Addend : Type 0 where
  plus minus : Addend

-- A group is a sum behind an opening parenthesis, with the token that closes it.
mutual
  pub data Primary : Type 0 where
    literal : Adt → Primary
    name : Name → Primary
    convert : CvmType → Primary → Primary
    group : Sum → Adt → Primary

  pub data Product : Type 0 where
    one : Primary → Product
    multiply : Product → Factor → Primary → Product

  pub data Sum : Type 0 where
    only : Product → Sum
    add : Sum → Addend → Product → Sum

abbrev pub factor_char : Factor → ℕ
factor_char times = b'*'
factor_char over = b'/'

abbrev pub factor_token : Factor → Adt
factor_token times = int_adt b'*' SymbolType.mul
factor_token over = int_adt b'/' SymbolType.div

abbrev pub addend_char : Addend → ℕ
addend_char plus = b'+'
addend_char minus = b'-'

abbrev pub addend_token : Addend → Adt
addend_token plus = int_adt b'+' SymbolType.plus
addend_token minus = int_adt b'-' SymbolType.minus

abbrev pub open_token : Adt
open_token = int_adt b'(' SymbolType.lparentheses

abbrev pub close_token : Adt
close_token = int_adt b')' SymbolType.rparentheses

abbrev pub type_token : CvmType → Adt
type_token t = string_adt (get_name t) SymbolType.string

-- the tokens, before those that follow
unfoldable mutual
  pub primary_tokens : Primary → List Adt → List Adt
  primary_tokens (literal a) rest = a ∷ rest
  primary_tokens (name n) rest = string_adt n SymbolType.string ∷ rest
  primary_tokens (convert t p) rest =
      open_token ∷ type_token t ∷ close_token ∷ primary_tokens p rest
  primary_tokens (group s close) rest = open_token ∷ sum_tokens s (close ∷ rest)

  pub product_tokens : Product → List Adt → List Adt
  product_tokens (one p) rest = primary_tokens p rest
  product_tokens (multiply q f p) rest = product_tokens q (factor_token f ∷ primary_tokens p rest)

  pub sum_tokens : Sum → List Adt → List Adt
  sum_tokens (only q) rest = product_tokens q rest
  sum_tokens (add s a q) rest = sum_tokens s (addend_token a ∷ product_tokens q rest)

-- a literal, by its tag
unfoldable pub literal_tree : SymbolType → Adt → Outcome Ir
literal_tree SymbolType.int a = ok (constant a OpCode.i_const int)
literal_tree SymbolType.long a = ok (constant a OpCode.l_const long)
literal_tree SymbolType.float a = ok (constant a OpCode.f_const float)
literal_tree SymbolType.double a = ok (constant a OpCode.d_const double)
literal_tree _ a = panicked primary_require_a_number_or_string

-- a variable, by its entry in the table
unfoldable pub name_tree : Name → Option (ℕ × CvmType) → Outcome Ir
name_tree n none = panicked unknown_variable
name_tree n (some (ix, t)) = do op ← get_load_opcode_by_type t; ok (variable n ix op t)

module _ (table : SymbolTable) where
  unfoldable mutual
    pub primary_tree : Primary → Outcome Ir
    primary_tree (literal a) = literal_tree a.tag a
    primary_tree (name n) = name_tree n (find n table)
    primary_tree (convert t p) = do
      ir ← primary_tree p
      op ← get_cast_code (get_res_type ir) t
      ok (cast op t ir)
    primary_tree (group s close) = sum_tree s

    pub product_tree : Product → Outcome Ir
    product_tree (one p) = primary_tree p
    product_tree (multiply q f p) = do
      lhs ← product_tree q
      rhs ← primary_tree p
      make_binary lhs rhs (factor_char f)

    pub sum_tree : Sum → Outcome Ir
    sum_tree (only q) = product_tree q
    sum_tree (add s a q) = do
      lhs ← sum_tree s
      rhs ← product_tree q
      make_binary lhs rhs (addend_char a)

-- a token that ends a sum
abbrev pub IsStop : Adt → Type 0
IsStop a = (term_operator a.tag ≡ none) × (expression_operator a.tag ≡ none)

-- the tags that begin no literal
abbrev pub is_literal : SymbolType → Bool
is_literal SymbolType.string = false
is_literal SymbolType.lparentheses = false
is_literal SymbolType.rparentheses = false
is_literal _ = true

-- A literal is a token that is neither a name nor a parenthesis. A group is closed by a token
-- that is no operator and, as the source has it, no closing parenthesis.
unfoldable mutual
  pub IsPrimary : Primary → Type 0
  IsPrimary (literal a) = is_literal a.tag ≡ true
  IsPrimary (name n) = Unit
  IsPrimary (convert t p) = IsPrimary p
  IsPrimary (group s close) = IsSum s × IsStop close × (is_rparentheses close.tag ≡ false)

  pub IsProduct : Product → Type 0
  IsProduct (one p) = IsPrimary p
  IsProduct (multiply q f p) = IsProduct q × IsPrimary p

  pub IsSum : Sum → Type 0
  IsSum (only q) = IsProduct q
  IsSum (add s a q) = IsSum s × IsProduct q
