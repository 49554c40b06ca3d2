-- ===== src/Parser/Steps.antt =====
-- Single steps of the expression parser of src/parser.cpp on the tokens of its grammar.
use core_vm.Base.{ℕ, suc, ◌≡◌, refl, true, false, List, [], ◌∷◌, Option, none, some, ◌≢◌}
use core_vm.Base.Outcome.{Outcome, ok, ◌>>=◌}
use core_vm.Types.{Name, CvmType, int, find_type-get_name}
use core_vm.Util.{get_load_opcode_by_type}
use core_vm.Adt.{SymbolType, Adt, is_string, is_rparentheses, string_adt, int_adt}
use core_vm.Ir.{Ir, make_binary}
use core_vm.Parser.{
  SymbolTable, find, Parsed, term_operator, expression_operator, cast_type, close, parenthesised,
  load_variable, primary_token, primary, term, term_loop, expression, expression_loop,
}
use core_vm.Parser.Grammar.{
  Primary, literal, name, convert, group, Product, one, multiply, Sum, only, add, Factor, times,
  over, Addend, plus, minus, factor_token, addend_token, factor_char, addend_char, open_token,
  close_token, type_token, primary_tokens, product_tokens, sum_tokens, literal_tree, name_tree,
  is_literal, IsPrimary, IsProduct, IsSum,
}
use core_vm.Parser.Binds.{converts}

-- What follows is nothing, or begins with a token that fails a test.
abbrev pub Begins : (Adt → Type 0) → List Adt → Type 0
Begins P [] = Unit
Begins P (a ∷ rest) = P a

-- no operator of a row
abbrev pub NoFactor : Adt → Type 0
NoFactor a = term_operator a.tag ≡ none

abbrev pub NoAddend : Adt → Type 0
NoAddend a = expression_operator a.tag ≡ none

abbrev pub NoClose : Adt → Type 0
NoClose a = is_rparentheses a.tag ≡ false

literal-is_string : (t : SymbolType) → is_literal t ≡ true → is_string t ≡ false
literal-is_string SymbolType.string h = cc
literal-is_string SymbolType.int h = refl
literal-is_string _ h = refl

-- A sum begins with a token from which `(type)` is not read.
abbrev pub NoCast : List Adt → Type 0
NoCast tokens = (a : Adt) × (rest : List Adt) × (tokens ≡ (a ∷ rest)) × (cast_type a rest ≡ none)

no_cast : (a : Adt) (rest : List Adt) → is_string a.tag ≡ false → cast_type a rest ≡ none
unfolding cast_type
no_cast a [] h = refl
no_cast a (b ∷ rest) h = rw h

primary-NoCast :
    (p : Primary) (rest : List Adt)
    → IsPrimary p
    → Begins NoClose rest
    → NoCast (primary_tokens p rest)
unfolding primary_tokens cast_type string_adt int_adt IsPrimary
primary-NoCast (literal a) rest h next = (a, rest, refl, no_cast a rest (literal-is_string a.tag h))
primary-NoCast (name n) [] h next = (string_adt n SymbolType.string, [], refl, refl)
primary-NoCast (name n) (b ∷ rest) h next =
    (string_adt n SymbolType.string, b ∷ rest, refl, rw next)
primary-NoCast (convert t p) rest h next =
    (open_token, type_token t ∷ close_token ∷ primary_tokens p rest, refl, refl)
primary-NoCast (group s c) rest h next =
    (open_token, sum_tokens s (c ∷ rest), refl, no_cast open_token _ refl)

factor-NoClose : (f : Factor) → NoClose (factor_token f)
unfolding int_adt
factor-NoClose times = refl
factor-NoClose over = refl

addend-NoClose : (a : Addend) → NoClose (addend_token a)
unfolding int_adt
addend-NoClose plus = refl
addend-NoClose minus = refl

pub addend-NoFactor : (a : Addend) → NoFactor (addend_token a)
unfolding int_adt
addend-NoFactor plus = refl
addend-NoFactor minus = refl

product-NoCast :
    (q : Product) (rest : List Adt)
    → IsProduct q
    → Begins NoClose rest
    → NoCast (product_tokens q rest)
unfolding primary_tokens IsPrimary
product-NoCast (one p) rest h next = primary-NoCast p rest h next
product-NoCast (multiply q f p) rest (h, _) next =
    product-NoCast q (factor_token f ∷ primary_tokens p rest) h (factor-NoClose f)

pub sum-NoCast :
    (s : Sum) (rest : List Adt) → IsSum s → Begins NoClose rest → NoCast (sum_tokens s rest)
unfolding primary_tokens IsPrimary
sum-NoCast (only q) rest h next = product-NoCast q rest h next
sum-NoCast (add s a q) rest (h, _) next =
    sum-NoCast s (addend_token a ∷ product_tokens q rest) h (addend-NoClose a)

cast_type-type_token :
    (t : CvmType) (tokens : List Adt)
    → cast_type (type_token t) (close_token ∷ tokens) ≡ some (t, tokens)
unfolding cast_type int_adt string_adt
cast_type-type_token t tokens = rw (find_type-get_name t)

-- Primary behind an opening parenthesis, by what stands there
module _ (again whole : List Adt → Outcome Parsed) where
  parenthesised_convert :
      (t : CvmType) (a : Adt) (rest tokens : List Adt)
      → cast_type a rest ≡ some (t, tokens)
      → parenthesised again whole (a ∷ rest) ≡ again tokens >>= converts t
  unfolding parenthesised
  parenthesised_convert t a rest tokens h = rw (h, parenthesised)

  parenthesised_group :
      (a : Adt) (rest : List Adt)
      → cast_type a rest ≡ none
      → parenthesised again whole (a ∷ rest) ≡ whole (a ∷ rest) >>= λ (res, rest'). close res rest'
  unfolding parenthesised
  parenthesised_group a rest h = rw (h, parenthesised)

-- a variable, and a literal of each tag
load_variable-name_tree :
    (n : Name) (rest : List Adt) (entry : Option (ℕ × CvmType))
    → load_variable n rest entry ≡ name_tree n entry >>= λ ir. ok (ir, rest)
unfolding load_variable name_tree get_load_opcode_by_type
load_variable-name_tree n rest none = refl
load_variable-name_tree n rest (some (ix, int)) = refl
load_variable-name_tree n rest (some (ix, _)) = refl

pub literal_lem :
    (again whole : List Adt → Outcome Parsed) (table : SymbolTable) (t : SymbolType) (a : Adt)
    (rest : List Adt)
    → is_literal t ≡ true
    → primary_token again whole table t a rest ≡ literal_tree t a >>= λ ir. ok (ir, rest)
unfolding primary_token literal_tree
literal_lem again whole table SymbolType.string a rest h = cc
literal_lem again whole table SymbolType.lparentheses a rest h = cc
literal_lem again whole table SymbolType.rparentheses a rest h = cc
literal_lem again whole table SymbolType.int a rest h = refl
literal_lem again whole table _ a rest h = refl

-- A sum that is no single name begins so, whatever follows it.
pub sum-NoCast_other :
    (s : Sum) (rest : List Adt)
    → IsSum s
    → ((n : Name) → s ≢ only (one (name n)))
    → NoCast (sum_tokens s rest)
unfolding primary_tokens IsPrimary int_adt
sum-NoCast_other (only (one (literal a))) rest h other =
    (a, rest, refl, no_cast a rest (literal-is_string a.tag h))
sum-NoCast_other (only (one (name n))) rest h other = absurd (other n refl)
sum-NoCast_other (only (one (convert t p))) rest h other =
    (open_token, _, refl, no_cast open_token _ refl)
sum-NoCast_other (only (one (group s c))) rest h other =
    (open_token, _, refl, no_cast open_token _ refl)
sum-NoCast_other (only (multiply q f p)) rest (h, _) other =
    product-NoCast q (factor_token f ∷ primary_tokens p rest) h (factor-NoClose f)
sum-NoCast_other (add s a q) rest (h, _) other =
    sum-NoCast s (addend_token a ∷ product_tokens q rest) h (addend-NoClose a)

module _ (table : SymbolTable) where
  -- the loops stop at a token that is not theirs
  pub term_loop_stop :
      (g : ℕ) (rest : List Adt) (ir : Ir)
      → Begins NoFactor rest
      → term_loop (suc g) table ir rest ≡ ok (ir, rest)
  unfolding primary
  term_loop_stop g [] ir h = refl
  term_loop_stop g (a ∷ rest) ir h = rw (h, term_loop)

  pub expression_loop_stop :
      (g : ℕ) (rest : List Adt) (ir : Ir)
      → Begins NoAddend rest
      → expression_loop (suc g) table ir rest ≡ ok (ir, rest)
  unfolding primary
  expression_loop_stop g [] ir h = refl
  expression_loop_stop g (a ∷ rest) ir h = rw (h, expression_loop)

  -- one round of a loop on its operator
  pub term_loop_round :
      (g : ℕ) (f : Factor) (ir : Ir) (rest : List Adt)
      → term_loop (suc g) table ir (factor_token f ∷ rest)
        ≡ primary g table rest >>= λ (rhs, rest').
            make_binary ir rhs (factor_char f) >>= λ res. term_loop g table res rest'
  unfolding primary int_adt
  term_loop_round g times ir rest = refl
  term_loop_round g over ir rest = refl

  pub expression_loop_round :
      (g : ℕ) (a : Addend) (ir : Ir) (rest : List Adt)
      → expression_loop (suc g) table ir (addend_token a ∷ rest)
        ≡ term g table rest >>= λ (rhs, rest').
            make_binary ir rhs (addend_char a) >>= λ res. expression_loop g table res rest'
  unfolding primary int_adt
  expression_loop_round g plus ir rest = refl
  expression_loop_round g minus ir rest = refl

  pub primary_name :
      (f : ℕ) (n : Name) (rest : List Adt)
      → primary (suc f) table (string_adt n SymbolType.string ∷ rest)
        ≡ name_tree n (find n table) >>= λ ir. ok (ir, rest)
  unfolding primary primary_token string_adt
  primary_name f n rest = load_variable-name_tree n rest (find n table)

  pub primary_convert :
      (f : ℕ) (t : CvmType) (tokens : List Adt)
      → primary (suc f) table (open_token ∷ type_token t ∷ close_token ∷ tokens)
        ≡ primary f table tokens >>= converts t
  unfolding primary primary_token int_adt
  primary_convert f t tokens =
      parenthesised_convert _ _ t (type_token t) (close_token ∷ tokens) tokens
        (cast_type-type_token t tokens)

  pub primary_group :
      (f : ℕ) (tokens : List Adt)
      → NoCast tokens
      → primary (suc f) table (open_token ∷ tokens)
        ≡ expression f table tokens >>= λ (res, rest). close res rest
  unfolding primary primary_token int_adt
  primary_group f tokens (a, rest, shape, none_found) =
      rw shape (parenthesised_group _ _ a rest none_found)
