-- ===== src/Parser/Calls.antt =====
-- The arguments of a call in src/parser.cpp, against the grammar.
use core_vm.Base.{ℕ, zero, suc, ◌<◌, ◌≡◌, refl, ◌∙◌, true, false, List, [], ◌∷◌, length, arith, sym}
use core_vm.Base.Outcome.{Outcome, ok, ◌>>=◌, bind_assoc}
use core_vm.Adt.{SymbolType, Adt, is_rparentheses, int_adt, string_adt}
use core_vm.Ir.{Ir}
use core_vm.Parser.{SymbolTable, whole_expression, skip_comma, call_args}
use core_vm.Parser.Grammar.{
  Primary, literal, name, convert, group, Product, one, multiply, Sum, only, add, factor_token,
  addend_token, primary_tokens, product_tokens, sum_tokens, sum_tree, IsPrimary, IsProduct, IsSum,
  is_literal, close_token,
}
use core_vm.Parser.Binds.{before, bind_cong}
use core_vm.Parser.Steps.{Begins, NoFactor, NoAddend}
use core_vm.Parser.Expressions.{whole_expression_lem}
use core_vm.Parser.Sentences.{args_tokens, args_tree, AllSums, comma_token}

-- The tokens begin with one that is no closing parenthesis.
abbrev Opens : List Adt → Type 0
Opens tokens =
    (a : Adt) × (rest : List Adt) × (tokens ≡ (a ∷ rest)) × (is_rparentheses a.tag ≡ false)

literal-is_rparentheses : (t : SymbolType) → is_literal t ≡ true → is_rparentheses t ≡ false
literal-is_rparentheses SymbolType.rparentheses h = cc
literal-is_rparentheses SymbolType.int h = refl
literal-is_rparentheses _ h = refl

primary-Opens : (p : Primary) (rest : List Adt) → IsPrimary p → Opens (primary_tokens p rest)
unfolding primary_tokens IsPrimary int_adt string_adt
primary-Opens (literal a) rest h = (a, rest, refl, literal-is_rparentheses a.tag h)
primary-Opens (name n) rest h = (_, rest, refl, refl)
primary-Opens (convert t p) rest h = (_, _, refl, refl)
primary-Opens (group s c) rest h = (_, _, refl, refl)

product-Opens : (q : Product) (rest : List Adt) → IsProduct q → Opens (product_tokens q rest)
unfolding primary_tokens IsPrimary
product-Opens (one p) rest h = primary-Opens p rest h
product-Opens (multiply q f p) rest h = product-Opens q (factor_token f ∷ primary_tokens p rest) h.0

sum-Opens : (s : Sum) (rest : List Adt) → IsSum s → Opens (sum_tokens s rest)
unfolding primary_tokens IsPrimary
sum-Opens (only q) rest h = product-Opens q rest h
sum-Opens (add s a q) rest h = sum-Opens s (addend_token a ∷ product_tokens q rest) h.0

module _ (table : SymbolTable) where
  -- the arguments, before the tokens behind the call
  abbrev pub Args : Type 0
  Args = List Ir × List Adt

  abbrev more_args : Ir → Args → Outcome Args
  more_args arg (args, rest) = ok (arg ∷ args, rest)

  -- what the loop does with an argument and the tokens behind it
  abbrev arg_round : ℕ → Ir → List Adt → Outcome Args
  arg_round f arg rest = skip_comma rest >>= λ rest'. call_args f table rest' >>= more_args arg

  args_step :
      (f : ℕ) (tokens : List Adt)
      → Opens tokens
      → call_args (suc f) table tokens
        ≡ whole_expression table tokens >>= λ (arg, rest). arg_round f arg rest
  unfolding call_args
  args_step f tokens (a, rest, shape, no_close) = rw shape (rw (no_close, call_args))

  abbrev left : List Adt → List Ir → Outcome Args
  left rest args = ok (args, rest)

  -- an argument in front of the others
  row_args :
      (r : Outcome Ir) (q : Outcome (List Ir)) (rest : List Adt)
      → (r >>= λ arg. (q >>= left rest) >>= more_args arg)
        ≡ (r >>= λ arg. q >>= λ args. ok (arg ∷ args)) >>= left rest
  row_args r q rest =
      bind_cong r (λ arg.
        bind_assoc q (left rest) (more_args arg)
        ∙ sym (bind_assoc q (λ args. ok (arg ∷ args)) (left rest)))
      ∙ sym (bind_assoc r (λ arg. q >>= λ args. ok (arg ∷ args)) (left rest))

  -- one argument, behind which stands a comma or the end
  one_arg :
      (f : ℕ) (s : Sum) (rest rest' : List Adt)
      → IsSum s
      → Begins NoFactor rest
      → Begins NoAddend rest
      → skip_comma rest ≡ ok rest'
      → call_args (suc f) table (sum_tokens s rest)
        ≡ sum_tree table s >>= λ arg. call_args f table rest' >>= more_args arg
  one_arg f s rest rest' h factors addends comma =
      rw
        (
          args_step f (sum_tokens s rest) (sum-Opens s rest h),
          whole_expression_lem table s rest h factors addends,
        )
        (bind_assoc (sum_tree table s) (before rest) (λ (arg, rest₁). arg_round f arg rest₁)
          ∙ bind_cong (sum_tree table s) (λ arg. rw comma))

  -- The loop over the arguments takes them one by one, and stops at the closing parenthesis.
  pub call_args_lem :
      (ss : List Sum) (f : ℕ) (rest : List Adt)
      → AllSums ss
      → length ss < f
      → call_args f table (args_tokens ss rest)
        ≡ args_tree table ss >>= λ args. ok (args, close_token ∷ rest)
  unfolding call_args skip_comma int_adt
  call_args_lem ss zero rest h fuel = absurd (omega arith)
  call_args_lem [] (suc f) rest h fuel = refl
  call_args_lem (s ∷ []) (suc zero) rest h fuel = absurd (omega arith)
  call_args_lem (s ∷ []) (suc (suc f)) rest (h, hs) fuel =
      rw (one_arg (suc f) s (close_token ∷ rest) (close_token ∷ rest) h refl refl refl)
        (sym (bind_assoc (sum_tree table s) (λ arg. ok (arg ∷ [])) (left (close_token ∷ rest))))
  call_args_lem (s ∷ s' ∷ ss) (suc f) rest (h, hs) fuel =
      rw
        (
          one_arg f s (comma_token ∷ args_tokens (s' ∷ ss) rest) (args_tokens (s' ∷ ss) rest) h refl
              refl refl,
          call_args_lem (s' ∷ ss) f rest hs (omega arith),
        )
        (row_args (sum_tree table s) (args_tree table (s' ∷ ss)) (close_token ∷ rest))
