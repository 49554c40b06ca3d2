-- ===== src/Parser/Expressions.antt =====
-- The expression parser of src/parser.cpp against its grammar.
use core_vm.Base.{
  ℕ, zero, suc, ◌+◌, ◌-◌, ◌*◌, ◌≤◌, ◌≡◌, refl, ap, ◌∙◌, List, ◌∷◌, length, arith, ◌≢◌,
}
use core_vm.Base.Outcome.{Outcome, ok, panicked, ◌>>=◌, bind_assoc, require_rparentheses}
use core_vm.Types.{Name}
use core_vm.Adt.{Adt, int_adt}
use core_vm.Ir.{make_binary}
use core_vm.Parser.{
  SymbolTable, Parsed, primary, term, term_loop, expression, expression_loop, whole_expression,
}
use core_vm.Parser.Grammar.{
  Primary, literal, name, convert, group, Product, one, multiply, Sum, only, add, factor_token,
  addend_token, factor_char, addend_char, open_token, close_token, primary_tokens, product_tokens,
  sum_tokens, primary_tree, product_tree, sum_tree, IsPrimary, IsProduct, IsSum,
}
use core_vm.Parser.Fuel.{
  product_rounds, sum_rounds, primary_fuel, product_fuel, sum_fuel, product_rounds_add,
  sum_rounds_add, sum_fuel-bound, primary_fuel-positive,
}
use core_vm.Parser.Binds.{bind_cong, closed, converted, joined, refused, stays_panicked}
use core_vm.Parser.Steps.{
  Begins, NoAddend, NoFactor, addend-NoFactor, expression_loop_round, expression_loop_stop,
  literal_lem, primary_convert, primary_group, primary_name, sum-NoCast, term_loop_round,
  term_loop_stop, sum-NoCast_other,
}

module _ (table : SymbolTable) where
  -- what the loops of Term and Expression go on with, behind what they have read
  abbrev Term : Product → Type 0
  Term q =
      (g : ℕ) (rest : List Adt)
      → product_fuel q ≤ g
      → term (suc (product_rounds q g)) table (product_tokens q rest)
        ≡ product_tree table q >>= λ ir. term_loop g table ir rest

  abbrev Expression : Sum → Type 0
  Expression s =
      (g : ℕ) (rest : List Adt)
      → sum_fuel s ≤ g
      → Begins NoFactor rest
      → expression (suc (sum_rounds s g)) table (sum_tokens s rest)
        ≡ sum_tree table s >>= λ ir. expression_loop g table ir rest

  -- Term stops where no `*` or `/` follows, with any fuel that is enough.
  term_stop :
      (q : Product)
      → Term q
      → (f : ℕ) (rest : List Adt) → suc (suc (product_rounds q (product_fuel q))) ≤ f
      → Begins NoFactor rest
      → term f table (product_tokens q rest) ≡ product_tree table q >>= λ ir. ok (ir, rest)
  term_stop q whole f rest fuel stop =
      let g : ℕ = f - (product_rounds q 0 + 2) in
      let size : f ≡ suc (product_rounds q (suc g)) =
        omega (arith, product_rounds_add q (suc g), product_rounds_add q (product_fuel q)) in
      rw
        (
          size,
          whole (suc g) rest
              (omega (arith, product_rounds_add q (suc g), product_rounds_add q (product_fuel q))),
        )
        (bind_cong (product_tree table q) (λ ir. term_loop_stop table g rest ir stop))

  expression_stop :
      (s : Sum)
      → Expression s
      → (f : ℕ) (rest : List Adt) → suc (suc (sum_rounds s (sum_fuel s))) ≤ f
      → Begins NoFactor rest
      → Begins NoAddend rest
      → expression f table (sum_tokens s rest) ≡ sum_tree table s >>= λ ir. ok (ir, rest)
  expression_stop s whole f rest fuel factors addends =
      let g : ℕ = f - (sum_rounds s 0 + 2) in
      let size : f ≡ suc (sum_rounds s (suc g)) =
        omega (arith, sum_rounds_add s (suc g), sum_rounds_add s (sum_fuel s)) in
      rw
        (
          size,
          whole (suc g) rest
              (omega (arith, sum_rounds_add s (suc g), sum_rounds_add s (sum_fuel s))) factors,
        )
        (bind_cong (sum_tree table s) (λ ir. expression_loop_stop table g rest ir addends))

  mutual
    unfolding primary_tokens primary_tree IsPrimary primary_fuel primary

    primary_lem :
        (p : Primary) (f : ℕ) (rest : List Adt)
        → IsPrimary p
        → primary_fuel p ≤ f
        → primary f table (primary_tokens p rest) ≡ primary_tree table p >>= λ ir. ok (ir, rest)
    primary_lem p zero rest h fuel = absurd (omega (arith, primary_fuel-positive p))
    primary_lem (literal a) (suc f) rest h fuel = literal_lem _ _ table a.tag a rest h
    primary_lem (name n) (suc f) rest h fuel = primary_name table f n rest
    primary_lem (convert t p) (suc f) rest h fuel =
        rw (primary_convert table f t (primary_tokens p rest), primary_lem p f rest h (omega arith))
          (converted (primary_tree table p) rest t)
    primary_lem (group s c) (suc f) rest (h, (factor, addend), opened) fuel =
        rw
          (
            primary_group table f (sum_tokens s (c ∷ rest)) (sum-NoCast s (c ∷ rest) h opened),
            expression_stop s (sum_lem s h) f (c ∷ rest) (omega arith) factor addend,
          )
          (closed (sum_tree table s) c rest opened)

    product_lem : (q : Product) → IsProduct q → Term q
    product_lem (one p) h g rest fuel = rw (primary_lem p g rest h fuel) (
        bind_assoc (primary_tree table p) (λ ir. ok (ir, rest))
          (λ (ir, rest'). term_loop g table ir rest'))
    product_lem (multiply q f p) (h, h') g rest fuel =
        rw (product_lem q h (suc g) (factor_token f ∷ primary_tokens p rest) (omega arith)) (
          bind_cong (product_tree table q) (λ ir. rw (
            term_loop_round table g f ir (primary_tokens p rest),
            primary_lem p g rest h' (omega arith),
          ))
          ∙ joined (product_tree table q) (primary_tree table p) rest
              (λ lhs rhs. make_binary lhs rhs (factor_char f))
              (λ ir rest'. term_loop g table ir rest'))

    sum_lem : (s : Sum) → IsSum s → Expression s
    sum_lem (only q) h g rest fuel stop =
        rw (term_stop q (product_lem q h) g rest (omega arith) stop) (
          bind_assoc (product_tree table q) (λ ir. ok (ir, rest))
            (λ (ir, rest'). expression_loop g table ir rest'))
    sum_lem (add s a q) (h, h') g rest fuel stop =
        rw
          (sum_lem s h (suc g) (addend_token a ∷ product_tokens q rest) (omega arith)
            (addend-NoFactor a))
          (bind_cong (sum_tree table s) (λ ir. rw (
            expression_loop_round table g a ir (product_tokens q rest),
            term_stop q (product_lem q h') g rest (omega arith) stop,
          ))
            ∙ joined (sum_tree table s) (product_tree table q) rest
                (λ lhs rhs. make_binary lhs rhs (addend_char a))
                (λ ir rest'. expression_loop g table ir rest'))

  -- Expression on the tokens of a sentence, before what is neither an operator nor missing, ends as
  -- the tree of the sentence does, and leaves what follows.
  pub whole_expression_lem :
      (s : Sum) (rest : List Adt)
      → IsSum s
      → Begins NoFactor rest
      → Begins NoAddend rest
      → whole_expression table (sum_tokens s rest) ≡ sum_tree table s >>= λ ir. ok (ir, rest)
  unfolding whole_expression
  whole_expression_lem s rest h factors addends =
      expression_stop s (sum_lem s h) (4 * length (sum_tokens s rest) + 3) rest
        (omega (arith, sum_fuel-bound s rest, sum_rounds_add s (sum_fuel s))) factors addends

  -- a group that is closed by a parenthesis
  primary_closed :
      (s : Sum) (f : ℕ) (rest : List Adt)
      → IsSum s
      → ((n : Name) → s ≢ only (one (name n)))
      → suc (suc (sum_rounds s (sum_fuel s))) ≤ f
      → primary (suc f) table (open_token ∷ sum_tokens s (close_token ∷ rest))
        ≡ sum_tree table s >>= λ ir. panicked require_rparentheses
  unfolding int_adt
  primary_closed s f rest h other fuel =
      rw
        (
          primary_group table f (sum_tokens s (close_token ∷ rest))
              (sum-NoCast_other s (close_token ∷ rest) h other),
          expression_stop s (sum_lem s h) f (close_token ∷ rest) fuel refl refl,
        )
        (refused (sum_tree table s) close_token rest refl)

  -- A sum between parentheses, other than a single name, which might be a type: Expression ends as
  -- the tree of the sum does where that has none, and panics where it has one.
  pub whole_expression_closed :
      (s : Sum) (rest : List Adt)
      → IsSum s
      → ((n : Name) → s ≢ only (one (name n)))
      → whole_expression table (open_token ∷ sum_tokens s (close_token ∷ rest))
        ≡ sum_tree table s >>= λ ir. panicked require_rparentheses
  unfolding whole_expression primary
  whole_expression_closed s rest h other =
      let tokens = sum_tokens s (close_token ∷ rest) in
      let g : ℕ = 4 * suc (length tokens) in
      let enough : suc (suc (sum_rounds s (sum_fuel s))) ≤ g =
        omega (arith, sum_fuel-bound s (close_token ∷ rest), sum_rounds_add s (sum_fuel s)) in
      let fuel : 4 * suc (length tokens) + 3 ≡ suc (suc (suc g)) = omega arith in
      rw fuel (
        ap
          (λ (r : Outcome Parsed).
            r >>= (λ (ir, left). term_loop (suc g) table ir left) >>= λ (ir, left).
            expression_loop (suc (suc g)) table ir left)
          (primary_closed s g rest h other enough)
        ∙ stays_panicked (sum_tree table s) _ _ _)
