-- ===== src/Parser/Fuel.antt =====
-- The fuel that the recursion of src/parser.cpp takes on a sentence of its grammar, which four rounds
-- for each token and three more cover.
use core_vm.Base.{ℕ, suc, ◌+◌, ◌*◌, ◌≤◌, ◌≡◌, List, ◌∷◌, length, arith}
use core_vm.Adt.{Adt}
use core_vm.Parser.Grammar.{
  Primary, literal, name, convert, group, Product, one, multiply, Sum, only, add, factor_token,
  addend_token, primary_tokens, product_tokens, sum_tokens,
}

-- the operators of a row, on top of a number
abbrev pub product_rounds : Product → ℕ → ℕ
product_rounds (one p) g = g
product_rounds (multiply q f p) g = product_rounds q (suc g)

abbrev pub sum_rounds : Sum → ℕ → ℕ
sum_rounds (only q) g = g
sum_rounds (add s a q) g = sum_rounds s (suc g)

-- the fuel of Primary, and that of the loops behind the first round
unfoldable mutual
  pub primary_fuel : Primary → ℕ
  primary_fuel (literal a) = 1
  primary_fuel (name n) = 1
  primary_fuel (convert t p) = suc (primary_fuel p)
  primary_fuel (group s close) = suc (suc (suc (sum_rounds s (sum_fuel s))))

  pub product_fuel : Product → ℕ
  product_fuel (one p) = primary_fuel p
  product_fuel (multiply q f p) = product_fuel q + primary_fuel p

  pub sum_fuel : Sum → ℕ
  sum_fuel (only q) = suc (suc (product_rounds q (product_fuel q)))
  sum_fuel (add s a q) = sum_fuel s + suc (suc (product_rounds q (product_fuel q)))

pub primary_fuel-positive : (p : Primary) → 1 ≤ primary_fuel p
unfolding primary_fuel
primary_fuel-positive (literal a) = omega arith
primary_fuel-positive (name n) = omega arith
primary_fuel-positive (convert t p) = omega arith
primary_fuel-positive (group s close) = omega arith

pub product_rounds_add : (q : Product) (g : ℕ) → product_rounds q g ≡ product_rounds q 0 + g
product_rounds_add (one p) g = omega arith
product_rounds_add (multiply q f p) g =
    omega (arith, product_rounds_add q (suc g), product_rounds_add q 1)

pub sum_rounds_add : (s : Sum) (g : ℕ) → sum_rounds s g ≡ sum_rounds s 0 + g
sum_rounds_add (only q) g = omega arith
sum_rounds_add (add s a q) g = omega (arith, sum_rounds_add s (suc g), sum_rounds_add s 1)

mutual
  unfolding primary_fuel primary_tokens

  primary_fuel-bound :
      (p : Primary) (rest : List Adt)
      → primary_fuel p + 3 + 4 * length rest ≤ 4 * length (primary_tokens p rest)
  primary_fuel-bound (literal a) rest = omega arith
  primary_fuel-bound (name n) rest = omega arith
  primary_fuel-bound (convert t p) rest = omega (arith, primary_fuel-bound p rest)
  primary_fuel-bound (group s close) rest =
      omega (arith, sum_fuel-bound s (close ∷ rest), sum_rounds_add s (sum_fuel s))

  product_fuel-bound :
      (q : Product) (rest : List Adt)
      → product_rounds q 0 + product_fuel q + 3 + 4 * length rest
        ≤ 4 * length (product_tokens q rest)
  product_fuel-bound (one p) rest = omega (arith, primary_fuel-bound p rest)
  product_fuel-bound (multiply q f p) rest = omega (
    arith,
    product_fuel-bound q (factor_token f ∷ primary_tokens p rest),
    primary_fuel-bound p rest,
    product_rounds_add q 1,
  )

  pub sum_fuel-bound :
      (s : Sum) (rest : List Adt)
      → sum_rounds s 0 + sum_fuel s + 1 + 4 * length rest ≤ 4 * length (sum_tokens s rest)
  sum_fuel-bound (only q) rest =
      omega (arith, product_fuel-bound q rest, product_rounds_add q (product_fuel q))
  sum_fuel-bound (add s a q) rest = omega (
    arith,
    sum_fuel-bound s (addend_token a ∷ product_tokens q rest),
    product_fuel-bound q rest,
    product_rounds_add q (product_fuel q),
    sum_rounds_add s 1,
  )
