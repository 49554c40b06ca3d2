-- ===== src/Base/Outcome.antt =====
-- How a piece of the program can end. `panicked` is `panic` of src/util.cpp, which prints its message
-- and exits; `aborted` a failed `assert`; `undefined` an access outside of an allocation; `trapped`
-- the signal of an integer division that has no result. `out_of_fuel` is the model's own.
use Prim.Native.Nat.{ℕ}
use core_vm.Base.Tests.{if◌then◌else◌}
use mathlib.Core.Path.{◌≡◌, refl}
use mathlib.Core.Bool.{Bool, true, false}
use mathlib.Core.Option.{Option, none, some}

-- the messages that `panic` is called with
pub data Panic : Type 0 where
  invalid_number invalid_string_literal invalid_char : Panic
  invalid_argument please_specify_a_cvm_file invalid_symbol_type : Panic
  empty_tokens no_next_token sym_is_not_found sym_conflicts_with_builtin_types : Panic
  type_mismatch illegal_statement expected_a_semicolon_or_expression expected_a_eq : Panic
  unexpected_token_in_statement primary_require_a_token unknown_variable : Panic
  require_rparentheses primary_require_a_number_or_string unsupported_cast : Panic
  lhs_and_rhs_mismatch unknown_type unimplemented_type : Panic
  only_print_can_be_used print_only_support_one_argument : Panic
  binary_op_type_mismatch int_is_required double_is_required float_is_required : Panic
  long_is_required unimplemented_binary_op unimplemented_load_op unimplemented_store_op : Panic
  unimplemented_cast_op unimplemented_print_type : Panic
  assign_type_mismatch function_call_args_size_error : Panic
  unimplemented_bytecode : ℕ → Panic

pub data Outcome {ℓ} (A : Type ℓ) : Type ℓ where
  ok : A → Outcome A
  panicked : Panic → Outcome A
  aborted undefined trapped out_of_fuel : Outcome A

infixl 5 ◌>>=◌ ◌>>◌
abbrev pub ◌>>=◌ {ℓ κ} : {A : Type ℓ} {B : Type κ} → Outcome A → (A → Outcome B) → Outcome B
ok a >>= f = f a
panicked p >>= f = panicked p
aborted >>= f = aborted
undefined >>= f = undefined
trapped >>= f = trapped
out_of_fuel >>= f = out_of_fuel

abbrev pub ◌>>◌ {ℓ} : {B : Type ℓ} → Outcome (Unit {0}) → Outcome B → Outcome B
m >> k = m >>= λ _. k

-- a read that is undefined outside of its object
abbrev pub defined {ℓ} : {A : Type ℓ} → Option A → Outcome A
defined none = undefined
defined (some a) = ok a

-- `if (!c) panic(p)`
abbrev pub require : Bool → Panic → Outcome (Unit {0})
require true p = ok tt
require false p = panicked p

-- `assert(c)`
abbrev pub assert : Bool → Outcome (Unit {0})
assert true = ok tt
assert false = aborted

-- A computation that returns has returned at each of its steps.
module _ {ℓ κ} {A : Type ℓ} {B : Type κ} (k : A → Outcome B) where
  pub returned : (r : Outcome A) {b : B} → (r >>= k) ≡ ok b → (a : A) × (r ≡ ok a) × (k a ≡ ok b)
  returned out_of_fuel h = cc
  returned trapped h = cc
  returned undefined h = cc
  returned aborted h = cc
  returned (panicked p) h = cc
  returned (ok a) h = (a, refl, h)

pub bind_assoc {ℓ κ μ} :
    {A : Type ℓ} {B : Type κ} {C : Type μ} (r : Outcome A) (f : A → Outcome B) (g : B → Outcome C)
    → (r >>= f >>= g) ≡ (r >>= λ a. f a >>= g)
bind_assoc (ok a) f g = refl
bind_assoc (panicked _) f g = refl
bind_assoc aborted f g = refl
bind_assoc undefined f g = refl
bind_assoc trapped f g = refl
bind_assoc out_of_fuel f g = refl

-- The computation ends by `ok` with `P`, by a panic, or by a read that is undefined: it raises no
-- signal, fails no assertion, and keeps within its fuel.
abbrev pub Within {ℓ} : {A : Type ℓ} → (A → Type 0) → Outcome A → Type 0
Within P (ok a) = P a
Within P (panicked _) = Unit
Within P undefined = Unit
Within P _ = ⊥

module _ {ℓ κ} {A : Type ℓ} {B : Type κ} (P : A → Type 0) (Q : B → Type 0) where
  pub Within-bind :
      (r : Outcome A) (k : A → Outcome B)
      → Within P r
      → ((a : A) → P a → Within Q (k a))
      → Within Q (r >>= k)
  Within-bind (ok a) k h go_on = go_on a h
  Within-bind (panicked _) k h go_on = tt
  Within-bind undefined k h go_on = tt
  Within-bind _ k h go_on = absurd h

module _ {ℓ} {A : Type ℓ} (P : A → Type 0) where
  pub Within-if :
      (b : Bool) (x y : Outcome A) → Within P x → Within P y → Within P (if b then x else y)
  Within-if true x y hx hy = hx
  Within-if false x y hx hy = hy

  pub Within-mono :
      (Q : A → Type 0) (r : Outcome A) → ((a : A) → P a → Q a) → Within P r → Within Q r
  Within-mono Q (ok a) f h = f a h
  Within-mono Q (panicked _) f h = tt
  Within-mono Q undefined f h = tt
  Within-mono Q _ f h = absurd h

  pub Within-ok : (r : Outcome A) {a : A} → r ≡ ok a → Within P r → P a
  Within-ok r h within = rw h at within

-- The same, but a read or write is undefined only where `L` holds.
abbrev pub Ends {ℓ} : {A : Type ℓ} → Type 0 → (A → Type 0) → Outcome A → Type 0
Ends L P (ok a) = P a
Ends L P (panicked _) = Unit
Ends L P undefined = L
Ends L P _ = ⊥

pub Within-Ends {ℓ} :
    {A : Type ℓ} (L : Type 0) (P : A → Type 0) (r : Outcome A)
    → Within P r
    → (r ≡ undefined → L)
    → Ends L P r
Within-Ends L P (ok a) h u = h
Within-Ends L P (panicked _) h u = tt
Within-Ends L P undefined h u = u refl
Within-Ends L P _ h u = absurd h

pub Ends-bind {ℓ κ} :
    {A : Type ℓ} {B : Type κ} (L : Type 0) (P : A → Type 0) (Q : B → Type 0) (r : Outcome A)
    (k : A → Outcome B)
    → Ends L P r
    → ((a : A) → P a → Ends L Q (k a))
    → Ends L Q (r >>= k)
Ends-bind L P Q (ok a) k h go_on = go_on a h
Ends-bind L P Q (panicked _) k h go_on = tt
Ends-bind L P Q undefined k h go_on = h
Ends-bind L P Q _ k h go_on = absurd h

-- A computation is undefined at its first step, or behind it.
pub bind-undefined {ℓ κ} :
    {A : Type ℓ} {B : Type κ} (L : Type 0) (r : Outcome A) (k : A → Outcome B)
    → (r ≡ undefined → L)
    → ((a : A) → r ≡ ok a → k a ≡ undefined → L)
    → (r >>= k) ≡ undefined
    → L
bind-undefined L (ok a) k first behind h = behind a refl h
bind-undefined L undefined k first behind h = first refl
bind-undefined L (panicked _) k first behind h = cc
bind-undefined L aborted k first behind h = cc
bind-undefined L trapped k first behind h = cc
bind-undefined L out_of_fuel k first behind h = cc

-- The same, but a failed assertion is allowed.
abbrev pub Settles {ℓ} : {A : Type ℓ} → (A → Type 0) → Outcome A → Type 0
Settles P (ok a) = P a
Settles P (panicked _) = Unit
Settles P aborted = Unit
Settles P undefined = Unit
Settles P _ = ⊥

module _ {ℓ κ} {A : Type ℓ} {B : Type κ} (P : A → Type 0) (Q : B → Type 0) where
  pub Settles-bind :
      (r : Outcome A) (k : A → Outcome B)
      → Settles P r
      → ((a : A) → P a → Settles Q (k a))
      → Settles Q (r >>= k)
  Settles-bind (ok a) k h go_on = go_on a h
  Settles-bind (panicked _) k h go_on = tt
  Settles-bind aborted k h go_on = tt
  Settles-bind undefined k h go_on = tt
  Settles-bind _ k h go_on = absurd h

  -- a first step that keeps within the stricter bounds
  pub Within-Settles-bind :
      (r : Outcome A) (k : A → Outcome B)
      → Within P r
      → ((a : A) → P a → Settles Q (k a))
      → Settles Q (r >>= k)
  Within-Settles-bind (ok a) k h go_on = go_on a h
  Within-Settles-bind (panicked _) k h go_on = tt
  Within-Settles-bind undefined k h go_on = tt
  Within-Settles-bind _ k h go_on = absurd h
