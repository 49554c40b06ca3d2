-- ===== src/Ir/Verified.antt =====
-- What the `Verify` members of src/ir.cpp accept among the trees that the parser makes.
use core_vm.Base.{ℕ, ◌≡◌, refl, Bool, true, false, ◌&&◌, some, arith}
use core_vm.Base.Outcome.{Outcome, ok, panicked, ◌>>◌}
use core_vm.OpCode.{OpCode}
use core_vm.Types.{CvmType, type_eq, int, double}
use core_vm.Ir.{Ir, binary, variable, constant, cast}
use core_vm.Ir.Typing.{WellTyped, arithmetic_type}
use core_vm.Ir.Verify.{verify, verify_operands, verify_float, verify_long, verify_default}

-- whether the arithmetic is on ints or on doubles
abbrev pub is_checked : CvmType → Bool
is_checked int = true
is_checked double = true
is_checked _ = false

-- whether no arithmetic of the expression is on floats or longs
abbrev pub has_only_checked : Ir → Bool
has_only_checked (binary op t lhs rhs) =
    has_only_checked lhs && (has_only_checked rhs && is_checked t)
has_only_checked (variable n ix op t) = true
has_only_checked (constant v op t) = true
has_only_checked (cast op t e) = has_only_checked e

-- Accepted where the test holds, and a panic where it does not.
abbrev pub Decides : Bool → Outcome (Unit {0}) → Type 0
Decides true (ok _) = Unit
Decides false (panicked _) = Unit
Decides _ _ = ⊥

type_eq_refl : (t : CvmType) → type_eq t t ≡ true
type_eq_refl int = refl
type_eq_refl _ = refl

Decides-then :
    (b c : Bool) (r k : Outcome (Unit {0})) → Decides b r → Decides c k → Decides (b && c) (r >> k)
Decides-then true c (ok _) k h h' = h'
Decides-then false c (panicked _) k h h' = tt
Decides-then true c (panicked _) k h h' = absurd h
Decides-then true c _ k h h' = absurd h
Decides-then false c _ k h h' = absurd h

verify_operands-Decides :
    (op : OpCode) (t : CvmType)
    → arithmetic_type op ≡ some t
    → Decides (is_checked t) (verify_operands op t)
unfolding verify_operands verify_float verify_long verify_default
verify_operands-Decides op t h = ground arith

-- Verify of a well-typed expression accepts it where it has no arithmetic on floats or longs, and
-- panics otherwise: the missing breaks make it refuse every such operation, whatever its operands.
pub verify-Decides : (n : ℕ) (e : Ir) → WellTyped n e → Decides (has_only_checked e) (verify e)
unfolding verify
verify-Decides n (binary op t lhs rhs) (typed_l, typed_r, fits, same_l, same_r) =
    rw (same_l, same_r, type_eq_refl t)
      (Decides-then (has_only_checked lhs) _ (verify lhs) _ (verify-Decides n lhs typed_l) (
        Decides-then (has_only_checked rhs) _ (verify rhs) _ (verify-Decides n rhs typed_r)
          (verify_operands-Decides op t fits)))
verify-Decides n (variable x ix op t) typed = tt
verify-Decides n (constant v op t) typed = tt
verify-Decides n (cast op t e) (typed, _) = verify-Decides n e typed
