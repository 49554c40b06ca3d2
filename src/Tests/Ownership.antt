-- ===== src/Tests/Ownership.antt =====
-- The members of CoreVMADT in src/lexer.cpp, on concrete objects.
use core_vm.Base.{ℕ, ◌+◌, ◌≢◌, ◌≡◌, refl, true, List, [], ◌∷◌, arith}
use core_vm.Base.Outcome.{ok}
use core_vm.Types.{codes}
use core_vm.Adt.Objects.{
  Member, string, literal, copy, move, destroy, assign, State, step, steps, copy_construct,
  destruct, delete,
}
use core_vm.Adt.Owners.{owners, live}
use core_vm.Adt.Balance.{IsOwned}
use core_vm.Adt.Ownership.{IsKept, AllAllowed, loses_none, lost, no_objects, members_safe}

-- a string is made, copied and moved, its copy is assigned to the object that was moved from, and a
-- literal is made and destroyed
abbrev members : List Member
members =
    string (codes "x")
    ∷ copy 0
    ∷ move 0
    ∷ assign 0 1
    ∷ destroy 1
    ∷ destroy 2
    ∷ destroy 0
    ∷ literal (codes "y")
    ∷ destroy 3
    ∷ []

members-AllAllowed : AllAllowed members no_objects
unfolding step copy_construct destruct delete
members-AllAllowed = (
  tt,
  (
    (_, refl, λ _ e. absurd (omega (arith, e))),
    (
      (_, refl),
      (
        (_, _, refl, refl, (λ _ e. absurd (omega (arith, e))), refl),
        ((_, refl), ((_, refl), ((_, refl), (tt, ((_, refl), tt))))),
      ),
    ),
  ),
)

members_safe_example :
    (s : State) × (steps members no_objects ≡ ok s)
    × IsOwned s
    × ((a : ℕ) → a ≢ 0 → live a s.blocks ≡ owners a s.objects + lost a members no_objects)
    × (loses_none members ≡ true → IsKept s)
members_safe_example = members_safe members members-AllAllowed

-- the block of the literal is still allocated
literal_lost : lost 4 members no_objects ≡ 1
unfolding step copy_construct destruct delete
literal_lost = refl
