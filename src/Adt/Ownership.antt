-- ===== src/Adt/Ownership.antt =====
-- Who owns the strings of CoreVMADT in src/lexer.cpp, after any sequence of calls of its members.
use core_vm.Base.{ℕ, zero, suc, ◌≡◌, ◌≢◌, refl, Bool, true, false, List, [], ◌∷◌, arith, ◌+◌}
use core_vm.Base.Outcome.{Outcome, ok}
use core_vm.Adt.Objects.{
  State, Member, value, string, literal, copy, move, destroy, assign, move_assign, step, steps,
}
use core_vm.Adt.Owners.{owners, live}
use core_vm.Adt.Balance.{IsOwned, Allowed, dropped, Balanced, step-Goes}

-- What holds of the state that a member leaves, where it leaves one.
abbrev pub After : (State → Type 0) → Outcome State → Type 0
After P (ok s) = P s
After P _ = Unit

-- Each member is allowed where the ones before it lead.
abbrev pub AllAllowed : List Member → State → Type 0
AllAllowed [] s = Unit
AllAllowed (m ∷ ms) s = Allowed m s × After (λ s'. AllAllowed ms s') (step m s)

-- what holds of the state as a number, and 0 where there is none
abbrev pub counted : (State → ℕ) → Outcome State → ℕ
counted f (ok s) = f s
counted f _ = 0

-- how often the block at an address was left without an owner
abbrev pub lost : ℕ → List Member → State → ℕ
lost a [] s = 0
lost a (m ∷ ms) s = dropped a m s + counted (λ s'. lost a ms s') (step m s)

-- no assignment, and no string literal
abbrev pub loses_none : List Member → Bool
loses_none [] = true
loses_none (assign i j ∷ ms) = false
loses_none (move_assign i j ∷ ms) = false
loses_none (literal text ∷ ms) = false
loses_none (m ∷ ms) = loses_none ms

-- every allocated block has an owner
abbrev pub IsKept : State → Type 0
IsKept s = (a : ℕ) → a ≢ 0 → owners a s.objects ≡ live a s.blocks

Balanced-IsOwned : (m : Member) (s s' : State) → Balanced m s s' → IsOwned s → IsOwned s'
Balanced-IsOwned m s s' balanced owned a full = omega (arith, balanced a full, owned a full)

no_drop :
    (m : Member) (ms : List Member) (s : State) (a : ℕ)
    → loses_none (m ∷ ms) ≡ true
    → (dropped a m s ≡ 0) × (loses_none ms ≡ true)
no_drop (value tag v) ms s a h = (refl, h)
no_drop (string text) ms s a h = (refl, h)
no_drop (literal text) ms s a h = cc
no_drop (copy i) ms s a h = (refl, h)
no_drop (move i) ms s a h = (refl, h)
no_drop (destroy i) ms s a h = (refl, h)
no_drop (assign i j) ms s a h = cc
no_drop (move_assign i j) ms s a h = cc

counted_zero : (f : State → ℕ) (r : Outcome State) → ((s : State) → f s ≡ 0) → counted f r ≡ 0
counted_zero f (ok s) h = h s
counted_zero f _ h = refl

lost_none : (a : ℕ) (ms : List Member) (s : State) → loses_none ms ≡ true → lost a ms s ≡ 0
lost_none a [] s h = refl
lost_none a (m ∷ ms) s h =
    let (here, behind) = no_drop m ms s a h in
    omega
      (arith, here, counted_zero (λ s'. lost a ms s') (step m s) (λ s'. lost_none a ms s' behind))

steps-IsOwned :
    (ms : List Member) (s : State)
    → IsOwned s
    → AllAllowed ms s
    → (s' : State) × (steps ms s ≡ ok s')
      × IsOwned s'
      × ((a : ℕ)
          → a ≢ 0
          → live a s'.blocks + owners a s.objects
            ≡ owners a s'.objects + lost a ms s + live a s.blocks)
unfolding steps
steps-IsOwned [] s owned h = (s, refl, owned, λ a full. omega arith)
steps-IsOwned (m ∷ ms) s owned (h, hs) =
    let (s', goes, balanced) = step-Goes m s owned h in
    let (s'', runs, owned', account) =
      steps-IsOwned ms s' (Balanced-IsOwned m s s' balanced owned) (rw goes at hs) in
    (s'', rw goes runs, owned', λ a full. rw goes (omega (arith, balanced a full, account a full)))

live_nil : (a : ℕ) → live a [] ≡ 0
live_nil zero = refl
live_nil (suc i) = refl

abbrev pub no_objects : State
no_objects = record { objects = []; blocks = [] }

-- Constructors of strings, of string literals and of values without a block, copies, moves,
-- destructors and assignments, one after the other from no objects at all, on objects that stand,
-- without a copy of a string that was moved from or onto itself, are all defined: none frees a
-- block twice or reads a freed one. An owner of a block is an object whose destructor frees it. At
-- the end no block has two owners and none is owned that is not allocated. A block that is
-- allocated without an owner was dropped by an assignment or made for a string literal; without
-- assignments and string literals every allocated block has an owner.
pub members_safe :
    (ms : List Member)
    → AllAllowed ms no_objects
    → (s : State) × (steps ms no_objects ≡ ok s)
      × IsOwned s
      × ((a : ℕ) → a ≢ 0 → live a s.blocks ≡ owners a s.objects + lost a ms no_objects)
      × (loses_none ms ≡ true → IsKept s)
members_safe ms h =
    let (s, runs, owned, account) =
      steps-IsOwned ms no_objects (λ a full. rw (live_nil a) (omega arith)) h in
    (
      s,
      runs,
      owned,
      λ a full. omega (arith, account a full, live_nil a),
      λ plain a full. omega (arith, account a full, live_nil a, lost_none a ms no_objects plain),
    )
