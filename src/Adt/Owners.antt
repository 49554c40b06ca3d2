-- ===== src/Adt/Owners.antt =====
-- How many objects of src/lexer.cpp own the block at an address, and whether the block is allocated.
use core_vm.Base.{
  ℕ, zero, suc, ◌+◌, ◌≤◌, ◌≡◌, ◌≢◌, refl, ◌&&◌, [], ◌∷◌, ◌++◌, none, some, ◌==◌, if◌then◌else◌,
  length, get_elem?, set, arith, Bool-cases, inl, inr, ==_iff,
}
use core_vm.Base.Outcome.{ok}
use core_vm.Types.{Name}
use core_vm.Adt.{is_string}
use core_vm.Adt.Objects.{Blocks, block, Object, Objects, object, push, delete}

-- 1 for an object whose string is at the address
abbrev pub owns : ℕ → Object → ℕ
owns a o = if is_string o.tag && o.lval == a then 1 else 0

abbrev pub owners : ℕ → Objects → ℕ
owners a [] = 0
owners a (none ∷ os) = owners a os
owners a (some o ∷ os) = owns a o + owners a os

pub owners-push :
    (a : ℕ) (o : Object) (os : Objects) → owners a (push o os) ≡ owners a os + owns a o
owners-push a o [] = omega arith
owners-push a o (none ∷ os) = owners-push a o os
owners-push a o (some o' ∷ os) = omega (arith, owners-push a o os)

-- an object that is replaced, and one that is destroyed
pub owners-set-some :
    (a : ℕ) (os : Objects) (i : ℕ) (o o' : Object)
    → object os i ≡ some o
    → owners a (set os i (some o')) + owns a o ≡ owners a os + owns a o'
owners-set-some a [] i o o' h = cc
owners-set-some a (none ∷ os) zero o o' h = cc
owners-set-some a (some o₁ ∷ os) zero o o' h = let e : o₁ ≡ o = cc in rw e (omega arith)
owners-set-some a (none ∷ os) (suc i) o o' h = owners-set-some a os i o o' h
owners-set-some a (some o₁ ∷ os) (suc i) o o' h = omega (arith, owners-set-some a os i o o' h)

pub owners-set-none :
    (a : ℕ) (os : Objects) (i : ℕ) (o : Object)
    → object os i ≡ some o
    → owners a (set os i none) + owns a o ≡ owners a os
owners-set-none a [] i o h = cc
owners-set-none a (none ∷ os) zero o h = cc
owners-set-none a (some o₁ ∷ os) zero o h = let e : o₁ ≡ o = cc in rw e (omega arith)
owners-set-none a (none ∷ os) (suc i) o h = owners-set-none a os i o h
owners-set-none a (some o₁ ∷ os) (suc i) o h = omega (arith, owners-set-none a os i o h)

-- 1 for an allocated block, by its place and by its address
abbrev pub live_at : Blocks → ℕ → ℕ
live_at [] i = 0
live_at (none ∷ bs) zero = 0
live_at (some text ∷ bs) zero = 1
live_at (b ∷ bs) (suc i) = live_at bs i

abbrev pub live : ℕ → Blocks → ℕ
live zero blocks = 0
live (suc i) blocks = live_at blocks i

live_at-new :
    (bs : Blocks) (text : Name) (i : ℕ)
    → live_at (bs ++ (some text ∷ [])) i ≡ live_at bs i + (if i == length bs then 1 else 0)
live_at-new [] text zero = refl
live_at-new [] text (suc i) = ground arith
live_at-new (none ∷ bs) text zero = ground arith
live_at-new (some t ∷ bs) text zero = ground arith
live_at-new (none ∷ bs) text (suc i) = ground (arith, live_at-new bs text i)
live_at-new (some t ∷ bs) text (suc i) = ground (arith, live_at-new bs text i)

pub live-new :
    (a : ℕ) (text : Name) (blocks : Blocks)
    → live a (blocks ++ (some text ∷ []))
      ≡ live a blocks + (if a == suc (length blocks) then 1 else 0)
live-new zero text blocks = ground arith
live-new (suc i) text blocks = ground (arith, live_at-new blocks text i)

-- A block that is still to be allocated is not.
live_at-fresh : (bs : Blocks) → live_at bs (length bs) ≡ 0
live_at-fresh [] = refl
live_at-fresh (none ∷ bs) = live_at-fresh bs
live_at-fresh (some t ∷ bs) = live_at-fresh bs

pub live-fresh : (blocks : Blocks) → live (suc (length blocks)) blocks ≡ 0
live-fresh blocks = live_at-fresh blocks

live_at-set-none :
    (bs : Blocks) (i j : ℕ) → live_at (set bs i none) j ≡ (if j == i then 0 else live_at bs j)
live_at-set-none [] i j = ground arith
live_at-set-none (none ∷ bs) zero zero = refl
live_at-set-none (some t ∷ bs) zero zero = refl
live_at-set-none (none ∷ bs) zero (suc j) = ground arith
live_at-set-none (some t ∷ bs) zero (suc j) = ground arith
live_at-set-none (none ∷ bs) (suc i) zero = ground arith
live_at-set-none (some t ∷ bs) (suc i) zero = ground arith
live_at-set-none (none ∷ bs) (suc i) (suc j) = ground (arith, live_at-set-none bs i j)
live_at-set-none (some t ∷ bs) (suc i) (suc j) = ground (arith, live_at-set-none bs i j)

pub live-set-none :
    (a i : ℕ) (blocks : Blocks)
    → live a (set blocks i none) ≡ (if a == suc i then 0 else live a blocks)
live-set-none zero i blocks = ground arith
live-set-none (suc j) i blocks = ground (arith, live_at-set-none blocks i j)

live_at→block :
    (bs : Blocks) (i : ℕ) → 1 ≤ live_at bs i → (text : Name) × (get_elem? bs i ≡ some (some text))
live_at→block [] i h = absurd (omega arith)
live_at→block (none ∷ bs) zero h = absurd (omega arith)
live_at→block (some text ∷ bs) zero h = (text, refl)
live_at→block (none ∷ bs) (suc i) h = live_at→block bs i h
live_at→block (some t ∷ bs) (suc i) h = live_at→block bs i h

-- An allocated block can be read.
pub live→block :
    (a : ℕ) (blocks : Blocks) → 1 ≤ live a blocks → (text : Name) × (block blocks a ≡ some text)
live→block zero blocks h = absurd (omega arith)
live→block (suc i) blocks h = let (text, e) = live_at→block blocks i h in (text, rw (e, block))

live_at-le_one : (bs : Blocks) (i : ℕ) → live_at bs i ≤ 1
live_at-le_one [] i = omega arith
live_at-le_one (none ∷ bs) zero = omega arith
live_at-le_one (some t ∷ bs) zero = omega arith
live_at-le_one (none ∷ bs) (suc i) = live_at-le_one bs i
live_at-le_one (some t ∷ bs) (suc i) = live_at-le_one bs i

-- A null pointer, and an allocated block, can be freed; every other block stays as it is.
pub delete-live :
    (p : ℕ) (blocks : Blocks)
    → (p ≢ 0 → 1 ≤ live p blocks)
    → (blocks' : Blocks) × (delete p blocks ≡ ok blocks')
      × ((a : ℕ) → a ≢ 0 → live a blocks ≡ live a blocks' + (if p == a then 1 else 0))
unfolding delete
delete-live zero blocks h = (blocks, refl, λ a full. ground arith)
delete-live (suc i) blocks h =
    let one : live_at blocks i ≡ 1 = omega (arith, h (omega arith), live_at-le_one blocks i) in
    let (text, found) = live→block (suc i) blocks (omega arith) in
    (set blocks i none, rw (delete, found), λ a _. freed a one)
  where
    freed :
        (a : ℕ)
        → live_at blocks i ≡ 1
        → live a blocks ≡ live a (set blocks i none) + (if suc i == a then 1 else 0)
    freed zero one = ground arith
    freed (suc j) one = rw (live_at-set-none blocks i j) (elim (Bool-cases (j == i)) [
      | inl e ↦ rw ((==_iff j i).0 e, one) (ground arith)
      | inr e ↦ ground arith
    ])

-- The second of two places that stand still does when the first takes its object.
pub object-set :
    (os : Objects) (i j : ℕ) (this o : Object)
    → object os i ≡ some this
    → object os j ≡ some o
    → object (set os i (some o)) j ≡ some o
object-set [] i j this o h h' = cc
object-set (x ∷ os) zero zero this o h h' = refl
object-set (x ∷ os) zero (suc j) this o h h' = h'
object-set (x ∷ os) (suc i) zero this o h h' = h'
object-set (x ∷ os) (suc i) (suc j) this o h h' = object-set os i j this o h h'
