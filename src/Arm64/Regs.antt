-- ===== src/Arm64/Regs.antt =====
-- src/cpu/arm64/arm64_regs.h: the registers by their names, with the numbers that encoders put into words.
use core_vm.Base.{get_elem?, ℕ, ◌<◌, ◌≡◌, refl, arith, List, [], ◌∷◌, some}

pub data Reg : Type 0 where
  x0 x1 x2 x3 x4 x5 x6 x7 x8 x9 x10 x11 x12 x13 x14 x15 : Reg
  x16 x17 x18 x19 x20 x21 x22 x23 x24 x25 x26 x27 x28 x29 x30 sp : Reg

-- the field `no` of a `reg`
unfoldable pub no : Reg → ℕ
no x0 = 0
no x1 = 1
no x2 = 2
no x3 = 3
no x4 = 4
no x5 = 5
no x6 = 6
no x7 = 7
no x8 = 8
no x9 = 9
no x10 = 10
no x11 = 11
no x12 = 12
no x13 = 13
no x14 = 14
no x15 = 15
no x16 = 16
no x17 = 17
no x18 = 18
no x19 = 19
no x20 = 20
no x21 = 21
no x22 = 22
no x23 = 23
no x24 = 24
no x25 = 25
no x26 = 26
no x27 = 27
no x28 = 28
no x29 = 29
no x30 = 30
no sp = 31

-- every name of the header, in its order
abbrev pub registers : List Reg
registers =
    x0 ∷ x1 ∷ x2 ∷ x3 ∷ x4 ∷ x5 ∷ x6 ∷ x7 ∷ x8 ∷ x9 ∷ x10 ∷ x11 ∷ x12 ∷ x13 ∷ x14 ∷ x15 ∷ x16 ∷ x17
    ∷ x18 ∷ x19 ∷ x20 ∷ x21 ∷ x22 ∷ x23 ∷ x24 ∷ x25 ∷ x26 ∷ x27 ∷ x28 ∷ x29 ∷ x30 ∷ sp ∷ []

-- The number of a register is its place in the header, and fits into the five bits that a word has for it.
pub get_elem?-no : (r : Reg) → (get_elem? registers (no r) ≡ some r) × (no r < 32)
unfolding no
get_elem?-no x0 = (refl, omega arith)
get_elem?-no x1 = (refl, omega arith)
get_elem?-no x2 = (refl, omega arith)
get_elem?-no x3 = (refl, omega arith)
get_elem?-no x4 = (refl, omega arith)
get_elem?-no x5 = (refl, omega arith)
get_elem?-no x6 = (refl, omega arith)
get_elem?-no x7 = (refl, omega arith)
get_elem?-no x8 = (refl, omega arith)
get_elem?-no x9 = (refl, omega arith)
get_elem?-no x10 = (refl, omega arith)
get_elem?-no x11 = (refl, omega arith)
get_elem?-no x12 = (refl, omega arith)
get_elem?-no x13 = (refl, omega arith)
get_elem?-no x14 = (refl, omega arith)
get_elem?-no x15 = (refl, omega arith)
get_elem?-no x16 = (refl, omega arith)
get_elem?-no x17 = (refl, omega arith)
get_elem?-no x18 = (refl, omega arith)
get_elem?-no x19 = (refl, omega arith)
get_elem?-no x20 = (refl, omega arith)
get_elem?-no x21 = (refl, omega arith)
get_elem?-no x22 = (refl, omega arith)
get_elem?-no x23 = (refl, omega arith)
get_elem?-no x24 = (refl, omega arith)
get_elem?-no x25 = (refl, omega arith)
get_elem?-no x26 = (refl, omega arith)
get_elem?-no x27 = (refl, omega arith)
get_elem?-no x28 = (refl, omega arith)
get_elem?-no x29 = (refl, omega arith)
get_elem?-no x30 = (refl, omega arith)
get_elem?-no sp = (refl, omega arith)
