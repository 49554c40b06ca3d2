-- ===== src/Arm64/Moves.antt =====
-- What the moves of constants in src/templategenerator.cpp do, by the meaning of `movz` and `movk`.
use Prim.Native.Nat.{bit_or}
use core_vm.Base.{
  ℕ, ◌+◌, ◌-◌, ◌*◌, ◌/◌, ◌%◌, ◌^◌, ◌<◌, ◌≡◌, ◌≢◌, refl, ◌∙◌, ap, sym, arith, true, false, List, [],
  ◌∷◌, ◌++◌, Option, none, some, ◌==◌, if◌then◌else◌, inl, inr, Bool-cases, ==_iff, append-nil,
}
use core_vm.Arm64.{shl, half, move_half, mov_imm64, mov_imm32}
use core_vm.Arm64.Bits.{or_above, or_between}

-- The words of a move: an operation in the high nine bits, the number of a half, sixteen bits of a
-- constant, and a register.
abbrev pub opcode_of : ℕ → ℕ
opcode_of w = w / 2 ^ 23

abbrev pub half_of : ℕ → ℕ
half_of w = w / 2 ^ 21 % 4

abbrev pub constant_of : ℕ → ℕ
constant_of w = w / 2 ^ 5 % 2 ^ 16

abbrev pub register_of : ℕ → ℕ
register_of w = w % 2 ^ 5

-- a value with one of its halves replaced
abbrev pub keep : ℕ → ℕ → ℕ → ℕ
keep k imm v = v - half k v * 2 ^ (16 * k) + imm * 2 ^ (16 * k)

-- What a word does to the register `dst`, which holds a value, by the manual of the instructions: a
-- `movz` sets one half and clears the others, a `movk` sets one half and keeps them. It is `none` for a
-- word that is neither, or is for another register.
unfoldable pub step : ℕ → ℕ → ℕ → ℕ → ℕ → Option ℕ
step movz movk dst w v =
    if register_of w == dst
    then (if opcode_of w == movz
        then some (constant_of w * 2 ^ (16 * half_of w))
        else if opcode_of w == movk
        then some (keep (half_of w) (constant_of w) v)
        else none)
    else none

-- the words one behind the other
abbrev pub steps : ℕ → ℕ → ℕ → List ℕ → ℕ → Option ℕ
steps movz movk dst [] v = some v
steps movz movk dst (w ∷ ws) v = elim (step movz movk dst w v) [
  | none ↦ none
  | some v' ↦ steps movz movk dst ws v'
]

-- the operations on the 64 bits of a register
abbrev pub steps64 : ℕ → List ℕ → ℕ → Option ℕ
steps64 dst ws v = steps 0x1a5 0x1e5 dst ws v

-- the word that a base, a register and a half of a constant make
move_word :
    (b d f : ℕ)
    → d < 32
    → f < 2 ^ 16
    → bit_or (bit_or (b * 2 ^ 21) d) (shl f 5) ≡ b * 2 ^ 21 + f * 32 + d
move_word b d f hd hf =
    let whole : shl f 5 ≡ f * 2 ^ 5 = omega arith in
    let first : bit_or (b * 2 ^ 21) d ≡ b * 2 ^ 21 + d = or_above 21 b d (omega arith) in
    let split : b * 2 ^ 21 + d ≡ b * 2 ^ 16 * 2 ^ 5 + d = omega arith in
    rw (whole, first, split, or_between 16 5 b d f hd hf) (omega arith)

-- the fields of such a word
fields :
    (op k f d : ℕ)
    → k < 4
    → d < 32
    → f < 2 ^ 16
    → let w = (op * 4 + k) * 2 ^ 21 + f * 32 + d in
      (register_of w ≡ d) × (opcode_of w ≡ op) × (half_of w ≡ k) × (constant_of w ≡ f)
fields op k f d hk hd hf = (omega arith, omega arith, omega arith, omega arith)

test_eq : (a : ℕ) → (a == a) ≡ true
test_eq a = ground arith

test_ne : (a b : ℕ) → a ≢ b → (a == b) ≡ false
test_ne a b h = ground arith

-- a word that the register takes a value from, and the words behind it
then_steps :
    (z op d w v v' : ℕ) (ws : List ℕ)
    → step z op d w v ≡ some v'
    → steps z op d (w ∷ ws) v ≡ steps z op d ws v'
then_steps z op d w v v' ws h =
    ap (λ (o : Option ℕ). elim o [ none ↦ none | some u ↦ steps z op d ws u ]) h

-- the word of a move
abbrev word : ℕ → ℕ → ℕ → ℕ → ℕ
word op k f d = (op * 4 + k) * 2 ^ 21 + f * 32 + d

module _ (z op d v : ℕ) (hd : d < 32) where
  movz_step : (f : ℕ) → f < 2 ^ 16 → step z op d (word z 0 f d) v ≡ some f
  unfolding step
  movz_step f hf =
      let (reg, code, part, imm) = fields z 0 f d (omega arith) hd hf in
      let value : f * 2 ^ (16 * 0) ≡ f = omega arith in
      rw (reg, code, part, imm, test_eq d, test_eq z, value)

  movk_step :
      (k f : ℕ) → z ≢ op → k < 4 → f < 2 ^ 16 → step z op d (word op k f d) v ≡ some (keep k f v)
  unfolding step
  movk_step k f ne hk hf =
      let (reg, code, part, imm) = fields op k f d hk hd hf in
      let other : (op == z) ≡ false = test_ne op z (λ h. ne (sym h)) in
      rw (reg, code, part, imm, test_eq d, other, test_eq op)

  -- A movk of a half that the register has zero adds the constant there.
  movk_steps :
      (base k f : ℕ) (ws : List ℕ)
      → z ≢ op
      → base ≡ (op * 4 + k) * 2 ^ 21
      → k < 4
      → f < 2 ^ 16
      → half k v ≡ 0
      → steps z op d (move_half base d f ++ ws) v ≡ steps z op d ws (v + f * 2 ^ (16 * k))
  unfolding move_half
  movk_steps base k f ws ne is_base hk hf clear = elim (Bool-cases (f == 0)) [
    | inl e ↦
        let none_added : v + f * 2 ^ (16 * k) ≡ v = rw ((==_iff f 0).0 e) (omega arith) in
        rw (e, none_added)
    | inr e ↦
        let added : keep k f v ≡ v + f * 2 ^ (16 * k) = rw clear (omega arith) in
        rw (e, is_base, move_word (op * 4 + k) d f hd hf)
          (then_steps z op d (word op k f d) v _ ws (movk_step k f ne hk hf)
            ∙ ap (λ u. steps z op d ws u) added)
  ]

-- mov_imm64 sets the register to the constant, whatever it held: for every register but the zero
-- register, and every constant of 64 bits.
pub mov_imm64_steps :
    (d imm v : ℕ) → d < 31 → imm < 2 ^ 64 → steps64 d (mov_imm64 d imm) v ≡ some imm
unfolding mov_imm64
mov_imm64_steps d imm v hd hi = elim (Bool-cases (imm == 0)) [
  | inl e ↦
      let alone : bit_or 0xd2800000 d ≡ word 0x1a5 0 0 d =
        or_above 21 0x694 d (omega arith) ∙ omega arith in
      rw (e, alone, (==_iff imm 0).0 e)
        (then_steps 0x1a5 0x1e5 d _ v 0 []
          (movz_step 0x1a5 0x1e5 d v (omega arith) 0 (omega arith)))
  | inr e ↦
      let f₀ = half 0 imm in
      let f₁ = half 1 imm in
      let f₂ = half 2 imm in
      let f₃ = half 3 imm in
      let v₁ = f₀ + f₁ * 2 ^ 16 in
      let v₂ = v₁ + f₂ * 2 ^ 32 in
      let ws₃ = move_half 0xf2e00000 d f₃ in
      let ws₂ = move_half 0xf2c00000 d f₂ ++ ws₃ in
      let ws₁ = move_half 0xf2a00000 d f₁ ++ ws₂ in
      rw (e, move_word 0x694 d f₀ (omega arith) (omega arith))
        (then_steps 0x1a5 0x1e5 d _ v f₀ ws₁
            (movz_step 0x1a5 0x1e5 d v (omega arith) f₀ (omega arith))
          ∙ movk_steps 0x1a5 0x1e5 d f₀ (omega arith) 0xf2a00000 1 f₁ ws₂ (omega arith) refl
              (omega arith) (omega arith) (omega arith)
          ∙ movk_steps 0x1a5 0x1e5 d v₁ (omega arith) 0xf2c00000 2 f₂ ws₃ (omega arith) refl
              (omega arith) (omega arith) (omega arith)
          ∙ ap (λ ws. steps 0x1a5 0x1e5 d ws v₂) (sym (append-nil ws₃))
          ∙ movk_steps 0x1a5 0x1e5 d v₂ (omega arith) 0xf2e00000 3 f₃ [] (omega arith) refl
              (omega arith) (omega arith) (omega arith)
          ∙ ap some (omega arith))
]

-- the operations on the 32 bits of a register
abbrev pub steps32 : ℕ → List ℕ → ℕ → Option ℕ
steps32 dst ws v = steps 0xa5 0xe5 dst ws v

-- what mov_imm32 leaves of the register: its low half, where no `movz` is emitted
abbrev pub left_over : ℕ → ℕ → ℕ
left_over imm v = if imm == 0 then 0 else if half 0 imm == 0 then half 0 v else 0

-- mov_imm32 sets the register to the constant if that is zero or its low half is not; otherwise the
-- low half of what the register held stays in it. This is for every register but the zero register,
-- and every constant and old value of 32 bits.
pub mov_imm32_steps :
    (d imm v : ℕ)
    → d < 31
    → imm < 2 ^ 32
    → v < 2 ^ 32
    → steps32 d (mov_imm32 d imm) v ≡ some (imm + left_over imm v)
unfolding mov_imm32 move_half
mov_imm32_steps d imm v hd hi hv = elim (Bool-cases (imm == 0)) [
  | inl e ↦
      let alone : bit_or 0x52800000 d ≡ word 0xa5 0 0 d =
        or_above 21 0x294 d (omega arith) ∙ omega arith in
      rw (e, alone, (==_iff imm 0).0 e)
        (then_steps 0xa5 0xe5 d _ v 0 [] (movz_step 0xa5 0xe5 d v (omega arith) 0 (omega arith)))
  | inr e ↦ elim (Bool-cases (half 0 imm == 0)) [
    | inl low ↦
        let high : (half 1 imm == 0) ≡ false = ground (arith, e, low) in
        rw (e, low, high, move_word 0x395 d (half 1 imm) (omega arith) (omega arith))
          (then_steps 0xa5 0xe5 d _ v _ [] (
              movk_step 0xa5 0xe5 d v (omega arith) 1 (half 1 imm) (omega arith) (omega arith)
                (omega arith))
            ∙ ap some (omega (arith, (==_iff (half 0 imm) 0).0 low)))
    | inr low ↦
        let f₀ = half 0 imm in
        let f₁ = half 1 imm in
        let ws₁ = move_half 0x72a00000 d f₁ in
        rw (e, low, move_word 0x294 d f₀ (omega arith) (omega arith))
          (then_steps 0xa5 0xe5 d _ v f₀ ws₁
              (movz_step 0xa5 0xe5 d v (omega arith) f₀ (omega arith))
            ∙ ap (λ ws. steps 0xa5 0xe5 d ws f₀) (sym (append-nil ws₁))
            ∙ movk_steps 0xa5 0xe5 d f₀ (omega arith) 0x72a00000 1 f₁ [] (omega arith) refl
                (omega arith) (omega arith) (omega arith)
            ∙ ap some (omega arith))
  ]
]
