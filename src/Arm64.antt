-- ===== src/Arm64.antt =====
-- src/templategenerator.cpp: the encoders of Arm64 instructions. A register is its number, and an encoder
-- gives the words that it emits. This module has the moves of constants.
pub mod Bits
pub mod Moves
pub mod Arithmetic
pub mod Memory
pub mod Pairs
pub mod PreIndex
pub mod Registers
pub mod Branch
pub mod CodeBuffer
pub mod Snippets
pub mod Regs
pub mod Generator
use Prim.Native.Nat.{bit_or}
use core_vm.Base.{ℕ, ◌*◌, ◌/◌, ◌%◌, ◌^◌, List, [], ◌∷◌, ◌++◌, ◌==◌, if◌then◌else◌}

-- `<<` of a `u4`
abbrev pub shl : ℕ → ℕ → ℕ
shl n k = n * 2 ^ k % 2 ^ 32

-- `(imm >> 16 * k) & 0xffff`
abbrev pub half : ℕ → ℕ → ℕ
half k imm = imm / 2 ^ (16 * k) % 2 ^ 16

-- a move of a half of the constant, unless that is zero
unfoldable pub move_half : ℕ → ℕ → ℕ → List ℕ
move_half base dst h = if h == 0 then [] else bit_or (bit_or base dst) (shl h 5) ∷ []

unfoldable pub mov_imm64 : ℕ → ℕ → List ℕ
mov_imm64 dst imm =
    if imm == 0
    then bit_or 0xd2800000 dst ∷ []
    else bit_or (bit_or 0xd2800000 dst) (shl (half 0 imm) 5)
      ∷ (move_half 0xf2a00000 dst (half 1 imm)
          ++ (move_half 0xf2c00000 dst (half 2 imm) ++ move_half 0xf2e00000 dst (half 3 imm)))

-- The `movz` of the low half is left out where that is zero and the constant is not.
unfoldable pub mov_imm32 : ℕ → ℕ → List ℕ
mov_imm32 dst imm =
    if imm == 0
    then bit_or 0x52800000 dst ∷ []
    else move_half 0x52800000 dst (half 0 imm) ++ move_half 0x72a00000 dst (half 1 imm)
