-- ===== src/Arm64/Memory.antt =====
-- The encoders of src/templategenerator.cpp with a constant of twelve bits: loads and stores at an offset,
-- and arithmetic with a constant. An `int` is its 32 bits.
pub mod Accessed
pub mod Constants
use Prim.Native.Nat.{bit_or}
use core_vm.Base.{
  ℕ, ◌+◌, ◌-◌, ◌*◌, ◌/◌, ◌%◌, ◌^◌, Bool, ◌&&◌, List, [], ◌∷◌, Option, none, some, ltb, leb, ◌==◌,
  if◌then◌else◌,
}
use core_vm.Base.Outcome.{Outcome, ok, ◌>>=◌, ◌>>◌, assert}
use core_vm.Arm64.{shl}

-- `>>` of an `int`
abbrev pub sar : ℕ → ℕ → ℕ
sar n k = if ltb n (2 ^ 31) then n / 2 ^ k else 2 ^ 32 - (2 ^ 32 - n + 2 ^ k - 1) / 2 ^ k

-- a base, two registers and twelve bits
unfoldable pub with_constant : ℕ → ℕ → ℕ → ℕ → List ℕ
with_constant ins low high imm = bit_or (bit_or (bit_or ins low) (shl high 5)) (shl imm 10) ∷ []

-- a load or store of `2 ^ k` bytes, whose offset is counted in them
unfoldable pub scaled : ℕ → ℕ → ℕ → ℕ → ℕ → Outcome (List ℕ)
scaled ins k low high offset = do
  assert (offset % 2 ^ k == 0)
  let units = sar offset k
  assert (ltb units (2 ^ 12))
  ok (with_constant ins low high units)

abbrev pub str32 : ℕ → ℕ → ℕ → Outcome (List ℕ)
str32 dst src offset = scaled 0xb9000000 2 src dst offset

abbrev pub str64 : ℕ → ℕ → ℕ → Outcome (List ℕ)
str64 dst src offset = scaled 0xf9000000 3 src dst offset

abbrev pub ldr32 : ℕ → ℕ → ℕ → Outcome (List ℕ)
ldr32 dst src offset = scaled 0xb9400000 2 dst src offset

abbrev pub ldr64 : ℕ → ℕ → ℕ → Outcome (List ℕ)
ldr64 dst src offset = scaled 0xf9400000 3 dst src offset

-- `assert(imm >= 0 && imm <= 0xfff)` and the word
unfoldable pub immediate : ℕ → ℕ → ℕ → ℕ → Outcome (List ℕ)
immediate ins dst src1 imm = do assert (leb imm 0xfff); ok (with_constant ins dst src1 imm)

abbrev pub add32_imm : ℕ → ℕ → ℕ → Outcome (List ℕ)
add32_imm dst src1 imm = immediate 0x11000000 dst src1 imm

abbrev pub add64_imm : ℕ → ℕ → ℕ → Outcome (List ℕ)
add64_imm dst src1 imm = immediate 0x91000000 dst src1 imm

abbrev pub sub32_imm : ℕ → ℕ → ℕ → Outcome (List ℕ)
sub32_imm dst src1 imm = immediate 0x51000000 dst src1 imm

abbrev pub sub64_imm : ℕ → ℕ → ℕ → Outcome (List ℕ)
sub64_imm dst src1 imm = immediate 0xd1000000 dst src1 imm

-- Loads and stores of 16 bits: an odd offset loses its last bit, and 4096 units pass the assertion.
unfoldable pub halfword : ℕ → ℕ → ℕ → ℕ → Outcome (List ℕ)
halfword ins low high offset = do
  let units = sar offset 1
  assert (leb units (2 ^ 12))
  ok (with_constant ins low high units)

abbrev pub ldrh : ℕ → ℕ → ℕ → Outcome (List ℕ)
ldrh dst src offset = halfword 0x79400000 dst src offset

abbrev pub strh : ℕ → ℕ → ℕ → Outcome (List ℕ)
strh src dst offset = halfword 0x79000000 src dst offset

-- the instructions of the manual
pub data Access : Type 0 where
  str_w str_x ldr_w ldr_x : Access

-- the size of what is loaded or stored, as a power of two
abbrev pub scale : Access → ℕ
scale str_w = 2
scale str_x = 3
scale ldr_w = 2
scale ldr_x = 3

-- the encoder of an access of a register, at an offset from an address in a register
abbrev pub access : Access → ℕ → ℕ → ℕ → Outcome (List ℕ)
access str_w register address offset = str32 address register offset
access str_x register address offset = str64 address register offset
access ldr_w register address offset = ldr32 register address offset
access ldr_x register address offset = ldr64 register address offset

-- the instruction with these high ten bits
unfoldable pub access_of : ℕ → Option Access
access_of high =
    if high == 0x2e4
    then some str_w
    else if high == 0x3e4
    then some str_x
    else if high == 0x2e5
    then some ldr_w
    else if high == 0x3e5
    then some ldr_x
    else none

unfoldable pub with_operands : Option Access → ℕ → ℕ → ℕ → Option (Access × ℕ × ℕ × ℕ)
with_operands none register address units = none
with_operands (some a) register address units = some (a, register, address, units * 2 ^ scale a)

-- The access that one word is: its registers, and its offset in bytes.
abbrev pub decode_access : List ℕ → Option (Access × ℕ × ℕ × ℕ)
decode_access [] = none
decode_access (w ∷ w' ∷ ws) = none
decode_access (w ∷ []) =
    with_operands (access_of (w / 2 ^ 22)) (w % 32) (w / 2 ^ 5 % 32) (w / 2 ^ 10 % 2 ^ 12)
