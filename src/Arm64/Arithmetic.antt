-- ===== src/Arm64/Arithmetic.antt =====
-- The encoders of arithmetic on registers in src/templategenerator.cpp, and the manual's reading of
-- their words.
pub mod Decoded
use Prim.Native.Nat.{bit_or}
use core_vm.Base.{
  ℕ, ◌*◌, ◌/◌, ◌%◌, ◌^◌, Bool, ◌&&◌, List, [], ◌∷◌, Option, none, some, ◌==◌, if◌then◌else◌,
}
use core_vm.Arm64.{shl}

-- `ins |= dst.no; ins |= (src1.no << 5); ins |= (src2.no << 16);`
unfoldable pub three : ℕ → ℕ → ℕ → ℕ → List ℕ
three ins dst src1 src2 = bit_or (bit_or (bit_or ins dst) (shl src1 5)) (shl src2 16) ∷ []

abbrev pub arm_add32 : ℕ → ℕ → ℕ → List ℕ
arm_add32 dst src1 src2 = three 0x0b000000 dst src1 src2

abbrev pub arm_add64 : ℕ → ℕ → ℕ → List ℕ
arm_add64 dst src1 src2 = three 0x8b000000 dst src1 src2

abbrev pub arm_sub32 : ℕ → ℕ → ℕ → List ℕ
arm_sub32 dst src1 src2 = three 0x4b000000 dst src1 src2

abbrev pub arm_sub64 : ℕ → ℕ → ℕ → List ℕ
arm_sub64 dst src1 src2 = three 0xcb000000 dst src1 src2

abbrev pub arm_mul32 : ℕ → ℕ → ℕ → List ℕ
arm_mul32 dst src1 src2 = three (bit_or 0x1b000000 (shl 0x1f 10)) dst src1 src2

abbrev pub arm_mul64 : ℕ → ℕ → ℕ → List ℕ
arm_mul64 dst src1 src2 = three (bit_or 0x9b000000 (shl 0x1f 10)) dst src1 src2

abbrev pub arm_div32 : ℕ → ℕ → ℕ → List ℕ
arm_div32 dst src1 src2 = three (bit_or 0x1ac00000 (shl 0x3 10)) dst src1 src2

abbrev pub arm_div64 : ℕ → ℕ → ℕ → List ℕ
arm_div64 dst src1 src2 = three (bit_or 0x9ac00000 (shl 0x3 10)) dst src1 src2

-- the instructions of the manual that these are, on 32 bits and on 64
pub data Operation : Type 0 where
  add_w add_x sub_w sub_x mul_w mul_x sdiv_w sdiv_x : Operation

-- the encoder of an instruction
abbrev pub encoder : Operation → ℕ → ℕ → ℕ → List ℕ
encoder add_w = arm_add32
encoder add_x = arm_add64
encoder sub_w = arm_sub32
encoder sub_x = arm_sub64
encoder mul_w = arm_mul32
encoder mul_x = arm_mul64
encoder sdiv_w = arm_div32
encoder sdiv_x = arm_div64

-- the instruction with these high eleven bits, and these six bits behind its second operand
unfoldable pub operation_of : ℕ → ℕ → Option Operation
operation_of high low =
    if high == 0x058 && low == 0
    then some add_w
    else if high == 0x458 && low == 0
    then some add_x
    else if high == 0x258 && low == 0
    then some sub_w
    else if high == 0x658 && low == 0
    then some sub_x
    else if high == 0x0d8 && low == 0x1f
    then some mul_w
    else if high == 0x4d8 && low == 0x1f
    then some mul_x
    else if high == 0x0d6 && low == 0x3
    then some sdiv_w
    else if high == 0x4d6 && low == 0x3
    then some sdiv_x
    else none

unfoldable pub with_registers : Option Operation → ℕ → ℕ → ℕ → Option (Operation × ℕ × ℕ × ℕ)
with_registers none rd rn rm = none
with_registers (some o) rd rn rm = some (o, rd, rn, rm)

-- The instruction that one word is, with its destination and its operands.
abbrev pub decode : List ℕ → Option (Operation × ℕ × ℕ × ℕ)
decode [] = none
decode (w ∷ w' ∷ ws) = none
decode (w ∷ []) =
    with_registers (operation_of (w / 2 ^ 21) (w / 2 ^ 10 % 64)) (w % 32) (w / 2 ^ 5 % 32)
      (w / 2 ^ 16 % 32)
