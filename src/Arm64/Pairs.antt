-- ===== src/Arm64/Pairs.antt =====
-- The encoders of src/templategenerator.cpp for loads and stores of two registers, which move the
-- address on before or behind the access. An offset is an `int`, as its 32 bits.
pub mod Decoded
use Prim.Native.Nat.{bit_or}
use core_vm.Base.{
  ℕ, ◌+◌, ◌-◌, ◌*◌, ◌/◌, ◌%◌, ◌^◌, Bool, ◌&&◌, List, [], ◌∷◌, Option, none, some, ltb, leb, ◌==◌,
  if◌then◌else◌,
}
use core_vm.Base.Outcome.{Outcome, ok, ◌>>=◌, ◌>>◌, assert}
use core_vm.Arm64.{shl}
use core_vm.Arm64.Memory.{sar}

abbrev pub is_negative : ℕ → Bool
is_negative offset = leb (2 ^ 31) offset

-- `offset <= 63 * 2 ^ k && offset >= -64 * 2 ^ k`
abbrev pub is_near : ℕ → ℕ → Bool
is_near k offset =
    if is_negative offset then leb (2 ^ 32 - offset) (64 * 2 ^ k) else leb offset (63 * 2 ^ k)

-- the offset in units of `2 ^ k` bytes, six bits and a sign, behind the registers
unfoldable pub with_offset : ℕ → ℕ → ℕ → Outcome (List ℕ)
with_offset k ins offset = do
  assert (offset % 2 ^ k == 0)
  assert (is_near k offset)
  let units = sar offset k
  let placed = bit_or ins (shl (units % 64) 15)
  ok ((if is_negative units then bit_or placed (shl 1 21) else placed) ∷ [])

-- the registers, in the order of the encoders of loads
unfoldable pub load_pair : ℕ → ℕ → ℕ → ℕ → ℕ → ℕ → Outcome (List ℕ)
load_pair ins k src1 src2 dst offset =
    with_offset k (bit_or (bit_or (bit_or ins src1) (shl dst 5)) (shl src2 10)) offset

-- and of those of stores
unfoldable pub store_pair : ℕ → ℕ → ℕ → ℕ → ℕ → ℕ → Outcome (List ℕ)
store_pair ins k dst1 dst2 src offset =
    with_offset k (bit_or (bit_or (bit_or ins dst1) (shl dst2 10)) (shl src 5)) offset

abbrev pub ldp_pre_index64 : ℕ → ℕ → ℕ → ℕ → Outcome (List ℕ)
ldp_pre_index64 src1 src2 dst offset = load_pair 0xa9c00000 3 src1 src2 dst offset

abbrev pub ldp_pre_index32 : ℕ → ℕ → ℕ → ℕ → Outcome (List ℕ)
ldp_pre_index32 src1 src2 dst offset = load_pair 0x29c00000 2 src1 src2 dst offset

abbrev pub ldp_post_index64 : ℕ → ℕ → ℕ → ℕ → Outcome (List ℕ)
ldp_post_index64 src1 src2 dst offset = load_pair 0xa8c00000 3 src1 src2 dst offset

-- The base is that of ldp_pre_index32.
abbrev pub ldp_post_index32 : ℕ → ℕ → ℕ → ℕ → Outcome (List ℕ)
ldp_post_index32 src1 src2 dst offset = load_pair 0x29c00000 2 src1 src2 dst offset

abbrev pub stp_post_index32 : ℕ → ℕ → ℕ → ℕ → Outcome (List ℕ)
stp_post_index32 dst1 dst2 src offset = store_pair 0x28800000 2 dst1 dst2 src offset

abbrev pub stp_post_index64 : ℕ → ℕ → ℕ → ℕ → Outcome (List ℕ)
stp_post_index64 dst1 dst2 src offset = store_pair 0xa8800000 3 dst1 dst2 src offset

abbrev pub stp_pre_index32 : ℕ → ℕ → ℕ → ℕ → Outcome (List ℕ)
stp_pre_index32 dst1 dst2 src offset = store_pair 0x29800000 2 dst1 dst2 src offset

abbrev pub stp_pre_index64 : ℕ → ℕ → ℕ → ℕ → Outcome (List ℕ)
stp_pre_index64 dst1 dst2 src offset = store_pair 0xa9800000 3 dst1 dst2 src offset

-- the instructions of the manual
pub data Pair : Type 0 where
  ldp_pre_x ldp_pre_w ldp_post_x ldp_post_w stp_pre_x stp_pre_w stp_post_x stp_post_w : Pair

-- the size of each register that is loaded or stored, as a power of two
abbrev pub scale : Pair → ℕ
scale ldp_pre_x = 3
scale ldp_post_x = 3
scale stp_pre_x = 3
scale stp_post_x = 3
scale _ = 2

-- the encoder of an instruction, for its two registers and that of the address
abbrev pub pair : Pair → ℕ → ℕ → ℕ → ℕ → Outcome (List ℕ)
pair ldp_pre_x = ldp_pre_index64
pair ldp_pre_w = ldp_pre_index32
pair ldp_post_x = ldp_post_index64
pair ldp_post_w = ldp_post_index32
pair stp_pre_x = stp_pre_index64
pair stp_pre_w = stp_pre_index32
pair stp_post_x = stp_post_index64
pair stp_post_w = stp_post_index32

-- the instruction with these high ten bits
unfoldable pub pair_of : ℕ → Option Pair
pair_of high =
    if high == 0x2a7
    then some ldp_pre_x
    else if high == 0x0a7
    then some ldp_pre_w
    else if high == 0x2a3
    then some ldp_post_x
    else if high == 0x0a3
    then some ldp_post_w
    else if high == 0x2a6
    then some stp_pre_x
    else if high == 0x0a6
    then some stp_pre_w
    else if high == 0x2a2
    then some stp_post_x
    else if high == 0x0a2
    then some stp_post_w
    else none

-- an offset of seven signed bits, in units of `2 ^ k` bytes, as the bits of an `int`
unfoldable pub signed_offset : ℕ → ℕ → ℕ
signed_offset k bits = if leb 64 bits then 2 ^ 32 - (128 - bits) * 2 ^ k else bits * 2 ^ k

unfoldable pub with_pair : Option Pair → ℕ → ℕ → ℕ → ℕ → Option (Pair × ℕ × ℕ × ℕ × ℕ)
with_pair none one two address bits = none
with_pair (some p) one two address bits = some (p, one, two, address, signed_offset (scale p) bits)

-- The instruction that one word is: its registers, and its offset in bytes.
abbrev pub decode_pair : List ℕ → Option (Pair × ℕ × ℕ × ℕ × ℕ)
decode_pair [] = none
decode_pair (w ∷ w' ∷ ws) = none
decode_pair (w ∷ []) =
    with_pair (pair_of (w / 2 ^ 22)) (w % 32) (w / 2 ^ 10 % 32) (w / 2 ^ 5 % 32)
      (w / 2 ^ 15 % 2 ^ 7)
