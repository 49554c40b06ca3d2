-- ===== src/Arm64/PreIndex.antt =====
-- str32_pre_index and str64_pre_index of src/templategenerator.cpp. An offset is an `int`, as its 32 bits.
pub mod Decoded
use Prim.Native.Nat.{bit_or}
use core_vm.Base.{
  ℕ, ◌-◌, ◌*◌, ◌/◌, ◌%◌, ◌^◌, Bool, ◌&&◌, List, [], ◌∷◌, Option, none, some, leb, ◌==◌,
  if◌then◌else◌,
}
use core_vm.Base.Outcome.{Outcome, ok, ◌>>=◌, ◌>>◌, assert}
use core_vm.Arm64.{shl}
use core_vm.Arm64.Pairs.{is_negative}

-- The sign of a negative offset goes to bit 21.
unfoldable pub pre_index : ℕ → ℕ → ℕ → ℕ → Outcome (List ℕ)
pre_index base dst src offset =
    let ins = bit_or (bit_or (bit_or base (shl 0x3 10)) src) (shl dst 5) in
    if offset == 0
    then ok (ins ∷ [])
    else if is_negative offset
    then (assert (leb (2 ^ 32 - offset) 256)
        >> ok (
            (if offset == 2 ^ 32 - 256
              then bit_or ins (shl 0x1ff 12)
              else bit_or (bit_or ins (shl (offset % 256) 12)) (shl 1 21))
            ∷ []))
    else (assert (leb offset 255) >> ok (bit_or ins (shl offset 12) ∷ []))

abbrev pub str32_pre_index : ℕ → ℕ → ℕ → Outcome (List ℕ)
str32_pre_index dst src offset = pre_index 0xb8000000 dst src offset

abbrev pub str64_pre_index : ℕ → ℕ → ℕ → Outcome (List ℕ)
str64_pre_index dst src offset = pre_index 0xf8000000 dst src offset

-- the instructions of the manual
pub data Store : Type 0 where
  str_pre_w str_pre_x : Store

abbrev pub store : Store → ℕ → ℕ → ℕ → Outcome (List ℕ)
store str_pre_w = str32_pre_index
store str_pre_x = str64_pre_index

-- the instruction with these high eleven bits, and these two bits before its constant
unfoldable pub store_of : ℕ → ℕ → Option Store
store_of high low =
    if high == 0x5c0 && low == 3
    then some str_pre_w
    else if high == 0x7c0 && low == 3
    then some str_pre_x
    else none

-- nine signed bits, as the bits of an `int`
abbrev pub signed9 : ℕ → ℕ
signed9 bits = if leb 256 bits then 2 ^ 32 - (512 - bits) else bits

unfoldable pub with_address : Option Store → ℕ → ℕ → ℕ → Option (Store × ℕ × ℕ × ℕ)
with_address none address register bits = none
with_address (some s) address register bits = some (s, address, register, signed9 bits)

-- The store that one word is: the register of its address, the one that is stored, and the offset.
abbrev pub decode_store : List ℕ → Option (Store × ℕ × ℕ × ℕ)
decode_store [] = none
decode_store (w ∷ w' ∷ ws) = none
decode_store (w ∷ []) =
    with_address (store_of (w / 2 ^ 21) (w / 2 ^ 10 % 4)) (w / 2 ^ 5 % 32) (w % 32)
      (w / 2 ^ 12 % 512)
