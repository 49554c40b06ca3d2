-- ===== src/Arm64/Registers.antt =====
-- The encoders of src/templategenerator.cpp that copy a register or go to the address in one, and the
-- manual's reading of their words.
use Prim.Native.Nat.{bit_or}
use core_vm.Base.{
  ℕ, ◌+◌, ◌*◌, ◌/◌, ◌%◌, ◌^◌, ◌<◌, ◌≡◌, refl, ◌∙◌, ap, arith, List, [], ◌∷◌, Option, none, some,
  ◌&&◌, ◌==◌, if◌then◌else◌,
}
use core_vm.Arm64.{shl}
use core_vm.Arm64.Bits.{or_above, or_between}

unfoldable pub copy : ℕ → ℕ → ℕ → List ℕ
copy base dst src = bit_or (bit_or (bit_or base (shl 0x1f 5)) dst) (shl src 16) ∷ []

abbrev pub mov32 : ℕ → ℕ → List ℕ
mov32 dst src = copy 0x2a000000 dst src

abbrev pub mov64 : ℕ → ℕ → List ℕ
mov64 dst src = copy 0xaa000000 dst src

unfoldable pub go_to : ℕ → ℕ → List ℕ
go_to base dst = bit_or base (shl dst 5) ∷ []

abbrev pub ret : ℕ → List ℕ
ret dst = go_to 0xd65f0000 dst

abbrev pub br : ℕ → List ℕ
br dst = go_to 0xd61f0000 dst

abbrev pub blr : ℕ → List ℕ
blr dst = go_to 0xd63f0000 dst

-- the instructions of the manual: a move is an or with the zero register
pub data Instruction : Type 0 where
  orr_w orr_x : ℕ → ℕ → Instruction
  ret_to br_to blr_to : ℕ → Instruction

-- the encoder of an instruction
abbrev pub encode : Instruction → List ℕ
encode (orr_w dst src) = mov32 dst src
encode (orr_x dst src) = mov64 dst src
encode (ret_to dst) = ret dst
encode (br_to dst) = br dst
encode (blr_to dst) = blr dst

-- the instruction with these high sixteen bits without the second operand, these six bits behind it, and
-- these three registers
unfoldable pub read : ℕ → ℕ → ℕ → ℕ → ℕ → Option Instruction
read high low rm rn rd =
    if high == 0x150 && (low == 0 && rn == 0x1f)
    then some (orr_w rd rm)
    else if high == 0x550 && (low == 0 && rn == 0x1f)
    then some (orr_x rd rm)
    else if high == 0x6b2 && (rm == 0x1f && (low == 0 && rd == 0))
    then some (ret_to rn)
    else if high == 0x6b0 && (rm == 0x1f && (low == 0 && rd == 0))
    then some (br_to rn)
    else if high == 0x6b1 && (rm == 0x1f && (low == 0 && rd == 0))
    then some (blr_to rn)
    else none

abbrev pub decode_one : List ℕ → Option Instruction
decode_one [] = none
decode_one (w ∷ w' ∷ ws) = none
decode_one (w ∷ []) =
    read (w / 2 ^ 21) (w / 2 ^ 10 % 64) (w / 2 ^ 16 % 32) (w / 2 ^ 5 % 32) (w % 32)

-- the registers of an instruction are there
abbrev pub IsEncodable : Instruction → Type 0
IsEncodable (orr_w dst src) = (dst < 32) × (src < 32)
IsEncodable (orr_x dst src) = (dst < 32) × (src < 32)
IsEncodable (ret_to dst) = dst < 32
IsEncodable (br_to dst) = dst < 32
IsEncodable (blr_to dst) = dst < 32

abbrev word : ℕ → ℕ → ℕ → ℕ → ℕ
word b m n d = b * 2 ^ 21 + m * 2 ^ 16 + n * 2 ^ 5 + d

read-word :
    (b m n d : ℕ) → m < 32 → n < 32 → d < 32 → decode_one (word b m n d ∷ []) ≡ read b 0 m n d
read-word b m n d hm hn hd =
    let w = word b m n d in
    let high : w / 2 ^ 21 ≡ b = omega arith in
    let low : w / 2 ^ 10 % 64 ≡ 0 = omega arith in
    let rm : w / 2 ^ 16 % 32 ≡ m = omega arith in
    let rn : w / 2 ^ 5 % 32 ≡ n = omega arith in
    let rd : w % 32 ≡ d = omega arith in rw (high, low, rm, rn, rd)

copy-word :
    (b base d m : ℕ)
    → d < 32
    → m < 32
    → bit_or base (shl 0x1f 5) ≡ (b * 2 ^ 16 + 0x1f) * 2 ^ 5
    → copy base d m ≡ word b m 0x1f d ∷ []
unfolding copy
copy-word b base d m hd hm is_base =
    let x = b * 2 ^ 16 + 0x1f in
    let r = 0x1f * 2 ^ 5 + d in
    let whole : shl m 16 ≡ m * 2 ^ 16 = omega arith in
    let first : bit_or (x * 2 ^ 5) d ≡ b * 2 ^ 5 * 2 ^ 16 + r =
      or_above 5 x d (omega arith) ∙ omega arith in
    let joined : (b * 2 ^ 5 + m) * 2 ^ 16 + r ≡ word b m 0x1f d = omega arith in
    rw (is_base, whole, first, or_between 5 16 b r m (omega arith) (omega arith), joined)

go_to-word :
    (b base n : ℕ)
    → n < 32
    → base ≡ (b * 2 ^ 11 + 0x1f * 2 ^ 6) * 2 ^ 10
    → go_to base n ≡ word b 0x1f n 0 ∷ []
unfolding go_to
go_to-word b base n hn is_base =
    let whole : shl n 5 ≡ n * 2 ^ 5 = omega arith in
    let joined : (b * 2 ^ 11 + 0x1f * 2 ^ 6) * 2 ^ 10 + n * 2 ^ 5 ≡ word b 0x1f n 0 = omega arith in
    rw (is_base, whole, or_above 10 (b * 2 ^ 11 + 0x1f * 2 ^ 6) (n * 2 ^ 5) (omega arith), joined)

-- Each of the encoders that copy a register or go to the address in one emits one word, which the
-- manual reads as its instruction on the registers that it was given.
pub decode_one-encode : (i : Instruction) → IsEncodable i → decode_one (encode i) ≡ some i
unfolding read
decode_one-encode (orr_w dst src) (hd, hs) =
    ap decode_one (copy-word 0x150 0x2a000000 dst src hd hs refl)
    ∙ read-word 0x150 src 0x1f dst hs (omega arith) hd
decode_one-encode (orr_x dst src) (hd, hs) =
    ap decode_one (copy-word 0x550 0xaa000000 dst src hd hs refl)
    ∙ read-word 0x550 src 0x1f dst hs (omega arith) hd
decode_one-encode (ret_to dst) hd =
    ap decode_one (go_to-word 0x6b2 0xd65f0000 dst hd refl)
    ∙ read-word 0x6b2 0x1f dst 0 (omega arith) hd (omega arith)
decode_one-encode (br_to dst) hd =
    ap decode_one (go_to-word 0x6b0 0xd61f0000 dst hd refl)
    ∙ read-word 0x6b0 0x1f dst 0 (omega arith) hd (omega arith)
decode_one-encode (blr_to dst) hd =
    ap decode_one (go_to-word 0x6b1 0xd63f0000 dst hd refl)
    ∙ read-word 0x6b1 0x1f dst 0 (omega arith) hd (omega arith)
