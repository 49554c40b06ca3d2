-- ===== src/Arm64/Memory/Constants.antt =====
-- The words of the arithmetic with a constant in src/templategenerator.cpp, read back.
use core_vm.Base.{
  ℕ, ◌*◌, ◌/◌, ◌%◌, ◌^◌, ◌<◌, ◌≡◌, refl, ◌∙◌, ap, arith, List, [], ◌∷◌, Option, none, some, inl,
  inr, Bool-cases, leb, leb→le, ◌==◌, if◌then◌else◌,
}
use core_vm.Base.Outcome.{Outcome, ok, aborted, ◌>>=◌}
use core_vm.Arm64.Memory.{immediate, add32_imm, add64_imm, sub32_imm, sub64_imm}
use core_vm.Arm64.Memory.Accessed.{word, constant_word}

-- the instructions of the manual
pub data Arithmetic : Type 0 where
  add_w add_x sub_w sub_x : Arithmetic

-- the encoder of an instruction
abbrev pub add_or_sub : Arithmetic → ℕ → ℕ → ℕ → Outcome (List ℕ)
add_or_sub add_w = add32_imm
add_or_sub add_x = add64_imm
add_or_sub sub_w = sub32_imm
add_or_sub sub_x = sub64_imm

-- the instruction with these high ten bits
unfoldable pub arithmetic_of : ℕ → Option Arithmetic
arithmetic_of high =
    if high == 0x044
    then some add_w
    else if high == 0x244
    then some add_x
    else if high == 0x144
    then some sub_w
    else if high == 0x344
    then some sub_x
    else none

unfoldable pub with_arguments : Option Arithmetic → ℕ → ℕ → ℕ → Option (Arithmetic × ℕ × ℕ × ℕ)
with_arguments none rd rn imm = none
with_arguments (some o) rd rn imm = some (o, rd, rn, imm)

-- The instruction that one word is: its destination, its operand and its constant.
abbrev pub decode_constant : List ℕ → Option (Arithmetic × ℕ × ℕ × ℕ)
decode_constant [] = none
decode_constant (w ∷ w' ∷ ws) = none
decode_constant (w ∷ []) =
    with_arguments (arithmetic_of (w / 2 ^ 22)) (w % 32) (w / 2 ^ 5 % 32) (w / 2 ^ 10 % 2 ^ 12)

module _ (d n imm : ℕ) (hd : d < 32) (hn : n < 32) where
  read_back :
      (b : ℕ) (o : Arithmetic)
      → imm < 2 ^ 12
      → arithmetic_of b ≡ some o
      → decode_constant (word b imm n d ∷ []) ≡ some (o, d, n, imm)
  unfolding with_arguments
  read_back b o hi is_o =
      let w = word b imm n d in
      let high : w / 2 ^ 22 ≡ b = omega arith in
      let rd : w % 32 ≡ d = omega arith in
      let rn : w / 2 ^ 5 % 32 ≡ n = omega arith in
      let bits : w / 2 ^ 10 % 2 ^ 12 ≡ imm = omega arith in rw (high, is_o, rd, rn, bits)

  decode_immediate :
      (b base : ℕ) (o : Arithmetic)
      → base ≡ b * 2 ^ 12 * 2 ^ 10
      → arithmetic_of b ≡ some o
      → (immediate base d n imm >>= λ ws. ok (decode_constant ws))
        ≡ (if leb imm 0xfff then ok (some (o, d, n, imm)) else aborted)
  unfolding immediate
  decode_immediate b base o is_base is_o = elim (Bool-cases (leb imm 0xfff)) [
    | inr e ↦ rw e
    | inl e ↦
        let small : imm < 2 ^ 12 = omega (arith, leb→le _ _ e) in
        rw e (
          ap (λ ws. ok (decode_constant ws)) (constant_word d n hd hn b imm base small is_base)
          ∙ ap ok (read_back b o small is_o))
  ]

  -- Each encoder of an addition or subtraction of a constant fails an assertion where the constant,
  -- an `int`, is negative or more than 4095; otherwise it emits one word, which the manual reads as
  -- the encoder's instruction on the registers and the constant that it was given.
  pub decode_constant-add_or_sub :
      (o : Arithmetic)
      → (add_or_sub o d n imm >>= λ ws. ok (decode_constant ws))
        ≡ (if leb imm 0xfff then ok (some (o, d, n, imm)) else aborted)
  unfolding arithmetic_of
  decode_constant-add_or_sub add_w = decode_immediate 0x044 0x11000000 add_w refl refl
  decode_constant-add_or_sub add_x = decode_immediate 0x244 0x91000000 add_x refl refl
  decode_constant-add_or_sub sub_w = decode_immediate 0x144 0x51000000 sub_w refl refl
  decode_constant-add_or_sub sub_x = decode_immediate 0x344 0xd1000000 sub_x refl refl
