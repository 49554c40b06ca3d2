-- ===== src/Arm64/Arithmetic/Decoded.antt =====
-- The words of the encoders in src/templategenerator.cpp, read back.
use Prim.Native.Nat.{bit_or}
use core_vm.Base.{ℕ, ◌+◌, ◌*◌, ◌/◌, ◌%◌, ◌^◌, ◌<◌, ◌≡◌, refl, ◌∙◌, ap, arith, [], ◌∷◌, some}
use core_vm.Arm64.{shl}
use core_vm.Arm64.Bits.{or_above, or_between}
use core_vm.Arm64.Arithmetic.{
  three, Operation, add_w, add_x, sub_w, sub_x, mul_w, mul_x, sdiv_w, sdiv_x, encoder, operation_of,
  decode, with_registers,
}

-- the word of an instruction on three registers
abbrev word : ℕ → ℕ → ℕ → ℕ → ℕ → ℕ
word b e d n m = b * 2 ^ 21 + m * 2 ^ 16 + e * 2 ^ 10 + n * 2 ^ 5 + d

module _ (d n m : ℕ) (hd : d < 32) (hn : n < 32) (hm : m < 32) where
  three-word :
      (b e base : ℕ)
      → e < 64
      → base ≡ (b * 2 ^ 11 + e) * 2 ^ 10
      → three base d n m ≡ word b e d n m ∷ []
  unfolding three
  three-word b e base he is_base =
      let x = b * 2 ^ 11 + e in
      let whole_n : shl n 5 ≡ n * 2 ^ 5 = omega arith in
      let whole_m : shl m 16 ≡ m * 2 ^ 16 = omega arith in
      let first : bit_or (x * 2 ^ 10) d ≡ x * 2 ^ 5 * 2 ^ 5 + d =
        or_above 10 x d (omega arith) ∙ omega arith in
      let r = e * 2 ^ 10 + n * 2 ^ 5 + d in
      let second : (x * 2 ^ 5 + n) * 2 ^ 5 + d ≡ b * 2 ^ 5 * 2 ^ 16 + r = omega arith in
      let third : (b * 2 ^ 5 + m) * 2 ^ 16 + r ≡ word b e d n m = omega arith in
      rw (
        is_base,
        whole_n,
        whole_m,
        first,
        or_between 5 5 x d n (omega arith) (omega arith),
        second,
        or_between 5 16 b r m (omega arith) (omega arith),
        third,
      )

  decode-word :
      (b e : ℕ) (o : Operation)
      → e < 64
      → operation_of b e ≡ some o
      → decode (word b e d n m ∷ []) ≡ some (o, d, n, m)
  unfolding with_registers
  decode-word b e o he is_o =
      let w = word b e d n m in
      let high : w / 2 ^ 21 ≡ b = omega arith in
      let low : w / 2 ^ 10 % 64 ≡ e = omega arith in
      let rd : w % 32 ≡ d = omega arith in
      let rn : w / 2 ^ 5 % 32 ≡ n = omega arith in
      let rm : w / 2 ^ 16 % 32 ≡ m = omega arith in rw (high, low, is_o, rd, rn, rm)

  decode_base :
      (b e base : ℕ) (o : Operation)
      → e < 64
      → base ≡ (b * 2 ^ 11 + e) * 2 ^ 10
      → operation_of b e ≡ some o
      → decode (three base d n m) ≡ some (o, d, n, m)
  decode_base b e base o he is_base is_o =
      ap decode (three-word b e base he is_base) ∙ decode-word b e o he is_o

  -- Each encoder of arithmetic emits one word, which the manual reads as the encoder's instruction
  -- on the registers that it was given.
  pub decode-encoder : (o : Operation) → decode (encoder o d n m) ≡ some (o, d, n, m)
  unfolding operation_of
  decode-encoder add_w = decode_base 0x058 0 0x0b000000 add_w (omega arith) refl refl
  decode-encoder add_x = decode_base 0x458 0 0x8b000000 add_x (omega arith) refl refl
  decode-encoder sub_w = decode_base 0x258 0 0x4b000000 sub_w (omega arith) refl refl
  decode-encoder sub_x = decode_base 0x658 0 0xcb000000 sub_x (omega arith) refl refl
  decode-encoder mul_w = decode_base 0x0d8 0x1f 0x1b007c00 mul_w (omega arith) refl refl
  decode-encoder mul_x = decode_base 0x4d8 0x1f 0x9b007c00 mul_x (omega arith) refl refl
  decode-encoder sdiv_w = decode_base 0x0d6 0x3 0x1ac00c00 sdiv_w (omega arith) refl refl
  decode-encoder sdiv_x = decode_base 0x4d6 0x3 0x9ac00c00 sdiv_x (omega arith) refl refl
