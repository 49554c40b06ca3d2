-- ===== src/Arm64/Memory/Accessed.antt =====
-- The words of the loads and stores in src/templategenerator.cpp, read back.
use Prim.Native.Nat.{bit_or}
use core_vm.Base.{
  ℕ, ◌+◌, ◌*◌, ◌/◌, ◌%◌, ◌^◌, ◌<◌, ◌≡◌, refl, ◌∙◌, ap, arith, Bool, ◌&&◌, [], ◌∷◌, some, inl, inr,
  Bool-cases, ltb, ltb→lt, ◌==◌, ==_iff, if◌then◌else◌,
}
use core_vm.Base.Outcome.{ok, aborted, ◌>>=◌}
use core_vm.Arm64.{shl}
use core_vm.Arm64.Bits.{or_above, or_between}
use core_vm.Arm64.Memory.{
  sar, with_constant, scaled, Access, str_w, str_x, ldr_w, ldr_x, scale, access, access_of,
  with_operands, decode_access,
}

-- the word of an instruction on two registers and a constant
abbrev pub word : ℕ → ℕ → ℕ → ℕ → ℕ
word b i n d = b * 2 ^ 22 + i * 2 ^ 10 + n * 2 ^ 5 + d

module _ (d n : ℕ) (hd : d < 32) (hn : n < 32) where
  pub constant_word :
      (b i base : ℕ)
      → i < 2 ^ 12
      → base ≡ b * 2 ^ 12 * 2 ^ 10
      → with_constant base d n i ≡ word b i n d ∷ []
  unfolding with_constant
  constant_word b i base hi is_base =
      let x = b * 2 ^ 12 in
      let whole_n : shl n 5 ≡ n * 2 ^ 5 = omega arith in
      let whole_i : shl i 10 ≡ i * 2 ^ 10 = omega arith in
      let first : bit_or (x * 2 ^ 10) d ≡ x * 2 ^ 5 * 2 ^ 5 + d =
        or_above 10 x d (omega arith) ∙ omega arith in
      let r = n * 2 ^ 5 + d in
      let second : (x * 2 ^ 5 + n) * 2 ^ 5 + d ≡ b * 2 ^ 12 * 2 ^ 10 + r = omega arith in
      let third : (b * 2 ^ 12 + i) * 2 ^ 10 + r ≡ word b i n d = omega arith in
      rw (
        is_base,
        whole_n,
        whole_i,
        first,
        or_between 5 5 x d n (omega arith) (omega arith),
        second,
        or_between 12 10 b r i (omega arith) hi,
        third,
      )

  decode_constant :
      (b i : ℕ) (a : Access)
      → i < 2 ^ 12
      → access_of b ≡ some a
      → decode_access (word b i n d ∷ []) ≡ some (a, d, n, i * 2 ^ scale a)
  unfolding with_operands
  decode_constant b i a hi is_a =
      let w = word b i n d in
      let high : w / 2 ^ 22 ≡ b = omega arith in
      let rt : w % 32 ≡ d = omega arith in
      let rn : w / 2 ^ 5 % 32 ≡ n = omega arith in
      let units : w / 2 ^ 10 % 2 ^ 12 ≡ i = omega arith in rw (high, is_a, rt, rn, units)

-- whether an offset can be encoded, where units have `2 ^ k` bytes: it is a multiple of them, and below
-- 4096 of them
abbrev pub is_encodable : ℕ → ℕ → Bool
is_encodable k offset = (offset % 2 ^ k == 0) && ltb offset (2 ^ 12 * 2 ^ k)

-- the units of an offset that is a multiple of them
units_fit :
    (a : Access) (offset : ℕ)
    → offset < 2 ^ 32
    → offset % 2 ^ scale a ≡ 0
    → ltb (sar offset (scale a)) (2 ^ 12) ≡ ltb offset (2 ^ 12 * 2 ^ scale a)
units_fit str_w offset h whole = ground arith
units_fit str_x offset h whole = ground arith
units_fit ldr_w offset h whole = ground arith
units_fit ldr_x offset h whole = ground arith

units_back :
    (a : Access) (offset : ℕ)
    → offset < 2 ^ 12 * 2 ^ scale a
    → offset % 2 ^ scale a ≡ 0
    → sar offset (scale a) * 2 ^ scale a ≡ offset
units_back str_w offset h whole = ground arith
units_back str_x offset h whole = ground arith
units_back ldr_w offset h whole = ground arith
units_back ldr_x offset h whole = ground arith

module _ (d n offset : ℕ) (hd : d < 32) (hn : n < 32) (ho : offset < 2 ^ 32) where
  scaled_access :
      (b base : ℕ) (a : Access)
      → base ≡ b * 2 ^ 12 * 2 ^ 10
      → access_of b ≡ some a
      → (scaled base (scale a) d n offset >>= λ ws. ok (decode_access ws))
        ≡ (if is_encodable (scale a) offset then ok (some (a, d, n, offset)) else aborted)
  unfolding scaled
  scaled_access b base a is_base is_a = elim (Bool-cases (offset % 2 ^ scale a == 0)) [
    | inr e ↦ rw e
    | inl e ↦
        let whole : offset % 2 ^ scale a ≡ 0 = (==_iff _ _).0 e in
        let fit = units_fit a offset ho whole in
        elim (Bool-cases (ltb offset (2 ^ 12 * 2 ^ scale a))) [
          | inr far ↦ rw (e, fit, far)
          | inl near ↦
              let small : sar offset (scale a) < 2 ^ 12 = ltb→lt _ _ (fit ∙ near) in
              rw (e, fit, near)
                (ap (λ ws. ok (decode_access ws))
                    (constant_word d n hd hn b (sar offset (scale a)) base small is_base)
                  ∙ ap ok (decode_constant d n hd hn b (sar offset (scale a)) a small is_a)
                  ∙ ap (λ o. ok (some (a, d, n, o))) (units_back a offset (ltb→lt _ _ near) whole))
        ]
  ]

  -- Each encoder of a load or store fails an assertion where the offset, an `int`, is negative, is
  -- no multiple of the size of the access, or is 4096 times that size or more; otherwise it emits
  -- one word, which the manual reads as the access of the register at that offset from the address
  -- in the other register.
  pub access-decode :
      (a : Access)
      → (access a d n offset >>= λ ws. ok (decode_access ws))
        ≡ (if is_encodable (scale a) offset then ok (some (a, d, n, offset)) else aborted)
  unfolding access_of
  access-decode str_w = scaled_access 0x2e4 0xb9000000 str_w refl refl
  access-decode str_x = scaled_access 0x3e4 0xf9000000 str_x refl refl
  access-decode ldr_w = scaled_access 0x2e5 0xb9400000 ldr_w refl refl
  access-decode ldr_x = scaled_access 0x3e5 0xf9400000 ldr_x refl refl
