-- ===== src/Arm64/PreIndex/Decoded.antt =====
-- The words of str32_pre_index and str64_pre_index of src/templategenerator.cpp, read back.
use Prim.Native.Nat.{bit_or}
use core_vm.Base.{
  ℕ, ◌+◌, ◌-◌, ◌*◌, ◌/◌, ◌%◌, ◌^◌, ◌<◌, ◌≡◌, refl, ◌∙◌, ap, arith, [], ◌∷◌, Option, none, some, inl,
  inr, Bool-cases, leb, leb→le, ◌==◌, ==_iff, if◌then◌else◌,
}
use core_vm.Base.Outcome.{Outcome, ok, aborted, ◌>>=◌}
use core_vm.Arm64.{shl}
use core_vm.Arm64.Bits.{or_above, or_between}
use core_vm.Arm64.Pairs.{is_negative}
use core_vm.Arm64.PreIndex.{
  pre_index, Store, str_pre_w, str_pre_x, store, store_of, signed9, with_address, decode_store,
}

-- the word of a store with a constant of nine bits
abbrev word : ℕ → ℕ → ℕ → ℕ → ℕ
word b i n t = b * 2 ^ 21 + i * 2 ^ 12 + 3 * 2 ^ 10 + n * 2 ^ 5 + t

-- what the manual reads in the word of an encoder
abbrev pub stored : Store → ℕ → ℕ → ℕ → Outcome (Option (Store × ℕ × ℕ × ℕ))
stored s n t offset =
    if is_negative offset
    then (if offset == 2 ^ 32 - 256
        then ok (some (s, n, t, 2 ^ 32 - 1))
        else if leb (2 ^ 32 - offset) 256
        then ok none
        else aborted)
    else if leb offset 255
    then ok (some (s, n, t, offset))
    else aborted

module _ (n t : ℕ) (hn : n < 32) (ht : t < 32) where
  registers :
      (b base : ℕ)
      → bit_or base (shl 0x3 10) ≡ (b * 2 ^ 11 + 3) * 2 ^ 10
      → bit_or (bit_or (bit_or base (shl 0x3 10)) t) (shl n 5) ≡ word b 0 n t
  registers b base is_base =
      let x = b * 2 ^ 11 + 3 in
      let whole : shl n 5 ≡ n * 2 ^ 5 = omega arith in
      let first : bit_or (x * 2 ^ 10) t ≡ x * 2 ^ 5 * 2 ^ 5 + t =
        or_above 10 x t (omega arith) ∙ omega arith in
      let second : (x * 2 ^ 5 + n) * 2 ^ 5 + t ≡ word b 0 n t = omega arith in
      rw (is_base, whole, first, or_between 5 5 x t n (omega arith) (omega arith), second)

  placed : (b i : ℕ) → i < 512 → bit_or (word b 0 n t) (shl i 12) ≡ word b i n t
  placed b i hi =
      let r = 3 * 2 ^ 10 + n * 2 ^ 5 + t in
      let whole : shl i 12 ≡ i * 2 ^ 12 = omega arith in
      let split : word b 0 n t ≡ b * 2 ^ 9 * 2 ^ 12 + r = omega arith in
      let joined : (b * 2 ^ 9 + i) * 2 ^ 12 + r ≡ word b i n t = omega arith in
      rw (whole, split, or_between 9 12 b r i (omega arith) hi, joined)

  signed : (c i : ℕ) → i < 512 → bit_or (word (c * 2) i n t) (shl 1 21) ≡ word (c * 2 + 1) i n t
  signed c i hi =
      let r = i * 2 ^ 12 + 3 * 2 ^ 10 + n * 2 ^ 5 + t in
      let split : word (c * 2) i n t ≡ c * 2 ^ 1 * 2 ^ 21 + r = omega arith in
      let joined : (c * 2 ^ 1 + 1) * 2 ^ 21 + r ≡ word (c * 2 + 1) i n t = omega arith in
      rw split (or_between 1 21 c r 1 (omega arith) (omega arith) ∙ joined)

  decode_word :
      (b i : ℕ) → i < 512 → decode_store (word b i n t ∷ []) ≡ with_address (store_of b 3) n t i
  decode_word b i hi =
      let w = word b i n t in
      let high : w / 2 ^ 21 ≡ b = omega arith in
      let low : w / 2 ^ 10 % 4 ≡ 3 = omega arith in
      let address : w / 2 ^ 5 % 32 ≡ n = omega arith in
      let register : w % 32 ≡ t = omega arith in
      let bits : w / 2 ^ 12 % 512 ≡ i = omega arith in rw (high, low, address, register, bits)

  pre_index-decode :
      (c base offset : ℕ) (s : Store)
      → offset < 2 ^ 32
      → bit_or base (shl 0x3 10) ≡ (c * 2 * 2 ^ 11 + 3) * 2 ^ 10
      → store_of (c * 2) 3 ≡ some s
      → store_of (c * 2 + 1) 3 ≡ none
      → (pre_index base n t offset >>= λ ws. ok (decode_store ws)) ≡ stored s n t offset
  unfolding pre_index with_address
  pre_index-decode c base offset s ho is_base is_s no_s = elim (Bool-cases (offset == 0)) [
    | inl e ↦
        rw ((==_iff offset 0).0 e, registers (c * 2) base is_base)
          (ap ok (decode_word (c * 2) 0 (omega arith) ∙ ap (λ o. with_address o n t 0) is_s))
    | inr e ↦ elim (Bool-cases (is_negative offset)) [
      | inl neg ↦ elim (Bool-cases (offset == 2 ^ 32 - 256)) [
        | inl least ↦
            rw
              (
                (==_iff offset _).0 least,
                registers (c * 2) base is_base,
                placed (c * 2) 0x1ff (omega arith),
              )
              (ap ok
                (decode_word (c * 2) 0x1ff (omega arith) ∙ ap (λ o. with_address o n t 0x1ff) is_s))
        | inr above ↦ elim (Bool-cases (leb (2 ^ 32 - offset) 256)) [
          | inr far ↦ rw (e, neg, above, far)
          | inl near ↦
              let i = offset % 256 in
              rw
                (
                  e,
                  neg,
                  above,
                  near,
                  registers (c * 2) base is_base,
                  placed (c * 2) i (omega arith),
                  signed c i (omega arith),
                )
                (ap ok
                  (decode_word (c * 2 + 1) i (omega arith) ∙ ap (λ o. with_address o n t i) no_s))
        ]
      ]
      | inr pos ↦ elim (Bool-cases (leb offset 255)) [
        | inr far ↦ rw (e, pos, far)
        | inl near ↦
            let small : offset < 256 = omega (arith, leb→le _ _ near) in
            let same : signed9 offset ≡ offset = ground arith in
            rw (e, pos, near, registers (c * 2) base is_base, placed (c * 2) offset (omega arith))
              (ap ok (
                decode_word (c * 2) offset (omega arith)
                ∙ ap (λ o. with_address o n t offset) is_s
                ∙ ap (λ o. some (s, n, t, o)) same))
      ]
    ]
  ]

  -- The two encoders of a store that moves its address on first: for an offset from 0 to 255 they
  -- emit one word, which the manual reads as that store; for -256 the word is that of the offset
  -- -1; for any other negative offset down to -256 it is not a store of this kind at all, since the
  -- sign is put into the wrong bit; and beyond these bounds an assertion fails.
  pub store-decode :
      (s : Store) (offset : ℕ)
      → offset < 2 ^ 32
      → (store s n t offset >>= λ ws. ok (decode_store ws)) ≡ stored s n t offset
  unfolding store_of
  store-decode str_pre_w offset ho =
      pre_index-decode 0x2e0 0xb8000000 offset str_pre_w ho refl refl refl
  store-decode str_pre_x offset ho =
      pre_index-decode 0x3e0 0xf8000000 offset str_pre_x ho refl refl refl
