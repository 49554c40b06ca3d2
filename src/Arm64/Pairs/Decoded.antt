-- ===== src/Arm64/Pairs/Decoded.antt =====
-- The words of the loads and stores of two registers in src/templategenerator.cpp, read back.
use Prim.Native.Nat.{bit_or}
use core_vm.Base.{
  ℕ, ◌+◌, ◌*◌, ◌/◌, ◌%◌, ◌^◌, ◌<◌, ◌≡◌, refl, ◌∙◌, ap, arith, Bool, true, ◌&&◌, [], ◌∷◌, some, inl,
  inr, Bool-cases, ◌==◌, ==_iff, if◌then◌else◌,
}
use core_vm.Base.Outcome.{ok, aborted, ◌>>=◌}
use core_vm.Arm64.{shl}
use core_vm.Arm64.Bits.{or_above, or_between}
use core_vm.Arm64.Memory.{sar}
use core_vm.Arm64.Pairs.{
  is_negative, is_near, with_offset, load_pair, store_pair, Pair, ldp_pre_x, ldp_pre_w, ldp_post_x,
  ldp_post_w, stp_pre_x, stp_pre_w, stp_post_x, stp_post_w, scale, pair, pair_of, signed_offset,
  with_pair, decode_pair,
}

-- the word of an instruction on three registers and a signed constant of seven bits
abbrev word : ℕ → ℕ → ℕ → ℕ → ℕ → ℕ
word b i m n d = b * 2 ^ 22 + i * 2 ^ 15 + m * 2 ^ 10 + n * 2 ^ 5 + d

-- the seven bits of an offset that is encoded
abbrev bits_of : ℕ → ℕ → ℕ
bits_of k offset = sar offset k % 128

module _ (d m n : ℕ) (hd : d < 32) (hm : m < 32) (hn : n < 32) where
  load_registers :
      (b : ℕ)
      → bit_or (bit_or (bit_or (b * 2 ^ 12 * 2 ^ 10) d) (shl n 5)) (shl m 10) ≡ word b 0 m n d
  load_registers b =
      let x = b * 2 ^ 12 in
      let whole_n : shl n 5 ≡ n * 2 ^ 5 = omega arith in
      let whole_m : shl m 10 ≡ m * 2 ^ 10 = omega arith in
      let first : bit_or (x * 2 ^ 10) d ≡ x * 2 ^ 5 * 2 ^ 5 + d =
        or_above 10 x d (omega arith) ∙ omega arith in
      let r = n * 2 ^ 5 + d in
      let second : (x * 2 ^ 5 + n) * 2 ^ 5 + d ≡ b * 2 ^ 7 * 2 ^ 5 * 2 ^ 10 + r = omega arith in
      let third : (b * 2 ^ 7 * 2 ^ 5 + m) * 2 ^ 10 + r ≡ word b 0 m n d = omega arith in
      rw (
        whole_n,
        whole_m,
        first,
        or_between 5 5 x d n (omega arith) (omega arith),
        second,
        or_between 5 10 (b * 2 ^ 7) r m (omega arith) (omega arith),
        third,
      )

  store_registers :
      (b : ℕ)
      → bit_or (bit_or (bit_or (b * 2 ^ 12 * 2 ^ 10) d) (shl m 10)) (shl n 5) ≡ word b 0 m n d
  store_registers b =
      let x = b * 2 ^ 7 in
      let whole_n : shl n 5 ≡ n * 2 ^ 5 = omega arith in
      let whole_m : shl m 10 ≡ m * 2 ^ 10 = omega arith in
      let first : bit_or (b * 2 ^ 12 * 2 ^ 10) d ≡ x * 2 ^ 5 * 2 ^ 10 + d =
        or_above 10 (b * 2 ^ 12) d (omega arith) ∙ omega arith in
      let second : (x * 2 ^ 5 + m) * 2 ^ 10 + d ≡ (x * 2 ^ 5 + m) * 2 ^ 5 * 2 ^ 5 + d =
        omega arith in
      let third : ((x * 2 ^ 5 + m) * 2 ^ 5 + n) * 2 ^ 5 + d ≡ word b 0 m n d = omega arith in
      rw (
        whole_n,
        whole_m,
        first,
        or_between 5 10 x d m (omega arith) (omega arith),
        second,
        or_between 5 5 (x * 2 ^ 5 + m) d n (omega arith) (omega arith),
        third,
      )

  -- the word with the six low bits of the units and their sign
  placed_units :
      (b u : ℕ) → u < 2 ^ 32 → bit_or (word b 0 m n d) (shl (u % 64) 15) ≡ word b (u % 64) m n d
  placed_units b u hu =
      let r = m * 2 ^ 10 + n * 2 ^ 5 + d in
      let whole : shl (u % 64) 15 ≡ u % 64 * 2 ^ 15 = omega arith in
      let split : word b 0 m n d ≡ b * 2 * 2 ^ 6 * 2 ^ 15 + r = omega arith in
      let joined : (b * 2 * 2 ^ 6 + u % 64) * 2 ^ 15 + r ≡ word b (u % 64) m n d = omega arith in
      rw (whole, split, or_between 6 15 (b * 2) r (u % 64) (omega arith) (omega arith), joined)

  signed_units : (b i : ℕ) → i < 64 → bit_or (word b i m n d) (shl 1 21) ≡ word b (i + 64) m n d
  signed_units b i hi =
      let r = i * 2 ^ 15 + m * 2 ^ 10 + n * 2 ^ 5 + d in
      let split : word b i m n d ≡ b * 2 ^ 1 * 2 ^ 21 + r = omega arith in
      let joined : (b * 2 ^ 1 + 1) * 2 ^ 21 + r ≡ word b (i + 64) m n d = omega arith in
      rw split (or_between 1 21 b r 1 (omega arith) (omega arith) ∙ joined)

  decode_units :
      (b i : ℕ) (p : Pair)
      → i < 128
      → pair_of b ≡ some p
      → decode_pair (word b i m n d ∷ []) ≡ some (p, d, m, n, signed_offset (scale p) i)
  unfolding with_pair
  decode_units b i p hi is_p =
      let w = word b i m n d in
      let high : w / 2 ^ 22 ≡ b = omega arith in
      let one : w % 32 ≡ d = omega arith in
      let two : w / 2 ^ 10 % 32 ≡ m = omega arith in
      let address : w / 2 ^ 5 % 32 ≡ n = omega arith in
      let bits : w / 2 ^ 15 % 2 ^ 7 ≡ i = omega arith in rw (high, is_p, one, two, address, bits)

-- the seven bits that stand in the word
abbrev encoded_bits : ℕ → ℕ
encoded_bits u = if is_negative u then u % 64 + 64 else u % 64

-- What the seven bits of an offset mean is the offset.
abbrev Recovers : ℕ → ℕ → Type 0
Recovers k offset =
    offset < 2 ^ 32
    → offset % 2 ^ k ≡ 0
    → is_near k offset ≡ true
    → (sar offset k < 2 ^ 32) × (signed_offset k (encoded_bits (sar offset k)) ≡ offset)

words_recover : (offset : ℕ) → Recovers 2 offset
unfolding signed_offset
words_recover offset h whole near = ground arith

doublewords_recover : (offset : ℕ) → Recovers 3 offset
unfolding signed_offset
doublewords_recover offset h whole near = ground arith

recovers : (p : Pair) (offset : ℕ) → Recovers (scale p) offset
recovers ldp_pre_x = doublewords_recover
recovers ldp_post_x = doublewords_recover
recovers stp_pre_x = doublewords_recover
recovers stp_post_x = doublewords_recover
recovers _ = words_recover

-- the instruction that an encoder emits: that of its name, but for one
abbrev pub emitted : Pair → Pair
emitted ldp_post_w = ldp_pre_w
emitted p = p

-- whether an offset can be encoded
abbrev pub is_pair_offset : ℕ → ℕ → Bool
is_pair_offset k offset = (offset % 2 ^ k == 0) && is_near k offset

module _ (d m n offset : ℕ) (hd : d < 32) (hm : m < 32) (hn : n < 32) (ho : offset < 2 ^ 32) where
  placed-word :
      (b u : ℕ)
      → u < 2 ^ 32
      → let placed = bit_or (word b 0 m n d) (shl (u % 64) 15) in
        (if is_negative u then bit_or placed (shl 1 21) else placed) ≡ word b (encoded_bits u) m n d
  placed-word b u hu = elim (Bool-cases (is_negative u)) [
    | inl e ↦
        rw (e, placed_units d m n hd hm hn b u hu)
          (signed_units d m n hd hm hn b (u % 64) (omega arith))
    | inr e ↦ rw (e, placed_units d m n hd hm hn b u hu)
  ]

  with_offset-decode :
      (b : ℕ) (p : Pair)
      → pair_of b ≡ some p
      → (with_offset (scale p) (word b 0 m n d) offset >>= λ ws. ok (decode_pair ws))
        ≡ (if is_pair_offset (scale p) offset then ok (some (p, d, m, n, offset)) else aborted)
  unfolding with_offset
  with_offset-decode b p is_p = elim (Bool-cases (offset % 2 ^ scale p == 0)) [
    | inr e ↦ rw e
    | inl e ↦ elim (Bool-cases (is_near (scale p) offset)) [
      | inr far ↦ rw (e, far)
      | inl near ↦
          let u = sar offset (scale p) in
          let (small, back) = recovers p offset ho ((==_iff _ _).0 e) near in
          rw (e, near)
            (ap (λ w. ok (decode_pair (w ∷ []))) (placed-word b u small)
              ∙ ap ok (decode_units d m n hd hm hn b (encoded_bits u) p (ground arith) is_p)
              ∙ ap (λ o. ok (some (p, d, m, n, o))) back)
    ]
  ]

  pair_load-decode :
      (b base : ℕ) (p : Pair)
      → base ≡ b * 2 ^ 12 * 2 ^ 10
      → pair_of b ≡ some p
      → (load_pair base (scale p) d m n offset >>= λ ws. ok (decode_pair ws))
        ≡ (if is_pair_offset (scale p) offset then ok (some (p, d, m, n, offset)) else aborted)
  unfolding load_pair
  pair_load-decode b base p is_base is_p =
      rw (is_base, load_registers d m n hd hm hn b) (with_offset-decode b p is_p)

  pair_store-decode :
      (b base : ℕ) (p : Pair)
      → base ≡ b * 2 ^ 12 * 2 ^ 10
      → pair_of b ≡ some p
      → (store_pair base (scale p) d m n offset >>= λ ws. ok (decode_pair ws))
        ≡ (if is_pair_offset (scale p) offset then ok (some (p, d, m, n, offset)) else aborted)
  unfolding store_pair
  pair_store-decode b base p is_base is_p =
      rw (is_base, store_registers d m n hd hm hn b) (with_offset-decode b p is_p)

  -- Each encoder of a load or store of two registers fails an assertion where the offset is no
  -- multiple of the size of a register, or is not in the range of seven signed bits of such units;
  -- otherwise it emits one word, which the manual reads as the encoder's instruction on the
  -- registers and the offset that it was given, negative offsets included. The exception is
  -- ldp_post_index32, whose word is that of ldp_pre_index32.
  pub pair-decode :
      (p : Pair)
      → (pair p d m n offset >>= λ ws. ok (decode_pair ws)) ≡ (
          if is_pair_offset (scale p) offset
          then ok (some (emitted p, d, m, n, offset))
          else aborted)
  unfolding pair_of
  pair-decode ldp_pre_x = pair_load-decode 0x2a7 0xa9c00000 ldp_pre_x refl refl
  pair-decode ldp_pre_w = pair_load-decode 0x0a7 0x29c00000 ldp_pre_w refl refl
  pair-decode ldp_post_x = pair_load-decode 0x2a3 0xa8c00000 ldp_post_x refl refl
  pair-decode ldp_post_w = pair_load-decode 0x0a7 0x29c00000 ldp_pre_w refl refl
  pair-decode stp_pre_x = pair_store-decode 0x2a6 0xa9800000 stp_pre_x refl refl
  pair-decode stp_pre_w = pair_store-decode 0x0a6 0x29800000 stp_pre_w refl refl
  pair-decode stp_post_x = pair_store-decode 0x2a2 0xa8800000 stp_post_x refl refl
  pair-decode stp_post_w = pair_store-decode 0x0a2 0x28800000 stp_post_w refl refl
