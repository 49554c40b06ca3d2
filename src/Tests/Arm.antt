-- ===== src/Tests/Arm.antt =====
-- The theorems on src/templategenerator.cpp at concrete inputs, some of them those of test/test_arm64.cpp.
use core_vm.Base.{◌+◌, ◌-◌, ◌≡◌, leb, refl, ◌^◌, arith, [], ◌∷◌, some, if◌then◌else◌}
use core_vm.Base.Outcome.{ok, aborted, ◌>>=◌}
use core_vm.Arm64.{mov_imm64, mov_imm32, move_half}
use core_vm.Arm64.Branch.{offset_of, bl, called, linked, bl-called}
use core_vm.Arm64.Moves.{steps64, steps32, left_over, mov_imm64_steps, mov_imm32_steps}
use core_vm.Arm64.Arithmetic.{sub_x, encoder, decode}
use core_vm.Arm64.Arithmetic.Decoded.{decode-encoder}
use core_vm.Arm64.Memory.{str_x, access, decode_access}
use core_vm.Arm64.Memory.Accessed.{is_encodable, access-decode}
use core_vm.Arm64.Memory.Constants
use core_vm.Arm64.Memory.Constants.{add_or_sub, decode_constant, decode_constant-add_or_sub}
use core_vm.Arm64.Pairs.{ldp_post_w, pair, decode_pair}
use core_vm.Arm64.Pairs.Decoded.{is_pair_offset, emitted, pair-decode}
use core_vm.Arm64.PreIndex.{str_pre_w, store, decode_store}
use core_vm.Arm64.PreIndex.Decoded.{stored, store-decode}
use core_vm.Arm64.Registers.{orr_w, encode, decode_one, decode_one-encode, mov32, copy}

-- the words of test_move_imm64
words_of_mov_imm64 :
    mov_imm64 0 0x1234567890098765 ≡ 0xd290eca0 ∷ 0xf2b20120 ∷ 0xf2cacf00 ∷ 0xf2e24680 ∷ []
unfolding mov_imm64 move_half
words_of_mov_imm64 = refl

-- the words of test_move_imm32
words_of_mov_imm32 : mov_imm32 0 0x12345678 ≡ 0x528acf00 ∷ 0x72a24680 ∷ []
unfolding mov_imm32 move_half
words_of_mov_imm32 = refl

-- the word of test_mov32
words_of_mov32 : mov32 0 19 ≡ 0x2a1303e0 ∷ []
unfolding copy
words_of_mov32 = refl

mov_imm64_steps_example : steps64 3 (mov_imm64 3 0x1234567890098765) 77 ≡ some 0x1234567890098765
mov_imm64_steps_example = mov_imm64_steps 3 0x1234567890098765 77 (omega arith) (omega arith)

-- the low half of the old value, 7, stays
mov_imm32_steps_example : steps32 3 (mov_imm32 3 0x10000) 7 ≡ some (0x10000 + left_over 0x10000 7)
mov_imm32_steps_example = mov_imm32_steps 3 0x10000 7 (omega arith) (omega arith) (omega arith)

decode-encoder_example : decode (encoder sub_x 1 2 3) ≡ some (sub_x, 1, 2, 3)
decode-encoder_example = decode-encoder 1 2 3 (omega arith) (omega arith) (omega arith) sub_x

access-decode_example :
    (access str_x 1 2 16 >>= λ ws. ok (decode_access ws))
    ≡ (if is_encodable 3 16 then ok (some (str_x, 1, 2, 16)) else aborted)
access-decode_example = access-decode 1 2 16 (omega arith) (omega arith) (omega arith) str_x

pair-decode_example : (pair ldp_post_w 1 2 3 (2 ^ 32 - 8) >>= λ ws. ok (decode_pair ws)) ≡ (
    if is_pair_offset 2 (2 ^ 32 - 8)
    then ok (some (emitted ldp_post_w, 1, 2, 3, 2 ^ 32 - 8))
    else aborted)
pair-decode_example =
    pair-decode 1 2 3 (2 ^ 32 - 8) (omega arith) (omega arith) (omega arith) (omega arith)
      ldp_post_w

store-decode_example :
    (store str_pre_w 2 1 (2 ^ 32 - 4) >>= λ ws. ok (decode_store ws))
    ≡ stored str_pre_w 2 1 (2 ^ 32 - 4)
store-decode_example =
    store-decode 2 1 (omega arith) (omega arith) str_pre_w (2 ^ 32 - 4) (omega arith)

decode_one-encode_example : decode_one (encode (orr_w 0 19)) ≡ some (orr_w 0 19)
decode_one-encode_example = decode_one-encode (orr_w 0 19) (omega arith, omega arith)

decode_constant-add_or_sub_example :
    (add_or_sub Constants.add_x 1 2 16 >>= λ ws. ok (decode_constant ws))
    ≡ (if leb 16 0xfff then ok (some (Constants.add_x, 1, 2, 16)) else aborted)
decode_constant-add_or_sub_example =
    decode_constant-add_or_sub 1 2 16 (omega arith) (omega arith) Constants.add_x

-- a call of the code 16 bytes behind the position is encoded as a call 2 ^ 27 - 16 bytes behind it
bl-called_example : (bl 0x1010 0x1000 >>= λ ws. ok (called ws)) ≡ linked (offset_of 0x1010 0x1000)
bl-called_example = bl-called 0x1010 0x1000 refl
