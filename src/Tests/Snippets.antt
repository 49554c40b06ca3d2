-- ===== src/Tests/Snippets.antt =====
-- The code buffer of src/include/templategenerator.h, at concrete inputs.
use core_vm.Base.{
  ℕ, ◌≡◌, refl, ◌≤◌, ◌<◌, ◌%◌, ◌+◌, ◌-◌, [], ◌∷◌, List, replicate, arith, ltb, leb, if◌then◌else◌,
  overwritten, ◌++◌, le_bytes,
}
use core_vm.Base.Outcome.{ok, aborted, undefined, ◌>>=◌}
use core_vm.Arm64.CodeBuffer.{
  CodeBuffer, align, new_code_buffer, new_code_snippet, emit_value, emit_words, new_arm64_assembler,
}
use core_vm.Arm64.Snippets.{IsBuffer, word_bytes, new_code_snippet-emit_words}

-- a page of which one byte is used
abbrev used : CodeBuffer
used = record { exact_code = 4096; code = 4096; pos = 4097; capacity = 16; memory = replicate 16 0 }

used-IsBuffer : IsBuffer used
used-IsBuffer = record { whole = refl; above = omega arith; below = omega arith }

abbrev words : List ℕ
words = 0xd2800020 ∷ 0xd61f0000 ∷ []

-- the buffer of an assembler for 14 bytes, with two words in it
two_words :
    (new_arm64_assembler 4096 14 >>= λ b. new_code_snippet b >>= λ b. emit_words words b)
    ≡ ok (record {
      exact_code = 4096;
      code = 4096;
      pos = 4104;
      capacity = 16;
      memory = 0x20 ∷ 0 ∷ 0x80 ∷ 0xd2 ∷ 0 ∷ 0 ∷ 0x1f ∷ 0xd6 ∷ replicate 8 0;
    })
unfolding new_arm64_assembler align new_code_buffer new_code_snippet emit_value emit_words le_bytes
two_words = refl

-- four words have no room behind the first byte
four_words : (new_code_snippet used >>= λ b. emit_words (words ++ words) b) ≡ undefined
unfolding align new_code_snippet emit_value emit_words le_bytes
four_words = refl

new_code_snippet-emit_words_example :
    (start : ℕ) × (start % 4 ≡ 0)
    × (4097 ≤ start)
    × (start < 4101)
    × ((new_code_snippet used >>= λ b. emit_words words b) ≡ (
        if ltb start 4112
        then if leb (start + 8) 4112
          then ok (record used {
            code = start;
            pos = start + 8;
            memory = overwritten (start - 4096) (word_bytes words) used.memory;
          })
          else undefined
        else aborted))
new_code_snippet-emit_words_example =
    new_code_snippet-emit_words words used used-IsBuffer (omega arith)
