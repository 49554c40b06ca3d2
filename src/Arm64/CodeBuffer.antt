-- ===== src/Arm64/CodeBuffer.antt =====
-- CodeBuffer of src/include/templategenerator.h: the memory that code is emitted into, and the words of
-- the encoders put there one by one.
use core_vm.Base.{
  ℕ, ◌+◌, ◌-◌, ◌*◌, ◌/◌, ◌%◌, ◌^◌, List, [], ◌∷◌, ltb, leb, ◌&&◌, if◌then◌else◌, replicate,
  overwritten, le_bytes,
}
use core_vm.Base.Outcome.{Outcome, ok, undefined, ◌>>=◌, ◌>>◌, assert}

-- `ALIGN(x, 4)` of a 64-bit number: `& ~3` clears the two low bits
unfoldable pub align : ℕ → ℕ
align x = (x + 3) % 2 ^ 64 / 4 * 4

-- `_exact_code`, `_code` and `_pos` are addresses; the bytes from `_exact_code` on are `memory`.
pub record CodeBuffer : Type 0 where
  pub exact_code : ℕ
  pub code : ℕ
  pub pos : ℕ
  pub capacity : ℕ
  pub memory : List ℕ

-- The constructor, for a size that is not negative. `mmap` gives an address, which is a parameter, and memory that is zero.
unfoldable pub new_code_buffer : ℕ → ℕ → Outcome CodeBuffer
unfolding align
new_code_buffer address size = do
  assert (ltb 0 size)
  ok (record {
    exact_code = address;
    code = align address;
    pos = align address;
    capacity = size;
    memory = replicate size 0;
  })

-- `NewCodeSnippet`, which returns the position that it sets
unfoldable pub new_code_snippet : CodeBuffer → Outcome CodeBuffer
unfolding align
new_code_snippet b = do
  let pos = align b.pos
  assert (ltb pos (b.exact_code + b.capacity))
  ok (record b { pos = pos; code = pos })

-- `Emit<T>(val)` for a T of `n` bytes: no check is made, and a write outside of the memory is undefined
unfoldable pub emit_value : ℕ → ℕ → CodeBuffer → Outcome CodeBuffer
emit_value n v b =
    if leb b.exact_code b.pos && leb (b.pos + n) (b.exact_code + b.capacity)
    then ok (record b {
      pos = b.pos + n;
      memory = overwritten (b.pos - b.exact_code) (le_bytes n v) b.memory;
    })
    else undefined

-- the words of an encoder, each emitted as a `u4`
unfoldable pub emit_words : List ℕ → CodeBuffer → Outcome CodeBuffer
unfolding emit_value
emit_words [] b = ok b
emit_words (w ∷ ws) b = do b ← emit_value 4 w b; emit_words ws b

-- The constructor of Arm64Assembler, which rounds the size up. The size is an `int`, which the sum
-- in ALIGN can overflow.
unfoldable pub new_arm64_assembler : ℕ → ℕ → Outcome CodeBuffer
unfolding align new_code_buffer
new_arm64_assembler address size =
    if ltb (size + 3) (2 ^ 31) then new_code_buffer address (align size) else undefined
