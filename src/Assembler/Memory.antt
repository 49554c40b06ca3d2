-- ===== src/Assembler/Memory.antt =====
-- The whole of CVMAssembler in src/include/assembler.h, on the memory that it allocates: its copies, its
-- moves, and the members that write and read at the cursor.
use core_vm.Base.{
  ℕ, zero, suc, ◌+◌, ◌*◌, List, [], ◌∷◌, ◌++◌, Option, none, some, ltb, leb, if◌then◌else◌, length,
  take, drop, le_bytes, read_le, overwritten,
}
use core_vm.Base.Outcome.{Outcome, ok, undefined, ◌>>=◌, ◌>>◌, assert, defined}
use core_vm.Assembler.{round_up, int_limit, Bool}

-- `_code` is the allocated bytes, or a null pointer behind a move.
pub record Memory : Type 0 where
  pub code : Option (List ℕ)
  pub pos : ℕ
  pub capacity : ℕ

-- what `new char[n]` holds
abbrev pub allocated : (ℕ → ℕ) → ℕ → List ℕ
allocated junk zero = []
allocated junk (suc n) = junk n ∷ allocated junk n

-- the constructor; a block of one byte is not allocated, and its pointer is not set
unfoldable pub new_memory : (ℕ → ℕ) → ℕ → Outcome Memory
new_memory junk capacity = do
  assert (ltb 0 capacity)
  rounded ← round_up capacity
  ok (record {
    code = if ltb 1 rounded then some (allocated junk rounded) else none;
    pos = 0;
    capacity = rounded;
  })

-- `memcpy` of the first `n` bytes of a block into a new one
abbrev pub copied : ℕ → List ℕ → List ℕ → List ℕ
copied n from to = take n from ++ drop n to

-- the `if (end >= _capacity)` of WriteStream: the bytes before the cursor go to a block of twice the size
unfoldable pub grow_memory : (ℕ → ℕ → ℕ) → ℕ → List ℕ → ℕ → ℕ → Outcome (List ℕ × ℕ)
grow_memory junk end code pos capacity =
    if leb capacity end
    then (assert (ltb (capacity * 2) int_limit)
        >> (if ltb (length code) pos
            then undefined
            else ok (copied pos code (allocated (junk capacity) (capacity * 2)), capacity * 2)))
    else ok (code, capacity)

-- `WriteStream<T>(val)` for a T of `n` bytes
unfoldable pub write_memory : (ℕ → ℕ → ℕ) → ℕ → ℕ → Memory → Outcome Memory
unfolding grow_memory
write_memory junk n v m = do
  code ← defined m.code
  let end = m.pos + n
  (code, capacity) ← grow_memory junk end code m.pos m.capacity
  assert (ltb end capacity)
  if ltb (length code) end
      then undefined
      else ok (record {
        code = some (overwritten m.pos (le_bytes n v) code);
        pos = m.pos + n;
        capacity = capacity;
      })

-- `ReadStream<T>()` for a T of `n` bytes
unfoldable pub read_memory : ℕ → Memory → Outcome (ℕ × Memory)
read_memory n m = do
  assert (leb (m.pos + n) m.capacity)
  code ← defined m.code
  v ← defined (read_le n code m.pos)
  ok (v, record m { pos = m.pos + n })

-- `Reset`
unfoldable pub reset_memory : ℕ → Memory → Memory
reset_memory pos m = record m { pos = pos }

-- the copy constructor
unfoldable pub copy_memory : Memory → Outcome Memory
copy_memory m = do
  code ← defined m.code
  if ltb (length code) m.capacity
      then undefined
      else ok (record m { code = some (take m.capacity code) })

-- the move constructor: the new object, and what is left of the old one
unfoldable pub move_memory : Memory → Memory × Memory
move_memory m = (m, record m { code = none })

-- The copying `operator=`, from an object that is the same or another. It has the statements of the copy
-- constructor, which read nothing of another object that is assigned to, and do not free its block; of
-- the same object they copy the new block onto itself, which `memcpy` leaves undefined.
unfoldable pub copy_assign : Bool → Memory → Outcome Memory
unfolding copy_memory
copy_assign same m = if same then undefined else copy_memory m

-- The moving `operator=`: the object that is assigned to, and the other one. The same object is both, and
-- has lost its block.
unfoldable pub move_assign : Bool → Memory → Memory × Memory
unfolding move_memory
move_assign same m =
    if same then (record m { code = none }, record m { code = none }) else move_memory m
