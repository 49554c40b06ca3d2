-- ===== src/Assembler.antt =====
-- src/include/assembler.h: the byte buffer that code is written to. The bytes before `_pos` are kept
-- as a list; those behind it are never read before they are written.
pub mod Bounds
pub mod RoundUp
pub mod Memory
pub mod Refined
pub mod ReadBack
use core_vm.Base.{
  ℕ, zero, suc, ◌+◌, ◌*◌, ◌^◌, ◌<◌, ◌≡◌, refl, Bool, true, false, ◌||◌, ◌%◌, List, [], ◌∷◌, ◌++◌,
  Option, none, some, ltb, leb, if◌then◌else◌, arith, length, le_bytes,
}
use core_vm.Base.Outcome.{Outcome, ok, aborted, out_of_fuel, ◌>>=◌, ◌>>◌, assert}

pub record CvmAssembler : Type 0 where
  pub code : List ℕ
  pub pos : ℕ
  pub capacity : ℕ

-- the largest `int` and the numbers above it
abbrev pub int_limit : ℕ
int_limit = 2 ^ 31

-- `while (res < val) res <<= 1;` on the bits of an `int`, of which the highest is the sign
unfoldable pub round_up_loop : ℕ → ℕ → ℕ → Outcome ℕ
round_up_loop zero res val = out_of_fuel
round_up_loop (suc f) res val =
    let rest = round_up_loop f (res * 2 % 2 ^ 32) val in
    if leb int_limit res || ltb res val then rest else ok res

-- RoundUp, for a positive `int`. 32 rounds take `res` past the sign, behind which it is 0 and the loop
-- does not end.
unfoldable pub round_up : ℕ → Outcome ℕ
unfolding round_up_loop
round_up val = do res ← round_up_loop 32 1 val; assert (ltb 0 res); ok res

-- the constructor
unfoldable pub new_assembler : ℕ → Outcome CvmAssembler
unfolding round_up
new_assembler capacity = do
  assert (ltb 0 capacity)
  rounded ← round_up capacity
  ok (record { code = []; pos = 0; capacity = rounded })

-- the capacity after the `if (end >= _capacity)` of WriteStream; the copy keeps the bytes written
unfoldable pub grow : ℕ → ℕ → Outcome ℕ
grow end capacity =
    if leb capacity end
    then (assert (ltb (capacity * 2) int_limit) >> ok (capacity * 2))
    else ok capacity

-- `WriteStream<T>(val)` for a T of `n` bytes
unfoldable pub write_stream : ℕ → ℕ → CvmAssembler → Outcome CvmAssembler
unfolding grow
write_stream n val a = do
  let end = a.pos + n
  capacity ← grow end a.capacity
  assert (ltb end capacity)
  ok (record { code = a.code ++ le_bytes n val; pos = a.pos + n; capacity = capacity })
