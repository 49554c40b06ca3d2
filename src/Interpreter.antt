-- ===== src/Interpreter.antt =====
-- src/bytecodeinterpreter.cpp and src/include/bytecodeinterpreter.h. The operand stack and the table
-- of variables are arrays of eight-byte cells; an access outside of them, and a read of code outside
-- of the buffer, are undefined. An `int` or `float` is written to the low half of its cell.
pub mod Run
use core_vm.Base.{
  ℕ, zero, suc, ◌+◌, ◌*◌, ◌/◌, ◌%◌, ◌^◌, Bool, true, false, List, [], ◌∷◌, ◌++◌, Option, none, some,
  ltb, if◌then◌else◌, length, get_elem?, set, read_le,
}
use core_vm.Base.Outcome.{
  Outcome, ok, panicked, undefined, out_of_fuel, ◌>>=◌, ◌>>◌, defined, assert,
  unimplemented_bytecode,
}
use core_vm.OpCode
use core_vm.OpCode.{OpCode, of_code}
use core_vm.Fpu.{Fpu}
use core_vm.Word.{add32, sub32, mul32, div32, mod32}
use core_vm.Adt.{sign_extend}

-- the size of the type that a cell is accessed at
pub data Width : Type 0 where
  w4 w8 : Width

abbrev pub load_cell : Width → ℕ → ℕ
load_cell w4 c = c % 2 ^ 32
load_cell w8 c = c % 2 ^ 64

abbrev pub store_cell : Width → ℕ → ℕ → ℕ
store_cell w4 old v = old / 2 ^ 32 * 2 ^ 32 + v % 2 ^ 32
store_cell w8 old v = v % 2 ^ 64

-- what is sent to `std::cout`, by its type and bits
pub data Output : Type 0 where
  int float double long : ℕ → Output

pub record Machine : Type 0 where
  pub code_buf : List ℕ
  pub stack : List ℕ
  pub local_var_table : List ℕ
  pub pc : ℕ
  pub top : ℕ
  pub out : List Output

abbrev pub advance : ℕ → Machine → Machine
advance n m = record m { pc = m.pc + n }

-- PUSH_INT and its like
unfoldable pub push : Width → ℕ → Machine → Outcome Machine
push w v m = do
  old ← defined (get_elem? m.stack m.top)
  ok (record m { stack = set m.stack m.top (store_cell w old v); top = m.top + 1 })

unfoldable pub pop_at : Width → ℕ → Machine → Outcome (ℕ × Machine)
pop_at w zero m = undefined
pop_at w (suc t) m = do c ← defined (get_elem? m.stack t); ok (load_cell w c, record m { top = t })

-- POP_INT and its like
unfoldable pub pop : Width → Machine → Outcome (ℕ × Machine)
unfolding pop_at
pop w m = pop_at w m.top m

-- POP_TWO, the operation, the push and `_pc += 2`
unfoldable pub binary_op : Width → (ℕ → ℕ → Outcome ℕ) → Machine → Outcome Machine
unfolding pop push
binary_op w f m = do
  (lhs, m) ← pop w m
  (rhs, m) ← pop w m
  v ← f lhs rhs
  m ← push w v m
  ok (advance 2 m)

unfoldable pub cast_op : Width → Width → (ℕ → ℕ) → Machine → Outcome Machine
unfolding pop push
cast_op from to f m = do (v, m) ← pop from m; m ← push to (f v) m; ok (advance 2 m)

-- the literal behind an operation code, of `n` bytes
unfoldable pub const_op : ℕ → Width → Machine → Outcome Machine
unfolding push read_le
const_op n w m = do
  v ← defined (read_le n m.code_buf (m.pc + 2))
  m ← push w v m
  ok (advance (2 + n) m)

unfoldable pub load_op : Width → Machine → Outcome Machine
unfolding push read_le
load_op w m = do
  ix ← defined (read_le 2 m.code_buf (m.pc + 2))
  c ← defined (get_elem? m.local_var_table ix)
  m ← push w (load_cell w c) m
  ok (advance 4 m)

unfoldable pub store_op : Width → Machine → Outcome Machine
unfolding pop read_le
store_op w m = do
  ix ← defined (read_le 2 m.code_buf (m.pc + 2))
  (v, m) ← pop w m
  old ← defined (get_elem? m.local_var_table ix)
  let table = set m.local_var_table ix (store_cell w old v)
  ok (advance 4 (record m { local_var_table = table }))

unfoldable pub print_op : Width → (ℕ → Output) → Machine → Outcome Machine
unfolding pop
print_op w shown m = do (v, m) ← pop w m; ok (advance 4 (record m { out = m.out ++ shown v ∷ [] }))

module _ (fpu : Fpu) where
  -- the cases of the `switch` that go on with the loop; `none` is `default:`
  unfoldable pub instruction : OpCode → Option (Machine → Outcome Machine)
  instruction OpCode.i_add = some (binary_op w4 (λ a b. ok (add32 a b)))
  instruction OpCode.i_sub = some (binary_op w4 (λ a b. ok (sub32 a b)))
  instruction OpCode.i_mul = some (binary_op w4 (λ a b. ok (mul32 a b)))
  instruction OpCode.i_div = some (binary_op w4 div32)
  instruction OpCode.i_mod = some (binary_op w4 mod32)
  instruction OpCode.d_add = some (binary_op w8 (λ a b. ok (fpu.d_add a b)))
  instruction OpCode.d_sub = some (binary_op w8 (λ a b. ok (fpu.d_sub a b)))
  instruction OpCode.d_mul = some (binary_op w8 (λ a b. ok (fpu.d_mul a b)))
  instruction OpCode.d_div = some (binary_op w8 (λ a b. ok (fpu.d_div a b)))
  instruction OpCode.f_add = some (binary_op w4 (λ a b. ok (fpu.f_add a b)))
  instruction OpCode.f_sub = some (binary_op w4 (λ a b. ok (fpu.f_sub a b)))
  -- the case has no `break`, and runs on into that of `f_div`
  instruction OpCode.f_mul =
      some (λ m.
        binary_op w4 (λ a b. ok (fpu.f_mul a b)) m >>= binary_op w4 (λ a b. ok (fpu.f_div a b)))
  instruction OpCode.f_div = some (binary_op w4 (λ a b. ok (fpu.f_div a b)))
  instruction OpCode.i_const = some (const_op 4 w4)
  instruction OpCode.d_const = some (const_op 8 w8)
  instruction OpCode.f_const = some (const_op 4 w4)
  instruction OpCode.l_const = some (const_op 8 w8)
  instruction OpCode.i_cast_d = some (cast_op w4 w8 fpu.int_to_double)
  instruction OpCode.i_cast_f = some (cast_op w4 w4 fpu.int_to_float)
  instruction OpCode.i_cast_l = some (cast_op w4 w8 sign_extend)
  instruction OpCode.l_cast_d = some (cast_op w8 w8 fpu.long_to_double)
  instruction OpCode.l_cast_f = some (cast_op w8 w4 fpu.long_to_float)
  instruction OpCode.l_cast_i = some (cast_op w8 w4 (λ v. v % 2 ^ 32))
  instruction OpCode.f_cast_i = some (cast_op w4 w4 fpu.float_to_int)
  instruction OpCode.f_cast_l = some (cast_op w4 w8 fpu.float_to_long)
  instruction OpCode.f_cast_d = some (cast_op w4 w8 fpu.float_to_double)
  instruction OpCode.d_cast_i = some (cast_op w8 w4 fpu.double_to_int)
  instruction OpCode.d_cast_f = some (cast_op w8 w4 fpu.double_to_float)
  instruction OpCode.d_cast_l = some (cast_op w8 w8 fpu.double_to_long)
  instruction OpCode.load_i = some (load_op w4)
  instruction OpCode.load_d = some (load_op w8)
  instruction OpCode.load_f = some (load_op w4)
  instruction OpCode.load_l = some (load_op w8)
  instruction OpCode.store_i = some (store_op w4)
  instruction OpCode.store_d = some (store_op w8)
  instruction OpCode.store_f = some (store_op w4)
  instruction OpCode.store_l = some (store_op w8)
  instruction OpCode.print_i = some (print_op w4 Output.int)
  instruction OpCode.print_f = some (print_op w4 Output.float)
  instruction OpCode.print_d = some (print_op w8 Output.double)
  instruction OpCode.print_l = some (print_op w8 Output.long)
  instruction _ = none

  -- a case of the `switch`, after which the loop goes on
  abbrev pub perform : ℕ → Option (Machine → Outcome Machine) → Machine → Outcome (Machine × Bool)
  perform n none m = panicked (unimplemented_bytecode (n % 256))
  perform n (some f) m = f m >>= λ m'. ok (m', true)

  -- `kDone` returns from the loop; the Boolean says whether it goes on.
  unfoldable pub exec : ℕ → OpCode → Machine → Outcome (Machine × Bool)
  exec n OpCode.done m = ok (m, false)
  exec n op m = perform n (instruction op) m

  -- the `switch` on `static_cast<OpCode>` of the number that was read
  abbrev pub dispatch : ℕ → Option OpCode → Machine → Outcome (Machine × Bool)
  dispatch n none m = panicked (unimplemented_bytecode (n % 256))
  dispatch n (some op) m = exec n op m

  -- one round of the loop of `Run`
  unfoldable pub turn : Machine → Outcome (Machine × Bool)
  turn m = do n ← defined (read_le 2 m.code_buf m.pc); dispatch n (of_code n) m

  -- `Run`, on fuel
  unfoldable pub run : ℕ → Machine → Outcome Machine
  run zero m = out_of_fuel
  run (suc f) m =
      let rest = turn m >>= λ (m', more). elim more [ true ↦ run f m' | false ↦ ok m' ] in
      if ltb m.pc (length m.code_buf) then rest else ok m

-- the cells of a block from `malloc`, whose contents are arbitrary
unfoldable pub allocate : (ℕ → ℕ) → ℕ → List ℕ
allocate junk zero = []
allocate junk (suc n) = junk n ∷ allocate junk n

-- the constructor, for a stack size in bytes and a number of variables
unfoldable pub new_interpreter : (ℕ → ℕ) → (ℕ → ℕ) → List ℕ → ℕ → ℕ → Outcome Machine
unfolding allocate
new_interpreter junk junk' code stack_size var_size = do
  assert (ltb 0 (var_size * 8))
  ok (record {
    code_buf = code;
    stack = allocate junk (stack_size / 8);
    local_var_table = allocate junk' var_size;
    pc = 0;
    top = 0;
    out = [];
  })
