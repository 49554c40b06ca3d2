-- ===== src/Arm64/Generator.antt =====
-- AsmGenerator of src/templategenerator.cpp and src/include/templategenerator.h: the table of the code that is
-- generated for each operation. No member generates code yet: their addresses are zero.
use core_vm.Base.{ℕ, ◌≡◌, refl, Bool, true, false, ◌==◌, if◌then◌else◌}
use core_vm.Base.Outcome.{Outcome, ok, ◌>>=◌}
use core_vm.OpCode.{
  OpCode, code, i_add, i_sub, i_mul, i_div, i_mod, d_add, d_sub, d_mul, d_div, f_add, f_sub, f_mul,
  f_div, l_add, l_sub, l_mul, l_div, l_mod, i_const, l_const, f_const, d_const, load_i, load_d,
  load_f, load_l, store_i, store_d, store_f, store_l, i_cast_l, i_cast_d, i_cast_f, l_cast_i,
  l_cast_d, l_cast_f, f_cast_i, f_cast_d, f_cast_l, d_cast_i, d_cast_f, d_cast_l, print_i, print_l,
  print_d, print_f, nop, program, stmt, def, done,
}
use core_vm.Arm64.CodeBuffer.{CodeBuffer, new_arm64_assembler}

-- The entry of an operation code is an address.
pub record AsmGenerator : Type 0 where
  pub bc_entry : ℕ → ℕ
  pub code_buffer : CodeBuffer

-- The constructor, with a buffer of 4 KB wherever `mmap` puts it. The table is not initialised: what it holds is
-- a parameter.
unfoldable pub new_asm_generator : (ℕ → ℕ) → ℕ → Outcome AsmGenerator
new_asm_generator unset address = do
  buffer ← new_arm64_assembler address 4096
  ok (record { bc_entry = unset; code_buffer = buffer })

abbrev set_entry : OpCode → ℕ → AsmGenerator → AsmGenerator
set_entry op address g = record g { bc_entry = λ n. if n == code op then address else g.bc_entry n }

-- GenIAdd and its like
unfoldable gen_op : OpCode → AsmGenerator → ℕ
gen_op op g = 0

-- an entry of Gen
unfoldable gen_entry : OpCode → AsmGenerator → AsmGenerator
unfolding gen_op
gen_entry op g = set_entry op (gen_op op g) g

unfoldable pub gen : AsmGenerator → AsmGenerator
unfolding gen_entry
gen g =
    let g = gen_entry i_add g in
    let g = gen_entry i_sub g in
    let g = gen_entry i_mul g in
    let g = gen_entry i_div g in
    let g = gen_entry i_const g in
    let g = gen_entry store_i g in
    let g = gen_entry load_i g in let g = gen_entry print_i g in gen_entry done g

-- The operations that the table is for.
unfoldable pub is_generated : OpCode → Bool
is_generated i_add = true
is_generated i_sub = true
is_generated i_mul = true
is_generated i_div = true
is_generated i_const = true
is_generated store_i = true
is_generated load_i = true
is_generated print_i = true
is_generated done = true
is_generated _ = false

-- Gen sets the entries of these operations to zero, and leaves those of the others as they were.
pub gen_lem :
    (g : AsmGenerator) (op : OpCode)
    → (gen g).bc_entry (code op) ≡ (if is_generated op then 0 else g.bc_entry (code op))
unfolding gen gen_entry gen_op is_generated code
gen_lem g i_add = refl
gen_lem g i_sub = refl
gen_lem g i_mul = refl
gen_lem g i_div = refl
gen_lem g i_mod = refl
gen_lem g d_add = refl
gen_lem g d_sub = refl
gen_lem g d_mul = refl
gen_lem g d_div = refl
gen_lem g f_add = refl
gen_lem g f_sub = refl
gen_lem g f_mul = refl
gen_lem g f_div = refl
gen_lem g l_add = refl
gen_lem g l_sub = refl
gen_lem g l_mul = refl
gen_lem g l_div = refl
gen_lem g l_mod = refl
gen_lem g i_const = refl
gen_lem g l_const = refl
gen_lem g f_const = refl
gen_lem g d_const = refl
gen_lem g load_i = refl
gen_lem g load_d = refl
gen_lem g load_f = refl
gen_lem g load_l = refl
gen_lem g store_i = refl
gen_lem g store_d = refl
gen_lem g store_f = refl
gen_lem g store_l = refl
gen_lem g i_cast_l = refl
gen_lem g i_cast_d = refl
gen_lem g i_cast_f = refl
gen_lem g l_cast_i = refl
gen_lem g l_cast_d = refl
gen_lem g l_cast_f = refl
gen_lem g f_cast_i = refl
gen_lem g f_cast_d = refl
gen_lem g f_cast_l = refl
gen_lem g d_cast_i = refl
gen_lem g d_cast_f = refl
gen_lem g d_cast_l = refl
gen_lem g print_i = refl
gen_lem g print_l = refl
gen_lem g print_d = refl
gen_lem g print_f = refl
gen_lem g nop = refl
gen_lem g program = refl
gen_lem g stmt = refl
gen_lem g def = refl
gen_lem g done = refl
