-- ===== src/Correct/Cells.antt =====
-- What the instructions of src/bytecodeinterpreter.cpp do to the operand stack, given what lies in its
-- topmost cells.
use core_vm.Base.{
  ℕ, suc, ◌+◌, ◌<◌, ◌≡◌, refl, ap, [], ◌∷◌, ◌++◌, some, arith, length, get_elem?, set, length-set,
  get_elem?-set_self, get_elem?-set_ne, get_elem?-in_range, read_le,
}
use core_vm.Base.Outcome.{Outcome, ok, trapped}
use core_vm.Interpreter.{
  Width, w4, w8, load_cell, store_cell, Machine, Output, advance, push, pop_at, pop, binary_op,
  cast_op, const_op, load_op, store_op, print_op,
}

-- A cell read at a width gives what was stored in it at that width.
pub load_cell-store_cell :
    (w : Width) (old v : ℕ) → load_cell w (store_cell w old v) ≡ load_cell w v
load_cell-store_cell w4 old v = omega arith
load_cell-store_cell w8 old v = omega arith

-- the cell `i` of the stack holds the value `v`, read at the width `w`
abbrev pub Holds : Machine → ℕ → Width → ℕ → Type 0
Holds m i w v = (c : ℕ) × (get_elem? m.stack i ≡ some c) × (load_cell w c ≡ v)

-- `m'` is `m` with `v` in the cell `t`, which is now the topmost; what lies below is as it was.
pub record Pushed (m : Machine) (t : ℕ) (w : Width) (v : ℕ) (m' : Machine) : Type 0 where
  pub same_code : m'.code_buf ≡ m.code_buf
  pub same_vars : m'.local_var_table ≡ m.local_var_table
  pub same_out : m'.out ≡ m.out
  pub same_size : length m'.stack ≡ length m.stack
  pub on_top : m'.top ≡ suc t
  pub holds : Holds m' t w v
  pub below : (i : ℕ) → i < t → get_elem? m'.stack i ≡ get_elem? m.stack i

-- A push with room left puts the value, cut to its width, into the cell at the top.
pub push_lem :
    (m : Machine) (w : Width) (v : ℕ)
    → m.top < length m.stack
    → (m' : Machine) × (push w v m ≡ ok m') × Pushed m m.top w (load_cell w v) m' × (m'.pc ≡ m.pc)
unfolding push
push_lem m w v room =
    let (old, e) = get_elem?-in_range m.stack m.top room in
    (
      record m { stack = set m.stack m.top (store_cell w old v); top = m.top + 1 },
      rw e,
      record {
        same_code = refl;
        same_vars = refl;
        same_out = refl;
        same_size = length-set m.stack m.top _;
        on_top = omega arith;
        holds = (
          store_cell w old v,
          get_elem?-set_self m.stack m.top _ room,
          load_cell-store_cell w old v,
        );
        below = λ i h. get_elem?-set_ne m.stack m.top i _ (omega arith);
      },
      refl,
    )

-- A pop reads the topmost cell.
pub pop_lem :
    (m : Machine) (t : ℕ) (w : Width) (v : ℕ)
    → m.top ≡ suc t
    → Holds m t w v
    → pop w m ≡ ok (v, record m { top = t })
unfolding pop pop_at
pop_lem m t w v e (c, at, reads) = rw (e, pop_at, at, reads)

-- the machine after two pops
abbrev popped : Machine → ℕ → Machine
popped m t = record m { top = t }

-- Moving the program counter on changes nothing of this, nor do the pops before the push.
Pushed-advance :
    (m m' : Machine) (s t n : ℕ) (w : Width) (v : ℕ)
    → Pushed (popped m s) t w v m'
    → Pushed m t w v (advance n m')
Pushed-advance m m' s t n w v p = record {
  same_code = p.same_code;
  same_vars = p.same_vars;
  same_out = p.same_out;
  same_size = p.same_size;
  on_top = p.on_top;
  holds = p.holds;
  below = p.below;
}

-- Two operands on the stack, the left one on top, are replaced by the result.
pub binary_op_lem :
    (m : Machine) (t : ℕ) (w : Width) (f : ℕ → ℕ → Outcome ℕ) (a b v : ℕ)
    → m.top ≡ suc (suc t)
    → t < length m.stack
    → Holds m (suc t) w a
    → Holds m t w b
    → f a b ≡ ok v
    → (m' : Machine) × (binary_op w f m ≡ ok m')
      × Pushed m t w (load_cell w v) m'
      × (m'.pc ≡ m.pc + 2)
unfolding binary_op
binary_op_lem m t w f a b v e room ha hb result =
    let (m', pushes, p, same_pc) = push_lem (popped m t) w v room in
    (
      advance 2 m',
      rw (pop_lem m (suc t) w a e ha, pop_lem (popped m (suc t)) t w b refl hb, result, pushes),
      Pushed-advance m m' t t 2 w (load_cell w v) p,
      ap (λ n. n + 2) same_pc,
    )

-- An operation that has no result raises its signal.
pub binary_op_traps :
    (m : Machine) (t : ℕ) (w : Width) (f : ℕ → ℕ → Outcome ℕ) (a b : ℕ)
    → m.top ≡ suc (suc t)
    → Holds m (suc t) w a
    → Holds m t w b
    → f a b ≡ trapped
    → binary_op w f m ≡ trapped
unfolding binary_op
binary_op_traps m t w f a b e ha hb result =
    rw (pop_lem m (suc t) w a e ha, pop_lem (popped m (suc t)) t w b refl hb, result)

pub cast_op_lem :
    (m : Machine) (t : ℕ) (from to : Width) (f : ℕ → ℕ) (v : ℕ)
    → m.top ≡ suc t
    → t < length m.stack
    → Holds m t from v
    → (m' : Machine) × (cast_op from to f m ≡ ok m')
      × Pushed m t to (load_cell to (f v)) m'
      × (m'.pc ≡ m.pc + 2)
unfolding cast_op
cast_op_lem m t from to f v e room h =
    let (m', pushes, p, same_pc) = push_lem (popped m t) to (f v) room in
    (
      advance 2 m',
      rw (pop_lem m t from v e h, pushes),
      Pushed-advance m m' t t 2 to (load_cell to (f v)) p,
      ap (λ n. n + 2) same_pc,
    )

pub const_op_lem :
    (m : Machine) (n : ℕ) (w : Width) (v : ℕ)
    → m.top < length m.stack
    → read_le n m.code_buf (m.pc + 2) ≡ some v
    → (m' : Machine) × (const_op n w m ≡ ok m')
      × Pushed m m.top w (load_cell w v) m'
      × (m'.pc ≡ m.pc + (2 + n))
unfolding const_op
const_op_lem m n w v room reads =
    let (m', pushes, p, same_pc) = push_lem m w v room in
    (
      advance (2 + n) m',
      rw (reads, pushes),
      Pushed-advance m m' m.top m.top (2 + n) w (load_cell w v) p,
      ap (λ k. k + (2 + n)) same_pc,
    )

load_twice : (w : Width) (c : ℕ) → load_cell w (load_cell w c) ≡ load_cell w c
load_twice w4 c = omega arith
load_twice w8 c = omega arith

pub load_op_lem :
    (m : Machine) (w : Width) (ix c : ℕ)
    → m.top < length m.stack
    → read_le 2 m.code_buf (m.pc + 2) ≡ some ix
    → get_elem? m.local_var_table ix ≡ some c
    → (m' : Machine) × (load_op w m ≡ ok m')
      × Pushed m m.top w (load_cell w c) m'
      × (m'.pc ≡ m.pc + 4)
unfolding load_op
load_op_lem m w ix c room reads has =
    let (m', pushes, p, same_pc) = push_lem m w (load_cell w c) room in
    (
      advance 4 m',
      rw (reads, has, pushes),
      Pushed-advance m m' m.top m.top 4 w (load_cell w c) (rw (load_twice w c) at p),
      ap (λ k. k + 4) same_pc,
    )

-- A store takes the value off the stack and writes it to the cell of the variable.
pub store_op_lem :
    (m : Machine) (t : ℕ) (w : Width) (ix old v : ℕ)
    → m.top ≡ suc t
    → read_le 2 m.code_buf (m.pc + 2) ≡ some ix
    → get_elem? m.local_var_table ix ≡ some old
    → Holds m t w v
    → store_op w m
      ≡ ok (record m {
        local_var_table = set m.local_var_table ix (store_cell w old v);
        top = t;
        pc = m.pc + 4;
      })
unfolding store_op
store_op_lem m t w ix old v e reads has h = rw (reads, pop_lem m t w v e h, has)

-- A print takes the value off the stack and shows it.
pub print_op_lem :
    (m : Machine) (t : ℕ) (w : Width) (shown : ℕ → Output) (v : ℕ)
    → m.top ≡ suc t
    → Holds m t w v
    → print_op w shown m ≡ ok (record m { top = t; pc = m.pc + 4; out = m.out ++ shown v ∷ [] })
unfolding print_op
print_op_lem m t w shown v e h = rw (pop_lem m t w v e h)
