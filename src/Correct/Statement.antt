-- ===== src/Correct/Statement.antt =====
-- Runs of the code that src/ir.cpp emits for a statement, on the variables and the output.
use core_vm.Base.{
  ℕ, ◌+◌, ◌^◌, ◌≤◌, ◌≡◌, refl, ap, ◌∙◌, sym, List, [], ◌∷◌, ◌++◌, some, arith, length, get_elem?,
  set, append_assoc, le_bytes, get_elem?-in_range, length-set,
}
use core_vm.Base.Outcome.{Outcome, ok, trapped, ◌>>=◌}
use core_vm.OpCode.{OpCode}
use core_vm.Types.{CvmType, int, float, double, long, void}
use core_vm.Util.{get_store_opcode_by_type}
use core_vm.Ir.{Stmt, assign, definition, no_op, function_call, get_res_type}
use core_vm.Ir.Code.{op_bytes, code_of}
use core_vm.Ir.ProgramCode.{print_opcode, code_of_stmt, IsValueType, WellTyped-IsValueType}
use core_vm.Fpu.{Fpu}
use core_vm.Interpreter.{Width, store_cell, Machine, store_op, print_op, instruction}
use core_vm.Semantics.{width, shown, eval, State, eval_stmt}
use core_vm.Semantics.Supported.{Runnable}
use core_vm.Correct.Fetch.{
  Ahead, Ahead-next, length-operand, operand-Ahead, Steps, here, Steps-trans,
}
use core_vm.Correct.Cells.{Holds, Pushed, store_op_lem, print_op_lem}
use core_vm.Correct.Instructions.{Steps-instruction}
use core_vm.Correct.Expression.{Halts, Computes, eval-Computes}

-- The machine stands between two statements, in the state `s` and with a stack of `k` cells.
pub record Represents (m : Machine) (s : State) (k : ℕ) : Type 0 where
  pub same_vars : m.local_var_table ≡ s.vars
  pub same_out : m.out ≡ s.out
  pub empty_stack : m.top ≡ 0
  pub stack_size : length m.stack ≡ k

module _ (fpu : Fpu) where
  instruction-store :
      (t : CvmType) (op : OpCode)
      → get_store_opcode_by_type t ≡ ok op
      → instruction fpu op ≡ some (store_op (width t))
  unfolding instruction get_store_opcode_by_type
  instruction-store int op h = cc
  instruction-store _ op h = cc

  instruction-print :
      (t : CvmType)
      → IsValueType t
      → instruction fpu (print_opcode t) ≡ some (print_op (width t) (shown t))
  unfolding instruction
  instruction-print int h = refl
  instruction-print float h = refl
  instruction-print double h = refl
  instruction-print long h = refl
  instruction-print void h = absurd h

  -- The rounds lead to a machine in the new state with the rest of the code ahead, or to the signal.
  abbrev pub Performs : Machine → List ℕ → ℕ → Outcome State → Type 0
  Performs m rest k (ok s) =
      (m' : Machine) × Steps fpu m m'
      × Represents m' s k
      × Ahead m' rest
      × (length s.vars ≡ length m.local_var_table)
  Performs m rest k trapped = Halts fpu m
  Performs m rest k _ = ⊥

  Performs-bind :
      (m : Machine) (t k : ℕ) (rest rest' : List ℕ) (w : Width) (r : Outcome ℕ)
      (g : ℕ → Outcome State)
      → Computes fpu m m t rest w r
      → ((v : ℕ) (m' : Machine)
          → Steps fpu m m'
          → Pushed m t w v m'
          → Ahead m' rest
          → Performs m rest' k (g v))
      → Performs m rest' k (r >>= g)
  Performs-bind m t k rest rest' w (ok v) g h go_on = go_on v h.0 h.1 h.2 h.3
  Performs-bind m t k rest rest' w trapped g h go_on = h
  Performs-bind m t k rest rest' w _ g h go_on = absurd h

  -- The code of a runnable statement performs what the statement means, and leaves the operand
  -- stack as empty as it was.
  pub eval_stmt-Performs :
      (n k : ℕ) (c : Stmt) (s : State) (m : Machine) (rest : List ℕ)
      → n ≤ 2 ^ 16
      → n ≤ length s.vars
      → Runnable n k c
      → Represents m s k
      → Ahead m (code_of_stmt c ++ rest)
      → Performs m rest k (eval_stmt fpu s c)
  unfolding eval_stmt
  eval_stmt-Performs n k (assign lhs rhs t) s m rest few known
        (typed, sup, room, bound, is_r, stores) r ahead =
      let after = op_bytes lhs.opcode ++ le_bytes 2 lhs.ix in
      let w = width (get_res_type rhs) in
      let (old, has) = get_elem?-in_range s.vars lhs.ix (omega arith) in
      Performs-bind m m.top k (after ++ rest) rest w (eval fpu s.vars rhs) _
        (rw (← r.same_vars) (
          eval-Computes fpu n rhs m (after ++ rest) few (omega (arith, ap length r.same_vars)) typed
            sup (omega (arith, r.empty_stack, r.stack_size))
            (ahead ∙ append_assoc (code_of rhs) after rest)))
        (λ v m₁ steps p ahead₁.
          let ahead₂ : Ahead m₁ (op_bytes lhs.opcode ++ (le_bytes 2 lhs.ix ++ rest)) =
            ahead₁ ∙ append_assoc (op_bytes lhs.opcode) (le_bytes 2 lhs.ix) rest in
          let at : get_elem? m₁.local_var_table lhs.ix ≡ some old =
            ap (λ xs. get_elem? xs lhs.ix) (p.same_vars ∙ r.same_vars) ∙ has in
          let holds : Holds m₁ m.top (width lhs.res_type) v = rw is_r at p.holds in
          let runs =
            store_op_lem m₁ m.top (width lhs.res_type) lhs.ix old v p.on_top
              (operand-Ahead m₁ lhs.opcode 2 lhs.ix rest (omega arith) ahead₂) at holds in
          let m₂ : Machine = record m₁ {
            local_var_table = set m₁.local_var_table lhs.ix (store_cell (width lhs.res_type) old v);
            top = m.top;
            pc = m₁.pc + 4;
          } in
          rw has (
            m₂,
            Steps-trans fpu steps (
                Steps-instruction fpu m₁ m₂ lhs.opcode _ _ ahead₂
                  (instruction-store lhs.res_type lhs.opcode stores) runs),
            record {
              same_vars =
                  ap (λ xs. set xs lhs.ix (store_cell (width lhs.res_type) old v))
                    (p.same_vars ∙ r.same_vars);
              same_out = p.same_out ∙ r.same_out;
              empty_stack = r.empty_stack;
              stack_size = p.same_size ∙ r.stack_size;
            },
            Ahead-next m₁ m₂ after rest 4 refl refl (length-operand lhs.opcode 2 lhs.ix) ahead₁,
            length-set s.vars lhs.ix (store_cell (width lhs.res_type) old v)
                ∙ sym (ap length r.same_vars),
          ))
  eval_stmt-Performs n k (definition x ix t) s m rest few known h r ahead =
      (m, here, r, ahead, sym (ap length r.same_vars))
  eval_stmt-Performs n k no_op s m rest few known h r ahead =
      (m, here, r, ahead, sym (ap length r.same_vars))
  eval_stmt-Performs n k (function_call name [] t) s m rest few known h r ahead = absurd h
  eval_stmt-Performs n k (function_call name (arg ∷ arg' ∷ args) t) s m rest few known h r ahead =
      absurd h
  eval_stmt-Performs n k (function_call name (arg ∷ []) t) s m rest few known
        (is_print, typed, sup, room) r ahead =
      let ty = get_res_type arg in
      let op = print_opcode ty in
      let after = op_bytes op ++ le_bytes 2 1 in
      Performs-bind m m.top k (after ++ rest) rest (width ty) (eval fpu s.vars arg) _
        (rw (← r.same_vars) (
          eval-Computes fpu n arg m (after ++ rest) few (omega (arith, ap length r.same_vars)) typed
            sup (omega (arith, r.empty_stack, r.stack_size))
            (ahead ∙ append_assoc (code_of arg) after rest)))
        (λ v m₁ steps p ahead₁.
          let m₂ : Machine = record m₁ {
            top = m.top;
            pc = m₁.pc + 4;
            out = m₁.out ++ shown ty v ∷ [];
          } in
          (
            m₂,
            Steps-trans fpu steps (
                Steps-instruction fpu m₁ m₂ op (le_bytes 2 1 ++ rest) _
                  (ahead₁ ∙ append_assoc (op_bytes op) (le_bytes 2 1) rest)
                  (instruction-print ty (WellTyped-IsValueType n arg typed))
                  (print_op_lem m₁ m.top (width ty) (shown ty) v p.on_top p.holds)),
            record {
              same_vars = p.same_vars ∙ r.same_vars;
              same_out = ap (λ xs. xs ++ shown ty v ∷ []) (p.same_out ∙ r.same_out);
              empty_stack = r.empty_stack;
              stack_size = p.same_size ∙ r.stack_size;
            },
            Ahead-next m₁ m₂ after rest 4 refl refl (length-operand op 2 1) ahead₁,
            sym (ap length r.same_vars),
          ))
