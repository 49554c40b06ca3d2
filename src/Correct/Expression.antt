-- ===== src/Correct/Expression.antt =====
-- Runs of the code that src/ir.cpp emits for an expression.
use core_vm.Base.{
  ℕ, suc, ◌+◌, ◌^◌, ◌<◌, ◌≤◌, ◌≡◌, refl, ap, ◌∙◌, List, ◌++◌, some, arith, length, get_elem?,
  append_assoc, ◌⊎◌, inl, inr, le_bytes, length-le_bytes, get_elem?-in_range,
}
use core_vm.Base.Outcome.{Outcome, ok, trapped, ◌>>=◌}
use core_vm.OpCode.{OpCode, code}
use core_vm.Types.{CvmType}
use core_vm.Ir.{Ir, binary, variable, constant, cast, get_res_type}
use core_vm.Ir.Typing.{WellTyped, arithmetic_type}
use core_vm.Ir.Code.{op_bytes, code_of}
use core_vm.Fpu.{Fpu}
use core_vm.Interpreter.{Width, load_cell, Machine, binary_op, instruction, turn}
use core_vm.Semantics.{width, literal, arithmetic, convert, eval}
use core_vm.Semantics.Supported.{Implemented, Supported, depth, depth_pos}
use core_vm.Correct.Fetch.{
  Ahead, Ahead-next, length-op_bytes, length-operand, operand-Ahead, pc-lt_of_Ahead, turn-exec,
  Steps, here, Steps-trans, Ahead-drop,
}
use core_vm.Correct.Instructions.{
  Steps-instruction, instruction-arithmetic, instruction-convert, instruction-constant,
  instruction-load, arithmetic_result, exec-instruction,
}
use core_vm.Correct.Cells.{
  Holds, Pushed, binary_op_lem, binary_op_traps, cast_op_lem, const_op_lem, load_op_lem,
}

module _ (fpu : Fpu) where
  -- the machine comes, after some rounds, to an instruction that raises the signal
  abbrev pub Halts : Machine → Type 0
  Halts m = (m' : Machine) × Steps fpu m m' × (m'.pc < length m'.code_buf) × (turn fpu m' ≡ trapped)

  -- From `l` the rounds lead to `m` with the value in the cell `t` and `rest` ahead, or to the signal
  -- where the evaluation raises it.
  abbrev pub Computes : Machine → Machine → ℕ → List ℕ → Width → Outcome ℕ → Type 0
  Computes l m t rest w (ok v) = (m' : Machine) × Steps fpu l m' × Pushed m t w v m' × Ahead m' rest
  Computes l m t rest w trapped = Halts l
  Computes l m t rest w _ = ⊥

  Computes-bind :
      (l m m₁ : Machine) (t t₁ : ℕ) (rest rest₁ : List ℕ) (w w₁ : Width) (r : Outcome ℕ)
      (k : ℕ → Outcome ℕ)
      → Computes l m t rest w r
      → ((v : ℕ) (m' : Machine)
          → Steps fpu l m'
          → Pushed m t w v m'
          → Ahead m' rest
          → Computes l m₁ t₁ rest₁ w₁ (k v))
      → Computes l m₁ t₁ rest₁ w₁ (r >>= k)
  Computes-bind l m m₁ t t₁ rest rest₁ w w₁ (ok v) k h go_on = go_on v h.0 h.1 h.2 h.3
  Computes-bind l m m₁ t t₁ rest rest₁ w w₁ trapped k h go_on = h
  Computes-bind l m m₁ t t₁ rest rest₁ w w₁ _ k h go_on = absurd h

  Computes-Steps :
      (k l m : Machine) (t : ℕ) (rest : List ℕ) (w : Width) (r : Outcome ℕ)
      → Steps fpu k l
      → Computes l m t rest w r
      → Computes k m t rest w r
  Computes-Steps k l m t rest w (ok v) before (m', steps, pushed, ahead) =
      (m', Steps-trans fpu before steps, pushed, ahead)
  Computes-Steps k l m t rest w trapped before (m', steps, inside, traps) =
      (m', Steps-trans fpu before steps, inside, traps)
  Computes-Steps k l m t rest w _ before h = absurd h

  -- a binary operation whose operands lie on the stack
  operation-Computes :
      (m : Machine) (t : ℕ) (op : OpCode) (ty : CvmType) (a b : ℕ) (rest : List ℕ)
      → arithmetic_type op ≡ some ty
      → Implemented op
      → m.top ≡ suc (suc t)
      → t < length m.stack
      → Holds m (suc t) (width ty) a
      → Holds m t (width ty) b
      → Ahead m (op_bytes op ++ rest)
      → Computes m m t rest (width ty) (arithmetic fpu op a b >>= λ v. ok (load_cell (width ty) v))
  operation-Computes m t op ty a b rest typed there top room ha hb ahead =
      by_result (arithmetic_result fpu op ty a b typed there)
    where
      f : Machine → Outcome Machine
      f = binary_op (width ty) (arithmetic fpu op)

      is_f : instruction fpu op ≡ some f
      is_f = instruction-arithmetic fpu op ty typed there

      by_result :
          ((v : ℕ) × (arithmetic fpu op a b ≡ ok v)) ⊎ (arithmetic fpu op a b ≡ trapped)
          → Computes m m t rest
              (width ty)
              (arithmetic fpu op a b >>= λ v. ok (load_cell (width ty) v))
      by_result (inl (v, e)) =
          let (m', runs, pushed, pc) =
            binary_op_lem m t (width ty) (arithmetic fpu op) a b v top room ha hb e in
          rw e (
            m',
            Steps-instruction fpu m m' op rest f ahead is_f runs,
            pushed,
            rw (pushed.same_code, pc)
                (Ahead-drop m (op_bytes op) rest 2 (length-le_bytes 2 (code op)) ahead),
          )
      by_result (inr e) = rw e (
        m,
        here,
        pc-lt_of_Ahead m op rest ahead,
        turn-exec fpu m op rest ahead
            ∙ exec-instruction fpu (code op) op m f is_f
            ∙ rw (binary_op_traps m t (width ty) (arithmetic fpu op) a b top ha hb e),
      )

  Pushed-trans :
      (m m' m'' : Machine) (t : ℕ) (v w : Width) (a b : ℕ)
      → Pushed m t v a m'
      → Pushed m' t w b m''
      → Pushed m t w b m''
  Pushed-trans m m' m'' t v w a b p q = record {
    same_code = q.same_code ∙ p.same_code;
    same_vars = q.same_vars ∙ p.same_vars;
    same_out = q.same_out ∙ p.same_out;
    same_size = q.same_size ∙ p.same_size;
    on_top = q.on_top;
    holds = q.holds;
    below = λ i h. q.below i h ∙ p.below i h;
  }

  -- the left operand above the right one: what lay below them is as it was
  Pushed-above :
      (m m' m'' m₃ : Machine) (t : ℕ) (u v w : Width) (a b c : ℕ)
      → Pushed m t u a m'
      → Pushed m' (suc t) v b m''
      → Pushed m'' t w c m₃
      → Pushed m t w c m₃
  Pushed-above m m' m'' m₃ t u v w a b c p q r = record {
    same_code = r.same_code ∙ q.same_code ∙ p.same_code;
    same_vars = r.same_vars ∙ q.same_vars ∙ p.same_vars;
    same_out = r.same_out ∙ q.same_out ∙ p.same_out;
    same_size = r.same_size ∙ q.same_size ∙ p.same_size;
    on_top = r.on_top;
    holds = r.holds;
    below = λ i h. r.below i h ∙ q.below i (omega arith) ∙ p.below i h;
  }

  -- Results that are pushed onto other machines, with the same effect, are results here.
  Computes-rebase :
      (l m m' : Machine) (t : ℕ) (rest : List ℕ) (w : Width) (r : Outcome ℕ)
      → ((c : ℕ) (n : Machine) → Pushed m' t w c n → Pushed m t w c n)
      → Computes l m' t rest w r
      → Computes l m t rest w r
  Computes-rebase l m m' t rest w (ok v) f h = (h.0, h.1, f v h.0 h.2, h.3)
  Computes-rebase l m m' t rest w trapped f h = h
  Computes-rebase l m m' t rest w _ f h = absurd h

  -- the theorem below, with the top of the stack and the variables as numbers of their own
  eval-Computes_at :
      (n t : ℕ) (e : Ir) (m : Machine) (vars rest : List ℕ)
      → m.top ≡ t
      → m.local_var_table ≡ vars
      → n ≤ 2 ^ 16
      → n ≤ length vars
      → WellTyped n e
      → Supported e
      → t + depth e ≤ length m.stack
      → Ahead m (code_of e ++ rest)
      → Computes m m t rest (width (get_res_type e)) (eval fpu vars e)
  unfolding eval
  eval-Computes_at n t (binary op ty lhs rhs) m vars rest top same few known
        (typed_l, typed_r, typed, is_l, is_r) (sup_l, sup_r, there) room ahead =
      let after_r = code_of lhs ++ (op_bytes op ++ rest) in
      let ahead_r : Ahead m (code_of rhs ++ after_r) =
        ahead
        ∙ append_assoc (code_of rhs) (code_of lhs ++ op_bytes op) rest
        ∙ ap (λ ys. code_of rhs ++ ys) (append_assoc (code_of lhs) (op_bytes op) rest) in
      Computes-bind m m m t t after_r rest (width (get_res_type rhs)) (width ty) (eval fpu vars rhs)
        _
        (eval-Computes_at n t rhs m vars after_r top same few known typed_r sup_r (omega arith)
          ahead_r)
        (λ b m₁ steps₁ p₁ ahead₁.
          Computes-bind m m₁ m (suc t) t (op_bytes op ++ rest) rest (width (get_res_type lhs))
            (width ty) (eval fpu vars lhs) _
            (Computes-Steps m m₁ m₁ (suc t) (op_bytes op ++ rest) (width (get_res_type lhs))
              (eval fpu vars lhs) steps₁
              (eval-Computes_at n (suc t) lhs m₁ vars (op_bytes op ++ rest) p₁.on_top
                (p₁.same_vars ∙ same) few known typed_l sup_l (omega (arith, p₁.same_size)) ahead₁))
            (λ a m₂ steps₂ p₂ ahead₂.
              let (c, at, reads) = p₁.holds in
              let holds_r : Holds m₂ t (width (get_res_type rhs)) b =
                (c, p₂.below t (omega arith) ∙ at, reads) in
              Computes-Steps m m₂ m t rest (width ty) _ steps₂ (
                Computes-rebase m₂ m m₂ t rest (width ty) _
                  (λ v m₃ p₃. Pushed-above m m₁ m₂ m₃ t _ _ _ b a v p₁ p₂ p₃)
                  (operation-Computes m₂ t op ty a b rest typed there p₂.on_top
                    (omega (arith, p₁.same_size, p₂.same_size)) (rw is_l at p₂.holds)
                    (rw is_r at holds_r) ahead₂))))
  eval-Computes_at n t (variable x ix op ty) m vars rest top same few known (bound, loads) sup room
        ahead =
      let (c, has) = get_elem?-in_range vars ix (omega arith) in
      let ahead' : Ahead m (op_bytes op ++ (le_bytes 2 ix ++ rest)) =
        ahead ∙ append_assoc (op_bytes op) (le_bytes 2 ix) rest in
      let (m', runs, pushed, pc) =
        load_op_lem m (width ty) ix c (omega arith)
          (operand-Ahead m op 2 ix rest (omega arith) ahead')
          (ap (λ xs. get_elem? xs ix) same ∙ has) in
      rw (has, ← top)
        (
          m',
          Steps-instruction fpu m m' op _ _ ahead' (instruction-load fpu op ty loads) runs,
          pushed,
          Ahead-next m m' _ rest 4 pushed.same_code pc (length-operand op 2 ix) ahead,
        )
  eval-Computes_at n t (constant v op ty) m vars rest top same few known typed sup room ahead =
      let (k, is_f, bytes, small) = instruction-constant fpu op ty v typed in
      let ahead₀ : Ahead m ((op_bytes op ++ le_bytes k (literal op v)) ++ rest) =
        ahead ∙ ap (λ ys. (op_bytes op ++ ys) ++ rest) bytes in
      let ahead' : Ahead m (op_bytes op ++ (le_bytes k (literal op v) ++ rest)) =
        ahead₀ ∙ append_assoc (op_bytes op) (le_bytes k (literal op v)) rest in
      let (m', runs, pushed, pc) =
        const_op_lem m k (width ty) (literal op v) (omega arith)
          (operand-Ahead m op k (literal op v) rest small ahead') in
      rw (← top) (
        m',
        Steps-instruction fpu m m' op _ _ ahead' is_f runs,
        pushed,
        Ahead-next m m' _ rest (2 + k) pushed.same_code pc (length-operand op k (literal op v))
            ahead₀,
      )
  eval-Computes_at n t (cast op ty e) m vars rest top same few known (typed, casts) (sup, there)
        room ahead =
      Computes-bind m m m t t (op_bytes op ++ rest) rest (width (get_res_type e)) (width ty)
        (eval fpu vars e) _
        (eval-Computes_at n t e m vars (op_bytes op ++ rest) top same few known typed sup room
          (ahead ∙ append_assoc (code_of e) (op_bytes op) rest))
        (λ v m₁ steps₁ p₁ ahead₁.
          let (m₂, runs, p₂, pc) =
            cast_op_lem m₁ t (width (get_res_type e)) (width ty) (convert fpu op) v p₁.on_top
              (omega (arith, p₁.same_size, depth_pos e)) p₁.holds in
          (
            m₂,
            Steps-trans fpu steps₁ (
                Steps-instruction fpu m₁ m₂ op rest _ ahead₁
                  (instruction-convert fpu op (get_res_type e) ty casts there) runs),
            Pushed-trans m m₁ m₂ t _ _ v _ p₁ p₂,
            Ahead-next m₁ m₂ (op_bytes op) rest 2 p₂.same_code pc (length-op_bytes op) ahead₁,
          ))

  -- The code of a well-typed expression that the interpreter supports, over at most 2 ^ 16
  -- variables and with room on the stack for its depth: the rounds of the loop lead to the value
  -- that the evaluator gives, on top of the stack with the cells below as they were, and to the
  -- code that follows; or to the signal of a division, where the evaluator raises it. The evaluator
  -- has no other outcome.
  pub eval-Computes :
      (n : ℕ) (e : Ir) (m : Machine) (rest : List ℕ)
      → n ≤ 2 ^ 16
      → n ≤ length m.local_var_table
      → WellTyped n e
      → Supported e
      → m.top + depth e ≤ length m.stack
      → Ahead m (code_of e ++ rest)
      → Computes m m m.top rest (width (get_res_type e)) (eval fpu m.local_var_table e)
  eval-Computes n e m rest few known typed sup room ahead =
      eval-Computes_at n m.top e m m.local_var_table rest refl refl few known typed sup room ahead
