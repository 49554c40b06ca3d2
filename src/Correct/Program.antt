-- ===== src/Correct/Program.antt =====
-- Runs of the code that src/ir.cpp emits for a program, from Emit to the end of Run.
use core_vm.Base.{
  ℕ, zero, suc, ◌+◌, ◌*◌, ◌^◌, ◌<◌, ◌≤◌, ◌≡◌, ◌≢◌, refl, ap, ◌∙◌, sym, List, [], ◌∷◌, append-nil,
  arith, length, lt→ltb,
}
use core_vm.Base.Outcome.{Outcome, ok, trapped, out_of_fuel, ◌>>=◌}
use core_vm.OpCode.{done}
use core_vm.Ir.{Program}
use core_vm.Ir.Code.{op_bytes}
use core_vm.Ir.ProgramCode.{code_of_program, emit_program-code_of}
use core_vm.Assembler.{CvmAssembler, new_assembler}
use core_vm.Assembler.Bounds.{IsValid}
use core_vm.Fpu.{Fpu}
use core_vm.Interpreter.{Machine, exec, turn, run, allocate, new_interpreter}
use core_vm.Interpreter.Run.{run-ne-out_of_fuel, run_mono}
use core_vm.Semantics.{State, eval_stmt, eval_program}
use core_vm.Semantics.Supported.{AllRunnable}
use core_vm.Compiler.{kb, emit_code, interpret}
use core_vm.Correct.Fetch.{Ahead, pc-lt_of_Ahead, turn-exec, Steps-run}
use core_vm.Correct.Statement.{Represents, Performs, eval_stmt-Performs}

-- The run ends as the program does: in the same variables with the same output and an empty operand
-- stack, or with the signal of a division. Nothing else happens.
abbrev pub EndsAs : Outcome State → Outcome Machine → Type 0
EndsAs (ok s) r =
    (m : Machine) × (r ≡ ok m) × (m.local_var_table ≡ s.vars) × (m.out ≡ s.out) × (m.top ≡ 0)
EndsAs trapped r = r ≡ trapped
EndsAs _ r = ⊥

abbrev start : CvmAssembler
start = record { code = []; pos = 0; capacity = 1024 }

new_assembler_lem : new_assembler kb ≡ ok start
unfolding new_assembler
new_assembler_lem = refl

start-IsValid : IsValid start
start-IsValid = omega arith

module _ (fpu : Fpu) where
  run-trapped :
      (m : Machine) → m.pc < length m.code_buf → turn fpu m ≡ trapped → run fpu 1 m ≡ trapped
  unfolding run
  run-trapped m inside traps = rw (lt→ltb _ _ inside, traps)

  run-done : (m : Machine) → Ahead m (op_bytes done) → run fpu 1 m ≡ ok m
  unfolding run exec
  run-done m ahead = rw (
    lt→ltb _ _ (pc-lt_of_Ahead m done [] (ahead ∙ sym (append-nil (op_bytes done)))),
    turn-exec fpu m done [] (ahead ∙ sym (append-nil (op_bytes done))),
  )

  EndsAs-eq : (s : Outcome State) (r r' : Outcome Machine) → r' ≡ r → EndsAs s r → EndsAs s r'
  EndsAs-eq (ok s) r r' e h = (h.0, e ∙ h.1, h.2, h.3, h.4)
  EndsAs-eq trapped r r' e h = e ∙ h
  EndsAs-eq _ r r' e h = h

  -- the run on some amount of fuel
  Ends : Outcome State → Machine → Type 0
  Ends s m = (f : ℕ) × EndsAs s (run fpu f m)

  after_statement :
      (m : Machine) (rest : List ℕ) (k : ℕ) (r : Outcome State) (g : State → Outcome State)
      → Performs fpu m rest k r
      → ((s : State) (m' : Machine)
          → Represents m' s k
          → Ahead m' rest
          → length s.vars ≡ length m.local_var_table
          → Ends (g s) m')
      → Ends (r >>= g) m
  unfolding Ends
  after_statement m rest k (ok s) g h go_on =
      let (f, ends) = go_on s h.0 h.2 h.3 h.4 in
      let (f', same) = Steps-run fpu h.1 f in (f', EndsAs-eq (g s) _ _ same ends)
  after_statement m rest k trapped g h go_on =
      let (f', same) = Steps-run fpu h.1 1 in (f', same ∙ run-trapped h.0 h.2 h.3)
  after_statement m rest k _ g h go_on = absurd h

  program-Ends :
      (n k : ℕ) (p : Program) (s : State) (m : Machine)
      → n ≤ 2 ^ 16
      → n ≤ length s.vars
      → AllRunnable n k p
      → Represents m s k
      → Ahead m (code_of_program p)
      → Ends (eval_program fpu s p) m
  unfolding eval_program Ends
  program-Ends n k [] s m few known h r ahead =
      (1, (m, run-done m ahead, r.same_vars, r.same_out, r.empty_stack))
  program-Ends n k (c ∷ p) s m few known (h, hs) r ahead =
      after_statement m (code_of_program p) k (eval_stmt fpu s c) _
        (eval_stmt-Performs fpu n k c s m (code_of_program p) few known h r ahead)
        (λ s' m' r' ahead' size.
          program-Ends n k p s' m' few (omega (arith, size, ap length r.same_vars)) hs r' ahead')

  EndsAs-ne-out_of_fuel : (s : Outcome State) (r : Outcome Machine) → EndsAs s r → r ≢ out_of_fuel
  EndsAs-ne-out_of_fuel (ok s) r h = cc (h.1)
  EndsAs-ne-out_of_fuel trapped r h = cc
  EndsAs-ne-out_of_fuel _ r h = absurd h

  -- with the fuel of `interpret`
  run-EndsAs :
      (s : Outcome State) (m : Machine)
      → m.pc ≡ 0
      → Ends s m
      → EndsAs s (run fpu (suc (length m.code_buf)) m)
  unfolding Ends
  run-EndsAs s m start (f, ends) =
      let fuel = suc (length m.code_buf) in
      let stops : run fpu fuel m ≢ out_of_fuel =
        run-ne-out_of_fuel fpu (length m.code_buf) m (omega arith) in
      let stops' : run fpu f m ≢ out_of_fuel = EndsAs-ne-out_of_fuel s (run fpu f m) ends in
      let same : run fpu fuel m ≡ run fpu f m =
        sym (run_mono fpu fuel (fuel + f) m (omega arith) stops)
        ∙ run_mono fpu f (fuel + f) m (omega arith) stops' in
      EndsAs-eq s _ _ same ends

  length-allocate : (junk : ℕ → ℕ) (n : ℕ) → length (allocate junk n) ≡ n
  unfolding allocate
  length-allocate junk zero = refl
  length-allocate junk (suc n) = ap suc (length-allocate junk n)

  make :
      (junk junk' : ℕ → ℕ) (bytes : List ℕ) (n : ℕ)
      → 0 < n
      → new_interpreter junk junk' bytes kb n
        ≡ ok (record {
          code_buf = bytes;
          stack = allocate junk 128;
          local_var_table = allocate junk' n;
          pc = 0;
          top = 0;
          out = [];
        })
  unfolding new_interpreter
  make junk junk' bytes n h = rw (lt→ltb 0 (n * 8) (omega arith))

  -- A program of runnable statements over at least one and at most 2 ^ 16 variables, whose
  -- expressions fit into the 128 cells of the operand stack and whose code is shorter than 2 ^ 30
  -- bytes: Emit gives its code without panic or failed assertion. Run on that code, whatever the
  -- memory that the interpreter allocates held, the interpreter ends within the fuel, with the
  -- variables and the output that the evaluator gives for the program, or with the signal of a
  -- division where the evaluator raises it.
  pub interpret-emit_code :
      (n : ℕ) (p : Program) (junk junk' : ℕ → ℕ)
      → 0 < n
      → n ≤ 2 ^ 16
      → AllRunnable n 128 p
      → length (code_of_program p) < 2 ^ 30
      → (code : List ℕ) × (emit_code p ≡ ok code)
        × EndsAs
            (eval_program fpu (record { vars = allocate junk' n; out = [] }) p)
            (interpret fpu junk junk' code n)
  unfolding emit_code interpret
  interpret-emit_code n p junk junk' some_vars few runnable short =
      let (b, emits, is_code, _) =
        emit_program-code_of n 128 few p start runnable start-IsValid (omega arith) in
      let m : Machine = record {
        code_buf = b.code;
        stack = allocate junk 128;
        local_var_table = allocate junk' n;
        pc = 0;
        top = 0;
        out = [];
      } in
      let r : Represents m (record { vars = allocate junk' n; out = [] }) 128 = record {
        same_vars = refl;
        same_out = refl;
        empty_stack = refl;
        stack_size = length-allocate junk 128;
      } in
      let made : new_interpreter junk junk' b.code kb n ≡ ok m =
        make junk junk' b.code n some_vars in
      (
        b.code,
        rw (new_assembler_lem, emits),
        rw made (
            run-EndsAs _ m refl (
              program-Ends n 128 p _ m few (omega (arith, length-allocate junk' n)) runnable r
                is_code)),
      )
