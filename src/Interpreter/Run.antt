-- ===== src/Interpreter/Run.antt =====
-- The rounds of the loop of `Run` in src/bytecodeinterpreter.cpp, and the fuel of the model.
use core_vm.Base.{
  ℕ, zero, suc, ◌+◌, ◌<◌, ◌≤◌, ◌≡◌, ◌≢◌, refl, Bool, true, false, Option, none, some, arith, length,
  ltb, read_le, inl, inr, Bool-cases, ◌∙◌, le→ltb_false, ap,
}
use core_vm.Base.Outcome.{Outcome, ok, out_of_fuel, ◌>>=◌, defined}
use core_vm.OpCode.{OpCode, of_code}
use core_vm.Fpu.{Fpu}
use core_vm.Word.{div32, mod32, has_no_quotient}
use core_vm.Interpreter.{
  Width, w4, w8, Machine, Output, push, pop_at, pop, binary_op, cast_op, const_op, load_op,
  store_op, print_op, instruction, exec, turn, run, dispatch, perform,
}

-- A machine that an instruction goes on with has the same code and a larger program counter.
abbrev pub Later : Machine → Machine → Type 0
Later m m' = (m'.code_buf ≡ m.code_buf) × (m.pc < m'.pc)

abbrev pub Advances : Machine → Outcome Machine → Type 0
Advances m (ok m') = Later m m'
Advances m out_of_fuel = ⊥
Advances m _ = Unit

module _ (m : Machine) where
  binary_op-Advances :
      (w : Width) (f : ℕ → ℕ → Outcome ℕ)
      → ((a b : ℕ) → f a b ≢ out_of_fuel)
      → Advances m (binary_op w f m)
  unfolding binary_op pop pop_at push
  binary_op-Advances w f h = grind (arith, h)

  pure_op-Advances : (w : Width) (g : ℕ → ℕ → ℕ) → Advances m (binary_op w (λ a b. ok (g a b)) m)
  pure_op-Advances w g = binary_op-Advances w (λ a b. ok (g a b)) (λ a b. cc)

  cast_op-Advances : (v w : Width) (f : ℕ → ℕ) → Advances m (cast_op v w f m)
  unfolding cast_op pop pop_at push
  cast_op-Advances v w f = ground arith

  const_op-Advances : (n : ℕ) (w : Width) → Advances m (const_op n w m)
  unfolding const_op push
  const_op-Advances n w = ground arith

  load_op-Advances : (w : Width) → Advances m (load_op w m)
  unfolding load_op push
  load_op-Advances w = ground arith

  store_op-Advances : (w : Width) → Advances m (store_op w m)
  unfolding store_op pop pop_at
  store_op-Advances w = ground arith

  print_op-Advances : (w : Width) (shown : ℕ → Output) → Advances m (print_op w shown m)
  unfolding print_op pop pop_at
  print_op-Advances w shown = ground arith

Advances-bind :
    (m : Machine) (r : Outcome Machine) (k : Machine → Outcome Machine)
    → Advances m r
    → ((m' : Machine) → Advances m' (k m'))
    → Advances m (r >>= k)
Advances-bind m (ok m') k h next = Advances-trans (k m') (next m')
  where
    Advances-trans : (r : Outcome Machine) → Advances m' r → Advances m r
    Advances-trans (ok m'') h' = (h'.0 ∙ h.0, omega arith)
    Advances-trans out_of_fuel h' = h'
    Advances-trans _ h' = tt
Advances-bind m out_of_fuel k h next = h
Advances-bind m _ k h next = tt

div32-ne-out_of_fuel : (a b : ℕ) → div32 a b ≢ out_of_fuel
unfolding div32
div32-ne-out_of_fuel a b = elim (Bool-cases (has_no_quotient a b)) [
  | inl e ↦ rw e (cc)
  | inr e ↦ rw e (cc)
]

mod32-ne-out_of_fuel : (a b : ℕ) → mod32 a b ≢ out_of_fuel
unfolding mod32
mod32-ne-out_of_fuel a b = elim (Bool-cases (has_no_quotient a b)) [
  | inl e ↦ rw e (cc)
  | inr e ↦ rw e (cc)
]

module _ (fpu : Fpu) where
  abbrev InstructionAdvances : Machine → Option (Machine → Outcome Machine) → Type 0
  InstructionAdvances m none = Unit
  InstructionAdvances m (some f) = Advances m (f m)

  instruction-Advances : (op : OpCode) (m : Machine) → InstructionAdvances m (instruction fpu op)
  unfolding instruction
  instruction-Advances OpCode.i_add m = pure_op-Advances m w4 _
  instruction-Advances OpCode.i_sub m = pure_op-Advances m w4 _
  instruction-Advances OpCode.i_mul m = pure_op-Advances m w4 _
  instruction-Advances OpCode.i_div m = binary_op-Advances m w4 div32 div32-ne-out_of_fuel
  instruction-Advances OpCode.i_mod m = binary_op-Advances m w4 mod32 mod32-ne-out_of_fuel
  instruction-Advances OpCode.d_add m = pure_op-Advances m w8 _
  instruction-Advances OpCode.d_sub m = pure_op-Advances m w8 _
  instruction-Advances OpCode.d_mul m = pure_op-Advances m w8 _
  instruction-Advances OpCode.d_div m = pure_op-Advances m w8 _
  instruction-Advances OpCode.f_add m = pure_op-Advances m w4 _
  instruction-Advances OpCode.f_sub m = pure_op-Advances m w4 _
  instruction-Advances OpCode.f_mul m =
      Advances-bind m _ _ (pure_op-Advances m w4 _) (λ m'. pure_op-Advances m' w4 _)
  instruction-Advances OpCode.f_div m = pure_op-Advances m w4 _
  instruction-Advances OpCode.i_const m = const_op-Advances m 4 w4
  instruction-Advances OpCode.d_const m = const_op-Advances m 8 w8
  instruction-Advances OpCode.f_const m = const_op-Advances m 4 w4
  instruction-Advances OpCode.l_const m = const_op-Advances m 8 w8
  instruction-Advances OpCode.i_cast_d m = cast_op-Advances m w4 w8 _
  instruction-Advances OpCode.i_cast_f m = cast_op-Advances m w4 w4 _
  instruction-Advances OpCode.i_cast_l m = cast_op-Advances m w4 w8 _
  instruction-Advances OpCode.l_cast_d m = cast_op-Advances m w8 w8 _
  instruction-Advances OpCode.l_cast_f m = cast_op-Advances m w8 w4 _
  instruction-Advances OpCode.l_cast_i m = cast_op-Advances m w8 w4 _
  instruction-Advances OpCode.f_cast_i m = cast_op-Advances m w4 w4 _
  instruction-Advances OpCode.f_cast_l m = cast_op-Advances m w4 w8 _
  instruction-Advances OpCode.f_cast_d m = cast_op-Advances m w4 w8 _
  instruction-Advances OpCode.d_cast_i m = cast_op-Advances m w8 w4 _
  instruction-Advances OpCode.d_cast_f m = cast_op-Advances m w8 w4 _
  instruction-Advances OpCode.d_cast_l m = cast_op-Advances m w8 w8 _
  instruction-Advances OpCode.load_i m = load_op-Advances m w4
  instruction-Advances OpCode.load_d m = load_op-Advances m w8
  instruction-Advances OpCode.load_f m = load_op-Advances m w4
  instruction-Advances OpCode.load_l m = load_op-Advances m w8
  instruction-Advances OpCode.store_i m = store_op-Advances m w4
  instruction-Advances OpCode.store_d m = store_op-Advances m w8
  instruction-Advances OpCode.store_f m = store_op-Advances m w4
  instruction-Advances OpCode.store_l m = store_op-Advances m w8
  instruction-Advances OpCode.print_i m = print_op-Advances m w4 _
  instruction-Advances OpCode.print_f m = print_op-Advances m w4 _
  instruction-Advances OpCode.print_d m = print_op-Advances m w8 _
  instruction-Advances OpCode.print_l m = print_op-Advances m w8 _
  instruction-Advances _ m = tt

  -- what one round of the loop may do: go on with a later machine, or stop
  abbrev pub Round : Machine → Outcome (Machine × Bool) → Type 0
  Round m (ok (m', true)) = Later m m'
  Round m out_of_fuel = ⊥
  Round m _ = Unit

  perform-Round :
      (n : ℕ) (m : Machine) (i : Option (Machine → Outcome Machine))
      → InstructionAdvances m i
      → Round m (perform fpu n i m)
  perform-Round n m none h = tt
  perform-Round n m (some f) h = by_outcome (f m) h
    where
      by_outcome : (r : Outcome Machine) → Advances m r → Round m (r >>= λ m'. ok (m', true))
      by_outcome (ok m') h' = h'
      by_outcome out_of_fuel h' = h'
      by_outcome _ h' = tt

  exec-Round : (n : ℕ) (op : OpCode) (m : Machine) → Round m (exec fpu n op m)
  unfolding exec
  exec-Round n OpCode.done m = tt
  exec-Round n op m = perform-Round n m (instruction fpu op) (instruction-Advances op m)

  turn-Round : (m : Machine) → Round m (turn fpu m)
  unfolding turn
  turn-Round m = by_read (read_le 2 m.code_buf m.pc)
    where
      by_code : (n : ℕ) (o : Option OpCode) → Round m (dispatch fpu n o m)
      by_code n none = tt
      by_code n (some op) = exec-Round n op m

      by_read : (o : Option ℕ) → Round m (defined o >>= λ n. dispatch fpu n (of_code n) m)
      by_read none = tt
      by_read (some n) = by_code n (of_code n)

  after-Round :
      (k : Machine → Outcome Machine) (m : Machine) (r : Outcome (Machine × Bool))
      → Round m r
      → ((m' : Machine) → Later m m' → k m' ≢ out_of_fuel)
      → (r >>= λ (m', more). elim more [ true ↦ k m' | false ↦ ok m' ]) ≢ out_of_fuel
  after-Round k m (ok (m', true)) later ends = ends m' later
  after-Round k m (ok (m', false)) later ends = cc
  after-Round k m out_of_fuel later ends = absurd later
  after-Round k m _ later ends = cc

  -- `Run` ends: with more fuel than there are bytes of code ahead the model does not run out of it.
  pub run-ne-out_of_fuel :
      (f : ℕ) (m : Machine) → length m.code_buf ≤ m.pc + f → run fpu (suc f) m ≢ out_of_fuel
  unfolding run
  run-ne-out_of_fuel zero m h = rw (le→ltb_false m.pc (length m.code_buf) (omega arith)) (cc)
  run-ne-out_of_fuel (suc f) m h = elim (Bool-cases (ltb m.pc (length m.code_buf))) [
    | inl inside ↦ rw inside (
        after-Round (run fpu (suc f)) m (turn fpu m) (turn-Round m)
          (λ m' later. run-ne-out_of_fuel f m' (omega (arith, ap length later.0))))
    | inr outside ↦ rw outside (cc)
  ]

  same_round :
      (j k : Machine → Outcome Machine) (r : Outcome (Machine × Bool))
      → ((m : Machine) → j m ≢ out_of_fuel → k m ≡ j m)
      → (r >>= λ (m', more). elim more [ true ↦ j m' | false ↦ ok m' ]) ≢ out_of_fuel
      → (r >>= λ (m', more). elim more [ true ↦ k m' | false ↦ ok m' ])
        ≡ (r >>= λ (m', more). elim more [ true ↦ j m' | false ↦ ok m' ])
  same_round j k (ok (m', true)) same e = same m' e
  same_round j k (ok (m', false)) same e = refl
  same_round j k _ same e = refl

  -- Fuel that is not needed changes nothing.
  pub run_mono :
      (f g : ℕ) (m : Machine) → f ≤ g → run fpu f m ≢ out_of_fuel → run fpu g m ≡ run fpu f m
  unfolding run
  run_mono zero g m h ends = absurd (ends refl)
  run_mono (suc f) zero m h ends = absurd (omega arith)
  run_mono (suc f) (suc g) m h ends = elim (Bool-cases (ltb m.pc (length m.code_buf))) [
    | inl inside ↦ rw inside (
        same_round (run fpu f) (run fpu g) (turn fpu m) (λ m' e. run_mono f g m' (omega arith) e)
          (rw inside at ends))
    | inr outside ↦ rw outside
  ]
