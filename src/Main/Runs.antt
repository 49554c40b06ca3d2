-- ===== src/Main/Runs.antt =====
-- `main` of main.cpp, whatever its options show: what it runs, and where the file comes from.
use core_vm.Base.{
  ◌&&◌, ◌||◌, ℕ, ◌≡◌, refl, Bool, List, [], ◌∷◌, Option, none, some, ◌==◌, if◌then◌else◌, length,
  Bool-cases, inl, inr, ap, Option-cases, ◌∙◌, sym,
}
use core_vm.Base.Outcome.{
  bind_assoc, Outcome, ok, panicked, aborted, undefined, trapped, out_of_fuel, ◌>>=◌, defined,
  please_specify_a_cvm_file,
}
use core_vm.Types.{Name, codes}
use core_vm.Fpu.{Fpu}
use core_vm.Ir.Dump.{Text}
use core_vm.Compiler.{compile, run_file}
use core_vm.Main.{
  CvmConfig, initial_config, first, Ran, run_config, main, Left, run_code, assembled, interpreted,
}
use core_vm.Main.{Left, interpreted, assembled, run_code}
use core_vm.Main.Options.{has, IsPlain, last_source, described, new_config_lem}

-- what an interpreter leaves, of what else is shown
abbrev pub left_of : {A : Type 0} → Option (Ran A) → Option (Left A)
left_of none = none
left_of (some ran) = some ran.left

-- A value that a step keeps in a record is read back from it.
module _ {A B : Type 0} (put : A → B) (read : B → A) (kept : (a : A) → read (put a) ≡ a) where
  read_back : (r : Outcome A) → ((r >>= λ a. ok (put a)) >>= λ b. ok (read b)) ≡ r
  read_back (ok a) = ap ok (kept a)
  read_back (panicked _) = refl
  read_back aborted = refl
  read_back undefined = refl
  read_back trapped = refl
  read_back out_of_fuel = refl

-- the same behind another step, on which what is put depends
read_back_behind :
    {A B C : Type 0} (put : C → A → B) (read : B → A)
    → ((c : C) (a : A) → read (put c a) ≡ a)
    → (k : C → Outcome A) (r : Outcome C)
    → ((r >>= λ c. k c >>= λ a. ok (put c a)) >>= λ b. ok (read b)) ≡ (r >>= k)
read_back_behind put read kept k (ok c) = read_back (put c) read (kept c) (k c)
read_back_behind put read kept k (panicked _) = refl
read_back_behind put read kept k aborted = refl
read_back_behind put read kept k undefined = refl
read_back_behind put read kept k trapped = refl
read_back_behind put read kept k out_of_fuel = refl

map_map :
    {A B C : Type 0} (f : A → B) (g : B → C) (r : Outcome A)
    → ((r >>= λ a. ok (f a)) >>= λ b. ok (g b)) ≡ (r >>= λ a. ok (g (f a)))
map_map f g (ok a) = refl
map_map f g (panicked _) = refl
map_map f g aborted = refl
map_map f g undefined = refl
map_map f g trapped = refl
map_map f g out_of_fuel = refl

module _ (fpu : Fpu) (show_float show_double : ℕ → Text) (files : Name → Option (List ℕ))
    (arm64 : Bool) (A : Type 0) (run_asm : List ℕ → ℕ → ℕ → Outcome A) where
  -- the code of a file in AsmInterpreter, or the file as `run_file` runs it
  abbrev pub run_bytes : (ℕ → ℕ) → (ℕ → ℕ) → ℕ → Bool → List ℕ → Outcome (Left A)
  run_bytes junk junk' fuel by_asm bytes =
      if by_asm
      then (compile fpu show_float show_double fuel bytes >>= λ c.
          run_asm c.code 1024 1024 >>= λ a. ok (assembled a))
      else (run_file fpu show_float show_double junk junk' fuel bytes >>= λ m. ok (interpreted m))

  -- the program that stands in a file
  abbrev pub run_named : (ℕ → ℕ) → (ℕ → ℕ) → ℕ → Bool → Option Name → Outcome (Left A)
  run_named junk junk' fuel by_asm o = do
    filename ← defined o
    bytes ← defined (files filename)
    run_bytes junk junk' fuel by_asm bytes

  compiled_run :
      (junk junk' : ℕ → ℕ) (fuel : ℕ) (use_asm : Bool) (bytes : List ℕ)
      → (compile fpu show_float show_double fuel bytes
          >>= run_code fpu show_float show_double files arm64 A run_asm junk junk' use_asm)
        ≡ run_bytes junk junk' fuel (arm64 && use_asm) bytes
  unfolding run_code run_file
  compiled_run junk junk' fuel use_asm bytes = elim (Bool-cases (arm64 && use_asm)) [
    | inl e ↦ rw (run_code, e)
    | inr e ↦
        rw (run_code, e) (sym (bind_assoc (compile fpu show_float show_double fuel bytes) _ _))
  ]

  run_config-left :
      (junk junk' : ℕ → ℕ) (fuel : ℕ) (config : CvmConfig) (argv : List Name)
      → (run_config fpu show_float show_double files arm64 A run_asm junk junk' fuel config argv
          >>= λ ran. ok ran.left)
        ≡ run_named junk junk' fuel (arm64 && config.use_asm) (first argv)
  unfolding run_config
  run_config-left junk junk' fuel config [] = refl
  run_config-left junk junk' fuel config (arg ∷ argv) = elim (Option-cases (files arg)) [
    | inl e ↦ rw e
    | inr (bytes, e) ↦ rw e (
        read_back_behind
          (λ c left. record {
            bytecode = if config.dump_bytecode then some c.bytecode else none;
            binary = if config.dump_binary then some c.code else none;
            left = left;
          })
          (λ (ran : Ran A). ran.left) (λ c left. refl)
          (λ c.
            run_code fpu show_float show_double files arm64 A run_asm junk junk' config.use_asm c)
          (compile fpu show_float show_double fuel bytes)
        ∙ compiled_run junk junk' fuel config.use_asm bytes)
  ]

  -- For arguments that are neither empty nor `-h`, `main` panics where none of them is a source
  -- file. Else the file that the first argument names is compiled, whichever argument the source
  -- file was. On a build for Arm64, where `-f` is among the arguments or the flag was set in the
  -- junk that it began with, AsmInterpreter is run on its code, with a stack and a table of 1024;
  -- on other builds, and where the flag is not set, `main` ends as the run of the file by
  -- ByteCodeInterpreter and leaves the machine that this run leaves, whatever the other options.
  pub main-run_file :
      (use_asm : Bool) (junk junk' : ℕ → ℕ) (fuel : ℕ) (argv : List Name)
      → IsPlain argv
      → (main fpu show_float show_double files arm64 A run_asm use_asm junk junk' fuel argv >>= λ o.
          ok (left_of o))
        ≡ (if length (last_source [] argv) == 0
            then panicked please_specify_a_cvm_file
            else run_named junk junk' fuel
                (arm64 && (use_asm || has (codes "-f") argv))
                (first argv)
              >>= λ left. ok (some left))
  unfolding main
  main-run_file use_asm junk junk' fuel argv plain =
      rw (new_config_lem use_asm argv plain)
        (elim (Bool-cases (length (last_source [] argv) == 0)) [
          | inl e ↦ rw e
          | inr e ↦ rw e (as_option (described (initial_config use_asm) argv))
        ])
    where
      as_option :
          (config : CvmConfig)
          → ((run_config fpu show_float show_double files arm64 A run_asm junk junk' fuel config
                  argv
                >>= λ ran. ok (some ran))
              >>= λ o. ok (left_of o))
            ≡ (run_named junk junk' fuel (arm64 && config.use_asm) (first argv) >>= λ left.
                ok (some left))
      as_option config =
          let ran =
            run_config fpu show_float show_double files arm64 A run_asm junk junk' fuel config
              argv in
          map_map some left_of ran
          ∙ sym (map_map (λ (r : Ran A). r.left) some ran)
          ∙ ap (λ (r : Outcome (Left A)). r >>= λ left. ok (some left))
              (run_config-left junk junk' fuel config argv)
