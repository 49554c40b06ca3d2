-- ===== src/Main.antt =====
-- main.cpp: the options of the command line, and `main`, on builds for Arm64 and for others. Arguments
-- are their bytes, without the name of the program.
pub mod Options
pub mod Runs
use core_vm.Base.{
  ℕ, suc, ◌-◌, Bool, true, false, ◌&&◌, List, [], ◌∷◌, Option, none, some, ltb, ◌==◌, if◌then◌else◌,
  length, drop,
}
use core_vm.Base.Outcome.{
  Outcome, ok, panicked, undefined, ◌>>=◌, defined, invalid_argument, please_specify_a_cvm_file,
}
use core_vm.Types.{Name, codes, name_eq}
use core_vm.Fpu.{Fpu}
use core_vm.Ir.Dump.{Text}
use core_vm.Interpreter.{Machine}
use core_vm.Compiler.{kb, Compiled, compile, interpret}

-- CVMConfig
pub record CvmConfig : Type 0 where
  pub filename : Name
  pub dump_bytecode : Bool
  pub dump_binary : Bool
  pub use_asm : Bool

-- `arg.starts_with("-")`
abbrev pub is_option : Name → Bool
is_option [] = false
is_option (c ∷ arg) = c == b'-'

-- `arg.size() > 3 && arg.ends_with(".cvm")`
abbrev pub is_cvm : Name → Bool
is_cvm arg = ltb 3 (length arg) && name_eq (drop (length arg - 4) arg) (codes ".cvm")

-- One argument; `none` is the usage, behind which the program exits.
unfoldable pub argument : CvmConfig → Name → Outcome (Option CvmConfig)
argument c arg =
    if length arg == 0
    then panicked invalid_argument
    else if is_option arg
    then (if name_eq arg (codes "-d")
        then ok (some (record c { dump_bytecode = true }))
        else if name_eq arg (codes "-b")
        then ok (some (record c { dump_binary = true }))
        else if name_eq arg (codes "-h")
        then ok none
        else if name_eq arg (codes "-f")
        then ok (some (record c { use_asm = true }))
        else ok (some c))
    else if is_cvm arg
    then ok (some (record c { filename = arg }))
    else ok (some c)

-- the loop over the arguments
unfoldable pub arguments : CvmConfig → List Name → Outcome (Option CvmConfig)
arguments c [] = ok (some c)
arguments c (arg ∷ argv) =
    argument c arg >>= λ o. elim o [ none ↦ ok none | some c' ↦ arguments c' argv ]

-- The members before the loop: `_use_asm` is not initialised, and holds an arbitrary value.
abbrev pub initial_config : Bool → CvmConfig
initial_config junk = record {
  filename = [];
  dump_bytecode = false;
  dump_binary = false;
  use_asm = junk;
}

-- the constructor
unfoldable pub new_config : Bool → List Name → Outcome (Option CvmConfig)
new_config junk argv = arguments (initial_config junk) argv >>= λ o. elim o [
  | none ↦ ok none
  | some c ↦ if length c.filename == 0 then panicked please_specify_a_cvm_file else ok (some c)
]

-- what an interpreter leaves: ByteCodeInterpreter, or AsmInterpreter
pub data Left (A : Type 0) : Type 0 where
  interpreted : Machine → Left A
  assembled : A → Left A

-- what `main` has shown, and what it leaves
pub record Ran (A : Type 0) : Type 0 where
  pub bytecode : Option Text
  pub binary : Option (List ℕ)
  pub left : Left A

-- `argv[1]`, which is a null pointer where there is no argument
abbrev pub first : List Name → Option Name
first [] = none
first (arg ∷ argv) = some arg

-- `arm64` is whether the build is for Arm64. There `run_asm` is AsmInterpreter, which runs machine code
-- written by hand: what it does with the code, the size of its stack and that of its table.
module _ (fpu : Fpu) (show_float show_double : ℕ → Text) (files : Name → Option (List ℕ))
    (arm64 : Bool) (A : Type 0) (run_asm : List ℕ → ℕ → ℕ → Outcome A) where
  -- the interpreter that is made and run; the AsmInterpreter has a table of 1 KB whatever the code needs
  unfoldable pub run_code : (ℕ → ℕ) → (ℕ → ℕ) → Bool → Compiled → Outcome (Left A)
  run_code junk junk' use_asm c =
      if arm64 && use_asm
      then (run_asm c.code kb kb >>= λ a. ok (assembled a))
      else (interpret fpu junk junk' c.code c.sym_size >>= λ m. ok (interpreted m))

  -- `main` behind the options: the file that is compiled is the first argument. A file that cannot be
  -- opened leaves a null pointer, which is read.
  unfoldable pub run_config : (ℕ → ℕ) → (ℕ → ℕ) → ℕ → CvmConfig → List Name → Outcome (Ran A)
  unfolding run_code
  run_config junk junk' fuel config argv = do
    filename ← defined (first argv)
    bytes ← defined (files filename)
    c ← compile fpu show_float show_double fuel bytes
    left ← run_code junk junk' config.use_asm c
    ok (record {
      bytecode = if config.dump_bytecode then some c.bytecode else none;
      binary = if config.dump_binary then some c.code else none;
      left = left;
    })

  -- `main`; `none` is the exit behind the usage.
  unfoldable pub main : Bool → (ℕ → ℕ) → (ℕ → ℕ) → ℕ → List Name → Outcome (Option (Ran A))
  main use_asm junk junk' fuel argv = new_config use_asm argv >>= λ o. elim o [
    | none ↦ ok none
    | some config ↦ run_config junk junk' fuel config argv >>= λ ran. ok (some ran)
  ]
