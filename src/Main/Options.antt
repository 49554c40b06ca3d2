-- ===== src/Main/Options.antt =====
-- The options of main.cpp, read one by one, against what the whole command line says.
use core_vm.Base.{
  zero, suc, ◌-◌, ◌<◌, ◌≤◌, ◌≢◌, ap, arith, ltb, lt→ltb, le→ltb_false, ℕ, ◌≡◌, refl, Bool, true,
  false, not, ◌&&◌, ◌||◌, List, [], ◌∷◌, some, ◌==◌, if◌then◌else◌, length, Bool-cases, inl, inr,
}
use core_vm.Base.Outcome.{ok, panicked, please_specify_a_cvm_file}
use core_vm.Types.{Name, codes, name_eq, name_eq→eq}
use core_vm.Main.{CvmConfig, is_option, is_cvm, argument, arguments, initial_config, new_config}

-- whether an argument is on the command line
abbrev pub has : Name → List Name → Bool
has opt [] = false
has opt (arg ∷ argv) = name_eq arg opt || has opt argv

-- whether a name ends in `.cvm`: it is that, or what is behind its first byte ends so
unfoldable pub ends_in_cvm : Name → Bool
ends_in_cvm [] = false
ends_in_cvm (c ∷ arg) = name_eq (c ∷ arg) (codes ".cvm") || ends_in_cvm arg

-- whether an argument names a source file
abbrev pub is_source : Name → Bool
is_source arg = not (is_option arg) && ends_in_cvm arg

or_true : (b : Bool) → (b || true) ≡ true
or_true true = refl
or_true false = refl

or_false : (b : Bool) → (b || false) ≡ b
or_false true = refl
or_false false = refl

other_length : (m n : Name) → length m ≢ length n → name_eq m n ≡ false
other_length m n h = elim (Bool-cases (name_eq m n)) [
  | inr e ↦ e
  | inl e ↦ absurd (h (ap length (name_eq→eq m n e)))
]

too_short : (arg : Name) → length arg < 4 → ends_in_cvm arg ≡ false
unfolding ends_in_cvm
too_short [] h = refl
too_short (c ∷ arg) h = rw (
  other_length (c ∷ arg) (codes ".cvm") (λ e. absurd (omega (arith, e))),
  too_short arg (omega arith),
)

-- how many bytes there are behind the first
data Size (n : ℕ) : Type 0 where
  few : n < 3 → Size n
  exact : n ≡ 3 → Size n
  many : 4 ≤ n → Size n

size : (n : ℕ) → Size n
size zero = few (omega arith)
size (suc zero) = few (omega arith)
size (suc (suc zero)) = few (omega arith)
size (suc (suc (suc zero))) = exact refl
size (suc (suc (suc (suc n)))) = many (omega arith)

-- The two tests of the source, on the length and on the end, are the one on the end.
is_cvm-ends_in_cvm : (arg : Name) → is_cvm arg ≡ ends_in_cvm arg
unfolding ends_in_cvm
is_cvm-ends_in_cvm [] = refl
is_cvm-ends_in_cvm (c ∷ arg) = elim (size (length arg)) [
  | few h ↦
      let long : ltb 3 (suc (length arg)) ≡ false = le→ltb_false _ _ (omega arith) in
      rw (too_short (c ∷ arg) (omega arith), long)
  | exact h ↦
      let long : ltb 3 (suc (length arg)) ≡ true = lt→ltb _ _ (omega arith) in
      let at : suc (length arg) - 4 ≡ 0 = omega arith in
      rw (too_short arg (omega arith), or_false (name_eq (c ∷ arg) (codes ".cvm")), long, at)
  | many h ↦
      let long : ltb 3 (suc (length arg)) ≡ true = lt→ltb _ _ (omega arith) in
      let longer : ltb 3 (length arg) ≡ true = lt→ltb _ _ (omega arith) in
      let at : suc (length arg) - 4 ≡ suc (length arg - 4) = omega arith in
      let other = other_length (c ∷ arg) (codes ".cvm") (λ e. absurd (omega (arith, e))) in
      rw (other, ← is_cvm-ends_in_cvm arg, long, longer, at)
]

-- the last source file on the command line, or a name before it
abbrev pub last_source : Name → List Name → Name
last_source before [] = before
last_source before (arg ∷ argv) = last_source (if is_source arg then arg else before) argv

-- No argument is empty, and none asks for the usage.
abbrev pub IsPlain : List Name → Type 0
IsPlain [] = Unit
IsPlain (arg ∷ argv) =
    ((length arg == 0) ≡ false) × (name_eq arg (codes "-h") ≡ false) × IsPlain argv

-- what a command line says, behind options that were read before
abbrev pub described : CvmConfig → List Name → CvmConfig
described c argv = record {
  filename = last_source c.filename argv;
  dump_bytecode = c.dump_bytecode || has (codes "-d") argv;
  dump_binary = c.dump_binary || has (codes "-b") argv;
  use_asm = c.use_asm || has (codes "-f") argv;
}

-- the options behind one more argument
abbrev after : CvmConfig → Name → CvmConfig
after c arg = record {
  filename = if is_source arg then arg else c.filename;
  dump_bytecode = c.dump_bytecode || name_eq arg (codes "-d");
  dump_binary = c.dump_binary || name_eq arg (codes "-b");
  use_asm = c.use_asm || name_eq arg (codes "-f");
}

or_assoc : (a b c : Bool) → ((a || b) || c) ≡ (a || (b || c))
or_assoc true b c = refl
or_assoc false b c = refl

-- an argument that is no option is none of the three
not_option : (arg : Name) (x : ℕ) → is_option arg ≡ false → name_eq arg (b'-' ∷ x ∷ []) ≡ false
unfolding name_eq
not_option [] x h = refl
not_option (c ∷ arg) x h = rw h

argument_lem :
    (c : CvmConfig) (arg : Name)
    → (length arg == 0) ≡ false
    → name_eq arg (codes "-h") ≡ false
    → argument c arg ≡ ok (some (after c arg))
unfolding argument name_eq
argument_lem c arg full no_usage = elim (Bool-cases (is_option arg)) [
  | inr e ↦ elim (Bool-cases (ends_in_cvm arg)) [
    | inl source ↦ rw (
      full,
      e,
      is_cvm-ends_in_cvm arg,
      source,
      not_option arg b'd' e,
      not_option arg b'b' e,
      not_option arg b'f' e,
      or_false c.dump_bytecode,
      or_false c.dump_binary,
      or_false c.use_asm,
    )
    | inr other ↦ rw (
      full,
      e,
      is_cvm-ends_in_cvm arg,
      other,
      not_option arg b'd' e,
      not_option arg b'b' e,
      not_option arg b'f' e,
      or_false c.dump_bytecode,
      or_false c.dump_binary,
      or_false c.use_asm,
    )
  ]
  | inl e ↦ elim (Bool-cases (name_eq arg (codes "-d"))) [
    | inl d ↦ rw (
      name_eq→eq arg (codes "-d") d,
      or_true c.dump_bytecode,
      or_false c.dump_binary,
      or_false c.use_asm,
    )
    | inr no_d ↦ elim (Bool-cases (name_eq arg (codes "-b"))) [
      | inl b ↦ rw (
        name_eq→eq arg (codes "-b") b,
        or_true c.dump_binary,
        or_false c.dump_bytecode,
        or_false c.use_asm,
      )
      | inr no_b ↦ elim (Bool-cases (name_eq arg (codes "-f"))) [
        | inl f ↦ rw (
          name_eq→eq arg (codes "-f") f,
          or_true c.use_asm,
          or_false c.dump_bytecode,
          or_false c.dump_binary,
        )
        | inr no_f ↦ rw (
          full,
          e,
          no_usage,
          no_d,
          no_b,
          no_f,
          or_false c.dump_bytecode,
          or_false c.dump_binary,
          or_false c.use_asm,
        )
      ]
    ]
  ]
]

arguments_lem :
    (argv : List Name) (c : CvmConfig)
    → IsPlain argv
    → arguments c argv ≡ ok (some (described c argv))
unfolding arguments
arguments_lem [] c h = rw (or_false c.dump_bytecode, or_false c.dump_binary, or_false c.use_asm)
arguments_lem (arg ∷ argv) c (full, no_usage, plain) = rw (
  argument_lem c arg full no_usage,
  arguments_lem argv (after c arg) plain,
  or_assoc c.dump_bytecode (name_eq arg (codes "-d")) (has (codes "-d") argv),
  or_assoc c.dump_binary (name_eq arg (codes "-b")) (has (codes "-b") argv),
  or_assoc c.use_asm (name_eq arg (codes "-f")) (has (codes "-f") argv),
)

-- For arguments that are neither empty nor `-h`, the constructor of CVMConfig gives the last of
-- them that begins with no `-` and ends in `.cvm`, which it may be whole, and the flag of `-d` and
-- of `-b` exactly when it is among them; that of `-f` also when the junk that it began with was
-- set. Where no argument is such a file, it panics.
pub new_config_lem :
    (junk : Bool) (argv : List Name)
    → IsPlain argv
    → new_config junk argv ≡ (
        if length (last_source [] argv) == 0
        then panicked please_specify_a_cvm_file
        else ok (some (described (initial_config junk) argv)))
unfolding new_config
new_config_lem junk argv plain = rw (arguments_lem argv (initial_config junk) plain)
