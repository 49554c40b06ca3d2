-- ===== src/Correct/Fetch.antt =====
-- Reading code where the program counter of src/bytecodeinterpreter.cpp stands, and runs of rounds of
-- its loop.
use Prim.Native.Nat.add
use core_vm.Base.{
  ℕ, zero, suc, ◌+◌, ◌^◌, ◌<◌, ◌≡◌, refl, ap, true, List, [], ◌∷◌, ◌++◌, some, arith, length,
  length-append, drop, drop-length-append, le_bytes, length-le_bytes, le_value-le_bytes, read_le,
  lt→ltb,
}
use core_vm.Base.Outcome.{ok}
use core_vm.OpCode.{OpCode, code, of_code-code, code-lt}
use core_vm.Ir.Code.{op_bytes}
use core_vm.Fpu.{Fpu}
use core_vm.Interpreter.{Machine, dispatch, exec, turn, run}

-- the code from the program counter on
abbrev pub Ahead : Machine → List ℕ → Type 0
Ahead m bytes = drop m.pc m.code_buf ≡ bytes

drop-add {ℓ} : {A : Type ℓ} (n k : ℕ) (xs : List A) → drop (n + k) xs ≡ drop k (drop n xs)
drop-add zero k xs = let e : 0 + k ≡ k = omega arith in ap (λ i. drop i xs) e
drop-add (suc n) zero xs = let e : suc n + 0 ≡ suc n = omega arith in ap (λ i. drop i xs) e
drop-add (suc n) (suc k) [] = rw add.suc
drop-add (suc n) (suc k) (x ∷ xs) = rw add.suc (drop-add n (suc k) xs)

drop-lt {ℓ} :
    {A : Type ℓ} (n : ℕ) (xs : List A) {y : A} {ys : List A} → drop n xs ≡ y ∷ ys → n < length xs
drop-lt zero [] e = cc
drop-lt zero (x ∷ xs) e = omega arith
drop-lt (suc n) [] e = cc
drop-lt (suc n) (x ∷ xs) e = omega (arith, drop-lt n xs e)

-- Past what was ahead lies the rest.
pub Ahead-drop :
    (m : Machine) (xs rest : List ℕ) (n : ℕ)
    → length xs ≡ n
    → Ahead m (xs ++ rest)
    → drop (m.pc + n) m.code_buf ≡ rest
Ahead-drop m xs rest n e h = rw (drop-add m.pc n m.code_buf, h, ← e) (drop-length-append xs rest)

pub Ahead-next :
    (m m' : Machine) (xs rest : List ℕ) (n : ℕ)
    → m'.code_buf ≡ m.code_buf
    → m'.pc ≡ m.pc + n
    → length xs ≡ n
    → Ahead m (xs ++ rest)
    → Ahead m' rest
Ahead-next m m' xs rest n same pc size ahead = rw (same, pc) (Ahead-drop m xs rest n size ahead)

pub length-op_bytes : (op : OpCode) → length (op_bytes op) ≡ 2
length-op_bytes op = length-le_bytes 2 (code op)

pub length-operand : (op : OpCode) (n v : ℕ) → length (op_bytes op ++ le_bytes n v) ≡ 2 + n
length-operand op n v =
    omega
      (arith, length-append (op_bytes op) (le_bytes n v), length-op_bytes op, length-le_bytes n v)

-- A number of `n` bytes that is ahead is read.
pub read-Ahead :
    (m : Machine) (n v : ℕ) (rest : List ℕ)
    → v < 256 ^ n
    → Ahead m (le_bytes n v ++ rest)
    → read_le n m.code_buf m.pc ≡ some v
unfolding read_le
read-Ahead m n v rest small h = rw h (le_value-le_bytes n v rest small)

-- So is an operand, behind the two bytes of an operation code.
pub operand-Ahead :
    (m : Machine) (op : OpCode) (n v : ℕ) (rest : List ℕ)
    → v < 256 ^ n
    → Ahead m (op_bytes op ++ (le_bytes n v ++ rest))
    → read_le n m.code_buf (m.pc + 2) ≡ some v
unfolding read_le
operand-Ahead m op n v rest small h =
    rw (Ahead-drop m (op_bytes op) (le_bytes n v ++ rest) 2 (length-le_bytes 2 (code op)) h)
      (le_value-le_bytes n v rest small)

pub pc-lt_of_Ahead :
    (m : Machine) (op : OpCode) (rest : List ℕ)
    → Ahead m (op_bytes op ++ rest)
    → m.pc < length m.code_buf
unfolding le_bytes
pc-lt_of_Ahead m op rest h = drop-lt m.pc m.code_buf h

module _ (fpu : Fpu) where
  -- A round of the loop executes the operation code that is ahead.
  pub turn-exec :
      (m : Machine) (op : OpCode) (rest : List ℕ)
      → Ahead m (op_bytes op ++ rest)
      → turn fpu m ≡ exec fpu (code op) op m
  unfolding turn
  turn-exec m op rest h =
      rw (read-Ahead m 2 (code op) rest (omega (arith, code-lt op)) h)
        (ap (λ o. dispatch fpu (code op) o m) (of_code-code op))

  -- rounds of the loop, one after the other
  pub data Steps : Machine → Machine → Type 0 where
    here : {m : Machine} → Steps m m
    next :
        {l m n : Machine}
        → l.pc < length l.code_buf
        → turn fpu l ≡ ok (m, true)
        → Steps m n
        → Steps l n

  pub Steps-trans : {l m n : Machine} → Steps l m → Steps m n → Steps l n
  Steps-trans here t = t
  Steps-trans (next inside e s) t = next inside e (Steps-trans s t)

  -- What `Run` gives after some rounds it gives before them, on more fuel.
  pub Steps-run : {l m : Machine} → Steps l m → (f : ℕ) → (g : ℕ) × (run fpu g l ≡ run fpu f m)
  unfolding run
  Steps-run here f = (f, refl)
  Steps-run (next inside e s) f =
      let (g, same) = Steps-run s f in (suc g, rw (lt→ltb _ _ inside, e) same)
