-- ===== src/Assembler/ReadBack.antt =====
-- Values that WriteStream of src/include/assembler.h has written, read back by ReadStream behind a Reset.
use core_vm.Base.{
  ℕ, ◌+◌, ◌^◌, ◌<◌, ◌≤◌, ◌≡◌, refl, ap, ◌∙◌, sym, List, [], ◌∷◌, ◌++◌, append_assoc, append-nil,
  some, length, length-append, le_bytes, length-le_bytes, read_le, read_le-at, arith, le→leb,
}
use core_vm.Base.Outcome.{Outcome, ok, ◌>>=◌}
use core_vm.Assembler.{CvmAssembler}
use core_vm.Assembler.Bounds.{IsValid, write_stream_lem}
use core_vm.Assembler.Memory.{Memory, write_memory, read_memory, reset_memory}
use core_vm.Assembler.Refined.{Represents, Agrees, write_memory-Agrees}

-- values with the number of bytes of their types
abbrev pub Items : Type 0
Items = List (ℕ × ℕ)

abbrev pub sizes : Items → List ℕ
sizes [] = []
sizes ((n, v) ∷ is) = n ∷ sizes is

abbrev pub values : Items → List ℕ
values [] = []
values ((n, v) ∷ is) = v ∷ values is

abbrev pub total : Items → ℕ
total [] = 0
total ((n, v) ∷ is) = n + total is

-- Types have at most 8 bytes, and the values fit.
abbrev pub AllFit : Items → Type 0
AllFit [] = Unit
AllFit ((n, v) ∷ is) = (n ≤ 8) × (v < 256 ^ n) × AllFit is

abbrev pub write_all : (ℕ → ℕ → ℕ) → Items → Memory → Outcome Memory
write_all junk [] m = ok m
write_all junk ((n, v) ∷ is) m = do m ← write_memory junk n v m; write_all junk is m

abbrev pub read_all : List ℕ → Memory → Outcome (List ℕ × Memory)
read_all [] m = ok ([], m)
read_all (n ∷ ns) m = do (v, m) ← read_memory n m; (vs, m) ← read_all ns m; ok (v ∷ vs, m)

abbrev bytes_of : Items → List ℕ
bytes_of [] = []
bytes_of ((n, v) ∷ is) = le_bytes n v ++ bytes_of is

length-bytes_of : (is : Items) → length (bytes_of is) ≡ total is
length-bytes_of [] = refl
length-bytes_of ((n, v) ∷ is) =
    omega
      (arith, length-append (le_bytes n v) (bytes_of is), length-le_bytes n v, length-bytes_of is)

Agrees-ok :
    (r : Outcome Memory) (a : CvmAssembler)
    → Agrees (ok a) r
    → (m : Memory) × (r ≡ ok m) × Represents a m
Agrees-ok (ok m) a h = (m, refl, h)
Agrees-ok _ a h = absurd h

-- what stands in the memory behind the writes
abbrev Written : CvmAssembler → Items → Outcome Memory → Type 0
Written a is r =
    (b : CvmAssembler) × (m : Memory) × (r ≡ ok m)
    × Represents b m
    × IsValid b
    × (b.code ≡ a.code ++ bytes_of is)

write_all-Written :
    (junk : ℕ → ℕ → ℕ) (is : Items) (a : CvmAssembler) (m : Memory)
    → IsValid a
    → Represents a m
    → AllFit is
    → a.pos + total is < 2 ^ 30
    → Written a is (write_all junk is m)
write_all-Written junk [] a m valid rep fit small =
    (a, m, refl, rep, valid, sym (append-nil a.code))
write_all-Written junk ((n, v) ∷ is) a m valid rep (few, _, fit) small =
    let (b, listed, code, valid', _) = write_stream_lem n v a valid few (omega arith) in
    let (m', stored, rep') =
      Agrees-ok (write_memory junk n v m) b (rw listed at (write_memory-Agrees junk n v a m rep)) in
    let (c, m'', stored', rep'', valid'', code') = write_all-Written junk is b m' valid' rep' fit (
      omega (
        arith,
        small,
        ap length code,
        valid'.written,
        valid.written,
        length-append a.code (le_bytes n v),
        length-le_bytes n v,
      )) in
    (
      c,
      m'',
      rw stored stored',
      rep'',
      valid'',
      code' ∙ (rw code (append_assoc a.code (le_bytes n v) (bytes_of is))),
    )

read_memory_lem :
    (n v pos : ℕ) (m : Memory) (block : List ℕ)
    → m.code ≡ some block
    → read_le n block pos ≡ some v
    → pos + n ≤ m.capacity
    → read_memory n (record m { pos = pos }) ≡ ok (v, record m { pos = pos + n })
unfolding read_memory
read_memory_lem n v pos m block stands found room =
    rw (le→leb (pos + n) m.capacity room, stands, found)

-- the reads of the values that stand behind the cursor
read_all_lem :
    (is : Items) (m : Memory) (before block after : List ℕ)
    → m.code ≡ some block
    → block ≡ before ++ (bytes_of is ++ after)
    → length before + total is ≤ m.capacity
    → AllFit is
    → read_all (sizes is) (record m { pos = length before })
      ≡ ok (values is, record m { pos = length before + total is })
read_all_lem [] m before block after stands bytes room fit =
    let stay : length before ≡ length before + 0 = omega arith in
    ap (λ (p : ℕ). ok ([], record m { pos = p })) stay
read_all_lem ((n, v) ∷ is) m before block after stands bytes room (few, small, fit) =
    let behind : length before + n ≡ length (before ++ le_bytes n v) =
      omega (arith, length-append before (le_bytes n v), length-le_bytes n v) in
    let end : length (before ++ le_bytes n v) + total is ≡ length before + (n + total is) =
      omega arith in
    let parts : block ≡ before ++ (le_bytes n v ++ (bytes_of is ++ after)) =
      bytes
      ∙ ap (λ (bs : List ℕ). before ++ bs) (append_assoc (le_bytes n v) (bytes_of is) after) in
    let parts' : block ≡ (before ++ le_bytes n v) ++ (bytes_of is ++ after) =
      parts ∙ sym (append_assoc before (le_bytes n v) (bytes_of is ++ after)) in
    let found : read_le n block (length before) ≡ some v =
      rw parts (read_le-at n v before (bytes_of is ++ after) small) in
    rw (
      read_memory_lem n v (length before) m block stands found (omega arith),
      behind,
      read_all_lem is m (before ++ le_bytes n v) block after stands parts' (omega arith) fit,
      end,
    )

-- Values of at most 8 bytes each, written one after the other into a valid buffer, which they do
-- not make longer than 2 ^ 30 bytes, fail no assertion; and after a Reset to the place where the
-- first was written they are read back, and the cursor stands where the writes left it. The memory
-- that the buffer is moved to on the way may hold anything.
pub write_all-read_all :
    (junk : ℕ → ℕ → ℕ) (is : Items) (a : CvmAssembler) (m : Memory)
    → IsValid a
    → Represents a m
    → AllFit is
    → a.pos + total is < 2 ^ 30
    → (m' : Memory) × (write_all junk is m ≡ ok m')
      × (read_all (sizes is) (reset_memory m.pos m') ≡ ok (values is, m'))
unfolding reset_memory
write_all-read_all junk is a m valid rep fit small =
    let (b, m', stored, rep', valid', code) = write_all-Written junk is a m valid rep fit small in
    (
      m',
      stored,
      (let length_code : length b.code ≡ length a.code + total is =
            omega (arith, ap length code, length-append a.code (bytes_of is), length-bytes_of is) in
          let back : m.pos ≡ length a.code = omega (arith, rep.cursor, rep.written) in
          let end : length a.code + total is ≡ m'.pos =
            omega (arith, rep'.cursor, rep'.written, length_code) in
          let room : length a.code + total is ≤ m'.capacity =
            omega (arith, rep'.room, valid'.inside, valid'.written, length_code) in
          let bytes : rep'.block ≡ a.code ++ (bytes_of is ++ rep'.rest) =
            rep'.bytes ∙ (rw code (append_assoc a.code (bytes_of is) rep'.rest)) in
          rw back (read_all_lem is m' a.code rep'.block rep'.rest rep'.stands bytes room fit)
          ∙ ap (λ (p : ℕ). ok (values is, record m' { pos = p })) end),
    )
