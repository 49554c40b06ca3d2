-- ===== src/Assembler/Refined.antt =====
-- The memory of src/include/assembler.h against the list of the bytes written.
use core_vm.Base.{
  if◌then◌else◌, ◌^◌, ℕ, zero, suc, ◌+◌, ◌*◌, ◌<◌, ◌≤◌, ◌≡◌, refl, ap, List, ◌++◌, some, ltb, leb,
  length, length-append, drop, le_bytes, length-le_bytes, arith, Bool-cases, inl, inr, ltb→lt,
  le→ltb_false, take-length-append, lt→ltb, overwritten-append, length-drop_add, overwritten,
}
use core_vm.Base.Outcome.{undefined, ◌>>◌, assert, Outcome, ok, aborted}
use core_vm.Assembler.{CvmAssembler, int_limit, grow, write_stream, assert, new_assembler, false}
use core_vm.Assembler.RoundUp.{round_up_lem}
use core_vm.Assembler.Memory.{Memory, allocated, copied, grow_memory, write_memory, new_memory}

-- The bytes before the cursor are those that were written; behind them the block is as it may be.
pub record Represents (a : CvmAssembler) (m : Memory) : Type 0 where
  pub block : List ℕ
  pub rest : List ℕ
  pub stands : m.code ≡ some block
  pub bytes : block ≡ a.code ++ rest
  pub written : length a.code ≡ a.pos
  pub cursor : m.pos ≡ a.pos
  pub room : m.capacity ≡ a.capacity
  pub whole : length block ≡ a.capacity

-- Both write, or both fail an assertion.
abbrev pub Agrees : Outcome CvmAssembler → Outcome Memory → Type 0
Agrees (ok a) (ok m) = Represents a m
Agrees aborted aborted = Unit
Agrees _ _ = ⊥

length-allocated : (junk : ℕ → ℕ) (n : ℕ) → length (allocated junk n) ≡ n
length-allocated junk zero = refl
length-allocated junk (suc n) = ap suc (length-allocated junk n)

-- A block that holds the bytes written, and as many more as there is room for.
record Holds (a : CvmAssembler) (capacity : ℕ) (block : List ℕ) : Type 0 where
  rest : List ℕ
  bytes : block ≡ a.code ++ rest
  whole : length block ≡ capacity

module _ (n v : ℕ) (a : CvmAssembler) (written : length a.code ≡ a.pos) where
  -- the list and the memory behind a write
  abbrev listed : ℕ → CvmAssembler
  listed capacity = record { code = a.code ++ le_bytes n v; pos = a.pos + n; capacity = capacity }

  abbrev stored : ℕ → List ℕ → Memory
  stored capacity block = record {
    code = some (overwritten a.pos (le_bytes n v) block);
    pos = a.pos + n;
    capacity = capacity;
  }

  -- what is written fits behind the cursor
  fits_rest :
      (capacity : ℕ) (block : List ℕ) (holds : Holds a capacity block)
      → a.pos + n < capacity
      → length (le_bytes n v) ≤ length holds.rest
  fits_rest capacity block holds fits = omega (
    arith,
    ap length holds.bytes,
    holds.whole,
    length-append a.code holds.rest,
    length-le_bytes n v,
    written,
  )

  overwritten-Holds :
      (capacity : ℕ) (block : List ℕ)
      → Holds a capacity block
      → a.pos + n < capacity
      → Holds (listed capacity) capacity (overwritten a.pos (le_bytes n v) block)
  overwritten-Holds capacity block holds fits =
      let bytes : overwritten a.pos (le_bytes n v) block
          ≡ (a.code ++ le_bytes n v) ++ drop (length (le_bytes n v)) holds.rest =
        rw (← written, holds.bytes) (overwritten-append a.code holds.rest (le_bytes n v)) in
      record {
        rest = drop (length (le_bytes n v)) holds.rest;
        bytes = bytes;
        whole = rw bytes (
            omega (
              arith,
              length-append (a.code ++ le_bytes n v) (drop (length (le_bytes n v)) holds.rest),
              length-append a.code (le_bytes n v),
              ap length holds.bytes,
              holds.whole,
              length-append a.code holds.rest,
              length-drop_add holds.rest (length (le_bytes n v))
                  (fits_rest capacity block holds fits),
            ));
      }

  -- the write behind the growth
  finish :
      (capacity : ℕ) (block : List ℕ)
      → Holds a capacity block
      → Agrees (assert (ltb (a.pos + n) capacity) >> ok (listed capacity)) (
          assert (ltb (a.pos + n) capacity)
          >> (if ltb (length block) (a.pos + n) then undefined else ok (stored capacity block)))
  finish capacity block holds = elim (Bool-cases (ltb (a.pos + n) capacity)) [
    | inl e ↦
        let held = overwritten-Holds capacity block holds (ltb→lt _ _ e) in
        let room : ltb (length block) (a.pos + n) ≡ false =
          le→ltb_false _ _ (omega (arith, holds.whole, ltb→lt _ _ e)) in
        rw (e, room)
          (record {
            block = overwritten a.pos (le_bytes n v) block;
            rest = held.rest;
            stands = refl;
            bytes = held.bytes;
            written = omega (arith, length-append a.code (le_bytes n v), length-le_bytes n v);
            cursor = refl;
            room = refl;
            whole = held.whole;
          })
    | inr e ↦ rw e tt
  ]

  -- the block behind the growth holds what was written
  grown :
      (junk : ℕ → ℕ) (capacity : ℕ) (block : List ℕ)
      → Holds a capacity block
      → Holds a (capacity * 2) (copied a.pos block (allocated junk (capacity * 2)))
  grown junk capacity block holds =
      let room : length (allocated junk (capacity * 2)) ≡ capacity * 2 =
        length-allocated junk (capacity * 2) in
      let fits : length a.code ≤ capacity =
        omega (arith, ap length holds.bytes, holds.whole, length-append a.code holds.rest) in
      let bytes : copied a.pos block (allocated junk (capacity * 2))
          ≡ a.code ++ drop a.pos (allocated junk (capacity * 2)) =
        rw (← written, holds.bytes, take-length-append a.code holds.rest) in
      record {
        rest = drop a.pos (allocated junk (capacity * 2));
        bytes = bytes;
        whole = rw bytes (
            omega (
              arith,
              length-append a.code (drop a.pos (allocated junk (capacity * 2))),
              length-drop_add (allocated junk (capacity * 2)) a.pos (omega arith),
            ));
      }

-- WriteStream on the memory writes the bytes of the value behind those written, moves the cursor
-- and doubles the block exactly as it does on the list of the bytes, or fails an assertion exactly
-- where that does, whatever the new memory holds; it accesses nothing outside of a block.
pub write_memory-Agrees :
    (junk : ℕ → ℕ → ℕ) (n v : ℕ) (a : CvmAssembler) (m : Memory)
    → Represents a m
    → Agrees (write_stream n v a) (write_memory junk n v m)
unfolding write_stream grow write_memory grow_memory
write_memory-Agrees junk n v a m rep =
    let holds : Holds a a.capacity rep.block = record {
      rest = rep.rest;
      bytes = rep.bytes;
      whole = rep.whole;
    } in
    rw (rep.stands, rep.cursor, rep.room)
      (elim (Bool-cases (leb a.capacity (a.pos + n))) [
        | inr e ↦ rw e (finish n v a rep.written a.capacity rep.block holds)
        | inl e ↦ rw e (elim (Bool-cases (ltb (a.capacity * 2) int_limit)) [
          | inr large ↦ rw large tt
          | inl small ↦
              let fits : a.pos ≤ length rep.block =
                omega (arith, ap length rep.bytes, length-append a.code rep.rest, rep.written) in
              rw (small, le→ltb_false (length rep.block) a.pos fits)
                (finish n v a rep.written (a.capacity * 2)
                  (copied a.pos rep.block (allocated (junk a.capacity) (a.capacity * 2)))
                  (grown n v a rep.written (junk a.capacity) a.capacity rep.block holds))
        ])
      ])

-- The constructors agree, where more than one byte is asked for.
pub new_memory-Agrees :
    (junk : ℕ → ℕ) (capacity : ℕ)
    → 1 < capacity
    → capacity ≤ 2 ^ 30
    → Agrees (new_assembler capacity) (new_memory junk capacity)
unfolding new_assembler new_memory
new_memory-Agrees junk capacity large small =
    let (j, rounded, above, _) = round_up_lem capacity (omega arith) small in
    rw (lt→ltb 0 capacity (omega arith), rounded, lt→ltb 1 (2 ^ j) (omega arith))
      (record {
        block = allocated junk (2 ^ j);
        rest = allocated junk (2 ^ j);
        stands = refl;
        bytes = refl;
        written = refl;
        cursor = refl;
        room = refl;
        whole = length-allocated junk (2 ^ j);
      })
