-- ===== src/Assembler/Bounds.antt =====
-- The capacity and the contents of the buffer of src/include/assembler.h.
use core_vm.Base.{
  ◌^◌, inl, inr, ℕ, ◌+◌, ◌*◌, ◌<◌, ◌≤◌, ◌≡◌, refl, ◌++◌, leb, arith, length, length-append,
  le_bytes, length-le_bytes, Bool-cases, lt→ltb, leb→le,
}
use core_vm.Base.Outcome.{ok}
use core_vm.Assembler.{CvmAssembler, int_limit, grow, write_stream}

-- the cursor stands behind the bytes written and inside the buffer, which holds any single value
pub record IsValid (a : CvmAssembler) : Type 0 where
  pub written : length a.code ≡ a.pos
  pub inside : a.pos < a.capacity
  pub roomy : 8 < a.capacity

-- WriteStream of at most 8 bytes into a valid buffer fails no assertion while the code stays below
-- 2 ^ 30 bytes: it appends the bytes of the value, at most doubles the capacity, and leaves a valid
-- buffer.
pub write_stream_lem :
    (n v : ℕ) (a : CvmAssembler)
    → IsValid a
    → n ≤ 8
    → a.pos + n < 2 ^ 30
    → (b : CvmAssembler) × (write_stream n v a ≡ ok b)
      × (b.code ≡ a.code ++ le_bytes n v)
      × IsValid b
      × (b.capacity ≤ a.capacity * 2)
unfolding write_stream grow
write_stream_lem n v a valid hn ha = elim (Bool-cases (leb a.capacity (a.pos + n))) [
  | inl full ↦ (
    written (a.capacity * 2),
    rw (
      full,
      lt→ltb (a.capacity * 2) int_limit (omega (arith, leb→le _ _ full)),
      lt→ltb (a.pos + n) (a.capacity * 2) (omega arith),
    ),
    refl,
    keeps (a.capacity * 2) (omega arith),
    omega arith,
  )
  | inr fits ↦ (
    written a.capacity,
    rw (fits, lt→ltb (a.pos + n) a.capacity (ground arith)),
    refl,
    keeps a.capacity (ground arith),
    omega arith,
  )
]
  where
    written : ℕ → CvmAssembler
    written c = record { code = a.code ++ le_bytes n v; pos = a.pos + n; capacity = c }

    keeps : (c : ℕ) → (a.pos + n < c) × (8 < c) → IsValid (written c)
    keeps c h = record {
      written = omega (arith, length-append a.code (le_bytes n v), length-le_bytes n v);
      inside = h.0;
      roomy = h.1;
    }
