-- ===== src/Tests/Memory.antt =====
-- The memory of src/include/assembler.h, at concrete inputs.
use core_vm.Base.{◌≡◌, refl, [], ◌∷◌, some, arith}
use core_vm.Base.Outcome.{ok}
use core_vm.Assembler.{CvmAssembler, write_stream}
use core_vm.Assembler.Bounds.{IsValid}
use core_vm.Assembler.Memory.{Memory, allocated, write_memory, reset_memory}
use core_vm.Assembler.Refined.{Represents, Agrees, write_memory-Agrees}
use core_vm.Assembler.ReadBack.{Items, sizes, values, write_all, read_all, write_all-read_all}

abbrev fresh : CvmAssembler
fresh = record { code = []; pos = 0; capacity = 16 }

abbrev fresh_memory : Memory
fresh_memory = record { code = some (allocated (λ i. i) 16); pos = 0; capacity = 16 }

fresh-Represents : Represents fresh fresh_memory
fresh-Represents = record {
  block = allocated (λ i. i) 16;
  rest = allocated (λ i. i) 16;
  stands = refl;
  bytes = refl;
  written = refl;
  cursor = refl;
  room = refl;
  whole = refl;
}

fresh-IsValid : IsValid fresh
fresh-IsValid = record { written = refl; inside = omega arith; roomy = omega arith }

write_memory-Agrees_example :
    Agrees (write_stream 4 1000 fresh) (write_memory (λ c i. i) 4 1000 fresh_memory)
write_memory-Agrees_example =
    write_memory-Agrees (λ c i. i) 4 1000 fresh fresh_memory fresh-Represents

-- three values, of which the last makes the buffer grow
abbrev items : Items
items = (2, 513) ∷ (8, 70000) ∷ (8, 9) ∷ []

write_all-read_all_example :
    (m : Memory) × (write_all (λ c i. i) items fresh_memory ≡ ok m)
    × (read_all (sizes items) (reset_memory 0 m) ≡ ok (values items, m))
write_all-read_all_example =
    write_all-read_all (λ c i. i) items fresh fresh_memory fresh-IsValid fresh-Represents
      (omega arith) (omega arith)
