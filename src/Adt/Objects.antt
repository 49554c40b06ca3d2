-- ===== src/Adt/Objects.antt =====
-- The special members of CoreVMADT in src/lexer.cpp, on the objects and the blocks of memory that they
-- share: what `new char[]` and `delete[]` do, and which object has which block.
use core_vm.Base.{
  ℕ, zero, suc, ◌&&◌, List, [], ◌∷◌, ◌++◌, Option, none, some, ◌==◌, if◌then◌else◌, length,
  get_elem?, set,
}
use core_vm.Base.Outcome.{Outcome, ok, undefined, ◌>>=◌, defined}
use core_vm.Types.{Name}
use core_vm.Adt.{SymbolType, is_string}

-- the strings that were allocated, in their order; `none` for one that was freed
abbrev pub Blocks : Type 0
Blocks = List (Option Name)

-- the string at an address; the null pointer is 0, and the first block has the address 1
abbrev pub block : Blocks → ℕ → Option Name
block blocks zero = none
block blocks (suc i) = elim (get_elem? blocks i) [ none ↦ none | some b ↦ b ]

-- `new char[strlen(text) + 1]`, and `strcpy` into it
abbrev pub new_string : Name → Blocks → ℕ × Blocks
new_string text blocks = (suc (length blocks), blocks ++ (some text ∷ []))

-- `delete[]`, which does nothing on a null pointer and is undefined on what is not allocated
unfoldable pub delete : ℕ → Blocks → Outcome Blocks
delete zero blocks = ok blocks
delete (suc i) blocks = elim (block blocks (suc i)) [
  | none ↦ undefined
  | some text ↦ ok (set blocks i none)
]

-- an object: its tag and its union, which for kString is a pointer
pub record Object : Type 0 where
  pub tag : SymbolType
  pub lval : ℕ

-- the copy constructor
unfoldable pub copy_construct : Object → Blocks → Outcome (Object × Blocks)
copy_construct adt blocks =
    if is_string adt.tag
    then (defined (block blocks adt.lval) >>= λ text.
        let (sval, blocks') = new_string text blocks in
        ok (record { tag = adt.tag; lval = sval }, blocks'))
    else ok (adt, blocks)

-- what the move constructor leaves of its argument
abbrev pub moved_from : Object → Object
moved_from adt = if is_string adt.tag then record { tag = adt.tag; lval = 0 } else adt

-- the destructor
unfoldable pub destruct : Object → Blocks → Outcome Blocks
unfolding delete
destruct adt blocks = if is_string adt.tag then delete adt.lval blocks else ok blocks

-- the objects that were made, in their order; `none` for one that was destroyed
abbrev pub Objects : Type 0
Objects = List (Option Object)

abbrev pub object : Objects → ℕ → Option Object
object objects i = elim (get_elem? objects i) [ none ↦ none | some o ↦ o ]

pub record State : Type 0 where
  pub objects : Objects
  pub blocks : Blocks

pub data Member : Type 0 where
  value : SymbolType → ℕ → Member
  string literal : Name → Member
  copy move destroy : ℕ → Member
  assign move_assign : ℕ → ℕ → Member

abbrev pub push : Object → Objects → Objects
push o objects = objects ++ (some o ∷ [])

-- One call of a member. `string` is the constructor for kString with a new block, `literal` that for
-- kStringVar, and `value` one for another tag, whose data is no pointer. The assignments drop what their object had. An object that is assigned to itself copies
-- from the block that it has just allocated, which is undefined.
unfoldable pub step : Member → State → Outcome State
unfolding copy_construct destruct
step (value tag data_) s =
    ok (record s { objects = push (record { tag = tag; lval = data_ }) s.objects })
step (string text) s =
    let (sval, blocks') = new_string text s.blocks in
    ok (record {
      objects = push (record { tag = SymbolType.string; lval = sval }) s.objects;
      blocks = blocks';
    })
step (literal text) s =
    let (sval, blocks') = new_string text s.blocks in
    ok (record {
      objects = push (record { tag = SymbolType.string_var; lval = sval }) s.objects;
      blocks = blocks';
    })
step (copy i) s = do
  adt ← defined (object s.objects i)
  (o, blocks') ← copy_construct adt s.blocks
  ok (record { objects = push o s.objects; blocks = blocks' })
step (move i) s = do
  adt ← defined (object s.objects i)
  ok (record s { objects = push adt (set s.objects i (some (moved_from adt))) })
step (destroy i) s = do
  adt ← defined (object s.objects i)
  blocks' ← destruct adt s.blocks
  ok (record { objects = set s.objects i none; blocks = blocks' })
step (assign i j) s = do
  this ← defined (object s.objects i)
  adt ← defined (object s.objects j)
  if i == j && is_string adt.tag
      then undefined
      else (copy_construct adt s.blocks >>= λ (o, blocks').
          ok (record { objects = set s.objects i (some o); blocks = blocks' }))
step (move_assign i j) s = do
  this ← defined (object s.objects i)
  adt ← defined (object s.objects j)
  ok (record s { objects = set (set s.objects i (some adt)) j (some (moved_from adt)) })

-- the members one after the other
unfoldable pub steps : List Member → State → Outcome State
unfolding step
steps [] s = ok s
steps (m ∷ ms) s = step m s >>= λ s'. steps ms s'
