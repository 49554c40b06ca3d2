-- ===== src/Adt/Balance.antt =====
-- What one call of a member of CoreVMADT in src/lexer.cpp does to the blocks and their owners.
use core_vm.Base.{
  ℕ, suc, ◌+◌, ◌≤◌, ◌≡◌, ◌≢◌, refl, true, false, ◌&&◌, [], ◌∷◌, none, some, ◌==◌, if◌then◌else◌,
  length, set, arith, Bool-cases, inl, inr, ◌++◌,
}
use core_vm.Base.Outcome.{ok}
use core_vm.Types.{Name}
use core_vm.Adt.{SymbolType, is_string}
use core_vm.Adt.Objects.{
  Blocks, delete, Object, copy_construct, moved_from, destruct, object, State, Member, value,
  string, literal, copy, move, destroy, assign, move_assign, push, step,
}
use core_vm.Adt.Owners.{
  owns, owners, owners-push, owners-set-some, owners-set-none, live, live-new, live→block,
  delete-live, object-set,
}

-- A block has at most one owner, and none when it is not allocated.
abbrev pub IsOwned : State → Type 0
IsOwned s = (a : ℕ) → a ≢ 0 → owners a s.objects ≤ live a s.blocks

-- the object at a place, and one whose string can be copied: it was not moved from
abbrev pub Stands : State → ℕ → Object → Type 0
Stands s i o = object s.objects i ≡ some o

abbrev pub Full : Object → Type 0
Full o = is_string o.tag ≡ true → o.lval ≢ 0

-- A plain value has no block. The objects that a member uses stand; what is copied was not moved from; and no string is copied onto
-- itself.
abbrev pub Allowed : Member → State → Type 0
Allowed (value tag v) s = (is_string tag ≡ false) × (tag ≢ SymbolType.string_var)
Allowed (string text) s = Unit
Allowed (literal text) s = Unit
Allowed (copy i) s = (o : Object) × Stands s i o × Full o
Allowed (move i) s = (o : Object) × Stands s i o
Allowed (destroy i) s = (o : Object) × Stands s i o
Allowed (assign i j) s =
    (this : Object) × (o : Object) × Stands s i this
    × Stands s j o
    × Full o
    × ((i == j && is_string o.tag) ≡ false)
Allowed (move_assign i j) s = (this : Object) × (o : Object) × Stands s i this × Stands s j o

-- What a member leaves allocated without an owner: an assignment the string that its object had, and the
-- constructor of a literal its new block, which no destructor frees.
abbrev pub dropped : ℕ → Member → State → ℕ
dropped a (assign i j) s = elim (object s.objects i) [ none ↦ 0 | some o ↦ owns a o ]
dropped a (move_assign i j) s = elim (object s.objects i) [ none ↦ 0 | some o ↦ owns a o ]
dropped a (literal text) s = if a == suc (length s.blocks) then 1 else 0
dropped a _ s = 0

-- Owners and allocated blocks go up and down together, but for what is left without an owner.
abbrev pub Balanced : Member → State → State → Type 0
Balanced m s s' =
    (a : ℕ)
    → a ≢ 0
    → owners a s'.objects + live a s.blocks + dropped a m s ≡ owners a s.objects + live a s'.blocks

-- a new block, and the object that has it
new_owner :
    (a : ℕ) (tag : SymbolType) (blocks : Blocks) (text : Name)
    → is_string tag ≡ true
    → live a (blocks ++ (some text ∷ []))
      ≡ live a blocks + owns a (record { tag = tag; lval = suc (length blocks) })
new_owner a tag blocks text h = ground (arith, live-new a text blocks)

-- An object that stands is among the owners of its block, which is then allocated.
owns-owners :
    (a : ℕ) (s : State) (i : ℕ) (o : Object) → Stands s i o → owns a o ≤ owners a s.objects
owns-owners a s i o h = omega (arith, owners-set-none a s.objects i o h)

owns-string :
    (a : ℕ) (o : Object) → is_string o.tag ≡ true → owns a o ≡ (if o.lval == a then 1 else 0)
owns-string a o e = rw e

owns-moved_from : (a : ℕ) (o : Object) → a ≢ 0 → owns a (moved_from o) ≡ 0
owns-moved_from a o full = elim (Bool-cases (is_string o.tag)) [
  | inl e ↦ rw e (ground arith)
  | inr e ↦ rw e (rw e)
]

owns_self : (o : Object) → is_string o.tag ≡ true → owns o.lval o ≡ 1
owns_self o e = ground arith

allocated :
    (s : State) (i : ℕ) (o : Object)
    → IsOwned s
    → Stands s i o
    → is_string o.tag ≡ true
    → o.lval ≢ 0
    → 1 ≤ live o.lval s.blocks
allocated s i o owned stands e full =
    omega (arith, owned o.lval full, owns-owners o.lval s i o stands, owns_self o e)

-- what the copy constructor makes: an object, with a block of its own for a string
Copied : Object → State → Type 0
Copied o s =
    (o' : Object) × (blocks' : Blocks) × (copy_construct o s.blocks ≡ ok (o', blocks'))
    × ((a : ℕ) → a ≢ 0 → live a blocks' ≡ live a s.blocks + owns a o')

copy_construct-Copied :
    (s : State) (i : ℕ) (o : Object) → IsOwned s → Stands s i o → Full o → Copied o s
unfolding copy_construct Copied
copy_construct-Copied s i o owned stands full = elim (Bool-cases (is_string o.tag)) [
  | inl e ↦
      let (text, found) = live→block o.lval s.blocks (allocated s i o owned stands e (full e)) in
      (
        record { tag = o.tag; lval = suc (length s.blocks) },
        s.blocks ++ (some text ∷ []),
        rw (e, found),
        λ a _. new_owner a o.tag s.blocks text e,
      )
  | inr e ↦ (o, s.blocks, rw e, λ a _. ground arith)
]

-- the destructor frees the block that its object owns
Freed : Object → State → Type 0
Freed o s =
    (blocks' : Blocks) × (destruct o s.blocks ≡ ok blocks')
    × ((a : ℕ) → a ≢ 0 → live a s.blocks ≡ live a blocks' + owns a o)

destruct-Freed : (s : State) (i : ℕ) (o : Object) → IsOwned s → Stands s i o → Freed o s
unfolding destruct delete Freed
destruct-Freed s i o owned stands = elim (Bool-cases (is_string o.tag)) [
  | inl e ↦
      let (blocks', freed, others) = delete-live o.lval s.blocks (allocated s i o owned stands e) in
      (blocks', rw (e, freed), λ a full. omega (arith, others a full, owns-string a o e))
  | inr e ↦ (s.blocks, rw e, λ a _. ground arith)
]

-- what one member does, where it is allowed
abbrev pub Goes : Member → State → Type 0
Goes m s = (s' : State) × (step m s ≡ ok s') × Balanced m s s'

pub step-Goes : (m : Member) (s : State) → IsOwned s → Allowed m s → Goes m s
unfolding step Copied Freed
step-Goes (value tag v) s owned h =
    (_, refl, λ a full. ground (arith, owners-push a (record { tag = tag; lval = v }) s.objects))
step-Goes (string text) s owned h = (
  _,
  refl,
  λ a full. omega (
    arith,
    owners-push a (record { tag = SymbolType.string; lval = suc (length s.blocks) }) s.objects,
    new_owner a SymbolType.string s.blocks text refl,
  ),
)
step-Goes (literal text) s owned h = (
  _,
  refl,
  λ a full. omega (
    arith,
    owners-push a (record { tag = SymbolType.string_var; lval = suc (length s.blocks) }) s.objects,
    live-new a text s.blocks,
  ),
)
step-Goes (copy i) s owned (o, stands, full) =
    let (o', blocks', copied, others) = copy_construct-Copied s i o owned stands full in
    (
      record { objects = push o' s.objects; blocks = blocks' },
      rw (stands, copied),
      λ a a_full. omega (arith, owners-push a o' s.objects, others a a_full),
    )
step-Goes (move i) s owned (o, stands) = (
  record s { objects = push o (set s.objects i (some (moved_from o))) },
  rw stands,
  λ a full. omega (
    arith,
    owners-push a o (set s.objects i (some (moved_from o))),
    owners-set-some a s.objects i o (moved_from o) stands,
    owns-moved_from a o full,
  ),
)
step-Goes (destroy i) s owned (o, stands) =
    let (blocks', freed, others) = destruct-Freed s i o owned stands in
    (
      record { objects = set s.objects i none; blocks = blocks' },
      rw (stands, freed),
      λ a full. omega (arith, owners-set-none a s.objects i o stands, others a full),
    )
step-Goes (assign i j) s owned (this, o, stands, stands', full, apart) =
    let (o', blocks', copied, others) = copy_construct-Copied s j o owned stands' full in
    (
      record { objects = set s.objects i (some o'); blocks = blocks' },
      rw (stands, stands', apart, copied),
      λ a a_full.
          rw (stands, dropped)
            (omega (arith, owners-set-some a s.objects i this o' stands, others a a_full)),
    )
step-Goes (move_assign i j) s owned (this, o, stands, stands') =
    let second = object-set s.objects i j this o stands stands' in
    (
      record s { objects = set (set s.objects i (some o)) j (some (moved_from o)) },
      rw (stands, stands'),
      λ a full.
          rw (stands, dropped)
            (omega (
              arith,
              owners-set-some a s.objects i this o stands,
              owners-set-some a (set s.objects i (some o)) j o (moved_from o) second,
              owns-moved_from a o full,
            )),
    )
