-- ===== src/Types/Registry.antt =====
-- The static table `CVMType::_type_set`: GetOrCreateType, ContainType, InitIntrinsicType, and the
-- initialisation of `void_op` before `main`.
use core_vm.Base.{◌≡◌, Bool, true, false, ◌||◌, List, [], ◌∷◌, if◌then◌else◌, arith}
use core_vm.Types.{Name, codes, name_eq, find_type, contain_type}

-- Every entry maps a name to the type of that name, so that the table is the list of its keys.
abbrev pub TypeSet : Type 0
TypeSet = List Name

pub contains : TypeSet → Name → Bool
unfolding name_eq
contains [] n = false
contains (k ∷ ks) n = name_eq n k || contains ks n

-- the type that is returned, which is its name, and the table after the call
pub get_or_create_type : Name → TypeSet → Name × TypeSet
unfolding contains
get_or_create_type n ts = if contains ts n then (n, ts) else (n, n ∷ ts)

-- src/types.cpp: the table when `main` starts
pub initial : TypeSet
unfolding get_or_create_type
initial = (get_or_create_type (codes "void") []).1

pub init_intrinsic_type : TypeSet → TypeSet
unfolding get_or_create_type
init_intrinsic_type ts =
    let ts₁ = (get_or_create_type (codes "int") ts).1 in
    let ts₂ = (get_or_create_type (codes "float") ts₁).1 in
    let ts₃ = (get_or_create_type (codes "double") ts₂).1 in
    let ts₄ = (get_or_create_type (codes "long") ts₃).1 in (get_or_create_type (codes "void") ts₄).1

-- After InitCompiler the table contains exactly the names of the five types.
pub contains-init : (n : Name) → contains (init_intrinsic_type initial) n ≡ contain_type n
unfolding init_intrinsic_type initial contain_type find_type contains
contains-init n = ground arith

-- GetOrCreateType of a name that the table has leaves the table as it is.
pub get_or_create_type_known :
    (n : Name) (ts : TypeSet) → contains ts n ≡ true → get_or_create_type n ts ≡ (n, ts)
unfolding get_or_create_type
get_or_create_type_known n ts h = rw h
