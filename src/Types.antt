-- ===== src/Types.antt =====
-- src/include/types.h, src/types.cpp and the members of CVMType in src/parser.cpp: the types of the
-- language, and the table of their names. A name is the list of its bytes.
pub mod Registry
use Prim.Native.Char.{code}
use Prim.Native.String.{String}
use Prim.Native.String
use core_vm.Base.{
  ℕ, ◌≡◌, refl, Bool, true, false, ◌&&◌, List, [], ◌∷◌, Option, none, some, ◌==◌, if◌then◌else◌,
  arith, Bool-cases, inl, ==_iff, inr,
}

abbrev pub Name : Type 0
Name = List ℕ

-- the bytes of an ASCII literal
abbrev pub codes : String → Name
codes String.[] = []
codes (String.◌∷◌ c s) = code c ∷ codes s

-- `==` of std::string
unfoldable pub name_eq : Name → Name → Bool
name_eq [] [] = true
name_eq [] (b ∷ n) = false
name_eq (a ∷ m) [] = false
name_eq (a ∷ m) (b ∷ n) = a == b && name_eq m n

pub name_eq→eq : (m n : Name) → name_eq m n ≡ true → m ≡ n
unfolding name_eq
name_eq→eq [] [] h = refl
name_eq→eq [] (b ∷ n) h = cc
name_eq→eq (a ∷ m) [] h = cc
name_eq→eq (a ∷ m) (b ∷ n) h = elim (Bool-cases (a == b)) [
  | inl e ↦ rw ((==_iff a b).0 e, name_eq→eq m n (rw e at h))
  | inr e ↦ cc (e, h)
]

-- The types that InitIntrinsicType and types.cpp put into the table. `Types.Registry` has the table.
pub data CvmType : Type 0 where
  int float double long void : CvmType

-- `CVMType::GetName`
unfoldable pub get_name : CvmType → Name
get_name int = codes "int"
get_name float = codes "float"
get_name double = codes "double"
get_name long = codes "long"
get_name void = codes "void"

-- `CVMType::operator==`
abbrev pub type_eq : CvmType → CvmType → Bool
type_eq int int = true
type_eq float float = true
type_eq double double = true
type_eq long long = true
type_eq void void = true
type_eq _ _ = false

-- the type of that name in the table of the five, as GetOrCreateType finds it
unfoldable pub find_type : Name → Option CvmType
unfolding name_eq
find_type n =
    if name_eq n (codes "int")
    then some int
    else if name_eq n (codes "float")
    then some float
    else if name_eq n (codes "double")
    then some double
    else if name_eq n (codes "long")
    then some long
    else if name_eq n (codes "void")
    then some void
    else none

-- `CVMType::ContainType`
unfoldable pub contain_type : Name → Bool
unfolding find_type
contain_type n = elim (find_type n) [ none ↦ false | some t ↦ true ]

-- `type_eq` compares what the source compares, the names.
pub type_eq-name_eq : (s t : CvmType) → type_eq s t ≡ name_eq (get_name s) (get_name t)
unfolding name_eq get_name
type_eq-name_eq int int = refl
type_eq-name_eq int _ = refl
type_eq-name_eq float int = refl
type_eq-name_eq float _ = refl
type_eq-name_eq double int = refl
type_eq-name_eq double _ = refl
type_eq-name_eq long int = refl
type_eq-name_eq long _ = refl
type_eq-name_eq void int = refl
type_eq-name_eq void _ = refl

pub type_eq→eq : (s t : CvmType) → type_eq s t ≡ true → s ≡ t
type_eq→eq s t h = ground arith

pub type_eq_refl : (t : CvmType) → type_eq t t ≡ true
type_eq_refl int = refl
type_eq_refl _ = refl

-- A type is found under its own name.
pub find_type-get_name : (t : CvmType) → find_type (get_name t) ≡ some t
unfolding find_type get_name
find_type-get_name int = refl
find_type-get_name _ = refl
