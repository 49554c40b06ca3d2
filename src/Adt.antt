-- ===== src/Adt.antt =====
-- CoreVMADT of src/include/lexer.h and src/lexer.cpp: a token, which is a tag and a union. The union
-- is kept as its eight bytes, and the string that `sval` points to beside it.
pub mod Objects
pub mod Owners
pub mod Balance
pub mod Ownership
use core_vm.Base.{ℕ, ◌+◌, ◌-◌, ◌%◌, ◌^◌, Bool, true, false, [], ltb, if◌then◌else◌}
use core_vm.Types.{Name}

pub data SymbolType : Type 0 where
  string string_var int long double float : SymbolType
  lparentheses rparentheses rbrace lbrace char : SymbolType
  plus mul div minus eq comma lquote rquote semicolon : SymbolType

pub record Adt : Type 0 where
  pub tag : SymbolType
  pub lval : ℕ
  pub sval : Name

-- `(u8)data` of an `int`, given as its bit pattern
abbrev pub sign_extend : ℕ → ℕ
sign_extend v = if ltb v (2 ^ 31) then v else v + (2 ^ 64 - 2 ^ 32)

-- the constructors: for an int or char, a long or double by its bits, and a string
unfoldable pub int_adt : ℕ → SymbolType → Adt
int_adt v t = record { tag = t; lval = sign_extend v; sval = [] }

unfoldable pub wide_adt : ℕ → SymbolType → Adt
wide_adt v t = record { tag = t; lval = v; sval = [] }

unfoldable pub string_adt : Name → SymbolType → Adt
string_adt s t = record { tag = t; lval = 0; sval = s }

unfoldable pub get_int_adt : Adt → ℕ
get_int_adt a = a.lval % 2 ^ 32

unfoldable pub get_float_adt : Adt → ℕ
get_float_adt a = a.lval % 2 ^ 32

unfoldable pub get_long_adt : Adt → ℕ
get_long_adt a = a.lval % 2 ^ 64

unfoldable pub get_double_adt : Adt → ℕ
get_double_adt a = a.lval % 2 ^ 64

unfoldable pub get_char_adt : Adt → ℕ
get_char_adt a = a.lval % 2 ^ 8

unfoldable pub get_char_ptr_adt : Adt → Name
get_char_ptr_adt a = a.sval

-- IsString, IsSemicolon and their like compare the tag.
abbrev pub is_string : SymbolType → Bool
is_string string = true
is_string _ = false

abbrev pub is_semicolon : SymbolType → Bool
is_semicolon semicolon = true
is_semicolon _ = false

abbrev pub is_plus : SymbolType → Bool
is_plus plus = true
is_plus _ = false

abbrev pub is_minus : SymbolType → Bool
is_minus minus = true
is_minus _ = false

abbrev pub is_mul : SymbolType → Bool
is_mul mul = true
is_mul _ = false

abbrev pub is_div : SymbolType → Bool
is_div div = true
is_div _ = false

abbrev pub is_lparentheses : SymbolType → Bool
is_lparentheses lparentheses = true
is_lparentheses _ = false

abbrev pub is_rparentheses : SymbolType → Bool
is_rparentheses rparentheses = true
is_rparentheses _ = false

abbrev pub is_comma : SymbolType → Bool
is_comma comma = true
is_comma _ = false

abbrev pub is_eq : SymbolType → Bool
is_eq eq = true
is_eq _ = false
