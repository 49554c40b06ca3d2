-- ===== src/Lexer/Lexemes.antt =====
-- Tokens that stand for themselves in the text of a program, as src/lexer.cpp writes them by
-- `CoreVMADT::Serialize`.
use core_vm.Base.{ℕ, ◌^◌, ◌<◌, ◌≡◌, refl, true, ◌||◌, List, [], ◌∷◌, ◌++◌, ◌==◌}
use core_vm.Base.Outcome.{Outcome, ok, ◌>>=◌}
use core_vm.Types.{Name}
use core_vm.Adt.{SymbolType, Adt, int_adt, string_adt, get_char_ptr_adt}
use core_vm.Ir.Dump.{Text, show_nat}
use core_vm.Lexer.{is_alpha, is_word}
use core_vm.Lexer.Serialize.{serialize, serialize_tag}
use core_vm.Lexer.Streams.{All}
use core_vm.Lexer.Numbers.{get_int_adt-int_adt, show_signed-small}

-- the bytes that are tokens of their own, but for the brackets
pub data Sign : Type 0 where
  lparentheses rparentheses plus minus mul div eq semicolon comma : Sign

abbrev pub sign_byte : Sign → ℕ
sign_byte lparentheses = b'('
sign_byte rparentheses = b')'
sign_byte plus = b'+'
sign_byte minus = b'-'
sign_byte mul = b'*'
sign_byte div = b'/'
sign_byte eq = b'='
sign_byte semicolon = b';'
sign_byte comma = b','

abbrev pub sign_tag : Sign → SymbolType
sign_tag lparentheses = SymbolType.lparentheses
sign_tag rparentheses = SymbolType.rparentheses
sign_tag plus = SymbolType.plus
sign_tag minus = SymbolType.minus
sign_tag mul = SymbolType.mul
sign_tag div = SymbolType.div
sign_tag eq = SymbolType.eq
sign_tag semicolon = SymbolType.semicolon
sign_tag comma = SymbolType.comma

pub data Lexeme : Type 0 where
  word : Name → Lexeme
  number : ℕ → Lexeme
  sign : Sign → Lexeme

-- the token of a lexeme
abbrev pub token : Lexeme → Adt
token (word w) = string_adt w SymbolType.string
token (number n) = int_adt n SymbolType.int
token (sign s) = int_adt (sign_byte s) (sign_tag s)

-- A word begins with a letter or `_` and goes on with those or digits; a number fits an `int`.
abbrev pub IsLexeme : Lexeme → Type 0
IsLexeme (word []) = ⊥
IsLexeme (word (c ∷ cs)) = ((is_alpha c || c == b'_') ≡ true) × All is_word cs
IsLexeme (number n) = n < 2 ^ 31
IsLexeme (sign s) = Unit

abbrev pub AllLexemes : List Lexeme → Type 0
AllLexemes [] = Unit
AllLexemes (l ∷ ls) = IsLexeme l × AllLexemes ls

abbrev pub tokens_of : List Lexeme → List Adt
tokens_of [] = []
tokens_of (l ∷ ls) = token l ∷ tokens_of ls

-- the tokens written with a space behind each
unfoldable pub write_spaced : (ℕ → Text) → List Adt → Outcome Text
write_spaced show_double [] = ok []
write_spaced show_double (t ∷ ts) = do
  text ← serialize show_double t []
  more ← write_spaced show_double ts
  ok (text ++ (b' ' ∷ more))

-- the text of a lexeme
abbrev pub text_of : Lexeme → Text
text_of (word w) = w
text_of (number n) = show_nat n
text_of (sign s) = sign_byte s ∷ []

abbrev pub spaced : List Lexeme → Text
spaced [] = []
spaced (l ∷ ls) = text_of l ++ (b' ' ∷ spaced ls)

serialize-token :
    (show_double : ℕ → Text) (l : Lexeme)
    → IsLexeme l
    → serialize show_double (token l) [] ≡ ok (text_of l)
unfolding serialize serialize_tag string_adt get_char_ptr_adt int_adt
serialize-token show_double (word w) h = refl
serialize-token show_double (number n) h =
    rw (get_int_adt-int_adt n SymbolType.int h, show_signed-small n h)
serialize-token show_double (sign lparentheses) h = refl
serialize-token show_double (sign _) h = refl

pub write_spaced-tokens_of :
    (show_double : ℕ → Text) (ls : List Lexeme)
    → AllLexemes ls
    → write_spaced show_double (tokens_of ls) ≡ ok (spaced ls)
unfolding write_spaced
write_spaced-tokens_of show_double [] h = refl
write_spaced-tokens_of show_double (l ∷ ls) (h, hs) =
    rw (serialize-token show_double l h, write_spaced-tokens_of show_double ls hs)
