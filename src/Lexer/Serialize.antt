-- ===== src/Lexer/Serialize.antt =====
-- The `Serialize` members of src/lexer.cpp: the tokens as text. What an output stream makes of a
-- `double` is a parameter.
use core_vm.Base.{ℕ, ◌+◌, List, [], ◌∷◌, ◌++◌}
use core_vm.Base.Outcome.{Outcome, ok, panicked, ◌>>=◌, invalid_symbol_type}
use core_vm.Types.{codes}
use core_vm.Adt.{SymbolType, Adt, get_int_adt, get_double_adt, get_char_adt, get_char_ptr_adt}
use core_vm.Ir.Dump.{Text, show_signed}

module _ (show_double : ℕ → Text) where
  -- the `switch` of `CoreVMADT::Serialize`; the braces are not those that the lexer reads
  unfoldable pub serialize_tag : SymbolType → Adt → Outcome Text
  serialize_tag SymbolType.double a = ok (show_double (get_double_adt a))
  serialize_tag SymbolType.int a = ok (show_signed 32 (get_int_adt a))
  serialize_tag SymbolType.string a = ok (get_char_ptr_adt a)
  serialize_tag SymbolType.lparentheses a = ok (codes "(")
  serialize_tag SymbolType.rparentheses a = ok (codes ")")
  serialize_tag SymbolType.lbrace a = ok (codes "{")
  serialize_tag SymbolType.rbrace a = ok (codes "}")
  serialize_tag SymbolType.char a = ok (get_char_adt a ∷ [])
  serialize_tag SymbolType.eq a = ok (codes "=")
  serialize_tag SymbolType.minus a = ok (codes "-")
  serialize_tag SymbolType.mul a = ok (codes "*")
  serialize_tag SymbolType.div a = ok (codes "/")
  serialize_tag SymbolType.plus a = ok (codes "+")
  serialize_tag SymbolType.semicolon a = ok (codes ";")
  serialize_tag SymbolType.comma a = ok (codes ",")
  serialize_tag SymbolType.lquote a = ok (b'\"' ∷ [])
  serialize_tag SymbolType.rquote a = ok (b'\"' ∷ [])
  serialize_tag _ a = panicked invalid_symbol_type

  -- `CoreVMADT::Serialize`
  unfoldable pub serialize : Adt → Text → Outcome Text
  unfolding serialize_tag
  serialize a os = do text ← serialize_tag a.tag a; ok (os ++ text)

  -- the loop of `CoreVMLexer::Serialize`
  unfoldable pub serialize_loop : ℕ → List Adt → Text → Outcome Text
  unfolding serialize
  serialize_loop cnt [] os = ok os
  serialize_loop cnt (token ∷ tokens) os = do
    os ← serialize token (os ++ (show_signed 32 cnt ++ codes ". "))
    serialize_loop (cnt + 1) tokens (os ++ (10 ∷ []))

  -- `CoreVMLexer::Serialize`
  unfoldable pub serialize_lexer : List Adt → Text → Outcome Text
  unfolding serialize_loop
  serialize_lexer tokens os = serialize_loop 1 tokens (os ++ (codes "Tokens:" ++ (10 ∷ [])))
