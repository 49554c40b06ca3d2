-- ===== src/Lexer/Serialized.antt =====
-- `CoreVMLexer::Serialize` of src/lexer.cpp: when it panics, and the text that it writes.
use core_vm.Base.{
  ℕ, ◌+◌, ◌≡◌, refl, Bool, true, false, ◌&&◌, List, [], ◌∷◌, ◌++◌, append_assoc, append-nil,
  if◌then◌else◌, inl, inr, Bool-cases, ap,
}
use core_vm.Base.Outcome.{Outcome, ok, panicked, invalid_symbol_type}
use core_vm.Types.{codes}
use core_vm.Adt.{SymbolType, Adt}
use core_vm.Ir.Dump.{Text, show_signed}
use core_vm.Lexer.Serialize.{serialize_tag, serialize, serialize_loop, serialize_lexer}

-- whether a token has a text: a `long`, a `float` and a string literal have none
abbrev pub is_shown : SymbolType → Bool
is_shown SymbolType.long = false
is_shown SymbolType.float = false
is_shown SymbolType.string_var = false
is_shown _ = true

abbrev pub all_shown : List Adt → Bool
all_shown [] = true
all_shown (t ∷ ts) = is_shown t.tag && all_shown ts

abbrev text_or_empty : Outcome Text → Text
text_or_empty (ok text) = text
text_or_empty _ = []

joined :
    (os n text more : Text)
    → (((os ++ (n ++ (b'.' ∷ b' ' ∷ []))) ++ text) ++ (10 ∷ [])) ++ more
      ≡ os ++ (n ++ (b'.' ∷ b' ' ∷ (text ++ (10 ∷ more))))
joined os n text more = simp append_assoc

module _ (show_double : ℕ → Text) where
  -- one line for each token, with its number from `cnt` on
  unfoldable pub lines : ℕ → List Adt → Text
  lines cnt [] = []
  lines cnt (t ∷ ts) =
      show_signed 32 cnt
      ++ (codes ". "
          ++ (text_or_empty (serialize_tag show_double t.tag t) ++ (10 ∷ lines (cnt + 1) ts)))

  serialize_tag_shown :
      (tag : SymbolType) (a : Adt)
      → serialize_tag show_double tag a ≡ (
          if is_shown tag
          then ok (text_or_empty (serialize_tag show_double tag a))
          else panicked invalid_symbol_type)
  unfolding serialize_tag
  serialize_tag_shown SymbolType.long a = refl
  serialize_tag_shown _ a = refl

  serialize_loop_shown :
      (cnt : ℕ) (ts : List Adt) (os : Text)
      → serialize_loop show_double cnt ts os
        ≡ (if all_shown ts then ok (os ++ lines cnt ts) else panicked invalid_symbol_type)
  unfolding serialize_loop serialize lines
  serialize_loop_shown cnt [] os = rw (append-nil os)
  serialize_loop_shown cnt (t ∷ ts) os = elim (Bool-cases (is_shown t.tag)) [
    | inr e ↦ rw (serialize_tag_shown t.tag t, e)
    | inl e ↦
        rw (serialize_tag_shown t.tag t, e)
          (let line = show_signed 32 cnt ++ (b'.' ∷ b' ' ∷ []) in
            let text = text_or_empty (serialize_tag show_double t.tag t) in
            rw (serialize_loop_shown (cnt + 1) ts (((os ++ line) ++ text) ++ (10 ∷ []))) (
              ap (λ (os' : Text). if all_shown ts then ok os' else panicked invalid_symbol_type)
                (joined os (show_signed 32 cnt) text (lines (cnt + 1) ts))))
  ]

  -- Serialize of the lexer panics on tokens among which is a `long`, a `float` or a string literal,
  -- and on all others appends the heading and a numbered line for each token, in their order.
  pub serialize_lexer_lem :
      (ts : List Adt) (os : Text)
      → serialize_lexer show_double ts os ≡ (
          if all_shown ts
          then ok (os ++ (codes "Tokens:" ++ (10 ∷ lines 1 ts)))
          else panicked invalid_symbol_type)
  unfolding serialize_lexer
  serialize_lexer_lem ts os = rw (
    serialize_loop_shown 1 ts (os ++ (codes "Tokens:" ++ (10 ∷ []))),
    append_assoc os (codes "Tokens:" ++ (10 ∷ [])) (lines 1 ts),
  )
