-- ===== src/Lexer/Rounds.antt =====
-- Where one round of the loop of DoParse in src/lexer.cpp leaves the cursor.
use core_vm.Base.{
  if_both, ℕ, suc, ◌-◌, ◌<◌, ◌≤◌, ◌≡◌, refl, ap, ◌∙◌, Bool, true, false, ◌||◌, inl, inr, List, ltb,
  ◌==◌, length, arith, Bool-cases, ltb→lt, ltb_false→le,
}
use core_vm.Base.Outcome.{Outcome, ok, panicked, invalid_char, Within, Within-bind, Within-if}
use core_vm.Adt.{Adt}
use core_vm.Types.{Name}
use core_vm.Fpu.{Fpu}
use core_vm.Loader.{FileInputStream, next, back}
use core_vm.Lexer.{
  is_digit, is_alpha, is_word, Digits, digits_loop, word_loop, Lexed, number_token, lex_number,
  lex_word, lex_string, lex_symbol, lex_char,
}

-- The cursor lies from `lo` on and before the end of the buffer `b`.
abbrev pub Inside : List ℕ → ℕ → FileInputStream → Type 0
Inside b lo is = (is.buffer ≡ b) × (lo ≤ is.cur) × (is.cur < length b)

-- the same, of the stream behind the tokens of a round
abbrev pub Landed : List ℕ → ℕ → Lexed → Type 0
Landed b lo r = Inside b lo r.1

-- The cursor has passed `lo`, and may stand at the end.
abbrev pub Passed : List ℕ → ℕ → FileInputStream → Type 0
Passed b lo is = (is.buffer ≡ b) × (lo < is.cur) × (is.cur ≤ length b)

back-Inside : (b : List ℕ) (lo : ℕ) (is : FileInputStream) → Passed b lo is → Inside b lo (back is)
unfolding back
back-Inside b lo is h = (h.0, omega arith, omega arith)

next-Passed :
    (b : List ℕ) (lo : ℕ) (is : FileInputStream) → Passed b lo is → Passed b lo (next is).1
unfolding next
next-Passed b lo is h = elim (Bool-cases (ltb is.cur (length is.buffer))) [
  | inl e ↦ rw e (h.0, omega arith, omega (arith, ltb→lt _ _ e, ap length h.0))
  | inr e ↦ rw e h
]

module _ (fpu : Fpu) (b : List ℕ) (lo : ℕ) where
  number_token-Landed :
      (text : Name) (d : Digits)
      → d.dotn ≤ 1
      → Passed b lo d.is
      → Within (Landed b lo) (number_token fpu text d)
  unfolding number_token
  number_token-Landed text d few h = elim (Bool-cases (d.dotn == 1)) [
    | inl e ↦ rw e (back-Inside b lo d.is h)
    | inr e ↦
        let none_left : (d.dotn == 0) ≡ true = ground arith in
        rw (e, none_left)
          (Within-if _ (d.c == b'L') _ _ (back-Inside b lo (next d.is).1 (next-Passed b lo d.is h))
            (back-Inside b lo d.is h))
  ]

  pub lex_number-Landed :
      (c : ℕ) (is : FileInputStream)
      → Within
          (λ (d : Digits). Passed b lo d.is)
          (digits_loop (suc (length is.buffer)) (record { c = c; dotn = 0; is = is }))
      → Within (Landed b lo) (lex_number fpu c is)
  unfolding lex_number
  lex_number-Landed c is h =
      Within-bind _ _ (digits_loop (suc (length is.buffer)) (record { c = c; dotn = 0; is = is })) _
        h
        (λ d passed. elim (Bool-cases (ltb 1 d.dotn)) [
          | inl e ↦ rw e tt
          | inr e ↦ rw e (
              Within-if _ (ltb 1023 (d.is.cur - (is.cur - 1))) _ _ tt
                (number_token-Landed _ d (ltb_false→le _ _ e) passed))
        ])

  pub lex_word-Landed :
      (c : ℕ) (is : FileInputStream)
      → Within (Passed b lo) (word_loop (suc (suc (length is.buffer))) c is)
      → Within (Landed b lo) (lex_word fpu c is)
  unfolding lex_word
  lex_word-Landed c is h =
      Within-bind _ _ (word_loop (suc (suc (length is.buffer))) c is) _ h
        (λ is' passed. back-Inside b lo is' passed)

-- the test of the loop over an identifier, on what is no digit
word_of : (a u d : Bool) → d ≡ false → (a || (u || d)) ≡ (a || u)
word_of true u d h = refl
word_of false true d h = refl
word_of false false d h = h

module _ (fpu : Fpu) (P : Outcome Lexed → Type 0) (c : ℕ) (is : FileInputStream) where
  -- What holds of the stream as it is, and of a string literal, holds behind any other byte.
  pub lex_symbol_cases :
      ((ts : List Adt) → P (ok (ts, is)))
      → P (panicked invalid_char)
      → P (lex_string fpu is)
      → P (lex_symbol fpu c is)
  unfolding lex_symbol
  lex_symbol_cases h invalid hs = if_both P (c == b'[') _ _ (h _) (
      if_both P (c == b']') _ _ (h _) (
        if_both P (c == b'(') _ _ (h _) (
          if_both P (c == b')') _ _ (h _) (
            if_both P (c == b' ' || c == 10) _ _ (h _) (
              if_both P (c == b'+') _ _ (h _) (
                if_both P (c == b'-') _ _ (h _) (
                  if_both P (c == b'*') _ _ (h _) (
                    if_both P (c == b'/') _ _ (h _) (
                      if_both P (c == b'=') _ _ (h _) (
                        if_both P (c == b';') _ _ (h _) (
                          if_both P (c == b',') _ _ (h _)
                            (if_both P (c == b'\"') _ _ hs invalid))))))))))))

  -- the three kinds of a round
  pub lex_char_cases :
      (is_digit c ≡ true → P (lex_number fpu c is))
      → (is_word c ≡ true → P (lex_word fpu c is))
      → (is_word c ≡ false → P (lex_symbol fpu c is))
      → P (lex_char fpu c is)
  unfolding lex_char
  lex_char_cases number word other = elim (Bool-cases (is_digit c)) [
    | inl e ↦ rw e (number e)
    | inr e ↦ elim (Bool-cases (is_alpha c || c == b'_')) [
      | inl e' ↦ rw (e, e') (word (word_of (is_alpha c) (c == b'_') _ e ∙ e'))
      | inr e' ↦ rw (e, e') (other (word_of (is_alpha c) (c == b'_') _ e ∙ e'))
    ]
  ]
