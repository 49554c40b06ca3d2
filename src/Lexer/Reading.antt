-- ===== src/Lexer/Reading.antt =====
-- What one round of DoParse in src/lexer.cpp makes of a token with a space behind it.
use core_vm.Base.{
  ℕ, suc, ◌+◌, ◌-◌, ◌^◌, ◌<◌, ◌≡◌, refl, true, false, ◌||◌, List, [], ◌∷◌, ◌++◌, append_assoc,
  length, length-append, ◌==◌, arith, le→ltb_false,
}
use core_vm.Base.Outcome.{ok}
use core_vm.Types.{Name}
use core_vm.Fpu.{Fpu}
use core_vm.Adt.{SymbolType, Adt, int_adt, string_adt}
use core_vm.Ir.Dump.{Text, show_nat}
use core_vm.Loader.{FileInputStream, back}
use core_vm.Lexer.{
  is_digit, is_alpha, is_word, digits_loop, word_loop, digits_value, slice, number_token,
  lex_number, lex_word, lex_symbol, lex_char,
}
use core_vm.Lexer.Streams.{at, All, back-at, digits_loop-at, word_loop-at, slice-at}
use core_vm.Lexer.Numbers.{Reads, show_nat-Reads, atoi_lem}
use core_vm.Lexer.Lexemes.{
  Sign, lparentheses, rparentheses, plus, minus, mul, div, eq, semicolon, comma, sign_byte, Lexeme,
  word, number, sign, token, IsLexeme, text_of,
}

-- A letter or `_` is no digit, and is part of a word.
begin-word : (c : ℕ) → (is_alpha c || c == b'_') ≡ true → (is_digit c ≡ false) × (is_word c ≡ true)
begin-word c h = (ground arith, ground arith)

module _ (before rest : List ℕ) (c : ℕ) (cs : Name) where
  -- where the cursor stands behind the first byte of a token, and behind the byte after it
  start : FileInputStream
  start = at (before ++ (c ∷ [])) (cs ++ (b' ' ∷ rest))

  passed : FileInputStream
  passed = at ((before ++ (c ∷ [])) ++ (cs ++ (b' ' ∷ []))) rest

  back-passed : back passed ≡ at (before ++ (c ∷ cs)) (b' ' ∷ rest)
  unfolding passed
  back-passed =
      let e : (before ++ (c ∷ [])) ++ (cs ++ (b' ' ∷ [])) ≡ (before ++ (c ∷ cs)) ++ (b' ' ∷ []) =
        simp append_assoc in
      rw e (back-at (before ++ (c ∷ cs)) rest b' ')

  begin_pos-start : start.cur - 1 ≡ length before
  unfolding start
  begin_pos-start = omega (arith, length-append before (c ∷ []))

  size-passed : passed.cur - length before ≡ length cs + 2
  unfolding passed
  size-passed = omega (
    arith,
    length-append (before ++ (c ∷ [])) (cs ++ (b' ' ∷ [])),
    length-append before (c ∷ []),
    length-append cs (b' ' ∷ []),
  )

  word_loop-start :
      is_word c ≡ true
      → All is_word cs
      → word_loop (suc (suc (length start.buffer))) c start ≡ ok passed
  unfolding start passed
  word_loop-start part all = word_loop-at cs _ c (before ++ (c ∷ [])) rest part all (
      omega (
        arith,
        length-append (before ++ (c ∷ [])) (cs ++ (b' ' ∷ rest)),
        length-append cs (b' ' ∷ rest),
      ))

  digits_loop-start :
      is_digit c ≡ true
      → All is_digit cs
      → digits_loop (suc (length start.buffer)) (record { c = c; dotn = 0; is = start })
        ≡ ok (record { c = b' '; dotn = 0; is = passed })
  unfolding start passed
  digits_loop-start digit all = digits_loop-at cs _ c (before ++ (c ∷ [])) rest digit all (
      omega (
        arith,
        length-append (before ++ (c ∷ [])) (cs ++ (b' ' ∷ rest)),
        length-append cs (b' ' ∷ rest),
        length-append before (c ∷ []),
      ))

  buffer-start : start.buffer ≡ before ++ ((c ∷ cs) ++ (b' ' ∷ rest))
  unfolding start
  buffer-start = append_assoc before (c ∷ []) (cs ++ (b' ' ∷ rest))

  -- the text of a number, which is copied with the byte behind it
  slice-start : slice start.buffer (length before) (length cs + 2) ≡ c ∷ (cs ++ (b' ' ∷ []))
  slice-start =
      let size : length cs + 2 ≡ length (c ∷ (cs ++ (b' ' ∷ []))) =
        omega (arith, length-append cs (b' ' ∷ [])) in
      let parts : start.buffer ≡ before ++ ((c ∷ (cs ++ (b' ' ∷ []))) ++ rest) =
        rw (append_assoc cs (b' ' ∷ []) rest) buffer-start in
      rw (size, parts) (slice-at before (c ∷ (cs ++ (b' ' ∷ []))) rest)

module _ (fpu : Fpu) where
  -- A text that is one token: its first byte, read, leaves the cursor behind the text.
  abbrev pub IsRead : Adt → Text → Type 0
  IsRead t text =
      (c : ℕ) × (cs : Name) × (text ≡ (c ∷ cs))
      × ((before rest : List ℕ)
          → lex_char fpu c (at (before ++ (c ∷ [])) (cs ++ (b' ' ∷ rest)))
            ≡ ok (t ∷ [], at (before ++ (c ∷ cs)) (b' ' ∷ rest)))

  lex_word-start :
      (before rest : List ℕ) (c : ℕ) (cs : Name)
      → is_word c ≡ true
      → All is_word cs
      → lex_word fpu c (start before rest c cs)
        ≡ ok (string_adt (c ∷ cs) SymbolType.string ∷ [], at (before ++ (c ∷ cs)) (b' ' ∷ rest))
  unfolding lex_word
  lex_word-start before rest c cs part all =
      let one_less : length cs + 2 - 1 ≡ length (c ∷ cs) = omega arith in
      rw (
        word_loop-start before rest c cs part all,
        begin_pos-start before rest c cs,
        size-passed before rest c cs,
        one_less,
        buffer-start before rest c cs,
        back-passed before rest c cs,
        slice-at before (c ∷ cs) (b' ' ∷ rest),
      )

  lex_number-start :
      (before rest : List ℕ) (n : ℕ)
      → n < 2 ^ 31
      → (reads : Reads 20 n (show_nat n))
      → lex_number fpu reads.c (start before rest reads.c reads.ds)
        ≡ ok (int_adt n SymbolType.int ∷ [], at (before ++ (reads.c ∷ reads.ds)) (b' ' ∷ rest))
  unfolding lex_number number_token
  lex_number-start before rest n h reads =
      let value : digits_value 0 (reads.c ∷ (reads.ds ++ (b' ' ∷ []))) ≡ n =
        rw reads.shape at reads.value in
      rw (
        digits_loop-start before rest reads.c reads.ds reads.digit reads.more,
        begin_pos-start before rest reads.c reads.ds,
        size-passed before rest reads.c reads.ds,
        le→ltb_false 1023 (length reads.ds + 2) (omega (arith, reads.short)),
        slice-start before rest reads.c reads.ds,
        atoi_lem n (reads.c ∷ (reads.ds ++ (b' ' ∷ []))) value h,
        back-passed before rest reads.c reads.ds,
      )

  sign-IsRead : (s : Sign) → IsRead (token (sign s)) (sign_byte s ∷ [])
  unfolding lex_char lex_symbol
  sign-IsRead lparentheses = (b'(', [], refl, λ before rest. refl)
  sign-IsRead rparentheses = (b')', [], refl, λ before rest. refl)
  sign-IsRead plus = (b'+', [], refl, λ before rest. refl)
  sign-IsRead minus = (b'-', [], refl, λ before rest. refl)
  sign-IsRead mul = (b'*', [], refl, λ before rest. refl)
  sign-IsRead div = (b'/', [], refl, λ before rest. refl)
  sign-IsRead eq = (b'=', [], refl, λ before rest. refl)
  sign-IsRead semicolon = (b';', [], refl, λ before rest. refl)
  sign-IsRead comma = (b',', [], refl, λ before rest. refl)

  word-IsRead : (w : Name) → IsLexeme (word w) → IsRead (token (word w)) w
  unfolding lex_char start
  word-IsRead [] h = absurd h
  word-IsRead (c ∷ cs) (begins, all) =
      let (no_digit, part) = begin-word c begins in
      (c, cs, refl, λ before rest. rw (no_digit, begins) (lex_word-start before rest c cs part all))

  number-IsRead : (n : ℕ) → n < 2 ^ 31 → IsRead (token (number n)) (show_nat n)
  unfolding lex_char start
  number-IsRead n h =
      let reads = show_nat-Reads n h in
      (
        reads.c,
        reads.ds,
        reads.shape,
        λ before rest. rw reads.digit (lex_number-start before rest n h reads),
      )

  -- a lexeme
  pub text_of-IsRead : (l : Lexeme) → IsLexeme l → IsRead (token l) (text_of l)
  text_of-IsRead (word w) h = word-IsRead w h
  text_of-IsRead (number n) h = number-IsRead n h
  text_of-IsRead (sign s) h = sign-IsRead s
