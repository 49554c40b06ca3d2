-- ===== src/Lexer/Ends.antt =====
-- Whether the loop of DoParse in src/lexer.cpp ends, by the last byte of the file.
use core_vm.Base.{
  ℕ, zero, suc, ◌+◌, ◌-◌, ◌<◌, ◌≤◌, ◌≡◌, ◌≢◌, refl, ap, ◌∙◌, sym, Bool, true, false, ◌||◌, inl, inr,
  List, [], ◌∷◌, ◌++◌, ltb, ◌==◌, length, arith, Bool-cases, ltb→lt, lt→ltb, ltb_false→le, ==_iff,
}
use core_vm.Base.Outcome.{
  ok, Ends, Within-Ends, Ends-bind, Within, Within-bind, Within-mono, returned, Within-ok,
}
use core_vm.Adt.{Adt}
use core_vm.Fpu.{Fpu}
use core_vm.Loader.{FileInputStream, open_stream, byte_at, has_next, next, back, skip, current_char}
use core_vm.Lexer.{
  is_digit, is_alpha, is_word, Digits, digits_loop, word_loop, string_loop, Lexed, lex_number,
  lex_word, lex_string, lex_char, do_parse, lex,
}
use core_vm.Lexer.Long.{HasLongNumber, lex_char-undefined}
use core_vm.Lexer.Scan.{
  Forward, moved, digits_loop-Forward, digits_loop_first, word_loop-Forward, word_loop_first,
  string_loop-Forward, has_next→lt, lt→has_next,
}
use core_vm.Lexer.Rounds.{
  Landed, Passed, lex_number-Landed, lex_word-Landed, lex_char_cases, lex_symbol_cases,
}

-- the last byte of a text
abbrev pub last_byte : List ℕ → ℕ
last_byte b = byte_at b (length b - 1)

-- The cursor lies from `lo` on, and may stand at the end.
abbrev pub Reached : List ℕ → ℕ → FileInputStream → Type 0
Reached b lo is = (is.buffer ≡ b) × (lo ≤ is.cur) × (is.cur ≤ length b)

abbrev Quoted : List ℕ → ℕ → Lexed → Type 0
Quoted b lo r = Reached b lo r.1 × ((byte_at b (r.1.cur - 1) == b'\"') ≡ true)

-- A string literal leaves the cursor behind the last byte that its loop read, which is a quote.
lex_string-Quoted :
    (fpu : Fpu) (b : List ℕ) (lo : ℕ) (is : FileInputStream)
    → Reached b (suc lo) is
    → Within (Quoted b (suc lo)) (lex_string fpu is)
unfolding lex_string skip back current_char
lex_string-Quoted fpu b lo is h =
    let fits : is.cur ≤ length is.buffer = omega (arith, ap length h.0) in
    Within-bind _ _ (string_loop (suc (length is.buffer)) is) _
      (string_loop-Forward (suc (length is.buffer)) is fits (omega arith))
      (λ is' forward. elim (Bool-cases (byte_at is'.buffer (is'.cur - 1) == b'\"')) [
        | inr e ↦ rw e tt
        | inl e ↦
            let same : is'.buffer ≡ b = forward.0 ∙ h.0 in
            let undo : is'.cur - 1 + 1 - 1 ≡ is'.cur - 1 = omega arith in
            rw e ((same, omega arith, omega (arith, ap length h.0)), rw (undo, sym same) e)
      ])

digit_word : (a u d : Bool) → d ≡ true → (a || (u || d)) ≡ true
digit_word true u d h = refl
digit_word false true d h = refl
digit_word false false d h = h

abbrev at : List ℕ → ℕ → FileInputStream
at b i = record { buffer = b; cur = i }

-- Behind a byte of a word there is another, where the last byte is no such byte.
has_next-word :
    (b : List ℕ) (i : ℕ)
    → i < length b
    → is_word (last_byte b) ≡ false
    → is_word (byte_at b i) ≡ true
    → has_next (at b (suc i)) ≡ true
unfolding has_next
has_next-word b i inside last word = elim (Bool-cases (ltb (suc i) (length b))) [
  | inl e ↦ e
  | inr e ↦
      let ends : length b - 1 ≡ i = omega (arith, ltb_false→le _ _ e) in
      let clash : false ≡ true = sym last ∙ ap (λ j. is_word (byte_at b j)) ends ∙ word in cc
]

-- A byte that is no part of a word is not the last, where the last one is.
before_last :
    (b : List ℕ) (i : ℕ)
    → i < length b
    → is_word (last_byte b) ≡ true
    → is_word (byte_at b i) ≡ false
    → suc i < length b
before_last b i inside last other = elim (Bool-cases (ltb (suc i) (length b))) [
  | inl e ↦ ltb→lt _ _ e
  | inr e ↦
      let ends : length b - 1 ≡ i = omega (arith, ltb_false→le _ _ e) in
      let clash : true ≡ false = sym last ∙ ap (λ j. is_word (byte_at b j)) ends ∙ other in cc
]

quoted_before :
    (b : List ℕ) (i : ℕ)
    → is_word (last_byte b) ≡ true
    → (byte_at b (i - 1) == b'\"') ≡ true
    → 0 < i
    → i ≤ length b
    → i < length b
quoted_before b i last quote positive inside =
    let back_again : suc (i - 1) ≡ i = omega arith in
    rw (sym back_again)
      (before_last b (i - 1) (omega arith) last (ap is_word ((==_iff _ _).0 quote)))

module _ (fpu : Fpu) (b : List ℕ) (i : ℕ) where
  -- Behind such a text, a number and an identifier go a byte forward.
  number-onward :
      is_digit (byte_at b i) ≡ true
      → has_next (at b (suc i)) ≡ true
      → Within (Landed b (suc i)) (lex_number fpu (byte_at b i) (at b (suc i)))
  number-onward digit more =
      let start : Digits = record { c = byte_at b i; dotn = 0; is = at b (suc i) } in
      lex_number-Landed fpu b (suc i) (byte_at b i) (at b (suc i)) (
        Within-mono (λ (d : Digits). Forward (moved start.is) d.is)
          (λ (d : Digits). Passed b (suc i) d.is) (digits_loop (suc (length b)) start)
          (λ d h. (h.0, omega arith, omega arith))
          (digits_loop_first (length b) start digit more (omega arith)))

  word-onward :
      is_word (byte_at b i) ≡ true
      → has_next (at b (suc i)) ≡ true
      → Within (Landed b (suc i)) (lex_word fpu (byte_at b i) (at b (suc i)))
  word-onward word more = lex_word-Landed fpu b (suc i) (byte_at b i) (at b (suc i)) (
      Within-mono (Forward (moved (at b (suc i)))) (Passed b (suc i))
        (word_loop (suc (suc (length b))) (byte_at b i) (at b (suc i)))
        (λ d h. (h.0, omega arith, omega arith))
        (word_loop_first (suc (length b)) (byte_at b i) (at b (suc i)) word more (omega arith)))

  -- a round that starts before the end, behind a text that ends in no byte of a word
  round-onward :
      i < length b
      → is_word (last_byte b) ≡ false
      → Within (λ r. Reached b (suc i) r.1) (lex_char fpu (byte_at b i) (at b (suc i)))
  round-onward inside last =
      let landed : (r : Lexed) → Landed b (suc i) r → Reached b (suc i) r.1 =
        λ r h. (h.0, h.1, omega arith) in
      lex_char_cases fpu (Within (λ r. Reached b (suc i) r.1)) _ _
        (λ digit. Within-mono _ _ _ landed (
          number-onward digit (
            has_next-word b i inside last
              (digit_word (is_alpha (byte_at b i)) (byte_at b i == b'_') _ digit))))
        (λ word. Within-mono _ _ _ landed (word-onward word (has_next-word b i inside last word)))
        (λ other.
          lex_symbol_cases fpu (Within (λ r. Reached b (suc i) r.1)) _ _
            (λ ts. (refl, omega arith, omega arith)) tt
            (Within-mono _ _ (lex_string fpu (at b (suc i))) (λ r h. h.0)
              (lex_string-Quoted fpu b i (at b (suc i)) (refl, omega arith, omega arith))))

  -- and behind one that ends in a byte of a word
  round-short :
      i < length b
      → is_word (last_byte b) ≡ true
      → Within (Landed b 0) (lex_char fpu (byte_at b i) (at b (suc i)))
  round-short inside last =
      let not_quoted : (r : Lexed) → Quoted b (suc i) r → r.1.cur < length b =
        λ r h. quoted_before b r.1.cur last h.1 (omega arith) h.0.2 in
      let whole : suc i ≤ length b = omega arith in
      lex_char_cases fpu (Within (Landed b 0)) _ _
        (λ digit. lex_number-Landed fpu b 0 (byte_at b i) (at b (suc i)) (
          Within-mono _ (λ (d : Digits). Passed b 0 d.is)
            (digits_loop (suc (length b)) (record { c = byte_at b i; dotn = 0; is = at b (suc i) }))
            (λ d h. (h.0, omega arith, omega arith))
            (digits_loop-Forward (suc (length b))
              (record { c = byte_at b i; dotn = 0; is = at b (suc i) }) whole (omega arith))))
        (λ word. lex_word-Landed fpu b 0 (byte_at b i) (at b (suc i)) (
          Within-mono _ (Passed b 0) (word_loop (suc (suc (length b))) (byte_at b i) (at b (suc i)))
            (λ d h. (h.0, omega arith, omega arith))
            (word_loop-Forward (suc (suc (length b))) (byte_at b i) (at b (suc i)) whole
              (omega arith))))
        (λ other.
          lex_symbol_cases fpu (Within (Landed b 0)) _ _
            (λ ts. (refl, omega arith, before_last b i inside last other)) tt
            (Within-mono _ _ (lex_string fpu (at b (suc i)))
              (λ r h. (h.0.0, omega arith, not_quoted r h))
              (lex_string-Quoted fpu b i (at b (suc i)) (refl, omega arith, whole))))

word→nonempty : (b : List ℕ) → is_word (last_byte b) ≡ true → 0 < length b
word→nonempty [] h = cc
word→nonempty (c ∷ cs) h = omega arith

module _ (fpu : Fpu) (b : List ℕ) where
  -- a stream on the buffer is one with its cursor
  stream_at : (is : FileInputStream) → is.buffer ≡ b → is ≡ at b is.cur
  stream_at is h = ap (λ bs. record { buffer = bs; cur = is.cur }) h

  do_parse-Ends :
      (f i : ℕ) (tokens : List Adt)
      → is_word (last_byte b) ≡ false
      → i ≤ length b
      → length b < i + f
      → Ends (HasLongNumber b) (λ ts. Unit {0}) (do_parse fpu f (at b i) tokens)
  unfolding do_parse next
  do_parse-Ends zero i tokens last inside fuel = absurd (omega arith)
  do_parse-Ends (suc f) i tokens last inside fuel = elim (Bool-cases (has_next (at b i))) [
    | inr e ↦ rw e tt
    | inl e ↦
        let before : i < length b = has_next→lt (at b i) e in
        let round : Ends (HasLongNumber b) (λ r. Reached b (suc i) r.1)
            (lex_char fpu (byte_at b i) (at b (suc i))) =
          Within-Ends _ _ _ (round-onward fpu b i before last)
            (lex_char-undefined fpu b i before) in
        rw (e, lt→ltb _ _ before)
          (Ends-bind _ _ _ (lex_char fpu (byte_at b i) (at b (suc i))) _ round (λ r h.
            rw (stream_at r.1 h.0)
              (do_parse-Ends f r.1.cur (tokens ++ r.0) last h.2 (omega arith))))
  ]

  do_parse_endless :
      (f i : ℕ) (tokens ts : List Adt)
      → is_word (last_byte b) ≡ true
      → i < length b
      → do_parse fpu f (at b i) tokens ≢ ok ts
  unfolding do_parse next
  do_parse_endless zero i tokens ts last inside h = cc
  do_parse_endless (suc f) i tokens ts last inside h =
      let more : has_next (at b i) ≡ true = lt→has_next (at b i) inside in
      let (r, round, rest) =
        returned (λ (new, is). do_parse fpu f is (tokens ++ new))
          (lex_char fpu (byte_at b i) (at b (suc i))) (rw (more, lt→ltb _ _ inside) at h) in
      let landed : Landed b 0 r = Within-ok _ _ round (round-short fpu b i inside last) in
      do_parse_endless f r.1.cur (tokens ++ r.0) ts last landed.2
        (ap (λ is. do_parse fpu f is (tokens ++ r.0)) (sym (stream_at r.1 landed.0)) ∙ rest)

  -- On a file whose last byte is no letter, digit or `_`, as many rounds as the file has bytes, and
  -- one more, are enough for DoParse to return its tokens or to panic, and no assertion fails; it
  -- writes outside of its array only where 1023 digits and dots stand one behind the other with
  -- another byte behind them.
  pub lex-Ends :
      is_word (last_byte b) ≡ false
      → Ends (HasLongNumber b) (λ ts. Unit {0}) (lex fpu (suc (length b)) b)
  unfolding lex open_stream
  lex-Ends last = do_parse-Ends (suc (length b)) 0 [] last (omega arith) (omega arith)

  -- On a file whose last byte is a letter, a digit or `_`, no number of rounds is enough for
  -- DoParse to return its tokens.
  pub lex_endless : (f : ℕ) (ts : List Adt) → is_word (last_byte b) ≡ true → lex fpu f b ≢ ok ts
  unfolding lex open_stream
  lex_endless f ts last = do_parse_endless f 0 [] ts last (word→nonempty b last)
