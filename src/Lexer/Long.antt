-- ===== src/Lexer/Long.antt =====
-- When DoParse of src/lexer.cpp writes outside of its array: the text of a number, with the byte behind
-- it, is copied into 1024 bytes with a zero behind them.
use core_vm.Base.{
  ℕ, zero, suc, ◌+◌, ◌-◌, ◌<◌, ◌≤◌, ◌≡◌, ◌≢◌, refl, ap, ◌⊎◌, Bool, true, false, not, ◌||◌, inl, inr,
  List, ltb, ◌==◌, length, arith, Bool-cases, if_both, ltb→lt,
}
use core_vm.Base.Outcome.{ok, undefined, Within-ok, bind-undefined}
use core_vm.Fpu.{Fpu}
use core_vm.Types.{Name}
use core_vm.Loader.{FileInputStream, byte_at, has_next, next, back, current_char}
use core_vm.Lexer.{
  is_digit, is_word, Digits, digits_loop, word_loop, string_loop, number_token, lex_number,
  lex_word, lex_string, lex_char,
}
use core_vm.Lexer.Scan.{Forward, next_has, digits_loop-Forward}
use core_vm.Lexer.Rounds.{lex_symbol_cases, lex_char_cases}

-- the bytes of a number
abbrev pub is_numeric : ℕ → Bool
is_numeric c = is_digit c || c == b'.'

-- From a place on, 1023 digits and dots stand in the file, with another byte behind them.
pub record HasLongNumber (b : List ℕ) : Type 0 where
  pub begin : ℕ
  pub inside : begin + 1024 ≤ length b
  pub numeric : (j : ℕ) → j < 1023 → is_numeric (byte_at b (begin + j)) ≡ true

digits_loop-undefined : (f : ℕ) (d : Digits) → digits_loop f d ≢ undefined
unfolding digits_loop
digits_loop-undefined zero d h = cc
digits_loop-undefined (suc f) d h =
    let no : (d' : Digits) → ok d' ≢ undefined = λ d' h. cc in
    if_both (λ r. r ≢ undefined) (not (has_next d.is)) _ _ (no d)
      (if_both (λ r. r ≢ undefined) (is_digit d.c) _ _ (digits_loop-undefined f _)
        (if_both (λ r. r ≢ undefined) (d.c == b'.') _ _
          (if_both (λ r. r ≢ undefined) (d.dotn == 0) _ _ (digits_loop-undefined f _) (no _))
          (no d)))
      h

word_loop-undefined : (f c : ℕ) (is : FileInputStream) → word_loop f c is ≢ undefined
unfolding word_loop
word_loop-undefined zero c is h = cc
word_loop-undefined (suc f) c is h =
    if_both (λ r. r ≢ undefined) (is_word c) _ _ (word_loop-undefined f _ _) (λ h. cc) h

string_loop-undefined : (f : ℕ) (is : FileInputStream) → string_loop f is ≢ undefined
unfolding string_loop
string_loop-undefined zero is h = cc
string_loop-undefined (suc f) is h =
    if_both (λ r. r ≢ undefined) (not (has_next is)) _ _ (λ h. cc)
      (if_both (λ r. r ≢ undefined) ((next is).0 == b'\"') _ _ (λ h. cc)
        (string_loop-undefined f _))
      h

-- the loop over a number, from a byte that was read
abbrev from : List ℕ → ℕ → ℕ → Digits
from b i dotn = record { c = byte_at b i; dotn = dotn; is = record { buffer = b; cur = suc i } }

here_or : (i j : ℕ) → i ≤ j → (i ≡ j) ⊎ (suc i ≤ j)
here_or i j h = omega arith

or_digit : (x y : Bool) → x ≡ true → (x || y) ≡ true
or_digit true y h = refl
or_digit false y h = cc

or_dot : (x y : Bool) → y ≡ true → (x || y) ≡ true
or_dot true y h = refl
or_dot false y h = h

-- a numeric byte here, and those behind it
numeric_from :
    (b : List ℕ) (i j : ℕ)
    → i ≤ j
    → is_numeric (byte_at b i) ≡ true
    → (suc i ≤ j → is_numeric (byte_at b j) ≡ true)
    → is_numeric (byte_at b j) ≡ true
numeric_from b i j le here behind = elim (here_or i j le) [
  | inl e ↦ rw (← e) here
  | inr more ↦ behind more
]

-- where the loop stops at once, it has read nothing behind the first byte
stopped :
    (d d' : Digits) (i j : ℕ) (X : Type 0)
    → ok d ≡ ok d'
    → d.is.cur ≡ suc i
    → i ≤ j
    → suc j < d'.is.cur
    → X
stopped d d' i j X h at le lt =
    let same : d ≡ d' = cc in let cur = ap (λ (x : Digits). x.is.cur) same in absurd (omega arith)

-- The bytes before the last one that the loop has read are numeric.
digits_loop_numeric :
    (f : ℕ) (b : List ℕ) (i dotn : ℕ) (d : Digits)
    → digits_loop f (from b i dotn) ≡ ok d
    → (j : ℕ) → i ≤ j
    → suc j < d.is.cur
    → is_numeric (byte_at b j) ≡ true
unfolding digits_loop
digits_loop_numeric zero b i dotn d h j le lt = cc
digits_loop_numeric (suc f) b i dotn d h j le lt =
    let is : FileInputStream = record { buffer = b; cur = suc i } in
    elim (Bool-cases (has_next is)) [
      | inr e ↦ stopped (from b i dotn) d i j _ (rw e at h) refl le lt
      | inl e ↦ elim (Bool-cases (is_digit (byte_at b i))) [
        | inl digit ↦ numeric_from b i j le (or_digit _ _ digit) (λ more.
            digits_loop_numeric f b (suc i) dotn d (rw (e, next_has is e, digit) at h) j more lt)
        | inr other ↦ elim (Bool-cases (byte_at b i == b'.')) [
          | inr none ↦ stopped (from b i dotn) d i j _ (rw (e, other, none) at h) refl le lt
          | inl dot ↦ elim (Bool-cases (dotn == 0)) [
            | inr second ↦
                stopped (from b i (dotn + 1)) d i j _ (rw (e, other, dot, second) at h) refl le lt
            | inl first ↦ numeric_from b i j le (or_dot _ _ dot) (λ more.
                digits_loop_numeric f b (suc i) (dotn + 1) d
                  (rw (e, next_has is e, other, dot, first) at h) j more lt)
          ]
        ]
      ]
    ]

number_token-undefined :
    (fpu : Fpu) (text : Name) (d : Digits) → number_token fpu text d ≢ undefined
unfolding number_token
number_token-undefined fpu text d h = elim (Bool-cases (d.dotn == 1)) [
  | inl e ↦ let h' = rw e at h in cc
  | inr e ↦ elim (Bool-cases (d.dotn == 0)) [
    | inr e' ↦ let h' = rw (e, e') at h in cc
    | inl e' ↦ elim (Bool-cases (d.c == b'L')) [
      | inl l ↦ let h' = rw (e, e', l) at h in cc
      | inr l ↦ let h' = rw (e, e', l) at h in cc
    ]
  ]
]

module _ (fpu : Fpu) (b : List ℕ) (i : ℕ) (inside : i < length b) where
  abbrev stream : FileInputStream
  stream = record { buffer = b; cur = suc i }

  -- a number that is too long for its array, and the loop that has read it
  long_number :
      (d : Digits)
      → digits_loop (suc (length b)) (from b i 0) ≡ ok d
      → 1023 < d.is.cur - i
      → HasLongNumber b
  long_number d runs long =
      let forward : Forward stream d.is =
        Within-ok _ _ runs
          (digits_loop-Forward (suc (length b)) (from b i 0) (omega arith) (omega arith)) in
      record {
        begin = i;
        inside = omega arith;
        numeric = λ j few.
            digits_loop_numeric (suc (length b)) b i 0 d runs (i + j) (omega arith) (omega arith);
      }

  lex_number-undefined : lex_number fpu (byte_at b i) stream ≡ undefined → HasLongNumber b
  unfolding lex_number
  lex_number-undefined h =
      bind-undefined (HasLongNumber b) (digits_loop (suc (length b)) (from b i 0)) _
        (λ e. absurd (digits_loop-undefined (suc (length b)) (from b i 0) e))
        (λ d runs rest. elim (Bool-cases (ltb 1 d.dotn)) [
          | inl e ↦ let h' = rw e at rest in cc
          | inr e ↦ elim (Bool-cases (ltb 1023 (d.is.cur - (suc i - 1)))) [
            | inl long ↦ long_number d runs (omega (arith, ltb→lt _ _ long))
            | inr short ↦ absurd (number_token-undefined fpu _ d (rw (e, short) at rest))
          ]
        ])
        h

  lex_word-undefined : lex_word fpu (byte_at b i) stream ≢ undefined
  unfolding lex_word
  lex_word-undefined h =
      bind-undefined ⊥ (word_loop (suc (suc (length b))) (byte_at b i) stream) _
        (λ e. word_loop-undefined (suc (suc (length b))) (byte_at b i) stream e) (λ is' _ e. cc) h

  lex_string-undefined : lex_string fpu stream ≢ undefined
  unfolding lex_string
  lex_string-undefined h =
      bind-undefined ⊥ (string_loop (suc (length b)) stream) _
        (λ e. string_loop-undefined (suc (length b)) stream e)
        (λ is' _ e.
          if_both (λ r. r ≢ undefined) (current_char (back is') == b'\"') _ _ (λ h. cc) (λ h. cc) e)
        h

  -- A round writes outside of the array only at a number that is too long for it.
  pub lex_char-undefined : lex_char fpu (byte_at b i) stream ≡ undefined → HasLongNumber b
  lex_char-undefined =
      lex_char_cases fpu (λ r. r ≡ undefined → HasLongNumber b) (byte_at b i) stream
        (λ digit. lex_number-undefined) (λ word e. absurd (lex_word-undefined e))
        (λ other.
          lex_symbol_cases fpu (λ r. r ≡ undefined → HasLongNumber b) (byte_at b i) stream
            (λ ts e. cc) (λ e. cc) (λ e. absurd (lex_string-undefined e)))
