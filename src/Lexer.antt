-- ===== src/Lexer.antt =====
-- `CoreVMLexer::DoParse` of src/lexer.cpp. Its loops take fuel, which Lexer.Scan and Lexer.Ends are about.
pub mod Scan
pub mod Rounds
pub mod Ends
pub mod Long
pub mod Serialize
pub mod Serialized
pub mod Streams
pub mod Numbers
pub mod Lexemes
pub mod Reading
pub mod RoundTrip
use core_vm.Base.{
  ℕ, zero, suc, ◌+◌, ◌-◌, ◌*◌, ◌%◌, ◌^◌, Bool, true, false, not, ◌&&◌, ◌||◌, List, [], ◌∷◌, ◌++◌,
  ltb, leb, ◌==◌, if◌then◌else◌, length, take, drop,
}
use Prim.Native.Nat.{min}
use core_vm.Base.Outcome.{
  Outcome, ok, panicked, undefined, out_of_fuel, ◌>>=◌, ◌>>◌, assert, invalid_number,
  invalid_string_literal, invalid_char,
}
use core_vm.Types.{Name}
use core_vm.Adt.{SymbolType, Adt, int_adt, wide_adt, string_adt}
use core_vm.Fpu.{Fpu}
use core_vm.Loader.{FileInputStream, open_stream, has_next, current_char, next, back, skip}

-- `isdigit` and `isalpha` in the C locale
abbrev pub is_digit : ℕ → Bool
is_digit c = leb b'0' c && leb c b'9'

abbrev pub is_alpha : ℕ → Bool
is_alpha c = (leb b'a' c && leb c b'z') || (leb b'A' c && leb c b'Z')

-- the test of the loop over an identifier
abbrev pub is_word : ℕ → Bool
is_word c = is_alpha c || (c == b'_' || is_digit c)

-- `strtol` in base 10 on a text that begins with a digit: the digits up to another byte, at most
-- `LONG_MAX`
abbrev pub digits_value : ℕ → Name → ℕ
digits_value acc [] = acc
digits_value acc (c ∷ cs) = if is_digit c then digits_value (acc * 10 + (c - b'0')) cs else acc

unfoldable pub atol : Name → ℕ
atol text = min (2 ^ 63 - 1) (digits_value 0 text)

unfoldable pub atoi : Name → ℕ
atoi text = atol text % 2 ^ 32

-- `size` bytes from an index on
abbrev pub slice : List ℕ → ℕ → ℕ → Name
slice bytes begin size = take size (drop begin bytes)

-- what the loop over a number has read
pub record Digits : Type 0 where
  pub c : ℕ
  pub dotn : ℕ
  pub is : FileInputStream

-- `while (_is.HasNext() && (isdigit(c) || (c == '.' && dotn++ == 0))) c = _is.Next();`
unfoldable pub digits_loop : ℕ → Digits → Outcome Digits
digits_loop zero d = out_of_fuel
digits_loop (suc f) d =
    let (c, is) = next d.is in
    let on = digits_loop f (record { c = c; dotn = d.dotn; is = is }) in
    let on_dot = digits_loop f (record { c = c; dotn = d.dotn + 1; is = is }) in
    if not (has_next d.is)
    then ok d
    else if is_digit d.c
    then on
    else if d.c == b'.'
    then (if d.dotn == 0 then on_dot else ok (record d { dotn = d.dotn + 1 }))
    else ok d

-- `while (isalpha(c) || c == '_' || isdigit(c)) c = _is.Next();`, for what is left of the stream
unfoldable pub word_loop : ℕ → ℕ → FileInputStream → Outcome FileInputStream
word_loop zero c is = out_of_fuel
word_loop (suc f) c is =
    let (c', is') = next is in let on = word_loop f c' is' in if is_word c then on else ok is

-- `while (_is.HasNext() && _is.Next() != '"');`
unfoldable pub string_loop : ℕ → FileInputStream → Outcome FileInputStream
string_loop zero is = out_of_fuel
string_loop (suc f) is =
    let (c, is') = next is in
    let on = string_loop f is' in
    if not (has_next is) then ok is else if c == b'\"' then ok is' else on

-- the tokens that a byte gives, and the stream behind them
abbrev pub Lexed : Type 0
Lexed = List Adt × FileInputStream

module _ (fpu : Fpu) where
  -- the token of a number, from its text, the byte that ended it and the count of dots
  unfoldable pub number_token : Name → Digits → Outcome Lexed
  number_token text d =
      if d.dotn == 1
      then ok (wide_adt (fpu.atof text) SymbolType.double ∷ [], back d.is)
      else (assert (d.dotn == 0)
          >> (if d.c == b'L'
              then ok (wide_adt (atol text) SymbolType.long ∷ [], back (next d.is).1)
              else ok (int_adt (atoi text) SymbolType.int ∷ [], back d.is)))

  -- The text of a number is copied into an array of 1024 bytes, and a zero put behind it.
  unfoldable pub lex_number : ℕ → FileInputStream → Outcome Lexed
  lex_number c is = do
    let begin_pos = is.cur - 1
    d ← digits_loop (suc (length is.buffer)) (record { c = c; dotn = 0; is = is })
    if ltb 1 d.dotn
        then panicked invalid_number
        else (if ltb 1023 (d.is.cur - begin_pos)
            then undefined
            else number_token (slice is.buffer begin_pos (d.is.cur - begin_pos)) d)

  -- The last of the bytes read is replaced by the zero that ends the string.
  unfoldable pub lex_word : ℕ → FileInputStream → Outcome Lexed
  lex_word c is = do
    let begin_pos = is.cur - 1
    is' ← word_loop (suc (suc (length is.buffer))) c is
    ok (
      string_adt (slice is.buffer begin_pos (is'.cur - begin_pos - 1)) SymbolType.string ∷ [],
      back is',
    )

  unfoldable pub lex_string : FileInputStream → Outcome Lexed
  lex_string is = do
    let begin_pos = is.cur
    is' ← string_loop (suc (length is.buffer)) is
    if current_char (back is') == b'\"'
        then ok (
          string_adt (slice is.buffer begin_pos (is'.cur - begin_pos)) SymbolType.string_var ∷ [],
          skip (back is'),
        )
        else panicked invalid_string_literal

  -- the bytes that are tokens of their own
  abbrev pub symbol : ℕ → SymbolType → FileInputStream → Outcome Lexed
  symbol c t is = ok (int_adt c t ∷ [], is)

  -- the branches for a byte that begins neither a number nor an identifier
  unfoldable pub lex_symbol : ℕ → FileInputStream → Outcome Lexed
  lex_symbol c is =
      if c == b'['
      then symbol c SymbolType.lbrace is
      else if c == b']'
      then symbol c SymbolType.rbrace is
      else if c == b'('
      then symbol c SymbolType.lparentheses is
      else if c == b')'
      then symbol c SymbolType.rparentheses is
      else if c == b' ' || c == 10
      then ok ([], is)
      else if c == b'+'
      then symbol c SymbolType.plus is
      else if c == b'-'
      then symbol c SymbolType.minus is
      else if c == b'*'
      then symbol c SymbolType.mul is
      else if c == b'/'
      then symbol c SymbolType.div is
      else if c == b'='
      then symbol c SymbolType.eq is
      else if c == b';'
      then symbol c SymbolType.semicolon is
      else if c == b','
      then symbol c SymbolType.comma is
      else if c == b'\"'
      then lex_string is
      else panicked invalid_char

  -- one round of the loop, behind `c = _is.Next()`
  unfoldable pub lex_char : ℕ → FileInputStream → Outcome Lexed
  lex_char c is =
      if is_digit c
      then lex_number c is
      else if is_alpha c || c == b'_'
      then lex_word c is
      else lex_symbol c is

  -- the loop of DoParse
  unfoldable pub do_parse : ℕ → FileInputStream → List Adt → Outcome (List Adt)
  do_parse zero is tokens = out_of_fuel
  do_parse (suc f) is tokens =
      let (c, is') = next is in
      let rest = lex_char c is' >>= λ (ts, is''). do_parse f is'' (tokens ++ ts) in
      if has_next is then rest else ok tokens

  -- `CoreVMLexer lexer{FileInputStream(_filename)}; lexer.DoParse()` on a file of these bytes
  unfoldable pub lex : ℕ → List ℕ → Outcome (List Adt)
  lex fuel bytes = do_parse fuel (open_stream bytes) []
