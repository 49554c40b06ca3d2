-- ===== src/Lexer/Numbers.antt =====
-- `atoi` of src/lexer.cpp on the digits that an output stream makes of an `int`.
use native.Mathlib.Nat.{pow-suc}
use core_vm.Base.{
  ℕ, zero, suc, ◌+◌, ◌-◌, ◌*◌, ◌/◌, ◌%◌, ◌^◌, ◌<◌, ◌≤◌, ◌≡◌, refl, true, [], ◌∷◌, ◌++◌, ltb, length,
  arith, Bool-cases, inl, inr, ltb→lt, lt→ltb,
}
use core_vm.Types.{Name}
use core_vm.Ir.Dump.{digits, show_nat, show_signed}
use core_vm.Adt.{SymbolType, int_adt, get_int_adt}
use core_vm.Lexer.{is_digit, digits_value, atol, atoi}
use core_vm.Lexer.Streams.{All}

digit_of : (n : ℕ) → is_digit (b'0' + n % 10) ≡ true
digit_of n = ground arith

-- What is behind the digits can be written behind them.
digits-append : (f n : ℕ) (acc more : Name) → digits f n acc ++ more ≡ digits f n (acc ++ more)
digits-append zero n acc more = refl
digits-append (suc f) n acc more = elim (Bool-cases (ltb n 10)) [
  | inl e ↦ rw e
  | inr e ↦ rw e (digits-append f (n / 10) ((b'0' + n % 10) ∷ acc) more)
]

-- one digit more
digits_value_step :
    (v n : ℕ) (acc : Name)
    → digits_value v ((b'0' + n % 10) ∷ acc) ≡ digits_value (v * 10 + n % 10) acc
digits_value_step v n acc =
    let e : v * 10 + (b'0' + n % 10 - b'0') ≡ v * 10 + n % 10 = omega arith in rw (digit_of n, e)

-- The digits of a number that they are enough for, read from 0, give the number.
digits_value-digits :
    (f n : ℕ) (acc : Name)
    → n < 10 ^ suc f
    → digits_value 0 (digits (suc f) n acc) ≡ digits_value n acc
digits_value-digits zero n acc h =
    let one : 0 * 10 + n % 10 ≡ n = omega (arith, pow-suc 10 0) in
    rw (lt→ltb n 10 (omega (arith, pow-suc 10 0)), digits_value_step 0 n acc, one)
digits_value-digits (suc f) n acc h = elim (Bool-cases (ltb n 10)) [
  | inl e ↦
      let one : 0 * 10 + n % 10 ≡ n = omega (arith, ltb→lt _ _ e) in
      rw (e, digits_value_step 0 n acc, one)
  | inr e ↦
      let split : n / 10 * 10 + n % 10 ≡ n = omega arith in
      rw (
        e,
        digits_value-digits f (n / 10) ((b'0' + n % 10) ∷ acc) (omega (arith, pow-suc 10 (suc f))),
        digits_value_step (n / 10) n acc,
        split,
      )
]

All-digits : (f n : ℕ) (acc : Name) → All is_digit acc → All is_digit (digits f n acc)
All-digits zero n acc all = all
All-digits (suc f) n acc all = elim (Bool-cases (ltb n 10)) [
  | inl e ↦ rw e (digit_of n, all)
  | inr e ↦ rw e (All-digits f (n / 10) ((b'0' + n % 10) ∷ acc) (digit_of n, all))
]

-- at most a digit for each unit of fuel
length-digits : (f n : ℕ) (acc : Name) → length (digits f n acc) ≤ f + length acc
length-digits zero n acc = omega arith
length-digits (suc f) n acc = elim (Bool-cases (ltb n 10)) [
  | inl e ↦ rw e (omega arith)
  | inr e ↦ rw e (omega (arith, length-digits f (n / 10) ((b'0' + n % 10) ∷ acc)))
]

-- and one at least
digits_grow : (f n : ℕ) (acc : Name) → length acc ≤ length (digits f n acc)
digits_grow zero n acc = omega arith
digits_grow (suc f) n acc = elim (Bool-cases (ltb n 10)) [
  | inl e ↦ rw e (omega arith)
  | inr e ↦ rw e (omega (arith, digits_grow f (n / 10) ((b'0' + n % 10) ∷ acc)))
]

digits_some : (f n : ℕ) → 1 ≤ length (digits (suc f) n [])
digits_some f n = elim (Bool-cases (ltb n 10)) [
  | inl e ↦ rw e (omega arith)
  | inr e ↦ rw e (digits_grow f (n / 10) ((b'0' + n % 10) ∷ []))
]

-- What a text is that begins with a digit, goes on with less than `most`, and is read as a number in
-- front of a space.
pub record Reads (most n : ℕ) (text : Name) : Type 0 where
  pub c : ℕ
  pub ds : Name
  pub shape : text ≡ (c ∷ ds)
  pub digit : is_digit c ≡ true
  pub more : All is_digit ds
  pub short : length ds < most
  pub value : digits_value 0 (text ++ (b' ' ∷ [])) ≡ n

Reads-of :
    (most n : ℕ) (text : Name)
    → All is_digit text
    → 1 ≤ length text
    → length text ≤ most
    → digits_value 0 (text ++ (b' ' ∷ [])) ≡ n
    → Reads most n text
Reads-of most n [] all some few value = absurd (omega arith)
Reads-of most n (c ∷ ds) (digit, more) some few value = record {
  c = c;
  ds = ds;
  shape = refl;
  digit = digit;
  more = more;
  short = omega arith;
  value = value;
}

digits-Reads : (f n : ℕ) → n < 10 ^ suc f → Reads (suc f) n (digits (suc f) n [])
digits-Reads f n h =
    let few : length (digits (suc f) n []) ≤ suc f + 0 = length-digits (suc f) n [] in
    Reads-of (suc f) n (digits (suc f) n []) (All-digits (suc f) n [] tt) (digits_some f n)
      (omega arith)
      (rw (digits-append (suc f) n [] (b' ' ∷ [])) (digits_value-digits f n (b' ' ∷ []) h))

-- the print of a number below 2 ^ 31
pub show_nat-Reads : (n : ℕ) → n < 2 ^ 31 → Reads 20 n (show_nat n)
unfolding show_nat
show_nat-Reads n h = digits-Reads 19 n (omega arith)

pub atoi_lem : (n : ℕ) (text : Name) → digits_value 0 text ≡ n → n < 2 ^ 31 → atoi text ≡ n
unfolding atoi atol
atoi_lem n text e h = rw e (omega arith)

pub show_signed-small : (n : ℕ) → n < 2 ^ 31 → show_signed 32 n ≡ show_nat n
unfolding show_signed
show_signed-small n h = rw (lt→ltb n (2 ^ 31) h)

pub get_int_adt-int_adt : (n : ℕ) (t : SymbolType) → n < 2 ^ 31 → get_int_adt (int_adt n t) ≡ n
unfolding get_int_adt int_adt
get_int_adt-int_adt n t h = rw (lt→ltb n (2 ^ 31) h) (omega arith)
