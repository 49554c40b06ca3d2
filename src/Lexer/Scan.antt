-- ===== src/Lexer/Scan.antt =====
-- The loops inside a token of src/lexer.cpp: their fuel, and where they leave the cursor.
use core_vm.Base.{
  ℕ, zero, suc, ◌+◌, ◌<◌, ◌≤◌, ◌≡◌, refl, true, false, inl, inr, List, [], ◌∷◌, ◌==◌, length, arith,
  Bool-cases, ltb→lt, ltb_false→le, lt→ltb,
}
use core_vm.Base.Outcome.{Within, Within-if, Within-mono}
use core_vm.Loader.{FileInputStream, byte_at, has_next, next}
use core_vm.Lexer.{is_digit, is_word, Digits, digits_loop, word_loop, string_loop}

-- The cursor has moved forward, and not beyond the end.
abbrev pub Forward : FileInputStream → FileInputStream → Type 0
Forward is is' = (is'.buffer ≡ is.buffer) × (is.cur ≤ is'.cur) × (is'.cur ≤ length is.buffer)

pub next_has :
    (is : FileInputStream)
    → has_next is ≡ true
    → next is ≡ (byte_at is.buffer is.cur, record is { cur = suc is.cur })
unfolding next has_next
next_has is h = rw h

pub has_next→lt : (is : FileInputStream) → has_next is ≡ true → is.cur < length is.buffer
unfolding has_next
has_next→lt is h = ltb→lt _ _ h

pub lt→has_next : (is : FileInputStream) → is.cur < length is.buffer → has_next is ≡ true
unfolding has_next
lt→has_next is h = lt→ltb _ _ h

-- A byte past the end is no part of a word.
byte_at_end : (bytes : List ℕ) (i : ℕ) → length bytes ≤ i → byte_at bytes i ≡ 0
byte_at_end [] i h = refl
byte_at_end (b ∷ bs) zero h = absurd (omega arith)
byte_at_end (b ∷ bs) (suc i) h = byte_at_end bs i (omega arith)

-- the stream behind one more byte
abbrev pub moved : FileInputStream → FileInputStream
moved is = record is { cur = suc is.cur }

Forward-moved : (is is' : FileInputStream) → Forward (moved is) is' → Forward is is'
Forward-moved is is' h = (h.0, omega arith, h.2)

-- The loop over a number ends within its fuel, and goes forward.
pub digits_loop-Forward :
    (f : ℕ) (d : Digits)
    → d.is.cur ≤ length d.is.buffer
    → length d.is.buffer < d.is.cur + f
    → Within (λ d'. Forward d.is d'.is) (digits_loop f d)
unfolding digits_loop
digits_loop-Forward zero d inside fuel = absurd (omega arith)
digits_loop-Forward (suc f) d inside fuel = elim (Bool-cases (has_next d.is)) [
  | inr e ↦ rw e (refl, omega arith, inside)
  | inl e ↦
      let onward : (n : ℕ)
          → Within (λ (d' : Digits). Forward d.is d'.is)
              (digits_loop f
                (record { c = byte_at d.is.buffer d.is.cur; dotn = n; is = moved d.is })) =
        λ n.
          Within-mono _ _ _ (λ (d' : Digits) h. Forward-moved d.is d'.is h)
            (digits_loop-Forward f
              (record { c = byte_at d.is.buffer d.is.cur; dotn = n; is = moved d.is })
              (has_next→lt d.is e) (omega arith)) in
      let stay : Forward d.is d.is = (refl, omega arith, inside) in
      rw (e, next_has d.is e)
        (Within-if _ (is_digit d.c) _ _ (onward d.dotn) (
          Within-if _ (d.c == b'.') _ _ (Within-if _ (d.dotn == 0) _ _ (onward (d.dotn + 1)) stay)
            stay))
]

-- With a digit and a byte behind it the loop goes a byte forward.
pub digits_loop_first :
    (f : ℕ) (d : Digits)
    → is_digit d.c ≡ true
    → has_next d.is ≡ true
    → length d.is.buffer < d.is.cur + suc f
    → Within (λ d'. Forward (moved d.is) d'.is) (digits_loop (suc f) d)
unfolding digits_loop
digits_loop_first f d digit e fuel =
    rw (e, next_has d.is e, digit)
      (digits_loop-Forward f
        (record { c = byte_at d.is.buffer d.is.cur; dotn = d.dotn; is = moved d.is })
        (has_next→lt d.is e) (omega arith))

next_end : (is : FileInputStream) → has_next is ≡ false → next is ≡ (0, is)
unfolding next has_next
next_end is h = rw (h, byte_at_end is.buffer is.cur (ltb_false→le _ _ h))

word_loop_end :
    (f : ℕ) (is : FileInputStream)
    → is.cur ≤ length is.buffer
    → 0 < f
    → Within (Forward is) (word_loop f 0 is)
unfolding word_loop
word_loop_end zero is inside h = absurd (omega arith)
word_loop_end (suc f) is inside h = (refl, omega arith, inside)

-- The loop over an identifier ends, since `'\0'` at the end of the stream is no part of a word.
pub word_loop-Forward :
    (f c : ℕ) (is : FileInputStream)
    → is.cur ≤ length is.buffer
    → length is.buffer + 1 < is.cur + f
    → Within (Forward is) (word_loop f c is)
unfolding word_loop
word_loop-Forward zero c is inside fuel = absurd (omega arith)
word_loop-Forward (suc f) c is inside fuel = elim (Bool-cases (is_word c)) [
  | inr e ↦ rw e (refl, omega arith, inside)
  | inl e ↦ elim (Bool-cases (has_next is)) [
    | inl more ↦
        rw (e, next_has is more)
          (Within-mono _ _ _ (Forward-moved is) (
            word_loop-Forward f (byte_at is.buffer is.cur) (moved is) (has_next→lt is more)
              (omega arith)))
    | inr end ↦ rw (e, next_end is end) (word_loop_end f is inside (omega arith))
  ]
]

-- With a byte of a word read and another behind it the loop goes a byte forward.
pub word_loop_first :
    (f c : ℕ) (is : FileInputStream)
    → is_word c ≡ true
    → has_next is ≡ true
    → length is.buffer + 1 < is.cur + suc f
    → Within (Forward (moved is)) (word_loop (suc f) c is)
unfolding word_loop
word_loop_first f c is e more fuel =
    rw (e, next_has is more)
      (word_loop-Forward f (byte_at is.buffer is.cur) (moved is) (has_next→lt is more)
        (omega arith))

pub string_loop-Forward :
    (f : ℕ) (is : FileInputStream)
    → is.cur ≤ length is.buffer
    → length is.buffer < is.cur + f
    → Within (Forward is) (string_loop f is)
unfolding string_loop
string_loop-Forward zero is inside fuel = absurd (omega arith)
string_loop-Forward (suc f) is inside fuel = elim (Bool-cases (has_next is)) [
  | inr e ↦ rw e (refl, omega arith, inside)
  | inl e ↦
      rw (e, next_has is e)
        (Within-if _ (byte_at is.buffer is.cur == b'\"') _ _ (refl, omega arith, has_next→lt is e)
          (Within-mono _ _ _ (Forward-moved is)
            (string_loop-Forward f (moved is) (has_next→lt is e) (omega arith))))
]
