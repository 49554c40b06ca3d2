-- ===== src/Lexer/Streams.antt =====
-- Streams of src/include/loader.h by what lies before and behind their cursor, and the loops inside a
-- token of src/lexer.cpp on them.
use core_vm.Base.{
  ℕ, zero, suc, ◌+◌, ◌-◌, ◌<◌, ◌≡◌, refl, ap, ◌∙◌, Bool, true, List, [], ◌∷◌, ◌++◌, append_assoc,
  inl, inr, length, length-append, drop-length-append, arith, Bool-cases, lt→ltb,
  take-length-append,
}
use core_vm.Base.Outcome.{ok}
use core_vm.Types.{Name}
use core_vm.Loader.{FileInputStream, byte_at, has_next, next, back}
use core_vm.Lexer.{is_digit, is_word, digits_loop, word_loop, slice}

-- the stream with these bytes before its cursor and those behind it
abbrev pub at : List ℕ → List ℕ → FileInputStream
at before rest = record { buffer = before ++ rest; cur = length before }

-- every byte passes a test
abbrev pub All : (ℕ → Bool) → Name → Type 0
All test [] = Unit
All test (c ∷ cs) = (test c ≡ true) × All test cs

byte_at-at : (before rest : List ℕ) (c : ℕ) → byte_at (before ++ (c ∷ rest)) (length before) ≡ c
byte_at-at [] rest c = refl
byte_at-at (b ∷ bs) rest c = byte_at-at bs rest c

-- one byte more before the cursor
pub at_moved :
    (before rest : List ℕ) (c : ℕ)
    → at (before ++ (c ∷ [])) rest
      ≡ record { buffer = before ++ (c ∷ rest); cur = suc (length before) }
at_moved before rest c =
    let count : length (before ++ (c ∷ [])) ≡ suc (length before) =
      omega (arith, length-append before (c ∷ [])) in
    rw (count, append_assoc before (c ∷ []) rest)

before_end : (before rest : List ℕ) (c : ℕ) → length before < length (before ++ (c ∷ rest))
before_end before rest c = omega (arith, length-append before (c ∷ rest))

pub has_next-at : (before rest : List ℕ) (c : ℕ) → has_next (at before (c ∷ rest)) ≡ true
unfolding has_next
has_next-at before rest c = lt→ltb _ _ (before_end before rest c)

pub next-at :
    (before rest : List ℕ) (c : ℕ) → next (at before (c ∷ rest)) ≡ (c, at (before ++ (c ∷ [])) rest)
unfolding next
next-at before rest c =
    rw (byte_at-at before rest c, lt→ltb _ _ (before_end before rest c), at_moved before rest c)

pub back-at :
    (before rest : List ℕ) (c : ℕ) → back (at (before ++ (c ∷ [])) rest) ≡ at before (c ∷ rest)
unfolding back
back-at before rest c =
    let undo : suc (length before) - 1 ≡ length before = omega arith in
    ap back (at_moved before rest c) ∙ rw undo

-- The loop over a number stops at a space behind the digits.
pub digits_loop-at :
    (ds : Name) (f c : ℕ) (before rest : List ℕ)
    → is_digit c ≡ true
    → All is_digit ds
    → length ds + 1 < f
    → digits_loop f (record { c = c; dotn = 0; is = at before (ds ++ (b' ' ∷ rest)) })
      ≡ ok (record { c = b' '; dotn = 0; is = at (before ++ (ds ++ (b' ' ∷ []))) rest })
unfolding digits_loop
digits_loop-at ds zero c before rest digit all fuel = absurd (omega arith)
digits_loop-at [] (suc zero) c before rest digit all fuel = absurd (omega arith)
digits_loop-at [] (suc (suc f)) c before rest digit all fuel =
    rw (has_next-at before rest b' ', next-at before rest b' ', digit)
      (elim (Bool-cases (has_next (at (before ++ (b' ' ∷ [])) rest))) [
        | inl e ↦ rw e
        | inr e ↦ rw e
      ])
digits_loop-at (d ∷ ds) (suc f) c before rest digit (digit', all) fuel = rw (
  has_next-at before (ds ++ (b' ' ∷ rest)) d,
  next-at before (ds ++ (b' ' ∷ rest)) d,
  digit,
  digits_loop-at ds f d (before ++ (d ∷ [])) rest digit' all (omega arith),
  append_assoc before (d ∷ []) (ds ++ (b' ' ∷ [])),
)

-- The loop over an identifier reads the byte behind it.
pub word_loop-at :
    (ws : Name) (f c : ℕ) (before rest : List ℕ)
    → is_word c ≡ true
    → All is_word ws
    → length ws + 1 < f
    → word_loop f c (at before (ws ++ (b' ' ∷ rest))) ≡ ok (at (before ++ (ws ++ (b' ' ∷ []))) rest)
unfolding word_loop
word_loop-at ws zero c before rest word all fuel = absurd (omega arith)
word_loop-at [] (suc zero) c before rest word all fuel = absurd (omega arith)
word_loop-at [] (suc (suc f)) c before rest word all fuel = rw (next-at before rest b' ', word)
word_loop-at (w ∷ ws) (suc f) c before rest word (word', all) fuel = rw (
  next-at before (ws ++ (b' ' ∷ rest)) w,
  word,
  word_loop-at ws f w (before ++ (w ∷ [])) rest word' all (omega arith),
  append_assoc before (w ∷ []) (ws ++ (b' ' ∷ [])),
)

-- the bytes of a text that stands in the buffer
pub slice-at :
    (before text rest : List ℕ)
    → slice (before ++ (text ++ rest)) (length before) (length text) ≡ text
slice-at before text rest =
    rw (drop-length-append before (text ++ rest)) (take-length-append text rest)
