-- ===== src/Arm64/Branch.antt =====
-- bl of src/templategenerator.cpp, a call of the code at an address, and the manual's reading of its word.
-- An `int` is its 32 bits.
use Prim.Native.Nat.{bit_or}
use core_vm.Base.{
  ℕ, ◌+◌, ◌-◌, ◌*◌, ◌/◌, ◌%◌, ◌^◌, ◌<◌, ◌≡◌, ◌∙◌, ap, arith, true, ◌||◌, List, [], ◌∷◌, Option,
  none, some, inl, inr, Bool-cases, ltb, ltb→lt, leb, ◌==◌, if◌then◌else◌,
}
use core_vm.Base.Outcome.{Outcome, ok, aborted, undefined, ◌>>=◌, ◌>>◌, assert}
use core_vm.Arm64.Bits.{or_above}
use core_vm.Arm64.Memory.{sar}
use core_vm.Arm64.Pairs.{is_negative}

-- the distance of a label from the position in the code, cut to an `int`
abbrev pub offset_of : ℕ → ℕ → ℕ
offset_of pos label = (label + 2 ^ 64 - pos) % 2 ^ 32

-- `-n` of an `int`
abbrev pub negated : ℕ → ℕ
negated n = (2 ^ 32 - n) % 2 ^ 32

-- the word for an offset; the least `int` has no negation
unfoldable pub link : ℕ → Outcome (List ℕ)
link offset =
    if offset == 2 ^ 31
    then undefined
    else if offset == 0 || is_negative offset
    then (assert (ltb (negated offset) 0x03ffffff)
        >> ok (bit_or 0x96000000 (negated (sar offset 2)) ∷ []))
    else (assert (ltb offset 0x03ffffff) >> ok (bit_or 0x94000000 (sar offset 2) ∷ []))

-- `bl(label)` at a position of the code
unfoldable pub bl : ℕ → ℕ → Outcome (List ℕ)
unfolding link
bl pos label = link (offset_of pos label)

-- The distance that a word calls over, if it is a call: 26 signed bits, in units of four bytes.
abbrev pub called : List ℕ → Option ℕ
called [] = none
called (w ∷ w' ∷ ws) = none
called (w ∷ []) =
    if w / 2 ^ 26 == 0x25
    then some
        (if leb (2 ^ 25) (w % 2 ^ 26) then 2 ^ 32 - (2 ^ 26 - w % 2 ^ 26) * 4 else w % 2 ^ 26 * 4)
    else none

-- What the word for an offset calls: the offset itself where that is positive, and otherwise, for the
-- offset -m, the distance m - 2 ^ 27.
abbrev pub linked : ℕ → Outcome (Option ℕ)
linked offset =
    if offset == 2 ^ 31
    then undefined
    else if offset == 0 || is_negative offset
    then (if ltb (negated offset) 0x03ffffff
        then ok (some (2 ^ 32 - (2 ^ 27 - negated offset)))
        else aborted)
    else if ltb offset 0x03ffffff
    then ok (some offset)
    else aborted

forward_word :
    (offset : ℕ)
    → offset % 4 ≡ 0
    → offset < 0x03ffffff
    → called (bit_or 0x94000000 (sar offset 2) ∷ []) ≡ some offset
forward_word offset whole near =
    let joined : bit_or 0x94000000 (sar offset 2) ≡ 0x25 * 2 ^ 26 + offset / 4 =
      or_above 26 0x25 (sar offset 2) (ground arith) ∙ ground arith in
    rw joined (ground arith)

backward_word :
    (offset : ℕ)
    → offset % 4 ≡ 0
    → offset < 2 ^ 32
    → (offset == 0 || is_negative offset) ≡ true
    → negated offset < 0x03ffffff
    → called (bit_or 0x96000000 (negated (sar offset 2)) ∷ [])
      ≡ some (2 ^ 32 - (2 ^ 27 - negated offset))
backward_word offset whole small back near =
    let units : negated (sar offset 2) ≡ negated offset / 4 = ground arith in
    let joined : bit_or 0x96000000 (negated offset / 4) ≡ 0x4b * 2 ^ 25 + negated offset / 4 =
      or_above 25 0x4b (negated offset / 4) (omega arith) in
    rw (units, joined) (ground arith)

link-called :
    (offset : ℕ)
    → offset % 4 ≡ 0
    → offset < 2 ^ 32
    → (link offset >>= λ ws. ok (called ws)) ≡ linked offset
unfolding link
link-called offset whole small = elim (Bool-cases (offset == 2 ^ 31)) [
  | inl e ↦ rw e
  | inr e ↦ elim (Bool-cases (offset == 0 || is_negative offset)) [
    | inl back ↦ elim (Bool-cases (ltb (negated offset) 0x03ffffff)) [
      | inr far ↦ rw (e, back, far)
      | inl near ↦
          rw (e, back, near) (ap ok (backward_word offset whole small back (ltb→lt _ _ near)))
    ]
    | inr ahead ↦ elim (Bool-cases (ltb offset 0x03ffffff)) [
      | inr far ↦ rw (e, ahead, far)
      | inl near ↦ rw (e, ahead, near) (ap ok (forward_word offset whole (ltb→lt _ _ near)))
    ]
  ]
]

-- bl, for a label whose distance, cut to an `int`, is a multiple of four bytes: ahead of the
-- position, and less than 2 ^ 26 - 1 bytes away, it emits one word, which the manual reads as a
-- call of the label; for the position itself and a label m bytes behind it, with m below the same
-- bound, the word is a call of the code 2 ^ 27 - m bytes behind it; beyond the bound an assertion
-- fails, and the least `int` is undefined.
pub bl-called :
    (pos label : ℕ)
    → offset_of pos label % 4 ≡ 0
    → (bl pos label >>= λ ws. ok (called ws)) ≡ linked (offset_of pos label)
unfolding bl
bl-called pos label whole = link-called (offset_of pos label) whole (omega arith)
