-- ===== src/Arm64/Snippets.antt =====
-- Snippets of code in the buffer of src/include/templategenerator.h.
use core_vm.Base.{
  ℕ, suc, ◌+◌, ◌-◌, ◌*◌, ◌%◌, ◌^◌, ◌≤◌, ◌<◌, ◌≡◌, refl, ap, ◌∙◌, sym, true, false, List, [], ◌∷◌,
  ◌++◌, append_assoc, ltb, leb, if◌then◌else◌, length, length-append, take, drop, overwritten,
  overwritten-append, length-overwritten, take_append-drop, length-take_le, drop-drop, le_bytes,
  length-le_bytes, arith, Bool-cases, inl, inr, le→leb, leb→le, ltb→lt,
}
use core_vm.Base.Outcome.{Outcome, ok, aborted, undefined, ◌>>=◌}
use core_vm.Arm64.CodeBuffer.{CodeBuffer, align, new_code_snippet, emit_value, emit_words}

-- the bytes of words
abbrev pub word_bytes : List ℕ → List ℕ
word_bytes [] = []
word_bytes (w ∷ ws) = le_bytes 4 w ++ word_bytes ws

length-word_bytes : (ws : List ℕ) → length (word_bytes ws) ≡ 4 * length ws
length-word_bytes [] = refl
length-word_bytes (w ∷ ws) =
    omega (
      arith,
      length-append (le_bytes 4 w) (word_bytes ws),
      length-le_bytes 4 w,
      length-word_bytes ws,
    )

-- The memory is as long as the capacity, and the position lies in it or at its end.
pub record IsBuffer (b : CodeBuffer) : Type 0 where
  pub whole : length b.memory ≡ b.capacity
  pub above : b.exact_code ≤ b.pos
  pub below : b.pos ≤ b.exact_code + b.capacity

-- Two writes, one behind the other, are one: first behind a list of the first part, then at a place.
overwritten_twice :
    (before rest new more : List ℕ)
    → overwritten
        (length before + length new)
        more
        (overwritten (length before) new (before ++ rest))
      ≡ overwritten (length before) (new ++ more) (before ++ rest)
overwritten_twice before rest new more =
    let behind : length before + length new ≡ length (before ++ new) =
      sym (length-append before new) in
    let together : (before ++ (new ++ more)) ++ drop (length new + length more) rest
        ≡ overwritten (length before) (new ++ more) (before ++ rest) =
      rw (← length-append new more) (sym (overwritten-append before rest (new ++ more))) in
    ap (λ (xs : List ℕ). overwritten (length before + length new) more xs)
      (overwritten-append before rest new)
    ∙ ap (λ (at : ℕ). overwritten at more ((before ++ new) ++ drop (length new) rest)) behind
    ∙ overwritten-append (before ++ new) (drop (length new) rest) more
    ∙ ap (λ (xs : List ℕ). ((before ++ new) ++ more) ++ xs)
        (drop-drop rest (length new) (length more))
    ∙ ap (λ (xs : List ℕ). xs ++ drop (length new + length more) rest)
        (append_assoc before new more)
    ∙ together

overwritten-overwritten :
    (at : ℕ) (new more xs : List ℕ)
    → at ≤ length xs
    → overwritten (at + length new) more (overwritten at new xs) ≡ overwritten at (new ++ more) xs
overwritten-overwritten at new more xs h =
    let size : length (take at xs) ≡ at = length-take_le xs at h in
    rw (size, take_append-drop xs at) at (overwritten_twice (take at xs) (drop at xs) new more)

-- the buffer behind one word
abbrev behind : ℕ → CodeBuffer → CodeBuffer
behind w b = record b {
  pos = b.pos + 4;
  memory = overwritten (b.pos - b.exact_code) (le_bytes 4 w) b.memory;
}

emit_value-behind :
    (w : ℕ) (b : CodeBuffer)
    → IsBuffer b
    → b.pos + 4 ≤ b.exact_code + b.capacity
    → (emit_value 4 w b ≡ ok (behind w b)) × IsBuffer (behind w b)
unfolding emit_value
emit_value-behind w b buffer room = (
  rw (le→leb b.exact_code b.pos buffer.above, le→leb (b.pos + 4) (b.exact_code + b.capacity) room),
  record {
    whole =
        length-overwritten (b.pos - b.exact_code) (le_bytes 4 w) b.memory
          (omega (arith, length-le_bytes 4 w, buffer.whole, buffer.above))
        ∙ buffer.whole;
    above = omega (arith, buffer.above);
    below = room;
  },
)

emit_value_outside :
    (n v : ℕ) (b : CodeBuffer)
    → leb (b.pos + n) (b.exact_code + b.capacity) ≡ false
    → emit_value n v b ≡ undefined
unfolding emit_value
emit_value_outside n v b h = elim (Bool-cases (leb b.exact_code b.pos)) [
  | inl e ↦ rw (e, h)
  | inr e ↦ rw e
]

leb-false_mono : (m n k : ℕ) → m ≤ n → leb m k ≡ false → leb n k ≡ false
leb-false_mono m n k le h = elim (Bool-cases (leb n k)) [
  | inr e ↦ e
  | inl e ↦ let e' : leb m k ≡ true = le→leb m k (omega (arith, leb→le n k e)) in cc
]

-- the buffer at a position, where that lies in it
abbrev ended : CodeBuffer → ℕ → List ℕ → Outcome CodeBuffer
ended b n memory =
    if leb n (b.exact_code + b.capacity)
    then ok (record b { pos = n; memory = memory })
    else undefined

joined_words :
    (w : ℕ) (ws : List ℕ) (b : CodeBuffer)
    → IsBuffer b
    → overwritten (b.pos + 4 - b.exact_code) (word_bytes ws) (behind w b).memory
      ≡ overwritten (b.pos - b.exact_code) (word_bytes (w ∷ ws)) b.memory
joined_words w ws b buffer =
    let off : b.pos - b.exact_code + length (le_bytes 4 w) ≡ b.pos + 4 - b.exact_code =
      omega (arith, length-le_bytes 4 w, buffer.above) in
    ap (λ (at : ℕ). overwritten at (word_bytes ws) (behind w b).memory) (sym off)
    ∙ overwritten-overwritten (b.pos - b.exact_code) (le_bytes 4 w) (word_bytes ws) b.memory
        (omega (arith, buffer.whole, buffer.above, buffer.below))

-- The words that an encoder emits stand in the memory one behind the other, and nothing else changes,
-- where there is room for them.
emit_words_lem :
    (ws : List ℕ) (b : CodeBuffer)
    → IsBuffer b
    → emit_words ws b ≡ (
        if leb (b.pos + 4 * length ws) (b.exact_code + b.capacity)
        then ok (record b {
          pos = b.pos + 4 * length ws;
          memory = overwritten (b.pos - b.exact_code) (word_bytes ws) b.memory;
        })
        else undefined)
unfolding emit_words
emit_words_lem [] b buffer =
    let stay : b.pos + 0 ≡ b.pos = omega arith in
    let same : overwritten (b.pos - b.exact_code) [] b.memory ≡ b.memory =
      (let off : b.pos - b.exact_code + 0 ≡ b.pos - b.exact_code = omega arith in
        rw off (take_append-drop b.memory (b.pos - b.exact_code))) in
    rw (stay, le→leb b.pos (b.exact_code + b.capacity) buffer.below, same)
emit_words_lem (w ∷ ws) b buffer = elim (Bool-cases (leb (b.pos + 4) (b.exact_code + b.capacity))) [
  | inr e ↦ rw (
    emit_value_outside 4 w b e,
    leb-false_mono (b.pos + 4) (b.pos + 4 * suc (length ws)) (b.exact_code + b.capacity)
        (omega arith) e,
  )
  | inl e ↦
      let (emitted, buffer') = emit_value-behind w b buffer (leb→le _ _ e) in
      let ends : b.pos + 4 + 4 * length ws ≡ b.pos + 4 * suc (length ws) = omega arith in
      rw (emitted, emit_words_lem ws (behind w b) buffer')
        (ap
            (λ (n : ℕ).
              ended b n
                (overwritten (b.pos + 4 - b.exact_code) (word_bytes ws) (behind w b).memory))
            ends
          ∙ ap (λ (xs : List ℕ). ended b (b.pos + 4 * suc (length ws)) xs)
              (joined_words w ws b buffer))
]

-- A position that is rounded up is a multiple of 4, less than 4 bytes on.
align_lem : (x : ℕ) → x + 3 < 2 ^ 64 → (align x % 4 ≡ 0) × (x ≤ align x) × (align x < x + 4)
unfolding align
align_lem x h =
    let small : (x + 3) % 2 ^ 64 ≡ x + 3 = omega (arith, h) in
    rw small (omega arith, omega arith, omega arith)

-- Where the position can be rounded up in 64 bits, a new snippet starts at the next multiple of 4,
-- which has to lie in the buffer, else the assertion fails. The words emitted then stand one behind
-- the other from there on, the rest of the memory stays as it was, and the position is behind them,
-- where the buffer has room for all of them; else a word is written outside of the buffer.
pub new_code_snippet-emit_words :
    (ws : List ℕ) (b : CodeBuffer)
    → IsBuffer b
    → b.pos + 3 < 2 ^ 64
    → (start : ℕ) × (start % 4 ≡ 0)
      × (b.pos ≤ start)
      × (start < b.pos + 4)
      × ((new_code_snippet b >>= λ b'. emit_words ws b') ≡ (
          if ltb start (b.exact_code + b.capacity)
          then if leb (start + 4 * length ws) (b.exact_code + b.capacity)
            then ok (record b {
              code = start;
              pos = start + 4 * length ws;
              memory = overwritten (start - b.exact_code) (word_bytes ws) b.memory;
            })
            else undefined
          else aborted))
unfolding new_code_snippet
new_code_snippet-emit_words ws b buffer h =
    let (aligned, above, near) = align_lem b.pos h in
    (
      align b.pos,
      aligned,
      above,
      near,
      elim (Bool-cases (ltb (align b.pos) (b.exact_code + b.capacity))) [
        | inr e ↦ rw e
        | inl e ↦
            let buffer' : IsBuffer (record b { pos = align b.pos; code = align b.pos }) = record {
              whole = buffer.whole;
              above = omega (arith, above, buffer.above);
              below = omega (arith, ltb→lt _ _ e);
            } in
            rw e (emit_words_lem ws (record b { pos = align b.pos; code = align b.pos }) buffer')
      ],
    )
