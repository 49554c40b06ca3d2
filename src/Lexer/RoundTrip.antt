-- ===== src/Lexer/RoundTrip.antt =====
-- DoParse of src/lexer.cpp on tokens that `CoreVMADT::Serialize` has written, each with a space
-- behind it.
use core_vm.Base.{
  ℕ, zero, suc, ◌<◌, ◌≤◌, ◌≡◌, refl, List, [], ◌∷◌, ◌++◌, append_assoc, append-nil, length,
  length-append, arith, le→ltb_false, ap,
}
use core_vm.Base.Outcome.{ok}
use core_vm.Fpu.{Fpu}
use core_vm.Adt.{Adt}
use core_vm.Ir.Dump.{Text}
use core_vm.Loader.{FileInputStream, has_next, open_stream}
use core_vm.Lexer.{lex_symbol, lex_char, do_parse, lex}
use core_vm.Lexer.Streams.{at, has_next-at, next-at}
use core_vm.Lexer.Lexemes.{
  Lexeme, token, tokens_of, AllLexemes, text_of, spaced, write_spaced, write_spaced-tokens_of,
}
use core_vm.Lexer.Reading.{IsRead, text_of-IsRead}

module _ (fpu : Fpu) where
  -- one round
  do_parse_round :
      (f c : ℕ) (before rest : List ℕ) (done ts : List Adt) (is' : FileInputStream)
      → lex_char fpu c (at (before ++ (c ∷ [])) rest) ≡ ok (ts, is')
      → do_parse fpu (suc f) (at before (c ∷ rest)) done ≡ do_parse fpu f is' (done ++ ts)
  unfolding do_parse
  do_parse_round f c before rest done ts is' h =
      rw (has_next-at before rest c, next-at before rest c, h)

  space : (is : FileInputStream) → lex_char fpu b' ' is ≡ ok ([], is)
  unfolding lex_char lex_symbol
  space is = refl

  -- a token and the space behind it
  do_parse_token :
      (f : ℕ) (t : Adt) (text : Text) (before rest : List ℕ) (done : List Adt)
      → IsRead fpu t text
      → do_parse fpu (suc (suc f)) (at before (text ++ (b' ' ∷ rest))) done
        ≡ do_parse fpu f (at ((before ++ text) ++ (b' ' ∷ [])) rest) (done ++ (t ∷ []))
  do_parse_token f t text before rest done (c, cs, shape, reads) = rw (
    shape,
    do_parse_round (suc f) c before (cs ++ (b' ' ∷ rest)) done (t ∷ [])
        (at (before ++ (c ∷ cs)) (b' ' ∷ rest)) (reads before rest),
    do_parse_round f b' ' (before ++ (c ∷ cs)) rest (done ++ (t ∷ [])) []
        (at ((before ++ (c ∷ cs)) ++ (b' ' ∷ [])) rest) (space _),
    append-nil (done ++ (t ∷ [])),
  )

  do_parse_end :
      (f : ℕ) (before : List ℕ) (done : List Adt)
      → do_parse fpu (suc f) (at before []) done ≡ ok done
  unfolding do_parse has_next
  do_parse_end f before done =
      rw (append-nil before, le→ltb_false (length before) (length before) (omega arith))

  do_parse-spaced :
      (ls : List Lexeme) (f : ℕ) (before : List ℕ) (done : List Adt)
      → AllLexemes ls
      → length (spaced ls) < f
      → do_parse fpu f (at before (spaced ls)) done ≡ ok (done ++ tokens_of ls)
  do_parse-spaced [] zero before done h fuel = absurd (omega arith)
  do_parse-spaced [] (suc f) before done h fuel = rw (do_parse_end f before done, append-nil done)
  do_parse-spaced (l ∷ ls) zero before done h fuel = absurd (omega arith)
  do_parse-spaced (l ∷ ls) (suc zero) before done h fuel =
      absurd (omega (arith, length-append (text_of l) (b' ' ∷ spaced ls)))
  do_parse-spaced (l ∷ ls) (suc (suc f)) before done (h, hs) fuel =
      let reads = text_of-IsRead fpu l h in
      let full : 1 ≤ length (text_of l) = omega (arith, ap length reads.2) in
      rw (
        do_parse_token f (token l) (text_of l) before (spaced ls) done reads,
        do_parse-spaced ls f ((before ++ text_of l) ++ (b' ' ∷ [])) (done ++ (token l ∷ [])) hs
            (omega (arith, length-append (text_of l) (b' ' ∷ spaced ls))),
        append_assoc done (token l ∷ []) (tokens_of ls),
      )

  -- Serialize writes every list of words, of numbers below 2 ^ 31 and of signs other than brackets,
  -- and DoParse, with a round for each byte of the text and one more, reads the same tokens from
  -- the text, where each of them has a space behind it.
  pub lex-write_spaced :
      (show_double : ℕ → Text) (ls : List Lexeme)
      → AllLexemes ls
      → (text : Text) × (write_spaced show_double (tokens_of ls) ≡ ok text)
        × (lex fpu (suc (length text)) text ≡ ok (tokens_of ls))
  unfolding lex open_stream
  lex-write_spaced show_double ls h = (
    spaced ls,
    write_spaced-tokens_of show_double ls h,
    do_parse-spaced ls (suc (length (spaced ls))) [] [] h (omega arith),
  )
