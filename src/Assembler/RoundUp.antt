-- ===== src/Assembler/RoundUp.antt =====
-- RoundUp of src/include/assembler.h.
use native.Mathlib.Nat.{pow-suc, add-zero}
use core_vm.Base.{
  ℕ, zero, suc, ◌+◌, ◌*◌, ◌^◌, ◌<◌, ◌≤◌, ◌≡◌, refl, ◌⊎◌, inl, inr, ltb, arith, Bool-cases, ltb→lt,
  ltb_false→le, lt→ltb, le→ltb_false, subst, leb, false, ◌∙◌, ◌%◌,
}
use core_vm.Base.Outcome.{ok}
use core_vm.Assembler.{int_limit, round_up_loop, round_up}

above_false : {res : ℕ} → res < 2 ^ 31 → leb int_limit res ≡ false
above_false h = ground arith

-- a round that goes on, and one that stops, where `res` is not negative and its double is no more
-- than the sign
on_round :
    (f res val : ℕ)
    → res < 2 ^ 31
    → res < val
    → round_up_loop (suc f) res val ≡ round_up_loop f (res * 2) val
unfolding round_up_loop
on_round f res val small more =
    let same : res * 2 % 2 ^ 32 ≡ res * 2 = omega arith in
    rw (above_false small, lt→ltb res val more, same)

last_round : (f res val : ℕ) → res < 2 ^ 31 → val ≤ res → round_up_loop (suc f) res val ≡ ok res
unfolding round_up_loop
last_round f res val small stop = rw (above_false small, le→ltb_false res val stop)

-- The loop stops at the first power of two from `2 ^ k` on that is no less than `val`.
round_up_loop_lem :
    (f k val : ℕ)
    → val ≤ 2 ^ (k + f)
    → val ≤ 2 ^ 30
    → 2 ^ k < 2 ^ 31
    → (2 ^ k < 2 * val) ⊎ (k ≡ 0)
    → (j : ℕ) × (round_up_loop (suc f) (2 ^ k) val ≡ ok (2 ^ j))
      × (val ≤ 2 ^ j)
      × ((2 ^ j < 2 * val) ⊎ (j ≡ 0))
round_up_loop_lem zero k val h few low small =
    let last : val ≤ 2 ^ k = rw add-zero at h in
    (k, last_round zero (2 ^ k) val low last, last, small)
round_up_loop_lem (suc f) k val h few low small = elim (Bool-cases (ltb (2 ^ k) val)) [
  | inl more ↦
      let (j, runs, above, least) =
        round_up_loop_lem f (suc k) val (subst (λ n. val ≤ 2 ^ n) (omega arith) h) few
          (omega (arith, pow-suc 2 k, ltb→lt _ _ more))
          (inl (omega (arith, pow-suc 2 k, ltb→lt _ _ more))) in
      let doubled : round_up_loop (suc f) (2 ^ k * 2) val ≡ ok (2 ^ j) = rw (← pow-suc) runs in
      (j, on_round (suc f) (2 ^ k) val low (ltb→lt _ _ more) ∙ doubled, above, least)
  | inr stop ↦
      let end = ltb_false→le _ _ stop in (k, last_round (suc f) (2 ^ k) val low end, end, small)
]

-- RoundUp gives the least power of two that is no less than its argument, for every positive `int`
-- up to 2 ^ 30, and fails no assertion.
pub round_up_lem :
    (val : ℕ)
    → 0 < val
    → val ≤ 2 ^ 30
    → (j : ℕ) × (round_up val ≡ ok (2 ^ j)) × (val ≤ 2 ^ j) × ((2 ^ j < 2 * val) ⊎ (j ≡ 0))
unfolding round_up
round_up_lem val pos small =
    let (j, runs, above, least) =
      round_up_loop_lem 31 0 val (omega arith) small (omega arith) (inr refl) in
    (j, rw (runs, lt→ltb 0 (2 ^ j) (omega arith)), above, least)
