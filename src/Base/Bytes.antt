-- ===== src/Base/Bytes.antt =====
-- Little-endian bytes: how an object of `n` bytes lies in memory on the hosts that are supported.
use native.Mathlib.Nat.{pow-suc}
use Prim.Native.Nat.{ℕ, zero, suc, ◌+◌, ◌*◌, ◌/◌, ◌%◌, ◌^◌, ◌<◌}
use mathlib.Core.Path.{◌≡◌, refl, ap}
use mathlib.Core.List.{List, [], ◌∷◌, ◌++◌}
use mathlib.Core.Option.{Option, none, some}
use native.Mathlib.Omega.{arith}
use core_vm.Base.Lists.{length, drop, drop-length-append}

-- the `n` bytes of the object representation of `v`
unfoldable pub le_bytes : ℕ → ℕ → List ℕ
le_bytes zero v = []
le_bytes (suc n) v = (v % 256) ∷ le_bytes n (v / 256)

unfoldable pub le_value : ℕ → List ℕ → Option ℕ
le_value zero bs = some 0
le_value (suc n) [] = none
le_value (suc n) (b ∷ bs) = elim (le_value n bs) [ none ↦ none | some v ↦ some (b + 256 * v) ]

-- the read of `n` bytes at an offset of a buffer; `none` outside of the buffer
unfoldable pub read_le : ℕ → List ℕ → ℕ → Option ℕ
unfolding le_value
read_le n buf off = le_value n (drop off buf)

pub length-le_bytes : (n v : ℕ) → length (le_bytes n v) ≡ n
unfolding le_bytes
length-le_bytes zero v = refl
length-le_bytes (suc n) v = ap suc (length-le_bytes n (v / 256))

pub le_value-le_bytes :
    (n v : ℕ) (rest : List ℕ) → v < 256 ^ n → le_value n (le_bytes n v ++ rest) ≡ some v
unfolding le_value le_bytes
le_value-le_bytes zero v rest h = let e : v ≡ 0 = omega arith in rw e
le_value-le_bytes (suc n) v rest h =
    let small : v / 256 < 256 ^ n = omega (arith, pow-suc 256 n) in
    rw (le_value-le_bytes n (v / 256) rest small) (ap some (omega arith))

-- What was written after `before` is read at the offset `length before`.
pub read_le-at :
    (n v : ℕ) (before rest : List ℕ)
    → v < 256 ^ n
    → read_le n (before ++ (le_bytes n v ++ rest)) (length before) ≡ some v
unfolding read_le
read_le-at n v before rest h =
    rw (drop-length-append before (le_bytes n v ++ rest)) (le_value-le_bytes n v rest h)
