-- ===== src/Loader.antt =====
-- src/include/loader.h: the input stream, which is the bytes of a file and a cursor. The constructors
-- that a lexer is made with set the cursor to 0.
use core_vm.Base.{
  ℕ, zero, suc, ◌+◌, ◌-◌, Bool, true, false, List, [], ◌∷◌, ltb, leb, if◌then◌else◌, length,
}

pub record FileInputStream : Type 0 where
  pub buffer : List ℕ
  pub cur : ℕ

-- the byte at an index, and `'\0'` past the end
abbrev pub byte_at : List ℕ → ℕ → ℕ
byte_at [] i = 0
byte_at (b ∷ bs) zero = b
byte_at (b ∷ bs) (suc i) = byte_at bs i

unfoldable pub open_stream : List ℕ → FileInputStream
open_stream bytes = record { buffer = bytes; cur = 0 }

unfoldable pub has_next : FileInputStream → Bool
has_next is = ltb is.cur (length is.buffer)

unfoldable pub current_char : FileInputStream → ℕ
current_char is = byte_at is.buffer is.cur

-- `Next`: the byte under the cursor, which moves on unless it stands at the end
unfoldable pub next : FileInputStream → ℕ × FileInputStream
next is = (
  byte_at is.buffer is.cur,
  record is { cur = if ltb is.cur (length is.buffer) then suc is.cur else is.cur },
)

-- `Back()`, where the cursor is not at 0
unfoldable pub back : FileInputStream → FileInputStream
back is = record is { cur = is.cur - 1 }

-- `Back(n)`
unfoldable pub back_by : ℕ → FileInputStream → FileInputStream × Bool
back_by n is = if ltb is.cur n then (is, false) else (record is { cur = is.cur - n }, true)

-- `Skip()`
unfoldable pub skip : FileInputStream → FileInputStream
skip is = record is { cur = is.cur + 1 }

-- `Reset`
unfoldable pub reset : ℕ → FileInputStream → FileInputStream × Bool
reset pos is = if leb pos (length is.buffer) then (record is { cur = pos }, true) else (is, false)
