-- ===== src/Prelude/Text.antt =====
-- String literals as the bytes that `as_bytes` gives (ASCII text), and signed integers.
use Prim.Native.Nat.{ℕ, ◌-◌}
use Prim.Native.Char.{code}
use Prim.Native.String.{String}
use mathlib.Core.Bool.{Bool, false, ◌&&◌}
use mathlib.Core.Option.{Option, none, some}
use mathlib.Core.List.{List, [], ◌∷◌}
use f2ido.Prelude.Tests.{ltb, leb, ◌==◌, if◌then◌else◌}

abbrev pub codes : String → List ℕ
codes String.[] = []
codes (String.◌∷◌ c s) = code c ∷ codes s

-- `negsuc n` is -(n + 1).
pub data ℤ : Type 0 where
  pos : ℕ → ℤ
  negsuc : ℕ → ℤ

-- `str::from_utf8`. `more n lo hi`: so many bytes of a character are still to come, the next one
-- from `lo` to `hi`; `more 0` is between characters.
pub data Utf8 : Type 0 where
  more : (n lo hi : ℕ) → Utf8
  bad : Utf8

abbrev pub lead_byte : ℕ → Utf8
lead_byte b =
    if ltb b 0x80
    then more 0 0 0
    else if ltb b 0xC2
    then bad
    else if ltb b 0xE0
    then more 1 0x80 0xBF
    else if b == 0xE0
    then more 2 0xA0 0xBF
    else if b == 0xED
    then more 2 0x80 0x9F
    else if ltb b 0xF0
    then more 2 0x80 0xBF
    else if b == 0xF0
    then more 3 0x90 0xBF
    else if ltb b 0xF4
    then more 3 0x80 0xBF
    else if b == 0xF4
    then more 3 0x80 0x8F
    else bad

abbrev pub next_byte : Utf8 → ℕ → Utf8
next_byte (more n lo hi) b =
    if n == 0 then lead_byte b else if leb lo b && leb b hi then more (n - 1) 0x80 0xBF else bad
next_byte bad b = bad

abbrev pub is_whole : Utf8 → Bool
is_whole (more n lo hi) = n == 0
is_whole bad = false

abbrev pub is_utf8_from : Utf8 → List ℕ → Bool
is_utf8_from state [] = is_whole state
is_utf8_from state (b ∷ bs) = is_utf8_from (next_byte state b) bs

unfoldable pub from_utf8 : List ℕ → Option (List ℕ)
from_utf8 bytes = if is_utf8_from (more 0 0 0) bytes then some bytes else none
