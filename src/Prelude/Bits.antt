-- ===== src/Prelude/Bits.antt =====
-- Facts about masks on one byte, and the byte orders of 16-bit and 32-bit words.
use Prim.Native.Nat.{ℕ, zero, suc, ◌+◌, ◌*◌, ◌/◌, ◌%◌, ◌^◌, ◌<◌, bit_and, bit_or}
use mathlib.Core.Path.{◌≡◌, refl, ap, ap₂, ◌∙◌}
use mathlib.Core.Bool.{Bool, true, ◌&&◌}
use mathlib.Core.List.{List, [], ◌∷◌}
use native.Mathlib.Omega.{arith}
use f2ido.Prelude.Tests.{◌==◌, ==_iff}

-- A test that is run on every byte value up to a bound.
every : (ℕ → Bool) → ℕ → Bool
every test zero = true
every test (suc bound) = every test bound && test bound

every-at : (test : ℕ → Bool) (bound b : ℕ) → b < bound → every test bound ≡ true → test b ≡ true
unfolding every
every-at test zero b below passed = absurd (omega arith)
every-at test (suc bound) b below passed = ground (arith, every-at test bound b)

set_top_table : every (λ b. bit_or b 0x80 == b + 128) 128 ≡ true
unfolding every
set_top_table = refl

-- `b | 0x80` on a byte whose top bit is clear.
pub set_top_bit : (b : ℕ) → b < 128 → bit_or b 0x80 ≡ b + 128
set_top_bit b h = (==_iff _ _).0 (every-at _ 128 b h set_top_table)

clear_top_table : every (λ b. bit_and b 0x7f == b % 128) 256 ≡ true
unfolding every
clear_top_table = refl

-- `b & 0x7f` on a byte.
pub clear_top_bit : (b : ℕ) → b < 256 → bit_and b 0x7f ≡ b % 128
clear_top_bit b h = (==_iff _ _).0 (every-at _ 256 b h clear_top_table)

top_table : every (λ b. bit_and b 0x80 == b / 128 * 128) 256 ≡ true
unfolding every
top_table = refl

-- `b & 0x80` on a byte.
pub top_bit : (b : ℕ) → b < 256 → bit_and b 0x80 ≡ b / 128 * 128
top_bit b h = (==_iff _ _).0 (every-at _ 256 b h top_table)

-- `u32::to_le_bytes` and `u32::from_le_bytes`.
abbrev pub u32_to_le_bytes : ℕ → List ℕ
u32_to_le_bytes x = (x % 256) ∷ (x / 256 % 256) ∷ (x / 65536 % 256) ∷ (x / 16777216 % 256) ∷ []

abbrev pub u32_from_le_bytes : ℕ → ℕ → ℕ → ℕ → ℕ
u32_from_le_bytes a b c d = a + b * 256 + c * 65536 + d * 16777216

pub u32_from_to_le :
    (x : ℕ)
    → x < 2 ^ 32
    → u32_from_le_bytes (x % 256) (x / 256 % 256) (x / 65536 % 256) (x / 16777216 % 256) ≡ x
u32_from_to_le x h = omega arith

-- `u32::to_be_bytes` and `u32::from_be_bytes`.
abbrev pub u32_to_be_bytes : ℕ → List ℕ
u32_to_be_bytes x = (x / 16777216 % 256) ∷ (x / 65536 % 256) ∷ (x / 256 % 256) ∷ (x % 256) ∷ []

abbrev pub u32_from_be_bytes : ℕ → ℕ → ℕ → ℕ → ℕ
u32_from_be_bytes a b c d = u32_from_le_bytes d c b a

-- `u16::to_be_bytes` and `u16::from_be_bytes`.
abbrev pub u16_to_be_bytes : ℕ → List ℕ
u16_to_be_bytes x = (x / 256 % 256) ∷ (x % 256) ∷ []

abbrev pub u16_from_be_bytes : ℕ → ℕ → ℕ
u16_from_be_bytes hi lo = hi * 256 + lo

-- `to_le_bytes` and `from_le_bytes` of a word of `k` bytes.
unfoldable pub to_le_bytes : (k x : ℕ) → List ℕ
to_le_bytes zero x = []
to_le_bytes (suc k) x = (x % 256) ∷ to_le_bytes k (x / 256)

unfoldable pub from_le_bytes : List ℕ → ℕ
from_le_bytes [] = 0
from_le_bytes (b ∷ bs) = b + 256 * from_le_bytes bs

fields_table : every (λ x. bit_or (bit_or (x % 4) (x / 4 % 4 * 4)) (x / 16 * 16) == x) 256 ≡ true
unfolding every
fields_table = refl

-- Three fields of two, two and four bits side by side.
pub or_fields :
    (a b c : ℕ) → a < 4 → b < 4 → c < 16 → bit_or (bit_or a (b * 4)) (c * 16) ≡ a + b * 4 + c * 16
or_fields a b c ha hb hc =
    ap₂ (λ (u v : ℕ). bit_or u v) (ap₂ (λ (u v : ℕ). bit_or u v) low (ap (λ (u : ℕ). u * 4) mid))
      (ap (λ (u : ℕ). u * 16) high)
    ∙ (==_iff _ _).0 (every-at _ 256 (a + b * 4 + c * 16) (omega arith) fields_table)
  where
    low : a ≡ (a + b * 4 + c * 16) % 4
    low = omega arith

    mid : b ≡ (a + b * 4 + c * 16) / 4 % 4
    mid = omega arith

    high : c ≡ (a + b * 4 + c * 16) / 16
    high = omega arith
