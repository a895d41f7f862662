-- ===== src/Hid/Items.antt =====
-- Reading a short item back, by the definition of the HID specification.
use f2ido.Prelude.{
  ℕ, zero, suc, ◌+◌, ◌*◌, ◌/◌, ◌%◌, ◌^◌, ◌≤◌, ◌<◌, ◌≡◌, List, [], ◌∷◌, ◌++◌, leb, ◌==◌, Option,
  none, some, arith, if◌then◌else◌,
}
use f2ido.Prelude.Bits.{or_fields}
use f2ido.Outcome.{ok}
use f2ido.Hid.{short_item}

-- The value of the bytes behind a prefix of the given size code.
abbrev item_value : ℕ → List ℕ → Option (ℕ × List ℕ)
item_value zero rest = some (0, rest)
item_value (suc zero) (a ∷ rest) = some (a, rest)
item_value (suc (suc zero)) (a ∷ b ∷ rest) = some (a + b * 256, rest)
item_value (suc (suc (suc zero))) (a ∷ b ∷ c ∷ d ∷ rest) =
    some (a + b * 256 + c * 65536 + d * 16777216, rest)
item_value _ _ = none

-- An item as the specification reads it: type, tag, value, and the bytes that follow.
abbrev pub Item : Type 0
Item = ℕ × ℕ × ℕ × List ℕ

abbrev with_prefix : ℕ → Option (ℕ × List ℕ) → Option Item
with_prefix p none = none
with_prefix p (some (v, rest)) = some (p / 4 % 4, p / 16, v, rest)

abbrev pub read_item : List ℕ → Option Item
read_item [] = none
read_item (p ∷ rest) = with_prefix p (item_value (p % 4) rest)

-- The bytes that `short_item` writes, with the prefix as a sum.
abbrev item_bytes : (typ tag value : ℕ) → List ℕ
item_bytes typ tag value =
    if value == 0
    then (typ * 4 + tag * 16) ∷ []
    else if leb value 0xff
    then (1 + typ * 4 + tag * 16) ∷ (value % 256) ∷ []
    else if leb value 0xffff
    then (2 + typ * 4 + tag * 16) ∷ (value % 256) ∷ (value / 256 % 256) ∷ []
    else (3 + typ * 4 + tag * 16)
      ∷ (value % 256)
      ∷ (value / 256 % 256)
      ∷ (value / 65536 % 256)
      ∷ (value / 16777216 % 256)
      ∷ []

short_item-item_bytes :
    {S : Type 0} (typ tag value : ℕ) (s : S)
    → typ ≤ 2
    → tag ≤ 15
    → short_item typ tag value s ≡ ok (item_bytes typ tag value) s
unfolding short_item
short_item-item_bytes typ tag value s ht hg = ground (
  arith,
  or_fields 0 typ tag (omega arith) (omega arith) (omega arith),
  or_fields 1 typ tag (omega arith) (omega arith) (omega arith),
  or_fields 2 typ tag (omega arith) (omega arith) (omega arith),
  or_fields 3 typ tag (omega arith) (omega arith) (omega arith),
)

read_item-item_bytes :
    (typ tag value : ℕ) (rest : List ℕ)
    → typ ≤ 2
    → tag ≤ 15
    → value < 2 ^ 32
    → read_item (item_bytes typ tag value ++ rest) ≡ some (typ, tag, value, rest)
read_item-item_bytes typ tag value rest ht hg hv = ground arith

-- An item with a type up to 2, a tag up to 15 and a 32-bit value is written, and a reader gets the
-- type, the tag, the value and the bytes that follow back.
pub read_item-short_item :
    {S : Type 0} (typ tag value : ℕ) (rest : List ℕ) (s : S)
    → typ ≤ 2
    → tag ≤ 15
    → value < 2 ^ 32
    → (xs : List ℕ) × (short_item typ tag value s ≡ ok xs s)
      × (read_item (xs ++ rest) ≡ some (typ, tag, value, rest))
read_item-short_item typ tag value rest s ht hg hv = (
  item_bytes typ tag value,
  short_item-item_bytes typ tag value s ht hg,
  read_item-item_bytes typ tag value rest ht hg hv,
)
