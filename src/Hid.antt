-- ===== src/Hid.antt =====
-- The short items of src/hid.rs, and the report descriptor that src/usbip.rs builds from them.
pub mod Items
use f2ido.Prelude.{
  ℕ, ◌+◌, ◌*◌, ◌/◌, ◌%◌, ◌≤◌, ◌≡◌, List, [], ◌∷◌, ◌++◌, leb, ltb, ◌==◌, ◌&&◌, bit_or, Option, none,
  some, if◌then◌else◌,
}
use f2ido.Outcome.{M, pure, ◌>>=◌, ◌>>◌, assert}

-- The closure `b0`: `size | (typ << 2) | (tag << 4)`.
unfoldable pub item_prefix : {S : Type 0} → (typ tag size : ℕ) → M S ℕ
item_prefix typ tag size = do
  assert (leb size 3)
  assert (leb typ 2)
  assert (leb tag 15)
  pure (bit_or (bit_or size (typ * 4)) (tag * 16))

-- `short_item`: the shortest of the four sizes that holds the value, a u32.
unfoldable pub short_item : {S : Type 0} → (typ tag value : ℕ) → M S (List ℕ)
unfolding item_prefix
short_item typ tag value =
    if value == 0
    then (do p ← item_prefix typ tag 0; pure (p ∷ []))
    else if leb value 0xff
    then (do p ← item_prefix typ tag 1; pure (p ∷ (value % 256) ∷ []))
    else if leb value 0xffff
    then (do p ← item_prefix typ tag 2; pure (p ∷ (value % 256) ∷ (value / 256 % 256) ∷ []))
    else (do
      p ← item_prefix typ tag 3
      pure (
          p
          ∷ (value % 256)
          ∷ (value / 256 % 256)
          ∷ (value / 65536 % 256)
          ∷ (value / 16777216 % 256)
          ∷ []))

-- `MAIN`, `GLOBAL` and `LOCAL`
abbrev main : ℕ
main = 0

abbrev global : ℕ
global = 1

abbrev local : ℕ
local = 2

module _ {S : Type 0} where
  abbrev pub usage_page : ℕ → M S (List ℕ)
  usage_page = short_item global 0

  abbrev pub logical_minimum : ℕ → M S (List ℕ)
  logical_minimum = short_item global 1

  abbrev pub logical_maximum : ℕ → M S (List ℕ)
  logical_maximum = short_item global 2

  abbrev pub report_size : ℕ → M S (List ℕ)
  report_size = short_item global 7

  abbrev pub report_count : ℕ → M S (List ℕ)
  report_count = short_item global 9

  abbrev pub usage : ℕ → M S (List ℕ)
  usage = short_item local 0

  abbrev pub collection : ℕ → M S (List ℕ)
  collection = short_item main 10

  abbrev pub end_collection : M S (List ℕ)
  end_collection = short_item main 12 0

  abbrev pub input : ℕ → M S (List ℕ)
  input = short_item main 8

  abbrev pub output : ℕ → M S (List ℕ)
  output = short_item main 9

  -- The items of `hid_report_descriptor` in `Device::new`.
  unfoldable pub report_descriptor : M S (List ℕ)
  unfolding short_item
  report_descriptor = do
    page ← usage_page 0xF1D0
    device ← usage 0x01
    open_collection ← collection 0x01
    usage_in ← usage 0x20
    minimum ← logical_minimum 0
    maximum ← logical_maximum 0xff
    size ← report_size 8
    count ← report_count 64
    flags_in ← input (bit_or (bit_or 0 2) 0)
    usage_out ← usage 0x21
    flags_out ← output (bit_or (bit_or 0 2) 0)
    close_collection ← end_collection
    pure (
        page ++ device ++ open_collection ++ usage_in ++ minimum ++ maximum ++ size ++ count
        ++ flags_in ++ usage_out ++ minimum ++ maximum ++ size ++ count ++ flags_out
        ++ close_collection)
