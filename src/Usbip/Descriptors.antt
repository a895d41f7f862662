-- ===== src/Usbip/Descriptors.antt =====
-- The descriptors of `Device::new` in src/usbip.rs as the bytes that are sent, and the functions
-- that write them to a sink.
pub mod Lengths
use f2ido.Prelude.{
  ℕ, ◌+◌, ◌*◌, ◌/◌, ◌%◌, ◌^◌, ◌&&◌, List, [], ◌∷◌, ◌++◌, ltb, ◌==◌, length, bit_and, bit_or,
  if◌then◌else◌,
}
use f2ido.Prelude.Text.{codes}
use f2ido.Outcome.{M, ok, abort, ◌>>=◌, ◌>>◌, assert, index, slice}
use f2ido.Hid.{report_descriptor}
use f2ido.Usbip.Setup.{DescriptorType}

-- What bindgen takes from linux/usb/ch9.h and linux/hid.h.
pub record Bindings : Type 0 where
  pub usb_class_per_interface : ℕ
  pub usb_class_hid : ℕ
  pub usb_config_att_one : ℕ
  pub usb_config_att_selfpower : ℕ
  pub usb_dt_endpoint_size : ℕ
  pub usb_endpoint_number_mask : ℕ
  pub usb_endpoint_dir_mask : ℕ
  pub usb_dir_in : ℕ
  pub usb_dir_out : ℕ
  pub usb_endpoint_xfer_int : ℕ
  pub usb_endpoint_maxp_mask : ℕ
  pub hid_dt_hid : ℕ
  pub hid_dt_report : ℕ

-- `&mut dyn Write` over a vector: writing appends.
abbrev pub Sink : Type 0
Sink = List ℕ

abbrev pub emit : List ℕ → M Sink (Unit {0})
emit xs sink = ok tt (sink ++ xs)

-- `to_le` of a u16 field.
abbrev le16 : ℕ → List ℕ
le16 x = (x % 256) ∷ (x / 256 % 256) ∷ []

-- A packed struct whose first field is its own size.
abbrev sized : List ℕ → List ℕ
sized xs = (length xs + 1) ∷ xs

module _ (b : Bindings) where
  unfoldable pub device_descriptor : List ℕ
  device_descriptor = sized (
      1 ∷ le16 0x0110
      ++ (b.usb_class_per_interface % 256) ∷ 0 ∷ 0 ∷ 64 ∷ le16 0
      ++ le16 0
      ++ le16 0x001
      ++ 1 ∷ 2 ∷ 3 ∷ 1 ∷ [])

  abbrev pub total_length : ℕ
  total_length = 9 + 9 + 9 + 2 * b.usb_dt_endpoint_size

  unfoldable pub config_descriptor : List ℕ
  config_descriptor = sized (
      2 ∷ le16 total_length
      ++ 1 ∷ 0 ∷ 4 ∷ (bit_or b.usb_config_att_one b.usb_config_att_selfpower % 256) ∷ 0 ∷ [])

  unfoldable pub interface_descriptor : List ℕ
  interface_descriptor = sized (4 ∷ 0 ∷ 0 ∷ 2 ∷ (b.usb_class_hid % 256) ∷ 0 ∷ 0 ∷ 5 ∷ [])

  unfoldable pub hid_descriptor : (report : List ℕ) → List ℕ
  hid_descriptor report = sized (
      (b.hid_dt_hid % 256) ∷ le16 0x101
      ++ 0 ∷ 1 ∷ (b.hid_dt_report % 256) ∷ le16 (length report % 2 ^ 16))

  -- The nine bytes of an endpoint descriptor, of which `bLength` are sent.
  unfoldable pub endpoint_descriptor : (number dir : ℕ) → List ℕ
  endpoint_descriptor number dir =
      (b.usb_dt_endpoint_size % 256)
        ∷ 5
        ∷ (bit_or (bit_and number b.usb_endpoint_number_mask) (bit_and dir b.usb_endpoint_dir_mask)
            % 256)
        ∷ (b.usb_endpoint_xfer_int % 256)
        ∷ le16 (bit_and 64 b.usb_endpoint_maxp_mask % 2 ^ 16)
      ++ 255 ∷ 0 ∷ 0 ∷ []

  unfoldable pub write_endpoint : (number dir : ℕ) → M Sink (Unit {0})
  unfolding endpoint_descriptor
  write_endpoint number dir = do
    xs ← slice 0 (b.usb_dt_endpoint_size % 256) (endpoint_descriptor number dir)
    emit xs

  -- The strings of `Device::new`, which are ASCII: `encode_utf16` gives their bytes.
  abbrev strings : List (List ℕ)
  strings =
      codes "string0"
      ∷ codes "Fakecompany"
      ∷ codes "Softproduct"
      ∷ codes "v0"
      ∷ codes "Default Config"
      ∷ codes "The Interface"
      ∷ []

  abbrev utf16_le_bytes : List ℕ → List ℕ
  utf16_le_bytes [] = []
  utf16_le_bytes (u ∷ us) = (u % 256) ∷ (u / 256) ∷ utf16_le_bytes us

  unfoldable pub get_lang_descriptor : M Sink (Unit {0})
  get_lang_descriptor = emit (sized (3 ∷ le16 0x0409))

  unfoldable pub get_string_descriptor : ℕ → M Sink (Unit {0})
  get_string_descriptor i = do
    assert (ltb 0 i)
    text ← index strings i
    emit ((2 + length text * 2 % 256) ∷ 3 ∷ [])
    emit (utf16_le_bytes text)

  unfoldable pub get_configuration : M Sink (Unit {0})
  unfolding config_descriptor interface_descriptor hid_descriptor write_endpoint
  get_configuration = do
    report ← report_descriptor
    emit config_descriptor
    emit interface_descriptor
    emit (hid_descriptor report)
    write_endpoint 1 b.usb_dir_in
    write_endpoint 2 b.usb_dir_out

  unfoldable pub get_descriptor : DescriptorType → (i lang : ℕ) → M Sink (Unit {0})
  unfolding device_descriptor get_configuration get_lang_descriptor get_string_descriptor
  get_descriptor DescriptorType.device i lang =
      if (i == 0) && (lang == 0) then emit device_descriptor else abort
  get_descriptor DescriptorType.configuration i lang =
      if (i == 0) && (lang == 0) then get_configuration else abort
  get_descriptor DescriptorType.string i lang =
      if (i == 0) && (lang == 0)
      then get_lang_descriptor
      else if lang == 0x0409
      then get_string_descriptor i
      else abort
  get_descriptor _ i lang = abort

  unfoldable pub get_interface_descriptor : (type : ℕ) → M Sink (Unit {0})
  get_interface_descriptor type =
      if type == b.hid_dt_report then report_descriptor >>= emit else abort
