-- ===== src/Usbip/Op.antt =====
-- The operations before the commands of USB/IP in src/usbip.rs: the request of the device list or
-- of the device, and the replies, in the layout of src/usbip_network.h and src/usbip_common.h.
use f2ido.Prelude.{
  ℕ, ◌-◌, ◌^◌, List, [], ◌∷◌, ◌++◌, ltb, ◌==◌, length, drop, replicate, if◌then◌else◌,
}
use f2ido.Prelude.Bits.{u16_to_be_bytes, u16_from_be_bytes, u32_to_be_bytes}
use f2ido.Prelude.Text.{codes, from_utf8}
use f2ido.Outcome.{M, pure, or_abort, assert, ◌>>=◌, ◌>>◌}
use f2ido.Usbip.Stream.{Stream, bytes, read_exact, write_all}
use f2ido.Usbip.Wire.{be_word}

abbrev pub usbip_version : ℕ
usbip_version = 0x0111

abbrev pub op_req_devlist : ℕ
op_req_devlist = 0x8005

abbrev pub op_rep_devlist : ℕ
op_rep_devlist = 0x0005

abbrev pub op_req_import : ℕ
op_req_import = 0x8003

abbrev pub op_rep_import : ℕ
op_rep_import = 0x0003

-- A big-endian u16 at the front.
abbrev pub be_half : List ℕ → ℕ
be_half (a ∷ b ∷ rest) = u16_from_be_bytes a b
be_half _ = 0

-- The version, the code and the status of `op_common`.
unfoldable pub read_op_common : M Stream (ℕ × ℕ × ℕ)
unfolding read_exact
read_op_common = do
  header ← read_exact 8
  pure (be_half header, be_half (drop 2 header), be_word (drop 4 header))

unfoldable pub op_common : ℕ → M Stream (List ℕ)
op_common code = do
  assert (ltb code (2 ^ 16))
  pure (u16_to_be_bytes usbip_version ++ u16_to_be_bytes code ++ u32_to_be_bytes 0)

-- A text at the front of `n` zeros.
abbrev pub text_field : ℕ → List ℕ → List ℕ
text_field n text = text ++ replicate (n - length text) 0

abbrev pub usb_device : List ℕ
usb_device =
    text_field 256 (codes "/frob/bar")
    ++ text_field 32 (codes "1-1")
    ++ u32_to_be_bytes 33
    ++ u32_to_be_bytes 22
    ++ u32_to_be_bytes 2
    ++ u16_to_be_bytes 0
    ++ u16_to_be_bytes 0
    ++ u16_to_be_bytes 0
    ++ 0 ∷ 0 ∷ 0 ∷ 0 ∷ 1 ∷ 1 ∷ []

abbrev pub usb_interface : List ℕ
usb_interface = 3 ∷ 0 ∷ 0 ∷ 0 ∷ []

unfoldable pub write_op_rep_devlist : M Stream (Unit {0})
unfolding op_common write_all
write_op_rep_devlist = do
  common ← op_common op_rep_devlist
  write_all (bytes common)
  write_all (bytes (u32_to_be_bytes 1))
  write_all (bytes usb_device)
  write_all (bytes usb_interface)

unfoldable pub write_op_rep_import : M Stream (Unit {0})
unfolding op_common write_all
write_op_rep_import = do
  common ← op_common op_rep_import
  write_all (bytes common)
  write_all (bytes usb_device)

-- `take_while(|&&x| x != 0)`
abbrev pub before_zero : List ℕ → List ℕ
before_zero [] = []
before_zero (b ∷ bs) = let rest = before_zero bs in if b == 0 then [] else b ∷ rest

-- The bus id of `op_import_request`.
unfoldable pub read_busid : M Stream (List ℕ)
unfolding read_exact from_utf8
read_busid = do field ← read_exact 32; or_abort (from_utf8 (before_zero field))
