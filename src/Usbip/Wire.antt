-- ===== src/Usbip/Wire.antt =====
-- The headers of USB/IP: `read_cmd_header` and the replies to SUBMIT and UNLINK of src/usbip.rs,
-- over the layout of src/k_usbip_common.h.
use f2ido.Prelude.{ℕ, ◌^◌, Option, none, some, List, ◌∷◌, ltb, length, take, drop, if◌then◌else◌}
use f2ido.Prelude.Bits.{u32_from_be_bytes}
use f2ido.Prelude.Text.{ℤ, pos}
use f2ido.Outcome.{M, pure, abort, ◌>>=◌, ◌>>◌}
use f2ido.Usbip.Stream.{
  Header, Reply, ReplyBody, ret_submit, ret_unlink, header, Stream, read_exact, write_all, write,
}

abbrev pub usbip_cmd_submit : ℕ
usbip_cmd_submit = 1

abbrev pub usbip_cmd_unlink : ℕ
usbip_cmd_unlink = 2

abbrev pub usbip_ret_submit : ℕ
usbip_ret_submit = 3

abbrev pub usbip_ret_unlink : ℕ
usbip_ret_unlink = 4

abbrev pub usbip_dir_out : ℕ
usbip_dir_out = 0

abbrev pub usbip_dir_in : ℕ
usbip_dir_in = 1

-- A big-endian u32 at the front.
abbrev pub be_word : List ℕ → ℕ
be_word (a ∷ b ∷ c ∷ d ∷ rest) = u32_from_be_bytes a b c d
be_word _ = 0

unfoldable pub parse_header : List ℕ → Header
parse_header xs = record {
  command = be_word xs;
  seqnum = be_word (drop 4 xs);
  devid = be_word (drop 8 xs);
  direction = be_word (drop 12 xs);
  ep = be_word (drop 16 xs);
  body = drop 20 xs;
}

abbrev pub header_size : ℕ
header_size = 48

unfoldable pub read_cmd_header : M Stream Header
unfolding read_exact parse_header
read_cmd_header = do xs ← read_exact header_size; pure (parse_header xs)

-- The fields of `cmd_submit` and `cmd_unlink` in the union.
abbrev pub transfer_flags : Header → ℕ
transfer_flags h = be_word h.body

-- An i32; a negative one is a bit pattern from 2 ^ 31 on.
abbrev pub transfer_buffer_length : Header → ℕ
transfer_buffer_length h = be_word (drop 4 h.body)

abbrev pub setup : Header → List ℕ
setup h = take 8 (drop 20 h.body)

abbrev pub unlink_seqnum : Header → ℕ
unlink_seqnum h = be_word h.body

-- The reply to `h`, whose base repeats the number, the device and the endpoint.
abbrev pub reply_to : Header → (command : ℕ) → ReplyBody → Reply
reply_to h command body = record {
  command = command;
  seqnum = h.seqnum;
  devid = h.devid;
  direction = usbip_dir_out;
  ep = h.ep;
  body = body;
}

-- `i32::try_from(n).unwrap()`
abbrev pub i32_from : {S : Type 0} → ℕ → M S ℤ
i32_from n = if ltb n (2 ^ 31) then pure (pos n) else abort

abbrev pub actual_length : {S : Type 0} → List ℕ → Option ℤ → M S ℤ
actual_length xs none = i32_from (length xs)
actual_length xs (some l) = pure l

unfoldable pub write_submit_reply : Header → List ℕ → Option ℤ → M Stream (Unit {0})
unfolding write_all write
write_submit_reply h xs actual_len = do
  l ← actual_length xs actual_len
  write_all (header (reply_to h usbip_ret_submit (ret_submit (pos 0) l (pos 0) (pos 0) (pos 0))))
  write xs

-- The `1` of an error reply is not swapped by `to_be`: from a little-endian machine it arrives as
-- this number.
abbrev pub unswapped_one : ℤ
unswapped_one = pos (2 ^ 24)

unfoldable pub write_submit_reply_error : Header → M Stream (Unit {0})
unfolding write_all
write_submit_reply_error h = write_all (
    header (reply_to h usbip_ret_submit (ret_submit unswapped_one (pos 0) (pos 0) (pos 0) (pos 0))))

unfoldable pub write_unlink_reply : Header → ℤ → M Stream (Unit {0})
unfolding write_all
write_unlink_reply h status = write_all (header (reply_to h usbip_ret_unlink (ret_unlink status)))
