-- ===== src/Ctaphid/Channel.antt =====
-- The packet level of `impl Channel` in src/ctaphid.rs: one packet moves the state machine.
pub mod Reassembly
pub mod Echo
pub mod Checks
use f2ido.Prelude.{
  ℕ, zero, suc, ◌+◌, ◌-◌, ◌*◌, ◌/◌, ◌%◌, Bool, true, false, ◌&&◌, Option, List, [], ◌∷◌, ◌++◌, ltb,
  leb, ◌==◌, min, length, bit_and, if◌then◌else◌,
}
use f2ido.Prelude.Bits.{u32_from_le_bytes, u16_from_be_bytes}
use f2ido.Outcome.{
  M, Outcome, ok, err, panic, pure, abort, or_abort, ◌>>=◌, ◌>>◌, assert, index, slice, slice_from,
}
use f2ido.Ctaphid.Types.{
  Bytes, State, max_packet_size, ctaphid_ping, ctaphid_cbor, ctaphid_msg, ctaphid_cancel,
  hack_check_status, err_invalid_cmd,
}
use f2ido.Ctaphid.Env.{Env}
use f2ido.Ctaphid.Context.{Context, get_cid, get_state, set_state}
use f2ido.Ctaphid.Commands.{
  send_error, ping_cmd, get_info, make_credential, make_credential_2, make_credential_cancel,
  get_assertion, get_assertion_2, get_assertion_cancel,
}
use f2ido.Ctaphid.U2f.{msg_cmd}

-- `u32::from_le_bytes([pkt[0], pkt[1], pkt[2], pkt[3]])`
unfoldable pub packet_cid : {S : Type 0} → Bytes → M S ℕ
packet_cid pkt = do
  a ← index pkt 0
  b ← index pkt 1
  c ← index pkt 2
  d ← index pkt 3
  pure (u32_from_le_bytes a b c d)

-- `u16::from_be_bytes([pkt[5], pkt[6]])`
unfoldable pub packet_bcnt : {S : Type 0} → Bytes → M S ℕ
packet_bcnt pkt = do hi ← index pkt 5; lo ← index pkt 6; pure (u16_from_be_bytes hi lo)

-- `parse_packet`: the command, the byte count and the bytes of an initialisation packet.
unfoldable pub parse_packet : {S : Type 0} → Bytes → M S (ℕ × ℕ × ℕ × Bytes)
unfolding packet_cid packet_bcnt
parse_packet pkt = do
  assert (leb 7 (length pkt))
  cid ← packet_cid pkt
  cmd_byte ← index pkt 4
  assert (cmd_byte / 128 == 1)
  let cmd : ℕ = bit_and cmd_byte 0x7f
  bcnt ← packet_bcnt pkt
  message ← slice 7 (min (length pkt) (7 + bcnt)) pkt
  pure (cid, cmd, bcnt, message)

module _ {W : Type 0} (env : Env W) where
  unfoldable pub cbor_cmd : Bytes → M (Context W) (Unit {0})
  cbor_cmd message = do
    assert (leb 1 (length message))
    cmd ← index message 0
    cbor ← slice_from 1 message
    if cmd == 0x04
        then get_info env cbor
        else if cmd == 0x01
        then make_credential env cbor
        else if cmd == 0x02
        then get_assertion env cbor
        else abort

  -- An unknown command panics; the error that it sends first is lost with the process.
  unfoldable pub process_message : ℕ → Bytes → M (Context W) (Unit {0})
  unfolding send_error ping_cmd cbor_cmd
  process_message cmd message =
      if cmd == ctaphid_ping
      then ping_cmd message
      else if cmd == ctaphid_cbor
      then cbor_cmd message
      else if cmd == ctaphid_msg
      then msg_cmd env message
      else if cmd == ctaphid_cancel
      then pure tt
      else (send_error err_invalid_cmd >> abort)

  unfoldable pub init_state : Bytes → M (Context W) (Unit {0})
  unfolding packet_cid packet_bcnt
  init_state pkt = do
    assert (leb 8 (length pkt))
    cid ← packet_cid pkt
    self_cid ← get_cid
    assert (cid == self_cid)
    cmd_byte ← index pkt 4
    assert (cmd_byte / 128 == 1)
    let cmd : ℕ = bit_and cmd_byte 0x7f
    bcnt ← packet_bcnt pkt
    message ← slice 7 (min (length pkt) (7 + bcnt)) pkt
    if length message == bcnt
        then process_message cmd message
        else set_state (State.cont cmd bcnt message 0)

  -- `bcnt as usize - buffer.len()`: an underflow panics, at the latest in the slice that it ends.
  abbrev pub missing : (bcnt : ℕ) → Bytes → M (Context W) ℕ
  missing bcnt buffer = if leb (length buffer) bcnt then pure (bcnt - length buffer) else abort

  -- The branch of `cont_state` that takes the last packet of a message.
  unfoldable pub finish_message : (cmd bcnt : ℕ) (buffer : Bytes) → Bytes → M (Context W) (Unit {0})
  finish_message cmd bcnt buffer pkt = do
    rest ← missing bcnt buffer
    piece ← slice 5 (5 + rest) pkt
    let message : Bytes = buffer ++ piece
    assert (length message == bcnt)
    set_state State.init
    process_message cmd message

  -- `cont_state`, on the fields of `State::Cont`. The u16 products stay below 2 ^ 16, since
  -- `lseqnum` is below 128.
  unfoldable pub cont_packet :
      (cmd bcnt : ℕ) (buffer : Bytes) (seqnum : ℕ) → Bytes → M (Context W) (Unit {0})
  unfolding packet_cid
  cont_packet cmd bcnt buffer seqnum pkt = do
    assert (ltb 5 (length pkt))
    cid ← packet_cid pkt
    self_cid ← get_cid
    assert (cid == self_cid)
    lseqnum ← index pkt 4
    assert (lseqnum / 128 == 0)
    assert (lseqnum == seqnum)
    let m : ℕ = max_packet_size
    assert (length buffer == m - 7 + lseqnum * (m - 5))
    if ltb (m - 7 + (lseqnum + 1) * (m - 5)) bcnt
        then (do
          piece ← slice_from 5 pkt
          set_state (State.cont cmd bcnt (buffer ++ piece) (lseqnum + 1)))
        else finish_message cmd bcnt buffer pkt

  -- The packets that `make_credential_state` and `get_assertion_state` take; any other panics.
  abbrev pub on_wait :
      (check cancel : M (Context W) (Unit {0})) → ℕ × ℕ × ℕ × Bytes → M (Context W) (Unit {0})
  on_wait check cancel (cid, cmd, bcnt, message) =
      if (cmd == hack_check_status) && (bcnt == 0)
      then check
      else if (cmd == ctaphid_cancel) && (bcnt == 0)
      then cancel
      else abort

  unfoldable pub make_credential_state : Bytes → M (Context W) (Unit {0})
  unfolding parse_packet
  make_credential_state pkt =
      parse_packet pkt >>= on_wait (make_credential_2 env) make_credential_cancel

  unfoldable pub get_assertion_state : Bytes → M (Context W) (Unit {0})
  unfolding parse_packet
  get_assertion_state pkt = parse_packet pkt >>= on_wait (get_assertion_2 env) get_assertion_cancel

  -- `match &self.state` of `Channel::parse`.
  abbrev pub parse_in : State → Bytes → M (Context W) (Unit {0})
  parse_in State.init pkt = init_state pkt
  parse_in (State.cont cmd bcnt buffer seqnum) pkt = cont_packet cmd bcnt buffer seqnum pkt
  parse_in (State.make_credential args consent) pkt = make_credential_state pkt
  parse_in (State.get_assertion args consent) pkt = get_assertion_state pkt

  unfoldable pub parse : Bytes → M (Context W) (Unit {0})
  parse pkt c = parse_in c.channel.state pkt c
