-- ===== src/Tests/Loop.antt =====
-- Runs of the event loop (src/eventloop.rs) with the device of src/usbip.rs.
use f2ido.Outcome.{ok}
use f2ido.Prelude.{ℕ, ◌/◌, ◌%◌, ◌≡◌, refl, arith, length, take, List, true, [], ◌∷◌, replicate}
use f2ido.Ctaphid.Types.{Bytes}
use f2ido.Ctaphid.Effects.Rules.{Ends}
use f2ido.Ctaphid.Parser.{Server, check_packet}
use f2ido.Ctaphid.Parser.Attention.{Good}
use f2ido.Usbip.Stream.{Header, header, ret_unlink}
use f2ido.Usbip.Stream.Writes.{Oks, Sends}
use f2ido.Usbip.Wire.{usbip_ret_unlink, reply_to}
use f2ido.Usbip.Descriptors.{Bindings, get_configuration}
use f2ido.Usbip.Descriptors.Lengths.{get_configuration-total_length}
use f2ido.Eventloop.Unblocked.{each}
use f2ido.Usbip.Device.Unblocked.{device-each}
use f2ido.Eventloop.{
  any, dev2host, host2dev, Session, Errno, handle_submit, handle_unlink, handle_unblocked,
  handle_commands,
}
use f2ido.Eventloop.Rules.{Settled}
use f2ido.Eventloop.Replies.{handle_submit-Settled}
use f2ido.Eventloop.Handlers.{Offers}
use f2ido.Eventloop.Invariant.{InLoop}
use f2ido.Eventloop.Unlink.{Unlinked, unlink_status, handle_unlink-Unlinked, handle_unlink-Sends}
use f2ido.Usbip.Device.{
  InCallback, OutCallback, ep0_in, ep1_in, ep0_out, ep2_out, in_callback, out_callback,
}
use f2ido.Usbip.Device.Callbacks.{handle_commands-IsAttentive}
use f2ido.Usbip.Device.Released.{device-Releases}
use f2ido.Usbip.Device.Handlers.{device-Offers}
use f2ido.Tests.{env, waiting_channel, server, waiting_server-IsAttentive}

-- The constants of the C headers.
abbrev pub bindings : Bindings
bindings = record {
  usb_class_per_interface = 0;
  usb_class_hid = 3;
  usb_config_att_one = 0x80;
  usb_config_att_selfpower = 0x40;
  usb_dt_endpoint_size = 7;
  usb_endpoint_number_mask = 0xf;
  usb_endpoint_dir_mask = 0x80;
  usb_dir_in = 0x80;
  usb_dir_out = 0;
  usb_endpoint_xfer_int = 3;
  usb_endpoint_maxp_mask = 0x7ff;
  hid_dt_hid = 0x21;
  hid_dt_report = 0x22;
}

abbrev pub errno : Errno
errno = record { einprogress = 115; enoent = 2 }

-- A SUBMIT of number 7 to endpoint 1, for 64 bytes.
abbrev submit_bytes : Bytes
submit_bytes =
    0
    ∷ 0
    ∷ 0
    ∷ 1
    ∷ 0
    ∷ 0
    ∷ 0
    ∷ 7
    ∷ 0
    ∷ 0
    ∷ 0
    ∷ 1
    ∷ 0
    ∷ 0
    ∷ 0
    ∷ 1
    ∷ 0
    ∷ 0
    ∷ 0
    ∷ 1
    ∷ 0
    ∷ 0
    ∷ 0
    ∷ 0
    ∷ 0
    ∷ 0
    ∷ 0
    ∷ 64
    ∷ replicate 20 0

abbrev submit : Header
submit = record {
  command = 1;
  seqnum = 7;
  devid = 1;
  direction = 1;
  ep = 1;
  body = 0 ∷ 0 ∷ 0 ∷ 0 ∷ 0 ∷ 0 ∷ 0 ∷ 64 ∷ replicate 20 0;
}

-- An UNLINK of number 8 that names number 7.
abbrev unlink : Header
unlink = record {
  command = 2;
  seqnum = 8;
  devid = 1;
  direction = 0;
  ep = 0;
  body = 0 ∷ 0 ∷ 0 ∷ 7 ∷ replicate 24 0;
}

-- The device with a channel that waits, and a request that is kept.
abbrev pub session : Session InCallback OutCallback (Server ℕ)
session = record {
  loop = record {
    state = server [] (check_packet 0 ∷ []) waiting_channel;
    handlers = dev2host 0 ep0_in ∷ host2dev 0 ep0_out ∷ dev2host 1 ep1_in ∷ host2dev 2 ep2_out ∷ [];
    blocked = submit ∷ [];
    unblocked = [];
  };
  stream = record { input = submit_bytes; output = []; network = [] };
}

handle_commands-IsAttentive_example :
    Ends
      (InLoop Good)
      (handle_commands (in_callback env bindings) (out_callback env bindings) errno 3 2 session)
handle_commands-IsAttentive_example =
    handle_commands-IsAttentive env bindings errno 3 2 session waiting_server-IsAttentive

device-Offers_example :
    Oks
      (Offers session.loop.handlers)
      (handle_submit (in_callback env bindings) (out_callback env bindings) submit session)
device-Offers_example = device-Offers env bindings submit session

handle_submit-Settled_example :
    Oks
      (Settled submit session.stream session.loop.blocked)
      (handle_submit (in_callback env bindings) (out_callback env bindings) submit session)
handle_submit-Settled_example =
    handle_submit-Settled (in_callback env bindings) (out_callback env bindings)
      (device-Releases env bindings) submit session

handle_unlink-Unlinked_example : Ends (Unlinked 7 session) (handle_unlink errno unlink session)
handle_unlink-Unlinked_example = handle_unlink-Unlinked errno unlink session

handle_unlink-Sends_example :
    Oks
      (λ s'.
        Sends
          (header (reply_to unlink usbip_ret_unlink (ret_unlink (unlink_status errno true))) ∷ [])
          session.stream
          s'.stream)
      (handle_unlink errno unlink session)
unfolding any
handle_unlink-Sends_example = handle_unlink-Sends errno unlink session

-- The same device when the kept request was unblocked.
abbrev unblocked_session : Session InCallback OutCallback (Server ℕ)
unblocked_session = record {
  loop = record {
    state = server [] (check_packet 0 ∷ []) waiting_channel;
    handlers = session.loop.handlers;
    blocked = [];
    unblocked = submit ∷ [];
  };
  stream = session.stream;
}

device-each_example :
    handle_unblocked
      (in_callback env bindings)
      (out_callback env bindings)
      errno
      2
      unblocked_session
    ≡ each
        (in_callback env bindings)
        (out_callback env bindings)
        errno
        (submit ∷ [])
        unblocked_session
device-each_example = device-each env bindings errno 2 unblocked_session (omega arith) (refl, tt)

get_configuration-total_length_example :
    (xs : List ℕ) × (get_configuration bindings [] ≡ ok tt xs)
    × (length xs ≡ 41)
    × (take 4 xs ≡ 9 ∷ 2 ∷ (length xs % 256) ∷ (length xs / 256 % 256) ∷ [])
get_configuration-total_length_example = get_configuration-total_length bindings (omega arith)
