-- ===== src/Program/Greeting.antt =====
-- How src/main.rs answers the first request of a connection.
use f2ido.Prelude.{
  ℕ, ◌≡◌, refl, ap, subst, arith, true, List, [], ◌∷◌, ◌++◌, bytes_eq, leb, leb_iff, length-append,
  append_assoc, length, ◌^◌, ◌<◌,
}
use f2ido.Prelude.Bits.{u16_to_be_bytes, u32_to_be_bytes}
use f2ido.Prelude.Text.{codes, from_utf8}
use f2ido.Outcome.{Outcome, ok, err, panic, returns}
use f2ido.Ctaphid.Env.{Env}
use f2ido.Crypto.Signature.Der.{take-length_append, drop-length_append}
use f2ido.Ctaphid.Effects.Rules.{Ends}
use f2ido.Ctaphid.Parser as Parser
use f2ido.Ctaphid.Parser.Attention.{Good}
use f2ido.Usbip.Stream.{Chunk, Stream, bytes, read_exact, write_all}
use f2ido.Usbip.Descriptors.{Bindings}
use f2ido.Usbip.Device.{init_callbacks}
use f2ido.Usbip.Device.Callbacks.{handle_commands-IsAttentive}
use f2ido.Usbip.Op.{
  usbip_version, op_req_devlist, op_req_import, op_rep_devlist, op_rep_import, text_field,
  usb_device, usb_interface, read_op_common, write_op_rep_devlist, write_op_rep_import, read_busid,
  op_common,
}
use f2ido.Eventloop as Eventloop
use f2ido.Eventloop.{EventLoop, Session, Errno, on_loop, on_stream, handle_commands, schedule}
use f2ido.Eventloop.Invariant.{InLoop}
use f2ido.Program.{
  on_connection, Connection, Socket, fresh, serve, handle_connection, devlist_arm, import_arm,
  handle_stream,
}

-- The header of an operation.
abbrev pub operation : ℕ → List ℕ
operation code = u16_to_be_bytes usbip_version ++ u16_to_be_bytes code ++ u32_to_be_bytes 0

-- A stream to read `input` from, on a working network.
abbrev pub open_stream : List ℕ → List Chunk → Stream
open_stream input output = record { input = input; output = output; network = [] }

abbrev pub devlist_reply : List Chunk
devlist_reply =
    bytes (operation op_rep_devlist)
    ∷ bytes (u32_to_be_bytes 1)
    ∷ bytes usb_device
    ∷ bytes usb_interface
    ∷ []

abbrev pub import_reply : List Chunk
import_reply = bytes (operation op_rep_import) ∷ bytes usb_device ∷ []

abbrev pub connection : {W : Type 0} → W → Stream → Connection W
connection w s = record { world = w; stream = s }

read_exact-append :
    (xs rest : List ℕ) (n : ℕ) (out : List Chunk)
    → length xs ≡ n
    → read_exact n (open_stream (xs ++ rest) out) ≡ ok xs (open_stream rest out)
unfolding read_exact
read_exact-append xs rest n out e =
    subst (λ (k : ℕ). read_exact k (open_stream (xs ++ rest) out) ≡ ok xs (open_stream rest out)) e
      (rw (enough, take-length_append xs rest, drop-length_append xs rest) refl)
  where
    enough : leb (length xs) (length (xs ++ rest)) ≡ true
    enough = (leb_iff (length xs) (length (xs ++ rest))).1 (omega (arith, length-append xs rest))

-- A call on the stream of a connection.
abbrev at_connection : {W A : Type 0} → W → Outcome Stream A → Outcome (Connection W) A
at_connection w (ok a s) = ok a (connection w s)
at_connection w (err e s) = err e (connection w s)
at_connection w panic = panic

module _ (rest : List ℕ) (out : List Chunk) where
  read_op_common-operation :
      (code : ℕ)
      → code < 2 ^ 16
      → read_op_common (open_stream (operation code ++ rest) out)
        ≡ ok (usbip_version, code, 0) (open_stream rest out)
  unfolding read_op_common
  read_op_common-operation code h =
      returns _ (read_exact-append (operation code) rest 8 out refl)
        (ap (λ (c : ℕ). ok (usbip_version, c, 0) (open_stream rest out)) (omega arith))

  read_busid-text :
      read_busid (open_stream (text_field 32 (codes "1-1") ++ rest) out)
      ≡ ok (codes "1-1") (open_stream rest out)
  unfolding read_busid from_utf8
  read_busid-text =
      returns _ (read_exact-append (text_field 32 (codes "1-1")) rest 32 out refl) refl

  write_op_rep_devlist-reply :
      write_op_rep_devlist (open_stream rest out) ≡ ok tt (open_stream rest (out ++ devlist_reply))
  unfolding write_op_rep_devlist op_common write_all
  write_op_rep_devlist-reply = ap (λ cs. ok tt (open_stream rest cs)) (simp append_assoc)

  write_op_rep_import-reply :
      write_op_rep_import (open_stream rest out) ≡ ok tt (open_stream rest (out ++ import_reply))
  unfolding write_op_rep_import op_common write_all
  write_op_rep_import-reply = ap (λ cs. ok tt (open_stream rest cs)) (simp append_assoc)

module _ {W : Type 0} (env : Env W) (bindings : Bindings) (errno : Errno) (socket : Socket)
    (rounds fuel : ℕ) where
  -- A connection that was imported, from its fresh device with its callbacks on, keeps every
  -- waiting channel below the broadcast id attended to, whatever the host sends and whether the
  -- run ends by a value or by an error.
  pub serve-IsAttentive :
      (c : Connection W)
      → Ends (InLoop Good) (serve env bindings errno socket rounds fuel (fresh c))
  unfolding serve init_callbacks schedule Eventloop.new Parser.new
  serve-IsAttentive c =
      handle_commands-IsAttentive env bindings errno rounds fuel _
        (record { numbered = λ j d fits e. cc; attended = λ j d fits e waits. cc })

  module _ (w : W) (rest : List ℕ) (out : List Chunk)
      (nodelay : (s : Stream) → socket.set_nodelay s ≡ ok tt s) where
    -- When nodelay can be set, the socket shut down and the network works, a connection that asks
    -- for the list gets the header, the number 1, the device and its interface, and nothing else
    -- is read.
    pub handle_stream_devlist :
        (shutdown : (s : Stream) → socket.shutdown s ≡ ok tt s)
        → handle_stream env bindings errno socket rounds fuel
            (connection w (open_stream (operation op_req_devlist ++ rest) out))
          ≡ ok tt (connection w (open_stream rest (out ++ devlist_reply)))
    unfolding handle_stream devlist_arm
    handle_stream_devlist shutdown = returns _ (ap (at_connection w) (nodelay _)) (
        returns _
          (ap (at_connection w) (read_op_common-operation rest out op_req_devlist (omega arith)))
          (returns (λ _. on_connection socket.shutdown)
            (ap (at_connection w) (write_op_rep_devlist-reply rest out))
            (ap (at_connection w) (shutdown _))))

    -- When nodelay can be set and the network works, a connection that asks for the device 1-1
    -- gets the header and the device, and goes on with the commands behind the request.
    pub handle_stream_import :
        handle_stream env bindings errno socket rounds fuel (
          connection w
            (open_stream (operation op_req_import ++ text_field 32 (codes "1-1") ++ rest) out))
        ≡ handle_connection env bindings errno socket rounds fuel
            (connection w (open_stream rest (out ++ import_reply)))
    unfolding handle_stream import_arm bytes_eq
    handle_stream_import = returns _ (ap (at_connection w) (nodelay _)) (
        returns _
          (ap (at_connection w) (
            read_op_common-operation (text_field 32 (codes "1-1") ++ rest) out op_req_import
              (omega arith)))
          (returns _ (ap (at_connection w) (read_busid-text rest out)) (
            returns (λ _. handle_connection env bindings errno socket rounds fuel)
              (ap (at_connection w) (write_op_rep_import-reply rest out)) refl)))
