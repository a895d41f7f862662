-- ===== src/Usbip/Device/Bounds.antt =====
-- The packets that the device of src/usbip.rs has queued for endpoint 1, over runs of the event
-- loop.
use f2ido.Prelude.{ℕ, zero, suc, ◌≤◌, ◌≡◌, some, length}
use f2ido.Ctaphid.Types.{Bytes, InitResponse, max_packet_size}
use f2ido.Ctaphid.Env.{Env}
use f2ido.Ctaphid.Effects.Rules.{Ends, Keeps, Keeps-pure, Keeps-if, Keeps-bind}
use f2ido.Ctaphid.Parser as Parser
use f2ido.Ctaphid.Parser.{Server}
use f2ido.Ctaphid.Parser.Bounds.{Fits, parse-Fits, unparse-Fits}
use f2ido.Usbip.Descriptors.{Bindings}
use f2ido.Usbip.Device.{
  InCallback, OutCallback, is_empty, drain, ep1_dev2host, ep2_host2dev, recv_queue, send_queue,
  in_callback, out_callback,
}
use f2ido.Usbip.Device.Callbacks.{in_callback-Keeps, out_callback-Keeps}
use f2ido.Eventloop.{Session, Errno, handle_commands}
use f2ido.Eventloop.Invariant.{InLoop, handle_commands-Keeps}

module _ {W : Type 0} (env : Env W)
    (packed_fits : (r : InitResponse) (xs : Bytes)
      → env.pack r ≡ some xs
      → length xs ≤ max_packet_size) where
  looks : Keeps Fits (recv_queue {W = W})
  looks = record { at = λ s h. h }

  looks_at_replies : Keeps Fits (send_queue {W = W})
  looks_at_replies = record { at = λ s h. h }

  parses : Keeps Fits (Parser.parse env)
  parses = parse-Fits env packed_fits

  drain-Fits : (n : ℕ) → Keeps Fits (drain env n)
  unfolding drain
  drain-Fits zero = Keeps-pure _ tt
  drain-Fits (suc n) = Keeps-bind Fits recv_queue _ looks (λ q.
      Keeps-if Fits (is_empty q) _ _ (Keeps-pure Fits tt)
        (Keeps-bind Fits _ _ parses (λ _. drain-Fits n)))

  ep1_dev2host-Fits : (buf : Bytes) → Keeps Fits (ep1_dev2host env buf)
  unfolding ep1_dev2host
  ep1_dev2host-Fits buf =
      search (Keeps-pure, Keeps-bind, Keeps-if, looks, looks_at_replies, drain-Fits, unparse-Fits)
        depth 20

  ep2_host2dev-Fits : (xs : Bytes) → Keeps Fits (ep2_host2dev {W = W} xs)
  unfolding ep2_host2dev
  ep2_host2dev-Fits xs = record { at = λ s h. h }

  -- When the packed answer to INIT has at most 64 bytes, any number of commands, ended by a value
  -- or by an error, leaves only packets of at most 64 bytes in the send queue of the device, if it
  -- held only such packets before.
  pub handle_commands-Fits :
      (bindings : Bindings) (errno : Errno) (rounds fuel : ℕ)
      (s : Session InCallback OutCallback (Server W))
      → Fits s.loop.state
      → Ends (InLoop Fits) (
          handle_commands
            (in_callback env bindings)
            (out_callback env bindings)
            errno
            rounds
            fuel
            s)
  handle_commands-Fits bindings errno rounds fuel s h =
      (handle_commands-Keeps Fits (in_callback env bindings) (out_callback env bindings)
          (in_callback-Keeps env bindings Fits ep1_dev2host-Fits ep2_host2dev-Fits)
          (out_callback-Keeps env bindings Fits ep1_dev2host-Fits ep2_host2dev-Fits) errno rounds
          fuel).at
        s h
