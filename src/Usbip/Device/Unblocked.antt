-- ===== src/Usbip/Device/Unblocked.antt =====
-- The device-to-host callbacks of src/usbip.rs, and the requests that are unblocked.
use f2ido.Prelude.{ℕ, ◌<◌, ◌≡◌, refl, List, All, length}
use f2ido.Outcome.{M, Outcome, ok, err, panic}
use f2ido.Ctaphid.Types.{Bytes}
use f2ido.Ctaphid.Env.{Env}
use f2ido.Ctaphid.Effects.Rules.{Ends, Keeps, Keeps-pure, Keeps-bind}
use f2ido.Ctaphid.Parser.{Server}
use f2ido.Usbip.Control.Stateless.{ep0_dev2host-Keeps}
use f2ido.Usbip.Descriptors.{Bindings}
use f2ido.Usbip.Stream.{Header}
use f2ido.Eventloop.{Session, Errno, handle_unblocked}
use f2ido.Eventloop.Unblocked.{each, IsIn, handle_unblocked-each}
use f2ido.Usbip.Device.{
  InCallback, OutCallback, ep0_in, ep1_in, ep1_dev2host, Loop, on_state, in_callback, out_callback,
}

module _ {W : Type 0} (env : Env W) (bindings : Bindings) where
  module _ (rest : List Header) where
    abbrev Left : Loop env → Type 0
    Left l = l.unblocked ≡ rest

    Keeps-on_state : {A : Type 0} (m : M (Server W) A) → Keeps Left (on_state env m)
    Keeps-on_state {A = A} m = record { at = λ l h. lifted l h (m l.state) }
      where
        lifted :
            (l : Loop env)
            → Left l
            → (o : Outcome (Server W) A) → Ends Left (on_state env (λ s. o) l)
        lifted l h (ok a s) = h
        lifted l h (err e s) = h
        lifted l h panic = tt

    in_callback-Keeps :
        (f : InCallback) (setup buf : Bytes) → Keeps Left (in_callback env bindings f setup buf)
    in_callback-Keeps ep0_in setup buf =
        search (Keeps-bind, Keeps-pure, ep0_dev2host-Keeps) depth 10
    in_callback-Keeps ep1_in setup buf = Keeps-on_state (ep1_dev2host env buf)

  -- For the device, more rounds than there are unblocked requests, all of them IN, are enough for
  -- the loop over them: each is handled once, in its turn.
  pub device-each :
      (errno : Errno) (rounds : ℕ) (s : Session InCallback OutCallback (Server W))
      → length s.loop.unblocked < rounds
      → All IsIn s.loop.unblocked
      → handle_unblocked (in_callback env bindings) (out_callback env bindings) errno rounds s
        ≡ each (in_callback env bindings) (out_callback env bindings) errno s.loop.unblocked s
  device-each errno rounds s fits all =
      handle_unblocked-each (in_callback env bindings) (out_callback env bindings) errno
        (λ f setup buf l. (in_callback-Keeps l.unblocked f setup buf).at l refl) rounds
        s.loop.unblocked s refl fits all
