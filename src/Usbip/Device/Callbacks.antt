-- ===== src/Usbip/Device/Callbacks.antt =====
-- The callbacks of `init_callbacks` in src/usbip.rs under the event loop.
use f2ido.Prelude.{ℕ, Bool, true, false}
use f2ido.Outcome.{M, Outcome, ok, err, panic, assert, ◌>>◌}
use f2ido.Ctaphid.Types.{Bytes}
use f2ido.Ctaphid.Env.{Env}
use f2ido.Ctaphid.Effects.Rules.{Ends, Keeps, Keeps-pure, Keeps-if, Keeps-bind}
use f2ido.Ctaphid.Parser.{Server}
use f2ido.Ctaphid.Parser.Attention.{IsAttentive, Good}
use f2ido.Usbip.Control.Stateless.{ep0_dev2host-Keeps, ep0_host2dev-Keeps}
use f2ido.Usbip.Descriptors.{Bindings}
use f2ido.Eventloop.{
  Session, Errno, any, handles, remove_first, waits_on, unblock_first, unblock_handler,
  handle_commands,
}
use f2ido.Eventloop.Invariant.{OnState, InLoop, unblock_first-Keeps, handle_commands-Keeps}
use f2ido.Usbip.Device.{
  InCallback, OutCallback, ep0_in, ep1_in, ep0_out, ep2_out, ep1_dev2host, ep2_host2dev, recv_queue,
  send_queue, Loop, on_state, in_callback, out_callback,
}
use f2ido.Usbip.Device.Polling.{ep1_dev2host-IsAttentive, ep2_host2dev-IsAttentive}

module _ {W : Type 0} (env : Env W) (bindings : Bindings) where
  -- A method of the device keeps a property of the device.
  Keeps-on_state :
      {A : Type 0} (P : Server W → Type 0) (m : M (Server W) A)
      → Keeps P m
      → Keeps (OnState {D = InCallback} {H = OutCallback} P) (on_state env m)
  Keeps-on_state {A = A} P m k = record { at = λ l h. lifted l (m l.state) (k.at l.state h) }
    where
      lifted :
          (l : Loop env) (o : Outcome (Server W) A)
          → Ends P o
          → Ends (OnState {D = InCallback} {H = OutCallback} P) (on_state env (λ s. o) l)
      lifted l (ok a s) h = h
      lifted l (err e s) h = h
      lifted l panic h = tt

  -- What both endpoints of packets keep, the callbacks keep.
  module _ (P : Server W → Type 0) (ep1_keeps : (buf : Bytes) → Keeps P (ep1_dev2host env buf))
      (ep2_keeps : (xs : Bytes) → Keeps P (ep2_host2dev xs)) where
    pub in_callback-Keeps :
        (f : InCallback) (setup buf : Bytes)
        → Keeps
            (OnState {D = InCallback} {H = OutCallback} P)
            (in_callback env bindings f setup buf)
    in_callback-Keeps ep0_in setup buf =
        search (Keeps-bind, Keeps-pure, ep0_dev2host-Keeps) depth 10
    in_callback-Keeps ep1_in setup buf = search (Keeps-on_state, ep1_keeps) depth 10

    unblock_handler-Keeps :
        (endpoint : ℕ) (is_in : Bool)
        → Keeps (OnState {D = InCallback} {H = OutCallback} P) (unblock_handler endpoint is_in)
    unfolding unblock_handler
    unblock_handler-Keeps endpoint is_in = record {
      at = λ l h. found l h (any (handles endpoint is_in) l.handlers);
    }
      where
        found :
            (l : Loop env)
            → P l.state
            → (b : Bool)
            → Ends
                (OnState P)
                ((assert b >> unblock_first (remove_first (waits_on endpoint is_in) l.blocked)) l)
        found l h true =
            (unblock_first-Keeps P (remove_first (waits_on endpoint is_in) l.blocked)).at l h
        found l h false = tt

    looks : Keeps P (recv_queue {W = W})
    looks = record { at = λ s h. h }

    looks_at_replies : Keeps P (send_queue {W = W})
    looks_at_replies = record { at = λ s h. h }

    pub out_callback-Keeps :
        (f : OutCallback) (setup xs : Bytes)
        → Keeps
            (OnState {D = InCallback} {H = OutCallback} P)
            (out_callback env bindings f setup xs)
    out_callback-Keeps ep0_out setup xs =
        search (Keeps-bind, Keeps-pure, ep0_host2dev-Keeps) depth 10
    out_callback-Keeps ep2_out setup xs =
        search
          (
            Keeps-bind, Keeps-pure, Keeps-if, Keeps-on_state, ep2_keeps, looks, looks_at_replies,
            unblock_handler-Keeps,
          )
          depth 20

  -- Any number of commands, whatever the host sends and whether they end by a value or by an
  -- error, keeps every waiting channel of the device below the broadcast id attended to, by a
  -- queued reply or by a check packet to be read.
  pub handle_commands-IsAttentive :
      (errno : Errno) (rounds fuel : ℕ) (s : Session InCallback OutCallback (Server W))
      → IsAttentive s.loop.state.parser
      → Ends (InLoop Good) (
          handle_commands
            (in_callback env bindings)
            (out_callback env bindings)
            errno
            rounds
            fuel
            s)
  handle_commands-IsAttentive errno rounds fuel s h =
      (handle_commands-Keeps Good (in_callback env bindings) (out_callback env bindings)
          (in_callback-Keeps Good good_in good_out) (out_callback-Keeps Good good_in good_out) errno
          rounds fuel).at
        s h
    where
      good_in : (buf : Bytes) → Keeps Good (ep1_dev2host env buf)
      good_in buf = record { at = ep1_dev2host-IsAttentive env buf }

      good_out : (xs : Bytes) → Keeps Good (ep2_host2dev {W = W} xs)
      good_out xs = record { at = ep2_host2dev-IsAttentive xs }
