-- ===== src/Usbip/Device/Handlers.antt =====
-- The callbacks of `init_callbacks` in src/usbip.rs, and the handlers of the event loop.
use f2ido.Prelude.{ℕ, ◌≡◌, refl, Bool, true, false, List, Option, none, some}
use f2ido.Outcome.{M, Outcome, ok, err, panic, pure, assert, ◌>>=◌, ◌>>◌}
use f2ido.Ctaphid.Types.{Bytes}
use f2ido.Ctaphid.Env.{Env}
use f2ido.Ctaphid.Effects.Rules.{Ends, Keeps, Keeps-pure, Keeps-if, Keeps-bind}
use f2ido.Ctaphid.Parser.{Server}
use f2ido.Usbip.Control.Stateless.{ep0_dev2host-Keeps, ep0_host2dev-Keeps}
use f2ido.Usbip.Descriptors.{Bindings}
use f2ido.Usbip.Stream.{Header}
use f2ido.Usbip.Stream.Writes.{Oks}
use f2ido.Eventloop.{
  Handler, Session, any, handles, remove_first, waits_on, unblock_first, unblock_handler,
  handle_submit,
}
use f2ido.Eventloop.Handlers.{Offers}
use f2ido.Eventloop.Endpoints.{KeepsHandlers, IsDone, handle_submit-Offers}
use f2ido.Usbip.Device.{
  InCallback, OutCallback, ep0_in, ep1_in, ep0_out, ep2_out, ep1_dev2host, Loop, on_state,
  in_callback, out_callback,
}

module _ {W : Type 0} (env : Env W) (bindings : Bindings) where
  module _ (hs : List (Handler InCallback OutCallback)) where
    abbrev Has : Loop env → Type 0
    Has l = l.handlers ≡ hs

    Keeps-on_state : {A : Type 0} (m : M (Server W) A) → Keeps Has (on_state env m)
    Keeps-on_state {A = A} m = record { at = λ l h. lifted l h (m l.state) }
      where
        lifted :
            (l : Loop env) → Has l → (o : Outcome (Server W) A) → Ends Has (on_state env (λ s. o) l)
        lifted l h (ok a s) = h
        lifted l h (err e s) = h
        lifted l h panic = tt

    unblock_first-Keeps : (o : Option (Header × List Header)) → Keeps Has (unblock_first o)
    unblock_first-Keeps none = record { at = λ l h. h }
    unblock_first-Keeps (some (x, rest)) = record { at = λ l h. h }

    unblock_handler-Keeps :
        (endpoint : ℕ) (is_in : Bool) → Keeps Has (unblock_handler endpoint is_in)
    unfolding unblock_handler
    unblock_handler-Keeps endpoint is_in = record {
      at = λ l h. found l h (any (handles endpoint is_in) l.handlers);
    }
      where
        found :
            (l : Loop env)
            → Has l
            → (b : Bool)
            → Ends Has
                ((assert b >> unblock_first (remove_first (waits_on endpoint is_in) l.blocked)) l)
        found l h true =
            (unblock_first-Keeps (remove_first (waits_on endpoint is_in) l.blocked)).at l h
        found l h false = tt

    in_callback-Keeps :
        (f : InCallback) (setup buf : Bytes) → Keeps Has (in_callback env bindings f setup buf)
    in_callback-Keeps ep0_in setup buf =
        search (Keeps-bind, Keeps-pure, ep0_dev2host-Keeps) depth 10
    in_callback-Keeps ep1_in setup buf = Keeps-on_state (ep1_dev2host env buf)

    out_callback-Keeps :
        (f : OutCallback) (setup xs : Bytes) → Keeps Has (out_callback env bindings f setup xs)
    out_callback-Keeps ep0_out setup xs =
        search (Keeps-bind, Keeps-pure, ep0_host2dev-Keeps) depth 10
    out_callback-Keeps ep2_out setup xs =
        search (Keeps-bind, Keeps-pure, Keeps-if, Keeps-on_state, unblock_handler-Keeps) depth 20

  -- An action that is done when it ends with a value.
  record Finishes (m : M (Loop env) Bool) : Type 0 where
    pub at : (l : Loop env) → IsDone (m l)

  Finishes-true : Finishes (pure true)
  Finishes-true = record { at = λ l. refl }

  Finishes-bind :
      {A : Type 0} (m : M (Loop env) A) (f : A → M (Loop env) Bool)
      → ((a : A) → Finishes (f a))
      → Finishes (m >>= f)
  Finishes-bind {A = A} m f h = record { at = λ l. next (m l) }
    where
      next :
          (o : Outcome (Loop env) A)
          → IsDone (elim o as (λ _. Outcome (Loop env) Bool) [
            | ok a l' ↦ f a l'
            | err e l' ↦ err e l'
            | panic ↦ panic
          ])
      next (ok a l') = (h a).at l'
      next (err e l') = tt
      next panic = tt

  out_callback-Finishes :
      (f : OutCallback) (setup xs : Bytes) → Finishes (out_callback env bindings f setup xs)
  out_callback-Finishes ep0_out setup xs = search (Finishes-bind, Finishes-true) depth 10
  out_callback-Finishes ep2_out setup xs = search (Finishes-bind, Finishes-true) depth 10

  -- What the event loop relies on.
  pub device-KeepsHandlers : KeepsHandlers (in_callback env bindings) (out_callback env bindings)
  device-KeepsHandlers = record {
    in_leaves = λ f setup buf l. (in_callback-Keeps l.handlers f setup buf).at l refl;
    out_leaves = λ f setup xs l. (out_callback-Keeps l.handlers f setup xs).at l refl;
    out_done = λ f setup xs l. (out_callback-Finishes f setup xs).at l;
  }

  -- A SUBMIT to the device that ends without an error leaves the event loop with the same
  -- handlers, in some order: as many of them pass any test as before.
  pub device-Offers :
      (h : Header) (s : Session InCallback OutCallback (Server W))
      → Oks
          (Offers s.loop.handlers)
          (handle_submit (in_callback env bindings) (out_callback env bindings) h s)
  device-Offers h s =
      handle_submit-Offers (in_callback env bindings) (out_callback env bindings)
        device-KeepsHandlers h s
