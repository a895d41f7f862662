-- ===== src/Usbip/Device/Released.antt =====
-- The callbacks of src/usbip.rs and the requests that the event loop keeps.
use f2ido.Prelude.{ℕ, ◌≡◌, refl, arith, Bool, true, false, List, Option, none, some}
use f2ido.Outcome.{M, Outcome, ok, err, panic, assert, ◌>>◌}
use f2ido.Ctaphid.Types.{Bytes}
use f2ido.Ctaphid.Env.{Env}
use f2ido.Ctaphid.Effects.Rules.{Ends, Keeps, Keeps-pure, Keeps-if, Keeps-bind}
use f2ido.Ctaphid.Parser.{Server}
use f2ido.Usbip.Control.Stateless.{ep0_dev2host-Keeps, ep0_host2dev-Keeps}
use f2ido.Usbip.Descriptors.{Bindings}
use f2ido.Usbip.Stream.{Header}
use f2ido.Eventloop.{any, handles, remove_first, waits_on, unblock_first, unblock_handler}
use f2ido.Eventloop.Handlers.{count-snoc, count-remove_first}
use f2ido.Eventloop.Rules.{Fewer, Released}
use f2ido.Eventloop.Replies.{Releases}
use f2ido.Usbip.Device.{
  InCallback, OutCallback, ep0_in, ep1_in, ep0_out, ep2_out, ep1_dev2host, Loop, on_state,
  in_callback, out_callback,
}

remove_first-Fewer :
    (p : Header → Bool) (bs rest : List Header) (h : Header)
    → remove_first p bs ≡ some (h, rest)
    → Fewer bs rest
remove_first-Fewer p bs rest h e q =
    omega (arith, count-snoc q h rest, count-remove_first p q bs h rest e)

module _ {W : Type 0} (env : Env W) (bindings : Bindings) where
  module _ (bs : List Header) where
    abbrev Kept : Loop env → Type 0
    Kept l = Released bs l

    Keeps-on_state : {A : Type 0} (m : M (Server W) A) → Keeps Kept (on_state env m)
    Keeps-on_state {A = A} m = record { at = λ l r. lifted l r (m l.state) }
      where
        lifted :
            (l : Loop env)
            → Kept l
            → (o : Outcome (Server W) A) → Ends Kept (on_state env (λ s. o) l)
        lifted l r (ok a s) = r
        lifted l r (err e s) = r
        lifted l r panic = tt

    unblock_first-Kept :
        (p : Header → Bool) (l : Loop env)
        → Kept l
        → (o : Option (Header × List Header)) → remove_first p l.blocked ≡ o
        → Ends Kept (unblock_first o l)
    unblock_first-Kept p l r none e = r
    unblock_first-Kept p l r (some (h, rest)) e =
        λ q. omega (arith, r q, remove_first-Fewer p l.blocked rest h e q)

    unblock_handler-Keeps :
        (endpoint : ℕ) (is_in : Bool) → Keeps Kept (unblock_handler endpoint is_in)
    unfolding unblock_handler
    unblock_handler-Keeps endpoint is_in = record {
      at = λ l r. found l r (any (handles endpoint is_in) l.handlers);
    }
      where
        found :
            (l : Loop env)
            → Kept l
            → (b : Bool)
            → Ends Kept
                ((assert b >> unblock_first (remove_first (waits_on endpoint is_in) l.blocked)) l)
        found l r true = unblock_first-Kept (waits_on endpoint is_in) l r _ refl
        found l r false = tt

    in_callback-Keeps :
        (f : InCallback) (setup buf : Bytes) → Keeps Kept (in_callback env bindings f setup buf)
    in_callback-Keeps ep0_in setup buf =
        search (Keeps-bind, Keeps-pure, ep0_dev2host-Keeps) depth 10
    in_callback-Keeps ep1_in setup buf = Keeps-on_state (ep1_dev2host env buf)

    out_callback-Keeps :
        (f : OutCallback) (setup xs : Bytes) → Keeps Kept (out_callback env bindings f setup xs)
    out_callback-Keeps ep0_out setup xs =
        search (Keeps-bind, Keeps-pure, ep0_host2dev-Keeps) depth 10
    out_callback-Keeps ep2_out setup xs =
        search (Keeps-bind, Keeps-pure, Keeps-if, Keeps-on_state, unblock_handler-Keeps) depth 20

  -- What the event loop relies on.
  pub device-Releases : Releases (in_callback env bindings) (out_callback env bindings)
  device-Releases = record {
    in_releases =
        λ f setup buf l. (in_callback-Keeps l.blocked f setup buf).at l (λ p. omega arith);
    out_releases =
        λ f setup xs l. (out_callback-Keeps l.blocked f setup xs).at l (λ p. omega arith);
  }
