-- ===== src/Eventloop/Endpoints.antt =====
-- `handle_submit` of src/eventloop.rs, and the handlers of the endpoints.
use f2ido.Prelude.{
  ℕ, ◌≡◌, refl, Bool, true, false, List, [], Option, none, some, if◌then◌else◌, length,
}
use f2ido.Prelude.Text.{pos}
use f2ido.Outcome.{M, Outcome, ok, err, panic, pure, attempt, ◌>>=◌, ◌>>◌}
use f2ido.Usbip.Stream.{Header, Stream, read_exact}
use f2ido.Usbip.Stream.Writes.{Oks}
use f2ido.Usbip.Wire.{setup, write_submit_reply}
use f2ido.Eventloop.{
  Handler, dev2host, host2dev, EventLoop, Session, remove_first, handles, take_handler,
  remove_handler, on_stream, on_loop, schedule, answer_in, transferred, host2dev_transfer,
  run_handler, handle_submit,
}
use f2ido.Ctaphid.Effects.Rules.{
  Ends, Keeps-pure, Keeps-fail, Keeps-abort, Keeps-if, Keeps-assert, Keeps-bind,
}
use f2ido.Eventloop.Handlers.{
  count-remove_first, Offers, Lacks, Untouched, Restores, Restores-abort, Restores-bind,
  Keeps-on_stream, Keeps-block, Restores-schedule, Keeps-call,
}

-- A host-to-device callback that is done.
abbrev pub IsDone : {D H T : Type 0} → Outcome (EventLoop D H T) Bool → Type 0
IsDone (ok done l) = done ≡ true
IsDone (err e l) = Unit {0}
IsDone panic = Unit {0}

-- What the loop relies on: no callback touches the handlers, and a host-to-device callback is
-- always done.
pub record KeepsHandlers {D H T : Type 0}
    (dev2host_call : D → (setup buf : List ℕ) → M (EventLoop D H T) (Bool × List ℕ))
    (host2dev_call : H → (setup xs : List ℕ) → M (EventLoop D H T) Bool) : Type 0 where
  pub in_leaves :
      (f : D) (setup buf : List ℕ) (l : EventLoop D H T)
      → Ends (λ l'. l'.handlers ≡ l.handlers) (dev2host_call f setup buf l)
  pub out_leaves :
      (f : H) (setup xs : List ℕ) (l : EventLoop D H T)
      → Ends (λ l'. l'.handlers ≡ l.handlers) (host2dev_call f setup xs l)
  pub out_done :
      (f : H) (setup xs : List ℕ) (l : EventLoop D H T) → IsDone (host2dev_call f setup xs l)

ruleset handler_rules = (
  Keeps-pure, Keeps-fail, Keeps-abort, Keeps-if, Keeps-assert, Keeps-bind, Restores-abort,
  Restores-bind, Keeps-on_stream, Keeps-block, Restores-schedule,
)

module _ {D H T : Type 0}
    (dev2host_call : D → (setup buf : List ℕ) → M (EventLoop D H T) (Bool × List ℕ))
    (host2dev_call : H → (setup xs : List ℕ) → M (EventLoop D H T) Bool)
    (laws : KeepsHandlers dev2host_call host2dev_call) (h : Header) (hs : List (Handler D H)) where
  answer_in-Restores :
      (ep : ℕ) (f : D) (r : Option (Bool × List ℕ))
      → Restores {T = T} hs
          (Lacks hs (dev2host ep f))
          (answer_in dev2host_call host2dev_call h ep f r)
  answer_in-Restores ep f none = search handler_rules depth 10
  answer_in-Restores ep f (some (true, v)) = search handler_rules depth 10
  answer_in-Restores ep f (some (false, v)) = search handler_rules depth 10

  -- The end of a host-to-device request.
  abbrev put_back : ℕ → H → Bool → M (Session D H T) (Unit {0})
  put_back ep f done = if done then on_loop (schedule (host2dev ep f)) else pure tt

  transfer-Restores :
      (ep : ℕ) (f : H) (v : List ℕ)
      → Restores hs
          (Lacks hs (host2dev ep f))
          (host2dev_transfer dev2host_call host2dev_call h v f >>= put_back ep f)
  unfolding host2dev_transfer schedule
  transfer-Restores ep f v = record {
    at = λ s lacks.
        by_call s lacks (host2dev_call f (setup h) v s.loop) (laws.out_leaves f (setup h) v s.loop)
          (laws.out_done f (setup h) v s.loop);
  }
    where
      by_write :
          (s : Session D H T)
          → Lacks hs (host2dev ep f) s
          → (w : Outcome Stream (Unit {0}))
          → Oks (Offers hs) (((on_stream (λ u. w) >> pure true) >>= put_back ep f) s)
      by_write s lacks (ok a u) = lacks
      by_write s lacks (err e u) = tt
      by_write s lacks panic = tt

      by_call :
          (s : Session D H T)
          → Lacks hs (host2dev ep f) s
          → (o : Outcome (EventLoop D H T) Bool) → Ends (λ l'. l'.handlers ≡ s.loop.handlers) o
          → IsDone o
          → Oks (Offers hs) (
              ((on_loop (attempt (λ l. o)) >>= transferred dev2host_call host2dev_call h (length v))
                  >>= put_back ep f)
                s)
      by_call s lacks (ok done l) same is_done = rw is_done (
          by_write (record s { loop = l }) (λ p. rw same (lacks p))
            (write_submit_reply h [] (some (pos (length v))) s.stream))
      by_call s lacks (err e l) same is_done = tt
      by_call s lacks panic same is_done = tt

  run_handler-Restores :
      (n : ℕ) (y : Handler D H)
      → Restores hs (Lacks hs y) (run_handler dev2host_call host2dev_call h n (some y))
  run_handler-Restores n (dev2host ep f) =
      Restores-bind hs (Lacks hs (dev2host ep f)) _ _
        (Keeps-call hs (dev2host ep f) _ (laws.in_leaves f (setup h) _)) (answer_in-Restores ep f)
  run_handler-Restores n (host2dev ep f) =
      Restores-bind hs (Lacks hs (host2dev ep f)) _ _
        (Keeps-on_stream hs (host2dev ep f) (read_exact n)) (transfer-Restores ep f)

  -- From the first handler that fits on.
  remove-Restores :
      (endpoint n : ℕ) (is_in : Bool)
      → Restores hs
          (Untouched hs)
          (on_loop (remove_handler endpoint is_in) >>= run_handler dev2host_call host2dev_call h n)
  unfolding remove_handler
  remove-Restores endpoint n is_in = record {
    at = λ s same. taken s same (remove_first (handles endpoint is_in) s.loop.handlers) refl;
  }
    where
      taken :
          (s : Session D H T)
          → s.loop.handlers ≡ hs
          → (o : Option (Handler D H × List (Handler D H)))
          → remove_first (handles endpoint is_in) s.loop.handlers ≡ o
          → Oks
              (Offers hs)
              ((on_loop (take_handler o) >>= run_handler dev2host_call host2dev_call h n) s)
      taken s same none e = tt
      taken s same (some (y, rest)) e =
          (run_handler-Restores n y).at _
            (λ p. count-remove_first (handles endpoint is_in) p hs y rest (rw same at e))

  handle_submit-Restores : Restores hs (Untouched hs) (handle_submit dev2host_call host2dev_call h)
  unfolding handle_submit
  handle_submit-Restores = search (handler_rules, remove-Restores) depth 20

-- A SUBMIT that ends without an error leaves the event loop with the same handlers, in some order
-- (as many of them pass any test as before), when no callback touches the handlers and every host-
-- to-device callback that ends with a value says that it is done.
pub handle_submit-Offers :
    {D H T : Type 0}
    (dev2host_call : D → (setup buf : List ℕ) → M (EventLoop D H T) (Bool × List ℕ))
    (host2dev_call : H → (setup xs : List ℕ) → M (EventLoop D H T) Bool)
    → KeepsHandlers dev2host_call host2dev_call
    → (h : Header) (s : Session D H T)
    → Oks (Offers s.loop.handlers) (handle_submit dev2host_call host2dev_call h s)
handle_submit-Offers dev2host_call host2dev_call laws h s =
    (handle_submit-Restores dev2host_call host2dev_call laws h s.loop.handlers).at s refl
