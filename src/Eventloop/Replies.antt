-- ===== src/Eventloop/Replies.antt =====
-- `handle_submit` of src/eventloop.rs, and the answer to its request.
use f2ido.Prelude.{ℕ, refl, arith, inr, Bool, true, false, List, Option, none, some}
use f2ido.Outcome.{M, Outcome, ok, err, panic, abort, ◌>>◌}
use f2ido.Usbip.Stream.{Header, Stream}
use f2ido.Eventloop.{
  Handler, dev2host, host2dev, EventLoop, Session, on_loop, schedule, block, answer_in, transferred,
  host2dev_transfer, run_handler, handle_submit,
}
use f2ido.Ctaphid.Effects.Rules.{
  Ends, Keeps, Keeps-pure, Keeps-fail, Keeps-abort, Keeps-if, Keeps-assert, Keeps-bind,
}
use f2ido.Eventloop.Rules.{
  Settled, TellsBy, Settles, Keeps-on_loop, Keeps-read_exact, Keeps-attempt, Keeps-remove_handler,
  Released, Still-schedule, Still-pure, TellsBy-write, TellsBy-then, TellsBy-bind, Settles-TellsBy,
  Settles-bind,
}
use f2ido.Eventloop.Written.{write_submit_reply-Tells, write_submit_reply_error-Tells}
use f2ido.Usbip.Stream.Writes.{Oks}

-- What the loop relies on: no callback keeps a request.
pub record Releases {D H T : Type 0}
    (dev2host_call : D → (setup buf : List ℕ) → M (EventLoop D H T) (Bool × List ℕ))
    (host2dev_call : H → (setup xs : List ℕ) → M (EventLoop D H T) Bool) : Type 0 where
  pub in_releases :
      (f : D) (setup buf : List ℕ) (l : EventLoop D H T)
      → Ends (Released l.blocked) (dev2host_call f setup buf l)
  pub out_releases :
      (f : H) (setup xs : List ℕ) (l : EventLoop D H T)
      → Ends (Released l.blocked) (host2dev_call f setup xs l)

pub Keeps-Released :
    {D H T A : Type 0} (bs : List Header) (m : M (EventLoop D H T) A)
    → ((l : EventLoop D H T) → Ends (Released l.blocked) (m l))
    → Keeps (Released bs) m
Keeps-Released {D = D} {H = H} {T = T} {A = A} bs m law = record {
  at = λ l r. further l r (m l) (law l);
}
  where
    further :
        (l : EventLoop D H T)
        → Released bs l
        → (o : Outcome (EventLoop D H T) A) → Ends (Released l.blocked) o
        → Ends (Released bs) o
    further l r (ok a l') r' = λ p. omega (arith, r p, r' p)
    further l r (err e l') r' = λ p. omega (arith, r p, r' p)
    further l r panic r' = tt

ruleset reply_rules = (
  Keeps-pure, Keeps-fail, Keeps-abort, Keeps-if, Keeps-assert, Keeps-bind, Keeps-on_loop,
  Keeps-read_exact, Keeps-attempt, Keeps-remove_handler, Still-schedule, Still-pure, TellsBy-write,
  TellsBy-then, TellsBy-bind, Settles-TellsBy, Settles-bind, write_submit_reply-Tells,
  write_submit_reply_error-Tells,
)

module _ {D H T : Type 0}
    (dev2host_call : D → (setup buf : List ℕ) → M (EventLoop D H T) (Bool × List ℕ))
    (host2dev_call : H → (setup xs : List ℕ) → M (EventLoop D H T) Bool)
    (laws : Releases dev2host_call host2dev_call) (h : Header) (t : Stream) (bs : List Header) where
  dev2host_call-Released :
      (f : D) (setup buf : List ℕ) → Keeps (Released bs) (dev2host_call f setup buf)
  dev2host_call-Released f setup buf = Keeps-Released bs _ (laws.in_releases f setup buf)

  host2dev_call-Released :
      (f : H) (setup xs : List ℕ) → Keeps (Released bs) (host2dev_call f setup xs)
  host2dev_call-Released f setup xs = Keeps-Released bs _ (laws.out_releases f setup xs)

  Settles-abort : Settles {D = D} {H = H} {T = T} h t bs (abort {A = Unit {0}})
  Settles-abort = record { at = λ s q. tt }

  -- A request that is kept.
  postponed :
      (ep : ℕ) (f : D)
      → Settles {D = D} {H = H} {T = T} h t bs
          (on_loop (block h) >> on_loop (schedule (dev2host ep f)))
  unfolding schedule
  postponed ep f = record { at = λ s q. inr (s.loop.blocked, refl, q.1, q.0) }

  answer_in-Settles :
      (ep : ℕ) (f : D) (r : Option (Bool × List ℕ))
      → Settles {T = T} h t bs (answer_in dev2host_call host2dev_call h ep f r)
  answer_in-Settles ep f none = search reply_rules depth 10
  answer_in-Settles ep f (some (true, v)) = search reply_rules depth 10
  answer_in-Settles ep f (some (false, v)) = postponed ep f

  transferred-TellsBy :
      (n : ℕ) (r : Option Bool) → TellsBy h t bs (transferred dev2host_call host2dev_call h n r)
  transferred-TellsBy n none = record { at = λ s q. tt }
  transferred-TellsBy n (some done) = search reply_rules depth 10

  host2dev_transfer-TellsBy :
      (buffer : List ℕ) (f : H)
      → TellsBy h t bs (host2dev_transfer dev2host_call host2dev_call h buffer f)
  unfolding host2dev_transfer
  host2dev_transfer-TellsBy buffer f =
      search (reply_rules, host2dev_call-Released, transferred-TellsBy) depth 10

  run_handler-Settles :
      (n : ℕ) (r : Option (Handler D H))
      → Settles h t bs (run_handler dev2host_call host2dev_call h n r)
  run_handler-Settles n none = Settles-abort
  run_handler-Settles n (some (dev2host ep f)) =
      search (reply_rules, dev2host_call-Released, answer_in-Settles) depth 10
  run_handler-Settles n (some (host2dev ep f)) =
      search (reply_rules, host2dev_transfer-TellsBy) depth 10

  handle_submit-Settles : Settles h t bs (handle_submit dev2host_call host2dev_call h)
  unfolding handle_submit
  handle_submit-Settles = search (reply_rules, run_handler-Settles) depth 20

-- When no callback keeps a request, a SUBMIT that ends without an error does one of two things: it
-- writes one header with its number, its device and its endpoint, with the status 0 and one piece
-- of data behind it or with the error status and nothing behind it, and no request is kept more
-- often than before; or it writes nothing, and it is kept, behind requests that were kept before,
-- none of them more often.
pub handle_submit-Settled :
    {D H T : Type 0}
    (dev2host_call : D → (setup buf : List ℕ) → M (EventLoop D H T) (Bool × List ℕ))
    (host2dev_call : H → (setup xs : List ℕ) → M (EventLoop D H T) Bool)
    (laws : Releases dev2host_call host2dev_call) (h : Header) (s : Session D H T)
    → Oks (Settled h s.stream s.loop.blocked) (handle_submit dev2host_call host2dev_call h s)
handle_submit-Settled dev2host_call host2dev_call laws h s =
    (handle_submit-Settles dev2host_call host2dev_call laws h s.stream s.loop.blocked).at s
      (refl, λ p. omega arith)
