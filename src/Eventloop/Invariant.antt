-- ===== src/Eventloop/Invariant.antt =====
-- Properties of the state that the loop of src/eventloop.rs carries for its callbacks.
use f2ido.Prelude.{ℕ, zero, suc, Bool, true, false, List, [], ◌∷◌, Option, none, some}
use f2ido.Outcome.{M, Outcome, ok, err, panic, attempt}
use f2ido.Usbip.Stream.{Header, Stream}
use f2ido.Eventloop.{
  Handler, dev2host, host2dev, EventLoop, Session, Errno, remove_first, handles, take_handler,
  remove_handler, on_stream, on_loop, schedule, block, answer_in, transferred, host2dev_transfer,
  run_handler, handle_submit, unblock_first, unlink_from, handle_unlink, pop_unblocked,
  next_unblocked, unblocked_round, handle_unblocked, handle_command, handle_commands,
}
use f2ido.Ctaphid.Effects.Rules.{
  Ends, Keeps, Keeps-pure, Keeps-fail, Keeps-abort, Keeps-if, Keeps-assert, Keeps-bind,
}

-- A property of the program's own state.
abbrev pub OnState : {D H T : Type 0} → (T → Type 0) → EventLoop D H T → Type 0
OnState P l = P l.state

abbrev pub InLoop : {D H T : Type 0} → (T → Type 0) → Session D H T → Type 0
InLoop P s = P s.loop.state

module _ {D H T : Type 0} (P : T → Type 0) where
  Keeps-attempt :
      {A : Type 0} (m : M (EventLoop D H T) A) → Keeps (OnState P) m → Keeps (OnState P) (attempt m)
  Keeps-attempt {A = A} m k = record { at = λ l h. tried l (m l) (k.at l h) }
    where
      tried :
          (l : EventLoop D H T) (o : Outcome (EventLoop D H T) A)
          → Ends (OnState P) o
          → Ends (OnState P) (attempt (λ (_ : EventLoop D H T). o) l)
      tried l (ok a l') h = h
      tried l (err e l') h = h
      tried l panic h = tt

  Keeps-on_loop :
      {A : Type 0} (m : M (EventLoop D H T) A) → Keeps (OnState P) m → Keeps (InLoop P) (on_loop m)
  Keeps-on_loop {A = A} m k = record { at = λ s h. lifted s (m s.loop) (k.at s.loop h) }
    where
      lifted :
          (s : Session D H T) (o : Outcome (EventLoop D H T) A)
          → Ends (OnState P) o
          → Ends (InLoop P) (on_loop (λ l. o) s)
      lifted s (ok a l) h = h
      lifted s (err e l) h = h
      lifted s panic h = tt

  Keeps-on_stream :
      {A : Type 0} (m : M Stream A) → Keeps (InLoop P) (on_stream {D = D} {H = H} {T = T} m)
  Keeps-on_stream {A = A} m = record { at = λ s h. kept s h (m s.stream) }
    where
      kept :
          (s : Session D H T)
          → InLoop P s
          → (o : Outcome Stream A) → Ends (InLoop P) (on_stream (λ u. o) s)
      kept s h (ok a u) = h
      kept s h (err e u) = h
      kept s h panic = tt

  Keeps-schedule : (y : Handler D H) → Keeps (OnState P) (schedule y)
  unfolding schedule
  Keeps-schedule y = record { at = λ l h. h }

  Keeps-block : (h : Header) → Keeps (OnState {D = D} {H = H} P) (block h)
  Keeps-block x = record { at = λ l h. h }

  Keeps-remove_handler :
      (endpoint : ℕ) (is_in : Bool)
      → Keeps (OnState {D = D} {H = H} P) (remove_handler endpoint is_in)
  unfolding remove_handler
  Keeps-remove_handler endpoint is_in = record {
    at = λ l h. taken l h (remove_first (handles endpoint is_in) l.handlers);
  }
    where
      taken :
          (l : EventLoop D H T)
          → P l.state
          → (o : Option (Handler D H × List (Handler D H))) → Ends (OnState P) (take_handler o l)
      taken l h none = h
      taken l h (some (y, rest)) = h

  pub unblock_first-Keeps :
      (o : Option (Header × List Header)) → Keeps (OnState {D = D} {H = H} P) (unblock_first o)
  unblock_first-Keeps none = record { at = λ l h. h }
  unblock_first-Keeps (some (x, rest)) = record { at = λ l h. h }

  Keeps-next_unblocked :
      (d : D → (setup buf : List ℕ) → M (EventLoop D H T) (Bool × List ℕ))
      (g : H → (setup xs : List ℕ) → M (EventLoop D H T) Bool) (errno : Errno)
      → Keeps (OnState {D = D} {H = H} P) (next_unblocked d g errno)
  Keeps-next_unblocked d g errno = record { at = λ l h. popped l h l.unblocked }
    where
      popped :
          (l : EventLoop D H T)
          → P l.state
          → (hs : List Header) → Ends (OnState P) (pop_unblocked d g errno hs l)
      popped l h [] = h
      popped l h (x ∷ hs) = h

  Keeps-unlink_from :
      (errno : Errno) (n : ℕ) → Keeps (OnState {D = D} {H = H} P) (unlink_from errno n)
  Keeps-unlink_from errno n = record { at = λ l h. h }

ruleset loop_rules = (
  Keeps-pure, Keeps-fail, Keeps-abort, Keeps-if, Keeps-assert, Keeps-bind, Keeps-attempt,
  Keeps-on_loop, Keeps-on_stream, Keeps-schedule, Keeps-block, Keeps-remove_handler,
  Keeps-next_unblocked, Keeps-unlink_from,
)

module _ {D H T : Type 0} (P : T → Type 0)
    (dev2host_call : D → (setup buf : List ℕ) → M (EventLoop D H T) (Bool × List ℕ))
    (host2dev_call : H → (setup xs : List ℕ) → M (EventLoop D H T) Bool)
    (in_keeps : (f : D) (setup buf : List ℕ) → Keeps (OnState P) (dev2host_call f setup buf))
    (out_keeps : (f : H) (setup xs : List ℕ) → Keeps (OnState P) (host2dev_call f setup xs))
    (errno : Errno) where
  answer_in-Keeps :
      (h : Header) (ep : ℕ) (f : D) (r : Option (Bool × List ℕ))
      → Keeps (InLoop P) (answer_in dev2host_call host2dev_call h ep f r)
  answer_in-Keeps h ep f none = search loop_rules depth 10
  answer_in-Keeps h ep f (some (true, v)) = search loop_rules depth 10
  answer_in-Keeps h ep f (some (false, v)) = search loop_rules depth 10

  transferred-Keeps :
      (h : Header) (n : ℕ) (r : Option Bool)
      → Keeps (InLoop P) (transferred dev2host_call host2dev_call h n r)
  transferred-Keeps h n none = search loop_rules depth 10
  transferred-Keeps h n (some done) = search loop_rules depth 10

  host2dev_transfer-Keeps :
      (h : Header) (buffer : List ℕ) (f : H)
      → Keeps (InLoop P) (host2dev_transfer dev2host_call host2dev_call h buffer f)
  unfolding host2dev_transfer
  host2dev_transfer-Keeps h buffer f = search (loop_rules, out_keeps, transferred-Keeps) depth 10

  run_handler-Keeps :
      (h : Header) (n : ℕ) (r : Option (Handler D H))
      → Keeps (InLoop P) (run_handler dev2host_call host2dev_call h n r)
  run_handler-Keeps h n none = search loop_rules depth 10
  run_handler-Keeps h n (some (dev2host ep f)) =
      search (loop_rules, in_keeps, answer_in-Keeps) depth 20
  run_handler-Keeps h n (some (host2dev ep f)) =
      search (loop_rules, host2dev_transfer-Keeps) depth 20

  handle_submit-Keeps :
      (h : Header) → Keeps (InLoop P) (handle_submit dev2host_call host2dev_call h)
  unfolding handle_submit
  handle_submit-Keeps h = search (loop_rules, run_handler-Keeps) depth 20

  unblocked_round-Keeps :
      (rest : M (Session D H T) (Unit {0})) (o : Option Header)
      → Keeps (InLoop P) rest
      → Keeps (InLoop P) (unblocked_round dev2host_call host2dev_call errno rest o)
  unblocked_round-Keeps rest none k = search loop_rules depth 10
  unblocked_round-Keeps rest (some h) k = search (loop_rules, handle_submit-Keeps) depth 10

  handle_unblocked-Keeps :
      (rounds : ℕ) → Keeps (InLoop P) (handle_unblocked dev2host_call host2dev_call errno rounds)
  unfolding handle_unblocked
  handle_unblocked-Keeps zero = search loop_rules depth 10
  handle_unblocked-Keeps (suc rounds) =
      Keeps-bind (InLoop P) _ _
        (Keeps-on_loop P _ (Keeps-next_unblocked P dev2host_call host2dev_call errno))
        (λ o. unblocked_round-Keeps _ o (handle_unblocked-Keeps rounds))

  handle_unlink-Keeps : (h : Header) → Keeps (InLoop {D = D} {H = H} P) (handle_unlink errno h)
  unfolding handle_unlink
  handle_unlink-Keeps h = search loop_rules depth 10

  handle_command-Keeps :
      (rounds : ℕ) → Keeps (InLoop P) (handle_command dev2host_call host2dev_call errno rounds)
  unfolding handle_command
  handle_command-Keeps rounds =
      search (loop_rules, handle_submit-Keeps, handle_unblocked-Keeps, handle_unlink-Keeps) depth 20

  -- What every callback keeps, any number of commands keeps, whatever the host sends and however
  -- they end.
  pub handle_commands-Keeps :
      (rounds fuel : ℕ)
      → Keeps (InLoop P) (handle_commands dev2host_call host2dev_call errno rounds fuel)
  unfolding handle_commands
  handle_commands-Keeps rounds zero = search loop_rules depth 10
  handle_commands-Keeps rounds (suc fuel) =
      Keeps-bind (InLoop P) _ _ (handle_command-Keeps rounds)
        (λ _. handle_commands-Keeps rounds fuel)
