-- ===== src/Eventloop/Unblocked.antt =====
-- The loop over the unblocked requests in `handle_commands` of src/eventloop.rs.
use f2ido.Prelude.{
  ℕ, zero, suc, ◌<◌, ◌≡◌, refl, sym, ◌∙◌, Bool, true, false, inl, inr, Bool-cases, List, [], ◌∷◌,
  arith, subst, Option, none, some, length, All, replicate,
}
use f2ido.Outcome.{M, Outcome, ok, err, panic, pure, attempt, ◌>>=◌, ◌>>◌}
use f2ido.Usbip.Stream.{Header, Stream}
use f2ido.Usbip.Wire.{usbip_dir_in, setup}
use f2ido.Eventloop.{
  Handler, dev2host, host2dev, EventLoop, Session, Errno, put_front, remove_first, handles,
  take_handler, remove_handler, on_stream, on_loop, schedule, block, answer_in, run_handler,
  read_direction, handle_submit, next_unblocked, handle_unblocked,
}
use f2ido.Ctaphid.Effects.Rules.{
  Ends, Keeps, Keeps-pure, Keeps-fail, Keeps-if, Keeps-assert, Keeps-bind,
}

remove_first-holds :
    {A : Type 0} (p : A → Bool) (xs : List A) (y : A) (ys : List A)
    → remove_first p xs ≡ some (y, ys)
    → p y ≡ true
unfolding remove_first
remove_first-holds p [] y ys e = cc
remove_first-holds {A} p (x ∷ xs) y ys e = elim (Bool-cases (p x)) [
  | inl found ↦ subst holds (rw found at e) found
  | inr other ↦
      later (remove_first p xs) (λ z zs. remove_first-holds p xs z zs) refl (rw other at e)
]
  where
    holds : Option (A × List A) → Type 0
    holds none = Unit {0}
    holds (some (z, zs)) = p z ≡ true

    later :
        (o : Option (A × List A))
        → ((z : A) (zs : List A) → remove_first p xs ≡ some (z, zs) → p z ≡ true)
        → remove_first p xs ≡ o
        → put_front x o ≡ some (y, ys)
        → p y ≡ true
    later none ih is e = cc
    later (some (z, zs)) ih is e = subst holds e (ih z zs is)

-- A request that waits for data from the device.
abbrev pub IsIn : Header → Type 0
IsIn x = x.direction ≡ usbip_dir_in

-- The unblocked requests, taken out one after the other as the list says.
unfoldable pub each :
    {D H T : Type 0}
    → (D → (setup buf : List ℕ) → M (EventLoop D H T) (Bool × List ℕ))
    → (H → (setup xs : List ℕ) → M (EventLoop D H T) Bool)
    → Errno
    → List Header
    → M (Session D H T) (Unit {0})
each dev2host_call host2dev_call errno [] = pure tt
each dev2host_call host2dev_call errno (x ∷ xs) = do
  _ ← on_loop (next_unblocked dev2host_call host2dev_call errno)
  handle_submit dev2host_call host2dev_call x
  each dev2host_call host2dev_call errno xs

module _ {D H T : Type 0}
    (dev2host_call : D → (setup buf : List ℕ) → M (EventLoop D H T) (Bool × List ℕ))
    (host2dev_call : H → (setup xs : List ℕ) → M (EventLoop D H T) Bool) (errno : Errno)
    (leaves : (f : D) (setup buf : List ℕ) (l : EventLoop D H T)
      → Ends (λ l'. l'.unblocked ≡ l.unblocked) (dev2host_call f setup buf l)) where
  module _ (rest : List Header) where
    abbrev Left : Session D H T → Type 0
    Left s = s.loop.unblocked ≡ rest

    Keeps-on_stream : {A : Type 0} (m : M Stream A) → Keeps Left (on_stream m)
    Keeps-on_stream {A = A} m = record { at = λ s h. kept s h (m s.stream) }
      where
        kept :
            (s : Session D H T) → Left s → (o : Outcome Stream A) → Ends Left (on_stream (λ u. o) s)
        kept s h (ok a u) = h
        kept s h (err e u) = h
        kept s h panic = tt

    Keeps-schedule : (y : Handler D H) → Keeps Left (on_loop (schedule y))
    unfolding schedule
    Keeps-schedule y = record { at = λ s h. h }

    Keeps-block : (x : Header) → Keeps Left (on_loop (block x))
    Keeps-block x = record { at = λ s h. h }

    Keeps-call :
        (f : D) (setup buf : List ℕ) → Keeps Left (on_loop (attempt (dev2host_call f setup buf)))
    Keeps-call f setup buf = record {
      at = λ s h. kept s h (dev2host_call f setup buf s.loop) (leaves f setup buf s.loop);
    }
      where
        kept :
            (s : Session D H T)
            → Left s
            → (o : Outcome (EventLoop D H T) (Bool × List ℕ))
            → Ends (λ l'. l'.unblocked ≡ s.loop.unblocked) o
            → Ends Left (on_loop (attempt (λ l. o)) s)
        kept s h (ok a l) same = same ∙ h
        kept s h (err e l) same = same ∙ h
        kept s h panic same = tt

    answer_in-Keeps :
        (x : Header) (ep : ℕ) (f : D) (r : Option (Bool × List ℕ))
        → Keeps Left (answer_in dev2host_call host2dev_call x ep f r)
    answer_in-Keeps x ep f none = search (Keeps-bind, Keeps-on_stream, Keeps-schedule) depth 10
    answer_in-Keeps x ep f (some (true, v)) =
        search (Keeps-bind, Keeps-on_stream, Keeps-schedule) depth 10
    answer_in-Keeps x ep f (some (false, v)) =
        search (Keeps-bind, Keeps-block, Keeps-schedule) depth 10

    run_in-Keeps :
        (x : Header) (n ep : ℕ) (f : D)
        → Keeps Left (run_handler dev2host_call host2dev_call x n (some (dev2host ep f)))
    run_in-Keeps x n ep f =
        Keeps-bind Left _ _ (Keeps-call f (setup x) (replicate n 0)) (answer_in-Keeps x ep f)

    remove_in-Keeps :
        (x : Header) (endpoint n : ℕ)
        → Keeps Left
            (on_loop (remove_handler endpoint true) >>= run_handler dev2host_call host2dev_call x n)
    unfolding remove_handler
    remove_in-Keeps x endpoint n = record {
      at = λ s h. taken s h (remove_first (handles endpoint true) s.loop.handlers) refl;
    }
      where
        taken :
            (s : Session D H T)
            → Left s
            → (o : Option (Handler D H × List (Handler D H)))
            → remove_first (handles endpoint true) s.loop.handlers ≡ o
            → Ends Left
                ((on_loop (take_handler o) >>= run_handler dev2host_call host2dev_call x n) s)
        taken s h none e = tt
        taken s h (some (dev2host ep f, others)) e = (run_in-Keeps x n ep f).at _ h
        taken s h (some (host2dev ep f, others)) e =
            cc (remove_first-holds (handles endpoint true) s.loop.handlers (host2dev ep f) others e)

    -- The direction of an IN request.
    read_in :
        (d : ℕ) (f : Bool → M (Session D H T) (Unit {0}))
        → d ≡ usbip_dir_in
        → Keeps Left (f true)
        → Keeps Left (read_direction dev2host_call host2dev_call d >>= f)
    read_in d f is_in k =
        subst (λ (d : ℕ). Keeps Left (read_direction dev2host_call host2dev_call d >>= f))
          (sym is_in) k

    handle_submit-Keeps :
        (x : Header)
        → x.direction ≡ usbip_dir_in
        → Keeps Left (handle_submit dev2host_call host2dev_call x)
    unfolding handle_submit
    handle_submit-Keeps x is_in =
        search
          (read_in, Keeps-bind, Keeps-if, Keeps-pure, Keeps-fail, Keeps-assert, remove_in-Keeps)
          depth 20

  -- More rounds than there are unblocked requests, all of them IN, are enough: each is handled
  -- once, in its turn, when no device-to-host callback unblocks another one.
  pub handle_unblocked-each :
      (rounds : ℕ) (xs : List Header) (s : Session D H T)
      → s.loop.unblocked ≡ xs
      → length xs < rounds
      → All IsIn xs
      → handle_unblocked dev2host_call host2dev_call errno rounds s
        ≡ each dev2host_call host2dev_call errno xs s
  unfolding handle_unblocked each
  handle_unblocked-each zero xs s is fits all = absurd (omega arith)
  handle_unblocked-each (suc rounds) [] s is fits all = rw is refl
  handle_unblocked-each (suc rounds) (x ∷ xs) s is fits all = rw is (
      next (handle_submit dev2host_call host2dev_call x (popped xs))
        ((handle_submit-Keeps xs x all.0).at (popped xs) refl)
        (λ t left. handle_unblocked-each rounds xs t left (omega arith) all.1))
    where
      popped : List Header → Session D H T
      popped rest = record {
        loop = record {
          state = s.loop.state;
          handlers = s.loop.handlers;
          blocked = s.loop.blocked;
          unblocked = rest;
        };
        stream = s.stream;
      }

      next :
          (o : Outcome (Session D H T) (Unit {0}))
          → Ends (Left xs) o
          → ((t : Session D H T)
              → t.loop.unblocked ≡ xs
              → handle_unblocked dev2host_call host2dev_call errno rounds t
                ≡ each dev2host_call host2dev_call errno xs t)
          → ((λ (_ : Session D H T). o)
                >> handle_unblocked dev2host_call host2dev_call errno rounds)
              s
            ≡ ((λ (_ : Session D H T). o) >> each dev2host_call host2dev_call errno xs) s
      next (ok a t) left k = k t left
      next (err e t) left k = refl
      next panic left k = refl
