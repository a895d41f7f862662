-- ===== src/Eventloop/Rules.antt =====
-- Rules for the actions of src/eventloop.rs that answer one request.
use f2ido.Prelude.{
  ℕ, ◌≡◌, ap, ◌∙◌, ◌⊎◌, inl, inr, ◌≤◌, leb, take, drop, Bool, true, false, List, [], ◌∷◌, ◌++◌,
  Option, none, some, if◌then◌else◌, length,
}
use f2ido.Prelude.Text.{pos}
use f2ido.Outcome.{M, Outcome, Error, attempt, ok, err, panic, pure, ◌>>=◌}
use f2ido.Usbip.Stream.{Header, Chunk, bytes, Stream, read_exact}
use f2ido.Usbip.Stream.Writes.{Oks}
use f2ido.Usbip.Wire.{unswapped_one}
use f2ido.Eventloop.{
  Handler, EventLoop, Session, on_stream, on_loop, schedule, remove_handler, remove_first, handles,
  take_handler,
}
use f2ido.Eventloop.Handlers.{count}
use f2ido.Ctaphid.Effects.Rules.{Ends, Keeps}
use f2ido.Eventloop.Written.{reply_header, Tells}

-- No request is in `bs'` more often than in `bs`.
abbrev pub Fewer : (bs bs' : List Header) → Type 0
Fewer bs bs' = (p : Header → Bool) → count p bs' ≤ count p bs

-- No request was kept since `bs`.
abbrev pub Released : {D H T : Type 0} → List Header → EventLoop D H T → Type 0
Released bs l = Fewer bs l.blocked

module _ {D H T : Type 0} (h : Header) (t : Stream) (bs : List Header) where
  -- Nothing was written since `t`, and no request was kept since `bs`.
  abbrev pub Quiet : Session D H T → Type 0
  Quiet s = (s.stream.output ≡ t.output) × Released bs s.loop

  -- The request was answered, and no request was kept.
  abbrev pub Answered : Session D H T → Type 0
  Answered s = Tells h t s.stream × Released bs s.loop

  -- The request was answered and is not kept, or nothing was written and it alone was kept, behind
  -- the others.
  abbrev pub Settled : Session D H T → Type 0
  Settled s =
      Answered s
      ⊎ ((before : List Header) × (s.loop.blocked ≡ before ++ h ∷ [])
          × Fewer bs before
          × (s.stream.output ≡ t.output))

  pub Keeps-on_loop :
      {A : Type 0} (m : M (EventLoop D H T) A) → Keeps (Released bs) m → Keeps Quiet (on_loop m)
  Keeps-on_loop {A = A} m k = record { at = λ s q. kept s q.0 (m s.loop) (k.at s.loop q.1) }
    where
      kept :
          (s : Session D H T)
          → s.stream.output ≡ t.output
          → (o : Outcome (EventLoop D H T) A) → Ends (Released bs) o
          → Ends Quiet (on_loop (λ l. o) s)
      kept s q (ok a l) r = (q, r)
      kept s q (err e l) r = (q, r)
      kept s q panic r = tt

  pub Keeps-attempt :
      {A : Type 0} (m : M (EventLoop D H T) A)
      → Keeps (Released bs) m
      → Keeps (Released bs) (attempt m)
  Keeps-attempt {A = A} m k = record { at = λ l r. tried l (m l) (k.at l r) }
    where
      tried :
          (l : EventLoop D H T) (o : Outcome (EventLoop D H T) A)
          → Ends (Released bs) o
          → Ends (Released bs) (attempt (λ (_ : EventLoop D H T). o) l)
      tried l (ok a l') r = r
      tried l (err e l') r = r
      tried l panic r = tt

  pub Keeps-remove_handler :
      (endpoint : ℕ) (is_in : Bool)
      → Keeps (Released {D = D} {H = H} {T = T} bs) (remove_handler endpoint is_in)
  unfolding remove_handler
  Keeps-remove_handler endpoint is_in = record {
    at = λ l r. taken l r (remove_first (handles endpoint is_in) l.handlers);
  }
    where
      taken :
          (l : EventLoop D H T)
          → Released bs l
          → (o : Option (Handler D H × List (Handler D H))) → Ends (Released bs) (take_handler o l)
      taken l r none = r
      taken l r (some (y, rest)) = r

  pub Keeps-read_exact : (n : ℕ) → Keeps Quiet (on_stream {D = D} {H = H} {T = T} (read_exact n))
  unfolding read_exact
  Keeps-read_exact n = record { at = λ s q. in_range s q (leb n (length s.stream.input)) }
    where
      in_range :
          (s : Session D H T)
          → Quiet s
          → (b : Bool)
          → Ends Quiet (
              on_stream
                (λ u.
                  if b
                  then ok (take n u.input) (record u { input = drop n u.input })
                  else err Error.io (record u { input = [] }))
                s)
      in_range s q true = q
      in_range s q false = q

  -- From a state in which nothing was written, `m` answers the request, or settles it.
  pub record TellsBy {A : Type 0} (m : M (Session D H T) A) : Type 0 where
    pub at : (s : Session D H T) → Quiet s → Oks Answered (m s)

  pub record Settles {A : Type 0} (m : M (Session D H T) A) : Type 0 where
    pub at : (s : Session D H T) → Quiet s → Oks Settled (m s)

  -- `m` keeps a request answered.
  abbrev pub Still : {A : Type 0} → M (Session D H T) A → Type 0
  Still m = Keeps Answered m

  pub Still-schedule : (y : Handler D H) → Still (on_loop (schedule y))
  unfolding schedule
  Still-schedule y = record { at = λ s q. q }

  pub Still-pure : {A : Type 0} (a : A) → Still (pure a)
  Still-pure a = record { at = λ s q. q }

  pub TellsBy-write :
      (w : M Stream (Unit {0})) → ((u : Stream) → Oks (Tells h u) (w u)) → TellsBy (on_stream w)
  TellsBy-write w x = record { at = λ s q. sent s q (w s.stream) (x s.stream) }
    where
      sent :
          (s : Session D H T)
          → Quiet s
          → (o : Outcome Stream (Unit {0})) → Oks (Tells h s.stream) o
          → Oks Answered (on_stream (λ u. o) s)
      sent s q (ok a u) (inl (l, ys, y)) = (
        inl (
          l,
          ys,
          y ∙ ap (λ (cs : List Chunk). cs ++ reply_header h (pos 0) l ∷ bytes ys ∷ []) q.0,
        ),
        q.1,
      )
      sent s q (ok a u) (inr y) = (
        inr (y ∙ ap (λ (cs : List Chunk). cs ++ reply_header h unswapped_one (pos 0) ∷ []) q.0),
        q.1,
      )
      sent s q (err e u) y = tt
      sent s q panic y = tt

  oks : {A : Type 0} (o : Outcome (Session D H T) A) → Ends Answered o → Oks Answered o
  oks (ok a s) told = told
  oks (err e s) told = tt
  oks panic told = tt

  pub TellsBy-then :
      {A B : Type 0} (m : M (Session D H T) A) (f : A → M (Session D H T) B)
      → TellsBy m
      → ((a : A) → Still (f a))
      → TellsBy (m >>= f)
  TellsBy-then {A = A} {B = B} m f x y = record { at = λ s q. next (m s) (x.at s q) }
    where
      next :
          (o : Outcome (Session D H T) A)
          → Oks Answered o
          → Oks Answered (elim o as (λ _. Outcome (Session D H T) B) [
            | ok a s' ↦ f a s'
            | err e s' ↦ err e s'
            | panic ↦ panic
          ])
      next (ok a s') told = oks (f a s') ((y a).at s' told)
      next (err e s') told = tt
      next panic told = tt

  pub Settles-TellsBy : {A : Type 0} (m : M (Session D H T) A) → TellsBy m → Settles m
  Settles-TellsBy {A = A} m x = record { at = λ s q. weaken (m s) (x.at s q) }
    where
      weaken : (o : Outcome (Session D H T) A) → Oks Answered o → Oks Settled o
      weaken (ok a s') told = inl told
      weaken (err e s') told = tt
      weaken panic told = tt

  module _ (P : Session D H T → Type 0) where
    Oks-bind :
        {A B : Type 0} (o : Outcome (Session D H T) A) (f : A → M (Session D H T) B)
        → Ends Quiet o
        → ((a : A) (s : Session D H T) → Quiet s → Oks P (f a s))
        → Oks P (elim o as (λ _. Outcome (Session D H T) B) [
          | ok a s' ↦ f a s'
          | err e s' ↦ err e s'
          | panic ↦ panic
        ])
    Oks-bind (ok a s) f q k = k a s q
    Oks-bind (err e s) f q k = tt
    Oks-bind panic f q k = tt

  pub TellsBy-bind :
      {A B : Type 0} (m : M (Session D H T) A) (f : A → M (Session D H T) B)
      → Keeps Quiet m
      → ((a : A) → TellsBy (f a))
      → TellsBy (m >>= f)
  TellsBy-bind m f x y = record { at = λ s q. Oks-bind Answered (m s) f (x.at s q) (λ a. (y a).at) }

  pub Settles-bind :
      {A B : Type 0} (m : M (Session D H T) A) (f : A → M (Session D H T) B)
      → Keeps Quiet m
      → ((a : A) → Settles (f a))
      → Settles (m >>= f)
  Settles-bind m f x y = record { at = λ s q. Oks-bind Settled (m s) f (x.at s q) (λ a. (y a).at) }
