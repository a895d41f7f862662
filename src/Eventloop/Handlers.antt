-- ===== src/Eventloop/Handlers.antt =====
-- The handlers of src/eventloop.rs: a request takes one out and puts it back.
use f2ido.Prelude.{
  ℕ, ◌+◌, arith, ◌≡◌, refl, inl, inr, Bool, true, false, List, [], ◌∷◌, ◌++◌, Option, none, some,
  Bool-cases, subst,
}
use f2ido.Outcome.{M, Outcome, ok, err, panic, abort, attempt, ◌>>=◌}
use f2ido.Usbip.Stream.{Header, Stream}
use f2ido.Usbip.Stream.Writes.{Oks}
use f2ido.Eventloop.{
  Handler, EventLoop, Session, put_front, remove_first, on_stream, on_loop, schedule, block,
}
use f2ido.Ctaphid.Effects.Rules.{Ends, Keeps}

abbrev one : Bool → ℕ
one true = 1
one false = 0

-- How many elements fit.
unfoldable pub count : {A : Type 0} → (A → Bool) → List A → ℕ
count p [] = 0
count p (x ∷ xs) = one (p x) + count p xs

pub count-snoc :
    {A : Type 0} (q : A → Bool) (y : A) (ys : List A)
    → count q (ys ++ y ∷ []) ≡ one (q y) + count q ys
unfolding count
count-snoc q y [] = refl
count-snoc q y (x ∷ ys) = omega (arith, count-snoc q y ys)

-- An element that is taken out and put back at the end is counted as before.
pub count-remove_first :
    {A : Type 0} (p q : A → Bool) (xs : List A) (y : A) (ys : List A)
    → remove_first p xs ≡ some (y, ys)
    → count q (ys ++ y ∷ []) ≡ count q xs
unfolding count remove_first
count-remove_first p q [] y ys e = cc
count-remove_first {A} p q (x ∷ xs) y ys e = elim (Bool-cases (p x)) [
  | inl found ↦ first (rw found at e)
  | inr other ↦ later (remove_first p xs) (count-remove_first p q xs) refl (rw other at e)
]
  where
    front_again : Option (A × List A) → ℕ
    front_again none = 0
    front_again (some (z, zs)) = count q (zs ++ z ∷ [])

    first :
        ◌≡◌ {A = Option (A × List A)} (some (x, xs)) (some (y, ys))
        → count q (ys ++ y ∷ []) ≡ one (q x) + count q xs
    first e =
        subst (λ (o : Option (A × List A)). front_again o ≡ one (q x) + count q xs) e
          (count-snoc q x xs)

    later :
        (o : Option (A × List A))
        → ((z : A) (zs : List A)
            → remove_first p xs ≡ some (z, zs)
            → count q (zs ++ z ∷ []) ≡ count q xs)
        → remove_first p xs ≡ o
        → put_front x o ≡ some (y, ys)
        → count q (ys ++ y ∷ []) ≡ one (q x) + count q xs
    later none ih is e = cc
    later (some (z, zs)) ih is e =
        subst (λ (o : Option (A × List A)). front_again o ≡ one (q x) + count q xs) e
          (rw (ih z zs is))

-- The same handlers as `hs`, each as often, in any order.
abbrev pub Offers : {D H T : Type 0} → List (Handler D H) → Session D H T → Type 0
Offers {D} {H} hs s = (p : Handler D H → Bool) → count p s.loop.handlers ≡ count p hs

module _ {D H T : Type 0} (hs : List (Handler D H)) where
  -- The same handlers but for `y`, which was taken out.
  abbrev pub Lacks : Handler D H → Session D H T → Type 0
  Lacks y s = (p : Handler D H → Bool) → count p (s.loop.handlers ++ y ∷ []) ≡ count p hs

  abbrev pub Untouched : Session D H T → Type 0
  Untouched s = s.loop.handlers ≡ hs

  -- From a state with `P`, `m` leaves the handlers `hs` in some order if it ends with a value.
  pub record Restores (P : Session D H T → Type 0) {A : Type 0} (m : M (Session D H T) A)
      : Type 0 where
    pub at : (s : Session D H T) → P s → Oks (Offers hs) (m s)

  module _ (P : Session D H T → Type 0) where
    pub Restores-abort : Restores P (abort {A = Unit {0}})
    Restores-abort = record { at = λ s h. tt }

    pub Restores-bind :
        {A B : Type 0} (m : M (Session D H T) A) (f : A → M (Session D H T) B)
        → Keeps P m
        → ((a : A) → Restores P (f a))
        → Restores P (m >>= f)
    Restores-bind {A = A} {B = B} m f x y = record { at = λ s h. next (m s) (x.at s h) }
      where
        next :
            (o : Outcome (Session D H T) A)
            → Ends P o
            → Oks (Offers hs) (elim o as (λ _. Outcome (Session D H T) B) [
              | ok a s' ↦ f a s'
              | err e s' ↦ err e s'
              | panic ↦ panic
            ])
        next (ok a s') h = (y a).at s' h
        next (err e s') h = tt
        next panic h = tt

  pub Keeps-on_stream :
      {A : Type 0} (y : Handler D H) (m : M Stream A)
      → Keeps (Lacks y) (on_stream {D = D} {H = H} {T = T} m)
  Keeps-on_stream {A = A} y m = record { at = λ s h. kept s h (m s.stream) }
    where
      kept :
          (s : Session D H T)
          → Lacks y s
          → (o : Outcome Stream A) → Ends (Lacks y) (on_stream (λ u. o) s)
      kept s h (ok a u) = h
      kept s h (err e u) = h
      kept s h panic = tt

  pub Keeps-block : (y : Handler D H) (h : Header) → Keeps (Lacks y) (on_loop (block h))
  Keeps-block y h = record { at = λ s l. l }

  pub Restores-schedule : (y : Handler D H) → Restores (Lacks y) (on_loop (schedule y))
  unfolding schedule
  Restores-schedule y = record { at = λ s l. l }

  -- A callback that leaves the handlers alone.
  pub Keeps-call :
      {A : Type 0} (y : Handler D H) (m : M (EventLoop D H T) A)
      → ((l : EventLoop D H T) → Ends (λ l'. l'.handlers ≡ l.handlers) (m l))
      → Keeps (Lacks y) (on_loop (attempt m))
  Keeps-call {A = A} y m leaves = record { at = λ s h. kept s h (m s.loop) (leaves s.loop) }
    where
      kept :
          (s : Session D H T)
          → Lacks y s
          → (o : Outcome (EventLoop D H T) A) → Ends (λ l'. l'.handlers ≡ s.loop.handlers) o
          → Ends (Lacks y) (on_loop (attempt (λ l. o)) s)
      kept s h (ok a l) same = λ p. rw same (h p)
      kept s h (err e l) same = λ p. rw same (h p)
      kept s h panic same = tt
