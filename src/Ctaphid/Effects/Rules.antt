-- ===== src/Ctaphid/Effects/Rules.antt =====
-- Rules for actions on the context of a channel. `Keeps P m` says that `m` ends in a state with
-- `P` when it began in one, by a value or by an `Err`; a panic leaves no state.
use f2ido.Prelude.{
  ◌≡◌, refl, ℕ, sym, subst, Bool, true, false, List, ◌∷◌, ◌++◌, arith, Option, none, some, leb,
  ◌&&◌, length, take, drop, get_elem?, ◌-◌, if◌then◌else◌,
}
use f2ido.Outcome.{
  M, Outcome, ok, err, panic, pure, fail, abort, or_abort, or_fail, assert, index, slice,
  slice_from, Error, ◌>>=◌,
}
use f2ido.Ctaphid.Types.{Bytes, Queue, State, Channel}
use f2ido.Ctaphid.Context.{Context, lift, call, get_cid, get_state, put_queue, reply}
use f2ido.Ctaphid.Reply.Bounds.{AreFrames, replied-AreFrames}
use f2ido.Ctaphid.Reply.Frames.{append_replied, send_reply-replied, replied}
use f2ido.Ctaphid.Commands.{make_credential_args, get_assertion_args}

-- The state that an outcome leaves behind has `P`.
abbrev pub Ends : {S A : Type 0} → (S → Type 0) → Outcome S A → Type 0
Ends P (ok a s) = P s
Ends P (err e s) = P s
Ends P panic = Unit {0}

-- From a state with `P`, `m` ends in one with `Q`.
pub record Yields {S A : Type 0} (P Q : S → Type 0) (m : M S A) : Type 0 where
  pub at : (s : S) → P s → Ends Q (m s)

pub record Keeps {S A : Type 0} (P : S → Type 0) (m : M S A) : Type 0 where
  pub at : (s : S) → P s → Ends P (m s)

module _ {S : Type 0} (P : S → Type 0) where
  pub Keeps-pure : {A : Type 0} (a : A) → Keeps P (pure a)
  Keeps-pure a = record { at = λ s h. h }

  pub Keeps-fail : {A : Type 0} (e : Error) → Keeps {A = A} P (fail e)
  Keeps-fail e = record { at = λ s h. h }

  pub Keeps-abort : {A : Type 0} → Keeps {A = A} P abort
  Keeps-abort = record { at = λ s h. tt }

  Ends-bind :
      {A B : Type 0} (Q : S → Type 0) (o : Outcome S A) (f : A → M S B)
      → Ends P o
      → ((s : S) → P s → Q s)
      → ((a : A) (s : S) → P s → Ends Q (f a s))
      → Ends Q
          (elim o as (λ _. Outcome S B) [ ok a s' ↦ f a s' | err e s' ↦ err e s' | panic ↦ panic ])
  Ends-bind Q (ok a s) f h pq k = k a s h
  Ends-bind Q (err e s) f h pq k = pq s h
  Ends-bind Q panic f h pq k = tt

  pub Keeps-bind :
      {A B : Type 0} (m : M S A) (f : A → M S B)
      → Keeps P m
      → ((a : A) → Keeps P (f a))
      → Keeps P (m >>= f)
  Keeps-bind m f h k = record {
    at = λ s p. Ends-bind P (m s) f (h.at s p) (λ _ r. r) (λ a. (k a).at);
  }

  -- A block whose first action keeps `P`, where `P` is enough for an early end.
  pub Yields-bind :
      {A B : Type 0} (Q : S → Type 0) (m : M S A) (f : A → M S B)
      → ((s : S) → P s → Q s)
      → Keeps P m
      → ((a : A) → Yields P Q (f a))
      → Yields P Q (m >>= f)
  Yields-bind Q m f pq h k = record {
    at = λ s p. Ends-bind Q (m s) f (h.at s p) pq (λ a. (k a).at);
  }

  pub Yields-Keeps :
      {A : Type 0} (Q : S → Type 0) (m : M S A) → ((s : S) → P s → Q s) → Keeps P m → Yields P Q m
  Yields-Keeps Q m pq h = record { at = λ s p. weaken (m s) (h.at s p) }
    where
      weaken : {A : Type 0} (o : Outcome S A) → Ends P o → Ends Q o
      weaken (ok a s) r = pq s r
      weaken (err e s) r = pq s r
      weaken panic r = tt

  pub Yields-if :
      {A : Type 0} (Q : S → Type 0) (b : Bool) (m n : M S A)
      → Yields P Q m
      → Yields P Q n
      → Yields P Q (if b then m else n)
  Yields-if Q true m n h k = h
  Yields-if Q false m n h k = k

  pub Keeps-if :
      {A : Type 0} (b : Bool) (m n : M S A) → Keeps P m → Keeps P n → Keeps P (if b then m else n)
  Keeps-if true m n h k = h
  Keeps-if false m n h k = k

  pub Keeps-or_abort : {A : Type 0} (o : Option A) → Keeps {S = S} P (or_abort o)
  Keeps-or_abort none = Keeps-abort
  Keeps-or_abort (some a) = Keeps-pure a

  pub Keeps-or_fail : {A : Type 0} (o : Option A) (e : Error) → Keeps {S = S} P (or_fail o e)
  Keeps-or_fail none e = Keeps-fail e
  Keeps-or_fail (some a) e = Keeps-pure a

  pub Keeps-assert : (b : Bool) → Keeps P (assert b)
  Keeps-assert true = Keeps-pure tt
  Keeps-assert false = Keeps-abort

  pub Keeps-index : {A : Type 0} (xs : List A) (i : ℕ) → Keeps {S = S} P (index xs i)
  Keeps-index xs i = Keeps-or_abort (get_elem? xs i)

  pub Keeps-slice : {A : Type 0} (a b : ℕ) (xs : List A) → Keeps {S = S} P (slice a b xs)
  Keeps-slice a b xs =
      Keeps-if (leb a b && leb b (length xs)) _ _ (Keeps-pure (take (b - a) (drop a xs)))
        Keeps-abort

  pub Keeps-slice_from : {A : Type 0} (a : ℕ) (xs : List A) → Keeps {S = S} P (slice_from a xs)
  Keeps-slice_from a xs = Keeps-if (leb a (length xs)) _ _ (Keeps-pure (drop a xs)) Keeps-abort

-- An action that only looks: it panics or goes on in the same state, and is never an `Err`.
pub record Peeks {S A : Type 0} (Q : S → Type 0) (m : M S A) : Type 0 where
  pub at : (s : S) (f : A → M S (Unit {0})) → ((a : A) → Ends Q (f a s)) → Ends Q ((m >>= f) s)

module _ {S : Type 0} (Q : S → Type 0) where
  pub Peeks-pure : {A : Type 0} (a : A) → Peeks Q (pure a)
  Peeks-pure a = record { at = λ s f h. h a }

  pub Peeks-or_abort : {A : Type 0} (o : Option A) → Peeks {S = S} Q (or_abort o)
  Peeks-or_abort none = record { at = λ s f h. tt }
  Peeks-or_abort (some a) = record { at = λ s f h. h a }

  pub Peeks-index : {A : Type 0} (xs : List A) (i : ℕ) → Peeks {S = S} Q (index xs i)
  Peeks-index xs i = Peeks-or_abort (get_elem? xs i)

  pub Peeks-assert : (b : Bool) → Peeks Q (assert b)
  Peeks-assert true = record { at = λ s f h. h tt }
  Peeks-assert false = record { at = λ s f h. tt }

  pub Peeks-slice : {A : Type 0} (a b : ℕ) (xs : List A) → Peeks {S = S} Q (slice a b xs)
  Peeks-slice a b xs = in_range (leb a b && leb b (length xs))
    where
      in_range : (t : Bool) → Peeks {S = S} Q (if t then pure (take (b - a) (drop a xs)) else abort)
      in_range true = record { at = λ s f h. h (take (b - a) (drop a xs)) }
      in_range false = record { at = λ s f h. tt }

  abbrev then_do : {A B : Type 0} → (A → M S B) → Outcome S A → Outcome S B
  then_do f (ok a s) = f a s
  then_do f (err e s) = err e s
  then_do f panic = panic

  assoc :
      {A B : Type 0} (g : A → M S B) (f : B → M S (Unit {0})) (o : Outcome S A)
      → Ends Q (then_do (λ a. g a >>= f) o)
      → Ends Q (then_do f (then_do g o))
  assoc g f (ok a s) h = h
  assoc g f (err e s) h = h
  assoc g f panic h = h

  pub Peeks-bind :
      {A B : Type 0} (m : M S A) (g : A → M S B)
      → Peeks Q m
      → ((a : A) → Peeks Q (g a))
      → Peeks Q (m >>= g)
  Peeks-bind m g hm hg = record {
    at = λ s f h. assoc g f (m s) (hm.at s (λ a. g a >>= f) (λ a. (hg a).at s f h));
  }

-- An action that only looks, and returns a value with `R`.
pub record Reads {S A : Type 0} (Q : S → Type 0) (R : A → Type 0) (m : M S A) : Type 0 where
  pub at :
      (s : S) (f : A → M S (Unit {0})) → ((a : A) → R a → Ends Q (f a s)) → Ends Q ((m >>= f) s)

module _ {S : Type 0} (Q : S → Type 0) where
  pub Reads-pure : {A : Type 0} (R : A → Type 0) (a : A) → R a → Reads Q R (pure a)
  Reads-pure R a r = record { at = λ s f h. h a r }

  pub Reads-index :
      {A : Type 0} (xs : List A) (i : ℕ)
      → Reads {S = S} Q (λ a. get_elem? xs i ≡ some a) (index xs i)
  Reads-index {A = A} xs i = found (get_elem? xs i)
    where
      found : (o : Option A) → Reads {S = S} Q (λ a. o ≡ some a) (or_abort o)
      found none = record { at = λ s f h. tt }
      found (some a) = record { at = λ s f h. h a refl }

  pub Reads-bind :
      {A B : Type 0} (R : A → Type 0) (R' : B → Type 0) (m : M S A) (g : A → M S B)
      → Reads Q R m
      → ((a : A) → R a → Reads Q R' (g a))
      → Reads Q R' (m >>= g)
  Reads-bind R R' m g hm hg = record {
    at = λ s f h. assoc Q g f (m s) (hm.at s (λ a. g a >>= f) (λ a r. (hg a r).at s f h));
  }

  pub Reads-Peeks :
      {A B : Type 0} (R : B → Type 0) (m : M S A) (g : A → M S B)
      → Peeks Q m
      → ((a : A) → Reads Q R (g a))
      → Reads Q R (m >>= g)
  Reads-Peeks R m g hm hg = record {
    at = λ s f h. assoc Q g f (m s) (hm.at s (λ a. g a >>= f) (λ a. (hg a).at s f h));
  }

-- A reply panics, or leaves the context with packets behind the queue.
pub reply-Ends :
    {W : Type 0} (Q : Context W → Type 0) (c : Context W) (cmd : ℕ) (payload : Bytes)
    → ((p : Bytes) (ps : List Bytes)
        → AreFrames (p ∷ ps)
        → Q (record c { queue = c.queue ++ p ∷ ps }))
    → Ends Q (reply cmd payload c)
reply-Ends Q c cmd payload h =
    subst (λ o. Ends Q (put_queue c o)) (sym (send_reply-replied c.channel.cid cmd payload c.queue))
      (sent (replied c.channel.cid cmd payload) refl)
  where
    sent :
        (o : Option (Bytes × List Bytes))
        → replied c.channel.cid cmd payload ≡ o
        → Ends Q (put_queue c (append_replied c.queue o))
    sent none e = tt
    sent (some (p, ps)) e = h p ps (replied-AreFrames c.channel.cid cmd payload p ps e)

-- A property of the channel and of the send queue.
abbrev pub On : {W : Type 0} → (Channel → Queue → Type 0) → Context W → Type 0
On F c = F c.channel c.queue

-- A property of the channel and of the send queue, which replies keep.
module _ {W : Type 0} (F : Channel → Queue → Type 0)
    (grows : (ch : Channel) (q : Queue) (p : Bytes) (ps : List Bytes)
      → AreFrames (p ∷ ps)
      → F ch q
      → F ch (q ++ p ∷ ps)) where
  pub Keeps-lift : {A : Type 0} (m : M W A) → Keeps (On {W = W} F) (lift m)
  Keeps-lift m = record { at = λ c h. ground arith }

  pub Keeps-call : {A : Type 0} (f : W → A × W) → Keeps (On {W = W} F) (call f)
  Keeps-call f = record { at = λ c h. h }

  pub Keeps-get_state : Keeps (On {W = W} F) get_state
  Keeps-get_state = record { at = λ c h. h }

  pub Keeps-get_cid : Keeps (On {W = W} F) get_cid
  Keeps-get_cid = record { at = λ c h. h }

  pub Keeps-reply : (cmd : ℕ) (payload : Bytes) → Keeps (On {W = W} F) (reply cmd payload)
  Keeps-reply cmd payload = record {
    at = λ c h.
        reply-Ends (On {W = W} F) c cmd payload (λ p ps are. grows c.channel c.queue p ps are h);
  }

  pub Keeps-make_credential_args : (s : State) → Keeps (On {W = W} F) (make_credential_args s)
  Keeps-make_credential_args State.init = Keeps-abort (On {W = W} F)
  Keeps-make_credential_args (State.cont cmd bcnt buffer seqnum) = Keeps-abort (On {W = W} F)
  Keeps-make_credential_args (State.make_credential args consent) =
      Keeps-pure (On {W = W} F) (args, consent)
  Keeps-make_credential_args (State.get_assertion args consent) = Keeps-abort (On {W = W} F)

  pub Keeps-get_assertion_args : (s : State) → Keeps (On {W = W} F) (get_assertion_args s)
  Keeps-get_assertion_args State.init = Keeps-abort (On {W = W} F)
  Keeps-get_assertion_args (State.cont cmd bcnt buffer seqnum) = Keeps-abort (On {W = W} F)
  Keeps-get_assertion_args (State.make_credential args consent) = Keeps-abort (On {W = W} F)
  Keeps-get_assertion_args (State.get_assertion args consent) =
      Keeps-pure (On {W = W} F) (args, consent)
