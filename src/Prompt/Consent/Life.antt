-- ===== src/Prompt/Consent/Life.antt =====
-- The life of one thread of src/prompt.rs and its channel, whatever the other threads and channels
-- do.
use f2ido.Prelude.{
  ℕ, ◌≡◌, ◌≢◌, refl, arith, ap, sym, ◌∙◌, ◌⊎◌, inl, inr, Option, none, some, List, [], ◌∷◌,
  get_elem?, subst, get_elem?-set_self, get_elem?-set_ne, lt_of_get_elem?,
}
use f2ido.Ctaphid.Types.{Bytes, Receiver}
use f2ido.Ctaphid.Env.{Recv, disconnected}
use f2ido.Prompt.Consent.{
  Answer, Thread, confirming, sending, dropping, ended, Consent, Confirm, confirmed, advanced,
  advance, advance_at, advance_all, received, emptied, receive,
}

-- The thread and the buffer of a channel that nothing was received from, for a `confirm_yes_no`
-- that returns `o`.
abbrev pub Fits : Option Answer → Thread → Option Answer → Type 0
Fits o confirming none = Unit {0}
Fits o confirming (some b) = ⊥
Fits o (sending a) none = o ≡ some a
Fits o (sending a) (some b) = ⊥
Fits o dropping none = ⊥
Fits o dropping (some a) = o ≡ some a
Fits o ended none = o ≡ none
Fits o ended (some a) = o ≡ some a

-- The thread has ended, and the buffer is empty.
abbrev pub Gone : Thread → Option Answer → Type 0
Gone ended none = Unit {0}
Gone ended (some a) = ⊥
Gone confirming b = ⊥
Gone (sending a) b = ⊥
Gone dropping b = ⊥

-- The answer was received, and the sender may not be dropped yet.
abbrev pub Told : Thread → Option Answer → Type 0
Told ended none = Unit {0}
Told ended (some a) = ⊥
Told dropping none = Unit {0}
Told dropping (some a) = ⊥
Told confirming b = ⊥
Told (sending a) b = ⊥

-- What is left behind by the receiver's first value: a panic has dropped the sender, a `send` may
-- be followed by the drop.
abbrev pub After : Option Answer → Thread → Option Answer → Type 0
After none = Gone
After (some a) = Told

-- What the user's answer looks like to the receiver.
abbrev pub told : Option Answer → Recv
told none = disconnected
told (some a) = received a

pub same_or_not : (i j : ℕ) → (i ≡ j) ⊎ (i ≢ j)
same_or_not i j = ground arith

module _ (confirm : Confirm) (i : Receiver) (d : Bytes) where
  -- The receiver `i` belongs to the description `d`, and `P` holds of its channel.
  abbrev pub Holds : (Thread → Option Answer → Type 0) → List Consent → Type 0
  Holds P cs = (c : Consent) × (get_elem? cs i ≡ some c) × (c.description ≡ d) × P c.thread c.buffer

  -- A step of the thread leads from `P` to `Q`.
  abbrev pub Moves : (P Q : Thread → Option Answer → Type 0) → Type 0
  Moves P Q =
      (e : Bytes) (t : Thread) (b : Option Answer)
      → P t b
      → let c = advanced (confirm i d) (record { description = e; thread = t; buffer = b }) t in
        Q c.thread c.buffer

  abbrev pub Steady : (Thread → Option Answer → Type 0) → Type 0
  Steady P = Moves P P

  Fits-confirmed : (o : Option Answer) → Fits o (confirmed o) none
  Fits-confirmed none = refl
  Fits-confirmed (some a) = refl

  pub Fits-Steady : Steady (Fits (confirm i d))
  Fits-Steady e confirming none h = Fits-confirmed (confirm i d)
  Fits-Steady e confirming (some b) h = elim h [ ]
  Fits-Steady e (sending a) none h = h
  Fits-Steady e (sending a) (some b) h = elim h [ ]
  Fits-Steady e dropping none h = elim h [ ]
  Fits-Steady e dropping (some a) h = h
  Fits-Steady e ended none h = h
  Fits-Steady e ended (some a) h = h

  pub Gone-Steady : Steady Gone
  Gone-Steady e confirming b h = elim h [ ]
  Gone-Steady e (sending a) b h = elim h [ ]
  Gone-Steady e dropping b h = elim h [ ]
  Gone-Steady e ended none h = tt
  Gone-Steady e ended (some a) h = elim h [ ]

  pub Told-Steady : Steady Told
  Told-Steady e confirming b h = elim h [ ]
  Told-Steady e (sending a) b h = elim h [ ]
  Told-Steady e dropping none h = tt
  Told-Steady e dropping (some a) h = elim h [ ]
  Told-Steady e ended none h = tt
  Told-Steady e ended (some a) h = elim h [ ]

  advanced_description :
      (o : Option Answer) (e : Bytes) (t : Thread) (b : Option Answer)
      → (advanced o (record { description = e; thread = t; buffer = b }) t).description ≡ e
  advanced_description o e confirming b = refl
  advanced_description o e (sending a) none = refl
  advanced_description o e (sending a) (some b) = refl
  advanced_description o e dropping b = refl
  advanced_description o e ended b = refl

  module _ (P Q : Thread → Option Answer → Type 0) (moves : Moves P Q) where
    advance-holds :
        (c : Consent)
        → c.description ≡ d
        → P c.thread c.buffer
        → Q (advance confirm i c).thread (advance confirm i c).buffer
    advance-holds c e h =
        subst (λ x. let c' = advanced (confirm i x) c c.thread in Q c'.thread c'.buffer) (sym e)
          (moves c.description c.thread c.buffer h)

    pub advance_at_self :
        (cs : List Consent) → Holds P cs → Holds Q (advance_at confirm i cs (get_elem? cs i))
    advance_at_self cs (c, at, e, h) = (
      advance confirm i c,
      ap (λ o. get_elem? (advance_at confirm i cs o) i) at
          ∙ get_elem?-set_self cs i (advance confirm i c) (lt_of_get_elem? cs i c at),
      advanced_description (confirm i c.description) c.description c.thread c.buffer ∙ e,
      advance-holds c e h,
    )

  module _ (P : Thread → Option Answer → Type 0) where
    pub advance_at-other :
        (j : Receiver) (cs : List Consent)
        → j ≢ i
        → Holds P cs
        → (o : Option Consent) → Holds P (advance_at confirm j cs o)
    advance_at-other j cs ne holds none = holds
    advance_at-other j cs ne (c, at, e, h) (some x) =
        (c, get_elem?-set_ne cs j i (advance confirm j x) ne ∙ at, e, h)

    pub receive-other :
        (j : Receiver) (cs : List Consent)
        → j ≢ i
        → Holds P cs
        → (o : Option Consent) → Holds P (receive j cs o).1
    receive-other j cs ne holds none = holds
    receive-other j cs ne (c, at, e, h) (some x) =
        (c, get_elem?-set_ne cs j i (emptied x) ne ∙ at, e, h)

  module _ (P : Thread → Option Answer → Type 0) (steady : Steady P) where
    pub advance_all-Holds :
        (steps : List Receiver) (cs : List Consent)
        → Holds P cs
        → Holds P (advance_all confirm steps cs)
    unfolding advance_all
    advance_all-Holds [] cs h = h
    advance_all-Holds (j ∷ steps) cs h =
        advance_all-Holds steps (advance_at confirm j cs (get_elem? cs j)) (elim (same_or_not j i) [
          | inl e ↦
              subst (λ x. Holds P (advance_at confirm x cs (get_elem? cs x))) (sym e)
                (advance_at_self P P steady cs h)
          | inr ne ↦ advance_at-other P j cs ne h (get_elem? cs j)
        ])
