-- ===== src/Prompt/Consent/Reception.antt =====
-- What a reception in src/ctaphid.rs yields from a thread of src/prompt.rs.
use f2ido.Prelude.{
  ℕ, ◌≡◌, ◌≢◌, refl, ap, sym, ◌∙◌, ◌⊎◌, inl, inr, Option, none, some, List, get_elem?, set, subst,
  get_elem?-set_self, get_elem?-append_left, lt_of_get_elem?,
}
use f2ido.Ctaphid.Types.{Bytes, Receiver}
use f2ido.Ctaphid.Env.{Recv, disconnected, timeout}
use f2ido.Prompt.Consent.{
  Answer, Thread, confirming, sending, dropping, ended, Consent, yes_or_no_p, recv_timeout, Desk,
  Confirm, advance_all, buffered, emptied, receive, next_steps,
}
use f2ido.Prompt.Consent.Life.{
  Fits, Gone, Told, After, told, Holds, Steady, Fits-Steady, Gone-Steady, Told-Steady,
  advance_all-Holds, receive-other,
}

module _ (confirm : Confirm) (i : Receiver) (d : Bytes) where
  -- What is received, and what holds of the channel afterwards.
  abbrev pub Next : Recv → (List Consent) → Type 0
  Next r cs =
      ((r ≡ timeout) × Holds confirm i d (Fits (confirm i d)) cs)
      ⊎ ((r ≡ told (confirm i d)) × Holds confirm i d (After (confirm i d)) cs)

  emptied-Holds :
      (P : Thread → Option Answer → Type 0) (cs : List Consent) (c : Consent)
      → get_elem? cs i ≡ some c
      → c.description ≡ d
      → P c.thread none
      → Holds confirm i d P (set cs i (emptied c))
  emptied-Holds P cs c at e h =
      (emptied c, get_elem?-set_self cs i (emptied c) (lt_of_get_elem? cs i c at), e, h)

  buffered-next :
      (o : Option Answer) (t : Thread) (b : Option Answer)
      → Fits o t b
      → ((buffered t b ≡ timeout) × Fits o t none) ⊎ ((buffered t b ≡ told o) × After o t none)
  buffered-next o confirming none h = inl (refl, tt)
  buffered-next o confirming (some b) h = elim h [ ]
  buffered-next o (sending a) none h = inl (refl, h)
  buffered-next o (sending a) (some b) h = elim h [ ]
  buffered-next o dropping none h = elim h [ ]
  buffered-next o dropping (some a) h =
      inr (sym (ap told h), subst (λ x. After x dropping none) (sym h) tt)
  buffered-next o ended none h = inr (sym (ap told h), subst (λ x. After x ended none) (sym h) tt)
  buffered-next o ended (some a) h =
      inr (sym (ap told h), subst (λ x. After x ended none) (sym h) tt)

  receive-Next :
      (cs : List Consent)
      → Holds confirm i d (Fits (confirm i d)) cs
      → let r = receive i cs (get_elem? cs i) in Next r.0 r.1
  receive-Next cs (c, at, e, h) =
      subst (λ o. let r = receive i cs o in Next r.0 r.1) (sym at)
        (elim (buffered-next (confirm i d) c.thread c.buffer h) [
          | inl (late, fits) ↦ inl (late, emptied-Holds (Fits (confirm i d)) cs c at e fits)
          | inr (heard_it, gone) ↦
              inr (heard_it, emptied-Holds (After (confirm i d)) cs c at e gone)
        ])

  Gone-disconnected : (t : Thread) (b : Option Answer) → Gone t b → buffered t b ≡ disconnected
  Gone-disconnected confirming b h = elim h [ ]
  Gone-disconnected (sending a) b h = elim h [ ]
  Gone-disconnected dropping b h = elim h [ ]
  Gone-disconnected ended none h = refl
  Gone-disconnected ended (some a) h = elim h [ ]

  no_answer_left : (t : Thread) (b : Option Answer) → Gone t b → Gone t none
  no_answer_left confirming b h = h
  no_answer_left (sending a) b h = h
  no_answer_left dropping b h = h
  no_answer_left ended b h = tt

  receive-Gone :
      (cs : List Consent)
      → Holds confirm i d Gone cs
      → let r = receive i cs (get_elem? cs i) in (r.0 ≡ disconnected) × Holds confirm i d Gone r.1
  receive-Gone cs (c, at, e, h) =
      subst (λ o. let r = receive i cs o in (r.0 ≡ disconnected) × Holds confirm i d Gone r.1)
        (sym at)
        (
          Gone-disconnected c.thread c.buffer h,
          emptied-Holds Gone cs c at e (no_answer_left c.thread c.buffer h),
        )

  -- After the answer: the time runs out, or the channel is closed.
  abbrev pub Last : Recv → List Consent → Type 0
  Last r cs =
      ((r ≡ timeout) × Holds confirm i d Told cs) ⊎ ((r ≡ disconnected) × Holds confirm i d Gone cs)

  buffered-last :
      (t : Thread) (b : Option Answer)
      → Told t b
      → ((buffered t b ≡ timeout) × Told t none) ⊎ ((buffered t b ≡ disconnected) × Gone t none)
  buffered-last confirming b h = elim h [ ]
  buffered-last (sending a) b h = elim h [ ]
  buffered-last dropping none h = inl (refl, tt)
  buffered-last dropping (some a) h = elim h [ ]
  buffered-last ended none h = inr (refl, tt)
  buffered-last ended (some a) h = elim h [ ]

  receive-Last :
      (cs : List Consent)
      → Holds confirm i d Told cs
      → let r = receive i cs (get_elem? cs i) in Last r.0 r.1
  receive-Last cs (c, at, e, h) =
      subst (λ o. let r = receive i cs o in Last r.0 r.1) (sym at)
        (elim (buffered-last c.thread c.buffer h) [
          | inl (late, still) ↦ inl (late, emptied-Holds Told cs c at e still)
          | inr (closed, gone) ↦ inr (closed, emptied-Holds Gone cs c at e gone)
        ])

  module _ (P : Thread → Option Answer → Type 0) (steady : Steady confirm i d P) where
    pub recv_timeout-other :
        (j : Receiver) (millis : ℕ) (desk : Desk)
        → j ≢ i
        → Holds confirm i d P desk.consents
        → Holds confirm i d P (recv_timeout confirm j millis desk).1.consents
    unfolding recv_timeout
    recv_timeout-other j millis desk ne h =
        let cs = advance_all confirm (next_steps desk.schedule) desk.consents in
        receive-other confirm i d P j cs ne
          (advance_all-Holds confirm i d P steady (next_steps desk.schedule) desk.consents h)
          (get_elem? cs j)

    pub yes_or_no_p-Holds :
        (prompt : Bytes) (desk : Desk)
        → Holds confirm i d P desk.consents
        → Holds confirm i d P (yes_or_no_p prompt desk).1.consents
    unfolding yes_or_no_p
    yes_or_no_p-Holds prompt desk (c, at, e, h) = (
      c,
      get_elem?-append_left desk.consents _ i (lt_of_get_elem? desk.consents i c at) ∙ at,
      e,
      h,
    )

  pub recv_timeout-Next :
      (millis : ℕ) (desk : Desk)
      → Holds confirm i d (Fits (confirm i d)) desk.consents
      → let r = recv_timeout confirm i millis desk in Next r.0 r.1.consents
  unfolding recv_timeout
  recv_timeout-Next millis desk h =
      receive-Next (advance_all confirm (next_steps desk.schedule) desk.consents) (
        advance_all-Holds confirm i d (Fits (confirm i d)) (Fits-Steady confirm i d)
          (next_steps desk.schedule) desk.consents h)

  pub recv_timeout-Last :
      (millis : ℕ) (desk : Desk)
      → Holds confirm i d Told desk.consents
      → let r = recv_timeout confirm i millis desk in Last r.0 r.1.consents
  unfolding recv_timeout
  recv_timeout-Last millis desk h =
      receive-Last (advance_all confirm (next_steps desk.schedule) desk.consents) (
        advance_all-Holds confirm i d Told (Told-Steady confirm i d) (next_steps desk.schedule)
          desk.consents h)

  pub recv_timeout-Gone :
      (millis : ℕ) (desk : Desk)
      → Holds confirm i d Gone desk.consents
      → let r = recv_timeout confirm i millis desk in
        (r.0 ≡ disconnected) × Holds confirm i d Gone r.1.consents
  unfolding recv_timeout
  recv_timeout-Gone millis desk h =
      receive-Gone (advance_all confirm (next_steps desk.schedule) desk.consents) (
        advance_all-Holds confirm i d Gone (Gone-Steady confirm i d) (next_steps desk.schedule)
          desk.consents h)
