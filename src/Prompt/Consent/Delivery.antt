-- ===== src/Prompt/Consent/Delivery.antt =====
-- What a channel hears from a thread of src/prompt.rs, whatever the other threads and channels do.
use f2ido.Prelude.{
  ℕ, ◌≡◌, ◌≢◌, refl, arith, sym, ◌⊎◌, inl, inr, Option, none, some, List, [], ◌∷◌, Bool, true,
  false, ◌==◌, length, subst, All, get_elem?-append_last,
}
use f2ido.Ctaphid.Types.{Bytes, Receiver}
use f2ido.Ctaphid.Env.{Recv, disconnected, timeout}
use f2ido.Prompt.{escape_string}
use f2ido.Prompt.Consent.{Answer, Thread, confirming, yes_or_no_p, recv_timeout, Desk, Confirm}
use f2ido.Prompt.Consent.Life.{
  Fits, Gone, Told, After, told, same_or_not, Holds, Steady, Fits-Steady, Gone-Steady, Told-Steady,
}
use f2ido.Prompt.Consent.Reception.{
  recv_timeout-other, yes_or_no_p-Holds, recv_timeout-Next, recv_timeout-Gone, recv_timeout-Last,
}

-- Timeouts, then a closed channel.
abbrev pub Closes : List Recv → Type 0
Closes [] = Unit {0}
Closes (r ∷ rs) =
    ((r ≡ timeout) × Closes rs) ⊎ ((r ≡ disconnected) × All (λ x. x ≡ disconnected) rs)

abbrev pub Rest : Option Answer → List Recv → Type 0
Rest none rs = All (λ x. x ≡ disconnected) rs
Rest (some a) rs = Closes rs

-- Timeouts, then the answer, then timeouts until the sender is dropped, then a closed channel. A
-- panic closes the channel in place of the answer.
abbrev pub Delivers : Option Answer → List Recv → Type 0
Delivers o [] = Unit {0}
Delivers o (r ∷ rs) = ((r ≡ timeout) × Delivers o rs) ⊎ ((r ≡ told o) × Rest o rs)

-- A use of the prompt: a call of `yes_or_no_p`, or a reception.
pub data Op : Type 0 where
  ask : (prompt : Bytes) → Op
  poll : (receiver : Receiver) (millis : ℕ) → Op

abbrev pub reported : Bool → Recv → List Recv → List Recv
reported true r rs = r ∷ rs
reported false r rs = rs

-- What the receiver `i` yields in a run of uses.
abbrev pub heard : Confirm → Receiver → List Op → Desk → List Recv
heard confirm i [] desk = []
heard confirm i (ask prompt ∷ ops) desk = heard confirm i ops (yes_or_no_p prompt desk).1
heard confirm i (poll j millis ∷ ops) desk =
    let result = recv_timeout confirm j millis desk in
    reported (i == j) result.0 (heard confirm i ops result.1)

reported-same : (i : ℕ) (r : Recv) (rs : List Recv) → reported (i == i) r rs ≡ r ∷ rs
reported-same i r rs = ground arith

reported-other : (i j : ℕ) (r : Recv) (rs : List Recv) → j ≢ i → reported (i == j) r rs ≡ rs
reported-other i j r rs ne = ground arith

module _ (confirm : Confirm) (i : Receiver) (d : Bytes) where
  -- What the receiver yields has `L`, when `P` is kept by the threads and each reception, put in
  -- front of what follows, has `L` again.
  heard-runs :
      (P : Thread → Option Answer → Type 0) (steady : Steady confirm i d P) (L : List Recv → Type 0)
      (nil : L [])
      (on_poll : (millis : ℕ) (desk : Desk) (ops : List Op)
        → Holds confirm i d P desk.consents
        → let r = recv_timeout confirm i millis desk in
          (Holds confirm i d P r.1.consents → L (heard confirm i ops r.1))
          → L (r.0 ∷ heard confirm i ops r.1))
      (ops : List Op) (desk : Desk)
      → Holds confirm i d P desk.consents
      → L (heard confirm i ops desk)
  heard-runs P steady L nil on_poll [] desk h = nil
  heard-runs P steady L nil on_poll (ask prompt ∷ ops) desk h =
      heard-runs P steady L nil on_poll ops (yes_or_no_p prompt desk).1
        (yes_or_no_p-Holds confirm i d P steady prompt desk h)
  heard-runs P steady L nil on_poll (poll j millis ∷ ops) desk h = elim (same_or_not j i) [
    | inl e ↦
        subst (λ k. L (heard confirm i (poll k millis ∷ ops) desk)) (sym e)
          (subst L (sym (reported-same i _ _)) (
            on_poll millis desk ops h
              (heard-runs P steady L nil on_poll ops (recv_timeout confirm i millis desk).1)))
    | inr ne ↦ subst L (sym (reported-other i j _ _ ne)) (
        heard-runs P steady L nil on_poll ops (recv_timeout confirm j millis desk).1
          (recv_timeout-other confirm i d P steady j millis desk ne h))
  ]

  heard-Silent :
      (ops : List Op) (desk : Desk)
      → Holds confirm i d Gone desk.consents
      → All (λ x. x ≡ disconnected) (heard confirm i ops desk)
  heard-Silent =
      heard-runs Gone (Gone-Steady confirm i d) (All (λ x. x ≡ disconnected)) tt
        (λ millis desk ops h rest.
          let (r, gone) = recv_timeout-Gone confirm i d millis desk h in (r, rest gone))

  heard-Closes :
      (ops : List Op) (desk : Desk)
      → Holds confirm i d Told desk.consents
      → Closes (heard confirm i ops desk)
  heard-Closes = heard-runs Told (Told-Steady confirm i d) Closes tt (λ millis desk ops h rest.
      elim (recv_timeout-Last confirm i d millis desk h) [
        | inl (r, still) ↦ inl (r, rest still)
        | inr (r, gone) ↦ inr (r, heard-Silent ops (recv_timeout confirm i millis desk).1 gone)
      ])

  heard-Rest :
      (o : Option Answer) (ops : List Op) (desk : Desk)
      → Holds confirm i d (After o) desk.consents
      → Rest o (heard confirm i ops desk)
  heard-Rest none = heard-Silent
  heard-Rest (some a) = heard-Closes

  heard-Delivers :
      (ops : List Op) (desk : Desk)
      → Holds confirm i d (Fits (confirm i d)) desk.consents
      → Delivers (confirm i d) (heard confirm i ops desk)
  heard-Delivers =
      heard-runs (Fits (confirm i d)) (Fits-Steady confirm i d) (Delivers (confirm i d)) tt
        (λ millis desk ops h rest. elim (recv_timeout-Next confirm i d millis desk h) [
          | inl (r, fits) ↦ inl (r, rest fits)
          | inr (r, after) ↦
              inr (r, heard-Rest (confirm i d) ops (recv_timeout confirm i millis desk).1 after)
        ])

-- Whatever order the threads run in, and whatever else is asked and received in between, the
-- receiver of a call of yes_or_no_p yields timeouts, then once the user's answer to the escaped
-- prompt, then timeouts until the thread has dropped its sender, and then nothing but a closed
-- channel; when the thread panics in place of an answer, the first timeouts are followed by
-- nothing but a closed channel.
pub yes_or_no_p-Delivers :
    (confirm : Confirm) (prompt : Bytes) (desk : Desk) (ops : List Op)
    → let (i, asked) = yes_or_no_p prompt desk in
      Delivers (confirm i (escape_string prompt)) (heard confirm i ops asked)
unfolding yes_or_no_p
yes_or_no_p-Delivers confirm prompt desk ops =
    heard-Delivers confirm (length desk.consents) (escape_string prompt) ops
      (yes_or_no_p prompt desk).1
      (
        record { description = escape_string prompt; thread = confirming; buffer = none },
        get_elem?-append_last desk.consents _,
        refl,
        tt,
      )
