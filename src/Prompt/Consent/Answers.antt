-- ===== src/Prompt/Consent/Answers.antt =====
-- When a channel hears the answer of the user from a thread of src/prompt.rs.
use f2ido.Prelude.{
  ℕ, ◌+◌, ◌-◌, ◌≤◌, ◌≡◌, ◌∙◌, refl, arith, ap, sym, subst, inl, inr, Option, none, some, List, [],
  ◌∷◌, ◌++◌, ◌==◌, if◌then◌else◌, length, get_elem?, get_elem?-append_last,
}
use f2ido.Ctaphid.Types.{Bytes, Receiver}
use f2ido.Prompt.{escape_string}
use f2ido.Prompt.Consent.{
  Answer, Thread, confirming, sending, dropping, ended, Consent, Desk, Confirm, confirmed,
  advance_at, advance_all, buffered, receive, next_steps, yes_or_no_p, recv_timeout,
}
use f2ido.Prompt.Consent.Life.{
  Fits, told, same_or_not, Holds, Moves, Fits-Steady, advance_at_self, advance_at-other,
}

-- The steps that a thread has before its answer is in the buffer.
abbrev pub steps_left : Thread → ℕ
steps_left confirming = 2
steps_left (sending a) = 1
steps_left dropping = 0
steps_left ended = 0

abbrev pub turns : Receiver → List Receiver → ℕ
turns i [] = 0
turns i (j ∷ steps) = (if i == j then 1 else 0) + turns i steps

abbrev Within : Option Answer → ℕ → Thread → Option Answer → Type 0
Within o n t b = Fits o t b × (steps_left t ≤ n)

module _ (confirm : Confirm) (i : Receiver) (d : Bytes) where
  confirmed_left : (o : Option Answer) (n : ℕ) → 2 ≤ n → steps_left (confirmed o) ≤ n - 1
  confirmed_left none n h = omega arith
  confirmed_left (some a) n h = omega arith

  Within-Moves : (n : ℕ) → Moves confirm i d (Within (confirm i d) n) (Within (confirm i d) (n - 1))
  Within-Moves n e confirming none (h, le) =
      (Fits-Steady confirm i d e confirming none h, confirmed_left (confirm i d) n le)
  Within-Moves n e confirming (some b) (h, le) = elim h [ ]
  Within-Moves n e (sending a) none (h, le) = (h, omega arith)
  Within-Moves n e (sending a) (some b) (h, le) = elim h [ ]
  Within-Moves n e dropping none (h, le) = elim h [ ]
  Within-Moves n e dropping (some a) (h, le) = (h, omega arith)
  Within-Moves n e ended none (h, le) = (h, omega arith)
  Within-Moves n e ended (some a) (h, le) = (h, omega arith)

  advance_all-Within :
      (n : ℕ) (steps : List Receiver) (cs : List Consent)
      → n ≤ turns i steps
      → Holds confirm i d (Within (confirm i d) n) cs
      → Holds confirm i d (Within (confirm i d) 0) (advance_all confirm steps cs)
  unfolding advance_all
  advance_all-Within n [] cs enough (c, at, e, (h, le)) = (c, at, e, (h, omega arith))
  advance_all-Within n (j ∷ steps) cs enough h = elim (same_or_not j i) [
    | inl e ↦
        advance_all-Within (n - 1) steps (advance_at confirm j cs (get_elem? cs j)) (ground arith) (
          subst
            (λ x.
              Holds confirm i d (Within (confirm i d) (n - 1))
                (advance_at confirm x cs (get_elem? cs x)))
            (sym e)
            (advance_at_self confirm i d (Within (confirm i d) n) (Within (confirm i d) (n - 1))
              (Within-Moves n) cs h))
    | inr ne ↦
        advance_all-Within n steps (advance_at confirm j cs (get_elem? cs j)) (ground arith)
          (advance_at-other confirm i d (Within (confirm i d) n) j cs ne h (get_elem? cs j))
  ]

  ended_buffered :
      (t : Thread) (b : Option Answer)
      → Within (confirm i d) 0 t b
      → buffered t b ≡ told (confirm i d)
  ended_buffered confirming b (h, le) = ground arith
  ended_buffered (sending a) b (h, le) = ground arith
  ended_buffered dropping none (h, le) = elim h [ ]
  ended_buffered dropping (some a) (h, le) = sym (ap told h)
  ended_buffered ended none (h, le) = sym (ap told h)
  ended_buffered ended (some a) (h, le) = sym (ap told h)

  receive-told :
      (cs : List Consent)
      → Holds confirm i d (Within (confirm i d) 0) cs
      → (receive i cs (get_elem? cs i)).0 ≡ told (confirm i d)
  receive-told cs (c, at, e, h) =
      ap (λ o. (receive i cs o).0) at ∙ ended_buffered c.thread c.buffer h

-- When the thread of a call of yes_or_no_p takes two steps before the first reception returns, among
-- any steps of the others, this reception yields the user's answer to the escaped prompt.
pub recv_timeout-told :
    (confirm : Confirm) (prompt : Bytes) (desk : Desk) (millis : ℕ)
    → 2 ≤ turns (yes_or_no_p prompt desk).0 (next_steps desk.schedule)
    → let (i, asked) = yes_or_no_p prompt desk in
      (recv_timeout confirm i millis asked).0 ≡ told (confirm i (escape_string prompt))
unfolding yes_or_no_p recv_timeout
recv_timeout-told confirm prompt desk millis enough =
    let i = length desk.consents in
    let fresh : Consent = record {
      description = escape_string prompt;
      thread = confirming;
      buffer = none;
    } in
    let cs = desk.consents ++ (fresh ∷ []) in
    receive-told confirm i (escape_string prompt)
      (advance_all confirm (next_steps desk.schedule) cs)
      (advance_all-Within confirm i (escape_string prompt) 2 (next_steps desk.schedule) cs enough
        (fresh, get_elem?-append_last desk.consents fresh, refl, (tt, omega arith)))
