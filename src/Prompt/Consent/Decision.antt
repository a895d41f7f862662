-- ===== src/Prompt/Consent/Decision.antt =====
-- A channel of src/ctaphid.rs on the threads of src/prompt.rs.
use f2ido.Prelude.{ℕ, ◌≤◌, ◌≡◌, ◌≢◌, refl, ap, ◌∙◌, subst, Bool, true, false, Option, none, some}
use f2ido.Outcome.{Outcome, ok, err, panic}
use f2ido.Ctaphid.Types.{Bytes, is_waiting}
use f2ido.Ctaphid.Env.{Env, Question, timeout}
use f2ido.Ctaphid.Context.{Context}
use f2ido.Ctaphid.Channel.{parse}
use f2ido.Ctaphid.Effects.Rules.{Ends}
use f2ido.Ctaphid.Effects.Consent.{WaitsOn, IsConsent, parse-WaitsOn}
use f2ido.Prompt.{escape_string}
use f2ido.Prompt.Consent.{
  Answer, said, error, Desk, Confirm, next_steps, yes_or_no_p, recv_timeout, consent_prompt,
}
use f2ido.Prompt.Consent.Life.{told}
use f2ido.Prompt.Consent.Answers.{turns, recv_timeout-told}

module _ (env : Env Desk) (confirm : Confirm) (format : Question → Bytes)
    (clock : Desk → ℕ × Desk) where
  -- The channels, with the prompt of the program.
  unfoldable pub asking : Env Desk
  unfolding consent_prompt
  asking = record {
    token = env.token;
    prompt = consent_prompt confirm format clock;
    cbor = env.cbor;
    pack = env.pack;
  }

  abbrev pub Decided : Context Desk → Type 0
  Decided c = is_waiting c.channel.state ≡ false

  told≢timeout : (o : Option Answer) → told o ≢ timeout
  told≢timeout none e = cc
  told≢timeout (some (said true)) e = cc
  told≢timeout (some (said false)) e = cc
  told≢timeout (some error) e = cc

  not_waiting : (b : Bool) → b ≢ true → b ≡ false
  not_waiting true h = absurd (h refl)
  not_waiting false h = refl

  decided :
      (pkt : Bytes) (o : Option Answer) (r : Outcome (Context Desk) (Unit {0}))
      → Ends (WaitsOn pkt (told o)) r
      → Ends Decided r
  decided pkt o (ok a c) h = not_waiting (is_waiting c.channel.state) (λ w. told≢timeout o (h w).0)
  decided pkt o (err e c) h = not_waiting (is_waiting c.channel.state) (λ w. told≢timeout o (h w).0)
  decided pkt o panic h = tt

  -- When the thread of a call of yes_or_no_p takes two steps before its receiver is first looked
  -- at, any packet to the channel that waits for it, with any outcome but a panic, ends the wait.
  pub parse-Decided :
      (pkt prompt : Bytes) (desk : Desk) (c : Context Desk)
      → c.world ≡ (yes_or_no_p prompt desk).1
      → IsConsent asking c.channel.state (yes_or_no_p prompt desk).0
      → 2 ≤ turns (yes_or_no_p prompt desk).0 (next_steps desk.schedule)
      → Ends Decided (parse asking pkt c)
  unfolding asking
  parse-Decided pkt prompt desk c world is enough =
      let i = (yes_or_no_p prompt desk).0 in
      decided pkt (confirm i (escape_string prompt)) (parse asking pkt c) (
        subst (λ x. Ends (WaitsOn pkt x) (parse asking pkt c))
          (ap (λ w. (recv_timeout confirm i 200 w).0) world
            ∙ recv_timeout-told confirm prompt desk 200 enough)
          (parse-WaitsOn asking pkt i c is))
