-- ===== src/Tests/Consent.antt =====
-- Threads and channels of src/prompt.rs.
use f2ido.Prelude.{ℕ, ◌≡◌, refl, arith, true, false, none, some, List, [], ◌∷◌}
use f2ido.Ctaphid.Types.{State}
use f2ido.Ctaphid.Env.{Env, answer, timeout, disconnected}
use f2ido.Outcome.{pure}
use f2ido.Ctaphid.Context.{Context}
use f2ido.Tests.{env, args}
use f2ido.Ctaphid.Channel.{parse}
use f2ido.Ctaphid.Parser.{check_packet}
use f2ido.Ctaphid.Effects.Rules.{Ends}
use f2ido.Prompt.Consent.{
  Desk, Confirm, confirming, said, yes_or_no_p, recv_timeout, consent_prompt,
}
use f2ido.Prompt.Consent.Delivery.{Delivers, Op, ask, poll, heard, yes_or_no_p-Delivers}
use f2ido.Prompt.Consent.Decision.{asking, Decided, parse-Decided}

-- Every user refuses.
abbrev confirm : Confirm
confirm i description = some (said false)

-- One thread waits for its user. A second one is new: it confirms before its first reception, sends
-- before its second, and drops its sender before its fourth, or it confirms and sends before the first.
abbrev desk : List (List ℕ) → Desk
desk schedule = record {
  consents = record { description = 65 ∷ []; thread = confirming; buffer = none } ∷ [];
  schedule = schedule;
}

abbrev slow : Desk
slow = desk ((0 ∷ 1 ∷ []) ∷ (0 ∷ []) ∷ (1 ∷ []) ∷ [] ∷ (1 ∷ []) ∷ [])

abbrev ops : List Op
ops = poll 1 200 ∷ poll 0 200 ∷ ask (66 ∷ []) ∷ poll 1 200 ∷ poll 1 200 ∷ poll 1 200 ∷ []

heard-ops :
    heard confirm 1 ops (yes_or_no_p (10 ∷ []) slow).1
    ≡ timeout ∷ answer false ∷ timeout ∷ disconnected ∷ []
unfolding yes_or_no_p recv_timeout
heard-ops = refl

yes_or_no_p-Delivers_example :
    Delivers (some (said false)) (heard confirm 1 ops (yes_or_no_p (10 ∷ []) slow).1)
unfolding yes_or_no_p
yes_or_no_p-Delivers_example = yes_or_no_p-Delivers confirm (10 ∷ []) slow ops

abbrev quick : Desk
quick = desk ((1 ∷ 0 ∷ 1 ∷ []) ∷ [])

abbrev desk_env : Env Desk
desk_env = record {
  token = record {
    increment_token_counter = pure 1;
    encrypt = λ xs. pure xs;
    decrypt = λ xs. pure xs;
    sha256_hash = λ xs. pure xs;
    sign = λ key xs. pure xs;
    generate_key_pair = pure (1 ∷ [], 2 ∷ [], 3 ∷ []);
    is_valid_id = λ xs. pure true;
    create_certificate = λ key pk issuer subject from to. pure pk;
  };
  prompt = consent_prompt confirm (λ q. 10 ∷ []) (λ w. (0, w));
  cbor = env.cbor;
  pack = env.pack;
}

abbrev waiting : Context Desk
waiting = record {
  channel = record { cid = 0; state = State.make_credential args 1 };
  queue = [];
  world = (yes_or_no_p (10 ∷ []) quick).1;
}

parse-Decided_example :
    Ends
      (Decided desk_env confirm (λ q. 10 ∷ []) (λ w. (0, w)))
      (parse (asking desk_env confirm (λ q. 10 ∷ []) (λ w. (0, w))) (check_packet 0) waiting)
unfolding yes_or_no_p
parse-Decided_example =
    parse-Decided desk_env confirm (λ q. 10 ∷ []) (λ w. (0, w)) (check_packet 0) (10 ∷ []) quick
      waiting refl refl (omega arith)
