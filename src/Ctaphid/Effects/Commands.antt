-- ===== src/Ctaphid/Effects/Commands.antt =====
-- The CTAP2 commands: a property of id and queue that replies keep, and the answer that a
-- channel which starts to wait has sent.
use f2ido.Prelude.{ℕ, true, false, List, ◌∷◌, ◌++◌, Option, none, some}
use f2ido.Outcome.{M, Outcome, ok, err, panic, ◌>>=◌, ◌>>◌}
use f2ido.Ctaphid.Types.{
  Bytes, Queue, State, Channel, MakeCredentialArgs, GetAssertionArgs, CredentialId,
}
use f2ido.Ctaphid.Env.{Env, Recv, answer, failed, disconnected, timeout}
use f2ido.Ctaphid.Context.{Context, call, set_state, reply}
use f2ido.Ctaphid.Commands.{
  send_cbor_error, get_info, make_credential_3, make_credential_2, make_credential_1,
  make_credential, make_credential_read, make_credential_cancel, get_assertion_3, get_assertion_2,
  get_assertion_1, check_credential, get_assertion_read, get_assertion, on_consent, then_init,
  reset_state, make_credential_args, get_assertion_args,
}
use f2ido.Ctaphid.Channel.{cbor_cmd}
use f2ido.Ctaphid.Reply.Bounds.{AreFrames}
use f2ido.Ctaphid.Effects.Answers.{Any, Idle, Answered, Idle-Answered, Any-grows, Idle-grows}
use f2ido.Ctaphid.Effects.Rules.{
  Ends, Yields, Keeps, Keeps-pure, Keeps-abort, Keeps-bind, Yields-bind, Yields-Keeps, Yields-if,
  Keeps-or_abort, Keeps-or_fail, Keeps-assert, Keeps-index, Keeps-slice_from, reply-Ends, On,
  Keeps-lift, Keeps-call, Keeps-get_state, Keeps-reply, Keeps-make_credential_args,
  Keeps-get_assertion_args,
}

pub ruleset rules = (
  Keeps-pure, Keeps-abort, Keeps-bind, Keeps-or_abort, Keeps-or_fail, Keeps-assert, Keeps-index,
  Keeps-lift, Keeps-call, Keeps-get_state, Keeps-reply, Keeps-make_credential_args,
  Keeps-get_assertion_args,
)

module _ {W : Type 0} (env : Env W) (F G : ℕ → Queue → Type 0)
    (grows : (cid : ℕ) (q : Queue) (p : Bytes) (ps : List Bytes)
      → AreFrames (p ∷ ps)
      → F cid q
      → F cid (q ++ p ∷ ps))
    (answers : (cid : ℕ) (q : Queue) (p : Bytes) (ps : List Bytes)
      → AreFrames (p ∷ ps)
      → F cid q
      → G cid (q ++ p ∷ ps)) where
  every_state_stays :
      (ch : Channel) (q : Queue) (p : Bytes) (ps : List Bytes)
      → AreFrames (p ∷ ps)
      → Any F ch q
      → Any F ch (q ++ p ∷ ps)
  every_state_stays = Any-grows F grows

  resting_stays :
      (ch : Channel) (q : Queue) (p : Bytes) (ps : List Bytes)
      → AreFrames (p ∷ ps)
      → Idle F ch q
      → Idle F ch (q ++ p ∷ ps)
  resting_stays = Idle-grows F grows

  resting_is_done : (c : Context W) → On (Idle F) c → Answered F G c
  resting_is_done = Idle-Answered F G

  make_credential_3-Keeps : Keeps (On {W = W} (Any F)) (make_credential_3 env)
  unfolding make_credential_3
  make_credential_3-Keeps = search (rules, every_state_stays) depth 30

  get_assertion_3-Keeps : Keeps (On {W = W} (Any F)) (get_assertion_3 env)
  unfolding get_assertion_3
  get_assertion_3-Keeps = search (rules, every_state_stays) depth 30

  then_init-Yields :
      (m : M (Context W) (Unit {0}))
      → Keeps (On {W = W} (Any F)) m
      → Yields (On {W = W} (Any F)) (Answered F G) (then_init m)
  then_init-Yields m h = record { at = λ c p. reset (m c) (h.at c p) }
    where
      reset :
          (o : Outcome (Context W) (Unit {0}))
          → Ends (On {W = W} (Any F)) o
          → Ends (Answered F G) (reset_state o)
      reset (ok a c) p = record { holds = p; sent = λ w. cc }
      reset (err e c) p = record { holds = p; sent = λ w. cc }
      reset panic p = tt

  -- A reply, after which the channel may go on waiting.
  reply-Yields :
      (cmd : ℕ) (payload : Bytes) → Yields (On {W = W} (Any F)) (Answered F G) (reply cmd payload)
  reply-Yields cmd payload = record {
    at = λ c h. reply-Ends (Answered F G) c cmd payload (λ p ps are. record {
      holds = grows c.channel.cid c.queue p ps are h;
      sent = λ w. answers c.channel.cid c.queue p ps are h;
    });
  }

  on_consent-Yields :
      (go : M (Context W) (Unit {0})) (r : Recv)
      → Keeps (On {W = W} (Any F)) go
      → Yields (On {W = W} (Any F)) (Answered F G) (on_consent go r)
  unfolding send_cbor_error
  on_consent-Yields go (answer true) h = then_init-Yields go h
  on_consent-Yields go (answer false) h =
      then_init-Yields _ (Keeps-reply (Any F) every_state_stays _ _)
  on_consent-Yields go disconnected h =
      then_init-Yields _ (Keeps-reply (Any F) every_state_stays _ _)
  on_consent-Yields go failed h = record { at = λ c p. tt }
  on_consent-Yields go timeout h = reply-Yields _ _

  -- Asking for the consent leaves a channel that is idle, or that has sent an answer.
  pub make_credential_2-Yields : Yields (On {W = W} (Any F)) (Answered F G) (make_credential_2 env)
  unfolding make_credential_2
  make_credential_2-Yields = record { at = λ c h. in_state c.channel.state c h }
    where
      in_state :
          (s : State) (c : Context W)
          → On (Any F) c
          → Ends (Answered F G) (
              (make_credential_args s >>= λ (args, consent).
              call (env.prompt.recv_timeout consent 200) >>= on_consent (make_credential_3 env))
                c)
      in_state State.init c h = tt
      in_state (State.cont cmd bcnt buffer seqnum) c h = tt
      in_state (State.get_assertion args consent) c h = tt
      in_state (State.make_credential args consent) c h =
          (on_consent-Yields (make_credential_3 env) _ make_credential_3-Keeps).at _ h

  pub get_assertion_2-Yields : Yields (On {W = W} (Any F)) (Answered F G) (get_assertion_2 env)
  unfolding get_assertion_2
  get_assertion_2-Yields = record { at = λ c h. in_state c.channel.state c h }
    where
      in_state :
          (s : State) (c : Context W)
          → On (Any F) c
          → Ends (Answered F G) (
              (get_assertion_args s >>= λ (args, consent).
              call (env.prompt.recv_timeout consent 200) >>= on_consent (get_assertion_3 env))
                c)
      in_state State.init c h = tt
      in_state (State.cont cmd bcnt buffer seqnum) c h = tt
      in_state (State.make_credential args consent) c h = tt
      in_state (State.get_assertion args consent) c h =
          (on_consent-Yields (get_assertion_3 env) _ get_assertion_3-Keeps).at _ h

  send-Idle :
      (cmd : ℕ) (payload : Bytes) → Yields (On (Idle F)) (Answered F G) (reply {W = W} cmd payload)
  send-Idle cmd payload =
      Yields-Keeps (On (Idle F)) (Answered F G) _ resting_is_done
        (Keeps-reply (Idle F) resting_stays cmd payload)

  -- The question is put: the channel waits, and its first look at the consent answers.
  make_credential_1-Yields :
      (args : MakeCredentialArgs)
      → Yields (On {W = W} (Idle F)) (Answered F G) (make_credential_1 env args)
  unfolding make_credential_1
  make_credential_1-Yields args =
      search (rules, resting_stays, Yields-bind, resting_is_done, waits) depth 30
    where
      waits :
          (s : State)
          → Yields (On {W = W} (Idle F)) (Answered F G) (set_state s >> make_credential_2 env)
      waits s = record {
        at = λ c h.
            make_credential_2-Yields.at
              (record c { channel = record { cid = c.channel.cid; state = s } }) h.0;
      }

  get_assertion_1-Yields :
      (args : GetAssertionArgs)
      → Yields (On {W = W} (Idle F)) (Answered F G) (get_assertion_1 env args)
  unfolding get_assertion_1
  get_assertion_1-Yields args =
      search (rules, resting_stays, Yields-bind, resting_is_done, waits) depth 30
    where
      waits :
          (s : State)
          → Yields (On {W = W} (Idle F)) (Answered F G) (set_state s >> get_assertion_2 env)
      waits s = record {
        at = λ c h.
            get_assertion_2-Yields.at
              (record c { channel = record { cid = c.channel.cid; state = s } }) h.0;
      }

  check_credential-Yields :
      (args : GetAssertionArgs) (o : Option CredentialId)
      → Yields (On {W = W} (Idle F)) (Answered F G) (check_credential env args o)
  unfolding send_cbor_error
  check_credential-Yields args none = send-Idle _ _
  check_credential-Yields args (some id) =
      search
        (
          rules, resting_stays, Yields-bind, resting_is_done, Yields-if, get_assertion_1-Yields,
          send-Idle,
        )
        depth 30

  get_assertion-Yields :
      (cbor : Bytes) → Yields (On {W = W} (Idle F)) (Answered F G) (get_assertion env cbor)
  unfolding get_assertion
  get_assertion-Yields cbor = read (env.cbor.read_get_assertion_args cbor)
    where
      read :
          (o : Option GetAssertionArgs)
          → Yields (On {W = W} (Idle F)) (Answered F G) (get_assertion_read env o)
      read none = send-Idle _ _
      read (some args) =
          search (rules, resting_stays, Yields-bind, resting_is_done, check_credential-Yields) depth
            30

  make_credential-Yields :
      (cbor : Bytes) → Yields (On {W = W} (Idle F)) (Answered F G) (make_credential env cbor)
  unfolding make_credential
  make_credential-Yields cbor = read (env.cbor.read_make_credential_args cbor)
    where
      read :
          (o : Option MakeCredentialArgs)
          → Yields (On {W = W} (Idle F)) (Answered F G) (make_credential_read env o)
      read none = send-Idle _ _
      read (some args) = make_credential_1-Yields args

  get_info-Yields : (cbor : Bytes) → Yields (On {W = W} (Idle F)) (Answered F G) (get_info env cbor)
  unfolding get_info
  get_info-Yields cbor =
      search (rules, resting_stays, Yields-bind, resting_is_done, send-Idle) depth 30

  -- Whatever the command, an idle channel stays idle or has answered.
  pub cbor_cmd-Yields :
      (message : Bytes) → Yields (On {W = W} (Idle F)) (Answered F G) (cbor_cmd env message)
  unfolding cbor_cmd
  cbor_cmd-Yields message =
      search
        (
          rules, resting_stays, Yields-bind, resting_is_done, Yields-if, get_info-Yields,
          make_credential-Yields, get_assertion-Yields, Yields-Keeps, Keeps-slice_from,
        )
        depth 30

  pub cancel-Yields : Yields (On {W = W} (Any F)) (Answered F G) make_credential_cancel
  unfolding make_credential_cancel
  cancel-Yields = record {
    at = λ c h.
        reply-Ends (Answered F G) _ _ _
          (λ p ps are. record { holds = grows c.channel.cid c.queue p ps are h; sent = λ w. cc });
  }
