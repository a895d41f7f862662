-- ===== src/Ctaphid/Effects/Consent.antt =====
-- A channel that waits for the user, in src/ctaphid.rs, and the packets that it gets.
use f2ido.Prelude.{
  ℕ, ◌≡◌, refl, arith, subst, some, get_elem?, bit_and, if◌then◌else◌, Bool, true, false, ◌&&◌,
  ◌==◌,
}
use f2ido.Outcome.{M, Outcome, ok, err, panic, abort}
use f2ido.Ctaphid.Types.{
  Bytes, State, is_waiting, MakeCredentialArgs, GetAssertionArgs, Receiver, hack_check_status,
  ctaphid_cancel, err_operation_denied,
}
use f2ido.Ctaphid.Env.{Env, Recv, answer, failed, disconnected, timeout}
use f2ido.Ctaphid.Context.{Context}
use f2ido.Ctaphid.Commands.{
  reset_state, then_init, on_consent, send_cbor_error, make_credential_2, make_credential_3,
  get_assertion_2, get_assertion_3, make_credential_cancel, get_assertion_cancel,
}
use f2ido.Ctaphid.Channel.{
  packet_cid, packet_bcnt, parse_packet, on_wait, make_credential_state, get_assertion_state,
  parse_in, parse,
}
use f2ido.Ctaphid.Effects.Rules.{
  Ends, Peeks, Peeks-pure, Peeks-bind, Peeks-assert, Peeks-index, Peeks-slice, Reads, Reads-pure,
  Reads-index, Reads-bind, Reads-Peeks, reply-Ends,
}

-- The command byte, less its top bit.
abbrev pub IsCommand : Bytes → ℕ → Type 0
IsCommand pkt cmd = (b : ℕ) × (get_elem? pkt 4 ≡ some b) × (bit_and b 0x7f ≡ cmd)

false_is_not_true : false ≡ true → ⊥
false_is_not_true e = cc

packet_cid-Peeks : {S : Type 0} {Q : S → Type 0} (pkt : Bytes) → Peeks Q (packet_cid pkt)
unfolding packet_cid
packet_cid-Peeks pkt = search (Peeks-pure, Peeks-bind, Peeks-index) depth 20

packet_bcnt-Peeks : {S : Type 0} {Q : S → Type 0} (pkt : Bytes) → Peeks Q (packet_bcnt pkt)
unfolding packet_bcnt
packet_bcnt-Peeks pkt = search (Peeks-pure, Peeks-bind, Peeks-index) depth 20

never_waits : (asked : Recv) → false ≡ true → asked ≡ timeout
never_waits asked waits = cc

module _ {W : Type 0} where
  -- The channel waits on only if the receiver ran into its timeout.
  abbrev TimedOut : Recv → Context W → Type 0
  TimedOut asked c = is_waiting c.channel.state ≡ true → asked ≡ timeout

  -- The channel waits on only if the packet is a check of the status, and the receiver ran into its
  -- timeout.
  abbrev pub WaitsOn : Bytes → Recv → Context W → Type 0
  WaitsOn pkt asked c =
      is_waiting c.channel.state ≡ true → (asked ≡ timeout) × IsCommand pkt hack_check_status

  then_init-TimedOut :
      (asked : Recv) (m : M (Context W) (Unit {0})) (c : Context W)
      → Ends (TimedOut asked) (then_init m c)
  then_init-TimedOut asked m c = reset (m c)
    where
      reset : (o : Outcome (Context W) (Unit {0})) → Ends (TimedOut asked) (reset_state o)
      reset (ok a c') = never_waits asked
      reset (err e c') = never_waits asked
      reset panic = tt

  on_consent-TimedOut :
      (go : M (Context W) (Unit {0})) (asked : Recv) (c : Context W)
      → Ends (TimedOut asked) (on_consent go asked c)
  on_consent-TimedOut go (answer true) c = then_init-TimedOut (answer true) go c
  on_consent-TimedOut go (answer false) c =
      then_init-TimedOut (answer false) (send_cbor_error err_operation_denied) c
  on_consent-TimedOut go disconnected c =
      then_init-TimedOut disconnected (send_cbor_error err_operation_denied) c
  on_consent-TimedOut go failed c = tt
  on_consent-TimedOut go timeout c = reply-Ends (TimedOut timeout) c _ _ (λ p ps are waits. refl)

  cancel-WaitsOn :
      (pkt : Bytes) (asked : Recv) (c : Context W)
      → Ends (WaitsOn pkt asked) (make_credential_cancel c)
  unfolding make_credential_cancel send_cbor_error
  cancel-WaitsOn pkt asked c =
      reply-Ends (WaitsOn pkt asked) _ _ _ (λ p ps are waits. absurd (false_is_not_true waits))

module _ {W : Type 0} (env : Env W) where
  -- What the receiver says when a packet makes the channel look.
  abbrev pub looked : Receiver → Context W → Recv
  looked consent c = (env.prompt.recv_timeout consent 200 c.world).0

  make_credential_2-TimedOut :
      (args : MakeCredentialArgs) (consent : Receiver) (c : Context W)
      → c.channel.state ≡ State.make_credential args consent
      → Ends (TimedOut (looked consent c)) (make_credential_2 env c)
  unfolding make_credential_2
  make_credential_2-TimedOut args consent c e =
      rw e (on_consent-TimedOut (make_credential_3 env) (looked consent c) _)

  get_assertion_2-TimedOut :
      (args : GetAssertionArgs) (consent : Receiver) (c : Context W)
      → c.channel.state ≡ State.get_assertion args consent
      → Ends (TimedOut (looked consent c)) (get_assertion_2 env c)
  unfolding get_assertion_2
  get_assertion_2-TimedOut args consent c e =
      rw e (on_consent-TimedOut (get_assertion_3 env) (looked consent c) _)

  on_wait-WaitsOn :
      (asked : Recv) (check : M (Context W) (Unit {0})) (c : Context W) (pkt : Bytes)
      (r : ℕ × ℕ × ℕ × Bytes)
      → IsCommand pkt r.1
      → Ends (TimedOut asked) (check c)
      → Ends (WaitsOn pkt asked) (on_wait env check make_credential_cancel r c)
  on_wait-WaitsOn asked check c pkt (cid, cmd, bcnt, message) read checked =
      chosen ((cmd == hack_check_status) && (bcnt == 0)) ((cmd == ctaphid_cancel) && (bcnt == 0))
        is_check
    where
      is_check : ((cmd == hack_check_status) && (bcnt == 0)) ≡ true → cmd ≡ hack_check_status
      is_check h = ground arith

      both :
          cmd ≡ hack_check_status
          → (o : Outcome (Context W) (Unit {0})) → Ends (TimedOut asked) o
          → Ends (WaitsOn pkt asked) o
      both e (ok a c') h = λ w. (h w, subst (IsCommand pkt) e read)
      both e (err x c') h = λ w. (h w, subst (IsCommand pkt) e read)
      both e panic h = tt

      chosen :
          (b b' : Bool)
          → (b ≡ true → cmd ≡ hack_check_status)
          → Ends
              (WaitsOn pkt asked)
              ((if b then check else if b' then make_credential_cancel else abort) c)
      chosen true b' e = both (e refl) (check c) checked
      chosen false true e = cancel-WaitsOn pkt asked c
      chosen false false e = tt

  parse_packet-Reads :
      {Q : Context W → Type 0} (pkt : Bytes) → Reads Q (λ p. IsCommand pkt p.1) (parse_packet pkt)
  unfolding parse_packet
  parse_packet-Reads pkt = Reads-Peeks _ _ _ _ (Peeks-assert _ _) (λ u.
      Reads-Peeks _ _ _ _ (packet_cid-Peeks pkt) (λ cid.
        Reads-bind _ _ _ _ _ (Reads-index _ pkt 4) (λ b e.
          Reads-Peeks _ _ _ _ (Peeks-assert _ _) (λ v.
            Reads-Peeks _ _ _ _ (packet_bcnt-Peeks pkt) (λ n.
              Reads-Peeks _ _ _ _ (Peeks-slice _ _ _ pkt)
                (λ message. Reads-pure _ _ _ (b, e, refl)))))))

  -- The receiver that a waiting channel looks at.
  abbrev pub IsConsent : State → Receiver → Type 0
  IsConsent (State.make_credential args consent) r = consent ≡ r
  IsConsent (State.get_assertion args consent) r = consent ≡ r
  IsConsent _ r = ⊥

  -- A packet to a channel that waits for the user, with any outcome but a panic, leaves it waiting
  -- only if the command of the packet is the check of the status, and the receiver of the answer
  -- ran into its timeout: a cancel ends the wait, whatever the receiver has, and so does a check
  -- that finds an answer.
  pub parse-WaitsOn :
      (pkt : Bytes) (r : Receiver) (c : Context W)
      → IsConsent c.channel.state r
      → Ends (WaitsOn pkt (looked r c)) (parse env pkt c)
  unfolding parse make_credential_state get_assertion_state get_assertion_cancel
  parse-WaitsOn pkt r c is = in_state c.channel.state refl is
    where
      in_state :
          (s : State)
          → c.channel.state ≡ s
          → IsConsent s r
          → Ends (WaitsOn pkt (looked r c)) (parse_in env s pkt c)
      in_state State.init e is = absurd is
      in_state (State.cont cmd bcnt buffer seqnum) e is = absurd is
      in_state (State.make_credential args consent) e is =
          (parse_packet-Reads pkt).at c _ (λ p read.
            on_wait-WaitsOn (looked r c) (make_credential_2 env) c pkt p read
              (rw is at (make_credential_2-TimedOut args consent c e)))
      in_state (State.get_assertion args consent) e is = (parse_packet-Reads pkt).at c _ (λ p read.
          on_wait-WaitsOn (looked r c) (get_assertion_2 env) c pkt p read
            (rw is at (get_assertion_2-TimedOut args consent c e)))
