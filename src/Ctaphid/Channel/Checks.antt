-- ===== src/Ctaphid/Channel/Checks.antt =====
-- The check packets that a waiting channel of src/ctaphid.rs gets from `unparse`.
use f2ido.Prelude.{ℕ, false, ◌≡◌, refl, arith, [], ◌∷◌, ◌++◌}
use f2ido.Outcome.{ok}
use f2ido.Ctaphid.Types.{
  Queue, State, MakeCredentialArgs, Receiver, ctaphid_keepalive, ctaphid_cbor, status_upneeded,
  err_operation_denied,
}
use f2ido.Ctaphid.Env.{Env, answer, timeout}
use f2ido.Ctaphid.Context.{Context}
use f2ido.Ctaphid.Reply.Frames.{frames, send_reply-frames}
use f2ido.Ctaphid.Commands.{make_credential_2, send_cbor_error}
use f2ido.Ctaphid.Channel.{packet_cid, packet_bcnt, parse_packet, make_credential_state, parse}
use f2ido.Ctaphid.Parser.{check_packet}

module _ {W : Type 0} (env : Env W) (args : MakeCredentialArgs) (consent : Receiver) (cid : ℕ)
    (q : Queue) (w w' : W) where
  abbrev context : State → Queue → W → Context W
  context s q w = record { channel = record { cid = cid; state = s }; queue = q; world = w }

  -- When the receiver of the answer runs into its timeout, the check packet that unparse queues
  -- for a channel that registers a credential is answered by the packets of one keepalive, behind
  -- the queued replies, and the channel waits on with the same arguments.
  pub check_timeout :
      env.prompt.recv_timeout consent 200 w ≡ (timeout, w')
      → parse env (check_packet cid) (context (State.make_credential args consent) q w)
        ≡ ok tt (
            context
              (State.make_credential args consent)
              (q ++ frames cid ctaphid_keepalive (status_upneeded ∷ []))
              w')
  unfolding parse make_credential_state parse_packet packet_cid packet_bcnt make_credential_2
  check_timeout e = rw e (
      rw
        (send_reply-frames cid ctaphid_keepalive (status_upneeded ∷ []) q (omega arith)
          (omega arith))
        refl)

  -- When the user has refused, the check packet that unparse queues for a channel that registers a
  -- credential is answered by the packets of one error, behind the queued replies, and the channel
  -- is idle again.
  pub check_refused :
      env.prompt.recv_timeout consent 200 w ≡ (answer false, w')
      → parse env (check_packet cid) (context (State.make_credential args consent) q w)
        ≡ ok tt (context State.init (q ++ frames cid ctaphid_cbor (err_operation_denied ∷ [])) w')
  unfolding parse make_credential_state parse_packet packet_cid packet_bcnt make_credential_2
      send_cbor_error
  check_refused e = rw e (
      rw
        (send_reply-frames cid ctaphid_cbor (err_operation_denied ∷ []) q (omega arith)
          (omega arith))
        refl)
