-- ===== src/Ctaphid/Effects/U2f.antt =====
-- The U2F messages of a channel, and the properties that replies keep.
use f2ido.Prelude.{ℕ, true, false, List, ◌∷◌, ◌++◌, Option, none, some}
use f2ido.Outcome.{M}
use f2ido.Ctaphid.Types.{Bytes, Queue, Channel, CredentialId}
use f2ido.Ctaphid.Env.{Env, Recv, answer, failed, disconnected, timeout}
use f2ido.Ctaphid.Context.{Context}
use f2ido.Ctaphid.U2f.{
  Payload, read_payload, payload, on_u2f_consent, u2f_register_2, u2f_register, u2f_authenticate_2,
  u2f_control, key_handle_read, u2f_authenticate, dispatch_msg, msg_cmd,
}
use f2ido.Ctaphid.Reply.Bounds.{AreFrames}
use f2ido.Ctaphid.Effects.Rules.{
  Keeps, Keeps-pure, Keeps-abort, Keeps-if, Keeps-slice, Keeps-slice_from, On,
}
use f2ido.Ctaphid.Effects.Commands.{rules}

ruleset u2f_rules = (rules, Keeps-if, Keeps-slice, Keeps-slice_from)

module _ {W : Type 0} (env : Env W) (F : Channel → Queue → Type 0)
    (grows : (ch : Channel) (q : Queue) (p : Bytes) (ps : List Bytes)
      → AreFrames (p ∷ ps)
      → F ch q
      → F ch (q ++ p ∷ ps)) where
  consent-Keeps :
      (go : M (Context W) (Unit {0})) (r : Recv)
      → Keeps (On {W = W} F) go
      → Keeps (On {W = W} F) (on_u2f_consent go r)
  consent-Keeps go (answer true) h = h
  consent-Keeps go (answer false) h = search (u2f_rules, grows)
  consent-Keeps go disconnected h = search (u2f_rules, grows)
  consent-Keeps go timeout h = search (u2f_rules, grows)
  consent-Keeps go failed h = Keeps-abort _

  u2f_register_2-Keeps :
      (challenge application : Bytes)
      → Keeps (On {W = W} F) (u2f_register_2 env challenge application)
  unfolding u2f_register_2
  u2f_register_2-Keeps challenge application = search (u2f_rules, grows) depth 40

  u2f_register-Keeps : (message : Bytes) → Keeps (On {W = W} F) (u2f_register env message)
  unfolding u2f_register
  u2f_register-Keeps message =
      search (u2f_rules, grows, consent-Keeps, u2f_register_2-Keeps) depth 40

  u2f_authenticate_2-Keeps :
      (wpriv challenge application : Bytes)
      → Keeps (On {W = W} F) (u2f_authenticate_2 env wpriv challenge application)
  unfolding u2f_authenticate_2
  u2f_authenticate_2-Keeps wpriv challenge application = search (u2f_rules, grows) depth 40

  u2f_control-Keeps :
      (control : ℕ) (wpriv challenge application : Bytes)
      → Keeps (On {W = W} F) (u2f_control env control wpriv challenge application)
  unfolding u2f_control
  u2f_control-Keeps control wpriv challenge application =
      search (u2f_rules, grows, consent-Keeps, u2f_authenticate_2-Keeps) depth 40

  key_handle_read-Keeps :
      (control : ℕ) (challenge application : Bytes) (o : Option CredentialId)
      → Keeps (On {W = W} F) (key_handle_read env control challenge application o)
  key_handle_read-Keeps control challenge application none = search (u2f_rules, grows)
  key_handle_read-Keeps control challenge application (some id) =
      search (u2f_rules, grows, u2f_control-Keeps) depth 40

  u2f_authenticate-Keeps :
      (control : ℕ) (message : Bytes) → Keeps (On {W = W} F) (u2f_authenticate env control message)
  unfolding u2f_authenticate
  u2f_authenticate-Keeps control message = search (u2f_rules, grows, key_handle_read-Keeps) depth 40

  dispatch_msg-Keeps :
      (cla ins p1 p2 : ℕ) (o : Option Payload)
      → Keeps (On {W = W} F) (dispatch_msg env cla ins p1 p2 o)
  unfolding dispatch_msg
  dispatch_msg-Keeps cla ins p1 p2 none = Keeps-abort _
  dispatch_msg-Keeps cla ins p1 p2 (some (nc, d, lc)) =
      search (u2f_rules, grows, u2f_register-Keeps, u2f_authenticate-Keeps) depth 40

  read_payload-Keeps :
      (nc : ℕ) (body : Bytes) (o : Option ℕ) → Keeps (On {W = W} F) (read_payload nc body o)
  read_payload-Keeps nc body none = Keeps-pure _ _
  read_payload-Keeps nc body (some lc) = Keeps-pure _ _

  payload-Keeps : (message : Bytes) → Keeps (On {W = W} F) (payload message)
  unfolding payload
  payload-Keeps message = search (u2f_rules, grows, read_payload-Keeps) depth 40

  pub msg_cmd-Keeps : (message : Bytes) → Keeps (On {W = W} F) (msg_cmd env message)
  unfolding msg_cmd
  msg_cmd-Keeps message = search (u2f_rules, grows, payload-Keeps, dispatch_msg-Keeps) depth 40
