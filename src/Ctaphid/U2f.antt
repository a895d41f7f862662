-- ===== src/Ctaphid/U2f.antt =====
-- The U2F (CTAP1) messages of `impl Channel` in src/ctaphid.rs.
use f2ido.Prelude.{
  ℕ, ◌+◌, ◌*◌, ◌%◌, true, false, ◌&&◌, ◌||◌, Option, none, some, [], ◌∷◌, ◌++◌, leb, ◌==◌, length,
  take, drop, if◌then◌else◌,
}
use f2ido.Prelude.Bits.{u32_to_be_bytes, u16_from_be_bytes}
use f2ido.Prelude.Text.{codes}
use f2ido.Outcome.{
  M, pure, abort, attempt, or_fail, ◌>>=◌, ◌>>◌, assert, index, slice, slice_from, Error,
}
use f2ido.Ctaphid.Types.{
  Bytes, ctaphid_msg, sw_no_error, sw_conditions_not_satisfied, sw_wrong_data, CredentialId,
}
use f2ido.Ctaphid.Env.{Env, Question, Recv, answer, failed, disconnected, timeout}
use f2ido.Ctaphid.Context.{Context, lift, call, reply}
use f2ido.Ctaphid.Commands.{same_id}

-- The length field at the end of a request: two bytes, or the payload is no payload.
abbrev pub length_field : Bytes → Option ℕ
length_field [] = none
length_field (l2 ∷ []) = none
length_field (l2 ∷ l1 ∷ []) = some (u16_from_be_bytes l2 l1)
length_field (l2 ∷ l1 ∷ x ∷ xs) = none

-- The request's length, its bytes and the length of the answer that it allows.
abbrev pub Payload : Type 0
Payload = ℕ × Bytes × ℕ

module _ {S : Type 0} where
  abbrev pub read_payload : (nc : ℕ) → Bytes → Option ℕ → M S (Option Payload)
  read_payload nc body none = pure none
  read_payload nc body (some lc) = pure (some (nc, body, lc))

  unfoldable pub payload_body : (n0 n2 n1 : ℕ) → Bytes → M S (Option Payload)
  payload_body n0 n2 n1 message =
      if n0 == 0
      then (do
        let nc = u16_from_be_bytes n2 n1
        end ← slice_from (3 + nc) message
        body ← slice 3 (3 + nc) message
        read_payload nc body (length_field end))
      else pure none

  -- `payload` of `msg_cmd`: the slices panic where the message is too short.
  unfoldable pub payload : Bytes → M S (Option Payload)
  unfolding payload_body
  payload message = do
    head ← slice 0 3 message
    n0 ← index head 0
    n2 ← index head 1
    n1 ← index head 2
    payload_body n0 n2 n1 message

module _ {W : Type 0} where
  unfoldable pub u2f_version : M (Context W) (Unit {0})
  u2f_version = reply ctaphid_msg (codes "U2F_V2" ++ sw_no_error)

  -- The answer of the user to a U2F request: `none` stands for the early return.
  abbrev pub on_u2f_consent : M (Context W) (Unit {0}) → Recv → M (Context W) (Unit {0})
  on_u2f_consent go (answer true) = go
  on_u2f_consent go (answer false) = reply ctaphid_msg sw_conditions_not_satisfied
  on_u2f_consent go disconnected = reply ctaphid_msg sw_conditions_not_satisfied
  on_u2f_consent go timeout = reply ctaphid_msg sw_conditions_not_satisfied
  on_u2f_consent go failed = abort

module _ {W : Type 0} (env : Env W) where
  -- `u2f_register` after the consent.
  unfoldable pub u2f_register_2 : (challenge application : Bytes) → M (Context W) (Unit {0})
  u2f_register_2 challenge application = do
    (wpriv, x, y) ← lift env.token.generate_key_pair
    let pub_key : Bytes = 0x04 ∷ x ++ y
    assert (length pub_key == 65)
    assert (leb (length wpriv) 255)
    encrypted ← lift (env.token.encrypt application)
    key_handle ←
        or_fail
          (env.cbor.write_credential_id
            (record { wrapped_private_key = wpriv; encrypted_rp_id = encrypted }))
          Error.cbor
    signature ←
        lift (env.token.sign wpriv (0x00 ∷ application ++ challenge ++ key_handle ++ pub_key))
    not_before ← call env.prompt.now
    let not_after : ℕ = not_before + 30 * 86400
    cert ← lift (
        env.token.create_certificate wpriv pub_key (codes "Fakecompany") (codes "Fakecompany")
          not_before not_after)
    reply ctaphid_msg (
        0x05 ∷ pub_key
        ++ (length key_handle % 256) ∷ key_handle
        ++ cert
        ++ signature
        ++ sw_no_error)

  unfoldable pub u2f_register : Bytes → M (Context W) (Unit {0})
  unfolding u2f_register_2
  u2f_register message = do
    assert (length message == 64)
    let challenge : Bytes = take 32 message
    let application : Bytes = drop 32 message
    consent ← call (env.prompt.yes_or_no_p Question.u2f_registration)
    r ← call (env.prompt.recv_timeout consent 10000)
    on_u2f_consent (u2f_register_2 challenge application) r

  -- `u2f_authenticate` after the consent.
  unfoldable pub u2f_authenticate_2 :
      (wpriv challenge application : Bytes) → M (Context W) (Unit {0})
  u2f_authenticate_2 wpriv challenge application = do
    counter ← lift env.token.increment_token_counter
    sig ← lift (env.token.sign wpriv (application ++ 0x01 ∷ u32_to_be_bytes counter ++ challenge))
    reply ctaphid_msg (0x01 ∷ u32_to_be_bytes counter ++ sig ++ sw_no_error)

  -- `match control`
  unfoldable pub u2f_control :
      (control : ℕ) (wpriv challenge application : Bytes) → M (Context W) (Unit {0})
  unfolding u2f_authenticate_2
  u2f_control control wpriv challenge application =
      if control == 7
      then reply ctaphid_msg sw_conditions_not_satisfied
      else if control == 3
      then (do
        consent ← call (env.prompt.yes_or_no_p Question.u2f_authentication)
        r ← call (env.prompt.recv_timeout consent 10000)
        on_u2f_consent (u2f_authenticate_2 wpriv challenge application) r)
      else abort

  -- The test of the key handle: it decrypts to the application.
  abbrev pub key_handle_read :
      (control : ℕ) (challenge application : Bytes) → Option CredentialId → M (Context W) (Unit {0})
  key_handle_read control challenge application none = reply ctaphid_msg sw_wrong_data
  key_handle_read control challenge application (some credential_id) = do
    valid ← lift (env.token.is_valid_id credential_id.wrapped_private_key)
    assert valid
    rp_id ← lift (attempt (env.token.decrypt credential_id.encrypted_rp_id))
    if same_id rp_id application
        then u2f_control control credential_id.wrapped_private_key challenge application
        else reply ctaphid_msg sw_wrong_data

  unfoldable pub u2f_authenticate : (control : ℕ) → Bytes → M (Context W) (Unit {0})
  unfolding u2f_control
  u2f_authenticate control message = do
    challenge ← slice 0 32 message
    application ← slice 32 64 message
    l ← index message 64
    key_handle ← slice_from 65 message
    assert (length key_handle == l)
    key_handle_read control challenge application (env.cbor.read_credential_id key_handle)

  -- The `match` of `msg_cmd` on the four bytes of the header and the payload.
  unfoldable pub dispatch_msg : (cla ins p1 p2 : ℕ) → Option Payload → M (Context W) (Unit {0})
  unfolding u2f_version u2f_register u2f_authenticate
  dispatch_msg cla ins p1 p2 none = abort
  dispatch_msg cla ins p1 p2 (some (nc, d, lc)) =
      if (cla == 0) && (ins == 3) && (p1 == 0) && (p2 == 0) && (nc == 0) && (lc == 0)
      then u2f_version
      else if (cla == 0)
          && (ins == 1)
          && (p2 == 0)
          && (nc == 64)
          && (lc == 0)
          && ((p1 == 0) || (p1 == 3))
      then u2f_register d
      else if (cla == 0)
          && (ins == 2)
          && (p2 == 0)
          && (lc == 0)
          && ((p1 == 3) || (p1 == 7) || (p1 == 8))
      then u2f_authenticate p1 d
      else abort

  unfoldable pub msg_cmd : Bytes → M (Context W) (Unit {0})
  unfolding payload dispatch_msg
  msg_cmd message = do
    head ← slice 0 4 message
    rest ← slice_from 4 message
    p ← payload rest
    cla ← index head 0
    ins ← index head 1
    p1 ← index head 2
    p2 ← index head 3
    dispatch_msg cla ins p1 p2 p
